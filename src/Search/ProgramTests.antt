-- ===== src/Search/ProgramTests.antt =====
-- A search without a configuration, on a disk in memory.
use fusg.Base.{◌+◌, true, false, [], ◌∷◌, none, some, codes, pos, ◌≡◌, refl}
use fusg.Db.Platform.{lock_sh, lock_un}
use fusg.Db.State.{
  locking, opening, Table, exec, execr, file, filer, evnt, idtb, item_not_found, Db, flock,
}
use fusg.Db.Lock.{db_lock, db_unlock, release}
use fusg.Db.Memory.{Entries, memory}
use fusg.Db.Disk.{exists}
use fusg.Db.Open.{
  opened, db_open, db_connect, connect, ready, open_tables, open_table, check_health, fdir_contains,
}
use fusg.Db.Balance.{opens, closes}
use fusg.Db.OpenTests.{files_of}
use fusg.FilePath.Canonical.{fiscanonical}
use fusg.Conf.Lines.{config_init, err_conf}
use fusg.Search.Program.{World, to_read, search_files}
use fusg.Search.Unreadable.{search_files-leaves_open}

abbrev world : World Entries
world = record {
  platform = memory;
  disk = files_of exists true;
  contents = λ path. none;
  realpath = λ path. none;
  errno = item_not_found;
  iterator = record { have_lock = true; db_key = none };
  fuel = 3;
}

abbrev left_open : Db Entries
left_open = record {
  open_flags = to_read;
  dirty = false;
  lock_depth = 0;
  exec_db = [];
  execr_db = [];
  file_db = [];
  filer_db = [];
  evnt_db = [];
  idtb_db = [];
  gdbm_errno = item_not_found;
  calls =
      locking lock_un
      ∷ opening idtb
      ∷ opening evnt
      ∷ opening filer
      ∷ opening file
      ∷ opening execr
      ∷ opening exec
      ∷ locking lock_sh
      ∷ [];
}

left_open-db_open :
    db_open memory (files_of exists true) to_read item_not_found config_init.db_path
    ≡ some (opened left_open)
unfolding db_open db_connect connect ready open_tables open_table check_health fdir_contains
    fiscanonical db_lock db_unlock release flock
left_open-db_open = refl

search_files-leaves_open_example :
    (search_files world (codes "/none") (pos 1) (codes "/n" ∷ [])
      ≡ some (record { code = err_conf; printed = []; calls = left_open.calls }))
    × ((t : Table) → opens t left_open.calls ≡ 1 + closes t left_open.calls)
search_files-leaves_open_example =
    search_files-leaves_open world (codes "/none") (pos 1) (codes "/n" ∷ []) left_open refl
      left_open-db_open
