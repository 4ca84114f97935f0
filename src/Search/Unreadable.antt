-- ===== src/Search/Unreadable.antt =====
-- A search whose configuration cannot be read.
use fusg.Base.{◌+◌, List, [], none, some, Bytes, ℤ, ◌≡◌, refl, ap, ◌∙◌}
use fusg.Db.State.{Table, exec, execr, file, filer, evnt, idtb, Db, table}
use fusg.Db.Open.{as_open, opened, db_open}
use fusg.Db.Balance.{opens, closes, held}
use fusg.Db.Connected.{IsAccounted}
use fusg.Db.Accounts.{db_open-IsAccounted}
use fusg.Conf.Lines.{config_init, err_conf, fusg_conf_read}
use fusg.Search.Program.{
  World, to_read, after_conf, opened_with, close_after, search_init, search_files,
}

module _ {F : Type 0} (w : World F) where
  held-as_open : (t : Table) (d : Db F) → held (table t (as_open d)) ≡ 1
  held-as_open exec d = refl
  held-as_open execr d = refl
  held-as_open file d = refl
  held-as_open filer d = refl
  held-as_open evnt d = refl
  held-as_open idtb d = refl

  conf_read-default :
      (conf_file : Bytes)
      → w.contents conf_file ≡ none
      → fusg_conf_read (w.contents conf_file) ≡ some (err_conf, config_init)
  unfolding fusg_conf_read
  conf_read-default conf_file unreadable = ap fusg_conf_read unreadable

  init-opens :
      (conf_file : Bytes) (d : Db F)
      → w.contents conf_file ≡ none
      → db_open w.platform w.disk to_read w.errno config_init.db_path ≡ some (opened d)
      → search_init w conf_file
        ≡ some (err_conf, d.calls, some (w.disk.open_dir config_init.db_path, d))
  unfolding search_init
  init-opens conf_file d unreadable opens_default =
      ap (after_conf w) (conf_read-default conf_file unreadable)
      ∙ ap (opened_with w err_conf (w.disk.open_dir config_init.db_path)) opens_default

  -- Where the configuration cannot be opened and there is a database at the default path, a search
  -- returns ERR_CONF and prints nothing, but it has opened the database first, and leaves it open:
  -- each of the six files was opened once more than it was closed.
  pub search_files-leaves_open :
      (conf_file : Bytes) (num_execs : ℤ) (execs : List Bytes) (d : Db F)
      → w.contents conf_file ≡ none
      → db_open w.platform w.disk to_read w.errno config_init.db_path ≡ some (opened d)
      → (search_files w conf_file num_execs execs
          ≡ some (record { code = err_conf; printed = []; calls = d.calls }))
        × ((t : Table) → opens t d.calls ≡ 1 + closes t d.calls)
  unfolding search_files
  search_files-leaves_open conf_file num_execs execs d unreadable opens_default =
      let accounted : IsAccounted to_read (some (opened d)) =
        rw opens_default at
          (db_open-IsAccounted w.platform to_read refl w.disk w.errno config_init.db_path) in
      (
        ap (close_after w _) (init-opens conf_file d unreadable opens_default),
        λ t. accounted.2.files t ∙ ap (λ n. n + closes t d.calls) (held-as_open t d),
      )
