-- ===== src/Search/Program.antt =====
-- `search_init`, `search_done` and the three entry points of sources/fusg/src/search.c, from the
-- configuration file to the close of the database.
use fusg.Base.{
  ℕ, true, false, List, [], ◌∷◌, Option, none, some, Bytes, ℤ, pos, negsuc, success, is_zero,
  is_minus_one, leb, length, take, if◌then◌else◌,
}
use fusg.Db.Platform.{Platform}
use fusg.Db.State.{OpenFlags, Errno, Call, Db, M, pure, abort, ◌>>=◌}
use fusg.Db.Disk.{Disk}
use fusg.Db.Iterator.{Iterator}
use fusg.Db.Open.{as_open, Opened, opened, refused, db_close, db_open}
use fusg.Conf.Lines.{Conf, err_conf, fusg_conf_read}
use fusg.Search.Entries.{Found}
use fusg.Search.Queries.{search_files_single, search_execs_single, search_dump_all}

-- The surroundings of a search: the content of a file, `realpath`, `gdbm_errno` and an iterator
-- before the first call, and the fuel of each loop over the entries.
pub record World (F : Type 0) : Type 0 where
  pub platform : Platform F
  pub disk : Disk F
  pub contents : Bytes → Option Bytes
  pub realpath : Bytes → Option Bytes
  pub errno : Errno
  pub iterator : Iterator
  pub fuel : ℕ

-- `FUSG_READ`
abbrev pub to_read : OpenFlags
to_read = record { read = true; write = false; sync = false }

-- `ERR_DB`
abbrev pub err_db : ℤ
err_db = pos 3

-- What a search leaves: its code, what it printed for each argument, and the calls on the database.
pub record Ran : Type 0 where
  pub code : ℤ
  pub printed : List (Option Found)
  pub calls : List Call

-- the `num` strings from `entries` on; a read behind the last is `none`
abbrev pub entries_read : ℤ → List Bytes → Option (List Bytes)
entries_read (pos num) entries = if leb num (length entries) then some (take num entries) else none
entries_read (negsuc num) entries = some []

-- The code of `search_init`, the calls on the database, and the connection with the descriptor of
-- its lock, where it is not a null pointer.
abbrev pub Init : Type 0 → Type 0
Init F = ℤ × List Call × Option (ℤ × Db F)

module _ {F : Type 0} (w : World F) where
  abbrev pub opened_with : ℤ → ℤ → Option (Opened F) → Option (Init F)
  opened_with rc fd none = none
  opened_with rc fd (some (opened d)) = some (rc, d.calls, some (fd, d))
  opened_with rc fd (some (refused calls)) = some (err_db, calls, none)

  -- behind the configuration
  abbrev pub after_conf : Option (ℤ × Conf) → Option (Init F)
  after_conf none = none
  after_conf (some (rc, conf)) =
      if is_minus_one rc
      then some (err_conf, [], none)
      else opened_with rc (w.disk.open_dir conf.db_path)
          (db_open w.platform w.disk to_read w.errno conf.db_path)

  unfoldable pub search_init : Bytes → Option (Init F)
  search_init conf_file = after_conf (fusg_conf_read (w.contents conf_file))

  unfoldable pub search_done : ℤ → List (Option Found) → Db F → Option Ran
  search_done fd printed d = elim (db_close w.platform fd (as_open d)) [
    | none ↦ none
    | some (_, d') ↦ some (record { code = success; printed = printed; calls = d'.calls })
  ]

  -- the loop over the arguments, whose codes are not used
  abbrev pub each_argument :
      (Bytes → M F (ℤ × Option Found)) → List Bytes → M F (List (Option Found))
  each_argument search [] = pure []
  each_argument search (name ∷ names) = do
    (rc, found) ← search name
    rest ← each_argument search names
    pure (found ∷ rest)

  abbrev pub all_arguments :
      (Bytes → M F (ℤ × Option Found)) → Option (List Bytes) → M F (List (Option Found))
  all_arguments search none = abort
  all_arguments search (some names) = each_argument search names

  -- `if (rc) return rc;`, the search, and `search_done`
  abbrev pub close_after : M F (List (Option Found)) → Option (Init F) → Option Ran
  close_after search none = none
  close_after search (some (rc, calls, none)) =
      some (record { code = rc; printed = []; calls = calls })
  close_after search (some (rc, calls, some (fd, d))) =
      if is_zero rc
      then (elim (search d) [ none ↦ none | some (printed, d') ↦ search_done fd printed d' ])
      else some (record { code = rc; printed = []; calls = calls })

  unfoldable pub search_files : Bytes → ℤ → List Bytes → Option Ran
  search_files conf_file num_execs execs =
      close_after
        (all_arguments
          (λ exe. search_files_single w.platform w.fuel w.iterator (w.realpath exe) exe)
          (entries_read num_execs execs))
        (search_init conf_file)

  unfoldable pub search_execs : Bytes → ℤ → List Bytes → Option Ran
  search_execs conf_file num_files files =
      close_after
        (all_arguments
          (λ file. search_execs_single w.platform w.fuel w.iterator (w.realpath file) file)
          (entries_read num_files files))
        (search_init conf_file)

  unfoldable pub search_dump : Bytes → Option Ran
  search_dump conf_file = close_after dump (search_init conf_file)
    where
      dump : M F (List (Option Found))
      dump = do (rc, found) ← search_dump_all w.platform w.fuel w.iterator; pure (found ∷ [])
