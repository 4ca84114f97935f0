-- ===== src/Db/Open.antt =====
-- `db_open`, `db_close` and `__db_check_health` of sources/fusg-common/src/db.c. While a connection is
-- opened each of its six files can be a null pointer; its tables are options then.
use fusg.Base.{
  ℕ, ◌-◌, ◌==◌, Bool, true, false, not, ◌&&◌, ◌||◌, List, [], ◌∷◌, ◌++◌, Option, none, some, Bytes,
  codes, ℤ, failure, is_zero, length, leb, take, if◌then◌else◌,
}
use fusg.Db.Platform.{failed, Platform}
use fusg.Db.State.{
  OpenFlags, Call, opening, closing, closing_lock, Errno, Table, exec, execr, file, filer, evnt,
  idtb, Db, table, set_table, M, pure, gets, modify, ◌>>=◌, ◌>>◌,
}
use fusg.Db.Lock.{db_sync, db_lock, db_unlock}
use fusg.Db.Ids.{id_init}
use fusg.Db.Disk.{Stat, exists, no_entry, stat_error, Disk}
use fusg.FilePath.Canonical.{fiscanonical}

-- `db_health_t`
pub data Health : Type 0 where
  healthy not_found no_access corrupted : Health

-- `DB_FILE_EXEC` and its kin
abbrev pub file_name : Table → Bytes
file_name exec = codes "exec.db"
file_name execr = codes "execr.db"
file_name file = codes "file.db"
file_name filer = codes "filer.db"
file_name evnt = codes "evnt.db"
file_name idtb = codes "idtb.db"

-- in the order in which the files are opened and closed
abbrev pub tables : List Table
tables = exec ∷ execr ∷ file ∷ filer ∷ evnt ∷ idtb ∷ []

-- "%s/%s"
abbrev pub table_path : Bytes → Table → Bytes
table_path dbpath t = dbpath ++ (b'/' ∷ file_name t)

-- `PATH_MAX`
abbrev pub path_max : ℕ
path_max = 4096

abbrev pub no_flags : OpenFlags
no_flags = record { read = false; write = false; sync = false }

abbrev pub any_flag : OpenFlags → Bool
any_flag u = u.read || (u.write || u.sync)

-- gdbm on handles that can be null; a null handle is not passed to gdbm
abbrev pub nullable : {F : Type 0} → Platform F → Platform (Option F)
nullable p = record {
  fetch = λ f k. elim f [ none ↦ failed | some t ↦ p.fetch t k ];
  store = λ f k v. elim f [
    | none ↦ (failure, none)
    | some t ↦ let (rc, t') = p.store t k v in (rc, some t')
  ];
  first_key = λ f. elim f [ none ↦ none | some t ↦ p.first_key t ];
  next_key = λ f k. elim f [ none ↦ none | some t ↦ p.next_key t k ];
  flock = p.flock;
}

-- a connection whose files are all open, and back
abbrev pub as_open : {F : Type 0} → Db F → Db (Option F)
as_open d = record {
  open_flags = d.open_flags;
  dirty = d.dirty;
  lock_depth = d.lock_depth;
  exec_db = some d.exec_db;
  execr_db = some d.execr_db;
  file_db = some d.file_db;
  filer_db = some d.filer_db;
  evnt_db = some d.evnt_db;
  idtb_db = some d.idtb_db;
  gdbm_errno = d.gdbm_errno;
  calls = d.calls;
}

abbrev pub all_open :
    {F : Type 0}
    → Option F
    → Option F
    → Option F
    → Option F
    → Option F
    → Option F
    → Db (Option F)
    → Option (Db F)
all_open (some a) (some b) (some c) (some e) (some f) (some g) d = some (record {
  open_flags = d.open_flags;
  dirty = d.dirty;
  lock_depth = d.lock_depth;
  exec_db = a;
  execr_db = b;
  file_db = c;
  filer_db = e;
  evnt_db = f;
  idtb_db = g;
  gdbm_errno = d.gdbm_errno;
  calls = d.calls;
})
all_open _ _ _ _ _ _ d = none

abbrev pub opened_files : {F : Type 0} → Db (Option F) → Option (Db F)
opened_files d = all_open d.exec_db d.execr_db d.file_db d.filer_db d.evnt_db d.idtb_db d

-- `calloc`, and the flags
abbrev pub allocated : {F : Type 0} → OpenFlags → Errno → Db (Option F)
allocated flags errno = record {
  open_flags = flags;
  dirty = false;
  lock_depth = 0;
  exec_db = none;
  execr_db = none;
  file_db = none;
  filer_db = none;
  evnt_db = none;
  idtb_db = none;
  gdbm_errno = errno;
  calls = [];
}

-- what `db_open` returns: a connection, or null; then the calls of the attempt are left
pub data Opened (F : Type 0) : Type 0 where
  opened : Db F → Opened F
  refused : List Call → Opened F

abbrev pub is_present : Stat → Bool
is_present exists = true
is_present _ = false

module _ {F : Type 0} (p : Platform F) where
  -- `if (dbc-><table>) gdbm_close(dbc-><table>)`
  unfoldable pub close_table : Table → M (Option F) (Unit {0})
  close_table t d = elim (table t d) [
    | none ↦ some (tt, d)
    | some f ↦ some (tt, record d { calls = closing t ∷ d.calls })
  ]

  unfoldable pub close_tables : List Table → M (Option F) (Unit {0})
  close_tables [] = pure tt
  close_tables (t ∷ ts) = close_table t >> close_tables ts

  -- `if (dbc->lock_depth)`
  unfoldable pub force_unlock : ℕ → M (Option F) (Unit {0})
  force_unlock depth =
      if depth == 0
      then pure tt
      else modify (λ d. record d { lock_depth = 1 }) >> db_unlock (nullable p) >> pure tt

  -- the six files and the directory, whose descriptor is `fd`
  unfoldable pub close_files : ℤ → M (Option F) (Unit {0})
  close_files fd =
      close_tables tables
      >> (if is_zero fd then pure tt else modify (λ d. record d { calls = closing_lock ∷ d.calls }))

  -- `fd` is `dbc->lockfd`
  unfoldable pub db_close : ℤ → M (Option F) (Unit {0})
  db_close fd = do
    flags ← gets (λ d. d.open_flags)
    depth ← gets (λ d. d.lock_depth)
    let close : M (Option F) (Unit {0}) = do
      modify (λ d. record d { open_flags = no_flags })
      force_unlock depth
      close_files fd
    if any_flag flags then close else pure tt

  -- the label `error` of `db_open`
  unfoldable pub give_up : ℤ → M (Option F) (Unit {0})
  give_up fd = do db_unlock (nullable p); db_close fd

module _ {F : Type 0} (p : Platform F) (disk : Disk F) where
  -- `fdir_contains`
  unfoldable pub fdir_contains : Bytes → Bytes → Bool
  fdir_contains dir name = is_present (disk.stat (take (path_max - 1) (dir ++ (b'/' ∷ name))))

  abbrev pub contains_all : Bytes → List Table → Bool
  contains_all dbpath [] = true
  contains_all dbpath (t ∷ ts) = fdir_contains dbpath (file_name t) && contains_all dbpath ts

  -- `__db_check_health`
  unfoldable pub check_health : Bytes → Health
  check_health dbpath = elim (disk.stat dbpath) [
    | no_entry ↦ not_found
    | stat_error ↦ no_access
    | exists ↦ if contains_all dbpath tables then healthy else corrupted
  ]

  -- one `sprintf` and `gdbm_open`; a path that is longer than the buffer is undefined
  unfoldable pub open_table : Bytes → Table → M (Option F) Bool
  open_table dbpath t d =
      if leb path_max (length (table_path dbpath t))
      then none
      else (elim (disk.gdbm_open (table_path dbpath t) d.open_flags.write) [
        | none ↦ some (false, d)
        | some f ↦ some (true, set_table t (some f) (record d { calls = opening t ∷ d.calls }))
      ])

  unfoldable pub open_tables : Bytes → List Table → M (Option F) Bool
  open_tables dbpath [] = pure true
  open_tables dbpath (t ∷ ts) = do
    ok ← open_table dbpath t
    if ok then open_tables dbpath ts else pure false

-- the two results of an attempt
abbrev pub reject : {F : Type 0} → Option (Unit {0} × Db (Option F)) → Option (Opened F)
reject none = none
reject (some (_, d)) = some (refused d.calls)

abbrev pub accept : {F : Type 0} → Option (ℤ × Db F) → Option (Opened F)
accept none = none
accept (some (_, d)) = some (opened d)

module _ {F : Type 0} (p : Platform F) (fd : ℤ) where
  -- `if (dbinit)`
  unfoldable pub initialise : Db F → Option (Opened F)
  initialise d = elim (id_init p d) [
    | none ↦ none
    | some (rc, d') ↦
        if is_zero rc
        then accept ((db_sync >> db_unlock p) d')
        else reject (give_up p fd (as_open d'))
  ]

  -- behind the six files; they are all open here
  unfoldable pub ready : Bool → Option (Db F) → Option (Opened F)
  ready dbinit none = none
  ready dbinit (some d) = if dbinit then initialise d else accept (db_unlock p d)

  -- a null file goes to the label `error`
  abbrev pub after_files : Bool → Option (Bool × Db (Option F)) → Option (Opened F)
  after_files dbinit none = none
  after_files dbinit (some (true, d)) = ready dbinit (opened_files d)
  after_files dbinit (some (false, d)) = reject (give_up p fd d)

module _ {F : Type 0} (p : Platform F) (disk : Disk F) (fd : ℤ) where
  -- the lock and the six files
  unfoldable pub connect : OpenFlags → Errno → Bytes → Bool → Option (Opened F)
  connect flags errno dbpath dbinit =
      after_files p fd dbinit
        ((db_lock (nullable p) >> open_tables p disk dbpath tables) (allocated flags errno))

module _ {F : Type 0} (p : Platform F) (disk : Disk F) where
  -- from the allocation on; `if (!dbc->lockfd)`
  unfoldable pub db_connect : OpenFlags → Errno → Bytes → Bool → Option (Opened F)
  db_connect flags errno dbpath dbinit =
      if is_zero (disk.open_dir dbpath)
      then reject (give_up p (disk.open_dir dbpath) (allocated flags errno))
      else connect p disk (disk.open_dir dbpath) flags errno dbpath dbinit

  -- `errno` is what `gdbm_errno` holds before; `none` is an abort, or an access outside of a buffer
  unfoldable pub db_open : OpenFlags → Errno → Bytes → Option (Opened F)
  db_open flags errno dbpath =
      if not (fiscanonical dbpath) then none else (elim (check_health p disk dbpath) [
        | healthy ↦ db_connect flags errno dbpath false
        | not_found ↦
            if not flags.write
            then some (refused [])
            else (if disk.mkdir dbpath
                then db_connect flags errno dbpath true
                else some (refused []))
        | no_access ↦ some (refused [])
        | corrupted ↦ some (refused [])
      ])
