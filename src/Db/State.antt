-- ===== src/Db/State.antt =====
-- The connection `db_t`, and the actions on it. A null `dptr` leaves its `gdbm_errno` in the state,
-- where `__db_check_expected_notfound` reads it. Log messages are not modelled.
use fusg.Base.{ℕ, Bool, List, ◌∷◌, Option, none, some, Bytes, ℤ, length}
use fusg.Db.Platform.{found, missing, failed, LockOp, Platform}

-- `db_flags_t`, a set of bits
pub record OpenFlags : Type 0 where
  pub read : Bool
  pub write : Bool
  pub sync : Bool

-- the fields of `db_t` that hold an open gdbm file
pub data Table : Type 0 where
  exec execr file filer evnt idtb : Table

-- the calls that leave the process, the last first
pub data Call : Type 0 where
  locking : LockOp → Call
  syncing : Call
  opening closing : Table → Call
  closing_lock : Call

pub data Errno : Type 0 where
  item_not_found other_error : Errno

pub record Db (F : Type 0) : Type 0 where
  pub open_flags : OpenFlags
  pub dirty : Bool
  pub lock_depth : ℕ
  pub exec_db : F
  pub execr_db : F
  pub file_db : F
  pub filer_db : F
  pub evnt_db : F
  pub idtb_db : F
  pub gdbm_errno : Errno
  pub calls : List Call

module _ {F : Type 0} where
  abbrev pub table : Table → Db F → F
  table exec d = d.exec_db
  table execr d = d.execr_db
  table file d = d.file_db
  table filer d = d.filer_db
  table evnt d = d.evnt_db
  table idtb d = d.idtb_db

  abbrev pub set_table : Table → F → Db F → Db F
  set_table exec f d = record d { exec_db = f }
  set_table execr f d = record d { execr_db = f }
  set_table file f d = record d { file_db = f }
  set_table filer f d = record d { filer_db = f }
  set_table evnt f d = record d { evnt_db = f }
  set_table idtb f d = record d { idtb_db = f }

-- An action on the connection; `none` is a failed assertion, which aborts the process.
abbrev pub M : Type 0 → Type 0 → Type 0
M F A = Db F → Option (A × Db F)

module _ {F : Type 0} where
  abbrev pub pure : {A : Type 0} → A → M F A
  pure a d = some (a, d)

  abbrev pub gets : {A : Type 0} → (Db F → A) → M F A
  gets f d = some (f d, d)

  abbrev pub abort : {A : Type 0} → M F A
  abort d = none

  abbrev pub modify : (Db F → Db F) → M F (Unit {0})
  modify f d = some (tt, f d)

  infixl 5 ◌>>=◌ ◌>>◌
  abbrev pub ◌>>=◌ : {A B : Type 0} → M F A → (A → M F B) → M F B
  ◌>>=◌ m f d = elim (m d) [ none ↦ none | some (a, d') ↦ f a d' ]

  abbrev pub ◌>>◌ : {A B : Type 0} → M F A → M F B → M F B
  m >> k = m >>= λ _. k

module _ {F : Type 0} (p : Platform F) where
  -- `gdbm_fetch(dbc-><table>, key)`; a null result sets `gdbm_errno`
  unfoldable pub gdbm_fetch : Table → Bytes → M F (Option Bytes)
  gdbm_fetch t key d = elim (p.fetch (table t d) key) [
    | found content ↦ some (some content, d)
    | missing ↦ some (none, record d { gdbm_errno = item_not_found })
    | failed ↦ some (none, record d { gdbm_errno = other_error })
  ]

  unfoldable pub gdbm_store : Table → Bytes → Bytes → M F ℤ
  gdbm_store t key content d =
      let (rc, f) = p.store (table t d) key content in some (rc, set_table t f d)

  unfoldable pub flock : LockOp → M F ℤ
  flock op d = some (p.flock (length d.calls) op, record d { calls = locking op ∷ d.calls })
