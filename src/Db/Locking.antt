-- ===== src/Db/Locking.antt =====
-- What `db_lock` and `db_unlock` do to a connection.
use fusg.Base.{
  ℕ, zero, suc, ◌+◌, ◌-◌, Bool, true, false, ◌&&◌, List, [], ◌∷◌, some, ℤ, success, if◌then◌else◌,
  ◌==◌, length, ◌≡◌, refl, arith,
}
use fusg.Db.Platform.{lock_ex, lock_sh, lock_un, LockOp, Platform}
use fusg.Db.State.{Db, Call, locking, syncing, exec}
use fusg.Db.Lock.{db_sync, db_lock, db_unlock}
use fusg.Db.Consistent.{SameTables}

-- exclusive for a writer, shared for a reader
abbrev pub lock_op : Bool → LockOp
lock_op write = if write then lock_ex else lock_sh

-- the calls of the outermost unlock, the last first
abbrev pub release_calls : Bool → List Call
release_calls syncs = locking lock_un ∷ (if syncs then syncing ∷ [] else [])

module _ {F : Type 0} where
  -- the connection after a lock
  abbrev pub locked : Db F → Db F
  locked d = record d {
    lock_depth = d.lock_depth + 1;
    calls = if d.lock_depth == 0 then locking (lock_op d.open_flags.write) ∷ d.calls else d.calls;
  }

  pub SameTables-locked : (d : Db F) → SameTables d (locked d)
  SameTables-locked d exec = refl
  SameTables-locked d _ = refl

  abbrev pub syncs : Db F → Bool
  syncs d = d.open_flags.sync && d.open_flags.write

  -- the connection after an unlock
  abbrev pub unlocked : Db F → Db F
  unlocked d = record d {
    lock_depth = d.lock_depth - 1;
    dirty = if d.lock_depth == 1 && syncs d then false else d.dirty;
    calls =
        if d.lock_depth == 1
        then locking lock_un ∷ (if syncs d then syncing ∷ d.calls else d.calls)
        else d.calls;
  }

  pub SameTables-unlocked : (d : Db F) → SameTables d (unlocked d)
  SameTables-unlocked d exec = refl
  SameTables-unlocked d _ = refl

module _ {F : Type 0} where
  -- the connection behind `__db_sync`
  abbrev pub synced : Bool → Db F → Db F
  synced true e = record e { calls = syncing ∷ e.calls; dirty = false }
  synced false e = e

  pub db_sync-synced :
      (e : Db F) (b : Bool) → e.open_flags.write ≡ b → db_sync e ≡ some (tt, synced b e)
  unfolding db_sync
  db_sync-synced e true h = rw (h, db_sync) refl
  db_sync-synced e false h = rw (h, db_sync) refl

  pub SameTables-synced : (b : Bool) (e : Db F) → SameTables e (synced b e)
  SameTables-synced true e exec = refl
  SameTables-synced true e _ = refl
  SameTables-synced false e t = refl

module _ {F : Type 0} (p : Platform F) where
  pub db_lock-locked : (d : Db F) → (rc : ℤ) × (db_lock p d ≡ some (rc, locked d))
  unfolding db_lock
  db_lock-locked d = (
    if d.lock_depth == 0 then p.flock (length d.calls) (lock_op d.open_flags.write) else success,
    ground arith,
  )

  pub db_unlock-unlocked :
      (d : Db F) (k : ℕ) → d.lock_depth ≡ k + 1 → (rc : ℤ) × (db_unlock p d ≡ some (rc, unlocked d))
  unfolding db_unlock
  db_unlock-unlocked d zero h =
      (p.flock (length (if syncs d then syncing ∷ d.calls else d.calls)) lock_un, ground arith)
  db_unlock-unlocked d (suc k) h = (success, ground arith)
