-- ===== src/Daemon/Clean.antt =====
-- `db_flush` leaves no change to be synced.
use fusg.Base.{
  ℕ, ◌-◌, Bool, true, false, ◌&&◌, Option, none, some, success, is_zero, ◌==◌, length,
  if◌then◌else◌, ◌≡◌, refl, ◌⊎◌, inl, inr, Bool-cases,
}
use fusg.Db.Platform.{LockOp, Platform}
use fusg.Db.State.{Db, pure, ◌>>=◌, ◌>>◌, flock}
use fusg.Db.Lock.{db_sync, db_lock, release, db_unlock, db_flush}
use fusg.Db.Locking.{synced, db_sync-synced, locked, lock_op}

-- no changes are left to sync, or the database is not open to write
abbrev pub IsClean : {F : Type 0} → Db F → Type 0
IsClean d = (d.dirty ≡ false) ⊎ (d.open_flags.write ≡ false)

abbrev pub CleanAfter : {F : Type 0} {A : Type 0} → Option (A × Db F) → Type 0
CleanAfter none = Unit
CleanAfter (some (a, d)) = IsClean d

module _ {F : Type 0} where
  synced-IsClean : (d : Db F) (b : Bool) → d.open_flags.write ≡ b → IsClean (synced b d)
  synced-IsClean d true h = inl refl
  synced-IsClean d false h = inr h

  sync-CleanAfter : (d : Db F) → CleanAfter (db_sync d)
  sync-CleanAfter d =
      rw (db_sync-synced d d.open_flags.write refl, CleanAfter)
        (synced-IsClean d d.open_flags.write refl)

module _ {F : Type 0} (p : Platform F) where
  release-CleanAfter : (b : Bool) (d : Db F) → IsClean d → CleanAfter (release p b d)
  unfolding release flock
  release-CleanAfter false d h = h
  release-CleanAfter true d h =
      rw (db_sync-synced d d.open_flags.write refl, ◌>>=◌, CleanAfter)
        (synced-IsClean d d.open_flags.write refl)

  unlock-CleanAfter : (d : Db F) → IsClean d → CleanAfter (db_unlock p d)
  unfolding db_unlock
  unlock-CleanAfter d h = elim (Bool-cases (d.lock_depth == 0)) [
    | inl e ↦ rw (e, CleanAfter) h
    | inr e ↦
        rw (e, CleanAfter)
          (elim (Bool-cases (d.lock_depth - 1 == 0)) [
            | inl z ↦
                rw (z, CleanAfter)
                  (release-CleanAfter (d.open_flags.sync && d.open_flags.write)
                    (record d { lock_depth = d.lock_depth - 1 }) h)
            | inr z ↦ rw (z, CleanAfter) h
          ])
  ]

  -- the flush behind its lock
  sync_unlock-CleanAfter : (d : Db F) → CleanAfter ((db_sync >> db_unlock p) d)
  sync_unlock-CleanAfter d =
      rw (db_sync-synced d d.open_flags.write refl, ◌>>=◌)
        (unlock-CleanAfter (synced d.open_flags.write d) (synced-IsClean d d.open_flags.write refl))

  db_lock-success :
      (locks : (n : ℕ) (op : LockOp) → p.flock n op ≡ success) (d : Db F)
      → db_lock p d ≡ some (success, locked d)
  unfolding db_lock flock
  db_lock-success locks d = elim (Bool-cases (d.lock_depth == 0)) [
    | inl e ↦ rw e (rw (locks (length d.calls) (lock_op d.open_flags.write)) refl)
    | inr e ↦ rw e refl
  ]

  pub db_flush-CleanAfter :
      (locks : (n : ℕ) (op : LockOp) → p.flock n op ≡ success) (d : Db F)
      → CleanAfter (db_flush p d)
  unfolding db_flush
  db_flush-CleanAfter locks d = go d.dirty refl
    where
      go :
          (b : Bool)
          → d.dirty ≡ b
          → CleanAfter (
              (if b
                  then (db_lock p >>= λ rc. if is_zero rc then db_sync >> db_unlock p else pure rc)
                  else pure success)
                d)
      go true e = rw (db_lock-success locks d, ◌>>=◌) (sync_unlock-CleanAfter (locked d))
      go false e = inl e
