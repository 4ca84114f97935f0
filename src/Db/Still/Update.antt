-- ===== src/Db/Still/Update.antt =====
-- The locks, `db_flush` and `db_update`, of sources/fusg-common/src/db.c, leave the files open and the
-- lock accounted for, whatever gdbm and flock answer.
use fusg.Base.{ℕ, zero, suc, ◌+◌, Bool, true, false, Bytes, is_zero, is_minus_one, ◌≡◌, refl, arith}
use fusg.Db.Platform.{Platform}
use fusg.Db.State.{OpenFlags, Db, gets}
use fusg.Db.Lock.{db_sync, db_lock, db_unlock, db_flush}
use fusg.Db.Locking.{synced, db_sync-synced, locked, unlocked, db_lock-locked, db_unlock-unlocked}
use fusg.Db.Nesting.{db_unlock-unmatched}
use fusg.Db.Ids.{get_fusg_key}
use fusg.Db.Usage.{FileUsage, db_update}
use fusg.Db.Still.{
  IsStill, StillAfter, Keeps, bind-Keeps, if-Keeps, get_fusg_key-Keeps, update_entry-Keeps,
}

module _ {F : Type 0} (p : Platform F) (flags : OpenFlags) where
  -- the locks
  locked-IsStill : (d : Db F) → IsStill flags d → IsStill flags (locked d)
  locked-IsStill d s = record {
    open_flags = s.open_flags;
    files = λ t. ground (arith, s.files t);
    lock = ground (arith, s.lock);
  }

  db_lock-Keeps : Keeps flags (db_lock p)
  db_lock-Keeps d s = let (rc, e) = db_lock-locked p d in rw (e, StillAfter) (locked-IsStill d s)

  unlocked-IsStill :
      (d : Db F) (k : ℕ) → d.lock_depth ≡ k + 1 → IsStill flags d → IsStill flags (unlocked d)
  unlocked-IsStill d k e s = record {
    open_flags = s.open_flags;
    files = λ t. ground (arith, s.files t);
    lock = ground (arith, s.lock);
  }

  db_unlock-Keeps : Keeps flags (db_unlock p)
  db_unlock-Keeps d s = go d.lock_depth refl
    where
      go : (n : ℕ) → d.lock_depth ≡ n → StillAfter flags (db_unlock p d)
      go zero e = rw (db_unlock-unmatched p d e, StillAfter) s
      go (suc k) e =
          let (rc, u) = db_unlock-unlocked p d k (omega arith) in
          rw (u, StillAfter) (unlocked-IsStill d k (omega arith) s)

  sync-Keeps : Keeps flags (db_sync {F = F})
  sync-Keeps d s = rw (db_sync-synced d d.open_flags.write refl, StillAfter) (go d.open_flags.write)
    where
      go : (b : Bool) → IsStill flags (synced b d)
      go true = record {
        open_flags = s.open_flags;
        files = λ t. omega (arith, s.files t);
        lock = omega (arith, s.lock);
      }
      go false = s

  pub db_flush-Keeps : Keeps flags (db_flush p)
  unfolding db_flush
  db_flush-Keeps =
      bind-Keeps flags (gets (λ d. d.dirty)) _ (λ d s. s)
        (λ dirty.
          if-Keeps flags dirty _ _
            (bind-Keeps flags (db_lock p) _ db_lock-Keeps (λ rc.
              if-Keeps flags (is_zero rc) _ _
                (bind-Keeps flags db_sync _ sync-Keeps (λ _. db_unlock-Keeps)) (λ d s. s)))
            (λ d s. s))

  pub db_update-Keeps :
      (executable filepath : Bytes) (usage : FileUsage) (time : ℕ)
      → Keeps flags (db_update p executable filepath usage time)
  unfolding db_update
  db_update-Keeps executable filepath usage time =
      bind-Keeps flags (db_lock p) _ db_lock-Keeps (λ _.
        bind-Keeps flags (get_fusg_key p executable filepath) _
          (get_fusg_key-Keeps p flags executable filepath)
          (λ x.
            bind-Keeps flags _ _
              (if-Keeps flags (is_minus_one x.0) _ _ (λ d s. s)
                (update_entry-Keeps p flags x.1 usage time))
              (λ rc. bind-Keeps flags (db_unlock p) _ db_unlock-Keeps (λ _ d s. s))))
