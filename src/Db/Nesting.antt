-- ===== src/Db/Nesting.antt =====
-- Nested critical sections: `lock_depth` counts them, and only the outermost one calls flock.
use fusg.Base.{
  ℕ, zero, suc, ◌+◌, ◌==◌, false, ◌&&◌, some, failure, if◌then◌else◌, ◌≡◌, refl, ap, ◌∙◌, arith,
}
use fusg.Db.Platform.{Platform}
use fusg.Db.State.{Db, M, pure, ◌>>=◌, ◌>>◌}
use fusg.Db.Lock.{db_lock, db_unlock}
use fusg.Db.Locking.{locked, unlocked, syncs, db_lock-locked, db_unlock-unlocked}
use fusg.Db.Update.{session_calls}

module _ {F : Type 0} (p : Platform F) where
  -- `k` locks, and then `k` unlocks
  unfoldable pub nested : ℕ → M F (Unit {0})
  nested zero = pure tt
  nested (suc k) = let inside = nested k in db_lock p >> (inside >> (db_unlock p >> pure tt))

  nested_step :
      (k m : ℕ) (d d' : Db F)
      → nested k (locked d) ≡ some (tt, d')
      → d'.lock_depth ≡ m + 1
      → nested (suc k) d ≡ some (tt, unlocked d')
  nested_step k m d d' h q =
      let (_, l) = db_lock-locked p d in
      let (_, u) = db_unlock-unlocked p d' m q in
      unfold nested in rw (l, ◌>>=◌) (rw (h, ◌>>=◌) (rw (u, ◌>>=◌)))

  inner : (k m : ℕ) (d : Db F) → d.lock_depth ≡ m + 1 → nested k d ≡ some (tt, d)
  unfolding nested
  inner zero m d h = refl
  inner (suc k) m d h =
      nested_step k (m + 1) d (locked d) (inner k (m + 1) (locked d) (ground arith)) (ground arith)
      ∙ ap (λ x. some (tt, x)) (restored m d h)
    where
      restored : (m : ℕ) (d : Db F) → d.lock_depth ≡ m + 1 → unlocked (locked d) ≡ d
      restored m d h = ground (arith)

  -- Any number of locks followed by as many unlocks leaves the lock depth and the tables as they
  -- were. Inside a critical section it is no change at all; outside one the calls are those of
  -- a single session: one flock, a sync where the database is open to write and to sync, which
  -- also clears the dirty flag, and the release.
  pub nested-session :
      (k : ℕ) (d : Db F)
      → nested (suc k) d
        ≡ some (
          tt,
          record d {
            dirty = if d.lock_depth == 0 && syncs d then false else d.dirty;
            calls = session_calls d;
          },
        )
  nested-session k d =
      nested_step k d.lock_depth d (locked d) (inner k d.lock_depth (locked d) refl) refl
      ∙ ap (λ x. some (tt, x)) (left d)
    where
      left :
          (d : Db F)
          → unlocked (locked d) ≡ record d {
            dirty = if d.lock_depth == 0 && syncs d then false else d.dirty;
            calls = session_calls d;
          }
      left d = ground arith

  -- An unlock without a lock is refused and changes nothing.
  pub db_unlock-unmatched : (d : Db F) → d.lock_depth ≡ 0 → db_unlock p d ≡ some (failure, d)
  unfolding db_unlock
  db_unlock-unmatched d h = ground arith
