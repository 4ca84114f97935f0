-- ===== src/Db/Lock.antt =====
-- `db_lock`, `db_unlock`, `__db_sync` and `db_flush` of sources/fusg-common/src/db.c. The six
-- calls of `gdbm_sync` are one call here.
use fusg.Base.{◌+◌, ◌-◌, Bool, false, ◌&&◌, ◌∷◌, ℤ, success, failure, is_zero, ◌==◌, if◌then◌else◌}
use fusg.Db.Platform.{lock_ex, lock_sh, lock_un, Platform}
use fusg.Db.State.{syncing, M, pure, modify, gets, ◌>>=◌, ◌>>◌, flock}

module _ {F : Type 0} where
  unfoldable pub db_sync : M F (Unit {0})
  db_sync d =
      if d.open_flags.write
      then modify (λ d. record d { calls = syncing ∷ d.calls; dirty = false }) d
      else pure tt d

module _ {F : Type 0} (p : Platform F) where
  -- the lock is counted also where `flock` fails
  unfoldable pub db_lock : M F ℤ
  unfolding flock
  db_lock = do
    depth ← gets (λ d. d.lock_depth)
    writer ← gets (λ d. d.open_flags.write)
    rc ← if depth == 0 then flock p (if writer then lock_ex else lock_sh) else pure success
    modify (λ d. record d { lock_depth = d.lock_depth + 1 })
    pure rc

  -- the outermost unlock
  unfoldable pub release : Bool → M F ℤ
  unfolding flock db_sync
  release syncs = do if syncs then db_sync else pure tt; flock p lock_un

  unfoldable pub db_unlock : M F ℤ
  unfolding release
  db_unlock = do
    depth ← gets (λ d. d.lock_depth)
    flags ← gets (λ d. d.open_flags)
    let unlock : M F ℤ = do
      modify (λ d. record d { lock_depth = d.lock_depth - 1 })
      if depth - 1 == 0 then release (flags.sync && flags.write) else pure success
    if depth == 0 then pure failure else unlock

  unfoldable pub db_flush : M F ℤ
  unfolding db_lock db_unlock db_sync
  db_flush = do
    dirty ← gets (λ d. d.dirty)
    let flush : M F ℤ = do rc ← db_lock; if is_zero rc then db_sync >> db_unlock else pure rc
    if dirty then flush else pure success
