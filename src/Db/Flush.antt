-- ===== src/Db/Flush.antt =====
-- `db_flush` of sources/fusg-common/src/db.c leaves the tables alone.
use fusg.Base.{
  ℕ, List, true, false, some, ℤ, success, is_zero, if◌then◌else◌, ◌≡◌, refl, ◌∙◌, inl, inr, Bytes,
  Bool, Bool-cases,
}
use fusg.Db.Platform.{Platform}
use fusg.Db.State.{exec, file, evnt, Db, M, pure, ◌>>=◌, ◌>>◌}
use fusg.Db.Lock.{db_sync, db_lock, db_unlock, db_flush}
use fusg.Db.Consistent.{SameTables, IsConsistent-same}
use fusg.Db.Entry.{usage}
use fusg.Db.History.{Access, IsLog}
use fusg.Db.Locking.{
  synced, db_sync-synced, SameTables-synced, locked, unlocked, db_lock-locked, db_unlock-unlocked,
  SameTables-locked, SameTables-unlocked,
}

pub synced-lock_depth : {F : Type 0} (b : Bool) (e : Db F) → (synced b e).lock_depth ≡ e.lock_depth
synced-lock_depth true e = refl
synced-lock_depth false e = refl

module _ {F : Type 0} (p : Platform F) where
  -- a usage is read from three tables only
  pub usage-same :
      (d e : Db F) → SameTables d e → (exe fil : Bytes) → usage p e exe fil ≡ usage p d exe fil
  usage-same d e same exe fil = rw (same evnt, same exec, same file) refl

  pub IsLog-same :
      {n : ℕ} {us : List Access} {d e : Db F} → SameTables d e → IsLog p n us d → IsLog p n us e
  IsLog-same {n} {us} {d} {e} same l = record {
    consistent = IsConsistent-same p same l.consistent;
    usage_of = λ exe fil. usage-same d e same exe fil ∙ l.usage_of exe fil;
  }

  sync_unlock-runs :
      (d : Db F)
      → (rc : ℤ) × ((db_sync >> db_unlock p) (locked d)
          ≡ some (rc, unlocked (synced d.open_flags.write (locked d))))
  sync_unlock-runs d =
      let b = d.open_flags.write in
      let (rc, u) =
        db_unlock-unlocked p (synced b (locked d)) d.lock_depth (synced-lock_depth b (locked d)) in
      (rc, rw (db_sync-synced (locked d) b refl, ◌>>=◌) u)

  abbrev flush_if : Bool → M F ℤ
  flush_if true = db_lock p >>= λ rc. if is_zero rc then db_sync >> db_unlock p else pure rc
  flush_if false = pure success

  -- behind the lock
  flush_locked :
      (rc : ℤ) (d : Db F)
      → (rc' : ℤ) × (d' : Db F) × ((if is_zero rc then db_sync >> db_unlock p else pure rc)
            (locked d)
          ≡ some (rc', d'))
        × SameTables d d'
  flush_locked rc d = elim (Bool-cases (is_zero rc)) [
    | inr z ↦ (rc, locked d, rw z refl, SameTables-locked d)
    | inl z ↦
        let (rc', u) = sync_unlock-runs d in
        (
          rc',
          unlocked (synced d.open_flags.write (locked d)),
          rw z u,
          λ t.
              SameTables-unlocked (synced d.open_flags.write (locked d)) t
              ∙ SameTables-synced d.open_flags.write (locked d) t
              ∙ SameTables-locked d t,
        )
  ]

  flush_if-SameTables :
      (b : Bool) (d : Db F)
      → (rc : ℤ) × (d' : Db F) × (flush_if b d ≡ some (rc, d')) × SameTables d d'
  flush_if-SameTables false d = (success, d, refl, λ t. refl)
  flush_if-SameTables true d =
      let (rc, l) = db_lock-locked p d in
      let (rc', d', run, same) = flush_locked rc d in (rc', d', rw (l, ◌>>=◌) run, same)

  -- A flush always returns, whatever `flock` says, and keeps the tables.
  pub db_flush-SameTables :
      (d : Db F) → (rc : ℤ) × (d' : Db F) × (db_flush p d ≡ some (rc, d')) × SameTables d d'
  unfolding db_flush
  db_flush-SameTables d =
      let (rc, d', run, same) = flush_if-SameTables d.dirty d in (rc, d', go d.dirty d ∙ run, same)
    where
      go :
          (b : Bool) (d : Db F)
          → (if b
                then (db_lock p >>= λ rc. if is_zero rc then db_sync >> db_unlock p else pure rc)
                else pure success)
              d
            ≡ flush_if b d
      go true d = refl
      go false d = refl
