-- ===== src/Db/Iterator.antt =====
-- The iterator over the usage entries of sources/fusg-common/src/db.c: it holds the lock from
-- `db_fusg_stats_first` to `db_iterator_release`.
use fusg.Base.{
  Bool, true, ◌==◌, Option, none, some, Bytes, ℤ, success, failure, is_zero, length, take, drop,
  if◌then◌else◌,
}
use fusg.Word.{decode}
use fusg.Db.Platform.{Platform}
use fusg.Db.State.{evnt, table, M, pure, abort, gets, ◌>>=◌, ◌>>◌, gdbm_fetch}
use fusg.Db.Lock.{db_lock, db_unlock}
use fusg.Db.Records.{StatsKey, Stats, stats_of, check_expected_notfound}

-- `fusg_stats_iterator_t`; `dbc` and `dbf` are the connection and its event table
pub record Iterator : Type 0 where
  pub have_lock : Bool
  pub db_key : Option Bytes

-- `(iterator->db_key.dptr) ? 0 : -1`
abbrev pub more : Option Bytes → ℤ
more none = failure
more (some k) = success

-- `db_iterator_get_fugs_stats_key`, on a key of 16 bytes
abbrev pub stats_key_of : Bytes → StatsKey
stats_key_of k = record { exec_id = decode (take 8 k); file_id = decode (take 8 (drop 8 k)) }

module _ {F : Type 0} (p : Platform F) where
  -- `it` is what the iterator held before the call
  unfoldable pub db_fusg_stats_first : Iterator → M F (ℤ × Iterator)
  db_fusg_stats_first it = do
    rc ← db_lock p
    let begin : M F Iterator = do
      k ← gets (λ d. p.first_key (table evnt d))
      pure (record { have_lock = true; db_key = k })
    it' ← if is_zero rc then begin else db_unlock p >> pure it
    pure (more it'.db_key, it')

  unfoldable pub db_iterator_release : Iterator → M F (Unit {0})
  db_iterator_release it = if it.have_lock then db_unlock p >> pure tt else pure tt

  -- fetch by a null key is not reached: callers stop at -1
  unfoldable pub db_iterator_fetch : Bytes → Stats → M F (ℤ × Stats)
  db_iterator_fetch key stats = do
    result ← gdbm_fetch p evnt key
    elim result [
      | some content ↦ if length content == 48 then pure (success, stats_of content) else abort
      | none ↦ (do rc ← check_expected_notfound p; pure (rc, stats))
    ]

  unfoldable pub db_iterator_next : Iterator → Bytes → M F (ℤ × Iterator)
  db_iterator_next it key = do
    k ← gets (λ d. p.next_key (table evnt d) key)
    pure (more k, record it { db_key = k })
