-- ===== src/Db/Usage.antt =====
-- `db_update` and `db_fetch` of sources/fusg-common/src/db.c, `file_usage_t` and
-- `fugs_stats_add` of db.h.
use fusg.Base.{
  ℕ, ◌+◌, ◌%◌, Bool, true, Option, none, some, Bytes, ℤ, success, is_minus_one, if◌then◌else◌, ltb,
}
use fusg.Word.{u64_mod}
use fusg.Db.Platform.{Platform}
use fusg.Db.State.{M, pure, modify, ◌>>=◌, ◌>>◌}
use fusg.Db.Lock.{db_lock, db_unlock}
use fusg.Db.Records.{StatsKey, Stats, check_expected_notfound, evnt_fetch, evnt_store}
use fusg.Db.Ids.{get_fusg_key}

-- `file_usage_t`, a set of bits
pub record FileUsage : Type 0 where
  pub read : Bool
  pub write : Bool
  pub exec : Bool
  pub creat : Bool
  pub delet : Bool

-- `memset(&evnt_val, 0, sizeof(fusg_stats_t))`
abbrev pub zero_stats : Stats
zero_stats = record { read = 0; write = 0; create = 0; exec = 0; time = 0; reserved = 0 }

-- `counter += ((flags & BIT) > 0)` on a `uint64_t`
abbrev pub bump : Bool → ℕ → ℕ
bump b n = (n + (if b then 1 else 0)) % u64_mod

-- the counters and the time after one event
abbrev pub count_event : FileUsage → ℕ → Stats → Stats
count_event flags timestamp s = record s {
  read = bump flags.read s.read;
  write = bump flags.write s.write;
  create = bump flags.creat s.create;
  exec = bump flags.exec s.exec;
  time = timestamp;
}

-- `fugs_stats_add`
unfoldable pub fugs_stats_add : Stats → Stats → Stats
fugs_stats_add total s = record total {
  create = (total.create + s.create) % u64_mod;
  exec = (total.exec + s.exec) % u64_mod;
  read = (total.read + s.read) % u64_mod;
  write = (total.write + s.write) % u64_mod;
  time = if ltb total.time s.time then s.time else total.time;
}

-- a new entry counts from zero
abbrev pub or_zero : Option Stats → Stats
or_zero none = zero_stats
or_zero (some s) = s

module _ {F : Type 0} (p : Platform F) where
  -- the body of `db_update` behind the key
  unfoldable pub update_entry : StatsKey → FileUsage → ℕ → M F ℤ
  update_entry key flags timestamp = do
    old ← evnt_fetch p key
    rc ← evnt_store p key (count_event flags timestamp (or_zero old))
    modify (λ d. record d { dirty = true })
    pure rc

  unfoldable pub db_update : Bytes → Bytes → FileUsage → ℕ → M F ℤ
  db_update executable filepath flags timestamp = do
    db_lock p
    (found, key) ← get_fusg_key p executable filepath
    rc ← if is_minus_one found then pure found else update_entry key flags timestamp
    db_unlock p
    pure rc

  -- the body of `db_fetch` behind the key: the return code, and what `*fusg_stats` holds then
  unfoldable pub fetch_entry : StatsKey → Stats → M F (ℤ × Stats)
  fetch_entry key stats = do
    old ← evnt_fetch p key
    elim old [
      | some s ↦ pure (success, s)
      | none ↦ (do rc ← check_expected_notfound p; pure (rc, stats))
    ]

  -- `stats` is the content of `*fusg_stats` before the call
  unfoldable pub db_fetch : Bytes → Bytes → Stats → M F (ℤ × Stats)
  db_fetch executable filepath stats = do
    db_lock p
    (found, key) ← get_fusg_key p executable filepath
    result ← if is_minus_one found then pure (found, stats) else fetch_entry key stats
    db_unlock p
    pure result
