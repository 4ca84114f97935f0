-- ===== src/Db/Entry.antt =====
-- What the tables say of one executable and one file, and how the entry of a key is updated.
use fusg.Base.{
  ℕ, ◌<◌, true, false, ◌++◌, Option, none, some, Bytes, success, equal, if◌then◌else◌, length, ◌≡◌,
  refl, ap, ◌∙◌, inl, inr, arith,
}
use fusg.Word.{u64, u64_mod, decode}
use fusg.Db.Platform.{Fetched, Fetched-cases, found, missing, failed, Platform, IsMap, IsReliable}
use fusg.Db.State.{Table, exec, file, evnt, Db, ◌>>=◌, table}
use fusg.Db.Records.{
  datum_str, Stats, StatsKey, datum_key, datum_stats, stats_of, evnt_fetch, evnt_store,
}
use fusg.Db.Usage.{FileUsage, zero_stats, count_event, or_zero, update_entry}
use fusg.Db.View.{view, stored, same, with_miss, SameLock, SameLock-refl}
use fusg.Db.Consistent.{InRange, IsEvent}
use fusg.Db.Codec.{length-datum_stats, stats_of-datum_stats}

-- the id of a name in a dictionary
abbrev pub id_of : (Bytes → Fetched) → Bytes → Option ℕ
id_of v name = elim (v (datum_str name)) [
  | found b ↦ some (decode b)
  | missing ↦ none
  | failed ↦ none
]

-- the entry of a pair of ids
abbrev pub entry_of : (Bytes → Fetched) → ℕ → ℕ → Option Stats
entry_of v e f = elim (v (u64 e ++ u64 f)) [
  | found b ↦ some (stats_of b)
  | missing ↦ none
  | failed ↦ none
]

abbrev pub usage_at : (Bytes → Fetched) → Option ℕ → Option ℕ → Option Stats
usage_at v (some e) (some f) = entry_of v e f
usage_at v (some e) none = none
usage_at v none f = none

-- The abstract view of the database: the statistics of an executable on a file, if there are any.
abbrev pub usage : {F : Type 0} → Platform F → Db F → Bytes → Bytes → Option Stats
usage p d exe fil = usage_at (view p d evnt) (id_of (view p d exec) exe) (id_of (view p d file) fil)

pub InRange-count_event :
    (flags : FileUsage) (time : ℕ) (s : Stats)
    → time < u64_mod
    → InRange s
    → InRange (count_event flags time s)
InRange-count_event flags time s h r = record {
  read = omega arith;
  write = omega arith;
  create = omega arith;
  exec = omega arith;
  time = h;
  reserved = r.reserved;
}

pub InRange-zero_stats : InRange zero_stats
InRange-zero_stats = omega arith

-- The connection `d'` after the entry of `(e, f)` was updated.
pub record Entered {F : Type 0} (p : Platform F) (e f : ℕ) (flags : FileUsage) (time : ℕ) (d : Db F)
    : Type 0 where
  pub d' : Db F
  pub runs : update_entry p (record { exec_id = e; file_id = f }) flags time d ≡ some (success, d')
  pub stats : Stats
  pub counted : stats ≡ count_event flags time (or_zero (entry_of (view p d evnt) e f))
  pub in_range : InRange stats
  pub events :
      (k : Bytes)
      → view p d' evnt k
        ≡ (if equal (u64 e ++ u64 f) k then found (datum_stats stats) else view p d evnt k)
  pub others : (t : Table) → same evnt t ≡ false → table t d' ≡ table t d
  pub open_flags : d'.open_flags ≡ d.open_flags
  pub dirty : d'.dirty ≡ true
  pub lock_depth : d'.lock_depth ≡ d.lock_depth
  pub calls : d'.calls ≡ d.calls

module _ {F : Type 0} (p : Platform F) (e f : ℕ) (d : Db F) where
  pub evnt_fetch-found :
      (b : Bytes)
      → view p d evnt (u64 e ++ u64 f) ≡ found b
      → length b ≡ 48
      → evnt_fetch p (record { exec_id = e; file_id = f }) d ≡ some (some (stats_of b), d)
  unfolding evnt_fetch
  evnt_fetch-found b v h = ground arith

  pub evnt_fetch-missing :
      view p d evnt (u64 e ++ u64 f) ≡ missing
      → evnt_fetch p (record { exec_id = e; file_id = f }) d ≡ some (none, with_miss d)
  unfolding evnt_fetch
  evnt_fetch-missing v = ground arith

module _ {F : Type 0} (p : Platform F) (map : IsMap p) (ok : IsReliable p) (e f : ℕ)
    (flags : FileUsage) (time : ℕ) where
  abbrev key : StatsKey
  key = record { exec_id = e; file_id = f }

  -- `__db_evnt_store`, and the flag behind it
  abbrev entered : Stats → Db F → Db F
  entered s d = record d {
    evnt_db = (p.store d.evnt_db (datum_key key) (datum_stats s)).1;
    dirty = true;
  }

  evnt_store-stored :
      (s : Stats) (d : Db F)
      → evnt_store p key s d ≡ some (success, stored p evnt (datum_key key) (datum_stats s) d)
  unfolding evnt_store
  evnt_store-stored s d = ground (arith, ok.stores d.evnt_db (datum_key key) (datum_stats s))

  -- `d` with the fetch's `gdbm_errno`, `d1`, and then the new entry
  entered_lem :
      (old : Option Stats) (d d1 : Db F)
      → evnt_fetch p key d ≡ some (old, d1)
      → old ≡ entry_of (view p d evnt) e f
      → InRange (count_event flags time (or_zero old))
      → ((t : Table) → table t d1 ≡ table t d)
      → SameLock d d1
      → Entered p e f flags time d
  entered_lem old d d1 r q range tables lock =
      let s = count_event flags time (or_zero old) in
      record {
        d' = entered s d1;
        runs = unfold update_entry in rw (r, ◌>>=◌) (rw (evnt_store-stored s d1, ◌>>=◌));
        stats = s;
        counted = ap (λ o. count_event flags time (or_zero o)) q;
        in_range = range;
        events = λ k.
            map.stored d1.evnt_db (datum_key key) (datum_stats s)
              (ok.stores d1.evnt_db (datum_key key) (datum_stats s)) k
            ∙ ap (λ t. if equal (datum_key key) k then found (datum_stats s) else p.fetch t k)
                (tables evnt);
        others = λ t h. untouched t d1 h ∙ tables t;
        open_flags = lock.open_flags;
        dirty = refl;
        lock_depth = lock.lock_depth;
        calls = lock.calls;
      }
    where
      untouched :
          (t : Table) (c : Db F)
          → same evnt t ≡ false
          → table t (entered (count_event flags time (or_zero old)) c) ≡ table t c
      untouched Table.evnt c h = cc h
      untouched _ c h = refl

  pub update_entry-Entered :
      (n : ℕ) (d : Db F)
      → time < u64_mod
      → ((b : Bytes) → view p d evnt (u64 e ++ u64 f) ≡ found b → IsEvent n e f b)
      → Entered p e f flags time d
  update_entry-Entered n d h event = elim (Fetched-cases (view p d evnt (u64 e ++ u64 f))) [
    | inl (b, v) ↦
        let x = event b v in
        let old : stats_of b ≡ x.stats =
          ap stats_of x.content ∙ stats_of-datum_stats x.stats x.in_range in
        entered_lem (some (stats_of b)) d d
          (evnt_fetch-found p e f d b v (ap length x.content ∙ length-datum_stats x.stats))
          (rw (v, entry_of)) (InRange-count_event flags time (stats_of b) h (rw old x.in_range))
          (λ t. refl) (SameLock-refl d)
    | inr (inl v) ↦
        entered_lem none d (with_miss d) (evnt_fetch-missing p e f d v) (rw (v, entry_of))
          (InRange-count_event flags time zero_stats h InRange-zero_stats) (with_miss-tables d)
          (record { open_flags = refl; dirty = refl; lock_depth = refl; calls = refl })
    | inr (inr v) ↦ absurd (ok.reads _ _ v)
  ]
    where
      with_miss-tables : (d : Db F) (t : Table) → table t (with_miss d) ≡ table t d
      with_miss-tables d Table.exec = refl
      with_miss-tables d _ = refl
