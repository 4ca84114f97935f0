-- ===== src/Db/Update.antt =====
-- `db_update` of sources/fusg-common/src/db.c as a whole, between its lock and its unlock.
use mathlib.Core.Path.{ap₂}
use fusg.Base.{
  ℕ, ◌+◌, ◌<◌, ◌≤◌, ◌==◌, ◌&&◌, ◌++◌, List, ◌∷◌, Option, none, some, Bytes, success, equal,
  if◌then◌else◌, ◌≡◌, sym, ap, ◌∙◌, ◌⊎◌, inl, inr, arith,
}
use fusg.Word.{u64, u64_mod}
use fusg.Db.Platform.{lock_un, found, missing, failed, Platform, IsMap, IsReliable}
use fusg.Db.State.{exec, file, evnt, Db, ◌>>=◌, Call, locking, syncing}
use fusg.Db.Records.{Stats, stats_of}
use fusg.Db.Usage.{FileUsage, count_event, or_zero, db_update}
use fusg.Db.View.{view}
use fusg.Db.Consistent.{IsConsistent, IsEvent, IsConsistent-same}
use fusg.Db.Entry.{id_of, entry_of, usage_at, usage, Entered, update_entry-Entered}
use fusg.Db.Key.{Keyed, get_fusg_key-Keyed}
use fusg.Db.Locking.{
  lock_op, syncs, locked, unlocked, SameTables-locked, SameTables-unlocked, db_lock-locked,
  db_unlock-unlocked,
}
use fusg.Db.Names.{id_of-found, id_of-missing, usage_at-no_exec, usage_at-no_file}
use fusg.Db.Refinement.{entry_of-fresh, updated-IsConsistent, usage_update}

-- The entry at the key of two names is their usage.
module _ {F : Type 0} (p : Platform F) (exe fil : Bytes) (n : ℕ) (d : Db F)
    (small : n + 2 < u64_mod) (c : IsConsistent p n d) (k : Keyed p exe fil n d) where
  e_small : k.e < u64_mod
  e_small = omega (arith, k.by_two, k.e_bound)

  f_small : k.f < u64_mod
  f_small = omega (arith, k.by_two, k.f_bound)

  fresh_entry : (n ≤ k.e) ⊎ (n ≤ k.f) → entry_of (view p d evnt) k.e k.f ≡ none
  fresh_entry = entry_of-fresh n (view p d evnt) c.events k.e k.f e_small f_small

  no_exec : id_of (view p d exec) exe ≡ none → usage p d exe fil ≡ none
  no_exec h =
      ap (λ i. usage_at (view p d evnt) i (id_of (view p d file) fil)) h
      ∙ usage_at-no_exec (view p d evnt) (id_of (view p d file) fil)

  no_file : id_of (view p d file) fil ≡ none → usage p d exe fil ≡ none
  no_file h =
      ap (usage_at (view p d evnt) (id_of (view p d exec) exe)) h
      ∙ usage_at-no_file (view p d evnt) (id_of (view p d exec) exe)

  pub usage-Keyed : entry_of (view p k.d' evnt) k.e k.f ≡ usage p d exe fil
  usage-Keyed =
      let same : entry_of (view p k.d' evnt) k.e k.f ≡ entry_of (view p d evnt) k.e k.f =
        ap
          (λ x. elim x as (λ _. Option Stats) [
            | found b ↦ some (stats_of b)
            | missing ↦ none
            | failed ↦ none
          ])
          (k.events (u64 k.e ++ u64 k.f)) in
      same ∙ elim k.e_origin [
        | inl a ↦ elim k.f_origin [
          | inl b ↦
              ap₂ (usage_at (view p d evnt)) (sym (id_of-found (view p d exec) exe k.e e_small a))
                (sym (id_of-found (view p d file) fil k.f f_small b))
          | inr (b, le) ↦ fresh_entry (inr le) ∙ sym (no_file (id_of-missing (view p d file) fil b))
        ]
        | inr (a, le) ↦ fresh_entry (inl le) ∙ sym (no_exec (id_of-missing (view p d exec) exe a))
      ]

  pub key-IsEvent :
      (b : Bytes) → view p k.d' evnt (u64 k.e ++ u64 k.f) ≡ found b → IsEvent k.n' k.e k.f b
  key-IsEvent b h = k.consistent.events k.e k.f b e_small f_small h

-- the calls after a locked operation on `d`, the last first
abbrev pub session_calls : {F : Type 0} → Db F → List Call
session_calls d =
    let entered = locking (lock_op d.open_flags.write) ∷ d.calls in
    if d.lock_depth == 0
    then locking lock_un ∷ (if syncs d then syncing ∷ entered else entered)
    else d.calls

-- An update between the lock and the unlock.
module _ {F : Type 0} (p : Platform F) (exe fil : Bytes) (flags : FileUsage) (time n : ℕ) (d : Db F)
    (k : Keyed p exe fil n (locked d)) (u : Entered p k.e k.f flags time k.d') where
  pub update_depth : u.d'.lock_depth ≡ d.lock_depth + 1
  update_depth = u.lock_depth ∙ k.lock.lock_depth

  pub db_update-runs : db_update p exe fil flags time d ≡ some (success, unlocked u.d')
  db_update-runs =
      let (_, l) = db_lock-locked p d in
      let (_, r) = db_unlock-unlocked p u.d' d.lock_depth update_depth in
      unfold db_update in rw (l, ◌>>=◌) (rw (k.runs, ◌>>=◌) (rw (u.runs, ◌>>=◌) (rw (r, ◌>>=◌))))

  update_calls : (unlocked u.d').calls ≡ session_calls d
  update_calls =
      rw (update_depth, u.calls, k.lock.calls, u.open_flags, k.lock.open_flags) (ground arith)

  module _ (small : n + 2 < u64_mod) (c : IsConsistent p n d) where
    abbrev c0 : IsConsistent p n (locked d)
    c0 = IsConsistent-same p (SameTables-locked d) c

    final-IsConsistent : IsConsistent p k.n' (unlocked u.d')
    final-IsConsistent =
        IsConsistent-same p (SameTables-unlocked u.d')
          (updated-IsConsistent p exe fil flags time n (locked d) small c0 k u)

    final_usage :
        (exe' fil' : Bytes)
        → usage p (unlocked u.d') exe' fil' ≡ (
            if equal exe exe' && equal fil fil'
            then some (count_event flags time (or_zero (usage p d exe fil)))
            else usage p d exe' fil')
    final_usage exe' fil' =
        usage_update p exe fil flags time n (locked d) small c0 k u exe' fil'
        ∙ ap (λ s. if equal exe exe' && equal fil fil' then some s else usage p d exe' fil')
            (u.counted
              ∙ ap (λ o. count_event flags time (or_zero o))
                  (usage-Keyed p exe fil n (locked d) small c0 k))

-- The connection `d'` behind an update of `d`, which takes the id counter from `n` to `n'`.
pub record IsUpdate {F : Type 0} (p : Platform F) (exe fil : Bytes) (flags : FileUsage) (time n : ℕ)
    (d : Db F) (n' : ℕ) (d' : Db F) : Type 0 where
  pub grows : n ≤ n'
  pub by_two : n' ≤ n + 2
  pub consistent : IsConsistent p n' d'
  pub usage_of :
      (exe' fil' : Bytes)
      → usage p d' exe' fil' ≡ (
          if equal exe exe' && equal fil fil'
          then some (count_event flags time (or_zero (usage p d exe fil)))
          else usage p d exe' fil')
  pub depth : d'.lock_depth ≡ d.lock_depth
  pub calls : d'.calls ≡ session_calls d

module _ {F : Type 0} (p : Platform F) (map : IsMap p) (ok : IsReliable p) where
  -- On a medium without errors, where each store succeeds: every update of a consistent database,
  -- with less than two ids short of 2 ^ 64 in use, terminates and succeeds. The database stays
  -- consistent and uses at most two more ids. Its abstract view changes at exactly the updated
  -- pair, where the event is counted. Outside a critical section of the caller the new calls are
  -- one flock for the mode of the database, a sync exactly when the database is open to write and
  -- to sync, and the release; inside one there are none. The lock depth is the old one.
  pub db_update-usage :
      (exe fil : Bytes) (flags : FileUsage) (time n : ℕ) (d : Db F)
      → n + 2 < u64_mod
      → time < u64_mod
      → IsConsistent p n d
      → (d' : Db F) × (n' : ℕ) × (db_update p exe fil flags time d ≡ some (success, d'))
        × IsUpdate p exe fil flags time n d n' d'
  db_update-usage exe fil flags time n d small timely c =
      let c0 = IsConsistent-same p (SameTables-locked d) c in
      let k = get_fusg_key-Keyed p map ok exe fil n (locked d) small c0 in
      let u =
        update_entry-Entered p map ok k.e k.f flags time k.n' k.d' timely
          (key-IsEvent p exe fil n (locked d) small c0 k) in
      (
        unlocked u.d',
        k.n',
        db_update-runs p exe fil flags time n d k u,
        record {
          grows = k.grows;
          by_two = k.by_two;
          consistent = final-IsConsistent p exe fil flags time n d k u small c;
          usage_of = final_usage p exe fil flags time n d k u small c;
          depth = omega (arith, update_depth p exe fil flags time n d k u);
          calls = update_calls p exe fil flags time n d k u;
        },
      )
