-- ===== src/Daemon/Counts.antt =====
-- The two counters of the daemon: no event is stored that was not processed.
use fusg.Base.{
  ℕ, ◌+◌, ◌%◌, ◌≤◌, ◌<◌, false, ◌&&◌, List, [], ◌∷◌, Option, none, some, ℤ, is_zero, ltb, ◌==◌,
  if◌then◌else◌, ◌≡◌, refl, inl, inr, arith, Bool-cases,
}
use fusg.Word.{u64_mod}
use fusg.Db.Platform.{Platform}
use fusg.Db.State.{Db, M}
use fusg.Db.Lock.{db_flush}
use fusg.Events.Audit.{Record, Audit}
use fusg.Events.Store.{Loop, started_event, is_syscall, store_records, store_event}
use fusg.Daemon.State.{Daemon, Callback, Round, on_db}
use fusg.Daemon.Work.{
  periodic_db_flush, time_flush_period, report, counted, after_store, handle_event, handle_events,
  fed,
}

-- the counter grows by one at most
abbrev IsStored : {F : Type 0} → ℕ → Option ((ℤ × ℕ) × Db F) → Type 0
IsStored c none = Unit
IsStored c (some ((rc, c'), d)) = c' ≤ c + 1

-- Between two states at most `n` events were processed, and at most as many of them were stored.
pub record CountsTo {F : Type 0} (n : ℕ) (s s' : Daemon F) : Type 0 where
  pub processed : s'.events_processed ≤ s.events_processed + n
  pub stored : s'.events_stored + s.events_processed ≤ s.events_stored + s'.events_processed

abbrev pub Counts : {F : Type 0} → ℕ → Daemon F → Option (Daemon F) → Type 0
Counts n s none = Unit
Counts n s (some s') = CountsTo n s s'

module _ {F : Type 0} where
  pub CountsTo-bound : (n m : ℕ) (s s' : Daemon F) → n ≤ m → CountsTo n s s' → CountsTo m s s'
  CountsTo-bound n m s s' le h = record {
    processed = omega (arith, h.processed, le);
    stored = h.stored;
  }

  -- one part of the loop after another
  pub Counts-then :
      (n m : ℕ) (s : Daemon F) (x : Option (Daemon F)) (f : Daemon F → Option (Daemon F))
      → Counts n s x
      → ((s' : Daemon F) → CountsTo n s s' → Counts m s' (f s'))
      → Counts (n + m) s (elim x [ none ↦ none | some s' ↦ f s' ])
  Counts-then n m s none f h k = tt
  Counts-then n m s (some s') f h k = go (f s') (k s' h)
    where
      go : (y : Option (Daemon F)) → Counts m s' y → Counts (n + m) s y
      go none g = tt
      go (some s2) g = record {
        processed = omega (arith, h.processed, g.processed);
        stored = omega (arith, h.stored, g.stored);
      }

  pub same-CountsTo :
      (s s' : Daemon F)
      → s'.events_processed ≡ s.events_processed
      → s'.events_stored ≡ s.events_stored
      → CountsTo 0 s s'
  same-CountsTo s s' h k = record { processed = omega (arith, h); stored = omega (arith, h, k) }

abbrev pub ready_of : List Callback → ℕ
ready_of [] = 0
ready_of (c ∷ cs) = (if c.ready then 1 else 0) + ready_of cs

abbrev pub ready_line : Option (List Callback) → ℕ
ready_line none = 0
ready_line (some cs) = ready_of cs

-- the events that can become ready in a round, and in all of them
abbrev pub ready_in : Round → ℕ
ready_in r = ready_line r.line + (ready_line r.aged + ready_of r.flushed)

abbrev pub ready_all : List Round → ℕ
ready_all [] = 0
ready_all (r ∷ rs) = ready_in r + ready_all rs

module _ {F : Type 0} (p : Platform F) (path_max : ℕ) where
  stored_one :
      (c : ℕ) (x : Option (Loop × Db F))
      → IsStored c (elim x [
        | none ↦ none
        | some (l, d) ↦ some ((l.rc, if is_zero l.rc && l.stored then (c + 1) % u64_mod else c), d)
      ])
  stored_one c none = tt
  stored_one c (some (l, d)) = elim (Bool-cases (is_zero l.rc && l.stored)) [
    | inl e ↦ rw e (omega arith)
    | inr e ↦ rw e (omega arith)
  ]

  store_event-IsStored :
      (a : Option Audit) (c : ℕ) (d : Db F) → IsStored c (store_event p path_max a c d)
  unfolding store_event
  store_event-IsStored none c d = (omega arith)
  store_event-IsStored (some a) c d = go a.records
    where
      go :
          (rs : List Record)
          → IsStored c (store_event p path_max (some (record a { records = rs })) c d)
      go [] = (omega arith)
      go (r ∷ rs) = elim (Bool-cases (is_syscall r.type)) [
        | inl e ↦ rw e (
            stored_one c
              (store_records p path_max (r ∷ rs) (started_event a.serial a.seconds) false d))
        | inr e ↦ rw e (omega arith)
      ]

  report-same :
      (now : ℕ) (s : Daemon F)
      → ((report now s).events_processed ≡ s.events_processed)
        × ((report now s).events_stored ≡ s.events_stored)
  report-same now s = elim (Bool-cases (s.events_processed % 1000 == 0)) [
    | inl e ↦ rw e (refl, refl)
    | inr e ↦ rw e (refl, refl)
  ]

  handle_event-Counts :
      (c : Callback) (s : Daemon F)
      → s.events_processed + (if c.ready then 1 else 0) < u64_mod
      → Counts (if c.ready then 1 else 0) s (handle_event p path_max c s)
  unfolding handle_event
  handle_event-Counts c s h = elim (Bool-cases c.ready) [
    | inr e ↦ rw e (same-CountsTo s s refl refl)
    | inl e ↦ rw e (
        go (rw e at h) (store_event p path_max c.audit s.events_stored s.db)
          (store_event-IsStored c.audit s.events_stored s.db))
  ]
    where
      go :
          s.events_processed + 1 < u64_mod
          → (x : Option ((ℤ × ℕ) × Db F)) → IsStored s.events_stored x
          → Counts 1 s (
              after_store c.now
                (elim x [ none ↦ none | some (a, d) ↦ some (a, record (counted s) { db = d }) ]))
      go small none g = tt
      go small (some ((rc, stored), d)) g =
          let s1 : Daemon F = record (counted s) { db = d; events_stored = stored } in
          let (a, b) = report-same c.now s1 in
          let wrap : (s.events_processed + 1) % u64_mod ≡ s.events_processed + 1 =
            omega (arith, small) in
          record { processed = omega (arith, a, wrap); stored = omega (arith, a, b, wrap, g) }

  pub handle_events-Counts :
      (cs : List Callback) (s : Daemon F)
      → s.events_processed + ready_of cs < u64_mod
      → Counts (ready_of cs) s (handle_events p path_max cs s)
  handle_events-Counts [] s h = same-CountsTo s s refl refl
  handle_events-Counts (c ∷ cs) s h =
      Counts-then (if c.ready then 1 else 0) (ready_of cs) s (handle_event p path_max c s)
        (handle_events p path_max cs) (handle_event-Counts c s (omega (arith, h)))
        (λ s' k. handle_events-Counts cs s' (omega (arith, h, k.processed)))

  pub fed-Counts :
      (line : Option (List Callback)) (s : Daemon F)
      → s.events_processed + ready_line line < u64_mod
      → Counts (ready_line line) s (fed p path_max line s)
  fed-Counts none s h = same-CountsTo s s refl refl
  fed-Counts (some cs) s h = handle_events-Counts cs s h

  pub on_db-Counts :
      {A : Type 0} (m : M F A) (s s0 : Daemon F)
      → CountsTo 0 s0 s
      → Counts 0 s0 (elim (on_db m s) [ none ↦ none | some (a, s') ↦ some s' ])
  on_db-Counts {A} m s s0 h = go (m s.db)
    where
      go :
          (x : Option (A × Db F))
          → Counts 0 s0
              (elim (elim x as (λ _. Option (A × Daemon F)) [
                | none ↦ none
                | some (a, d) ↦ some (a, record s { db = d })
              ]) [ none ↦ none | some (a, s') ↦ some s' ])
      go none = tt
      go (some (a, d)) = record { processed = h.processed; stored = h.stored }

  pub periodic_db_flush-Counts : (now : ℕ) (s : Daemon F) → Counts 0 s (periodic_db_flush p now s)
  unfolding periodic_db_flush
  periodic_db_flush-Counts now s =
      elim (Bool-cases (ltb (s.time_last_flush + time_flush_period) now)) [
        | inl e ↦ rw e (
            on_db-Counts (db_flush p) (record s { time_last_flush = now }) s
              (same-CountsTo s (record s { time_last_flush = now }) refl refl))
        | inr e ↦ rw e (same-CountsTo s s refl refl)
      ]
