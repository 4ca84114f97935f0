-- ===== src/Daemon/Control.antt =====
-- The parts of a round of `work`, in sources/fusgd/src/work.c, behind the wait: they change neither the
-- mode nor the flags that the signals set.
use mathlib.Core.Path.{subst}
use fusg.Base.{
  ℕ, ◌%◌, ◌+◌, sym, not, ◌&&◌, ◌||◌, List, [], ◌∷◌, Option, none, some, ℤ, is_zero, ltb, ◌==◌, ◌≡◌,
  refl, ◌∙◌, inl, inr, Bool-cases, ap,
}
use fusg.Db.Platform.{Platform}
use fusg.Db.State.{Db}
use fusg.Db.Lock.{db_flush}
use fusg.Events.Store.{store_event}
use fusg.Daemon.State.{Mode, Daemon, Callback, Round, deliver}
use fusg.Daemon.Work.{
  time_flush_period, is_positive, reload_if, wait_input, after_store, counted, handle_event,
  handle_events, fed, after_timeout, periodic_db_flush, process, round_end, work_round,
}
use fusg.Daemon.Plan.{Waited, waited}
use fusg.Daemon.Same.{IsWaited, wait_input-IsWaited, reload_if-received, reload_if-control}

module _ {F : Type 0} where
  abbrev SameControl : Daemon F → Option (Daemon F) → Type 0
  SameControl s none = Unit
  SameControl s (some s') = (s'.mode ≡ s.mode) × (s'.stop ≡ s.stop)

  -- one part after another
  then_same :
      (s : Daemon F) (x : Option (Daemon F)) (f : Daemon F → Option (Daemon F))
      → SameControl s x
      → ((s' : Daemon F) → SameControl s' (f s'))
      → SameControl s (elim x [ none ↦ none | some s' ↦ f s' ])
  then_same s none f h k = tt
  then_same s (some s') f h k = go (f s') (k s')
    where
      go : (y : Option (Daemon F)) → SameControl s' y → SameControl s y
      go none g = tt
      go (some s2) g = (g.0 ∙ h.0, g.1 ∙ h.1)

module _ {F : Type 0} (p : Platform F) (path_max : ℕ) where
  handle_event-same : (c : Callback) (s : Daemon F) → SameControl s (handle_event p path_max c s)
  unfolding handle_event
  handle_event-same c s = elim (Bool-cases c.ready) [
    | inr e ↦ rw e (refl, refl)
    | inl e ↦ rw e (go (store_event p path_max c.audit s.events_stored s.db))
  ]
    where
      go :
          (x : Option ((ℤ × ℕ) × Db F))
          → SameControl s (
              after_store c.now
                (elim x [ none ↦ none | some (a, d) ↦ some (a, record (counted s) { db = d }) ]))
      go none = tt
      go (some ((rc, stored), d)) = elim (Bool-cases ((counted s).events_processed % 1000 == 0)) [
        | inl e ↦ rw e (refl, refl)
        | inr e ↦ rw e (refl, refl)
      ]

  handle_events-same :
      (cs : List Callback) (s : Daemon F) → SameControl s (handle_events p path_max cs s)
  handle_events-same [] s = (refl, refl)
  handle_events-same (c ∷ cs) s =
      then_same s (handle_event p path_max c s) (handle_events p path_max cs)
        (handle_event-same c s) (handle_events-same cs)

  fed-same : (o : Option (List Callback)) (s : Daemon F) → SameControl s (fed p path_max o s)
  fed-same none s = (refl, refl)
  fed-same (some cs) s = handle_events-same cs s

  periodic_db_flush-same : (now : ℕ) (s : Daemon F) → SameControl s (periodic_db_flush p now s)
  unfolding periodic_db_flush
  periodic_db_flush-same now s =
      elim (Bool-cases (ltb (s.time_last_flush + time_flush_period) now)) [
        | inr e ↦ rw e (refl, refl)
        | inl e ↦ rw e (go (db_flush p s.db))
      ]
    where
      go :
          (x : Option (ℤ × Db F))
          → SameControl s
              (elim (elim x as (λ _. Option (ℤ × Daemon F)) [
                | none ↦ none
                | some (a, d) ↦ some (a, record s { time_last_flush = now; db = d })
              ]) [ none ↦ none | some (rc, s') ↦ some s' ])
      go none = tt
      go (some (rc, d)) = (refl, refl)

  after_timeout-same : (r : Round) (s : Daemon F) → SameControl s (after_timeout p path_max r s)
  after_timeout-same r s = then_same s (fed p path_max r.aged s) _ (fed-same r.aged s) (λ s1.
      then_same s1 (handle_events p path_max r.flushed s1) (periodic_db_flush p r.now)
        (handle_events-same r.flushed s1) (periodic_db_flush-same r.now))

  process-same : (v : ℤ) (r : Round) (s : Daemon F) → SameControl s (process p path_max v r s)
  unfolding process
  process-same v r s = elim (Bool-cases (not s.stop && not s.received_sighup && is_positive v)) [
    | inl e ↦ rw e (fed-same r.line s)
    | inr e ↦ rw e (elim (Bool-cases (is_zero v)) [
      | inl z ↦ rw z (after_timeout-same r s)
      | inr z ↦ rw z (refl, refl)
    ])
  ]

  -- A round against the wait of the plan: it goes on in the same mode, and stops where SIGTERM has
  -- arrived until then.
  abbrev pub IsGone : Mode → Round → Option Waited → Option (Option (Daemon F)) → Type 0
  IsGone m r x none = Unit
  IsGone m r none (some none) = Unit
  IsGone m r (some x) (some none) = ⊥
  IsGone m r none (some (some s)) = ⊥
  IsGone m r (some x) (some (some s)) = (s.mode ≡ m) × (s.stop ≡ (x.stop || r.after.term))

  round_end-IsGone :
      (m : Mode) (r : Round) (y : Option ℤ × Daemon F) (x : Option Waited)
      → IsWaited m y x
      → IsGone m r x (round_end p path_max r y)
  round_end-IsGone m r (none, s) none h = tt
  round_end-IsGone m r (none, s) (some x) h = h
  round_end-IsGone m r (some v, s) none h = elim h [ ]
  round_end-IsGone m r (some v, s) (some x) h = go (process p path_max v r s) (process-same v r s)
    where
      go :
          (y : Option (Daemon F))
          → SameControl s y
          → IsGone m r
              (some x)
              (elim y [ none ↦ none | some s' ↦ some (some (deliver r.after s')) ])
      go none g = tt
      go (some s') g = (g.0 ∙ h.1, ap (λ b. b || r.after.term) g.1 ∙ rw (h.0) refl)

  -- The wait of a round is the wait of the plan.
  pub round-IsWaited :
      (r : Round) (s : Daemon F)
      → (let s1 = deliver r.before s in
          let s2 = reload_if s1.received_sighup s1 in
          IsWaited s.mode
            (wait_input s2.mode r.waits s2)
            (waited s.mode (s.stop || r.before.term) r.waits))
  round-IsWaited r s =
      let s1 = deliver r.before s in
      let s2 = reload_if s1.received_sighup s1 in
      let c = reload_if-control s1.received_sighup s1 in
      subst (λ b. IsWaited s.mode (wait_input s2.mode r.waits s2) (waited s.mode b r.waits)) c.0
        (subst (λ m. IsWaited s.mode (wait_input m r.waits s2) (waited s.mode s2.stop r.waits))
          (sym c.1) (wait_input-IsWaited s.mode r.waits s2 (reload_if-received s1) c.1))

  pub work_round-IsGone :
      (r : Round) (s : Daemon F)
      → IsGone s.mode r
          (waited s.mode (s.stop || r.before.term) r.waits)
          (work_round p path_max r s)
  unfolding work_round
  work_round-IsGone r s = round_end-IsGone s.mode r _ _ (round-IsWaited r s)
