-- ===== src/Daemon/Follows.antt =====
-- `handle_event` and the flush of sources/fusgd/src/work.c, against the plan of the daemon.
use fusg.Base.{
  ℕ, ◌+◌, ◌*◌, ◌<◌, ◌%◌, List, [], ◌∷◌, Option, none, some, ℤ, ltb, ◌==◌, ◌≡◌, refl, inl, inr,
  arith, Bool-cases,
}
use mathlib.Core.Path.{subst}
use fusg.Word.{u64_mod}
use fusg.Db.Platform.{Platform, IsMap, IsReliable}
use fusg.Db.State.{Db}
use fusg.Db.History.{Access}
use fusg.Db.Consistent.{SameTables}
use fusg.Db.Flush.{IsLog-same, db_flush-SameTables}
use fusg.Events.Follows.{IsRun, IsRun-longer}
use fusg.Events.Planned.{IsTimely, records_in, Planned, store_event-Planned}
use fusg.Daemon.State.{Daemon, Callback}
use fusg.Daemon.Work.{
  counted, after_store, handle_event, handle_events, periodic_db_flush, time_flush_period,
}
use fusg.Daemon.Plan.{
  plan_stored, plan_callback, plan_callbacks, plan_behind, records_all, IsTimelyAll,
}

module _ {F : Type 0} (p : Platform F) (n0 : ℕ) where
  -- The daemon has stored `c` events, and the view of its database is the history of `us`.
  abbrev pub Stands : ℕ → Daemon F → ℕ → List Access → Type 0
  Stands k s c us = (s.events_stored ≡ c) × IsRun p n0 k us s.db

  -- An end of a part of the loop, and of its plan: both abort, or the daemon stands where the plan says.
  abbrev pub EndsAs :
      {X : Type 0} → (X → Daemon F) → ℕ → Option X → Option (ℕ × List Access) → Type 0
  EndsAs daemon k none none = Unit
  EndsAs daemon k none (some y) = ⊥
  EndsAs daemon k (some x) none = ⊥
  EndsAs daemon k (some x) (some (c, us)) = Stands k (daemon x) c us

  abbrev pub self : Daemon F → Daemon F
  self s = s

  pub IsRun-same :
      (k : ℕ) (us : List Access) (d e : Db F)
      → SameTables d e
      → IsRun p n0 k us d
      → IsRun p n0 k us e
  IsRun-same k us d e same r = record {
    n = r.n;
    bound = r.bound;
    short = r.short;
    log = IsLog-same p same r.log;
  }

module _ {F : Type 0} (p : Platform F) (map : IsMap p) (ok : IsReliable p) (path_max n0 : ℕ) where
  after_store-EndsAs :
      (now k : ℕ) (s : Daemon F) (x : Option ((ℤ × ℕ) × Db F)) (y : Option ((ℤ × ℕ) × List Access))
      → Planned p map ok path_max n0 k x y
      → EndsAs p n0
          (self p n0)
          k
          (after_store now (elim x [ none ↦ none | some (a, d) ↦ some (a, record s { db = d }) ]))
          (plan_stored y)
  after_store-EndsAs now k s none none f = tt
  after_store-EndsAs now k s none (some y) f = elim f [ ]
  after_store-EndsAs now k s (some x) none f = elim f [ ]
  after_store-EndsAs now k s (some ((rc, c), d)) (some ((rc', c'), us)) (e, q, r) =
      elim (Bool-cases (s.events_processed % 1000 == 0)) [
        | inl z ↦ rw z ((ground arith), r)
        | inr z ↦ rw z ((ground arith), r)
      ]

  handle_event-EndsAs :
      (cb : Callback) (k : ℕ) (us : List Access) (s : Daemon F)
      → IsTimely cb.audit
      → n0 + 2 * (k + records_in cb.audit) < u64_mod
      → IsRun p n0 k us s.db
      → EndsAs p n0
          (self p n0)
          (k + records_in cb.audit)
          (handle_event p path_max cb s)
          (plan_callback path_max cb s.events_stored us)
  unfolding handle_event
  handle_event-EndsAs cb k us s timely small r = elim (Bool-cases cb.ready) [
    | inr e ↦ rw e (refl, IsRun-longer p n0 k (k + records_in cb.audit) us s.db (omega arith) r)
    | inl e ↦ rw e (
        after_store-EndsAs cb.now (k + records_in cb.audit) (counted s) _ _ (
          store_event-Planned p map ok path_max n0 cb.audit k s.events_stored us s.db timely small
            r))
  ]

  -- one part of the loop after another
  pub EndsAs-then :
      {X : Type 0} (daemon : X → Daemon F) (f : Daemon F → Option X) (k m : ℕ) (ys : List Callback)
      (x : Option (Daemon F)) (y : Option (ℕ × List Access))
      → EndsAs p n0 (self p n0) k x y
      → ((s : Daemon F) (us : List Access)
          → IsRun p n0 k us s.db
          → EndsAs p n0 daemon m (f s) (plan_callbacks path_max ys s.events_stored us))
      → EndsAs p n0 daemon m (elim x [ none ↦ none | some s ↦ f s ]) (plan_behind path_max ys y)
  EndsAs-then daemon f k m ys none none h g = tt
  EndsAs-then daemon f k m ys none (some y) h g = elim h [ ]
  EndsAs-then daemon f k m ys (some x) none h g = elim h [ ]
  EndsAs-then daemon f k m ys (some s) (some (c, us)) (e, r) g =
      subst (λ i. EndsAs p n0 daemon m (f s) (plan_callbacks path_max ys i us)) e (g s us r)

  pub handle_events-EndsAs :
      (cbs : List Callback) (k : ℕ) (us : List Access) (s : Daemon F)
      → IsTimelyAll cbs
      → n0 + 2 * (k + records_all cbs) < u64_mod
      → IsRun p n0 k us s.db
      → EndsAs p n0
          (self p n0)
          (k + records_all cbs)
          (handle_events p path_max cbs s)
          (plan_callbacks path_max cbs s.events_stored us)
  handle_events-EndsAs [] k us s timely small r =
      (refl, IsRun-longer p n0 k (k + 0) us s.db (omega arith) r)
  handle_events-EndsAs (cb ∷ cbs) k us s timely small r =
      subst
        (λ i.
          EndsAs p n0 (self p n0) i (handle_events p path_max (cb ∷ cbs) s)
            (plan_callbacks path_max (cb ∷ cbs) s.events_stored us))
        (omega arith)
        (EndsAs-then (self p n0) (handle_events p path_max cbs) (k + records_in cb.audit)
          (k + records_in cb.audit + records_all cbs) cbs (handle_event p path_max cb s)
          (plan_callback path_max cb s.events_stored us)
          (handle_event-EndsAs cb k us s timely.0 (omega (arith, small)) r)
          (λ s' us' r'.
            handle_events-EndsAs cbs (k + records_in cb.audit) us' s' timely.1
              (omega (arith, small)) r'))

  pub periodic_db_flush-Stands :
      (now k : ℕ) (us : List Access) (s : Daemon F)
      → IsRun p n0 k us s.db
      → EndsAs p n0 (self p n0) k (periodic_db_flush p now s) (some (s.events_stored, us))
  unfolding periodic_db_flush
  periodic_db_flush-Stands now k us s r =
      elim (Bool-cases (ltb (s.time_last_flush + time_flush_period) now)) [
        | inr e ↦ rw e (refl, r)
        | inl e ↦
            let (rc, d, run, same) = db_flush-SameTables p s.db in
            rw e (rw (run, EndsAs) (refl, IsRun-same p n0 k us s.db d same r))
      ]
