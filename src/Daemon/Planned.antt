-- ===== src/Daemon/Planned.antt =====
-- The main loop of sources/fusgd/src/work.c, against the plan of the daemon.
use mathlib.Core.Path.{subst}
use fusg.Base.{
  ℕ, ◌+◌, ◌*◌, ◌<◌, Bool, true, false, not, ◌&&◌, ◌||◌, List, [], ◌∷◌, ◌++◌, Option, none, some, ℤ,
  is_zero, append-nil, if◌then◌else◌, ◌≡◌, refl, sym, ◌∙◌, arith,
}
use fusg.Word.{u64_mod}
use fusg.Db.Platform.{Platform, IsMap, IsReliable}
use fusg.Db.History.{Access}
use fusg.Events.Follows.{IsRun, IsRun-longer}
use fusg.Daemon.Control.{round-IsWaited}
use fusg.Daemon.Same.{SameStore, IsWaited, wait_input-SameStore, reload_if-SameStore}
use fusg.Daemon.State.{Mode, Daemon, Callback, Round, deliver}
use fusg.Daemon.Work.{
  Progress, waiting, finished, is_positive, reload_if, wait_input, handle_events, fed,
  periodic_db_flush, after_timeout, process, round_end, work_round,
}
use fusg.Daemon.Plan.{
  plan_callbacks, plan_behind, plan_callbacks-append, records_all, IsTimelyAll, or_nothing, Waited,
  waited, chosen,
}
use fusg.Daemon.Follows.{EndsAs, self, EndsAs-then, handle_events-EndsAs, periodic_db_flush-Stands}

pub records_all-append :
    (xs ys : List Callback) → records_all (xs ++ ys) ≡ records_all xs + records_all ys
records_all-append [] ys = omega arith
records_all-append (x ∷ xs) ys = omega (arith, records_all-append xs ys)

pub IsTimelyAll-append :
    (xs ys : List Callback) → IsTimelyAll (xs ++ ys) → IsTimelyAll xs × IsTimelyAll ys
IsTimelyAll-append [] ys h = (tt, h)
IsTimelyAll-append (x ∷ xs) ys h = let (a, b) = IsTimelyAll-append xs ys h.1 in ((h.0, a), b)

-- the callbacks behind a wait that may not return
abbrev pub or_chosen : Round → Option Waited → List Callback
or_chosen r none = []
or_chosen r (some x) = chosen r x

module _ {F : Type 0} where
  abbrev pub daemon_of : Progress F → Daemon F
  daemon_of (waiting s) = s
  daemon_of (finished s) = s

  -- the daemon behind a round; one that is left waiting has not moved
  abbrev pub or_before : Daemon F → Option (Daemon F) → Daemon F
  or_before s none = s
  or_before s (some s') = s'

module _ {F : Type 0} (p : Platform F) (map : IsMap p) (ok : IsReliable p) (path_max n0 : ℕ) where
  -- what `m` makes of the callbacks `cbs`, if it starts with the stored events and the database of `s`
  unfoldable pub Makes :
      {X : Type 0} → (X → Daemon F) → ℕ → List Access → Daemon F → List Callback → Option X → Type 0
  Makes daemon k us s cbs x =
      IsTimelyAll cbs
      → n0 + 2 * (k + records_all cbs) < u64_mod
      → IsRun p n0 k us s.db
      → EndsAs p n0 daemon (k + records_all cbs) x (plan_callbacks path_max cbs s.events_stored us)

  -- one part after another
  pub Makes-then :
      {X : Type 0} (daemon : X → Daemon F) (f : Daemon F → Option X) (k : ℕ) (us : List Access)
      (s : Daemon F) (xs ys : List Callback) (x : Option (Daemon F))
      → Makes (self p n0) k us s xs x
      → ((s' : Daemon F) (us' : List Access) → Makes daemon (k + records_all xs) us' s' ys (f s'))
      → Makes daemon k us s (xs ++ ys) (elim x [ none ↦ none | some s' ↦ f s' ])
  unfolding Makes
  Makes-then daemon f k us s xs ys x h g timely small r =
      let (tx, ty) = IsTimelyAll-append xs ys timely in
      let sum : k + records_all (xs ++ ys) ≡ k + records_all xs + records_all ys =
        omega (arith, records_all-append xs ys) in
      rw (sum, plan_callbacks-append path_max xs ys s.events_stored us)
        (EndsAs-then p map ok path_max n0 daemon f (k + records_all xs)
          (k + records_all xs + records_all ys) ys x (plan_callbacks path_max xs s.events_stored us)
          (h tx (omega (arith, small, sum)) r)
          (λ s' us' r'. g s' us' ty (omega (arith, small, sum)) r'))

  -- the second part, where the first has ended
  pub Makes-next :
      {X : Type 0} (daemon : X → Daemon F) (k : ℕ) (us : List Access) (s s' : Daemon F)
      (xs ys : List Callback) (x : Option X)
      → Makes (self p n0) k us s xs (some s')
      → ((us' : List Access) → Makes daemon (k + records_all xs) us' s' ys x)
      → Makes daemon k us s (xs ++ ys) x
  unfolding Makes
  Makes-next daemon k us s s' xs ys x h g timely small r =
      let (tx, ty) = IsTimelyAll-append xs ys timely in
      let sum : k + records_all (xs ++ ys) ≡ k + records_all xs + records_all ys =
        omega (arith, records_all-append xs ys) in
      rw (sum, plan_callbacks-append path_max xs ys s.events_stored us)
        (go (plan_callbacks path_max xs s.events_stored us) (h tx (omega (arith, small, sum)) r)
          (λ us'. g us' ty (omega (arith, small, sum))))
    where
      m : ℕ
      m = k + records_all xs + records_all ys

      go :
          (z : Option (ℕ × List Access))
          → EndsAs p n0 (self p n0) (k + records_all xs) (some s') z
          → ((us' : List Access)
              → IsRun p n0 (k + records_all xs) us' s'.db
              → EndsAs p n0 daemon m x (plan_callbacks path_max ys s'.events_stored us'))
          → EndsAs p n0 daemon m x (plan_behind path_max ys z)
      go none e q = elim e [ ]
      go (some (c, us')) (e, r') q =
          subst (λ i. EndsAs p n0 daemon m x (plan_callbacks path_max ys i us')) e (q us' r')

  pub handle_events-Makes :
      (k : ℕ) (us : List Access) (s : Daemon F) (cbs : List Callback)
      → Makes (self p n0) k us s cbs (handle_events p path_max cbs s)
  unfolding Makes
  handle_events-Makes k us s cbs timely small r =
      handle_events-EndsAs p map ok path_max n0 cbs k us s timely small r

  pub still-Makes : (k : ℕ) (us : List Access) (s : Daemon F) → Makes (self p n0) k us s [] (some s)
  still-Makes k us s = handle_events-Makes k us s []

  fed-Makes :
      (k : ℕ) (us : List Access) (s : Daemon F) (line : Option (List Callback))
      → Makes (self p n0) k us s (or_nothing line) (fed p path_max line s)
  fed-Makes k us s none = still-Makes k us s
  fed-Makes k us s (some cbs) = handle_events-Makes k us s cbs

  flushed-Makes :
      (now k : ℕ) (us : List Access) (s : Daemon F)
      → Makes (self p n0) k us s [] (periodic_db_flush p now s)
  unfolding Makes
  flushed-Makes now k us s timely small r =
      periodic_db_flush-Stands p map ok path_max n0 now (k + 0) us s
        (IsRun-longer p n0 k (k + 0) us s.db (omega arith) r)

  -- where the flush stands behind the callbacks
  after_timeout-Makes :
      (k : ℕ) (us : List Access) (s : Daemon F) (r : Round)
      → Makes
          (self p n0)
          k
          us
          s
          (or_nothing r.aged ++ (r.flushed ++ []))
          (after_timeout p path_max r s)
  after_timeout-Makes k us s r =
      Makes-then (self p n0)
        (λ s1. elim (handle_events p path_max r.flushed s1) [
          | none ↦ none
          | some s2 ↦ periodic_db_flush p r.now s2
        ])
        k us s (or_nothing r.aged) (r.flushed ++ []) (fed p path_max r.aged s)
        (fed-Makes k us s r.aged)
        (λ s1 us1.
          Makes-then (self p n0) (periodic_db_flush p r.now) (k + records_all (or_nothing r.aged))
            us1 s1 r.flushed [] (handle_events p path_max r.flushed s1)
            (handle_events-Makes (k + records_all (or_nothing r.aged)) us1 s1 r.flushed)
            (λ s2 us2.
              flushed-Makes r.now (k + records_all (or_nothing r.aged) + records_all r.flushed) us2
                s2))

  process-Makes :
      (k : ℕ) (us : List Access) (s : Daemon F) (v : ℤ) (r : Round)
      → Makes
          (self p n0)
          k
          us
          s
          (chosen r (record { value = v; hup = s.received_sighup; stop = s.stop }))
          (process p path_max v r s)
  unfolding process
  process-Makes k us s v r = go (not s.stop && not s.received_sighup && is_positive v) (is_zero v)
    where
      go :
          (a b : Bool)
          → Makes
              (self p n0)
              k
              us
              s
              (if a then or_nothing r.line else (if b then or_nothing r.aged ++ r.flushed else []))
              (if a
                then fed p path_max r.line s
                else (if b then after_timeout p path_max r s else some s))
      go true b = fed-Makes k us s r.line
      go false true =
          subst
            (λ cbs.
              Makes (self p n0) k us s (or_nothing r.aged ++ cbs) (after_timeout p path_max r s))
            (append-nil r.flushed) (after_timeout-Makes k us s r)
      go false false = still-Makes k us s

  -- the same, from one kind of end to another
  pub Makes-map :
      {X Y : Type 0} (f : X → Daemon F) (g : Y → Daemon F) (k : ℕ) (us : List Access) (s : Daemon F)
      (cbs : List Callback) (x : Option X) (y : Option Y)
      → ((m : ℕ) (z : Option (ℕ × List Access)) → EndsAs p n0 f m x z → EndsAs p n0 g m y z)
      → Makes f k us s cbs x
      → Makes g k us s cbs y
  unfolding Makes
  Makes-map f g k us s cbs x y e h timely small r =
      e (k + records_all cbs) (plan_callbacks path_max cbs s.events_stored us) (h timely small r)

  -- signals at the end of a round change nothing that counts
  ended-Makes :
      (k : ℕ) (us : List Access) (s s0 : Daemon F) (cbs : List Callback) (r : Round)
      (y : Option (Daemon F))
      → Makes (self p n0) k us s cbs y
      → Makes
          (or_before s0)
          k
          us
          s
          cbs
          (elim y [ none ↦ none | some s' ↦ some (some (deliver r.after s')) ])
  ended-Makes k us s s0 cbs r y =
      Makes-map (self p n0) (or_before s0) k us s cbs y _ (λ m z. go m y z)
    where
      go :
          (m : ℕ) (y : Option (Daemon F)) (z : Option (ℕ × List Access))
          → EndsAs p n0 (self p n0) m y z
          → EndsAs p n0
              (or_before s0)
              m
              (elim y [ none ↦ none | some s' ↦ some (some (deliver r.after s')) ])
              z
      go m none none h = tt
      go m none (some z) h = elim h [ ]
      go m (some s') none h = elim h [ ]
      go m (some s') (some (c, us)) h = h

  Makes-same :
      {X : Type 0} (daemon : X → Daemon F) (k : ℕ) (us : List Access) (s s' : Daemon F)
      (cbs : List Callback) (x : Option X)
      → SameStore s s'
      → Makes daemon k us s' cbs x
      → Makes daemon k us s cbs x
  unfolding Makes
  Makes-same daemon k us s s' cbs x same h timely small r =
      subst (λ c. EndsAs p n0 daemon (k + records_all cbs) x (plan_callbacks path_max cbs c us))
        same.1 (h timely small (subst (IsRun p n0 k us) (sym same.0) r))

  -- the wait left the daemon `y.1`
  round_end-Makes :
      (m : Mode) (k : ℕ) (us : List Access) (s : Daemon F) (r : Round) (y : Option ℤ × Daemon F)
      (x : Option Waited)
      → SameStore s y.1
      → IsWaited m y x
      → Makes (or_before s) k us s (or_chosen r x) (round_end p path_max r y)
  unfolding Makes
  round_end-Makes m k us s r (none, s1) none same h =
      λ timely small run. (refl, IsRun-longer p n0 k (k + 0) us s.db (omega arith) run)
  round_end-Makes m k us s r (none, s1) (some x) same h = elim h [ ]
  round_end-Makes m k us s r (some v, s1) none same h = elim h [ ]
  round_end-Makes m k us s r (some v, s1) (some x) same h =
      let now : Waited = record { value = v; hup = s1.received_sighup; stop = s1.stop } in
      subst (λ z. Makes (or_before s) k us s (chosen r z) (round_end p path_max r (some v, s1)))
        (sym h.0)
        (Makes-same (or_before s) k us s s1 (chosen r now) _ same (
          ended-Makes k us s1 s (chosen r now) r (process p path_max v r s1)
            (process-Makes k us s1 v r)))

  pub work_round-Makes :
      (k : ℕ) (us : List Access) (s : Daemon F) (r : Round)
      → Makes
          (or_before s)
          k
          us
          s
          (or_chosen r (waited s.mode (s.stop || r.before.term) r.waits))
          (work_round p path_max r s)
  unfolding work_round
  work_round-Makes k us s r =
      let s1 = deliver r.before s in
      let s2 = reload_if s1.received_sighup s1 in
      let a = reload_if-SameStore s1.received_sighup s1 in
      let b = wait_input-SameStore s2.mode r.waits s2 in
      round_end-Makes s.mode k us s r (wait_input s2.mode r.waits s2) _ (b.0 ∙ a.0, b.1 ∙ a.1)
        (round-IsWaited p path_max r s)

  -- a part that aborts does not come to what is behind it
  pub aborted-Makes :
      {X : Type 0} (daemon : X → Daemon F) (k : ℕ) (us : List Access) (s : Daemon F)
      (xs ys : List Callback)
      → Makes (self p n0) k us s xs none
      → Makes daemon k us s (xs ++ ys) none
  aborted-Makes daemon k us s xs ys h =
      Makes-map (self p n0) daemon k us s (xs ++ ys) none none none_ends (
        Makes-then (self p n0) (handle_events p path_max ys) k us s xs ys none h
          (λ s' us'. handle_events-Makes (k + records_all xs) us' s' ys))
    where
      none_ends :
          (m : ℕ) (z : Option (ℕ × List Access))
          → EndsAs p n0 (self p n0) m none z
          → EndsAs p n0 daemon m none z
      none_ends m none e = tt
      none_ends m (some z) e = elim e [ ]
