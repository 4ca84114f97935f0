-- ===== src/Daemon/Plan.antt =====
-- What the daemon's main loop, in sources/fusgd/src/work.c, asks of the database: the callbacks that
-- it lets libauparse make, in their order, and their updates.
use fusg.Base.{
  ℕ, ◌+◌, Bool, false, not, ◌&&◌, ◌||◌, List, [], ◌∷◌, ◌++◌, Option, none, some, ℤ, pos, is_zero,
  is_minus_one, if◌then◌else◌, ◌≡◌, refl,
}
use fusg.Db.History.{Access}
use fusg.Events.Plan.{plan_event}
use fusg.Events.Planned.{records_in, IsTimely}
use fusg.Daemon.State.{Mode, op_parse_file, Callback, Wait, Round}
use fusg.Daemon.Work.{is_positive}

-- the count of stored events and the updates, the last first, behind `plan_event`
abbrev pub plan_stored : Option ((ℤ × ℕ) × List Access) → Option (ℕ × List Access)
plan_stored none = none
plan_stored (some ((rc, c), us)) = some (c, us)

module _ (path_max : ℕ) where
  abbrev pub plan_callback : Callback → ℕ → List Access → Option (ℕ × List Access)
  plan_callback cb c us =
      if cb.ready then plan_stored (plan_event path_max cb.audit c us) else some (c, us)

  abbrev pub plan_callbacks : List Callback → ℕ → List Access → Option (ℕ × List Access)
  plan_callbacks [] c us = some (c, us)
  plan_callbacks (cb ∷ cbs) c us = elim (plan_callback cb c us) [
    | none ↦ none
    | some (c', us') ↦ plan_callbacks cbs c' us'
  ]

  abbrev pub plan_behind : List Callback → Option (ℕ × List Access) → Option (ℕ × List Access)
  plan_behind ys none = none
  plan_behind ys (some (c, us)) = plan_callbacks ys c us

  pub plan_callbacks-append :
      (xs ys : List Callback) (c : ℕ) (us : List Access)
      → plan_callbacks (xs ++ ys) c us ≡ plan_behind ys (plan_callbacks xs c us)
  plan_callbacks-append [] ys c us = refl
  plan_callbacks-append (x ∷ xs) ys c us = go (plan_callbacks-append xs ys) (plan_callback x c us)
    where
      go :
          ((c' : ℕ) (us' : List Access)
            → plan_callbacks (xs ++ ys) c' us' ≡ plan_behind ys (plan_callbacks xs c' us'))
          → (y : Option (ℕ × List Access))
          → elim y as (λ _. Option (ℕ × List Access)) [
            | none ↦ none
            | some (c', us') ↦ plan_callbacks (xs ++ ys) c' us'
          ]
            ≡ plan_behind ys (elim y [ none ↦ none | some (c', us') ↦ plan_callbacks xs c' us' ])
      go ih none = refl
      go ih (some (c', us')) = ih c' us'

abbrev pub records_all : List Callback → ℕ
records_all [] = 0
records_all (cb ∷ cbs) = records_in cb.audit + records_all cbs

abbrev pub IsTimelyAll : List Callback → Type 0
IsTimelyAll [] = Unit
IsTimelyAll (cb ∷ cbs) = IsTimely cb.audit × IsTimelyAll cbs

abbrev pub or_nothing : Option (List Callback) → List Callback
or_nothing none = []
or_nothing (some cbs) = cbs

-- What a wait comes to: the value of `select`, whether SIGHUP arrived before it returned, and whether
-- SIGTERM has arrived so far.
pub record Waited : Type 0 where
  pub value : ℤ
  pub hup : Bool
  pub stop : Bool

-- The first return of `select` that is not an interruption, or behind which a signal has arrived.
abbrev pub answer : Bool → List Wait → Option Waited
answer stop [] = none
answer stop (w ∷ ws) =
    let stop' = stop || w.signals.term in
    let rest = answer stop' ws in
    if is_minus_one w.retval && w.interrupted && not w.signals.hup && not stop'
    then rest
    else some (record { value = w.retval; hup = w.signals.hup; stop = stop' })

-- A file has always more to read.
abbrev pub waited : Mode → Bool → List Wait → Option Waited
waited op_parse_file stop ws = some (record { value = pos 1; hup = false; stop = stop })
waited _ stop ws = answer stop ws

-- the callbacks behind the wait: those of the line that is read, or those of the time out
abbrev pub chosen : Round → Waited → List Callback
chosen r x =
    if not x.stop && not x.hup && is_positive x.value
    then or_nothing r.line
    else (if is_zero x.value then or_nothing r.aged ++ r.flushed else [])

-- behind the wait of a round, with the callbacks of a last `auparse_flush_feed`
abbrev pub handled_then :
    Round → List Callback → (Bool → List Callback) → Option Waited → List Callback
handled_then r last later none = []
handled_then r last later (some x) =
    chosen r x
    ++ (if not r.eof && not (x.stop || r.after.term) then later (x.stop || r.after.term) else last)

-- All callbacks of the main loop, by the signals alone. SIGHUP has no effect beyond the wait that it
-- ends; `stop` says whether SIGTERM has arrived before.
abbrev pub handled_all : Mode → List Round → List Callback → Bool → List Callback
handled_all m [] last stop = []
handled_all m (r ∷ rs) last stop =
    handled_then r last (handled_all m rs last) (waited m (stop || r.before.term) r.waits)
