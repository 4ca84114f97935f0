-- ===== src/Daemon/Loop.antt =====
-- `work` of sources/fusgd/src/work.c as a whole: from the records of audit events to the database.
use mathlib.Core.Path.{subst}
use fusg.Base.{
  ℕ, ◌+◌, ◌*◌, ◌<◌, Bool, true, false, not, ◌&&◌, ◌||◌, ◌++◌, List, [], ◌∷◌, Option, none, some,
  length, append-nil, if◌then◌else◌, refl, arith,
}
use fusg.Word.{u64_mod}
use fusg.Db.Platform.{Platform, IsMap, IsReliable}
use fusg.Db.Lock.{db_flush}
use fusg.Db.Flush.{db_flush-SameTables}
use fusg.Db.History.{Access, IsLog}
use fusg.Events.Follows.{IsRun-longer}
use fusg.Daemon.State.{Daemon, Callback, Round, on_db}
use fusg.Daemon.Work.{waiting, finished, handle_events, work_round, shut_down, work}
use fusg.Daemon.Plan.{
  plan_callbacks, records_all, IsTimelyAll, Waited, waited, chosen, handled_then, handled_all,
}
use fusg.Daemon.Control.{IsGone, work_round-IsGone}
use fusg.Daemon.Follows.{EndsAs, self, IsRun-same}
use fusg.Daemon.Covered.{all_callbacks, handled_all-Covers}
use fusg.Daemon.Planned.{
  daemon_of, or_before, Makes, Makes-then, Makes-next, Makes-map, handle_events-Makes,
  aborted-Makes, or_chosen, work_round-Makes,
}

module _ {F : Type 0} (p : Platform F) (map : IsMap p) (ok : IsReliable p) (path_max n0 : ℕ) where
  flush_last-Makes :
      (k : ℕ) (us : List Access) (s : Daemon F)
      → Makes p map ok path_max n0 daemon_of k us s []
          (elim (on_db (db_flush p) s) [ none ↦ none | some (rc, s2) ↦ some (finished s2) ])
  unfolding Makes
  flush_last-Makes k us s timely small r =
      let (rc, d, run, same) = db_flush-SameTables p s.db in
      rw (run, EndsAs)
        (
          refl,
          IsRun-same p n0 (k + 0) us s.db d same
              (IsRun-longer p n0 k (k + 0) us s.db (omega arith) r),
        )

  shut_down-Makes :
      (k : ℕ) (us : List Access) (s : Daemon F) (last : List Callback)
      → Makes p map ok path_max n0 daemon_of k us s last (shut_down p path_max last s)
  shut_down-Makes k us s last =
      subst (λ cbs. Makes p map ok path_max n0 daemon_of k us s cbs (shut_down p path_max last s))
        (append-nil last)
        (Makes-then p map ok path_max n0 daemon_of
          (λ s1. elim (on_db (db_flush p) s1) [ none ↦ none | some (rc, s2) ↦ some (finished s2) ])
          k us s last [] (handle_events p path_max last s)
          (handle_events-Makes p map ok path_max n0 k us s last)
          (λ s1 us1. flush_last-Makes (k + records_all last) us1 s1))

  -- where a round aborts, waits, or goes on
  aborted :
      {X : Type 0} (s : Daemon F) (daemon : X → Daemon F) (m : ℕ) (z : Option (ℕ × List Access))
      → EndsAs p n0 (or_before s) m none z
      → EndsAs p n0 daemon m none z
  aborted s daemon m none h = tt
  aborted s daemon m (some z) h = elim h [ ]

  left_waiting :
      (s : Daemon F) (m : ℕ) (z : Option (ℕ × List Access))
      → EndsAs p n0 (or_before s) m (some none) z
      → EndsAs p n0 daemon_of m (some (waiting s)) z
  left_waiting s m none h = elim h [ ]
  left_waiting s m (some z) h = h

  gone_on :
      (s s' : Daemon F) (m : ℕ) (z : Option (ℕ × List Access))
      → EndsAs p n0 (or_before s) m (some (some s')) z
      → EndsAs p n0 (self p n0) m (some s') z
  gone_on s s' m none h = elim h [ ]
  gone_on s s' m (some z) h = h

  nothing-Makes :
      (k : ℕ) (us : List Access) (s : Daemon F)
      → Makes p map ok path_max n0 daemon_of k us s [] (some (waiting s))
  unfolding Makes
  nothing-Makes k us s timely small r = (refl, IsRun-longer p n0 k (k + 0) us s.db (omega arith) r)

  work-Makes :
      (rs : List Round) (last : List Callback) (k : ℕ) (us : List Access) (s : Daemon F)
      → Makes p map ok path_max n0 daemon_of k us s
          (handled_all s.mode rs last s.stop)
          (work p path_max rs last s)
  unfolding work
  work-Makes [] last k us s = nothing-Makes k us s
  work-Makes (r ∷ rs) last k us s =
      go (waited s.mode (s.stop || r.before.term) r.waits) (work_round p path_max r s)
        (work_round-Makes p map ok path_max n0 k us s r) (work_round-IsGone p path_max r s)
        (work-Makes rs last)
    where
      go :
          (w : Option Waited) (x : Option (Option (Daemon F)))
          → Makes p map ok path_max n0 (or_before s) k us s (or_chosen r w) x
          → IsGone p path_max s.mode r w x
          → ((m : ℕ) (us' : List Access) (s' : Daemon F)
              → Makes p map ok path_max n0 daemon_of m us' s'
                  (handled_all s'.mode rs last s'.stop)
                  (work p path_max rs last s'))
          → Makes p map ok path_max n0 daemon_of k us s
              (handled_then r last (handled_all s.mode rs last) w)
              (elim x [
                | none ↦ none
                | some none ↦ some (waiting s)
                | some (some s') ↦
                    let rest = work p path_max rs last s' in
                    if not r.eof && not s'.stop then rest else shut_down p path_max last s'
              ])
      go none none h g ih =
          Makes-map p map ok path_max n0 (or_before s) daemon_of k us s [] none none
            (λ m z. aborted s daemon_of m z) h
      go (some y) none h g ih = aborted-Makes p map ok path_max n0 daemon_of k us s (chosen r y) _ (
          Makes-map p map ok path_max n0 (or_before s) (self p n0) k us s (chosen r y) none none
            (λ m z. aborted s (self p n0) m z) h)
      go none (some none) h g ih =
          Makes-map p map ok path_max n0 (or_before s) daemon_of k us s [] (some none)
            (some (waiting s)) (left_waiting s) h
      go (some y) (some none) h g ih = elim g [ ]
      go none (some (some s')) h g ih = elim g [ ]
      go (some y) (some (some s')) h g ih =
          subst
            (λ b.
              Makes p map ok path_max n0 daemon_of k us s
                (chosen r y ++ (if not r.eof && not b then handled_all s.mode rs last b else last))
                (if not r.eof && not s'.stop
                  then work p path_max rs last s'
                  else shut_down p path_max last s'))
            g.1
            (Makes-next p map ok path_max n0 daemon_of k us s s' (chosen r y) _ _
              (Makes-map p map ok path_max n0 (or_before s) (self p n0) k us s (chosen r y)
                (some (some s')) (some s') (gone_on s s') h)
              (λ us'. then_rest (not r.eof && not s'.stop) (k + records_all (chosen r y)) us'))
        where
          then_rest :
              (b : Bool) (m : ℕ) (us' : List Access)
              → Makes p map ok path_max n0 daemon_of m us' s'
                  (if b then handled_all s.mode rs last s'.stop else last)
                  (if b then work p path_max rs last s' else shut_down p path_max last s')
          then_rest true m us' =
              subst
                (λ i.
                  Makes p map ok path_max n0 daemon_of m us' s' (handled_all i rs last s'.stop)
                    (work p path_max rs last s'))
                g.0 (ih m us' s')
          then_rest false m us' = shut_down-Makes m us' s' last

  -- On a medium without errors, where each store succeeds, on any rounds, from a consistent
  -- database with `n0` ids in use whose view is the history of the updates `us`, where each
  -- record of an event that is met leaves two ids below 2 ^ 64 and the time stamps fit 64 bits:
  -- the main loop aborts exactly where the plan of the events that it handles does. Otherwise it
  -- has stored as many events as the plan counts, and the database is consistent, with at most
  -- two ids for each update in use and with the history of the planned updates, behind `us`, as
  -- its view. The plan uses neither a database nor the loop. It picks the events by the signals
  -- and the waits of the rounds, where SIGHUP ends a wait and has no effect beyond it, and counts
  -- modulo 2 ^ 64. It has an update for each valid PATH record of an event of a successful system
  -- call, with the executable of that call, the absolute path and the event's time, up to the
  -- first error; the records are read with the parsers of the program.
  pub work-EndsAs :
      (rs : List Round) (last : List Callback) (us : List Access) (s : Daemon F)
      → IsTimelyAll (all_callbacks rs last)
      → n0 + 2 * (length us + records_all (all_callbacks rs last)) < u64_mod
      → IsLog p n0 us s.db
      → EndsAs p n0 daemon_of
          (length us + records_all (handled_all s.mode rs last s.stop))
          (work p path_max rs last s)
          (plan_callbacks path_max (handled_all s.mode rs last s.stop) s.events_stored us)
  unfolding Makes
  work-EndsAs rs last us s timely small l =
      let c = handled_all-Covers s.mode rs last s.stop in
      work-Makes rs last (length us) us s (c.timely timely) (omega (arith, small, c.records))
        (record { n = n0; bound = omega arith; short = omega arith; log = l })
