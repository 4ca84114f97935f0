-- ===== src/Daemon/Work.antt =====
-- `handle_event`, `periodic_db_flush` and `work` of sources/fusgd/src/work.c, and `reload_config` of
-- fusgd.c. Traces and log messages are not modelled.
use fusg.Base.{
  ℕ, ◌+◌, ◌%◌, Bool, true, false, not, ◌&&◌, List, [], ◌∷◌, Option, none, some, ℤ, pos, negsuc,
  is_zero, is_minus_one, ltb, ◌==◌, if◌then◌else◌,
}
use fusg.Word.{u64_mod}
use fusg.Db.Platform.{Platform}
use fusg.Db.Lock.{db_flush}
use fusg.Events.Store.{store_event}
use fusg.Daemon.State.{Mode, op_parse_file, Daemon, Callback, Wait, Round, deliver, on_db}

-- `time_flush_period`
abbrev pub time_flush_period : ℕ
time_flush_period = 1

-- a value of `select` above zero
abbrev pub is_positive : ℤ → Bool
is_positive (pos n) = not (n == 0)
is_positive (negsuc n) = false

-- where a round ends, and where the main loop does
pub data Progress (F : Type 0) : Type 0 where
  waiting : Daemon F → Progress F
  finished : Daemon F → Progress F

module _ {F : Type 0} where
  unfoldable pub reload_config : Daemon F → Daemon F
  reload_config s = record s { received_sighup = false }

  abbrev pub reload_if : Bool → Daemon F → Daemon F
  reload_if true s = reload_config s
  reload_if false s = s

  -- `retry`
  abbrev pub is_retry : Wait → Daemon F → Bool
  is_retry w s = is_minus_one w.retval && w.interrupted && not s.received_sighup && not s.stop

  -- the inner loop; `none` is a `select` that has not returned
  unfoldable pub select_input : List Wait → Daemon F → Option ℤ × Daemon F
  select_input [] s = (none, s)
  select_input (w ∷ ws) s =
      let s' = deliver w.signals s in
      let rest = select_input ws s' in if is_retry w s' then rest else (some w.retval, s')

  abbrev pub wait_input : Mode → List Wait → Daemon F → Option ℤ × Daemon F
  wait_input op_parse_file ws s = (some (pos 1), s)
  wait_input _ ws s = select_input ws s

  -- behind `store_event`: the report after each thousand events
  abbrev pub report : ℕ → Daemon F → Daemon F
  report now s = if s.events_processed % 1000 == 0 then record s { last_stats_report = now } else s

  -- the event is counted first
  abbrev pub counted : Daemon F → Daemon F
  counted s = record s { events_processed = (s.events_processed + 1) % u64_mod }

  abbrev pub after_store : ℕ → Option ((ℤ × ℕ) × Daemon F) → Option (Daemon F)
  after_store now none = none
  after_store now (some ((rc, stored), s)) = some (report now (record s { events_stored = stored }))

module _ {F : Type 0} (p : Platform F) where
  unfoldable pub periodic_db_flush : ℕ → Daemon F → Option (Daemon F)
  periodic_db_flush now s =
      if ltb (s.time_last_flush + time_flush_period) now
      then (elim (on_db (db_flush p) (record s { time_last_flush = now })) [
        | none ↦ none
        | some (rc, s') ↦ some s'
      ])
      else some s

module _ {F : Type 0} (p : Platform F) (path_max : ℕ) where
  unfoldable pub handle_event : Callback → Daemon F → Option (Daemon F)
  handle_event c s =
      if c.ready
      then after_store c.now (on_db (store_event p path_max c.audit s.events_stored) (counted s))
      else some s

  abbrev pub handle_events : List Callback → Daemon F → Option (Daemon F)
  handle_events [] s = some s
  handle_events (c ∷ cs) s = elim (handle_event c s) [ none ↦ none | some s' ↦ handle_events cs s' ]

  abbrev pub fed : Option (List Callback) → Daemon F → Option (Daemon F)
  fed none s = some s
  fed (some cs) s = handle_events cs s

  -- `auparse_feed_age_events`, `auparse_flush_feed` and the flush, behind a time out of `select`
  abbrev pub after_timeout : Round → Daemon F → Option (Daemon F)
  after_timeout r s = elim (fed r.aged s) [
    | none ↦ none
    | some s1 ↦ (elim (handle_events r.flushed s1) [
      | none ↦ none
      | some s2 ↦ periodic_db_flush p r.now s2
    ])
  ]

  -- behind the wait
  unfoldable pub process : ℤ → Round → Daemon F → Option (Daemon F)
  process retval r s =
      if not s.stop && not s.received_sighup && is_positive retval
      then fed r.line s
      else (if is_zero retval then after_timeout r s else some s)

  -- `none` for the daemon is a `select` that has not returned
  abbrev pub round_end : Round → Option ℤ × Daemon F → Option (Option (Daemon F))
  round_end r (none, s) = some none
  round_end r (some retval, s) = elim (process retval r s) [
    | none ↦ none
    | some s' ↦ some (some (deliver r.after s'))
  ]

  unfoldable pub work_round : Round → Daemon F → Option (Option (Daemon F))
  work_round r s =
      let s1 = deliver r.before s in
      let s2 = reload_if s1.received_sighup s1 in round_end r (wait_input s2.mode r.waits s2)

  -- the last `auparse_flush_feed`, and the last flush
  abbrev pub shut_down : List Callback → Daemon F → Option (Progress F)
  shut_down last s = elim (handle_events last s) [
    | none ↦ none
    | some s' ↦ (elim (on_db (db_flush p) s') [ none ↦ none | some (rc, s2) ↦ some (finished s2) ])
  ]

  -- The main loop on the rounds it meets, behind `auparse_init`; `last` are the callbacks of the last
  -- `auparse_flush_feed`. `none` is an abort.
  unfoldable pub work : List Round → List Callback → Daemon F → Option (Progress F)
  work [] last s = some (waiting s)
  work (r ∷ rs) last s = elim (work_round r s) [
    | none ↦ none
    | some none ↦ some (waiting s)
    | some (some s') ↦
        let rest = work rs last s' in if not r.eof && not s'.stop then rest else shut_down last s'
  ]
