-- ===== src/Daemon/State.antt =====
-- The variables of sources/fusgd/src/fusgd.h and work.c, and what a round of the main loop meets: the
-- answers of the clock, of select(2) and of the stream, the signals, and the callbacks of libauparse.
use fusg.Base.{ℕ, Bool, ◌||◌, List, Option, none, some, ℤ}
use fusg.Db.State.{Db, M}
use fusg.Events.Audit.{Audit}

-- `fusgd_op_t`
pub data Mode : Type 0 where
  op_help op_parse_stdin op_parse_file : Mode

-- the fields of `fusgd_global_t` that the main loop uses, and `time_last_flush`
pub record Daemon (F : Type 0) : Type 0 where
  pub mode : Mode
  pub stop : Bool
  pub received_sighup : Bool
  pub last_stats_report : ℕ
  pub events_processed : ℕ
  pub events_stored : ℕ
  pub time_last_flush : ℕ
  pub db : Db F

-- One call of `handle_event`: whether an event is ready, the event, and what the clock says.
pub record Callback : Type 0 where
  pub ready : Bool
  pub audit : Option Audit
  pub now : ℕ

-- the signals that arrived since the last point where the loop looks at them
pub record Signals : Type 0 where
  pub hup : Bool
  pub term : Bool

-- one return of `select`: its value, and whether `errno` is EINTR
pub record Wait : Type 0 where
  pub retval : ℤ
  pub interrupted : Bool
  pub signals : Signals

-- What a round meets. `waits` are the returns of `select` in their order; `line` are the callbacks of
-- `auparse_feed` for the line that is read, `none` where there is no line; `aged` those of
-- `auparse_feed_age_events`, `none` where it is not called; `flushed` those of
-- `auparse_flush_feed`; `eof` is `feof` at the end of the round.
pub record Round : Type 0 where
  pub before : Signals
  pub waits : List Wait
  pub line : Option (List Callback)
  pub aged : Option (List Callback)
  pub flushed : List Callback
  pub now : ℕ
  pub after : Signals
  pub eof : Bool

module _ {F : Type 0} where
  -- `term_handler` and `hup_handler`
  abbrev pub deliver : Signals → Daemon F → Daemon F
  deliver g s = record s { stop = s.stop || g.term; received_sighup = s.received_sighup || g.hup }

  -- an action on the database of the daemon
  abbrev pub on_db : {A : Type 0} → M F A → Daemon F → Option (A × Daemon F)
  on_db m s = elim (m s.db) [ none ↦ none | some (a, d) ↦ some (a, record s { db = d }) ]
