-- ===== src/Logging/Sinks.antt =====
-- What logging.c promises, without its function pointers and its array: the sinks are a list. A message goes
-- to each of them whose level is not above the message's. A set up adds one sink to the list, or
-- replaces all of them; the list has room for eight.
use fusg.Base.{
  Bool, true, false, List, [], ◌∷◌, ◌++◌, Option, none, some, Bytes, ltb, length, take,
  if◌then◌else◌,
}
use fusg.Logging.State.{
  Level, ll_debug, ll_info, ll_warn, ll_error, ll_fatal, ll_ignore, rank, Function,
  log_to_console_fn, log_to_file_fn, log_to_syslog_fn, log_debug, log_info, log_warning, log_err,
  log_crit, Stream, Output, stdout_line, stderr_line, file_line, syslog_line, stderr_no_mapping,
  syslog_no_mapping, file_flush, stderr_flush, stdout_flush, syslog_close, syslog_open, Action,
  ◌then◌,
}
use fusg.Logging.Functions.{log_message}
use fusg.Logging.Setup.{
  logging_init, logging_set_log_levels, logging_setup_file, logging_setup_console,
  logging_setup_syslog, logging_finalize,
}

-- a call of the interface
pub data Request : Type 0 where
  init : Bool → Bytes → Request
  set_log_levels : Level → Level → Level → Request
  setup_file : Stream → Bool → Request
  setup_console : Bool → Request
  setup_syslog : Bytes → Bool → Request
  finalize : Request
  message : Level → Bytes → Request

abbrev pub perform : Request → Action
perform (init have_tty progname) = logging_init have_tty progname
perform (set_log_levels console file syslog) = logging_set_log_levels console file syslog
perform (setup_file log_file chain) = logging_setup_file log_file chain
perform (setup_console chain) = logging_setup_console chain
perform (setup_syslog ident chain) = logging_setup_syslog ident chain
perform finalize = logging_finalize
perform (message level text) = log_message level text

abbrev pub perform_all : List Request → Action
perform_all [] s = some s
perform_all (r ∷ rs) s = (perform r then perform_all rs) s

-- The description. Its outputs have the last one first, too.
pub record View : Type 0 where
  pub console : Level
  pub file : Level
  pub syslog : Level
  pub stream : Option Stream
  pub sinks : List Function
  pub output : List Output

abbrev pub threshold : View → Function → Level
threshold v log_to_console_fn = v.console
threshold v log_to_file_fn = v.file
threshold v log_to_syslog_fn = v.syslog

abbrev console_lines : Level → Bytes → List Output
console_lines ll_debug m = stdout_line ll_debug m ∷ []
console_lines ll_info m = stdout_line ll_info m ∷ []
console_lines ll_ignore m = stderr_line ll_ignore m ∷ stderr_no_mapping ll_ignore ∷ []
console_lines level m = stderr_line level m ∷ []

abbrev syslog_lines : Level → Bytes → List Output
syslog_lines ll_debug m = syslog_line log_debug m ∷ []
syslog_lines ll_info m = syslog_line log_info m ∷ []
syslog_lines ll_warn m = syslog_line log_warning m ∷ []
syslog_lines ll_error m = syslog_line log_err m ∷ []
syslog_lines ll_fatal m = syslog_line log_crit m ∷ []
syslog_lines ll_ignore m = syslog_line log_err m ∷ syslog_no_mapping ll_ignore ∷ []

abbrev file_lines : Option Stream → Level → Bytes → List Output
file_lines none level m = []
file_lines (some f) level m = file_flush (some f) ∷ file_line f level m ∷ []

abbrev pub lines : View → Function → Level → Bytes → List Output
lines v log_to_console_fn level m = console_lines level m
lines v log_to_file_fn level m = file_lines v.stream level m
lines v log_to_syslog_fn level m = syslog_lines level m

-- what one sink does with a message
abbrev pub deliver : View → Function → Level → Bytes → List Output
deliver v f level m = if ltb (rank level) (rank (threshold v f)) then [] else lines v f level m

abbrev pub deliver_all : View → List Function → Level → Bytes → List Output → List Output
deliver_all v [] level m out = out
deliver_all v (f ∷ fs) level m out = deliver_all v fs level m (deliver v f level m ++ out)

abbrev pub flush_of : Option Stream → Function → List Output
flush_of stream log_to_console_fn = stdout_flush ∷ stderr_flush ∷ []
flush_of stream log_to_file_fn = file_flush stream ∷ []
flush_of stream log_to_syslog_fn = syslog_close ∷ []

abbrev pub flush_all : Option Stream → List Function → List Output → List Output
flush_all stream [] out = out
flush_all stream (f ∷ fs) out = flush_all stream fs (flush_of stream f ++ out)

abbrev pub closed : View → View
closed v = record v { sinks = log_to_console_fn ∷ []; output = flush_all v.stream v.sinks v.output }

-- the buffer holds the terminating byte, too
abbrev pub cut : Bytes → Bytes
cut text = take 8446 text

-- one more sink, or one in place of all
abbrev pub with_sink : Bool → Function → View → Option View
with_sink true f v =
    if ltb (length v.sinks) 8 then some (record v { sinks = v.sinks ++ (f ∷ []) }) else none
with_sink false f v = some (record v { sinks = f ∷ [] })

abbrev pub prepared : Bool → View → View
prepared true v = v
prepared false v = closed v

abbrev pub describe : Request → View → Option View
describe (init true progname) v = some (closed v)
describe (init false progname) v = some (record (closed v) {
  sinks = log_to_syslog_fn ∷ [];
  output = syslog_open progname ∷ (closed v).output;
})
describe (set_log_levels console file syslog) v =
    some (record v { console = console; file = file; syslog = syslog })
describe (setup_file log_file chain) v =
    with_sink chain log_to_file_fn (record (prepared chain v) { stream = some log_file })
describe (setup_console chain) v = with_sink chain log_to_console_fn (prepared chain v)
describe (setup_syslog ident chain) v =
    with_sink chain log_to_syslog_fn
      (record (prepared chain v) { output = syslog_open ident ∷ (prepared chain v).output })
describe finalize v = some (closed v)
describe (message level text) v =
    some (record v { output = deliver_all v v.sinks level (cut text) v.output })

abbrev pub describe_all : List Request → View → Option View
describe_all [] v = some v
describe_all (r ∷ rs) v = elim (describe r v) [ none ↦ none | some v' ↦ describe_all rs v' ]

-- before the first request
abbrev pub first_view : View
first_view = record {
  console = ll_debug;
  file = ll_debug;
  syslog = ll_debug;
  stream = none;
  sinks = log_to_console_fn ∷ [];
  output = [];
}
