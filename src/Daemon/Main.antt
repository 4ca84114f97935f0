-- ===== src/Daemon/Main.antt =====
-- `main` of sources/fusgd/src/fusgd.c, from the arguments to the exit code. Its log messages and the text
-- of the help are not modelled.
use fusg.Base.{
  ℕ, Bool, true, false, List, [], ◌∷◌, ◌++◌, Option, none, some, Bytes, codes, ℤ, is_zero,
  if◌then◌else◌,
}
use fusg.Db.Platform.{Platform}
use fusg.Db.State.{OpenFlags, Errno, Call, Db}
use fusg.Db.Disk.{Disk}
use fusg.Db.Open.{path_max, as_open, Opened, opened, refused, db_close, db_open}
use fusg.Conf.Lines.{Conf, err_conf, fusg_conf_read}
use fusg.Logging.State.{ll_debug, ll_info, ll_error, Logging, initial}
use fusg.Logging.Sinks.{Request, init, set_log_levels, setup_file, perform_all}
use fusg.Os.Coredump.{system_coredump_pattern}
use fusg.Daemon.State.{Mode, op_help, op_parse_file, Daemon, Callback, Round}
use fusg.Daemon.Work.{Progress, waiting, finished, work}
use fusg.Daemon.Args.{Options, read_options}

-- the files that `main` opens itself
pub data OwnFile : Type 0 where
  log_stream trace_stream source_stream : OwnFile

pub data StreamCall : Type 0 where
  fopened fclosed : OwnFile → StreamCall

-- `trace_out`
pub data TraceOut : Type 0 where
  no_trace trace_stdout trace_file : TraceOut

-- What `main` meets: gdbm, the file system, whether the standard streams are a terminal, what read(2)
-- finds in the file of the core pattern, `gdbm_errno` before, the clock, whether auparse_init(3)
-- succeeds, and what the main loop meets. `writable` and `readable` are fopen(3).
pub record Surroundings (F : Type 0) : Type 0 where
  pub platform : Platform F
  pub disk : Disk F
  pub have_tty : Bool
  pub contents : Bytes → Option Bytes
  pub writable : Bytes → Bool
  pub readable : Bytes → Bool
  pub core_pattern : Option Bytes
  pub errno : Errno
  pub now : ℕ
  pub auparse : Bool
  pub rounds : List Round
  pub last : List Callback

-- `DB_WRITE`
abbrev pub to_write : OpenFlags
to_write = record { read = false; write = true; sync = false }

-- the configuration that is zero
abbrev pub no_conf : Conf
no_conf = record { fusgd_log = []; fusgd_trace = []; db_path = [] }

-- What the process leaves: its code, the logging, the calls on its files and on the database in their
-- order (the last one first for the database), `trace_out`, and the connection that `db_close` was called with.
pub record Exit (F : Type 0) : Type 0 where
  pub code : ℤ
  pub logging : Logging
  pub streams : List StreamCall
  pub calls : List Call
  pub trace_out : TraceOut
  pub closed : Option (Db F)

-- the process exits, or the main loop waits for input
pub data Outcome (F : Type 0) : Type 0 where
  exits : Exit F → Outcome F
  waits : Daemon F → Outcome F

-- what the set up has opened
pub record SetUp : Type 0 where
  pub logging : Logging
  pub log_open : Bool
  pub trace_open : Bool
  pub source_open : Bool
  pub trace_out : TraceOut

abbrev pub when : Bool → StreamCall → List StreamCall
when true c = c ∷ []
when false c = []

-- the files in the order of their calls
abbrev pub stream_calls : SetUp → List StreamCall
stream_calls u =
    when u.log_open (fopened log_stream)
    ++ (when u.source_open (fopened source_stream)
        ++ (when u.trace_open (fopened trace_stream)
            ++ (when u.trace_open (fclosed trace_stream) ++ when u.log_open (fclosed log_stream))))

-- only the log file is open
abbrev pub only_log : Bool × Logging → SetUp
only_log (log_open, l) = record {
  logging = l;
  log_open = log_open;
  trace_open = false;
  source_open = false;
  trace_out = no_trace;
}

-- the process name
abbrev pub fusgd_name : Bytes
fusgd_name = codes "fusgd"

abbrev pub first_requests : Bool → List Request
first_requests have_tty = set_log_levels ll_info ll_debug ll_info ∷ init have_tty fusgd_name ∷ []

-- behind the open of the log file, which is stream 0
abbrev pub file_requests : List Request
file_requests = setup_file 0 true ∷ set_log_levels ll_error ll_debug ll_error ∷ []

module _ {F : Type 0} (w : Surroundings F) where
  -- where `fusgd_log` is set
  unfoldable pub open_log : Bytes → Logging → Option (Bool × Logging)
  open_log [] l = some (false, l)
  open_log (c ∷ s) l =
      if w.writable (c ∷ s)
      then (elim (perform_all file_requests l) [ none ↦ none | some l' ↦ some (true, l') ])
      else some (false, l)

  -- whether the trace file is open, and where traces go
  unfoldable pub open_trace : Bytes → Bool × TraceOut
  open_trace [] = (false, trace_stdout)
  open_trace (c ∷ s) = if w.writable (c ∷ s) then (true, trace_file) else (false, no_trace)

  -- behind `db_close`: the two files, and the code
  abbrev pub exit_with : ℤ → SetUp → Option (Db F) → List Call → Exit F
  exit_with rc u d cs = record {
    code = rc;
    logging = u.logging;
    streams = stream_calls u;
    calls = cs;
    trace_out = u.trace_out;
    closed = d;
  }

  -- the label `bail` with a connection; `fd` is its descriptor
  unfoldable pub bail : ℤ → SetUp → ℤ → Db F → Option (Outcome F)
  bail rc u fd d = elim (db_close w.platform fd (as_open d)) [
    | none ↦ none
    | some (_, d') ↦ some (exits (exit_with rc u (some d) d'.calls))
  ]

  -- `global` where the main loop starts
  abbrev pub global_with : Mode → Db F → Daemon F
  global_with mode d = record {
    mode = mode;
    stop = false;
    received_sighup = false;
    last_stats_report = w.now;
    events_processed = 0;
    events_stored = 0;
    time_last_flush = 0;
    db = d;
  }

  -- `work`, from `auparse_init` on
  abbrev pub work_all : Daemon F → Option (Progress F)
  work_all s = if w.auparse then work w.platform path_max w.rounds w.last s else some (finished s)

  abbrev pub after_work : ℤ → SetUp → ℤ → Option (Progress F) → Option (Outcome F)
  after_work rc u fd none = none
  after_work rc u fd (some (waiting s)) = some (waits s)
  after_work rc u fd (some (finished s)) = bail rc u fd s.db

  -- Behind `db_open`. With a null pointer the loop can wait, but not end: the last flush uses the
  -- pointer. It is taken for an abort.
  abbrev pub serve : ℤ → SetUp → Mode → ℤ → Option (Opened F) → Option (Outcome F)
  serve rc u mode fd none = none
  serve rc u mode fd (some (refused cs)) =
      if w.auparse then none else some (exits (exit_with rc u none cs))
  serve rc u mode fd (some (opened d)) = after_work rc u fd (work_all (global_with mode d))

  -- from the event tracing on
  unfoldable pub serve_from : ℤ → Mode → Conf → Bool → Bool × Logging → Option (Outcome F)
  serve_from rc mode conf source (log_open, l) =
      let (trace_open, out) = open_trace conf.fusgd_trace in
      serve rc
        (record {
          logging = l;
          log_open = log_open;
          trace_open = trace_open;
          source_open = source;
          trace_out = out;
        })
        mode (w.disk.open_dir conf.db_path)
        (db_open w.platform w.disk to_write w.errno conf.db_path)

  -- what is left where the input cannot be opened
  abbrev pub unread : Bool × Logging → Outcome F
  unread l = exits (exit_with err_conf (only_log l) none [])

  -- From the input file on. The code is the value of `system_coredump_pattern` here.
  unfoldable pub read_source : Options → Conf → Bool × Logging → Option (Outcome F)
  read_source o conf l =
      let rc = (system_coredump_pattern path_max w.core_pattern).value in
      elim o.mode [
        | op_parse_file ↦
            if w.readable o.source then serve_from rc op_parse_file conf true l else some (unread l)
        | mode ↦ serve_from rc mode conf false l
      ]

  abbrev pub behind_conf : Options → Logging → Option (ℤ × Conf) → Option (Outcome F)
  behind_conf o l none = none
  behind_conf o l (some (_, conf)) = elim o.mode [
    | op_help ↦ some (
        exits (record {
          code = o.rc;
          logging = l;
          streams = [];
          calls = [];
          trace_out = no_trace;
          closed = none;
        }))
    | mode ↦ (elim (open_log conf.fusgd_log l) [ none ↦ none | some x ↦ read_source o conf x ])
  ]

  -- the arguments without the name of the program; `none` is an abort
  unfoldable pub main : List Bytes → Option (Outcome F)
  main args =
      let o = read_options args in
      elim (perform_all (first_requests w.have_tty) initial) [
        | none ↦ none
        | some l ↦
            behind_conf o l (
              if is_zero o.rc
              then fusg_conf_read (w.contents o.conf_file)
              else some (o.rc, no_conf))
      ]
