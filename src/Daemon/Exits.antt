-- ===== src/Daemon/Exits.antt =====
-- What `main` of sources/fusgd/src/fusgd.c leaves behind, whatever it meets.
use fusg.Base.{
  ℕ, ◌+◌, Bool, true, false, List, [], ◌∷◌, Option, none, some, Bytes, ℤ, success, is_zero,
  if◌then◌else◌, ◌≡◌, refl, inl, inr, arith, All, Bool-cases,
}
use fusg.Db.Platform.{LockOp}
use fusg.Db.State.{Call, Db}
use fusg.Db.Open.{path_max, as_open, any_flag, Opened, opened, refused}
use fusg.Db.Balance.{IsBalanced, db_close-IsBalanced}
use fusg.Db.Connected.{IsAccounted}
use fusg.Db.Accounts.{db_open-IsAccounted}
use fusg.Db.Still.{IsStill, IsStill-IsHeld, IsHeld-IsStill}
use fusg.Conf.Lines.{Conf, err_conf, fusg_conf_read}
use fusg.Logging.State.{Logging, initial}
use fusg.Logging.Sinks.{perform_all}
use fusg.Os.Coredump.{system_coredump_pattern}
use fusg.Daemon.State.{Mode, op_help, op_parse_stdin, op_parse_file}
use fusg.Daemon.Work.{Progress, waiting, finished, work}
use fusg.Daemon.Args.{Options, read_options}
use fusg.Daemon.Planned.{daemon_of}
use fusg.Daemon.Still.{DbStill, work-DbStill}
use fusg.Daemon.Clean.{IsClean}
use fusg.Daemon.Ends.{has_answer, has_end, IsEnded, work-IsEnded}
use fusg.Daemon.Main.{
  OwnFile, log_stream, trace_stream, source_stream, StreamCall, fopened, fclosed, Surroundings,
  to_write, Exit, Outcome, exits, waits, SetUp, only_log, stream_calls, first_requests, no_conf,
  open_log, exit_with, bail, global_with, after_work, serve, serve_from, read_source, behind_conf,
  main,
}

abbrev is_stream : OwnFile → OwnFile → Bool
is_stream log_stream log_stream = true
is_stream trace_stream trace_stream = true
is_stream source_stream source_stream = true
is_stream _ _ = false

-- how often a file was opened, and closed
abbrev pub fopens : OwnFile → List StreamCall → ℕ
fopens f [] = 0
fopens f (fopened g ∷ cs) = (if is_stream f g then 1 else 0) + fopens f cs
fopens f (fclosed g ∷ cs) = fopens f cs

abbrev pub fcloses : OwnFile → List StreamCall → ℕ
fcloses f [] = 0
fcloses f (fopened g ∷ cs) = fcloses f cs
fcloses f (fclosed g ∷ cs) = (if is_stream f g then 1 else 0) + fcloses f cs

-- The connection that was closed had no changes left to be synced, and the code is the value of
-- `system_coredump_pattern`.
abbrev pub IsSaved : {F : Type 0} → Surroundings F → ℤ → Option (Db F) → Type 0
IsSaved w code none = Unit
IsSaved w code (some d) =
    (d.dirty ≡ false) × (code ≡ (system_coredump_pattern path_max w.core_pattern).value)

-- All that was opened is closed, but for the input.
pub record IsShutDown {F : Type 0} (w : Surroundings F) (x : Exit F) : Type 0 where
  pub database : IsBalanced x.calls
  pub log : fopens log_stream x.streams ≡ fcloses log_stream x.streams
  pub trace : fopens trace_stream x.streams ≡ fcloses trace_stream x.streams
  pub saved : IsSaved w x.code x.closed

-- an abort, or an exit with all shut down, but no wait
abbrev pub ShutsDown : {F : Type 0} → Surroundings F → Option (Outcome F) → Type 0
ShutsDown w none = Unit
ShutsDown w (some (waits s)) = ⊥
ShutsDown w (some (exits x)) = IsShutDown w x

no_calls-IsBalanced : IsBalanced []
no_calls-IsBalanced = record { files = λ t. refl; lock = refl }

log-closed : (u : SetUp) → fopens log_stream (stream_calls u) ≡ fcloses log_stream (stream_calls u)
log-closed u = ground arith

trace-closed :
    (u : SetUp) → fopens trace_stream (stream_calls u) ≡ fcloses trace_stream (stream_calls u)
trace-closed u = ground arith

module _ {F : Type 0} (w : Surroundings F) where
  exit_with-IsShutDown :
      (rc : ℤ) (u : SetUp) (d : Option (Db F)) (cs : List Call)
      → IsBalanced cs
      → IsSaved w rc d
      → IsShutDown w (exit_with w rc u d cs)
  exit_with-IsShutDown rc u d cs b s = record {
    database = b;
    log = log-closed u;
    trace = trace-closed u;
    saved = s;
  }

  bail-ShutsDown :
      (u : SetUp) (fd : ℤ) (d : Db F)
      → IsStill to_write d
      → IsClean d
      → ShutsDown w (bail w (system_coredump_pattern path_max w.core_pattern).value u fd d)
  unfolding bail
  bail-ShutsDown u fd d h c =
      let used : any_flag d.open_flags ≡ true = rw (h.open_flags) refl in
      let (d', run, b) =
        db_close-IsBalanced w.platform fd (as_open d) used (IsStill-IsHeld to_write d h) in
      rw (run, ShutsDown) (exit_with-IsShutDown _ u (some d) d'.calls b (clean c, refl))
    where
      clean : IsClean d → d.dirty ≡ false
      clean (inl e) = e
      clean (inr e) = cc (rw h.open_flags at e)

module _ {F : Type 0} (w : Surroundings F)
    (locks : (n : ℕ) (op : LockOp) → w.platform.flock n op ≡ success) (begins : w.auparse ≡ true)
    (answers : All (λ r. has_answer r.waits ≡ true) w.rounds) where
  serve-ShutsDown :
      (u : SetUp) (mode : Mode) (fd : ℤ) (x : Option (Opened F))
      → has_end mode w.rounds ≡ true
      → IsAccounted to_write x
      → ShutsDown w (serve w (system_coredump_pattern path_max w.core_pattern).value u mode fd x)
  serve-ShutsDown u mode fd none ends h = tt
  serve-ShutsDown u mode fd (some (refused cs)) ends h = go w.auparse begins
    where
      go :
          (b : Bool)
          → b ≡ true
          → ShutsDown w (
              if b
              then none
              else some (
                  exits (
                    exit_with w (system_coredump_pattern path_max w.core_pattern).value u none cs)))
      go true e = tt
      go false e = cc e
  serve-ShutsDown u mode fd (some (opened d)) ends h = begun w.auparse begins
    where
      go :
          (y : Option (Progress F))
          → DbStill to_write daemon_of y
          → IsEnded y
          → ShutsDown w
              (after_work w (system_coredump_pattern path_max w.core_pattern).value u fd y)
      go none k e = tt
      go (some (waiting s)) k e = e
      go (some (finished s)) k e = bail-ShutsDown w u fd s.db k e

      begun :
          (b : Bool)
          → b ≡ true
          → ShutsDown w (
              after_work w (system_coredump_pattern path_max w.core_pattern).value u fd (
                if b
                then work w.platform path_max w.rounds w.last (global_with w mode d)
                else some (finished (global_with w mode d))))
      begun false e = cc e
      begun true e =
          go (work w.platform path_max w.rounds w.last (global_with w mode d))
            (work-DbStill w.platform path_max to_write w.rounds w.last (global_with w mode d)
              (IsHeld-IsStill to_write d h.0 h.2))
            (work-IsEnded w.platform path_max locks w.rounds w.last (global_with w mode d) answers
              ends)

  serve_from-ShutsDown :
      (mode : Mode) (conf : Conf) (source : Bool) (l : Bool × Logging)
      → has_end mode w.rounds ≡ true
      → ShutsDown w
          (serve_from w (system_coredump_pattern path_max w.core_pattern).value mode conf source l)
  unfolding serve_from
  serve_from-ShutsDown mode conf source (log_open, l) ends =
      serve-ShutsDown _ mode (w.disk.open_dir conf.db_path) _ ends
        (db_open-IsAccounted w.platform to_write refl w.disk w.errno conf.db_path)

  read_source-ShutsDown :
      (o : Options) (conf : Conf) (l : Bool × Logging)
      → has_end o.mode w.rounds ≡ true
      → ShutsDown w (read_source w o conf l)
  unfolding read_source
  read_source-ShutsDown o conf (log_open, l) ends = go o.mode ends
    where
      go :
          (m : Mode)
          → has_end m w.rounds ≡ true
          → ShutsDown w (read_source w (record o { mode = m }) conf (log_open, l))
      go op_help ends = serve_from-ShutsDown op_help conf false (log_open, l) ends
      go op_parse_stdin ends = serve_from-ShutsDown op_parse_stdin conf false (log_open, l) ends
      go op_parse_file ends = elim (Bool-cases (w.readable o.source)) [
        | inl e ↦ rw e (serve_from-ShutsDown op_parse_file conf true (log_open, l) ends)
        | inr e ↦ rw e (
            exit_with-IsShutDown w err_conf (only_log (log_open, l)) none [] no_calls-IsBalanced tt)
      ]

  behind_conf-ShutsDown :
      (o : Options) (l : Logging) (x : Option (ℤ × Conf))
      → has_end o.mode w.rounds ≡ true
      → ShutsDown w (behind_conf w o l x)
  behind_conf-ShutsDown o l none ends = tt
  behind_conf-ShutsDown o l (some (rc, conf)) ends = go o.mode ends
    where
      logged :
          (m : Mode) (y : Option (Bool × Logging))
          → has_end m w.rounds ≡ true
          → ShutsDown w (elim y as (λ _. Option (Outcome F)) [
            | none ↦ none
            | some x ↦ read_source w (record o { mode = m }) conf x
          ])
      logged m none ends = tt
      logged m (some x) ends = read_source-ShutsDown (record o { mode = m }) conf x ends

      go :
          (m : Mode)
          → has_end m w.rounds ≡ true
          → ShutsDown w (behind_conf w (record o { mode = m }) l (some (rc, conf)))
      go op_help ends = record {
        database = no_calls-IsBalanced;
        log = refl;
        trace = refl;
        saved = tt;
      }
      go op_parse_stdin ends = logged op_parse_stdin (open_log w conf.fusgd_log l) ends
      go op_parse_file ends = logged op_parse_file (open_log w conf.fusgd_log l) ends

  -- Whatever the arguments, the configuration, the file system and gdbm, where `flock` and
  -- `auparse_init` succeed, `select` returns in every round, and a round meets the end of the
  -- stream, or SIGTERM before, during or after its wait: `main` exits, unless it aborts. Each of
  -- the six files of the database was then closed as often as it was opened, the directory
  -- unlocked as often as locked, and the log and the trace file closed as often as opened. The
  -- descriptor of the directory is not counted. Where a connection was closed, no change was left
  -- to be synced, and the exit code is the value of `system_coredump_pattern`.
  pub main-ShutsDown :
      (args : List Bytes)
      → has_end (read_options args).mode w.rounds ≡ true
      → ShutsDown w (main w args)
  unfolding main
  main-ShutsDown args ends = go (perform_all (first_requests w.have_tty) initial)
    where
      go :
          (x : Option Logging)
          → ShutsDown w (elim x as (λ _. Option (Outcome F)) [
            | none ↦ none
            | some l ↦ behind_conf w (read_options args) l (
                if is_zero (read_options args).rc
                then fusg_conf_read (w.contents (read_options args).conf_file)
                else some ((read_options args).rc, no_conf))
          ])
      go none = tt
      go (some l) = behind_conf-ShutsDown (read_options args) l _ ends
