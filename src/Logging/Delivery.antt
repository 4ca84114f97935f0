-- ===== src/Logging/Delivery.antt =====
-- A message reaches the sinks as the description says, whichever of the log functions delivers it.
use fusg.Base.{
  List, [], ◌∷◌, ◌++◌, map, Option, none, some, Bytes, ltb, leb, length, if◌then◌else◌, ◌≡◌, refl,
  ap, ◌∙◌, inl, inr, All, Bool-cases,
}
use fusg.Logging.State.{
  Level, ll_debug, ll_info, ll_warn, ll_error, ll_fatal, ll_ignore, rank, Function,
  log_to_console_fn, log_to_file_fn, log_to_syslog_fn, log_err, Stream, Output, stdout_line,
  stderr_line, file_line, syslog_line, stderr_no_mapping, syslog_no_mapping, file_flush, Logging,
  emit, ◌then◌,
}
use fusg.Logging.Functions.{
  log_get_syslog_level, log_to_console, log_to_file, log_to_syslog, call_function, call_chain,
}
use fusg.Logging.Sinks.{View, lines, deliver, deliver_all}

-- a state with its sinks as the description sees it
abbrev pub view : Logging → List Function → View
view s fs = record {
  console = s.console_loglevel;
  file = s.file_loglevel;
  syslog = s.syslog_loglevel;
  stream = s.logging_file;
  sinks = fs;
  output = s.output;
}

-- the file is open where it is a sink
abbrev pub IsUsable : Option Stream → Function → Type 0
IsUsable none log_to_file_fn = ⊥
IsUsable _ _ = Unit

abbrev pub posted : List Output → Logging → Logging
posted out s = record s { output = out ++ s.output }

console-above :
    (level : Level) (m : Bytes) (s : Logging) (fs : List Function)
    → (if ltb (rank level) (rank ll_warn)
        then some (emit (stdout_line level m) s)
        else (if leb (rank level) (rank ll_fatal)
            then some (emit (stderr_line level m) s)
            else some (emit (stderr_line level m) (emit (stderr_no_mapping level) s))))
      ≡ some (posted (lines (view s fs) log_to_console_fn level m) s)
console-above ll_debug m s fs = refl
console-above ll_info m s fs = refl
console-above ll_warn m s fs = refl
console-above ll_error m s fs = refl
console-above ll_fatal m s fs = refl
console-above ll_ignore m s fs = refl

log_to_console-deliver :
    (level : Level) (m : Bytes) (s : Logging) (fs : List Function)
    → log_to_console level m s ≡ some (posted (deliver (view s fs) log_to_console_fn level m) s)
unfolding log_to_console
log_to_console-deliver level m s fs =
    elim (Bool-cases (ltb (rank level) (rank s.console_loglevel))) [
      | inl e ↦ rw e refl
      | inr e ↦ rw e (console-above level m s fs)
    ]

log_to_file-deliver :
    (level : Level) (m : Bytes) (s : Logging) (fs : List Function)
    → IsUsable s.logging_file log_to_file_fn
    → log_to_file level m s ≡ some (posted (deliver (view s fs) log_to_file_fn level m) s)
unfolding log_to_file
log_to_file-deliver level m s fs u = elim (Bool-cases (ltb (rank level) (rank s.file_loglevel))) [
  | inl e ↦ rw e refl
  | inr e ↦ rw e (go s.logging_file u)
]
  where
    go :
        (file : Option Stream)
        → IsUsable file log_to_file_fn
        → (elim file [
          | none ↦ none
          | some f ↦ some (emit (file_flush (some f)) (emit (file_line f level m) s))
        ])
          ≡ some (posted (lines (record (view s fs) { stream = file }) log_to_file_fn level m) s)
    go none v = absurd v
    go (some f) v = refl

log_to_syslog-deliver :
    (level : Level) (m : Bytes) (s : Logging) (fs : List Function)
    → log_to_syslog level m s ≡ some (posted (deliver (view s fs) log_to_syslog_fn level m) s)
unfolding log_to_syslog log_get_syslog_level
log_to_syslog-deliver level m s fs = elim (Bool-cases (ltb (rank level) (rank s.syslog_loglevel))) [
  | inl e ↦ rw e refl
  | inr e ↦ rw e (go level)
]
  where
    go :
        (l : Level)
        → (elim (log_get_syslog_level l) [
          | none ↦ some (emit (syslog_line log_err m) (emit (syslog_no_mapping l) s))
          | some priority ↦ some (emit (syslog_line priority m) s)
        ])
          ≡ some (posted (lines (view s fs) log_to_syslog_fn l m) s)
    go ll_debug = refl
    go ll_info = refl
    go ll_warn = refl
    go ll_error = refl
    go ll_fatal = refl
    go ll_ignore = refl

pub call_function-deliver :
    (f : Function) (level : Level) (m : Bytes) (s : Logging) (fs : List Function)
    → IsUsable s.logging_file f
    → call_function (some f) level m s ≡ some (posted (deliver (view s fs) f level m) s)
call_function-deliver log_to_console_fn level m s fs u = log_to_console-deliver level m s fs
call_function-deliver log_to_file_fn level m s fs u = log_to_file-deliver level m s fs u
call_function-deliver log_to_syslog_fn level m s fs u = log_to_syslog-deliver level m s fs

-- the outputs so far do not matter
deliver_all-posted :
    (gs : List Function) (out more : List Output) (level : Level) (m : Bytes) (s : Logging)
    (fs : List Function)
    → deliver_all (view (record s { output = more }) fs) gs level m out
      ≡ deliver_all (view s fs) gs level m out
deliver_all-posted [] out more level m s fs = refl
deliver_all-posted (log_to_console_fn ∷ gs) out more level m s fs =
    deliver_all-posted gs _ more level m s fs
deliver_all-posted (log_to_file_fn ∷ gs) out more level m s fs =
    deliver_all-posted gs _ more level m s fs
deliver_all-posted (log_to_syslog_fn ∷ gs) out more level m s fs =
    deliver_all-posted gs _ more level m s fs

pub call_chain-deliver_all :
    (gs : List Function) (rest : List (Option Function)) (level : Level) (m : Bytes) (s : Logging)
    (fs : List Function)
    → All (IsUsable s.logging_file) gs
    → call_chain (length gs) (map some gs ++ rest) level m s
      ≡ some (record s { output = deliver_all (view s fs) gs level m s.output })
call_chain-deliver_all [] rest level m s fs u = refl
call_chain-deliver_all (g ∷ gs) rest level m s fs u =
    let out = deliver (view s fs) g level m ++ s.output in
    rw (call_function-deliver g level m s fs u.0, ◌then◌)
      (call_chain-deliver_all gs rest level m (record s { output = out }) fs u.1
        ∙ ap (λ o. some (record s { output = o })) (deliver_all-posted gs out out level m s fs))
