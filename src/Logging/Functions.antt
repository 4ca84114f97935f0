-- ===== src/Logging/Functions.antt =====
-- The log functions of sources/fusg-common/src/logging.c: one message to the console, to the
-- file, to syslog, and to a chain of these.
use fusg.Base.{
  ℕ, zero, suc, ◌-◌, List, [], ◌∷◌, Option, none, some, Bytes, ltb, leb, take, if◌then◌else◌,
}
use fusg.Logging.State.{
  Level, ll_debug, ll_info, ll_warn, ll_error, ll_fatal, ll_ignore, rank, Function,
  log_to_console_fn, log_to_file_fn, log_to_syslog_fn, log_to_console_v_fn, log_to_file_v_fn,
  log_to_syslog_v_fn, log_to_chain_v_fn, Priority, log_debug, log_info, log_warning, log_err,
  log_crit, stdout_line, stderr_line, file_line, syslog_line, stderr_no_mapping, syslog_no_mapping,
  file_flush, log_max_msg_len, Action, emit, ◌then◌,
}

-- the text that `vsnprintf` makes of the arguments, cut to the buffer
unfoldable pub log_format_message : ℕ → Bytes → Bytes
log_format_message buffer_size text = take (buffer_size - 1) text

unfoldable pub log_get_syslog_level : Level → Option Priority
log_get_syslog_level ll_debug = some log_debug
log_get_syslog_level ll_info = some log_info
log_get_syslog_level ll_warn = some log_warning
log_get_syslog_level ll_error = some log_err
log_get_syslog_level ll_fatal = some log_crit
log_get_syslog_level ll_ignore = none

unfoldable pub log_to_syslog : Level → Bytes → Action
log_to_syslog level message s =
    if ltb (rank level) (rank s.syslog_loglevel)
    then some s
    else (elim (log_get_syslog_level level) [
      | none ↦ some (emit (syslog_line log_err message) (emit (syslog_no_mapping level) s))
      | some priority ↦ some (emit (syslog_line priority message) s)
    ])

unfoldable pub log_to_syslog_v : Level → Bytes → Action
log_to_syslog_v level text s =
    if ltb (rank level) (rank s.syslog_loglevel)
    then some s
    else log_to_syslog level (log_format_message log_max_msg_len text) s

unfoldable pub log_to_file : Level → Bytes → Action
log_to_file level message s =
    if ltb (rank level) (rank s.file_loglevel) then some s else (elim s.logging_file [
      | none ↦ none
      | some f ↦ some (emit (file_flush (some f)) (emit (file_line f level message) s))
    ])

unfoldable pub log_to_file_v : Level → Bytes → Action
log_to_file_v level text s =
    if ltb (rank level) (rank s.file_loglevel)
    then some s
    else log_to_file level (log_format_message log_max_msg_len text) s

unfoldable pub log_to_console : Level → Bytes → Action
log_to_console level message s =
    if ltb (rank level) (rank s.console_loglevel)
    then some s
    else (if ltb (rank level) (rank ll_warn)
        then some (emit (stdout_line level message) s)
        else (if leb (rank level) (rank ll_fatal)
            then some (emit (stderr_line level message) s)
            else some (emit (stderr_line level message) (emit (stderr_no_mapping level) s))))

unfoldable pub log_to_console_v : Level → Bytes → Action
log_to_console_v level text s =
    if ltb (rank level) (rank s.console_loglevel)
    then some s
    else log_to_console level (log_format_message log_max_msg_len text) s

-- `logging_chain[i](level, message)`
abbrev pub call_function : Option Function → Level → Bytes → Action
call_function none level message s = none
call_function (some log_to_console_fn) level message s = log_to_console level message s
call_function (some log_to_file_fn) level message s = log_to_file level message s
call_function (some log_to_syslog_fn) level message s = log_to_syslog level message s

-- the loop, with `n` rounds left; a read behind the array is `none`
abbrev pub call_chain : ℕ → List (Option Function) → Level → Bytes → Action
call_chain zero slots level message s = some s
call_chain (suc n) [] level message s = none
call_chain (suc n) (f ∷ slots) level message s =
    (call_function f level message then call_chain n slots level message) s

unfoldable pub log_to_chain_v : Level → Bytes → Action
log_to_chain_v level text s =
    call_chain s.logging_chain_size s.logging_chain level (log_format_message log_max_msg_len text)
      s

-- `log_debug` and its kin: `logging(level, fmt, ap)`
unfoldable pub log_message : Level → Bytes → Action
log_message level text s = elim s.logging [
  | log_to_console_v_fn ↦ log_to_console_v level text s
  | log_to_file_v_fn ↦ log_to_file_v level text s
  | log_to_syslog_v_fn ↦ log_to_syslog_v level text s
  | log_to_chain_v_fn ↦ log_to_chain_v level text s
]
