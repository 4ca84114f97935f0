-- ===== src/Logging/Setup.antt =====
-- The set up of sources/fusg-common/src/logging.c, and its end.
use fusg.Base.{
  ℕ, zero, suc, ◌+◌, Bool, false, List, [], ◌∷◌, Option, none, some, Bytes, ltb, if◌then◌else◌,
}
use fusg.Logging.State.{
  Level, Function, log_to_console_fn, log_to_file_fn, log_to_syslog_fn, FunctionV,
  log_to_console_v_fn, log_to_file_v_fn, log_to_syslog_v_fn, log_to_chain_v_fn, Stream, file_flush,
  stderr_flush, stdout_flush, syslog_close, syslog_open, Logging, logging_chain_max, Action, emit,
  ◌then◌,
}

unfoldable pub logging_set_log_levels : Level → Level → Level → Action
logging_set_log_levels console file syslog s =
    some (record s { console_loglevel = console; file_loglevel = file; syslog_loglevel = syslog })

-- a null result is `none`
unfoldable pub logging_get_function : FunctionV → Option Function
logging_get_function log_to_console_v_fn = some log_to_console_fn
logging_get_function log_to_file_v_fn = some log_to_file_fn
logging_get_function log_to_syslog_v_fn = some log_to_syslog_fn
logging_get_function log_to_chain_v_fn = none

unfoldable pub logging_get_function_v : Function → FunctionV
logging_get_function_v log_to_console_fn = log_to_console_v_fn
logging_get_function_v log_to_file_fn = log_to_file_v_fn
logging_get_function_v log_to_syslog_fn = log_to_syslog_v_fn

unfoldable pub logging_finalize_that_v : FunctionV → Logging → Logging
logging_finalize_that_v log_to_file_v_fn s = emit (file_flush s.logging_file) s
logging_finalize_that_v log_to_console_v_fn s = emit stdout_flush (emit stderr_flush s)
logging_finalize_that_v log_to_syslog_v_fn s = emit syslog_close s
logging_finalize_that_v log_to_chain_v_fn s = s

unfoldable pub logging_finalize_that : Function → Logging → Logging
logging_finalize_that f s = logging_finalize_that_v (logging_get_function_v f) s

-- a slot of the array that is written; an index behind it is `none`
abbrev pub set_slot : ℕ → Option Function → List (Option Function) → Option (List (Option Function))
set_slot n f [] = none
set_slot zero f (x ∷ slots) = some (f ∷ slots)
set_slot (suc n) f (x ∷ slots) = elim (set_slot n f slots) [
  | none ↦ none
  | some slots' ↦ some (x ∷ slots')
]

abbrev pub write_slot : ℕ → Option Function → Action
write_slot n f s = elim (set_slot n f s.logging_chain) [
  | none ↦ none
  | some slots ↦ some (record s { logging_chain = slots })
]

unfoldable pub logging_chain_clear : Action
logging_chain_clear s = write_slot 0 none (record s { logging_chain_size = 0 })

-- the loop over the chain with `n` rounds left; it ends at a null pointer
abbrev pub finalize_chain : ℕ → List (Option Function) → Action
finalize_chain zero slots s = some s
finalize_chain (suc n) [] s = none
finalize_chain (suc n) (none ∷ slots) s = some s
finalize_chain (suc n) (some f ∷ slots) s = finalize_chain n slots (logging_finalize_that f s)

abbrev pub to_console_v : Action
to_console_v s = some (record s { logging = log_to_console_v_fn })

unfoldable pub logging_finalize : Action
logging_finalize s = elim s.logging [
  | log_to_chain_v_fn ↦
      (finalize_chain s.logging_chain_size s.logging_chain
          then logging_chain_clear
          then to_console_v)
        s
  | f ↦ to_console_v (logging_finalize_that_v f s)
]

unfoldable pub logging_chain_init : Action
logging_chain_init s = elim s.logging [
  | log_to_chain_v_fn ↦ some s
  | f ↦
      write_slot 0 (logging_get_function f)
        (record s { logging = log_to_chain_v_fn; logging_chain_size = s.logging_chain_size + 1 })
]

-- the two assertions come first
unfoldable pub logging_chain_append : Function → Action
logging_chain_append f s = elim s.logging [
  | log_to_chain_v_fn ↦
      if ltb s.logging_chain_size logging_chain_max
      then write_slot s.logging_chain_size (some f)
          (record s { logging_chain_size = s.logging_chain_size + 1 })
      else none
  | _ ↦ none
]

abbrev pub install : FunctionV → Action
install f s = some (record s { logging = f })

unfoldable pub logging_setup_file : Stream → Bool → Action
logging_setup_file log_file chain =
    (if chain then logging_chain_init else logging_finalize)
    then (λ s. some (record s { logging_file = some log_file }))
    then (if chain then logging_chain_append log_to_file_fn else install log_to_file_v_fn)

unfoldable pub logging_setup_console : Bool → Action
logging_setup_console chain =
    (if chain then logging_chain_init else logging_finalize)
    then (if chain then logging_chain_append log_to_console_fn else install log_to_console_v_fn)

unfoldable pub logging_setup_syslog : Bytes → Bool → Action
logging_setup_syslog ident chain =
    (if chain then logging_chain_init else logging_finalize)
    then (λ s. some (emit (syslog_open ident) s))
    then (if chain then logging_chain_append log_to_syslog_fn else install log_to_syslog_v_fn)

-- `have_tty` is what isatty(3) says of both standard streams
unfoldable pub logging_init : Bool → Bytes → Action
logging_init have_tty progname =
    if have_tty then logging_setup_console false else logging_setup_syslog progname false
