-- ===== src/Logging/State.antt =====
-- The static variables of sources/fusg-common/src/logging.c, and the levels of
-- include/fusg/logging.h.
use fusg.Base.{ℕ, ◌+◌, ◌*◌, List, [], ◌∷◌, Option, none, some, Bytes}

-- `loglevel_t`
pub data Level : Type 0 where
  ll_debug ll_info ll_warn ll_error ll_fatal ll_ignore : Level

-- the number of a level in the enumeration
abbrev pub rank : Level → ℕ
rank ll_debug = 0
rank ll_info = 1
rank ll_warn = 2
rank ll_error = 3
rank ll_fatal = 4
rank ll_ignore = 5

-- `logging_function`: the pointers that are used as one
pub data Function : Type 0 where
  log_to_console_fn log_to_file_fn log_to_syslog_fn : Function

-- `logging_function_v`
pub data FunctionV : Type 0 where
  log_to_console_v_fn log_to_file_v_fn log_to_syslog_v_fn log_to_chain_v_fn : FunctionV

-- the levels of syslog(3)
pub data Priority : Type 0 where
  log_debug log_info log_warning log_err log_crit : Priority

-- an open `FILE *`
abbrev pub Stream : Type 0
Stream = ℕ

-- What leaves the process. `no_mapping` stands for the two messages on a level without a mapping.
pub data Output : Type 0 where
  stdout_line stderr_line : Level → Bytes → Output
  file_line : Stream → Level → Bytes → Output
  syslog_line : Priority → Bytes → Output
  stderr_no_mapping syslog_no_mapping : Level → Output
  file_flush : Option Stream → Output
  stderr_flush stdout_flush syslog_close : Output
  syslog_open : Bytes → Output

-- the outputs have the last one first
pub record Logging : Type 0 where
  pub syslog_loglevel : Level
  pub console_loglevel : Level
  pub file_loglevel : Level
  pub logging_file : Option Stream
  pub logging : FunctionV
  pub logging_chain_size : ℕ
  pub logging_chain : List (Option Function)
  pub output : List Output

abbrev pub log_max_msg_len : ℕ
log_max_msg_len = 4096 * 2 + 255

abbrev pub logging_chain_max : ℕ
logging_chain_max = 8

-- before the first call
abbrev pub initial : Logging
initial = record {
  syslog_loglevel = ll_debug;
  console_loglevel = ll_debug;
  file_loglevel = ll_debug;
  logging_file = none;
  logging = log_to_console_v_fn;
  logging_chain_size = 0;
  logging_chain = none ∷ none ∷ none ∷ none ∷ none ∷ none ∷ none ∷ none ∷ [];
  output = [];
}

-- a call; `none` is a failed assertion or the use of a null pointer
abbrev pub Action : Type 0
Action = Logging → Option Logging

abbrev pub emit : Output → Logging → Logging
emit o s = record s { output = o ∷ s.output }

infixl 5 ◌then◌
abbrev pub ◌then◌ : Action → Action → Action
(f then g) s = elim (f s) [ none ↦ none | some s' ↦ g s' ]
