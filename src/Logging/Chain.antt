-- ===== src/Logging/Chain.antt =====
-- The function pointer and the array of logging.c hold a list of sinks, and every request treats
-- them as the description says.
use fusg.Base.{List, [], ◌∷◌, ◌++◌, map, Option, none, some, length, ◌≡◌, refl, arith, All}
use fusg.Logging.State.{
  Function, log_to_console_fn, log_to_file_fn, log_to_syslog_fn, FunctionV, log_to_console_v_fn,
  log_to_file_v_fn, log_to_syslog_v_fn, log_to_chain_v_fn, Stream, Logging, ◌then◌,
}
use fusg.Logging.Setup.{
  logging_get_function_v, logging_finalize_that_v, logging_finalize_that, set_slot,
  logging_chain_clear, finalize_chain, logging_finalize,
}
use fusg.Logging.Sinks.{flush_of, flush_all}
use fusg.Logging.Delivery.{IsUsable}

-- What the pointer and the array hold: one function, or a chain of them and the slots behind it.
pub data Shape : Type 0 where
  single : Function → List (Option Function) → Shape
  chained : List Function → List (Option Function) → Shape

abbrev pub sinks_of : Shape → List Function
sinks_of (single f slots) = f ∷ []
sinks_of (chained fs rest) = fs

abbrev pub slots_of : Shape → List (Option Function)
slots_of (single f slots) = slots
slots_of (chained fs rest) = map some fs ++ rest

abbrev pub v_of : Function → FunctionV
v_of log_to_console_fn = log_to_console_v_fn
v_of log_to_file_fn = log_to_file_v_fn
v_of log_to_syslog_fn = log_to_syslog_v_fn

abbrev pub place : Shape → Logging → Logging
place (single f slots) s = record s {
  logging = v_of f;
  logging_chain_size = 0;
  logging_chain = slots;
}
place (chained fs rest) s = record s {
  logging = log_to_chain_v_fn;
  logging_chain_size = length fs;
  logging_chain = map some fs ++ rest;
}

-- the array has eight slots, and the file is open where it is a sink
pub record IsSound (h : Shape) (s : Logging) : Type 0 where
  pub slots : length (slots_of h) ≡ 8
  pub usable : All (IsUsable s.logging_file) (sinks_of h)

pub set_slot-end :
    (fs : List Function) (x y : Option Function) (rest : List (Option Function))
    → set_slot (length fs) x (map some fs ++ (y ∷ rest)) ≡ some (map some fs ++ (x ∷ rest))
set_slot-end [] x y rest = refl
set_slot-end (f ∷ fs) x y rest = rw (set_slot-end fs x y rest) refl

finalize_that-flush :
    (f : Function) (s : Logging)
    → logging_finalize_that f s ≡ record s { output = flush_of s.logging_file f ++ s.output }
unfolding logging_finalize_that logging_finalize_that_v logging_get_function_v
finalize_that-flush log_to_console_fn s = refl
finalize_that-flush log_to_file_fn s = refl
finalize_that-flush log_to_syslog_fn s = refl

finalize_chain-flush_all :
    (fs : List Function) (rest : List (Option Function)) (s : Logging)
    → finalize_chain (length fs) (map some fs ++ rest) s
      ≡ some (record s { output = flush_all s.logging_file fs s.output })
finalize_chain-flush_all [] rest s = refl
finalize_chain-flush_all (f ∷ fs) rest s =
    rw (finalize_that-flush f s) (
      finalize_chain-flush_all fs rest
        (record s { output = flush_of s.logging_file f ++ s.output }))

-- the state behind the end of logging, of which a shape keeps the slots
abbrev pub flushed : Shape → Logging → Logging
flushed h s = record s { output = flush_all s.logging_file (sinks_of h) s.output }

abbrev pub cleared : Shape → List (Option Function)
cleared (single f slots) = slots
cleared (chained [] []) = []
cleared (chained [] (x ∷ rest)) = none ∷ rest
cleared (chained (f ∷ fs) rest) = none ∷ (map some fs ++ rest)

abbrev pub ended : Shape → Shape
ended h = single log_to_console_fn (cleared h)

pub finalize-ended :
    (h : Shape) (s : Logging)
    → IsSound h s
    → logging_finalize (place h s) ≡ some (place (ended h) (flushed h s))
unfolding logging_finalize logging_finalize_that_v logging_chain_clear
finalize-ended (single log_to_console_fn slots) s k = refl
finalize-ended (single log_to_file_fn slots) s k = refl
finalize-ended (single log_to_syslog_fn slots) s k = refl
finalize-ended (chained [] []) s k = absurd (omega (arith, k.slots))
finalize-ended (chained [] (x ∷ rest)) s k = refl
finalize-ended (chained (f ∷ fs) rest) s k =
    rw (finalize_chain-flush_all (f ∷ fs) rest (place (chained (f ∷ fs) rest) s), ◌then◌) refl

pub cleared-slots : (h : Shape) → length (slots_of h) ≡ 8 → length (cleared h) ≡ 8
cleared-slots (single f slots) k = k
cleared-slots (chained [] []) k = k
cleared-slots (chained [] (x ∷ rest)) k = k
cleared-slots (chained (f ∷ fs) rest) k = k

pub console-IsUsable : (file : Option Stream) → All (IsUsable file) (log_to_console_fn ∷ [])
console-IsUsable none = (tt, tt)
console-IsUsable (some f) = (tt, tt)
