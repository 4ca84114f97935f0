-- ===== src/Logging/Room.antt =====
-- How many chained requests the array of logging.c has room for.
use fusg.Base.{
  ℕ, suc, ◌+◌, ◌≤◌, true, false, List, [], ◌∷◌, Option, none, some, ltb, length, length-append, ◌≡◌,
  refl, arith,
}
use fusg.Logging.State.{
  Function, log_to_console_fn, log_to_file_fn, log_to_syslog_fn, syslog_open, Logging, initial,
}
use fusg.Logging.Sinks.{
  Request, init, set_log_levels, setup_file, setup_console, setup_syslog, finalize, message,
  perform_all, View, with_sink, describe, describe_all, first_view,
}
use fusg.Logging.Requests.{Simulates}
use fusg.Logging.Outputs.{from_initial}

-- the requests for a chain
abbrev pub chained_setups : List Request → ℕ
chained_setups [] = 0
chained_setups (setup_file f true ∷ rs) = suc (chained_setups rs)
chained_setups (setup_console true ∷ rs) = suc (chained_setups rs)
chained_setups (setup_syslog ident true ∷ rs) = suc (chained_setups rs)
chained_setups (_ ∷ rs) = chained_setups rs

-- there are sinks, and the list has room for `n` more
record HasRoom (n : ℕ) (v : View) : Type 0 where
  some_sink : 1 ≤ length v.sinks
  room : length v.sinks + n ≤ 8

-- a description that goes on
abbrev GoesOn : ℕ → Option View → Type 0
GoesOn n none = ⊥
GoesOn n (some v) = HasRoom n v

with_sink-GoesOn :
    (f : Function) (v : View) (n : ℕ) → HasRoom (suc n) v → GoesOn n (with_sink true f v)
with_sink-GoesOn f v n h =
    let e : ltb (length v.sinks) 8 ≡ true = ground (arith, h.room) in
    rw (e, GoesOn)
      (record {
        some_sink = omega (arith, length-append v.sinks (f ∷ []));
        room = omega (arith, length-append v.sinks (f ∷ []), h.room);
      })

describe-GoesOn :
    (r : Request) (rs : List Request) (v : View)
    → HasRoom (chained_setups (r ∷ rs)) v
    → GoesOn (chained_setups rs) (describe r v)
describe-GoesOn (init true progname) rs v h = record {
  some_sink = omega arith;
  room = omega (arith, h.some_sink, h.room);
}
describe-GoesOn (init false progname) rs v h = record {
  some_sink = omega arith;
  room = omega (arith, h.some_sink, h.room);
}
describe-GoesOn (set_log_levels console file syslog) rs v h = record {
  some_sink = h.some_sink;
  room = h.room;
}
describe-GoesOn (setup_file f true) rs v h =
    with_sink-GoesOn log_to_file_fn (record v { stream = some f }) (chained_setups rs)
      (record { some_sink = h.some_sink; room = h.room })
describe-GoesOn (setup_file f false) rs v h = record {
  some_sink = omega arith;
  room = omega (arith, h.some_sink, h.room);
}
describe-GoesOn (setup_console true) rs v h =
    with_sink-GoesOn log_to_console_fn v (chained_setups rs) h
describe-GoesOn (setup_console false) rs v h = record {
  some_sink = omega arith;
  room = omega (arith, h.some_sink, h.room);
}
describe-GoesOn (setup_syslog ident true) rs v h =
    with_sink-GoesOn log_to_syslog_fn (record v { output = syslog_open ident ∷ v.output })
      (chained_setups rs) (record { some_sink = h.some_sink; room = h.room })
describe-GoesOn (setup_syslog ident false) rs v h = record {
  some_sink = omega arith;
  room = omega (arith, h.some_sink, h.room);
}
describe-GoesOn finalize rs v h = record {
  some_sink = omega arith;
  room = omega (arith, h.some_sink, h.room);
}
describe-GoesOn (message level text) rs v h = record { some_sink = h.some_sink; room = h.room }

describe_all-GoesOn :
    (rs : List Request) (v : View) → HasRoom (chained_setups rs) v → GoesOn 0 (describe_all rs v)
describe_all-GoesOn [] v h = h
describe_all-GoesOn (r ∷ rs) v h =
    go (describe_all-GoesOn rs) (describe r v) (describe-GoesOn r rs v h)
  where
    go :
        ((v : View) → HasRoom (chained_setups rs) v → GoesOn 0 (describe_all rs v))
        → (x : Option View) → GoesOn (chained_setups rs) x
        → GoesOn 0 (elim x [ none ↦ none | some v' ↦ describe_all rs v' ])
    go all none g = absurd g
    go all (some x) g = all x g

-- With at most seven chained requests from the start of the process, any sequence of requests
-- returns: no assertion fails and no null pointer is used.
pub perform_all-some :
    (rs : List Request) → chained_setups rs ≤ 7 → (s : Logging) × (perform_all rs initial ≡ some s)
perform_all-some rs h = go (perform_all rs initial) (describe_all rs first_view) (from_initial rs) (
    describe_all-GoesOn rs first_view (record { some_sink = omega arith; room = omega (arith, h) }))
  where
    go :
        (x : Option Logging) (y : Option View)
        → Simulates x y
        → GoesOn 0 y
        → (s : Logging) × (x ≡ some s)
    go x none q g = absurd g
    go none (some v) q g = absurd q
    go (some s) (some v) q g = (s, refl)
