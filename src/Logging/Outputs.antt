-- ===== src/Logging/Outputs.antt =====
-- Any sequence of requests to logging.c does what the description says.
use fusg.Base.{List, [], ◌∷◌, Option, none, some, ◌≡◌, refl, sym, ap, ◌∙◌}
use fusg.Logging.State.{log_to_console_fn, Output, Logging, initial}
use fusg.Logging.Sinks.{Request, perform, perform_all, View, describe, describe_all, first_view}
use fusg.Logging.Delivery.{view}
use fusg.Logging.Chain.{Shape, single, chained, sinks_of, place, IsSound}
use fusg.Logging.Requests.{Simulates, perform-Simulates}

perform_all-Simulates :
    (rs : List Request) (h : Shape) (s : Logging)
    → IsSound h s
    → Simulates (perform_all rs (place h s)) (describe_all rs (view s (sinks_of h)))
perform_all-Simulates [] h s k = (h, s, refl, refl, k)
perform_all-Simulates (r ∷ rs) h s k =
    go (perform_all-Simulates rs) (perform r (place h s)) (describe r (view s (sinks_of h)))
      (perform-Simulates h s k r)
  where
    go :
        ((h : Shape) (s : Logging)
          → IsSound h s
          → Simulates (perform_all rs (place h s)) (describe_all rs (view s (sinks_of h))))
        → (x : Option Logging) (y : Option View) → Simulates x y
        → Simulates
            (elim x [ none ↦ none | some s' ↦ perform_all rs s' ])
            (elim y [ none ↦ none | some v ↦ describe_all rs v ])
    go all none none q = tt
    go all none (some v) q = absurd q
    go all (some x) none q = absurd q
    go all (some x) (some v) (h', s', e, e', k') = rw (e, e') (all h' s' k')

-- the outputs, where there was no abort
abbrev pub outputs : Option Logging → Option (List Output)
outputs none = none
outputs (some s) = some s.output

abbrev pub described : Option View → Option (List Output)
described none = none
described (some v) = some v.output

outputs-same : (x : Option Logging) (y : Option View) → Simulates x y → outputs x ≡ described y
outputs-same none none q = refl
outputs-same none (some v) q = absurd q
outputs-same (some x) none q = absurd q
outputs-same (some x) (some v) (h, s, e, e', k) =
    ap (λ a. outputs (some a)) e ∙ same h ∙ ap (λ a. described (some a)) (sym e')
  where
    same : (g : Shape) → some (place g s).output ≡ some s.output
    same (single f slots) = refl
    same (chained fs rest) = refl

pub from_initial :
    (rs : List Request) → Simulates (perform_all rs initial) (describe_all rs first_view)
from_initial rs =
    perform_all-Simulates rs (single log_to_console_fn initial.logging_chain) initial
      (record { slots = refl; usable = (tt, tt) })

-- Any sequence of requests from the start of the process, with levels set and sinks added,
-- replaced and ended in any order, does what the list of sinks says: each message
-- reaches the sinks in use at its time in their order, cut to the buffer, where its level is
-- not below the one of the sink; a sink that is ended is flushed or closed; no null
-- pointer and no slot behind the array is used, and the process aborts exactly where a
-- ninth sink is added to a chain.
pub perform_all-described :
    (rs : List Request) → outputs (perform_all rs initial) ≡ described (describe_all rs first_view)
perform_all-described rs =
    outputs-same (perform_all rs initial) (describe_all rs first_view) (from_initial rs)
