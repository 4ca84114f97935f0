-- ===== src/Logging/Steps.antt =====
-- The steps of the requests to logging.c: a message, the start of a chain, and its growth.
use fusg.Base.{
  ◌+◌, List, [], ◌∷◌, ◌++◌, map, Option, some, Bytes, ltb, length, length-append, ◌≡◌, refl, ap,
  ◌∙◌, inl, inr, arith, Bool-cases,
}
use fusg.Logging.State.{
  Level, Function, log_to_console_fn, log_to_file_fn, log_to_syslog_fn, log_to_chain_v_fn, Logging,
  rank,
}
use fusg.Logging.Functions.{
  log_to_console, log_to_file, log_to_syslog, log_to_console_v, log_to_file_v, log_to_syslog_v,
  log_to_chain_v, log_format_message, log_message,
}
use fusg.Logging.Setup.{logging_get_function, logging_chain_init}
use fusg.Logging.Sinks.{deliver_all, cut}
use fusg.Logging.Delivery.{view, call_function-deliver, call_chain-deliver_all}
use fusg.Logging.Chain.{Shape, single, chained, sinks_of, slots_of, place, IsSound}

log_to_console_v-cut :
    (level : Level) (text : Bytes) (s : Logging)
    → log_to_console_v level text s ≡ log_to_console level (cut text) s
unfolding log_to_console_v log_to_console log_format_message
log_to_console_v-cut level text s = elim (Bool-cases (ltb (rank level) (rank s.console_loglevel))) [
  | inl e ↦ rw e refl
  | inr e ↦ rw e refl
]

log_to_file_v-cut :
    (level : Level) (text : Bytes) (s : Logging)
    → log_to_file_v level text s ≡ log_to_file level (cut text) s
unfolding log_to_file_v log_to_file log_format_message
log_to_file_v-cut level text s = elim (Bool-cases (ltb (rank level) (rank s.file_loglevel))) [
  | inl e ↦ rw e refl
  | inr e ↦ rw e refl
]

log_to_syslog_v-cut :
    (level : Level) (text : Bytes) (s : Logging)
    → log_to_syslog_v level text s ≡ log_to_syslog level (cut text) s
unfolding log_to_syslog_v log_to_syslog log_format_message
log_to_syslog_v-cut level text s = elim (Bool-cases (ltb (rank level) (rank s.syslog_loglevel))) [
  | inl e ↦ rw e refl
  | inr e ↦ rw e refl
]

pub log_message-deliver_all :
    (h : Shape) (s : Logging) (level : Level) (text : Bytes)
    → IsSound h s
    → log_message level text (place h s)
      ≡ some (
          place h (record s {
            output = deliver_all (view s (sinks_of h)) (sinks_of h) level (cut text) s.output;
          }))
unfolding log_message log_to_chain_v log_format_message
log_message-deliver_all (single log_to_console_fn slots) s level text k =
    log_to_console_v-cut level text _
    ∙ call_function-deliver log_to_console_fn level (cut text) _ (log_to_console_fn ∷ []) k.usable.0
log_message-deliver_all (single log_to_file_fn slots) s level text k =
    log_to_file_v-cut level text _
    ∙ call_function-deliver log_to_file_fn level (cut text) _ (log_to_file_fn ∷ []) k.usable.0
log_message-deliver_all (single log_to_syslog_fn slots) s level text k =
    log_to_syslog_v-cut level text _
    ∙ call_function-deliver log_to_syslog_fn level (cut text) _ (log_to_syslog_fn ∷ []) k.usable.0
log_message-deliver_all (chained fs rest) s level text k =
    call_chain-deliver_all fs rest level (cut text) (place (chained fs rest) s) fs k.usable

-- behind the start of a chain
abbrev pub joined : Shape → Shape
joined (single f []) = single f []
joined (single f (x ∷ slots)) = chained (f ∷ []) slots
joined (chained fs rest) = chained fs rest

pub chain_init-joined :
    (h : Shape) (s : Logging)
    → length (slots_of h) ≡ 8
    → logging_chain_init (place h s) ≡ some (place (joined h) s)
unfolding logging_chain_init logging_get_function
chain_init-joined (single f []) s k = absurd (omega (arith, k))
chain_init-joined (single log_to_console_fn (x ∷ slots)) s k = refl
chain_init-joined (single log_to_file_fn (x ∷ slots)) s k = refl
chain_init-joined (single log_to_syslog_fn (x ∷ slots)) s k = refl
chain_init-joined (chained fs rest) s k = refl

pub map-append_one :
    (fs : List Function) (f : Function) (rest : List (Option Function))
    → map some (fs ++ (f ∷ [])) ++ rest ≡ map some fs ++ (some f ∷ rest)
map-append_one [] f rest = refl
map-append_one (g ∷ fs) f rest = ap (◌∷◌ (some g)) (map-append_one fs f rest)

pub length-map-some :
    (fs : List Function) (rest : List (Option Function))
    → length (map some fs ++ rest) ≡ length fs + length rest
length-map-some [] rest = omega arith
length-map-some (f ∷ fs) rest = omega (arith, length-map-some fs rest)

-- the chain with one more sink
pub place-one_more :
    (fs : List Function) (f : Function) (rest : List (Option Function)) (s : Logging)
    → place (chained (fs ++ (f ∷ [])) rest) s ≡ record s {
      logging = log_to_chain_v_fn;
      logging_chain_size = length fs + 1;
      logging_chain = map some fs ++ (some f ∷ rest);
    }
place-one_more fs f rest s = rw (map-append_one fs f rest, n) refl
  where
    n : length (fs ++ (f ∷ [])) ≡ length fs + 1
    n = omega (arith, length-append fs (f ∷ []))
