-- ===== src/Logging/Requests.antt =====
-- Each request to logging.c does what the description says.
use fusg.Base.{
  Bool, true, false, List, [], ◌∷◌, ◌++◌, Option, none, some, Bytes, ltb, length, ◌≡◌, refl, sym,
  ap, ◌∙◌, inl, inr, arith, All, All-append, Bool-cases,
}
use fusg.Logging.State.{
  Function, log_to_console_fn, log_to_file_fn, log_to_syslog_fn, Stream, Output, syslog_open,
  Logging, emit, ◌then◌,
}
use fusg.Logging.Setup.{
  logging_chain_append, logging_set_log_levels, logging_setup_file, logging_setup_console,
  logging_setup_syslog, logging_init,
}
use fusg.Logging.Sinks.{
  Request, init, set_log_levels, setup_file, setup_console, setup_syslog, finalize, message,
  perform, View, with_sink, describe, deliver_all, cut,
}
use fusg.Logging.Delivery.{view, IsUsable}
use fusg.Logging.Chain.{
  Shape, single, chained, sinks_of, place, IsSound, set_slot-end, flushed, cleared, ended,
  finalize-ended, cleared-slots, console-IsUsable,
}
use fusg.Logging.Steps.{
  log_message-deliver_all, joined, chain_init-joined, map-append_one, length-map-some,
  place-one_more,
}

-- a state and what it stands for in the description
abbrev pub Simulates : Option Logging → Option View → Type 0
Simulates none none = Unit
Simulates none (some v) = ⊥
Simulates (some s) none = ⊥
Simulates (some s) (some v) =
    (h : Shape) × (s' : Logging) × (s ≡ place h s') × (v ≡ view s' (sinks_of h)) × IsSound h s'

open-IsUsable : (f : Stream) (fs : List Function) → All (IsUsable (some f)) fs
open-IsUsable f [] = tt
open-IsUsable f (log_to_console_fn ∷ fs) = (tt, open-IsUsable f fs)
open-IsUsable f (log_to_file_fn ∷ fs) = (tt, open-IsUsable f fs)
open-IsUsable f (log_to_syslog_fn ∷ fs) = (tt, open-IsUsable f fs)

joined-IsSound : (h : Shape) (s : Logging) → IsSound h s → IsSound (joined h) s
joined-IsSound (single f []) s k = k
joined-IsSound (single f (x ∷ slots)) s k = record { slots = k.slots; usable = k.usable }
joined-IsSound (chained fs rest) s k = k

ended-IsSound : (h : Shape) (s : Logging) → IsSound h s → IsSound (ended h) (flushed h s)
ended-IsSound h s k = record {
  slots = cleared-slots h k.slots;
  usable = console-IsUsable s.logging_file;
}

append-Simulates :
    (fs : List Function) (rest : List (Option Function)) (f : Function) (s : Logging)
    → IsSound (chained fs rest) s
    → IsUsable s.logging_file f
    → Simulates (logging_chain_append f (place (chained fs rest) s)) (with_sink true f (view s fs))
unfolding logging_chain_append
append-Simulates fs rest f s k u = elim (Bool-cases (ltb (length fs) 8)) [
  | inr e ↦ rw (e, Simulates) tt
  | inl e ↦ go rest k e
]
  where
    go :
        (rest : List (Option Function))
        → IsSound (chained fs rest) s
        → ltb (length fs) 8 ≡ true
        → Simulates
            (logging_chain_append f (place (chained fs rest) s))
            (with_sink true f (view s fs))
    go [] k e = absurd (ground (arith, k.slots, e, length-map-some fs []))
    go (x ∷ rest) k e =
        rw (e, Simulates)
          (rw (set_slot-end fs (some f) x rest) (
            chained (fs ++ (f ∷ [])) rest,
            s,
            sym (place-one_more fs f rest s),
            refl,
            record {
              slots =
                  ap length (map-append_one fs f rest)
                  ∙ omega (
                    arith,
                    k.slots,
                    length-map-some fs (x ∷ rest),
                    length-map-some fs (some f ∷ rest),
                  );
              usable = All-append (IsUsable s.logging_file) fs (f ∷ []) k.usable (u, tt);
            },
          ))

-- the start of a chain, and one more sink
extend-Simulates :
    (h : Shape) (f : Function) (s : Logging)
    → IsSound h s
    → IsUsable s.logging_file f
    → Simulates
        (logging_chain_append f (place (joined h) s))
        (with_sink true f (view s (sinks_of h)))
extend-Simulates (single g []) f s k u = absurd (omega (arith, k.slots))
extend-Simulates (single g (x ∷ slots)) f s k u =
    append-Simulates (g ∷ []) slots f s (joined-IsSound (single g (x ∷ slots)) s k) u
extend-Simulates (chained fs rest) f s k u = append-Simulates fs rest f s k u

-- a shape leaves the other variables alone
with_stream :
    (g : Shape) (s : Logging) (f : Stream)
    → record (place g s) { logging_file = some f } ≡ place g (record s { logging_file = some f })
with_stream (single _ slots) s f = refl
with_stream (chained fs rest) s f = refl

with_output : (g : Shape) (s : Logging) (o : Output) → emit o (place g s) ≡ place g (emit o s)
with_output (single _ slots) s f = refl
with_output (chained fs rest) s f = refl

always-IsUsable :
    (file : Option Stream) → IsUsable file log_to_console_fn × IsUsable file log_to_syslog_fn
always-IsUsable none = (tt, tt)
always-IsUsable (some f) = (tt, tt)

module _ (h : Shape) (s : Logging) (k : IsSound h s) where
  setup_file-Simulates :
      (f : Stream) (chain : Bool)
      → Simulates
          (logging_setup_file f chain (place h s))
          (describe (setup_file f chain) (view s (sinks_of h)))
  unfolding logging_setup_file
  setup_file-Simulates f true =
      let s' = record s { logging_file = some f } in
      rw (chain_init-joined h s k.slots, ◌then◌)
        (rw (with_stream (joined h) s f) (
          extend-Simulates h log_to_file_fn s'
            (record { slots = k.slots; usable = open-IsUsable f (sinks_of h) }) tt))
  setup_file-Simulates f false =
      let s' = record (flushed h s) { logging_file = some f } in
      rw (finalize-ended h s k, ◌then◌)
        (
          single log_to_file_fn (cleared h),
          s',
          refl,
          refl,
          record { slots = cleared-slots h k.slots; usable = (tt, tt) },
        )

  setup_console-Simulates :
      (chain : Bool)
      → Simulates
          (logging_setup_console chain (place h s))
          (describe (setup_console chain) (view s (sinks_of h)))
  unfolding logging_setup_console
  setup_console-Simulates true =
      rw (chain_init-joined h s k.slots, ◌then◌)
        (extend-Simulates h log_to_console_fn s k (always-IsUsable s.logging_file).0)
  setup_console-Simulates false =
      rw (finalize-ended h s k, ◌then◌) (ended h, flushed h s, refl, refl, ended-IsSound h s k)

  setup_syslog-Simulates :
      (ident : Bytes) (chain : Bool)
      → Simulates
          (logging_setup_syslog ident chain (place h s))
          (describe (setup_syslog ident chain) (view s (sinks_of h)))
  unfolding logging_setup_syslog
  setup_syslog-Simulates ident true =
      let s' = record s { output = syslog_open ident ∷ s.output } in
      rw (chain_init-joined h s k.slots, ◌then◌)
        (rw (with_output (joined h) s (syslog_open ident)) (
          extend-Simulates h log_to_syslog_fn s' (record { slots = k.slots; usable = k.usable })
            (always-IsUsable s.logging_file).1))
  setup_syslog-Simulates ident false =
      let s' = record (flushed h s) { output = syslog_open ident ∷ (flushed h s).output } in
      rw (finalize-ended h s k, ◌then◌)
        (
          single log_to_syslog_fn (cleared h),
          s',
          refl,
          refl,
          record {
            slots = cleared-slots h k.slots;
            usable = ((always-IsUsable s.logging_file).1, tt);
          },
        )

  pub perform-Simulates :
      (r : Request) → Simulates (perform r (place h s)) (describe r (view s (sinks_of h)))
  unfolding logging_init logging_set_log_levels
  perform-Simulates (init true progname) = setup_console-Simulates false
  perform-Simulates (init false progname) = setup_syslog-Simulates progname false
  perform-Simulates (set_log_levels console file syslog) = (
    h,
    record s { console_loglevel = console; file_loglevel = file; syslog_loglevel = syslog },
    levels_kept h,
    refl,
    record { slots = k.slots; usable = k.usable },
  )
    where
      levels_kept :
          (g : Shape)
          → record (place g s) {
            console_loglevel = console;
            file_loglevel = file;
            syslog_loglevel = syslog;
          }
            ≡ place g (record s {
              console_loglevel = console;
              file_loglevel = file;
              syslog_loglevel = syslog;
            })
      levels_kept (single f slots) = refl
      levels_kept (chained fs rest) = refl
  perform-Simulates (setup_file f chain) = setup_file-Simulates f chain
  perform-Simulates (setup_console chain) = setup_console-Simulates chain
  perform-Simulates (setup_syslog ident chain) = setup_syslog-Simulates ident chain
  perform-Simulates finalize =
      rw (finalize-ended h s k, Simulates) (ended h, flushed h s, refl, refl, ended-IsSound h s k)
  perform-Simulates (message level text) =
      rw (log_message-deliver_all h s level text k, Simulates)
        (
          h,
          record s {
            output = deliver_all (view s (sinks_of h)) (sinks_of h) level (cut text) s.output;
          },
          refl,
          refl,
          record { slots = k.slots; usable = k.usable },
        )
