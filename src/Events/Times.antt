-- ===== src/Events/Times.antt =====
-- The record parsers leave the time of an event alone.
use fusg.Base.{ℕ, List, [], ◌∷◌, Option, none, some, ℤ, ◌≡◌, refl, ◌∙◌, arith}
use fusg.Events.Audit.{Field}
use fusg.Events.Parse.{
  Event, Step, next, stop, assertion_failed, syscall_field, cwd_field, path_field, each_field,
  with_usage, parse_fields, parse_syscall, parse_cwd, parse_path,
}

abbrev StepKeeps : ℕ → Step → Type 0
StepKeeps t (next ev) = ev.timestamp ≡ t
StepKeeps t (stop rc ev) = ev.timestamp ≡ t
StepKeeps t assertion_failed = Unit

-- a parsed event has the time `t`
abbrev pub Keeps : ℕ → Option (ℤ × Event) → Type 0
Keeps t none = Unit
Keeps t (some (rc, ev)) = ev.timestamp ≡ t

syscall_field-StepKeeps :
    (field : Field) (ev : Event) → StepKeeps ev.timestamp (syscall_field field ev)
unfolding syscall_field
syscall_field-StepKeeps field ev = ground arith

cwd_field-StepKeeps : (field : Field) (ev : Event) → StepKeeps ev.timestamp (cwd_field field ev)
unfolding cwd_field
cwd_field-StepKeeps field ev = ground arith

path_field-StepKeeps : (field : Field) (ev : Event) → StepKeeps ev.timestamp (path_field field ev)
unfolding path_field
path_field-StepKeeps field ev = ground arith

module _ (t : ℕ) (step : Field → Event → Step) (finish : Event → ℤ × Event)
    (steps : (field : Field) (ev : Event) → StepKeeps ev.timestamp (step field ev))
    (finishes : (ev : Event) → (finish ev).1.timestamp ≡ ev.timestamp) where
  each_field-Keeps :
      (fields : List Field) (ev : Event)
      → ev.timestamp ≡ t
      → Keeps t (each_field step finish fields ev)
  unfolding each_field
  each_field-Keeps [] ev h = finishes ev ∙ h
  each_field-Keeps (field ∷ fields) ev h =
      go (each_field-Keeps fields) (step field ev) (steps field ev)
    where
      go :
          ((e : Event) → e.timestamp ≡ t → Keeps t (each_field step finish fields e))
          → (x : Step) → StepKeeps ev.timestamp x
          → Keeps t (elim x [
            | next ev' ↦ each_field step finish fields ev'
            | stop rc ev' ↦ some (rc, ev')
            | assertion_failed ↦ none
          ])
      go all (next e) k = all e (k ∙ h)
      go all (stop rc e) k = k ∙ h
      go all assertion_failed k = tt

  parse_fields-Keeps :
      (fields : List Field) (ev : Event)
      → ev.timestamp ≡ t
      → Keeps t (parse_fields step finish fields ev)
  parse_fields-Keeps [] ev h = h
  parse_fields-Keeps (field ∷ fields) ev h = each_field-Keeps (field ∷ fields) ev h

with_usage-timestamp : (ev : Event) → (with_usage ev).timestamp ≡ ev.timestamp
with_usage-timestamp ev = ground arith

pub parse_syscall-Keeps :
    (fields : List Field) (ev : Event) → Keeps ev.timestamp (parse_syscall fields ev)
unfolding parse_syscall
parse_syscall-Keeps fields ev =
    parse_fields-Keeps ev.timestamp syscall_field _ syscall_field-StepKeeps (λ e. refl) fields
      (record ev { executable = none }) refl

pub parse_cwd-Keeps : (fields : List Field) (ev : Event) → Keeps ev.timestamp (parse_cwd fields ev)
unfolding parse_cwd
parse_cwd-Keeps fields ev =
    parse_fields-Keeps ev.timestamp cwd_field _ cwd_field-StepKeeps (λ e. refl) fields
      (record ev { cwd = none }) refl

pub parse_path-Keeps :
    (fields : List Field) (ev : Event) → Keeps ev.timestamp (parse_path fields ev)
unfolding parse_path
parse_path-Keeps fields ev =
    parse_fields-Keeps ev.timestamp path_field _ path_field-StepKeeps with_usage-timestamp fields
      (record ev { filepath = none }) refl
