-- ===== src/Events/Paths.antt =====
-- What `parse_path` of sources/fusgd/src/store.c leaves in an event.
use fusg.Base.{
  true, List, [], ◌∷◌, Option, none, some, Option-cases, Bytes, codes, ℤ, success, is_zero, equal,
  ◌≡◌, refl, ◌⊎◌, inl, inr, Bool-cases,
}
use fusg.Events.Audit.{Field}
use fusg.Events.Parse.{
  Event, err_auparse, any_usage, check_field_value, Step, next, stop, assertion_failed,
  nametype_field, path_field, each_field, required, with_usage, parse_path,
}

-- A path record is refused, or it gives a path and at least one usage.
abbrev pub IsParsed : Option (ℤ × Event) → Type 0
IsParsed none = Unit
IsParsed (some (rc, ev)) =
    (rc ≡ err_auparse)
    ⊎ ((rc ≡ success) × ((path : Bytes) × (ev.filepath ≡ some path)) × (any_usage ev.flags ≡ true))

-- behind the loop of `parse_path`
abbrev finished : Event → ℤ × Event
finished e = let e' = with_usage e in (required e'.filepath, e')

-- a step that only stops with an error
abbrev IsStrict : Step → Type 0
IsStrict (next ev) = Unit
IsStrict (stop rc ev) = rc ≡ err_auparse
IsStrict assertion_failed = Unit

nametype_field-IsStrict : (value : Option Bytes) (ev : Event) → IsStrict (nametype_field value ev)
nametype_field-IsStrict none ev = tt
nametype_field-IsStrict (some value) ev = tt

path_field-IsStrict : (field : Field) (ev : Event) → IsStrict (path_field field ev)
unfolding path_field
path_field-IsStrict field ev = elim (Bool-cases (equal field.name (codes "type"))) [
  | inl t ↦ elim (Bool-cases (is_zero (check_field_value field (codes "PATH")))) [
    | inl z ↦ rw (t, path_field, IsStrict) (rw (z, IsStrict) tt)
    | inr z ↦ rw (t, path_field, IsStrict) (rw (z, IsStrict) refl)
  ]
  | inr t ↦ elim (Bool-cases (equal field.name (codes "name"))) [
    | inl m ↦ rw (t, m, path_field, IsStrict) tt
    | inr m ↦ elim (Bool-cases (equal field.name (codes "nametype"))) [
      | inl k ↦ rw (t, m, k, path_field, IsStrict) (nametype_field-IsStrict field.interpreted ev)
      | inr k ↦ rw (t, m, k, path_field, IsStrict) tt
    ]
  ]
]

with_usage-used : (ev : Event) → any_usage (with_usage ev).flags ≡ true
with_usage-used ev = elim (Bool-cases (any_usage ev.flags)) [ inl u ↦ rw u u | inr u ↦ rw u refl ]

finished-IsParsed : (ev : Event) → IsParsed (some (finished ev))
finished-IsParsed ev = elim (Option-cases (with_usage ev).filepath) [
  | inl m ↦ inl (rw m refl)
  | inr (path, m) ↦ inr (rw m refl, (path, m), with_usage-used ev)
]

each_field-IsParsed :
    (fields : List Field) (ev : Event) → IsParsed (each_field path_field finished fields ev)
unfolding each_field
each_field-IsParsed [] ev = finished-IsParsed ev
each_field-IsParsed (field ∷ fields) ev =
    go (λ e. each_field-IsParsed fields e) (path_field field ev) refl (path_field-IsStrict field ev)
  where
    go :
        ((e : Event) → IsParsed (each_field path_field finished fields e))
        → (x : Step) → path_field field ev ≡ x
        → IsStrict x
        → IsParsed (each_field path_field finished (field ∷ fields) ev)
    go later (next ev') e h = rw (e, each_field, IsParsed) (later ev')
    go later (stop rc ev') e h = rw (e, each_field, IsParsed) (inl h)
    go later assertion_failed e h = rw (e, each_field, IsParsed) tt

-- A PATH record that does not end in an abort is refused with ERR_AUPARSE, or accepted with 0, and
-- then the event has a path and at least one usage.
pub parse_path-IsParsed : (fields : List Field) (ev : Event) → IsParsed (parse_path fields ev)
unfolding parse_path
parse_path-IsParsed [] ev = inl refl
parse_path-IsParsed (field ∷ fields) ev =
    each_field-IsParsed (field ∷ fields) (record ev { filepath = none })
