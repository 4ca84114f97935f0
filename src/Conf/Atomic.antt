-- ===== src/Conf/Atomic.antt =====
-- A line of the configuration either sets one property or is refused.
use fusg.Base.{
  Option, none, some, Bytes, ℤ, success, failure, ◌≡◌, refl, ◌⊎◌, inl, inr, arith, Bool-cases,
  Option-cases,
}
use fusg.Conf.Tokens.{skip_white, token, consume, line_end}
use fusg.Conf.Lines.{Conf, property, parse_end, parse_value, parse_equals, parse_line, is_blank}

-- a result of a line: 0, or -1 and the configuration as it was
abbrev pub IsAtomic : Conf → Option (ℤ × Conf) → Type 0
IsAtomic conf none = Unit
IsAtomic conf (some (rc, conf')) = (rc ≡ success) ⊎ ((rc ≡ failure) × (conf' ≡ conf))

module _ (conf : Conf) where
  property-IsAtomic : (name value : Bytes) → IsAtomic conf (some (property conf name value))
  unfolding property
  property-IsAtomic name value = ground arith

  parse_end-IsAtomic :
      (name value line : Bytes) → IsAtomic conf (some (parse_end conf name value line))
  unfolding parse_end
  parse_end-IsAtomic name value line = elim (Bool-cases (line_end (skip_white line))) [
    | inl x ↦ rw x (inr (refl, refl))
    | inr x ↦ rw x (property-IsAtomic name value)
  ]

  parse_value-IsAtomic : (name line : Bytes) → IsAtomic conf (parse_value conf name line)
  unfolding parse_value
  parse_value-IsAtomic name line = elim (Option-cases (token (skip_white line))) [
    | inl x ↦ rw (x, parse_value, IsAtomic) tt
    | inr ((none, rest), x) ↦ rw (x, parse_value, IsAtomic) (inr (refl, refl))
    | inr ((some value, rest), x) ↦
        rw (x, parse_value, IsAtomic) (parse_end-IsAtomic name value rest)
  ]

  parse_equals-IsAtomic : (name line : Bytes) → IsAtomic conf (parse_equals conf name line)
  unfolding parse_equals
  parse_equals-IsAtomic name line = elim (Bool-cases (consume 61 (skip_white line)).0) [
    | inl x ↦ rw x (parse_value-IsAtomic name (consume 61 (skip_white line)).1)
    | inr x ↦ rw x (inr (refl, refl))
  ]

  -- A line that does not run over its end is accepted with 0, or refused with -1, and then
  -- the configuration is unchanged.
  pub parse_line-IsAtomic : (line : Bytes) → IsAtomic conf (parse_line conf line)
  unfolding parse_line
  parse_line-IsAtomic line = elim (Bool-cases (is_blank (skip_white line))) [
    | inl b ↦ rw b (inl refl)
    | inr b ↦ rw b (elim (Option-cases (token (skip_white line))) [
      | inl x ↦ rw x tt
      | inr ((none, rest), x) ↦ rw x (inr (refl, refl))
      | inr ((some name, rest), x) ↦ rw x (parse_equals-IsAtomic name rest)
    ])
  ]
