-- ===== src/Conf/Total.antt =====
-- The configuration reader ends on every file without a backslash.
use fusg.Base.{
  ℕ, zero, suc, ◌≤◌, false, [], ◌∷◌, Option, none, some, Bytes, ℤ, success, failure, is_zero, ◌==◌,
  length, ◌≡◌, refl, ◌⊎◌, inl, inr, arith, Bool-cases,
}
use fusg.Conf.Tokens.{skip_white, token, consume}
use fusg.Conf.Lines.{
  Conf, err_conf, config_init, parse_end, parse_value, parse_equals, parse_line, is_blank, fgets,
  c_string, line_size, read_lines, fusg_conf_read,
}
use fusg.Conf.Scan.{IsPlain, skip_white-IsPlain, token-IsPlain}

abbrev Yields : {A : Type 0} → Option A → Type 0
Yields {A} o = (a : A) × (o ≡ some a)

parse_value-Yields :
    (conf : Conf) (name line : Bytes) → IsPlain line → Yields (parse_value conf name line)
unfolding parse_value
parse_value-Yields conf name line h =
    let (t, rest, e, q) = token-IsPlain (skip_white line) (skip_white-IsPlain line h) in go t rest e
  where
    go :
        (t : Option Bytes) (rest : Bytes)
        → token (skip_white line) ≡ some (t, rest)
        → Yields (parse_value conf name line)
    go none rest e = ((failure, conf), rw (e, parse_value) refl)
    go (some value) rest e = (parse_end conf name value rest, rw (e, parse_value) refl)

consume-IsPlain : (c : ℕ) (line : Bytes) → IsPlain line → IsPlain (consume c line).1
consume-IsPlain c [] h = tt
consume-IsPlain c (x ∷ s) h = elim (Bool-cases (x == c)) [ inl e ↦ rw e h.1 | inr e ↦ rw e h ]

parse_equals-Yields :
    (conf : Conf) (name line : Bytes) → IsPlain line → Yields (parse_equals conf name line)
unfolding parse_equals
parse_equals-Yields conf name line h = elim (Bool-cases (consume 61 (skip_white line)).0) [
  | inl x ↦
      let (a, e) =
        parse_value-Yields conf name (consume 61 (skip_white line)).1
          (consume-IsPlain 61 (skip_white line) (skip_white-IsPlain line h)) in
      (a, rw (x, parse_equals) e)
  | inr x ↦ ((failure, conf), rw (x, parse_equals) refl)
]

-- A line without a backslash is never read behind its end.
pub parse_line-Yields : (conf : Conf) (line : Bytes) → IsPlain line → Yields (parse_line conf line)
unfolding parse_line
parse_line-Yields conf line h = elim (Bool-cases (is_blank (skip_white line))) [
  | inl b ↦ ((success, conf), rw (b, parse_line) refl)
  | inr b ↦
      let (t, rest, e, q) = token-IsPlain (skip_white line) (skip_white-IsPlain line h) in
      go b t rest e q
]
  where
    go :
        is_blank (skip_white line) ≡ false
        → (t : Option Bytes) (rest : Bytes) → token (skip_white line) ≡ some (t, rest)
        → IsPlain rest
        → Yields (parse_line conf line)
    go b none rest e q = ((failure, conf), rw (b, e, parse_line) refl)
    go b (some name) rest e q =
        let (a, r) = parse_equals-Yields conf name rest q in (a, rw (b, e, parse_line) r)

fgets-IsPlain : (n : ℕ) (s : Bytes) → IsPlain s → IsPlain (fgets n s).0 × IsPlain (fgets n s).1
unfolding fgets
fgets-IsPlain zero s h = (tt, h)
fgets-IsPlain (suc n) [] h = (tt, tt)
fgets-IsPlain (suc n) (c ∷ s) h =
    let (a, b) = fgets-IsPlain n s h.1 in
    elim (Bool-cases (c == 10)) [ inl e ↦ rw e ((h.0, tt), h.1) | inr e ↦ rw e ((h.0, a), b) ]

fgets-shorter : (n : ℕ) (s : Bytes) → length (fgets n s).1 ≤ length s
unfolding fgets
fgets-shorter zero s = omega arith
fgets-shorter (suc n) [] = omega arith
fgets-shorter (suc n) (c ∷ s) = elim (Bool-cases (c == 10)) [
  | inl e ↦ rw e (omega arith)
  | inr e ↦ rw e (omega (arith, fgets-shorter n s))
]

fgets-progress : (n c : ℕ) (s : Bytes) → length (fgets (suc n) (c ∷ s)).1 ≤ length s
unfolding fgets
fgets-progress n c s = elim (Bool-cases (c == 10)) [
  | inl e ↦ rw e (omega arith)
  | inr e ↦ rw e (fgets-shorter n s)
]

c_string-IsPlain : (s : Bytes) → IsPlain s → IsPlain (c_string s)
unfolding c_string
c_string-IsPlain [] h = tt
c_string-IsPlain (c ∷ s) h = elim (Bool-cases (c == 0)) [
  | inl e ↦ rw e tt
  | inr e ↦ rw e (h.0, c_string-IsPlain s h.1)
]

-- the code of a read file: 0 or ERR_CONF
abbrev pub IsRead : ℤ × Conf → Type 0
IsRead (rc, conf) = (rc ≡ success) ⊎ (rc ≡ err_conf)

read_lines-yields :
    (fuel : ℕ) (conf : Conf) (s : Bytes)
    → length s ≤ fuel
    → IsPlain s
    → (r : ℤ × Conf) × (read_lines fuel conf s ≡ some r) × IsRead r
unfolding read_lines
read_lines-yields zero conf [] h q = (_, refl, inl refl)
read_lines-yields zero conf (c ∷ s) h q = absurd (omega arith)
read_lines-yields (suc fuel) conf [] h q = (_, refl, inl refl)
read_lines-yields (suc fuel) conf (c ∷ s) h q =
    let (a, b) = fgets-IsPlain line_size (c ∷ s) q in
    let ((rc, conf'), e) =
      parse_line-Yields conf (c_string (fgets line_size (c ∷ s)).0)
        (c_string-IsPlain (fgets line_size (c ∷ s)).0 a) in
    elim (Bool-cases (is_zero rc)) [
      | inl z ↦
          let (r, x, y) =
            read_lines-yields fuel conf' (fgets line_size (c ∷ s)).1
              (omega (arith, fgets-progress 2046 c s)) b in
          (r, rw (e, z, read_lines) x, y)
      | inr z ↦ ((err_conf, conf'), rw (e, z, read_lines) refl, inr refl)
    ]

-- Reading a configuration ends for every file without a backslash, and for a file that cannot be
-- opened, with the code 0 or ERR_CONF.
pub fusg_conf_read-total :
    (contents : Bytes)
    → IsPlain contents
    → ((r : ℤ × Conf) × (fusg_conf_read (some contents) ≡ some r) × IsRead r)
      × (fusg_conf_read none ≡ some (err_conf, config_init))
unfolding fusg_conf_read
fusg_conf_read-total contents h =
    (read_lines-yields (length contents) config_init contents (omega arith) h, refl)
