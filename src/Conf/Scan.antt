-- ===== src/Conf/Scan.antt =====
-- What the scanner does on quoted strings and on plain words.
use fusg.Base.{
  ℕ, false, [], ◌∷◌, ◌++◌, Option, none, some, Bytes, ◌==◌, drop, ◌≡◌, refl, inl, inr, arith, All,
  Bool-cases,
}
use fusg.Conf.Tokens.{is_space, is_quote, skip_white, scan_string, token_string, split_word, token}

-- no backslash
abbrev pub IsPlain : Bytes → Type 0
IsPlain s = All (λ c. (c == 92) ≡ false) s

-- a character that a string delimited by `del` holds as it is
abbrev pub IsClean : ℕ → Bytes → Type 0
IsClean del s = All (λ c. ((c == del) ≡ false) × ((c == 92) ≡ false)) s

pub scan_string-closed :
    (del : ℕ) (s rest : Bytes)
    → IsClean del s
    → scan_string del false (s ++ (del ∷ rest)) ≡ some (s, some rest)
unfolding scan_string
scan_string-closed del [] rest h = ground arith
scan_string-closed del (c ∷ s) rest h = ground (arith, h, scan_string-closed del s rest h.1)

pub scan_string-open :
    (del : ℕ) (s : Bytes) → IsClean del s → scan_string del false s ≡ some (s, none)
unfolding scan_string
scan_string-open del [] h = refl
scan_string-open del (c ∷ s) h = ground (arith, h, scan_string-open del s h.1)

pub scan_string-overrun :
    (del : ℕ) (s : Bytes)
    → IsClean del s
    → (92 == del) ≡ false
    → scan_string del false (s ++ (92 ∷ [])) ≡ none
unfolding scan_string
scan_string-overrun del [] h q = ground arith
scan_string-overrun del (c ∷ s) h q = ground (arith, h, scan_string-overrun del s h.1 q)

abbrev IsPlainRest : Option Bytes → Type 0
IsPlainRest none = Unit
IsPlainRest (some r) = IsPlain r

-- The scan of a plain line ends in the line, and so do its parts.
scan_string-plain :
    (del : ℕ) (s : Bytes)
    → IsPlain s
    → (content : Bytes) × (rest : Option Bytes) × (scan_string del false s ≡ some (content, rest))
      × IsPlainRest rest
unfolding scan_string
scan_string-plain del [] h = ([], none, refl, tt)
scan_string-plain del (c ∷ s) h =
    let (content, rest, e, q) = scan_string-plain del s h.1 in
    elim (Bool-cases (c == del)) [
      | inl x ↦ ([], some s, ground (arith, h), h.1)
      | inr x ↦ (c ∷ content, rest, ground (arith, h, e), q)
    ]

pub skip_white-IsPlain : (s : Bytes) → IsPlain s → IsPlain (skip_white s)
unfolding skip_white
skip_white-IsPlain [] h = tt
skip_white-IsPlain (c ∷ s) h = elim (Bool-cases (is_space c)) [
  | inl x ↦ rw x (skip_white-IsPlain s h.1)
  | inr x ↦ rw x h
]

split_word-IsPlain : (s : Bytes) → IsPlain s → IsPlain (split_word s).1
unfolding split_word
split_word-IsPlain [] h = tt
split_word-IsPlain (c ∷ s) h = elim (Bool-cases (is_space c)) [
  | inl x ↦ rw x h
  | inr x ↦ rw x (split_word-IsPlain s h.1)
]

drop-IsPlain : (s : Bytes) → IsPlain s → IsPlain (drop 1 s)
drop-IsPlain [] h = tt
drop-IsPlain (c ∷ s) h = h.1

token_string-IsPlain :
    (del : ℕ) (s : Bytes)
    → IsPlain (del ∷ s)
    → (t : Option Bytes) × (rest : Bytes) × (token_string del s ≡ some (t, rest)) × IsPlain rest
unfolding token_string
token_string-IsPlain del s h =
    let (content, rest, e, q) = scan_string-plain del s h.1 in closed content rest e q
  where
    closed :
        (content : Bytes) (rest : Option Bytes)
        → scan_string del false s ≡ some (content, rest)
        → IsPlainRest rest
        → (t : Option Bytes) × (r : Bytes) × (token_string del s ≡ some (t, r)) × IsPlain r
    closed content none e q = (some content, del ∷ s, rw (e, token_string) refl, h)
    closed content (some r) e q = (some content, r, rw (e, token_string) refl, q)

pub token-IsPlain :
    (s : Bytes)
    → IsPlain s
    → (t : Option Bytes) × (rest : Bytes) × (token s ≡ some (t, rest)) × IsPlain rest
unfolding token
token-IsPlain [] h = (none, [], refl, tt)
token-IsPlain (c ∷ s) h = elim (Bool-cases (is_quote c)) [
  | inl x ↦ let (t, rest, e, q) = token_string-IsPlain c s h in (t, rest, rw x e, q)
  | inr x ↦ elim (Bool-cases (is_space c)) [
    | inl y ↦ (none, c ∷ s, rw (x, y) refl, h)
    | inr y ↦ (
      some (split_word (c ∷ s)).0,
      drop 1 (split_word (c ∷ s)).1,
      rw (x, y) refl,
      drop-IsPlain (split_word (c ∷ s)).1 (split_word-IsPlain (c ∷ s) h),
    )
  ]
]
