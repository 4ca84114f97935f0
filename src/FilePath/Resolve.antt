-- ===== src/FilePath/Resolve.antt =====
-- The scan of `fabsolute` against the components of its path.
use fusg.Base.{
  ℕ, false, List, [], ◌∷◌, ◌++◌, reverse, append-nil, append_assoc, Option, none, some, ◌==◌, Bytes,
  All, ◌≡◌, refl, sym, ap, ◌∙◌, inl, inr, arith, Bool-cases, Option-cases, reverse-cons,
  reverse_aux, All-append, ==_iff,
}
use fusg.FilePath.Absolute.{
  Absolute, absolute, null, Scan, put, rewind, parent, scan_byte, scan, terminate, finish, resolve,
}
use fusg.FilePath.Components.{
  Kind, kind, split, split-slash, split-other, enter, enter_all, enter_all-cons, render, path_of,
  NoSlash,
}

-- the bytes before `c` when the names of `st` are written, the last first
abbrev written : List Bytes → Bytes
written [] = []
written (x ∷ st) = reverse_aux x (b'/' ∷ written st)

-- what the scan holds behind the names `st`, a '/' and the bytes `p` of the next component
abbrev state_at : Kind → Bytes → Bytes → Scan
state_at Kind.name p out = record { first = b'/'; out = reverse_aux p (b'/' ∷ out); held = none }
state_at k p out = record { first = b'/'; out = out; held = some (b'/' ∷ p) }

abbrev state : List Bytes → Bytes → Scan
state st p = state_at (kind p) p (written st)

reverse_aux-concat :
    (p acc : Bytes) (ch : _) → reverse_aux (p ++ ch ∷ []) acc ≡ ch ∷ reverse_aux p acc
reverse_aux-concat [] acc ch = refl
reverse_aux-concat (x ∷ p) acc ch = reverse_aux-concat p (x ∷ acc) ch

reverse-aux : (p acc : Bytes) → reverse (reverse_aux p acc) ≡ reverse acc ++ p
reverse-aux [] acc = sym (append-nil _)
reverse-aux (x ∷ p) acc =
    reverse-aux p (x ∷ acc) ∙ rw reverse-cons (append_assoc (reverse acc) (x ∷ []) p)

rewind-reverse_aux : (x acc : Bytes) → NoSlash x → rewind (reverse_aux x acc) ≡ rewind acc
unfolding rewind
rewind-reverse_aux [] acc h = refl
rewind-reverse_aux (b ∷ x) acc h = rewind-reverse_aux x (b ∷ acc) h.1 ∙ rw h.0

parent-reverse_aux :
    (x acc : Bytes) (b : _)
    → parent (reverse_aux x (b ∷ acc)) ≡ some (rewind (reverse_aux x (b ∷ acc)))
unfolding parent
parent-reverse_aux [] acc b = refl
parent-reverse_aux (y ∷ x) acc b = parent-reverse_aux x (b ∷ acc) y

parent-written :
    (x : Bytes) (out : Bytes) → NoSlash x → parent (reverse_aux x (b'/' ∷ out)) ≡ some out
parent-written x out h =
    parent-reverse_aux x out b'/'
    ∙ ap some (rewind-reverse_aux x (b'/' ∷ out) h ∙ unfold rewind in refl)

terminate-reverse_aux :
    (x acc : Bytes) (b f : _)
    → terminate f (reverse_aux x (b ∷ acc)) ≡ reverse (reverse_aux x (b ∷ acc))
unfolding terminate
terminate-reverse_aux [] acc b f = refl
terminate-reverse_aux (y ∷ x) acc b f = terminate-reverse_aux x (b ∷ acc) y f

render-append : (xs ys : List Bytes) → render (xs ++ ys) ≡ render xs ++ render ys
unfolding render
render-append [] ys = refl
render-append (x ∷ xs) ys = ap (◌∷◌ b'/') (rw (render-append xs ys) (sym (append_assoc x _ _)))

reverse-written : (st : List Bytes) → reverse (written st) ≡ render (reverse st)
unfolding render
reverse-written [] = refl
reverse-written (x ∷ st) =
    reverse-aux x (b'/' ∷ written st)
    ∙ rw (reverse-cons, reverse-cons)
        (rw (reverse-written st, render-append) (rw append-nil (append_assoc _ (b'/' ∷ []) x)))

terminate-written : (st : List Bytes) → terminate b'/' (written st) ≡ path_of st
unfolding path_of
terminate-written [] = unfold terminate in refl
terminate-written (x ∷ st) =
    terminate-reverse_aux x (written st) b'/' b'/' ∙ reverse-written (x ∷ st)

-- behind a first byte, `put` leaves `path[0]` alone
put-reverse_aux :
    (p acc : Bytes) (b ch f : ℕ)
    → put ch (record { first = f; out = reverse_aux p (b ∷ acc); held = none })
      ≡ record { first = f; out = reverse_aux (p ++ ch ∷ []) (b ∷ acc); held = none }
unfolding put
put-reverse_aux [] acc b ch f = refl
put-reverse_aux (x ∷ p) acc b ch f = put-reverse_aux p (b ∷ acc) x ch f

-- Any byte but '/' goes on with the component.
scan_byte-state :
    (p : Bytes) (ch : ℕ) (out : Bytes)
    → (ch == b'/') ≡ false
    → scan_byte ch (state_at (kind p) p out)
      ≡ some (state_at (kind (p ++ ch ∷ [])) (p ++ ch ∷ []) out)
unfolding scan_byte kind
scan_byte-state [] ch out h = ground arith
scan_byte-state (a ∷ []) ch out h = ground arith
scan_byte-state (a ∷ b ∷ []) ch out h = ground arith
scan_byte-state (a ∷ b ∷ c ∷ p) ch out h =
    ground (arith, put-reverse_aux p (b ∷ a ∷ b'/' ∷ out) c ch b'/')

abbrev entered : Option (List Bytes) → Option Scan
entered none = none
entered (some st) = some (state st [])

-- A '/' closes the component.
scan_slash-state :
    (st : List Bytes) (p : Bytes)
    → All NoSlash st
    → scan_byte b'/' (state st p) ≡ entered (enter st p)
unfolding scan_byte enter kind
scan_slash-state st [] h = refl
scan_slash-state st (a ∷ []) h = ground arith
scan_slash-state [] (a ∷ b ∷ []) h = ground arith
scan_slash-state (x ∷ st) (a ∷ b ∷ []) h = ground (arith, parent-written x (written st) h.0)
scan_slash-state st (a ∷ b ∷ c ∷ p) h = refl

-- NULL, or the text of the stack of names
abbrev pub normal_form : Option (List Bytes) → Absolute
normal_form none = null
normal_form (some st) = absolute (path_of st)

finish-state :
    (st : List Bytes) (p : Bytes) → All NoSlash st → finish (state st p) ≡ normal_form (enter st p)
unfolding finish enter kind
finish-state st [] h = rw terminate-written
finish-state st (a ∷ []) h = ground (arith, terminate-written st, terminate-written ((a ∷ []) ∷ st))
finish-state [] (a ∷ b ∷ []) h = ground (arith, terminate-written ((a ∷ b ∷ []) ∷ []))
finish-state (x ∷ st) (a ∷ b ∷ []) h = ground (
  arith,
  parent-written x (written st) h.0,
  terminate-written st,
  terminate-written ((a ∷ b ∷ []) ∷ x ∷ st),
)
finish-state st (a ∷ b ∷ c ∷ p) h = ap absolute (terminate-written ((a ∷ b ∷ c ∷ p) ∷ st))

enter-NoSlash :
    (st : List Bytes) (p : Bytes) {st' : List Bytes}
    → All NoSlash st
    → NoSlash p
    → enter st p ≡ some st'
    → All NoSlash st'
unfolding enter
enter-NoSlash st p h n e = ground arith

-- the rest of the function from the head of the loop
abbrev complete : Option Scan → Absolute
complete none = null
complete (some s) = finish s

abbrev complete_next : Bytes → Option Scan → Absolute
complete_next s none = null
complete_next s (some t) = complete (scan s t)

complete-scan-cons :
    (ch : ℕ) (s : Bytes) (t : Scan) → complete (scan (ch ∷ s) t) ≡ complete_next s (scan_byte ch t)
complete-scan-cons ch s t = elim (Option-cases (scan_byte ch t)) [
  | inl e ↦ rw e (unfold scan in rw (e, scan))
  | inr (u, e) ↦ rw e (unfold scan in rw (e, scan))
]

scan-split :
    (s p : Bytes) (st : List Bytes)
    → All NoSlash st
    → NoSlash p
    → complete (scan s (state st p)) ≡ normal_form (enter_all st (split p s))
scan-split [] p st h n = unfold scan in finish-state st p h ∙ unfold split enter_all in ground arith
scan-split (ch ∷ s) p st h n = elim (Bool-cases (ch == b'/')) [
  | inl slash ↦
      complete-scan-cons ch s (state st p)
      ∙ rw (split-slash ch s p slash, (==_iff ch b'/').0 slash, scan_slash-state st p h)
          (elim (Option-cases (enter st p)) [
            | inl e ↦ rw e (unfold enter_all in rw (e, enter_all))
            | inr (st', e) ↦
                rw (e, enter_all-cons st p _ e) (scan-split s [] st' (enter-NoSlash st p h n e) tt)
          ])
  | inr other ↦
      complete-scan-cons ch s (state st p)
      ∙ rw (split-other ch s p other, scan_byte-state p ch (written st) other)
          (scan-split s (p ++ ch ∷ []) st h (All-append _ p (ch ∷ []) n (other, tt)))
]

-- On an absolute path the scan gives the normal form of its components, and NULL exactly where
-- '..' leads above the root.
pub resolve-components : (s : Bytes) → resolve (b'/' ∷ s) ≡ normal_form (enter_all [] (split [] s))
unfolding resolve kind
resolve-components s = scan-split s [] [] tt tt
