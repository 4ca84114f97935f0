-- ===== src/Db/Names.antt =====
-- How the id of a name changes when a name is given an id.
use mathlib.Core.List.{append_cancel_right}
use fusg.Base.{
  ℕ, ◌<◌, ◌≤◌, true, [], ◌∷◌, Option, none, some, Bytes, equal, equal_iff, equal_refl,
  if◌then◌else◌, ◌≡◌, refl, sym, ap, ◌∙◌, ◌⊎◌, inl, inr, arith, Bool-cases,
}
use fusg.Word.{u64, u64_mod, decode, decode-u64}
use fusg.Db.Platform.{Fetched, Fetched-cases, found, missing, failed}
use fusg.Db.Records.{datum_str}
use fusg.Db.Consistent.{IsDictionary}
use fusg.Db.Entry.{id_of, usage_at}

pub usage_at-no_exec : (v : Bytes → Fetched) (f : Option ℕ) → usage_at v none f ≡ none
usage_at-no_exec v none = refl
usage_at-no_exec v (some f) = refl

pub usage_at-no_file : (v : Bytes → Fetched) (e : Option ℕ) → usage_at v e none ≡ none
usage_at-no_file v none = refl
usage_at-no_file v (some e) = refl

pub id_of-found :
    (v : Bytes → Fetched) (name : Bytes) (i : ℕ)
    → i < u64_mod
    → v (datum_str name) ≡ found (u64 i)
    → id_of v name ≡ some i
id_of-found v name i h e = rw (e, id_of) (ap some (decode-u64 i h))

pub id_of-missing :
    (v : Bytes → Fetched) (name : Bytes) → v (datum_str name) ≡ missing → id_of v name ≡ none
id_of-missing v name e = rw (e, id_of)

-- the id of a name is in use, and is what the dictionary holds
pub id_of-some :
    (n i : ℕ) (v r : Bytes → Fetched) (name : Bytes)
    → IsDictionary n v r
    → n < u64_mod
    → id_of v name ≡ some i
    → (i < n) × (v (datum_str name) ≡ found (u64 i))
id_of-some n i v r name c h e = elim (Fetched-cases (v (datum_str name))) [
  | inl (b, x) ↦
      let (j, lt, q) = c.ids (datum_str name) b x in
      let same : j ≡ i = ground (arith, id_of-found v name j (omega arith) (x ∙ ap found q), e) in
      (rw same at lt, x ∙ ap found (q ∙ ap u64 same))
  | inr (inl x) ↦ cc (id_of-missing v name x, e)
  | inr (inr x) ↦ ground (arith, x, e)
]

datum_str_iff : (a b : Bytes) → equal (datum_str a) (datum_str b) ≡ equal a b
datum_str_iff a b = elim (Bool-cases (equal a b)) [
  | inl h ↦ rw h ((equal_iff (datum_str a) (datum_str b)).1 (ap datum_str ((equal_iff a b).0 h)))
  | inr h ↦ elim (Bool-cases (equal (datum_str a) (datum_str b))) [
    | inl g ↦
        let q : a ≡ b =
          append_cancel_right a b (0 ∷ []) ((equal_iff (datum_str a) (datum_str b)).0 g) in
        cc (h, (equal_iff a b).1 q)
    | inr g ↦ rw (g, h)
  ]
]

-- How the id of `other` changes when `name` is given the id `e`.
module _ (n n' e : ℕ) (name : Bytes) (v v' r r' : Bytes → Fetched) (small : n' < u64_mod)
    (bound : e < n')
    (origin : (v (datum_str name) ≡ found (u64 e)) ⊎ ((v (datum_str name) ≡ missing) × (n ≤ e)))
    (forward : (k : Bytes) → v' k ≡ (if equal (datum_str name) k then found (u64 e) else v k))
    (c' : IsDictionary n' v' r') where
  forward_at :
      (other : Bytes)
      → v' (datum_str other) ≡ (if equal name other then found (u64 e) else v (datum_str other))
  forward_at other = forward (datum_str other) ∙ rw datum_str_iff

  pub id_of_self : id_of v' name ≡ some e
  id_of_self = id_of-found v' name e (omega arith) (forward_at name ∙ rw equal_refl)

  -- nobody else has the id
  pub id_of-owner : (other : Bytes) → id_of v' other ≡ some e → equal name other ≡ true
  id_of-owner other h =
      let (_, x) = id_of-some n' e v' r' other c' small h in
      let (_, y) = id_of-some n' e v' r' name c' small id_of_self in
      sym (datum_str_iff name other)
      ∙ (equal_iff (datum_str name) (datum_str other)).1
          (c'.unique (datum_str name) (datum_str other) (u64 e) y x)

  -- an id stays, or it is a new one where there was none
  pub id_of-change :
      (other : Bytes)
      → (id_of v' other ≡ id_of v other)
        ⊎ ((id_of v' other ≡ some e) × (id_of v other ≡ none) × (n ≤ e))
  id_of-change other = elim (Bool-cases (equal name other)) [
    | inr h ↦ inl (
        ap
          (λ x. elim x as (λ _. Option ℕ) [
            | found b ↦ some (decode b)
            | missing ↦ none
            | failed ↦ none
          ])
          (forward_at other ∙ rw h))
    | inl h ↦
        let q : name ≡ other = (equal_iff name other).0 h in
        elim origin [
          | inl o ↦ inl (rw (← q) (id_of_self ∙ sym (id_of-found v name e (omega arith) o)))
          | inr (o, le) ↦ inr (rw (← q) id_of_self, rw (← q) (id_of-missing v name o), le)
        ]
  ]
