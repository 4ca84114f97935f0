-- ===== src/Db/Consistent.antt =====
-- The invariant of the six tables: the ids in use lie below the counter, the two dictionaries are
-- one to one with their reverse tables, and every event has an entry of full size between ids in
-- use.
use fusg.Base.{
  ℕ, ◌<◌, ◌≤◌, true, false, ◌++◌, Bytes, equal, equal_iff, if◌then◌else◌, ◌≡◌, sym, ap, ◌∙◌, ◌⊎◌,
  inl, inr, arith, Bool-cases,
}
use fusg.Word.{u64, u64_mod, u64-injective}
use fusg.Db.Platform.{Fetched, found, missing, Platform}
use fusg.Db.State.{Table, exec, execr, file, filer, evnt, idtb, Db, table}
use fusg.Db.Records.{datum_str, Stats, datum_stats}
use fusg.Db.Ids.{id_entry}
use fusg.Db.View.{view}

pub record IsDictionary (n : ℕ) (forward reverse : Bytes → Fetched) : Type 0 where
  pub ids : (k b : Bytes) → forward k ≡ found b → (i : ℕ) × (i < n) × (b ≡ u64 i)
  pub unique : (k l b : Bytes) → forward k ≡ found b → forward l ≡ found b → k ≡ l
  pub names :
      (i : ℕ) (k : Bytes) → i < u64_mod → reverse (u64 i) ≡ found k → forward k ≡ found (u64 i)

-- every field is a `uint64_t`
pub record InRange (s : Stats) : Type 0 where
  pub read : s.read < u64_mod
  pub write : s.write < u64_mod
  pub create : s.create < u64_mod
  pub exec : s.exec < u64_mod
  pub time : s.time < u64_mod
  pub reserved : s.reserved < u64_mod

pub record IsEvent (n i j : ℕ) (b : Bytes) : Type 0 where
  pub exec_used : i < n
  pub file_used : j < n
  pub stats : Stats
  pub in_range : InRange stats
  pub content : b ≡ datum_stats stats

pub record IsConsistent {F : Type 0} (p : Platform F) (n : ℕ) (d : Db F) : Type 0 where
  pub next : view p d idtb (datum_str id_entry) ≡ found (u64 n)
  pub execs : IsDictionary n (view p d exec) (view p d execr)
  pub files : IsDictionary n (view p d file) (view p d filer)
  pub events :
      (i j : ℕ) (b : Bytes)
      → i < u64_mod
      → j < u64_mod
      → view p d evnt (u64 i ++ u64 j) ≡ found b
      → IsEvent n i j b

-- the same tables, whatever else differs
abbrev pub SameTables : {F : Type 0} → Db F → Db F → Type 0
SameTables d d' = (t : Table) → table t d' ≡ table t d

module _ {F : Type 0} (p : Platform F) where
  pub IsConsistent-same :
      {n : ℕ} {d d' : Db F} → SameTables d d' → IsConsistent p n d → IsConsistent p n d'
  IsConsistent-same h c = record {
    next = rw (h idtb) c.next;
    execs = rw (h exec, h execr) c.execs;
    files = rw (h file, h filer) c.files;
    events = rw (h evnt) c.events;
  }

-- a longer range of ids
pub IsDictionary-grow :
    {n m : ℕ} {fwd rev : Bytes → Fetched} → n ≤ m → IsDictionary n fwd rev → IsDictionary m fwd rev
IsDictionary-grow le c = record {
  ids = λ k b e. let (i, lt, q) = c.ids k b e in (i, omega arith, q);
  unique = c.unique;
  names = c.names;
}

-- the same tables, by their contents
pub IsDictionary-same :
    {n : ℕ} {fwd rev fwd' rev' : Bytes → Fetched}
    → fwd' ≡ fwd
    → rev' ≡ rev
    → IsDictionary n fwd rev
    → IsDictionary n fwd' rev'
IsDictionary-same e f c = rw (e, f) c

-- The entry of one name, written in both directions: the name's own id, or a new one.
module _ (n i m : ℕ) (a : Bytes) (fwd rev fwd' rev' : Bytes → Fetched) (c : IsDictionary n fwd rev)
    (grows : n ≤ m) (bound : i < m) (small : m < u64_mod)
    (origin : (fwd a ≡ found (u64 i)) ⊎ ((fwd a ≡ missing) × (i ≡ n)))
    (forward : (k : Bytes) → fwd' k ≡ (if equal a k then found (u64 i) else fwd k))
    (reverse : (k : Bytes) → rev' k ≡ (if equal (u64 i) k then found a else rev k)) where
  -- only the name `a` can have had the id
  owner : (k : Bytes) → fwd k ≡ found (u64 i) → k ≡ a
  owner k e = elim origin [
    | inl o ↦ c.unique k a (u64 i) e o
    | inr (o, q) ↦
        let (j, lt, same) = c.ids k (u64 i) e in
        absurd (omega (arith, u64-injective i j (omega arith) (omega arith) same))
  ]

  at_name : (k : Bytes) → equal a k ≡ true → fwd' k ≡ found (u64 i)
  at_name k h = forward k ∙ rw h

  elsewhere : (k : Bytes) → equal a k ≡ false → fwd' k ≡ fwd k
  elsewhere k h = forward k ∙ rw h

  -- an entry of the id `j` stays
  kept : (k : Bytes) (j : ℕ) → fwd k ≡ found (u64 j) → fwd' k ≡ found (u64 j)
  kept k j e = elim (Bool-cases (equal a k)) [
    | inl h ↦ elim origin [
      | inl o ↦ ground (arith, at_name k h, (equal_iff a k).0 h)
      | inr (o, q) ↦ ground (arith, (equal_iff a k).0 h)
    ]
    | inr h ↦ elsewhere k h ∙ e
  ]

  unique_entered : (k l b : Bytes) → fwd' k ≡ found b → fwd' l ≡ found b → k ≡ l
  unique_entered k l b ek el = elim (Bool-cases (equal a k)) [
    | inl h ↦ elim (Bool-cases (equal a l)) [
      | inl g ↦ sym ((equal_iff a k).0 h) ∙ (equal_iff a l).0 g
      | inr g ↦ sym ((equal_iff a k).0 h) ∙ sym (owner l (cc (elsewhere l g, el, at_name k h, ek)))
    ]
    | inr h ↦ elim (Bool-cases (equal a l)) [
      | inl g ↦ owner k (cc (elsewhere k h, ek, at_name l g, el)) ∙ (equal_iff a l).0 g
      | inr g ↦ c.unique k l b (sym (elsewhere k h) ∙ ek) (sym (elsewhere l g) ∙ el)
    ]
  ]

  names_entered :
      (j : ℕ) (k : Bytes) → j < u64_mod → rev' (u64 j) ≡ found k → fwd' k ≡ found (u64 j)
  names_entered j k lt e = elim (Bool-cases (equal (u64 i) (u64 j))) [
    | inl h ↦
        let q : u64 i ≡ u64 j = (equal_iff (u64 i) (u64 j)).0 h in
        let named : a ≡ k = cc (rw h at (reverse (u64 j)), e) in
        at_name k ((equal_iff a k).1 named) ∙ ap found q
    | inr h ↦ kept k j (c.names j k lt (sym (rw h at (reverse (u64 j))) ∙ e))
  ]

  pub IsDictionary-enter : IsDictionary m fwd' rev'
  IsDictionary-enter = record {
    ids = λ k b e. elim (Bool-cases (equal a k)) [
      | inl h ↦ (i, bound, cc (at_name k h, e))
      | inr h ↦ (IsDictionary-grow grows c).ids k b (sym (elsewhere k h) ∙ e)
    ];
    unique = unique_entered;
    names = names_entered;
  }
