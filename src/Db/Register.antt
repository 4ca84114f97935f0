-- ===== src/Db/Register.antt =====
-- What one half of `__db_get_fusg_key` does: the id of a name, old or new, and its reverse entry.
use fusg.Base.{
  ℕ, ◌+◌, ◌%◌, ◌<◌, ◌≤◌, false, some, Bytes, success, equal, equal_iff, equal_refl, if◌then◌else◌,
  ◌≡◌, refl, sym, ap, ◌∙◌, ◌⊎◌, inl, inr, arith, Bool-cases,
}
use fusg.Word.{u64, u64_mod}
use fusg.Db.Platform.{Fetched, found, missing, Platform, IsMap, IsReliable}
use fusg.Db.State.{Table, idtb, Db, ◌>>=◌}
use fusg.Db.Records.{datum_str, check_expected_notfound}
use fusg.Db.Ids.{id_entry, id_next, create_unique_id, get_or_create_unique_id, register}
use fusg.Db.View.{
  same, SameLock, SameLock-trans, SameLock-set_table, view, stored, view-stored_self,
  view-stored_ne, store_str_long-stored, store_long_str-stored, fetch_str_long-found,
  fetch_str_long-missing, with_miss,
}

-- The id `i` of `name` after registering it in the tables `fwd` and `rev`; the id table counts
-- `n` ids before and `n'` after.
pub record Registered {F : Type 0} (p : Platform F) (fwd rev : Table) (name : Bytes) (n i n' : ℕ)
    (d d' : Db F) : Type 0 where
  pub bound : i < n'
  pub grows : n ≤ n'
  pub by_one : n' ≤ n + 1
  pub origin :
      (view p d fwd (datum_str name) ≡ found (u64 i))
      ⊎ ((view p d fwd (datum_str name) ≡ missing) × (i ≡ n))
  pub next : view p d' idtb (datum_str id_entry) ≡ found (u64 n')
  pub forward :
      (k : Bytes)
      → view p d' fwd k ≡ (if equal (datum_str name) k then found (u64 i) else view p d fwd k)
  pub reverse :
      (k : Bytes)
      → view p d' rev k ≡ (if equal (u64 i) k then found (datum_str name) else view p d rev k)
  pub others :
      (t : Table)
      → same fwd t ≡ false
      → same rev t ≡ false
      → same idtb t ≡ false
      → (k : Bytes) → view p d' t k ≡ view p d t k
  pub lock : SameLock d d'

-- two tables that are not one another nor the id table
pub record Apart (fwd rev : Table) : Type 0 where
  pub fwd_idtb : same fwd idtb ≡ false
  pub rev_idtb : same rev idtb ≡ false
  pub idtb_fwd : same idtb fwd ≡ false
  pub idtb_rev : same idtb rev ≡ false
  pub fwd_rev : same fwd rev ≡ false
  pub rev_fwd : same rev fwd ≡ false

if_known :
    (v : Bytes → Fetched) (a k : Bytes) {x : Fetched}
    → v a ≡ x
    → v k ≡ (if equal a k then x else v k)
if_known v a k e = elim (Bool-cases (equal a k)) [
  | inl h ↦ rw h (ap v (sym ((equal_iff a k).0 h)) ∙ e)
  | inr h ↦ rw h
]

SameLock-miss : {F : Type 0} (d : Db F) → SameLock d (with_miss d)
SameLock-miss d = record { open_flags = refl; dirty = refl; lock_depth = refl; calls = refl }

module _ {F : Type 0} (p : Platform F) (map : IsMap p) (ok : IsReliable p) where
  view-with_miss : (t : Table) (k : Bytes) (d : Db F) → view p (with_miss d) t k ≡ view p d t k
  view-with_miss Table.exec k d = refl
  view-with_miss _ k d = refl

  abbrev counted : ℕ → Db F → Db F
  counted n d = stored p idtb (datum_str id_entry) (u64 (n + 1)) d

  id_next-counted :
      (n : ℕ) (d : Db F)
      → n + 1 < u64_mod
      → view p d idtb (datum_str id_entry) ≡ found (u64 n)
      → id_next p d ≡ some ((success, n), counted n d)
  unfolding id_next
  id_next-counted n d h e =
      let small : (n + 1) % u64_mod ≡ n + 1 = omega arith in
      rw (fetch_str_long-found p idtb id_entry n d (omega arith) e, ◌>>=◌)
        (rw (store_str_long-stored p map ok idtb id_entry ((n + 1) % u64_mod) d, ◌>>=◌) (rw small))

  check-with_miss :
      (d : Db F) → check_expected_notfound p (with_miss d) ≡ some (success, with_miss d)
  unfolding check_expected_notfound
  check-with_miss d = refl

  module _ (fwd rev : Table) (name : Bytes) where
    pub created : ℕ → Db F → Db F
    created n d = stored p fwd (datum_str name) (u64 n) (counted n (with_miss d))

    create-created :
        (n : ℕ) (d : Db F)
        → n + 1 < u64_mod
        → view p d idtb (datum_str id_entry) ≡ found (u64 n)
        → create_unique_id p fwd name (with_miss d) ≡ some ((success, n), created n d)
    unfolding create_unique_id created
    create-created n d h c = ground (
      arith,
      check-with_miss d,
      id_next-counted n (with_miss d) h c,
      store_str_long-stored p map ok fwd name n (counted n (with_miss d)),
    )

    get_or_create-found :
        (i : ℕ) (d : Db F)
        → i < u64_mod
        → view p d fwd (datum_str name) ≡ found (u64 i)
        → get_or_create_unique_id p fwd name d ≡ some ((success, i), d)
    unfolding get_or_create_unique_id
    get_or_create-found i d h e = ground (arith, fetch_str_long-found p fwd name i d h e)

    get_or_create-missing :
        (n : ℕ) (d : Db F)
        → n + 1 < u64_mod
        → view p d idtb (datum_str id_entry) ≡ found (u64 n)
        → view p d fwd (datum_str name) ≡ missing
        → get_or_create_unique_id p fwd name d ≡ some ((success, n), created n d)
    unfolding get_or_create_unique_id
    get_or_create-missing n d h c e =
        rw (fetch_str_long-missing p fwd name d e, ◌>>=◌) (create-created n d h c)

    pub registered : ℕ → Db F → Db F
    registered i d = stored p rev (u64 i) (datum_str name) d

    pub register-known :
        (i : ℕ) (d : Db F)
        → i < u64_mod
        → view p d fwd (datum_str name) ≡ found (u64 i)
        → register p fwd rev name d ≡ some ((success, i), registered i d)
    unfolding register registered
    register-known i d h e =
        ground (arith, get_or_create-found i d h e, store_long_str-stored p map ok rev i name d)

    pub register-new :
        (n : ℕ) (d : Db F)
        → n + 1 < u64_mod
        → view p d idtb (datum_str id_entry) ≡ found (u64 n)
        → view p d fwd (datum_str name) ≡ missing
        → register p fwd rev name d ≡ some ((success, n), registered n (created n d))
    unfolding register registered
    register-new n d h c e = ground (
      arith,
      get_or_create-missing n d h c e,
      store_long_str-stored p map ok rev n name (created n d),
    )

    module _ (apart : Apart fwd rev) where
      pub Registered-known :
          (n i : ℕ) (d : Db F)
          → i < n
          → view p d idtb (datum_str id_entry) ≡ found (u64 n)
          → view p d fwd (datum_str name) ≡ found (u64 i)
          → Registered p fwd rev name n i n d (registered i d)
      unfolding registered
      Registered-known n i d h c e = record {
        bound = h;
        grows = omega arith;
        by_one = omega arith;
        origin = inl e;
        next = kept idtb (datum_str id_entry) apart.rev_idtb ∙ c;
        forward = λ k. kept fwd k apart.rev_fwd ∙ if_known (view p d fwd) (datum_str name) k e;
        reverse = λ k. view-stored_self p map ok rev (u64 i) (datum_str name) k d;
        others = λ t a b c k. kept t k b;
        lock = SameLock-set_table rev _ d;
      }
        where
          kept :
              (t : Table) (k : Bytes)
              → same rev t ≡ false
              → view p (registered i d) t k ≡ view p d t k
          kept t k a = view-stored_ne p map ok rev t (u64 i) (datum_str name) k d a

      pub Registered-new :
          (n : ℕ) (d : Db F)
          → view p d fwd (datum_str name) ≡ missing
          → Registered p fwd rev name n n (n + 1) d (registered n (created n d))
      unfolding registered created
      Registered-new n d e = record {
        bound = omega arith;
        grows = omega arith;
        by_one = omega arith;
        origin = inr (e, refl);
        next =
            after_fwd idtb (datum_str id_entry) apart.rev_idtb apart.fwd_idtb
            ∙ view-stored_self p map ok idtb (datum_str id_entry) (u64 (n + 1)) (datum_str id_entry)
                (with_miss d)
            ∙ rw (equal_refl (datum_str id_entry));
        forward = λ k.
            view-stored_ne p map ok rev fwd (u64 n) (datum_str name) k (created n d) apart.rev_fwd
            ∙ view-stored_self p map ok fwd (datum_str name) (u64 n) k c
            ∙ ap (λ x. if equal (datum_str name) k then found (u64 n) else x)
                (uncounted fwd k apart.idtb_fwd);
        reverse = λ k.
            view-stored_self p map ok rev (u64 n) (datum_str name) k (created n d)
            ∙ ap (λ x. if equal (u64 n) k then found (datum_str name) else x)
                (view-stored_ne p map ok fwd rev (datum_str name) (u64 n) k c apart.fwd_rev
                  ∙ uncounted rev k apart.idtb_rev);
        others = λ t a b i k. after_fwd t k b a ∙ uncounted t k i;
        lock = SameLock-trans (SameLock-miss d) (
            SameLock-trans (SameLock-set_table idtb _ (with_miss d)) (
              SameLock-trans (SameLock-set_table fwd _ c)
                (SameLock-set_table rev _ (created n d))));
      }
        where
          c : Db F
          c = counted n (with_miss d)

          after_fwd :
              (t : Table) (k : Bytes)
              → same rev t ≡ false
              → same fwd t ≡ false
              → view p (registered n (created n d)) t k ≡ view p c t k
          after_fwd t k a b =
              view-stored_ne p map ok rev t (u64 n) (datum_str name) k (created n d) a
              ∙ view-stored_ne p map ok fwd t (datum_str name) (u64 n) k c b

          uncounted : (t : Table) (k : Bytes) → same idtb t ≡ false → view p c t k ≡ view p d t k
          uncounted t k a =
              view-stored_ne p map ok idtb t (datum_str id_entry) (u64 (n + 1)) k (with_miss d) a
              ∙ view-with_miss t k d
