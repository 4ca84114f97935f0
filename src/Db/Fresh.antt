-- ===== src/Db/Fresh.antt =====
-- A new database: six empty tables, and then `__db_id_init`.
use fusg.Base.{ℕ, false, ◌++◌, none, some, Bytes, success, equal_refl, ◌≡◌, refl, ap, ◌∙◌}
use fusg.Word.{u64}
use fusg.Db.Platform.{Fetched, found, missing, Platform, IsMap, IsReliable}
use fusg.Db.State.{Table, exec, execr, file, filer, evnt, idtb, Db}
use fusg.Db.Records.{datum_str}
use fusg.Db.Ids.{id_entry, id_init}
use fusg.Db.View.{view, stored, view-stored_self, view-stored_ne, store_str_long-stored, same}
use fusg.Db.Consistent.{IsDictionary, IsConsistent}
use fusg.Db.Entry.{id_of, usage, usage_at}
use fusg.Db.Names.{id_of-missing, usage_at-no_exec}

abbrev pub IsEmpty : {F : Type 0} → Platform F → Db F → Type 0
IsEmpty p d = (t : Table) (k : Bytes) → view p d t k ≡ missing

pub IsDictionary-empty :
    {n : ℕ} {fwd rev : Bytes → Fetched}
    → ((k : Bytes) → fwd k ≡ missing)
    → ((k : Bytes) → rev k ≡ missing)
    → IsDictionary n fwd rev
IsDictionary-empty h g = record {
  ids = λ k b e. cc (h k, e);
  unique = λ k l b e o. cc (h k, e);
  names = λ i k lt e. cc (g (u64 i), e);
}

module _ {F : Type 0} (p : Platform F) (map : IsMap p) (ok : IsReliable p) where
  initial : Db F → Db F
  initial d = stored p idtb (datum_str id_entry) (u64 0) d

  initial-others :
      (d : Db F) (t : Table) (k : Bytes)
      → same idtb t ≡ false
      → IsEmpty p d
      → view p (initial d) t k ≡ missing
  unfolding initial
  initial-others d t k h e =
      view-stored_ne p map ok idtb t (datum_str id_entry) (u64 0) k d h ∙ e t k

  initial-next : (d : Db F) → view p (initial d) idtb (datum_str id_entry) ≡ found (u64 0)
  unfolding initial
  initial-next d =
      view-stored_self p map ok idtb (datum_str id_entry) (u64 0) (datum_str id_entry) d
      ∙ rw (equal_refl (datum_str id_entry))

  -- On empty tables `__db_id_init` succeeds and leaves a consistent database with no id in use,
  -- whose abstract view is empty.
  pub id_init-IsConsistent :
      (d : Db F)
      → IsEmpty p d
      → (d' : Db F) × (id_init p d ≡ some (success, d'))
        × IsConsistent p 0 d'
        × ((exe fil : Bytes) → usage p d' exe fil ≡ none)
  unfolding id_init initial
  id_init-IsConsistent d h = (
    initial d,
    store_str_long-stored p map ok idtb id_entry 0 d,
    record {
      next = initial-next d;
      execs =
          IsDictionary-empty (λ k. initial-others d exec k refl h)
            (λ k. initial-others d execr k refl h);
      files =
          IsDictionary-empty (λ k. initial-others d file k refl h)
            (λ k. initial-others d filer k refl h);
      events = λ i j b hi hj e. cc (initial-others d evnt (u64 i ++ u64 j) refl h, e);
    },
    λ exe fil.
        ap (λ i. usage_at (view p (initial d) evnt) i (id_of (view p (initial d) file) fil))
          (id_of-missing (view p (initial d) exec) exe
            (initial-others d exec (datum_str exe) refl h))
        ∙ usage_at-no_exec (view p (initial d) evnt) (id_of (view p (initial d) file) fil),
  )
