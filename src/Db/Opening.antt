-- ===== src/Db/Opening.antt =====
-- A connection in the middle of `db_open`: it accounts for the files that are open so far.
use fusg.Base.{
  ℕ, ◌+◌, Bool, true, false, List, [], ◌∷◌, Option, none, some, Bytes, leb, length, if◌then◌else◌,
  ◌≡◌, refl, ap, ◌∙◌, inl, inr, arith, All, Bool-cases, Option-cases,
}
use fusg.Db.Platform.{Platform}
use fusg.Db.State.{
  OpenFlags, Call, opening, Table, exec, execr, file, filer, evnt, idtb, Db, table, set_table,
  ◌>>=◌,
}
use fusg.Db.View.{same, same-eq, SameLock, SameLock-set_table}
use fusg.Db.Disk.{Disk}
use fusg.Db.Open.{open_table, open_tables, table_path, path_max}
use fusg.Db.Balance.{table_kept, IsHeld, opens, closes, locks, unlocks, held}

abbrev pub IsDistinct : List Table → Type 0
IsDistinct [] = Unit
IsDistinct (t ∷ ts) = All (λ u. same u t ≡ false) ts × IsDistinct ts

module _ {F : Type 0} where
  held-set_table :
      (t u : Table) (f : F) (d : Db (Option F))
      → held (table u (set_table t (some f) d)) ≡ (if same u t then 1 else held (table u d))
  held-set_table exec exec f d = refl
  held-set_table execr execr f d = refl
  held-set_table file file f d = refl
  held-set_table filer filer f d = refl
  held-set_table evnt evnt f d = refl
  held-set_table idtb idtb f d = refl
  held-set_table _ _ f d = refl

  -- the file `t` is not open
  abbrev pub IsShut : Db (Option F) → Table → Type 0
  IsShut d t = held (table t d) ≡ 0

  -- A connection in the middle of `db_open`.
  pub record IsOpening (flags : OpenFlags) (n : ℕ) (d : Db (Option F)) : Type 0 where
    pub open_flags : d.open_flags ≡ flags
    pub lock_depth : d.lock_depth ≡ n
    pub held_files : IsHeld d

  open_step :
      (flags : OpenFlags) (n : ℕ) (t : Table) (f : F) (d : Db (Option F))
      → IsOpening flags n d
      → IsShut d t
      → IsOpening flags n (set_table t (some f) (record d { calls = opening t ∷ d.calls }))
  open_step flags n t f d h shut = record {
    open_flags = s.open_flags ∙ h.open_flags;
    lock_depth = s.lock_depth ∙ h.lock_depth;
    held_files = record {
      files = λ u. files u (same u t) refl;
      lock = ap locks s.calls ∙ ground (arith, h.held_files.lock, s.lock_depth, ap unlocks s.calls);
    };
  }
    where
      d1 : Db (Option F)
      d1 = record d { calls = opening t ∷ d.calls }

      s : SameLock d1 (set_table t (some f) d1)
      s = SameLock-set_table t (some f) d1

      files :
          (u : Table) (b : Bool)
          → same u t ≡ b
          → opens u (set_table t (some f) d1).calls
            ≡ held (table u (set_table t (some f) d1)) + closes u (set_table t (some f) d1).calls
      files u true e =
          let was : held (table u d) ≡ 0 = ap (λ v. held (table v d)) (same-eq u t e) ∙ shut in
          let x : opens u (set_table t (some f) d1).calls ≡ 1 + opens u d.calls =
            ap (opens u) s.calls ∙ rw e refl in
          let y : held (table u (set_table t (some f) d1)) ≡ 1 =
            held-set_table t u f d1 ∙ rw e refl in
          omega (arith, x, y, ap (closes u) s.calls, h.held_files.files u, was)
      files u false e =
          let x : opens u (set_table t (some f) d1).calls ≡ 0 + opens u d.calls =
            ap (opens u) s.calls ∙ rw e refl in
          let y : held (table u (set_table t (some f) d1)) ≡ held (table u d) =
            held-set_table t u f d1
            ∙ rw e (ap held (table_kept u d d.open_flags d.lock_depth (opening t ∷ d.calls))) in
          omega (arith, x, y, ap (closes u) s.calls, h.held_files.files u)

  -- what an attempt at opening files leaves: nothing where it is undefined
  abbrev pub StillOpening : OpenFlags → ℕ → Option (Bool × Db (Option F)) → Type 0
  StillOpening flags n none = Unit
  StillOpening flags n (some (ok, d)) = IsOpening flags n d

  still-IsShut :
      (t : Table) (f : F) (d : Db (Option F)) (cs : List Call) (ts : List Table)
      → All (λ u. same u t ≡ false) ts
      → All (IsShut d) ts
      → All (IsShut (set_table t (some f) (record d { calls = cs }))) ts
  still-IsShut t f d cs [] h s = tt
  still-IsShut t f d cs (u ∷ ts) h s = (
    held-set_table t u f (record d { calls = cs })
        ∙ rw h.0 (ap held (table_kept u d d.open_flags d.lock_depth cs) ∙ s.0),
    still-IsShut t f d cs ts h.1 s.1,
  )

module _ {F : Type 0} (p : Platform F) (disk : Disk F) (dbpath : Bytes) (flags : OpenFlags) where
  pub open_tables-StillOpening :
      (ts : List Table) (n : ℕ) (d : Db (Option F))
      → IsDistinct ts
      → IsOpening flags n d
      → All (IsShut d) ts
      → StillOpening flags n (open_tables p disk dbpath ts d)
  unfolding open_tables open_table
  open_tables-StillOpening [] n d u h s = h
  open_tables-StillOpening (t ∷ ts) n d u h s =
      elim (Bool-cases (leb path_max (length (table_path dbpath t)))) [
        | inl e ↦ rw (e, ◌>>=◌, StillOpening) tt
        | inr e ↦ elim (Option-cases (disk.gdbm_open (table_path dbpath t) d.open_flags.write)) [
          | inl g ↦ rw (e, ◌>>=◌, StillOpening) (rw (g, StillOpening) h)
          | inr (f, g) ↦
              rw (e, ◌>>=◌, StillOpening)
                (rw (g, StillOpening)
                  (open_tables-StillOpening ts n
                    (set_table t (some f) (record d { calls = opening t ∷ d.calls })) u.1
                    (open_step flags n t f d h s.0)
                    (still-IsShut t f d (opening t ∷ d.calls) ts u.0 s.1)))
        ]
      ]
