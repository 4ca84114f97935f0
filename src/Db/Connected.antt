-- ===== src/Db/Connected.antt =====
-- The two ways in which `db_connect` of sources/fusg-common/src/db.c comes to an end: it gives up, or
-- hands out a connection that is ready.
use fusg.Base.{
  ℕ, zero, suc, ◌≤◌, ◌+◌, Bool, true, false, Option, none, some, ℤ, is_zero, if◌then◌else◌, ◌≡◌,
  refl, sym, ap, ◌∙◌, inl, inr, arith, Bool-cases,
}
use fusg.Db.Platform.{Platform}
use fusg.Db.State.{OpenFlags, Table, exec, Db, table, ◌>>=◌, gdbm_store}
use fusg.Db.Records.{datum_str, db_store, store_str_long}
use fusg.Db.Ids.{id_entry, id_init}
use fusg.Word.{u64}
use fusg.Db.Nesting.{db_unlock-unmatched}
use fusg.Db.Lock.{db_unlock}
use fusg.Db.Locking.{synced, db_sync-synced, SameTables-unlocked, unlocked, db_unlock-unlocked}
use fusg.Db.Open.{
  any_flag, nullable, as_open, opened_files, Opened, opened, refused, give_up, reject, accept,
  initialise, ready,
}
use fusg.Db.Balance.{IsBalanced, IsHeld, opens, closes, locks, unlocks, held, db_close-IsBalanced}
use fusg.Db.Opening.{IsOpening}

-- What an attempt of `db_open` accounts for. A null pointer leaves nothing open or locked. A
-- connection has the given flags, all its files open, and is not locked.
abbrev pub IsAccounted : {F : Type 0} → OpenFlags → Option (Opened F) → Type 0
IsAccounted flags none = Unit
IsAccounted flags (some (refused cs)) = IsBalanced cs
IsAccounted flags (some (opened d)) =
    (d.open_flags ≡ flags) × (d.lock_depth ≡ 0) × IsHeld (as_open d)

module _ {F : Type 0} where
  opens-unlocked :
      (t : Table) (d : Db F)
      → d.lock_depth ≡ 1
      → (opens t (unlocked d).calls ≡ opens t d.calls)
        × (closes t (unlocked d).calls ≡ closes t d.calls)
  opens-unlocked t d h = ground (arith, h)

  locks-unlocked :
      (d : Db F)
      → d.lock_depth ≡ 1
      → (locks (unlocked d).calls ≡ locks d.calls)
        × (unlocks (unlocked d).calls ≡ 1 + unlocks d.calls)
  locks-unlocked d h = ground (arith, h)

module _ {F : Type 0} (p : Platform F) where
  pub id_init-runs :
      (d : Db F) → (rc : ℤ) × (f : F) × (id_init p d ≡ some (rc, record d { idtb_db = f }))
  unfolding id_init store_str_long db_store gdbm_store
  id_init-runs d = (_, (p.store d.idtb_db (datum_str id_entry) (u64 0)).1, refl)

module _ {F : Type 0} (p : Platform F) (flags : OpenFlags) (used : any_flag flags ≡ true) where
  unlocked-IsHeld : (d : Db (Option F)) → IsOpening flags 1 d → IsOpening flags 0 (unlocked d)
  unlocked-IsHeld d h = record {
    open_flags = h.open_flags;
    lock_depth = omega (arith, h.lock_depth);
    held_files = record {
      files = λ t. omega (
        arith,
        opens-unlocked t d h.lock_depth,
        h.held_files.files t,
        ap held (SameTables-unlocked d t),
      );
      lock = ground (arith, h.lock_depth, locks-unlocked d h.lock_depth, h.held_files.lock);
    };
  }

  pub give_up-IsAccounted :
      (fd : ℤ) (n : ℕ) (d : Db (Option F))
      → IsOpening flags n d
      → n ≤ 1
      → IsAccounted {F = F} flags (reject (give_up p fd d))
  unfolding give_up
  give_up-IsAccounted fd zero d h le =
      let z : d.lock_depth ≡ 0 = h.lock_depth in
      let (d', run, b) = db_close-IsBalanced p fd d (rw (sym h.open_flags) at used) h.held_files in
      rw (db_unlock-unmatched (nullable p) d h.lock_depth, ◌>>=◌) (rw (run, IsAccounted) b)
  give_up-IsAccounted fd (suc n) d h le =
      let one : d.lock_depth ≡ 1 = omega (arith, h.lock_depth, le) in
      let (rc, u) = db_unlock-unlocked (nullable p) d 0 one in
      let h' =
        unlocked-IsHeld d
          (record { open_flags = h.open_flags; lock_depth = one; held_files = h.held_files }) in
      let (d', run, b) =
        db_close-IsBalanced p fd (unlocked d) (rw (sym h.open_flags) at used) h'.held_files in
      rw (u, ◌>>=◌) (rw (run, IsAccounted) b)

  -- the last unlock of `db_open`
  unlock-IsAccounted :
      (e : Db F) → IsOpening flags 1 (as_open e) → IsAccounted flags (accept (db_unlock p e))
  unlock-IsAccounted e h =
      let (rc, u) = db_unlock-unlocked p e 0 h.lock_depth in
      let x = unlocked-IsHeld (as_open e) h in
      rw (u, accept, IsAccounted) (x.open_flags, x.lock_depth, x.held_files)

  initialised-IsOpening :
      (e : Db F) (f : F)
      → IsOpening flags 1 (as_open e)
      → IsOpening flags 1 (as_open (record e { idtb_db = f }))
  initialised-IsOpening e f h = record {
    open_flags = h.open_flags;
    lock_depth = h.lock_depth;
    held_files = record {
      files = λ t. h.held_files.files t ∙ ap (λ n. n + closes t e.calls) (as_before t);
      lock = h.held_files.lock;
    };
  }
    where
      as_before :
          (t : Table)
          → held (table t (as_open e)) ≡ held (table t (as_open (record e { idtb_db = f })))
      as_before exec = refl
      as_before _ = refl

  synced-IsOpening :
      (b : Bool) (e : Db F)
      → IsOpening flags 1 (as_open e)
      → IsOpening flags 1 (as_open (synced b e))
  synced-IsOpening false e h = h
  synced-IsOpening true e h = record {
    open_flags = h.open_flags;
    lock_depth = h.lock_depth;
    held_files = record {
      files = λ t. omega (arith, h.held_files.files t, as_before t);
      lock = omega (arith, h.held_files.lock, h.lock_depth);
    };
  }
    where
      as_before :
          (t : Table) → held (table t (as_open (synced true e))) ≡ held (table t (as_open e))
      as_before exec = refl
      as_before _ = refl

  as_open-opened : (d : Db (Option F)) (e : Db F) → opened_files d ≡ some e → as_open e ≡ d
  as_open-opened d e h = ground (arith, h)

  initialise-IsAccounted :
      (fd : ℤ) (e : Db F) → IsOpening flags 1 (as_open e) → IsAccounted flags (initialise p fd e)
  unfolding initialise
  initialise-IsAccounted fd e h =
      let (rc, f, run) = id_init-runs p e in
      let e' = record e { idtb_db = f } in
      let h' = initialised-IsOpening e f h in
      elim (Bool-cases (is_zero rc)) [
        | inr z ↦
            rw (run, IsAccounted, initialise)
              (rw z (give_up-IsAccounted fd 1 (as_open e') h' (omega arith)))
        | inl z ↦
            rw (run, IsAccounted, initialise)
              (rw z (
                rw (db_sync-synced e' e'.open_flags.write refl, ◌>>=◌)
                  (unlock-IsAccounted (synced e'.open_flags.write e')
                    (synced-IsOpening e'.open_flags.write e' h'))))
      ]

  pub ready-IsAccounted :
      (fd : ℤ) (dbinit : Bool) (d : Db (Option F))
      → IsOpening flags 1 d
      → IsAccounted flags (ready p fd dbinit (opened_files d))
  unfolding ready
  ready-IsAccounted fd dbinit d h = go (opened_files d) refl
    where
      go : (x : Option (Db F)) → opened_files d ≡ x → IsAccounted flags (ready p fd dbinit x)
      go none e = tt
      go (some x) e =
          let y : IsOpening flags 1 (as_open x) = rw (as_open-opened d x e) h in
          elim dbinit
            as (λ b. IsAccounted flags (if b then initialise p fd x else accept (db_unlock p x))) [
              | true ↦ initialise-IsAccounted fd x y
              | false ↦ unlock-IsAccounted x y
            ]
