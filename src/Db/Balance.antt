-- ===== src/Db/Balance.antt =====
-- What `db_close` and the error path of `db_open` give back.
use fusg.Base.{
  ℕ, zero, suc, ◌+◌, ◌==◌, Bool, true, false, List, [], ◌∷◌, Option, none, some, ℤ, is_zero,
  if◌then◌else◌, ◌≡◌, refl, sym, ap, ◌∙◌, inl, inr, arith, Bool-cases, Option-cases,
}
use fusg.Db.Platform.{lock_un, Platform}
use fusg.Db.State.{
  OpenFlags, Call, locking, opening, closing, closing_lock, Table, exec, execr, file, filer, evnt,
  idtb, Db, table, ◌>>=◌,
}
use fusg.Db.View.{same}
use fusg.Db.Lock.{db_unlock}
use fusg.Db.Open.{
  any_flag, no_flags, tables, close_table, close_tables, force_unlock, close_files, db_close,
}

abbrev count_calls : (Call → Bool) → List Call → ℕ
count_calls q [] = 0
count_calls q (c ∷ cs) = (if q c then 1 else 0) + count_calls q cs

abbrev is_opening : Table → Call → Bool
is_opening t (opening t') = same t t'
is_opening t _ = false

abbrev is_closing : Table → Call → Bool
is_closing t (closing t') = same t t'
is_closing t _ = false

abbrev is_lock : Call → Bool
is_lock (locking lock_un) = false
is_lock (locking _) = true
is_lock _ = false

abbrev is_unlock : Call → Bool
is_unlock (locking lock_un) = true
is_unlock _ = false

-- how often a file was opened and closed, and the directory locked and unlocked
abbrev pub opens : Table → List Call → ℕ
opens t = count_calls (is_opening t)

abbrev pub closes : Table → List Call → ℕ
closes t = count_calls (is_closing t)

abbrev pub locks : List Call → ℕ
locks = count_calls is_lock

abbrev pub unlocks : List Call → ℕ
unlocks = count_calls is_unlock

-- all that was opened is closed, and all that was locked is unlocked
pub record IsBalanced (cs : List Call) : Type 0 where
  pub files : (t : Table) → opens t cs ≡ closes t cs
  pub lock : locks cs ≡ unlocks cs

abbrev pub held {ℓ} : {A : Type ℓ} → Option A → ℕ
held none = 0
held (some a) = 1

-- the calls behind the close of one file
abbrev close_calls : {F : Type 0} → Table → Option F → List Call → List Call
close_calls t none cs = cs
close_calls t (some f) cs = closing t ∷ cs

module _ {F : Type 0} where
  closes-close_calls :
      (t t' : Table) (o : Option F) (cs : List Call)
      → closes t (close_calls t' o cs) ≡ (if same t t' then held o else 0) + closes t cs
  closes-close_calls t t' none cs = ground arith
  closes-close_calls t t' (some f) cs = ground arith

  opens-close_calls :
      (t t' : Table) (o : Option F) (cs : List Call) → opens t (close_calls t' o cs) ≡ opens t cs
  opens-close_calls t t' none cs = omega arith
  opens-close_calls t t' (some f) cs = omega arith

  locks-close_calls :
      (t : Table) (o : Option F) (cs : List Call)
      → (locks (close_calls t o cs) ≡ locks cs) × (unlocks (close_calls t o cs) ≡ unlocks cs)
  locks-close_calls t none cs = (omega arith, omega arith)
  locks-close_calls t (some f) cs = (omega arith, omega arith)

  -- the calls behind the close of the files of `d` that are open
  abbrev close_all : List Table → Db (Option F) → List Call → List Call
  close_all [] d cs = cs
  close_all (t ∷ ts) d cs = close_all ts d (close_calls t (table t d) cs)

  opens-close_all :
      (t : Table) (ts : List Table) (d : Db (Option F)) (cs : List Call)
      → opens t (close_all ts d cs) ≡ opens t cs
  opens-close_all t [] d cs = refl
  opens-close_all t (t' ∷ ts) d cs =
      opens-close_all t ts d (close_calls t' (table t' d) cs)
      ∙ opens-close_calls t t' (table t' d) cs

  locks-close_all :
      (ts : List Table) (d : Db (Option F)) (cs : List Call)
      → (locks (close_all ts d cs) ≡ locks cs) × (unlocks (close_all ts d cs) ≡ unlocks cs)
  locks-close_all [] d cs = (refl, refl)
  locks-close_all (t ∷ ts) d cs =
      let (a, b) = locks-close_calls t (table t d) cs in
      let (x, y) = locks-close_all ts d (close_calls t (table t d) cs) in (x ∙ a, y ∙ b)

  -- how many of the files `ts` of `d` are open as `t`
  abbrev held_in : Table → List Table → Db (Option F) → ℕ
  held_in t [] d = 0
  held_in t (t' ∷ ts) d = (if same t t' then held (table t' d) else 0) + held_in t ts d

  closes-close_all :
      (t : Table) (ts : List Table) (d : Db (Option F)) (cs : List Call)
      → closes t (close_all ts d cs) ≡ held_in t ts d + closes t cs
  closes-close_all t [] d cs = omega arith
  closes-close_all t (t' ∷ ts) d cs = omega (
    arith,
    closes-close_all t ts d (close_calls t' (table t' d) cs),
    closes-close_calls t t' (table t' d) cs,
  )

  held_in-tables : (t : Table) (d : Db (Option F)) → held_in t tables d ≡ held (table t d)
  held_in-tables exec d = omega arith
  held_in-tables execr d = omega arith
  held_in-tables file d = omega arith
  held_in-tables filer d = omega arith
  held_in-tables evnt d = omega arith
  held_in-tables idtb d = omega arith

  -- Each open file was opened once more than it was closed, and the directory is locked exactly
  -- inside a critical section.
  pub record IsHeld (d : Db (Option F)) : Type 0 where
    pub files : (t : Table) → opens t d.calls ≡ held (table t d) + closes t d.calls
    pub lock : locks d.calls ≡ (if d.lock_depth == 0 then 0 else 1) + unlocks d.calls

pub table_kept :
    {F : Type 0} (t : Table) (d : Db (Option F)) (flags : OpenFlags) (n : ℕ) (cs : List Call)
    → table t (record d { open_flags = flags; lock_depth = n; calls = cs }) ≡ table t d
table_kept exec d flags n cs = refl
table_kept _ d flags n cs = refl

close_all-calls :
    {F : Type 0} (ts : List Table) (d : Db (Option F)) (new cs : List Call)
    → close_all ts (record d { calls = new }) cs ≡ close_all ts d cs
close_all-calls [] d new cs = refl
close_all-calls (t ∷ ts) d new cs =
    rw (table_kept t d d.open_flags d.lock_depth new)
      (close_all-calls ts d new (close_calls t (table t d) cs))

module _ {F : Type 0} (p : Platform F) where
  close_table-runs :
      (t : Table) (d : Db (Option F))
      → close_table p t d ≡ some (tt, record d { calls = close_calls t (table t d) d.calls })
  unfolding close_table
  close_table-runs t d = elim (Option-cases (table t d)) [
    | inl e ↦ rw (e, close_table) refl
    | inr (f, e) ↦ rw (e, close_table) refl
  ]

  close_tables-runs :
      (ts : List Table) (d : Db (Option F))
      → close_tables p ts d ≡ some (tt, record d { calls = close_all ts d d.calls })
  unfolding close_tables
  close_tables-runs [] d = refl
  close_tables-runs (t ∷ ts) d =
      rw (close_table-runs t d, ◌>>=◌)
        (close_tables-runs ts (record d { calls = close_calls t (table t d) d.calls })
          ∙ ap (λ x. some (tt, record d { calls = x }))
              (close_all-calls ts d (close_calls t (table t d) d.calls)
                (close_calls t (table t d) d.calls)))

  -- the end of `db_close`
  abbrev final : ℤ → Db (Option F) → Db (Option F)
  final fd d =
      let cs = close_all tables d d.calls in
      record d { calls = if is_zero fd then cs else closing_lock ∷ cs }

  final-IsBalanced :
      (fd : ℤ) (d : Db (Option F)) → IsHeld d → d.lock_depth ≡ 0 → IsBalanced (final fd d).calls
  final-IsBalanced fd d h z =
      let cs = close_all tables d d.calls in
      let (l, u) = locks-close_all tables d d.calls in
      let lock : locks cs ≡ unlocks cs =
        l
        ∙ h.lock
        ∙ ap (λ n. (if n == 0 then 0 else 1) + unlocks d.calls) z
        ∙ add_zero (unlocks d.calls)
        ∙ sym u in
      let files = λ (t : Table).
        opens-close_all t tables d d.calls
        ∙ h.files t
        ∙ ap (λ n. n + closes t d.calls) (sym (held_in-tables t d))
        ∙ sym (closes-close_all t tables d d.calls) in
      elim (Bool-cases (is_zero fd)) [
        | inl e ↦ rw e (record { files = files; lock = lock })
        | inr e ↦
            rw e (record { files = λ t. ap (λ n. 0 + n) (files t); lock = ap (λ n. 0 + n) lock })
      ]
    where
      add_zero : (n : ℕ) → 0 + n ≡ n
      add_zero n = omega arith

  close_files-final : (fd : ℤ) (d : Db (Option F)) → close_files p fd d ≡ some (tt, final fd d)
  unfolding close_files
  close_files-final fd d = elim (Bool-cases (is_zero fd)) [
    | inl e ↦ rw (close_tables-runs tables d, ◌>>=◌) (rw e refl)
    | inr e ↦ rw (close_tables-runs tables d, ◌>>=◌) (rw e refl)
  ]

  -- the connection behind `force_unlock`, which is called with no flags
  abbrev forced : ℕ → Db (Option F) → Db (Option F)
  forced zero d = d
  forced (suc n) d = record d { lock_depth = 0; calls = locking lock_un ∷ d.calls }

  force_unlock-forced :
      (n : ℕ) (d : Db (Option F))
      → force_unlock p n (record d { open_flags = no_flags })
        ≡ some (tt, forced n (record d { open_flags = no_flags }))
  unfolding force_unlock db_unlock
  force_unlock-forced zero d = refl
  force_unlock-forced (suc n) d = ground arith

  db_close-final :
      (fd : ℤ) (d : Db (Option F))
      → any_flag d.open_flags ≡ true
      → db_close p fd d
        ≡ some (tt, final fd (forced d.lock_depth (record d { open_flags = no_flags })))
  unfolding db_close
  db_close-final fd d h = rw h (
      rw (force_unlock-forced d.lock_depth d, ◌>>=◌)
        (close_files-final fd (forced d.lock_depth (record d { open_flags = no_flags }))))

  forced-IsHeld :
      (n : ℕ) (d : Db (Option F))
      → d.lock_depth ≡ n
      → IsHeld d
      → IsHeld (forced n d) × ((forced n d).lock_depth ≡ 0)
  forced-IsHeld zero d e h = (h, e)
  forced-IsHeld (suc n) d e h = (
    record {
      files = λ t.
          omega
            (arith, h.files t, ap held (table_kept t d d.open_flags 0 (locking lock_un ∷ d.calls)));
      lock = ground (arith, h.lock);
    },
    refl,
  )

  -- Closing a connection that has a flag, whose open files and lock are accounted for, terminates;
  -- then each file was closed as often as it was opened, and the directory was
  -- unlocked as often as it was locked, also where the caller had left it locked.
  pub db_close-IsBalanced :
      (fd : ℤ) (d : Db (Option F))
      → any_flag d.open_flags ≡ true
      → IsHeld d
      → (d' : Db (Option F)) × (db_close p fd d ≡ some (tt, d')) × IsBalanced d'.calls
  db_close-IsBalanced fd d h g =
      let x =
        forced-IsHeld d.lock_depth (record d { open_flags = no_flags }) refl (without_flags g) in
      (
        final fd (forced d.lock_depth (record d { open_flags = no_flags })),
        db_close-final fd d h,
        final-IsBalanced fd (forced d.lock_depth (record d { open_flags = no_flags })) x.0 x.1,
      )
    where
      without_flags : IsHeld d → IsHeld (record d { open_flags = no_flags })
      without_flags x = record {
        files = λ t.
            x.files t
            ∙ ap (λ o. held o + closes t d.calls)
                (sym (table_kept t d no_flags d.lock_depth d.calls));
        lock = x.lock;
      }
