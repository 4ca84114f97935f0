-- ===== src/Db/Still.antt =====
-- Every action on an open connection, of sources/fusg-common/src/db.c, leaves its files open and its lock
-- accounted for, whatever gdbm and flock answer.
pub mod Update
use fusg.Base.{
  ℕ, zero, suc, ◌+◌, ◌%◌, Bool, true, false, Option, none, some, Bytes, ℤ, success, failure,
  is_zero, is_minus_one, ◌==◌, if◌then◌else◌, ◌≡◌, refl, ap, ◌∙◌, arith,
}
use fusg.Word.{u64, u64_mod}
use fusg.Db.Platform.{Platform}
use fusg.Db.State.{
  OpenFlags, Table, exec, execr, file, filer, evnt, idtb, Db, table, M, pure, gets, ◌>>=◌,
  gdbm_fetch, gdbm_store,
}
use fusg.Db.View.{SameLock, SameLock-set_table}
use fusg.Db.Lock.{db_sync, db_lock, db_unlock, db_flush}
use fusg.Db.Locking.{synced, db_sync-synced, locked, unlocked, db_lock-locked, db_unlock-unlocked}
use fusg.Db.Nesting.{db_unlock-unmatched}
use fusg.Db.Records.{
  StatsKey, Stats, datum_str, check_expected_notfound, store_str_long, fetch_str_long,
  store_long_str, evnt_fetch, evnt_store,
}
use fusg.Db.Ids.{
  id_entry, id_next, create_unique_id, get_or_create_unique_id, register, get_fusg_key,
}
use fusg.Db.Usage.{FileUsage, count_event, or_zero, update_entry, db_update}
use fusg.Db.Balance.{IsHeld, opens, closes, locks, unlocks, held}
use fusg.Db.Open.{as_open}

-- The connection has the flags it was opened with, each of its six files was opened once more than
-- closed, and the directory is locked exactly inside of a critical section.
pub record IsStill {F : Type 0} (flags : OpenFlags) (d : Db F) : Type 0 where
  pub open_flags : d.open_flags ≡ flags
  pub files : (t : Table) → opens t d.calls ≡ 1 + closes t d.calls
  pub lock : locks d.calls ≡ (if d.lock_depth == 0 then 0 else 1) + unlocks d.calls

abbrev pub StillAfter : {F A : Type 0} → OpenFlags → Option (A × Db F) → Type 0
StillAfter flags none = Unit
StillAfter flags (some (a, d)) = IsStill flags d

-- an action that keeps the account
abbrev pub Keeps : {F A : Type 0} → OpenFlags → M F A → Type 0
Keeps {F} flags m = (d : Db F) → IsStill flags d → StillAfter flags (m d)

module _ {F : Type 0} where
  held-as_open : (t : Table) (d : Db F) → held (table t (as_open d)) ≡ 1
  held-as_open exec d = refl
  held-as_open _ d = refl

  pub IsStill-IsHeld : (flags : OpenFlags) (d : Db F) → IsStill flags d → IsHeld (as_open d)
  IsStill-IsHeld flags d h = record {
    files = λ t. omega (arith, h.files t, held-as_open t d);
    lock = h.lock;
  }

  pub IsHeld-IsStill :
      (flags : OpenFlags) (d : Db F) → d.open_flags ≡ flags → IsHeld (as_open d) → IsStill flags d
  IsHeld-IsStill flags d e h = record {
    open_flags = e;
    files = λ t. omega (arith, h.files t, held-as_open t d);
    lock = h.lock;
  }

  IsStill-same : (flags : OpenFlags) (d e : Db F) → SameLock d e → IsStill flags d → IsStill flags e
  IsStill-same flags d e s h = record {
    open_flags = s.open_flags ∙ h.open_flags;
    files = λ t. ap (opens t) s.calls ∙ omega (arith, h.files t, ap (closes t) s.calls);
    lock = ap locks s.calls ∙ ground (arith, h.lock, s.lock_depth, ap unlocks s.calls);
  }

module _ {F : Type 0} (flags : OpenFlags) where
  -- one action after another
  pub bind-Keeps :
      {A B : Type 0} (m : M F A) (f : A → M F B)
      → Keeps flags m
      → ((a : A) → Keeps flags (f a))
      → Keeps flags (m >>= f)
  bind-Keeps {A} {B} m f h k d s = go (m d) (h d s)
    where
      go :
          (x : Option (A × Db F))
          → StillAfter flags x
          → StillAfter flags
              (elim x as (λ _. Option (B × Db F)) [ none ↦ none | some (a, d') ↦ f a d' ])
      go none r = tt
      go (some (a, d')) r = k a d' r

  pub if-Keeps :
      {A : Type 0} (b : Bool) (m k : M F A)
      → Keeps flags m
      → Keeps flags k
      → Keeps flags (if b then m else k)
  if-Keeps true m k h g = h
  if-Keeps false m k h g = g

  pub same-Keeps :
      {A : Type 0} (a : A) (d e : Db F)
      → SameLock d e
      → IsStill flags d
      → StillAfter flags (some (a, e))
  same-Keeps a d e s h = IsStill-same flags d e s h

module _ {F : Type 0} (p : Platform F) (flags : OpenFlags) where
  gdbm_fetch-Keeps : (t : Table) (key : Bytes) → Keeps flags (gdbm_fetch p t key)
  unfolding gdbm_fetch
  gdbm_fetch-Keeps t key d s = ground (arith, s)

  gdbm_store-Keeps : (t : Table) (key content : Bytes) → Keeps flags (gdbm_store p t key content)
  unfolding gdbm_store
  gdbm_store-Keeps t key content d s =
      IsStill-same flags d _ (SameLock-set_table t (p.store (table t d) key content).1 d) s

  store_str_long-Keeps : (t : Table) (key : Bytes) (n : ℕ) → Keeps flags (store_str_long p t key n)
  unfolding store_str_long gdbm_store
  store_str_long-Keeps t key n d s =
      IsStill-same flags d _
        (SameLock-set_table t (p.store (table t d) (datum_str key) (u64 n)).1 d) s

  store_long_str-Keeps :
      (t : Table) (key : ℕ) (name : Bytes) → Keeps flags (store_long_str p t key name)
  unfolding store_long_str gdbm_store
  store_long_str-Keeps t key name d s =
      IsStill-same flags d _
        (SameLock-set_table t (p.store (table t d) (u64 key) (datum_str name)).1 d) s

  evnt_store-Keeps : (key : StatsKey) (val : Stats) → Keeps flags (evnt_store p key val)
  unfolding evnt_store
  evnt_store-Keeps key val = gdbm_store-Keeps evnt _ _

  fetch_str_long-Keeps : (t : Table) (key : Bytes) → Keeps flags (fetch_str_long p t key)
  unfolding fetch_str_long gdbm_fetch
  fetch_str_long-Keeps t key d s = ground (arith, s)

  evnt_fetch-Keeps : (key : StatsKey) → Keeps flags (evnt_fetch p key)
  unfolding evnt_fetch gdbm_fetch
  evnt_fetch-Keeps key d s = ground (arith, s)

  id_next-Keeps : Keeps flags (id_next p)
  unfolding id_next
  id_next-Keeps =
      bind-Keeps flags (fetch_str_long p idtb id_entry) _ (fetch_str_long-Keeps idtb id_entry) go
    where
      go :
          (o : Option ℕ)
          → Keeps flags (elim o as (λ _. M F (ℤ × ℕ)) [
            | some id ↦ (do rc ← store_str_long p idtb id_entry ((id + 1) % u64_mod); pure (rc, id))
            | none ↦ pure (failure, 0)
          ])
      go none = λ d s. s
      go (some id) =
          bind-Keeps flags _ _ (store_str_long-Keeps idtb id_entry ((id + 1) % u64_mod))
            (λ rc d s. s)

  expected-Keeps : Keeps flags (check_expected_notfound p)
  unfolding check_expected_notfound
  expected-Keeps d s = s

  create_unique_id-Keeps : (t : Table) (key : Bytes) → Keeps flags (create_unique_id p t key)
  unfolding create_unique_id
  create_unique_id-Keeps t key =
      bind-Keeps flags (check_expected_notfound p) _ expected-Keeps
        (λ e. if-Keeps flags (is_minus_one e) _ _ (λ d s. s) create)
    where
      insert :
          (next : ℤ × ℕ)
          → Keeps {A = ℤ × ℕ} flags (do rc ← store_str_long p t key next.1; pure (rc, next.1))
      insert next = bind-Keeps flags _ _ (store_str_long-Keeps t key next.1) (λ rc d s. s)

      create : Keeps {A = ℤ × ℕ} flags (
          id_next p >>= λ next.
          if is_minus_one next.0
          then pure next
          else (do rc ← store_str_long p t key next.1; pure (rc, next.1)))
      create =
          bind-Keeps flags (id_next p) _ id_next-Keeps
            (λ next. if-Keeps flags (is_minus_one next.0) _ _ (λ d s. s) (insert next))

  get_or_create-Keeps : (t : Table) (key : Bytes) → Keeps flags (get_or_create_unique_id p t key)
  unfolding get_or_create_unique_id
  get_or_create-Keeps t key =
      bind-Keeps flags (fetch_str_long p t key) _ (fetch_str_long-Keeps t key) go
    where
      go :
          (o : Option ℕ)
          → Keeps flags (elim o as (λ _. M F (ℤ × ℕ)) [
            | some id ↦ pure (success, id)
            | none ↦ create_unique_id p t key
          ])
      go none = create_unique_id-Keeps t key
      go (some id) = λ d s. s

  register-Keeps :
      (forward reverse : Table) (name : Bytes) → Keeps flags (register p forward reverse name)
  unfolding register
  register-Keeps forward reverse name =
      bind-Keeps flags (get_or_create_unique_id p forward name) _ (get_or_create-Keeps forward name)
        (λ x.
          if-Keeps flags (is_zero x.0) _ _
            (bind-Keeps flags _ _ (store_long_str-Keeps reverse x.1 name) (λ rc d s. s)) (λ d s. s))

  pub get_fusg_key-Keeps :
      (executable filepath : Bytes) → Keeps flags (get_fusg_key p executable filepath)
  unfolding get_fusg_key
  get_fusg_key-Keeps executable filepath =
      bind-Keeps flags (register p exec execr executable) _ (register-Keeps exec execr executable)
        (λ x.
          if-Keeps flags (is_zero x.0) _ _
            (bind-Keeps flags _ _ (register-Keeps file filer filepath) (λ y d s. s)) (λ d s. s))

  pub update_entry-Keeps :
      (key : StatsKey) (usage : FileUsage) (time : ℕ) → Keeps flags (update_entry p key usage time)
  unfolding update_entry
  update_entry-Keeps key usage time =
      bind-Keeps flags (evnt_fetch p key) _ (evnt_fetch-Keeps key) (λ old.
        bind-Keeps flags _ _ (evnt_store-Keeps key (count_event usage time (or_zero old)))
          (λ rc d s. record { open_flags = s.open_flags; files = s.files; lock = s.lock }))
