-- ===== src/Db/View.antt =====
-- What the tables of a connection hold, and how stores change it. The platform is reliable here.
use fusg.Base.{
  ℕ, ◌<◌, Bool, true, false, none, some, Bytes, success, equal, if◌then◌else◌, ◌≡◌, refl, ap, ◌∙◌,
  arith,
}
use fusg.Word.{u64, u64_mod, decode-u64, length-u64}
use fusg.Db.Platform.{Fetched, found, missing, Platform, IsMap, IsReliable}
use fusg.Db.State.{
  Table, exec, execr, file, filer, evnt, idtb, item_not_found, Db, table, set_table,
}
use fusg.Db.Records.{datum_str, db_store, store_str_long, store_long_str, fetch_str_long}

-- the same table
abbrev pub same : Table → Table → Bool
same exec exec = true
same execr execr = true
same file file = true
same filer filer = true
same evnt evnt = true
same idtb idtb = true
same _ _ = false

-- the connection after a fetch of a missing key
abbrev pub with_miss : {F : Type 0} → Db F → Db F
with_miss d = record d { gdbm_errno = item_not_found }

module _ {F : Type 0} (f : F) (d : Db F) where
  table-set_table_self : (t : Table) → table t (set_table t f d) ≡ f
  table-set_table_self exec = refl
  table-set_table_self execr = refl
  table-set_table_self file = refl
  table-set_table_self filer = refl
  table-set_table_self evnt = refl
  table-set_table_self idtb = refl

  table-set_table_ne : (t t' : Table) → same t t' ≡ false → table t' (set_table t f d) ≡ table t' d
  table-set_table_ne exec exec h = cc h
  table-set_table_ne execr execr h = cc h
  table-set_table_ne file file h = cc h
  table-set_table_ne filer filer h = cc h
  table-set_table_ne evnt evnt h = cc h
  table-set_table_ne idtb idtb h = cc h
  table-set_table_ne _ _ h = refl

pub same-eq : (t t' : Table) → same t t' ≡ true → t ≡ t'
same-eq exec exec h = refl
same-eq execr execr h = refl
same-eq file file h = refl
same-eq filer filer h = refl
same-eq evnt evnt h = refl
same-eq idtb idtb h = refl
same-eq _ _ h = cc h

-- the fields that a store does not touch
pub record SameLock {F : Type 0} (d d' : Db F) : Type 0 where
  pub open_flags : d'.open_flags ≡ d.open_flags
  pub dirty : d'.dirty ≡ d.dirty
  pub lock_depth : d'.lock_depth ≡ d.lock_depth
  pub calls : d'.calls ≡ d.calls

pub SameLock-refl : {F : Type 0} (d : Db F) → SameLock d d
SameLock-refl d = record { open_flags = refl; dirty = refl; lock_depth = refl; calls = refl }

pub SameLock-trans : {F : Type 0} {a b c : Db F} → SameLock a b → SameLock b c → SameLock a c
SameLock-trans h k = record {
  open_flags = k.open_flags ∙ h.open_flags;
  dirty = k.dirty ∙ h.dirty;
  lock_depth = k.lock_depth ∙ h.lock_depth;
  calls = k.calls ∙ h.calls;
}

pub SameLock-set_table : {F : Type 0} (t : Table) (f : F) (d : Db F) → SameLock d (set_table t f d)
SameLock-set_table exec f d = record {
  open_flags = refl;
  dirty = refl;
  lock_depth = refl;
  calls = refl;
}
SameLock-set_table _ f d = record {
  open_flags = refl;
  dirty = refl;
  lock_depth = refl;
  calls = refl;
}

module _ {F : Type 0} (p : Platform F) where
  abbrev pub view : Db F → Table → Bytes → Fetched
  view d t k = p.fetch (table t d) k

  -- the connection after a successful store
  abbrev pub stored : Table → Bytes → Bytes → Db F → Db F
  stored t k v d = set_table t (p.store (table t d) k v).1 d

module _ {F : Type 0} (p : Platform F) (map : IsMap p) (ok : IsReliable p) where
  pub view-stored_self :
      (t : Table) (k v j : Bytes) (d : Db F)
      → view p (stored p t k v d) t j ≡ (if equal k j then found v else view p d t j)
  view-stored_self t k v j d =
      ap (λ f. p.fetch f j) (table-set_table_self (p.store (table t d) k v).1 d t)
      ∙ map.stored (table t d) k v (ok.stores (table t d) k v) j

  pub view-stored_ne :
      (t t' : Table) (k v j : Bytes) (d : Db F)
      → same t t' ≡ false
      → view p (stored p t k v d) t' j ≡ view p d t' j
  view-stored_ne t t' k v j d h =
      ap (λ f. p.fetch f j) (table-set_table_ne (p.store (table t d) k v).1 d t t' h)

  db_store-stored :
      (t : Table) (k v : Bytes) (d : Db F) → db_store p t k v d ≡ some (success, stored p t k v d)
  unfolding db_store
  db_store-stored t k v d = ground (arith, ok.stores (table t d) k v)

  pub store_str_long-stored :
      (t : Table) (k : Bytes) (v : ℕ) (d : Db F)
      → store_str_long p t k v d ≡ some (success, stored p t (datum_str k) (u64 v) d)
  unfolding store_str_long
  store_str_long-stored t k v d = db_store-stored t (datum_str k) (u64 v) d

  pub store_long_str-stored :
      (t : Table) (i : ℕ) (s : Bytes) (d : Db F)
      → store_long_str p t i s d ≡ some (success, stored p t (u64 i) (datum_str s) d)
  unfolding store_long_str
  store_long_str-stored t i s d = db_store-stored t (u64 i) (datum_str s) d

module _ {F : Type 0} (p : Platform F) where
  pub fetch_str_long-found :
      (t : Table) (k : Bytes) (i : ℕ) (d : Db F)
      → i < u64_mod
      → view p d t (datum_str k) ≡ found (u64 i)
      → fetch_str_long p t k d ≡ some (some i, d)
  unfolding fetch_str_long
  fetch_str_long-found t k i d h e = ground (arith, decode-u64 i h, length-u64 i)

  pub fetch_str_long-missing :
      (t : Table) (k : Bytes) (d : Db F)
      → view p d t (datum_str k) ≡ missing
      → fetch_str_long p t k d ≡ some (none, with_miss d)
  unfolding fetch_str_long
  fetch_str_long-missing t k d e = ground arith
