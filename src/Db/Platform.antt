-- ===== src/Db/Platform.antt =====
-- What db.c calls and this repository does not implement: gdbm(3) and flock(2).
use fusg.Base.{ℕ, Option, Bytes, ℤ, success, ◌≡◌, ◌≢◌, equal, ◌⊎◌, inl, inr, refl, if◌then◌else◌}

-- `gdbm_fetch`: a datum, or a null `dptr` with `gdbm_errno` GDBM_ITEM_NOT_FOUND or another.
pub data Fetched : Type 0 where
  found : Bytes → Fetched
  missing : Fetched
  failed : Fetched

pub Fetched-cases : (x : Fetched) → ((b : Bytes) × (x ≡ found b)) ⊎ ((x ≡ missing) ⊎ (x ≡ failed))
Fetched-cases (found b) = inl (b, refl)
Fetched-cases missing = inr (inl refl)
Fetched-cases failed = inr (inr refl)

pub data LockOp : Type 0 where
  lock_ex lock_sh lock_un : LockOp

-- `F` is the content of one gdbm file. `store` is `gdbm_store` with GDBM_REPLACE: its return code
-- and the file after it. `flock n` is the return code of a call that has `n` calls before it.
pub record Platform (F : Type 0) : Type 0 where
  pub fetch : F → Bytes → Fetched
  pub store : F → Bytes → Bytes → ℤ × F
  pub first_key : F → Option Bytes
  pub next_key : F → Bytes → Option Bytes
  pub flock : ℕ → LockOp → ℤ

-- What gdbm documents of `gdbm_store`: on success the key has the new content and all other keys
-- keep theirs; on an error the item was not stored.
pub record IsMap {F : Type 0} (p : Platform F) : Type 0 where
  pub stored :
      (f : F) (k v : Bytes)
      → (p.store f k v).0 ≡ success
      → (j : Bytes) → p.fetch (p.store f k v).1 j ≡ (if equal k j then found v else p.fetch f j)
  pub refused :
      (f : F) (k v : Bytes)
      → (p.store f k v).0 ≢ success
      → (j : Bytes) → p.fetch (p.store f k v).1 j ≡ p.fetch f j

-- A gdbm file on a medium with no errors and with space left, opened for writing.
pub record IsReliable {F : Type 0} (p : Platform F) : Type 0 where
  pub stores : (f : F) (k v : Bytes) → (p.store f k v).0 ≡ success
  pub reads : (f : F) (k : Bytes) → p.fetch f k ≢ failed
