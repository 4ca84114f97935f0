-- ===== src/Db/Records.antt =====
-- The records of the tables: keys and contents as bytes, and the typed access to them
-- (`__db_store`, `__db_store_str_long`, `__db_fetch_str_long`, `__db_store_long_str`,
-- `__db_fetch_long_str`, `__db_evnt_fetch`, `__db_evnt_store` of db.c).
use fusg.Base.{
  ℕ, ◌*◌, ◌++◌, [], ◌∷◌, Option, none, some, Bytes, ℤ, pos, negsuc, success, failure, length, take,
  drop, ltb, ◌==◌, if◌then◌else◌,
}
use fusg.Word.{u64, decode}
use fusg.Db.Platform.{Platform}
use fusg.Db.State.{
  item_not_found, other_error, Table, evnt, M, pure, abort, gets, ◌>>=◌, ◌>>◌, gdbm_fetch,
  gdbm_store,
}

-- `fusg_stats_key_t`
pub record StatsKey : Type 0 where
  pub exec_id : ℕ
  pub file_id : ℕ

-- `fusg_stats_t`
pub record Stats : Type 0 where
  pub read : ℕ
  pub write : ℕ
  pub create : ℕ
  pub exec : ℕ
  pub time : ℕ
  pub reserved : ℕ

-- `db_datum_str`: the terminating byte is part of the datum
abbrev pub datum_str : Bytes → Bytes
datum_str s = s ++ 0 ∷ []

-- `__db_datum_evnt_key`
abbrev pub datum_key : StatsKey → Bytes
datum_key k = u64 k.exec_id ++ u64 k.file_id

-- `__db_datum_evnt_content`
abbrev pub datum_stats : Stats → Bytes
datum_stats s =
    u64 s.read ++ (u64 s.write ++ (u64 s.create ++ (u64 s.exec ++ (u64 s.time ++ u64 s.reserved))))

abbrev field_at : ℕ → Bytes → ℕ
field_at i b = decode (take 8 (drop (8 * i) b))

-- `*((fusg_stats_t*)result.dptr)`
unfoldable pub stats_of : Bytes → Stats
stats_of b = record {
  read = field_at 0 b;
  write = field_at 1 b;
  create = field_at 2 b;
  exec = field_at 3 b;
  time = field_at 4 b;
  reserved = field_at 5 b;
}

module _ {F : Type 0} (p : Platform F) where
  -- `__db_check_expected_notfound`
  unfoldable pub check_expected_notfound : M F ℤ
  check_expected_notfound = do
    errno ← gets (λ d. d.gdbm_errno)
    pure (elim errno [ item_not_found ↦ success | other_error ↦ failure ])

  -- `__db_store`
  unfoldable pub db_store : Table → Bytes → Bytes → M F ℤ
  unfolding gdbm_store
  db_store t key content = do
    rc ← gdbm_store p t key content
    pure (elim rc [
      | pos n ↦ if n == 1 then failure else success
      | negsuc n ↦ if n == 0 then failure else success
    ])

  unfoldable pub store_str_long : Table → Bytes → ℕ → M F ℤ
  unfolding db_store
  store_str_long t key value = db_store t (datum_str key) (u64 value)

  -- `none` is the null pointer; a content of another size fails the assertion
  unfoldable pub fetch_str_long : Table → Bytes → M F (Option ℕ)
  unfolding gdbm_fetch check_expected_notfound
  fetch_str_long t key = do
    result ← gdbm_fetch p t (datum_str key)
    elim result [
      | some content ↦ if length content == 8 then pure (some (decode content)) else abort
      | none ↦ (do check_expected_notfound; pure none)
    ]

  unfoldable pub store_long_str : Table → ℕ → Bytes → M F ℤ
  unfolding db_store
  store_long_str t key value = db_store t (u64 key) (datum_str value)

  -- The return code, and what is copied to `value`: nothing where the content, with its
  -- terminating byte, is longer than `size`; then the code is `size`.
  unfoldable pub fetch_long_str : Table → ℕ → ℕ → M F (ℤ × Option Bytes)
  unfolding gdbm_fetch check_expected_notfound
  fetch_long_str t key size = do
    result ← gdbm_fetch p t (u64 key)
    elim result [
      | some content ↦
          pure (if ltb size (length content) then (pos size, none) else (success, some content))
      | none ↦ (do check_expected_notfound; pure (failure, none))
    ]

  -- `__db_evnt_fetch`
  unfoldable pub evnt_fetch : StatsKey → M F (Option Stats)
  unfolding gdbm_fetch check_expected_notfound
  evnt_fetch key = do
    result ← gdbm_fetch p evnt (datum_key key)
    elim result [
      | some content ↦ if length content == 48 then pure (some (stats_of content)) else abort
      | none ↦ (do check_expected_notfound; pure none)
    ]

  -- `__db_evnt_store`
  unfoldable pub evnt_store : StatsKey → Stats → M F ℤ
  unfolding gdbm_store
  evnt_store key val = gdbm_store p evnt (datum_key key) (datum_stats val)
