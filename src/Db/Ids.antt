-- ===== src/Db/Ids.antt =====
-- The id table and the two dictionaries of names: `__db_id_init`, `__db_id_next`,
-- `__db_get_or_create_unique_id`, `__db_get_fusg_key` and the public lookups of db.c.
use fusg.Base.{
  ℕ, ◌+◌, ◌-◌, ◌%◌, Option, none, some, Bytes, codes, ℤ, success, failure, is_zero, is_minus_one,
  if◌then◌else◌,
}
use fusg.Word.{u64_mod}
use fusg.Db.Platform.{Platform}
use fusg.Db.State.{Table, exec, execr, file, filer, idtb, M, pure, ◌>>=◌, ◌>>◌}
use fusg.Db.Lock.{db_lock, db_unlock}
use fusg.Db.Records.{
  StatsKey, check_expected_notfound, store_str_long, fetch_str_long, store_long_str, fetch_long_str,
}

-- `DB_ID_ENTRY`
abbrev pub id_entry : Bytes
id_entry = codes "id"

-- `(uint64_t)-1`
abbrev pub no_id : ℕ
no_id = u64_mod - 1

module _ {F : Type 0} (p : Platform F) where
  -- `__db_id_init`
  unfoldable pub id_init : M F ℤ
  id_init = store_str_long p idtb id_entry 0

  -- `__db_id_next`; an id that is not written is 0 here
  unfoldable pub id_next : M F (ℤ × ℕ)
  id_next = do
    found ← fetch_str_long p idtb id_entry
    elim found [
      | some id ↦ (do rc ← store_str_long p idtb id_entry ((id + 1) % u64_mod); pure (rc, id))
      | none ↦ pure (failure, 0)
    ]

  -- the new entry of `__db_get_or_create_unique_id`
  unfoldable pub create_unique_id : Table → Bytes → M F (ℤ × ℕ)
  create_unique_id t key = do
    expected ← check_expected_notfound p
    let create : M F (ℤ × ℕ) = do
      next ← id_next
      let insert : M F (ℤ × ℕ) = do rc ← store_str_long p t key next.1; pure (rc, next.1)
      if is_minus_one next.0 then pure next else insert
    if is_minus_one expected then pure (expected, 0) else create

  -- `__db_get_or_create_unique_id`
  unfoldable pub get_or_create_unique_id : Table → Bytes → M F (ℤ × ℕ)
  get_or_create_unique_id t key = do
    known ← fetch_str_long p t key
    elim known [ some id ↦ pure (success, id) | none ↦ create_unique_id t key ]

  -- one of the two halves of `__db_get_fusg_key`: the id of a name, and the reverse entry
  unfoldable pub register : Table → Table → Bytes → M F (ℤ × ℕ)
  register forward reverse name = do
    (rc, id) ← get_or_create_unique_id forward name
    let store : M F (ℤ × ℕ) = do rc' ← store_long_str p reverse id name; pure (rc', id)
    if is_zero rc then store else pure (rc, id)

  -- `__db_get_fusg_key`
  unfoldable pub get_fusg_key : Bytes → Bytes → M F (ℤ × StatsKey)
  get_fusg_key executable filepath = do
    (rc, e) ← register exec execr executable
    let second : M F (ℤ × StatsKey) = do
      (rc', f) ← register file filer filepath
      pure (rc', record { exec_id = e; file_id = f })
    if is_zero rc then second else pure (rc, record { exec_id = e; file_id = 0 })

  -- a public lookup of a table with a lock around it
  unfoldable pub locked_id : Table → Bytes → M F ℕ
  locked_id t name = do
    db_lock p
    id ← fetch_str_long p t name
    db_unlock p
    pure (elim id [ some i ↦ i | none ↦ no_id ])

  unfoldable pub locked_name : Table → ℕ → ℕ → M F (ℤ × Option Bytes)
  locked_name t id size = do
    db_lock p
    result ← fetch_long_str p t id size
    db_unlock p
    pure result

  unfoldable pub db_exec_get_id : Bytes → M F ℕ
  db_exec_get_id executable = locked_id exec executable

  unfoldable pub db_file_get_id : Bytes → M F ℕ
  db_file_get_id filepath = locked_id file filepath

  unfoldable pub db_exec_get_executable : ℕ → ℕ → M F (ℤ × Option Bytes)
  db_exec_get_executable id size = locked_name execr id size

  unfoldable pub db_file_get_file : ℕ → ℕ → M F (ℤ × Option Bytes)
  db_file_get_file id size = locked_name filer id size
