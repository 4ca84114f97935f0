-- ===== src/Db/Disk.antt =====
-- What `db_open` asks of the file system and of gdbm_open(3), which this repository does not
-- implement.
use fusg.Base.{◌≡◌, ◌++◌, ◌∷◌, Bool, true, Option, some, Bytes, ℤ}
use fusg.Db.Platform.{missing, Platform}

-- `stat`: success, ENOENT, or another error
pub data Stat : Type 0 where
  exists no_entry stat_error : Stat

-- `F` is the content of one gdbm file. `open_dir` is open(2): the descriptor of a directory, or -1; `gdbm_open`
-- takes true for GDBM_WRCREAT and false for GDBM_READER, and a null pointer is `none`.
pub record Disk (F : Type 0) : Type 0 where
  pub stat : Bytes → Stat
  pub mkdir : Bytes → Bool
  pub open_dir : Bytes → ℤ
  pub gdbm_open : Bytes → Bool → Option F

-- What gdbm documents of GDBM_WRCREAT, that a file that is not there is created, with no items, and
-- what stat(2) says below a path that is not there.
pub record IsCreating {F : Type 0} (p : Platform F) (disk : Disk F) : Type 0 where
  pub created :
      (path : Bytes)
      → disk.stat path ≡ no_entry
      → (f : F) × (disk.gdbm_open path true ≡ some f) × ((k : Bytes) → p.fetch f k ≡ missing)
  pub below :
      (path name : Bytes) → disk.stat path ≡ no_entry → disk.stat (path ++ b'/' ∷ name) ≡ no_entry
