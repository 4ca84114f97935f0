-- ===== src/Os/Files.antt =====
-- What `fremove_r` of sources/fusg-common/include/fusg/utils.h asks of the file system and of the
-- heap, which this repository does not implement.
use fusg.Base.{ℕ, Bool, List, Option, Bytes}

-- `errno`, where it is not 0: ENOENT, ENOTEMPTY, or another
pub data FileError : Type 0 where
  no_entry not_empty other_error : FileError

-- opendir(3), which fails with an error, or readdir(3) until it returns null: the names, and the error
-- that it stops with, or none
pub data Listing : Type 0 where
  unopened : FileError → Listing
  listed : List Bytes → Option FileError → Listing

-- `S` is the state of the file system and of the heap. `remove` is remove(3), with no error where it
-- succeeds; `malloc` and `realloc` say whether there is memory for so many names.
pub record Files (S : Type 0) : Type 0 where
  pub remove : S → Bytes → Option FileError × S
  pub entries : S → Bytes → Listing
  pub malloc : S → ℕ → Bool
  pub realloc : S → ℕ → Bool
