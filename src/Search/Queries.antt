-- ===== src/Search/Queries.antt =====
-- `search_files_single`, `search_execs_single` and `search_dump_all` of sources/fusg/src/search.c,
-- behind the opening of the database.
use fusg.Base.{
  ℕ, Bool, true, false, not, ◌&&◌, ◌==◌, Option, none, some, Bytes, ℤ, pos, success, failure,
  is_zero, if◌then◌else◌,
}
use fusg.Db.Platform.{Platform}
use fusg.Db.State.{M, pure, ◌>>=◌, ◌>>◌}
use fusg.Db.Ids.{no_id, db_exec_get_id, db_file_get_id}
use fusg.Db.Iterator.{Iterator, db_fusg_stats_first, db_iterator_release}
use fusg.Search.Entries.{Found, nothing, visit_file, visit_exec, visit_any, each_entry}

-- `ERR_USAGE`
abbrev pub err_usage : ℤ
err_usage = pos 1

-- the name to look up: the real path, where `realpath` has one
abbrev pub real_name : Option Bytes → Bytes → Bytes
real_name none name = name
real_name (some real) name = real

abbrev pub is_some : Option Bytes → Bool
is_some none = false
is_some (some s) = true

module _ {F : Type 0} (p : Platform F) (fuel : ℕ) (it : Iterator) where
  -- The loop of a search between its locks; `it` is what the iterator held before. The code is -1,
  -- with which every iteration ends.
  unfoldable pub search_entries : (Bytes → Found → M F Found) → M F (ℤ × Option Found)
  search_entries visit = do
    (rc, first) ← db_fusg_stats_first p it
    found ← if is_zero rc then each_entry p visit fuel first nothing else pure nothing
    db_iterator_release p first
    pure (failure, some found)

  -- `real` is the result of `realpath`; no result is the message that there is no entry
  unfoldable pub search_files_single : Option Bytes → Bytes → M F (ℤ × Option Found)
  search_files_single real exe = do
    exec_id ← db_exec_get_id p (real_name real exe)
    let search =
        if exec_id == no_id
        then pure (success, some nothing)
        else search_entries (visit_file p exec_id)
    if not (is_some real) && exec_id == no_id then pure (err_usage, none) else search

  unfoldable pub search_execs_single : Option Bytes → Bytes → M F (ℤ × Option Found)
  search_execs_single real file = do
    file_id ← db_file_get_id p (real_name real file)
    let search =
        if file_id == no_id
        then pure (success, some nothing)
        else search_entries (visit_exec p file_id)
    if not (is_some real) && file_id == no_id then pure (err_usage, none) else search

  unfoldable pub search_dump_all : M F (ℤ × Option Found)
  search_dump_all = do (rc, found) ← search_entries (visit_any p); pure (success, found)
