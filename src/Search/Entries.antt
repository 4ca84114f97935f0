-- ===== src/Search/Entries.antt =====
-- The loops of sources/fusg/src/search.c over the entries of the database. What they print is a list
-- of lines, the last first; the format of a line is not modelled.
use fusg.Base.{
  ℕ, zero, suc, ◌+◌, ◌==◌, List, [], ◌∷◌, Option, none, some, Bytes, ℤ, is_zero, if◌then◌else◌,
}
use fusg.Db.Platform.{Platform}
use fusg.Db.State.{M, pure, abort, ◌>>=◌}
use fusg.Db.Records.{Stats}
use fusg.Db.Ids.{db_exec_get_executable, db_file_get_file}
use fusg.Db.Usage.{zero_stats, fugs_stats_add}
use fusg.Db.Iterator.{Iterator, stats_key_of, db_iterator_fetch, db_iterator_next}

-- one line: the counters and the names behind them
pub record Line : Type 0 where
  pub stats : Stats
  pub names : List Bytes

-- `stats`, `stats_total`, `count` and the printed lines; `stats` has no value before the first entry
-- is read, and 0 stands for it
pub record Found : Type 0 where
  pub stats : Stats
  pub total : Stats
  pub count : ℕ
  pub lines : List Line

abbrev pub nothing : Found
nothing = record { stats = zero_stats; total = zero_stats; count = 0; lines = [] }

-- `printf`, `fugs_stats_add` and `count++`
abbrev pub add_line : Stats → List Bytes → Found → Found
add_line stats names acc = record {
  stats = stats;
  total = fugs_stats_add acc.total stats;
  count = acc.count + 1;
  lines = record { stats = stats; names = names } ∷ acc.lines;
}

-- `sizeof(filebuf)`
abbrev pub buffer_size : ℕ
buffer_size = 4097

module _ {F : Type 0} where
  -- a lookup that has to succeed, by an assertion
  unfoldable pub asserted : M F (ℤ × Option Bytes) → M F Bytes
  asserted lookup = do
    (rc, name) ← lookup
    elim name [ none ↦ abort | some s ↦ if is_zero rc then pure s else abort ]

module _ {F : Type 0} (p : Platform F) where
  unfoldable pub fetched : Bytes → Found → M F Stats
  fetched key acc = do
    (rc, stats) ← db_iterator_fetch p key acc.stats
    if is_zero rc then pure stats else abort

  -- the body of the loop of `search_files_single`
  unfoldable pub visit_file : ℕ → Bytes → Found → M F Found
  visit_file exec_id key acc = do
    stats ← fetched key acc
    let add : M F Found = do
      name ← asserted (db_file_get_file p (stats_key_of key).file_id buffer_size)
      pure (add_line stats (name ∷ []) acc)
    if (stats_key_of key).exec_id == exec_id then add else pure (record acc { stats = stats })

  -- the body of the loop of `search_execs_single`
  unfoldable pub visit_exec : ℕ → Bytes → Found → M F Found
  visit_exec file_id key acc = do
    stats ← fetched key acc
    let add : M F Found = do
      name ← asserted (db_exec_get_executable p (stats_key_of key).exec_id buffer_size)
      pure (add_line stats (name ∷ []) acc)
    if (stats_key_of key).file_id == file_id then add else pure (record acc { stats = stats })

  -- the body of the loop of `search_dump_all`
  unfoldable pub visit_any : Bytes → Found → M F Found
  visit_any key acc = do
    stats ← fetched key acc
    exe ← asserted (db_exec_get_executable p (stats_key_of key).exec_id buffer_size)
    name ← asserted (db_file_get_file p (stats_key_of key).file_id buffer_size)
    pure (add_line stats (exe ∷ name ∷ []) acc)

  -- the loop itself, on fuel; `rc == 0` is a key that is not null
  unfoldable pub each_entry : (Bytes → Found → M F Found) → ℕ → Iterator → Found → M F Found
  each_entry visit zero it acc = abort
  each_entry visit (suc fuel) it acc = elim it.db_key [
    | none ↦ pure acc
    | some key ↦ (do
      acc' ← visit key acc
      (rc, it') ← db_iterator_next p it key
      each_entry visit fuel it' acc')
  ]
