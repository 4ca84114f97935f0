-- ===== src/Search/Files.antt =====
-- The loops of `search_files_single` and `search_execs_single`.
use fusg.Base.{ℕ}
use fusg.Db.Platform.{Platform}
use fusg.Db.State.{Db}
use fusg.Db.Records.{StatsKey}
use fusg.Db.Iterator.{Iterator}

-- the two parts of a key
abbrev pub exec_of : StatsKey → ℕ
exec_of k = k.exec_id

abbrev pub file_of : StatsKey → ℕ
file_of k = k.file_id
