-- ===== src/Search/Tests.antt =====
-- The search for the files of an executable in a database in memory with one entry.
use fusg.Base.{true, [], ◌∷◌, ◌++◌, some, Bytes, codes}
use fusg.Word.{u64}
use fusg.Db.State.{Db}
use fusg.Db.Iterator.{Iterator, stats_key_of}
use fusg.Db.Memory.{Entries, blank}

abbrev one : Bytes
one = 1 ∷ 0 ∷ 0 ∷ 0 ∷ 0 ∷ 0 ∷ 0 ∷ 0 ∷ []

abbrev key : Bytes
key = one ++ one

abbrev events : Entries
events = (key, one ++ (one ++ (one ++ (one ++ (one ++ one))))) ∷ []

abbrev names : Entries
names = (u64 (stats_key_of key).file_id, codes "/n") ∷ []

abbrev recorded : Db Entries
recorded = record blank { evnt_db = events; filer_db = names; execr_db = names }

abbrev at_start : Iterator
at_start = record { have_lock = true; db_key = some key }
