-- ===== src/Db/Tests.antt =====
-- Runs of the database in memory, and its properties at concrete updates.
use fusg.Base.{
  List, equal, ℕ, ◌<◌, ◌≤◌, ◌==◌, ◌&&◌, true, false, [], ◌∷◌, none, some, Bytes, codes, success,
  if◌then◌else◌, ◌≡◌, refl, arith,
}
use fusg.Db.State.{Table, Db}
use fusg.Db.Usage.{FileUsage, zero_stats, db_update, db_fetch}
use fusg.Db.Ids.{no_id}
use fusg.Db.Consistent.{IsConsistent}
use fusg.Db.Entry.{usage}
use fusg.Db.Update.{session_calls, IsUpdate, db_update-usage}
use fusg.Db.Fetch.{or_kept, db_fetch-usage}
use fusg.Db.Lookup.{IsNamed, db_update-names}
use fusg.Db.Locking.{syncs}
use fusg.Db.Nesting.{nested, nested-session}
use fusg.Db.History.{Access, history, update_all, update_all-history}
use fusg.Db.Initial.{initial as started, initial-IsConsistent as started-IsConsistent}
use fusg.Db.Memory.{Entries, memory, memory-IsMap, memory-IsReliable, blank}
use fusg.Db.Fresh.{IsEmpty}

blank-IsEmpty : IsEmpty memory blank
blank-IsEmpty Table.exec k = refl
blank-IsEmpty _ k = refl

abbrev editor : Bytes
editor = codes "/bin/vi"

abbrev notes : Bytes
notes = codes "/n"

abbrev reading : FileUsage
reading = record { read = true; write = false; exec = false; creat = false; delet = false }

db_update-usage_example :
    (d' : Db Entries) × (n' : ℕ) × (db_update memory editor notes reading 7 started
      ≡ some (success, d'))
    × IsUpdate memory editor notes reading 7 0 started n' d'
db_update-usage_example =
    db_update-usage memory memory-IsMap memory-IsReliable editor notes reading 7 0 started
      (omega arith) (omega arith) started-IsConsistent

db_fetch-usage_example :
    (d' : Db Entries) × (n' : ℕ) × (db_fetch memory editor notes zero_stats started
      ≡ some ((success, or_kept zero_stats (usage memory started editor notes)), d'))
    × (n' ≤ 2)
    × IsConsistent memory n' d'
    × ((exe' fil' : Bytes) → usage memory d' exe' fil' ≡ usage memory started exe' fil')
    × (d'.lock_depth ≡ 0)
    × (d'.calls ≡ session_calls started)
db_fetch-usage_example =
    db_fetch-usage memory memory-IsMap memory-IsReliable editor notes zero_stats 0 started
      (omega arith) refl started-IsConsistent

db_update-names_example :
    (d' d'' : Db Entries) × (e f : ℕ) × (db_update memory editor notes reading 7 started
      ≡ some (success, d'))
    × (e < no_id)
    × (f < no_id)
    × IsNamed memory editor notes e f d' d''
db_update-names_example =
    db_update-names memory memory-IsMap memory-IsReliable editor notes reading 7 0 started
      (omega arith) (omega arith) started-IsConsistent

nested-session_example :
    nested memory 3 started
    ≡ some (
      tt,
      record started {
        dirty = if started.lock_depth == 0 && syncs started then false else started.dirty;
        calls = session_calls started;
      },
    )
nested-session_example = nested-session memory 2 started

abbrev accesses : List Access
accesses =
    record { executable = editor; filepath = notes; flags = reading; time = 9 }
    ∷ record { executable = editor; filepath = editor; flags = reading; time = 8 }
    ∷ record { executable = editor; filepath = notes; flags = reading; time = 7 }
    ∷ []

started-no_usage : (exe fil : Bytes) → usage memory started exe fil ≡ none
started-no_usage exe fil = refl

update_all-history_example :
    (d' : Db Entries) × (n' : ℕ) × (update_all memory accesses started ≡ some d')
    × (n' ≤ 6)
    × IsConsistent memory n' d'
    × ((exe fil : Bytes) → usage memory d' exe fil ≡ history exe fil accesses)
update_all-history_example =
    update_all-history memory memory-IsMap memory-IsReliable accesses 0 started (omega arith)
      (omega arith, (omega arith, (omega arith, tt))) started-IsConsistent started-no_usage

test_history :
    history editor notes accesses
    ≡ some (record { read = 2; write = 0; create = 0; exec = 0; time = 9; reserved = 0 })
unfolding equal
test_history = refl
