-- ===== src/Db/OpenTests.antt =====
-- Opening and closing a database on a disk in memory.
use fusg.Base.{
  List, ◌+◌, Bool, true, false, [], ◌∷◌, Option, none, some, Bytes, codes, pos, ◌≡◌, refl, arith,
}
use fusg.Db.State.{
  OpenFlags, locking, opening, Table, exec, execr, file, filer, evnt, idtb, table, item_not_found,
  Db,
}
use fusg.Db.Platform.{lock_ex}
use fusg.Db.Entry.{usage}
use fusg.Db.Consistent.{IsConsistent}
use fusg.Db.Memory.{Entries, memory, memory-IsMap, memory-IsReliable}
use fusg.Db.Disk.{Stat, exists, no_entry, Disk}
use fusg.Db.Open.{allocated, opened, db_close, db_open}
use fusg.Db.Balance.{IsBalanced, IsHeld, opens, closes, held, db_close-IsBalanced}
use fusg.Db.Connected.{IsAccounted}
use fusg.Db.Accounts.{db_open-IsAccounted}
use fusg.Db.History.{Access, history, update_all}
use fusg.Db.Session.{update_all-db_open}
use fusg.FilePath.Canonical.{fiscanonical}
use fusg.Db.Create.{db_open-IsEmpty_view}

abbrev pub files_of : Stat → Bool → Disk Entries
files_of answer writable = record {
  stat = λ path. answer;
  mkdir = λ path. true;
  open_dir = λ path. pos 3;
  gdbm_open = λ path writer. if_writable writable;
}
  where
    if_writable : Bool → Option Entries
    if_writable true = some []
    if_writable false = none

abbrev to_write : OpenFlags
to_write = record { read = false; write = true; sync = false }

abbrev place : Bytes
place = codes "/var/fusg"

db_open-IsEmpty_view_example :
    (d : Db Entries) × (db_open memory (files_of no_entry true) to_write item_not_found place
      ≡ some (opened d))
    × IsConsistent memory 0 d
    × ((exe fil : Bytes) → usage memory d exe fil ≡ none)
unfolding fiscanonical
db_open-IsEmpty_view_example =
    db_open-IsEmpty_view memory memory-IsMap memory-IsReliable (files_of no_entry true)
      (record { created = λ path _. ([], refl, λ k. refl); below = λ path name h. h }) to_write
      item_not_found place refl refl refl refl refl (omega arith)

-- all files are there, and none can be opened
db_open-IsAccounted_example :
    IsAccounted to_write (db_open memory (files_of exists false) to_write item_not_found place)
db_open-IsAccounted_example =
    db_open-IsAccounted memory to_write refl (files_of exists false) item_not_found place

-- locked, with one of the files open
abbrev half_open : Db (Option Entries)
half_open = record (allocated to_write item_not_found) {
  lock_depth = 1;
  exec_db = some [];
  calls = opening exec ∷ locking lock_ex ∷ [];
}

half_open-IsHeld : IsHeld half_open
half_open-IsHeld = record { files = files; lock = refl }
  where
    files :
        (t : Table) → opens t half_open.calls ≡ held (table t half_open) + closes t half_open.calls
    files exec = refl
    files execr = refl
    files file = refl
    files filer = refl
    files evnt = refl
    files idtb = refl

db_close-IsBalanced_example :
    (d' : Db (Option Entries)) × (db_close memory (pos 3) half_open ≡ some (tt, d'))
    × IsBalanced d'.calls
db_close-IsBalanced_example = db_close-IsBalanced memory (pos 3) half_open refl half_open-IsHeld

abbrev one_update : List Access
one_update =
    record {
      executable = codes "/bin/vi";
      filepath = codes "/n";
      flags = record { read = true; write = false; exec = false; creat = false; delet = false };
      time = 7;
    }
    ∷ []

update_all-db_open_example :
    (d : Db Entries) × (d' : Db Entries) × (db_open memory
        (files_of no_entry true)
        to_write
        item_not_found
        place
      ≡ some (opened d))
    × (update_all memory one_update d ≡ some d')
    × ((exe fil : Bytes) → usage memory d' exe fil ≡ history exe fil one_update)
unfolding fiscanonical
update_all-db_open_example =
    update_all-db_open memory memory-IsMap memory-IsReliable (files_of no_entry true)
      (record { created = λ path _. ([], refl, λ k. refl); below = λ path name h. h }) to_write
      item_not_found place one_update refl refl refl refl refl (omega arith) (omega arith)
      (omega arith, tt)
