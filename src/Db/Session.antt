-- ===== src/Db/Session.antt =====
-- A database from its creation through its updates.
use fusg.Base.{◌+◌, ◌*◌, ◌<◌, true, false, List, some, Bytes, is_zero, length, ◌≡◌, arith, All}
use fusg.Word.{u64_mod}
use fusg.Db.Platform.{Platform, IsMap, IsReliable}
use fusg.Db.State.{OpenFlags, Errno, Db}
use fusg.Db.Entry.{usage}
use fusg.Db.Disk.{no_entry, Disk, IsCreating}
use fusg.Db.Open.{opened, path_max, db_open}
use fusg.Db.Create.{db_open-IsEmpty_view}
use fusg.Db.History.{Access, history, update_all, update_all-history}
use fusg.FilePath.Canonical.{fiscanonical}

-- On a medium without errors, where gdbm creates files that are not there: a database that is not
-- there, whose directory can be made and opened and whose path is canonical and fits the buffer,
-- is created by opening it for writing. Any sequence of less than 2 ^ 63 updates of that
-- connection, with times below 2 ^ 64, then terminates, and the usage of each pair is a function
-- of the sequence: no entry for a pair without an update, else the number of updates with each
-- flag and the time of the last one.
pub update_all-db_open :
    {F : Type 0} (p : Platform F) (map : IsMap p) (ok : IsReliable p) (disk : Disk F)
    (creating : IsCreating p disk) (flags : OpenFlags) (errno : Errno) (dbpath : Bytes)
    (us : List Access)
    → fiscanonical dbpath ≡ true
    → disk.stat dbpath ≡ no_entry
    → flags.write ≡ true
    → disk.mkdir dbpath ≡ true
    → is_zero (disk.open_dir dbpath) ≡ false
    → length dbpath + 9 < path_max
    → 2 * length us < u64_mod
    → All (λ a. a.time < u64_mod) us
    → (d : Db F) × (d' : Db F) × (db_open p disk flags errno dbpath ≡ some (opened d))
      × (update_all p us d ≡ some d')
      × ((exe fil : Bytes) → usage p d' exe fil ≡ history exe fil us)
update_all-db_open p map ok disk creating flags errno dbpath us canonical absent w made dir short
      small times =
    let (d, run, con, empty) =
      db_open-IsEmpty_view p map ok disk creating flags errno dbpath canonical absent w made dir
        short in
    let (d', n', updates, _, _, view) =
      update_all-history p map ok us 0 d (omega (arith, small)) times con empty in
    (d, d', run, updates, view)
