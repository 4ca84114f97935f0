-- ===== src/Db/Create.antt =====
-- `db_open` where there is no database yet.
use fusg.Base.{
  ◌+◌, ◌<◌, Bool, true, false, not, [], ◌∷◌, Option, none, some, Bytes, ℤ, is_zero, leb, length,
  length-append, if◌then◌else◌, ◌≡◌, refl, sym, ap, ◌∙◌, arith,
}
use fusg.Db.Platform.{Platform, IsMap, IsReliable}
use fusg.Db.State.{
  OpenFlags, opening, Errno, Table, exec, execr, file, filer, evnt, idtb, Db, set_table, ◌>>=◌,
}
use fusg.Db.Locking.{
  synced, db_sync-synced, SameTables-synced, locked, unlocked, db_lock-locked, db_unlock-unlocked,
  SameTables-unlocked,
}
use fusg.Db.Consistent.{IsConsistent, IsConsistent-same, SameTables}
use fusg.Db.Flush.{synced-lock_depth, usage-same}
use fusg.Db.Entry.{usage}
use fusg.Db.Fresh.{IsEmpty, id_init-IsConsistent}
use fusg.Db.Disk.{no_entry, Disk, IsCreating}
use fusg.Db.Open.{
  tables, nullable, opened_files, allocated, opened, refused, open_table, open_tables, table_path,
  file_name, path_max, initialise, ready, connect, db_connect, check_health, db_open,
}
use fusg.Db.Connected.{id_init-runs}
use fusg.FilePath.Canonical.{fiscanonical}

module _ {F : Type 0} (p : Platform F) (disk : Disk F) (dbpath : Bytes)
    (creating : IsCreating p disk) (absent : disk.stat dbpath ≡ no_entry)
    (short : length dbpath + 9 < path_max) where
  path_fits : (t : Table) → leb path_max (length (table_path dbpath t)) ≡ false
  path_fits exec = ground (arith, length-append dbpath (b'/' ∷ file_name exec))
  path_fits execr = ground (arith, length-append dbpath (b'/' ∷ file_name execr))
  path_fits file = ground (arith, length-append dbpath (b'/' ∷ file_name file))
  path_fits filer = ground (arith, length-append dbpath (b'/' ∷ file_name filer))
  path_fits evnt = ground (arith, length-append dbpath (b'/' ∷ file_name evnt))
  path_fits idtb = ground (arith, length-append dbpath (b'/' ∷ file_name idtb))

  abbrev new_file : Table → F
  new_file t =
      (creating.created (table_path dbpath t) (creating.below dbpath (file_name t) absent)).0

  abbrev with_file : Table → Db (Option F) → Db (Option F)
  with_file t d = set_table t (some (new_file t)) (record d { calls = opening t ∷ d.calls })

  open_table-new :
      (t : Table) (d : Db (Option F))
      → d.open_flags.write ≡ true
      → open_table p disk dbpath t d ≡ some (true, with_file t d)
  unfolding open_table
  open_table-new t d w =
      let (f, made, _) =
        creating.created (table_path dbpath t) (creating.below dbpath (file_name t) absent) in
      let at : disk.gdbm_open (table_path dbpath t) d.open_flags.write ≡ some f =
        ap (disk.gdbm_open (table_path dbpath t)) w ∙ made in
      rw (path_fits t, open_table) (rw at refl)

  abbrev all_files : Db (Option F) → Db (Option F)
  all_files d =
      with_file idtb
        (with_file evnt (with_file filer (with_file file (with_file execr (with_file exec d)))))

  open_tables-new :
      (d : Db (Option F))
      → d.open_flags.write ≡ true
      → open_tables p disk dbpath tables d ≡ some (true, all_files d)
  unfolding open_tables
  open_tables-new d w =
      rw (open_table-new exec d w, ◌>>=◌)
        (rw (open_table-new execr (with_file exec d) w, ◌>>=◌)
          (rw (open_table-new file (with_file execr (with_file exec d)) w, ◌>>=◌)
            (rw
              (open_table-new filer (with_file file (with_file execr (with_file exec d))) w, ◌>>=◌)
              (rw
                (
                  open_table-new evnt
                      (with_file filer (with_file file (with_file execr (with_file exec d)))) w,
                  ◌>>=◌,
                )
                (rw
                  (
                    open_table-new idtb
                        (with_file evnt
                          (with_file filer (with_file file (with_file execr (with_file exec d)))))
                        w,
                    ◌>>=◌,
                  )
                  refl)))))

  -- the connection to the new files
  abbrev new_db : Db (Option F) → Db F
  new_db d = record {
    open_flags = d.open_flags;
    dirty = d.dirty;
    lock_depth = d.lock_depth;
    exec_db = new_file exec;
    execr_db = new_file execr;
    file_db = new_file file;
    filer_db = new_file filer;
    evnt_db = new_file evnt;
    idtb_db = new_file idtb;
    gdbm_errno = d.gdbm_errno;
    calls = (all_files d).calls;
  }

  new_db-IsEmpty : (d : Db (Option F)) → IsEmpty p (new_db d)
  new_db-IsEmpty d exec =
      (creating.created (table_path dbpath exec) (creating.below dbpath (file_name exec) absent)).2
  new_db-IsEmpty d execr =
      (creating.created (table_path dbpath execr)
        (creating.below dbpath (file_name execr) absent)).2
  new_db-IsEmpty d file =
      (creating.created (table_path dbpath file) (creating.below dbpath (file_name file) absent)).2
  new_db-IsEmpty d filer =
      (creating.created (table_path dbpath filer)
        (creating.below dbpath (file_name filer) absent)).2
  new_db-IsEmpty d evnt =
      (creating.created (table_path dbpath evnt) (creating.below dbpath (file_name evnt) absent)).2
  new_db-IsEmpty d idtb =
      (creating.created (table_path dbpath idtb) (creating.below dbpath (file_name idtb) absent)).2

  as_open-new : (d : Db (Option F)) → opened_files (all_files d) ≡ some (new_db d)
  as_open-new d = refl

module _ {F : Type 0} (p : Platform F) (map : IsMap p) (ok : IsReliable p) where
  initialise-new :
      (fd : ℤ) (d : Db F)
      → IsEmpty p d
      → d.lock_depth ≡ 1
      → (d' : Db F) × (initialise p fd d ≡ some (opened d'))
        × IsConsistent p 0 d'
        × ((exe fil : Bytes) → usage p d' exe fil ≡ none)
  unfolding initialise
  initialise-new fd d h one =
      let (d1, init, con, empty) = id_init-IsConsistent p map ok d h in
      let (rc, f, run) = id_init-runs p d in
      let same : d1 ≡ record d { idtb_db = f } = ap (result d1) (sym init ∙ run) in
      let b = d1.open_flags.write in
      let (rc', u) =
        db_unlock-unlocked p (synced b d1) 0
          (synced-lock_depth b d1 ∙ ap (λ (x : Db F). x.lock_depth) same ∙ one) in
      let kept : SameTables d1 (unlocked (synced b d1)) =
        λ t. SameTables-unlocked (synced b d1) t ∙ SameTables-synced b d1 t in
      (
        unlocked (synced b d1),
        rw (init, initialise) (rw (db_sync-synced d1 b refl, ◌>>=◌) (rw u refl)),
        IsConsistent-same p kept con,
        λ exe fil. usage-same p d1 (unlocked (synced b d1)) kept exe fil ∙ empty exe fil,
      )
    where
      result : Db F → Option (ℤ × Db F) → Db F
      result x none = x
      result x (some (_, y)) = y

-- both tests passed
if_created :
    {A : Type 0} (w m : Bool) (x y : A)
    → w ≡ true
    → m ≡ true
    → (if not w then y else (if m then x else y)) ≡ x
if_created w m x y hw hm = rw hw (rw hm refl)

-- On a medium without errors, a database with a canonical path that is not there is opened for
-- writing by creating it: where its directory can be made and opened, gdbm creates files that are
-- not there, and the path of the longest file name fits the buffer, `db_open` returns a
-- connection. It has a consistent database with no id in use, whose abstract view is empty.
pub db_open-IsEmpty_view :
    {F : Type 0} (p : Platform F) (map : IsMap p) (ok : IsReliable p) (disk : Disk F)
    (creating : IsCreating p disk) (flags : OpenFlags) (errno : Errno) (dbpath : Bytes)
    → fiscanonical dbpath ≡ true
    → disk.stat dbpath ≡ no_entry
    → flags.write ≡ true
    → disk.mkdir dbpath ≡ true
    → is_zero (disk.open_dir dbpath) ≡ false
    → length dbpath + 9 < path_max
    → (d : Db F) × (db_open p disk flags errno dbpath ≡ some (opened d))
      × IsConsistent p 0 d
      × ((exe fil : Bytes) → usage p d exe fil ≡ none)
unfolding db_open db_connect connect check_health ready
db_open-IsEmpty_view p map ok disk creating flags errno dbpath canonical absent w made dir short =
    let fd = disk.open_dir dbpath in
    let start = locked (allocated flags errno) in
    let new = new_db p disk dbpath creating absent short start in
    let (rc, l) = db_lock-locked (nullable p) (allocated flags errno) in
    let files = open_tables-new p disk dbpath creating absent short start w in
    let (d, run, con, empty) =
      initialise-new p map ok fd new (new_db-IsEmpty p disk dbpath creating absent short start)
        refl in
    let connected : connect p disk fd flags errno dbpath true ≡ some (opened d) =
      rw (l, ◌>>=◌) (rw files run) in
    (
      d,
      rw canonical (
          rw absent (
            if_created flags.write (disk.mkdir dbpath) _ (some (refused [])) w made
            ∙ rw dir connected)),
      con,
      empty,
    )
