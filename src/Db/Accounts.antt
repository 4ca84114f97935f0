-- ===== src/Db/Accounts.antt =====
-- `db_open` accounts for every file and lock that it takes, in any environment.
use fusg.Base.{
  ◌+◌, Bool, true, false, not, [], Option, none, some, Bytes, ℤ, is_zero, if◌then◌else◌, ◌≡◌, refl,
  inl, inr, arith, Bool-cases,
}
use fusg.Db.Platform.{Platform}
use fusg.Db.State.{OpenFlags, Errno, Table, exec, execr, file, filer, evnt, idtb, Db, table, ◌>>=◌}
use fusg.Db.Locking.{locked, db_lock-locked}
use fusg.Db.Disk.{Disk}
use fusg.Db.Open.{
  Health, healthy, not_found, no_access, corrupted, any_flag, tables, nullable, allocated, Opened,
  refused, open_tables, after_files, connect, db_connect, check_health, db_open,
}
use fusg.Db.Balance.{IsBalanced, opens, closes, held}
use fusg.FilePath.Canonical.{fiscanonical}
use fusg.Db.Opening.{IsDistinct, StillOpening, IsOpening, open_tables-StillOpening}
use fusg.Db.Connected.{IsAccounted, give_up-IsAccounted, ready-IsAccounted}

module _ {F : Type 0} (p : Platform F) (flags : OpenFlags) (used : any_flag flags ≡ true) where
  nothing : IsBalanced []
  nothing = record { files = λ t. refl; lock = refl }

  allocated-IsOpening : (errno : Errno) → IsOpening flags 0 (allocated {F = F} flags errno)
  allocated-IsOpening errno = record {
    open_flags = refl;
    lock_depth = refl;
    held_files = record { files = shut; lock = omega arith };
  }
    where
      shut : (t : Table) → 0 ≡ held (table t (allocated {F = F} flags errno)) + 0
      shut exec = refl
      shut execr = refl
      shut file = refl
      shut filer = refl
      shut evnt = refl
      shut idtb = refl

  locked-IsOpening : (errno : Errno) → IsOpening flags 1 (locked (allocated {F = F} flags errno))
  locked-IsOpening errno = record {
    open_flags = refl;
    lock_depth = refl;
    held_files = record { files = shut; lock = ground arith };
  }
    where
      shut :
          (t : Table)
          → opens t (locked (allocated {F = F} flags errno)).calls
            ≡ held (table t (locked (allocated {F = F} flags errno)))
              + closes t (locked (allocated {F = F} flags errno)).calls
      shut exec = refl
      shut execr = refl
      shut file = refl
      shut filer = refl
      shut evnt = refl
      shut idtb = refl

  module _ (disk : Disk F) where
    connect-IsAccounted :
        (fd : ℤ) (errno : Errno) (dbpath : Bytes) (dbinit : Bool)
        → IsAccounted flags (connect p disk fd flags errno dbpath dbinit)
    unfolding connect
    connect-IsAccounted fd errno dbpath dbinit =
        let (rc, l) = db_lock-locked (nullable p) (allocated flags errno) in
        let same : connect p disk fd flags errno dbpath dbinit
            ≡ after_files p fd dbinit (open_tables p disk dbpath tables start) =
          rw (l, ◌>>=◌) refl in
        rw same (
          go (open_tables p disk dbpath tables start) (
            open_tables-StillOpening p disk dbpath flags tables 1 start distinct
              (locked-IsOpening errno) (refl, (refl, (refl, (refl, (refl, (refl, tt))))))))
      where
        start : Db (Option F)
        start = locked (allocated flags errno)

        distinct : IsDistinct tables
        distinct = (
          (refl, (refl, (refl, (refl, (refl, tt))))),
          (
            (refl, (refl, (refl, (refl, tt)))),
            ((refl, (refl, (refl, tt))), ((refl, (refl, tt)), ((refl, tt), (tt, tt)))),
          ),
        )

        go :
            (x : Option (Bool × Db (Option F)))
            → StillOpening flags 1 x
            → IsAccounted flags (after_files p fd dbinit x)
        go none h = tt
        go (some (true, d)) h = ready-IsAccounted p flags used fd dbinit d h
        go (some (false, d)) h = give_up-IsAccounted p flags used fd 1 d h (omega arith)

    db_connect-IsAccounted :
        (errno : Errno) (dbpath : Bytes) (dbinit : Bool)
        → IsAccounted flags (db_connect p disk flags errno dbpath dbinit)
    unfolding db_connect
    db_connect-IsAccounted errno dbpath dbinit =
        elim (Bool-cases (is_zero (disk.open_dir dbpath))) [
          | inl z ↦
              rw (z, IsAccounted, db_connect)
                (give_up-IsAccounted p flags used (disk.open_dir dbpath) 0 (allocated flags errno)
                  (allocated-IsOpening errno) (omega arith))
          | inr z ↦
              rw (z, IsAccounted, db_connect)
                (connect-IsAccounted (disk.open_dir dbpath) errno dbpath dbinit)
        ]

    -- Whatever the file system and gdbm answer, an attempt to open a database with at least one
    -- flag accounts for its six files and its lock, but not for the descriptor of the directory:
    -- where it returns null each of the files was closed as often as it was opened, and the
    -- directory unlocked as often as it was locked; where it returns a connection, that has the
    -- given flags and is not locked, and each of the six files was opened once more than it was
    -- closed.
    pub db_open-IsAccounted :
        (errno : Errno) (dbpath : Bytes) → IsAccounted flags (db_open p disk flags errno dbpath)
    unfolding db_open
    db_open-IsAccounted errno dbpath = elim (Bool-cases (not (fiscanonical dbpath))) [
      | inl z ↦ rw (z, IsAccounted, db_open) tt
      | inr z ↦
          rw (z, IsAccounted, db_open)
            (go (check_health p disk dbpath) flags.write (disk.mkdir dbpath))
    ]
      where
        go :
            (x : Health) (w m : Bool)
            → IsAccounted flags (elim x as (λ _. Option (Opened F)) [
              | healthy ↦ db_connect p disk flags errno dbpath false
              | not_found ↦
                  if not w
                  then some (refused [])
                  else (if m then db_connect p disk flags errno dbpath true else some (refused []))
              | no_access ↦ some (refused [])
              | corrupted ↦ some (refused [])
            ])
        go healthy w m = db_connect-IsAccounted errno dbpath false
        go not_found false m = nothing
        go not_found true true = db_connect-IsAccounted errno dbpath true
        go not_found true false = nothing
        go no_access w m = nothing
        go corrupted w m = nothing
