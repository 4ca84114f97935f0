-- ===== src/Daemon/Recorded.antt =====
-- `main` of sources/fusgd/src/fusgd.c on a new database: from audit events to the usage on disk.
use fusg.Base.{
  ℕ, ◌+◌, ◌*◌, ◌<◌, Bool, true, false, List, [], ◌∷◌, Option, none, some, Bytes, ℤ, success,
  is_zero, length, if◌then◌else◌, ◌≡◌, refl, ap, inl, inr, arith, All, Bool-cases,
}
use fusg.Word.{u64_mod}
use fusg.Db.Platform.{LockOp, Platform, IsMap, IsReliable}
use fusg.Db.State.{Db}
use fusg.Db.Disk.{no_entry, IsCreating}
use fusg.Db.Entry.{usage}
use fusg.Db.Open.{path_max, as_open, any_flag, Opened, opened, db_open}
use fusg.Db.Consistent.{IsConsistent}
use fusg.Db.Create.{db_open-IsEmpty_view}
use fusg.Db.History.{Access, history}
use fusg.FilePath.Canonical.{fiscanonical}
use fusg.Conf.Lines.{Conf, fusg_conf_read}
use fusg.Logging.State.{Logging, initial}
use fusg.Logging.Setup.{
  logging_set_log_levels, logging_init, logging_setup_console, logging_setup_syslog,
  logging_setup_file, logging_finalize, logging_chain_init, logging_chain_append,
  logging_get_function, logging_finalize_that_v, logging_finalize_that, logging_chain_clear,
  logging_get_function_v,
}
use fusg.Logging.Sinks.{perform_all}
use fusg.Cli.Args.{conf_default}
use fusg.Cli.Rendered.{Spelling, short, conf_words, last_conf}
use fusg.Db.Balance.{db_close-IsBalanced}
use fusg.Db.Still.{IsStill, IsStill-IsHeld, IsHeld-IsStill}
use fusg.Db.Connected.{IsAccounted}
use fusg.Db.Accounts.{db_open-IsAccounted}
use fusg.Daemon.State.{op_parse_stdin, Daemon}
use fusg.Daemon.Work.{Progress, waiting, finished, work}
use fusg.Daemon.Args.{read_options, read_options-configured}
use fusg.Daemon.Plan.{plan_callbacks, records_all, IsTimelyAll, handled_all}
use fusg.Daemon.Follows.{EndsAs}
use fusg.Daemon.Planned.{daemon_of}
use fusg.Daemon.Covered.{all_callbacks}
use fusg.Daemon.Loop.{work-EndsAs}
use fusg.Daemon.Still.{DbStill, work-DbStill}
use fusg.Daemon.Ends.{has_answer, has_end, IsEnded, work-IsEnded}
use fusg.Daemon.Main.{
  Surroundings, Exit, Outcome, exits, waits, SetUp, to_write, first_requests, file_requests,
  open_log, bail, global_with, work_all, after_work, serve, serve_from, read_source, behind_conf,
  main, no_conf,
}

first_logging :
    (have_tty : Bool)
    → (l : Logging) × (l' : Logging) × (perform_all (first_requests have_tty) initial ≡ some l)
      × (perform_all file_requests l ≡ some l')
unfolding logging_set_log_levels logging_init logging_setup_console logging_setup_syslog
    logging_setup_file logging_finalize logging_chain_init logging_chain_append logging_get_function
    logging_finalize_that_v logging_finalize_that logging_chain_clear logging_get_function_v
first_logging true = (_, _, refl, refl)
first_logging false = (_, _, refl, refl)

-- the connection that was closed has the history of `us` as its view
abbrev pub IsRecorded : {F : Type 0} → Platform F → Exit F → List Access → Type 0
IsRecorded {F} p x us =
    (d : Db F) × (x.closed ≡ some d) × ((exe fil : Bytes) → usage p d exe fil ≡ history exe fil us)

-- the process and the plan abort both, or the process exits with the updates of the plan in its database
abbrev pub RecordedAs :
    {F : Type 0} → Platform F → Option (Outcome F) → Option (ℕ × List Access) → Type 0
RecordedAs p none none = Unit
RecordedAs p none (some y) = ⊥
RecordedAs p (some (waits s)) y = ⊥
RecordedAs p (some (exits x)) none = ⊥
RecordedAs p (some (exits x)) (some (c, us)) = IsRecorded p x us

module _ {F : Type 0} (w : Surroundings F) where
  bail-RecordedAs :
      (rc : ℤ) (u : SetUp) (fd : ℤ) (d : Db F) (c : ℕ) (us : List Access)
      → IsStill to_write d
      → ((exe fil : Bytes) → usage w.platform d exe fil ≡ history exe fil us)
      → RecordedAs w.platform (bail w rc u fd d) (some (c, us))
  unfolding bail
  bail-RecordedAs rc u fd d c us h view =
      let used : any_flag d.open_flags ≡ true = rw (h.open_flags) refl in
      let (d', run, b) =
        db_close-IsBalanced w.platform fd (as_open d) used (IsStill-IsHeld to_write d h) in
      rw (run, RecordedAs) (d, refl, view)

  after_work-RecordedAs :
      (rc : ℤ) (u : SetUp) (fd : ℤ) (k : ℕ) (x : Option (Progress F)) (y : Option (ℕ × List Access))
      → EndsAs w.platform 0 daemon_of k x y
      → IsEnded x
      → DbStill to_write daemon_of x
      → RecordedAs w.platform (after_work w rc u fd x) y
  after_work-RecordedAs rc u fd k none none f e s = tt
  after_work-RecordedAs rc u fd k none (some y) f e s = elim f [ ]
  after_work-RecordedAs rc u fd k (some (waiting d)) y f e s = elim e [ ]
  after_work-RecordedAs rc u fd k (some (finished d)) none f e s = elim f [ ]
  after_work-RecordedAs rc u fd k (some (finished d)) (some (c, us)) f e s =
      bail-RecordedAs rc u fd d.db c us s f.1.log.usage_of

  -- the log file, whether it can be opened or not
  open_log-runs :
      (path : Bytes) (l : Logging)
      → ((l' : Logging) × (perform_all file_requests l ≡ some l'))
      → (x : Bool × Logging) × (open_log w path l ≡ some x)
  unfolding open_log
  open_log-runs [] l h = (_, refl)
  open_log-runs (c ∷ s) l (l', run) = elim (Bool-cases (w.writable (c ∷ s))) [
    | inl e ↦ ((true, l'), rw e (rw run refl))
    | inr e ↦ ((false, l), rw e refl)
  ]

  main-configured :
      (args : List Bytes) (l : Logging)
      → perform_all (first_requests w.have_tty) initial ≡ some l
      → main w args
        ≡ behind_conf w (read_options args) l (
            if is_zero (read_options args).rc
            then fusg_conf_read (w.contents (read_options args).conf_file)
            else some ((read_options args).rc, no_conf))
  unfolding main
  main-configured args l e =
      ap
        (λ x. elim x as (λ _. Option (Outcome F)) [
          | none ↦ none
          | some l' ↦ behind_conf w (read_options args) l' (
              if is_zero (read_options args).rc
              then fusg_conf_read (w.contents (read_options args).conf_file)
              else some ((read_options args).rc, no_conf))
        ])
        e

-- What is known of the surroundings: `conf` is what the configuration says.
pub record IsFresh {F : Type 0} (w : Surroundings F) (conf : Conf) : Type 0 where
  pub canonical : fiscanonical conf.db_path ≡ true
  pub absent : w.disk.stat conf.db_path ≡ no_entry
  pub made : w.disk.mkdir conf.db_path ≡ true
  pub opens : is_zero (w.disk.open_dir conf.db_path) ≡ false
  pub short : length conf.db_path + 9 < path_max

-- What is known of the run: the events leave ids and time stamps below 2 ^ 64, `flock` and
-- `auparse_init` succeed, and the loop ends.
pub record IsBounded {F : Type 0} (w : Surroundings F) : Type 0 where
  pub timely : IsTimelyAll (all_callbacks w.rounds w.last)
  pub few : 2 * records_all (all_callbacks w.rounds w.last) < u64_mod
  pub locks : (n : ℕ) (op : LockOp) → w.platform.flock n op ≡ success
  pub begins : w.auparse ≡ true
  pub answers : All (λ r. has_answer r.waits ≡ true) w.rounds
  pub ends : has_end op_parse_stdin w.rounds ≡ true

module _ {F : Type 0} (w : Surroundings F) (map : IsMap w.platform) (ok : IsReliable w.platform)
    (creating : IsCreating w.platform w.disk) (bounded : IsBounded w) where
  -- the main loop on a new connection
  work-RecordedAs :
      (rc : ℤ) (u : SetUp) (fd : ℤ) (d : Db F)
      → IsStill to_write d
      → IsConsistent w.platform 0 d
      → ((exe fil : Bytes) → usage w.platform d exe fil ≡ none)
      → RecordedAs w.platform
          (after_work w rc u fd (work_all w (global_with w op_parse_stdin d)))
          (plan_callbacks path_max (handled_all op_parse_stdin w.rounds w.last false) 0 [])
  work-RecordedAs rc u fd d h con empty = go w.auparse bounded.begins
    where
      s : Daemon F
      s = global_with w op_parse_stdin d

      go :
          (b : Bool)
          → b ≡ true
          → RecordedAs w.platform
              (after_work w rc u fd
                (if b then work w.platform path_max w.rounds w.last s else some (finished s)))
              (plan_callbacks path_max (handled_all op_parse_stdin w.rounds w.last false) 0 [])
      go false e = cc e
      go true e =
          after_work-RecordedAs w rc u fd _ _ _
            (work-EndsAs w.platform map ok path_max 0 w.rounds w.last [] s bounded.timely
              (omega (arith, bounded.few))
              (record { consistent = con; usage_of = λ exe fil. empty exe fil }))
            (work-IsEnded w.platform path_max bounded.locks w.rounds w.last s bounded.answers
              bounded.ends)
            (work-DbStill w.platform path_max to_write w.rounds w.last s h)

  IsAccounted-opened :
      (d : Db F) (x : Option (Opened F))
      → x ≡ some (opened d)
      → IsAccounted to_write x
      → IsStill to_write d
  IsAccounted-opened d x e a = from (rw e at a)
    where
      from : IsAccounted to_write (some (opened d)) → IsStill to_write d
      from a = IsHeld-IsStill to_write d a.0 a.2

  serve-RecordedAs :
      (rc : ℤ) (conf : Conf) (l : Bool × Logging) (d : Db F)
      → db_open w.platform w.disk to_write w.errno conf.db_path ≡ some (opened d)
      → IsConsistent w.platform 0 d
      → ((exe fil : Bytes) → usage w.platform d exe fil ≡ none)
      → RecordedAs w.platform
          (serve_from w rc op_parse_stdin conf false l)
          (plan_callbacks path_max (handled_all op_parse_stdin w.rounds w.last false) 0 [])
  unfolding serve_from
  serve-RecordedAs rc conf (log_open, l) d run con empty =
      rw (run, serve)
        (work-RecordedAs rc _ (w.disk.open_dir conf.db_path) d
          (IsAccounted-opened d _ run
            (db_open-IsAccounted w.platform to_write refl w.disk w.errno conf.db_path))
          con empty)

  -- On a medium without errors, where gdbm creates the files that are missing, with options for
  -- any number of configurations and no other arguments, where the last configuration, or the
  -- default one, can be read in full or to its first error and names a database that is not
  -- there, whose directory can be made and opened and whose path is canonical and fits the
  -- buffer; where the events leave ids and time stamps below 2 ^ 64, `flock` and `auparse_init`
  -- succeed, `select` returns in every round, and a round meets the end of the stream, or SIGTERM
  -- before, during or after its wait: `main` opens a new database, and aborts exactly where the
  -- plan of the events that its loop handles does. Otherwise it exits, and the connection that it
  -- closes has, for each pair of an executable and a file, the history of the planned updates as
  -- its usage. The plan uses neither a database nor the loop: it picks the events by the signals
  -- and the waits of the rounds, and reads their records with the parsers of the program.
  pub main-RecordedAs :
      (confs : List (Spelling × Bytes)) (rc : ℤ) (conf : Conf)
      → fusg_conf_read (w.contents (last_conf conf_default confs)) ≡ some (rc, conf)
      → IsFresh w conf
      → (d : Db F) × (db_open w.platform w.disk to_write w.errno conf.db_path ≡ some (opened d))
        × RecordedAs w.platform
            (main w (conf_words confs []))
            (plan_callbacks path_max (handled_all op_parse_stdin w.rounds w.last false) 0 [])
  unfolding read_source
  main-RecordedAs confs rc conf read fresh =
      let (d, run, con, empty) =
        db_open-IsEmpty_view w.platform map ok w.disk creating to_write w.errno conf.db_path
          fresh.canonical fresh.absent refl fresh.made fresh.opens fresh.short in
      let (l, l', first, then_file) = first_logging w.have_tty in
      let (x, log) = open_log-runs w conf.fusgd_log l (l', then_file) in
      (
        d,
        run,
        rw (main-configured w (conf_words confs []) l first) (
            rw ((read_options-configured confs short [] []).2)
              (rw read (rw (log, behind_conf) (serve-RecordedAs _ conf x d run con empty)))),
      )
