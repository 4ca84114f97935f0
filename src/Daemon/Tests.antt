-- ===== src/Daemon/Tests.antt =====
-- Runs of the daemon.
use fusg.Base.{
  Bytes, ◌+◌, true, false, List, [], ◌∷◌, none, some, codes, pos, negsuc, success, ◌≡◌, refl, arith,
}
use fusg.Db.Memory.{Entries, memory, blank}
use fusg.Daemon.State.{op_help, op_parse_stdin, op_parse_file, Daemon, Callback, Signals, Round}
use fusg.Daemon.Work.{work}
use fusg.Daemon.Counts.{ready_of, ready_all}
use fusg.Daemon.Stored.{CountsAll, work-CountsAll}
use fusg.Daemon.Plan.{plan_callbacks, records_all, handled_all}
use fusg.Daemon.Follows.{EndsAs}
use fusg.Daemon.Planned.{daemon_of}
use fusg.Daemon.Loop.{work-EndsAs}
use fusg.Db.Initial.{initial, initial-IsConsistent}
use fusg.Db.Memory.{memory-IsMap, memory-IsReliable}
use fusg.Events.Audit.{Field, audit_syscall, audit_cwd, audit_path}
use fusg.Daemon.Ends.{IsEnded, work-IsEnded}
use fusg.Cli.Rendered.{short, long, conf_words}
use fusg.Daemon.Args.{read_options, read_word, read_options-configured}

abbrev quiet : Signals
quiet = record { hup = false; term = false }

abbrev started : Daemon Entries
started = record {
  mode = op_parse_stdin;
  stop = false;
  received_sighup = false;
  last_stats_report = 0;
  events_processed = 0;
  events_stored = 0;
  time_last_flush = 0;
  db = record blank { dirty = true };
}

abbrev nothing_ready : Callback
nothing_ready = record { ready = true; audit = none; now = 5 }

-- an interrupted wait, a line that completes an event, and then the end of the stream
abbrev rounds : List Round
rounds =
    record {
      before = quiet;
      waits =
          record { retval = negsuc 0; interrupted = true; signals = quiet }
          ∷ record { retval = pos 1; interrupted = false; signals = quiet }
          ∷ [];
      line = some (nothing_ready ∷ []);
      aged = none;
      flushed = [];
      now = 5;
      after = quiet;
      eof = false;
    }
    ∷ record {
      before = quiet;
      waits = record { retval = pos 1; interrupted = false; signals = quiet } ∷ [];
      line = none;
      aged = none;
      flushed = [];
      now = 6;
      after = quiet;
      eof = true;
    }
    ∷ []

work-CountsAll_example :
    CountsAll (ready_all rounds + ready_of []) started (work memory 4096 rounds [] started)
work-CountsAll_example = work-CountsAll memory 4096 rounds [] started (omega arith)

work-IsEnded_example : IsEnded (work memory 4096 rounds [] started)
work-IsEnded_example =
    work-IsEnded memory 4096 (λ n op. refl) rounds [] started (refl, (refl, tt)) refl

read_options-configured_example :
    (read_options (conf_words ((short, codes "/c") ∷ []) (read_word long ∷ codes "/f" ∷ []))
      ≡ record { mode = op_parse_file; conf_file = codes "/c"; source = codes "/f"; rc = success })
    × (read_options (conf_words ((short, codes "/c") ∷ []) (read_word long ∷ []))
        ≡ record { mode = op_help; conf_file = codes "/c"; source = []; rc = success })
    × (read_options (conf_words ((short, codes "/c") ∷ []) [])
        ≡ record { mode = op_parse_stdin; conf_file = codes "/c"; source = []; rc = success })
read_options-configured_example =
    read_options-configured ((short, codes "/c") ∷ []) long (codes "/f") []

abbrev field : Bytes → Bytes → Field
field name content = record {
  name = name;
  number = 0;
  value = some content;
  interpreted = some content;
}

-- a program that reads a file
abbrev opens_notes : Callback
opens_notes = record {
  ready = true;
  audit = some (record {
    serial = 1;
    seconds = 7;
    records =
        record {
          type = audit_syscall;
          fields =
              field (codes "success") (codes "yes") ∷ field (codes "exe") (codes "/bin/vi") ∷ [];
        }
        ∷ record { type = audit_cwd; fields = field (codes "cwd") (codes "/home") ∷ [] }
        ∷ record { type = audit_path; fields = field (codes "name") (codes "n") ∷ [] }
        ∷ [];
  });
  now = 5;
}

abbrev pub first_line : List Round
first_line =
    record {
      before = quiet;
      waits = record { retval = pos 1; interrupted = false; signals = quiet } ∷ [];
      line = some (opens_notes ∷ []);
      aged = none;
      flushed = [];
      now = 5;
      after = quiet;
      eof = true;
    }
    ∷ []

abbrev at_work : Daemon Entries
at_work = record started { db = initial }

work-EndsAs_example :
    EndsAs memory 0 daemon_of
      (0 + records_all (handled_all op_parse_stdin first_line [] false))
      (work memory 4096 first_line [] at_work)
      (plan_callbacks 4096 (handled_all op_parse_stdin first_line [] false) 0 [])
work-EndsAs_example =
    work-EndsAs memory memory-IsMap memory-IsReliable 4096 0 first_line [] [] at_work
      (omega arith, tt) (omega arith)
      (record { consistent = initial-IsConsistent; usage_of = λ exe fil. refl })
