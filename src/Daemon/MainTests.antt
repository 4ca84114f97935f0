-- ===== src/Daemon/MainTests.antt =====
-- A run of the daemon on a disk in memory, from its start to its exit.
use fusg.Base.{true, false, [], ◌∷◌, some, codes, success, ◌≡◌, refl, arith}
use fusg.Db.State.{Db, item_not_found}
use fusg.Db.Memory.{Entries, memory, memory-IsMap, memory-IsReliable}
use fusg.Db.Disk.{no_entry}
use fusg.Db.Open.{path_max, opened, db_open}
use fusg.Db.OpenTests.{files_of}
use fusg.Conf.Lines.{config_init, fusg_conf_read, read_lines}
use fusg.FilePath.Canonical.{fiscanonical}
use fusg.Cli.Rendered.{short, conf_words}
use fusg.Daemon.State.{op_parse_stdin}
use fusg.Daemon.Plan.{plan_callbacks, handled_all}
use fusg.Daemon.Main.{Surroundings, to_write, main}
use fusg.Daemon.Exits.{ShutsDown, main-ShutsDown}
use fusg.Daemon.Recorded.{IsFresh, IsBounded, RecordedAs, main-RecordedAs}
use fusg.Daemon.Tests.{first_line}

-- an empty configuration, and one line with an event
abbrev surroundings : Surroundings Entries
surroundings = record {
  platform = memory;
  disk = files_of no_entry true;
  have_tty = true;
  contents = λ path. some [];
  writable = λ path. true;
  readable = λ path. true;
  core_pattern = some (codes "core");
  errno = item_not_found;
  now = 3;
  auparse = true;
  rounds = first_line;
  last = [];
}

main-ShutsDown_example : ShutsDown surroundings (main surroundings (codes "-c" ∷ codes "/c" ∷ []))
main-ShutsDown_example =
    main-ShutsDown surroundings (λ n op. refl) refl (refl, tt) (codes "-c" ∷ codes "/c" ∷ []) refl

default-IsFresh : IsFresh surroundings config_init
unfolding fiscanonical
default-IsFresh = record {
  canonical = refl;
  absent = refl;
  made = refl;
  opens = refl;
  short = omega arith;
}

run-IsBounded : IsBounded surroundings
run-IsBounded = record {
  timely = (omega arith, tt);
  few = omega arith;
  locks = λ n op. refl;
  begins = refl;
  answers = (refl, tt);
  ends = refl;
}

main-RecordedAs_example :
    (d : Db Entries) × (db_open memory
        (files_of no_entry true)
        to_write
        item_not_found
        config_init.db_path
      ≡ some (opened d))
    × RecordedAs memory
        (main surroundings (conf_words ((short, codes "/c") ∷ []) []))
        (plan_callbacks path_max (handled_all op_parse_stdin first_line [] false) 0 [])
unfolding fusg_conf_read read_lines
main-RecordedAs_example =
    main-RecordedAs surroundings memory-IsMap memory-IsReliable
      (record { created = λ path _. ([], refl, λ k. refl); below = λ path name h. h }) run-IsBounded
      ((short, codes "/c") ∷ []) success config_init refl default-IsFresh
