-- ===== src/Cli/Tests.antt =====
-- Runs of the command line tool.
use fusg.Base.{◌≤◌, true, List, [], ◌∷◌, none, some, Bytes, codes, equal, ◌≡◌, refl, arith}
use fusg.Db.State.{item_not_found}
use fusg.Db.Memory.{Entries, memory}
use fusg.Db.Disk.{no_entry}
use fusg.Db.OpenTests.{files_of}
use fusg.Search.Program.{World, entries_read}
use fusg.Cli.Args.{read_args, each_arg, num_entries, entries}
use fusg.Cli.Main.{main}
use fusg.Cli.Within.{IsBehind, read_args-entries_read}
use fusg.Cli.Rendered.{short, long, execs_of, command_line, requested, main-requested}

abbrev line : List Bytes
line = codes "-c" ∷ codes "/c" ∷ codes "-f" ∷ codes "/n" ∷ []

read_args-entries_read_example :
    ((read_args line).index ≤ 5)
    × IsBehind (read_args line).command line (entries line (read_args line).index)
    × (entries_read (num_entries 5 (read_args line).index) (entries line (read_args line).index)
        ≡ some (entries line (read_args line).index))
unfolding read_args each_arg equal
read_args-entries_read_example = read_args-entries_read line refl

abbrev world : World Entries
world = record {
  platform = memory;
  disk = files_of no_entry true;
  contents = λ path. none;
  realpath = λ path. none;
  errno = item_not_found;
  iterator = record { have_lock = true; db_key = none };
  fuel = 3;
}

main-requested_example :
    main world (command_line ((short, codes "/c") ∷ []) execs_of long (codes "/n" ∷ []))
    ≡ requested world execs_of (codes "/c") (codes "/n" ∷ [])
main-requested_example =
    main-requested world ((short, codes "/c") ∷ []) execs_of long (codes "/n" ∷ []) (omega arith)
