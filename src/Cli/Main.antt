-- ===== src/Cli/Main.antt =====
-- `do_command` and `main` of sources/fusg/src/fusg.c. The texts of the help and of the version are
-- values; log messages are not modelled.
use fusg.Base.{
  ◌+◌, List, Option, none, some, Bytes, ℤ, success, is_minus_one, length, if◌then◌else◌,
}
use fusg.Search.Queries.{err_usage}
use fusg.Search.Program.{World, Ran, search_files, search_execs, search_dump}
use fusg.Cli.Args.{
  cmd_help, cmd_vers, cmd_search_files, cmd_search_execs, cmd_dump, Args, read_args, num_entries,
  entries,
}

-- what the tool does: a text, or a search
pub data Done : Type 0 where
  helped : ℤ → Done
  version : ℤ → Done
  ran : Ran → Done

-- `none` is an abort of the search
abbrev pub searched : Option Ran → Option Done
searched none = none
searched (some r) = some (ran r)

module _ {F : Type 0} (w : World F) where
  unfoldable pub do_command : Args → ℤ → List Bytes → Option Done
  do_command a num names = elim a.command [
    | cmd_help ↦ some (helped success)
    | cmd_vers ↦ some (version success)
    | cmd_search_files ↦ searched (search_files w a.conf_file num names)
    | cmd_search_execs ↦ searched (search_execs w a.conf_file num names)
    | cmd_dump ↦ searched (search_dump w a.conf_file)
  ]

  -- the arguments without the name of the program
  unfoldable pub main : List Bytes → Option Done
  main args =
      let a = read_args args in
      if is_minus_one a.rc
      then some (helped err_usage)
      else do_command a (num_entries (length args + 1) a.index) (entries args a.index)
