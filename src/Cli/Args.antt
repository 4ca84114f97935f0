-- ===== src/Cli/Args.antt =====
-- `read_args` of sources/fusg/src/fusg.c. Error messages are not modelled.
use fusg.Base.{
  ℕ, ◌+◌, ◌-◌, Bool, ◌||◌, List, [], ◌∷◌, Bytes, codes, equal, ℤ, pos, negsuc, success, failure,
  ltb, leb, length, drop, if◌then◌else◌,
}

-- `fusg_cmd_t`
pub data Command : Type 0 where
  cmd_help cmd_vers cmd_search_files cmd_search_execs cmd_dump : Command

-- `FUSG_CONF_DEFAULT`
abbrev pub conf_default : Bytes
conf_default = codes "/etc/fusg/fusg.conf"

-- The static variables, the code, and the index behind the loop.
pub record Args : Type 0 where
  pub command : Command
  pub conf_file : Bytes
  pub rc : ℤ
  pub index : ℕ

abbrev pub is_option : Bytes → Bytes → Bytes → Bool
is_option short long arg = equal arg short || equal arg long

abbrev pub is_help : Bytes → Bool
is_help = is_option (codes "-h") (codes "--help")

abbrev pub is_version : Bytes → Bool
is_version = is_option (codes "-v") (codes "--version")

abbrev pub is_conf : Bytes → Bool
is_conf = is_option (codes "-c") (codes "--conf")

abbrev pub is_file : Bytes → Bool
is_file = is_option (codes "-f") (codes "--file")

abbrev pub is_exec : Bytes → Bool
is_exec = is_option (codes "-e") (codes "--exec")

abbrev pub is_all : Bytes → Bool
is_all = is_option (codes "-a") (codes "--all")

-- a command that takes arguments; without them the code is left as it is
abbrev pub search_command : ℕ → Command → Args → Args
search_command argc cmd a =
    if ltb argc 3
    then record a { command = cmd_help }
    else record a { command = cmd; rc = success; index = a.index + 1 }

-- an argument that ends the loop
abbrev pub last_option : ℕ → Bytes → Args → Args
last_option argc arg a =
    if is_help arg
    then record a { command = cmd_help; rc = success }
    else (if is_version arg
        then record a { command = cmd_vers; rc = success }
        else (if is_file arg
            then search_command argc cmd_search_execs a
            else (if is_exec arg
                then search_command argc cmd_search_files a
                else (if is_all arg
                    then record a { command = cmd_dump; rc = success }
                    else record a { command = cmd_help; rc = failure }))))

-- `-c` and what follows it: the loop steps over both, also where nothing follows
abbrev pub no_conf : Args → Args
no_conf a = record a { rc = success; index = a.index + 2 }

abbrev pub with_conf : Bytes → Args → Args
with_conf conf a = record a { conf_file = conf; rc = success; index = a.index + 2 }

-- the loop on the arguments from `index` on; no option for the configuration is one of the others
unfoldable pub each_arg : ℕ → List Bytes → Args → Args
each_arg argc [] a = a
each_arg argc (arg ∷ []) a = if is_conf arg then no_conf a else last_option argc arg a
each_arg argc (arg ∷ next ∷ args) a =
    let rest = each_arg argc args (with_conf next a) in
    if is_conf arg then rest else last_option argc arg a

-- `argv` without the name of the program
unfoldable pub read_args : List Bytes → Args
read_args args =
    each_arg (length args + 1) args
      (record { command = cmd_help; conf_file = conf_default; rc = failure; index = 1 })

-- `argc - i`
abbrev pub num_entries : ℕ → ℕ → ℤ
num_entries argc i = if leb i argc then pos (argc - i) else negsuc (i - argc - 1)

-- `argv + i`, from the first argument on
abbrev pub entries : List Bytes → ℕ → List Bytes
entries args i = drop (i - 1) args
