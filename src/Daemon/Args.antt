-- ===== src/Daemon/Args.antt =====
-- `read_args` of sources/fusgd/src/fusgd.c. Error messages are not modelled.
use fusg.Base.{Bool, List, [], ◌∷◌, Bytes, codes, equal, ℤ, success, take, if◌then◌else◌, ◌≡◌, refl}
use fusg.Daemon.State.{Mode, op_help, op_parse_stdin, op_parse_file}
use fusg.Search.Queries.{err_usage}
use fusg.Cli.Args.{conf_default, is_option, is_help, is_conf}
use fusg.Cli.Rendered.{Spelling, short, long, conf_words, last_conf}

-- the fields of `fusgd_global_t` that the arguments set, and the code
pub record Options : Type 0 where
  pub mode : Mode
  pub conf_file : Bytes
  pub source : Bytes
  pub rc : ℤ

abbrev pub is_read : Bytes → Bool
is_read = is_option (codes "-r") (codes "--read")

-- `-r` ends the loop; the path is cut to PATH_MAX bytes
abbrev pub read_file : List Bytes → Options → Options
read_file [] o = record o { mode = op_help }
read_file (file ∷ args) o = record o { mode = op_parse_file; source = take 4095 file }

-- the loop
unfoldable pub each_option : List Bytes → Options → Options
each_option [] o = o
each_option (arg ∷ []) o =
    if is_help arg
    then record o { mode = op_help }
    else (if is_conf arg
        then o
        else (if is_read arg then read_file [] o else record o { mode = op_help; rc = err_usage }))
each_option (arg ∷ next ∷ args) o =
    let helped = each_option (next ∷ args) (record o { mode = op_help }) in
    let configured = each_option args (record o { conf_file = next }) in
    if is_help arg
    then helped
    else (if is_conf arg
        then configured
        else (if is_read arg
            then read_file (next ∷ args) o
            else record o { mode = op_help; rc = err_usage }))

-- the arguments without the name of the program; `global` is zero before
unfoldable pub read_options : List Bytes → Options
read_options args =
    each_option args
      (record { mode = op_parse_stdin; conf_file = conf_default; source = []; rc = success })

abbrev pub read_word : Spelling → Bytes
read_word short = codes "-r"
read_word long = codes "--read"

-- the options behind those for configurations
abbrev pub configured : List (Spelling × Bytes) → Options → Options
configured confs o = record o { conf_file = last_conf o.conf_file confs }

each_option-configured :
    (confs : List (Spelling × Bytes)) (rest : List Bytes) (o : Options)
    → each_option (conf_words confs rest) o ≡ each_option rest (configured confs o)
unfolding each_option equal
each_option-configured [] rest o = refl
each_option-configured ((short, conf) ∷ confs) rest o =
    each_option-configured confs rest (record o { conf_file = conf })
each_option-configured ((long, conf) ∷ confs) rest o =
    each_option-configured confs rest (record o { conf_file = conf })

-- Behind options for any number of configurations, of which the last one counts: an option to read
-- a file makes the daemon read that file, its path cut to the buffer, and ignore all other
-- arguments; without a file it shows the help; with no more options it reads the standard input.
pub read_options-configured :
    (confs : List (Spelling × Bytes)) (s : Spelling) (file : Bytes) (rest : List Bytes)
    → (read_options (conf_words confs (read_word s ∷ file ∷ rest)) ≡ record {
      mode = op_parse_file;
      conf_file = last_conf conf_default confs;
      source = take 4095 file;
      rc = success;
    })
      × (read_options (conf_words confs (read_word s ∷ [])) ≡ record {
        mode = op_help;
        conf_file = last_conf conf_default confs;
        source = [];
        rc = success;
      })
      × (read_options (conf_words confs []) ≡ record {
        mode = op_parse_stdin;
        conf_file = last_conf conf_default confs;
        source = [];
        rc = success;
      })
unfolding read_options each_option equal
read_options-configured confs short file rest = (
  each_option-configured confs _ _,
  each_option-configured confs _ _,
  each_option-configured confs _ _,
)
read_options-configured confs long file rest = (
  each_option-configured confs _ _,
  each_option-configured confs _ _,
  each_option-configured confs _ _,
)
