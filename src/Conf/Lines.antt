-- ===== src/Conf/Lines.antt =====
-- The properties, the lines and the file of sources/fusg-common/src/conf.c: `fusg_config_init`,
-- `property`, `parse_line` and `fusg_conf_read`. Log messages are not modelled.
use fusg.Base.{
  ℕ, zero, suc, Bool, true, [], ◌∷◌, Option, none, some, Bytes, codes, ℤ, pos, success, failure,
  is_zero, equal, ◌==◌, if◌then◌else◌, take, length,
}
use fusg.Conf.Tokens.{skip_white, token, consume, line_end}

-- `fusg_conf_t`
pub record Conf : Type 0 where
  pub fusgd_log : Bytes
  pub fusgd_trace : Bytes
  pub db_path : Bytes

-- `fusg_config_init`
abbrev pub config_init : Conf
config_init = record {
  fusgd_log = codes "/var/log/fusg/fusgd.log";
  fusgd_trace = [];
  db_path = codes "/var/fusg/db";
}

-- `ERR_CONF`
abbrev pub err_conf : ℤ
err_conf = pos 2

-- what `snprintf` into PATH_MAX = 4096 bytes keeps of a value
abbrev pub stored_path : Bytes → Bytes
stored_path value = take 4095 value

unfoldable pub property : Conf → Bytes → Bytes → ℤ × Conf
property conf name value =
    if equal name (codes "db_path")
    then (success, record conf { db_path = stored_path value })
    else (if equal name (codes "fusgd_log")
        then (success, record conf { fusgd_log = stored_path value })
        else (if equal name (codes "fusgd_trace")
            then (success, record conf { fusgd_trace = stored_path value })
            else (failure, conf)))

-- `parse_line` from the end of the value on
unfoldable pub parse_end : Conf → Bytes → Bytes → Bytes → ℤ × Conf
parse_end conf name value line =
    if line_end (skip_white line) then (failure, conf) else property conf name value

-- `parse_line` from the start of the value on
unfoldable pub parse_value : Conf → Bytes → Bytes → Option (ℤ × Conf)
parse_value conf name line = elim (token (skip_white line)) [
  | none ↦ none
  | some (none, rest) ↦ some (failure, conf)
  | some (some value, rest) ↦ some (parse_end conf name value rest)
]

-- `parse_line` from the end of the name on
unfoldable pub parse_equals : Conf → Bytes → Bytes → Option (ℤ × Conf)
parse_equals conf name line =
    let (equals, rest) = consume 61 (skip_white line) in
    if equals then parse_value conf name rest else some (failure, conf)

-- `!line[0] || line[0] == '#'`
abbrev pub is_blank : Bytes → Bool
is_blank [] = true
is_blank (c ∷ s) = c == 35

-- `none` is a read behind the end of the line
unfoldable pub parse_line : Conf → Bytes → Option (ℤ × Conf)
parse_line conf line =
    let start = skip_white line in
    let statement : Option (ℤ × Conf) = elim (token start) [
      | none ↦ none
      | some (none, rest) ↦ some (failure, conf)
      | some (some name, rest) ↦ parse_equals conf name rest
    ] in
    if is_blank start then some (success, conf) else statement

-- `fgets` with room for `n` characters: what it reads, and the rest of the file
unfoldable pub fgets : ℕ → Bytes → Bytes × Bytes
fgets zero s = ([], s)
fgets (suc n) [] = ([], [])
fgets (suc n) (c ∷ s) =
    let (line, rest) = fgets n s in if c == 10 then (c ∷ [], s) else (c ∷ line, rest)

-- a line as the C string that its buffer holds
unfoldable pub c_string : Bytes → Bytes
c_string [] = []
c_string (c ∷ s) = let rest = c_string s in if c == 0 then [] else c ∷ rest

-- the characters that `fgets` reads into a buffer of 2048
abbrev pub line_size : ℕ
line_size = 2047

-- the loop of `fusg_conf_read`, on fuel
unfoldable pub read_lines : ℕ → Conf → Bytes → Option (ℤ × Conf)
read_lines zero conf [] = some (success, conf)
read_lines zero conf (c ∷ s) = none
read_lines (suc fuel) conf [] = some (success, conf)
read_lines (suc fuel) conf (c ∷ s) =
    let (line, rest) = fgets line_size (c ∷ s) in
    elim (parse_line conf (c_string line)) [
      | none ↦ none
      | some (rc, conf') ↦
          let next = read_lines fuel conf' rest in
          if is_zero rc then next else some (err_conf, conf')
    ]

-- `contents` is the file, or `none` where it cannot be opened. A call of `fgets` takes at least
-- one character, so the length of the file is fuel enough.
unfoldable pub fusg_conf_read : Option Bytes → Option (ℤ × Conf)
fusg_conf_read none = some (err_conf, config_init)
fusg_conf_read (some contents) = read_lines (length contents) config_init contents
