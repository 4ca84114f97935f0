-- ===== src/Conf/Printed.antt =====
-- Lines of the form `name = "value"`.
use fusg.Base.{
  ℕ, Bool, true, false, codes, take, if◌then◌else◌, [], ◌∷◌, ◌++◌, some, Bytes, failure, ◌==◌, ◌≡◌,
  refl, ap, ◌∙◌, arith, All,
}
use fusg.Conf.Tokens.{is_space, is_quote, skip_white, token_string, split_word, token}
use fusg.Conf.Lines.{Conf, parse_end, parse_value, parse_equals, parse_line, is_blank}
use fusg.Conf.Scan.{IsClean, scan_string-open}

-- a name that `token` takes as a word: no spaces, and no quote or comment at its start
abbrev pub IsWord : Bytes → Type 0
IsWord s = All (λ c. (is_space c) ≡ false) s

abbrev pub IsName : Bytes → Type 0
IsName [] = ⊥
IsName (c ∷ s) = ((c == 35) ≡ false) × (is_quote c ≡ false) × IsWord (c ∷ s)

split_word-space :
    (word rest : Bytes) → IsWord word → split_word (word ++ (32 ∷ rest)) ≡ (word, 32 ∷ rest)
unfolding split_word
split_word-space [] rest h = refl
split_word-space (c ∷ s) rest h = ground (arith, h, split_word-space s rest h.1)

-- a line with `tail` behind the delimiter of the value
abbrev pub assignment : Bytes → ℕ → Bytes → Bytes
assignment name del tail = name ++ (32 ∷ 61 ∷ 32 ∷ del ∷ tail)

skip_white-solid : (c : ℕ) (s : Bytes) → is_space c ≡ false → skip_white (c ∷ s) ≡ c ∷ s
unfolding skip_white
skip_white-solid c s h = rw h

token-name :
    (name rest : Bytes) → IsName name → token (name ++ (32 ∷ rest)) ≡ some (some name, rest)
unfolding token
token-name [] rest h = absurd h
token-name (c ∷ s) rest h =
    let (_, quote, word) = h in rw (split_word-space (c ∷ s) rest word, quote, word.0) refl

start-name : (name rest : Bytes) → IsName name → skip_white (name ++ rest) ≡ name ++ rest
start-name [] rest h = absurd h
start-name (c ∷ s) rest h = let (_, _, word) = h in skip_white-solid c (s ++ rest) word.0

blank-name : (name rest : Bytes) → IsName name → is_blank (name ++ rest) ≡ false
blank-name [] rest h = absurd h
blank-name (c ∷ s) rest h = h.0

quote-solid : (del : ℕ) → is_quote del ≡ true → is_space del ≡ false
quote-solid del h = ground arith

-- the three properties, with their names and their fields
pub data Key : Type 0 where
  log_file trace_file database : Key

abbrev pub key_name : Key → Bytes
key_name log_file = codes "fusgd_log"
key_name trace_file = codes "fusgd_trace"
key_name database = codes "db_path"

abbrev pub setting : Key → Conf → Bytes
setting log_file conf = conf.fusgd_log
setting trace_file conf = conf.fusgd_trace
setting database conf = conf.db_path

abbrev pub is_key : Key → Key → Bool
is_key log_file log_file = true
is_key trace_file trace_file = true
is_key database database = true
is_key _ _ = false

-- `conf'` has what fits the field of the value under `k`, and is `conf` under the other names.
abbrev pub HasValue : Key → Bytes → Conf → Conf → Type 0
HasValue k value conf conf' =
    (j : Key) → setting j conf' ≡ (if is_key k j then take 4095 value else setting j conf)

module _ (conf : Conf) (name : Bytes) (del : ℕ) (is_name : IsName name)
    (quote : is_quote del ≡ true) where
  -- the line up to the value
  parse_line-value :
      (tail : Bytes)
      → parse_line conf (assignment name del tail) ≡ parse_value conf name (32 ∷ del ∷ tail)
  unfolding parse_line parse_equals skip_white
  parse_line-value tail =
      rw
        (
          start-name name (32 ∷ 61 ∷ 32 ∷ del ∷ tail) is_name,
          blank-name name (32 ∷ 61 ∷ 32 ∷ del ∷ tail) is_name,
          token-name name (61 ∷ 32 ∷ del ∷ tail) is_name,
        )
        refl

  value_start : (tail : Bytes) → token (skip_white (32 ∷ del ∷ tail)) ≡ token_string del tail
  unfolding token skip_white
  value_start tail = rw (quote-solid del quote, quote) refl

  unclosed :
      (value : Bytes)
      → IsClean del value
      → token (skip_white (32 ∷ del ∷ value)) ≡ some (some value, del ∷ value)
  unfolding token_string
  unclosed value clean =
      value_start value ∙ rw (scan_string-open del value clean, token_string) refl

  value_parsed :
      (value : Bytes) (rest line : Bytes)
      → token (skip_white line) ≡ some (some value, rest)
      → parse_value conf name line ≡ some (parse_end conf name value rest)
  unfolding parse_value
  value_parsed value rest line e = rw (e, parse_value) refl

  refused : (value : Bytes) → parse_end conf name value (del ∷ value) ≡ (failure, conf)
  refused value =
      let start = skip_white-solid del value (quote-solid del quote) in
      unfold parse_end in rw start (ground (arith, quote))

  -- Without the closing quote the line is refused.
  pub parse_line-unterminated :
      (value : Bytes)
      → IsClean del value
      → parse_line conf (assignment name del value) ≡ some (failure, conf)
  parse_line-unterminated value clean =
      parse_line-value value
      ∙ value_parsed value (del ∷ value) (32 ∷ del ∷ value) (unclosed value clean)
      ∙ ap some (refused value)
