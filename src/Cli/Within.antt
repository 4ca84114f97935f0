-- ===== src/Cli/Within.antt =====
-- The index that `read_args` leaves.
use fusg.Base.{
  ℕ, zero, suc, ◌+◌, ◌-◌, ◌≤◌, Bool, true, false, List, [], ◌∷◌, some, Bytes, ℤ, pos, success,
  failure, ltb, leb, length, take_all, drop, ◌≡◌, refl, ap, ◌∙◌, inl, inr, arith, Bool-cases,
}
use fusg.Search.Program.{entries_read}
use fusg.Cli.Args.{
  Command, cmd_help, cmd_vers, cmd_search_files, cmd_search_execs, cmd_dump, conf_default, Args,
  is_help, is_version, is_conf, is_file, is_exec, is_all, search_command, last_option, with_conf,
  each_arg, read_args, num_entries, entries,
}

-- whether a command uses the arguments behind it
abbrev pub is_search : Command → Bool
is_search cmd_search_files = true
is_search cmd_search_execs = true
is_search _ = false

-- the options of the two searches
abbrev pub is_option_of : Command → Bytes → Bool
is_option_of cmd_search_files arg = is_exec arg
is_option_of cmd_search_execs arg = is_file arg
is_option_of _ arg = false

-- `names` is all that follows the option of the command in `args`
abbrev pub IsBehind : Command → List Bytes → List Bytes → Type 0
IsBehind c args names =
    (n : ℕ) × (opt : Bytes) × (drop n args ≡ opt ∷ names) × (is_option_of c opt ≡ true)

-- The index is inside of `argv`, or one behind its end; that of a search is behind its option.
record IsWithin (args : List Bytes) (argc : ℕ) (a : Args) : Type 0 where
  bound : a.index ≤ argc + 1
  inside : is_search a.command ≡ true → a.index ≤ argc
  first : 1 ≤ a.index
  behind : is_search a.command ≡ true → IsBehind a.command args (entries args a.index)

drop-next :
    (n : ℕ) (xs : List Bytes) (y : Bytes) (ys : List Bytes)
    → drop n xs ≡ y ∷ ys
    → drop (suc n) xs ≡ ys
drop-next zero [] y ys e = ground (arith, e)
drop-next (suc n) [] y ys e = ground (arith, e)
drop-next zero (x ∷ xs) y ys e = ground (arith, e)
drop-next (suc n) (x ∷ xs) y ys e = drop-next n xs y ys e

-- the argument at the index of `a`, and what follows it
abbrev IsAt : List Bytes → Args → List Bytes → Type 0
IsAt args a rest = (1 ≤ a.index) × (drop (a.index - 1) args ≡ rest)

IsAt-IsBehind :
    (args : List Bytes) (c : Command) (a : Args) (arg : Bytes) (rest : List Bytes)
    → IsAt args a (arg ∷ rest)
    → is_option_of c arg ≡ true
    → IsBehind c args (entries args (a.index + 1))
IsAt-IsBehind args c a arg rest (h, e) o =
    let i : a.index + 1 - 1 ≡ suc (a.index - 1) = omega (arith, h) in
    let names : entries args (a.index + 1) ≡ rest =
      ap (λ n. drop n args) i ∙ drop-next (a.index - 1) args arg rest e in
    (a.index - 1, arg, rw names e, o)

module _ (args : List Bytes) (argc : ℕ) where
  search_command-IsWithin :
      (c : Command) (a : Args)
      → 1 ≤ a.index
      → a.index + 1 ≤ argc
      → IsBehind c args (entries args (a.index + 1))
      → IsWithin args argc (search_command argc c a)
  search_command-IsWithin c a h le b = elim (Bool-cases (ltb argc 3)) [
    | inl e ↦
        rw e
          (record { bound = omega (arith, le); inside = λ s. cc s; first = h; behind = λ s. cc s })
    | inr e ↦ rw e (record {
      bound = omega (arith, le);
      inside = λ s. omega (arith, le);
      first = omega (arith, h);
      behind = λ s. b;
    })
  ]

  last_option-IsWithin :
      (arg : Bytes) (rest : List Bytes) (a : Args)
      → IsAt args a (arg ∷ rest)
      → a.index + 1 ≤ argc
      → IsWithin args argc (last_option argc arg a)
  last_option-IsWithin arg rest a h le = elim (Bool-cases (is_help arg)) [
    | inl e ↦ rw e (at_rest cmd_help refl success)
    | inr e ↦ rw e (elim (Bool-cases (is_version arg)) [
      | inl e ↦ rw e (at_rest cmd_vers refl success)
      | inr e ↦ rw e (elim (Bool-cases (is_file arg)) [
        | inl e ↦ rw e (option cmd_search_execs e)
        | inr e ↦ rw e (elim (Bool-cases (is_exec arg)) [
          | inl e ↦ rw e (option cmd_search_files e)
          | inr e ↦ rw e (elim (Bool-cases (is_all arg)) [
            | inl e ↦ rw e (at_rest cmd_dump refl success)
            | inr e ↦ rw e (at_rest cmd_help refl failure)
          ])
        ])
      ])
    ])
  ]
    where
      option :
          (c : Command) → is_option_of c arg ≡ true → IsWithin args argc (search_command argc c a)
      option c o = search_command-IsWithin c a h.0 le (IsAt-IsBehind args c a arg rest h o)

      at_rest :
          (c : Command)
          → is_search c ≡ false
          → (rc : ℤ) → IsWithin args argc (record a { command = c; rc = rc })
      at_rest c off rc = record {
        bound = omega (arith, le);
        inside = λ s. cc (s, off);
        first = h.0;
        behind = λ s. absurd (cc (s, off));
      }

  each_arg-IsWithin :
      (rest : List Bytes) (a : Args)
      → IsAt args a rest
      → a.index + length rest ≡ argc
      → is_search a.command ≡ false
      → IsWithin args argc (each_arg argc rest a)
  unfolding each_arg
  each_arg-IsWithin [] a h le off = record {
    bound = omega arith;
    inside = λ s. omega arith;
    first = h.0;
    behind = λ s. absurd (cc (s, off));
  }
  each_arg-IsWithin (arg ∷ []) a h le off = elim (Bool-cases (is_conf arg)) [
    | inl e ↦ rw e (record {
      bound = omega (arith, le);
      inside = λ s. cc (s, off);
      first = omega (arith, h.0);
      behind = λ s. absurd (cc (s, off));
    })
    | inr e ↦ rw e (last_option-IsWithin arg [] a h (omega (arith, le)))
  ]
  each_arg-IsWithin (arg ∷ next ∷ rest) a h le off = elim (Bool-cases (is_conf arg)) [
    | inl e ↦
        let second = drop-next (a.index - 1) args arg (next ∷ rest) h.1 in
        let third = drop-next (suc (a.index - 1)) args next rest second in
        let i : a.index + 2 - 1 ≡ suc (suc (a.index - 1)) = omega (arith, h.0) in
        rw e (
          each_arg-IsWithin rest (with_conf next a)
            (omega (arith, h.0), ap (λ n. drop n args) i ∙ third) (omega (arith, le)) off)
    | inr e ↦ rw e (last_option-IsWithin arg (next ∷ rest) a h (omega (arith, le)))
  ]

length-drop : (n : ℕ) (xs : List Bytes) → length (drop n xs) ≡ length xs - n
length-drop zero xs = omega arith
length-drop (suc n) [] = omega arith
length-drop (suc n) (x ∷ xs) = omega (arith, length-drop n xs)

-- as many strings as there are
entries_read_all : (xs : List Bytes) → entries_read (pos (length xs)) xs ≡ some xs
entries_read_all xs =
    let e : leb (length xs) (length xs) ≡ true = ground arith in
    rw e (ap some (take_all (length xs) xs (omega arith)))

-- Whatever the arguments: where they select a search, one of them is the option of that search, and
-- the search reads exactly the arguments behind it, to the last one. The index is not behind the
-- end of `argv`.
pub read_args-entries_read :
    (args : List Bytes)
    → is_search (read_args args).command ≡ true
    → ((read_args args).index ≤ length args + 1)
      × IsBehind (read_args args).command args (entries args (read_args args).index)
      × (entries_read
            (num_entries (length args + 1) (read_args args).index)
            (entries args (read_args args).index)
          ≡ some (entries args (read_args args).index))
unfolding read_args
read_args-entries_read args h =
    let w =
      each_arg-IsWithin args (length args + 1) args
        (record { command = cmd_help; conf_file = conf_default; rc = failure; index = 1 })
        (omega arith, refl) (omega arith) refl in
    let i = (read_args args).index in
    let le : i ≤ length args + 1 = w.inside h in
    let fits : leb i (length args + 1) ≡ true = ground (arith, le) in
    let n : length args + 1 - i ≡ length (drop (i - 1) args) =
      omega (arith, w.first, le, length-drop (i - 1) args) in
    (le, w.behind h, rw fits (rw n (entries_read_all (drop (i - 1) args))))
