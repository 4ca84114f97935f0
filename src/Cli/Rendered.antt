-- ===== src/Cli/Rendered.antt =====
-- A command line that asks for a search, and what the tool makes of it.
use fusg.Base.{
  ℕ, zero, suc, ◌+◌, ◌-◌, ◌*◌, ◌≤◌, true, false, List, [], ◌∷◌, Option, Bytes, codes, equal, pos,
  success, failure, ltb, leb, length, drop, ◌≡◌, refl, ap, ◌∙◌, arith,
}
use fusg.Search.Program.{World, search_files, search_execs}
use fusg.Cli.Args.{
  Command, cmd_help, cmd_search_files, cmd_search_execs, Args, conf_default, with_conf, each_arg,
  read_args, num_entries,
}
use fusg.Cli.Main.{Done, searched, do_command, main}

-- a short or a long option
pub data Spelling : Type 0 where
  short long : Spelling

-- which search
pub data Query : Type 0 where
  files_of execs_of : Query

abbrev pub conf_word : Spelling → Bytes
conf_word short = codes "-c"
conf_word long = codes "--conf"

abbrev pub query_word : Query → Spelling → Bytes
query_word files_of short = codes "-e"
query_word files_of long = codes "--exec"
query_word execs_of short = codes "-f"
query_word execs_of long = codes "--file"

-- the options for configurations, and what follows them
abbrev pub conf_words : List (Spelling × Bytes) → List Bytes → List Bytes
conf_words [] rest = rest
conf_words ((s, conf) ∷ confs) rest = conf_word s ∷ conf ∷ conf_words confs rest

-- the last one counts
abbrev pub last_conf : Bytes → List (Spelling × Bytes) → Bytes
last_conf conf [] = conf
last_conf conf ((s, conf') ∷ confs) = last_conf conf' confs

abbrev pub command_line : List (Spelling × Bytes) → Query → Spelling → List Bytes → List Bytes
command_line confs q s names = conf_words confs (query_word q s ∷ names)

abbrev command_of : Query → Command
command_of files_of = cmd_search_files
command_of execs_of = cmd_search_execs

abbrev chosen : Query → Args → Args
chosen q a = record a { command = command_of q; rc = success; index = a.index + 1 }

each_arg-query :
    (argc : ℕ) (q : Query) (s : Spelling) (names : List Bytes) (a : Args)
    → ltb argc 3 ≡ false
    → each_arg argc (query_word q s ∷ names) a ≡ chosen q a
unfolding each_arg equal
each_arg-query argc files_of short [] a h = rw h refl
each_arg-query argc files_of short (n ∷ names) a h = rw h refl
each_arg-query argc files_of long [] a h = rw h refl
each_arg-query argc files_of long (n ∷ names) a h = rw h refl
each_arg-query argc execs_of short [] a h = rw h refl
each_arg-query argc execs_of short (n ∷ names) a h = rw h refl
each_arg-query argc execs_of long [] a h = rw h refl
each_arg-query argc execs_of long (n ∷ names) a h = rw h refl

abbrev after_confs : List (Spelling × Bytes) → Args → Args
after_confs [] a = a
after_confs ((s, conf) ∷ confs) a = after_confs confs (with_conf conf a)

each_arg-command_line :
    (argc : ℕ) (confs : List (Spelling × Bytes)) (q : Query) (s : Spelling) (names : List Bytes)
    (a : Args)
    → ltb argc 3 ≡ false
    → each_arg argc (command_line confs q s names) a ≡ chosen q (after_confs confs a)
unfolding each_arg equal
each_arg-command_line argc [] q s names a h = each_arg-query argc q s names a h
each_arg-command_line argc ((short, conf) ∷ confs) q s names a h =
    each_arg-command_line argc confs q s names (with_conf conf a) h
each_arg-command_line argc ((long, conf) ∷ confs) q s names a h =
    each_arg-command_line argc confs q s names (with_conf conf a) h

conf_file-last_conf :
    (confs : List (Spelling × Bytes)) (a : Args)
    → (after_confs confs a).conf_file ≡ last_conf a.conf_file confs
conf_file-last_conf [] a = refl
conf_file-last_conf ((s, conf) ∷ confs) a = conf_file-last_conf confs (with_conf conf a)

index-after_confs :
    (confs : List (Spelling × Bytes)) (a : Args)
    → (after_confs confs a).index ≡ a.index + 2 * length confs
index-after_confs [] a = omega arith
index-after_confs ((s, conf) ∷ confs) a = omega (arith, index-after_confs confs (with_conf conf a))

length-conf_words :
    (confs : List (Spelling × Bytes)) (rest : List Bytes)
    → length (conf_words confs rest) ≡ 2 * length confs + length rest
length-conf_words [] rest = omega arith
length-conf_words ((s, conf) ∷ confs) rest = omega (arith, length-conf_words confs rest)

drop-command_line :
    (confs : List (Spelling × Bytes)) (n : ℕ) (word : Bytes) (names : List Bytes)
    → n ≡ 2 * length confs + 1
    → drop n (conf_words confs (word ∷ names)) ≡ names
drop-command_line [] zero word names h = absurd (omega (arith, h))
drop-command_line [] (suc zero) word names h = refl
drop-command_line [] (suc (suc n)) word names h = absurd (omega (arith, h))
drop-command_line ((s, conf) ∷ confs) zero word names h = absurd (omega (arith, h))
drop-command_line ((s, conf) ∷ confs) (suc zero) word names h = absurd (omega (arith, h))
drop-command_line ((s, conf) ∷ confs) (suc (suc n)) word names h =
    drop-command_line confs n word names (omega (arith, h))

num_entries-length : (argc i n : ℕ) → argc ≡ i + n → num_entries argc i ≡ pos n
num_entries-length argc i n h =
    let le : leb i argc ≡ true = ground (arith, h) in
    let d : argc - i ≡ n = omega (arith, h) in rw le (ap pos d)

-- the arguments of the search
abbrev pub requested : {F : Type 0} → World F → Query → Bytes → List Bytes → Option Done
requested w files_of conf names = searched (search_files w conf (pos (length names)) names)
requested w execs_of conf names = searched (search_execs w conf (pos (length names)) names)

module _ {F : Type 0} (w : World F) where
  do_command-requested :
      (q : Query) (a : Args) (names : List Bytes)
      → do_command w (chosen q a) (pos (length names)) names ≡ requested w q a.conf_file names
  unfolding do_command
  do_command-requested files_of a names = refl
  do_command-requested execs_of a names = refl

  -- Options for any number of configurations, an option for a search, short or long, and at least one
  -- name after it: the tool runs that search with the configuration that was named last, or the default
  -- one where none is named, on exactly these names in their order, and the result is
  -- the one of the search.
  pub main-requested :
      (confs : List (Spelling × Bytes)) (q : Query) (s : Spelling) (names : List Bytes)
      → 1 ≤ length names
      → main w (command_line confs q s names) ≡ requested w q (last_conf conf_default confs) names
  unfolding main read_args
  main-requested confs q s names h =
      let line = command_line confs q s names in
      let start : Args = record {
        command = cmd_help;
        conf_file = conf_default;
        rc = failure;
        index = 1;
      } in
      let a = after_confs confs start in
      let n = length-conf_words confs (query_word q s ∷ names) in
      let three : ltb (length line + 1) 3 ≡ false = ground (arith, n, h) in
      let i = index-after_confs confs start in
      let num : num_entries (length line + 1) (a.index + 1) ≡ pos (length names) =
        num_entries-length (length line + 1) (a.index + 1) (length names) (omega (arith, n, i)) in
      let rest : drop (a.index + 1 - 1) line ≡ names =
        drop-command_line confs (a.index + 1 - 1) (query_word q s) names (omega (arith, i)) in
      rw (each_arg-command_line (length line + 1) confs q s names start three) (
        rw (num, rest)
          (do_command-requested q a names
            ∙ ap (λ c. requested w q c names) (conf_file-last_conf confs start)))
