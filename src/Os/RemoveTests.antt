-- ===== src/Os/RemoveTests.antt =====
-- Removals on a file system in memory.
use fusg.Base.{
  Bool, true, false, ◌&&◌, List, [], ◌∷◌, ◌++◌, Option, none, some, Bytes, codes, equal, length,
  length-take-le, take, drop, if◌then◌else◌, ◌==◌, ◌≡◌, refl, arith,
}
use fusg.Os.Files.{FileError, not_empty, listed, Files}
use fusg.Os.Remove.{Walk, fremove_r, db_delete}
use fusg.Os.Deleted.{HasFew, Deletes, db_delete-Deletes}
use fusg.Os.Cleared.{Clears, at_once, behind, end, next, Returns, fremove_r-Returns}

abbrev is_prefix : Bytes → Bytes → Bool
is_prefix [] q = true
is_prefix (c ∷ s) [] = false
is_prefix (c ∷ s) (d ∷ q) = c == d && is_prefix s q

-- the entries of a directory in a list of paths
abbrev children : Bytes → List Bytes → List Bytes
children dir [] = []
children dir (q ∷ qs) =
    let rest = children dir qs in if is_prefix dir q then drop (length dir) q ∷ rest else rest

abbrev without : Bytes → List Bytes → List Bytes
without path [] = []
without path (q ∷ qs) = let rest = without path qs in if equal path q then rest else q ∷ rest

abbrev answer : List Bytes → Bytes → List Bytes → Option FileError × List Bytes
answer [] path s = (none, without path s)
answer (name ∷ names) path s = (some not_empty, s)

-- a file system is the list of its paths; a directory shows eight entries at most
abbrev small : Files (List Bytes)
small = record {
  remove = λ s path. answer (children (path ++ (b'/' ∷ [])) s) path s;
  entries =
      λ s path. listed (codes "." ∷ codes ".." ∷ take 8 (children (path ++ (b'/' ∷ [])) s)) none;
  malloc = λ s n. true;
  realloc = λ s n. true;
}

small-HasFew : HasFew small
small-HasFew s path names e h =
    rw (sym_names names e h) (omega (arith, length-take-le 8 (children (path ++ (b'/' ∷ [])) s)))
  where
    sym_names :
        (names : List Bytes) (e : Option FileError)
        → small.entries s path ≡ listed names e
        → names ≡ codes "." ∷ codes ".." ∷ take 8 (children (path ++ (b'/' ∷ [])) s)
    sym_names names e h = cc h

abbrev place : Bytes
place = codes "/d"

abbrev tree : List Bytes
tree = place ∷ codes "/d/a" ∷ codes "/d/b" ∷ codes "/e" ∷ []

abbrev start : Walk (List Bytes)
start = record { files = tree; errno = none; removals = []; open_dirs = 0 }

db_delete-Deletes_example : Deletes place start (db_delete small 4096 (some place) start)
db_delete-Deletes_example = db_delete-Deletes small (λ s n. refl) small-HasFew 4096 place start

tree-Clears : Clears small 4096 tree place (codes "/e" ∷ [])
unfolding equal
tree-Clears =
    behind (codes "." ∷ codes ".." ∷ codes "a" ∷ codes "b" ∷ []) refl refl (omega arith) refl
      (next (omega arith) (at_once refl) (next (omega arith) (at_once refl) end)) refl

fremove_r-Returns_example : Returns (codes "/e" ∷ []) (fremove_r small 4096 4096 place start)
fremove_r-Returns_example =
    fremove_r-Returns small (λ s n. refl) 4096 tree (codes "/e" ∷ []) place 4096 start tree-Clears
      refl (omega arith) (omega arith)
