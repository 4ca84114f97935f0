-- ===== src/Os/Tests.antt =====
-- Runs of the functions on the file system.
use fusg.Base.{
  map, ◌++◌, List, [], ◌∷◌, some, Bytes, codes, equal, ℤ, success, All, ◌≡◌, refl, arith,
}
use fusg.Os.Coredump.{IsTerminated, system_coredump_pattern, coredump_pattern-IsTerminated}
use fusg.Os.Mkdir.{made, mkdir_p, IsAncestor, IsCalled, mkdir_p-IsAncestor, mkdir_p-IsCalled}
use fusg.Os.Which.{fwhich, first_named, directories, fwhich-first_in}

coredump_pattern-IsTerminated_example :
    IsTerminated 4
      (99 ∷ 111 ∷ 114 ∷ 10 ∷ [])
      (system_coredump_pattern 4 (some (99 ∷ 111 ∷ 114 ∷ 10 ∷ [])))
coredump_pattern-IsTerminated_example =
    coredump_pattern-IsTerminated 4 (99 ∷ 111 ∷ 114 ∷ 10 ∷ []) (omega arith) (omega arith)

mkdir_p-IsAncestor_example :
    (r : ℤ × List Bytes) × (mkdir_p (λ q. made) (codes "/a/b/") ≡ some r)
    × All (IsAncestor (codes "/a/b")) r.1
mkdir_p-IsAncestor_example = mkdir_p-IsAncestor (λ q. made) (codes "/a/b/") b'/' (codes "a/b") refl

mkdir_p-IsCalled_example :
    (calls : List Bytes) × (mkdir_p (λ q. made) (codes "/a/b/") ≡ some (success, calls))
    × IsCalled (codes "/a") calls
mkdir_p-IsCalled_example =
    mkdir_p-IsCalled (λ q. made) (λ q. refl) (codes "/a/b/") b'/' (codes "a/b") refl (codes "a")
      (codes "b") refl

fwhich-first_in_example :
    fwhich (equal (codes "/b/ls")) 4096 (codes "ls") (some (codes "/a::/b:"))
    ≡ first_named
        (equal (codes "/b/ls"))
        (map (λ dir. dir ++ (b'/' ∷ codes "ls")) (directories (codes "/a::/b:")))
fwhich-first_in_example =
    fwhich-first_in (equal (codes "/b/ls")) 4096 108 (codes "s") (codes "/a::/b:")
      (omega arith, (omega arith, (omega arith, tt)))
