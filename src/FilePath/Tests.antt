-- ===== src/FilePath/Tests.antt =====
-- The cases of sources/fusg-test/src/fugs-test.c on paths, and the theorems at concrete paths.
use fusg.Base.{ℕ, true, false, ◌≡◌, refl, arith, some, [], ◌∷◌, codes, Bytes}
use fusg.FilePath.Absolute.{absolute, null, undefined, fabsolute}
use fusg.FilePath.Components.{enter_all}
use fusg.FilePath.Canonical.{fiscanonical, fiscanonical-is_normal, is_normal}
use fusg.FilePath.Resolve.{normal_form}
use fusg.FilePath.Joined.{components, fabsolute-components, fabsolute-fiscanonical, fabsolute_id}

abbrev path_max : ℕ
path_max = 4096

test_fabsolute :
    (fabsolute path_max (some (codes "/tmp")) (some (codes "test")) ≡ absolute (codes "/tmp/test"))
    × (fabsolute path_max (some (codes "/tmp//")) (some (codes "test//"))
        ≡ absolute (codes "/tmp/test"))
    × (fabsolute path_max (some (codes "/tmp")) (some (codes "test/../")) ≡ absolute (codes "/tmp"))
    × (fabsolute path_max (some (codes "/tmp")) (some (codes "test/driven/.."))
        ≡ absolute (codes "/tmp/test"))
    × (fabsolute path_max (some (codes "/tmp")) (some (codes "..test"))
        ≡ absolute (codes "/tmp/..test"))
    × (fabsolute path_max (some (codes "/...")) (some (codes "...")) ≡ absolute (codes "/.../..."))
    × (fabsolute path_max (some (codes "/")) (some (codes "")) ≡ absolute (codes "/"))
    × (fabsolute path_max (some (codes "/a")) (some (codes "../../b")) ≡ null)
    × (fabsolute path_max (some (codes "")) (some (codes "b")) ≡ undefined)
unfolding fabsolute
test_fabsolute = (refl, refl, refl, refl, refl, refl, refl, refl, refl)

test_iscanonical :
    (fiscanonical (codes "tmp") ≡ false)
    × (fiscanonical (codes "/") ≡ true)
    × (fiscanonical (codes "/tmp/") ≡ false)
    × (fiscanonical (codes "/tmp/..") ≡ false)
    × (fiscanonical (codes "/tmp/...") ≡ true)
    × (fiscanonical (codes "/tmp/.../") ≡ false)
    × (fiscanonical (codes "/tmp/../a") ≡ false)
    × (fiscanonical (codes "/tmp/.../a") ≡ true)
unfolding fiscanonical
test_iscanonical = (refl, refl, refl, refl, refl, refl, refl, refl)

abbrev up : Bytes
up = codes "lib/../bin/./ls"

fabsolute-components_example :
    fabsolute 64 (some (b'/' ∷ codes "usr")) (some up)
    ≡ normal_form (enter_all [] (components (codes "usr") up))
fabsolute-components_example = fabsolute-components 64 (codes "usr") up (omega arith)

fabsolute-fiscanonical_example : fiscanonical (codes "/usr/bin/ls") ≡ true
unfolding fabsolute
fabsolute-fiscanonical_example =
    fabsolute-fiscanonical 64 (codes "usr") up {r = codes "/usr/bin/ls"} (omega arith) refl

fabsolute_id_example :
    fabsolute 64 (some (codes "home")) (some (codes "/usr/bin")) ≡ absolute (codes "/usr/bin")
unfolding fiscanonical
fabsolute_id_example = fabsolute_id 64 (codes "home") (codes "/usr/bin") (omega arith) refl

fiscanonical-is_normal_example : fiscanonical (codes "/usr/bin") ≡ is_normal (codes "usr/bin")
fiscanonical-is_normal_example = fiscanonical-is_normal (codes "/usr/bin")
