-- ===== src/Os/Deleted.antt =====
-- `fremove_r` of sources/fusg-common/include/fusg/utils.h and `db_delete` of db.c as a whole, on any file
-- system.
use fusg.Base.{
  ℕ, zero, suc, ◌+◌, ◌-◌, ◌≤◌, ◌<◌, true, false, ◌&&◌, List, [], Option, none, some, Bytes, ℤ,
  success, failure, is_zero, is_minus_one, length, if◌then◌else◌, ◌≡◌, ◌≢◌, refl, ap, ◌∙◌, ◌⊎◌, inl,
  inr, arith, All, Bool-cases,
}
use fusg.Os.Files.{FileError, no_entry, not_empty, other_error, Listing, unopened, listed, Files}
use fusg.Os.Remove.{
  Walk, Walked, went, undefined, exhausted, W, cap_limit, is_not_empty, call_remove, gather,
  remove_each, remove_files, remove_dir, walk_listing, descend, fremove_r, forgive, db_delete,
}
use fusg.Os.Removed.{
  Extends, Extends-refl, Extends-trans, IsName, IsLeft, Leaves, call_remove-Leaves, Gathers,
  gather-Gathers, Keeps, remove_each-Keeps, last_call,
}

not_zero : {rc : ℤ} → is_zero rc ≡ false → (rc ≡ success) ⊎ (rc ≡ failure) → rc ≡ failure
not_zero z (inl e) = cc (rw e at z)
not_zero z (inr e) = e

module _ {S : Type 0} where
  Leaves-then :
      (path : Bytes) (w w1 : Walk S) (x : Walked S ℤ)
      → Extends path w.removals w1.removals
      → w1.open_dirs ≡ w.open_dirs
      → Leaves path w1 x
      → Leaves path w x
  Leaves-then path w w1 undefined e o h = h
  Leaves-then path w w1 exhausted e o h = h
  Leaves-then path w w1 (went rc w2) e o h = record {
    extends = Extends-trans path e h.extends;
    open_dirs = h.open_dirs ∙ o;
    code = h.code;
  }

  failed-IsLeft :
      (path : Bytes) (w : Walk S) (e : Option FileError)
      → IsLeft path w failure (record w { errno = e })
  failed-IsLeft path w e = record {
    extends = Extends-refl path w.removals;
    open_dirs = refl;
    code = inr refl;
  }

-- `rec` is sound on longer paths that fit the buffer
abbrev IsRecursion : {S : Type 0} → ℕ → Bytes → (Bytes → W S ℤ) → Type 0
IsRecursion {S} path_max path rec =
    (q : Bytes) (w : Walk S) → length path < length q → length q ≤ path_max → Leaves q w (rec q w)

module _ {S : Type 0} (fs : Files S) (memory : (s : S) (n : ℕ) → fs.realloc s n ≡ true)
    (path_max : ℕ) where
  remove_files-Leaves :
      (rec : Bytes → W S ℤ) (path : Bytes) (stopped : Option FileError) (files : List Bytes)
      (w : Walk S)
      → IsRecursion path_max path rec
      → All IsName files
      → Leaves path w (remove_files fs path_max rec path stopped files w)
  unfolding remove_files
  remove_files-Leaves rec path (some e) files w r h = failed-IsLeft path w w.errno
  remove_files-Leaves rec path none files w r h =
      go (remove_each path_max rec path files w) (remove_each-Keeps path_max rec path files w r h)
    where
      go :
          (x : Walked S ℤ)
          → Keeps path w x
          → Leaves path w (elim x [
            | went rc w' ↦ (if is_zero rc then call_remove fs path else (λ v. went rc v)) w'
            | undefined ↦ undefined
            | exhausted ↦ exhausted
          ])
      go undefined k = k
      go exhausted k = k
      go (went rc w') k = elim (Bool-cases (is_zero rc)) [
        | inl z ↦
            rw z (Leaves-then path w w' _ k.extends k.open_dirs (call_remove-Leaves fs path w'))
        | inr z ↦ rw z (record {
          extends = k.extends;
          open_dirs = k.open_dirs;
          code = inr (not_zero z k.code);
        })
      ]

  remove_dir-Leaves :
      (rec : Bytes → W S ℤ) (path : Bytes) (names : List Bytes) (stopped : Option FileError)
      (w : Walk S)
      → IsRecursion path_max path rec
      → length names ≤ cap_limit
      → Leaves path w (remove_dir fs path_max rec path names stopped w)
  unfolding remove_dir
  remove_dir-Leaves rec path names stopped w r few = elim (Bool-cases (fs.malloc w.files 2)) [
    | inr e ↦ rw e (failed-IsLeft path w (some other_error))
    | inl e ↦ rw e (
        go (gather fs names 0 2 [] (record w { errno = none })) (
          gather-Gathers fs memory names 0 2 [] (record w { errno = none }) (omega arith)
            (omega arith) (omega arith) tt))
  ]
    where
      go :
          (x : Walked S (List Bytes))
          → Gathers (record w { errno = none }) x
          → Leaves path w (elim x [
            | went files w' ↦
                remove_files fs path_max rec path stopped files (record w' { errno = stopped })
            | undefined ↦ undefined
            | exhausted ↦ exhausted
          ])
      go undefined k = k
      go exhausted k = k
      go (went files w') (e, h) =
          Leaves-then path w (record w' { errno = stopped }) _ (rw e (Extends-refl path w.removals))
            (ap (λ v. v.open_dirs) e)
            (remove_files-Leaves rec path stopped files (record w' { errno = stopped }) r h)

  walk_listing-Leaves :
      (rec : Bytes → W S ℤ) (path : Bytes) (l : Listing) (w : Walk S)
      → IsRecursion path_max path rec
      → ((names : List Bytes) (e : Option FileError)
          → l ≡ listed names e
          → length names ≤ cap_limit)
      → Leaves path w (walk_listing fs path_max rec path l w)
  walk_listing-Leaves rec path (unopened e) w r few = failed-IsLeft path w (some e)
  walk_listing-Leaves rec path (listed names stopped) w r few =
      go (remove_dir fs path_max rec path names stopped (record w { open_dirs = w.open_dirs + 1 }))
        (remove_dir-Leaves rec path names stopped (record w { open_dirs = w.open_dirs + 1 }) r
          (few names stopped refl))
    where
      go :
          (x : Walked S ℤ)
          → Leaves path (record w { open_dirs = w.open_dirs + 1 }) x
          → Leaves path w (elim x [
            | went rc w' ↦ went rc (record w' { open_dirs = w'.open_dirs - 1 })
            | undefined ↦ undefined
            | exhausted ↦ exhausted
          ])
      go undefined k = k
      go exhausted k = k
      go (went rc w') k = record {
        extends = k.extends;
        open_dirs = omega (arith, k.open_dirs);
        code = k.code;
      }

-- no directory has so many entries that the capacity of the list overflows
abbrev pub HasFew : {S : Type 0} → Files S → Type 0
HasFew {S} fs =
    (s : S) (path : Bytes) (names : List Bytes) (e : Option FileError)
    → fs.entries s path ≡ listed names e
    → length names ≤ cap_limit

-- Where `db_delete` returns: the code is 0 where the path was removed in the end, or the last error was
-- ENOENT, and else -1.
abbrev pub IsForgiven : ℤ → Option FileError → Bytes → List (Bytes × Option FileError) → Type 0
IsForgiven rc errno path removals =
    (rc ≡ success) × ((last_call removals ≡ some (path, none)) ⊎ (errno ≡ some no_entry))
    ⊎ (rc ≡ failure) × (errno ≢ some no_entry)

pub record IsDeleted {S : Type 0} (path : Bytes) (w : Walk S) (rc : ℤ) (w' : Walk S) : Type 0 where
  pub extends : Extends path w.removals w'.removals
  pub open_dirs : w'.open_dirs ≡ w.open_dirs
  pub code : IsForgiven rc w'.errno path w'.removals

abbrev pub Deletes : {S : Type 0} → Bytes → Walk S → Walked S ℤ → Type 0
Deletes path w undefined = ⊥
Deletes path w exhausted = ⊥
Deletes path w (went rc w') = IsDeleted path w rc w'

forgive-IsForgiven :
    (errno : Option FileError) (path : Bytes) (removals : List (Bytes × Option FileError))
    → IsForgiven (forgive failure errno) errno path removals
forgive-IsForgiven none path removals = inr (refl, λ e. cc e)
forgive-IsForgiven (some no_entry) path removals = inl (refl, inr refl)
forgive-IsForgiven (some not_empty) path removals = inr (refl, λ e. cc e)
forgive-IsForgiven (some other_error) path removals = inr (refl, λ e. cc e)

code-IsForgiven :
    (rc : ℤ) (errno : Option FileError) (path : Bytes) (removals : List (Bytes × Option FileError))
    → (rc ≡ success) × (last_call removals ≡ some (path, none)) ⊎ (rc ≡ failure)
    → IsForgiven (if is_zero rc then rc else forgive rc errno) errno path removals
code-IsForgiven rc errno path removals (inl (e, l)) = rw e (inl (refl, inl l))
code-IsForgiven rc errno path removals (inr e) = rw e (forgive-IsForgiven errno path removals)

module _ {S : Type 0} (fs : Files S) (memory : (s : S) (n : ℕ) → fs.realloc s n ≡ true)
    (few : HasFew fs) (path_max : ℕ) where
  -- Fuel above the room that is left in the buffer is enough.
  pub fremove_r-Leaves :
      (fuel : ℕ) (path : Bytes) (w : Walk S)
      → path_max < fuel + length path
      → 1 ≤ fuel
      → Leaves path w (fremove_r fs path_max fuel path w)
  unfolding fremove_r descend
  fremove_r-Leaves zero path w room one = absurd (omega arith)
  fremove_r-Leaves (suc fuel) path w room one =
      go (call_remove fs path w) (call_remove-Leaves fs path w)
        (λ q w1 longer fits. fremove_r-Leaves fuel q w1 (omega arith) (omega arith))
    where
      go :
          (x : Walked S ℤ)
          → Leaves path w x
          → IsRecursion path_max path (fremove_r fs path_max fuel)
          → Leaves path w (elim x [
            | went rc w' ↦ descend fs path_max (fremove_r fs path_max fuel) path rc w'
            | undefined ↦ undefined
            | exhausted ↦ exhausted
          ])
      go undefined k r = k
      go exhausted k r = k
      go (went rc w') k r = elim (Bool-cases (is_minus_one rc && is_not_empty w'.errno)) [
        | inr e ↦ rw e k
        | inl e ↦ rw e (
            Leaves-then path w w' _ k.extends k.open_dirs (
              walk_listing-Leaves fs memory path_max (fremove_r fs path_max fuel) path
                (fs.entries w'.files path) w' r (few w'.files path)))
      ]

  -- Whatever the file system answers, if realloc(3) does not fail and no directory has more than 2 ^ 30
  -- entries: `db_delete` returns. It asks to remove no path but the one of the database and those that
  -- are reached from it by names other than '.' and '..', and closes each directory that it opened. The
  -- code is 0 where the path of the database was removed in the last call of remove(3), or the last
  -- error was ENOENT; else it is -1.
  pub db_delete-Deletes :
      (dbpath : Bytes) (w : Walk S) → Deletes dbpath w (db_delete fs path_max (some dbpath) w)
  unfolding db_delete
  db_delete-Deletes dbpath w =
      go (fremove_r fs path_max (path_max + 1) dbpath w)
        (fremove_r-Leaves (path_max + 1) dbpath w (omega arith) (omega arith))
    where
      go :
          (x : Walked S ℤ)
          → Leaves dbpath w x
          → Deletes dbpath w (elim x [
            | went rc w' ↦ went (if is_zero rc then rc else forgive rc w'.errno) w'
            | undefined ↦ undefined
            | exhausted ↦ exhausted
          ])
      go undefined k = k
      go exhausted k = k
      go (went rc w') k = record {
        extends = k.extends;
        open_dirs = k.open_dirs;
        code = code-IsForgiven rc w'.errno dbpath w'.removals k.code;
      }
