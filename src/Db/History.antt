-- ===== src/Db/History.antt =====
-- Any sequence of `db_update` calls on a new database, against the counts of its events.
use mathlib.Core.Path.{ap₂}
use fusg.Base.{
  ℕ, ◌+◌, ◌*◌, ◌<◌, ◌≤◌, Bool, true, false, ◌&&◌, List, [], ◌∷◌, Option, none, some, Bytes, equal,
  equal_iff, if◌then◌else◌, length, All, success, ◌≡◌, refl, ap, ◌∙◌, inl, inr, arith, Bool-cases,
}
use fusg.Word.{u64_mod}
use fusg.Db.Platform.{Platform, IsMap, IsReliable}
use fusg.Db.State.{Db}
use fusg.Db.Records.{Stats}
use fusg.Db.Usage.{FileUsage, bump, count_event, or_zero, db_update}
use fusg.Db.Consistent.{IsConsistent}
use fusg.Db.Entry.{usage}
use fusg.Db.Update.{db_update-usage}

-- the arguments of one call
pub record Access : Type 0 where
  pub executable : Bytes
  pub filepath : Bytes
  pub flags : FileUsage
  pub time : ℕ

module _ {F : Type 0} (p : Platform F) where
  -- the calls of a list, the last first
  unfoldable pub update_all : List Access → Db F → Option (Db F)
  update_all [] d = some d
  update_all (a ∷ us) d = elim (update_all us d) [
    | none ↦ none
    | some d' ↦ elim (db_update p a.executable a.filepath a.flags a.time d') [
      | none ↦ none
      | some (rc, d'') ↦ some d''
    ]
  ]

module _ (exe fil : Bytes) where
  abbrev is_of : Access → Bool
  is_of a = equal a.executable exe && equal a.filepath fil

  -- the accesses of the pair with a flag
  abbrev count : (FileUsage → Bool) → List Access → ℕ
  count flag [] = 0
  count flag (a ∷ us) =
      let before = count flag us in if is_of a && flag a.flags then before + 1 else before

  -- the time of the last access of the pair
  abbrev latest : List Access → ℕ
  latest [] = 0
  latest (a ∷ us) = let before = latest us in if is_of a then a.time else before

  abbrev is_used : List Access → Bool
  is_used [] = false
  is_used (a ∷ us) = let before = is_used us in if is_of a then true else before

  abbrev counts : List Access → Stats
  counts us = record {
    read = count (λ u. u.read) us;
    write = count (λ u. u.write) us;
    create = count (λ u. u.creat) us;
    exec = count (λ u. u.exec) us;
    time = latest us;
    reserved = 0;
  }

  -- what the database should say of the pair
  abbrev pub history : List Access → Option Stats
  history us = if is_used us then some (counts us) else none

  count-le : (flag : FileUsage → Bool) (us : List Access) → count flag us ≤ length us
  count-le flag [] = omega arith
  count-le flag (a ∷ us) = elim (Bool-cases (is_of a && flag a.flags)) [
    | inl h ↦ rw h (omega (arith, count-le flag us))
    | inr h ↦ rw h (omega (arith, count-le flag us))
  ]

  count_unused :
      (flag : FileUsage → Bool) (us : List Access) → is_used us ≡ false → count flag us ≡ 0
  count_unused flag [] h = refl
  count_unused flag (a ∷ us) h = elim (Bool-cases (is_of a)) [
    | inl q ↦ cc (rw q at h)
    | inr q ↦ rw q (count_unused flag us (rw q at h))
  ]

  latest_unused : (us : List Access) → is_used us ≡ false → latest us ≡ 0
  latest_unused [] h = refl
  latest_unused (a ∷ us) h = elim (Bool-cases (is_of a)) [
    | inl q ↦ cc (rw q at h)
    | inr q ↦ rw q (latest_unused us (rw q at h))
  ]

  or_zero-history : (us : List Access) → or_zero (history us) ≡ counts us
  or_zero-history us = elim (Bool-cases (is_used us)) [
    | inl h ↦ rw h refl
    | inr h ↦
        rw
          (
            h,
            count_unused (λ u. u.read) us h,
            count_unused (λ u. u.write) us h,
            count_unused (λ u. u.creat) us h,
            count_unused (λ u. u.exec) us h,
            latest_unused us h,
          )
          refl
  ]

  bump-count :
      (flag : FileUsage → Bool) (a : Access) (us : List Access)
      → length (a ∷ us) < u64_mod
      → is_of a ≡ true
      → bump (flag a.flags) (count flag us) ≡ count flag (a ∷ us)
  bump-count flag a us h q = elim (Bool-cases (flag a.flags)) [
    | inl x ↦ rw (q, x) (omega (arith, count-le flag us, h))
    | inr x ↦ rw (q, x) (omega (arith, count-le flag us, h))
  ]

  counts-step :
      (a : Access) (us : List Access)
      → length (a ∷ us) < u64_mod
      → is_of a ≡ true
      → count_event a.flags a.time (counts us) ≡ counts (a ∷ us)
  counts-step a us h q =
      rw
        (
          bump-count (λ u. u.read) a us h q,
          bump-count (λ u. u.write) a us h q,
          bump-count (λ u. u.creat) a us h q,
          bump-count (λ u. u.exec) a us h q,
        )
        (rw q refl)

  -- one more access
  history-step :
      (a : Access) (us : List Access)
      → length (a ∷ us) < u64_mod
      → (if is_of a then some (count_event a.flags a.time (or_zero (history us))) else history us)
        ≡ history (a ∷ us)
  history-step a us h = elim (Bool-cases (is_of a)) [
    | inl q ↦ rw (q, or_zero-history us) (ap some (counts-step a us h q ∙ rw q refl))
    | inr q ↦ rw q refl
  ]

  -- the pair of an access, written either way
  same_pair :
      (a : Access) (view : Bytes → Bytes → Option Stats)
      → (if is_of a
          then some (count_event a.flags a.time (or_zero (view a.executable a.filepath)))
          else view exe fil)
        ≡ (if is_of a
            then some (count_event a.flags a.time (or_zero (view exe fil)))
            else view exe fil)
  same_pair a view = elim (Bool-cases (is_of a)) [
    | inr q ↦ rw q refl
    | inl q ↦
        let x : a.executable ≡ exe = (equal_iff a.executable exe).0 (ground (arith, q)) in
        let y : a.filepath ≡ fil = (equal_iff a.filepath fil).0 (ground (arith, q)) in
        rw q (ap (λ o. some (count_event a.flags a.time (or_zero o))) (ap₂ view x y))
  ]

-- `d` is consistent with `n` ids in use, and its view is the history of `us`.
pub record IsLog {F : Type 0} (p : Platform F) (n : ℕ) (us : List Access) (d : Db F) : Type 0 where
  pub consistent : IsConsistent p n d
  pub usage_of : (exe fil : Bytes) → usage p d exe fil ≡ history exe fil us

module _ {F : Type 0} (p : Platform F) (map : IsMap p) (ok : IsReliable p) where
  -- one more update
  pub db_update-IsLog :
      (a : Access) (us : List Access) (n : ℕ) (d : Db F)
      → n + 2 < u64_mod
      → length us + 1 < u64_mod
      → a.time < u64_mod
      → IsLog p n us d
      → (d' : Db F) × (n' : ℕ) × (db_update p a.executable a.filepath a.flags a.time d
          ≡ some (success, d'))
        × (n' ≤ n + 2)
        × IsLog p n' (a ∷ us) d'
  db_update-IsLog a us n d small short timely l =
      let (d2, n2, run2, u) =
        db_update-usage p map ok a.executable a.filepath a.flags a.time n d small timely
          l.consistent in
      (
        d2,
        n2,
        run2,
        u.by_two,
        record {
          consistent = u.consistent;
          usage_of = λ exe fil.
              u.usage_of exe fil
              ∙ same_pair exe fil a (usage p d)
              ∙ ap
                  (λ o.
                    if equal a.executable exe && equal a.filepath fil
                    then some (count_event a.flags a.time (or_zero o))
                    else o)
                  (l.usage_of exe fil)
              ∙ history-step exe fil a us (omega (arith, short));
        },
      )

  update_all-IsLog :
      (us : List Access) (n : ℕ) (d : Db F)
      → n + 2 * length us < u64_mod
      → All (λ a. a.time < u64_mod) us
      → IsLog p n [] d
      → (d' : Db F) × (n' : ℕ) × (update_all p us d ≡ some d')
        × (n' ≤ n + 2 * length us)
        × IsLog p n' us d'
  unfolding update_all
  update_all-IsLog [] n d small times l = (d, n, refl, omega arith, l)
  update_all-IsLog (a ∷ us) n d small times l =
      let (d1, n1, run, bound, l1) = update_all-IsLog us n d (omega arith) times.1 l in
      let (d2, n2, run2, by_two, l2) =
        db_update-IsLog a us n1 d1 (omega arith) (omega arith) times.0 l1 in
      (d2, n2, rw (run, update_all) (rw run2 refl), omega (arith, by_two), l2)

  -- On a medium without errors, where each store succeeds: any sequence of updates of a
  -- consistent database with an empty view, with two ids per update left below 2 ^ 64, terminates
  -- and leaves a consistent database. The view is then a function of the sequence: a pair that
  -- was never updated has no entry; any other has, for each of read, write, create and exec, the
  -- number of its updates with that flag, and the time of its last one.
  pub update_all-history :
      (us : List Access) (n : ℕ) (d : Db F)
      → n + 2 * length us < u64_mod
      → All (λ a. a.time < u64_mod) us
      → IsConsistent p n d
      → ((exe fil : Bytes) → usage p d exe fil ≡ none)
      → (d' : Db F) × (n' : ℕ) × (update_all p us d ≡ some d')
        × (n' ≤ n + 2 * length us)
        × IsConsistent p n' d'
        × ((exe fil : Bytes) → usage p d' exe fil ≡ history exe fil us)
  update_all-history us n d small times c fresh =
      let (d', n', run, bound, l) =
        update_all-IsLog us n d small times (record { consistent = c; usage_of = fresh }) in
      (d', n', run, bound, l.consistent, l.usage_of)
