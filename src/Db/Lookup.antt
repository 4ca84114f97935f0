-- ===== src/Db/Lookup.antt =====
-- The public lookups of db.c: from a name to its id and back.
use fusg.Base.{
  ℕ, ◌+◌, ◌<◌, false, Option, none, some, Bytes, ℤ, pos, success, length, ltb, equal_refl,
  if◌then◌else◌, ◌≡◌, refl, ap, ◌∙◌, arith,
}
use fusg.Word.{u64, u64_mod}
use fusg.Db.Platform.{found, Platform, IsMap, IsReliable}
use fusg.Db.State.{Table, exec, execr, file, filer, evnt, Db, ◌>>=◌}
use fusg.Db.Records.{datum_str, fetch_long_str}
use fusg.Db.Ids.{
  no_id, locked_id, locked_name, db_exec_get_id, db_file_get_id, db_exec_get_executable,
  db_file_get_file,
}
use fusg.Db.Usage.{FileUsage, db_update}
use fusg.Db.View.{view, same, fetch_str_long-found}
use fusg.Db.Consistent.{IsConsistent, IsConsistent-same, SameTables}
use fusg.Db.Entry.{Entered, update_entry-Entered}
use fusg.Db.Key.{Keyed, get_fusg_key-Keyed}
use fusg.Db.Locking.{
  locked, unlocked, SameTables-locked, SameTables-unlocked, db_lock-locked, db_unlock-unlocked,
}
use fusg.Db.Update.{session_calls, db_update-runs, key-IsEvent}

-- The connection `d'` behind a lookup in `d`.
pub record IsLookup {F : Type 0} (d d' : Db F) : Type 0 where
  pub tables : SameTables d d'
  pub depth : d'.lock_depth ≡ d.lock_depth
  pub calls : d'.calls ≡ session_calls d

-- the result of a lookup, where `(uint64_t)-1` stands for no id
abbrev pub or_no_id : Option ℕ → ℕ
or_no_id none = no_id
or_no_id (some i) = i

-- the code and the copied name of a lookup by id into a buffer of `size` bytes
abbrev pub copied : ℕ → Bytes → ℤ × Option Bytes
copied size content =
    if ltb size (length content) then (pos size, none) else (success, some content)

module _ {F : Type 0} (p : Platform F) (ok : IsReliable p) where
  lookup-IsLookup : (d : Db F) → IsLookup d (unlocked (locked d))
  lookup-IsLookup d = record {
    tables = λ t. SameTables-unlocked (locked d) t ∙ SameTables-locked d t;
    depth = omega arith;
    calls = ground arith;
  }

  locked_id-found :
      (t : Table) (name : Bytes) (i : ℕ) (d : Db F)
      → i < u64_mod
      → view p (locked d) t (datum_str name) ≡ found (u64 i)
      → locked_id p t name d ≡ some (i, unlocked (locked d))
  locked_id-found t name i d h v =
      let (_, l) = db_lock-locked p d in
      let (_, u) = db_unlock-unlocked p (locked d) d.lock_depth refl in
      unfold locked_id in
      rw (l, ◌>>=◌) (rw (fetch_str_long-found p t name i (locked d) h v, ◌>>=◌) (rw (u, ◌>>=◌)))

  fetch_long_str-found :
      (t : Table) (i size : ℕ) (content : Bytes) (d : Db F)
      → view p d t (u64 i) ≡ found content
      → fetch_long_str p t i size d ≡ some (copied size content, d)
  unfolding fetch_long_str
  fetch_long_str-found t i size content d v = ground arith

  pub locked_name-found :
      (t : Table) (i size : ℕ) (content : Bytes) (d : Db F)
      → view p (locked d) t (u64 i) ≡ found content
      → locked_name p t i size d ≡ some (copied size content, unlocked (locked d))
  locked_name-found t i size content d v =
      let (_, l) = db_lock-locked p d in
      let (_, u) = db_unlock-unlocked p (locked d) d.lock_depth refl in
      unfold locked_name in
      rw (l, ◌>>=◌) (rw (fetch_long_str-found t i size content (locked d) v, ◌>>=◌) (rw (u, ◌>>=◌)))

-- The lookups of one pair behind its update.
module _ {F : Type 0} (p : Platform F) (ok : IsReliable p) (exe fil : Bytes) (flags : FileUsage)
    (time n : ℕ) (d : Db F) (k : Keyed p exe fil n (locked d))
    (u : Entered p k.e k.f flags time k.d') where
  abbrev d' : Db F
  d' = unlocked u.d'

  kept : (t : Table) (x : Bytes) → same evnt t ≡ false → view p d' t x ≡ view p k.d' t x
  kept t x h = ap (λ f. p.fetch f x) (SameTables-unlocked u.d' t ∙ u.others t h)

  name_of_exec :
      (size : ℕ)
      → db_exec_get_executable p k.e size d'
        ≡ some (copied size (datum_str exe), unlocked (locked d'))
  unfolding db_exec_get_executable
  name_of_exec size =
      locked_name-found p ok execr k.e size (datum_str exe) d'
        (kept execr (u64 k.e) refl ∙ k.e_reverse)

  name_of_file :
      (size : ℕ)
      → db_file_get_file p k.f size d' ≡ some (copied size (datum_str fil), unlocked (locked d'))
  unfolding db_file_get_file
  name_of_file size =
      locked_name-found p ok filer k.f size (datum_str fil) d'
        (kept filer (u64 k.f) refl ∙ k.f_reverse)

  module _ (small : n + 2 < u64_mod) where
    exec_of_name : db_exec_get_id p exe d' ≡ some (k.e, unlocked (locked d'))
    unfolding db_exec_get_id
    exec_of_name = locked_id-found p ok exec exe k.e d' (omega (arith, k.e_bound, k.by_two)) (
        kept exec (datum_str exe) refl
        ∙ k.e_forward (datum_str exe)
        ∙ rw (equal_refl (datum_str exe)))

    file_of_name : db_file_get_id p fil d' ≡ some (k.f, unlocked (locked d'))
    unfolding db_file_get_id
    file_of_name = locked_id-found p ok file fil k.f d' (omega (arith, k.f_bound, k.by_two)) (
        kept file (datum_str fil) refl
        ∙ k.f_forward (datum_str fil)
        ∙ rw (equal_refl (datum_str fil)))

-- The ids `e` and `f` of two names in `d`, found and read back without a change of the tables.
pub record IsNamed {F : Type 0} (p : Platform F) (exe fil : Bytes) (e f : ℕ) (d d' : Db F)
    : Type 0 where
  pub lookup : IsLookup d d'
  pub exec_id : db_exec_get_id p exe d ≡ some (e, d')
  pub exec_name :
      (size : ℕ) → db_exec_get_executable p e size d ≡ some (copied size (datum_str exe), d')
  pub file_id : db_file_get_id p fil d ≡ some (f, d')
  pub file_name : (size : ℕ) → db_file_get_file p f size d ≡ some (copied size (datum_str fil), d')

module _ {F : Type 0} (p : Platform F) (map : IsMap p) (ok : IsReliable p) where
  -- On a medium without errors, where each store succeeds: behind an update of a consistent
  -- database, with less than two ids short of 2 ^ 64 in use, the executable and the file have ids
  -- below 2 ^ 64 - 1. The lookup of each name yields its id, and the lookup of the id copies the
  -- name with its terminating byte into a buffer that holds it, and returns the buffer's size
  -- where it does not. The lookups change no table and no lock depth.
  pub db_update-names :
      (exe fil : Bytes) (flags : FileUsage) (time n : ℕ) (d : Db F)
      → n + 2 < u64_mod
      → time < u64_mod
      → IsConsistent p n d
      → (d' d'' : Db F) × (e f : ℕ) × (db_update p exe fil flags time d ≡ some (success, d'))
        × (e < no_id)
        × (f < no_id)
        × IsNamed p exe fil e f d' d''
  db_update-names exe fil flags time n d small timely c =
      let c0 = IsConsistent-same p (SameTables-locked d) c in
      let k = get_fusg_key-Keyed p map ok exe fil n (locked d) small c0 in
      let u =
        update_entry-Entered p map ok k.e k.f flags time k.n' k.d' timely
          (key-IsEvent p exe fil n (locked d) small c0 k) in
      (
        unlocked u.d',
        unlocked (locked (unlocked u.d')),
        k.e,
        k.f,
        db_update-runs p exe fil flags time n d k u,
        omega (arith, k.e_bound, k.by_two),
        omega (arith, k.f_bound, k.by_two),
        record {
          lookup = lookup-IsLookup p ok (unlocked u.d');
          exec_id = exec_of_name p ok exe fil flags time n d k u small;
          exec_name = name_of_exec p ok exe fil flags time n d k u;
          file_id = file_of_name p ok exe fil flags time n d k u small;
          file_name = name_of_file p ok exe fil flags time n d k u;
        },
      )
