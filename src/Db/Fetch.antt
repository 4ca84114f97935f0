-- ===== src/Db/Fetch.antt =====
-- `db_fetch` of sources/fusg-common/src/db.c as a whole.
use mathlib.Core.Path.{ap₂, fun_ext}
use fusg.Base.{
  ℕ, ◌+◌, ◌<◌, ◌≤◌, ◌++◌, Option, none, some, Bytes, success, length, true, ◌≡◌, refl, ap, ◌∙◌, inl,
  inr, arith,
}
use fusg.Word.{u64, u64_mod}
use fusg.Db.Platform.{Fetched-cases, found, Platform, IsMap, IsReliable}
use fusg.Db.State.{Table, exec, execr, file, filer, evnt, Db, ◌>>=◌}
use fusg.Db.Records.{Stats, check_expected_notfound}
use fusg.Db.Usage.{fetch_entry, db_fetch}
use fusg.Db.View.{view, with_miss, SameLock, SameLock-refl}
use fusg.Db.Consistent.{IsConsistent, IsConsistent-same, IsEvent, SameTables}
use fusg.Db.Codec.{length-datum_stats}
use fusg.Db.Entry.{id_of, entry_of, usage_at, usage, evnt_fetch-found, evnt_fetch-missing}
use fusg.Db.Key.{Keyed, get_fusg_key-Keyed}
use fusg.Db.Locking.{
  locked, unlocked, SameTables-locked, SameTables-unlocked, db_lock-locked, db_unlock-unlocked,
}
use fusg.Db.Names.{id_of-some, id_of-change}
use fusg.Db.Refinement.{usage_at-grow}
use fusg.Db.Update.{session_calls, usage-Keyed, key-IsEvent}

-- what `*fusg_stats` holds after a fetch of `s`, and `old` before it
abbrev pub or_kept : Stats → Option Stats → Stats
or_kept old none = old
or_kept old (some s) = s

-- The fetch of one entry.
pub record EntryRead {F : Type 0} (p : Platform F) (e f : ℕ) (old : Stats) (d : Db F) : Type 0 where
  pub d' : Db F
  pub runs :
      fetch_entry p (record { exec_id = e; file_id = f }) old d
      ≡ some ((success, or_kept old (entry_of (view p d evnt) e f)), d')
  pub tables : SameTables d d'
  pub lock : SameLock d d'

module _ {F : Type 0} (p : Platform F) (ok : IsReliable p) (n e f : ℕ) (old : Stats)
    (d : Db F) where
  check-with_miss : check_expected_notfound p (with_miss d) ≡ some (success, with_miss d)
  unfolding check_expected_notfound
  check-with_miss = refl

  with_miss-tables : SameTables d (with_miss d)
  with_miss-tables Table.exec = refl
  with_miss-tables _ = refl

  pub fetch_entry-EntryRead :
      ((b : Bytes) → view p d evnt (u64 e ++ u64 f) ≡ found b → IsEvent n e f b)
      → EntryRead p e f old d
  fetch_entry-EntryRead event = elim (Fetched-cases (view p d evnt (u64 e ++ u64 f))) [
    | inl (b, v) ↦ record {
      d' = d;
      runs =
          let x = event b v in
          unfold fetch_entry in
          rw
            (evnt_fetch-found p e f d b v (ap length x.content ∙ length-datum_stats x.stats), ◌>>=◌)
            (rw (v, entry_of));
      tables = λ t. refl;
      lock = SameLock-refl d;
    }
    | inr (inl v) ↦ record {
      d' = with_miss d;
      runs =
          unfold fetch_entry in
          rw (evnt_fetch-missing p e f d v, ◌>>=◌) (rw (check-with_miss, ◌>>=◌) (rw (v, entry_of)));
      tables = with_miss-tables;
      lock = record { open_flags = refl; dirty = refl; lock_depth = refl; calls = refl };
    }
    | inr (inr v) ↦ absurd (ok.reads _ _ v)
  ]

-- A fetch between the lock and the unlock.
module _ {F : Type 0} (p : Platform F) (exe fil : Bytes) (old : Stats) (n : ℕ) (d : Db F)
    (small : n + 2 < u64_mod) (c : IsConsistent p n (locked d)) (k : Keyed p exe fil n (locked d))
    (r : EntryRead p k.e k.f old k.d') where
  fetch_depth : r.d'.lock_depth ≡ d.lock_depth + 1
  fetch_depth = r.lock.lock_depth ∙ k.lock.lock_depth

  db_fetch-runs :
      db_fetch p exe fil old d ≡ some ((success, or_kept old (usage p d exe fil)), unlocked r.d')
  db_fetch-runs =
      let (_, l) = db_lock-locked p d in
      let (_, u) = db_unlock-unlocked p r.d' d.lock_depth fetch_depth in
      let run : db_fetch p exe fil old d
          ≡ some ((success, or_kept old (entry_of (view p k.d' evnt) k.e k.f)), unlocked r.d') =
        unfold db_fetch in
        rw (l, ◌>>=◌) (rw (k.runs, ◌>>=◌) (rw (r.runs, ◌>>=◌) (rw (u, ◌>>=◌)))) in
      run
      ∙ ap (λ o. some ((success, or_kept old o), unlocked r.d'))
          (usage-Keyed p exe fil n (locked d) small c k)

  fetch_calls : (unlocked r.d').calls ≡ session_calls d
  fetch_calls =
      rw (fetch_depth, r.lock.calls, k.lock.calls, r.lock.open_flags, k.lock.open_flags)
        (ground arith)

  fetch-IsConsistent : IsConsistent p k.n' (unlocked r.d')
  fetch-IsConsistent =
      IsConsistent-same p (λ t. SameTables-unlocked r.d' t ∙ r.tables t) k.consistent

  read_view : (t : Table) → view p (unlocked r.d') t ≡ view p k.d' t
  read_view t = ap (λ x j. p.fetch x j) (SameTables-unlocked r.d' t ∙ r.tables t)

  fetch_usage : (exe' fil' : Bytes) → usage p (unlocked r.d') exe' fil' ≡ usage p d exe' fil'
  fetch_usage exe' fil' =
      ap₂ (λ a b. usage_at (view p (unlocked r.d') evnt) (id_of a exe') (id_of b fil'))
        (read_view exec) (read_view file)
      ∙ ap (λ v. usage_at v (id_of (view p k.d' exec) exe') (id_of (view p k.d' file) fil'))
          (read_view evnt ∙ fun_ext k.events)
      ∙ usage_at-grow n (view p d evnt) c.events k.e k.f (id_of (view p d exec) exe')
          (id_of (view p k.d' exec) exe') (id_of (view p d file) fil')
          (id_of (view p k.d' file) fil')
          (λ i q. omega (
            arith,
            k.by_two,
            (id_of-some k.n' i (view p k.d' exec) (view p k.d' execr) exe' k.consistent.execs
                (omega (arith, k.by_two)) q).0,
          ))
          (λ j q. omega (
            arith,
            k.by_two,
            (id_of-some k.n' j (view p k.d' file) (view p k.d' filer) fil' k.consistent.files
                (omega (arith, k.by_two)) q).0,
          ))
          (id_of-change n k.n' k.e exe (view p d exec) (view p k.d' exec) (view p d execr)
            (view p k.d' execr) (omega (arith, k.by_two)) k.e_bound k.e_origin k.e_forward
            k.consistent.execs exe')
          (id_of-change n k.n' k.f fil (view p d file) (view p k.d' file) (view p d filer)
            (view p k.d' filer) (omega (arith, k.by_two)) k.f_bound k.f_origin k.f_forward
            k.consistent.files fil')

module _ {F : Type 0} (p : Platform F) (map : IsMap p) (ok : IsReliable p) where
  -- On a medium without errors, where each store succeeds, every fetch from a consistent database that is
  -- open to write, with less than two ids short of 2 ^ 64 in use, terminates and returns 0. The result holds the usage of the pair; where the pair has none the
  -- result keeps what it held before the call, and the code is 0 all the same. The database
  -- stays consistent with at most two more ids, its abstract view and its lock depth are
  -- the old ones, and its calls are those of one session.
  pub db_fetch-usage :
      (exe fil : Bytes) (old : Stats) (n : ℕ) (d : Db F)
      → n + 2 < u64_mod
      → d.open_flags.write ≡ true
      → IsConsistent p n d
      → (d' : Db F) × (n' : ℕ) × (db_fetch p exe fil old d
          ≡ some ((success, or_kept old (usage p d exe fil)), d'))
        × (n' ≤ n + 2)
        × IsConsistent p n' d'
        × ((exe' fil' : Bytes) → usage p d' exe' fil' ≡ usage p d exe' fil')
        × (d'.lock_depth ≡ d.lock_depth)
        × (d'.calls ≡ session_calls d)
  db_fetch-usage exe fil old n d small writes c =
      let c0 = IsConsistent-same p (SameTables-locked d) c in
      let k = get_fusg_key-Keyed p map ok exe fil n (locked d) small c0 in
      let r =
        fetch_entry-EntryRead p ok k.n' k.e k.f old k.d'
          (key-IsEvent p exe fil n (locked d) small c0 k) in
      (
        unlocked r.d',
        k.n',
        db_fetch-runs p exe fil old n d small c0 k r,
        k.by_two,
        fetch-IsConsistent p exe fil old n d small c0 k r,
        fetch_usage p exe fil old n d small c0 k r,
        omega (arith, fetch_depth p exe fil old n d small c0 k r),
        fetch_calls p exe fil old n d small c0 k r,
      )
