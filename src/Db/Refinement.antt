-- ===== src/Db/Refinement.antt =====
-- `db_update` against the abstract view `usage`: a function from an executable and a file to
-- statistics.
use mathlib.Core.Path.{ap₂}
use fusg.Base.{
  ℕ, ◌+◌, ◌<◌, ◌≤◌, true, false, ◌&&◌, ◌++◌, Option, none, some, Bytes, equal, equal_iff,
  equal_refl, if◌then◌else◌, ◌≡◌, refl, sym, ap, ◌∙◌, ◌⊎◌, inl, inr, arith, Bool-cases,
}
use fusg.Word.{u64, u64_mod}
use fusg.Db.Platform.{Fetched, Fetched-cases, found, Platform}
use fusg.Db.State.{Table, exec, file, evnt, Db}
use fusg.Db.Records.{Stats, datum_stats}
use fusg.Db.Usage.{FileUsage}
use fusg.Db.View.{view}
use fusg.Db.Consistent.{InRange, IsDictionary-same, IsEvent, IsConsistent}
use fusg.Db.Codec.{stats_of-datum_stats, datum_key-injective}
use fusg.Db.Entry.{id_of, entry_of, usage_at, usage, Entered}
use fusg.Db.Key.{Keyed}
use fusg.Db.Names.{id_of-some, id_of_self, id_of-owner, id_of-change}

-- Entries lie between ids in use.
module _ (n : ℕ) (v : Bytes → Fetched)
    (events : (i j : ℕ) (b : Bytes)
      → i < u64_mod
      → j < u64_mod
      → v (u64 i ++ u64 j) ≡ found b
      → IsEvent n i j b) where
  pub entry_of-fresh :
      (i j : ℕ) → i < u64_mod → j < u64_mod → (n ≤ i) ⊎ (n ≤ j) → entry_of v i j ≡ none
  entry_of-fresh i j hi hj far = elim (Fetched-cases (v (u64 i ++ u64 j))) [
    | inl (b, x) ↦ let w = events i j b hi hj x in absurd (omega (arith, w.exec_used, w.file_used))
    | inr (inl x) ↦ rw (x, entry_of)
    | inr (inr x) ↦ rw (x, entry_of)
  ]

  -- new ids change no entry
  pub usage_at-grow :
      (e f : ℕ) (I I' J J' : Option ℕ)
      → ((i : ℕ) → I' ≡ some i → i < u64_mod)
      → ((j : ℕ) → J' ≡ some j → j < u64_mod)
      → (I' ≡ I) ⊎ ((I' ≡ some e) × (I ≡ none) × (n ≤ e))
      → (J' ≡ J) ⊎ ((J' ≡ some f) × (J ≡ none) × (n ≤ f))
      → usage_at v I' J' ≡ usage_at v I J
  usage_at-grow e f I none J J' bi bj ci cj = ground arith
  usage_at-grow e f I (some i) J none bi bj ci cj = ground arith
  usage_at-grow e f I (some i) J (some j) bi bj ci cj = elim ci [
    | inl a ↦ elim cj [
      | inl b ↦ rw (← a, ← b) refl
      | inr (b, q, le) ↦
          entry_of-fresh i j (bi i refl) (bj j refl) (inr (ground arith)) ∙ rw (← a, q)
    ]
    | inr (a, q, le) ↦ entry_of-fresh i j (bi i refl) (bj j refl) (inl (ground arith)) ∙ rw q
  ]

-- The entries when that of `(e, f)` is set to `s`.
module _ (n e f : ℕ) (s : Stats) (v v' : Bytes → Fetched) (range : InRange s) (he : e < u64_mod)
    (hf : f < u64_mod)
    (set : (k : Bytes) → v' k ≡ (if equal (u64 e ++ u64 f) k then found (datum_stats s) else v k))
    (events : (i j : ℕ) (b : Bytes)
      → i < u64_mod
      → j < u64_mod
      → v (u64 i ++ u64 j) ≡ found b
      → IsEvent n i j b) where
  entry_of_self : entry_of v' e f ≡ some s
  entry_of_self =
      let at : v' (u64 e ++ u64 f) ≡ found (datum_stats s) = set (u64 e ++ u64 f) ∙ rw equal_refl in
      rw (at, entry_of) (ap some (stats_of-datum_stats s range))

  entry_of-other :
      (i j : ℕ)
      → i < u64_mod
      → j < u64_mod
      → ¬ ((i ≡ e) × (j ≡ f))
      → entry_of v' i j ≡ entry_of v i j
  entry_of-other i j hi hj ne = elim (Bool-cases (equal (u64 e ++ u64 f) (u64 i ++ u64 j))) [
    | inl h ↦
        let (a, b) =
          datum_key-injective e f i j he hf hi hj
            ((equal_iff (u64 e ++ u64 f) (u64 i ++ u64 j)).0 h) in
        absurd (ne (sym a, sym b))
    | inr h ↦
        let at : v' (u64 i ++ u64 j) ≡ v (u64 i ++ u64 j) = set (u64 i ++ u64 j) ∙ rw h in
        rw (at, entry_of)
  ]

  usage_at-other :
      (I I' J J' : Option ℕ)
      → ((i : ℕ) → I' ≡ some i → i < u64_mod)
      → ((j : ℕ) → J' ≡ some j → j < u64_mod)
      → (I' ≡ I) ⊎ ((I' ≡ some e) × (I ≡ none) × (n ≤ e))
      → (J' ≡ J) ⊎ ((J' ≡ some f) × (J ≡ none) × (n ≤ f))
      → ¬ ((I' ≡ some e) × (J' ≡ some f))
      → usage_at v' I' J' ≡ usage_at v I J
  usage_at-other I none J J' bi bj ci cj ne = ground arith
  usage_at-other I (some i) J none bi bj ci cj ne = ground arith
  usage_at-other I (some i) J (some j) bi bj ci cj ne =
      entry_of-other i j (bi i refl) (bj j refl) (λ q. ne (ap some q.0, ap some q.1))
      ∙ usage_at-grow n v events e f I (some i) J (some j) bi bj ci cj

-- One update: the key is found in `d`, and its entry is set in `k.d'`.
module _ {F : Type 0} (p : Platform F) (exe fil : Bytes) (flags : FileUsage) (time n : ℕ) (d : Db F)
    (small : n + 2 < u64_mod) (c : IsConsistent p n d) (k : Keyed p exe fil n d)
    (u : Entered p k.e k.f flags time k.d') where
  set_entry :
      (x : Bytes)
      → view p u.d' evnt x
        ≡ (if equal (u64 k.e ++ u64 k.f) x then found (datum_stats u.stats) else view p d evnt x)
  set_entry x =
      u.events x
      ∙ ap (λ v. if equal (u64 k.e ++ u64 k.f) x then found (datum_stats u.stats) else v)
          (k.events x)

  same_execs : view p u.d' exec ≡ view p k.d' exec
  same_execs = ap (λ t x. p.fetch t x) (u.others exec refl)

  same_files : view p u.d' file ≡ view p k.d' file
  same_files = ap (λ t x. p.fetch t x) (u.others file refl)

  pub updated-IsConsistent : IsConsistent p k.n' u.d'
  updated-IsConsistent = record {
    next = ap (λ t. p.fetch t _) (u.others Table.idtb refl) ∙ k.consistent.next;
    execs =
        IsDictionary-same same_execs (ap (λ t x. p.fetch t x) (u.others Table.execr refl))
          k.consistent.execs;
    files =
        IsDictionary-same same_files (ap (λ t x. p.fetch t x) (u.others Table.filer refl))
          k.consistent.files;
    events = λ i j b hi hj x. elim (Bool-cases (equal (u64 k.e ++ u64 k.f) (u64 i ++ u64 j))) [
      | inl h ↦
          let (a, o) =
            datum_key-injective k.e k.f i j (omega (arith, k.e_bound, k.by_two))
              (omega (arith, k.f_bound, k.by_two)) hi hj
              ((equal_iff (u64 k.e ++ u64 k.f) (u64 i ++ u64 j)).0 h) in
          record {
            exec_used = omega (arith, a, k.e_bound);
            file_used = omega (arith, o, k.f_bound);
            stats = u.stats;
            in_range = u.in_range;
            content = cc (rw h at (u.events (u64 i ++ u64 j)), x);
          }
      | inr h ↦ k.consistent.events i j b hi hj (sym (rw h at (u.events (u64 i ++ u64 j))) ∙ x)
    ];
  }

  room : k.n' < u64_mod
  room = omega (arith, k.by_two)

  abbrev exec_id : Bytes → Option ℕ
  exec_id = id_of (view p k.d' exec)

  abbrev file_id : Bytes → Option ℕ
  file_id = id_of (view p k.d' file)

  exec_owner : (other : Bytes) → exec_id other ≡ some k.e → equal exe other ≡ true
  exec_owner =
      id_of-owner n k.n' k.e exe (view p d exec) (view p k.d' exec) (view p d Table.execr)
        (view p k.d' Table.execr) room k.e_bound k.e_origin k.e_forward k.consistent.execs

  file_owner : (other : Bytes) → file_id other ≡ some k.f → equal fil other ≡ true
  file_owner =
      id_of-owner n k.n' k.f fil (view p d file) (view p k.d' file) (view p d Table.filer)
        (view p k.d' Table.filer) room k.f_bound k.f_origin k.f_forward k.consistent.files

  exec_self : exec_id exe ≡ some k.e
  exec_self =
      id_of_self n k.n' k.e exe (view p d exec) (view p k.d' exec) (view p d Table.execr)
        (view p k.d' Table.execr) room k.e_bound k.e_origin k.e_forward k.consistent.execs

  file_self : file_id fil ≡ some k.f
  file_self =
      id_of_self n k.n' k.f fil (view p d file) (view p k.d' file) (view p d Table.filer)
        (view p k.d' Table.filer) room k.f_bound k.f_origin k.f_forward k.consistent.files

  usage_by_ids :
      (exe' fil' : Bytes)
      → usage p u.d' exe' fil' ≡ usage_at (view p u.d' evnt) (exec_id exe') (file_id fil')
  usage_by_ids exe' fil' =
      ap₂ (λ v w. usage_at (view p u.d' evnt) (id_of v exe') (id_of w fil')) same_execs same_files

  usage_self : usage p u.d' exe fil ≡ some u.stats
  usage_self =
      usage_by_ids exe fil
      ∙ ap₂ (usage_at (view p u.d' evnt)) exec_self file_self
      ∙ entry_of_self n k.e k.f u.stats (view p d evnt) (view p u.d' evnt) u.in_range
          (omega (arith, room, k.e_bound)) (omega (arith, room, k.f_bound)) set_entry c.events

  usage_other :
      (exe' fil' : Bytes)
      → (equal exe exe' && equal fil fil') ≡ false
      → usage p u.d' exe' fil' ≡ usage p d exe' fil'
  usage_other exe' fil' h =
      usage_by_ids exe' fil'
      ∙ usage_at-other n k.e k.f u.stats (view p d evnt) (view p u.d' evnt) u.in_range
          (omega (arith, room, k.e_bound)) (omega (arith, room, k.f_bound)) set_entry c.events
          (id_of (view p d exec) exe') (exec_id exe') (id_of (view p d file) fil') (file_id fil')
          (λ i q. omega (
            arith,
            room,
            (id_of-some k.n' i (view p k.d' exec) (view p k.d' Table.execr) exe' k.consistent.execs
                room q).0,
          ))
          (λ j q. omega (
            arith,
            room,
            (id_of-some k.n' j (view p k.d' file) (view p k.d' Table.filer) fil' k.consistent.files
                room q).0,
          ))
          (id_of-change n k.n' k.e exe (view p d exec) (view p k.d' exec) (view p d Table.execr)
            (view p k.d' Table.execr) room k.e_bound k.e_origin k.e_forward k.consistent.execs exe')
          (id_of-change n k.n' k.f fil (view p d file) (view p k.d' file) (view p d Table.filer)
            (view p k.d' Table.filer) room k.f_bound k.f_origin k.f_forward k.consistent.files fil')
          (λ q. cc (h, exec_owner exe' q.0, file_owner fil' q.1))

  pub usage_update :
      (exe' fil' : Bytes)
      → usage p u.d' exe' fil'
        ≡ (if equal exe exe' && equal fil fil' then some u.stats else usage p d exe' fil')
  usage_update exe' fil' = elim (Bool-cases (equal exe exe' && equal fil fil')) [
    | inl h ↦
        let a : exe ≡ exe' = (equal_iff exe exe').0 (ground (arith, h)) in
        let b : fil ≡ fil' = (equal_iff fil fil').0 (ground (arith, h)) in
        ap₂ (usage p u.d') (sym a) (sym b) ∙ usage_self ∙ rw h
    | inr h ↦ usage_other exe' fil' h ∙ rw h
  ]
