-- ===== src/Db/Key.antt =====
-- `__db_get_fusg_key` on a consistent connection: it succeeds, keeps the invariant, and the ids of
-- its key are the ids of the two names.
use mathlib.Core.Path.{fun_ext}
use fusg.Base.{
  ℕ, ◌+◌, ◌<◌, ◌≤◌, some, Bytes, success, equal, if◌then◌else◌, equal_refl, ◌++◌, ◌≡◌, refl, sym,
  ap, ◌∙◌, ◌⊎◌, inl, inr, arith,
}
use fusg.Word.{u64, u64_mod}
use fusg.Db.Platform.{Fetched-cases, found, missing, Platform, IsMap, IsReliable}
use fusg.Db.State.{Table, exec, execr, file, filer, evnt, idtb, Db, ◌>>=◌}
use fusg.Db.Records.{datum_str}
use fusg.Db.Ids.{id_entry, register, get_fusg_key}
use fusg.Db.View.{view, SameLock, SameLock-trans}
use fusg.Db.Register.{
  Registered, Apart, registered, created, register-known, register-new, Registered-known,
  Registered-new,
}
use fusg.Db.Consistent.{
  IsDictionary, IsConsistent, IsEvent, IsDictionary-grow, IsDictionary-same, IsDictionary-enter,
}

module _ {F : Type 0} (p : Platform F) (map : IsMap p) (ok : IsReliable p) where
  register-Registered :
      (fwd rev : Table) (name : Bytes) (n : ℕ) (d : Db F)
      → Apart fwd rev
      → n + 1 < u64_mod
      → view p d idtb (datum_str id_entry) ≡ found (u64 n)
      → IsDictionary n (view p d fwd) (view p d rev)
      → (i n' : ℕ) × (d' : Db F) × (register p fwd rev name d ≡ some ((success, i), d'))
        × Registered p fwd rev name n i n' d d'
  register-Registered fwd rev name n d apart h c dict =
      elim (Fetched-cases (view p d fwd (datum_str name))) [
        | inl (b, e) ↦
            let (i, lt, q) = dict.ids (datum_str name) b e in
            (
              i,
              n,
              registered p map ok fwd rev name i d,
              register-known p map ok fwd rev name i d (omega arith) (e ∙ ap found q),
              Registered-known p map ok fwd rev name apart n i d lt c (e ∙ ap found q),
            )
        | inr (inl e) ↦ (
          n,
          n + 1,
          registered p map ok fwd rev name n (created p map ok fwd rev name n d),
          register-new p map ok fwd rev name n d h c e,
          Registered-new p map ok fwd rev name apart n d e,
        )
        | inr (inr e) ↦ absurd (ok.reads _ _ e)
      ]

-- The key `(e, f)` of the names `exe` and `fil`, and the connection with it.
pub record Keyed {F : Type 0} (p : Platform F) (exe fil : Bytes) (n : ℕ) (d : Db F) : Type 0 where
  pub e : ℕ
  pub f : ℕ
  pub n' : ℕ
  pub d' : Db F
  pub runs : get_fusg_key p exe fil d ≡ some ((success, record { exec_id = e; file_id = f }), d')
  pub e_bound : e < n'
  pub f_bound : f < n'
  pub grows : n ≤ n'
  pub by_two : n' ≤ n + 2
  pub e_origin :
      (view p d exec (datum_str exe) ≡ found (u64 e))
      ⊎ ((view p d exec (datum_str exe) ≡ missing) × (n ≤ e))
  pub f_origin :
      (view p d file (datum_str fil) ≡ found (u64 f))
      ⊎ ((view p d file (datum_str fil) ≡ missing) × (n ≤ f))
  pub e_forward :
      (k : Bytes)
      → view p d' exec k ≡ (if equal (datum_str exe) k then found (u64 e) else view p d exec k)
  pub f_forward :
      (k : Bytes)
      → view p d' file k ≡ (if equal (datum_str fil) k then found (u64 f) else view p d file k)
  pub e_reverse : view p d' execr (u64 e) ≡ found (datum_str exe)
  pub f_reverse : view p d' filer (u64 f) ≡ found (datum_str fil)
  pub events : (k : Bytes) → view p d' evnt k ≡ view p d evnt k
  pub lock : SameLock d d'
  pub consistent : IsConsistent p n' d'

exec_Apart : Apart exec execr
exec_Apart = record {
  fwd_idtb = refl;
  rev_idtb = refl;
  idtb_fwd = refl;
  idtb_rev = refl;
  fwd_rev = refl;
  rev_fwd = refl;
}

file_Apart : Apart file filer
file_Apart = record {
  fwd_idtb = refl;
  rev_idtb = refl;
  idtb_fwd = refl;
  idtb_rev = refl;
  fwd_rev = refl;
  rev_fwd = refl;
}

-- The other dictionary behind the first half.
module _ {F : Type 0} {p : Platform F} {exe : Bytes} {n e m : ℕ} {d d1 : Db F}
    (c : IsConsistent p n d) (x : Registered p exec execr exe n e m d d1) where
  files_between : (k : Bytes) → view p d1 file k ≡ view p d file k
  files_between = x.others file refl refl refl

  files_before : IsDictionary m (view p d1 file) (view p d1 filer)
  files_before =
      IsDictionary-same (fun_ext files_between) (fun_ext (x.others filer refl refl refl))
        (IsDictionary-grow x.grows c.files)

-- The two halves in a row: `exe` takes `n` to `m`, then `fil` takes `m` to `n'`.
module _ {F : Type 0} {p : Platform F} {exe fil : Bytes} {n e m f n' : ℕ} {d d1 d2 : Db F}
    (small : n + 2 < u64_mod) (c : IsConsistent p n d) (x : Registered p exec execr exe n e m d d1)
    (y : Registered p file filer fil m f n' d1 d2) where
  grown-IsEvent : (i j : ℕ) (b : Bytes) → IsEvent n i j b → IsEvent n' i j b
  grown-IsEvent i j b v = record {
    exec_used = omega (arith, v.exec_used, x.grows, y.grows);
    file_used = omega (arith, v.file_used, x.grows, y.grows);
    stats = v.stats;
    in_range = v.in_range;
    content = v.content;
  }

  events_kept : (k : Bytes) → view p d2 evnt k ≡ view p d evnt k
  events_kept k = y.others evnt refl refl refl k ∙ x.others evnt refl refl refl k

  second_origin :
      (view p d file (datum_str fil) ≡ found (u64 f))
      ⊎ ((view p d file (datum_str fil) ≡ missing) × (n ≤ f))
  second_origin = elim y.origin [
    | inl o ↦ inl (sym (files_between c x (datum_str fil)) ∙ o)
    | inr (o, q) ↦ inr (sym (files_between c x (datum_str fil)) ∙ o, omega (arith, x.grows))
  ]

  execs_after : IsDictionary m (view p d1 exec) (view p d1 execr)
  execs_after =
      IsDictionary-enter n e m (datum_str exe) (view p d exec) (view p d execr) (view p d1 exec)
        (view p d1 execr) c.execs x.grows x.bound (omega (arith, x.by_one))
        (elim x.origin [ inl o ↦ inl o | inr (o, q) ↦ inr (o, q) ]) x.forward x.reverse

  two_consistent : IsConsistent p n' d2
  two_consistent = record {
    next = y.next;
    execs =
        IsDictionary-same (fun_ext (y.others exec refl refl refl))
          (fun_ext (y.others execr refl refl refl)) (IsDictionary-grow y.grows execs_after);
    files =
        IsDictionary-enter m f n' (datum_str fil) (view p d1 file) (view p d1 filer)
          (view p d2 file) (view p d2 filer) (files_before c x) y.grows y.bound
          (omega (arith, x.by_one, y.by_one)) y.origin y.forward y.reverse;
    events = λ i j b hi hj v.
        grown-IsEvent i j b (c.events i j b hi hj (sym (events_kept (u64 i ++ u64 j)) ∙ v));
  }

  two-Keyed :
      register p exec execr exe d ≡ some ((success, e), d1)
      → register p file filer fil d1 ≡ some ((success, f), d2)
      → Keyed p exe fil n d
  two-Keyed r1 r2 = record {
    e = e;
    f = f;
    n' = n';
    d' = d2;
    runs = unfold get_fusg_key in rw (r1, ◌>>=◌) (rw (r2, ◌>>=◌));
    e_bound = omega (arith, x.bound, y.grows);
    f_bound = y.bound;
    grows = omega (arith, x.grows, y.grows);
    by_two = omega (arith, x.by_one, y.by_one);
    e_origin = elim x.origin [ inl o ↦ inl o | inr (o, q) ↦ inr (o, omega arith) ];
    f_origin = second_origin;
    e_forward = λ k. y.others exec refl refl refl k ∙ x.forward k;
    f_forward = λ k.
        y.forward k
        ∙ ap (λ v. if equal (datum_str fil) k then found (u64 f) else v) (files_between c x k);
    e_reverse = y.others execr refl refl refl (u64 e) ∙ x.reverse (u64 e) ∙ rw (equal_refl (u64 e));
    f_reverse = y.reverse (u64 f) ∙ rw (equal_refl (u64 f));
    events = events_kept;
    lock = SameLock-trans x.lock y.lock;
    consistent = two_consistent;
  }

module _ {F : Type 0} (p : Platform F) (map : IsMap p) (ok : IsReliable p) where
  pub get_fusg_key-Keyed :
      (exe fil : Bytes) (n : ℕ) (d : Db F)
      → n + 2 < u64_mod
      → IsConsistent p n d
      → Keyed p exe fil n d
  get_fusg_key-Keyed exe fil n d h c =
      let (e, m, d1, r1, x) =
        register-Registered p map ok exec execr exe n d exec_Apart (omega arith) c.next c.execs in
      let (f, n', d2, r2, y) =
        register-Registered p map ok file filer fil m d1 file_Apart (omega (arith, x.by_one)) x.next
          (files_before c x) in
      two-Keyed h c x y r1 r2
