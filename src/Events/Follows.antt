-- ===== src/Events/Follows.antt =====
-- `store_event` of sources/fusgd/src/store.c on a database does what the plan of the event says.
use fusg.Base.{
  ℕ, ◌+◌, ◌*◌, ◌≤◌, ◌<◌, Bool, not, ◌&&◌, List, [], ◌∷◌, Option, none, some, ℤ, is_zero,
  if◌then◌else◌, length, ◌≡◌, refl, ◌∙◌, inl, inr, arith, Bool-cases,
}
use fusg.Word.{u64_mod}
use fusg.FilePath.Absolute.{Absolute, absolute, null, undefined, fabsolute}
use fusg.Db.Platform.{Platform, IsMap, IsReliable}
use fusg.Db.State.{Db, M, abort, pure, ◌>>=◌}
use fusg.Db.History.{Access, IsLog, db_update-IsLog}
use fusg.Events.Audit.{RecordType, audit_syscall, audit_cwd, audit_path, other_type, Record}
use fusg.Events.Parse.{Event, event_valid, parse_syscall, parse_cwd, parse_path}
use fusg.Events.Store.{
  Loop, at_path, store_valid, store_path, after_syscall, after_cwd, after_path, store_record,
  store_records,
}
use fusg.Events.Plan.{
  access_of, plan_valid, plan_at, plan_syscall, plan_cwd, plan_path, plan_record, plan_records,
}
use fusg.Events.Times.{Keeps, parse_syscall-Keeps, parse_cwd-Keeps, parse_path-Keeps}

-- The view of `d` is the history of `us`, of which there are at most `k`. `n0` ids were in use before.
pub record IsRun {F : Type 0} (p : Platform F) (n0 k : ℕ) (us : List Access) (d : Db F)
    : Type 0 where
  pub n : ℕ
  pub bound : n ≤ n0 + 2 * length us
  pub short : length us ≤ k
  pub log : IsLog p n us d

module _ {F : Type 0} (p : Platform F) (n0 : ℕ) where
  -- The code and the plan abort both, or give the same result, with the database behind the updates.
  abbrev pub Follows :
      {A : Type 0} → (A → Type 0) → ℕ → Option (A × Db F) → Option (A × List Access) → Type 0
  Follows P k none none = Unit
  Follows P k none (some y) = ⊥
  Follows P k (some (a, d)) none = ⊥
  Follows P k (some (a, d)) (some (b, us)) = (a ≡ b) × P b × IsRun p n0 k us d

  pub IsRun-longer :
      (k m : ℕ) (us : List Access) (d : Db F) → k ≤ m → IsRun p n0 k us d → IsRun p n0 m us d
  IsRun-longer k m us d le r = record {
    n = r.n;
    bound = r.bound;
    short = omega (arith, r.short);
    log = r.log;
  }

  pub Follows-longer :
      {A : Type 0} (P : A → Type 0) (k m : ℕ) (x : Option (A × Db F)) (y : Option (A × List Access))
      → k ≤ m
      → Follows P k x y
      → Follows P m x y
  Follows-longer P k m none none le h = tt
  Follows-longer P k m none (some y) le h = elim h [ ]
  Follows-longer P k m (some (a, d)) none le h = elim h [ ]
  Follows-longer P k m (some (a, d)) (some (b, us)) le (e, q, r) =
      (e, q, IsRun-longer k m us d le r)

-- an event of the time `t`
abbrev At : ℕ → Loop → Type 0
At t l = l.event.timestamp ≡ t

module _ {F : Type 0} (p : Platform F) (map : IsMap p) (ok : IsReliable p) (path_max n0 t : ℕ)
    (timely : t < u64_mod) where
  store_valid-Follows :
      (k : ℕ) (ev : Event) (stored : Bool) (us : List Access) (d : Db F)
      → ev.timestamp ≡ t
      → n0 + 2 * (k + 1) < u64_mod
      → IsRun p n0 k us d
      → Follows p n0
          (At t)
          (k + 1)
          (store_valid p path_max ev stored d)
          (some (plan_valid ev stored us))
  unfolding store_valid
  store_valid-Follows k ev stored us d h small r = elim (Bool-cases (event_valid ev)) [
    | inr e ↦ rw (e, ◌>>=◌) (refl, h, IsRun-longer p n0 k (k + 1) us d (omega arith) r)
    | inl e ↦
        let a = access_of ev in
        let (d', n', run, by_two, log) =
          db_update-IsLog p map ok a us r.n d (omega (arith, small, r.bound, r.short))
            (omega (arith, small, r.short)) (omega (arith, h, timely)) r.log in
        rw (e, ◌>>=◌, Follows)
          (rw (run, ◌>>=◌, Follows)
            (
              refl,
              h,
              record {
                n = n';
                bound = omega (arith, by_two, r.bound);
                short = omega (arith, r.short);
                log = log;
              },
            ))
  ]

  store_path-Follows :
      (k : ℕ) (ev : Event) (stored : Bool) (us : List Access) (d : Db F)
      → ev.timestamp ≡ t
      → n0 + 2 * (k + 1) < u64_mod
      → IsRun p n0 k us d
      → Follows p n0
          (At t)
          (k + 1)
          (store_path p path_max ev stored d)
          (plan_at (at_path (fabsolute path_max ev.cwd ev.filepath) ev) stored us)
  unfolding store_path
  store_path-Follows k ev stored us d h small r = go (fabsolute path_max ev.cwd ev.filepath)
    where
      go :
          (x : Absolute)
          → Follows p n0
              (At t)
              (k + 1)
              ((elim (at_path x ev) as (λ _. M F Loop) [
                | none ↦ abort
                | some ev' ↦ store_valid p path_max ev' stored
              ])
                d)
              (plan_at (at_path x ev) stored us)
      go (absolute s) =
          store_valid-Follows k (record ev { filepath = some s }) stored us d h small r
      go null = store_valid-Follows k (record ev { filepath = none }) stored us d h small r
      go undefined = tt

  after_path-Follows :
      (k : ℕ) (x : Option (ℤ × Event)) (stored : Bool) (us : List Access) (d : Db F)
      → Keeps t x
      → n0 + 2 * (k + 1) < u64_mod
      → IsRun p n0 k us d
      → Follows p n0
          (At t)
          (k + 1)
          (after_path p path_max x stored d)
          (plan_path path_max x stored us)
  after_path-Follows k none stored us d h small r = tt
  after_path-Follows k (some (rc, ev)) stored us d h small r = elim (Bool-cases (is_zero rc)) [
    | inl e ↦ rw e (store_path-Follows k ev stored us d h small r)
    | inr e ↦ rw e (refl, h, IsRun-longer p n0 k (k + 1) us d (omega arith) r)
  ]

  after_syscall-Follows :
      (k : ℕ) (x : Option (ℤ × Event)) (stored : Bool) (us : List Access) (d : Db F)
      → Keeps t x
      → IsRun p n0 k us d
      → Follows p n0
          (At t)
          k
          (after_syscall p path_max x stored d)
          (plan_syscall path_max x stored us)
  after_syscall-Follows k none stored us d h r = tt
  after_syscall-Follows k (some (rc, ev)) stored us d h r = (refl, h, r)

  after_cwd-Follows :
      (k : ℕ) (x : Option (ℤ × Event)) (stored : Bool) (us : List Access) (d : Db F)
      → Keeps t x
      → IsRun p n0 k us d
      → Follows p n0 (At t) k (after_cwd p path_max x stored d) (plan_cwd path_max x stored us)
  after_cwd-Follows k none stored us d h r = tt
  after_cwd-Follows k (some (rc, ev)) stored us d h r = (refl, h, r)

  Keeps-at :
      (ev : Event) (x : Option (ℤ × Event)) → ev.timestamp ≡ t → Keeps ev.timestamp x → Keeps t x
  Keeps-at ev none h q = tt
  Keeps-at ev (some (rc, e)) h q = q ∙ h

  store_record-Follows :
      (k : ℕ) (r : Record) (ev : Event) (stored : Bool) (us : List Access) (d : Db F)
      → ev.timestamp ≡ t
      → n0 + 2 * (k + 1) < u64_mod
      → IsRun p n0 k us d
      → Follows p n0
          (At t)
          (k + 1)
          (store_record p path_max r ev stored d)
          (plan_record path_max r ev stored us)
  unfolding store_record
  store_record-Follows k r ev stored us d h small run = go r.type
    where
      go :
          (ty : RecordType)
          → Follows p n0
              (At t)
              (k + 1)
              (store_record p path_max (record r { type = ty }) ev stored d)
              (plan_record path_max (record r { type = ty }) ev stored us)
      go audit_syscall = Follows-longer p n0 (At t) k (k + 1) _ _ (omega arith) (
          after_syscall-Follows k (parse_syscall r.fields ev) stored us d
            (Keeps-at ev _ h (parse_syscall-Keeps r.fields ev)) run)
      go audit_cwd = Follows-longer p n0 (At t) k (k + 1) _ _ (omega arith) (
          after_cwd-Follows k (parse_cwd r.fields ev) stored us d
            (Keeps-at ev _ h (parse_cwd-Keeps r.fields ev)) run)
      go audit_path =
          after_path-Follows k (parse_path r.fields ev) stored us d
            (Keeps-at ev _ h (parse_path-Keeps r.fields ev)) small run
      go other_type = (refl, h, IsRun-longer p n0 k (k + 1) us d (omega arith) run)

  pub store_records-Follows :
      (rs : List Record) (k : ℕ) (ev : Event) (stored : Bool) (us : List Access) (d : Db F)
      → ev.timestamp ≡ t
      → n0 + 2 * (k + length rs) < u64_mod
      → IsRun p n0 k us d
      → Follows p n0
          (At t)
          (k + length rs)
          (store_records p path_max rs ev stored d)
          (plan_records path_max rs ev stored us)
  unfolding store_records
  store_records-Follows [] k ev stored us d h small r =
      (refl, h, IsRun-longer p n0 k (k + 0) us d (omega arith) r)
  store_records-Follows (x ∷ xs) k ev stored us d h small r =
      go (store_records-Follows xs (k + 1)) (store_record p path_max x ev stored d)
        (plan_record path_max x ev stored us)
        (store_record-Follows k x ev stored us d h (omega (arith, small)) r)
    where
      m : ℕ
      m = k + length (x ∷ xs)

      go :
          ((ev' : Event) (stored' : Bool) (us' : List Access) (d' : Db F)
            → ev'.timestamp ≡ t
            → n0 + 2 * (k + 1 + length xs) < u64_mod
            → IsRun p n0 (k + 1) us' d'
            → Follows p n0
                (At t)
                (k + 1 + length xs)
                (store_records p path_max xs ev' stored' d')
                (plan_records path_max xs ev' stored' us'))
          → (y : Option (Loop × Db F)) (z : Option (Loop × List Access))
          → Follows p n0 (At t) (k + 1) y z
          → Follows p n0
              (At t)
              m
              (elim y [
                | none ↦ none
                | some (l, d') ↦
                    (if is_zero l.rc && not l.skip
                        then store_records p path_max xs l.event l.stored
                        else pure l)
                      d'
              ])
              (elim z [
                | none ↦ none
                | some (l, us') ↦
                    let rest = plan_records path_max xs l.event l.stored us' in
                    if is_zero l.rc && not l.skip then rest else some (l, us')
              ])
      go ih none none f = tt
      go ih none (some z) f = elim f [ ]
      go ih (some (a, d')) none f = elim f [ ]
      go ih (some (a, d')) (some (l, us')) (e, q, run) =
          rw e (elim (Bool-cases (is_zero l.rc && not l.skip)) [
            | inl c ↦ rw c (
                Follows-longer p n0 (At t) (k + 1 + length xs) m _ _ (omega arith)
                  (ih l.event l.stored us' d' q (omega (arith, small)) run))
            | inr c ↦ rw c (refl, q, IsRun-longer p n0 (k + 1) m us' d' (omega arith) run)
          ])
