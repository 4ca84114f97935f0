-- ===== src/Events/Planned.antt =====
-- `store_event` of sources/fusgd/src/store.c as a whole, against the plan of its event.
use fusg.Base.{
  ℕ, ◌%◌, ◌+◌, ◌*◌, ◌<◌, false, ◌&&◌, List, [], ◌∷◌, Option, none, some, ℤ, is_zero, if◌then◌else◌,
  length, ◌≡◌, refl, inl, inr, arith, Bool-cases,
}
use fusg.Word.{u64_mod}
use fusg.Db.Platform.{Platform, IsMap, IsReliable}
use fusg.Db.State.{Db}
use fusg.Db.History.{Access}
use fusg.Events.Audit.{Record, Audit}
use fusg.Events.Store.{Loop, started_event, is_syscall, store_event}
use fusg.Events.Plan.{plan_counted, plan_event}
use fusg.Events.Follows.{IsRun, IsRun-longer, Follows, store_records-Follows}

-- each record makes one update at most
abbrev pub records_in : Option Audit → ℕ
records_in none = 0
records_in (some a) = length a.records

-- the time stamp fits the 64 bits of an entry
abbrev pub IsTimely : Option Audit → Type 0
IsTimely none = Unit
IsTimely (some a) = a.seconds < u64_mod

module _ {F : Type 0} (p : Platform F) (map : IsMap p) (ok : IsReliable p) (path_max n0 : ℕ) where
  abbrev pub Planned : ℕ → Option ((ℤ × ℕ) × Db F) → Option ((ℤ × ℕ) × List Access) → Type 0
  Planned k = Follows p n0 (λ _. Unit {0}) k

  counted-Planned :
      (t k c : ℕ) (x : Option (Loop × Db F)) (y : Option (Loop × List Access))
      → Follows p n0 (λ l. l.event.timestamp ≡ t) k x y
      → Planned k
          (elim x [
            | none ↦ none
            | some (l, d) ↦
                some ((l.rc, if is_zero l.rc && l.stored then (c + 1) % u64_mod else c), d)
          ])
          (plan_counted path_max c y)
  counted-Planned t k c none none f = tt
  counted-Planned t k c none (some y) f = elim f [ ]
  counted-Planned t k c (some (a, d)) none f = elim f [ ]
  counted-Planned t k c (some (a, d)) (some (b, us)) (e, q, r) = rw e (refl, tt, r)

  pub store_event-Planned :
      (a : Option Audit) (k c : ℕ) (us : List Access) (d : Db F)
      → IsTimely a
      → n0 + 2 * (k + records_in a) < u64_mod
      → IsRun p n0 k us d
      → Planned (k + records_in a) (store_event p path_max a c d) (plan_event path_max a c us)
  unfolding store_event
  store_event-Planned none k c us d timely small r =
      (refl, tt, IsRun-longer p n0 k (k + 0) us d (omega arith) r)
  store_event-Planned (some a) k c us d timely small r = go a.records small
    where
      go :
          (rs : List Record)
          → n0 + 2 * (k + length rs) < u64_mod
          → Planned
              (k + length rs)
              (store_event p path_max (some (record a { records = rs })) c d)
              (plan_event path_max (some (record a { records = rs })) c us)
      go [] h = (refl, tt, IsRun-longer p n0 k (k + 0) us d (omega arith) r)
      go (x ∷ xs) h = elim (Bool-cases (is_syscall x.type)) [
        | inl e ↦ rw e (
            counted-Planned a.seconds (k + length (x ∷ xs)) c _ _ (
              store_records-Follows p map ok path_max n0 a.seconds timely (x ∷ xs) k
                (started_event a.serial a.seconds) false us d refl h r))
        | inr e ↦ rw e (refl, tt, IsRun-longer p n0 k (k + length (x ∷ xs)) us d (omega arith) r)
      ]
