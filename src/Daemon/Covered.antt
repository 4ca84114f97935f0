-- ===== src/Daemon/Covered.antt =====
-- The callbacks that the main loop of the daemon handles are among those that it meets.
use fusg.Base.{
  ◌≤◌, Bool, true, false, not, ◌&&◌, ◌||◌, List, [], ◌∷◌, ◌++◌, Option, none, some, is_zero,
  if◌then◌else◌, arith,
}
use fusg.Daemon.State.{Mode, Callback, Round}
use fusg.Daemon.Work.{is_positive}
use fusg.Daemon.Plan.{
  records_all, IsTimelyAll, or_nothing, Waited, waited, chosen, handled_then, handled_all,
}
use fusg.Daemon.Planned.{records_all-append, IsTimelyAll-append}

abbrev pub callbacks_in : Round → List Callback
callbacks_in r = or_nothing r.line ++ (or_nothing r.aged ++ r.flushed)

-- the callbacks that the rounds and the end of the loop offer
abbrev pub all_callbacks : List Round → List Callback → List Callback
all_callbacks [] last = last
all_callbacks (r ∷ rs) last = callbacks_in r ++ all_callbacks rs last

-- `ys` has no more records than `xs`, and is timely where `xs` is
pub record Covers (xs ys : List Callback) : Type 0 where
  pub records : records_all ys ≤ records_all xs
  pub timely : IsTimelyAll xs → IsTimelyAll ys

IsTimelyAll-join :
    (xs ys : List Callback) → IsTimelyAll xs → IsTimelyAll ys → IsTimelyAll (xs ++ ys)
IsTimelyAll-join [] ys h k = k
IsTimelyAll-join (x ∷ xs) ys h k = (h.0, IsTimelyAll-join xs ys h.1 k)

Covers-refl : (xs : List Callback) → Covers xs xs
Covers-refl xs = record { records = omega arith; timely = λ h. h }

Covers-nil : (xs : List Callback) → Covers xs []
Covers-nil xs = record { records = omega arith; timely = λ h. tt }

Covers-append :
    (ds es xs ys : List Callback) → Covers ds xs → Covers es ys → Covers (ds ++ es) (xs ++ ys)
Covers-append ds es xs ys h k = record {
  records = omega (arith, records_all-append ds es, records_all-append xs ys, h.records, k.records);
  timely = λ t.
      let (a, b) = IsTimelyAll-append ds es t in IsTimelyAll-join xs ys (h.timely a) (k.timely b);
}

Covers-left : (ds es xs : List Callback) → Covers ds xs → Covers (ds ++ es) xs
Covers-left ds es xs h = record {
  records = omega (arith, records_all-append ds es, h.records);
  timely = λ t. h.timely (IsTimelyAll-append ds es t).0;
}

Covers-right : (ds es ys : List Callback) → Covers es ys → Covers (ds ++ es) ys
Covers-right ds es ys h = record {
  records = omega (arith, records_all-append ds es, h.records);
  timely = λ t. h.timely (IsTimelyAll-append ds es t).1;
}

chosen-Covers : (r : Round) (x : Waited) → Covers (callbacks_in r) (chosen r x)
chosen-Covers r x = go (not x.stop && not x.hup && is_positive x.value) (is_zero x.value)
  where
    go :
        (a b : Bool)
        → Covers
            (callbacks_in r)
            (if a then or_nothing r.line else (if b then or_nothing r.aged ++ r.flushed else []))
    go true b = Covers-left (or_nothing r.line) _ _ (Covers-refl (or_nothing r.line))
    go false true =
        Covers-right (or_nothing r.line) _ _ (Covers-refl (or_nothing r.aged ++ r.flushed))
    go false false = Covers-nil (callbacks_in r)

all_callbacks-last : (rs : List Round) (last : List Callback) → Covers (all_callbacks rs last) last
all_callbacks-last [] last = Covers-refl last
all_callbacks-last (r ∷ rs) last = Covers-right (callbacks_in r) _ _ (all_callbacks-last rs last)

pub handled_all-Covers :
    (m : Mode) (rs : List Round) (last : List Callback) (stop : Bool)
    → Covers (all_callbacks rs last) (handled_all m rs last stop)
handled_all-Covers m [] last stop = Covers-nil last
handled_all-Covers m (r ∷ rs) last stop =
    go (waited m (stop || r.before.term) r.waits) (handled_all-Covers m rs last)
  where
    go :
        (w : Option Waited)
        → ((b : Bool) → Covers (all_callbacks rs last) (handled_all m rs last b))
        → Covers
            (callbacks_in r ++ all_callbacks rs last)
            (handled_then r last (handled_all m rs last) w)
    go none ih = Covers-nil _
    go (some x) ih =
        Covers-append (callbacks_in r) _ _ _ (chosen-Covers r x)
          (then_rest (not r.eof && not (x.stop || r.after.term)))
      where
        then_rest :
            (b : Bool)
            → Covers
                (all_callbacks rs last)
                (if b then handled_all m rs last (x.stop || r.after.term) else last)
        then_rest true = ih (x.stop || r.after.term)
        then_rest false = all_callbacks-last rs last
