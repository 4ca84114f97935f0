-- ===== src/Events/Plan.antt =====
-- What an audit event asks of the database, without one: the updates that `store_event` makes, as a
-- list with the last one first.
use fusg.Base.{
  ℕ, ◌+◌, ◌%◌, Bool, true, false, not, ◌&&◌, List, [], ◌∷◌, Option, none, some, ℤ, success, is_zero,
  if◌then◌else◌,
}
use fusg.Word.{u64_mod}
use fusg.FilePath.Absolute.{fabsolute}
use fusg.Db.History.{Access}
use fusg.Events.Audit.{audit_syscall, audit_cwd, audit_path, other_type, Record, Audit}
use fusg.Events.Parse.{
  Event, err_auparse, no_usage, event_valid, parse_syscall, parse_cwd, parse_path,
}
use fusg.Events.Store.{Loop, or_empty, at_path, started_event, is_syscall}

-- the update for an event
abbrev pub access_of : Event → Access
access_of ev = record {
  executable = or_empty ev.executable;
  filepath = or_empty ev.filepath;
  flags = ev.flags;
  time = ev.timestamp;
}

-- a code, an event, whether to go on, and whether something was stored
abbrev pub looped : ℤ → Event → Bool → Bool → Loop
looped rc ev skip stored = record { rc = rc; event = ev; skip = skip; stored = stored }

abbrev pub reset : Event → Event
reset ev = record ev { filepath = none; flags = no_usage }

-- A valid event is an update; one that is not valid is none.
abbrev pub plan_valid : Event → Bool → List Access → Loop × List Access
plan_valid ev stored us =
    if event_valid ev
    then (looped success (reset ev) false true, access_of ev ∷ us)
    else (looped success (reset ev) false stored, us)

abbrev pub plan_at : Option Event → Bool → List Access → Option (Loop × List Access)
plan_at none stored us = none
plan_at (some ev) stored us = some (plan_valid ev stored us)

module _ (path_max : ℕ) where
  abbrev pub plan_syscall : Option (ℤ × Event) → Bool → List Access → Option (Loop × List Access)
  plan_syscall none stored us = none
  plan_syscall (some (rc, ev)) stored us = some (looped rc ev (not ev.syscall_success) stored, us)

  abbrev pub plan_cwd : Option (ℤ × Event) → Bool → List Access → Option (Loop × List Access)
  plan_cwd none stored us = none
  plan_cwd (some (rc, ev)) stored us = some (looped rc ev false stored, us)

  abbrev pub plan_path : Option (ℤ × Event) → Bool → List Access → Option (Loop × List Access)
  plan_path none stored us = none
  plan_path (some (rc, ev)) stored us =
      if is_zero rc
      then plan_at (at_path (fabsolute path_max ev.cwd ev.filepath) ev) stored us
      else some (looped rc ev false stored, us)

  abbrev pub plan_record : Record → Event → Bool → List Access → Option (Loop × List Access)
  plan_record r ev stored us = elim r.type [
    | audit_syscall ↦ plan_syscall (parse_syscall r.fields ev) stored us
    | audit_cwd ↦ plan_cwd (parse_cwd r.fields ev) stored us
    | audit_path ↦ plan_path (parse_path r.fields ev) stored us
    | other_type ↦ some (looped success ev false stored, us)
  ]

  abbrev pub plan_records : List Record → Event → Bool → List Access → Option (Loop × List Access)
  plan_records [] ev stored us = some (looped success ev false stored, us)
  plan_records (r ∷ rs) ev stored us = elim (plan_record r ev stored us) [
    | none ↦ none
    | some (l, us') ↦
        let rest = plan_records rs l.event l.stored us' in
        if is_zero l.rc && not l.skip then rest else some (l, us')
  ]

  -- behind the loop: an event that stored something without an error is counted
  abbrev pub plan_counted : ℕ → Option (Loop × List Access) → Option ((ℤ × ℕ) × List Access)
  plan_counted c none = none
  plan_counted c (some (l, us)) =
      some ((l.rc, if is_zero l.rc && l.stored then (c + 1) % u64_mod else c), us)

  -- An event without a time stamp, without records, or whose first record is of another type than a
  -- system call, asks for nothing; `c` are the events that were stored before.
  abbrev pub plan_event : Option Audit → ℕ → List Access → Option ((ℤ × ℕ) × List Access)
  plan_event none c us = some ((err_auparse, c), us)
  plan_event (some a) c us = elim a.records [
    | [] ↦ some ((err_auparse, c), us)
    | r ∷ rs ↦
        let stored =
          plan_counted c (plan_records (r ∷ rs) (started_event a.serial a.seconds) false us) in
        if is_syscall r.type then stored else some ((success, c), us)
  ]
