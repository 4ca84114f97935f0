-- ===== src/Events/Store.antt =====
-- `store_event` of sources/fusgd/src/store.c.
use fusg.Base.{
  ℕ, ◌+◌, ◌%◌, Bool, true, false, not, ◌&&◌, List, [], ◌∷◌, Option, none, some, Bytes, ℤ, success,
  is_zero, if◌then◌else◌,
}
use fusg.Word.{u64_mod}
use fusg.Db.Platform.{Platform}
use fusg.Db.State.{M, pure, abort, ◌>>=◌}
use fusg.Db.Usage.{db_update}
use fusg.FilePath.Absolute.{Absolute, absolute, null, undefined, fabsolute}
use fusg.Events.Audit.{RecordType, audit_syscall, audit_cwd, audit_path, other_type, Record, Audit}
use fusg.Events.Parse.{
  Event, err_auparse, no_usage, event_valid, parse_syscall, parse_cwd, parse_path,
}

abbrev pub or_empty : Option Bytes → Bytes
or_empty none = []
or_empty (some s) = s

-- an event with `fusg.filepath` from `fabsolute`; an access outside of the buffer is `none`
abbrev pub at_path : Absolute → Event → Option Event
at_path (absolute s) ev = some (record ev { filepath = some s })
at_path null ev = some (record ev { filepath = none })
at_path undefined ev = none

-- the state of the loop over the records: `rc`, the event, `skip` and `stored`
pub record Loop : Type 0 where
  pub rc : ℤ
  pub event : Event
  pub skip : Bool
  pub stored : Bool

abbrev pub started_event : ℕ → ℕ → Event
started_event serial seconds = record {
  executable = none;
  filepath = none;
  flags = no_usage;
  timestamp = seconds;
  serial = serial;
  syscall_number = 0;
  syscall_success = false;
  cwd = none;
}

abbrev pub is_syscall : RecordType → Bool
is_syscall audit_syscall = true
is_syscall _ = false

module _ {F : Type 0} (p : Platform F) (path_max : ℕ) where
  -- the update of a valid event, and the reset of its variable entries; both pointers are set then
  unfoldable pub store_valid : Event → Bool → M F Loop
  store_valid ev stored = do
    let update : M F (ℤ × Bool) = do
      rc ← db_update p (or_empty ev.executable) (or_empty ev.filepath) ev.flags ev.timestamp
      pure (rc, true)
    (rc, stored') ← if event_valid ev then update else pure (success, stored)
    pure (record {
      rc = rc;
      event = record ev { filepath = none; flags = no_usage };
      skip = false;
      stored = stored';
    })

  -- a PATH record behind its parser
  unfoldable pub store_path : Event → Bool → M F Loop
  store_path ev stored = elim (at_path (fabsolute path_max ev.cwd ev.filepath) ev) [
    | none ↦ abort
    | some ev' ↦ store_valid ev' stored
  ]

  abbrev pub after_syscall : Option (ℤ × Event) → Bool → M F Loop
  after_syscall none stored = abort
  after_syscall (some (rc, ev)) stored =
      pure (record { rc = rc; event = ev; skip = not ev.syscall_success; stored = stored })

  abbrev pub after_cwd : Option (ℤ × Event) → Bool → M F Loop
  after_cwd none stored = abort
  after_cwd (some (rc, ev)) stored =
      pure (record { rc = rc; event = ev; skip = false; stored = stored })

  abbrev pub after_path : Option (ℤ × Event) → Bool → M F Loop
  after_path none stored = abort
  after_path (some (rc, ev)) stored =
      if is_zero rc
      then store_path ev stored
      else pure (record { rc = rc; event = ev; skip = false; stored = stored })

  -- one round of the loop over the records
  unfoldable pub store_record : Record → Event → Bool → M F Loop
  store_record r ev stored = elim r.type [
    | audit_syscall ↦ after_syscall (parse_syscall r.fields ev) stored
    | audit_cwd ↦ after_cwd (parse_cwd r.fields ev) stored
    | audit_path ↦ after_path (parse_path r.fields ev) stored
    | other_type ↦ pure (record { rc = success; event = ev; skip = false; stored = stored })
  ]

  unfoldable pub store_records : List Record → Event → Bool → M F Loop
  store_records [] ev stored =
      pure (record { rc = success; event = ev; skip = false; stored = stored })
  store_records (r ∷ rs) ev stored = do
    state ← store_record r ev stored
    if is_zero state.rc && not state.skip
        then store_records rs state.event state.stored
        else pure state

  -- `counted` is `global.events_stored`; a null time stamp is `none`
  unfoldable pub store_event : Option Audit → ℕ → M F (ℤ × ℕ)
  store_event none counted = pure (err_auparse, counted)
  store_event (some a) counted = elim a.records [
    | [] ↦ pure (err_auparse, counted)
    | r ∷ rs ↦
        let store : M F (ℤ × ℕ) = do
          state ← store_records (r ∷ rs) (started_event a.serial a.seconds) false
          pure (
            state.rc,
            if is_zero state.rc && state.stored then (counted + 1) % u64_mod else counted,
          )
        in if is_syscall r.type then store else pure (success, counted)
  ]
