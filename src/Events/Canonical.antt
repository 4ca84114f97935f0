-- ===== src/Events/Canonical.antt =====
-- A PATH record stores an update under a canonical path, or nothing.
use mathlib.Core.Path.{ap₂}
use fusg.Base.{
  ℕ, ◌+◌, ◌<◌, Bool, true, false, List, ◌∷◌, none, some, Bytes, ℤ, success, is_zero, length, ◌≡◌,
  refl, sym, ◌∙◌, ◌⊎◌, inl, inr, arith, Bool-cases,
}
use fusg.Word.{u64_mod}
use fusg.FilePath.Absolute.{Absolute, absolute, null, undefined, fabsolute}
use fusg.FilePath.Canonical.{fiscanonical}
use fusg.FilePath.Joined.{fabsolute-defined, fabsolute-fiscanonical}
use fusg.Db.Platform.{Platform, IsMap, IsReliable}
use fusg.Db.State.{Db, ◌>>=◌}
use fusg.Db.Usage.{db_update}
use fusg.Db.Consistent.{IsConsistent}
use fusg.Db.Update.{IsUpdate, db_update-usage}
use fusg.Events.Audit.{audit_syscall, Field, Record}
use fusg.Events.Parse.{Event, no_usage, any_usage, event_valid, parse_syscall}
use fusg.Events.Store.{
  or_empty, at_path, Loop, started_event, store_valid, store_path, store_record, store_records,
  store_event,
}

Absolute-cases : (x : Absolute) → ((s : Bytes) × (x ≡ absolute s)) ⊎ ((x ≡ null) ⊎ (x ≡ undefined))
Absolute-cases (absolute s) = inl (s, refl)
Absolute-cases null = inr (inl refl)
Absolute-cases undefined = inr (inr refl)

-- the variable entries of an event are reset behind a PATH record
abbrev pub after_record : Event → Bool → Loop
after_record ev stored = record {
  rc = success;
  event = record ev { filepath = none; flags = no_usage };
  skip = false;
  stored = stored;
}

is_valid :
    (ev : Event) {exe path : Bytes}
    → ev.executable ≡ some exe
    → ev.filepath ≡ some path
    → any_usage ev.flags ≡ true
    → event_valid ev ≡ true
unfolding event_valid
is_valid ev e f u = rw (e, f, event_valid) u

module _ {F : Type 0} (p : Platform F) (path_max : ℕ) where
  store_valid-update :
      (ev : Event) (stored : Bool) (exe path : Bytes) (d d' : Db F)
      → ev.executable ≡ some exe
      → ev.filepath ≡ some path
      → any_usage ev.flags ≡ true
      → db_update p exe path ev.flags ev.timestamp d ≡ some (success, d')
      → store_valid p path_max ev stored d ≡ some (after_record ev true, d')
  unfolding store_valid
  store_valid-update ev stored exe path d d' e f u r =
      let valid : event_valid ev ≡ true = is_valid ev e f u in
      let run : db_update p (or_empty ev.executable) (or_empty ev.filepath) ev.flags ev.timestamp d
          ≡ some (success, d') =
        rw (e, f) r in
      rw (valid, ◌>>=◌, run)

  store_valid-without :
      (ev : Event) (stored : Bool) (d : Db F)
      → ev.filepath ≡ none
      → store_valid p path_max ev stored d ≡ some (after_record ev stored, d)
  unfolding store_valid event_valid
  store_valid-without ev stored d f = ground arith

  store_path-at :
      (ev ev' : Event) (stored : Bool) (x : Absolute) (d : Db F)
      → fabsolute path_max ev.cwd ev.filepath ≡ x
      → at_path x ev ≡ some ev'
      → store_path p path_max ev stored d ≡ store_valid p path_max ev' stored d
  unfolding store_path
  store_path-at ev ev' stored x d q h =
      let e : at_path (fabsolute path_max ev.cwd ev.filepath) ev ≡ some ev' = rw q h in
      rw (e, store_path) refl

  module _ (map : IsMap p) (ok : IsReliable p) (ev : Event) (stored : Bool) (exe path c : Bytes)
      (n : ℕ) (d : Db F) where
    -- On a medium without errors, where each store succeeds: a PATH record of an executable, a
    -- path and a usage, with an absolute working directory that leaves room for a slash in the
    -- buffer, and with less than two ids short of 2 ^ 64 in use in a consistent database: its
    -- handler terminates with 0 and the variable entries reset. Where `fabsolute` has no path,
    -- the event's stored flag and the database are as they were. Else the flag is set, and the
    -- database is updated for the executable and the path that `fabsolute` returned, which is
    -- canonical.
    pub store_path-IsUpdate :
        ev.executable ≡ some exe
        → ev.filepath ≡ some path
        → ev.cwd ≡ some (b'/' ∷ c)
        → any_usage ev.flags ≡ true
        → length c + 2 < path_max
        → n + 2 < u64_mod
        → ev.timestamp < u64_mod
        → IsConsistent p n d
        → ((fabsolute path_max ev.cwd ev.filepath ≡ null)
            × (store_path p path_max ev stored d ≡ some (after_record ev stored, d)))
          ⊎ ((s : Bytes) × (d' : Db F) × (n' : ℕ) × (fabsolute path_max ev.cwd ev.filepath
                ≡ absolute s)
              × (fiscanonical s ≡ true)
              × (store_path p path_max ev stored d ≡ some (after_record ev true, d'))
              × IsUpdate p exe s ev.flags ev.timestamp n d n' d')
    store_path-IsUpdate e f w u room small timely con =
        elim (Absolute-cases (fabsolute path_max ev.cwd ev.filepath)) [
          | inl (s, q) ↦
              let (d', n', run, up) =
                db_update-usage p map ok exe s ev.flags ev.timestamp n d small timely con in
              inr (
                s,
                d',
                n',
                q,
                fabsolute-fiscanonical path_max c path (omega (arith, room))
                    (sym (ap₂ (fabsolute path_max) w f) ∙ q),
                store_path-at ev (record ev { filepath = some s }) stored (absolute s) d q refl
                    ∙ store_valid-update (record ev { filepath = some s }) stored exe s d d' e refl
                        u run,
                up,
              )
          | inr (inl q) ↦ inl (
            q,
            store_path-at ev (record ev { filepath = none }) stored null d q refl
                ∙ store_valid-without (record ev { filepath = none }) stored d refl,
          )
          | inr (inr q) ↦ absurd (
              fabsolute-defined path_max b'/' c (some path) (omega (arith, room))
                (sym (ap₂ (fabsolute path_max) w f) ∙ q))
        ]

  skipped : ℤ → Event → Loop
  skipped rc ev = record { rc = rc; event = ev; skip = true; stored = false }

  skipped_record :
      (fields : List Field) (ev ev' : Event) (rc : ℤ) (d : Db F)
      → parse_syscall fields ev ≡ some (rc, ev')
      → ev'.syscall_success ≡ false
      → store_record p path_max (record { type = audit_syscall; fields = fields }) ev false d
        ≡ some (skipped rc ev', d)
  unfolding store_record skipped
  skipped_record fields ev ev' rc d e s = rw (e, store_record) (rw s refl)

  skipped_records :
      (r : Record) (rs : List Record) (ev ev' : Event) (rc : ℤ) (d : Db F)
      → store_record p path_max r ev false d ≡ some (skipped rc ev', d)
      → store_records p path_max (r ∷ rs) ev false d ≡ some (skipped rc ev', d)
  unfolding store_records skipped
  skipped_records r rs ev ev' rc d h = elim (Bool-cases (is_zero rc)) [
    | inl z ↦ rw (h, ◌>>=◌, store_records) (rw z refl)
    | inr z ↦ rw (h, ◌>>=◌, store_records) (rw z refl)
  ]

  -- An event whose system call failed stores nothing, whatever records follow the first one: the
  -- database and the count of stored events are as they were, and the code is that of the first
  -- record's parser.
  pub store_event-failed_call :
      (serial seconds counted : ℕ) (fields : List Field) (rs : List Record) (rc : ℤ) (ev : Event)
      (d : Db F)
      → parse_syscall fields (started_event serial seconds) ≡ some (rc, ev)
      → ev.syscall_success ≡ false
      → store_event p path_max
          (some (record {
            serial = serial;
            seconds = seconds;
            records = record { type = audit_syscall; fields = fields } ∷ rs;
          }))
          counted
          d
        ≡ some ((rc, counted), d)
  unfolding store_event skipped
  store_event-failed_call serial seconds counted fields rs rc ev d e s =
      let first = skipped_record fields (started_event serial seconds) ev rc d e s in
      let all =
        skipped_records (record { type = audit_syscall; fields = fields }) rs
          (started_event serial seconds) ev rc d first in
      rw (all, ◌>>=◌) (elim (Bool-cases (is_zero rc)) [ inl z ↦ rw z refl | inr z ↦ rw z refl ])
