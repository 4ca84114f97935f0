-- ===== src/Events/Still.antt =====
-- `store_event` of sources/fusgd/src/store.c leaves the files of the database open and its lock accounted
-- for, whatever gdbm and flock answer.
use fusg.Base.{ℕ, Bool, false, not, ◌&&◌, List, [], ◌∷◌, Option, none, some, ℤ, is_zero}
use fusg.Db.Platform.{Platform}
use fusg.Db.State.{OpenFlags, M, abort}
use fusg.Db.Still.{Keeps, bind-Keeps, if-Keeps}
use fusg.Db.Still.Update.{db_update-Keeps}
use fusg.FilePath.Absolute.{fabsolute}
use fusg.Events.Audit.{RecordType, audit_syscall, audit_cwd, audit_path, other_type, Record, Audit}
use fusg.Events.Parse.{Event, event_valid, parse_syscall, parse_cwd, parse_path}
use fusg.Events.Store.{
  or_empty, at_path, Loop, started_event, is_syscall, store_valid, store_path, after_syscall,
  after_cwd, after_path, store_record, store_records, store_event,
}

module _ {F : Type 0} (p : Platform F) (path_max : ℕ) (flags : OpenFlags) where
  store_valid-Keeps : (ev : Event) (stored : Bool) → Keeps flags (store_valid p path_max ev stored)
  unfolding store_valid
  store_valid-Keeps ev stored =
      bind-Keeps flags _ _
        (if-Keeps flags (event_valid ev) _ _
          (bind-Keeps flags _ _
            (db_update-Keeps p flags (or_empty ev.executable) (or_empty ev.filepath) ev.flags
              ev.timestamp)
            (λ rc d s. s))
          (λ d s. s))
        (λ x d s. s)

  at_path-Keeps :
      (x : Option Event) (stored : Bool)
      → Keeps {A = Loop} flags
          (elim x as (λ _. M F Loop) [ none ↦ abort | some ev ↦ store_valid p path_max ev stored ])
  at_path-Keeps none stored = λ d s. tt
  at_path-Keeps (some ev) stored = store_valid-Keeps ev stored

  store_path-Keeps : (ev : Event) (stored : Bool) → Keeps flags (store_path p path_max ev stored)
  unfolding store_path
  store_path-Keeps ev stored =
      at_path-Keeps (at_path (fabsolute path_max ev.cwd ev.filepath) ev) stored

  after_syscall-Keeps :
      (x : Option (ℤ × Event)) (stored : Bool) → Keeps flags (after_syscall p path_max x stored)
  after_syscall-Keeps none stored = λ d s. tt
  after_syscall-Keeps (some (rc, ev)) stored = λ d s. s

  after_cwd-Keeps :
      (x : Option (ℤ × Event)) (stored : Bool) → Keeps flags (after_cwd p path_max x stored)
  after_cwd-Keeps none stored = λ d s. tt
  after_cwd-Keeps (some (rc, ev)) stored = λ d s. s

  after_path-Keeps :
      (x : Option (ℤ × Event)) (stored : Bool) → Keeps flags (after_path p path_max x stored)
  after_path-Keeps none stored = λ d s. tt
  after_path-Keeps (some (rc, ev)) stored =
      if-Keeps flags (is_zero rc) _ _ (store_path-Keeps ev stored) (λ d s. s)

  typed-Keeps :
      (t : RecordType) (r : Record) (ev : Event) (stored : Bool)
      → Keeps flags (store_record p path_max (record r { type = t }) ev stored)
  unfolding store_record
  typed-Keeps audit_syscall r ev stored = after_syscall-Keeps (parse_syscall r.fields ev) stored
  typed-Keeps audit_cwd r ev stored = after_cwd-Keeps (parse_cwd r.fields ev) stored
  typed-Keeps audit_path r ev stored = after_path-Keeps (parse_path r.fields ev) stored
  typed-Keeps other_type r ev stored = λ d s. s

  store_records-Keeps :
      (rs : List Record) (ev : Event) (stored : Bool)
      → Keeps flags (store_records p path_max rs ev stored)
  unfolding store_records
  store_records-Keeps [] ev stored = λ d s. s
  store_records-Keeps (r ∷ rs) ev stored =
      bind-Keeps flags (store_record p path_max r ev stored) _ (typed-Keeps r.type r ev stored)
        (λ l.
          if-Keeps flags (is_zero l.rc && not l.skip) _ _ (store_records-Keeps rs l.event l.stored)
            (λ d s. s))

  pub store_event-Keeps : (a : Option Audit) (c : ℕ) → Keeps flags (store_event p path_max a c)
  unfolding store_event
  store_event-Keeps none c = λ d s. s
  store_event-Keeps (some a) c = go a.records
    where
      go :
          (rs : List Record)
          → Keeps flags (store_event p path_max (some (record a { records = rs })) c)
      go [] = λ d s. s
      go (r ∷ rs) =
          if-Keeps flags (is_syscall r.type) _ _
            (bind-Keeps flags _ _
              (store_records-Keeps (r ∷ rs) (started_event a.serial a.seconds) false) (λ l d s. s))
            (λ d s. s)
