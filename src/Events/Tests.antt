-- ===== src/Events/Tests.antt =====
-- A run of an audit event on a database in memory, and the properties at concrete records.
use fusg.Base.{ℕ, true, false, [], ◌∷◌, some, Bytes, codes, success, ◌≡◌, refl, arith, ◌⊎◌, equal}
use fusg.FilePath.Absolute.{absolute, null, fabsolute}
use fusg.FilePath.Canonical.{fiscanonical}
use fusg.Db.State.{Db}
use fusg.Db.Update.{IsUpdate}
use fusg.Db.Initial.{initial as started, initial-IsConsistent as started-IsConsistent}
use fusg.Db.Memory.{Entries, memory, memory-IsMap, memory-IsReliable}
use fusg.Events.Audit.{Field, audit_syscall, audit_path}
use fusg.Events.Parse.{
  Event, no_usage, parse_syscall, parse_path, each_field, syscall_field, path_field,
}
use fusg.Events.Store.{started_event, store_path, store_event}
use fusg.Events.Canonical.{after_record, store_path-IsUpdate, store_event-failed_call}
use fusg.Events.Paths.{IsParsed, parse_path-IsParsed}

abbrev field : Bytes → Bytes → Field
field name content = record {
  name = name;
  number = 0;
  value = some content;
  interpreted = some content;
}

abbrev reader : Event
reader = record (started_event 1 7) {
  executable = some (codes "/bin/vi");
  filepath = some (codes "../n");
  cwd = some (b'/' ∷ codes "usr");
  flags = record no_usage { read = true };
}

store_path-IsUpdate_example :
    ((fabsolute 64 (some (b'/' ∷ codes "usr")) (some (codes "../n")) ≡ null)
      × (store_path memory 64 reader false started ≡ some (after_record reader false, started)))
    ⊎ ((s : Bytes) × (d' : Db Entries) × (n' : ℕ) × (fabsolute 64
            (some (b'/' ∷ codes "usr"))
            (some (codes "../n"))
          ≡ absolute s)
        × (fiscanonical s ≡ true)
        × (store_path memory 64 reader false started ≡ some (after_record reader true, d'))
        × IsUpdate memory (codes "/bin/vi") s reader.flags 7 0 started n' d')
store_path-IsUpdate_example =
    store_path-IsUpdate memory 64 memory-IsMap memory-IsReliable reader false (codes "/bin/vi")
      (codes "../n") (codes "usr") 0 started refl refl refl refl (omega arith) (omega arith)
      (omega arith) started-IsConsistent

abbrev failed_call : Event
failed_call = record (started_event 1 7) { executable = some (codes "/bin/vi") }

store_event-failed_call_example :
    store_event memory 64
      (some (record {
        serial = 1;
        seconds = 7;
        records =
            record {
              type = audit_syscall;
              fields =
                  field (codes "success") (codes "no") ∷ field (codes "exe") (codes "/bin/vi") ∷ [];
            }
            ∷ record { type = audit_path; fields = field (codes "name") (codes "/n") ∷ [] }
            ∷ [];
      }))
      3
      started
    ≡ some ((success, 3), started)
unfolding parse_syscall each_field syscall_field equal
store_event-failed_call_example =
    store_event-failed_call memory 64 1 7 3
      (field (codes "success") (codes "no") ∷ field (codes "exe") (codes "/bin/vi") ∷ [])
      (record { type = audit_path; fields = field (codes "name") (codes "/n") ∷ [] } ∷ []) success
      failed_call started refl refl

parse_path-IsParsed_example : IsParsed (parse_path (field (codes "name") (codes "/n") ∷ []) reader)
parse_path-IsParsed_example = parse_path-IsParsed (field (codes "name") (codes "/n") ∷ []) reader

test_parse_path :
    parse_path
      (field (codes "name") (codes "/n") ∷ field (codes "nametype") (codes "CREATE") ∷ [])
      (started_event 1 7)
    ≡ some (
      success,
      record (started_event 1 7) {
        filepath = some (codes "/n");
        flags = record no_usage { creat = true };
      },
    )
unfolding parse_path each_field path_field equal
test_parse_path = refl
