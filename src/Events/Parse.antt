-- ===== src/Events/Parse.antt =====
-- The three record parsers of sources/fusgd/src/store.c, in a build with assertions: `parse_syscall`,
-- `parse_cwd` and `parse_path`. Log messages are not modelled.
use fusg.Base.{
  ℕ, Bool, true, false, ◌||◌, List, [], ◌∷◌, Option, none, some, Bytes, codes, ℤ, pos, success,
  is_zero, equal, if◌then◌else◌,
}
use fusg.Db.Usage.{FileUsage}
use fusg.Events.Audit.{Field}

-- `fusg_event_t`
pub record Event : Type 0 where
  pub executable : Option Bytes
  pub filepath : Option Bytes
  pub flags : FileUsage
  pub timestamp : ℕ
  pub serial : ℕ
  pub syscall_number : ℕ
  pub syscall_success : Bool
  pub cwd : Option Bytes

-- `ERR_AUPARSE`
abbrev pub err_auparse : ℤ
err_auparse = pos 4

abbrev pub no_usage : FileUsage
no_usage = record { read = false; write = false; exec = false; creat = false; delet = false }

-- any flag is set
abbrev pub any_usage : FileUsage → Bool
any_usage u = u.read || (u.write || (u.exec || (u.creat || u.delet)))

-- `event_valid`
unfoldable pub event_valid : Event → Bool
event_valid ev = elim ev.executable [
  | none ↦ false
  | some e ↦ elim ev.filepath [ none ↦ false | some f ↦ any_usage ev.flags ]
]

-- `check_field_value`
unfoldable pub check_field_value : Field → Bytes → ℤ
check_field_value field expected = elim field.interpreted [
  | none ↦ success
  | some value ↦ if equal value expected then success else err_auparse
]

-- What one field does: the loop goes on, or the parser returns a code.
pub data Step : Type 0 where
  next : Event → Step
  stop : ℤ → Event → Step
  assertion_failed : Step

abbrev pub success_field : Option Bytes → Event → Step
success_field none ev = stop err_auparse ev
success_field (some value) ev =
    if equal value (codes "yes")
    then next (record ev { syscall_success = true })
    else (if equal value (codes "no")
        then next (record ev { syscall_success = false })
        else stop err_auparse ev)

unfoldable pub syscall_field : Field → Event → Step
syscall_field field ev =
    if equal field.name (codes "type")
    then (if is_zero (check_field_value field (codes "SYSCALL")) then next ev else assertion_failed)
    else (if equal field.name (codes "syscall")
        then next (record ev { syscall_number = field.number })
        else (if equal field.name (codes "success")
            then success_field field.value ev
            else (if equal field.name (codes "exe")
                then next (record ev { executable = field.interpreted })
                else next ev)))

unfoldable pub cwd_field : Field → Event → Step
cwd_field field ev =
    if equal field.name (codes "type")
    then (if is_zero (check_field_value field (codes "CWD")) then next ev else stop err_auparse ev)
    else (if equal field.name (codes "cwd")
        then stop (elim field.interpreted [ none ↦ err_auparse | some c ↦ success ])
            (record ev { cwd = field.interpreted })
        else next ev)

-- the flag of a `nametype`; an unknown one is only logged
abbrev pub nametype_flags : Bytes → FileUsage → FileUsage
nametype_flags value u =
    if equal value (codes "PARENT")
    then record u { exec = true }
    else (if equal value (codes "NORMAL")
        then record u { read = true }
        else (if equal value (codes "CREATE")
            then record u { creat = true }
            else (if equal value (codes "DELETE") then record u { delet = true } else u)))

-- a null `nametype` goes to `strcmp`, which is undefined
abbrev pub nametype_field : Option Bytes → Event → Step
nametype_field none ev = assertion_failed
nametype_field (some value) ev = next (record ev { flags = nametype_flags value ev.flags })

unfoldable pub path_field : Field → Event → Step
path_field field ev =
    if equal field.name (codes "type")
    then (if is_zero (check_field_value field (codes "PATH")) then next ev else stop err_auparse ev)
    else (if equal field.name (codes "name")
        then next (record ev { filepath = field.interpreted })
        else (if equal field.name (codes "nametype")
            then nametype_field field.interpreted ev
            else next ev))

-- `do … while (auparse_next_field(au) > 0)`; `finish` is what stands behind the loop, and `none` an
-- abort
unfoldable pub each_field :
    (Field → Event → Step) → (Event → ℤ × Event) → List Field → Event → Option (ℤ × Event)
each_field step finish [] ev = some (finish ev)
each_field step finish (field ∷ fields) ev = elim (step field ev) [
  | next ev' ↦ each_field step finish fields ev'
  | stop rc ev' ↦ some (rc, ev')
  | assertion_failed ↦ none
]

abbrev pub required : Option Bytes → ℤ
required none = err_auparse
required (some s) = success

-- a record without a first field is refused
abbrev pub parse_fields :
    (Field → Event → Step) → (Event → ℤ × Event) → List Field → Event → Option (ℤ × Event)
parse_fields step finish [] ev = some (err_auparse, ev)
parse_fields step finish (field ∷ fields) ev = each_field step finish (field ∷ fields) ev

unfoldable pub parse_syscall : List Field → Event → Option (ℤ × Event)
parse_syscall fields ev =
    parse_fields syscall_field (λ e. (required e.executable, e)) fields
      (record ev { executable = none })

unfoldable pub parse_cwd : List Field → Event → Option (ℤ × Event)
parse_cwd fields ev =
    parse_fields cwd_field (λ e. (required e.cwd, e)) fields (record ev { cwd = none })

-- an event without a flag is a read
abbrev pub with_usage : Event → Event
with_usage ev =
    if any_usage ev.flags then ev else record ev { flags = record no_usage { read = true } }

unfoldable pub parse_path : List Field → Event → Option (ℤ × Event)
parse_path fields ev =
    parse_fields path_field (λ e. let e' = with_usage e in (required e'.filepath, e')) fields
      (record ev { filepath = none })
