-- ===== src/Events/Audit.antt =====
-- What libauparse hands to sources/fusgd/src/store.c, which this repository does not implement: an
-- event as its time stamp and its records, a record as its type and its fields, in the order in
-- which `auparse_next_record` and `auparse_next_field` step through them.
use fusg.Base.{ℕ, List, Option, Bytes}

-- `value` is `auparse_get_field_str`, `number` is `auparse_get_field_int` and `interpreted` is
-- `auparse_interpret_field`; `none` is the null pointer
pub record Field : Type 0 where
  pub name : Bytes
  pub number : ℕ
  pub value : Option Bytes
  pub interpreted : Option Bytes

pub data RecordType : Type 0 where
  audit_syscall audit_cwd audit_path other_type : RecordType

pub record Record : Type 0 where
  pub type : RecordType
  pub fields : List Field

pub record Audit : Type 0 where
  pub serial : ℕ
  pub seconds : ℕ
  pub records : List Record
