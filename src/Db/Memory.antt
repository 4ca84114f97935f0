-- ===== src/Db/Memory.antt =====
-- A platform that keeps a gdbm file as an association list in memory: one that the properties of
-- the database can be run on.
use fusg.Base.{
  true, false, List, [], ◌∷◌, Option, none, some, Bytes, success, equal, if◌then◌else◌, ◌≢◌, refl,
  inl, inr, Bool-cases,
}
use fusg.Db.Platform.{Fetched, found, missing, failed, Platform, IsMap, IsReliable}
use fusg.Db.State.{Db, item_not_found}

abbrev pub Entries : Type 0
Entries = List (Bytes × Bytes)

abbrev pub lookup : Entries → Bytes → Fetched
lookup [] key = missing
lookup ((k, v) ∷ entries) key =
    let rest = lookup entries key in if equal k key then found v else rest

abbrev first : Entries → Option Bytes
first [] = none
first ((k, v) ∷ entries) = some k

abbrev next : Entries → Bytes → Option Bytes
next [] key = none
next ((k, v) ∷ entries) key =
    let rest = next entries key in if equal k key then first entries else rest

-- a new content stands before the one it replaces, which an iteration still meets
abbrev pub memory : Platform Entries
memory = record {
  fetch = lookup;
  store = λ f k v. (success, (k, v) ∷ f);
  first_key = first;
  next_key = next;
  flock = λ n op. success;
}

pub memory-IsMap : IsMap memory
memory-IsMap = record { stored = λ f k v h j. refl; refused = λ f k v h j. absurd (h refl) }

lookup-no_failure : (f : Entries) (k : Bytes) → lookup f k ≢ failed
lookup-no_failure [] k h = cc h
lookup-no_failure ((j, v) ∷ f) k h = elim (Bool-cases (equal j k)) [
  | inl e ↦ cc (rw e at h)
  | inr e ↦ lookup-no_failure f k (rw e at h)
]

pub memory-IsReliable : IsReliable memory
memory-IsReliable = record { stores = λ f k v. refl; reads = lookup-no_failure }

-- open to read, write and sync, with no entries
abbrev pub blank : Db Entries
blank = record {
  open_flags = record { read = true; write = true; sync = true };
  dirty = false;
  lock_depth = 0;
  exec_db = [];
  execr_db = [];
  file_db = [];
  filer_db = [];
  evnt_db = [];
  idtb_db = [];
  gdbm_errno = item_not_found;
  calls = [];
}
