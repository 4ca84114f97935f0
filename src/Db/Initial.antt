-- ===== src/Db/Initial.antt =====
-- A database in memory as `__db_id_init` of sources/fusg-common/src/db.c leaves it, to run the parts of
-- the program on.
use fusg.Base.{[], ◌∷◌, equal_refl, refl}
use fusg.Word.{u64}
use fusg.Db.State.{Db}
use fusg.Db.Records.{datum_str}
use fusg.Db.Ids.{id_entry}
use fusg.Db.Consistent.{IsConsistent}
use fusg.Db.Fresh.{IsDictionary-empty}
use fusg.Db.Memory.{Entries, memory, blank}

abbrev pub initial : Db Entries
initial = record blank { idtb_db = (datum_str id_entry, u64 0) ∷ [] }

pub initial-IsConsistent : IsConsistent memory 0 initial
initial-IsConsistent = record {
  next = rw (equal_refl (datum_str id_entry)) refl;
  execs = IsDictionary-empty (λ k. refl) (λ k. refl);
  files = IsDictionary-empty (λ k. refl) (λ k. refl);
  events = λ i j b hi hj e. cc e;
}
