-- ===== src/Search/Summary.antt =====
-- What the loop of a search has summed up behind its entries, in the code of
-- sources/fusg/src/search.c: an account by the matching keys.
use fusg.Base.{
  ℕ, ◌+◌, ◌%◌, ◌==◌, List, [], ◌∷◌, ◌++◌, Bytes, length, reverse, reverse-cons, append_assoc, ltb,
  if◌then◌else◌, ◌≡◌, refl, sym, ◌∙◌, inl, inr, arith, Bool-cases, ap,
}
use fusg.Word.{u64_mod}
use fusg.Db.Platform.{Platform, IsReliable}
use fusg.Db.State.{Table}
use fusg.Db.Records.{StatsKey, Stats}
use fusg.Db.Usage.{fugs_stats_add}
use fusg.Db.Iterator.{stats_key_of}
use fusg.Search.Entries.{Found, Line, add_line}
use fusg.Search.Visits.{visited}
use fusg.Search.Named.{add_entry, stats_at, name_at}

abbrev pub later : ℕ → ℕ → ℕ
later a b = if ltb a b then b else a

module _ {F : Type 0} (p : Platform F) (ok : IsReliable p) (f r : F) (t : Table)
    (name_id match_id : StatsKey → ℕ) (id : ℕ) where
  -- the lines of the matching keys, in their order
  abbrev pub lines_of : List Bytes → List Line
  lines_of [] = []
  lines_of (k ∷ ks) =
      if match_id (stats_key_of k) == id
      then record {
        stats = stats_at p ok f r t name_id match_id id k;
        names = name_at p ok f r t name_id match_id id k ∷ [];
      }
        ∷ lines_of ks
      else lines_of ks

-- a counter over some lines, and the last time of them and `time`
abbrev pub sum_of : (Stats → ℕ) → List Line → ℕ
sum_of field [] = 0
sum_of field (l ∷ ls) = field l.stats + sum_of field ls

abbrev pub last_of : ℕ → List Line → ℕ
last_of time [] = time
last_of time (l ∷ ls) = later (last_of time ls) l.stats.time

-- `x` has one line more for each of `ls`, in their order and printed last first, has counted them, and has their
-- counters, modulo 2 ^ 64, and their last time in its total.
pub record IsSummary (ls : List Line) (acc x : Found) : Type 0 where
  pub lines : x.lines ≡ reverse ls ++ acc.lines
  pub count : x.count ≡ acc.count + length ls
  pub create : x.total.create % u64_mod ≡ (acc.total.create + sum_of (λ s. s.create) ls) % u64_mod
  pub exec : x.total.exec % u64_mod ≡ (acc.total.exec + sum_of (λ s. s.exec) ls) % u64_mod
  pub read : x.total.read % u64_mod ≡ (acc.total.read + sum_of (λ s. s.read) ls) % u64_mod
  pub write : x.total.write % u64_mod ≡ (acc.total.write + sum_of (λ s. s.write) ls) % u64_mod
  pub time : x.total.time ≡ last_of acc.total.time ls

last_of-later : (a b : ℕ) (ls : List Line) → last_of (later a b) ls ≡ later (last_of a ls) b
last_of-later a b [] = refl
last_of-later a b (l ∷ ls) =
    ap (λ z. later z l.stats.time) (last_of-later a b ls)
    ∙ later_twice (last_of a ls) b l.stats.time
  where
    later_twice : (a b c : ℕ) → later (later a b) c ≡ later (later a c) b
    later_twice a b c = ground arith

sum_mod :
    (x a s n : ℕ)
    → x % u64_mod ≡ ((a + s) % u64_mod + n) % u64_mod
    → x % u64_mod ≡ (a + (s + n)) % u64_mod
sum_mod x a s n h = omega (arith, h)

-- behind a line, and the others
IsSummary-line :
    (l : Line) (ls : List Line) (acc x : Found)
    → IsSummary ls (add_line l.stats l.names acc) x
    → IsSummary (l ∷ ls) acc x
unfolding fugs_stats_add
IsSummary-line l ls acc x h = record {
  lines = h.lines ∙ sym (rw reverse-cons (append_assoc (reverse ls) (l ∷ []) acc.lines));
  count = omega (arith, h.count);
  create = sum_mod x.total.create acc.total.create l.stats.create _ h.create;
  exec = sum_mod x.total.exec acc.total.exec l.stats.exec _ h.exec;
  read = sum_mod x.total.read acc.total.read l.stats.read _ h.read;
  write = sum_mod x.total.write acc.total.write l.stats.write _ h.write;
  time = h.time ∙ last_of-later acc.total.time l.stats.time ls;
}

module _ {F : Type 0} (p : Platform F) (ok : IsReliable p) (f r : F) (t : Table)
    (name_id match_id : StatsKey → ℕ) (id : ℕ) where
  pub visited-IsSummary :
      (ks : List Bytes) (acc : Found)
      → IsSummary
          (lines_of p ok f r t name_id match_id id ks)
          acc
          (visited (add_entry p ok f r t name_id match_id id) ks acc)
  visited-IsSummary [] acc = record {
    lines = refl;
    count = omega arith;
    create = omega arith;
    exec = omega arith;
    read = omega arith;
    write = omega arith;
    time = refl;
  }
  visited-IsSummary (k ∷ ks) acc = elim (Bool-cases (match_id (stats_key_of k) == id)) [
    | inl m ↦ rw m (IsSummary-line _ _ acc _ (visited-IsSummary ks _))
    | inr m ↦ rw m (passed (visited-IsSummary ks _))
  ]
    where
      passed :
          {s : Stats} {ls : List Line} {x : Found}
          → IsSummary ls (record acc { stats = s }) x
          → IsSummary ls acc x
      passed h = record {
        lines = h.lines;
        count = h.count;
        create = h.create;
        exec = h.exec;
        read = h.read;
        write = h.write;
        time = h.time;
      }
