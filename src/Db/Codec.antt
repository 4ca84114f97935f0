-- ===== src/Db/Codec.antt =====
-- Reading back the records of the event table.
use fusg.Base.{
  ℕ, ◌+◌, ◌<◌, ◌++◌, Bytes, length, length-append, take, drop, take-append, drop-append, drop-drop,
  take_all, ◌≡◌, sym, ap, ◌∙◌, arith,
}
use fusg.Word.{u64, u64_mod, decode, decode-u64, length-u64, u64-injective}
use fusg.Db.Records.{Stats, datum_stats, stats_of}
use fusg.Db.Consistent.{InRange}

field_first : (n : ℕ) (rest : Bytes) → n < u64_mod → decode (take 8 (u64 n ++ rest)) ≡ n
field_first n rest h = ap decode (take-append 8 (u64 n) rest (length-u64 n)) ∙ decode-u64 n h

drop_field : (n k : ℕ) (rest : Bytes) → drop (8 + k) (u64 n ++ rest) ≡ drop k rest
drop_field n k rest =
    sym (drop-drop k 8 (u64 n ++ rest)) ∙ ap (drop k) (drop-append 8 (u64 n) rest (length-u64 n))

pub length-datum_stats : (s : Stats) → length (datum_stats s) ≡ 48
length-datum_stats s = simp (length-append, length-u64)

module _ (s : Stats) (r : InRange s) where
  abbrev tail_5 : Bytes
  tail_5 = u64 s.reserved

  abbrev tail_4 : Bytes
  tail_4 = u64 s.time ++ tail_5

  abbrev tail_3 : Bytes
  tail_3 = u64 s.exec ++ tail_4

  abbrev tail_2 : Bytes
  tail_2 = u64 s.create ++ tail_3

  abbrev tail_1 : Bytes
  tail_1 = u64 s.write ++ tail_2

  at_1 : drop 8 (datum_stats s) ≡ tail_1
  at_1 = drop_field s.read 0 tail_1

  at_2 : drop 16 (datum_stats s) ≡ tail_2
  at_2 = drop_field s.read 8 tail_1 ∙ drop_field s.write 0 tail_2

  at_3 : drop 24 (datum_stats s) ≡ tail_3
  at_3 = drop_field s.read 16 tail_1 ∙ drop_field s.write 8 tail_2 ∙ drop_field s.create 0 tail_3

  at_4 : drop 32 (datum_stats s) ≡ tail_4
  at_4 =
      drop_field s.read 24 tail_1
      ∙ drop_field s.write 16 tail_2
      ∙ drop_field s.create 8 tail_3
      ∙ drop_field s.exec 0 tail_4

  at_5 : drop 40 (datum_stats s) ≡ tail_5
  at_5 =
      drop_field s.read 32 tail_1
      ∙ drop_field s.write 24 tail_2
      ∙ drop_field s.create 16 tail_3
      ∙ drop_field s.exec 8 tail_4
      ∙ drop_field s.time 0 tail_5

  -- A record of `uint64_t` fields is read back as it was written.
  pub stats_of-datum_stats : stats_of (datum_stats s) ≡ s
  unfolding stats_of
  stats_of-datum_stats = λ i. record {
    read = field_first s.read tail_1 r.read i;
    write = (ap (λ b. decode (take 8 b)) at_1 ∙ field_first s.write tail_2 r.write) i;
    create = (ap (λ b. decode (take 8 b)) at_2 ∙ field_first s.create tail_3 r.create) i;
    exec = (ap (λ b. decode (take 8 b)) at_3 ∙ field_first s.exec tail_4 r.exec) i;
    time = (ap (λ b. decode (take 8 b)) at_4 ∙ field_first s.time tail_5 r.time) i;
    reserved =
        (ap (λ b. decode (take 8 b)) at_5
            ∙ ap decode (take_all 8 (u64 s.reserved) (omega (arith, length-u64 s.reserved)))
            ∙ decode-u64 s.reserved r.reserved)
          i;
  }

pub datum_key-injective :
    (e f i j : ℕ)
    → e < u64_mod
    → f < u64_mod
    → i < u64_mod
    → j < u64_mod
    → u64 e ++ u64 f ≡ u64 i ++ u64 j
    → (e ≡ i) × (f ≡ j)
datum_key-injective e f i j he hf hi hj q = (
  u64-injective e i he hi (
      sym (take-append 8 (u64 e) (u64 f) (length-u64 e))
      ∙ ap (take 8) q
      ∙ take-append 8 (u64 i) (u64 j) (length-u64 i)),
  u64-injective f j hf hj (
      sym (drop-append 8 (u64 e) (u64 f) (length-u64 e))
      ∙ ap (drop 8) q
      ∙ drop-append 8 (u64 i) (u64 j) (length-u64 i)),
)
