-- ===== src/Word.antt =====
-- `uint64_t`: the eight bytes of a number in memory, the lowest first, as gdbm stores them.
-- (The byte order is that of x86; the round trips are what the rest uses.)
use Prim.Native.Nat.{◌^◌}
use native.Mathlib.Nat.{pow-suc, mul_comm}
use fusg.Base.{
  ℕ, zero, suc, ◌+◌, ◌*◌, ◌/◌, ◌%◌, ◌<◌, [], ◌∷◌, Bytes, length, ◌≡◌, refl, sym, ap, ◌∙◌, arith,
}

abbrev pub u64_mod : ℕ
u64_mod = 2 ^ 64

unfoldable pub encode : ℕ → ℕ → Bytes
encode zero n = []
encode (suc k) n = (n % 256) ∷ encode k (n / 256)

unfoldable pub decode : Bytes → ℕ
decode [] = 0
decode (b ∷ bs) = b + 256 * decode bs

decode-encode_lem : (k n : ℕ) → n < 256 ^ k → decode (encode k n) ≡ n
unfolding encode decode
decode-encode_lem zero n h = omega arith
decode-encode_lem (suc k) n h =
    let small : n < 256 * 256 ^ k = rw (pow-suc, mul_comm) at h in
    omega (arith, decode-encode_lem k (n / 256) (omega arith))

pub length-encode : (k n : ℕ) → length (encode k n) ≡ k
unfolding encode
length-encode zero n = refl
length-encode (suc k) n = ap suc (length-encode k (n / 256))

-- the bytes of a `uint64_t`
pub u64 : ℕ → Bytes
u64 n = encode 8 n

pub decode-u64 : (n : ℕ) → n < u64_mod → decode (u64 n) ≡ n
unfolding u64
decode-u64 n h = decode-encode_lem 8 n h

pub length-u64 : (n : ℕ) → length (u64 n) ≡ 8
unfolding u64
length-u64 n = length-encode 8 n

pub u64-injective : (m n : ℕ) → m < u64_mod → n < u64_mod → u64 m ≡ u64 n → m ≡ n
u64-injective m n hm hn e = sym (decode-u64 m hm) ∙ ap decode e ∙ decode-u64 n hn
