-- ===== src/Os/Coredump.antt =====
-- `system_coredump_size` and `system_coredump_pattern` of sources/fusg-common/src/system.c.
use fusg.Base.{
  ℕ, zero, suc, ◌+◌, ◌-◌, ◌≤◌, ◌<◌, Bool, false, [], ◌∷◌, Option, none, some, Bytes, ℤ, pos,
  failure, ltb, leb, ◌==◌, length, take, if◌then◌else◌, ◌≡◌, refl, inl, inr, arith, Bool-cases,
}
use fusg.Word.{u64_mod}

-- `struct rlimit`
pub record Limit : Type 0 where
  pub cur : ℕ
  pub max : ℕ

abbrev pub tuple_min : ℕ → ℕ → ℕ
tuple_min a b = if ltb a b then a else b

abbrev pub triple_min : ℕ → ℕ → ℕ → ℕ
triple_min a b c = if ltb a (tuple_min b c) then a else tuple_min b c

-- -1 as an `rlim_t`, which is unsigned
abbrev pub rlim_error : ℕ
rlim_error = u64_mod - 1

-- the two limits are what getrlimit(2) answers, `none` for an error
unfoldable pub system_coredump_size : Option Limit → Option Limit → ℕ
system_coredump_size none fsize = rlim_error
system_coredump_size (some core) none = rlim_error
system_coredump_size (some core) (some fsize) =
    triple_min (tuple_min core.cur core.max) fsize.cur fsize.max

-- `result_buffer[len-1] == '\n'`; a read behind what was read is not a newline
abbrev pub ends_in_newline : ℕ → Bytes → Bool
ends_in_newline len [] = false
ends_in_newline zero (c ∷ s) = false
ends_in_newline (suc zero) (c ∷ s) = c == 10
ends_in_newline (suc (suc n)) (c ∷ s) = ends_in_newline (suc n) s

-- What a call leaves: its value, and the string in the buffer with the index of its terminating byte, or
-- nothing where the buffer has none.
pub record Pattern : Type 0 where
  pub value : ℤ
  pub written : Option (Bytes × ℕ)

-- behind a read of `len` bytes, cut to the buffer
abbrev pub terminate_at : ℕ → Bytes → Pattern
terminate_at len bytes = record { value = pos (len + 1); written = some (take len bytes, len) }

-- `answer` is what read(2) puts into the buffer, `none` for an error; the file could be opened
unfoldable pub system_coredump_pattern : ℕ → Option Bytes → Pattern
system_coredump_pattern size none = record { value = failure; written = none }
system_coredump_pattern size (some bytes) =
    let len = if leb size (length bytes) then size - 1 else length bytes in
    terminate_at (if ends_in_newline len bytes then len - 1 else len) bytes

-- the string that is left
abbrev pub IsTerminated : ℕ → Bytes → Pattern → Type 0
IsTerminated size bytes r =
    (s : Bytes) × (r.value ≡ pos (length s + 1))
    × (r.written ≡ some (s, length s))
    × (length s < size)
    × (s ≡ take (length s) bytes)

length-take : (n : ℕ) (xs : Bytes) → n ≤ length xs → length (take n xs) ≡ n
length-take zero xs h = refl
length-take (suc n) [] h = absurd (omega (arith, h))
length-take (suc n) (x ∷ xs) h = omega (arith, length-take n xs (omega (arith, h)))

terminate_at-IsTerminated :
    (size len : ℕ) (bytes : Bytes)
    → len < size
    → len ≤ length bytes
    → IsTerminated size bytes (terminate_at len bytes)
terminate_at-IsTerminated size len bytes lt le =
    let n = length-take len bytes le in
    (take len bytes, rw n refl, rw n refl, omega (arith, n, lt), rw n refl)

-- For a buffer of at least one byte, and a read of no more bytes than it has: the result is a prefix
-- of what was read, terminated behind its last byte and inside of the buffer, and the value is the
-- number of bytes with the terminating one.
pub coredump_pattern-IsTerminated :
    (size : ℕ) (bytes : Bytes)
    → 1 ≤ size
    → length bytes ≤ size
    → IsTerminated size bytes (system_coredump_pattern size (some bytes))
unfolding system_coredump_pattern
coredump_pattern-IsTerminated size bytes one h = elim (Bool-cases (leb size (length bytes))) [
  | inl e ↦ rw e (stripped (size - 1) (omega (arith, one)) (ground (arith, one, e)))
  | inr e ↦ rw e (stripped (length bytes) (ground (arith, e)) (omega arith))
]
  where
    stripped :
        (len : ℕ)
        → len < size
        → len ≤ length bytes
        → IsTerminated size bytes
            (terminate_at (if ends_in_newline len bytes then len - 1 else len) bytes)
    stripped len lt le = elim (Bool-cases (ends_in_newline len bytes)) [
      | inl e ↦
          rw e
            (terminate_at-IsTerminated size (len - 1) bytes (omega (arith, lt)) (omega (arith, le)))
      | inr e ↦ rw e (terminate_at-IsTerminated size len bytes lt le)
    ]
