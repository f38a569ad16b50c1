-- ===== src/Ir/Word.antt =====
-- Arithmetic on `intptr_t` and `uintptr_t`, as patterns of 64 bits.
pub mod Neutral
use my9cc.Prelude.{
  ℕ, ◌+◌, ◌-◌, ◌*◌, ◌/◌, ◌%◌, ◌^◌, Bool, true, false, ◌&&◌, ◌==◌, ltb, if◌then◌else◌, bit_and,
  bit_or, bit_xor,
}

abbrev pub negative : ℕ → Bool
negative a = if ltb a (2 ^ 63) then false else true

unfoldable pub neg : ℕ → ℕ
neg a = (2 ^ 64 - a) % 2 ^ 64

unfoldable pub word_add : ℕ → ℕ → ℕ
word_add a b = (a + b) % 2 ^ 64

unfoldable pub word_sub : ℕ → ℕ → ℕ
word_sub a b = (a + 2 ^ 64 - b) % 2 ^ 64

unfoldable pub word_mul : ℕ → ℕ → ℕ
word_mul a b = a * b % 2 ^ 64

-- The signed quotient does not fit: INT64_MIN by -1.
abbrev pub quotient_overflows : ℕ → ℕ → Bool
quotient_overflows a b = (a == 2 ^ 63) && (b == 2 ^ 64 - 1)

-- Signed division, towards zero.
unfoldable pub sdiv : ℕ → ℕ → ℕ
sdiv a b =
    if negative a
    then (if negative b then neg a / neg b % 2 ^ 64 else neg (neg a / b))
    else (if negative b then neg (a / neg b) else a / b)

-- The signed remainder, with the sign of `a`.
unfoldable pub srem : ℕ → ℕ → ℕ
srem a b = word_sub a (word_mul (sdiv a b) b)

unfoldable pub shl : ℕ → ℕ → ℕ
shl a b = a * 2 ^ b % 2 ^ 64

unfoldable pub shr : ℕ → ℕ → ℕ
shr a b = a / 2 ^ b

-- The arithmetic shift, which fills with the sign.
unfoldable pub sar : ℕ → ℕ → ℕ
sar a b = if negative a then 2 ^ 64 - 1 - (2 ^ 64 - 1 - a) / 2 ^ b else a / 2 ^ b
