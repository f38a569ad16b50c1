-- ===== src/Ir/Word/Neutral.antt =====
-- The neutral operands of the 64-bit operations.
use my9cc.Ir.Word.{neg, word_add, word_sub, word_mul, sdiv, srem, shl, shr, sar}
use native.Mathlib.Nat.{zero-div}
use my9cc.Prelude.{ℕ, ◌-◌, ◌%◌, ◌^◌, ◌<◌, ◌≡◌, arith}

pub zero-word_add : (b : ℕ) → b < 2 ^ 64 → word_add 0 b ≡ b
unfolding word_add
zero-word_add b h = omega arith

pub word_add-zero : (a : ℕ) → a < 2 ^ 64 → word_add a 0 ≡ a
unfolding word_add
word_add-zero a h = omega arith

pub word_sub-zero : (a : ℕ) → a < 2 ^ 64 → word_sub a 0 ≡ a
unfolding word_sub
word_sub-zero a h = omega arith

pub one-word_mul : (b : ℕ) → b < 2 ^ 64 → word_mul 1 b ≡ b
unfolding word_mul
one-word_mul b h = omega arith

pub word_mul-one : (a : ℕ) → a < 2 ^ 64 → word_mul a 1 ≡ a
unfolding word_mul
word_mul-one a h = omega arith

pub zero-sdiv : (b : ℕ) → sdiv 0 b ≡ 0
unfolding sdiv neg
zero-sdiv b = ground (arith, zero-div b, zero-div ((2 ^ 64 - b) % 2 ^ 64))

pub sdiv-one : (a : ℕ) → a < 2 ^ 64 → sdiv a 1 ≡ a
unfolding sdiv neg
sdiv-one a h = ground arith

pub zero-srem : (b : ℕ) → srem 0 b ≡ 0
unfolding srem word_sub word_mul
zero-srem b = rw (zero-sdiv b) (omega arith)

pub zero-shl : (b : ℕ) → shl 0 b ≡ 0
unfolding shl
zero-shl b = omega arith

pub shl-zero : (a : ℕ) → a < 2 ^ 64 → shl a 0 ≡ a
unfolding shl
shl-zero a h = omega arith

pub zero-shr : (b : ℕ) → shr 0 b ≡ 0
unfolding shr
zero-shr b = zero-div (2 ^ b)

pub shr-zero : (a : ℕ) → shr a 0 ≡ a
unfolding shr
shr-zero a = omega arith

pub zero-sar : (b : ℕ) → sar 0 b ≡ 0
unfolding sar
zero-sar b = zero-div (2 ^ b)

pub sar-zero : (a : ℕ) → a < 2 ^ 64 → sar a 0 ≡ a
unfolding sar
sar-zero a h = ground arith
