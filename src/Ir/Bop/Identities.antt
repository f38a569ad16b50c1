-- ===== src/Ir/Bop/Identities.antt =====
-- src/cc/ir.c: the operand that `new_ir_bop` returns in place of an operation is its value.
use my9cc.Ir.{
  BinKind, add, sub, mul, div, modulo, bitand, bitor, bitxor, lshift, rshift, divu, modulou,
}
use my9cc.Ir.Word.{word_add, word_sub, word_mul, quotient_overflows, sdiv, srem, shl, shr, sar}
use my9cc.Ir.Bop.{
  Choice, use_left, use_right, emit, divide_by_zero, left_constant, right_constant, factor,
}
use native.Mathlib.Nat.{zero-div, zero-mod}
use my9cc.Prelude.{
  ℕ, ◌/◌, ◌%◌, ◌^◌, ◌<◌, ◌≡◌, ◌≢◌, Bool, true, false, Option, none, some, ◌==◌, leb, if◌then◌else◌,
  bit_and, bit_or, bit_xor, arith, inl, inr, Bool-cases, sym, ◌∙◌, ==_iff, some_eq,
}
use my9cc.Ir.Word.Neutral.{
  word_add-zero, zero-word_add, word_sub-zero, one-word_mul, word_mul-one, zero-sdiv, sdiv-one,
  zero-srem, zero-shl, shl-zero, zero-shr, shr-zero, zero-sar, sar-zero,
}
use my9cc.Prelude.Bits.{
  zero-bit_and, bit_and-zero, zero-bit_or, bit_or-zero, zero-bit_xor, bit_xor-zero,
}

-- The C meaning of an operation on 64-bit patterns, where it has one. `u` tells whether the left
-- operand is unsigned.
unfoldable pub meaning : BinKind → Bool → ℕ → ℕ → Option ℕ
meaning add u a b = some (word_add a b)
meaning sub u a b = some (word_sub a b)
meaning mul u a b = some (word_mul a b)
meaning div u a b =
    if b == 0 then none else if quotient_overflows a b then none else some (sdiv a b)
meaning divu u a b = if b == 0 then none else some (a / b)
meaning modulo u a b =
    if b == 0 then none else if quotient_overflows a b then none else some (srem a b)
meaning modulou u a b = if b == 0 then none else some (a % b)
meaning bitand u a b = some (bit_and a b)
meaning bitor u a b = some (bit_or a b)
meaning bitxor u a b = some (bit_xor a b)
meaning lshift u a b = if leb 64 b then none else some (shl a b)
meaning rshift u a b = if leb 64 b then none else some (if u then shr a b else sar a b)

-- The outcome is the operand that the choice names.
abbrev pub Names : Choice → ℕ → ℕ → ℕ → Type 0
Names use_left a b w = w ≡ a
Names use_right a b w = w ≡ b
Names emit a b w = Unit
Names divide_by_zero a b w = ⊥

Names-if :
    (a b w k n : ℕ) (c : Choice)
    → (n ≡ k → Names c a b w)
    → Names (if n == k then c else emit) a b w
Names-if a b w k n c h = elim (Bool-cases (n == k)) [
  | inl same ↦ rw same (h ((==_iff n k).0 same))
  | inr other ↦ rw other tt
]

-- The left operand 0 of a difference is not neutral.
abbrev pub is_negation : BinKind → ℕ → Bool
is_negation sub a = a == 0
is_negation _ a = false

-- A product with the constant 0 on the right is taken for a division by 0.
abbrev pub is_refused : BinKind → ℕ → Bool
is_refused mul b = b == 0
is_refused _ b = false

some_of_test : (t : Bool) (x w : ℕ) → (if t then none else some x) ≡ some w → (t ≡ false) × (x ≡ w)
some_of_test t x w h = ground arith

some_of_tests :
    (t t' : Bool) (x w : ℕ) → (if t then none else if t' then none else some x) ≡ some w → x ≡ w
some_of_tests true t' x w h = cc
some_of_tests false true x w h = cc
some_of_tests false false x w h = some_eq h

module _ (b w : ℕ) (u : Bool) (hb : b < 2 ^ 64) where
  pub left_constant-Names :
      (kind : BinKind) (a : ℕ)
      → is_negation kind a ≡ false
      → meaning kind u a b ≡ some w
      → Names (left_constant kind a) a b w
  unfolding left_constant meaning
  left_constant-Names add a e m =
      Names-if a b w 0 a use_right (λ z. some_eq (sym (rw z at m)) ∙ zero-word_add b hb)
  left_constant-Names sub a e m = Names-if a b w 0 a use_right (λ z. absurd (ground arith))
  left_constant-Names mul a e m =
      Names-if a b w 1 a use_right (λ z. some_eq (sym (rw z at m)) ∙ one-word_mul b hb)
  left_constant-Names div a e m =
      Names-if a b w 0 a use_left (λ z. sym (some_of_tests (b == 0) _ _ w m) ∙ rw z (zero-sdiv b))
  left_constant-Names divu a e m =
      Names-if a b w 0 a use_left (λ z. sym (some_of_test (b == 0) _ w m).1 ∙ rw z (zero-div b))
  left_constant-Names modulo a e m =
      Names-if a b w 0 a use_left (λ z. sym (some_of_tests (b == 0) _ _ w m) ∙ rw z (zero-srem b))
  left_constant-Names modulou a e m =
      Names-if a b w 0 a use_left (λ z. sym (some_of_test (b == 0) _ w m).1 ∙ rw z (zero-mod b))
  left_constant-Names bitand a e m =
      Names-if a b w 0 a use_left (λ z. some_eq (sym m) ∙ rw z (zero-bit_and b))
  left_constant-Names bitor a e m =
      Names-if a b w 0 a use_right (λ z. some_eq (sym m) ∙ rw z (zero-bit_or b))
  left_constant-Names bitxor a e m =
      Names-if a b w 0 a use_right (λ z. some_eq (sym m) ∙ rw z (zero-bit_xor b))
  left_constant-Names lshift a e m =
      Names-if a b w 0 a use_left (λ z. sym (some_of_test (leb 64 b) _ w m).1 ∙ rw z (zero-shl b))
  left_constant-Names rshift a e m =
      Names-if a b w 0 a use_left (λ z. sym (some_of_test (leb 64 b) _ w m).1 ∙ rw z (shifted u))
    where
      shifted : (u : Bool) → (if u then shr 0 b else sar 0 b) ≡ 0
      shifted true = zero-shr b
      shifted false = zero-sar b

module _ (a w : ℕ) (u : Bool) (ha : a < 2 ^ 64) where
  factor-Names : (b : ℕ) → (b == 0) ≢ true → (b ≡ 1 → w ≡ a) → Names (factor b) a b w
  factor-Names b nonzero one = elim (Bool-cases (b == 0)) [
    | inl zeroes ↦ absurd (nonzero zeroes)
    | inr other ↦ rw other (Names-if a b w 1 b use_left one)
  ]

  pub right_constant-Names :
      (kind : BinKind) (b : ℕ)
      → is_refused kind b ≡ false
      → meaning kind u a b ≡ some w
      → Names (right_constant kind b) a b w
  unfolding right_constant meaning
  right_constant-Names add b e m =
      Names-if a b w 0 b use_left (λ z. some_eq (sym m) ∙ rw z (word_add-zero a ha))
  right_constant-Names sub b e m =
      Names-if a b w 0 b use_left (λ z. some_eq (sym m) ∙ rw z (word_sub-zero a ha))
  right_constant-Names mul b e m =
      factor-Names b (λ z. cc) (λ z. some_eq (sym m) ∙ rw z (word_mul-one a ha))
  right_constant-Names div b e m =
      factor-Names b (λ z. cc (rw z at m))
        (λ z. sym (some_of_tests (b == 0) _ _ w m) ∙ rw z (sdiv-one a ha))
  right_constant-Names divu b e m =
      factor-Names b (λ z. cc (rw z at m))
        (λ z. sym (some_of_test (b == 0) _ w m).1 ∙ rw z (omega arith))
  right_constant-Names modulo b e m = tt
  right_constant-Names modulou b e m = tt
  right_constant-Names bitand b e m =
      Names-if a b w 0 b use_right (λ z. some_eq (sym m) ∙ rw z (bit_and-zero a))
  right_constant-Names bitor b e m =
      Names-if a b w 0 b use_left (λ z. some_eq (sym m) ∙ rw z (bit_or-zero a))
  right_constant-Names bitxor b e m =
      Names-if a b w 0 b use_left (λ z. some_eq (sym m) ∙ rw z (bit_xor-zero a))
  right_constant-Names lshift b e m =
      Names-if a b w 0 b use_left
        (λ z. sym (some_of_test (leb 64 b) _ w m).1 ∙ rw z (shl-zero a ha))
  right_constant-Names rshift b e m =
      Names-if a b w 0 b use_left (λ z. sym (some_of_test (leb 64 b) _ w m).1 ∙ rw z (shifted u))
    where
      shifted : (u : Bool) → (if u then shr a 0 else sar a 0) ≡ a
      shifted true = shr-zero a
      shifted false = sar-zero a ha
