-- ===== src/Ir/Tests.antt =====
-- src/cc/ir.c: runs on concrete operands, and the theorems at inputs that meet their hypotheses.
use my9cc.Ir.{add, mul, lshift, modulo, VRegType, VReg}
use my9cc.Ir.Word.{word_add, sdiv}
use my9cc.Ir.Bop.{clamp_value, fold_value, right_constant, new_ir_bop, new_const_vreg}
use my9cc.Ir.Bop.Meaning.{Env}
use my9cc.Ir.TwoAddress.{Instr, bin, other}
use my9cc.Ir.TwoAddress.Preserves.{Rewritten, three_to_two-Rewritten}
use my9cc.Ir.Cond.{ConditionKind, Inverts, invert_cond, invert_cond-Inverts}
use my9cc.Prelude.{
  ℕ, ◌^◌, ◌-◌, ◌≡◌, refl, true, false, Option, none, some, List, [], ◌∷◌, arith, inr, leb, ◌⊎◌,
}

abbrev char_type : VRegType
char_type = record { size = 1; is_unsigned = false }

abbrev constant : ℕ → VReg
constant n = record { vtype = char_type; virt = 0; is_const = true; fixnum = n }

abbrev register : ℕ → VReg
register i = record { vtype = char_type; virt = i; is_const = false; fixnum = 0 }

-- 100 + 100 in a signed char is -56.
folded :
    new_ir_bop 9 add (constant 100) (constant 100) char_type
    ≡ some (new_const_vreg 9 (2 ^ 64 - 56) char_type)
unfolding new_ir_bop fold_value clamp_value word_add
folded = refl

-- The remainder of 7 by 2 is folded to the quotient.
remainder_folded :
    new_ir_bop 9 modulo (constant 7) (constant 2) char_type ≡ some (new_const_vreg 9 3 char_type)
unfolding new_ir_bop fold_value clamp_value sdiv
remainder_folded = refl

-- A product with the constant 0 on the right is refused as a division by 0.
product_refused : new_ir_bop 9 mul (register 1) (constant 0) char_type ≡ none
unfolding new_ir_bop right_constant
product_refused = refl

abbrev thirty : Env
thirty j = 30

-- A shift by 64 has no value.
shift_by_word : new_ir_bop 9 lshift (constant 1) (constant 64) char_type ≡ none
unfolding new_ir_bop fold_value
shift_by_word = refl

abbrev block : List Instr
block = bin add (register 3) (register 1) (register 2) 1 ∷ (other 0 ∷ [])

abbrev nothing : ℕ → Env → Option Env
nothing n env = some env

three_to_two-Rewritten_example : Rewritten nothing block
three_to_two-Rewritten_example =
    three_to_two-Rewritten nothing block ((refl, inr (λ h. clash h), refl), (tt, tt))
  where
    clash : ◌≡◌ {A = ℕ} 2 3 → ⊥
    clash h = absurd (omega arith)

invert_cond-Inverts_example :
    (invert_cond 8 ≡ none) × (leb 2 8 ≡ false)
    ⊎ ((c' : ConditionKind) × Inverts ConditionKind.ult c')
invert_cond-Inverts_example = invert_cond-Inverts ConditionKind.ult
