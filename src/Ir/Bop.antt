-- ===== src/Ir/Bop.antt =====
-- src/cc/ir.c: `new_ir_bop`, which folds constants and drops neutral operands.
pub mod Identities
pub mod Meaning
use my9cc.Ir.{
  BinKind, add, sub, mul, div, modulo, bitand, bitor, bitxor, lshift, rshift, divu, modulou,
  VRegType, VReg, Ir,
}
use my9cc.Ir.Word.{neg, word_add, word_sub, word_mul, quotient_overflows, sdiv, shl, shr, sar}
use my9cc.Prelude.{
  ℕ, ◌+◌, ◌-◌, ◌*◌, ◌/◌, ◌%◌, ◌^◌, Bool, true, false, ◌&&◌, Option, none, some, List, [], ◌∷◌, ltb,
  leb, ◌==◌, if◌then◌else◌, ◌>>=◌, bit_and, bit_or, bit_xor,
}

-- `value` cut to `w` bits and extended again, without or with its sign.
abbrev pub extend : ℕ → Bool → ℕ → ℕ
extend w true value = value % 2 ^ w
extend w false value =
    if ltb (value % 2 ^ w) (2 ^ (w - 1)) then value % 2 ^ w else value % 2 ^ w + (2 ^ 64 - 2 ^ w)

unfoldable pub clamp_value : ℕ → VRegType → ℕ
clamp_value value vtype =
    if vtype.size == 1
    then extend 8 vtype.is_unsigned value
    else if vtype.size == 2
    then extend 16 vtype.is_unsigned value
    else if vtype.size == 4
    then extend 32 vtype.is_unsigned value
    else value

-- The `switch` for two constants; `none` is the error for a division by 0, the trap of INT64_MIN by
-- -1, and a shift by 64 or more, or by a negative number, which has no value in C.
unfoldable pub fold_value : BinKind → Bool → ℕ → ℕ → Option ℕ
fold_value add u a b = some (word_add a b)
fold_value sub u a b = some (word_sub a b)
fold_value mul u a b = some (word_mul a b)
fold_value div u a b =
    if b == 0 then none else if quotient_overflows a b then none else some (sdiv a b)
fold_value divu u a b = if b == 0 then none else some (a / b)
fold_value modulo u a b =
    if b == 0 then none else if quotient_overflows a b then none else some (sdiv a b)
fold_value modulou u a b = if b == 0 then none else some (a / b)
fold_value bitand u a b = some (bit_and a b)
fold_value bitor u a b = some (bit_or a b)
fold_value bitxor u a b = some (bit_xor a b)
fold_value lshift u a b = if leb 64 b then none else some (shl a b)
fold_value rshift true a b = if leb 64 b then none else some (shr a b)
fold_value rshift false a b = if leb 64 b then none else some (sar a b)

-- What becomes of an operation with one constant operand.
pub data Choice : Type 0 where
  use_left use_right emit divide_by_zero : Choice

-- The `switch` for a constant on the left.
unfoldable pub left_constant : BinKind → ℕ → Choice
left_constant add a = if a == 0 then use_right else emit
left_constant sub a = if a == 0 then use_right else emit
left_constant mul a = if a == 1 then use_right else emit
left_constant div a = if a == 0 then use_left else emit
left_constant divu a = if a == 0 then use_left else emit
left_constant modulo a = if a == 0 then use_left else emit
left_constant modulou a = if a == 0 then use_left else emit
left_constant bitand a = if a == 0 then use_left else emit
left_constant bitor a = if a == 0 then use_right else emit
left_constant bitxor a = if a == 0 then use_right else emit
left_constant lshift a = if a == 0 then use_left else emit
left_constant rshift a = if a == 0 then use_left else emit

-- The `case` for IR_MUL, IR_DIV and IR_DIVU.
abbrev pub factor : ℕ → Choice
factor b = if b == 0 then divide_by_zero else if b == 1 then use_left else emit

-- The `switch` for a constant on the right.
unfoldable pub right_constant : BinKind → ℕ → Choice
right_constant add b = if b == 0 then use_left else emit
right_constant sub b = if b == 0 then use_left else emit
right_constant mul b = factor b
right_constant div b = factor b
right_constant divu b = factor b
right_constant modulo b = emit
right_constant modulou b = emit
right_constant bitand b = if b == 0 then use_right else emit
right_constant bitor b = if b == 0 then use_left else emit
right_constant bitxor b = if b == 0 then use_left else emit
right_constant lshift b = if b == 0 then use_left else emit
right_constant rshift b = if b == 0 then use_left else emit

-- The result, what is appended to the current block, and the number of virtual registers.
pub record Made : Type 0 where
  pub result : VReg
  pub irs : List Ir
  pub vregs : ℕ

-- `vregs` is `curra->vregs->len`.
module _ (vregs : ℕ) where
  abbrev pub reg_alloc_spawn : VRegType → Bool → ℕ → VReg
  reg_alloc_spawn vtype is_const fixnum = record {
    vtype = vtype;
    virt = vregs;
    is_const = is_const;
    fixnum = fixnum;
  }

  abbrev pub new_const_vreg : ℕ → VRegType → Made
  new_const_vreg value vtype = record {
    result = reg_alloc_spawn vtype true value;
    irs = [];
    vregs = vregs + 1;
  }

  abbrev pub keep : VReg → Made
  keep v = record { result = v; irs = []; vregs = vregs }

  abbrev pub emitted : BinKind → VReg → VReg → VRegType → Made
  emitted kind opr1 opr2 vtype =
      let dst = reg_alloc_spawn vtype false 0 in
      record {
        result = dst;
        irs = record { kind = kind; dst = dst; opr1 = opr1; opr2 = opr2; size = vtype.size } ∷ [];
        vregs = vregs + 1;
      }

  abbrev pub chosen : Choice → BinKind → VReg → VReg → VRegType → Option Made
  chosen use_left kind opr1 opr2 vtype = some (keep opr1)
  chosen use_right kind opr1 opr2 vtype = some (keep opr2)
  chosen emit kind opr1 opr2 vtype = some (emitted kind opr1 opr2 vtype)
  chosen divide_by_zero kind opr1 opr2 vtype = none

  unfoldable pub new_ir_bop : BinKind → VReg → VReg → VRegType → Option Made
  new_ir_bop kind opr1 opr2 vtype =
      if opr1.is_const
      then (if opr2.is_const
          then (fold_value kind opr1.vtype.is_unsigned opr1.fixnum opr2.fixnum >>= λ value.
              some (new_const_vreg (clamp_value value vtype) vtype))
          else chosen (left_constant kind opr1.fixnum) kind opr1 opr2 vtype)
      else (if opr2.is_const
          then chosen (right_constant kind opr2.fixnum) kind opr1 opr2 vtype
          else chosen emit kind opr1 opr2 vtype)
