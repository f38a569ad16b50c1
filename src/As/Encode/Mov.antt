-- ===== src/As/Encode/Mov.antt =====
-- src/as/asm_x86.c: `assemble_mov` and the LEA of `assemble_inst`.
use my9cc.As.{Expr, put_value}
use my9cc.As.Expr.{ex_fixnum}
use my9cc.As.Resolve.{to_signed}
use my9cc.As.Encode.{
  RegSize, reg8, reg16, reg32, reg64, Reg, BaseReg, rip, general, Operand, register, indirect,
  indirect_with_index, immediate, is_reg8, is_reg64, opr_regno, put_rex0, put_rex2,
  put_rex_indirect, put_rex_indirect_with_index,
}
use my9cc.Util.Align.{is_im32}
use my9cc.Prelude.{
  ℕ, ◌*◌, Bool, true, false, ◌&&◌, ◌||◌, Option, none, some, List, ◌∷◌, ◌++◌, ◌==◌, if◌then◌else◌,
  bit_or,
}

abbrev pub same_size : RegSize → RegSize → Bool
same_size reg8 reg8 = true
same_size reg16 reg16 = true
same_size reg32 reg32 = true
same_size reg64 reg64 = true
same_size _ _ = false

-- 1 << size
abbrev pub size_bytes : RegSize → ℕ
size_bytes reg8 = 1
size_bytes reg16 = 2
size_bytes reg32 = 4
size_bytes reg64 = 8

-- An access behind a register other than RIP at a number.
abbrev pub put_indirect : Reg → Expr → BaseReg → ℕ → Option (List ℕ)
put_indirect r (ex_fixnum offset) (general b) opcode =
    some (put_rex_indirect r.size (opr_regno r) (opr_regno b) opcode 0 offset)
put_indirect r (ex_fixnum offset) rip opcode = none
put_indirect r _ b opcode = none

-- The constant of 32 bits, extended by its sign, and that of the register's size.
abbrev pub mov_immediate : ℕ → Reg → List ℕ
mov_immediate v d =
    if is_reg64 d.size && is_im32 (to_signed v)
    then (if d.x == 0 then 72 else 73) ∷ (199 ∷ (bit_or 192 d.no ∷ put_value v 4))
    else put_rex0 d.size 0 (opr_regno d)
        (bit_or (bit_or 176 (if is_reg8 d.size then 0 else 8)) d.no)
      ++ put_value v (size_bytes d.size)

unfoldable pub assemble_mov : Operand → Operand → Option (List ℕ)
assemble_mov (register s) (register d) =
    if same_size d.size s.size
    then some (put_rex2 s.size (opr_regno s) (opr_regno d) (if is_reg8 s.size then 136 else 137))
    else none
assemble_mov (immediate v) (register d) = some (mov_immediate v d)
assemble_mov (indirect offset b) (register d) = put_indirect d offset b 138
assemble_mov (register s) (indirect offset b) = put_indirect s offset b 136
assemble_mov _ _ = none

-- A NULL offset is 0, and a NULL scale is 1.
abbrev pub fixnum_or : ℕ → Option Expr → Option ℕ
fixnum_or n none = some n
fixnum_or n (some (ex_fixnum v)) = some v
fixnum_or n (some _) = none

abbrev pub is_scale : ℕ → Bool
is_scale n = (n == 1) || ((n == 2) || ((n == 4) || (n == 8)))

abbrev pub lea_index : Reg → Option ℕ → Option ℕ → Reg → Reg → Option (List ℕ)
lea_index d (some offset) (some scale) b i =
    if is_im32 (to_signed offset) && is_scale scale
    then some
        (put_rex_indirect_with_index (opr_regno b) (opr_regno i) (opr_regno d) 140 0 offset scale)
    else none
lea_index d _ _ b i = none

-- Relative to RIP: the displacement is put in by `resolve_relative_address`.
abbrev pub lea_rip : Reg → Expr → Option (List ℕ)
lea_rip d (ex_fixnum offset) = none
lea_rip d _ = some ((if d.x == 0 then 72 else 76) ∷ (141 ∷ (bit_or 5 (d.no * 8) ∷ put_value 0 4)))

abbrev pub lea_indirect : Reg → Expr → BaseReg → Option (List ℕ)
lea_indirect d offset rip = lea_rip d offset
lea_indirect d offset (general b) = put_indirect d offset (general b) 140

unfoldable pub assemble_lea : Operand → Operand → Option (List ℕ)
assemble_lea (indirect offset b) (register d) =
    if is_reg64 d.size then lea_indirect d offset b else none
assemble_lea (indirect_with_index offset scale b i) (register d) =
    if is_reg64 d.size then lea_index d (fixnum_or 0 offset) (fixnum_or 1 scale) b i else none
assemble_lea _ _ = none
