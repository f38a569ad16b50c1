-- ===== src/As/Encode/Tests.antt =====
-- src/as/asm_x86.c: instructions at concrete operands.
use my9cc.As.{put_value}
use my9cc.As.Expr.{ex_fixnum}
use my9cc.As.Encode.{
  immediate, reg32, noperand, reg8, reg64, Reg, general, register, indirect, indirect_with_index,
  put_rex0, put_rex1, put_rex_indirect, put_rex_imm_indirect,
}
use my9cc.As.Encode.Mov.{assemble_mov, assemble_lea}
use my9cc.As.Encode.Disasm.{mov, lea}
use my9cc.As.Encode.RoundTrip.{IsReg, IsMemory, IsMov, Assembles, assemble_mov-Assembles}
use my9cc.As.Encode.Inst.{Alu, Unary, Inst, assemble_inst}
use my9cc.As.Encode.Disasm.{inst}
use my9cc.As.Encode.ArithTrip.{IsInst, assemble_inst-Assembles}
use my9cc.As.Encode.Widened.{IsByteInst, assemble_inst-widened}
use my9cc.As.Encode.Lea.{IsIndexed, assemble_lea-Assembles, assemble_lea-rsp}
use my9cc.As.Resolve.{to_signed}
use my9cc.Util.Align.{is_im8, is_im32}
use my9cc.Prelude.{ℕ, ◌^◌, ◌-◌, ◌<◌, ◌≡◌, refl, true, none, some, [], ◌∷◌, arith}

abbrev wide : ℕ → ℕ → Reg
wide n x = record { size = reg64; no = n; x = x }

abbrev r12 : Reg
r12 = wide 4 1

abbrev r13 : Reg
r13 = wide 5 1

abbrev rcx : Reg
rcx = wide 1 0

abbrev rsp : Reg
rsp = wide 4 0

abbrev dil : Reg
dil = record { size = reg8; no = 7; x = 0 }

is_wide : (n x : ℕ) → n < 8 → x < 2 → IsReg (wide n x)
is_wide n x h k = record { number = h; extension = k }

-- movb %dil, -8(%r13)
store_byte :
    assemble_mov (register dil) (indirect (ex_fixnum (2 ^ 64 - 8)) (general r13))
    ≡ some (65 ∷ (136 ∷ (125 ∷ (248 ∷ []))))
unfolding assemble_mov put_rex_indirect put_rex0 put_value is_im8
store_byte = refl

zero_fits : is_im32 (to_signed 0) ≡ true
unfolding is_im32
zero_fits = refl

mask_fits : is_im32 (to_signed (2 ^ 64 - 64)) ≡ true
unfolding is_im32
mask_fits = refl

at_start : (n x : ℕ) → n < 8 → x < 2 → IsMemory 0 (wide n x)
at_start n x h k = record {
  base = is_wide n x h k;
  base_size = refl;
  pattern = omega arith;
  fits = zero_fits;
}

assemble_mov-Assembles_example :
    Assembles mov
      (indirect (ex_fixnum 0) (general r12))
      (register rcx)
      (assemble_mov (indirect (ex_fixnum 0) (general r12)) (register rcx))
assemble_mov-Assembles_example =
    assemble_mov-Assembles (indirect (ex_fixnum 0) (general r12)) (register rcx) (
      IsMov.load (at_start 4 1 (omega arith) (omega arith))
        (is_wide 1 0 (omega arith) (omega arith)))

by_register : (n x : ℕ) → n < 8 → x < 2 → IsIndexed none (some (ex_fixnum 4)) 0 2 r13 (wide n x) rcx
by_register n x h k = record {
  is_offset = refl;
  is_scale = refl;
  small = omega arith;
  at_base = at_start 5 1 (omega arith) (omega arith);
  index = is_wide n x h k;
  index_size = refl;
  target = is_wide 1 0 (omega arith) (omega arith);
  target_size = refl;
}

assemble_lea-Assembles_example :
    Assembles lea
      (indirect_with_index (some (ex_fixnum 0)) (some (ex_fixnum 4)) r13 r12)
      (register rcx)
      (assemble_lea (indirect_with_index none (some (ex_fixnum 4)) r13 r12) (register rcx))
assemble_lea-Assembles_example =
    assemble_lea-Assembles none (some (ex_fixnum 4)) 0 2 r13 r12 rcx
      (by_register 4 1 (omega arith) (omega arith)) (λ e. absurd (omega arith))

assemble_lea-rsp_example :
    Assembles lea
      (indirect (ex_fixnum 0) (general r13))
      (register rcx)
      (assemble_lea (indirect_with_index none (some (ex_fixnum 4)) r13 rsp) (register rcx))
assemble_lea-rsp_example =
    assemble_lea-rsp none (some (ex_fixnum 4)) 0 2 r13 rsp rcx
      (by_register 4 0 (omega arith) (omega arith)) refl

-- neg %dil gets the opcode of the wider registers.
negated_byte : put_rex1 reg8 216 7 247 ≡ 64 ∷ (247 ∷ (223 ∷ []))
unfolding put_rex1 put_rex0
negated_byte = refl

-- subq $8, 8(%rcx) gets 0x84, the opcode of TEST, and the 5 of SUB is lost.
subtracted : put_rex_imm_indirect reg64 0 1 131 40 8 8 ≡ 72 ∷ (132 ∷ (65 ∷ (8 ∷ (8 ∷ []))))
unfolding put_rex_imm_indirect put_rex_indirect put_rex0 put_value is_im8
subtracted = refl

-- and $-64, %r12
assemble_inst-Assembles_example :
    Assembles
      (inst (Inst.alu Alu.and_))
      (immediate (2 ^ 64 - 64))
      (register r12)
      (assemble_inst (Inst.alu Alu.and_) (immediate (2 ^ 64 - 64)) (register r12))
assemble_inst-Assembles_example =
    assemble_inst-Assembles (Inst.alu Alu.and_) (immediate (2 ^ 64 - 64)) (register r12)
      (IsInst.constant (is_wide 4 1 (omega arith) (omega arith)) (omega arith) refl mask_fits)

-- not %dil
assemble_inst-widened_example :
    Assembles
      (inst (Inst.unary Unary.not_))
      (register (record dil { size = reg32 }))
      noperand
      (assemble_inst (Inst.unary Unary.not_) (register dil) noperand)
assemble_inst-widened_example =
    assemble_inst-widened (Inst.unary Unary.not_) (register dil) noperand
      (IsByteInst.single refl (record { number = omega arith; extension = omega arith }) refl)
