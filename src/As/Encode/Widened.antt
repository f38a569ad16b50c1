-- ===== src/As/Encode/Widened.antt =====
-- src/as/asm_x86.c: byte registers that `assemble_inst` gives the opcodes of wider ones.
use my9cc.As.{put_value}
use my9cc.As.Resolve.{to_signed}
use my9cc.As.Encode.{
  reg8, reg32, Reg, Operand, noperand, register, immediate, is_reg8, opr_regno, put_rex1,
}
use my9cc.As.Encode.Inst.{
  Alu, add, or_, and_, sub, xor, cmp, Unary, mul, div, idiv, neg, not_, inc, dec, Inst, alu, unary,
  alu_prefix, alu_immediate, put_unary, assemble_inst,
}
use my9cc.As.Encode.ReadBack.{prefixes_of}
use my9cc.As.Encode.Disasm.{inst, reg_of, disassemble}
use my9cc.As.Encode.MovBack.{instruction}
use my9cc.As.Encode.RoundTrip.{IsReg, Assembles, opr_regno_back, opr_regno-small}
use my9cc.As.Encode.OneBack.{
  short_fits, has_byte, unary_opcode, unary_plain, unary_form, unary-IsOpcode, wider_read,
  wider_size, alu_byte_read,
}
use my9cc.As.Encode.Arith.{unary_code, unary_group_read}
use my9cc.Util.Align.{is_im8, is_im32}
use my9cc.Prelude.{
  ℕ, ◌+◌, ◌*◌, ◌%◌, ◌^◌, ◌<◌, ◌≡◌, refl, Bool, true, false, some, ◌++◌, ◌==◌, ◌∙◌, ap,
}

-- The register of 32 bits with the number of a byte.
abbrev pub wider : Reg → Reg
wider r = record r { size = reg32 }

abbrev pub widened : Operand → Operand
widened (register r) = register (wider r)
widened o = o

abbrev pub is_cmp : Alu → Bool
is_cmp cmp = true
is_cmp _ = false

-- A constant of a byte and a byte register other than %al, except for CMP, and one byte register,
-- except for MUL, DIV and IDIV.
pub data IsByteInst : Inst → Operand → Operand → Type 0 where
  constant :
      {a : Alu} {v : ℕ} {d : Reg}
      → is_cmp a ≡ false
      → IsReg d
      → d.size ≡ reg8
      → (opr_regno d == 0) ≡ false
      → v < 2 ^ 64
      → is_im8 (to_signed v) ≡ true
      → IsByteInst (alu a) (immediate v) (register d)
  single :
      {u : Unary} {r : Reg}
      → has_byte u ≡ false
      → IsReg r
      → r.size ≡ reg8
      → IsByteInst (unary u) (register r) noperand

byte_plain :
    (a : Alu) (v : ℕ) (d : Reg)
    → is_cmp a ≡ false
    → (opr_regno d == 0) ≡ false
    → is_im32 (to_signed v) ≡ true
    → is_im8 (to_signed v) ≡ true
    → is_reg8 d.size ≡ true
    → alu_immediate a v d ≡ some (put_rex1 d.size (alu_prefix a) (opr_regno d) 131 ++ put_value v 1)
byte_plain add v d c n long byte e = rw (long, byte, n) refl
byte_plain sub v d c n long byte e = rw (long, byte, n) refl
byte_plain and_ v d c n long byte e = rw (byte, e, n) refl
byte_plain or_ v d c n long byte e = rw (byte, e, n) refl
byte_plain xor v d c n long byte e = rw (byte, e, n) refl
byte_plain cmp v d c n long byte e = cc

wider_back : (r : Reg) → IsReg r → reg_of reg32 (opr_regno r) ≡ wider r
wider_back r h = opr_regno_back (wider r) (record { number = h.number; extension = h.extension })

odd_unary : (u : Unary) → has_byte u ≡ false → (unary_opcode u true % 2 == 0) ≡ false
odd_unary mul h = cc
odd_unary div h = cc
odd_unary idiv h = cc
odd_unary neg h = refl
odd_unary not_ h = refl
odd_unary inc h = refl
odd_unary dec h = refl

-- ADD, SUB, AND, OR and XOR of a constant of a byte and a byte register other than %al, and NEG, NOT,
-- INC and DEC of a byte register, are assembled into bytes that the processor reads as the
-- instruction on the register of 32 bits.
pub assemble_inst-widened :
    (i : Inst) (src dst : Operand)
    → IsByteInst i src dst
    → Assembles (inst i) (widened src) (widened dst) (assemble_inst i src dst)
unfolding assemble_inst
assemble_inst-widened _ _ _ (IsByteInst.constant {a = a} {v = v} {d = d} c hd e n hv byte) =
    let k = opr_regno d in
    let hk = opr_regno-small d hd in
    record {
      bytes = put_rex1 d.size (alu_prefix a) k 131 ++ put_value v 1;
      made = byte_plain a v d c n (short_fits reg8 v hv byte) byte (ap is_reg8 e);
      back = λ rest.
          ap (λ z. disassemble ((put_rex1 z (alu_prefix a) k 131 ++ put_value v 1) ++ rest)) e
          ∙ alu_byte_read reg8 reg32 a k v rest hk hv byte (wider_size k 131 hk refl) (wider_read k)
          ∙ ap (λ r. some (instruction (inst (alu a)) (immediate v) (register r) rest))
              (wider_back d hd);
    }
assemble_inst-widened _ _ _ (IsByteInst.single {u = u} {r = r} h hr e) =
    let k = opr_regno r in
    let hk = opr_regno-small r hr in
    let o = unary_opcode u true in
    record {
      bytes = put_unary u r;
      made = refl;
      back = λ rest.
          ap (λ l. disassemble (l ++ rest)) (unary_plain u r hr)
          ∙ ap
              (λ z.
                disassemble
                  (put_rex1 z (192 + unary_code u * 8) k (unary_opcode u (is_reg8 z)) ++ rest))
              e
          ∙ unary_group_read reg8 reg32 u k o rest hk (unary-IsOpcode u true)
              (unary_form u true (prefixes_of reg8 0 k)) (wider_size k o hk (odd_unary u h))
              (wider_read k)
          ∙ ap (λ t. some (instruction (inst (unary u)) (register t) noperand rest))
              (wider_back r hr);
    }
