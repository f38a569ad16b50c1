-- ===== src/As/Encode/ArithTrip.antt =====
-- src/as/asm_x86.c: the arithmetic of `assemble_inst` is read back as it was written.
use my9cc.As.{put_value}
use my9cc.As.Expr.{ex_fixnum}
use my9cc.As.Resolve.{to_signed}
use my9cc.As.Encode.{
  reg8, Reg, general, Operand, noperand, register, indirect, immediate, is_reg8, opr_regno,
  put_rex1, put_rex_indirect,
}
use my9cc.As.Encode.Inst.{
  Alu, add, Shift, Unary, Inst, alu, test, shift, unary, regs_opcode, shift_prefix,
  shift_by_constant, put_unary, assemble_inst,
}
use my9cc.As.Encode.Decode.{based}
use my9cc.As.Encode.ReadBack.{prefixes_of, byte_back}
use my9cc.As.Encode.Modes.{operands, put_rex_indirect-Decodes}
use my9cc.As.Encode.Disasm.{
  inst, reg_of, size_of, from_place, count_byte, count_one, count_cl, disassemble,
}
use my9cc.As.Encode.MovBack.{instruction, disassemble-Decodes, source_read, target_read, sized}
use my9cc.As.Encode.RoundTrip.{
  IsReg, IsMemory, Assembles, opr_regno_back, opr_regno-small, base_back,
}
use my9cc.As.Encode.OneBack.{
  plain_read, short_fits, has_byte, unary_opcode, unary_plain, unary_form, unary-IsOpcode,
  unary_size,
}
use my9cc.As.Encode.InstBack.{store_form, test_form, load_form, regs-Assembles, plain, alu_plain}
use my9cc.As.Encode.Arith.{
  shift_group_read, shift_forms, sized-IsOpcode, unary_group_read, opcode_bounds,
}
use my9cc.As.Encode.Group.{ShortFits}
use my9cc.Util.Align.{is_im8}
use mathlib.Core.List.{append_assoc}
use my9cc.Prelude.{
  ℕ, ◌^◌, ◌<◌, ◌≡◌, refl, true, false, some, List, [], ◌++◌, ◌==◌, if◌then◌else◌, ◌>>=◌, arith, ◌∙◌,
  ap, inl, inr, ◌⊎◌, Bool-cases,
}

abbrev pub cl : Reg
cl = record { size = reg8; no = 1; x = 0 }

-- The operands of the arithmetic: two registers of one size, memory at a base register and an offset
-- of 32 bits for ADD, a constant for a register of 16 bits or more that keeps it, a count of a byte
-- or %cl for a shift, and one register, which may be a byte for MUL, DIV and IDIV alone.
pub data IsInst : Inst → Operand → Operand → Type 0 where
  between :
      {a : Alu} {s d : Reg}
      → IsReg s
      → IsReg d
      → d.size ≡ s.size
      → IsInst (alu a) (register s) (register d)
  tested : {s d : Reg} → IsReg s → IsReg d → d.size ≡ s.size → IsInst test (register s) (register d)
  loaded :
      {o : ℕ} {b d : Reg}
      → IsMemory o b
      → IsReg d
      → IsInst (alu add) (indirect (ex_fixnum o) (general b)) (register d)
  constant :
      {a : Alu} {v : ℕ} {d : Reg}
      → IsReg d
      → v < 2 ^ 64
      → is_reg8 d.size ≡ false
      → ShortFits d.size v
      → IsInst (alu a) (immediate v) (register d)
  by_count :
      {k : Shift} {v : ℕ} {d : Reg}
      → IsReg d
      → v < 2 ^ 64
      → is_im8 (to_signed v) ≡ true
      → IsInst (shift k) (immediate v) (register d)
  by_cl : {k : Shift} {d : Reg} → IsReg d → IsInst (shift k) (register cl) (register d)
  single :
      {u : Unary} {r : Reg}
      → IsReg r
      → (is_reg8 r.size ≡ false) ⊎ (has_byte u ≡ true)
      → IsInst (unary u) (register r) noperand

count_back :
    (k : Shift) (v : ℕ) (d : Reg) (rest : List ℕ)
    → IsReg d
    → v < 2 ^ 64
    → is_im8 (to_signed v) ≡ true
    → disassemble (shift_by_constant k v d ++ rest)
      ≡ some
          (instruction (inst (shift k)) (immediate v) (register (reg_of d.size (opr_regno d))) rest)
count_back k v d rest hd hv byte =
    let z = d.size in
    let n = opr_regno d in
    let hn = opr_regno-small d hd in
    let p = prefixes_of z 0 n in
    elim (Bool-cases (v == 1)) [
      | inl one ↦
          let value : 1 ≡ v = ground arith in
          rw one (
            shift_group_read z k n (if is_reg8 z then 208 else 209) (immediate 1) [] rest count_one
              hn (sized-IsOpcode (is_reg8 z) 208 (inr (omega arith)))
              (λ bs. (shift_forms (is_reg8 z) p bs).1) (sized z 0 n 208 (omega arith) hn refl) refl
            ∙ ap
                (λ t.
                  some (instruction (inst (shift k)) (immediate t) (register (reg_of z n)) rest))
                value)
      | inr more ↦ rw more (
          ap disassemble (
            append_assoc (put_rex1 z (shift_prefix k) n (if is_reg8 z then 192 else 193))
              (put_value v 1) rest)
          ∙ shift_group_read z k n (if is_reg8 z then 192 else 193) (immediate v) (put_value v 1)
              rest count_byte hn (sized-IsOpcode (is_reg8 z) 192 (inr (omega arith)))
              (λ bs. (shift_forms (is_reg8 z) p bs).0) (sized z 0 n 192 (omega arith) hn refl)
              (rw (byte_back v rest hv byte) refl))
    ]

-- ADD, SUB, AND, OR, XOR, CMP and TEST of two registers of one size, ADD of memory at a base register
-- of 64 bits and an offset of 32 bits with its sign to a register, all of these but TEST of a
-- constant that fits and a register of 16 bits or more, the shifts of a register by a count of a
-- byte or by %cl, and MUL, DIV, IDIV, NEG, NOT, INC and DEC of one register, which is no byte for the
-- last four, are read back from the bytes of `assemble_inst`: the processor finds the same
-- operation and operands, and the bytes behind.
pub assemble_inst-Assembles :
    (i : Inst) (src dst : Operand)
    → IsInst i src dst
    → Assembles (inst i) src dst (assemble_inst i src dst)
unfolding assemble_inst
assemble_inst-Assembles _ _ _ (IsInst.between {a = a} {s = s} {d = d} hs hd e) =
    let (_, low, _, even) = opcode_bounds a in
    regs-Assembles (alu a) (regs_opcode a) s d hs hd e (inl low) even (store_form a)
assemble_inst-Assembles _ _ _ (IsInst.tested {s = s} {d = d} hs hd e) =
    regs-Assembles test 132 s d hs hd e (inr (omega arith)) refl test_form
assemble_inst-Assembles _ _ _ (IsInst.loaded {o = o} {b = b} {d = d} hm hd) =
    let z = d.size in
    let n = opr_regno d in
    let k = opr_regno b in
    let hn = opr_regno-small d hd in
    let hk = opr_regno-small b hm.base in
    let p = prefixes_of z n k in
    let code = if is_reg8 z then 2 else 3 in
    record {
      bytes = put_rex_indirect z n k 2 0 o;
      made = refl;
      back = λ rest.
          let h =
            put_rex_indirect-Decodes z n k 2 o rest hn hk hm.pattern hm.fits
              (sized-IsOpcode (is_reg8 z) 2 (inl (omega arith))) in
          disassemble-Decodes p code (operands n (based k o) rest) _ h
          ∙ load_form (is_reg8 z) p h.rest
          ∙ ap (λ t. t >>= from_place (inst (alu add)) (size_of p code) p) h.places
          ∙ ap (λ t. from_place (inst (alu add)) t p (operands n (based k o) rest))
              (sized z n k 2 hn hk refl)
          ∙ rw (source_read z n k) refl
          ∙ ap
              (λ r. some (
                instruction (inst (alu add)) (indirect (ex_fixnum o) (general r))
                  (register (reg_of z n)) rest))
              (base_back o b hm)
          ∙ ap
              (λ r. some (
                instruction (inst (alu add)) (indirect (ex_fixnum o) (general b)) (register r)
                  rest))
              (opr_regno_back d hd);
    }
assemble_inst-Assembles _ _ _ (IsInst.constant {a = a} {v = v} {d = d} hd hv wide f) = record {
  bytes = plain a d.size (opr_regno d) v;
  made = alu_plain v d wide (short_fits d.size v hv f) a;
  back = λ rest.
      plain_read a d.size (opr_regno d) v rest (opr_regno-small d hd) hv wide f
      ∙ ap (λ r. some (instruction (inst (alu a)) (immediate v) (register r) rest))
          (opr_regno_back d hd);
}
assemble_inst-Assembles _ _ _ (IsInst.by_count {k = k} {v = v} {d = d} hd hv byte) = record {
  bytes = shift_by_constant k v d;
  made = refl;
  back = λ rest.
      count_back k v d rest hd hv byte
      ∙ ap (λ r. some (instruction (inst (shift k)) (immediate v) (register r) rest))
          (opr_regno_back d hd);
}
assemble_inst-Assembles _ _ _ (IsInst.by_cl {k = k} {d = d} hd) =
    let z = d.size in
    let n = opr_regno d in
    let hn = opr_regno-small d hd in
    record {
      bytes = put_rex1 z (shift_prefix k) n (if is_reg8 z then 210 else 211);
      made = refl;
      back = λ rest.
          shift_group_read z k n (if is_reg8 z then 210 else 211) (register cl) [] rest count_cl hn
            (sized-IsOpcode (is_reg8 z) 210 (inr (omega arith)))
            (λ bs. (shift_forms (is_reg8 z) (prefixes_of z 0 n) bs).2)
            (sized z 0 n 210 (omega arith) hn refl) refl
          ∙ ap (λ r. some (instruction (inst (shift k)) (register cl) (register r) rest))
              (opr_regno_back d hd);
    }
assemble_inst-Assembles _ _ _ (IsInst.single {u = u} {r = r} hr h) = record {
  bytes = put_unary u r;
  made = refl;
  back = λ rest.
      let n = opr_regno r in
      let hn = opr_regno-small r hr in
      let o = unary_opcode u (is_reg8 r.size) in
      ap (λ l. disassemble (l ++ rest)) (unary_plain u r hr)
      ∙ unary_group_read r.size r.size u n o rest hn (unary-IsOpcode u (is_reg8 r.size))
          (unary_form u (is_reg8 r.size) (prefixes_of r.size 0 n)) (unary_size u r.size n hn h)
          (target_read r.size 0 n)
      ∙ ap (λ t. some (instruction (inst (unary u)) (register t) noperand rest))
          (opr_regno_back r hr);
}
