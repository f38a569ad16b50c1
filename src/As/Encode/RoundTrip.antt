-- ===== src/As/Encode/RoundTrip.antt =====
-- src/as/asm_x86.c: MOV and LEA are read back as they were written.
use my9cc.As.Expr.{ex_fixnum}
use my9cc.As.Resolve.{to_signed}
use my9cc.As.Encode.{
  RegSize, reg8, reg16, reg32, reg64, Reg, general, Operand, register, indirect, immediate, is_reg8,
  opr_regno, put_rex2, put_rex_indirect,
}
use my9cc.As.Encode.Bytes.{regno}
use my9cc.As.Encode.Mov.{same_size, mov_immediate, assemble_mov}
use my9cc.As.Encode.Disasm.{Mnemonic, mov, reg_of, disassemble}
use my9cc.As.Encode.MovBack.{instruction, put_rex2-disassemble, store-disassemble, load-disassemble}
use my9cc.As.Encode.Constant.{Fits, mov_immediate-disassemble}
use my9cc.Util.Align.{is_im32}
use my9cc.Prelude.{
  ℕ, ◌+◌, ◌*◌, ◌/◌, ◌%◌, ◌^◌, ◌<◌, ◌≡◌, refl, true, Option, some, List, ◌++◌, if◌then◌else◌, arith,
  sym, ◌∙◌, ap,
}

pub record IsReg (r : Reg) : Type 0 where
  pub number : r.no < 8
  pub extension : r.x < 2

-- A base register of 64 bits and an offset of 32 bits.
pub record IsMemory (offset : ℕ) (b : Reg) : Type 0 where
  pub base : IsReg b
  pub base_size : b.size ≡ reg64
  pub pattern : offset < 2 ^ 64
  pub fits : is_im32 (to_signed offset) ≡ true

-- The operands of MOV, without those relative to RIP: two registers of one size, a constant that
-- its register keeps, and memory at a base register and an offset of 32 bits.
pub data IsMov : Operand → Operand → Type 0 where
  between : {s d : Reg} → IsReg s → IsReg d → d.size ≡ s.size → IsMov (register s) (register d)
  constant :
      {v : ℕ} {d : Reg} → IsReg d → v < 2 ^ 64 → Fits d.size v → IsMov (immediate v) (register d)
  load :
      {o : ℕ} {b d : Reg}
      → IsMemory o b
      → IsReg d
      → IsMov (indirect (ex_fixnum o) (general b)) (register d)
  store :
      {o : ℕ} {b s : Reg}
      → IsReg s
      → IsMemory o b
      → IsMov (register s) (indirect (ex_fixnum o) (general b))

-- The bytes of an instruction that is read back from them, whatever stands behind.
pub record Assembles (m : Mnemonic) (src dst : Operand) (r : Option (List ℕ)) : Type 0 where
  pub bytes : List ℕ
  pub made : r ≡ some bytes
  pub back : (rest : List ℕ) → disassemble (bytes ++ rest) ≡ some (instruction m src dst rest)

reg_back : (r : Reg) → IsReg r → reg_of r.size (r.no + r.x * 8) ≡ r
reg_back r h =
    let hn = h.number in
    let hx = h.extension in
    let low : (r.no + r.x * 8) % 8 ≡ r.no = omega arith in
    let high : (r.no + r.x * 8) / 8 ≡ r.x = omega arith in
    ap (λ t. record { size = r.size; no = t; x = (r.no + r.x * 8) / 8 }) low
    ∙ ap (λ t. record { size = r.size; no = r.no; x = t }) high

pub opr_regno_back : (r : Reg) → IsReg r → reg_of r.size (opr_regno r) ≡ r
opr_regno_back r h = ap (λ t. reg_of r.size t) (regno r.no r.x h.number h.extension) ∙ reg_back r h

pub opr_regno-small : (r : Reg) → IsReg r → opr_regno r < 16
opr_regno-small r h =
    let hn = h.number in let hx = h.extension in omega (arith, regno r.no r.x h.number h.extension)

pub base_back : (o : ℕ) (b : Reg) → IsMemory o b → reg_of reg64 (opr_regno b) ≡ b
base_back o b h = ap (λ z. reg_of z (opr_regno b)) (sym h.base_size) ∙ opr_regno_back b h.base

pub same_size_refl : (z : RegSize) → same_size z z ≡ true
same_size_refl reg8 = refl
same_size_refl reg16 = refl
same_size_refl reg32 = refl
same_size_refl reg64 = refl

-- Every MOV between registers of one size, of a constant that its register keeps, and from and to
-- memory at a base register of 64 bits and an offset of 32 bits with its sign, is read back from its
-- bytes: the processor finds the same operands, and the bytes behind.
pub assemble_mov-Assembles :
    (src dst : Operand) → IsMov src dst → Assembles mov src dst (assemble_mov src dst)
unfolding assemble_mov
assemble_mov-Assembles _ _ (IsMov.between {s = s} {d = d} hs hd e) =
    let size = s.size in
    record {
      bytes = put_rex2 size (opr_regno s) (opr_regno d) (if is_reg8 size then 136 else 137);
      made = rw (ap (λ z. same_size z size) e ∙ same_size_refl size) refl;
      back = λ rest.
          put_rex2-disassemble size (opr_regno s) (opr_regno d) rest (opr_regno-small s hs)
            (opr_regno-small d hd)
          ∙ ap
              (λ r. some (instruction mov (register r) (register (reg_of size (opr_regno d))) rest))
              (opr_regno_back s hs)
          ∙ ap (λ r. some (instruction mov (register s) (register r) rest))
              (ap (λ z. reg_of z (opr_regno d)) (sym e) ∙ opr_regno_back d hd);
    }
assemble_mov-Assembles _ _ (IsMov.constant {v = v} {d = d} hd hv f) = record {
  bytes = mov_immediate v d;
  made = refl;
  back = λ rest.
      mov_immediate-disassemble v d rest hd.number hd.extension hv f
      ∙ ap (λ r. some (instruction mov (immediate v) (register r) rest)) (reg_back d hd);
}
assemble_mov-Assembles _ _ (IsMov.load {o = o} {b = b} {d = d} hm hd) = record {
  bytes = put_rex_indirect d.size (opr_regno d) (opr_regno b) 138 0 o;
  made = refl;
  back = λ rest.
      load-disassemble d.size (opr_regno d) (opr_regno b) o rest (opr_regno-small d hd)
        (opr_regno-small b hm.base) hm.pattern hm.fits
      ∙ ap
          (λ r. some (
            instruction mov (indirect (ex_fixnum o) (general r))
              (register (reg_of d.size (opr_regno d))) rest))
          (base_back o b hm)
      ∙ ap (λ r. some (instruction mov (indirect (ex_fixnum o) (general b)) (register r) rest))
          (opr_regno_back d hd);
}
assemble_mov-Assembles _ _ (IsMov.store {o = o} {b = b} {s = s} hs hm) = record {
  bytes = put_rex_indirect s.size (opr_regno s) (opr_regno b) 136 0 o;
  made = refl;
  back = λ rest.
      store-disassemble s.size (opr_regno s) (opr_regno b) o rest (opr_regno-small s hs)
        (opr_regno-small b hm.base) hm.pattern hm.fits
      ∙ ap
          (λ r. some (
            instruction mov (register (reg_of s.size (opr_regno s)))
              (indirect (ex_fixnum o) (general r)) rest))
          (base_back o b hm)
      ∙ ap (λ r. some (instruction mov (register r) (indirect (ex_fixnum o) (general b)) rest))
          (opr_regno_back s hs);
}
