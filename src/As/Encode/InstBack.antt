-- ===== src/As/Encode/InstBack.antt =====
-- src/as/asm_x86.c: the arithmetic on two registers is read back, and what is put for a constant.
use my9cc.As.{put_value}
use my9cc.As.Resolve.{to_signed}
use my9cc.As.Encode.{
  RegSize, Reg, register, is_reg8, is_reg64, opr_regno, put_rex0, put_rex1, put_rex2,
}
use my9cc.As.Encode.Mov.{same_size}
use my9cc.As.Encode.Inst.{
  Alu, add, or_, and_, sub, xor, cmp, Inst, alu, test, regs_opcode, acc_opcode, alu_prefix,
  put_regs, put_constant, sum_immediate, logic_immediate, cmp_immediate, alu_immediate,
}
use my9cc.As.Encode.Decode.{Prefixes, direct, read_mod_rm}
use my9cc.As.Encode.ReadBack.{prefixes_of}
use my9cc.As.Encode.Modes.{operands, put_rex2-Decodes}
use my9cc.As.Encode.Disasm.{inst, reg_of, size_of, to_place, from_place, by_opcode}
use my9cc.As.Encode.MovBack.{instruction, disassemble-Decodes, source_read, target_read, sized}
use my9cc.As.Encode.RoundTrip.{IsReg, Assembles, opr_regno_back, opr_regno-small, same_size_refl}
use my9cc.As.Encode.Arith.{sized-IsOpcode}
use my9cc.Util.Align.{is_im8, is_im32}
use my9cc.Prelude.{
  ℕ, ◌+◌, ◌%◌, ◌≤◌, ◌<◌, ◌≡◌, refl, Bool, true, false, some, List, ◌++◌, ◌==◌, if◌then◌else◌, ◌>>=◌,
  sym, ◌∙◌, ap, inl, inr, ◌⊎◌, Bool-cases,
}

pub store_form :
    (a : Alu) (b : Bool) (p : Prefixes) (bs : List ℕ)
    → by_opcode p (if b then regs_opcode a else regs_opcode a + 1) bs ≡ (
        read_mod_rm p bs
        >>= to_place (inst (alu a)) (size_of p (if b then regs_opcode a else regs_opcode a + 1)) p)
store_form add true p bs = refl
store_form add false p bs = refl
store_form or_ true p bs = refl
store_form or_ false p bs = refl
store_form and_ true p bs = refl
store_form and_ false p bs = refl
store_form sub true p bs = refl
store_form sub false p bs = refl
store_form xor true p bs = refl
store_form xor false p bs = refl
store_form cmp true p bs = refl
store_form cmp false p bs = refl

pub test_form :
    (b : Bool) (p : Prefixes) (bs : List ℕ)
    → by_opcode p (if b then 132 else 132 + 1) bs
      ≡ (read_mod_rm p bs >>= to_place (inst test) (size_of p (if b then 132 else 132 + 1)) p)
test_form true p bs = refl
test_form false p bs = refl

pub load_form :
    (b : Bool) (p : Prefixes) (bs : List ℕ)
    → by_opcode p (if b then 2 else 2 + 1) bs
      ≡ (read_mod_rm p bs >>= from_place (inst (alu add)) (size_of p (if b then 2 else 2 + 1)) p)
load_form true p bs = refl
load_form false p bs = refl

-- Two registers of one size.
pub regs-Assembles :
    (m : Inst) (o : ℕ) (s d : Reg)
    → IsReg s
    → IsReg d
    → d.size ≡ s.size
    → (o < 63) ⊎ (103 ≤ o)
    → (o % 2 == 0) ≡ true
    → ((b : Bool) (p : Prefixes) (bs : List ℕ)
        → by_opcode p (if b then o else o + 1) bs
          ≡ (read_mod_rm p bs >>= to_place (inst m) (size_of p (if b then o else o + 1)) p))
    → Assembles (inst m) (register s) (register d) (put_regs s d o)
regs-Assembles m o s d hs hd e range even form =
    let z = s.size in
    let n = opr_regno s in
    let k = opr_regno d in
    let small_s = opr_regno-small s hs in
    let small_d = opr_regno-small d hd in
    let p = prefixes_of z n k in
    let code = if is_reg8 z then o else o + 1 in
    record {
      bytes = put_rex2 z n k code;
      made = rw (ap (λ t. same_size t z) e ∙ same_size_refl z) refl;
      back = λ rest.
          let h =
            put_rex2-Decodes z n k code rest small_s small_d (sized-IsOpcode (is_reg8 z) o range) in
          disassemble-Decodes p code (operands n (direct k) rest) _ h
          ∙ form (is_reg8 z) p h.rest
          ∙ ap (λ t. t >>= to_place (inst m) (size_of p code) p) h.places
          ∙ ap (λ t. to_place (inst m) t p (operands n (direct k) rest))
              (sized z n k o small_s small_d even)
          ∙ rw (source_read z n k, target_read z n k) refl
          ∙ ap (λ r. some (instruction (inst m) (register r) (register (reg_of z k)) rest))
              (opr_regno_back s hs)
          ∙ ap (λ r. some (instruction (inst m) (register s) (register r) rest))
              (ap (λ t. reg_of t k) (sym e) ∙ opr_regno_back d hd);
    }

-- A constant for a register that is not a byte: a byte, or all of at most 32 bits.
abbrev pub plain : Alu → RegSize → ℕ → ℕ → List ℕ
plain a z n v =
    if is_im8 (to_signed v)
    then put_rex1 z (alu_prefix a) n 131 ++ put_value v 1
    else (if n == 0 then put_rex0 z 0 n (acc_opcode a + 1) else put_rex1 z (alu_prefix a) n 129)
      ++ put_constant z v

module _ (v : ℕ) (d : Reg) (wide : is_reg8 d.size ≡ false)
    (fits : is_im32 (to_signed v) ≡ true) where
  sum_plain : (a : Alu) → sum_immediate a v d ≡ some (plain a d.size (opr_regno d) v)
  sum_plain a = elim (Bool-cases (is_im8 (to_signed v))) [
    | inl byte ↦ elim (Bool-cases (opr_regno d == 0)) [
      | inl acc ↦ rw (fits, byte, wide, acc) refl
      | inr reg ↦ rw (fits, byte, wide, reg) refl
    ]
    | inr long ↦ elim (Bool-cases (opr_regno d == 0)) [
      | inl acc ↦ rw (fits, long, wide, acc) refl
      | inr reg ↦ rw (fits, long, wide, reg) refl
    ]
  ]

  logic_plain : (a : Alu) → logic_immediate a v d ≡ some (plain a d.size (opr_regno d) v)
  logic_plain a = elim (Bool-cases (is_im8 (to_signed v))) [
    | inl byte ↦ rw (byte, wide) refl
    | inr long ↦ elim (Bool-cases (is_reg64 d.size)) [
      | inl quad ↦ rw (long, fits, quad, wide) refl
      | inr other ↦ rw (long, other, wide) refl
    ]
  ]

  cmp_plain : cmp_immediate v d ≡ some (plain cmp d.size (opr_regno d) v)
  cmp_plain = elim (Bool-cases (is_im8 (to_signed v))) [
    | inl byte ↦ elim (Bool-cases (opr_regno d == 0)) [
      | inl acc ↦ rw (fits, byte, wide, acc) refl
      | inr reg ↦ rw (fits, byte, wide, reg) refl
    ]
    | inr long ↦ elim (Bool-cases (opr_regno d == 0)) [
      | inl acc ↦ rw (fits, long, wide, acc) refl
      | inr reg ↦ rw (fits, long, wide, reg) refl
    ]
  ]

  pub alu_plain : (a : Alu) → alu_immediate a v d ≡ some (plain a d.size (opr_regno d) v)
  alu_plain add = sum_plain add
  alu_plain sub = sum_plain sub
  alu_plain and_ = logic_plain and_
  alu_plain or_ = logic_plain or_
  alu_plain xor = logic_plain xor
  alu_plain cmp = cmp_plain
