-- ===== src/As/Encode/Lea.antt =====
-- src/as/asm_x86.c: LEA with an index register is read back, except where that is %rsp.
use my9cc.As.{Expr}
use my9cc.As.Expr.{ex_fixnum}
use my9cc.As.Resolve.{to_signed}
use my9cc.As.Encode.{
  reg64, Reg, general, Operand, register, indirect, indirect_with_index, is_reg64, opr_regno,
  put_rex_indirect_with_index,
}
use my9cc.As.Encode.Mov.{fixnum_or, is_scale, assemble_lea}
use my9cc.As.Encode.Modes.{operands}
use my9cc.As.Encode.Indexed.{wide_prefixes, indexed_place, put_rex_indirect_with_index-Decodes}
use my9cc.As.Encode.Disasm.{lea, reg_of, read_operand, size_of, from_place, disassemble}
use my9cc.As.Encode.MovBack.{instruction, disassemble-Decodes, memory}
use my9cc.As.Encode.RoundTrip.{
  IsReg, IsMemory, Assembles, opr_regno_back, opr_regno-small, base_back,
}
use my9cc.Util.Align.{is_im32}
use my9cc.Prelude.{
  ℕ, zero, suc, ◌+◌, ◌*◌, ◌/◌, ◌^◌, ◌<◌, ◌≡◌, ◌≢◌, refl, true, false, Option, some, List, ◌++◌,
  ◌==◌, if◌then◌else◌, ◌>>=◌, arith, sym, ◌∙◌, ap, inl, inr, Bool-cases,
}

-- What the processor takes the indexed operand for.
abbrev pub effective : ℕ → ℕ → ℕ → ℕ → Operand
effective o k b i =
    if i == 4
    then memory b o
    else indirect_with_index (some (ex_fixnum o)) (some (ex_fixnum (2 ^ k))) (reg_of reg64 b)
        (reg_of reg64 i)

effective_place :
    (o k b i d : ℕ)
    → read_operand reg64 (wide_prefixes b i d) (indexed_place b i k o) ≡ some (effective o k b i)
effective_place o k b i d = elim (Bool-cases (i == 4)) [
  | inl bare ↦ rw bare refl
  | inr index ↦ rw index refl
]

wide_size : (b i d : ℕ) → b < 16 → i < 16 → d < 16 → size_of (wide_prefixes b i d) 141 ≡ reg64
wide_size b i d hb hi hd =
    let wide : ((8 + (b / 8 + i / 8 * 2 + d / 8 * 4)) / 8 == 1) ≡ true = ground arith in
    rw wide refl

lea_read :
    (o k b i d : ℕ) (rest : List ℕ)
    → b < 16
    → i < 16
    → d < 16
    → k < 4
    → o < 2 ^ 64
    → is_im32 (to_signed o) ≡ true
    → disassemble (put_rex_indirect_with_index b i d 140 0 o (2 ^ k) ++ rest)
      ≡ some (instruction lea (effective o k b i) (register (reg_of reg64 d)) rest)
lea_read o k b i d rest hb hi hd hk ho fits =
    let p = wide_prefixes b i d in
    let h = put_rex_indirect_with_index-Decodes b i d k o rest hb hi hd hk ho fits 140 in
    disassemble-Decodes p 141 (operands d (indexed_place b i k o) rest) _ h
    ∙ ap (λ m. m >>= from_place lea (size_of p 141) p) h.places
    ∙ ap (λ z. from_place lea z p (operands d (indexed_place b i k o) rest))
        (wide_size b i d hb hi hd)
    ∙ rw (effective_place o k b i d) refl

-- The operands of LEA with an index: a number or none for the offset and for the scale, which is
-- 2 ^ k, registers of 64 bits.
pub record IsIndexed (offset scale : Option Expr) (o k : ℕ) (b i d : Reg) : Type 0 where
  pub is_offset : fixnum_or 0 offset ≡ some o
  pub is_scale : fixnum_or 1 scale ≡ some (2 ^ k)
  pub small : k < 4
  pub at_base : IsMemory o b
  pub index : IsReg i
  pub index_size : i.size ≡ reg64
  pub target : IsReg d
  pub target_size : d.size ≡ reg64

power_scale : (k : ℕ) → k < 4 → is_scale (2 ^ k) ≡ true
power_scale zero h = refl
power_scale (suc zero) h = refl
power_scale (suc (suc zero)) h = refl
power_scale (suc (suc (suc zero))) h = refl
power_scale (suc (suc (suc (suc k)))) h = absurd (omega arith)

module _ (offset scale : Option Expr) (o k : ℕ) (b i d : Reg)
    (h : IsIndexed offset scale o k b i d) where
  indexed_code : List ℕ
  indexed_code =
      put_rex_indirect_with_index (opr_regno b) (opr_regno i) (opr_regno d) 140 0 o (2 ^ k)

  lea_made : assemble_lea (indirect_with_index offset scale b i) (register d) ≡ some indexed_code
  unfolding assemble_lea indexed_code
  lea_made =
      let wide : is_reg64 d.size ≡ true = ap (λ z. is_reg64 z) h.target_size in
      rw (wide, h.is_offset, h.is_scale, h.at_base.fits, power_scale k h.small) refl

  lea_back :
      (rest : List ℕ)
      → disassemble (indexed_code ++ rest)
        ≡ some (instruction lea (effective o k (opr_regno b) (opr_regno i)) (register d) rest)
  unfolding indexed_code
  lea_back rest =
      lea_read o k (opr_regno b) (opr_regno i) (opr_regno d) rest (opr_regno-small b h.at_base.base)
        (opr_regno-small i h.index) (opr_regno-small d h.target) h.small h.at_base.pattern
        h.at_base.fits
      ∙ ap
          (λ r.
            some (instruction lea (effective o k (opr_regno b) (opr_regno i)) (register r) rest))
          (ap (λ z. reg_of z (opr_regno d)) (sym h.target_size) ∙ opr_regno_back d h.target)

  -- LEA of 64-bit registers with an index register other than %rsp is read back as base, index,
  -- scale and offset, where an offset that is not written is 0, and a scale 1.
  pub assemble_lea-Assembles :
      opr_regno i ≢ 4
      → Assembles lea
          (indirect_with_index (some (ex_fixnum o)) (some (ex_fixnum (2 ^ k))) b i)
          (register d)
          (assemble_lea (indirect_with_index offset scale b i) (register d))
  assemble_lea-Assembles other =
      let index : (opr_regno i == 4) ≡ false = ground arith in
      let place : effective o k (opr_regno b) (opr_regno i)
          ≡ indirect_with_index (some (ex_fixnum o)) (some (ex_fixnum (2 ^ k))) b i =
        rw index (
          ap
            (λ r.
              indirect_with_index (some (ex_fixnum o)) (some (ex_fixnum (2 ^ k))) r
                (reg_of reg64 (opr_regno i)))
            (base_back o b h.at_base)
          ∙ ap (λ r. indirect_with_index (some (ex_fixnum o)) (some (ex_fixnum (2 ^ k))) b r)
              (ap (λ z. reg_of z (opr_regno i)) (sym h.index_size) ∙ opr_regno_back i h.index)) in
      record {
        bytes = indexed_code;
        made = lea_made;
        back = λ rest. lea_back rest ∙ ap (λ s. some (instruction lea s (register d) rest)) place;
      }

  -- With %rsp as the index, LEA is assembled all the same, and the processor reads it without an
  -- index: the base and the offset alone.
  pub assemble_lea-rsp :
      opr_regno i ≡ 4
      → Assembles lea
          (indirect (ex_fixnum o) (general b))
          (register d)
          (assemble_lea (indirect_with_index offset scale b i) (register d))
  assemble_lea-rsp stack =
      let index : (opr_regno i == 4) ≡ true = ground arith in
      let place : effective o k (opr_regno b) (opr_regno i) ≡ indirect (ex_fixnum o) (general b) =
        rw index (ap (λ r. indirect (ex_fixnum o) (general r)) (base_back o b h.at_base)) in
      record {
        bytes = indexed_code;
        made = lea_made;
        back = λ rest. lea_back rest ∙ ap (λ s. some (instruction lea s (register d) rest)) place;
      }
