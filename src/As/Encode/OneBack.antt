-- ===== src/As/Encode/OneBack.antt =====
-- src/as/asm_x86.c: the arithmetic on a constant, and on one operand, is read back.
use my9cc.As.{put_value}
use my9cc.As.Resolve.{to_signed}
use my9cc.As.Encode.{
  RegSize, reg8, reg16, reg32, reg64, Reg, register, immediate, is_reg8, needs_rex, opr_regno,
  put_rex0, put_rex1,
}
use my9cc.As.Encode.Bytes.{regno, bit_and-low}
use my9cc.As.Encode.Inst.{
  Alu, Unary, mul, div, idiv, neg, not_, inc, dec, alu, acc_opcode, alu_prefix, put_constant,
  put_product, put_unary,
}
use my9cc.As.Encode.Decode.{Prefixes, read_mod_rm}
use my9cc.As.Encode.ReadBack.{prefixes_of, byte_back, rex_w-prefixes}
use my9cc.As.Encode.Modes.{IsOpcode}
use my9cc.As.Encode.Disasm.{inst, reg_of, read_reg, size_of, unary_group, by_opcode, disassemble}
use my9cc.As.Encode.MovBack.{instruction, target_read, wide_size, sized}
use my9cc.As.Encode.RoundTrip.{IsReg, opr_regno-small}
use my9cc.As.Encode.InstBack.{plain}
use my9cc.As.Encode.Arith.{sized-IsOpcode, unary_code, unary_table, acc_read}
use my9cc.As.Encode.Group.{ShortFits, alu_group_read, short_back}
use my9cc.Util.Align.{is_im8, is_im32}
use my9cc.Prelude.{
  ℕ, ◌+◌, ◌*◌, ◌%◌, ◌^◌, ◌<◌, ◌≡◌, refl, Bool, true, false, ◌&&◌, some, List, [], ◌∷◌, ◌++◌, ◌==◌,
  if◌then◌else◌, ◌>>=◌, arith, sym, ◌∙◌, ap, inl, inr, ◌⊎◌, Bool-cases, bit_and, bit_or,
}

-- A general register without a prefix REX for bytes has the number that was put, in any other size.
pub wider_read :
    (n : ℕ) → read_reg reg32 (prefixes_of reg8 0 n) n ≡ some (register (reg_of reg32 n))
wider_read n = elim (Bool-cases (needs_rex reg8 0 n)) [
  | inl need ↦ rw need refl
  | inr bare ↦ rw bare refl
]

pub wider_size :
    (n o : ℕ) → n < 16 → (o % 2 == 0) ≡ false → size_of (prefixes_of reg8 0 n) o ≡ reg32
wider_size n o hn odd = rw (odd, rex_w-prefixes reg8 0 n (omega arith) hn) refl

pub alu_byte_read :
    (z w : RegSize) (a : Alu) (n v : ℕ) (rest : List ℕ)
    → n < 16
    → v < 2 ^ 64
    → is_im8 (to_signed v) ≡ true
    → size_of (prefixes_of z 0 n) 131 ≡ w
    → read_reg w (prefixes_of z 0 n) n ≡ some (register (reg_of w n))
    → disassemble ((put_rex1 z (alu_prefix a) n 131 ++ put_value v 1) ++ rest)
      ≡ some (instruction (inst (alu a)) (immediate v) (register (reg_of w n)) rest)
alu_byte_read z w a n v rest hn hv byte size reg =
    alu_group_read z w reg8 a n 131 v (put_value v 1) rest hn
      (record { not_data16 = refl; not_rex = refl }) (λ bs. refl) size reg
      (byte_back v rest hv byte)

pub plain_read :
    (a : Alu) (z : RegSize) (n v : ℕ) (rest : List ℕ)
    → n < 16
    → v < 2 ^ 64
    → is_reg8 z ≡ false
    → ShortFits z v
    → disassemble (plain a z n v ++ rest)
      ≡ some (instruction (inst (alu a)) (immediate v) (register (reg_of z n)) rest)
plain_read a z n v rest hn hv wide f = elim (Bool-cases (is_im8 (to_signed v))) [
  | inl byte ↦ rw byte (
      alu_byte_read z z a n v rest hn hv byte (wide_size z 0 n 131 (omega arith) hn wide refl)
        (target_read z 0 n))
  | inr long ↦ elim (Bool-cases (n == 0)) [
    | inl acc ↦
        let first : n ≡ 0 = ground arith in
        rw (long, acc)
          (ap (λ t. disassemble ((put_rex0 z 0 t (acc_opcode a + 1) ++ put_constant z v) ++ rest))
              first
            ∙ ap
                (λ b. disassemble (
                  (put_rex0 z 0 0 (if b then acc_opcode a else acc_opcode a + 1)
                    ++ put_constant z v)
                  ++ rest))
                (sym wide)
            ∙ acc_read z a v rest hv f
            ∙ ap (λ t. some (instruction (inst (alu a)) (immediate v) (register (reg_of z t)) rest))
                (sym first))
    | inr other ↦
        let size = wide_size z 0 n 129 (omega arith) hn wide refl in
        rw (long, other)
          (alu_group_read z z (size_of (prefixes_of z 0 n) 129) a n 129 v (put_constant z v) rest hn
            (record { not_data16 = refl; not_rex = refl }) (λ bs. refl) size (target_read z 0 n)
            (rw size (short_back z v rest hv f)))
  ]
]

-- The least constants are of 32 bits.
pub short_fits : (z : RegSize) (v : ℕ) → v < 2 ^ 64 → ShortFits z v → is_im32 (to_signed v) ≡ true
unfolding is_im8 is_im32
short_fits reg8 v h f = ground arith
short_fits reg16 v h f = ground arith
short_fits reg32 v h f = f
short_fits reg64 v h f = f

-- The opcodes that are put for one operand, and the byte's own where the source has it.
abbrev pub has_byte : Unary → Bool
has_byte mul = true
has_byte div = true
has_byte idiv = true
has_byte _ = false

abbrev pub unary_opcode : Unary → Bool → ℕ
unary_opcode inc b = 255
unary_opcode dec b = 255
unary_opcode u b = if has_byte u && b then 246 else 247

product_opcode : (b : Bool) → bit_or 246 (if b then 0 else 1) ≡ (if b then 246 else 247)
product_opcode true = refl
product_opcode false = refl

product_plain :
    (code : ℕ) (r : Reg)
    → IsReg r
    → put_product code r ≡ put_rex1 r.size code (opr_regno r) (if is_reg8 r.size then 246 else 247)
unfolding put_rex1
product_plain code r h =
    let n = opr_regno r in
    let hn = h.number in
    let hx = h.extension in
    let low : r.no ≡ bit_and n 7 =
      omega (arith, bit_and-low n (opr_regno-small r h), regno r.no r.x hn hx) in
    ap (λ t. put_rex0 r.size 0 n t ++ (bit_or code r.no ∷ [])) (product_opcode (is_reg8 r.size))
    ∙ ap (λ t. put_rex0 r.size 0 n (if is_reg8 r.size then 246 else 247) ++ (bit_or code t ∷ []))
        low

pub unary_plain :
    (u : Unary) (r : Reg)
    → IsReg r
    → put_unary u r
      ≡ put_rex1 r.size (192 + unary_code u * 8) (opr_regno r) (unary_opcode u (is_reg8 r.size))
unary_plain mul r h = product_plain 224 r h
unary_plain div r h = product_plain 240 r h
unary_plain idiv r h = product_plain 248 r h
unary_plain neg r h = refl
unary_plain not_ r h = refl
unary_plain inc r h = refl
unary_plain dec r h = refl

pub unary_form :
    (u : Unary) (b : Bool) (p : Prefixes) (bs : List ℕ)
    → by_opcode p (unary_opcode u b) bs
      ≡ (read_mod_rm p bs >>= unary_group p (unary_opcode u b) (unary_table u))
unary_form mul true p bs = refl
unary_form mul false p bs = refl
unary_form div true p bs = refl
unary_form div false p bs = refl
unary_form idiv true p bs = refl
unary_form idiv false p bs = refl
unary_form neg b p bs = refl
unary_form not_ b p bs = refl
unary_form inc b p bs = refl
unary_form dec b p bs = refl

pub unary-IsOpcode : (u : Unary) (b : Bool) → IsOpcode (unary_opcode u b)
unary-IsOpcode mul b = sized-IsOpcode b 246 (inr (omega arith))
unary-IsOpcode div b = sized-IsOpcode b 246 (inr (omega arith))
unary-IsOpcode idiv b = sized-IsOpcode b 246 (inr (omega arith))
unary-IsOpcode neg b = record { not_data16 = refl; not_rex = refl }
unary-IsOpcode not_ b = record { not_data16 = refl; not_rex = refl }
unary-IsOpcode inc b = record { not_data16 = refl; not_rex = refl }
unary-IsOpcode dec b = record { not_data16 = refl; not_rex = refl }

pub unary_size :
    (u : Unary) (z : RegSize) (n : ℕ)
    → n < 16
    → (is_reg8 z ≡ false) ⊎ (has_byte u ≡ true)
    → size_of (prefixes_of z 0 n) (unary_opcode u (is_reg8 z)) ≡ z
unary_size mul z n hn h = sized z 0 n 246 (omega arith) hn refl
unary_size div z n hn h = sized z 0 n 246 (omega arith) hn refl
unary_size idiv z n hn h = sized z 0 n 246 (omega arith) hn refl
unary_size neg z n hn (inl wide) = wide_size z 0 n 247 (omega arith) hn wide refl
unary_size neg z n hn (inr byte) = cc
unary_size not_ z n hn (inl wide) = wide_size z 0 n 247 (omega arith) hn wide refl
unary_size not_ z n hn (inr byte) = cc
unary_size inc z n hn (inl wide) = wide_size z 0 n 255 (omega arith) hn wide refl
unary_size inc z n hn (inr byte) = cc
unary_size dec z n hn (inl wide) = wide_size z 0 n 255 (omega arith) hn wide refl
unary_size dec z n hn (inr byte) = cc
