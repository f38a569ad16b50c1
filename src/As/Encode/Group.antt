-- ===== src/As/Encode/Group.antt =====
-- src/as/asm_x86.c: the bytes of `put_rex1` and of the opcodes of the arithmetic are read back.
use my9cc.As.Resolve.{to_signed}
use my9cc.As.Encode.{RegSize, reg8, reg16, reg32, reg64, register, immediate, put_rex0, put_rex1}
use my9cc.As.Encode.Bytes.{prefix_parts}
use my9cc.As.Encode.Inst.{Alu, add, or_, and_, sub, xor, cmp, alu, alu_prefix, put_constant}
use my9cc.As.Encode.Decode.{take_prefixes, direct, Operands, read_mod_rm}
use my9cc.As.Encode.ReadBack.{
  prefixes_of, put_rex0-read, rex_r-prefixes, rex_b-prefixes, byte_back, long_back,
}
use my9cc.As.Encode.Modes.{operands, Decodes, IsOpcode, direct_read}
use my9cc.As.Encode.Disasm.{
  inst, Disassembled, reg_of, read_reg, size_of, alu_of, read_short, constant_and, alu_group,
  by_opcode, disassemble,
}
use my9cc.As.Encode.MovBack.{instruction, disassemble-Decodes}
use my9cc.As.Encode.Constant.{Fits, constant_back}
use my9cc.Util.Align.{is_im8, is_im32}
use mathlib.Core.List.{append_assoc}
use my9cc.Prelude.{
  ℕ, ◌+◌, ◌*◌, ◌%◌, ◌^◌, ◌<◌, ◌≡◌, refl, true, Option, some, List, [], ◌∷◌, ◌++◌, ◌>>=◌, arith, ◌∙◌,
  ap, bit_and, bit_or,
}

put_rex1-Decodes :
    (z : RegSize) (k n o : ℕ) (rest : List ℕ)
    → k < 8
    → n < 16
    → IsOpcode o
    → Decodes
        (prefixes_of z 0 n)
        o
        (operands k (direct n) rest)
        (put_rex1 z (192 + k * 8) n o ++ rest)
unfolding put_rex1
put_rex1-Decodes z k n o rest hk hn h =
    let m = bit_or (192 + k * 8) (bit_and n 7) in
    record {
      rest = m ∷ rest;
      prefixes =
          ap take_prefixes (append_assoc (put_rex0 z 0 n o) (m ∷ []) rest)
          ∙ put_rex0-read z 0 n (omega arith) hn o (m ∷ rest) h.not_data16 h.not_rex;
      places =
          direct_read (prefixes_of z 0 n) m k n rest (omega (arith, prefix_parts k n hk hn))
            (omega (arith, rex_r-prefixes z 0 n (omega arith) hn))
            (rex_b-prefixes z 0 n (omega arith) hn);
    }

-- An instruction whose opcode reads ModRM.
pub group_read :
    (z : RegSize) (k n o : ℕ) (rest : List ℕ) (f : Operands → Option Disassembled)
    (r : Disassembled)
    → k < 8
    → n < 16
    → IsOpcode o
    → ((bs : List ℕ)
        → by_opcode (prefixes_of z 0 n) o bs ≡ (read_mod_rm (prefixes_of z 0 n) bs >>= f))
    → f (operands k (direct n) rest) ≡ some r
    → disassemble (put_rex1 z (192 + k * 8) n o ++ rest) ≡ some r
group_read z k n o rest f r hk hn h form e =
    let d = put_rex1-Decodes z k n o rest hk hn h in
    disassemble-Decodes (prefixes_of z 0 n) o (operands k (direct n) rest) _ d
    ∙ form d.rest
    ∙ ap (λ m. m >>= f) d.places
    ∙ e

-- A constant that is kept as a signed number of at most 32 bits.
abbrev pub ShortFits : RegSize → ℕ → Type 0
ShortFits reg8 v = is_im8 (to_signed v) ≡ true
ShortFits reg16 v = Fits reg16 v
ShortFits reg32 v = is_im32 (to_signed v) ≡ true
ShortFits reg64 v = is_im32 (to_signed v) ≡ true

pub short_back :
    (z : RegSize) (v : ℕ) (rest : List ℕ)
    → v < 2 ^ 64
    → ShortFits z v
    → read_short z (put_constant z v ++ rest) ≡ some (v, rest)
short_back reg8 v rest h f = byte_back v rest h f
short_back reg16 v rest h f = constant_back reg16 v rest h f
short_back reg32 v rest h f = long_back v rest h f
short_back reg64 v rest h f = long_back v rest h f

abbrev pub alu_code : Alu → ℕ
alu_code add = 0
alu_code or_ = 1
alu_code and_ = 4
alu_code sub = 5
alu_code xor = 6
alu_code cmp = 7

pub alu_known : (a : Alu) → (alu_of (alu_code a % 8) ≡ some a) × (alu_code a < 8)
alu_known add = (refl, omega arith)
alu_known or_ = (refl, omega arith)
alu_known and_ = (refl, omega arith)
alu_known sub = (refl, omega arith)
alu_known xor = (refl, omega arith)
alu_known cmp = (refl, omega arith)

pub alu_prefix_code : (a : Alu) → alu_prefix a ≡ 192 + alu_code a * 8
alu_prefix_code add = refl
alu_prefix_code or_ = refl
alu_prefix_code and_ = refl
alu_prefix_code sub = refl
alu_prefix_code xor = refl
alu_prefix_code cmp = refl

-- The register of a group, in the size `w` that the opcode stands for.
pub alu_group_read :
    (z w width : RegSize) (a : Alu) (n o v : ℕ) (bytes rest : List ℕ)
    → n < 16
    → IsOpcode o
    → ((bs : List ℕ)
        → by_opcode (prefixes_of z 0 n) o bs
          ≡ (read_mod_rm (prefixes_of z 0 n) bs >>= alu_group (prefixes_of z 0 n) width o))
    → size_of (prefixes_of z 0 n) o ≡ w
    → read_reg w (prefixes_of z 0 n) n ≡ some (register (reg_of w n))
    → read_short width (bytes ++ rest) ≡ some (v, rest)
    → disassemble ((put_rex1 z (alu_prefix a) n o ++ bytes) ++ rest)
      ≡ some (instruction (inst (alu a)) (immediate v) (register (reg_of w n)) rest)
alu_group_read z w width a n o v bytes rest hn h form size reg back =
    let (known, small) = alu_known a in
    let p = prefixes_of z 0 n in
    ap disassemble (append_assoc (put_rex1 z (alu_prefix a) n o) bytes rest)
    ∙ ap (λ t. disassemble (put_rex1 z t n o ++ (bytes ++ rest))) (alu_prefix_code a)
    ∙ group_read z (alu_code a) n o (bytes ++ rest) (alu_group p width o) _ small hn h form (
        rw (known, back)
          (ap (λ t. constant_and (inst (alu a)) (read_reg t p n) (some (v, rest))) size
            ∙ rw reg refl))
