-- ===== src/As/Encode.antt =====
-- src/as/asm_x86.c: the bytes of an instruction: prefixes, the byte ModRM, the byte SIB and the
-- displacement, and `assemble_mov` and the LEA of `assemble_inst`, which use them.
-- The pointer `p` is the list of bytes that were put. A `long` is its pattern of 64 bits, and the
-- result is `none` where the C function returns false.
pub mod Bytes
pub mod Decode
pub mod ReadBack
pub mod Modes
pub mod Indexed
pub mod Mov
pub mod Inst
pub mod Disasm
pub mod MovBack
pub mod Constant
pub mod RoundTrip
pub mod Lea
pub mod Group
pub mod Arith
pub mod InstBack
pub mod OneBack
pub mod ArithTrip
pub mod Widened
mod Tests
use my9cc.As.{Expr, put_value}
use my9cc.As.Expr.{ex_fixnum}
use my9cc.As.Resolve.{to_signed}
use my9cc.Util.Align.{is_im8, is_im32}
use my9cc.Prelude.{
  ℕ, ◌+◌, ◌*◌, ◌/◌, ◌%◌, ◌^◌, Bool, true, false, not, ◌&&◌, ◌||◌, Option, none, some, List, [], ◌∷◌,
  ◌++◌, ◌==◌, leb, if◌then◌else◌, bit_and, bit_or,
}

pub data RegSize : Type 0 where
  reg8 reg16 reg32 reg64 : RegSize

-- A general register; RIP is a constructor of its own where it may stand.
pub record Reg : Type 0 where
  pub size : RegSize
  pub no : ℕ
  pub x : ℕ

pub data BaseReg : Type 0 where
  rip : BaseReg
  general : Reg → BaseReg

-- The offset and the scale of an indexed operand may be NULL. `other` is each other type.
pub data Operand : Type 0 where
  register : Reg → Operand
  indirect : Expr → BaseReg → Operand
  indirect_with_index : Option Expr → Option Expr → Reg → Reg → Operand
  immediate : ℕ → Operand
  noperand : Operand
  other : Operand

abbrev pub is_reg8 : RegSize → Bool
is_reg8 reg8 = true
is_reg8 _ = false

abbrev pub is_reg16 : RegSize → Bool
is_reg16 reg16 = true
is_reg16 _ = false

abbrev pub is_reg64 : RegSize → Bool
is_reg64 reg64 = true
is_reg64 _ = false

abbrev pub opr_regno : Reg → ℕ
opr_regno r = bit_or r.no (r.x * 8)

-- 0x40 | ((dno & 8) >> 3) | ((sno & 8) >> 1) | (size != REG64 ? 0 : 8)
abbrev pub rex_byte : ℕ → ℕ → ℕ → ℕ
rex_byte sno dno w = bit_or (bit_or (bit_or 64 (bit_and dno 8 / 8)) (bit_and sno 8 / 2)) w

abbrev pub needs_rex : RegSize → ℕ → ℕ → Bool
needs_rex size sno dno =
    leb 8 sno || leb 8 dno || (is_reg8 size && (leb 4 sno || leb 4 dno)) || is_reg64 size

unfoldable pub put_rex0 : RegSize → ℕ → ℕ → ℕ → List ℕ
put_rex0 size sno dno opcode =
    (if is_reg16 size then 102 ∷ [] else [])
    ++ ((if needs_rex size sno dno
          then rex_byte sno dno (if is_reg64 size then 8 else 0) ∷ []
          else [])
        ++ (opcode ∷ []))

unfoldable pub put_rex1 : RegSize → ℕ → ℕ → ℕ → List ℕ
put_rex1 size rex_prefix dno opcode =
    put_rex0 size 0 dno opcode ++ (bit_or rex_prefix (bit_and dno 7) ∷ [])

-- (code | d | (s << 3)), where both are cut to three bits
abbrev pub mod_rm : ℕ → ℕ → ℕ → ℕ
mod_rm code r m = bit_or (bit_or code (bit_and r 7 * 8)) (bit_and m 7)

unfoldable pub put_rex2 : RegSize → ℕ → ℕ → ℕ → List ℕ
put_rex2 size sno dno opcode = put_rex0 size sno dno opcode ++ (mod_rm 192 sno dno ∷ [])

-- The two high bits that choose the width of the displacement from the base register `s`.
abbrev pub offset_code : ℕ → ℕ → ℕ → ℕ
offset_code op2 s offset =
    if offset == 0 && not (s == 5) then op2 else if is_im8 (to_signed offset) then 64 else 128

abbrev pub put_offset : ℕ → ℕ → List ℕ
put_offset s offset =
    if offset == 0 && not (s == 5)
    then []
    else if is_im8 (to_signed offset)
    then put_value offset 1
    else if is_im32 (to_signed offset)
    then put_value offset 4
    else []

unfoldable pub put_rex_indirect : RegSize → ℕ → ℕ → ℕ → ℕ → ℕ → List ℕ
put_rex_indirect size reg indirect_reg opcode op2 offset =
    let s = bit_and indirect_reg 7 in
    put_rex0 size reg indirect_reg (if is_reg8 size then opcode else (opcode + 1) % 256)
    ++ (mod_rm (offset_code op2 s offset) reg indirect_reg
        ∷ ((if s == 4 then 36 ∷ [] else []) ++ put_offset s offset))

-- kScaleTable, at a power of two up to 8.
abbrev pub scale_bit : ℕ → ℕ
scale_bit scale = if scale == 8 then 3 else scale / 2

unfoldable pub put_rex_indirect_with_index : ℕ → ℕ → ℕ → ℕ → ℕ → ℕ → ℕ → List ℕ
put_rex_indirect_with_index base_reg index_reg dst_reg opcode op2 offset scale =
    let b = bit_and base_reg 7 in
    bit_or (bit_or (bit_or 72 (bit_and base_reg 8 / 8)) (bit_and index_reg 8 / 4))
      (bit_and dst_reg 8 / 2)
    ∷ (bit_or opcode 1
        ∷ (bit_or (bit_or (offset_code op2 b offset) (bit_and dst_reg 7 * 8)) 4
            ∷ (bit_or (bit_or b (bit_and index_reg 7 * 8)) (scale_bit scale * 64)
                ∷ put_offset b offset)))

unfoldable pub put_rex_imm_indirect : RegSize → ℕ → ℕ → ℕ → ℕ → ℕ → ℕ → List ℕ
put_rex_imm_indirect size reg indirect_reg opcode op2 value offset =
    put_rex_indirect size reg indirect_reg opcode op2 offset
    ++ (if is_im8 (to_signed value) then put_value value 1 else put_value value 4)
