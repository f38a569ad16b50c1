-- ===== src/As/Encode/Disasm.antt =====
-- What the processor takes MOV, LEA and the arithmetic for, by their opcodes.
use my9cc.As.Expr.{ex_fixnum}
use my9cc.As.Resolve.Reaches.{read_bytes, sign_extend}
use my9cc.As.Encode.{
  RegSize, reg8, reg16, reg32, reg64, Reg, general, Operand, register, indirect,
  indirect_with_index, immediate, noperand, is_reg8,
}
use my9cc.As.Encode.Inst.{
  Alu, add, or_, and_, sub, xor, cmp, Shift, shl, shr, sar, Unary, mul, div, idiv, neg, not_, inc,
  dec, Inst, alu, test, shift, unary,
}
use my9cc.As.Encode.Decode.{
  Prefixes, take_prefixes, rex_b, rex_w, read_offset, Place, direct, based, indexed, Operands,
  read_mod_rm,
}
use my9cc.Prelude.{
  ℕ, ◌+◌, ◌/◌, ◌%◌, ◌^◌, Bool, true, false, ◌&&◌, ◌||◌, Option, none, some, List, [], ◌∷◌, ◌==◌,
  leb, ltb, if◌then◌else◌, ◌>>=◌, take, drop, length,
}

pub data Mnemonic : Type 0 where
  mov lea : Mnemonic
  inst : Inst → Mnemonic

-- An instruction and the bytes behind it.
pub record Disassembled : Type 0 where
  pub mnemonic : Mnemonic
  pub src : Operand
  pub dst : Operand
  pub behind : List ℕ

abbrev pub reg_of : RegSize → ℕ → Reg
reg_of size n = record { size = size; no = n % 8; x = n / 8 }

abbrev pub has_rex : Option ℕ → Bool
has_rex none = false
has_rex (some n) = true

-- Without a prefix REX the numbers from 4 on are those of %ah and so on, which are no `Reg`.
abbrev pub read_reg : RegSize → Prefixes → ℕ → Option Operand
read_reg size p n =
    if has_rex p.rex
    then some (register (reg_of size n))
    else if is_reg8 size && leb 4 n
    then none
    else some (register (reg_of size n))

abbrev pub read_operand : RegSize → Prefixes → Place → Option Operand
read_operand size p (direct n) = read_reg size p n
read_operand size p (based b offset) = some (indirect (ex_fixnum offset) (general (reg_of reg64 b)))
read_operand size p (indexed b i k offset) = some (
    indirect_with_index (some (ex_fixnum offset)) (some (ex_fixnum (2 ^ k))) (reg_of reg64 b)
      (reg_of reg64 i))

-- An even opcode is that of bytes.
abbrev pub size_of : Prefixes → ℕ → RegSize
size_of p o =
    if o % 2 == 0 then reg8 else if rex_w p then reg64 else if p.data16 then reg16 else reg32

-- A constant, extended by its sign.
abbrev pub read_immediate : RegSize → List ℕ → Option (ℕ × List ℕ)
read_immediate reg8 bs = read_offset 1 bs
read_immediate reg16 bs =
    if leb 2 (length bs)
    then some (sign_extend (2 ^ 15) (read_bytes (take 2 bs)), drop 2 bs)
    else none
read_immediate reg32 bs = read_offset 2 bs
read_immediate reg64 bs =
    if leb 8 (length bs) then some (read_bytes (take 8 bs), drop 8 bs) else none

abbrev pub read_constant : RegSize → Prefixes → ℕ → List ℕ → Option Disassembled
read_constant size p n bs = read_immediate size bs >>= λ r. read_reg size p n >>= λ d.
    some (record { mnemonic = mov; src = immediate (r.0); dst = d; behind = r.1 })

-- MOV to the place, and MOV from it or LEA.
abbrev pub to_place : Mnemonic → RegSize → Prefixes → Operands → Option Disassembled
to_place m size p o = read_reg size p o.reg >>= λ s. read_operand size p o.place >>= λ d.
    some (record { mnemonic = m; src = s; dst = d; behind = o.behind })

abbrev pub from_place : Mnemonic → RegSize → Prefixes → Operands → Option Disassembled
from_place m size p o = read_operand size p o.place >>= λ s. read_reg size p o.reg >>= λ d.
    some (record { mnemonic = m; src = s; dst = d; behind = o.behind })

abbrev pub constant_to_place : Prefixes → Operands → Option Disassembled
constant_to_place p o =
    if o.reg % 8 == 0
    then (read_offset 2 o.behind >>= λ r. read_operand (size_of p 199) p o.place >>= λ d.
        some (record { mnemonic = mov; src = immediate (r.0); dst = d; behind = r.1 }))
    else none

abbrev pub alu_of : ℕ → Option Alu
alu_of n =
    if n == 0
    then some add
    else if n == 1
    then some or_
    else if n == 4
    then some and_
    else if n == 5
    then some sub
    else if n == 6
    then some xor
    else if n == 7
    then some cmp
    else none

abbrev pub shift_of : ℕ → Option Shift
shift_of n =
    if n == 4 then some shl else if n == 5 then some shr else if n == 7 then some sar else none

abbrev pub unary_of : ℕ → Option Unary
unary_of n =
    if n == 2
    then some not_
    else if n == 3
    then some neg
    else if n == 4
    then some mul
    else if n == 6
    then some div
    else if n == 7
    then some idiv
    else none

abbrev pub step_of : ℕ → Option Unary
step_of n = if n == 0 then some inc else if n == 1 then some dec else none

-- A constant of at most 32 bits.
abbrev pub read_short : RegSize → List ℕ → Option (ℕ × List ℕ)
read_short reg8 bs = read_offset 1 bs
read_short reg16 bs = read_immediate reg16 bs
read_short reg32 bs = read_offset 2 bs
read_short reg64 bs = read_offset 2 bs

abbrev pub constant_and : Mnemonic → Option Operand → Option (ℕ × List ℕ) → Option Disassembled
constant_and m d c = c >>= λ r.
    d >>= λ o. some (record { mnemonic = m; src = immediate (r.0); dst = o; behind = r.1 })

abbrev pub alu_form : Alu → Prefixes → ℕ → List ℕ → Option Disassembled
alu_form a p o bs =
    if leb (o % 8) 1
    then read_mod_rm p bs >>= to_place (inst (alu a)) (size_of p o) p
    else if leb (o % 8) 3
    then read_mod_rm p bs >>= from_place (inst (alu a)) (size_of p o) p
    else if leb (o % 8) 5
    then constant_and (inst (alu a)) (some (register (reg_of (size_of p o) 0)))
        (read_short (size_of p o) bs)
    else none

-- A group of opcodes: the field for the register chooses the instruction.
abbrev pub alu_group : Prefixes → RegSize → ℕ → Operands → Option Disassembled
alu_group p width o ops = alu_of (ops.reg % 8) >>= λ a.
    constant_and (inst (alu a)) (read_operand (size_of p o) p ops.place)
      (read_short width ops.behind)

abbrev pub shift_group :
    Prefixes → ℕ → (List ℕ → Option (Operand × List ℕ)) → Operands → Option Disassembled
shift_group p o count ops = shift_of (ops.reg % 8) >>= λ k. count ops.behind >>= λ r.
    read_operand (size_of p o) p ops.place >>= λ d.
    some (record { mnemonic = inst (shift k); src = r.0; dst = d; behind = r.1 })

abbrev pub unary_group : Prefixes → ℕ → (ℕ → Option Unary) → Operands → Option Disassembled
unary_group p o table ops = table (ops.reg % 8) >>= λ u.
    read_operand (size_of p o) p ops.place >>= λ d.
    some (record { mnemonic = inst (unary u); src = d; dst = noperand; behind = ops.behind })

abbrev pub count_byte : List ℕ → Option (Operand × List ℕ)
count_byte bs = read_offset 1 bs >>= λ r. some (immediate (r.0), r.1)

abbrev pub count_one : List ℕ → Option (Operand × List ℕ)
count_one bs = some (immediate 1, bs)

abbrev pub count_cl : List ℕ → Option (Operand × List ℕ)
count_cl bs = some (register (reg_of reg8 1), bs)

abbrev pub arithmetic : Prefixes → ℕ → List ℕ → Option Disassembled
arithmetic p o bs =
    if ltb o 64
    then (alu_of (o / 8) >>= λ a. alu_form a p o bs)
    else if (o == 128) || (o == 131)
    then read_mod_rm p bs >>= alu_group p reg8 o
    else if o == 129
    then read_mod_rm p bs >>= alu_group p (size_of p o) o
    else if (o == 132) || (o == 133)
    then read_mod_rm p bs >>= to_place (inst test) (size_of p o) p
    else if (o == 192) || (o == 193)
    then read_mod_rm p bs >>= shift_group p o count_byte
    else if (o == 208) || (o == 209)
    then read_mod_rm p bs >>= shift_group p o count_one
    else if (o == 210) || (o == 211)
    then read_mod_rm p bs >>= shift_group p o count_cl
    else if (o == 246) || (o == 247)
    then read_mod_rm p bs >>= unary_group p o unary_of
    else if (o == 254) || (o == 255)
    then read_mod_rm p bs >>= unary_group p o step_of
    else none

abbrev pub by_opcode : Prefixes → ℕ → List ℕ → Option Disassembled
by_opcode p o bs =
    if (o == 136) || (o == 137)
    then read_mod_rm p bs >>= to_place mov (size_of p o) p
    else if (o == 138) || (o == 139)
    then read_mod_rm p bs >>= from_place mov (size_of p o) p
    else if o == 141
    then read_mod_rm p bs >>= from_place lea (size_of p o) p
    else if o == 199
    then read_mod_rm p bs >>= constant_to_place p
    else if o / 8 == 22
    then read_constant reg8 p (o % 8 + rex_b p) bs
    else if o / 8 == 23
    then read_constant (size_of p 1) p (o % 8 + rex_b p) bs
    else arithmetic p o bs

abbrev pub behind_prefixes : Prefixes → List ℕ → Option Disassembled
behind_prefixes p [] = none
behind_prefixes p (o ∷ bs) = by_opcode p o bs

unfoldable pub disassemble : List ℕ → Option Disassembled
disassemble bytes = behind_prefixes ((take_prefixes bytes).0) ((take_prefixes bytes).1)
