-- ===== src/As/Encode/Inst.antt =====
-- src/as/asm_x86.c: of `assemble_inst` the arithmetic on registers and constants: ADD, SUB, AND, OR,
-- XOR, CMP, TEST, the shifts, and MUL, DIV, IDIV, NEG, NOT, INC and DEC.
use my9cc.As.{put_value}
use my9cc.As.Resolve.{to_signed}
use my9cc.As.Encode.{
  RegSize, reg8, reg16, reg32, reg64, Reg, Operand, noperand, register, indirect, immediate,
  is_reg8, is_reg64, opr_regno, put_rex0, put_rex1, put_rex2,
}
use my9cc.As.Encode.Mov.{same_size, put_indirect}
use my9cc.Util.Align.{is_im8, is_im32}
use my9cc.Prelude.{
  ℕ, ◌+◌, not, ◌&&◌, ◌||◌, Option, none, some, List, [], ◌∷◌, ◌++◌, ◌==◌, if◌then◌else◌, bit_or,
}

pub data Alu : Type 0 where
  add or_ and_ sub xor cmp : Alu

pub data Shift : Type 0 where
  shl shr sar : Shift

-- The first three have put_rex0 with the register put behind, the others put_rex1.
pub data Unary : Type 0 where
  mul div idiv neg not_ inc dec : Unary

pub data Inst : Type 0 where
  alu : Alu → Inst
  test : Inst
  shift : Shift → Inst
  unary : Unary → Inst

-- The opcode for two registers of bytes.
abbrev pub regs_opcode : Alu → ℕ
regs_opcode add = 0
regs_opcode or_ = 8
regs_opcode and_ = 32
regs_opcode sub = 40
regs_opcode xor = 48
regs_opcode cmp = 56

-- The opcode for a constant and %al.
abbrev pub acc_opcode : Alu → ℕ
acc_opcode add = 4
acc_opcode or_ = 12
acc_opcode and_ = 36
acc_opcode sub = 44
acc_opcode xor = 52
acc_opcode cmp = 60

abbrev pub alu_prefix : Alu → ℕ
alu_prefix add = 192
alu_prefix or_ = 200
alu_prefix and_ = 224
alu_prefix sub = 232
alu_prefix xor = 240
alu_prefix cmp = 248

abbrev pub shift_prefix : Shift → ℕ
shift_prefix shl = 224
shift_prefix shr = 232
shift_prefix sar = 248

abbrev pub put_regs : Reg → Reg → ℕ → Option (List ℕ)
put_regs s d opcode =
    if same_size d.size s.size
    then some (
        put_rex2 s.size (opr_regno s) (opr_regno d) (if is_reg8 s.size then opcode else opcode + 1))
    else none

-- A constant that is not a byte.
abbrev pub put_constant : RegSize → ℕ → List ℕ
put_constant reg8 v = put_value v 1
put_constant reg16 v = put_value v 2
put_constant reg32 v = put_value v 4
put_constant reg64 v = put_value v 4

-- ADD and SUB.
abbrev pub sum_immediate : Alu → ℕ → Reg → Option (List ℕ)
sum_immediate a v d =
    let im8 = is_im8 (to_signed v) in
    let n = opr_regno d in
    if is_im32 (to_signed v)
    then some (
        (if n == 0 && (is_reg8 d.size || not im8)
          then put_rex0 d.size 0 n (if im8 then acc_opcode a else acc_opcode a + 1)
          else put_rex1 d.size (alu_prefix a) n (if im8 then 131 else 129))
        ++ (if im8 then put_value v 1 else put_constant d.size v))
    else none

-- AND, OR and XOR; `size <= REG32` is each size but REG64.
abbrev pub logic_immediate : Alu → ℕ → Reg → Option (List ℕ)
logic_immediate a v d =
    let n = opr_regno d in
    if is_im8 (to_signed v) && (not (is_reg8 d.size) || not (n == 0))
    then some (put_rex1 d.size (alu_prefix a) n 131 ++ put_value v 1)
    else if not (is_reg64 d.size) || is_im32 (to_signed v)
    then some (
        (if n == 0
          then put_rex0 d.size 0 n (if is_reg8 d.size then acc_opcode a else acc_opcode a + 1)
          else put_rex1 d.size (alu_prefix a) n 129)
        ++ put_constant d.size v)
    else none

abbrev pub cmp_immediate : ℕ → Reg → Option (List ℕ)
cmp_immediate v d =
    let im8 = is_im8 (to_signed v) in
    let n = opr_regno d in
    if is_im32 (to_signed v)
    then some (
        (if n == 0 && (is_reg8 d.size || not im8)
          then put_rex0 d.size 0 n (if is_reg8 d.size then 60 else 61)
          else put_rex1 d.size 248 n
              (bit_or 128 (if is_reg8 d.size then 0 else if im8 then 3 else 1)))
        ++ (if im8 then put_value v 1 else put_constant d.size v))
    else none

abbrev pub alu_immediate : Alu → ℕ → Reg → Option (List ℕ)
alu_immediate add v d = sum_immediate add v d
alu_immediate sub v d = sum_immediate sub v d
alu_immediate and_ v d = logic_immediate and_ v d
alu_immediate or_ v d = logic_immediate or_ v d
alu_immediate xor v d = logic_immediate xor v d
alu_immediate cmp v d = cmp_immediate v d

-- The register that counts must be %cl; its size is not looked at.
abbrev pub shift_by_register : Shift → Reg → Reg → Option (List ℕ)
shift_by_register k s d =
    if opr_regno s == 1
    then some (put_rex1 d.size (shift_prefix k) (opr_regno d) (if is_reg8 d.size then 210 else 211))
    else none

abbrev pub shift_by_constant : Shift → ℕ → Reg → List ℕ
shift_by_constant k v d =
    if v == 1
    then put_rex1 d.size (shift_prefix k) (opr_regno d) (if is_reg8 d.size then 208 else 209)
    else put_rex1 d.size (shift_prefix k) (opr_regno d) (if is_reg8 d.size then 192 else 193)
      ++ put_value v 1

abbrev pub put_product : ℕ → Reg → List ℕ
put_product code r =
    put_rex0 r.size 0 (opr_regno r) (bit_or 246 (if is_reg8 r.size then 0 else 1))
    ++ (bit_or code r.no ∷ [])

abbrev pub put_unary : Unary → Reg → List ℕ
put_unary mul r = put_product 224 r
put_unary div r = put_product 240 r
put_unary idiv r = put_product 248 r
put_unary neg r = put_rex1 r.size 216 (opr_regno r) 247
put_unary not_ r = put_rex1 r.size 208 (opr_regno r) 247
put_unary inc r = put_rex1 r.size 192 (opr_regno r) 255
put_unary dec r = put_rex1 r.size 200 (opr_regno r) 255

unfoldable pub assemble_inst : Inst → Operand → Operand → Option (List ℕ)
assemble_inst (alu a) (register s) (register d) = put_regs s d (regs_opcode a)
assemble_inst (alu a) (immediate v) (register d) = alu_immediate a v d
assemble_inst (alu add) (indirect offset b) (register d) = put_indirect d offset b 2
assemble_inst test (register s) (register d) = put_regs s d 132
assemble_inst (shift k) (register s) (register d) = shift_by_register k s d
assemble_inst (shift k) (immediate v) (register d) = some (shift_by_constant k v d)
assemble_inst (unary u) (register r) noperand = some (put_unary u r)
assemble_inst _ _ _ = none
