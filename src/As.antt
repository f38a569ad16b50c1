-- ===== src/As.antt =====
-- src/as/ir_asm.h, ir_asm.c and inst.h: what the assembler keeps of a source file, and gen.h.
-- A name is the number of its interned Name, and an `intptr_t` or `uintptr_t` its 64-bit pattern.
-- The label table is the map that it stands for. Of an instruction its opcode and its source
-- operand are kept.
pub mod Label
pub mod Footprint
pub mod Address
pub mod Resolve
pub mod Emit
pub mod Settle
pub mod Encode
pub mod Parse
mod Tests
use my9cc.Prelude.{ℕ, zero, suc, ◌+◌, ◌%◌, Bool, Option, List, [], ◌∷◌, ◌++◌, take, drop, length}
use my9cc.Ir.Word.{sar}

-- A number with a fraction is `ex_flonum` and its pattern.
pub data Expr : Type 0 where
  ex_label ex_fixnum ex_flonum : ℕ → Expr
  ex_pos ex_neg : Expr → Expr
  ex_add ex_sub ex_mul ex_div : Expr → Expr → Expr

-- `jcc n` is the opcode JO + n, up to JG, and `another` one that the layout does not look at.
pub data Opcode : Type 0 where
  lea jmp call : Opcode
  jcc another : ℕ → Opcode

-- `indirect rip offset` says whether its register is RIP; `other` is each other type.
pub data Operand : Type 0 where
  direct : Expr → Operand
  indirect : Bool → Expr → Operand
  other : Operand

-- The opcode and the source operand of `inst`; `flag` is the bit INST_LONG_OFFSET.
pub record Code : Type 0 where
  pub op : Opcode
  pub src : Operand
  pub flag : Bool
  pub len : ℕ
  pub buf : List ℕ

pub data IrKind : Type 0 where
  ir_label : ℕ → IrKind
  ir_code : Code → IrKind
  ir_data : List ℕ → IrKind
  ir_bss ir_align : ℕ → IrKind
  ir_expr_byte ir_expr_word ir_expr_long ir_expr_quad : Expr → IrKind

pub record Ir : Type 0 where
  pub node : IrKind
  pub address : ℕ

-- The flags LF_DEFINED and LF_GLOBAL are the fields `defined` and `global`.
pub record LabelInfo : Type 0 where
  pub section : ℕ
  pub defined : Bool
  pub global : Bool
  pub address : ℕ

abbrev pub Labels : Type 0
Labels = ℕ → Option LabelInfo

-- One index of section_irs, section_aligns and section_start_addresses.
pub record Section : Type 0 where
  pub irs : List Ir
  pub align : ℕ
  pub start_address : ℕ

-- The bytes that `put_value` writes.
unfoldable pub put_value : ℕ → ℕ → List ℕ
put_value value zero = []
put_value value (suc size) = value % 256 ∷ put_value (sar value 8) size

-- Bytes that are written at a position of `buf`.
abbrev pub write_at : ℕ → List ℕ → List ℕ → List ℕ
write_at at bytes buf = (take at buf ++ bytes) ++ drop (at + length bytes) buf

-- `make_code` with the instruction that the code has already.
abbrev pub make_code : Code → List ℕ → Code
make_code code bytes = record code { len = length bytes; buf = write_at 0 bytes code.buf }
