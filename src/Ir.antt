-- ===== src/Ir.antt =====
-- src/cc/ir.c and src/cc/ir.h: virtual registers, and the instructions with two operands.
-- An `intptr_t` is its pattern of 64 bits. A `VReg*` is its record, told apart by `virt`.
pub mod Word
pub mod Bop
pub mod TwoAddress
pub mod Cond
mod Tests
use my9cc.Prelude.{ℕ, Bool}

-- The kinds of IrKind that `new_ir_bop` takes.
pub data BinKind : Type 0 where
  add sub mul div modulo bitand bitor bitxor lshift rshift divu modulou : BinKind

-- `flag` is the bit VRTF_UNSIGNED.
pub record VRegType : Type 0 where
  pub size : ℕ
  pub is_unsigned : Bool

-- `flag` is the bit VRF_CONST.
pub record VReg : Type 0 where
  pub vtype : VRegType
  pub virt : ℕ
  pub is_const : Bool
  pub fixnum : ℕ

pub record Ir : Type 0 where
  pub kind : BinKind
  pub dst : VReg
  pub opr1 : VReg
  pub opr2 : VReg
  pub size : ℕ
