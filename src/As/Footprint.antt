-- ===== src/As/Footprint.antt =====
-- src/as/ir_asm.c: what an instruction of the assembler takes of the address space, as the two loops
-- that assign addresses and emit bytes see it.
use my9cc.As.{IrKind, Ir, Section}
use my9cc.Prelude.{ℕ, ◌+◌, List, [], ◌∷◌, if◌then◌else◌, length, All, ◌≤◌}

-- Nothing, a number of bytes, or an alignment.
pub data Footprint : Type 0 where
  nothing : Footprint
  bytes aligned : ℕ → Footprint

abbrev pub footprint : IrKind → Footprint
footprint (IrKind.ir_label l) = Footprint.nothing
footprint (IrKind.ir_code code) = Footprint.bytes code.len
footprint (IrKind.ir_data buf) = Footprint.bytes (length buf)
footprint (IrKind.ir_bss size) = Footprint.bytes size
footprint (IrKind.ir_align align) = Footprint.aligned align
footprint (IrKind.ir_expr_byte e) = Footprint.bytes 1
footprint (IrKind.ir_expr_word e) = Footprint.bytes 2
footprint (IrKind.ir_expr_long e) = Footprint.bytes 4
footprint (IrKind.ir_expr_quad e) = Footprint.bytes 8

abbrev pub alignment : Footprint → ℕ
alignment Footprint.nothing = 0
alignment (Footprint.bytes n) = 0
alignment (Footprint.aligned align) = align

abbrev pub need : Ir → ℕ
need ir = alignment (footprint ir.node)

-- Whether it is code whose jump may still grow, as a number.
abbrev pub short : IrKind → ℕ
short (IrKind.ir_code code) = if code.flag then 0 else 1
short _ = 0

abbrev pub shorts : List Ir → ℕ
shorts [] = 0
shorts (ir ∷ irs) = short ir.node + shorts irs

abbrev pub total_shorts : List Section → ℕ
total_shorts [] = 0
total_shorts (s ∷ ss) = shorts s.irs + total_shorts ss

-- No instruction is aligned more than its section.
abbrev pub Covers : ℕ → List Ir → Type 0
Covers align irs = All (λ ir. need ir ≤ align) irs

abbrev pub AllCovered : List Section → Type 0
AllCovered ss = All (λ s. Covers s.align s.irs) ss
