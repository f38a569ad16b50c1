-- ===== src/As/Emit.antt =====
-- src/as/gen.c, and `emit_irs` of src/as/ir_asm.c. An output's `buffers` are the buffers of the four
-- sections, and `starts` their start addresses; `output_section` writes a buffer to a file.
pub mod Image
pub mod Sections
use my9cc.As.{Expr, IrKind, Ir, Labels, Section, put_value}
use my9cc.As.Label.{Outcome, calc_expr}
use my9cc.Util.Align.{align_up}
use my9cc.Util.Buffer.{Buffer, empty, buf_put, buf_align}
use my9cc.Prelude.{
  ℕ, suc, ◌+◌, ◌%◌, ◌^◌, max, Option, none, some, List, [], ◌∷◌, ◌==◌, if◌then◌else◌, ◌>>=◌, get_or,
  set, take,
}

pub record Output : Type 0 where
  pub buffers : List Buffer
  pub bss_size : ℕ

-- The buffer of a section.
abbrev pub buffer : Output → ℕ → Buffer
buffer o sec = get_or o.buffers sec empty

pub add_bss : ℕ → Output → Output
add_bss size o = record o { bss_size = (o.bss_size + size) % 2 ^ 64 }

module _ (junk : ℕ) where
  pub align_section_size : ℕ → ℕ → Output → Option Output
  align_section_size sec align o =
      if sec == 3
      then some (record o { bss_size = align_up 64 o.bss_size align })
      else buf_align junk (buffer o sec) align >>= λ b.
          some (record o { buffers = set o.buffers sec b })

  -- `none` is the failed assertion that the section is not that of the BSS.
  pub add_section_data : ℕ → List ℕ → Output → Option Output
  add_section_data sec bytes o =
      if sec == 3
      then none
      else some (record o { buffers = set o.buffers sec (buf_put junk (buffer o sec) bytes) })

  abbrev pub add_code : List ℕ → Output → Option Output
  add_code bytes o = add_section_data 0 bytes o

  -- Data of an expression, by what `calc_expr` gives; without a value there is none.
  pub emit_expr : ℕ → Outcome → ℕ → Output → Option Output
  emit_expr sec (Outcome.value n) size o = add_section_data sec (put_value n size) o
  emit_expr sec (Outcome.undefined l) size o = some o
  emit_expr sec Outcome.fault size o = none

  pub emit_ir : ℕ → Labels → IrKind → Output → Option Output
  emit_ir sec labels (IrKind.ir_label l) o = some o
  emit_ir sec labels (IrKind.ir_code code) o = add_code (take code.len code.buf) o
  emit_ir sec labels (IrKind.ir_data buf) o = add_section_data sec buf o
  emit_ir sec labels (IrKind.ir_bss size) o = some (add_bss size o)
  emit_ir sec labels (IrKind.ir_align align) o = align_section_size sec align o
  emit_ir sec labels (IrKind.ir_expr_byte e) o = emit_expr sec (calc_expr labels e) 1 o
  emit_ir sec labels (IrKind.ir_expr_word e) o = emit_expr sec (calc_expr labels e) 2 o
  emit_ir sec labels (IrKind.ir_expr_long e) o = emit_expr sec (calc_expr labels e) 4 o
  emit_ir sec labels (IrKind.ir_expr_quad e) o = emit_expr sec (calc_expr labels e) 8 o

  pub emit_section : ℕ → Labels → List Ir → Output → Option Output
  emit_section sec labels [] o = some o
  emit_section sec labels (ir ∷ irs) o =
      emit_ir sec labels ir.node o >>= λ next. emit_section sec labels irs next

  -- The sections from the number `sec` on.
  pub emit_sections : ℕ → Labels → List Section → Output → Option Output
  emit_sections sec labels [] o = some o
  emit_sections sec labels (s ∷ ss) o =
      emit_section sec labels s.irs o >>= λ next. emit_sections (suc sec) labels ss next

  pub emit_irs : List Section → Labels → Output → Option Output
  emit_irs sections labels o = emit_sections 0 labels sections o

-- The start addresses of the code, the read-only data, the data and the BSS.
pub record Starts : Type 0 where
  pub text : ℕ
  pub rodata : ℕ
  pub values : ℕ
  pub bss : ℕ

pub fix_section_size : ℕ → List ℕ → Output → Starts
fix_section_size start_address aligns o =
    let align_of : ℕ → ℕ = λ sec. max (get_or aligns sec 0) 1 in
    let rodata = align_up 64 ((start_address + (buffer o 0).size) % 2 ^ 64) (align_of 1) in
    let values = align_up 64 ((rodata + (buffer o 1).size) % 2 ^ 64) (align_of 2) in
    record {
      text = start_address;
      rodata = rodata;
      values = values;
      bss = (values + align_up 64 (buffer o 2).size (align_of 3)) % 2 ^ 64;
    }
