-- ===== src/As/Address.antt =====
-- src/as/ir_asm.c: `align_next_section` and `calc_label_address`.
pub mod Walked
pub mod Passes
use my9cc.As.{IrKind, Ir, LabelInfo, Labels, Section, Code}
use my9cc.As.Label.{put}
use my9cc.Util.Align.{align_up}
use my9cc.Prelude.{
  ℕ, ◌+◌, ◌%◌, ◌^◌, Bool, true, false, Option, none, some, List, [], ◌∷◌, ltb, if◌then◌else◌, ◌>>=◌,
  length,
}

abbrev pub align_next_section : ℕ → ℕ → ℕ
align_next_section align address = if ltb 1 align then align_up 64 address align else address

-- The variables of the loop over a section.
pub record Walk : Type 0 where
  pub address : ℕ
  pub align : ℕ
  pub settle : Bool
  pub labels : Labels

abbrev pub advance : ℕ → Walk → Option (ℕ × Walk)
advance size w = some (w.address, record w { address = (w.address + size) % 2 ^ 64 })

-- The `switch`: the address of the instruction, and the variables behind it; `none` is the failed
-- assertion for a label that is not in the table.
unfoldable pub calc_ir : IrKind → Walk → Option (ℕ × Walk)
calc_ir (IrKind.ir_label l) w = w.labels l >>= λ info.
    some (w.address, record w { labels = put w.labels l (record info { address = w.address }) })
calc_ir (IrKind.ir_code code) w = advance code.len w
calc_ir (IrKind.ir_data buf) w = advance (length buf) w
calc_ir (IrKind.ir_bss size) w = advance size w
calc_ir (IrKind.ir_align align) w =
    let address = align_up 64 w.address align in
    some (
      address,
      if ltb w.align align
          then record w { address = address; align = align; settle = false }
          else record w { address = address },
    )
calc_ir (IrKind.ir_expr_byte e) w = advance 1 w
calc_ir (IrKind.ir_expr_word e) w = advance 2 w
calc_ir (IrKind.ir_expr_long e) w = advance 4 w
calc_ir (IrKind.ir_expr_quad e) w = advance 8 w

unfoldable pub calc_irs : List Ir → Walk → Option (List Ir × Walk)
calc_irs [] w = some ([], w)
calc_irs (ir ∷ irs) w = calc_ir ir.node w >>= λ one. calc_irs irs one.1 >>= λ rest.
    some (record { node = ir.node; address = one.0 } ∷ rest.0, rest.1)

-- The sections from one on, with the variables of the loop over them.
unfoldable pub calc_sections :
    List Section → ℕ → Bool → Labels → Option (List Section × Bool × Labels)
calc_sections [] address settle labels = some ([], settle, labels)
calc_sections (s ∷ ss) address settle labels =
    let start = align_next_section s.align address in
    calc_irs s.irs (record { address = start; align = s.align; settle = settle; labels = labels })
    >>= λ r. calc_sections ss (r.1).address (r.1).settle (r.1).labels >>= λ rest.
        some (
          record { irs = r.0; align = (r.1).align; start_address = start } ∷ rest.0,
          rest.1,
          rest.2,
        )

unfoldable pub calc_label_address :
    ℕ → List Section → Labels → Option (List Section × Bool × Labels)
calc_label_address start_address sections labels = calc_sections sections start_address true labels
