-- ===== src/As/Tests.antt =====
-- src/as/ir_asm.c and as.c on a small program: a jump over 200 bytes, to an aligned label.
use my9cc.As.{Expr, Opcode, Operand, Code, IrKind, Ir, Labels, Section, put_value}
use my9cc.As.Label.Once.{Defines, add_label_table-once}
use my9cc.As.Label.{add_label_table, Outcome, calc_expr}
use my9cc.As.Address.{calc_ir, calc_irs, calc_sections, calc_label_address}
use my9cc.As.Emit.{Output, emit_section}
use my9cc.As.Emit.Image.{Emitted, Fits, AllFit, Ready, extent}
use my9cc.As.Emit.Sections.{emit_section-image}
use my9cc.As.Resolve.{
  Pending, resolve_code, resolve_ir, resolve_irs, resolve_sections, resolve_jump, short_jump,
  long_jump, resolve_relative_address,
}
use my9cc.As.Resolve.Jumps.{Leads, resolve_jump-Leads}
use my9cc.As.Settle.{Ending, done, stopped, out_of_fuel, round, settle_loop}
use my9cc.As.Settle.Ends.{settle_loop-ends}
use my9cc.Ir.Word.{sar, word_add, word_sub}
use my9cc.Util.Align.{align_up, is_im8, is_im32}
use my9cc.Util.Buffer.{empty}
use my9cc.Prelude.{
  ℕ, ◌==◌, true, false, none, some, List, [], ◌∷◌, ◌≡◌, ◌≢◌, refl, inr, if◌then◌else◌, replicate,
  arith,
}

abbrev ahead : Expr
ahead = Expr.ex_label 7

-- jmp ahead; 200 bytes; .align 16; ahead:
abbrev jump : Code
jump = record {
  op = Opcode.jmp;
  src = Operand.direct ahead;
  flag = false;
  len = 2;
  buf = 235 ∷ replicate 13 0;
}

abbrev fresh : IrKind → Ir
fresh node = record { node = node; address = 0 }

abbrev text : Section
text = record {
  irs =
      fresh (IrKind.ir_code jump)
      ∷ (fresh (IrKind.ir_data (replicate 200 144))
          ∷ (fresh (IrKind.ir_align 16) ∷ (fresh (IrKind.ir_label 7) ∷ [])));
  align = 0;
  start_address = 0;
}

abbrev nothing : Section
nothing = record { irs = []; align = 0; start_address = 0 }

abbrev program : List Section
program = text ∷ (nothing ∷ (nothing ∷ (nothing ∷ [])))

abbrev defined : Labels
defined l =
    if l == 7
    then some (record { section = 0; defined = true; global = false; address = 1 })
    else none

-- The jump is long in the end, and the label stands at 4304.
abbrev long_jump_code : Code
long_jump_code = record {
  op = Opcode.jmp;
  src = Operand.direct ahead;
  flag = true;
  len = 5;
  buf = 233 ∷ (203 ∷ replicate 12 0);
}

abbrev stands : ℕ → IrKind → Ir
stands address node = record { node = node; address = address }

abbrev laid_text : Section
laid_text = record {
  irs =
      stands 4096 (IrKind.ir_code long_jump_code)
      ∷ (stands 4101 (IrKind.ir_data (replicate 200 144))
          ∷ (stands 4304 (IrKind.ir_align 16) ∷ (stands 4304 (IrKind.ir_label 7) ∷ [])));
  align = 16;
  start_address = 4096;
}

abbrev nothing_at : ℕ → Section
nothing_at address = record { irs = []; align = 0; start_address = address }

abbrev laid_program : List Section
laid_program = laid_text ∷ (nothing_at 4304 ∷ (nothing_at 4304 ∷ (nothing_at 4304 ∷ [])))

abbrev labels_of : Ending → Labels
labels_of (done ss labels u) = labels
labels_of stopped = defined
labels_of out_of_fuel = defined

abbrev final_labels : Labels
final_labels = labels_of (settle_loop 3 4096 program defined none)

settled : settle_loop 3 4096 program defined none ≡ done laid_program final_labels none
unfolding settle_loop round calc_ir calc_irs calc_sections calc_label_address
    resolve_relative_address resolve_sections resolve_irs resolve_ir resolve_code resolve_jump
    short_jump long_jump put_value sar word_add word_sub align_up is_im8 is_im32 calc_expr
settled = refl

settle_loop-ends_example : settle_loop 3 4096 program defined none ≢ out_of_fuel
settle_loop-ends_example = settle_loop-ends 3 4096 program defined none (omega arith)

abbrev blank : Output
blank = record { buffers = empty ∷ (empty ∷ (empty ∷ (empty ∷ []))); bss_size = 0 }

ready : Ready 0 0 4096 final_labels blank [] (extent laid_text.irs)
ready = record {
  holds = record { spare = []; contents = refl; full = refl; room = refl };
  small = omega arith;
  indexed = omega arith;
  bound = omega arith;
}

fit : AllFit 0 0 4096 final_labels laid_text.irs
unfolding Fits
fit = ((refl, omega arith), (tt, ((4, refl), (tt, tt))))

emit_section-image_example :
    (b : ℕ) × (o' : Output) × (emit_section 0 0 final_labels laid_text.irs blank ≡ some o')
    × Emitted 0 0 4096 final_labels laid_text.irs b blank o' []
emit_section-image_example =
    emit_section-image 0 3 4096 0 program laid_program defined final_labels none none laid_text
      blank settled refl (inr (4, omega arith, refl)) fit ready

abbrev unchanged : Pending
unchanged = record { unresolved_labels = []; unresolved = none; size_upgraded = false }

near :
    resolve_jump none 4096 (Outcome.value 4200) none jump unchanged
    ≡ some (record jump { buf = 235 ∷ (102 ∷ replicate 12 0) }, unchanged)
unfolding resolve_jump short_jump put_value sar word_add word_sub is_im8
near = refl

resolve_jump-Leads_example :
    Leads none 4096 4200 (record jump { buf = 235 ∷ (102 ∷ replicate 12 0) }, unchanged)
resolve_jump-Leads_example =
    resolve_jump-Leads none 4096 4200 none jump unchanged
      (record jump { buf = 235 ∷ (102 ∷ replicate 12 0) }, unchanged) tt (omega arith)
      (record { rest = replicate 13 0; whole = refl; room = refl; size = refl }) near

abbrev unknown : Labels
unknown l = none

add_label_table-once_example :
    (labels' : Labels) × (add_label_table unknown 7 0 true false ≡ some labels')
    × Defines unknown labels' 7 0
    × (add_label_table labels' 7 1 true true ≡ none)
add_label_table-once_example = add_label_table-once unknown 7 0 1 false true λ info e. cc
