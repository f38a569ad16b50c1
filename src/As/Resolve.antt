-- ===== src/As/Resolve.antt =====
-- src/as/ir_asm.c: `resolve_relative_address`.
pub mod Grows
pub mod Rounds
pub mod Reaches
pub mod Target
pub mod Jumps
use my9cc.As.{Expr, Opcode, Operand, Code, IrKind, Ir, LabelInfo, Labels, Section, put_value}
use my9cc.As.{write_at, make_code}
use my9cc.As.Label.{Outcome, calc_expr}
use my9cc.Ir.Word.{negative, word_sub, word_add}
use my9cc.Util.Align.{is_im8, is_im32}
use my9cc.Prelude.Int.{ℤ, pos, negsuc}
use my9cc.Prelude.{
  ℕ, ◌+◌, ◌-◌, ◌%◌, ◌^◌, Bool, true, false, not, ◌&&◌, ◌||◌, Option, none, some, List, [], ◌∷◌,
  ◌++◌, ◌==◌, if◌then◌else◌, ◌>>=◌, get_or, suc, length, map,
}

pub data UnresolvedKind : Type 0 where
  unres_extern unres_extern_pc32 unres_other_section unres_abs64 : UnresolvedKind

-- `add` is an int, as its pattern of 32 bits.
pub record UnresolvedInfo : Type 0 where
  pub label : ℕ
  pub offset : ℕ
  pub src_section : ℕ
  pub add : ℕ
  pub kind : UnresolvedKind

-- The table `unresolved_labels`, the vector `unresolved` (none where it is NULL), `size_upgraded`.
pub record Pending : Type 0 where
  pub unresolved_labels : List ℕ
  pub unresolved : Option (List UnresolvedInfo)
  pub size_upgraded : Bool

abbrev pub to_signed : ℕ → ℤ
to_signed n = if negative n then negsuc (2 ^ 64 - 1 - n) else pos n

-- `irs->len > 0 ? irs->data[0]->address : 0`
abbrev pub first_address : List Ir → ℕ
first_address [] = 0
first_address (ir ∷ irs) = ir.address

-- The section in whose loop the instruction stands, and what the loop reads of all of them.
pub record Place : Type 0 where
  pub sec : ℕ
  pub start_address : ℕ
  pub starts : List ℕ
  pub labels : Labels

abbrev pub put_unresolved : ℕ → Pending → Pending
put_unresolved l p = record p { unresolved_labels = l ∷ p.unresolved_labels }

abbrev pub push : UnresolvedInfo → List UnresolvedInfo → Pending → Pending
push info us p = record p { unresolved = some (us ++ (info ∷ [])) }

-- `calc_expr` in place: a value goes on, an undefined label is put aside, a fault ends the program.
abbrev pub with_value :
    {A : Type 0} → Outcome → A → Pending → (ℕ → Option (A × Pending)) → Option (A × Pending)
with_value (Outcome.value n) a p f = f n
with_value (Outcome.undefined l) a p f = some (a, put_unresolved l p)
with_value Outcome.fault a p f = none

abbrev pub patch : ℕ → ℕ → ℕ → Code → Code
patch at value size code = record code { buf = write_at at (put_value value size) code.buf }

-- dst - (address + len)
abbrev pub displacement : ℕ → ℕ → Code → ℕ
displacement dst address code = word_sub dst (word_add address code.len)

abbrev pub resolve_value : Place → ℕ → Expr → Code → ℕ → Pending → Option (Code × Pending)
resolve_value at address expr code from p =
    with_value (calc_expr at.labels expr) code p
      λ dst. some (patch from (displacement dst address code) 4 code, p)

-- A LEA of the label `l`, with what the table has for it and a vector of unresolved labels.
unfoldable pub resolve_lea_label :
    Place
    → ℕ
    → ℕ
    → Option LabelInfo
    → Code
    → List UnresolvedInfo
    → Pending
    → Option (Code × Pending)
resolve_lea_label at address l none code us p = some (
  code,
  push
      (record {
        label = l;
        offset = word_sub (word_add address 3) at.start_address;
        src_section = at.sec;
        add = 2 ^ 32 - 4;
        kind = UnresolvedKind.unres_extern_pc32;
      })
      us p,
)
resolve_lea_label at address l (some info) code us p =
    if info.section == at.sec
    then resolve_value at address (Expr.ex_label l) code 3 p
    else some (
      code,
      push
          (record {
            label = l;
            offset = word_sub (word_add address 3) at.start_address;
            src_section = at.sec;
            add = word_sub (word_sub info.address (get_or at.starts info.section 0)) 4 % 2 ^ 32;
            kind = UnresolvedKind.unres_other_section;
          })
          us p,
    )

-- The vector of unresolved labels stands before `code`, here and below.
unfoldable pub resolve_lea :
    Place → ℕ → Expr → Option (List UnresolvedInfo) → Code → Pending → Option (Code × Pending)
resolve_lea at address (Expr.ex_fixnum n) unresolved code p = some (code, p)
resolve_lea at address (Expr.ex_label l) (some us) code p =
    resolve_lea_label at address l (at.labels l) code us p
resolve_lea at address expr unresolved code p = resolve_value at address expr code 3 p

-- The bytes of the jump before its offset, once it is long.
abbrev pub long_opcode : Option ℕ → List ℕ
long_opcode none = 233 ∷ []
long_opcode (some cond) = 15 ∷ ((128 + cond) ∷ [])

-- A jump whose offset has four bytes; one that is too far ends the program.
unfoldable pub long_jump : Option ℕ → ℕ → Code → Pending → Option (Code × Pending)
long_jump cond offset code p =
    if is_im32 (to_signed offset)
    then some (patch (length (long_opcode cond)) offset 4 code, p)
    else none

-- A jump whose offset has one byte; where that is not enough it is made long.
unfoldable pub short_jump : Option ℕ → ℕ → Code → Pending → Option (Code × Pending)
short_jump cond offset code p =
    if is_im8 (to_signed offset)
    then some (patch 1 offset 1 code, p)
    else some (
      make_code (record code { flag = true }) (long_opcode cond ++ put_value (2 ^ 64 - 1) 4),
      record p { size_upgraded = true },
    )

-- A direct jump, with the number of its condition.
unfoldable pub resolve_jump :
    Option ℕ → ℕ → Outcome → Option (List UnresolvedInfo) → Code → Pending → Option (Code × Pending)
resolve_jump cond address (Outcome.value dst) unresolved code p =
    let offset = displacement dst address code in
    if code.flag then long_jump cond offset code p else short_jump cond offset code p
resolve_jump cond address (Outcome.undefined l) none code p = some (code, put_unresolved l p)
resolve_jump cond address (Outcome.undefined l) (some us) code p = none
resolve_jump cond address Outcome.fault unresolved code p = none

-- `assert(expr->kind == EX_LABEL)`
abbrev pub as_label : Expr → Option ℕ
as_label (Expr.ex_label l) = some l
as_label e = none

unfoldable pub resolve_call :
    Place
    → ℕ
    → Expr
    → Outcome
    → Option (List UnresolvedInfo)
    → Code
    → Pending
    → Option (Code × Pending)
resolve_call at address expr (Outcome.value dst) unresolved code p =
    some (patch 1 (displacement dst address code) 4 code, p)
resolve_call at address expr (Outcome.undefined l) none code p = some (code, put_unresolved l p)
resolve_call at address expr (Outcome.undefined l) (some us) code p = as_label expr >>= λ name.
    some (
      code,
      push
          (record {
            label = name;
            offset = word_sub (word_add address 1) at.start_address;
            src_section = at.sec;
            add = 2 ^ 32 - 4;
            kind = UnresolvedKind.unres_extern;
          })
          us (put_unresolved l p),
    )
resolve_call at address expr Outcome.fault unresolved code p = none

-- The `switch` on the opcode of an instruction in the section's code.
unfoldable pub resolve_code :
    Place → ℕ → Opcode → Operand → Code → Pending → Option (Code × Pending)
resolve_code at address Opcode.lea (Operand.indirect true expr) code p =
    resolve_lea at address expr p.unresolved code p
resolve_code at address Opcode.jmp (Operand.direct expr) code p =
    resolve_jump none address (calc_expr at.labels expr) p.unresolved code p
resolve_code at address (Opcode.jcc cond) (Operand.direct expr) code p =
    resolve_jump (some cond) address (calc_expr at.labels expr) p.unresolved code p
resolve_code at address Opcode.call (Operand.direct expr) code p =
    resolve_call at address expr (calc_expr at.labels expr) p.unresolved code p
resolve_code at address op src code p = some (code, p)

-- What `put_value` writes for data goes to a part of the union that data does not use.
unfoldable pub resolve_data : Outcome → Pending → Option Pending
resolve_data (Outcome.value n) p = some p
resolve_data (Outcome.undefined l) p = none
resolve_data Outcome.fault p = none

unfoldable pub resolve_quad_value : Outcome → Pending → Option Pending
resolve_quad_value (Outcome.value n) p = some p
resolve_quad_value (Outcome.undefined l) p = some (put_unresolved l p)
resolve_quad_value Outcome.fault p = none

unfoldable pub resolve_quad_label :
    Place → ℕ → ℕ → Option LabelInfo → List UnresolvedInfo → Pending → Option Pending
resolve_quad_label at address l found us p =
    let entry : UnresolvedInfo = record {
      label = l;
      offset = word_sub address at.start_address;
      src_section = at.sec;
      add = 0;
      kind = UnresolvedKind.unres_abs64;
    } in
    elim found [
      | none ↦ some (push entry us p)
      | some info ↦
          if not (at.sec == 0) || not (info.section == at.sec)
          then some (push entry us p)
          else resolve_quad_value (calc_expr at.labels (Expr.ex_label l)) p
    ]

unfoldable pub resolve_quad :
    Place → ℕ → Expr → Option (List UnresolvedInfo) → Pending → Option Pending
resolve_quad at address (Expr.ex_label l) (some us) p =
    resolve_quad_label at address l (at.labels l) us p
resolve_quad at address expr unresolved p = resolve_quad_value (calc_expr at.labels expr) p

unfoldable pub resolve_ir : Place → ℕ → IrKind → Pending → Option (IrKind × Pending)
resolve_ir at address (IrKind.ir_code code) p =
    resolve_code at address code.op code.src code p >>= λ r. some (IrKind.ir_code (r.0), r.1)
resolve_ir at address (IrKind.ir_expr_byte e) p =
    resolve_data (calc_expr at.labels e) p >>= λ q. some (IrKind.ir_expr_byte e, q)
resolve_ir at address (IrKind.ir_expr_word e) p =
    resolve_data (calc_expr at.labels e) p >>= λ q. some (IrKind.ir_expr_word e, q)
resolve_ir at address (IrKind.ir_expr_long e) p =
    resolve_data (calc_expr at.labels e) p >>= λ q. some (IrKind.ir_expr_long e, q)
resolve_ir at address (IrKind.ir_expr_quad e) p =
    resolve_quad at address e p.unresolved p >>= λ q. some (IrKind.ir_expr_quad e, q)
resolve_ir at address node p = some (node, p)

unfoldable pub resolve_irs : Place → List Ir → Pending → Option (List Ir × Pending)
resolve_irs at [] p = some ([], p)
resolve_irs at (ir ∷ irs) p = resolve_ir at ir.address ir.node p >>= λ one.
    resolve_irs at irs (one.1) >>= λ rest.
    some (record { node = one.0; address = ir.address } ∷ rest.0, rest.1)

unfoldable pub resolve_sections :
    ℕ → List ℕ → Labels → List Section → Pending → Option (List Section × Pending)
resolve_sections sec starts labels [] p = some ([], p)
resolve_sections sec starts labels (s ∷ ss) p =
    resolve_irs
      (record { sec = sec; start_address = first_address s.irs; starts = starts; labels = labels })
      s.irs p
    >>= λ r. resolve_sections (suc sec) starts labels ss (r.1) >>= λ rest.
        some (record s { irs = r.0 } ∷ rest.0, rest.1)

-- The end of `resolve_relative_address`: undefined labels end the program where there is no vector
-- for them.
abbrev pub settled : Option (List UnresolvedInfo) → List ℕ → Bool → Option Bool
settled (some us) names upgraded = some (not upgraded)
settled none [] upgraded = some (not upgraded)
settled none (l ∷ names) upgraded = none

-- The sections, the vector `unresolved`, and what the function returns.
unfoldable pub resolve_relative_address :
    List Section
    → Labels
    → Option (List UnresolvedInfo)
    → Option (List Section × Option (List UnresolvedInfo) × Bool)
resolve_relative_address sections labels unresolved =
    let cleared : Pending = record {
      unresolved_labels = [];
      unresolved = elim unresolved [ none ↦ none | some us ↦ some [] ];
      size_upgraded = false;
    } in
    resolve_sections 0 (map (λ s. first_address s.irs) sections) labels sections cleared >>= λ r.
    settled (r.1).unresolved (r.1).unresolved_labels (r.1).size_upgraded >>= λ settle.
    some (r.0, (r.1).unresolved, settle)
