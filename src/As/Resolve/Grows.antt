-- ===== src/As/Resolve/Grows.antt =====
-- src/as/ir_asm.c: what `resolve_relative_address` keeps, and what a longer jump costs.
use my9cc.As.{Expr, Opcode, Operand, Code, LabelInfo}
use my9cc.As.Label.{Outcome, calc_expr}
use my9cc.As.Resolve.{
  UnresolvedInfo, Pending, Place, UnresolvedKind, with_value, patch, push, put_unresolved,
  long_jump, short_jump, to_signed, displacement, resolve_value, resolve_lea_label, resolve_lea,
  resolve_jump, resolve_call, resolve_code, resolve_data, resolve_quad_value, resolve_quad_label,
  resolve_quad, as_label,
}
use my9cc.Ir.Word.{word_add, word_sub}
use my9cc.Util.Align.{is_im8, is_im32}
use my9cc.Prelude.{
  ℕ, Bool, true, false, not, ◌||◌, Option, none, some, List, ◌==◌, ◌≡◌, refl, if◌then◌else◌, ◌>>=◌,
  ◌^◌, ◌-◌, ◌⊎◌, inl, inr, sym,
}

-- Nothing that decides the layout is changed.
pub record Kept (code : Code) (p : Pending) (code' : Code) (p' : Pending) : Type 0 where
  pub flag : code'.flag ≡ code.flag
  pub len : code'.len ≡ code.len
  pub upgraded : p'.size_upgraded ≡ p.size_upgraded

-- The jump becomes long.
pub record Grown (code : Code) (p : Pending) (code' : Code) (p' : Pending) : Type 0 where
  pub short : code.flag ≡ false
  pub long : code'.flag ≡ true
  pub upgraded : p'.size_upgraded ≡ true

abbrev pub Changed : Code → Pending → Code → Pending → Type 0
Changed code p code' p' = Kept code p code' p' ⊎ Grown code p code' p'

-- What holds of each result.
abbrev pub Gives : Option (Code × Pending) → (Code → Pending → Type 0) → Type 0
Gives none P = Unit
Gives (some r) P = P (r.0) (r.1)

same : (code : Code) (p : Pending) → Kept code p code p
same code p = record { flag = refl; len = refl; upgraded = refl }

if-Gives :
    (b : Bool) (x y : Option (Code × Pending)) (P : Code → Pending → Type 0)
    → Gives x P
    → Gives y P
    → Gives (if b then x else y) P
if-Gives true x y P hx hy = hx
if-Gives false x y P hx hy = hy

weaken :
    (x : Option (Code × Pending)) (code : Code) (p : Pending)
    → Gives x (Kept code p)
    → Gives x (Changed code p)
weaken none code p h = tt
weaken (some r) code p h = inl h

with_value-Kept :
    (o : Outcome) (code : Code) (p : Pending) (n : ℕ) (f : ℕ → ℕ)
    → Gives (with_value o code p λ dst. some (patch n (f dst) 4 code, p)) (Kept code p)
with_value-Kept (Outcome.value v) code p n f = record { flag = refl; len = refl; upgraded = refl }
with_value-Kept (Outcome.undefined l) code p n f = record {
  flag = refl;
  len = refl;
  upgraded = refl;
}
with_value-Kept Outcome.fault code p n f = tt

resolve_value-Kept :
    (at : Place) (address : ℕ) (e : Expr) (code : Code) (n : ℕ) (p : Pending)
    → Gives (resolve_value at address e code n p) (Kept code p)
resolve_value-Kept at address e code n p =
    with_value-Kept (calc_expr at.labels e) code p n (λ dst. displacement dst address code)

resolve_lea_label-Kept :
    (at : Place) (address l : ℕ) (o : Option LabelInfo) (code : Code) (us : List UnresolvedInfo)
    (p : Pending)
    → Gives (resolve_lea_label at address l o code us p) (Kept code p)
unfolding resolve_lea_label
resolve_lea_label-Kept at address l none code us p = record {
  flag = refl;
  len = refl;
  upgraded = refl;
}
resolve_lea_label-Kept at address l (some info) code us p =
    if-Gives (info.section == at.sec) _ _ (Kept code p)
      (resolve_value-Kept at address (Expr.ex_label l) code 3 p)
      (record { flag = refl; len = refl; upgraded = refl })

resolve_lea-Kept :
    (at : Place) (address : ℕ) (e : Expr) (u : Option (List UnresolvedInfo)) (code : Code)
    (p : Pending)
    → Gives (resolve_lea at address e u code p) (Kept code p)
unfolding resolve_lea
resolve_lea-Kept at address (Expr.ex_fixnum n) u code p = record {
  flag = refl;
  len = refl;
  upgraded = refl;
}
resolve_lea-Kept at address (Expr.ex_label l) (some us) code p =
    resolve_lea_label-Kept at address l (at.labels l) code us p
resolve_lea-Kept at address (Expr.ex_label l) none code p =
    resolve_value-Kept at address (Expr.ex_label l) code 3 p
resolve_lea-Kept at address (Expr.ex_flonum x) u code p =
    resolve_value-Kept at address (Expr.ex_flonum x) code 3 p
resolve_lea-Kept at address (Expr.ex_pos e) u code p =
    resolve_value-Kept at address (Expr.ex_pos e) code 3 p
resolve_lea-Kept at address (Expr.ex_neg e) u code p =
    resolve_value-Kept at address (Expr.ex_neg e) code 3 p
resolve_lea-Kept at address (Expr.ex_add e f) u code p =
    resolve_value-Kept at address (Expr.ex_add e f) code 3 p
resolve_lea-Kept at address (Expr.ex_sub e f) u code p =
    resolve_value-Kept at address (Expr.ex_sub e f) code 3 p
resolve_lea-Kept at address (Expr.ex_mul e f) u code p =
    resolve_value-Kept at address (Expr.ex_mul e f) code 3 p
resolve_lea-Kept at address (Expr.ex_div e f) u code p =
    resolve_value-Kept at address (Expr.ex_div e f) code 3 p

long_jump-Kept :
    (cond : Option ℕ) (offset : ℕ) (code : Code) (p : Pending)
    → Gives (long_jump cond offset code p) (Kept code p)
unfolding long_jump
long_jump-Kept cond offset code p =
    if-Gives (is_im32 (to_signed offset)) _ _ (Kept code p)
      (record { flag = refl; len = refl; upgraded = refl }) tt

short_jump-Changed :
    (cond : Option ℕ) (offset : ℕ) (code : Code) (p : Pending)
    → code.flag ≡ false
    → Gives (short_jump cond offset code p) (Changed code p)
unfolding short_jump
short_jump-Changed cond offset code p short =
    if-Gives (is_im8 (to_signed offset)) _ _ (Changed code p)
      (inl (record { flag = refl; len = refl; upgraded = refl }))
      (inr (record { short = short; long = refl; upgraded = refl }))

either_jump :
    (b : Bool) (code : Code) (p : Pending) (x y : Option (Code × Pending))
    → b ≡ code.flag
    → Gives x (Kept code p)
    → (code.flag ≡ false → Gives y (Changed code p))
    → Gives (if b then x else y) (Changed code p)
either_jump true code p x y e hx hy = weaken x code p hx
either_jump false code p x y e hx hy = hy (sym e)

resolve_jump-Changed :
    (cond : Option ℕ) (address : ℕ) (o : Outcome) (u : Option (List UnresolvedInfo)) (code : Code)
    (p : Pending)
    → Gives (resolve_jump cond address o u code p) (Changed code p)
unfolding resolve_jump
resolve_jump-Changed cond address (Outcome.value dst) u code p =
    let offset = displacement dst address code in
    either_jump code.flag code p _ _ refl (long_jump-Kept cond offset code p)
      (short_jump-Changed cond offset code p)
resolve_jump-Changed cond address (Outcome.undefined l) none code p =
    inl (record { flag = refl; len = refl; upgraded = refl })
resolve_jump-Changed cond address (Outcome.undefined l) (some us) code p = tt
resolve_jump-Changed cond address Outcome.fault u code p = tt

resolve_call-Kept :
    (at : Place) (address : ℕ) (e : Expr) (o : Outcome) (u : Option (List UnresolvedInfo))
    (code : Code) (p : Pending)
    → Gives (resolve_call at address e o u code p) (Kept code p)
unfolding resolve_call
resolve_call-Kept at address e (Outcome.value dst) u code p = record {
  flag = refl;
  len = refl;
  upgraded = refl;
}
resolve_call-Kept at address e (Outcome.undefined l) none code p = record {
  flag = refl;
  len = refl;
  upgraded = refl;
}
resolve_call-Kept at address e (Outcome.undefined l) (some us) code p =
    elim (as_label e)
      as (λ o.
        Gives
          (o >>= λ name. some (
            code,
            push
                (record {
                  label = name;
                  offset = word_sub (word_add address 1) at.start_address;
                  src_section = at.sec;
                  add = 2 ^ 32 - 4;
                  kind = UnresolvedKind.unres_extern;
                })
                us (put_unresolved l p),
          ))
          (Kept code p)) [
            | none ↦ tt
            | some name ↦ record { flag = refl; len = refl; upgraded = refl }
          ]
resolve_call-Kept at address e Outcome.fault u code p = tt

pub resolve_code-Changed :
    (at : Place) (address : ℕ) (op : Opcode) (src : Operand) (code : Code) (p : Pending)
    → Gives (resolve_code at address op src code p) (Changed code p)
unfolding resolve_code
resolve_code-Changed at address Opcode.lea (Operand.indirect true e) code p =
    weaken _ code p (resolve_lea-Kept at address e p.unresolved code p)
resolve_code-Changed at address Opcode.lea (Operand.indirect false e) code p = inl (same code p)
resolve_code-Changed at address Opcode.lea (Operand.direct e) code p = inl (same code p)
resolve_code-Changed at address Opcode.lea Operand.other code p = inl (same code p)
resolve_code-Changed at address Opcode.jmp (Operand.direct e) code p =
    resolve_jump-Changed none address (calc_expr at.labels e) p.unresolved code p
resolve_code-Changed at address Opcode.jmp (Operand.indirect r e) code p = inl (same code p)
resolve_code-Changed at address Opcode.jmp Operand.other code p = inl (same code p)
resolve_code-Changed at address (Opcode.jcc c) (Operand.direct e) code p =
    resolve_jump-Changed (some c) address (calc_expr at.labels e) p.unresolved code p
resolve_code-Changed at address (Opcode.jcc c) (Operand.indirect r e) code p = inl (same code p)
resolve_code-Changed at address (Opcode.jcc c) Operand.other code p = inl (same code p)
resolve_code-Changed at address Opcode.call (Operand.direct e) code p =
    weaken _ code p (resolve_call-Kept at address e (calc_expr at.labels e) p.unresolved code p)
resolve_code-Changed at address Opcode.call (Operand.indirect r e) code p = inl (same code p)
resolve_code-Changed at address Opcode.call Operand.other code p = inl (same code p)
resolve_code-Changed at address (Opcode.another n) src code p = inl (same code p)

-- The instructions for data do not grow.
abbrev pub GivesSame : Option Pending → Pending → Type 0
GivesSame none p = Unit
GivesSame (some q) p = q.size_upgraded ≡ p.size_upgraded

pub resolve_data-same : (o : Outcome) (p : Pending) → GivesSame (resolve_data o p) p
unfolding resolve_data
resolve_data-same (Outcome.value n) p = refl
resolve_data-same (Outcome.undefined l) p = tt
resolve_data-same Outcome.fault p = tt

resolve_quad_value-same : (o : Outcome) (p : Pending) → GivesSame (resolve_quad_value o p) p
unfolding resolve_quad_value
resolve_quad_value-same (Outcome.value n) p = refl
resolve_quad_value-same (Outcome.undefined l) p = refl
resolve_quad_value-same Outcome.fault p = tt

if-GivesSame :
    (b : Bool) (x y : Option Pending) (p : Pending)
    → GivesSame x p
    → GivesSame y p
    → GivesSame (if b then x else y) p
if-GivesSame true x y p hx hy = hx
if-GivesSame false x y p hx hy = hy

resolve_quad_label-same :
    (at : Place) (address l : ℕ) (o : Option LabelInfo) (us : List UnresolvedInfo) (p : Pending)
    → GivesSame (resolve_quad_label at address l o us p) p
unfolding resolve_quad_label
resolve_quad_label-same at address l none us p = refl
resolve_quad_label-same at address l (some info) us p =
    if-GivesSame (not (at.sec == 0) || not (info.section == at.sec)) _ _ p refl
      (resolve_quad_value-same (calc_expr at.labels (Expr.ex_label l)) p)

pub resolve_quad-same :
    (at : Place) (address : ℕ) (e : Expr) (u : Option (List UnresolvedInfo)) (p : Pending)
    → GivesSame (resolve_quad at address e u p) p
unfolding resolve_quad
resolve_quad-same at address (Expr.ex_label l) (some us) p =
    resolve_quad_label-same at address l (at.labels l) us p
resolve_quad-same at address (Expr.ex_label l) none p = resolve_quad_value-same _ p
resolve_quad-same at address (Expr.ex_fixnum n) u p = resolve_quad_value-same _ p
resolve_quad-same at address (Expr.ex_flonum n) u p = resolve_quad_value-same _ p
resolve_quad-same at address (Expr.ex_pos e) u p = resolve_quad_value-same _ p
resolve_quad-same at address (Expr.ex_neg e) u p = resolve_quad_value-same _ p
resolve_quad-same at address (Expr.ex_add e f) u p = resolve_quad_value-same _ p
resolve_quad-same at address (Expr.ex_sub e f) u p = resolve_quad_value-same _ p
resolve_quad-same at address (Expr.ex_mul e f) u p = resolve_quad_value-same _ p
resolve_quad-same at address (Expr.ex_div e f) u p = resolve_quad_value-same _ p
