-- ===== src/As/Label.antt =====
-- src/as/ir_asm.c: `new_label`, `add_label_table` and `calc_expr`.
pub mod Once
use my9cc.As.{Expr, LabelInfo, Labels}
use my9cc.Ir.Word.{neg, word_add, word_sub, word_mul, sdiv}
use my9cc.Prelude.{ℕ, ◌-◌, ◌^◌, Bool, false, ◌&&◌, ◌||◌, Option, none, some, ◌==◌, if◌then◌else◌}

abbrev pub put : Labels → ℕ → LabelInfo → Labels
put labels label info l = if l == label then some info else labels l

abbrev pub new_label : ℕ → ℕ → LabelInfo
new_label section address = record {
  section = section;
  defined = false;
  global = false;
  address = address;
}

-- The two `if` at the end of `add_label_table`.
abbrev pub set_flags : Bool → Bool → LabelInfo → LabelInfo
set_flags define is_global info = record info {
  defined = info.defined || define;
  global = info.global || is_global;
}

-- The rest of `add_label_table`, by what the table has at the label.
pub enter : Labels → ℕ → ℕ → Bool → Bool → Option LabelInfo → Option Labels
enter labels label section define is_global none =
    some (put labels label (set_flags define is_global (new_label section 0)))
enter labels label section define is_global (some info) =
    let moved : LabelInfo = record info { section = section; address = 1 } in
    let flagged = set_flags define is_global in
    if define
    then (if info.defined then none else some (put labels label (flagged moved)))
    else some (put labels label (flagged info))

-- `none` where the source returns false.
unfoldable pub add_label_table : Labels → ℕ → ℕ → Bool → Bool → Option Labels
add_label_table labels label section define is_global =
    enter labels label section define is_global (labels label)

-- `undefined l` returns false with `l` the label that goes into the table of unresolved labels;
-- `fault` is a failed assertion, or a division that C does not define.
pub data Outcome : Type 0 where
  value undefined : ℕ → Outcome
  fault : Outcome

abbrev pub and_then : Outcome → (ℕ → Outcome) → Outcome
and_then (value n) f = f n
and_then (undefined l) f = undefined l
and_then fault f = fault

abbrev pub divide : ℕ → ℕ → Outcome
divide a b = if (b == 0) || (a == 2 ^ 63 && b == 2 ^ 64 - 1) then fault else value (sdiv a b)

unfoldable pub calc_expr : Labels → Expr → Outcome
calc_expr labels (Expr.ex_label l) = elim (labels l) [
  | some info ↦ if info.defined then value info.address else undefined l
  | none ↦ undefined l
]
calc_expr labels (Expr.ex_fixnum n) = value n
calc_expr labels (Expr.ex_flonum x) = fault
calc_expr labels (Expr.ex_pos e) = calc_expr labels e
calc_expr labels (Expr.ex_neg e) = and_then (calc_expr labels e) λ n. value (neg n)
calc_expr labels (Expr.ex_add l r) =
    and_then (calc_expr labels l) λ a. and_then (calc_expr labels r) λ b. value (word_add a b)
calc_expr labels (Expr.ex_sub l r) =
    and_then (calc_expr labels l) λ a. and_then (calc_expr labels r) λ b. value (word_sub a b)
calc_expr labels (Expr.ex_mul l r) =
    and_then (calc_expr labels l) λ a. and_then (calc_expr labels r) λ b. value (word_mul a b)
calc_expr labels (Expr.ex_div l r) =
    and_then (calc_expr labels l) λ a. and_then (calc_expr labels r) λ b. divide a b
