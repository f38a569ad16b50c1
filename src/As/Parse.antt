-- ===== src/As/Parse.antt =====
-- src/as/parse_asm.c: `unary`, `prim`, `parse_mul`, `parse_add` and `parse_expr`, over the tokens
-- that `fetch_token` gives, with the constants folded as the source folds them.
-- A NULL expression is `none`, and TK_UNKNOWN is where the tokens end. `parse_error` sets a flag.
pub mod Written
pub mod Reads
pub mod Means
pub mod Value
pub mod Total
mod Tests
use my9cc.As.{Expr}
use my9cc.As.Expr.{ex_label, ex_fixnum, ex_flonum, ex_pos, ex_neg, ex_add, ex_sub, ex_mul, ex_div}
use my9cc.Ir.Word.{neg, word_add, word_mul}
use my9cc.Prelude.{
  ℕ, zero, suc, ◌+◌, ◌%◌, ◌^◌, Bool, true, false, ◌||◌, Option, none, some, List, [], ◌∷◌, length,
}

pub data Token : Type 0 where
  tk_label tk_fixnum tk_flonum : ℕ → Token
  tk_add tk_sub tk_mul tk_div : Token

-- A sign in front: constants take it at once.
abbrev pub positive : Expr → Expr
positive (ex_fixnum n) = ex_fixnum n
positive (ex_flonum x) = ex_flonum x
positive e = ex_pos e

abbrev pub negative : Expr → Expr
negative (ex_fixnum n) = ex_fixnum (neg n)
negative (ex_flonum x) = ex_flonum ((x + 2 ^ 63) % 2 ^ 64)
negative e = ex_neg e

abbrev pub signed : (Expr → Expr) → Option Expr × List Token → Option Expr × List Token
signed f (none, ts) = (none, ts)
signed f (some e, ts) = (some (f e), ts)

-- The expression and the tokens behind.
unfoldable pub unary : List Token → Option Expr × List Token
unary [] = (none, [])
unary (tk_label l ∷ ts) = (some (ex_label l), ts)
unary (tk_fixnum n ∷ ts) = (some (ex_fixnum n), ts)
unary (tk_flonum x ∷ ts) = (some (ex_flonum x), ts)
unary (tk_add ∷ ts) = signed positive (unary ts)
unary (tk_sub ∷ ts) = signed negative (unary ts)
unary (tk_mul ∷ ts) = (none, tk_mul ∷ ts)
unary (tk_div ∷ ts) = (none, tk_div ∷ ts)

-- Two constants are folded, by `f`.
abbrev pub combine : (ℕ → ℕ → ℕ) → (Expr → Expr → Expr) → Expr → Expr → Expr
combine f node (ex_fixnum a) (ex_fixnum b) = ex_fixnum (f a b)
combine f node l r = node l r

-- They are folded to their product for `*`, and to their sum for each of the other operators.
abbrev pub make_mul : Bool → Expr → Expr → Expr
make_mul false l r = combine word_mul ex_mul l r
make_mul true l r = combine word_add ex_div l r

abbrev pub make_add : Bool → Expr → Expr → Expr
make_add false l r = combine word_add ex_add l r
make_add true l r = combine word_add ex_sub l r

pub record Parsed : Type 0 where
  pub expr : Option Expr
  pub error : Bool
  pub rest : List Token

-- What follows an operator: an error ends the loop.
abbrev pub mul_operand :
    (Expr → List Token → Option Parsed)
    → (Expr → Expr)
    → Expr
    → Option Expr × List Token
    → Option Parsed
mul_operand go f e (none, ts) = some (record { expr = some e; error = true; rest = ts })
mul_operand go f e (some r, ts) = go (f r) ts

unfoldable pub mul_loop : ℕ → Expr → List Token → Option Parsed
mul_loop zero e ts = none
mul_loop (suc n) e (tk_mul ∷ ts) =
    mul_operand (λ t us. mul_loop n t us) (make_mul false e) e (unary ts)
mul_loop (suc n) e (tk_div ∷ ts) =
    mul_operand (λ t us. mul_loop n t us) (make_mul true e) e (unary ts)
mul_loop (suc n) e ts = some (record { expr = some e; error = false; rest = ts })

abbrev pub mul_start : ℕ → Option Expr × List Token → Option Parsed
mul_start n (none, ts) = some (record { expr = none; error = false; rest = ts })
mul_start n (some e, ts) = mul_loop n e ts

unfoldable pub parse_mul : ℕ → List Token → Option Parsed
parse_mul n ts = mul_start n (unary ts)

abbrev pub add_result :
    (Expr → Bool → List Token → Option Parsed)
    → (Expr → Expr)
    → Expr
    → Bool
    → Bool
    → List Token
    → Option Expr
    → Option Parsed
add_result go f e error fault ts none = some (record { expr = some e; error = true; rest = ts })
add_result go f e error fault ts (some r) = go (f r) (error || fault) ts

abbrev pub add_operand :
    (Expr → Bool → List Token → Option Parsed)
    → (Expr → Expr)
    → Expr
    → Bool
    → Option Parsed
    → Option Parsed
add_operand go f e error none = none
add_operand go f e error (some p) = add_result go f e error p.error p.rest p.expr

unfoldable pub add_loop : ℕ → Expr → Bool → List Token → Option Parsed
add_loop zero e error ts = none
add_loop (suc n) e error (tk_add ∷ ts) =
    add_operand (λ t b us. add_loop n t b us) (make_add false e) e error (parse_mul (suc n) ts)
add_loop (suc n) e error (tk_sub ∷ ts) =
    add_operand (λ t b us. add_loop n t b us) (make_add true e) e error (parse_mul (suc n) ts)
add_loop (suc n) e error ts = some (record { expr = some e; error = error; rest = ts })

abbrev pub add_first : ℕ → Bool → List Token → Option Expr → Option Parsed
add_first n error ts none = some (record { expr = none; error = error; rest = ts })
add_first n error ts (some e) = add_loop n e error ts

abbrev pub add_start : ℕ → Option Parsed → Option Parsed
add_start n none = none
add_start n (some p) = add_first n p.error p.rest p.expr

unfoldable pub parse_add : ℕ → List Token → Option Parsed
parse_add n ts = add_start n (parse_mul n ts)

unfoldable pub parse_expr : List Token → Option Parsed
parse_expr ts = parse_add (suc (length ts)) ts
