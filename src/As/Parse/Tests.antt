-- ===== src/As/Parse/Tests.antt =====
-- src/as/parse_asm.c: expressions at concrete tokens.
use my9cc.As.Expr.{ex_fixnum}
use my9cc.As.Parse.{
  Token, tk_fixnum, tk_sub, tk_mul, tk_div, unary, mul_loop, parse_mul, add_loop, parse_add,
  parse_expr,
}
use my9cc.As.Parse.Written.{label, fixnum, minus, Sum, sum_tokens}
use my9cc.As.Parse.Reads.{read_as}
use my9cc.As.Parse.Value.{Evaluates, parse_expr-Evaluates}
use my9cc.As.Parse.Total.{Returns, parse_expr-Returns}
use my9cc.Ir.Word.{word_add}
use my9cc.Prelude.{◌≡◌, refl, true, false, some, List, [], ◌∷◌, length}

-- 2 * -3 - end * 4
abbrev sample : Sum
sample = record {
  first = record { first = fixnum 2; more = (false, minus (fixnum 3)) ∷ [] };
  more = (true, record { first = label 7; more = (false, fixnum 4) ∷ [] }) ∷ [];
}

parse_expr-Evaluates_example : Evaluates sample (parse_expr (sum_tokens sample))
parse_expr-Evaluates_example = parse_expr-Evaluates sample refl

abbrev unfinished : List Token
unfinished = tk_fixnum 1 ∷ (tk_sub ∷ (tk_mul ∷ []))

parse_expr-Returns_example : Returns (parse_expr unfinished) (length unfinished)
parse_expr-Returns_example = parse_expr-Returns unfinished

-- 6 - 2 and 6 / 2 are folded to 8.
difference_folded :
    parse_expr (tk_fixnum 6 ∷ (tk_sub ∷ (tk_fixnum 2 ∷ []))) ≡ some (read_as (ex_fixnum 8) [])
unfolding parse_expr parse_add parse_mul add_loop mul_loop unary word_add
difference_folded = refl

quotient_folded :
    parse_expr (tk_fixnum 6 ∷ (tk_div ∷ (tk_fixnum 2 ∷ []))) ≡ some (read_as (ex_fixnum 8) [])
unfolding parse_expr parse_add parse_mul add_loop mul_loop unary word_add
quotient_folded = refl
