-- ===== src/As/Parse/Value.antt =====
-- src/as/parse_asm.c: the expression that `parse_expr` makes has the value that is written.
use my9cc.As.{Expr, Labels}
use my9cc.As.Label.{Outcome, calc_expr}
use my9cc.As.Parse.{make_mul, make_add, Parsed, parse_expr}
use my9cc.As.Parse.Written.{
  Factor, Term, Sum, sum_tokens, factor_value, mul_value, add_value, factors_value, term_value,
  terms_value, sum_value, is_constant, constant_factors, constant_term, safe_factors, safe_term,
  safe_terms, is_safe,
}
use my9cc.As.Parse.Reads.{
  factor_expr, factors_expr, term_expr, terms_expr, sum_expr, read_as, parse_expr-reads,
}
use my9cc.Prelude.{◌≡◌, Bool, true, not, ◌&&◌, Option, some, List, [], ◌∷◌, and_true}
use my9cc.As.Parse.Means.{Means, factor-Means, make_mul-Means, make_add-Means}

module _ (labels : Labels) where
  factors-Means :
      (e : Expr) (c : Bool) (v : Outcome) (fs : List (Bool × Factor))
      → Means labels e c v
      → safe_factors c fs ≡ true
      → Means labels (factors_expr e fs) (constant_factors c fs) (factors_value labels v fs)
  factors-Means e c v [] h safe = h
  factors-Means e c v ((op, f) ∷ fs) h safe =
      let (here, rest) = and_true (not (op && (c && is_constant f))) _ safe in
      factors-Means (make_mul op e (factor_expr f)) (c && is_constant f)
        (mul_value op v (factor_value labels f)) fs
        (make_mul-Means labels op e (factor_expr f) c (is_constant f) v (factor_value labels f) h
          (factor-Means labels f) here)
        rest

  term-Means :
      (t : Term)
      → safe_term t ≡ true
      → Means labels (term_expr t) (constant_term t) (term_value labels t)
  term-Means t safe =
      factors-Means (factor_expr t.first) (is_constant t.first) (factor_value labels t.first) t.more
        (factor-Means labels t.first) safe

  terms_lem :
      (e : Expr) (c : Bool) (v : Outcome) (ts : List (Bool × Term))
      → Means labels e c v
      → safe_terms c ts ≡ true
      → calc_expr labels (terms_expr e ts) ≡ terms_value labels v ts
  terms_lem e c v [] h safe = h.same
  terms_lem e c v ((op, t) ∷ ts) h safe =
      let (mine, others) = and_true (safe_term t) _ safe in
      let (here, rest) = and_true (not (op && (c && constant_term t))) _ others in
      terms_lem (make_add op e (term_expr t)) (c && constant_term t)
        (add_value op v (term_value labels t)) ts
        (make_add-Means labels op e (term_expr t) c (constant_term t) v (term_value labels t) h
          (term-Means t mine) here)
        rest

-- All the tokens are read, and the expression has the value that is written.
pub record Evaluates (s : Sum) (r : Option Parsed) : Type 0 where
  pub expr : Expr
  pub made : r ≡ some (read_as expr [])
  pub same : (labels : Labels) → calc_expr labels expr ≡ sum_value labels s

-- A written sum of products of signed labels and numbers, in which no constant is divided by a
-- constant or subtracted from one, is read by `parse_expr` to its last token without an error, and for all labels its expression has the value that is written, from left to right, or
-- the same fault or undefined label.
pub parse_expr-Evaluates : (s : Sum) → is_safe s ≡ true → Evaluates s (parse_expr (sum_tokens s))
parse_expr-Evaluates s safe =
    let (first, more) = and_true (safe_term s.first) _ safe in
    record {
      expr = sum_expr s;
      made = parse_expr-reads s;
      same = λ labels.
          terms_lem labels (term_expr s.first) (constant_term s.first) (term_value labels s.first)
            s.more (term-Means labels s.first first) more;
    }
