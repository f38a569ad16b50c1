-- ===== src/As/Parse/Reads.antt =====
-- src/as/parse_asm.c: the parser reads what is written, and the expression that it makes.
use my9cc.As.{Expr}
use my9cc.As.Expr.{ex_label, ex_fixnum, ex_flonum}
use my9cc.As.Parse.{
  Token, positive, negative, signed, unary, make_mul, make_add, Parsed, mul_operand, mul_loop,
  mul_start, parse_mul, add_operand, add_loop, add_start, parse_add, parse_expr,
}
use my9cc.As.Parse.Written.{
  Factor, label, fixnum, flonum, plus, minus, Term, Sum, factor_tokens, factors_tokens, term_tokens,
  terms_tokens, sum_tokens,
}
use my9cc.Prelude.{
  ℕ, zero, suc, ◌+◌, ◌≤◌, ◌<◌, ◌≡◌, refl, Bool, true, false, some, List, [], ◌∷◌, length, arith,
  ◌∙◌, ap,
}

abbrev pub factor_expr : Factor → Expr
factor_expr (label l) = ex_label l
factor_expr (fixnum n) = ex_fixnum n
factor_expr (flonum x) = ex_flonum x
factor_expr (plus f) = positive (factor_expr f)
factor_expr (minus f) = negative (factor_expr f)

abbrev pub factors_expr : Expr → List (Bool × Factor) → Expr
factors_expr e [] = e
factors_expr e ((op, f) ∷ fs) = factors_expr (make_mul op e (factor_expr f)) fs

abbrev pub term_expr : Term → Expr
term_expr t = factors_expr (factor_expr t.first) t.more

abbrev pub terms_expr : Expr → List (Bool × Term) → Expr
terms_expr e [] = e
terms_expr e ((op, t) ∷ ts) = terms_expr (make_add op e (term_expr t)) ts

abbrev pub sum_expr : Sum → Expr
sum_expr s = terms_expr (term_expr s.first) s.more

abbrev pub read_as : Expr → List Token → Parsed
read_as e ts = record { expr = some e; error = false; rest = ts }

unary_reads :
    (f : Factor) (ts : List Token) → unary (factor_tokens f ts) ≡ (some (factor_expr f), ts)
unfolding unary
unary_reads (label l) ts = refl
unary_reads (fixnum n) ts = refl
unary_reads (flonum x) ts = refl
unary_reads (plus f) ts = ap (signed positive) (unary_reads f ts)
unary_reads (minus f) ts = ap (signed negative) (unary_reads f ts)

length-factor : (f : Factor) (ts : List Token) → length ts < length (factor_tokens f ts)
length-factor (label l) ts = omega arith
length-factor (fixnum n) ts = omega arith
length-factor (flonum x) ts = omega arith
length-factor (plus f) ts = omega (arith, length-factor f ts)
length-factor (minus f) ts = omega (arith, length-factor f ts)

length-factors :
    (fs : List (Bool × Factor)) (ts : List Token)
    → length fs + length ts ≤ length (factors_tokens fs ts)
length-factors [] ts = omega arith
length-factors ((op, f) ∷ fs) ts =
    omega (arith, length-factor f (factors_tokens fs ts), length-factors fs ts)

-- What stands behind a term: the loop over factors ends there.
ends :
    (n : ℕ) (e : Expr) (ts : List (Bool × Term))
    → mul_loop (suc n) e (terms_tokens ts []) ≡ some (read_as e (terms_tokens ts []))
unfolding mul_loop
ends n e [] = refl
ends n e ((true, t) ∷ ts) = refl
ends n e ((false, t) ∷ ts) = refl

mul_step :
    (n : ℕ) (e : Expr) (op : Bool) (f : Factor) (ts : List Token)
    → mul_loop (suc n) e (factors_tokens ((op, f) ∷ []) ts)
      ≡ mul_loop n (make_mul op e (factor_expr f)) ts
unfolding mul_loop
mul_step n e true f ts =
    ap (mul_operand (λ t us. mul_loop n t us) (make_mul true e) e) (unary_reads f ts)
mul_step n e false f ts =
    ap (mul_operand (λ t us. mul_loop n t us) (make_mul false e) e) (unary_reads f ts)

mul_reads :
    (n : ℕ) (e : Expr) (fs : List (Bool × Factor)) (ts : List (Bool × Term))
    → length fs < n
    → mul_loop n e (factors_tokens fs (terms_tokens ts []))
      ≡ some (read_as (factors_expr e fs) (terms_tokens ts []))
mul_reads zero e fs ts h = absurd (omega arith)
mul_reads (suc n) e [] ts h = ends n e ts
mul_reads (suc n) e ((op, f) ∷ fs) ts h =
    mul_step n e op f (factors_tokens fs (terms_tokens ts []))
    ∙ mul_reads n (make_mul op e (factor_expr f)) fs ts (omega arith)

term_reads :
    (n : ℕ) (t : Term) (ts : List (Bool × Term))
    → length t.more < n
    → parse_mul n (term_tokens t (terms_tokens ts []))
      ≡ some (read_as (term_expr t) (terms_tokens ts []))
unfolding parse_mul
term_reads n t ts h =
    ap (mul_start n) (unary_reads t.first (factors_tokens t.more (terms_tokens ts [])))
    ∙ mul_reads n (factor_expr t.first) t.more ts h

add_step :
    (n : ℕ) (e : Expr) (op : Bool) (t : Term) (ts : List (Bool × Term))
    → length t.more < suc n
    → add_loop (suc n) e false (terms_tokens ((op, t) ∷ ts) [])
      ≡ add_loop n (make_add op e (term_expr t)) false (terms_tokens ts [])
unfolding add_loop
add_step n e true t ts h =
    ap (add_operand (λ u b us. add_loop n u b us) (make_add true e) e false)
      (term_reads (suc n) t ts h)
add_step n e false t ts h =
    ap (add_operand (λ u b us. add_loop n u b us) (make_add false e) e false)
      (term_reads (suc n) t ts h)

term_length : (t : Term) (ts : List Token) → length t.more + length ts < length (term_tokens t ts)
term_length t ts =
    omega (arith, length-factor t.first (factors_tokens t.more ts), length-factors t.more ts)

add_reads :
    (n : ℕ) (e : Expr) (ts : List (Bool × Term))
    → length (terms_tokens ts []) < n
    → add_loop n e false (terms_tokens ts []) ≡ some (read_as (terms_expr e ts) [])
unfolding add_loop
add_reads zero e ts h = absurd (omega arith)
add_reads (suc n) e [] h = refl
add_reads (suc n) e ((op, t) ∷ ts) h =
    let size = term_length t (terms_tokens ts []) in
    add_step n e op t ts (omega arith) ∙ add_reads n (make_add op e (term_expr t)) ts (omega arith)

pub parse_expr-reads : (s : Sum) → parse_expr (sum_tokens s) ≡ some (read_as (sum_expr s) [])
unfolding parse_expr parse_add
parse_expr-reads s =
    let size = term_length s.first (terms_tokens s.more []) in
    let n = suc (length (sum_tokens s)) in
    ap (add_start n) (term_reads n s.first s.more (omega arith))
    ∙ add_reads n (term_expr s.first) s.more (omega arith)
