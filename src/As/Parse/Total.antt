-- ===== src/As/Parse/Total.antt =====
-- src/as/parse_asm.c: the parser of expressions returns on all tokens.
use my9cc.As.{Expr}
use my9cc.As.Parse.{
  Token, tk_label, tk_fixnum, tk_flonum, tk_add, tk_sub, tk_mul, tk_div, positive, negative, signed,
  unary, make_mul, make_add, Parsed, mul_operand, mul_loop, mul_start, parse_mul, add_result,
  add_operand, add_loop, add_first, parse_add, parse_expr,
}
use my9cc.Prelude.{
  ℕ, zero, suc, ◌≤◌, ◌<◌, ◌≡◌, refl, Bool, true, false, ◌||◌, Option, none, some, List, [], ◌∷◌,
  length, arith,
}

signed_short :
    (f : Expr → Expr) (r : Option Expr × List Token) (n : ℕ)
    → length (r.1) ≤ n
    → length ((signed f r).1) ≤ suc n
signed_short f (none, ts) n h = omega arith
signed_short f (some e, ts) n h = omega arith

unary_short : (ts : List Token) → length ((unary ts).1) ≤ length ts
unfolding unary
unary_short [] = omega arith
unary_short (tk_label l ∷ ts) = omega arith
unary_short (tk_fixnum n ∷ ts) = omega arith
unary_short (tk_flonum x ∷ ts) = omega arith
unary_short (tk_add ∷ ts) = signed_short positive (unary ts) (length ts) (unary_short ts)
unary_short (tk_sub ∷ ts) = signed_short negative (unary ts) (length ts) (unary_short ts)
unary_short (tk_mul ∷ ts) = omega arith
unary_short (tk_div ∷ ts) = omega arith

-- A result, with at most `n` tokens behind it.
pub record Returns (r : Option Parsed) (n : ℕ) : Type 0 where
  pub parsed : Parsed
  pub made : r ≡ some parsed
  pub shorter : length parsed.rest ≤ n

done : (p : Parsed) (n : ℕ) → length p.rest ≤ n → Returns (some p) n
done p n h = record { parsed = p; made = refl; shorter = h }

widen : (r : Option Parsed) (m n : ℕ) → m ≤ n → Returns r m → Returns r n
widen r m n h q =
    let k = q.shorter in record { parsed = q.parsed; made = q.made; shorter = omega arith }

operand_returns :
    (n : ℕ) (f : Expr → Expr) (e : Expr) (r : Option Expr × List Token)
    → ((t : Expr) (us : List Token) → length us < n → Returns (mul_loop n t us) (length us))
    → length (r.1) < n
    → Returns (mul_operand (λ t us. mul_loop n t us) f e r) (length (r.1))
operand_returns n f e (none, us) go h = done _ (length us) (omega arith)
operand_returns n f e (some t, us) go h = go (f t) us h

mul_returns :
    (n : ℕ) (e : Expr) (ts : List Token) → length ts < n → Returns (mul_loop n e ts) (length ts)
unfolding mul_loop
mul_returns zero e ts h = absurd (omega arith)
mul_returns (suc n) e (tk_mul ∷ ts) h =
    let short = unary_short ts in
    widen _ (length ((unary ts).1)) (suc (length ts)) (omega arith)
      (operand_returns n (make_mul false e) e (unary ts) (mul_returns n) (omega arith))
mul_returns (suc n) e (tk_div ∷ ts) h =
    let short = unary_short ts in
    widen _ (length ((unary ts).1)) (suc (length ts)) (omega arith)
      (operand_returns n (make_mul true e) e (unary ts) (mul_returns n) (omega arith))
mul_returns (suc n) e [] h = done _ _ (omega arith)
mul_returns (suc n) e (tk_label l ∷ ts) h = done _ _ (omega arith)
mul_returns (suc n) e (tk_fixnum l ∷ ts) h = done _ _ (omega arith)
mul_returns (suc n) e (tk_flonum l ∷ ts) h = done _ _ (omega arith)
mul_returns (suc n) e (tk_add ∷ ts) h = done _ _ (omega arith)
mul_returns (suc n) e (tk_sub ∷ ts) h = done _ _ (omega arith)

start_returns :
    (n : ℕ) (r : Option Expr × List Token)
    → length (r.1) < n
    → Returns (mul_start n r) (length (r.1))
start_returns n (none, ts) h = done _ (length ts) (omega arith)
start_returns n (some e, ts) h = mul_returns n e ts h

parse_mul-returns : (n : ℕ) (ts : List Token) → length ts < n → Returns (parse_mul n ts) (length ts)
unfolding parse_mul
parse_mul-returns n ts h =
    let short = unary_short ts in
    widen _ (length ((unary ts).1)) (length ts) short (start_returns n (unary ts) (omega arith))

result_returns :
    (n : ℕ) (f : Expr → Expr) (e : Expr) (error fault : Bool) (ts : List Token) (o : Option Expr)
    → ((t : Expr) (b : Bool) (us : List Token)
        → length us < n
        → Returns (add_loop n t b us) (length us))
    → length ts < n
    → Returns (add_result (λ t b us. add_loop n t b us) f e error fault ts o) (length ts)
result_returns n f e error fault ts none go h = done _ (length ts) (omega arith)
result_returns n f e error fault ts (some t) go h = go (f t) (error || fault) ts h

term_returns :
    (n : ℕ) (f : Expr → Expr) (e : Expr) (error : Bool) (ts : List Token)
    → ((t : Expr) (b : Bool) (us : List Token)
        → length us < n
        → Returns (add_loop n t b us) (length us))
    → length ts < n
    → Returns
        (add_operand (λ t b us. add_loop n t b us) f e error (parse_mul (suc n) ts))
        (suc (length ts))
term_returns n f e error ts go h =
    let r = parse_mul-returns (suc n) ts (omega arith) in
    let short = r.shorter in
    rw r.made (
      widen _ (length r.parsed.rest) (suc (length ts)) (omega arith)
        (result_returns n f e error r.parsed.error r.parsed.rest r.parsed.expr go (omega arith)))

add_returns :
    (n : ℕ) (e : Expr) (error : Bool) (ts : List Token)
    → length ts < n
    → Returns (add_loop n e error ts) (length ts)
unfolding add_loop
add_returns zero e error ts h = absurd (omega arith)
add_returns (suc n) e error (tk_add ∷ ts) h =
    term_returns n (make_add false e) e error ts (add_returns n) (omega arith)
add_returns (suc n) e error (tk_sub ∷ ts) h =
    term_returns n (make_add true e) e error ts (add_returns n) (omega arith)
add_returns (suc n) e error [] h = done _ _ (omega arith)
add_returns (suc n) e error (tk_label l ∷ ts) h = done _ _ (omega arith)
add_returns (suc n) e error (tk_fixnum l ∷ ts) h = done _ _ (omega arith)
add_returns (suc n) e error (tk_flonum l ∷ ts) h = done _ _ (omega arith)
add_returns (suc n) e error (tk_mul ∷ ts) h = done _ _ (omega arith)
add_returns (suc n) e error (tk_div ∷ ts) h = done _ _ (omega arith)

first_returns :
    (n : ℕ) (error : Bool) (ts : List Token) (o : Option Expr)
    → length ts < n
    → Returns (add_first n error ts o) (length ts)
first_returns n error ts none h = done _ (length ts) (omega arith)
first_returns n error ts (some e) h = add_returns n e error ts h

-- `parse_expr` returns on all tokens, with an expression or without, and leaves at most the tokens
-- that it was given.
pub parse_expr-Returns : (ts : List Token) → Returns (parse_expr ts) (length ts)
unfolding parse_expr parse_add
parse_expr-Returns ts =
    let r = parse_mul-returns (suc (length ts)) ts (omega arith) in
    let short = r.shorter in
    rw r.made (
      widen _ (length r.parsed.rest) (length ts) short
        (first_returns (suc (length ts)) r.parsed.error r.parsed.rest r.parsed.expr (omega arith)))
