-- ===== src/As/Parse/Written.antt =====
-- Expressions of the assembler as they are written, and what they mean.
use my9cc.As.{Labels}
use my9cc.As.Expr.{ex_label}
use my9cc.As.Label.{Outcome, and_then, divide, calc_expr}
use my9cc.As.Parse.{Token, tk_label, tk_fixnum, tk_flonum, tk_add, tk_sub, tk_mul, tk_div}
use my9cc.Ir.Word.{neg, word_add, word_sub, word_mul}
use my9cc.Prelude.{ℕ, Bool, true, false, not, ◌&&◌, List, [], ◌∷◌}

-- A label or a number behind signs.
pub data Factor : Type 0 where
  label fixnum flonum : ℕ → Factor
  plus minus : Factor → Factor

-- Factors behind `*` or `/`, and terms behind `+` or `-`; `true` is the inverse operator.
pub record Term : Type 0 where
  pub first : Factor
  pub more : List (Bool × Factor)

pub record Sum : Type 0 where
  pub first : Term
  pub more : List (Bool × Term)

abbrev pub factor_tokens : Factor → List Token → List Token
factor_tokens (label l) ts = tk_label l ∷ ts
factor_tokens (fixnum n) ts = tk_fixnum n ∷ ts
factor_tokens (flonum x) ts = tk_flonum x ∷ ts
factor_tokens (plus f) ts = tk_add ∷ factor_tokens f ts
factor_tokens (minus f) ts = tk_sub ∷ factor_tokens f ts

abbrev pub mul_token : Bool → Token
mul_token true = tk_div
mul_token false = tk_mul

abbrev pub add_token : Bool → Token
add_token true = tk_sub
add_token false = tk_add

abbrev pub factors_tokens : List (Bool × Factor) → List Token → List Token
factors_tokens [] ts = ts
factors_tokens ((op, f) ∷ fs) ts = mul_token op ∷ factor_tokens f (factors_tokens fs ts)

abbrev pub term_tokens : Term → List Token → List Token
term_tokens t ts = factor_tokens t.first (factors_tokens t.more ts)

abbrev pub terms_tokens : List (Bool × Term) → List Token → List Token
terms_tokens [] ts = ts
terms_tokens ((op, t) ∷ rest) ts = add_token op ∷ term_tokens t (terms_tokens rest ts)

abbrev pub sum_tokens : Sum → List Token
sum_tokens s = term_tokens s.first (terms_tokens s.more [])

-- The values, as they are written.
abbrev pub factor_value : Labels → Factor → Outcome
factor_value labels (label l) = calc_expr labels (ex_label l)
factor_value labels (fixnum n) = Outcome.value n
factor_value labels (flonum x) = Outcome.fault
factor_value labels (plus f) = factor_value labels f
factor_value labels (minus f) = and_then (factor_value labels f) λ n. Outcome.value (neg n)

abbrev pub mul_value : Bool → Outcome → Outcome → Outcome
mul_value true x y = and_then x λ a. and_then y λ b. divide a b
mul_value false x y = and_then x λ a. and_then y λ b. Outcome.value (word_mul a b)

abbrev pub add_value : Bool → Outcome → Outcome → Outcome
add_value true x y = and_then x λ a. and_then y λ b. Outcome.value (word_sub a b)
add_value false x y = and_then x λ a. and_then y λ b. Outcome.value (word_add a b)

abbrev pub factors_value : Labels → Outcome → List (Bool × Factor) → Outcome
factors_value labels x [] = x
factors_value labels x ((op, f) ∷ fs) =
    factors_value labels (mul_value op x (factor_value labels f)) fs

abbrev pub term_value : Labels → Term → Outcome
term_value labels t = factors_value labels (factor_value labels t.first) t.more

abbrev pub terms_value : Labels → Outcome → List (Bool × Term) → Outcome
terms_value labels x [] = x
terms_value labels x ((op, t) ∷ ts) = terms_value labels (add_value op x (term_value labels t)) ts

abbrev pub sum_value : Labels → Sum → Outcome
sum_value labels s = terms_value labels (term_value labels s.first) s.more

-- Whether only numbers stand there, so that the parser keeps a constant.
abbrev pub is_constant : Factor → Bool
is_constant (label l) = false
is_constant (fixnum n) = true
is_constant (flonum x) = false
is_constant (plus f) = is_constant f
is_constant (minus f) = is_constant f

abbrev pub constant_factors : Bool → List (Bool × Factor) → Bool
constant_factors c [] = c
constant_factors c ((op, f) ∷ fs) = constant_factors (c && is_constant f) fs

abbrev pub constant_term : Term → Bool
constant_term t = constant_factors (is_constant t.first) t.more

-- No quotient and no difference of two constants is folded.
abbrev pub safe_factors : Bool → List (Bool × Factor) → Bool
safe_factors c [] = true
safe_factors c ((op, f) ∷ fs) =
    not (op && (c && is_constant f)) && safe_factors (c && is_constant f) fs

abbrev pub safe_term : Term → Bool
safe_term t = safe_factors (is_constant t.first) t.more

abbrev pub safe_terms : Bool → List (Bool × Term) → Bool
safe_terms c [] = true
safe_terms c ((op, t) ∷ ts) =
    safe_term t && (not (op && (c && constant_term t)) && safe_terms (c && constant_term t) ts)

abbrev pub is_safe : Sum → Bool
is_safe s = safe_term s.first && safe_terms (constant_term s.first) s.more
