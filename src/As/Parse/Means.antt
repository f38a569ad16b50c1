-- ===== src/As/Parse/Means.antt =====
-- src/as/parse_asm.c: what the signs and the operators make of values and of constants.
use my9cc.As.{Expr, Labels}
use my9cc.As.Expr.{ex_label, ex_fixnum, ex_flonum, ex_pos, ex_neg, ex_add, ex_sub, ex_mul, ex_div}
use my9cc.As.Label.{Outcome, and_then, calc_expr}
use my9cc.As.Parse.{positive, negative, combine, make_mul, make_add}
use my9cc.As.Parse.Written.{
  Factor, label, fixnum, flonum, plus, minus, factor_value, mul_value, add_value, is_constant,
}
use my9cc.As.Parse.Reads.{factor_expr}
use my9cc.Ir.Word.{neg, word_add, word_mul}
use my9cc.Prelude.{ℕ, ◌≡◌, refl, Bool, true, false, not, ◌&&◌, sym, ◌∙◌, ap, inl, inr, ◌⊎◌}

abbrev pub is_fixnum : Expr → Bool
is_fixnum (ex_fixnum n) = true
is_fixnum _ = false

-- The value of an expression, and whether it is a constant.
pub record Means (labels : Labels) (e : Expr) (c : Bool) (v : Outcome) : Type 0 where
  pub constant : is_fixnum e ≡ c
  pub same : calc_expr labels e ≡ v

-- Either two constants are combined, or a node is made.
record Folded (f : ℕ → ℕ → ℕ) (node : Expr → Expr → Expr) (l r : Expr) : Type 0 where
  left : ℕ
  right : ℕ
  left_is : l ≡ ex_fixnum left
  right_is : r ≡ ex_fixnum right

combine-cases :
    (f : ℕ → ℕ → ℕ) (node : Expr → Expr → Expr) (l r : Expr)
    → Folded f node l r ⊎ ((is_fixnum l && is_fixnum r ≡ false) × (combine f node l r ≡ node l r))
combine-cases f node (ex_fixnum a) (ex_fixnum b) =
    inl (record { left = a; right = b; left_is = refl; right_is = refl })
combine-cases f node (ex_fixnum a) (ex_label r) = inr (refl, refl)
combine-cases f node (ex_fixnum a) (ex_flonum r) = inr (refl, refl)
combine-cases f node (ex_fixnum a) (ex_pos r) = inr (refl, refl)
combine-cases f node (ex_fixnum a) (ex_neg r) = inr (refl, refl)
combine-cases f node (ex_fixnum a) (ex_add r s) = inr (refl, refl)
combine-cases f node (ex_fixnum a) (ex_sub r s) = inr (refl, refl)
combine-cases f node (ex_fixnum a) (ex_mul r s) = inr (refl, refl)
combine-cases f node (ex_fixnum a) (ex_div r s) = inr (refl, refl)
combine-cases f node (ex_label l) r = inr (refl, refl)
combine-cases f node (ex_flonum l) r = inr (refl, refl)
combine-cases f node (ex_pos l) r = inr (refl, refl)
combine-cases f node (ex_neg l) r = inr (refl, refl)
combine-cases f node (ex_add l m) r = inr (refl, refl)
combine-cases f node (ex_sub l m) r = inr (refl, refl)
combine-cases f node (ex_mul l m) r = inr (refl, refl)
combine-cases f node (ex_div l m) r = inr (refl, refl)

clash : (b : Bool) → not b ≡ true → b ≡ true → ⊥
clash true h k = cc
clash false h k = cc

module _ (labels : Labels) where
  -- Constants that are folded must have the value of the operator.
  combined :
      (f : ℕ → ℕ → ℕ) (node : Expr → Expr → Expr) (op : Outcome → Outcome → Outcome) (l r : Expr)
      (c d : Bool) (v w : Outcome)
      → Means labels l c v
      → Means labels r d w
      → ((x y : Expr) → is_fixnum (node x y) ≡ false)
      → ((x y : Expr) → calc_expr labels (node x y) ≡ op (calc_expr labels x) (calc_expr labels y))
      → (c && d ≡ true → (a b : ℕ) → op (Outcome.value a) (Outcome.value b) ≡ Outcome.value (f a b))
      → Means labels (combine f node l r) (c && d) (op v w)
  unfolding calc_expr
  combined f node op l r c d v w hl hr plain calc exact =
      let flags : is_fixnum l && is_fixnum r ≡ c && d =
        ap (λ t. t && is_fixnum r) hl.constant ∙ ap (λ t. c && t) hr.constant in
      let values : op (calc_expr labels l) (calc_expr labels r) ≡ op v w =
        ap (λ t. op t (calc_expr labels r)) hl.same ∙ ap (λ t. op v t) hr.same in
      elim (combine-cases f node l r) [
        | inl k ↦
            let folded : combine f node l r ≡ ex_fixnum (f k.left k.right) =
              ap (λ t. combine f node t r) k.left_is
              ∙ ap (λ t. combine f node (ex_fixnum k.left) t) k.right_is in
            let both : c && d ≡ true =
              sym flags
              ∙ ap (λ t. is_fixnum t && is_fixnum r) k.left_is
              ∙ ap (λ t. is_fixnum t) k.right_is in
            record {
              constant = ap is_fixnum folded ∙ sym both;
              same =
                  ap (calc_expr labels) folded
                  ∙ sym (exact both k.left k.right)
                  ∙ ap (λ t. op (calc_expr labels t) (Outcome.value k.right)) (sym k.left_is)
                  ∙ ap (λ t. op (calc_expr labels l) (calc_expr labels t)) (sym k.right_is)
                  ∙ values;
            }
        | inr (kept, made) ↦ record {
          constant = ap is_fixnum made ∙ plain l r ∙ sym kept ∙ flags;
          same = ap (calc_expr labels) made ∙ calc l r ∙ values;
        }
      ]

  positive_constant : (e : Expr) → is_fixnum (positive e) ≡ is_fixnum e
  positive_constant (ex_fixnum n) = refl
  positive_constant (ex_flonum n) = refl
  positive_constant (ex_label n) = refl
  positive_constant (ex_pos n) = refl
  positive_constant (ex_neg n) = refl
  positive_constant (ex_add n m) = refl
  positive_constant (ex_sub n m) = refl
  positive_constant (ex_mul n m) = refl
  positive_constant (ex_div n m) = refl

  negative_constant : (e : Expr) → is_fixnum (negative e) ≡ is_fixnum e
  negative_constant (ex_fixnum n) = refl
  negative_constant (ex_flonum n) = refl
  negative_constant (ex_label n) = refl
  negative_constant (ex_pos n) = refl
  negative_constant (ex_neg n) = refl
  negative_constant (ex_add n m) = refl
  negative_constant (ex_sub n m) = refl
  negative_constant (ex_mul n m) = refl
  negative_constant (ex_div n m) = refl

  positive_value : (e : Expr) → calc_expr labels (positive e) ≡ calc_expr labels e
  unfolding calc_expr
  positive_value (ex_fixnum n) = refl
  positive_value (ex_flonum n) = refl
  positive_value (ex_label n) = refl
  positive_value (ex_pos n) = refl
  positive_value (ex_neg n) = refl
  positive_value (ex_add n m) = refl
  positive_value (ex_sub n m) = refl
  positive_value (ex_mul n m) = refl
  positive_value (ex_div n m) = refl

  abbrev negated : Outcome → Outcome
  negated x = and_then x λ n. Outcome.value (neg n)

  negative_value : (e : Expr) → calc_expr labels (negative e) ≡ negated (calc_expr labels e)
  unfolding calc_expr
  negative_value (ex_fixnum n) = refl
  negative_value (ex_flonum n) = refl
  negative_value (ex_label n) = refl
  negative_value (ex_pos n) = refl
  negative_value (ex_neg n) = refl
  negative_value (ex_add n m) = refl
  negative_value (ex_sub n m) = refl
  negative_value (ex_mul n m) = refl
  negative_value (ex_div n m) = refl

  pub factor-Means :
      (f : Factor) → Means labels (factor_expr f) (is_constant f) (factor_value labels f)
  unfolding calc_expr
  factor-Means (label l) = record { constant = refl; same = refl }
  factor-Means (fixnum n) = record { constant = refl; same = refl }
  factor-Means (flonum x) = record { constant = refl; same = refl }
  factor-Means (plus f) =
      let h = factor-Means f in
      record {
        constant = positive_constant (factor_expr f) ∙ h.constant;
        same = positive_value (factor_expr f) ∙ h.same;
      }
  factor-Means (minus f) =
      let h = factor-Means f in
      record {
        constant = negative_constant (factor_expr f) ∙ h.constant;
        same = negative_value (factor_expr f) ∙ ap negated h.same;
      }

  pub make_mul-Means :
      (op : Bool) (l r : Expr) (c d : Bool) (v w : Outcome)
      → Means labels l c v
      → Means labels r d w
      → not (op && (c && d)) ≡ true
      → Means labels (make_mul op l r) (c && d) (mul_value op v w)
  unfolding calc_expr
  make_mul-Means false l r c d v w hl hr safe =
      combined word_mul ex_mul (mul_value false) l r c d v w hl hr (λ x y. refl) (λ x y. refl)
        (λ both a b. refl)
  make_mul-Means true l r c d v w hl hr safe =
      combined word_add ex_div (mul_value true) l r c d v w hl hr (λ x y. refl) (λ x y. refl)
        (λ both a b. absurd (clash (c && d) safe both))

  pub make_add-Means :
      (op : Bool) (l r : Expr) (c d : Bool) (v w : Outcome)
      → Means labels l c v
      → Means labels r d w
      → not (op && (c && d)) ≡ true
      → Means labels (make_add op l r) (c && d) (add_value op v w)
  unfolding calc_expr
  make_add-Means false l r c d v w hl hr safe =
      combined word_add ex_add (add_value false) l r c d v w hl hr (λ x y. refl) (λ x y. refl)
        (λ both a b. refl)
  make_add-Means true l r c d v w hl hr safe =
      combined word_add ex_sub (add_value true) l r c d v w hl hr (λ x y. refl) (λ x y. refl)
        (λ both a b. absurd (clash (c && d) safe both))
