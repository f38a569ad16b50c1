-- ===== src/Util/Vector/Contains.antt =====
-- src/util/util.c: `vec_contains` on a vector that stands for a list.
use my9cc.Util.Vector.{Vector, contains_from, vec_contains}
use my9cc.Util.Vector.Represents.{Represents}
use my9cc.Prelude.{
  ◌≡◌, ◌↔◌, inl, inr, Bool, true, false, List, [], ◌∷◌, ◌++◌, length, ap, Bool-cases,
}

module _ {ℓ} {P : Type ℓ} (same : P → P → Bool) (sound : (p q : P) → same p q ≡ true → p ≡ q)
    (reflexive : (p : P) → same p p ≡ true) where
  -- The element stands between two parts of the list.
  abbrev pub Occurs : P → List P → Type ℓ
  Occurs x xs = (a : List P) × (b : List P) × (xs ≡ a ++ (x ∷ b))

  found_of_true :
      (xs spare : List P) (x : P)
      → contains_from same (xs ++ spare) (length xs) x ≡ true
      → Occurs x xs
  found_of_true [] spare x h = absurd (clash h)
    where
      clash : false ≡ true → ⊥
      clash e = cc
  found_of_true (c ∷ xs) spare x h = elim (Bool-cases (same c x)) [
    | inl here ↦ ([], xs, ap (λ p. p ∷ xs) (sound c x here))
    | inr other ↦
        let (a, b, e) = found_of_true xs spare x (rw other at h) in (c ∷ a, b, ap (λ l. c ∷ l) e)
  ]

  true_of_found :
      (a b spare : List P) (x : P)
      → contains_from same ((a ++ (x ∷ b)) ++ spare) (length (a ++ (x ∷ b))) x ≡ true
  true_of_found [] b spare x = rw (reflexive x)
  true_of_found (c ∷ a) b spare x = elim (Bool-cases (same c x)) [
    | inl here ↦ rw here
    | inr other ↦ rw other (true_of_found a b spare x)
  ]

  -- Where `same` decides equality of pointers, vec_contains tells whether the element occurs in the
  -- list that the vector stands for.
  pub vec_contains-Occurs :
      (vec : Vector P) (xs : List P) (x : P)
      → Represents vec xs
      → (vec_contains same vec x ≡ true) ↔ Occurs x xs
  vec_contains-Occurs vec xs x v = (
    λ h. found_of_true xs v.spare x (rw (v.contents, v.size) at h),
    λ (a, b, e). rw (v.contents, v.size, e) (true_of_found a b v.spare x),
  )
