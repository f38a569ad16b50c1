-- ===== src/Util/Vector/Tests.antt =====
-- src/util/util.c: runs on concrete vectors, and the theorems at inputs that meet their hypotheses.
use my9cc.Util.Vector.{Vector, new_vector, grow, vec_push, vec_insert, vec_remove_at, vec_contains}
use my9cc.Util.Vector.Represents.{Represents}
use my9cc.Util.Vector.Edit.{vec_insert-between, vec_remove_at-without}
use my9cc.Util.Vector.Contains.{vec_contains-Occurs}
use my9cc.Prelude.{
  ℕ, ◌+◌, ◌≤◌, ◌<◌, ◌≡◌, refl, ◌↔◌, true, List, [], ◌∷◌, ◌++◌, ◌==◌, length, take, ==_iff,
}
use my9cc.Prelude.Int.{pos, negsuc}

-- Pointers are numbers here: NULL is 0, and what `realloc` leaves in new cells is 99.
abbrev three : Vector ℕ
three = vec_push 0 99 (vec_push 0 99 (vec_push 0 99 (new_vector 0 99) 7) 8) 9

three_runs : take (three.len + 1) (vec_insert 0 99 three (pos 1) 5).cells ≡ 7 ∷ 5 ∷ 8 ∷ 9 ∷ []
unfolding grow vec_push vec_insert
three_runs = refl

abbrev two : Vector ℕ
two = record { cells = 7 ∷ 8 ∷ 99 ∷ []; capacity = 3; len = 2 }

abbrev pair : List ℕ
pair = 7 ∷ 8 ∷ []

two-Represents : Represents two pair
two-Represents = record { spare = 99 ∷ []; contents = refl; size = refl; room = refl }

vec_insert-between_example :
    ((a b : List ℕ)
      → pair ≡ a ++ b
      → Represents (vec_insert 0 99 two (pos (length a)) 5) (a ++ (5 ∷ b)))
    × ((i : ℕ) → 2 < i → vec_insert 0 99 two (pos i) 5 ≡ two)
    × ((i : ℕ) → vec_insert 0 99 two (negsuc i) 5 ≡ two)
vec_insert-between_example = vec_insert-between 0 99 two pair 5 two-Represents

vec_remove_at-without_example :
    ((a b : List ℕ) (y : ℕ)
      → pair ≡ a ++ (y ∷ b)
      → Represents (vec_remove_at 0 99 two (pos (length a))) (a ++ b))
    × ((i : ℕ) → 2 ≤ i → vec_remove_at 0 99 two (pos i) ≡ two)
    × ((i : ℕ) → vec_remove_at 0 99 two (negsuc i) ≡ two)
vec_remove_at-without_example = vec_remove_at-without 0 99 two pair two-Represents

number_of : (p q : ℕ) → (p == q) ≡ true → p ≡ q
number_of p q h = (==_iff p q).0 h

same_number : (p : ℕ) → (p == p) ≡ true
same_number p = (==_iff p p).1 refl

vec_contains-Occurs_example :
    (vec_contains (λ p q. p == q) two 8 ≡ true)
    ↔ ((a : List ℕ) × (b : List ℕ) × (pair ≡ a ++ (8 ∷ b)))
vec_contains-Occurs_example =
    vec_contains-Occurs (λ p q. p == q) number_of same_number two pair 8 two-Represents
