-- ===== src/Codegen/Switch/Sorted.antt =====
-- src/cc/codegen.c: the cases of a switch in the order of their values, and the case of a value.
use my9cc.Codegen.Switch.{Entry}
use my9cc.Prelude.{
  ℕ, ◌+◌, ◌%◌, ◌^◌, ◌<◌, ◌≡◌, ◌≢◌, refl, false, List, [], ◌∷◌, ◌++◌, ◌==◌, if◌then◌else◌, All,
  arith, ap, inl, inr, Bool-cases,
}

-- The order of signed numbers, by their patterns.
abbrev pub key : ℕ → ℕ
key n = (n + 2 ^ 63) % 2 ^ 64

-- The first case of the value.
abbrev pub look : ℕ → List Entry → ℕ → ℕ
look v [] other = other
look v (e ∷ es) other = if v == e.fixnum then e.bb else look v es other

pub look-append :
    (v : ℕ) (a b : List Entry) (other : ℕ) → look v (a ++ b) other ≡ look v a (look v b other)
look-append v [] b other = refl
look-append v (e ∷ a) b other = elim (Bool-cases (v == e.fixnum)) [
  | inl hit ↦ rw hit refl
  | inr miss ↦ rw miss (look-append v a b other)
]

pub look-none :
    (v : ℕ) (a : List Entry) (other : ℕ)
    → All (λ e. key v ≢ key e.fixnum) a
    → look v a other ≡ other
look-none v [] other h = refl
look-none v (e ∷ a) other h =
    let miss : (v == e.fixnum) ≡ false = elim (Bool-cases (v == e.fixnum)) [
      | inl hit ↦ absurd (h.0 (ap key (ground arith)))
      | inr miss ↦ miss
    ] in
    rw miss (look-none v a other (h.1))

-- In the order of the values.
unfoldable pub IsSorted : List Entry → Type 0
IsSorted [] = Unit
IsSorted (e ∷ es) = All (λ f. key e.fixnum < key f.fixnum) es × IsSorted es

pub All-map {ℓ} :
    {A : Type ℓ} {P Q : A → Type 0} → ((a : A) → P a → Q a) → (l : List A) → All P l → All Q l
All-map f [] h = tt
All-map f (a ∷ l) h = (f a (h.0), All-map f l (h.1))

pub All-parts {ℓ} :
    {A : Type ℓ} (P : A → Type 0) (a b : List A) → All P (a ++ b) → All P a × All P b
All-parts P [] b h = (tt, h)
All-parts P (x ∷ a) b h = let (u, w) = All-parts P a b (h.1) in ((h.0, u), w)

-- A middle case and those below and above it.
pub record Middle (a : List Entry) (c : Entry) (b : List Entry) : Type 0 where
  pub below : All (λ e. key e.fixnum < key c.fixnum) a
  pub above : All (λ e. key c.fixnum < key e.fixnum) b
  pub left : IsSorted a
  pub right : IsSorted b

pub IsSorted-Middle :
    (a : List Entry) (c : Entry) (b : List Entry) → IsSorted (a ++ (c ∷ b)) → Middle a c b
unfolding IsSorted
IsSorted-Middle [] c b s = record { below = tt; above = s.0; left = tt; right = s.1 }
IsSorted-Middle (e ∷ a) c b s =
    let m = IsSorted-Middle a c b (s.1) in
    let (u, w) = All-parts _ a (c ∷ b) (s.0) in
    record { below = (w.0, m.below); above = m.above; left = (u, m.left); right = m.right }
