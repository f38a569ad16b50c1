-- ===== src/Ir/Cond.antt =====
-- src/cc/ir.c: `invert_cond`, on the numbers of `enum ConditionKind`.
use my9cc.Prelude.{
  ℕ, ◌+◌, ◌-◌, ◌≡◌, refl, Bool, true, false, not, ◌&&◌, ◌||◌, Option, none, some, leb,
  if◌then◌else◌, bit_xor, ◌⊎◌, inl, inr,
}

-- COND_NONE is 0, and so on to COND_UGT, which is 11.
pub data ConditionKind : Type 0 where
  never any eq ne lt le ge gt ult ule uge ugt : ConditionKind

abbrev pub code : ConditionKind → ℕ
code never = 0
code any = 1
code eq = 2
code ne = 3
code lt = 4
code le = 5
code ge = 6
code gt = 7
code ult = 8
code ule = 9
code uge = 10
code ugt = 11

-- The failed assertion is `none`.
pub invert_cond : ℕ → Option ℕ
invert_cond cond =
    if not (leb 2 cond && leb cond 11)
    then none
    else if leb cond 3
    then some (3 + 2 - cond)
    else if leb cond 8
    then some (4 + bit_xor (cond - 4) 2)
    else some (8 + bit_xor (cond - 8) 2)

-- Whether the condition holds after a comparison: of equal operands, of a left one that is less,
-- and of a left one that is less as an unsigned number.
abbrev pub holds : ConditionKind → Bool → Bool → Bool → Bool
holds never e l u = false
holds any e l u = true
holds eq e l u = e
holds ne e l u = not e
holds lt e l u = l
holds le e l u = l || e
holds ge e l u = not l
holds gt e l u = not (l || e)
holds ult e l u = u
holds ule e l u = u || e
holds uge e l u = not u
holds ugt e l u = not (u || e)

-- The condition that a test turns into.
pub record Inverts (c c' : ConditionKind) : Type 0 where
  pub run : invert_cond (code c) ≡ some (code c')
  pub back : invert_cond (code c') ≡ some (code c)
  pub opposite : (e l u : Bool) → holds c' e l u ≡ not (holds c e l u)

twice_negated : (b : Bool) → b ≡ not (not b)
twice_negated true = refl
twice_negated false = refl

-- Every condition but COND_NONE and COND_ANY, for which the assertion fails, is turned into the one
-- that holds exactly where it does not, and that one back.
pub invert_cond-Inverts :
    (c : ConditionKind)
    → (invert_cond (code c) ≡ none) × (leb 2 (code c) ≡ false)
      ⊎ ((c' : ConditionKind) × Inverts c c')
unfolding invert_cond
invert_cond-Inverts never = inl (refl, refl)
invert_cond-Inverts any = inl (refl, refl)
invert_cond-Inverts eq = inr (ne, record { run = refl; back = refl; opposite = λ e l u. refl })
invert_cond-Inverts ne =
    inr (eq, record { run = refl; back = refl; opposite = λ e l u. twice_negated e })
invert_cond-Inverts lt = inr (ge, record { run = refl; back = refl; opposite = λ e l u. refl })
invert_cond-Inverts le = inr (gt, record { run = refl; back = refl; opposite = λ e l u. refl })
invert_cond-Inverts ge =
    inr (lt, record { run = refl; back = refl; opposite = λ e l u. twice_negated l })
invert_cond-Inverts gt =
    inr (le, record { run = refl; back = refl; opposite = λ e l u. twice_negated (l || e) })
invert_cond-Inverts ult = inr (uge, record { run = refl; back = refl; opposite = λ e l u. refl })
invert_cond-Inverts ule = inr (ugt, record { run = refl; back = refl; opposite = λ e l u. refl })
invert_cond-Inverts uge =
    inr (ult, record { run = refl; back = refl; opposite = λ e l u. twice_negated u })
invert_cond-Inverts ugt =
    inr (ule, record { run = refl; back = refl; opposite = λ e l u. twice_negated (u || e) })
