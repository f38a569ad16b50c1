-- ===== src/Codegen/Switch/Find.antt =====
-- src/cc/codegen.c: the case of a value, in any order of the cases.
use my9cc.Codegen.Switch.{Case, less, equal, compare_optional, compare_values, compare_cases}
use my9cc.Ir.Word.{word_sub}
use mathlib.Core.List.Memᴰ
use mathlib.Core.List.{Permᴰ, Memᴰ}
use my9cc.Prelude.{
  ℕ, suc, ◌+◌, ◌-◌, ◌%◌, ◌^◌, ◌≡◌, refl, Bool, true, false, Option, none, some, List, [], ◌∷◌, ◌==◌,
  if◌then◌else◌, length, All, ◌⊎◌, arith, sym, ◌∙◌, ap, inl, inr, Bool-cases, subst,
}

abbrev pub has_value : ℕ → Option ℕ → Bool
has_value v none = false
has_value v (some a) = v == a

-- The block of the first case of the value.
unfoldable pub find : ℕ → List Case → ℕ → ℕ
find v [] other = other
find v (c ∷ cs) other = if has_value v c.value then c.bb else find v cs other

-- Each case stands below all behind it.
unfoldable pub IsAscending : List Case → Type 0
IsAscending [] = Unit
IsAscending (c ∷ cs) = All (λ d. compare_cases c d ≡ less) cs × IsAscending cs

pub All-Memᴰ {ℓ} : {A : Type ℓ} (P : A → Type 0) {a : A} (l : List A) → All P l → Memᴰ a l → P a
All-Memᴰ P [] h m = absurd (Memᴰ.not-nil m)
All-Memᴰ P (x ∷ l) h m = elim (Memᴰ.cases_cons m) [
  | inl e ↦ subst P (sym e) (h.0)
  | inr n ↦ All-Memᴰ P l (h.1) n
]

pub Permᴰ-Memᴰ {ℓ} : {A : Type ℓ} {a : A} {l k : List A} → Permᴰ l k → Memᴰ a l → Memᴰ a k
Permᴰ-Memᴰ Permᴰ.nil m = m
Permᴰ-Memᴰ (Permᴰ.cons e p) m = elim (Memᴰ.cases_cons m) [
  | inl h ↦ Memᴰ.head (h ∙ e)
  | inr n ↦ Memᴰ.tail (Permᴰ-Memᴰ p n)
]
Permᴰ-Memᴰ (Permᴰ.swap e f) m = elim (Memᴰ.cases_cons m) [
  | inl h ↦ Memᴰ.tail (Memᴰ.head (h ∙ e))
  | inr n ↦ elim (Memᴰ.cases_cons n) [ inl h ↦ Memᴰ.head (h ∙ f) | inr o ↦ Memᴰ.tail (Memᴰ.tail o) ]
]
Permᴰ-Memᴰ (Permᴰ.trans p q) m = Permᴰ-Memᴰ q (Permᴰ-Memᴰ p m)

pub Permᴰ-length {ℓ} : {A : Type ℓ} {l k : List A} → Permᴰ l k → length l ≡ length k
Permᴰ-length Permᴰ.nil = refl
Permᴰ-length (Permᴰ.cons e p) = ap suc (Permᴰ-length p)
Permᴰ-length (Permᴰ.swap e f) = refl
Permᴰ-length (Permᴰ.trans p q) = Permᴰ-length p ∙ Permᴰ-length q

values_apart : (v a b : ℕ) → compare_values a b ≡ less → (v == b) ≡ true → (v == a) ≡ false
unfolding compare_values word_sub
values_apart v a b h e = elim (Bool-cases (v == a)) [
  | inl hit ↦
      let same : (a + 2 ^ 64 - b) % 2 ^ 64 == 0 ≡ true = ground arith in
      let split : compare_values a b ≡ equal = rw same refl in cc
  | inr miss ↦ miss
]

optional_apart :
    (v : ℕ) (a b : Option ℕ)
    → compare_optional a b ≡ less
    → has_value v b ≡ true
    → has_value v a ≡ false
optional_apart v none b h e = refl
optional_apart v (some a) none h e = cc
optional_apart v (some a) (some b) h e = values_apart v a b h e

-- What finding a value comes to: a case that has it, or the other block where none has.
pub record Found (v : ℕ) (l : List Case) (other : ℕ) : Type 0 where
  pub case : Case
  pub member : Memᴰ case l
  pub has : has_value v case.value ≡ true
  pub here : find v l other ≡ case.bb

pub record Missing (v : ℕ) (l : List Case) (other : ℕ) : Type 0 where
  pub lacks : (c : Case) → Memᴰ c l → has_value v c.value ≡ false
  pub elsewhere : find v l other ≡ other

find-cases : (v : ℕ) (l : List Case) (other : ℕ) → Found v l other ⊎ Missing v l other
unfolding find
find-cases v [] other = inr (record { lacks = λ c m. absurd (Memᴰ.not-nil m); elsewhere = refl })
find-cases v (c ∷ l) other = elim (Bool-cases (has_value v c.value)) [
  | inl hit ↦ inl (record { case = c; member = Memᴰ.head refl; has = hit; here = rw hit refl })
  | inr miss ↦ elim (find-cases v l other) [
    | inl f ↦
        inl (record {
          case = f.case;
          member = Memᴰ.tail f.member;
          has = f.has;
          here = rw miss f.here;
        })
    | inr n ↦ inr (record {
      lacks = λ d m. elim (Memᴰ.cases_cons m) [
        | inl e ↦ subst (λ x. has_value v x.value ≡ false) (sym e) miss
        | inr k ↦ n.lacks d k
      ];
      elsewhere = rw miss n.elsewhere;
    })
  ]
]

-- In ascending order, a member is the only one with its value.
find-Memᴰ :
    (v : ℕ) (l : List Case) (other : ℕ) (d : Case)
    → IsAscending l
    → Memᴰ d l
    → has_value v d.value ≡ true
    → find v l other ≡ d.bb
unfolding find IsAscending compare_cases
find-Memᴰ v [] other d s m h = absurd (Memᴰ.not-nil m)
find-Memᴰ v (c ∷ l) other d s m h = elim (Memᴰ.cases_cons m) [
  | inl e ↦
      let hit : has_value v c.value ≡ true = subst (λ x. has_value v x.value ≡ true) e h in
      rw hit (ap (λ x. x.bb) (sym e))
  | inr k ↦
      let below = All-Memᴰ (λ x. compare_cases c x ≡ less) l (s.0) k in
      let miss = optional_apart v c.value d.value below h in
      rw miss (find-Memᴰ v l other d (s.1) k h)
]

-- The order of the cases does not matter.
pub find-Permᴰ :
    (v : ℕ) (order cases : List Case) (other : ℕ)
    → Permᴰ order cases
    → Permᴰ cases order
    → IsAscending order
    → find v order other ≡ find v cases other
find-Permᴰ v order cases other p q s = elim (find-cases v cases other) [
  | inl f ↦ find-Memᴰ v order other f.case s (Permᴰ-Memᴰ q f.member) f.has ∙ sym f.here
  | inr n ↦ elim (find-cases v order other) [
    | inl g ↦ let lacks = n.lacks g.case (Permᴰ-Memᴰ p g.member) in let has = g.has in cc
    | inr k ↦ k.elsewhere ∙ sym n.elsewhere
  ]
]
