-- ===== src/Codegen/Switch/Ordered.antt =====
-- src/cc/codegen.c: the cases of a switch in the order that `gen_switch_cond` puts them in.
use my9cc.Codegen.Switch.{
  Case, Entry, less, equal, greater, compare_optional, compare_values, compare_cases, entries,
  Switch, other_bb,
}
use my9cc.Codegen.Switch.Sorted.{key, look, IsSorted, All-parts}
use my9cc.Codegen.Switch.Bisects.{Words, Before}
use my9cc.Codegen.Switch.Find.{find, IsAscending, All-Memᴰ}
use my9cc.Ir.Word.{word_sub, negative}
use my9cc.Ir.Bop.{clamp_value}
use mathlib.Core.List.Memᴰ
use mathlib.Core.List.{Memᴰ}
use my9cc.Prelude.{
  ℕ, suc, ◌+◌, ◌-◌, ◌*◌, ◌%◌, ◌^◌, ◌≤◌, ◌<◌, ◌≡◌, ◌≢◌, refl, false, Option, none, some, List, [],
  ◌∷◌, ◌++◌, ◌==◌, length, All, ◌⊎◌, arith, sym, ◌∙◌, ap, inl, inr, Bool-cases, subst,
}

-- The `size` low bytes of a number, extended with their sign.
abbrev pub signed_at : ℕ → ℕ → ℕ
signed_at size n = clamp_value n (record { size = size; is_unsigned = false })

-- Values that fit in `size` bytes with their signs.
unfoldable pub AllShort : ℕ → List Entry → Type 0
AllShort size es = All (λ e. signed_at size e.fixnum ≡ e.fixnum) es

-- A value whose difference to another one does not overflow: between -2^62 and 2^62.
abbrev pub Moderate : ℕ → Type 0
Moderate a = (a < 2 ^ 64) × (2 ^ 62 ≤ key a) × (key a < 3 * 2 ^ 62)

-- The case of a value that fits in `size` bytes with its sign, made before the block `base`.
pub record IsValued (size base : ℕ) (c : Case) : Type 0 where
  pub number : ℕ
  pub is_value : c.value ≡ some number
  pub moderate : Moderate number
  pub fits : signed_at size number ≡ number
  pub before : c.bb < base

difference_order :
    (a b : ℕ) → Moderate a → Moderate b → 2 ^ 63 ≤ (a + 2 ^ 64 - b) % 2 ^ 64 → key a < key b
difference_order a b (h0, h1, h2) (k0, k1, k2) far = omega arith

values_order : (a b : ℕ) → Moderate a → Moderate b → compare_values a b ≡ less → key a < key b
unfolding compare_values word_sub
values_order a b h k e =
    let low = h.1 in
    let high = k.1 in
    elim (Bool-cases ((a + 2 ^ 64 - b) % 2 ^ 64 == 0)) [
      | inl same ↦ let split : compare_values a b ≡ equal = rw same refl in cc
      | inr apart ↦ elim (Bool-cases (negative ((a + 2 ^ 64 - b) % 2 ^ 64))) [
        | inl less_than ↦
            let far : 2 ^ 63 ≤ (a + 2 ^ 64 - b) % 2 ^ 64 = ground arith in
            difference_order a b h k far
        | inr more ↦ let split : compare_values a b ≡ greater = rw (apart, more) refl in cc
      ]
    ]

cases_order :
    (size base : ℕ) (c d : Case) (h : IsValued size base c) (k : IsValued size base d)
    → compare_cases c d ≡ less
    → key h.number < key k.number
unfolding compare_cases
cases_order size base c d h k e = values_order h.number k.number h.moderate k.moderate (
    ap (λ t. compare_optional t (some k.number)) (sym h.is_value)
    ∙ ap (λ t. compare_optional c.value t) (sym k.is_value)
    ∙ e)

-- The entries of cases with values.
pub record Entered (z v other base : ℕ) (l : List Case) : Type 0 where
  pub list : List Entry
  pub read : entries l ≡ some list
  pub size : length list ≡ length l
  pub words : Words list
  pub short : AllShort z list
  pub blocks : Before base list
  pub sorted : IsSorted list
  pub same : find v l other ≡ look v list other
  pub above :
      (c : Case)
      → (h : IsValued z base c) → All (λ d. compare_cases c d ≡ less) l
      → All (λ e. key h.number < key e.fixnum) list

pub entries-Entered :
    (size v other base : ℕ) (l : List Case)
    → IsAscending l
    → ((c : Case) → Memᴰ c l → IsValued size base c)
    → Entered size v other base l
unfolding find IsAscending IsSorted Words Before AllShort
entries-Entered size v other base [] s h = record {
  list = [];
  read = refl;
  size = refl;
  words = tt;
  short = tt;
  blocks = tt;
  sorted = tt;
  same = refl;
  above = λ c h k. tt;
}
entries-Entered size v other base (c ∷ l) s h =
    let mine = h c (Memᴰ.head refl) in
    let rest = entries-Entered size v other base l (s.1) (λ d m. h d (Memᴰ.tail m)) in
    record {
      list = record { fixnum = mine.number; bb = c.bb } ∷ rest.list;
      read = rw mine.is_value (rw rest.read refl);
      size = ap suc rest.size;
      words = (mine.moderate.0, rest.words);
      short = (mine.fits, rest.short);
      blocks = (mine.before, rest.blocks);
      sorted = (rest.above c mine (s.0), rest.sorted);
      same = rw mine.is_value (rw rest.same refl);
      above = λ d k ds. (cases_order size base d c k mine (ds.0), rest.above d k (ds.1));
    }

-- The default, where there is one, is the case without a value.
abbrev pub IsDefault : Option Case → List Case → Type 0
IsDefault none cases = (c : Case) → Memᴰ c cases → c.value ≢ none
IsDefault (some d) cases = Memᴰ d cases × (d.value ≡ none)

-- A switch as the parser leaves it, after the blocks below `base` were made.
pub record IsSwitch (base : ℕ) (sw : Switch) : Type 0 where
  pub valued : All (λ c. (c.value ≡ none) ⊎ IsValued sw.size base c) sw.cases
  pub default_case : IsDefault sw.default_ sw.cases
  pub other_before : other_bb sw < base

optional_value : (a b : Option ℕ) → compare_optional a b ≡ less → a ≢ none
optional_value none b e n = cc
optional_value (some a) b e n = cc

-- The default is the last.
pub record Last (d : Case) (l : List Case) : Type 0 where
  pub front : List Case
  pub whole : l ≡ front ++ (d ∷ [])
  pub ascending : IsAscending front
  pub values : (c : Case) → Memᴰ c front → c.value ≢ none

nothing_above :
    (c : Case) (l : List Case) → c.value ≡ none → All (λ d. compare_cases c d ≡ less) l → l ≡ []
unfolding compare_cases
nothing_above c [] e h = refl
nothing_above c (d ∷ l) e h = absurd (optional_value c.value d.value (h.0) e)

pub default-Last : (d : Case) (l : List Case) → IsAscending l → Memᴰ d l → d.value ≡ none → Last d l
unfolding IsAscending compare_cases
default-Last d [] s m e = absurd (Memᴰ.not-nil m)
default-Last d (c ∷ l) s m e = elim (Memᴰ.cases_cons m) [
  | inl same ↦
      let bare : c.value ≡ none = ap (λ x. x.value) (sym same) ∙ e in
      record {
        front = [];
        whole = ap (λ k. c ∷ k) (nothing_above c l bare (s.0)) ∙ ap (λ x. x ∷ []) (sym same);
        ascending = tt;
        values = λ x n. absurd (Memᴰ.not-nil n);
      }
  | inr n ↦
      let r = default-Last d l (s.1) n e in
      let below = All-Memᴰ (λ x. compare_cases c x ≡ less) l (s.0) n in
      let parts =
        All-parts (λ x. compare_cases c x ≡ less) r.front (d ∷ [])
          (subst (λ k. All (λ x. compare_cases c x ≡ less) k) r.whole (s.0)) in
      record {
        front = c ∷ r.front;
        whole = ap (λ k. c ∷ k) r.whole;
        ascending = (parts.0, r.ascending);
        values = λ x k. elim (Memᴰ.cases_cons k) [
          | inl same ↦
              λ bare. optional_value c.value d.value below (ap (λ y. y.value) (sym same) ∙ bare)
          | inr o ↦ r.values x o
        ];
      }
]

pub find-default :
    (v other : ℕ) (d : Case) (l : List Case)
    → d.value ≡ none
    → find v (l ++ (d ∷ [])) other ≡ find v l other
unfolding find
find-default v other d [] e = rw e refl
find-default v other d (c ∷ l) e = rw (find-default v other d l e) refl
