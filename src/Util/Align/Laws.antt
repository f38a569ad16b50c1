-- ===== src/Util/Align/Laws.antt =====
-- util.h: what ALIGN computes for the alignments that the sources pass, powers of two.
use native.Mathlib.Nat.{one-le-pow, mod-lt, mod-eq_of_lt, mod-add-mod, div-add-mod', mul-mod_left}
use my9cc.Prelude.{
  bit_and, sym, ap, ◌∙◌, order_cases, inl, inr, ℕ, ◌+◌, ◌-◌, ◌*◌, ◌/◌, ◌%◌, ◌^◌, ◌≤◌, ◌<◌, ◌≡◌,
  arith,
}
use my9cc.Prelude.Bits.{bit_and-negated_power}
use my9cc.Util.Align.{align_up}

-- ALIGN rounds `x + 2 ^ k - 1` down to a multiple of the alignment, when nothing wraps.
align_up-div :
    (j k x : ℕ)
    → x + 2 ^ k ≤ 2 ^ (j + k)
    → align_up (j + k) x (2 ^ k) ≡ (x + 2 ^ k - 1) / 2 ^ k * 2 ^ k
unfolding align_up
align_up-div j k x h =
    let positive : 1 ≤ 2 ^ k = one-le-pow k 2 (omega arith) in
    let sum : (x + 2 ^ k + (2 ^ (j + k) - 1)) % 2 ^ (j + k) ≡ x + 2 ^ k - 1 = grind arith in
    let mask : (2 ^ (j + k) - 2 ^ k) % 2 ^ (j + k) ≡ 2 ^ (j + k) - 2 ^ k =
      mod-eq_of_lt (omega arith) in
    rw (sum, mask) (bit_and-negated_power j k (x + 2 ^ k - 1) (omega arith))

-- r is the least multiple of `align` that is not below x
pub record IsAligned (x align r : ℕ) : Type 0 where
  pub above : x ≤ r
  pub below : r < x + align
  pub multiple : r % align ≡ 0

-- ALIGN in a word of w bits, at the alignment 2 ^ k, returns the least multiple of the alignment
-- that is not below x, provided that x + 2 ^ k does not exceed 2 ^ w.
pub align_up-IsAligned :
    (w k x : ℕ) → k ≤ w → x + 2 ^ k ≤ 2 ^ w → IsAligned x (2 ^ k) (align_up w x (2 ^ k))
align_up-IsAligned w k x hk hx =
    let split : (w - k) + k ≡ w = omega arith in
    let fits : x + 2 ^ k ≤ 2 ^ ((w - k) + k) = rw split hx in
    let positive : 1 ≤ 2 ^ k = one-le-pow k 2 (omega arith) in
    let e : align_up w x (2 ^ k) ≡ (x + 2 ^ k - 1) / 2 ^ k * 2 ^ k =
      rw split at (align_up-div (w - k) k x fits) in
    let whole = div-add-mod' (x + 2 ^ k - 1) (2 ^ k) in
    let small = mod-lt (x + 2 ^ k - 1) positive in
    rw e (record { above = omega arith; below = omega arith; multiple = mul-mod_left _ (2 ^ k) })

-- A multiple does not change the rest.
rest_after : (a b align : ℕ) → a % align ≡ 0 → (a + b) % align ≡ b % align
rest_after a b align h =
    let none_left : 0 + b ≡ b = omega arith in
    sym (mod-add-mod a align b)
    ∙ ap (λ (t : ℕ). (t + b) % align) h
    ∙ ap (λ (t : ℕ). t % align) none_left

no_later : (x align r s : ℕ) → IsAligned x align r → IsAligned x align s → r < s → ◌≡◌ {A = ℕ} 0 1
no_later x align r s u v h =
    let d = s - r in
    let apart : r + d ≡ s = omega arith in
    let less : d < align = omega (arith, u.above, v.below) in
    let rest : d % align ≡ d = mod-eq_of_lt less in
    let sum : (r + d) % align ≡ d % align = rest_after r d align u.multiple in
    let gone : d ≡ 0 = sym rest ∙ sym sum ∙ ap (λ (t : ℕ). t % align) apart ∙ v.multiple in
    absurd (omega arith)

-- There is one least multiple.
pub IsAligned-unique : (x align r s : ℕ) → IsAligned x align r → IsAligned x align s → r ≡ s
IsAligned-unique x align r s u v = elim (order_cases r s) [
  | inl less ↦ absurd (omega (arith, no_later x align r s u v less))
  | inr (inl more) ↦ absurd (omega (arith, no_later x align s r v u more))
  | inr (inr same) ↦ same
]

-- Offsets from a multiple are aligned as the sums are.
pub IsAligned-shift :
    (start x align r : ℕ)
    → start % align ≡ 0
    → IsAligned x align r
    → IsAligned (start + x) align (start + r)
IsAligned-shift start x align r h u = record {
  above = omega (arith, u.above);
  below = omega (arith, u.below);
  multiple = rest_after start r align h ∙ u.multiple;
}

-- ALIGN gives a multiple, also where the sum wraps.
pub align_up-multiple : (w k x : ℕ) → k ≤ w → align_up w x (2 ^ k) % 2 ^ k ≡ 0
unfolding align_up
align_up-multiple w k x h =
    let split : (w - k) + k ≡ w = omega arith in
    let above : 1 ≤ 2 ^ w = one-le-pow w 2 (omega arith) in
    let positive : 1 ≤ 2 ^ k = one-le-pow k 2 (omega arith) in
    let mask : (2 ^ w - 2 ^ k) % 2 ^ w ≡ 2 ^ w - 2 ^ k = mod-eq_of_lt (omega arith) in
    let sum = (x + 2 ^ k + (2 ^ w - 1)) % 2 ^ w in
    let low : sum < 2 ^ w = mod-lt _ above in
    let cut : bit_and sum (2 ^ w - 2 ^ k) ≡ sum / 2 ^ k * 2 ^ k =
      rw split at (bit_and-negated_power (w - k) k sum (rw split low)) in
    rw (mask, cut) (mul-mod_left _ (2 ^ k))
