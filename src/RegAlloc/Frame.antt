-- ===== src/RegAlloc/Frame.antt =====
-- src/cc/regalloc.c: the array of active intervals as a set, and the bits of the registers in use.
use my9cc.RegAlloc.{Intervals, Bits, at, bit, insert_active, split_last, find_free, no_bits}
use my9cc.Prelude.{
  ℕ, zero, suc, ◌+◌, ◌≤◌, ◌<◌, ◌≡◌, refl, ◌⊎◌, inl, inr, Bool, true, false, ◌||◌, some, List, [],
  ◌∷◌, arith, ◌==◌, ltb, length, set, ap, ℕ_discrete, Bool-cases,
}

abbrev pub mem : ℕ → List ℕ → Bool
mem i [] = false
mem i (x ∷ xs) = i == x || mem i xs

abbrev pub Distinct : List ℕ → Type 0
Distinct [] = Unit
Distinct (x ∷ xs) = (mem x xs ≡ false) × Distinct xs

pub mem-insert_active :
    (ivs : Intervals) (ps : List ℕ) (li i : ℕ)
    → mem i (insert_active ivs ps li) ≡ (i == li || mem i ps)
unfolding insert_active
mem-insert_active ivs [] li i = refl
mem-insert_active ivs (p ∷ ps) li i = ground (arith, mem-insert_active ivs ps li i)

pub length-insert_active :
    (ivs : Intervals) (ps : List ℕ) (li : ℕ) → length (insert_active ivs ps li) ≡ suc (length ps)
unfolding insert_active
length-insert_active ivs [] li = refl
length-insert_active ivs (p ∷ ps) li = ground (arith, length-insert_active ivs ps li)

pub Distinct-insert_active :
    (ivs : Intervals) (ps : List ℕ) (li : ℕ)
    → Distinct ps
    → mem li ps ≡ false
    → Distinct (insert_active ivs ps li)
unfolding insert_active
Distinct-insert_active ivs [] li d m = (refl, tt)
Distinct-insert_active ivs (p ∷ ps) li d m =
    elim (Bool-cases (ltb (at ivs li).end (at ivs p).end)) [
      | inl first ↦ rw first (m, d)
      | inr later ↦ rw later (
        ground (arith, mem-insert_active ivs ps li p, d.0),
        Distinct-insert_active ivs ps li d.1 (ground arith),
      )
    ]

-- The parts of `active` that `split_at_interval` works on.
pub record Splits (active front : List ℕ) (last : ℕ) : Type 0 where
  pub run : split_last active ≡ some (front, last)
  pub members : (i : ℕ) → mem i active ≡ (i == last || mem i front)
  pub size : length active ≡ suc (length front)
  pub apart : Distinct active → (mem last front ≡ false) × Distinct front

pub split_last-Splits :
    (p : ℕ) (ps : List ℕ) → (front : List ℕ) × (last : ℕ) × Splits (p ∷ ps) front last
unfolding split_last
split_last-Splits p [] =
    ([], p, record { run = refl; members = λ i. refl; size = refl; apart = λ d. (refl, tt) })
split_last-Splits p (q ∷ ps) =
    let (front, last, s) = split_last-Splits q ps in
    (
      p ∷ front,
      last,
      record {
        run = rw s.run;
        members = λ i. ground (arith, s.members i);
        size = ap suc s.size;
        apart = λ d. ground (arith, s.members p, s.members last, s.apart, d);
      },
    )

pub count_true : Bits → ℕ
count_true [] = 0
count_true (true ∷ bs) = suc (count_true bs)
count_true (false ∷ bs) = count_true bs

pub count_true-no_bits : count_true no_bits ≡ 0
unfolding count_true
count_true-no_bits = refl

pub count_true-set-false :
    (bs : Bits) (r : ℕ) → bit bs r ≡ true → suc (count_true (set bs r false)) ≡ count_true bs
unfolding count_true
count_true-set-false [] r h = cc
count_true-set-false (true ∷ bs) zero h = refl
count_true-set-false (false ∷ bs) zero h = cc
count_true-set-false (true ∷ bs) (suc r) h = ap suc (count_true-set-false bs r h)
count_true-set-false (false ∷ bs) (suc r) h = count_true-set-false bs r h

pub count_true-set-true :
    (bs : Bits) (r : ℕ)
    → r < length bs
    → bit bs r ≡ false
    → count_true (set bs r true) ≡ suc (count_true bs)
unfolding count_true
count_true-set-true [] r lt h = absurd (omega arith)
count_true-set-true (true ∷ bs) zero lt h = cc
count_true-set-true (false ∷ bs) zero lt h = refl
count_true-set-true (true ∷ bs) (suc r) lt h = ap suc (count_true-set-true bs r (omega arith) h)
count_true-set-true (false ∷ bs) (suc r) lt h = count_true-set-true bs r (omega arith) h

pub lt-length_of_bit : (bs : Bits) (r : ℕ) → bit bs r ≡ true → r < length bs
lt-length_of_bit [] r h = cc
lt-length_of_bit (b ∷ bs) zero h = omega arith
lt-length_of_bit (b ∷ bs) (suc r) h = omega (arith, lt-length_of_bit bs r h)

-- When all of `n` bits are set, at least `n` are.
all_set : (bs : Bits) (n : ℕ) → ((j : ℕ) → j < n → bit bs j ≡ true) → n ≤ count_true bs
unfolding count_true
all_set bs zero h = omega arith
all_set [] (suc n) h = absurd (no_bit (h 0 (omega arith)))
  where
    no_bit : false ≡ true → ⊥
    no_bit e = cc
all_set (b ∷ bs) (suc n) h =
    let rest = all_set bs n (λ j lt. h (suc j) (omega arith)) in
    let first : b ≡ true = h 0 (omega arith) in rw first (omega arith)

-- The search for a register: a clear bit below the bound, or all are set.
find_free_cases :
    (bs : Bits) (n j : ℕ)
    → ((r : ℕ) × (find_free bs n j ≡ some r) × (r < j + n) × (bit bs r ≡ false))
      ⊎ ((k : ℕ) → j ≤ k → k < j + n → bit bs k ≡ true)
unfolding find_free
find_free_cases bs zero j = inr (λ k p q. absurd (omega arith))
find_free_cases bs (suc n) j = elim (Bool-cases (bit bs j)) [
  | inr clear ↦ inl (j, rw clear, omega arith, clear)
  | inl set_here ↦ elim (find_free_cases bs n (j + 1)) [
    | inl (r, run, lt, clear) ↦ inl (r, rw set_here run, omega arith, clear)
    | inr all ↦ inr (λ k p q. beyond all set_here k p q)
  ]
]
  where
    beyond :
        ((k : ℕ) → j + 1 ≤ k → k < j + 1 + n → bit bs k ≡ true)
        → bit bs j ≡ true
        → (k : ℕ) → j ≤ k
        → k < j + suc n
        → bit bs k ≡ true
    beyond all here k p q = elim (ℕ_discrete j k) [
      | yes e ↦ rw (← e) here
      | no ne ↦ all k (omega arith) (omega arith)
    ]

-- With fewer than `n` bits set, the search finds a register.
pub find_free_finds :
    (bs : Bits) (n : ℕ)
    → count_true bs < n
    → (r : ℕ) × (find_free bs n 0 ≡ some r) × (r < n) × (bit bs r ≡ false)
find_free_finds bs n h = elim (find_free_cases bs n 0) [
  | inl (r, run, lt, clear) ↦ (r, run, omega arith, clear)
  | inr all ↦ absurd (omega (arith, all_set bs n (λ j lt. all j (omega arith) (omega arith))))
]
