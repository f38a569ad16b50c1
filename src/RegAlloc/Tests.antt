-- ===== src/RegAlloc/Tests.antt =====
-- src/cc/regalloc.c: runs on concrete intervals, and the theorems at inputs that meet their hypotheses.
use my9cc.RegAlloc.{
  LiveInterval, LiveIntervalState, normal, spill, const, Intervals, Scan, at, insert_active,
  expire_old_intervals, split_last, split_at_interval, find_free, expire, place, scan_one, scan_all,
  linear_scan_register_allocation,
}
use my9cc.RegAlloc.Frame.{mem}
use my9cc.RegAlloc.Safety.{IsSafe, Keeps}
use my9cc.RegAlloc.Correct.{IsSorted, linear_scan_register_allocation-IsSafe}
use my9cc.RegAlloc.Order.{IsByEnd}
use my9cc.Prelude.{
  ℕ, ◌≤◌, ◌≡◌, refl, Bool, true, false, Option, none, some, List, [], ◌∷◌, map, arith, ◌==◌, ◌>>=◌,
  ℕ_discrete,
}

abbrev interval : ℕ → ℕ → ℕ → LiveIntervalState → LiveInterval
interval v s e st = record { virt = v; start = s; end = e; state = st; phys = none }

-- Four integers, the second one long, a constant, and a floating-point number.
abbrev sample : Intervals
sample =
    interval 0 1 8 normal
    ∷ interval 1 2 20 normal
    ∷ interval 2 3 9 normal
    ∷ interval 3 3 5 const
    ∷ interval 4 4 6 normal
    ∷ interval 5 9 12 normal
    ∷ []

abbrev order : List ℕ
order = 0 ∷ 1 ∷ 2 ∷ 3 ∷ 4 ∷ 5 ∷ []

abbrev flonums : ℕ → Bool
flonums v = v == 4

-- With two registers, the long interval gives its register to the third one.
scan_runs :
    (linear_scan_register_allocation flonums 2 1 sample order >>= λ s.
    some (
      map {B = LiveIntervalState × Option ℕ} (λ (v : LiveInterval). (v.state, v.phys)) s.intervals))
    ≡ some (
        (normal, some 0)
        ∷ (spill, some 2)
        ∷ (normal, some 1)
        ∷ (const, none)
        ∷ (normal, some 0)
        ∷ (normal, some 0)
        ∷ [])
unfolding linear_scan_register_allocation scan_all scan_one place find_free expire
    expire_old_intervals insert_active split_at_interval split_last
scan_runs = refl

abbrev sample-IsSorted : IsSorted sample order
sample-IsSorted = record {
  distinct = (refl, (refl, (refl, (refl, (refl, (refl, tt))))));
  inside =
      (omega arith, (omega arith, (omega arith, (omega arith, (omega arith, (omega arith, tt))))));
  ascending =
      (omega arith, (omega arith, (omega arith, (omega arith, (omega arith, (omega arith, tt))))));
}

linear_scan_register_allocation-IsSafe_example :
    (s : Scan) × (linear_scan_register_allocation flonums 2 1 sample order ≡ some s)
    × Keeps flonums sample s.intervals
    × ((j : ℕ) → mem j order ≡ false → at s.intervals j ≡ at sample j)
    × IsSafe flonums s.intervals order 2 1
linear_scan_register_allocation-IsSafe_example =
    linear_scan_register_allocation-IsSafe flonums sample 2 1 (omega arith) (omega arith) order
      (omega arith) (omega arith) sample-IsSorted

sample-IsByEnd : IsByEnd sample (0 ∷ 2 ∷ [])
sample-IsByEnd = (λ q m. second q m, (λ q m. absurd (nothing m), tt))
  where
    nothing : false ≡ true → ⊥
    nothing e = cc

    second : (q : ℕ) → mem q (2 ∷ []) ≡ true → 8 ≤ (at sample q).end
    second q m = elim (ℕ_discrete q 2) [
      | yes e ↦ rw e (omega arith)
      | no ne ↦ absurd (ground arith)
    ]
