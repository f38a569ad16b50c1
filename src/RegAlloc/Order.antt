-- ===== src/RegAlloc/Order.antt =====
-- src/cc/regalloc.c: the array of active intervals stays in the order of their ends.
use my9cc.RegAlloc.{Intervals, Bits, at, clear_bit, insert_active, expire_old_intervals}
use my9cc.RegAlloc.Frame.{mem}
use my9cc.Prelude.{
  ℕ, ◌≤◌, ◌≡◌, refl, inl, inr, true, false, ◌&&◌, ◌||◌, List, [], ◌∷◌, arith, ◌==◌, ltb, Bool-cases,
  ℕ_discrete,
}

abbrev pub IsByEnd : Intervals → List ℕ → Type 0
IsByEnd ivs [] = Unit
IsByEnd ivs (p ∷ ps) =
    ((q : ℕ) → mem q ps ≡ true → (at ivs p).end ≤ (at ivs q).end) × IsByEnd ivs ps

-- insert_active keeps the array in the order of the ends, and adds exactly the new interval.
pub insert_active-IsByEnd :
    (ivs : Intervals) (active : List ℕ) (li : ℕ)
    → IsByEnd ivs active
    → IsByEnd ivs (insert_active ivs active li)
      × ((i : ℕ) → mem i (insert_active ivs active li) ≡ (i == li || mem i active))
unfolding insert_active
insert_active-IsByEnd ivs [] li o = ((λ q m. absurd (nothing m), tt), λ i. refl)
  where
    nothing : false ≡ true → ⊥
    nothing e = cc
insert_active-IsByEnd ivs (p ∷ ps) li o = elim (Bool-cases (ltb (at ivs li).end (at ivs p).end)) [
  | inl first ↦ rw first (
    (
      λ q m. elim (ℕ_discrete q p) [ yes e ↦ rw e (ground arith) | no ne ↦ ground (arith, o.0 q) ],
      o,
    ),
    λ i. refl,
  )
  | inr later ↦
      let (sorted, members) = insert_active-IsByEnd ivs ps li o.1 in
      rw later (
        (
          λ q m. elim (ℕ_discrete q li) [
            | yes e ↦ rw e (ground arith)
            | no ne ↦ o.0 q (ground (arith, members q))
          ],
          sorted,
        ),
        λ i. ground (arith, members i),
      )
]

-- On an array in the order of the ends, expire_old_intervals keeps exactly the intervals that end
-- behind `start`, and they stay in order.
pub expire_old_intervals-live :
    (ivs : Intervals) (active : List ℕ) (bits : Bits) (start : ℕ)
    → IsByEnd ivs active
    → ((i : ℕ)
        → mem i (expire_old_intervals ivs active bits start).0
          ≡ (mem i active && ltb start (at ivs i).end))
      × IsByEnd ivs (expire_old_intervals ivs active bits start).0
unfolding expire_old_intervals
expire_old_intervals-live ivs [] bits start o = (λ i. refl, tt)
expire_old_intervals-live ivs (p ∷ ps) bits start o = elim (Bool-cases (ltb start (at ivs p).end)) [
  | inl live ↦ rw live (λ i. all_live i live (ℕ_discrete i p), o)
  | inr over ↦
      let (members, sorted) =
        expire_old_intervals-live ivs ps (clear_bit bits (at ivs p).phys) start o.1 in
      rw over (
        λ i. elim (ℕ_discrete i p) [
          | yes e ↦ rw e (ground (arith, members p))
          | no ne ↦ ground (arith, members i)
        ],
        sorted,
      )
]
  where
    all_live :
        (i : ℕ)
        → ltb start (at ivs p).end ≡ true
        → Dec (i ≡ p)
        → mem i (p ∷ ps) ≡ (mem i (p ∷ ps) && ltb start (at ivs i).end)
    all_live i live (yes e) = rw e (ground arith)
    all_live i live (no ne) = ground (arith, o.0 i)
