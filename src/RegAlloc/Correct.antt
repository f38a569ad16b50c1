-- ===== src/RegAlloc/Correct.antt =====
-- src/cc/regalloc.c: `linear_scan_register_allocation` as a whole.
use my9cc.RegAlloc.{
  Intervals, Scan, at, scan_one, scan_all, new_info, linear_scan_register_allocation,
}
use my9cc.RegAlloc.Frame.{mem, Distinct, count_true-no_bits}
use my9cc.RegAlloc.Safety.{Tracks, IsSafe, Keeps}
use my9cc.RegAlloc.LinearScan.{Invariant, Next, scan_one-Scanned}
use my9cc.Prelude.{
  ℕ, ◌≤◌, ◌<◌, ◌≡◌, refl, Bool, true, false, ◌||◌, some, List, [], ◌∷◌, arith, length, All,
}

-- The intervals come in the order of their starts, from `pos` on.
abbrev pub IsAscending : Intervals → ℕ → List ℕ → Type 0
IsAscending ivs pos [] = Unit
IsAscending ivs pos (i ∷ is) = (pos ≤ (at ivs i).start) × IsAscending ivs (at ivs i).start is

-- A list of intervals that the scan takes: each once, all of the array, in order.
pub record IsSorted (ivs : Intervals) (sorted : List ℕ) : Type 0 where
  pub distinct : Distinct sorted
  pub inside : All (λ i. i < length ivs) sorted
  pub ascending : IsAscending ivs 0 sorted

IsAscending-le :
    (ivs : Intervals) (p q : ℕ) (is : List ℕ) → p ≤ q → IsAscending ivs q is → IsAscending ivs p is
IsAscending-le ivs p q [] h a = tt
IsAscending-le ivs p q (i ∷ is) h (le, a) = (omega arith, a)

module _ (is_flonum : ℕ → Bool) (first : Intervals) (phys_max fphys_max : ℕ)
    (some_int : 0 < phys_max) (some_flo : 0 < fphys_max) where
  -- The end of the scan: everything in `rest` is done as well.
  abbrev Finished : Scan → List ℕ → List ℕ → Type 0
  Finished s rest done =
      (s' : Scan) × (all : List ℕ) × (pos : ℕ) × (scan_all is_flonum s rest ≡ some s')
      × Invariant is_flonum first phys_max fphys_max all pos s'
      × ((i : ℕ) → mem i all ≡ (mem i rest || mem i done))

  run_next :
      (s s' s'' : Scan) (li : ℕ) (rest : List ℕ)
      → scan_one is_flonum s li ≡ some s'
      → scan_all is_flonum s' rest ≡ some s''
      → scan_all is_flonum s (li ∷ rest) ≡ some s''
  unfolding scan_all
  run_next s s' s'' li rest e f = rw (e, f)

  run_end : (s : Scan) → scan_all is_flonum s [] ≡ some s
  unfolding scan_all
  run_end s = refl

  run-Finished :
      (rest done : List ℕ) (pos : ℕ) (s : Scan)
      → Invariant is_flonum first phys_max fphys_max done pos s
      → Distinct rest
      → ((i : ℕ) → mem i rest ≡ true → mem i done ≡ false)
      → All (λ i. i < length first) rest
      → IsAscending first pos rest
      → Finished s rest done
  run-Finished [] done pos s inv d apart inside up = (s, done, pos, run_end s, inv, λ i. refl)
  run-Finished (li ∷ rest) done pos s inv d apart inside up =
      let next : Next is_flonum first done pos li = record {
        fresh = apart li (ground arith);
        inside = inside.0;
        ahead = up.0;
      } in
      let (s', pos', run, le, inv') = scan_one-Scanned is_flonum inv next some_int some_flo in
      let (s'', all, pos'', runs, inv'', members) =
        run-Finished rest (li ∷ done) pos' s' inv' d.1 later inside.1
          (IsAscending-le first pos' (at first li).start rest le up.1) in
      (s'', all, pos'', run_next s s' s'' li rest run runs, inv'', λ i. ground (arith, members i))
    where
      later : (i : ℕ) → mem i rest ≡ true → mem i (li ∷ done) ≡ false
      later i m = ground (arith, apart i, d.0)

  no-Tracks : (b : Bool) (n : ℕ) → n ≤ 16 → Tracks is_flonum first [] 0 b (new_info n)
  no-Tracks b n h = record {
    width = refl;
    narrow = h;
    counted = count_true-no_bits;
    distinct = tt;
    apart = λ i j m. absurd (nothing m);
    members = λ i m. absurd (nothing m);
    expired = λ i m. absurd (nothing m);
  }
    where
      nothing : false ≡ true → ⊥
      nothing e = cc

  start-Invariant :
      phys_max ≤ 16
      → fphys_max ≤ 16
      → Invariant is_flonum first phys_max fphys_max [] 0
          (record { intervals = first; ireg = new_info phys_max; freg = new_info fphys_max })
  start-Invariant h k = record {
    ints = no-Tracks false phys_max h;
    flos = no-Tracks true fphys_max k;
    int_registers = refl;
    flo_registers = refl;
    keeps = record { size = refl; virt = λ _. refl; start = λ _. refl; end = λ _. refl };
    rest = λ _ _. refl;
    safe = record { disjoint = λ i j m. absurd (nothing m); assigned = λ i m. absurd (nothing m) };
  }
    where
      nothing : false ≡ true → ⊥
      nothing e = cc

  -- On a sorted list of intervals of the array, with one to sixteen registers of each class, the
  -- scan ends without a failed assertion. It changes only registers and states, and of what is not
  -- in the list nothing. Of the intervals in the list that are LI_NORMAL in the end, each has a register
  -- of its class below the number of registers, and two of one class that overlap have different
  -- ones.
  pub linear_scan_register_allocation-IsSafe :
      (sorted : List ℕ)
      → phys_max ≤ 16
      → fphys_max ≤ 16
      → IsSorted first sorted
      → (s : Scan) × (linear_scan_register_allocation is_flonum phys_max fphys_max first sorted
          ≡ some s)
        × Keeps is_flonum first s.intervals
        × ((j : ℕ) → mem j sorted ≡ false → at s.intervals j ≡ at first j)
        × IsSafe is_flonum s.intervals sorted phys_max fphys_max
  unfolding linear_scan_register_allocation
  linear_scan_register_allocation-IsSafe sorted h k o =
      let (s, all, pos, run, inv, members) =
        run-Finished sorted [] 0
          (record { intervals = first; ireg = new_info phys_max; freg = new_info fphys_max })
          (start-Invariant h k) o.distinct (λ i m. refl) o.inside o.ascending in
      (
        s,
        run,
        inv.keeps,
        λ j out. inv.rest j (ground (arith, members j)),
        record {
          disjoint = λ i j m n.
              inv.safe.disjoint i j (ground (arith, members i)) (ground (arith, members j));
          assigned = λ i m. inv.safe.assigned i (ground (arith, members i));
        },
      )
