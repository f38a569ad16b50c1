-- ===== src/Table/Entries.antt =====
-- src/util/table.c: arrays of entries as finite maps, whatever the order of the entries.
use my9cc.Table.{Value, Entry, blank, at, is_null}
use my9cc.Prelude.{
  ℕ, zero, suc, ◌+◌, ◌≤◌, ◌<◌, ◌≡◌, refl, inl, inr, Bool, true, false, not, Option, none, some,
  List, [], ◌∷◌, ◌==◌, if◌then◌else◌, set, length, arith, replicate, get_or-set_self, Bool-cases,
}

-- Neither live nor a tombstone: a probe stops here.
abbrev pub is_free : Entry → Bool
is_free e = elim e.key [ none ↦ is_null e.value | some _ ↦ false ]

abbrev pub holds : ℕ → Entry → Bool
holds k e = elim e.key [ none ↦ false | some j ↦ j == k ]

-- A probe for `k` passes by this entry.
abbrev pub skips : ℕ → Entry → Bool
skips k e = elim e.key [ none ↦ not (is_null e.value) | some j ↦ not (j == k) ]

abbrev pub to_nat : Bool → ℕ
to_nat true = 1
to_nat false = 0

-- How many entries hold the key.
unfoldable pub occurrences : ℕ → List Entry → ℕ
occurrences k [] = 0
occurrences k (e ∷ es) = to_nat (holds k e) + occurrences k es

-- How many entries are not free.
unfoldable pub used : List Entry → ℕ
used [] = 0
used (e ∷ es) = to_nat (not (is_free e)) + used es

-- The abstract map: the value under a key.
unfoldable pub view : List Entry → ℕ → Option Value
view [] k = none
view (e ∷ es) k = if holds k e then some e.value else view es k

pub occurrences-set :
    (k : ℕ) (es : List Entry) (i : ℕ) (e : Entry)
    → i < length es
    → occurrences k (set es i e) + to_nat (holds k (at es i))
      ≡ occurrences k es + to_nat (holds k e)
unfolding occurrences
occurrences-set k [] i e h = absurd (omega arith)
occurrences-set k (x ∷ es) zero e h = omega arith
occurrences-set k (x ∷ es) (suc i) e h = omega (arith, occurrences-set k es i e (omega arith))

pub used-set :
    (es : List Entry) (i : ℕ) (e : Entry)
    → i < length es
    → used (set es i e) + to_nat (not (is_free (at es i))) ≡ used es + to_nat (not (is_free e))
unfolding used
used-set [] i e h = absurd (omega arith)
used-set (x ∷ es) zero e h = omega arith
used-set (x ∷ es) (suc i) e h = omega (arith, used-set es i e (omega arith))

pub view-absent : (k : ℕ) (es : List Entry) → occurrences k es ≡ 0 → view es k ≡ none
unfolding occurrences view
view-absent k [] h = refl
view-absent k (e ∷ es) h = ground (arith, view-absent k es)

pub occurs-at : (k : ℕ) (es : List Entry) (i : ℕ) → holds k (at es i) ≡ true → 1 ≤ occurrences k es
unfolding occurrences
occurs-at k [] i h = ground arith
occurs-at k (e ∷ es) zero h = ground arith
occurs-at k (e ∷ es) (suc i) h = omega (arith, occurs-at k es i h)

pub view-at :
    (k : ℕ) (es : List Entry) (i : ℕ)
    → occurrences k es ≤ 1
    → holds k (at es i) ≡ true
    → view es k ≡ some (at es i).value
unfolding occurrences view
view-at k [] i h p = ground arith
view-at k (e ∷ es) zero h p = ground arith
view-at k (e ∷ es) (suc i) h p = ground (arith, view-at k es i, occurs-at k es i)

pub occurrences-absent :
    (k : ℕ) (es : List Entry) → ((i : ℕ) → holds k (at es i) ≡ false) → occurrences k es ≡ 0
unfolding occurrences
occurrences-absent k [] h = refl
occurrences-absent k (e ∷ es) h = ground (arith, h 0, occurrences-absent k es (λ i. h (suc i)))

-- The three effects of a write at one index: the written key, the overwritten key, all others.
module _ (k : ℕ) (es : List Entry) (i : ℕ) (e : Entry) (inside : i < length es) where
  pub view-set_new :
      occurrences k es ≤ to_nat (holds k (at es i))
      → holds k e ≡ true
      → view (set es i e) k ≡ some e.value
  view-set_new few new =
      let read : at (set es i e) i ≡ e = get_or-set_self es i e blank inside in
      let value : view (set es i e) k ≡ some (at (set es i e) i).value =
        view-at k (set es i e) i (ground (arith, occurrences-set k es i e inside)) (rw read new) in
      rw read at value

  pub view-set_gone :
      occurrences k es ≤ to_nat (holds k (at es i)) → holds k e ≡ false → view (set es i e) k ≡ none
  view-set_gone few gone =
      view-absent k (set es i e) (ground (arith, occurrences-set k es i e inside))

pub view-set_other :
    (k : ℕ) (es : List Entry) (i : ℕ) (e : Entry)
    → holds k e ≡ false
    → holds k (at es i) ≡ false
    → view (set es i e) k ≡ view es k
unfolding view
view-set_other k [] i e p q = refl
view-set_other k (x ∷ es) zero e p q = rw (p, q)
view-set_other k (x ∷ es) (suc i) e p q = rw (view-set_other k es i e p q)

pub used-replicate : (n : ℕ) → used (replicate n blank) ≡ 0
unfolding used
used-replicate zero = refl
used-replicate (suc n) = omega (arith, used-replicate n)

pub occurrences-replicate : (k n : ℕ) → occurrences k (replicate n blank) ≡ 0
unfolding occurrences
occurrences-replicate k zero = refl
occurrences-replicate k (suc n) = omega (arith, occurrences-replicate k n)

-- Some entry is free when not all are used.
pub free_index :
    (es : List Entry) → used es < length es → (i : ℕ) × (i < length es) × (is_free (at es i) ≡ true)
unfolding used
free_index [] h = absurd (omega arith)
free_index (e ∷ es) h = elim (Bool-cases (is_free e)) [
  | inl free ↦ (0, omega arith, free)
  | inr taken ↦ let (i, inside, free) = free_index es (ground arith) in (suc i, omega arith, free)
]

pub occurrences_unique :
    (k : ℕ) (es : List Entry)
    → ((i j : ℕ) → holds k (at es i) ≡ true → holds k (at es j) ≡ true → i ≡ j)
    → occurrences k es ≤ 1
unfolding occurrences
occurrences_unique k [] h = omega arith
occurrences_unique k (e ∷ es) h = elim (Bool-cases (holds k e)) [
  | inr other ↦
      rw other
        (omega (arith, occurrences_unique k es (λ i j p q. omega (arith, h (suc i) (suc j) p q))))
  | inl here ↦ rw here (omega (arith, occurrences-absent k es (λ i. none_later here i)))
]
  where
    none_later : holds k e ≡ true → (i : ℕ) → holds k (at es i) ≡ false
    none_later here i = elim (Bool-cases (holds k (at es i))) [
      | inr absent ↦ absent
      | inl there ↦ absurd (omega (arith, h 0 (suc i) here there))
    ]

pub occurrences-le-length : (k : ℕ) (es : List Entry) → occurrences k es ≤ length es
unfolding occurrences
occurrences-le-length k [] = omega arith
occurrences-le-length k (e ∷ es) = ground (arith, occurrences-le-length k es)

pub occurrences-le-used : (k : ℕ) (es : List Entry) → occurrences k es ≤ used es
unfolding occurrences used
occurrences-le-used k [] = omega arith
occurrences-le-used k (e ∷ es) = ground (arith, occurrences-le-used k es)
