-- ===== src/Table/Iterate.antt =====
-- src/util/table.c: `table_iterate` visits the live entries in the order of the array.
use my9cc.Table.{Value, Table, Entry, at, scan, table_iterate}
use native.Mathlib.Numerals.{add-one}
use my9cc.Prelude.{
  ℕ, zero, suc, ◌+◌, ◌-◌, ◌≤◌, ◌≡◌, refl, Option, none, some, List, [], ◌∷◌, arith, length, drop,
  Option-cases, inl, inr,
}

-- The live entries of an array, in order.
pub live_entries : List Entry → List (ℕ × Value)
live_entries [] = []
live_entries (e ∷ es) = elim e.key [
  | none ↦ live_entries es
  | some k ↦ (k, e.value) ∷ live_entries es
]

-- What is still to come, by the answer of the iterator.
abbrev pub visits : List Entry → Option (ℕ × ℕ × Value) → List (ℕ × Value)
visits es none = []
visits es (some (next, k, v)) = (k, v) ∷ live_entries (drop next es)

drop-at : (es : List Entry) (i : ℕ) → suc i ≤ length es → drop i es ≡ at es i ∷ drop (suc i) es
drop-at [] i h = absurd (omega arith)
drop-at (e ∷ es) zero h = refl
drop-at (e ∷ es) (suc i) h = drop-at es i (omega arith)

drop-length : (es : List Entry) (i : ℕ) → length es ≤ i → drop i es ≡ []
drop-length [] zero h = refl
drop-length [] (suc i) h = refl
drop-length (e ∷ es) zero h = absurd (omega arith)
drop-length (e ∷ es) (suc i) h = drop-length es i (omega arith)

-- One round, given the rounds that follow.
visit_one :
    (es : List Entry) (i : ℕ) (e : Entry) (rest : Option (ℕ × ℕ × Value))
    → visits es rest ≡ live_entries (drop (i + 1) es)
    → visits es (elim e.key [ none ↦ rest | some k ↦ some (i + 1, k, e.value) ])
      ≡ live_entries (e ∷ drop (i + 1) es)
unfolding live_entries
visit_one es i e rest h = elim (Option-cases e.key) [ inl dead ↦ rw dead h | inr (k, key) ↦ rw key ]

scan-visits :
    (es : List Entry) (rounds i : ℕ)
    → i + rounds ≡ length es
    → visits es (scan es rounds i) ≡ live_entries (drop i es)
unfolding scan
scan-visits es zero i h = unfold live_entries in rw (drop-length es i (omega arith))
scan-visits es (suc rounds) i h =
    rw (drop-at es i (omega arith), ← add-one i)
      (visit_one es i (at es i) (scan es rounds (i + 1))
        (scan-visits es rounds (i + 1) (omega arith)))

-- From an iterator within the capacity, `table_iterate` gives the first live entry at or behind
-- it, with an iterator behind which the others follow, and -1 exactly when there is none.
pub table_iterate-visits :
    (t : Table) (iterator : ℕ)
    → length t.entries ≡ t.capacity
    → iterator ≤ t.capacity
    → visits t.entries (table_iterate t iterator) ≡ live_entries (drop iterator t.entries)
unfolding table_iterate
table_iterate-visits t iterator size h =
    scan-visits t.entries (t.capacity - iterator) iterator (omega arith)
