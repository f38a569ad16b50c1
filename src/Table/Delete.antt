-- ===== src/Table/Delete.antt =====
-- src/util/table.c: `table_delete` refines the removal of a key from a finite map.
use my9cc.Table.{Table, at, is_new, find_entry, table_delete}
use my9cc.Table.Entries.{holds, view-absent, view-at}
use my9cc.Table.Lookup.{IsProbed, Found, find_entry-Found}
use my9cc.Table.Write.{dead, delete-IsProbed, delete-view, delete-used}
use my9cc.Table.Methods.{IsValid, lookup, is_some, empty_view, at_work, once}
use my9cc.Prelude.{
  ℕ, ◌≡◌, refl, inl, inr, Bool, true, false, none, some, arith, ◌==◌, if◌then◌else◌, Bool-cases,
  ◌∙◌, set, ◌>>=◌, ◌≢◌, ℕ_discrete,
}

module _ (hash : ℕ → ℕ) where
  -- What `table_delete` did to the table `t`.
  pub record Deleted (t : Table) (k : ℕ) (r : Bool × Table) : Type 0 where
    pub valid : IsValid hash r.1
    pub was_there : r.0 ≡ is_some (lookup t k)
    pub reads : (j : ℕ) → lookup r.1 j ≡ (if k == j then none else lookup t j)
    pub count_eq : r.1.count ≡ t.count

  unchanged : {t : Table} (k : ℕ) → IsValid hash t → lookup t k ≡ none → Deleted t k (false, t)
  unchanged {t} k v e = record {
    valid = v;
    was_there = rw e;
    reads = λ j. elim (Bool-cases (k == j)) [
      | inl same ↦ let eq : k ≡ j = ground arith in rw same (rw eq at e)
      | inr other ↦ rw other
    ];
    count_eq = refl;
  }

  removed :
      {t : Table} (k i : ℕ) (v : IsValid hash t) (p : IsProbed hash t.entries t.capacity)
      (f : Found hash p k i)
      → holds k (at t.entries i) ≡ true
      → Deleted t k (true, record t { entries = set t.entries i (dead i) })
  removed {t} k i v p f here =
      let after = delete-IsProbed hash p k i f here in
      record {
        valid = record {
          size = after.size;
          counted = delete-used hash p k i f here ∙ v.counted;
          load = v.load;
          large = v.large;
          chained = after.chained;
        };
        was_there = rw (view-at k t.entries i (once hash v k) here);
        reads = delete-view hash p k i f here;
        count_eq = refl;
      }

  delete_empty : (t : Table) (k : ℕ) → t.count ≡ 0 → table_delete hash t k ≡ some (false, t)
  unfolding table_delete
  delete_empty t k e = let b : (t.count == 0) ≡ true = ground arith in rw b

  delete_miss :
      (t : Table) (k i : ℕ)
      → t.count ≢ 0
      → find_entry hash t.entries t.capacity k ≡ some i
      → is_new (at t.entries i) ≡ true
      → table_delete hash t k ≡ some (false, t)
  unfolding table_delete
  delete_miss t k i ne run new =
      let b : (t.count == 0) ≡ false = ground arith in rw (b, run, ◌>>=◌) (ground arith)

  delete_hit :
      (t : Table) (k i : ℕ)
      → t.count ≢ 0
      → find_entry hash t.entries t.capacity k ≡ some i
      → holds k (at t.entries i) ≡ true
      → table_delete hash t k ≡ some (true, record t { entries = set t.entries i (dead i) })
  unfolding table_delete
  delete_hit t k i ne run here =
      let b : (t.count == 0) ≡ false = ground arith in rw (b, run, ◌>>=◌) (ground arith)

  -- On a valid table `table_delete` returns. It unbinds the key, keeps every other binding, the
  -- invariant and the count, and tells whether the key was bound.
  pub table_delete-Deleted :
      {t : Table} (k : ℕ)
      → IsValid hash t
      → (r : Bool × Table) × (table_delete hash t k ≡ some r) × Deleted t k r
  table_delete-Deleted {t} k v = elim (ℕ_discrete t.count 0) [
    | yes e ↦ ((false, t), delete_empty t k e, unchanged k v (empty_view hash v e k))
    | no ne ↦
        let (i, run, f) = find_entry-Found hash (at_work hash v ne) k in
        elim f.known [
          | inl here ↦ (_, delete_hit t k i ne run here, removed k i v (at_work hash v ne) f here)
          | inr (new, absent) ↦ (
            (false, t),
            delete_miss t k i ne run new,
            unchanged k v (view-absent k t.entries absent),
          )
        ]
  ]
