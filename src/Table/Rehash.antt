-- ===== src/Table/Rehash.antt =====
-- src/util/table.c: `adjust_capacity` and the growth test of `table_put`.
use my9cc.Table.{Value, Table, Entry, at, blank, is_new, find_entry, move_entries, adjust_capacity}
use my9cc.Table.Entries.{
  is_free, holds, used, occurrences, view, occurrences-set, used-set, used-replicate,
  occurrences-replicate, view-absent, occurs-at,
}
use my9cc.Table.Lookup.{IsProbed, Found, find_entry-Found}
use my9cc.Table.Write.{live, put-IsProbed, put-view}
use my9cc.Prelude.{
  ℕ, ◌+◌, ◌≤◌, ◌<◌, ◌≡◌, refl, inl, inr, true, Option, none, some, List, [], ◌∷◌, arith, ◌==◌,
  Bool-cases, Option-cases, ◌∙◌, sym, set, get_or-set_self, get_or-set_ne, ℕ_discrete, replicate,
  length-replicate, get_or-replicate, ◌>>=◌,
}

abbrev pub or_view : Option Value → Option Value → Option Value
or_view none b = b
or_view (some a) b = some a

-- An array under construction: no tombstones, and `count` entries in use.
record IsFresh (hash : ℕ → ℕ) (es : List Entry) (n count : ℕ) : Type 0 where
  probed : IsProbed hash es n
  fresh : (i : ℕ) → is_new (at es i) ≡ true → is_free (at es i) ≡ true
  counted : used es ≡ count

module _ (hash : ℕ → ℕ) (n : ℕ) where
  record Moved (rest es : List Entry) (r : List Entry × ℕ) : Type 0 where
    built : IsFresh hash r.0 n r.1
    bound : r.1 ≤ used es + used rest
    same : (k : ℕ) → view r.0 k ≡ or_view (view es k) (view rest k)

  -- One entry moved to its place.
  module _ (es : List Entry) (count k : ℕ) (v : Value) (start : IsFresh hash es n count)
      (absent : occurrences k es ≡ 0) (room : used es + 1 < n) (i : ℕ)
      (f : Found hash start.probed k i) where
    abbrev moved : List Entry
    moved = set es i (live k v)

    was_new : is_new (at es i) ≡ true
    was_new = elim f.known [
      | inl here ↦ absurd (omega (arith, absent, occurs-at k es i here))
      | inr (new, _) ↦ new
    ]

    moved-IsFresh : IsFresh hash moved n (count + 1)
    moved-IsFresh = record {
      probed = put-IsProbed hash start.probed k i f v room;
      fresh = λ j new. fresh_at j new (ℕ_discrete j i);
      counted = ground (arith, start.counted, start.fresh i was_new, used-set es i (live k v));
    }
      where
        fresh_at : (j : ℕ) → is_new (at moved j) ≡ true → Dec (j ≡ i) → is_free (at moved j) ≡ true
        fresh_at j new (yes p) =
            let read : at moved j ≡ live k v = rw p (
              get_or-set_self es i (live k v) blank (omega (arith, f.inside, start.probed.size))) in
            absurd (not_new (rw read at new))
          where
            not_new : is_new (live k v) ≡ true → ⊥
            not_new h = cc
        fresh_at j new (no p) =
            let kept = get_or-set_ne es i j (live k v) blank (λ q. p (sym q)) in
            rw kept (start.fresh j (rw kept at new))

    moved-view :
        (rest : List Entry) (j : ℕ) (e : Entry)
        → e.key ≡ some k
        → e.value ≡ v
        → or_view (view moved j) (view rest j) ≡ or_view (view es j) (view (e ∷ rest) j)
    unfolding view
    moved-view rest j e key value = elim (Bool-cases (k == j)) [
      | inl same ↦
          let eq : k ≡ j = ground arith in
          let none_yet : view es j ≡ none = rw (← eq) (view-absent k es absent) in
          rw (put-view hash start.probed k i f v j, none_yet) (ground arith)
      | inr other ↦ rw (put-view hash start.probed k i f v j) (ground arith)
    ]

  used-live :
      (e : Entry) (rest : List Entry) (k : ℕ) → e.key ≡ some k → used (e ∷ rest) ≡ used rest + 1
  unfolding used
  used-live e rest k h = ground arith

  move_entries-dead :
      (e : Entry) (rest es : List Entry) (count : ℕ)
      → e.key ≡ none
      → move_entries hash (e ∷ rest) es n count ≡ move_entries hash rest es n count
  unfolding move_entries
  move_entries-dead e rest es count key = rw key

  move_entries-live :
      (e : Entry) (rest es : List Entry) (count k i : ℕ)
      → e.key ≡ some k
      → find_entry hash es n k ≡ some i
      → move_entries hash (e ∷ rest) es n count
        ≡ move_entries hash rest (set es i (live k e.value)) n (count + 1)
  unfolding move_entries
  move_entries-live e rest es count k i key found = rw (key, found, ◌>>=◌)

  move_entries-Moved :
      (rest es : List Entry) (count : ℕ)
      → IsFresh hash es n count
      → used es + used rest < n
      → ((k : ℕ) → occurrences k es + occurrences k rest ≤ 1)
      → (r : List Entry × ℕ) × (move_entries hash rest es n count ≡ some r) × Moved rest es r
  unfolding used occurrences view
  move_entries-Moved [] es count start room once = (
    (es, count),
    unfold move_entries in refl,
    record { built = start; bound = omega (arith, start.counted); same = λ k. ground arith },
  )
  move_entries-Moved (e ∷ rest) es count start room once = elim (Option-cases e.key) [
    | inl dead ↦
        let (r, run, m) =
          move_entries-Moved rest es count start (ground arith) (λ k. ground (arith, once k)) in
        (
          r,
          move_entries-dead e rest es count dead ∙ run,
          record {
            built = m.built;
            bound = ground (arith, m.bound);
            same = λ k. m.same k ∙ rw dead;
          },
        )
    | inr (k, key) ↦
        let absent : occurrences k es ≡ 0 = ground (arith, once k) in
        let more = used-live e rest k key in
        let room' : used es + 1 < n = omega (arith, room, more) in
        let (i, found, f) = find_entry-Found hash start.probed k in
        let start' = moved-IsFresh es count k e.value start absent room' i f in
        let once' : (j : ℕ) → occurrences j (set es i (live k e.value)) + occurrences j rest ≤ 1 =
          λ j. ground (
            arith,
            once j,
            occurrences-set j es i (live k e.value) (omega (arith, f.inside, start.probed.size)),
          ) in
        let (r, run, m) =
          move_entries-Moved rest (set es i (live k e.value)) (count + 1) start'
            (omega (arith, start'.counted, start.counted, more)) once' in
        (
          r,
          move_entries-live e rest es count k i key found ∙ run,
          record {
            built = m.built;
            bound = omega (arith, m.bound, start'.counted, start.counted, more);
            same = λ j.
                m.same j ∙ moved-view es count k e.value start absent room' i f rest j e key refl;
          },
        )
  ]

-- Rebuilding an array with distinct keys, into a larger one.
module _ (hash : ℕ → ℕ) (n : ℕ) (old : List Entry) (once : (k : ℕ) → occurrences k old ≤ 1)
    (room : used old < n) where
  empty_array : List Entry
  empty_array = replicate n blank

  at-empty : (i : ℕ) → at empty_array i ≡ blank
  unfolding empty_array
  at-empty i = get_or-replicate n blank i

  empty-IsFresh : IsFresh hash empty_array n 0
  unfolding empty_array
  empty-IsFresh = record {
    probed = record {
      size = length-replicate n blank;
      room = omega (arith, used-replicate n, room);
      chained = λ i k h. absurd (unheld k (rw (at-empty i) at h));
    };
    fresh = λ i new. rw (at-empty i);
    counted = used-replicate n;
  }
    where
      unheld : (k : ℕ) → holds k blank ≡ true → ⊥
      unheld k h = cc

  -- What a growth gives: an array for the probes, with the same abstract map.
  pub record Rebuilt (t : Table) : Type 0 where
    pub capacity_eq : t.capacity ≡ n
    pub probed : IsProbed hash t.entries n
    pub counted : used t.entries ≡ t.count
    pub bound : t.count ≤ used old
    pub same : (k : ℕ) → view t.entries k ≡ view old k

  pub adjust_capacity-Rebuilt :
      (t : Table) → t.entries ≡ old → (r : Table) × (adjust_capacity hash t n ≡ some r) × Rebuilt r
  adjust_capacity-Rebuilt t e =
      let (r, run, m) =
        move_entries-Moved hash n old empty_array 0 empty-IsFresh
          (unfold empty_array in omega (arith, used-replicate n, room))
          (λ k. unfold empty_array in omega (arith, occurrences-replicate k n, once k)) in
      (
        record { entries = r.0; capacity = n; count = r.1 },
        adjust_run t r e run,
        record {
          capacity_eq = refl;
          probed = m.built.probed;
          counted = m.built.counted;
          bound = unfold empty_array in omega (arith, m.bound, used-replicate n);
          same = λ k. m.same k ∙ blank_view k;
        },
      )
    where
      blank_view : (k : ℕ) → or_view (view empty_array k) (view old k) ≡ view old k
      blank_view k =
          unfold empty_array in rw (view-absent k (replicate n blank) (occurrences-replicate k n))

      adjust_run :
          (t : Table) (r : List Entry × ℕ)
          → t.entries ≡ old
          → move_entries hash old empty_array n 0 ≡ some r
          → adjust_capacity hash t n ≡ some (record { entries = r.0; capacity = n; count = r.1 })
      adjust_run t r e run = unfold adjust_capacity empty_array in rw (e, run, ◌>>=◌)
