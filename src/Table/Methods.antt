-- ===== src/Table/Methods.antt =====
-- src/util/table.c: the public operations refine a finite map.
use my9cc.Table.{
  Value, null, Table, Entry, at, blank, is_null, is_new, find_entry, adjust_capacity,
  grown_capacity, reserve, store, table_init, table_get, table_try_get, table_put,
}
use my9cc.Table.Entries.{
  holds, used, occurrences, view, occurrences-le-length, occurrences-le-used, view-absent, view-at,
}
use my9cc.Table.Lookup.{IsReached, IsProbed, Found, find_entry-Found, occurrences-le-one}
use my9cc.Table.Write.{live, put-IsProbed, put-view, put-used}
use my9cc.Table.Rehash.{adjust_capacity-Rebuilt}
use my9cc.Prelude.{
  ℕ, ◌+◌, ◌/◌, ◌≤◌, ◌<◌, ◌≡◌, refl, ◌⊎◌, inl, inr, Bool, true, false, not, Option, none, some, List,
  arith, ◌==◌, ◌&&◌, leb, if◌then◌else◌, Bool-cases, ◌∙◌, ap, length, set, ◌>>=◌, ◌≢◌, ℕ_discrete,
}

-- The invariant of the table. `count` counts tombstones too.
pub record IsValid (hash : ℕ → ℕ) (t : Table) : Type 0 where
  pub size : length t.entries ≡ t.capacity
  pub counted : used t.entries ≡ t.count
  pub load : t.count ≤ t.capacity / 2
  pub large : (t.capacity ≡ 0) ⊎ (15 ≤ t.capacity)
  pub chained :
      (i k : ℕ) → holds k (at t.entries i) ≡ true → IsReached hash t.entries t.capacity k i

abbrev pub lookup : Table → ℕ → Option Value
lookup t k = view t.entries k

abbrev pub is_some : Option Value → Bool
is_some none = false
is_some (some v) = true

abbrev pub or_null : Option Value → Value
or_null none = null
or_null (some v) = v

module _ (hash : ℕ → ℕ) where
  pub table_init-IsValid : IsValid hash table_init × ((k : ℕ) → lookup table_init k ≡ none)
  unfolding table_init used view
  table_init-IsValid = (
    record {
      size = refl;
      counted = refl;
      load = omega arith;
      large = inl refl;
      chained = λ i k h. absurd (unheld k h);
    },
    λ k. refl,
  )
    where
      unheld : (k : ℕ) → holds k blank ≡ true → ⊥
      unheld k h = cc

  probed : {t : Table} → IsValid hash t → 0 < t.capacity → IsProbed hash t.entries t.capacity
  probed v pos = record {
    size = v.size;
    room = omega (arith, v.counted, v.load);
    chained = v.chained;
  }

  pub once : {t : Table} → IsValid hash t → (k : ℕ) → occurrences k t.entries ≤ 1
  once {t} v k = elim v.large [
    | inl empty ↦ omega (arith, occurrences-le-length k t.entries, v.size)
    | inr large ↦ occurrences-le-one hash (probed v (omega arith)) k
  ]

  record HasRoom (t r : Table) : Type 0 where
    fit : IsProbed hash r.entries r.capacity
    counted : used r.entries ≡ r.count
    load : r.count + 1 ≤ r.capacity / 2
    large : 15 ≤ r.capacity
    same : (k : ℕ) → lookup r k ≡ lookup t k

  reserve_grown :
      (t : Table)
      → leb (t.capacity / 2) t.count ≡ true
      → reserve hash t ≡ adjust_capacity hash t (grown_capacity t.capacity)
  unfolding reserve
  reserve_grown t h = rw h

  reserve_kept : (t : Table) → leb (t.capacity / 2) t.count ≡ false → reserve hash t ≡ some t
  unfolding reserve
  reserve_kept t h = rw h

  grown_room :
      (c n : ℕ)
      → n ≤ c / 2
      → (c ≡ 0) ⊎ (15 ≤ c)
      → (15 ≤ grown_capacity c) × (n + 1 ≤ grown_capacity c / 2)
  grown_room c n h large = ground arith

  reserve-HasRoom :
      {t : Table} → IsValid hash t → (r : Table) × (reserve hash t ≡ some r) × HasRoom t r
  reserve-HasRoom {t} v = elim (Bool-cases (leb (t.capacity / 2) t.count)) [
    | inl full ↦
        let (big, enough) = grown_room t.capacity t.count v.load v.large in
        let (r, run, b) =
          adjust_capacity-Rebuilt hash (grown_capacity t.capacity) t.entries (once v)
            (omega (arith, v.counted, enough)) t refl in
        (
          r,
          reserve_grown t full ∙ run,
          record {
            fit = rw b.capacity_eq b.probed;
            counted = b.counted;
            load = rw b.capacity_eq (omega (arith, b.bound, v.counted, enough));
            large = rw b.capacity_eq big;
            same = b.same;
          },
        )
    | inr free ↦ (
      t,
      reserve_kept t free,
      record {
        fit = probed v (ground (arith, v.load));
        counted = v.counted;
        load = ground (arith, v.load);
        large = ground (arith, v.large, v.load);
        same = λ k. refl;
      },
    )
  ]

  -- The entry that was found, against the abstract map.
  abbrev value_at : Entry → Option Value
  value_at e = elim e.key [ none ↦ none | some _ ↦ some e.value ]

  Found-value :
      {es : List Entry} {n : ℕ} (p : IsProbed hash es n) (k i : ℕ)
      → Found hash p k i
      → value_at (at es i) ≡ view es k
  Found-value {es} p k i f = elim f.known [
    | inl here ↦ ground (arith, view-at k es i (occurrences-le-one hash p k) here)
    | inr (new, absent) ↦ ground (arith, view-absent k es absent)
  ]

  is_new-value_at : (e : Entry) → is_new e ≡ not (is_some (value_at e))
  is_new-value_at e = ground arith

  store_run :
      (t : Table) (k i : ℕ) (v : Value)
      → find_entry hash t.entries t.capacity k ≡ some i
      → store hash t k v
        ≡ some (
          is_new (at t.entries i),
          record {
            entries = set t.entries i (live k v);
            capacity = t.capacity;
            count =
                if is_new (at t.entries i) && is_null (at t.entries i).value
                then t.count + 1
                else t.count;
          },
        )
  unfolding store
  store_run t k i v e = rw (e, ◌>>=◌)

  -- What `table_put` did to the table `t`.
  pub record Put (t : Table) (k : ℕ) (v : Value) (r : Bool × Table) : Type 0 where
    pub valid : IsValid hash r.1
    pub is_new_key : r.0 ≡ not (is_some (lookup t k))
    pub reads : (j : ℕ) → lookup r.1 j ≡ (if k == j then some v else lookup t j)

  store-Put :
      (t g : Table) (k : ℕ) (v : Value)
      → HasRoom t g
      → (r : Bool × Table) × (store hash g k v ≡ some r) × Put t k v r
  store-Put t g k v h =
      let (i, run, f) = find_entry-Found hash h.fit k in
      let room : used g.entries + 1 < g.capacity = omega (arith, h.counted, h.load, h.large) in
      let after = put-IsProbed hash h.fit k i f v room in
      let written = put-used hash h.fit k i f v in
      (
        _,
        store_run g k i v run,
        record {
          valid = record {
            size = after.size;
            counted = ground (arith, written, h.counted);
            load = ground (arith, h.load);
            large = inr h.large;
            chained = after.chained;
          };
          is_new_key =
              is_new-value_at (at g.entries i)
              ∙ ap (λ o. not (is_some o)) (Found-value h.fit k i f ∙ h.same k);
          reads = λ j.
              put-view hash h.fit k i f v j ∙ ap (λ o. if k == j then some v else o) (h.same j);
        },
      )

  -- On a valid table `table_put` returns. It binds the key, keeps every other binding and the
  -- invariant, and tells whether the key was unbound.
  pub table_put-Put :
      {t : Table} (k : ℕ) (v : Value)
      → IsValid hash t
      → (r : Bool × Table) × (table_put hash t k v ≡ some r) × Put t k v r
  unfolding table_put
  table_put-Put {t} k v valid =
      let (g, grown, h) = reserve-HasRoom valid in
      let (r, run, p) = store-Put t g k v h in (r, put_run g r grown run, p)
    where
      put_run :
          (g : Table) (r : Bool × Table)
          → reserve hash t ≡ some g
          → store hash g k v ≡ some r
          → table_put hash t k v ≡ some r
      put_run g r a b = rw (a, ◌>>=◌) b

  -- An empty table answers at once.
  pub empty_view : {t : Table} → IsValid hash t → t.count ≡ 0 → (k : ℕ) → lookup t k ≡ none
  empty_view {t} v e k =
      view-absent k t.entries (omega (arith, occurrences-le-used k t.entries, v.counted))

  -- With entries in use there is room for a probe.
  pub at_work : {t : Table} → IsValid hash t → t.count ≢ 0 → IsProbed hash t.entries t.capacity
  at_work v ne = probed v (omega (arith, v.load))

  -- On a valid table `table_try_get` returns, with the value that the abstract map has at the key.
  pub table_try_get-lookup :
      {t : Table} (k : ℕ) → IsValid hash t → table_try_get hash t k ≡ some (lookup t k)
  unfolding table_try_get
  table_try_get-lookup {t} k v = elim (ℕ_discrete t.count 0) [
    | yes e ↦ rw (empty_view v e k) (ground arith)
    | no ne ↦
        let (i, run, f) = find_entry-Found hash (at_work v ne) k in
        rw (run, ◌>>=◌) (rw (← Found-value (at_work v ne) k i f) (ground arith))
  ]

  -- On a valid table `table_get` returns the value at the key, or NULL where there is none.
  pub table_get-lookup :
      {t : Table} (k : ℕ) → IsValid hash t → table_get hash t k ≡ some (or_null (lookup t k))
  unfolding table_get
  table_get-lookup {t} k v = elim (ℕ_discrete t.count 0) [
    | yes e ↦ rw (empty_view v e k) (ground arith)
    | no ne ↦
        let (i, run, f) = find_entry-Found hash (at_work v ne) k in
        rw (run, ◌>>=◌) (rw (← Found-value (at_work v ne) k i f) (ground arith))
  ]
