-- ===== src/Table/Write.antt =====
-- src/util/table.c: a write of one entry keeps the array fit for `find_entry`.
use native.Mathlib.Nat.{mod-eq_of_lt, mod-eq-sub-mod, mod-lt}
use my9cc.Table.{Value, Entry, entry, at, blank}
use my9cc.Table.Entries.{
  is_free, holds, skips, used, occurrences, view, occurs-at, to_nat, used-set, view-set_new,
  view-set_other, view-set_gone,
}
use my9cc.Table.Probe.{place}
use my9cc.Table.Lookup.{home, IsReached, IsProbed, Found, occurrences-le-one, holds_unique}
use my9cc.Prelude.{
  ℕ, ◌+◌, ◌-◌, ◌%◌, ◌≤◌, ◌<◌, ◌≡◌, ◌≢◌, refl, ◌⊎◌, inl, inr, true, false, not, none, some, List,
  arith, ◌==◌, if◌then◌else◌, Bool-cases, order_cases, ◌∙◌, sym, set, get_or-set_self,
  get_or-set_ne, length-set, ℕ_discrete,
}

-- What `table_put` and `table_delete` write.
abbrev pub live : ℕ → Value → Entry
live k v = record { key = some k; value = v }

abbrev pub dead : ℕ → Entry
dead i = record { key = none; value = entry i }

wrap_cases : (n x : ℕ) → x < n + n → (x < n) × (x % n ≡ x) ⊎ (n ≤ x) × (x % n + n ≡ x)
wrap_cases n x h = elim (order_cases x n) [
  | inl less ↦ inl (less, mod-eq_of_lt less)
  | inr (inl more) ↦ inr (omega arith, above (omega arith))
  | inr (inr same) ↦ inr (omega arith, above (omega arith))
]
  where
    above : n ≤ x → x % n + n ≡ x
    above le = let e : x % n ≡ x - n = mod-eq-sub-mod le ∙ mod-eq_of_lt (omega arith) in omega arith

-- Within one round the places differ.
place_injective : (n h a b : ℕ) → h < n → a < n → b < n → place n h a ≡ place n h b → a ≡ b
place_injective n h a b hh ha hb e =
    omega (arith, wrap_cases n (h + a) (omega arith), wrap_cases n (h + b) (omega arith))

module _ (hash : ℕ → ℕ) {es : List Entry} {n : ℕ} (probed : IsProbed hash es n) (i : ℕ) (e : Entry)
    (inside : i < n) where
  at-set : (j : ℕ) → (j ≡ i) × (at (set es i e) j ≡ e) ⊎ (j ≢ i) × (at (set es i e) j ≡ at es j)
  at-set j = elim (ℕ_discrete j i) [
    | yes p ↦ inl (p, rw p (get_or-set_self es i e blank (omega (arith, probed.size))))
    | no p ↦ inr (p, get_or-set_ne es i j e blank (λ q. p (sym q)))
  ]

  -- The path to the written entry does not cross it.
  IsReached-self : (k : ℕ) → IsReached hash es n k i → IsReached hash (set es i e) n k i
  IsReached-self k r = record {
    steps = r.steps;
    short = r.short;
    place_eq = r.place_eq;
    passed = λ b lt. elim (at-set (place n (home hash n k) b)) [
      | inl (same, _) ↦ absurd (
          omega (
            arith,
            place_injective n (home hash n k) b r.steps (mod-lt _ (omega arith))
                (omega (arith, r.short)) r.short (same ∙ r.place_eq),
          ))
      | inr (_, kept) ↦ rw kept (r.passed b lt)
    ];
  }

  IsReached-other :
      (k j : ℕ) → skips k e ≡ true → IsReached hash es n k j → IsReached hash (set es i e) n k j
  IsReached-other k j s r = record {
    steps = r.steps;
    short = r.short;
    place_eq = r.place_eq;
    passed = λ b lt. elim (at-set (place n (home hash n k) b)) [
      | inl (_, new) ↦ rw new s
      | inr (_, kept) ↦ rw kept (r.passed b lt)
    ];
  }

  pub set-IsProbed :
      ((k : ℕ) → holds k e ≡ true → IsReached hash es n k i)
      → ((k j : ℕ) → j ≢ i → holds k (at es j) ≡ true → skips k e ≡ true)
      → used (set es i e) < n
      → IsProbed hash (set es i e) n
  set-IsProbed self others room = record {
    size = length-set es i e ∙ probed.size;
    room = room;
    chained = λ j k h. elim (at-set j) [
      | inl (same, new) ↦ rw same (IsReached-self k (self k (rw new at h)))
      | inr (other, kept) ↦
          let old : holds k (at es j) ≡ true = rw kept at h in
          IsReached-other k j (others k j other old) (probed.chained j k old)
    ];
  }

-- A new value under a key that was found.
module _ (hash : ℕ → ℕ) {es : List Entry} {n : ℕ} (probed : IsProbed hash es n) (k i : ℕ)
    (f : Found hash probed k i) where
  holds-live : (v : Value) (j : ℕ) → holds j (live k v) ≡ true → j ≡ k
  holds-live v j h = ground arith

  skips-live : (v : Value) (j : ℕ) → j ≢ k → skips j (live k v) ≡ true
  skips-live v j h = ground arith

  few : occurrences k es ≤ to_nat (holds k (at es i))
  few = elim f.known [
    | inl here ↦ rw here (occurrences-le-one hash probed k)
    | inr (_, absent) ↦ omega (arith, absent)
  ]

  pub put-used :
      (v : Value) → used (set es i (live k v)) + to_nat (not (is_free (at es i))) ≡ used es + 1
  put-used v = used-set es i (live k v) (omega (arith, f.inside, probed.size))

  pub put-IsProbed : (v : Value) → used es + 1 < n → IsProbed hash (set es i (live k v)) n
  put-IsProbed v room =
      set-IsProbed hash probed i (live k v) f.inside (λ j h. rw (holds-live v j h) f.reached)
        (λ j x other h. skips-live v j (λ same. lone x other (rw same at h)))
        (omega (arith, put-used v, room))
    where
      lone : (x : ℕ) → x ≢ i → holds k (at es x) ≡ true → ⊥
      lone x other h = elim f.known [
        | inl here ↦ other (holds_unique hash probed k x i h here)
        | inr (_, absent) ↦ omega (arith, absent, occurs-at k es x h)
      ]

  pub put-view :
      (v : Value) (j : ℕ) → view (set es i (live k v)) j ≡ (if k == j then some v else view es j)
  put-view v j = elim (Bool-cases (k == j)) [
    | inl same ↦
        let e : j ≡ k = ground arith in
        rw (same, e)
          (view-set_new k es i (live k v) (omega (arith, f.inside, probed.size)) few (ground arith))
    | inr other ↦ rw other (view-set_other j es i (live k v) other (not_here other))
  ]
    where
      not_here : (k == j) ≡ false → holds j (at es i) ≡ false
      not_here other = elim f.known [ inl here ↦ ground arith | inr (new, _) ↦ ground arith ]

module _ (hash : ℕ → ℕ) {es : List Entry} {n : ℕ} (probed : IsProbed hash es n) (k i : ℕ)
    (f : Found hash probed k i) (here : holds k (at es i) ≡ true) where
  pub delete-used : used (set es i (dead i)) ≡ used es
  delete-used = ground (arith, used-set es i (dead i) (omega (arith, f.inside, probed.size)))

  pub delete-IsProbed : IsProbed hash (set es i (dead i)) n
  delete-IsProbed =
      set-IsProbed hash probed i (dead i) f.inside (λ j h. absurd (no_key j h))
        (λ j x other h. refl) (rw delete-used probed.room)
    where
      no_key : (j : ℕ) → holds j (dead i) ≡ true → ⊥
      no_key j h = cc

  pub delete-view : (j : ℕ) → view (set es i (dead i)) j ≡ (if k == j then none else view es j)
  delete-view j = elim (Bool-cases (k == j)) [
    | inl same ↦
        let e : j ≡ k = ground arith in
        rw (same, e)
          (view-set_gone k es i (dead i) (omega (arith, f.inside, probed.size))
            (rw here (occurrences-le-one hash probed k)) refl)
    | inr other ↦ rw other (view-set_other j es i (dead i) refl (ground arith))
  ]
