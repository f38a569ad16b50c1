-- ===== src/Table/Lookup.antt =====
-- src/util/table.c: `find_entry` on a well-formed array of entries.
use native.Mathlib.Nat.{mod-lt, mod-eq_of_lt}
use my9cc.Table.{Entry, at, is_new, probe, find_entry}
use my9cc.Table.Entries.{
  is_free, holds, skips, used, occurrences, free_index, occurrences-absent, occurrences_unique,
}
use my9cc.Table.Probe.{place, IsPassed, Stop, hit, vacant, probe-Stop}
use my9cc.Prelude.{
  ℕ, ◌+◌, ◌-◌, ◌%◌, ◌≤◌, ◌<◌, ◌≡◌, ◌⊎◌, inl, inr, true, false, none, some, List, arith, Bool-cases,
  order_cases, leb, ◌∙◌, ap, sym, length,
}

-- Each index is reached from each other one.
reach_index : (n h i : ℕ) → h < n → i < n → (d : ℕ) × (d < n) × (place n h d ≡ i)
reach_index n h i hh hi = elim (Bool-cases (leb h i)) [
  | inl le ↦
      let e : h + (i - h) ≡ i = ground arith in
      (i - h, ground arith, ap (λ (t : ℕ). t % n) e ∙ mod-eq_of_lt hi)
  | inr gt ↦
      let e : h + (i + n - h) ≡ i + n = omega arith in
      (i + n - h, ground arith, ap (λ (t : ℕ). t % n) e ∙ wrap)
]
  where
    wrap : (i + n) % n ≡ i
    wrap = grind arith

skips_not-free : (k : ℕ) (e : Entry) → skips k e ≡ true → is_free e ≡ true → ⊥
skips_not-free k e p q = ground arith

skips_not-holds : (k : ℕ) (e : Entry) → skips k e ≡ true → holds k e ≡ true → ⊥
skips_not-holds k e p q = ground arith

free_not-holds : (k : ℕ) (e : Entry) → is_free e ≡ true → holds k e ≡ true → ⊥
free_not-holds k e p q = ground arith

none-ne-some : {i : ℕ} → none ≡ some i → ⊥
none-ne-some t = cc

module _ (hash : ℕ → ℕ) where
  abbrev pub home : ℕ → ℕ → ℕ
  home n k = hash k % n

  -- Index `i` is `d` steps behind the home of `k`, and a probe for `k` gets there.
  pub record IsReached (es : List Entry) (n k i : ℕ) : Type 0 where
    pub steps : ℕ
    pub short : steps < n
    pub place_eq : i ≡ place n (home n k) steps
    pub passed : IsPassed es n k (home n k) steps

  -- An array that `find_entry` works on: it has a free entry, and the probe for each key that it
  -- holds gets to that key.
  pub record IsProbed (es : List Entry) (n : ℕ) : Type 0 where
    pub size : length es ≡ n
    pub room : used es < n
    pub chained : (i k : ℕ) → holds k (at es i) ≡ true → IsReached es n k i

  module _ {es : List Entry} {n : ℕ} (probed : IsProbed es n) (k : ℕ) where
    -- Both are reached, so the nearer one stops the probe.
    pub holds_unique : (i j : ℕ) → holds k (at es i) ≡ true → holds k (at es j) ≡ true → i ≡ j
    holds_unique i j p q = order (probed.chained i k p) (probed.chained j k q)
      where
        order : IsReached es n k i → IsReached es n k j → i ≡ j
        order a b = elim (order_cases a.steps b.steps) [
          | inl nearer ↦
              absurd
                (skips_not-holds k (at es i) (rw (← a.place_eq) at (b.passed a.steps nearer)) p)
          | inr (inl nearer) ↦
              absurd
                (skips_not-holds k (at es j) (rw (← b.place_eq) at (a.passed b.steps nearer)) q)
          | inr (inr same) ↦ a.place_eq ∙ ap (place n (home n k)) same ∙ sym b.place_eq
        ]

    pub occurrences-le-one : occurrences k es ≤ 1
    occurrences-le-one = occurrences_unique k es holds_unique

    -- A probe that meets a free entry has shown that the key is not there.
    absent_at :
        (d : ℕ)
        → IsPassed es n k (home n k) d
        → is_free (at es (place n (home n k) d)) ≡ true
        → (i : ℕ) → holds k (at es i) ≡ false
    absent_at d passed free i = elim (Bool-cases (holds k (at es i))) [
      | inr absent ↦ absent
      | inl there ↦ absurd (clash there (probed.chained i k there))
    ]
      where
        clash : holds k (at es i) ≡ true → IsReached es n k i → ⊥
        clash there r = elim (order_cases r.steps d) [
          | inl nearer ↦
              skips_not-holds k (at es i) (rw (← r.place_eq) at (passed r.steps nearer)) there
          | inr (inl nearer) ↦ skips_not-free k _ (r.passed d nearer) free
          | inr (inr same) ↦ free_not-holds k (at es i) (rw (r.place_eq, same) free) there
        ]

    -- What `find_entry` returns: the entry with the key, or a dead one where the key may be put.
    pub record Found (i : ℕ) : Type 0 where
      pub inside : i < n
      pub reached : IsReached es n k i
      pub known : (holds k (at es i) ≡ true) ⊎ (is_new (at es i) ≡ true) × (occurrences k es ≡ 0)

    before :
        (d e : ℕ)
        → IsPassed es n k (home n k) d
        → is_free (at es (place n (home n k) e)) ≡ true
        → d ≤ e
    before d e passed free = elim (order_cases e d) [
      | inl nearer ↦ absurd (skips_not-free k _ (passed e nearer) free)
      | inr (inl more) ↦ omega arith
      | inr (inr same) ↦ omega arith
    ]

    found :
        (e i : ℕ)
        → e < n
        → is_free (at es (place n (home n k) e)) ≡ true
        → Stop es n k none (home n k) i
        → Found i
    found e i short free (hit d passed eq here) = record {
      inside = rw eq (mod-lt _ (omega arith));
      reached = record {
        steps = d;
        short = omega (arith, before d e passed free);
        place_eq = eq;
        passed = passed;
      };
      known = inl here;
    }
    found e i short free (vacant d passed stop (inl t)) = absurd (none-ne-some t)
    found e i short free (vacant d passed stop (inr (c, le, eq, new))) = record {
      inside = rw eq (mod-lt _ (omega arith));
      reached = record {
        steps = c;
        short = omega (arith, before d e passed free);
        place_eq = eq;
        passed = λ b lt. passed b (omega arith);
      };
      known = inr (new, occurrences-absent k es (absent_at d passed stop));
    }

    find_entry-probe : 0 < n → find_entry hash es n k ≡ probe n es n k none (home n k)
    unfolding find_entry
    find_entry-probe h = ground arith

    pub find_entry-Found : (i : ℕ) × (find_entry hash es n k ≡ some i) × Found i
    find_entry-Found =
        let positive : 0 < n = omega (arith, probed.room) in
        let at_home = mod-lt (hash k) positive in
        let (j, inside, free) = free_index es (omega (arith, probed.room, probed.size)) in
        let (e, short, eq) = reach_index n (home n k) j at_home (omega (arith, probed.size)) in
        let free' : is_free (at es (place n (home n k) e)) ≡ true = rw eq free in
        let (i, run, stop) = probe-Stop es n k n none (home n k) e at_home short free' in
        (i, find_entry-probe positive ∙ run, found e i short free' stop)
