-- ===== src/RegAlloc/Placed.antt =====
-- src/cc/regalloc.c: one interval is placed, whichever branch is taken.
use my9cc.RegAlloc.{
  spill, Intervals, Info, at, insert_active, find_free, or_bits, split_at_interval, place,
}
use my9cc.RegAlloc.Frame.{Splits, split_last-Splits, find_free_finds}
use my9cc.RegAlloc.Outcome.{Outcome, Ready, given-Outcome, spilled-Outcome}
use my9cc.RegAlloc.Steal.{stolen-Outcome}
use my9cc.Prelude.{
  ℕ, ◌<◌, ◌≡◌, inl, inr, Bool, true, false, some, List, [], ◌∷◌, arith, ltb, leb, length,
  Bool-cases, set,
}

module _ (is_flonum : ℕ → Bool) where
  abbrev pub Placed : ℕ → Intervals → List ℕ → ℕ → Bool → Info → ℕ → Type 0
  Placed n ivs done s b info li =
      (r : Intervals × Info) × (place n ivs info li ≡ some r)
      × Outcome is_flonum ivs done s b info li r

  module _ {ivs : Intervals} {done : List ℕ} {s : ℕ} {b : Bool} {info : Info} {li : ℕ}
      (p : Ready is_flonum ivs done s b info li) (n : ℕ) where
    -- A register is free.
    run_free :
        (r : ℕ)
        → leb info.phys_max (length info.active) ≡ false
        → find_free info.using_bits info.phys_max 0 ≡ some r
        → let ivs' = set ivs li (record (at ivs li) { phys = some r }) in
          place n ivs info li
          ≡ some (
            ivs',
            record info {
              active = insert_active ivs' info.active li;
              using_bits = set info.using_bits r true;
              used_bits = or_bits info.used_bits (set info.using_bits r true);
            },
          )
    unfolding place
    run_free r h e = rw (h, e)

    free-Placed : length info.active < info.phys_max → Placed n ivs done s b info li
    free-Placed h =
        let (r, e, lt, clear) =
          find_free_finds info.using_bits info.phys_max (omega (arith, p.tracks.counted)) in
        (
          _,
          run_free r (ground arith) e,
          given-Outcome is_flonum p r (or_bits info.used_bits (set info.using_bits r true)) lt
              clear,
        )

    run_full :
        (r : Intervals × List ℕ)
        → leb info.phys_max (length info.active) ≡ true
        → split_at_interval n ivs info.active li ≡ some r
        → place n ivs info li
          ≡ some (
            r.0,
            record info { active = r.1; used_bits = or_bits info.used_bits info.using_bits },
          )
    unfolding place
    run_full r h e = rw (h, e)

    module _ {front : List ℕ} {last : ℕ} (x : Splits info.active front last) where
      run_steal :
          ltb (at ivs li).end (at ivs last).end ≡ true
          → let taken = set ivs li (record (at ivs li) { phys = (at ivs last).phys }) in
            let ivs' = set taken last (record (at taken last) { phys = some n; state = spill }) in
            split_at_interval n ivs info.active li ≡ some (ivs', insert_active ivs' front li)
      unfolding split_at_interval
      run_steal h = rw (x.run, h)

      run_keep :
          ltb (at ivs li).end (at ivs last).end ≡ false
          → split_at_interval n ivs info.active li
            ≡ some (set ivs li (record (at ivs li) { phys = some n; state = spill }), info.active)
      unfolding split_at_interval
      run_keep h = rw (x.run, h)

      split-Placed : leb info.phys_max (length info.active) ≡ true → Placed n ivs done s b info li
      split-Placed full = elim (Bool-cases (ltb (at ivs li).end (at ivs last).end)) [
        | inl sooner ↦ (
          _,
          run_full _ full (run_steal sooner),
          stolen-Outcome is_flonum p x n (or_bits info.used_bits info.using_bits),
        )
        | inr later ↦ (
          _,
          run_full _ full (run_keep later),
          spilled-Outcome is_flonum p n (or_bits info.used_bits info.using_bits),
        )
      ]

    last-Splits :
        (active : List ℕ)
        → 0 < length active
        → (front : List ℕ) × (last : ℕ) × Splits active front last
    last-Splits [] h = absurd (omega arith)
    last-Splits (q ∷ qs) h = split_last-Splits q qs

    -- Every interval is placed, as long as there is a register.
    pub place-Placed : 0 < info.phys_max → Placed n ivs done s b info li
    place-Placed some_register = elim (Bool-cases (leb info.phys_max (length info.active))) [
      | inr room ↦ free-Placed (ground arith)
      | inl full ↦
          let nonempty : 0 < length info.active = ground arith in
          let (front, last, x) = last-Splits info.active nonempty in split-Placed x full
    ]
