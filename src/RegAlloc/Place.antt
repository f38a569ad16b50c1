-- ===== src/RegAlloc/Place.antt =====
-- src/cc/regalloc.c: one interval is given a register, or it or another one is spilled.
use my9cc.RegAlloc.{LiveInterval, Intervals, Bits, Info, at, unset, is_normal}
use my9cc.RegAlloc.Frame.{mem}
use my9cc.RegAlloc.Safety.{Tracks, IsSafe, Keeps}
use my9cc.Prelude.{
  ℕ, ◌<◌, ◌≡◌, ◌≢◌, ◌⊎◌, inl, inr, Bool, true, false, List, ◌∷◌, arith, length, ℕ_discrete, ◌∙◌,
  sym, set, length-set, get_or-set_self, get_or-set_ne,
}

pub set_cases :
    (ivs : Intervals) (i : ℕ) (e : LiveInterval)
    → i < length ivs
    → (j : ℕ) → (j ≡ i) × (at (set ivs i e) j ≡ e) ⊎ (j ≢ i) × (at (set ivs i e) j ≡ at ivs j)
set_cases ivs i e h j = elim (ℕ_discrete j i) [
  | yes p ↦ inl (p, rw p (get_or-set_self ivs i e unset h))
  | no p ↦ inr (p, get_or-set_ne ivs i j e unset (λ q. p (sym q)))
]

module _ (is_flonum : ℕ → Bool) where
  -- A write that keeps the range of the interval.
  pub set-Keeps :
      (ivs : Intervals) (i : ℕ) (e : LiveInterval)
      → i < length ivs
      → e.virt ≡ (at ivs i).virt
      → e.start ≡ (at ivs i).start
      → e.end ≡ (at ivs i).end
      → Keeps is_flonum ivs (set ivs i e)
  set-Keeps ivs i e h v s n = record {
    size = length-set ivs i e;
    virt =
        λ j. elim (set_cases ivs i e h j) [ inl (p, new) ↦ rw (new, p) v | inr (_, old) ↦ rw old ];
    start =
        λ j. elim (set_cases ivs i e h j) [ inl (p, new) ↦ rw (new, p) s | inr (_, old) ↦ rw old ];
    end =
        λ j. elim (set_cases ivs i e h j) [ inl (p, new) ↦ rw (new, p) n | inr (_, old) ↦ rw old ];
  }

  pub Keeps-trans :
      {a b c : Intervals} → Keeps is_flonum a b → Keeps is_flonum b c → Keeps is_flonum a c
  Keeps-trans p q = record {
    size = q.size ∙ p.size;
    virt = λ j. q.virt j ∙ p.virt j;
    start = λ j. q.start j ∙ p.start j;
    end = λ j. q.end j ∙ p.end j;
  }

  -- An interval that ends up without a register changes nothing for the others.
  module _ {ivs ivs' : Intervals} (done : List ℕ) (li : ℕ) (fresh : mem li done ≡ false)
      (keeps : Keeps is_flonum ivs ivs') (same : (j : ℕ) → j ≢ li → at ivs' j ≡ at ivs j)
      (off : is_normal (at ivs' li).state ≡ false) where
    not_li : (j : ℕ) → mem j done ≡ true → j ≢ li
    not_li j m e = clash (rw e at m)
      where
        clash : mem li done ≡ true → ⊥
        clash h = cc fresh

    normal_not_li : (j : ℕ) → is_normal (at ivs' j).state ≡ true → j ≢ li
    normal_not_li j n e = clash (rw e at n)
      where
        clash : is_normal (at ivs' li).state ≡ true → ⊥
        clash h = cc off

    pub spilled-Tracks :
        {s : ℕ} {c : Bool} {info : Info} (used : Bits)
        → Tracks is_flonum ivs done s c info
        → Tracks is_flonum ivs' (li ∷ done) s c (record info { used_bits = used })
    spilled-Tracks used t = record {
      width = t.width;
      narrow = t.narrow;
      counted = t.counted;
      distinct = t.distinct;
      apart = λ i j m n ne.
          rw
            (
              same i (not_li i (t.members i m).processed),
              same j (not_li j (t.members j n).processed),
            )
            (t.apart i j m n ne);
      members = λ i m.
          let a = t.members i m in
          let e = same i (not_li i a.processed) in
          record {
            processed = ground (arith, a.processed);
            class = rw e a.class;
            unspilled = rw e a.unspilled;
            register = a.register;
            phys = rw e a.phys;
            below = a.below;
            held = a.held;
          };
      expired = λ i m c n.
          let ne = normal_not_li i n in
          let e = same i ne in rw e (t.expired i (ground arith) (rw e at c) (rw e at n));
    }

    pub spilled-IsSafe :
        {phys_max fphys_max : ℕ}
        → IsSafe is_flonum ivs done phys_max fphys_max
        → IsSafe is_flonum ivs' (li ∷ done) phys_max fphys_max
    spilled-IsSafe safe = record {
      disjoint = λ i j m n ne ni nj c ov.
          let p = normal_not_li i ni in
          let q = normal_not_li j nj in
          let e = same i p in
          let f = same j q in
          rw (e, f)
            (safe.disjoint i j (ground arith) (ground arith) ne (rw e at ni) (rw f at nj)
              (rw (e, f) at c) (rw (e, f) at ov));
      assigned = λ i m n.
          let p = normal_not_li i n in
          let e = same i p in rw e (safe.assigned i (ground arith) (rw e at n));
    }
