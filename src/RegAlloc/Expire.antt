-- ===== src/RegAlloc/Expire.antt =====
-- src/cc/regalloc.c: `expire_old_intervals` frees the registers of what has ended.
use my9cc.RegAlloc.{Intervals, Bits, at, bit, clear_bit, expire_old_intervals}
use my9cc.RegAlloc.Frame.{mem, Distinct, count_true, count_true-set-false}
use my9cc.Prelude.{
  ℕ, ◌+◌, ◌≤◌, ◌≡◌, ◌≢◌, refl, ◌⊎◌, inl, inr, true, false, some, List, [], ◌∷◌, arith, ltb, length,
  set, length-set, get_or-set_ne, Bool-cases, ℕ_discrete, ◌∙◌, sym,
}

-- Every member has a register, and its bit is set.
abbrev pub HasBit : Intervals → Bits → ℕ → Type 0
HasBit ivs bits i = (r : ℕ) × ((at ivs i).phys ≡ some r) × (bit bits r ≡ true)

abbrev pub IsApart : Intervals → List ℕ → Type 0
IsApart ivs active =
    (i j : ℕ)
    → mem i active ≡ true
    → mem j active ≡ true
    → i ≢ j
    → (at ivs i).phys ≢ (at ivs j).phys

pub record Expired (ivs : Intervals) (active : List ℕ) (bits : Bits) (start : ℕ) (r : List ℕ × Bits)
    : Type 0 where
  pub kept : (i : ℕ) → mem i r.0 ≡ true → mem i active ≡ true
  pub held : (i : ℕ) → mem i r.0 ≡ true → HasBit ivs r.1 i
  pub gone : (i : ℕ) → mem i active ≡ true → (mem i r.0 ≡ true) ⊎ ((at ivs i).end ≤ start)
  pub distinct : Distinct r.0
  pub width : length r.1 ≡ length bits
  pub counted : count_true r.1 + length active ≡ count_true bits + length r.0

module _ (ivs : Intervals) (start : ℕ) where
  cleared :
      (p : ℕ) (bits : Bits) (r : ℕ)
      → (at ivs p).phys ≡ some r
      → clear_bit bits (at ivs p).phys ≡ set bits r false
  cleared p bits r e = rw e

  -- A bit of another register is not touched.
  still_held :
      (bits : Bits) (i r : ℕ)
      → (at ivs i).phys ≢ some r
      → HasBit ivs bits i
      → HasBit ivs (set bits r false) i
  still_held bits i r ne (q, e, h) =
      (q, e, rw (get_or-set_ne bits r q false false (λ same. ne (rw same e))) h)

  other_register :
      (p : ℕ) (ps : List ℕ) (r i : ℕ)
      → Distinct (p ∷ ps)
      → IsApart ivs (p ∷ ps)
      → (at ivs p).phys ≡ some r
      → mem i ps ≡ true
      → (at ivs i).phys ≢ some r
  other_register p ps r i d apart e m same =
      let ne : i ≢ p = λ q. clash (rw q at m) in
      apart i p (ground arith) (ground arith) ne (same ∙ sym e)
    where
      clash : mem p ps ≡ true → ⊥
      clash t = cc (d.0)

  -- One interval more that has ended.
  expire_step :
      (p : ℕ) (ps : List ℕ) (bits : Bits) (r : ℕ) (result : List ℕ × Bits)
      → Distinct (p ∷ ps)
      → (at ivs p).phys ≡ some r
      → bit bits r ≡ true
      → (at ivs p).end ≤ start
      → Expired ivs ps (set bits r false) start result
      → Expired ivs (p ∷ ps) bits start result
  expire_step p ps bits r result d e b over x = record {
    kept = λ i m. ground (arith, x.kept i m);
    held = x.held;
    gone = λ i m. elim (ℕ_discrete i p) [
      | yes same ↦ inr (rw same over)
      | no other ↦ x.gone i (ground arith)
    ];
    distinct = x.distinct;
    width = x.width ∙ length-set bits r false;
    counted = omega (arith, x.counted, count_true-set-false bits r b);
  }

  pub expire-Expired :
      (active : List ℕ) (bits : Bits)
      → Distinct active
      → IsApart ivs active
      → ((i : ℕ) → mem i active ≡ true → HasBit ivs bits i)
      → Expired ivs active bits start (expire_old_intervals ivs active bits start)
  unfolding expire_old_intervals
  expire-Expired [] bits d apart held = record {
    kept = λ i m. m;
    held = held;
    gone = λ i m. inl m;
    distinct = tt;
    width = refl;
    counted = refl;
  }
  expire-Expired (p ∷ ps) bits d apart held = elim (Bool-cases (ltb start (at ivs p).end)) [
    | inl live ↦ rw live (record {
      kept = λ i m. m;
      held = held;
      gone = λ i m. inl m;
      distinct = d;
      width = refl;
      counted = refl;
    })
    | inr over ↦
        let (r, e, b) = held p (ground arith) in
        rw (over, cleared p bits r e)
          (expire_step p ps bits r (expire_old_intervals ivs ps (set bits r false) start) d e b
            (ground arith)
            (expire-Expired ps (set bits r false) d.1
              (λ i j m n. apart i j (ground arith) (ground arith))
              (λ i m.
                still_held bits i r (other_register p ps r i d apart e m) (held i (ground arith)))))
  ]
