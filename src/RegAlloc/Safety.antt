-- ===== src/RegAlloc/Safety.antt =====
-- src/cc/regalloc.c: the invariant of the linear scan.
use my9cc.RegAlloc.{Intervals, Info, at, bit, is_normal, expire}
use my9cc.RegAlloc.Frame.{mem, Distinct, count_true}
use my9cc.RegAlloc.Expire.{IsApart, expire-Expired}
use my9cc.Prelude.{
  ℕ, ◌≤◌, ◌<◌, ◌≡◌, ◌≢◌, ◌⊎◌, inl, inr, Bool, true, Option, some, List, ◌∷◌, arith, if◌then◌else◌,
  length, ◌∙◌,
}

module _ (is_flonum : ℕ → Bool) where
  -- The class of registers that an interval wants.
  abbrev pub class_of : Intervals → ℕ → Bool
  class_of ivs i = is_flonum (at ivs i).virt

  pub record IsActive (ivs : Intervals) (done : List ℕ) (b : Bool) (info : Info) (i : ℕ)
      : Type 0 where
    pub processed : mem i done ≡ true
    pub class : class_of ivs i ≡ b
    pub unspilled : is_normal (at ivs i).state ≡ true
    pub register : ℕ
    pub phys : (at ivs i).phys ≡ some register
    pub below : register < info.phys_max
    pub held : bit info.using_bits register ≡ true

  -- What one `Info` knows after the intervals `done`, when the scan has come to position `s`.
  pub record Tracks (ivs : Intervals) (done : List ℕ) (s : ℕ) (b : Bool) (info : Info)
      : Type 0 where
    pub width : length info.using_bits ≡ 16
    pub narrow : info.phys_max ≤ 16
    pub counted : count_true info.using_bits ≡ length info.active
    pub distinct : Distinct info.active
    pub apart : IsApart ivs info.active
    pub members : (i : ℕ) → mem i info.active ≡ true → IsActive ivs done b info i
    pub expired :
        (i : ℕ)
        → mem i done ≡ true
        → class_of ivs i ≡ b
        → is_normal (at ivs i).state ≡ true
        → (mem i info.active ≡ true) ⊎ ((at ivs i).end ≤ s)

  pub expire-Tracks :
      {ivs : Intervals} {done : List ℕ} {s : ℕ} {b : Bool} {info : Info} (start : ℕ)
      → s ≤ start
      → Tracks ivs done s b info
      → Tracks ivs done start b (expire ivs start info)
  unfolding expire
  expire-Tracks {ivs} {done} {s} {b} {info} start h t =
      let x =
        expire-Expired ivs start info.active info.using_bits t.distinct t.apart
          (λ i m. let a = t.members i m in (a.register, a.phys, a.held)) in
      record {
        width = x.width ∙ t.width;
        narrow = t.narrow;
        counted = omega (arith, x.counted, t.counted);
        distinct = x.distinct;
        apart = λ i j m n. t.apart i j (x.kept i m) (x.kept j n);
        members = λ i m.
            let a = t.members i (x.kept i m) in
            let (r, e, b) = x.held i m in
            record {
              processed = a.processed;
              class = a.class;
              unspilled = a.unspilled;
              register = r;
              phys = e;
              below = same_register (a.phys) e a.below;
              held = b;
            };
        expired = λ i m c n. elim (t.expired i m c n) [
          | inl there ↦ x.gone i there
          | inr over ↦ inr (omega arith)
        ];
      }
    where
      same_register :
          {o : Option ℕ} {q r : ℕ} → o ≡ some q → o ≡ some r → q < info.phys_max → r < info.phys_max
      same_register {o} {q} {r} e f lt = let g : q ≡ r = cc in rw (← g) lt

  -- Two intervals are live at a common position.
  abbrev pub Overlap : Intervals → ℕ → ℕ → Type 0
  Overlap ivs i j = ((at ivs i).start < (at ivs j).end) × ((at ivs j).start < (at ivs i).end)

  -- Overlapping intervals of one class that are kept in registers are in different ones, and each
  -- has a register of its class.
  pub record IsSafe (ivs : Intervals) (done : List ℕ) (phys_max fphys_max : ℕ) : Type 0 where
    pub disjoint :
        (i j : ℕ)
        → mem i done ≡ true
        → mem j done ≡ true
        → i ≢ j
        → is_normal (at ivs i).state ≡ true
        → is_normal (at ivs j).state ≡ true
        → class_of ivs i ≡ class_of ivs j
        → Overlap ivs i j
        → (at ivs i).phys ≢ (at ivs j).phys
    pub assigned :
        (i : ℕ)
        → mem i done ≡ true
        → is_normal (at ivs i).state ≡ true
        → (r : ℕ) × ((at ivs i).phys ≡ some r)
          × (r < (if class_of ivs i then fphys_max else phys_max))

  -- The scan changes only registers and states.
  pub record Keeps (ivs ivs' : Intervals) : Type 0 where
    pub size : length ivs' ≡ length ivs
    pub virt : (j : ℕ) → (at ivs' j).virt ≡ (at ivs j).virt
    pub start : (j : ℕ) → (at ivs' j).start ≡ (at ivs j).start
    pub end : (j : ℕ) → (at ivs' j).end ≡ (at ivs j).end

  -- The other class is not touched.
  pub other_class :
      {ivs ivs' : Intervals} {done : List ℕ} {s : ℕ} {c : Bool} {info : Info} (li : ℕ)
      → Keeps ivs ivs'
      → ((j : ℕ) → class_of ivs j ≡ c → (j ≢ li) × (at ivs' j ≡ at ivs j))
      → Tracks ivs done s c info
      → Tracks ivs' (li ∷ done) s c info
  other_class {ivs} {ivs'} {done} {s} {c} {info} li k same t = record {
    width = t.width;
    narrow = t.narrow;
    counted = t.counted;
    distinct = t.distinct;
    apart = λ i j m n ne.
        let a = (same i (t.members i m).class).1 in
        let b = (same j (t.members j n).class).1 in rw (a, b) (t.apart i j m n ne);
    members = λ i m.
        let a = t.members i m in
        let e = (same i a.class).1 in
        record {
          processed = ground (arith, a.processed);
          class = rw e a.class;
          unspilled = rw e a.unspilled;
          register = a.register;
          phys = rw e a.phys;
          below = a.below;
          held = a.held;
        };
    expired = λ i m cl n.
        let cl' : class_of ivs i ≡ c = rw (k.virt i) at cl in
        let (ne, e) = same i cl' in rw e (t.expired i (ground (arith, ne)) cl' (rw e at n));
  }
