-- ===== src/RegAlloc/Join.antt =====
-- src/cc/regalloc.c: an interval gets a register, a free one or that of the interval it displaces.
use my9cc.RegAlloc.{Intervals, Bits, Info, at, bit, is_normal, insert_active}
use my9cc.RegAlloc.Frame.{
  mem, Distinct, count_true, mem-insert_active, length-insert_active, Distinct-insert_active,
}
use my9cc.RegAlloc.Expire.{IsApart}
use my9cc.RegAlloc.Safety.{class_of, IsActive, Tracks, Overlap, IsSafe, Keeps}
use my9cc.Prelude.{
  ℕ, suc, ◌<◌, ◌≡◌, ◌≢◌, ◌⊎◌, inl, inr, Bool, true, false, some, List, ◌∷◌, arith, if◌then◌else◌,
  length, Bool-cases, ℕ_discrete, ◌∙◌, sym,
}

module _ (is_flonum : ℕ → Bool) where
  -- The interval `li` of class `b`, which starts at `s`, joins the active ones in register `r`.
  pub record Joins (ivs ivs' : Intervals) (done : List ℕ) (s : ℕ) (b : Bool) (info : Info)
      (li r : ℕ) (front : List ℕ) (bits : Bits) : Type 0 where
    pub fresh : mem li done ≡ false
    pub class : class_of is_flonum ivs li ≡ b
    pub here : (at ivs li).start ≡ s
    pub below : r < info.phys_max
    pub keeps : Keeps is_flonum ivs ivs'
    pub got : (at ivs' li).phys ≡ some r
    pub unspilled : is_normal (at ivs' li).state ≡ true
    pub stay : (j : ℕ) → mem j front ≡ true → (mem j info.active ≡ true) × (at ivs' j ≡ at ivs j)
    pub free : (j : ℕ) → mem j front ≡ true → (at ivs j).phys ≢ some r
    pub kept :
        (j : ℕ)
        → j ≢ li
        → is_normal (at ivs' j).state ≡ true
        → (at ivs' j ≡ at ivs j) × (mem j info.active ≡ true → mem j front ≡ true)
    pub distinct : Distinct front
    pub width : length bits ≡ 16
    pub held : bit bits r ≡ true
    pub more : (q : ℕ) → bit info.using_bits q ≡ true → bit bits q ≡ true
    pub counted : count_true bits ≡ suc (length front)

  module _ {ivs ivs' : Intervals} {done : List ℕ} {s : ℕ} {b : Bool} {info : Info} {li r : ℕ}
      {front : List ℕ} {bits : Bits} (t : Tracks is_flonum ivs done s b info)
      (x : Joins ivs ivs' done s b info li r front bits) where
    not_in_front : mem li front ≡ false
    not_in_front = elim (Bool-cases (mem li front)) [
      | inr out ↦ out
      | inl inside ↦ absurd (clash ((t.members li (x.stay li inside).0).processed))
    ]
      where
        clash : mem li done ≡ true → ⊥
        clash h = cc (x.fresh)

    join_cases :
        (i : ℕ)
        → mem i (insert_active ivs' front li) ≡ true
        → (i ≡ li) ⊎ (i ≢ li) × (mem i front ≡ true)
    join_cases i m = elim (ℕ_discrete i li) [
      | yes e ↦ inl e
      | no ne ↦ inr (ne, ground (arith, mem-insert_active ivs' front li i))
    ]

    apart_front :
        (i j : ℕ)
        → mem i front ≡ true
        → mem j front ≡ true
        → i ≢ j
        → (at ivs' i).phys ≢ (at ivs' j).phys
    apart_front i j m n ne =
        let (mi, ei) = x.stay i m in let (mj, ej) = x.stay j n in rw (ei, ej) (t.apart i j mi mj ne)

    apart_new : (i : ℕ) → mem i front ≡ true → (at ivs' i).phys ≢ (at ivs' li).phys
    apart_new i m same = x.free i m (rw ((x.stay i m).1, x.got) at same)

    joined-IsApart : IsApart ivs' (insert_active ivs' front li)
    joined-IsApart i j m n ne = elim (join_cases i m) [
      | inl ei ↦ elim (join_cases j n) [
        | inl ej ↦ absurd (ne (ei ∙ sym ej))
        | inr (_, nj) ↦ λ same. apart_new j nj (rw ei at (sym same))
      ]
      | inr (_, mi) ↦ elim (join_cases j n) [
        | inl ej ↦ λ same. apart_new i mi (rw ej at same)
        | inr (_, nj) ↦ apart_front i j mi nj ne
      ]
    ]

    abbrev pub after : Bits → Info
    after used = record {
      active = insert_active ivs' front li;
      phys_max = info.phys_max;
      using_bits = bits;
      used_bits = used;
    }

    new-IsActive : (used : Bits) → IsActive is_flonum ivs' (li ∷ done) b (after used) li
    new-IsActive used = record {
      processed = ground arith;
      class = rw (x.keeps.virt li) x.class;
      unspilled = x.unspilled;
      register = r;
      phys = x.got;
      below = x.below;
      held = x.held;
    }

    old-IsActive :
        (used : Bits) (i : ℕ)
        → mem i front ≡ true
        → IsActive is_flonum ivs' (li ∷ done) b (after used) i
    old-IsActive used i m =
        let (there, e) = x.stay i m in
        let a = t.members i there in
        record {
          processed = ground (arith, a.processed);
          class = rw e a.class;
          unspilled = rw e a.unspilled;
          register = a.register;
          phys = rw e a.phys;
          below = a.below;
          held = x.more a.register a.held;
        }

    pub joined-Tracks : (used : Bits) → Tracks is_flonum ivs' (li ∷ done) s b (after used)
    joined-Tracks used = record {
      width = x.width;
      narrow = t.narrow;
      counted = x.counted ∙ sym (length-insert_active ivs' front li);
      distinct = Distinct-insert_active ivs' front li x.distinct not_in_front;
      apart = joined-IsApart;
      members = λ i m. elim (join_cases i m) [
        | inl e ↦ rw e (new-IsActive used)
        | inr (_, mi) ↦ old-IsActive used i mi
      ];
      expired = λ i m c n. elim (ℕ_discrete i li) [
        | yes e ↦ inl (ground (arith, mem-insert_active ivs' front li i))
        | no ne ↦
            let (e, back) = x.kept i ne n in
            elim (t.expired i (ground arith) (rw e at c) (rw e at n)) [
              | inl there ↦ inl (ground (arith, back there, mem-insert_active ivs' front li i))
              | inr over ↦ inr (rw e over)
            ]
      ];
    }

    -- Whatever overlaps the new interval is still active, so it has another register.
    apart_from_new :
        (i : ℕ)
        → i ≢ li
        → mem i done ≡ true
        → is_normal (at ivs' i).state ≡ true
        → class_of is_flonum ivs' i ≡ b
        → (at ivs' li).start < (at ivs' i).end
        → (at ivs' i).phys ≢ (at ivs' li).phys
    apart_from_new i ne m n c lt =
        let (e, back) = x.kept i ne n in
        elim (t.expired i m (rw e at c) (rw e at n)) [
          | inl there ↦ apart_new i (back there)
          | inr over ↦ absurd (omega (arith, x.keeps.end i, x.keeps.start li, x.here))
        ]

    pub joined-IsSafe :
        (phys_max fphys_max : ℕ)
        → info.phys_max ≡ (if b then fphys_max else phys_max)
        → IsSafe is_flonum ivs done phys_max fphys_max
        → IsSafe is_flonum ivs' (li ∷ done) phys_max fphys_max
    joined-IsSafe phys_max fphys_max size safe = record {
      disjoint = λ i j m n ne ni nj c ov.
          disjoint i j m n ne ni nj c ov (ℕ_discrete i li) (ℕ_discrete j li);
      assigned = λ i m n. elim (ℕ_discrete i li) [
        | yes e ↦ assigned_new i e
        | no ne ↦ let (e, _) = x.kept i ne n in rw e (safe.assigned i (ground arith) (rw e at n))
      ];
    }
      where
        new_class : class_of is_flonum ivs' li ≡ b
        new_class = rw (x.keeps.virt li) x.class

        assigned_new :
            (i : ℕ)
            → i ≡ li
            → (q : ℕ) × ((at ivs' i).phys ≡ some q)
              × (q < (if class_of is_flonum ivs' i then fphys_max else phys_max))
        assigned_new i e = rw e (r, x.got, rw (new_class, ← size) x.below)

        disjoint :
            (i j : ℕ)
            → mem i (li ∷ done) ≡ true
            → mem j (li ∷ done) ≡ true
            → i ≢ j
            → is_normal (at ivs' i).state ≡ true
            → is_normal (at ivs' j).state ≡ true
            → class_of is_flonum ivs' i ≡ class_of is_flonum ivs' j
            → Overlap is_flonum ivs' i j
            → Dec (i ≡ li)
            → Dec (j ≡ li)
            → (at ivs' i).phys ≢ (at ivs' j).phys
        disjoint i j m n ne ni nj c ov (yes p) (yes q) same = absurd (ne (p ∙ sym q))
        disjoint i j m n ne ni nj c ov (yes p) (no q) same =
            apart_from_new j q (ground arith) nj (sym c ∙ rw p new_class) (rw p at ov.0)
              (rw p at (sym same))
        disjoint i j m n ne ni nj c ov (no p) (yes q) same =
            apart_from_new i p (ground arith) ni (c ∙ rw q new_class) (rw q at ov.1) (rw q at same)
        disjoint i j m n ne ni nj c ov (no p) (no q) same =
            let (e, _) = x.kept i p ni in
            let (f, _) = x.kept j q nj in
            safe.disjoint i j (ground arith) (ground arith) ne (rw e at ni) (rw f at nj)
              (rw (e, f) at c) (rw (e, f) at ov) (rw (e, f) at same)
