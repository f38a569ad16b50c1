-- ===== src/RegAlloc/Outcome.antt =====
-- src/cc/regalloc.c: the branches of the allocation of one interval.
use my9cc.RegAlloc.{
  LiveInterval, spill, Intervals, Bits, Info, at, bit, unset, is_normal, insert_active,
}
use my9cc.RegAlloc.Frame.{mem, count_true-set-true}
use my9cc.RegAlloc.Safety.{class_of, Tracks, IsSafe, Keeps}
use my9cc.RegAlloc.Join.{Joins, joined-Tracks, joined-IsSafe}
use my9cc.RegAlloc.Place.{set-Keeps, spilled-Tracks, spilled-IsSafe}
use my9cc.Prelude.{
  ℕ, suc, ◌<◌, ◌≡◌, ◌≢◌, refl, Bool, true, false, not, some, List, ◌∷◌, arith, if◌then◌else◌,
  length, ℕ_discrete, ◌∙◌, sym, set, length-set, get_or-set_self, get_or-set_ne, ap,
}

module _ (is_flonum : ℕ → Bool) where
  -- What the placement of the interval `li`, of class `b`, leaves.
  pub record Outcome (ivs : Intervals) (done : List ℕ) (s : ℕ) (b : Bool) (info : Info) (li : ℕ)
      (r : Intervals × Info) : Type 0 where
    pub keeps : Keeps is_flonum ivs r.0
    pub tracks : Tracks is_flonum r.0 (li ∷ done) s b r.1
    pub bound : r.1.phys_max ≡ info.phys_max
    pub others : (j : ℕ) → class_of is_flonum ivs j ≡ not b → (j ≢ li) × (at r.0 j ≡ at ivs j)
    pub rest : (j : ℕ) → mem j done ≡ false → j ≢ li → at r.0 j ≡ at ivs j
    pub safe :
        (phys_max fphys_max : ℕ)
        → info.phys_max ≡ (if b then fphys_max else phys_max)
        → IsSafe is_flonum ivs done phys_max fphys_max
        → IsSafe is_flonum r.0 (li ∷ done) phys_max fphys_max

  -- An interval that can be placed.
  pub record Ready (ivs : Intervals) (done : List ℕ) (s : ℕ) (b : Bool) (info : Info) (li : ℕ)
      : Type 0 where
    pub tracks : Tracks is_flonum ivs done s b info
    pub fresh : mem li done ≡ false
    pub class : class_of is_flonum ivs li ≡ b
    pub here : (at ivs li).start ≡ s
    pub inside : li < length ivs
    pub waiting : is_normal (at ivs li).state ≡ true

  other_bits : (bs : Bits) (q r : ℕ) → bit bs q ≡ true → bit bs r ≡ false → q ≢ r
  other_bits bs q r h g e = clash (rw e at h)
    where
      clash : bit bs r ≡ true → ⊥
      clash t = cc g

  of_not : (b c : Bool) → c ≡ b → c ≡ not b → ⊥
  of_not true c e f = cc (e, f)
  of_not false c e f = cc (e, f)

  pub not_self :
      (ivs : Intervals) (b : Bool) (i j : ℕ)
      → class_of is_flonum ivs i ≡ b
      → class_of is_flonum ivs j ≡ not b
      → j ≢ i
  not_self ivs b i j c d e = of_not b (class_of is_flonum ivs j) (rw e c) d

  module _ {ivs : Intervals} {done : List ℕ} {s : ℕ} {b : Bool} {info : Info} {li : ℕ}
      (p : Ready ivs done s b info li) where
    -- A free register.
    abbrev given : ℕ → LiveInterval
    given r = record (at ivs li) { phys = some r }

    abbrev using : ℕ → Bits
    using r = set info.using_bits r true

    given-Keeps : (r : ℕ) → Keeps is_flonum ivs (set ivs li (given r))
    given-Keeps r = set-Keeps is_flonum ivs li (given r) p.inside refl refl refl

    given_here : (r : ℕ) → at (set ivs li (given r)) li ≡ given r
    given_here r = get_or-set_self ivs li (given r) unset p.inside

    given_other : (r j : ℕ) → j ≢ li → at (set ivs li (given r)) j ≡ at ivs j
    given_other r j ne = get_or-set_ne ivs li j (given r) unset (λ e. ne (sym e))

    pub active_not_li : (j : ℕ) → mem j info.active ≡ true → j ≢ li
    active_not_li j m e = clash (rw e at (p.tracks.members j m).processed)
      where
        clash : mem li done ≡ true → ⊥
        clash h = cc (p.fresh)

    given-Joins :
        (r : ℕ)
        → r < info.phys_max
        → bit info.using_bits r ≡ false
        → Joins is_flonum ivs (set ivs li (given r)) done s b info li r info.active (using r)
    given-Joins r lt clear = record {
      fresh = p.fresh;
      class = p.class;
      here = p.here;
      below = lt;
      keeps = given-Keeps r;
      got = ap (λ (v : LiveInterval). v.phys) (given_here r);
      unspilled = rw (given_here r) p.waiting;
      stay = λ j m. (m, given_other r j (active_not_li j m));
      free = λ j m.
          let a = p.tracks.members j m in
          λ e. other_bits info.using_bits a.register r a.held clear (same_some (sym a.phys ∙ e));
      kept = λ j ne n. (given_other r j ne, λ m. m);
      distinct = p.tracks.distinct;
      width = length-set info.using_bits r true ∙ p.tracks.width;
      held = get_or-set_self info.using_bits r true false in_range;
      more = λ q h. more q h (ℕ_discrete r q);
      counted = count_true-set-true info.using_bits r in_range clear ∙ ap suc p.tracks.counted;
    }
      where
        in_range : r < length info.using_bits
        in_range = omega (arith, p.tracks.width, p.tracks.narrow)

        same_some : {q t : ℕ} → some q ≡ some t → q ≡ t
        same_some h = cc

        more : (q : ℕ) → bit info.using_bits q ≡ true → Dec (r ≡ q) → bit (using r) q ≡ true
        more q h (yes e) = rw (← e) (get_or-set_self info.using_bits r true false in_range)
        more q h (no ne) = rw (get_or-set_ne info.using_bits r q true false ne) h

    pub given-Outcome :
        (r : ℕ) (used : Bits)
        → r < info.phys_max
        → bit info.using_bits r ≡ false
        → Outcome ivs done s b info li (
          set ivs li (given r),
          record {
            active = insert_active (set ivs li (given r)) info.active li;
            phys_max = info.phys_max;
            using_bits = using r;
            used_bits = used;
          },
        )
    given-Outcome r used lt clear =
        let x = given-Joins r lt clear in
        record {
          keeps = given-Keeps r;
          tracks = joined-Tracks is_flonum p.tracks x used;
          bound = refl;
          others = λ j c. let ne = not_self ivs b li j p.class c in (ne, given_other r j ne);
          rest = λ j _ ne. given_other r j ne;
          safe = joined-IsSafe is_flonum p.tracks x;
        }

    -- The interval itself is spilled.
    abbrev spilled_with : ℕ → LiveInterval
    spilled_with n = record (at ivs li) { phys = some n; state = spill }

    pub spilled-Outcome :
        (n : ℕ) (used : Bits)
        → Outcome ivs done s b info li
            (set ivs li (spilled_with n), record info { used_bits = used })
    spilled-Outcome n used =
        let keeps = set-Keeps is_flonum ivs li (spilled_with n) p.inside refl refl refl in
        record {
          keeps = keeps;
          tracks = spilled-Tracks is_flonum done li p.fresh keeps other off used p.tracks;
          bound = refl;
          others = λ j c. let ne = not_self ivs b li j p.class c in (ne, other j ne);
          rest = λ j _ ne. other j ne;
          safe = λ _ _ _ h. spilled-IsSafe is_flonum done li p.fresh keeps other off h;
        }
      where
        other : (j : ℕ) → j ≢ li → at (set ivs li (spilled_with n)) j ≡ at ivs j
        other j ne = get_or-set_ne ivs li j (spilled_with n) unset (λ e. ne (sym e))

        off : is_normal (at (set ivs li (spilled_with n)) li).state ≡ false
        off = rw (get_or-set_self ivs li (spilled_with n) unset p.inside)
