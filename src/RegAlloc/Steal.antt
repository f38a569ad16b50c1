-- ===== src/RegAlloc/Steal.antt =====
-- src/cc/regalloc.c: `split_at_interval` where the last active interval gives its register away.
use my9cc.RegAlloc.{LiveInterval, spill, Intervals, Bits, Info, at, unset, is_normal, insert_active}
use my9cc.RegAlloc.Frame.{mem, Splits}
use my9cc.RegAlloc.Safety.{IsActive, Keeps}
use my9cc.RegAlloc.Join.{Joins, joined-Tracks, joined-IsSafe}
use my9cc.RegAlloc.Place.{set-Keeps, Keeps-trans}
use my9cc.RegAlloc.Outcome.{Outcome, Ready, active_not_li, not_self}
use my9cc.Prelude.{
  ℕ, zero, suc, ◌<◌, ◌≡◌, ◌≢◌, refl, Bool, true, false, none, some, List, [], ◌∷◌, arith, length,
  ◌∙◌, sym, set, get_or-set_self, get_or-set_ne, ap,
}

-- Only an interval of the array has a register.
pub lt-length_of_phys : (ivs : Intervals) (i r : ℕ) → (at ivs i).phys ≡ some r → i < length ivs
lt-length_of_phys [] i r h = absurd (clash h)
  where
    clash : none ≡ some r → ⊥
    clash e = cc
lt-length_of_phys (v ∷ ivs) zero r h = omega arith
lt-length_of_phys (v ∷ ivs) (suc i) r h = omega (arith, lt-length_of_phys ivs i r h)

module _ (is_flonum : ℕ → Bool) where
  module _ {ivs : Intervals} {done : List ℕ} {s : ℕ} {b : Bool} {info : Info} {li : ℕ}
      (p : Ready is_flonum ivs done s b info li) {front : List ℕ} {last : ℕ}
      (x : Splits info.active front last) where
    victim : mem last info.active ≡ true
    victim = ground (arith, x.members last)

    victim-IsActive : IsActive is_flonum ivs done b info last
    victim-IsActive = p.tracks.members last victim

    abbrev taken : Intervals
    taken = set ivs li (record (at ivs li) { phys = (at ivs last).phys })

    abbrev stolen : ℕ → Intervals
    stolen n = set taken last (record (at taken last) { phys = some n; state = spill })

    last_not_li : last ≢ li
    last_not_li = active_not_li is_flonum p last victim

    taken-Keeps : Keeps is_flonum ivs taken
    taken-Keeps =
        set-Keeps is_flonum ivs li (record (at ivs li) { phys = (at ivs last).phys }) p.inside refl
          refl refl

    last_inside : last < length taken
    last_inside =
        let a = victim-IsActive in
        omega (arith, lt-length_of_phys ivs last a.register a.phys, taken-Keeps.size)

    stolen-Keeps : (n : ℕ) → Keeps is_flonum ivs (stolen n)
    stolen-Keeps n = Keeps-trans is_flonum taken-Keeps (
        set-Keeps is_flonum taken last (record (at taken last) { phys = some n; state = spill })
          last_inside refl refl refl)

    stolen_other : (n j : ℕ) → j ≢ li → j ≢ last → at (stolen n) j ≡ at ivs j
    stolen_other n j ne nl =
        get_or-set_ne taken last j (record (at taken last) { phys = some n; state = spill }) unset
          (λ e. nl (sym e))
        ∙ get_or-set_ne ivs li j (record (at ivs li) { phys = (at ivs last).phys }) unset
            (λ e. ne (sym e))

    stolen_here : (n : ℕ) → at (stolen n) li ≡ record (at ivs li) { phys = (at ivs last).phys }
    stolen_here n =
        get_or-set_ne taken last li (record (at taken last) { phys = some n; state = spill }) unset
          last_not_li
        ∙ get_or-set_self ivs li (record (at ivs li) { phys = (at ivs last).phys }) unset p.inside

    stolen_last : (n : ℕ) → is_normal (at (stolen n) last).state ≡ false
    stolen_last n = rw (
        get_or-set_self taken last (record (at taken last) { phys = some n; state = spill }) unset
          last_inside)

    last_not_front : mem last front ≡ false
    last_not_front = (x.apart p.tracks.distinct).0

    front_not_last : (j : ℕ) → mem j front ≡ true → j ≢ last
    front_not_last j m e = clash (rw e at m)
      where
        clash : mem last front ≡ true → ⊥
        clash h = cc last_not_front

    front_active : (j : ℕ) → mem j front ≡ true → mem j info.active ≡ true
    front_active j m = ground (arith, x.members j)

    normal_not_last : (n j : ℕ) → is_normal (at (stolen n) j).state ≡ true → j ≢ last
    normal_not_last n j h e = clash (rw e at h)
      where
        clash : is_normal (at (stolen n) last).state ≡ true → ⊥
        clash t = cc (stolen_last n)

    stolen-Joins :
        (n : ℕ)
        → Joins is_flonum ivs
            (stolen n)
            done
            s
            b
            info
            li
            (victim-IsActive.register)
            front
            info.using_bits
    stolen-Joins n =
        let a = victim-IsActive in
        record {
          fresh = p.fresh;
          class = p.class;
          here = p.here;
          below = a.below;
          keeps = stolen-Keeps n;
          got = ap (λ (v : LiveInterval). v.phys) (stolen_here n) ∙ a.phys;
          unspilled = rw (stolen_here n) p.waiting;
          stay = λ j m.
              let there = front_active j m in
              (there, stolen_other n j (active_not_li is_flonum p j there) (front_not_last j m));
          free = λ j m e.
              p.tracks.apart j last (front_active j m) victim (front_not_last j m) (e ∙ sym a.phys);
          kept = λ j ne h.
              let nl = normal_not_last n j h in
              (stolen_other n j ne nl, λ m. ground (arith, x.members j, nl));
          distinct = (x.apart p.tracks.distinct).1;
          width = p.tracks.width;
          held = a.held;
          more = λ q h. h;
          counted = p.tracks.counted ∙ x.size;
        }

    pub stolen-Outcome :
        (n : ℕ) (used : Bits)
        → Outcome is_flonum ivs done s b info li
            (stolen n, record info { active = insert_active (stolen n) front li; used_bits = used })
    stolen-Outcome n used =
        let y = stolen-Joins n in
        record {
          keeps = stolen-Keeps n;
          tracks = joined-Tracks is_flonum p.tracks y used;
          bound = refl;
          others = λ j c.
              let ne = not_self is_flonum ivs b li j p.class c in
              let nl = not_self is_flonum ivs b last j victim-IsActive.class c in
              (ne, stolen_other n j ne nl);
          rest = λ j out ne. stolen_other n j ne (not_done j out);
          safe = joined-IsSafe is_flonum p.tracks y;
        }
      where
        not_done : (j : ℕ) → mem j done ≡ false → j ≢ last
        not_done j out e = clash (rw e at out)
          where
            clash : mem last done ≡ false → ⊥
            clash h = cc (victim-IsActive.processed)
