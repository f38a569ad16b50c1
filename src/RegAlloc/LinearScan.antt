-- ===== src/RegAlloc/LinearScan.antt =====
-- src/cc/regalloc.c: one round of the loop of `linear_scan_register_allocation`.
use my9cc.RegAlloc.{Intervals, Info, Scan, at, is_normal, expire, place, scan_one}
use my9cc.RegAlloc.Frame.{mem}
use my9cc.RegAlloc.Safety.{class_of, Tracks, expire-Tracks, other_class, IsSafe, Keeps}
use my9cc.RegAlloc.Place.{spilled-Tracks, spilled-IsSafe, Keeps-trans}
use my9cc.RegAlloc.Outcome.{Outcome, Ready}
use my9cc.RegAlloc.Placed.{place-Placed}
use my9cc.Prelude.{
  ℕ, ◌≤◌, ◌<◌, ◌≡◌, refl, inl, inr, Bool, true, false, some, List, ◌∷◌, arith, length, Bool-cases,
  ◌∙◌,
}

module _ (is_flonum : ℕ → Bool) where
  -- The state of the scan after the intervals `done`, at position `pos`; `first` is the input.
  pub record Invariant (first : Intervals) (phys_max fphys_max : ℕ) (done : List ℕ) (pos : ℕ)
      (s : Scan) : Type 0 where
    pub ints : Tracks is_flonum s.intervals done pos false s.ireg
    pub flos : Tracks is_flonum s.intervals done pos true s.freg
    pub int_registers : s.ireg.phys_max ≡ phys_max
    pub flo_registers : s.freg.phys_max ≡ fphys_max
    pub keeps : Keeps is_flonum first s.intervals
    pub rest : (j : ℕ) → mem j done ≡ false → at s.intervals j ≡ at first j
    pub safe : IsSafe is_flonum s.intervals done phys_max fphys_max

  -- An interval that can be scanned next.
  pub record Next (first : Intervals) (done : List ℕ) (pos li : ℕ) : Type 0 where
    pub fresh : mem li done ≡ false
    pub inside : li < length first
    pub ahead : pos ≤ (at first li).start

  module _ {first : Intervals} {phys_max fphys_max : ℕ} {done : List ℕ} {pos : ℕ} {s : Scan}
      {li : ℕ} (inv : Invariant first phys_max fphys_max done pos s) (next : Next first done pos li)
      (some_int : 0 < phys_max) (some_flo : 0 < fphys_max) where
    abbrev pub Scanned : Type 0
    Scanned =
        (s' : Scan) × (pos' : ℕ) × (scan_one is_flonum s li ≡ some s')
        × (pos' ≤ (at first li).start)
        × Invariant first phys_max fphys_max (li ∷ done) pos' s'

    run_skip : is_normal (at s.intervals li).state ≡ false → scan_one is_flonum s li ≡ some s
    unfolding scan_one
    run_skip h = rw h

    skip-Keeps : Keeps is_flonum s.intervals s.intervals
    skip-Keeps = record { size = refl; virt = λ _. refl; start = λ _. refl; end = λ _. refl }

    skipped : is_normal (at s.intervals li).state ≡ false → Scanned
    skipped off = (
      s,
      pos,
      run_skip off,
      next.ahead,
      record {
        ints =
            spilled-Tracks is_flonum done li next.fresh skip-Keeps (λ _ _. refl) off
              s.ireg.used_bits inv.ints;
        flos =
            spilled-Tracks is_flonum done li next.fresh skip-Keeps (λ _ _. refl) off
              s.freg.used_bits inv.flos;
        int_registers = inv.int_registers;
        flo_registers = inv.flo_registers;
        keeps = inv.keeps;
        rest = λ j out. inv.rest j (ground arith);
        safe = spilled-IsSafe is_flonum done li next.fresh skip-Keeps (λ _ _. refl) off inv.safe;
      },
    )

    here : (at s.intervals li).start ≡ (at first li).start
    here = inv.keeps.start li

    abbrev start : ℕ
    start = (at s.intervals li).start

    expired-Tracks :
        (b : Bool) (info : Info)
        → Tracks is_flonum s.intervals done pos b info
        → Tracks is_flonum s.intervals done start b (expire s.intervals start info)
    expired-Tracks b info t = expire-Tracks is_flonum start (omega (arith, here, next.ahead)) t

    phys_max-expire : (info : Info) → (expire s.intervals start info).phys_max ≡ info.phys_max
    unfolding expire
    phys_max-expire info = refl

    ready :
        (b : Bool) (info : Info)
        → Tracks is_flonum s.intervals done pos b info
        → is_normal (at s.intervals li).state ≡ true
        → class_of is_flonum s.intervals li ≡ b
        → Ready is_flonum s.intervals done start b (expire s.intervals start info) li
    ready b info t on class = record {
      tracks = expired-Tracks b info t;
      fresh = next.fresh;
      class = class;
      here = refl;
      inside = omega (arith, next.inside, inv.keeps.size);
      waiting = on;
    }

    after_place :
        (b : Bool) (info : Info) (r : Intervals × Info)
        → Outcome is_flonum s.intervals done start b (expire s.intervals start info) li r
        → (j : ℕ) → mem j (li ∷ done) ≡ false
        → at r.0 j ≡ at first j
    after_place b info r o j out =
        o.rest j (ground arith) (ground arith) ∙ inv.rest j (ground arith)

    run_int :
        (r : Intervals × Info)
        → is_normal (at s.intervals li).state ≡ true
        → class_of is_flonum s.intervals li ≡ false
        → (let ireg = expire s.intervals start s.ireg in
            place ireg.phys_max s.intervals ireg li ≡ some r)
        → scan_one is_flonum s li
          ≡ some (record { intervals = r.0; ireg = r.1; freg = expire s.intervals start s.freg })
    unfolding scan_one
    run_int r on class e = rw (on, class, e)

    run_flo :
        (r : Intervals × Info)
        → is_normal (at s.intervals li).state ≡ true
        → class_of is_flonum s.intervals li ≡ true
        → (let ireg = expire s.intervals start s.ireg in
            place ireg.phys_max s.intervals (expire s.intervals start s.freg) li ≡ some r)
        → scan_one is_flonum s li
          ≡ some (record { intervals = r.0; ireg = expire s.intervals start s.ireg; freg = r.1 })
    unfolding scan_one
    run_flo r on class e = rw (on, class, e)

    ints_placed :
        is_normal (at s.intervals li).state ≡ true
        → class_of is_flonum s.intervals li ≡ false
        → Scanned
    ints_placed on class =
        let ireg = expire s.intervals start s.ireg in
        let size = phys_max-expire s.ireg ∙ inv.int_registers in
        let (r, run, o) =
          place-Placed is_flonum (ready false s.ireg inv.ints on class) ireg.phys_max
            (omega (arith, size)) in
        (
          _,
          start,
          run_int r on class run,
          omega (arith, here),
          record {
            ints = o.tracks;
            flos = other_class is_flonum li o.keeps o.others (expired-Tracks true s.freg inv.flos);
            int_registers = o.bound ∙ size;
            flo_registers = phys_max-expire s.freg ∙ inv.flo_registers;
            keeps = Keeps-trans is_flonum inv.keeps o.keeps;
            rest = after_place false s.ireg r o;
            safe = o.safe phys_max fphys_max size inv.safe;
          },
        )

    flos_placed :
        is_normal (at s.intervals li).state ≡ true
        → class_of is_flonum s.intervals li ≡ true
        → Scanned
    flos_placed on class =
        let ireg = expire s.intervals start s.ireg in
        let size = phys_max-expire s.freg ∙ inv.flo_registers in
        let (r, run, o) =
          place-Placed is_flonum (ready true s.freg inv.flos on class) ireg.phys_max
            (omega (arith, size)) in
        (
          _,
          start,
          run_flo r on class run,
          omega (arith, here),
          record {
            ints = other_class is_flonum li o.keeps o.others (expired-Tracks false s.ireg inv.ints);
            flos = o.tracks;
            int_registers = phys_max-expire s.ireg ∙ inv.int_registers;
            flo_registers = o.bound ∙ size;
            keeps = Keeps-trans is_flonum inv.keeps o.keeps;
            rest = after_place true s.freg r o;
            safe = o.safe phys_max fphys_max size inv.safe;
          },
        )

    pub scan_one-Scanned : Scanned
    scan_one-Scanned = elim (Bool-cases (is_normal (at s.intervals li).state)) [
      | inr off ↦ skipped off
      | inl on ↦ elim (Bool-cases (class_of is_flonum s.intervals li)) [
        | inl flo ↦ flos_placed on flo
        | inr int ↦ ints_placed on int
      ]
    ]
