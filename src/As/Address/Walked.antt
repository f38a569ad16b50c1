-- ===== src/As/Address/Walked.antt =====
-- src/as/ir_asm.c: what a pass of `calc_label_address` does to the alignments, the flag `settle` and
-- the addresses.
use my9cc.As.{IrKind, Ir}
use my9cc.As.Address.{Walk, advance, calc_ir, calc_irs}
use my9cc.As.Footprint.{Footprint, footprint, alignment, need}
use my9cc.As.Resolve.Rounds.{shape}
use my9cc.Util.Align.{align_up}
use my9cc.Prelude.{
  ℕ, ◌+◌, ◌%◌, ◌^◌, ◌≤◌, Bool, true, false, some, List, [], ◌∷◌, ◌≡◌, refl, bind_inversion, some_eq,
  Bool-cases, inl, inr, ltb, sym, ◌∙◌, ap, arith, map, if◌then◌else◌, length, max,
}

-- The instruction of a footprint stands at `at`, behind `a`, and `b` is behind it.
unfoldable pub Stands : Footprint → ℕ → ℕ → ℕ → Type 0
Stands Footprint.nothing a at b = (at ≡ a) × (b ≡ a)
Stands (Footprint.bytes n) a at b = (at ≡ a) × (b ≡ (a + n) % 2 ^ 64)
Stands (Footprint.aligned align) a at b = (at ≡ align_up 64 a align) × (b ≡ at)

-- From `a` to `b`, one instruction behind the other.
unfoldable pub IsLaid : ℕ → List (Footprint × ℕ) → ℕ → Type 0
IsLaid a [] b = b ≡ a
IsLaid a (f ∷ fs) b = (c : ℕ) × Stands (f.0) a (f.1) c × IsLaid c fs b

-- One instruction, or several: `most` is the largest alignment.
pub record Walked (most : ℕ) (w w' : Walk) : Type 0 where
  pub covers : most ≤ w'.align
  pub grows : w.align ≤ w'.align
  pub kept : most ≤ w.align → (w'.align ≡ w.align) × (w'.settle ≡ w.settle)
  pub settled : w'.settle ≡ true → (w'.align ≡ w.align) × (w.settle ≡ true)

advance-Walked :
    (n : ℕ) (w : Walk) (r : ℕ × Walk)
    → advance n w ≡ some r
    → Walked 0 w (r.1) × Stands (Footprint.bytes n) w.address (r.0) (r.1).address
unfolding Stands
advance-Walked n w r e = rw (sym (some_eq e)) (
  record {
    covers = omega arith;
    grows = omega arith;
    kept = λ h. (refl, refl);
    settled = λ h. (refl, h);
  },
  (refl, refl),
)

-- The two branches for an alignment.
align-Walked :
    (w : Walk) (address align : ℕ)
    → Walked align w (
        if ltb w.align align
        then record w { address = address; align = align; settle = false }
        else record w { address = address })
align-Walked w address align = elim (Bool-cases (ltb w.align align)) [
  | inl more ↦ rw more (record {
    covers = omega arith;
    grows = ground arith;
    kept = λ h. ground arith;
    settled = λ h. cc;
  })
  | inr less ↦ rw less (record {
    covers = ground arith;
    grows = omega arith;
    kept = λ h. (refl, refl);
    settled = λ h. (refl, h);
  })
]

align_address :
    (w : Walk) (address align : ℕ) (b : Bool)
    → (if b
        then record w { address = address; align = align; settle = false }
        else record w { address = address }).address
      ≡ address
align_address w address align true = refl
align_address w address align false = refl

calc_ir-Walked :
    (n : IrKind) (w : Walk) (r : ℕ × Walk)
    → calc_ir n w ≡ some r
    → Walked (alignment (footprint n)) w (r.1) × Stands (footprint n) w.address (r.0) (r.1).address
unfolding calc_ir Stands
calc_ir-Walked (IrKind.ir_label l) w r e =
    let (info, e1, f1) = bind_inversion (w.labels l) _ r e in
    rw (sym (some_eq f1)) (
      record {
        covers = omega arith;
        grows = omega arith;
        kept = λ h. (refl, refl);
        settled = λ h. (refl, h);
      },
      (refl, refl),
    )
calc_ir-Walked (IrKind.ir_code code) w r e = advance-Walked code.len w r e
calc_ir-Walked (IrKind.ir_data buf) w r e = advance-Walked (length buf) w r e
calc_ir-Walked (IrKind.ir_bss n) w r e = advance-Walked n w r e
calc_ir-Walked (IrKind.ir_align align) w r e =
    let address = align_up 64 w.address align in
    rw (sym (some_eq e))
      (align-Walked w address align, (refl, align_address w address align (ltb w.align align)))
calc_ir-Walked (IrKind.ir_expr_byte x) w r e = advance-Walked 1 w r e
calc_ir-Walked (IrKind.ir_expr_word x) w r e = advance-Walked 2 w r e
calc_ir-Walked (IrKind.ir_expr_long x) w r e = advance-Walked 4 w r e
calc_ir-Walked (IrKind.ir_expr_quad x) w r e = advance-Walked 8 w r e

-- The largest alignment of a list.
abbrev pub most : List Ir → ℕ
most [] = 0
most (ir ∷ irs) = max (need ir) (most irs)

Walked-append : (a b : ℕ) (u v w : Walk) → Walked a u v → Walked b v w → Walked (max a b) u w
Walked-append a b u v w x y = record {
  covers = omega (arith, x.covers, y.covers, y.grows);
  grows = omega (arith, x.grows, y.grows);
  kept = λ h.
      let kx = x.kept (omega arith) in
      let ky = y.kept (omega (arith, kx.0)) in (ky.0 ∙ kx.0, ky.1 ∙ kx.1);
  settled = λ h. let sy = y.settled h in let sx = x.settled sy.1 in (sy.0 ∙ sx.0, sx.1);
}

Walked-none : (w : Walk) → Walked 0 w w
Walked-none w = record {
  covers = omega arith;
  grows = omega arith;
  kept = λ h. (refl, refl);
  settled = λ h. (refl, h);
}

-- A list is laid out, and its instructions stay.
pub record Passed (irs : List Ir) (w : Walk) (irs' : List Ir) (w' : Walk) : Type 0 where
  pub walked : Walked (most irs) w w'
  pub laid : IsLaid w.address (shape irs') w'.address
  pub nodes : map (λ ir. ir.node) irs' ≡ map (λ ir. ir.node) irs

pub calc_irs-Passed :
    (irs : List Ir) (w : Walk) (r : List Ir × Walk)
    → calc_irs irs w ≡ some r
    → Passed irs w (r.0) (r.1)
unfolding calc_irs IsLaid
calc_irs-Passed [] w r e =
    rw (sym (some_eq e)) (record { walked = Walked-none w; laid = refl; nodes = refl })
calc_irs-Passed (ir ∷ irs) w r e =
    let (one, e1, f1) = bind_inversion (calc_ir ir.node w) _ r e in
    let (rest, e2, f2) = bind_inversion (calc_irs irs (one.1)) _ r f1 in
    let (x, s) = calc_ir-Walked ir.node w one e1 in
    let p = calc_irs-Passed irs (one.1) rest e2 in
    rw (sym (some_eq f2)) (record {
      walked = Walked-append (need ir) (most irs) w (one.1) (rest.1) x p.walked;
      laid = ((one.1).address, s, p.laid);
      nodes = ap (λ ns. ir.node ∷ ns) p.nodes;
    })
