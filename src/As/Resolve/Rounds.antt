-- ===== src/As/Resolve/Rounds.antt =====
-- src/as/ir_asm.c: a round of `resolve_relative_address` over the instructions of a section, and over
-- the sections.
use my9cc.As.{IrKind, Ir, Code, Labels, Section}
use my9cc.As.Footprint.{Footprint, footprint, need, short, shorts, total_shorts, Covers, AllCovered}
use my9cc.As.Label.{calc_expr}
use my9cc.As.Resolve.{
  Pending, Place, first_address, resolve_ir, resolve_irs, resolve_sections, UnresolvedInfo, settled,
  resolve_relative_address,
}
use my9cc.As.Resolve.Grows.{
  Changed, Gives, GivesSame, resolve_code-Changed, resolve_data-same, resolve_quad-same,
}
use my9cc.Prelude.{
  ℕ, suc, ◌+◌, ◌≤◌, ◌<◌, Bool, true, false, not, Option, none, some, List, [], ◌∷◌, ◌≡◌, refl, ◌⊎◌,
  inl, inr, ◌>>=◌, bind_inversion, some_eq, subst, map, sym, ◌∙◌, ap, arith,
}

-- What a round does to one instruction.
pub record Turned (n : IrKind) (u : Bool) (n' : IrKind) (u' : Bool) : Type 0 where
  pub needs : need (record { node = n'; address = 0 }) ≡ need (record { node = n; address = 0 })
  pub paid :
      ((u' ≡ u) × (short n' ≡ short n) × (footprint n' ≡ footprint n))
      ⊎ ((u' ≡ true) × (short n' < short n))

abbrev Result : Option (IrKind × Pending) → IrKind → Pending → Type 0
Result none n p = Unit
Result (some r) n p = Turned n p.size_upgraded (r.0) (r.1).size_upgraded

code_short :
    (code code' : Code)
    → code'.flag ≡ code.flag
    → short (IrKind.ir_code code') ≡ short (IrKind.ir_code code)
code_short code code' e = rw e refl

code-Turned :
    (code code' : Code) (p p' : Pending)
    → Changed code p code' p'
    → Turned (IrKind.ir_code code) p.size_upgraded (IrKind.ir_code code') p'.size_upgraded
code-Turned code code' p p' (inl k) = record {
  needs = refl;
  paid = inl (k.upgraded, code_short code code' k.flag, ap Footprint.bytes k.len);
}
code-Turned code code' p p' (inr g) = record {
  needs = refl;
  paid = inr (g.upgraded, rw (g.short, g.long) (omega arith));
}

code_turns :
    (code : Code) (p : Pending) (x : Option (Code × Pending))
    → Gives x (Changed code p)
    → Result (x >>= λ r. some (IrKind.ir_code (r.0), r.1)) (IrKind.ir_code code) p
code_turns code p none h = tt
code_turns code p (some r) h = code-Turned code (r.0) p (r.1) h

unchanged : (n : IrKind) (p : Pending) → Turned n p.size_upgraded n p.size_upgraded
unchanged n p = record { needs = refl; paid = inl (refl, refl, refl) }

data_turns :
    (n : IrKind) (p : Pending) (x : Option Pending)
    → GivesSame x p
    → Result (x >>= λ q. some (n, q)) n p
data_turns n p none h = tt
data_turns n p (some q) h = record { needs = refl; paid = inl (h, refl, refl) }

resolve_ir-Turned :
    (at : Place) (address : ℕ) (n : IrKind) (p : Pending) → Result (resolve_ir at address n p) n p
unfolding resolve_ir
resolve_ir-Turned at address (IrKind.ir_label l) p = unchanged _ p
resolve_ir-Turned at address (IrKind.ir_code code) p =
    code_turns code p _ (resolve_code-Changed at address code.op code.src code p)
resolve_ir-Turned at address (IrKind.ir_data buf) p = unchanged _ p
resolve_ir-Turned at address (IrKind.ir_bss n) p = unchanged _ p
resolve_ir-Turned at address (IrKind.ir_align n) p = unchanged _ p
resolve_ir-Turned at address (IrKind.ir_expr_byte e) p =
    data_turns _ p _ (resolve_data-same (calc_expr at.labels e) p)
resolve_ir-Turned at address (IrKind.ir_expr_word e) p =
    data_turns _ p _ (resolve_data-same (calc_expr at.labels e) p)
resolve_ir-Turned at address (IrKind.ir_expr_long e) p =
    data_turns _ p _ (resolve_data-same (calc_expr at.labels e) p)
resolve_ir-Turned at address (IrKind.ir_expr_quad e) p =
    data_turns _ p _ (resolve_quad-same at address e p.unresolved p)

-- What the layout depends on, of the instructions of a section.
abbrev pub shape : List Ir → List (Footprint × ℕ)
shape irs = map (λ ir. (footprint ir.node, ir.address)) irs

-- What a round does to a list: nothing moves unless a jump grows, and then there are fewer short
-- ones.
pub record Round (irs : List Ir) (u : Bool) (irs' : List Ir) (u' : Bool) : Type 0 where
  pub covered : (align : ℕ) → Covers align irs → Covers align irs'
  pub fewer : shorts irs' ≤ shorts irs
  pub paid : ((u' ≡ u) × (shape irs' ≡ shape irs)) ⊎ ((u' ≡ true) × (shorts irs' < shorts irs))

Round-cons :
    (n n' : IrKind) (a : ℕ) (irs irs' : List Ir) (u v w : Bool)
    → Turned n u n' v
    → Round irs v irs' w
    → Round (record { node = n; address = a } ∷ irs) u (record { node = n'; address = a } ∷ irs') w
Round-cons n n' a irs irs' u v w t r =
    let more : short n' + shorts irs' ≤ short n + shorts irs = elim t.paid [
      | inl k ↦ omega (arith, k.1, r.fewer)
      | inr g ↦ omega (arith, g.1, r.fewer)
    ] in
    record {
      covered = λ align h. (rw t.needs h.0, r.covered align h.1);
      fewer = more;
      paid = elim t.paid [
        | inl k ↦ elim r.paid [
          | inl k' ↦ inl (k'.0 ∙ k.0, rw (k.2, k'.1) refl)
          | inr g' ↦ inr (g'.0, omega (arith, k.1, g'.1))
        ]
        | inr g ↦
            inr (elim r.paid [ inl k' ↦ k'.0 ∙ g.0 | inr g' ↦ g'.0 ], omega (arith, g.1, r.fewer))
      ];
    }

resolve_irs-Round :
    (at : Place) (irs : List Ir) (p : Pending) (r : List Ir × Pending)
    → resolve_irs at irs p ≡ some r
    → Round irs p.size_upgraded (r.0) (r.1).size_upgraded
unfolding resolve_irs
resolve_irs-Round at [] p r e =
    let same : ([], p) ≡ r = some_eq e in
    rw (sym same) (record { covered = λ align h. tt; fewer = omega arith; paid = inl (refl, refl) })
resolve_irs-Round at (ir ∷ irs) p r e =
    let (one, e1, f1) = bind_inversion (resolve_ir at ir.address ir.node p) _ r e in
    let (rest, e2, f2) = bind_inversion (resolve_irs at irs (one.1)) _ r f1 in
    let t : Result (some one) ir.node p =
      subst (λ x. Result x ir.node p) e1 (resolve_ir-Turned at ir.address ir.node p) in
    let step =
      Round-cons ir.node (one.0) ir.address irs (rest.0) _ _ _ t
        (resolve_irs-Round at irs (one.1) rest e2) in
    rw (sym (some_eq f2)) step

-- The same of a section.
abbrev pub section_shape : Section → ℕ × ℕ × List (Footprint × ℕ)
section_shape s = (s.start_address, s.align, shape s.irs)

-- The same of all sections.
pub record AllRound (ss : List Section) (u : Bool) (ss' : List Section) (u' : Bool) : Type 0 where
  pub covered : AllCovered ss → AllCovered ss'
  pub fewer : total_shorts ss' ≤ total_shorts ss
  pub paid :
      ((u' ≡ u) × (map section_shape ss' ≡ map section_shape ss))
      ⊎ ((u' ≡ true) × (total_shorts ss' < total_shorts ss))

AllRound-cons :
    (s : Section) (irs : List Ir) (ss ss' : List Section) (u v w : Bool)
    → Round s.irs u irs v
    → AllRound ss v ss' w
    → AllRound (s ∷ ss) u (record s { irs = irs } ∷ ss') w
AllRound-cons s irs ss ss' u v w t r = record {
  covered = λ h. (t.covered s.align h.0, r.covered h.1);
  fewer = omega (arith, t.fewer, r.fewer);
  paid = elim t.paid [
    | inl k ↦ elim r.paid [
      | inl k' ↦ inl (k'.0 ∙ k.0, rw (k.1, k'.1) refl)
      | inr g' ↦ inr (g'.0, omega (arith, t.fewer, g'.1))
    ]
    | inr g ↦ inr (elim r.paid [ inl k' ↦ k'.0 ∙ g.0 | inr g' ↦ g'.0 ], omega (arith, g.1, r.fewer))
  ];
}

pub resolve_sections-AllRound :
    (sec : ℕ) (starts : List ℕ) (labels : Labels) (ss : List Section) (p : Pending)
    (r : List Section × Pending)
    → resolve_sections sec starts labels ss p ≡ some r
    → AllRound ss p.size_upgraded (r.0) (r.1).size_upgraded
unfolding resolve_sections
resolve_sections-AllRound sec starts labels [] p r e =
    rw (sym (some_eq e))
      (record { covered = λ h. tt; fewer = omega arith; paid = inl (refl, refl) })
resolve_sections-AllRound sec starts labels (s ∷ ss) p r e =
    let at : Place = record {
      sec = sec;
      start_address = first_address s.irs;
      starts = starts;
      labels = labels;
    } in
    let (one, e1, f1) = bind_inversion (resolve_irs at s.irs p) _ r e in
    let (rest, e2, f2) =
      bind_inversion (resolve_sections (suc sec) starts labels ss (one.1)) _ r f1 in
    let step =
      AllRound-cons s (one.0) ss (rest.0) _ _ _ (resolve_irs-Round at s.irs p one e1)
        (resolve_sections-AllRound (suc sec) starts labels ss (one.1) rest e2) in
    rw (sym (some_eq f2)) step

twice_negated : (b : Bool) → not (not b) ≡ b
twice_negated true = refl
twice_negated false = refl

settled-not :
    (u : Option (List UnresolvedInfo)) (ls : List ℕ) (up b : Bool)
    → settled u ls up ≡ some b
    → b ≡ not up
settled-not (some us) ls up b e = sym (some_eq e)
settled-not none [] up b e = sym (some_eq e)
settled-not none (l ∷ ls) up b e = cc

-- What a call of `resolve_relative_address` does, with the flag that it returns.
pub resolve_relative_address-AllRound :
    (ss : List Section) (labels : Labels) (u : Option (List UnresolvedInfo))
    (r : List Section × Option (List UnresolvedInfo) × Bool)
    → resolve_relative_address ss labels u ≡ some r
    → AllRound ss false (r.0) (not (r.2))
unfolding resolve_relative_address
resolve_relative_address-AllRound ss labels u r e =
    let p : Pending = record {
      unresolved_labels = [];
      unresolved = elim u [ none ↦ none | some us ↦ some [] ];
      size_upgraded = false;
    } in
    let starts = map (λ s. first_address s.irs) ss in
    let (q, e1, f1) = bind_inversion (resolve_sections 0 starts labels ss p) _ r e in
    let (b, e2, f2) =
      bind_inversion (settled (q.1).unresolved (q.1).unresolved_labels (q.1).size_upgraded) _ r
        f1 in
    let flag : not b ≡ (q.1).size_upgraded =
      ap not (settled-not (q.1).unresolved (q.1).unresolved_labels (q.1).size_upgraded b e2)
      ∙ twice_negated (q.1).size_upgraded in
    rw (sym (some_eq f2)) (rw flag (resolve_sections-AllRound 0 starts labels ss p q e1))
