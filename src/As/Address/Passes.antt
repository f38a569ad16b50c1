-- ===== src/As/Address/Passes.antt =====
-- src/as/ir_asm.c: a pass of `calc_label_address` over the sections.
use my9cc.As.{IrKind, Ir, Labels, Section}
use my9cc.As.Address.{Walk, align_next_section, calc_irs, calc_sections, calc_label_address}
use my9cc.As.Address.Walked.{IsLaid, Passed, most, calc_irs-Passed}
use my9cc.As.Footprint.{
  Footprint, footprint, alignment, need, short, shorts, total_shorts, Covers, AllCovered,
}
use my9cc.As.Resolve.Rounds.{section_shape}
use my9cc.Prelude.{
  ℕ, max, ◌+◌, ◌≤◌, Bool, true, some, List, [], ◌∷◌, ◌≡◌, refl, bind_inversion, some_eq, sym, ◌∙◌,
  ap, arith, map,
}

-- By the instructions alone.
node_shorts : List IrKind → ℕ
node_shorts [] = 0
node_shorts (n ∷ ns) = short n + node_shorts ns

node_most : List IrKind → ℕ
node_most [] = 0
node_most (n ∷ ns) = max (alignment (footprint n)) (node_most ns)

shorts-nodes : (irs : List Ir) → shorts irs ≡ node_shorts (map (λ ir. ir.node) irs)
unfolding node_shorts
shorts-nodes [] = refl
shorts-nodes (ir ∷ irs) = ap (λ (t : ℕ). short ir.node + t) (shorts-nodes irs)

most-nodes : (irs : List Ir) → most irs ≡ node_most (map (λ ir. ir.node) irs)
unfolding node_most
most-nodes [] = refl
most-nodes (ir ∷ irs) = ap (λ (t : ℕ). max (need ir) t) (most-nodes irs)

most-Covers : (irs : List Ir) (align : ℕ) → most irs ≤ align → Covers align irs
most-Covers [] align h = tt
most-Covers (ir ∷ irs) align h = (omega arith, most-Covers irs align (omega arith))

Covers-most : (irs : List Ir) (align : ℕ) → Covers align irs → most irs ≤ align
Covers-most [] align h = omega arith
Covers-most (ir ∷ irs) align h = omega (arith, h.0, Covers-most irs align h.1)

-- From `a` on, one section behind the other, each aligned by what it has.
unfoldable pub AllLaid : ℕ → List (ℕ × ℕ × List (Footprint × ℕ)) → Type 0
AllLaid a [] = Unit
AllLaid a (s ∷ ss) =
    (s.0 ≡ align_next_section (s.1) a) × ((b : ℕ) × IsLaid (s.0) (s.2) b × AllLaid b ss)

-- A pass covers the alignments, keeps the jumps, and is settled exactly when they were covered.
pub record AllPassed (a : ℕ) (ss : List Section) (u : Bool) (ss' : List Section) (u' : Bool)
    : Type 0 where
  pub covered : AllCovered ss'
  pub jumps : total_shorts ss' ≡ total_shorts ss
  pub kept : AllCovered ss → u' ≡ u
  pub laid : u' ≡ true → (u ≡ true) × AllLaid a (map section_shape ss')

AllPassed-cons :
    (a : ℕ) (s : Section) (irs : List Ir) (ss ss' : List Section) (settle u' : Bool)
    (labels : Labels) (v : Walk)
    → Passed s.irs
        (record {
          address = align_next_section s.align a;
          align = s.align;
          settle = settle;
          labels = labels;
        })
        irs
        v
    → AllPassed v.address ss v.settle ss' u'
    → AllPassed a
        (s ∷ ss)
        settle
        (record { irs = irs; align = v.align; start_address = align_next_section s.align a } ∷ ss')
        u'
unfolding AllLaid
AllPassed-cons a s irs ss ss' settle u' labels v p r =
    let same_most : most irs ≡ most s.irs =
      most-nodes irs ∙ ap node_most p.nodes ∙ sym (most-nodes s.irs) in
    let same_shorts : shorts irs ≡ shorts s.irs =
      shorts-nodes irs ∙ ap node_shorts p.nodes ∙ sym (shorts-nodes s.irs) in
    record {
      covered = (most-Covers irs v.align (omega (arith, same_most, p.walked.covers)), r.covered);
      jumps = omega (arith, same_shorts, r.jumps);
      kept = λ h. r.kept h.1 ∙ (p.walked.kept (Covers-most s.irs s.align h.0)).1;
      laid = λ h.
          let (before, behind) = r.laid h in
          let (align, first) = p.walked.settled before in
          (
            first,
            (ap (λ (t : ℕ). align_next_section t a) (sym align), (v.address, p.laid, behind)),
          );
    }

calc_sections-AllPassed :
    (ss : List Section) (a : ℕ) (settle : Bool) (labels : Labels) (r : List Section × Bool × Labels)
    → calc_sections ss a settle labels ≡ some r
    → AllPassed a ss settle (r.0) (r.1)
unfolding calc_sections AllLaid
calc_sections-AllPassed [] a settle labels r e =
    rw (sym (some_eq e))
      (record { covered = tt; jumps = refl; kept = λ h. refl; laid = λ h. (h, tt) })
calc_sections-AllPassed (s ∷ ss) a settle labels r e =
    let w : Walk = record {
      address = align_next_section s.align a;
      align = s.align;
      settle = settle;
      labels = labels;
    } in
    let (one, e1, f1) = bind_inversion (calc_irs s.irs w) _ r e in
    let v : Walk = one.1 in
    let (rest, e2, f2) = bind_inversion (calc_sections ss v.address v.settle v.labels) _ r f1 in
    let step =
      AllPassed-cons a s (one.0) ss (rest.0) settle (rest.1) labels v
        (calc_irs-Passed s.irs w one e1)
        (calc_sections-AllPassed ss v.address v.settle v.labels rest e2) in
    rw (sym (some_eq f2)) step

pub calc_label_address-AllPassed :
    (ss : List Section) (a : ℕ) (labels : Labels) (r : List Section × Bool × Labels)
    → calc_label_address a ss labels ≡ some r
    → AllPassed a ss true (r.0) (r.1)
unfolding calc_label_address
calc_label_address-AllPassed ss a labels r e = calc_sections-AllPassed ss a true labels r e
