-- ===== src/As/Settle/Ends.antt =====
-- src/as/as.c: the loop that assigns addresses ends.
use my9cc.As.{Labels, Section}
use my9cc.As.Address.{calc_label_address}
use my9cc.As.Address.Passes.{AllLaid, calc_label_address-AllPassed}
use my9cc.As.Footprint.{total_shorts, AllCovered}
use my9cc.As.Resolve.{UnresolvedInfo, resolve_relative_address}
use my9cc.As.Resolve.Rounds.{section_shape, resolve_relative_address-AllRound}
use my9cc.As.Settle.{Ending, done, stopped, out_of_fuel, Round, round, after, settle_loop}
use my9cc.Prelude.{
  ℕ, zero, suc, ◌+◌, ◌≤◌, ◌<◌, Bool, true, false, not, ◌&&◌, Option, none, some, List, ◌≡◌, ◌≢◌,
  refl, ◌⊎◌, inl, inr, bind_inversion, some_eq, Bool-cases, sym, ◌∙◌, ap, arith, map, subst,
}

both : (b c : Bool) → b ≡ true → not c ≡ false → b && c ≡ true
both true true e f = refl
both true false e f = cc
both false c e f = cc

-- What a round does: it covers the alignments, and it is the last one or makes a jump long, once they
-- were covered.
record Advances (a : ℕ) (ss : List Section) (r : Round) : Type 0 where
  covered : AllCovered r.sections
  fewer : total_shorts r.sections ≤ total_shorts ss
  longer : AllCovered ss → (r.is_settled ≡ true) ⊎ (total_shorts r.sections < total_shorts ss)

round-Advances :
    (a : ℕ) (ss : List Section) (labels : Labels) (u : Option (List UnresolvedInfo)) (r : Round)
    → round a ss labels u ≡ some r
    → Advances a ss r
unfolding round
round-Advances a ss labels u r e =
    let (c, e1, f1) = bind_inversion (calc_label_address a ss labels) _ r e in
    let (x, e2, f2) = bind_inversion (resolve_relative_address (c.0) (c.2) u) _ r f1 in
    let p = calc_label_address-AllPassed ss a labels c e1 in
    let q = resolve_relative_address-AllRound (c.0) (c.2) u x e2 in
    rw (sym (some_eq f2)) (record {
      covered = q.covered p.covered;
      fewer = omega (arith, p.jumps, q.fewer);
      longer = λ h. elim q.paid [
        | inl k ↦ inl (both (c.1) (x.2) (p.kept h) k.0)
        | inr g ↦ inr (omega (arith, p.jumps, g.1))
      ];
    })

-- Neither the end of the loop nor that of the program is the end of the fuel.
after-ends :
    (o : Option Round) (again : Round → Ending)
    → ((r : Round) → o ≡ some r → r.is_settled ≡ false → again r ≢ out_of_fuel)
    → after o again ≢ out_of_fuel
after-ends none again h e = cc
after-ends (some r) again h e = elim (Bool-cases r.is_settled) [
  | inl last ↦ cc (simp last at e)
  | inr more ↦ h r refl more (simp more at e)
]

-- Once the alignments are covered, each round that is not the last makes a jump long.
covered_ends :
    (fuel a : ℕ) (ss : List Section) (labels : Labels) (u : Option (List UnresolvedInfo))
    → AllCovered ss
    → total_shorts ss + 1 ≤ fuel
    → settle_loop fuel a ss labels u ≢ out_of_fuel
unfolding settle_loop
covered_ends zero a ss labels u h enough = absurd (omega arith)
covered_ends (suc fuel) a ss labels u h enough = after-ends (round a ss labels u) _ λ r e more.
    let v = round-Advances a ss labels u r e in
    elim (v.longer h) [
      | inl last ↦ cc
      | inr less ↦
          covered_ends fuel a r.sections r.labels r.unresolved v.covered (omega (arith, less))
    ]

-- The loop of the assembler ends: two rounds and one for each code IR whose flag for a long offset is
-- not set are enough.
pub settle_loop-ends :
    (fuel a : ℕ) (ss : List Section) (labels : Labels) (u : Option (List UnresolvedInfo))
    → total_shorts ss + 2 ≤ fuel
    → settle_loop fuel a ss labels u ≢ out_of_fuel
unfolding settle_loop
settle_loop-ends zero a ss labels u enough = absurd (omega arith)
settle_loop-ends (suc fuel) a ss labels u enough = after-ends (round a ss labels u) _ λ r e more.
    let v = round-Advances a ss labels u r e in
    covered_ends fuel a r.sections r.labels r.unresolved v.covered (omega (arith, v.fewer))

-- The last round leaves its addresses: the sections are laid out, aligned as they say.
pub record IsFinal (a : ℕ) (ss : List Section) : Type 0 where
  pub covered : AllCovered ss
  pub laid : AllLaid a (map section_shape ss)

two : (b c : Bool) → b && c ≡ true → (b ≡ true) × (c ≡ true)
two true true h = (refl, refl)
two true false h = cc
two false c h = cc

round-IsFinal :
    (a : ℕ) (ss : List Section) (labels : Labels) (u : Option (List UnresolvedInfo)) (r : Round)
    → round a ss labels u ≡ some r
    → r.is_settled ≡ true
    → IsFinal a r.sections
unfolding round
round-IsFinal a ss labels u r e h =
    let (c, e1, f1) = bind_inversion (calc_label_address a ss labels) _ r e in
    let (x, e2, f2) = bind_inversion (resolve_relative_address (c.0) (c.2) u) _ r f1 in
    let p = calc_label_address-AllPassed ss a labels c e1 in
    let q = resolve_relative_address-AllRound (c.0) (c.2) u x e2 in
    let (b1, b2) = two (c.1) (x.2) (ap (λ t. t.is_settled) (some_eq f2) ∙ h) in
    let same : map section_shape (x.0) ≡ map section_shape (c.0) = elim q.paid [
      | inl k ↦ k.1
      | inr g ↦ cc
    ] in
    rw (sym (some_eq f2)) (record { covered = q.covered p.covered; laid = rw same (p.laid b1).1 })

sections_of : Ending → List Section → List Section
sections_of (done ss labels u) ss' = ss
sections_of stopped ss' = ss'
sections_of out_of_fuel ss' = ss'

after-done :
    (a : ℕ) (o : Option Round) (again : Round → Ending) (ss : List Section) (labels : Labels)
    (u : Option (List UnresolvedInfo))
    → ((r : Round) → o ≡ some r → r.is_settled ≡ true → IsFinal a r.sections)
    → ((r : Round) → o ≡ some r → again r ≡ done ss labels u → IsFinal a ss)
    → after o again ≡ done ss labels u
    → IsFinal a ss
unfolding sections_of
after-done a none again ss labels u last more e = cc
after-done a (some r) again ss labels u last more e = elim (Bool-cases r.is_settled) [
  | inl ends ↦
      let same : r.sections ≡ ss = ap (λ x. sections_of x ss) (simp ends at e) in
      subst (λ l. IsFinal a l) same (last r refl ends)
  | inr again_once ↦ more r refl (simp again_once at e)
]

-- Where the loop ends, the sections are laid out: each starts behind the one before, aligned as
-- section_aligns says in the end, no instruction is aligned more than its section, and the
-- instructions follow each other by their lengths in the end.
pub settle_loop-IsFinal :
    (fuel a : ℕ) (ss ss' : List Section) (labels labels' : Labels)
    (u u' : Option (List UnresolvedInfo))
    → settle_loop fuel a ss labels u ≡ done ss' labels' u'
    → IsFinal a ss'
unfolding settle_loop
settle_loop-IsFinal zero a ss ss' labels labels' u u' e = cc
settle_loop-IsFinal (suc fuel) a ss ss' labels labels' u u' e =
    after-done a (round a ss labels u) _ ss' labels' u' (round-IsFinal a ss labels u)
      (λ r e1 rest. settle_loop-IsFinal fuel a r.sections ss' r.labels labels' r.unresolved u' rest)
      e
