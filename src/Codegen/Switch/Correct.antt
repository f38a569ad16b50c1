-- ===== src/Codegen/Switch/Correct.antt =====
-- src/cc/codegen.c: the code of `gen_switch_cond` leads to the case of the value.
use my9cc.Codegen.Switch.{
  Case, Entry, Instr, label, entries, gen_switch_cond_recur, Switch, other_bb, compared,
  gen_switch_cond,
}
use my9cc.Codegen.Switch.Sorted.{look}
use my9cc.Codegen.Switch.Jumps.{at, jumped, step, run, run-append, label_other}
use my9cc.Codegen.Switch.Bisects.{look-Before, gen_switch_cond_recur-Dispatches}
use my9cc.Codegen.Switch.Find.{find, IsAscending, All-Memᴰ, Permᴰ-Memᴰ, Permᴰ-length, find-Permᴰ}
use my9cc.Codegen.Switch.Ordered.{
  IsValued, Entered, entries-Entered, IsDefault, IsSwitch, signed_at, default-Last, find-default,
}
use my9cc.Codegen.Switch.Machine.{
  execute, flags_of, away, execute-leads, Sized-label, Sized-jump, gen_switch_cond_recur-Sized,
}
use my9cc.Ir.Cond.{any}
use mathlib.Core.List.Permᴰ
use mathlib.Core.List.Memᴰ
use mathlib.Core.List.{Permᴰ, Memᴰ}
use my9cc.Prelude.{
  ℕ, ◌+◌, ◌-◌, ◌^◌, ◌≤◌, ◌<◌, ◌≡◌, ◌≢◌, refl, true, false, Option, none, some, List, [], ◌∷◌, ◌++◌,
  ◌==◌, length, take, ◌⊎◌, arith, sym, ◌∙◌, ap, inl, inr, Bool-cases, Option-cases, subst, ltb,
  length-append, take-length_append,
}

empty_list {ℓ} : {A : Type ℓ} (l : List A) → ltb 0 (length l) ≡ false → l ≡ []
empty_list [] h = refl
empty_list (x ∷ l) h = absurd (ground arith)

take_all {ℓ} : {A : Type ℓ} (l : List A) → take (length l) l ≡ l
take_all [] = refl
take_all (x ∷ l) = ap (λ k. x ∷ k) (take_all l)

take_front {ℓ} :
    {A : Type ℓ} (l : List A) (x : A) → take (length (l ++ (x ∷ [])) - 1) (l ++ (x ∷ [])) ≡ l
take_front l x =
    let size : length (l ++ (x ∷ [])) - 1 ≡ length l = omega (arith, length-append l (x ∷ [])) in
    rw size (take-length_append l (x ∷ []))

-- The cases that are compared.
record Compares (v base : ℕ) (sw : Switch) (order : List Case) : Type 0 where
  front : List Case
  is_front : take (compared sw) order ≡ front
  entered : Entered sw.size v (other_bb sw) base front
  same : find v front (other_bb sw) ≡ find v sw.cases (other_bb sw)
  small : length front ≤ length order

module _ (v base : ℕ) (sw : Switch) (order : List Case) (permuted : Permᴰ order sw.cases)
    (s : IsAscending order) (w : IsSwitch base sw) where
  with_value : (c : Case) → Memᴰ c order → c.value ≢ none → IsValued sw.size base c
  with_value c m e =
      elim (All-Memᴰ (λ d. (d.value ≡ none) ⊎ IsValued sw.size base d) sw.cases w.valued
        (Permᴰ-Memᴰ permuted m)) [ inl bare ↦ absurd (e bare) | inr h ↦ h ]

  same_length : length order ≡ length sw.cases
  same_length = Permᴰ-length permuted

  same_find : find v order (other_bb sw) ≡ find v sw.cases (other_bb sw)
  same_find = find-Permᴰ v order sw.cases (other_bb sw) permuted (Permᴰ.symm permuted) s

  without_default : sw.default_ ≡ none → Compares v base sw order
  without_default e =
      let values : IsDefault none sw.cases = subst (λ o. IsDefault o sw.cases) e w.default_case in
      let count : compared sw ≡ length order = rw e (sym same_length) in
      record {
        front = order;
        is_front = rw count (take_all order);
        entered =
            entries-Entered sw.size v (other_bb sw) base order s
              (λ c m. with_value c m (values c (Permᴰ-Memᴰ permuted m)));
        same = same_find;
        small = omega arith;
      }

  with_default : (d : Case) → sw.default_ ≡ some d → Compares v base sw order
  with_default d e =
      let (member, bare) : IsDefault (some d) sw.cases =
        subst (λ o. IsDefault o sw.cases) e w.default_case in
      let l = default-Last d order s (Permᴰ-Memᴰ (Permᴰ.symm permuted) member) bare in
      let count : compared sw ≡ length order - 1 = rw e (ap (λ n. n - 1) (sym same_length)) in
      let inside : (c : Case) → Memᴰ c l.front → Memᴰ c order =
        λ c m. subst (λ k. Memᴰ c k) (sym l.whole) (Memᴰ.append_left (d ∷ []) m) in
      record {
        front = l.front;
        is_front = rw count (ap (λ k. take (length k - 1) k) l.whole ∙ take_front l.front d);
        entered =
            entries-Entered sw.size v (other_bb sw) base l.front l.ascending
              (λ c m. with_value c (inside c m) (l.values c m));
        same =
            sym (find-default v (other_bb sw) d l.front bare)
            ∙ ap (λ k. find v k (other_bb sw)) (sym l.whole)
            ∙ same_find;
        small = omega (arith, ap length l.whole, length-append l.front (d ∷ []));
      }

  cases-Compares : Compares v base sw order
  cases-Compares = elim (Option-cases sw.default_) [
    | inl e ↦ without_default e
    | inr (d, e) ↦ with_default d e
  ]

-- The label behind the comparisons is not the one that they lead to.
behind :
    (v to last : ℕ) (code : List Instr) (n : ℕ)
    → to < n
    → run v code (at last) ≡ jumped to
    → run v (code ++ (label n ∷ [])) (at last) ≡ jumped to
unfolding run
behind v to last code n h leads =
    run-append v code (label n ∷ []) (at last)
    ∙ ap (step v (label n)) leads
    ∙ label_other v n to (ground arith)

-- The code of a switch on a value of `size` bytes: the processor leaves it for one block.
pub record Selects (size v to : ℕ) (r : Option (List Instr × ℕ)) : Type 0 where
  pub code : List Instr × ℕ
  pub made : r ≡ some code
  pub leaves : (last : ℕ) → execute v (code.0) (flags_of size last) ≡ away size to

switch-made :
    (sw : Switch) (order : List Case) (bbs : ℕ) (front : List Case) (es : List Entry)
    (r : List Instr × ℕ)
    → ltb 0 (length sw.cases) ≡ true
    → take (compared sw) order ≡ front
    → entries front ≡ some es
    → gen_switch_cond_recur (length order + 1) sw.size (other_bb sw) es bbs ≡ some r
    → gen_switch_cond sw order bbs ≡ some (r.0 ++ (label (r.1) ∷ []), r.1 + 1)
unfolding gen_switch_cond
switch-made sw order bbs front es r some_case e f g = rw some_case (rw e (rw f (rw g refl)))

-- A switch leads to the case whose value is that of its expression, or to the default, or behind it
-- where there is neither: when the cases are as the parser leaves them, their values between -2^62
-- and 2^62, and sorted by their values, the default last, and the values of the cases and of the
-- expression are numbers of the size of its type with its sign, `gen_switch_cond` makes code that
-- the processor, which compares at that size, leaves for the block of the first case of that value
-- in the source.
pub gen_switch_cond-Selects :
    (v bbs : ℕ) (sw : Switch) (order : List Case)
    → v < 2 ^ 64
    → signed_at sw.size v ≡ v
    → Permᴰ order sw.cases
    → IsAscending order
    → IsSwitch bbs sw
    → Selects sw.size v (find v sw.cases (other_bb sw)) (gen_switch_cond sw order bbs)
unfolding gen_switch_cond run step find
gen_switch_cond-Selects v bbs sw order hv hs permuted s w =
    elim (Bool-cases (ltb 0 (length sw.cases))) [
      | inl some_case ↦
          let c = cases-Compares v bbs sw order permuted s w in
          let es = c.entered.list in
          let enough : length es < length order + 1 = omega (arith, c.entered.size, c.small) in
          let d =
            gen_switch_cond_recur-Dispatches (length order + 1) sw.size v (other_bb sw) bbs bbs es
              enough hv c.entered.words c.entered.sorted w.other_before (omega arith)
              c.entered.blocks in
          let target : look v es (other_bb sw) ≡ find v sw.cases (other_bb sw) =
            sym c.entered.same ∙ c.same in
          let near = look-Before v bbs es (other_bb sw) w.other_before c.entered.blocks in
          let grown = d.leads.grows in
          record {
            code = (d.code.0 ++ (label (d.code.1) ∷ []), d.code.1 + 1);
            made =
                switch-made sw order bbs c.front es d.code some_case c.is_front c.entered.read
                  d.made;
            leaves = λ last.
                let last' = signed_at sw.size last in
                execute-leads v sw.size _ last _ hs
                  (Sized-label sw.size (d.code.1) (d.code.0) (
                    gen_switch_cond_recur-Sized (length order + 1) sw.size (other_bb sw) es bbs
                      d.code c.entered.short d.made))
                  (behind v (look v es (other_bb sw)) last' (d.code.0) (d.code.1) (omega arith)
                      (d.leads.leaves last')
                    ∙ ap jumped target);
          }
      | inr no_case ↦
          let none_found : find v sw.cases (other_bb sw) ≡ other_bb sw =
            ap (λ l. find v l (other_bb sw)) (empty_list sw.cases no_case) in
          let h = w.other_before in
          let apart : (bbs == other_bb sw) ≡ false = ground arith in
          rw no_case (record {
            code = _;
            made = refl;
            leaves = λ last.
                execute-leads v sw.size _ last _ hs (Sized-jump sw.size bbs (other_bb sw) any)
                  (simp apart (ap jumped (sym none_found)));
          })
    ]
