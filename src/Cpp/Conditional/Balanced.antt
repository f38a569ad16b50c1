-- ===== src/Cpp/Conditional/Balanced.antt =====
-- src/cpp/preprocessor.c: what is not well nested is refused.
use my9cc.Cpp.Conditional.{
  Line, text, ifdef, ifndef, if_line, elif, else_line, endif, directive, State, handle_else,
  handle_elif, handle_endif, dispatch, step, run, preprocess,
}
use my9cc.Cpp.Conditional.Groups.{ByLine, by_line}
use my9cc.Prelude.{
  ℕ, zero, suc, ◌≡◌, refl, Bool, true, false, Option, none, some, List, [], ◌∷◌, if◌then◌else◌,
  ◌>>=◌, ap, sym, ◌∙◌, bind_inversion, length, subst, some_eq, ◌==◌,
}

-- The number of open conditions behind a line; `none` where the line needs one and there is none.
abbrev pub depth_after : Line → ℕ → Option ℕ
depth_after (text n) d = some d
depth_after (directive n) d = some d
depth_after (ifdef n) d = some (suc d)
depth_after (ifndef n) d = some (suc d)
depth_after (if_line n) d = some (suc d)
depth_after else_line zero = none
depth_after else_line (suc d) = some (suc d)
depth_after (elif n) zero = none
depth_after (elif n) (suc d) = some (suc d)
depth_after endif zero = none
depth_after endif (suc d) = some d

abbrev pub depth : List Line → ℕ → Option ℕ
depth [] d = some d
depth (l ∷ ls) d = depth_after l d >>= λ d'. depth ls d'

module _ {M : Type 0} (p : ByLine M) where
  abbrev S : Type 0
  S = State (by_line p)

  -- A round leaves as many open conditions as the line says, and read no further line.
  record Deep (d : Option ℕ) (r : S × ℕ) : Type 0 where
    opened : d ≡ some (length (r.0).condstack)
    alone : r.1 ≡ 0

  -- A round that evaluates or processes something first.
  after_bind {ℓ} :
      {A : Type ℓ} (m : Option A) (f : A → S × ℕ) (d : Option ℕ) (r : S × ℕ)
      → ((a : A) → Deep d (f a))
      → (m >>= λ a. some (f a)) ≡ some r
      → Deep d r
  after_bind none f d r h e = cc
  after_bind (some a) f d r h e = subst (Deep d) (some_eq e) (h a)

  after_two {ℓ κ} :
      {A : Type ℓ} {B : Type κ} (m : Option A) (g : A → B) (f : B → S × ℕ) (d : Option ℕ)
      (r : S × ℕ)
      → ((a : A) → Deep d (f (g a)))
      → ((m >>= λ a. some (g a)) >>= λ b. some (f b)) ≡ some r
      → Deep d r
  after_two none g f d r h e = cc
  after_two (some a) g f d r h e = subst (Deep d) (some_eq e) (h a)

  either :
      (t : Bool) (x y : Option (S × ℕ)) (d : Option ℕ) (r : S × ℕ)
      → (x ≡ some r → Deep d r)
      → (y ≡ some r → Deep d r)
      → (if t then x else y) ≡ some r
      → Deep d r
  either true x y d r hx hy e = hx e
  either false x y d r hx hy e = hy e

  at_once : (a : S × ℕ) (d : Option ℕ) (r : S × ℕ) → Deep d a → some a ≡ some r → Deep d r
  at_once a d r h e = subst (Deep d) (some_eq e) h

  refused : (d : Option ℕ) (r : S × ℕ) → none ≡ some r → Deep d r
  refused d r e = cc

  else_depth :
      (stack : List ℕ) (s : S) (r : S × ℕ)
      → s.condstack ≡ stack
      → handle_else (by_line p) stack s ≡ some r
      → Deep (depth_after else_line (length s.condstack)) r
  unfolding handle_else
  else_depth [] s r k e = cc
  else_depth (flag ∷ stack) s r k e =
      either (s.satisfy == 2) none _ _ r (refused _ r)
        (at_once _ _ r (record {
          opened =
              ap (λ (l : List ℕ). depth_after else_line (length l)) k
              ∙ ap (λ (l : List ℕ). some (length l)) (sym k);
          alone = refl;
        }))
        e

  elif_depth :
      (n : ℕ) (ls : List Line) (stack : List ℕ) (s : S) (r : S × ℕ)
      → s.condstack ≡ stack
      → handle_elif (by_line p) n ls stack s ≡ some r
      → Deep (depth_after (elif n) (length s.condstack)) r
  unfolding handle_elif
  elif_depth n ls [] s r k e = cc
  elif_depth n ls (flag ∷ stack) s r k e =
      let same : depth_after (elif n) (length s.condstack) ≡ some (length s.condstack) =
        ap (λ (l : List ℕ). depth_after (elif n) (length l)) k
        ∙ ap (λ (l : List ℕ). some (length l)) (sym k) in
      either (s.satisfy == 2) none _ _ r (refused _ r)
        (either (s.satisfy == 0) _ _ _ r
          (after_two (p.handle_if n s.world) _ _ _ r (λ a. record { opened = same; alone = refl }))
          (at_once _ _ r (record { opened = same; alone = refl })))
        e

  endif_depth :
      (stack : List ℕ) (s : S) (r : S × ℕ)
      → s.condstack ≡ stack
      → handle_endif (by_line p) stack s ≡ some r
      → Deep (depth_after endif (length s.condstack)) r
  unfolding handle_endif
  endif_depth [] s r k e = cc
  endif_depth (flag ∷ stack) s r k e =
      at_once _ _ r
        (record { opened = ap (λ (l : List ℕ). depth_after endif (length l)) k; alone = refl }) e

  dispatch-Deep :
      (l : Line) (ls : List Line) (s : S) (r : S × ℕ)
      → dispatch (by_line p) l ls s ≡ some r
      → Deep (depth_after l (length s.condstack)) r
  unfolding dispatch
  dispatch-Deep (text n) ls s r e =
      either s.enable _ _ _ r
        (after_two (p.process_line n s.world) _ _ _ r (λ a. record { opened = refl; alone = refl }))
        (at_once _ _ r (record { opened = refl; alone = refl })) e
  dispatch-Deep (directive n) ls s r e =
      either s.enable _ _ _ r
        (after_two (p.handle n s.world) _ _ _ r (λ a. record { opened = refl; alone = refl }))
        (at_once _ _ r (record { opened = refl; alone = refl })) e
  dispatch-Deep (ifdef n) ls s r e =
      after_bind (p.handle_ifdef n s.world) _ _ r (λ a. record { opened = refl; alone = refl }) e
  dispatch-Deep (ifndef n) ls s r e =
      after_bind (p.handle_ifdef n s.world) _ _ r (λ a. record { opened = refl; alone = refl }) e
  dispatch-Deep (if_line n) ls s r e =
      after_two (p.handle_if n s.world) _ _ _ r (λ a. record { opened = refl; alone = refl }) e
  dispatch-Deep else_line ls s r e = else_depth s.condstack s r refl e
  dispatch-Deep (elif n) ls s r e = elif_depth n ls s.condstack s r refl e
  dispatch-Deep endif ls s r e = endif_depth s.condstack s r refl e

  step-Deep :
      (l : Line) (ls : List Line) (s : S) (r : S × ℕ)
      → step (by_line p) l ls s ≡ some r
      → Deep (depth_after l (length s.condstack)) r
  unfolding step
  step-Deep (text n) ls s r e = dispatch-Deep (text n) ls s r e
  step-Deep (directive n) ls s r e = dispatch-Deep (directive n) ls _ r e
  step-Deep (ifdef n) ls s r e = dispatch-Deep (ifdef n) ls _ r e
  step-Deep (ifndef n) ls s r e = dispatch-Deep (ifndef n) ls _ r e
  step-Deep (if_line n) ls s r e = dispatch-Deep (if_line n) ls _ r e
  step-Deep else_line ls s r e = dispatch-Deep else_line ls _ r e
  step-Deep (elif n) ls s r e = dispatch-Deep (elif n) ls _ r e
  step-Deep endif ls s r e = dispatch-Deep endif ls _ r e

  run-depth :
      (ls : List Line) (s s' : S)
      → run (by_line p) 0 ls s ≡ some s'
      → depth ls (length s.condstack) ≡ some (length s'.condstack)
  unfolding run
  run-depth [] s s' e = ap (λ (x : S). some (length x.condstack)) (some_eq e)
  run-depth (l ∷ ls) s s' e =
      let (t, first, later) =
        bind_inversion (step (by_line p) l ls s) (λ r. run (by_line p) (r.1) ls (r.0)) s' e in
      let d = step-Deep l ls s t first in
      ap (λ o. o >>= λ n. depth ls n) d.opened
      ∙ run-depth ls (t.0) s' (ap (λ (n : ℕ). run (by_line p) n ls (t.0)) (sym d.alone) ∙ later)

  closed_stack :
      (stack : List ℕ) (w w' : M)
      → (let r : Option M = elim stack [ [] ↦ some w | _ ∷ _ ↦ none ] in r) ≡ some w'
      → length stack ≡ 0
  closed_stack [] w w' e = refl
  closed_stack (flag ∷ stack) w w' e = absurd (nothing e)
    where
      nothing : none ≡ some w' → ⊥
      nothing k = cc

  -- A file whose lines read no further ones, and that is processed to its end, has an opening for
  -- every `#elif`, `#else` and `#endif`, and an `#endif` for every opening: any other such file ends
  -- in an error.
  pub preprocess-depth :
      (ls : List Line) (w w' : M) → preprocess (by_line p) ls w ≡ some w' → depth ls 0 ≡ some 0
  unfolding preprocess
  preprocess-depth ls w w' e =
      let start : S = record { condstack = []; enable = true; satisfy = 0; world = w } in
      let (s, r, k) =
        bind_inversion (run (by_line p) 0 ls start)
          (λ s. let r : Option M = elim s.condstack [ [] ↦ some s.world | _ ∷ _ ↦ none ] in r) w'
          e in
      run-depth ls start s r ∙ ap some (closed_stack s.condstack s.world w' k)
