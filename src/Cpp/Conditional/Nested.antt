-- ===== src/Cpp/Conditional/Nested.antt =====
-- src/cpp/preprocessor.c: what is skipped, groups within it included.
use my9cc.Cpp.Conditional.{
  Line, text, elif, else_line, endif, directive, cond_value, flag_enable, flag_satisfy, State,
  handle_else, handle_elif, handle_endif, dispatch, step, run,
}
use my9cc.Cpp.Conditional.Groups.{
  Opening, defined, undefined, expression, File, end, line, command, group, Branches, close,
  otherwise, alternative, opening_line, flatten, flatten_branches, ByLine, by_line, opens, skip,
  skip_branches,
}
use my9cc.Prelude.{
  ℕ, zero, suc, ◌≤◌, ◌≡◌, refl, ◌⊎◌, inl, inr, Bool, true, false, not, ◌&&◌, Option, some, List,
  ◌∷◌, if◌then◌else◌, ◌>>=◌, arith, ap, sym, ◌∙◌, bind_cong, bind_assoc,
}

pub flag_cond_value :
    (enable : Bool) (satisfy : ℕ)
    → satisfy ≤ 2
    → (flag_enable (cond_value enable satisfy) ≡ enable)
      × (flag_satisfy (cond_value enable satisfy) ≡ satisfy)
unfolding flag_enable flag_satisfy cond_value
flag_cond_value true zero h = (refl, refl)
flag_cond_value false zero h = (refl, refl)
flag_cond_value true (suc zero) h = (refl, refl)
flag_cond_value false (suc zero) h = (refl, refl)
flag_cond_value true (suc (suc zero)) h = (refl, refl)
flag_cond_value false (suc (suc zero)) h = (refl, refl)
flag_cond_value enable (suc (suc (suc n))) h = absurd (omega arith)

-- No further branch of the group is taken: the group is not enabled, or a branch was taken.
abbrev pub IsClosed : ℕ → Bool → Type 0
IsClosed flag held = (flag_enable flag ≡ false) ⊎ (held ≡ true)

abbrev pub one_if : Bool → ℕ
one_if t = if t then 1 else 0

pub one_if-small : (t : Bool) → one_if t ≤ 2
one_if-small true = omega arith
one_if-small false = omega arith

module _ {M : Type 0} (p : ByLine M) where
  abbrev pub state : List ℕ → Bool → ℕ → M → State (by_line p)
  state stack enable satisfy w = record {
    condstack = stack;
    enable = enable;
    satisfy = satisfy;
    world = w;
  }

  -- A line whose round evaluates or processes something, and goes on at the next line.
  pub run-line :
      {A : Type 0} (m : Option A) (f : A → State (by_line p)) (l : Line) (ls : List Line)
      (s : State (by_line p))
      → step (by_line p) l ls s ≡ (m >>= λ a. some (f a, 0))
      → run (by_line p) 0 (l ∷ ls) s ≡ (m >>= λ a. run (by_line p) 0 ls (f a))
  unfolding run
  run-line m f l ls s e =
      ap (λ (o : Option (State (by_line p) × ℕ)). o >>= λ r. run (by_line p) (r.1) ls (r.0)) e
      ∙ bind_assoc m (λ a. some (f a, 0)) (λ r. run (by_line p) (r.1) ls (r.0))

  pub run-cons :
      (l : Line) (ls : List Line) (s s' : State (by_line p))
      → step (by_line p) l ls s ≡ some (s', 0)
      → run (by_line p) 0 (l ∷ ls) s ≡ run (by_line p) 0 ls s'
  unfolding run
  run-cons l ls s s' e = rw e

  elif_held :
      (n flag : ℕ) (ls : List Line) (stack : List ℕ) (enable : Bool) (w : M)
      → step (by_line p) (elif n) ls (state (flag ∷ stack) enable 1 w)
        ≡ some (state (flag ∷ stack) false 1 (p.print_newline w), 0)
  unfolding step dispatch handle_elif
  elif_held n flag ls stack enable w = refl

  elif_disabled :
      (n flag : ℕ) (ls : List Line) (stack : List ℕ) (enable : Bool) (w : M)
      → flag_enable flag ≡ false
      → step (by_line p) (elif n) ls (state (flag ∷ stack) enable 0 w) ≡ (
          p.handle_if n (p.print_newline w) >>= λ r.
          some (state (flag ∷ stack) false (one_if (r.0)) (r.1), 0))
  unfolding step dispatch handle_elif
  elif_disabled n flag ls stack enable w off =
      bind_assoc (p.handle_if n (p.print_newline w)) _ _
      ∙ bind_cong (p.handle_if n (p.print_newline w)) (λ r.
        ap (λ (b : Bool). some (state (flag ∷ stack) b (one_if (r.0)) (r.1), 0))
          (rw off (never enable (r.0))))
    where
      never : (a b : Bool) → (not a && b && false) ≡ false
      never a b = ground arith

  else_closed :
      (flag : ℕ) (held : Bool) (ls : List Line) (stack : List ℕ) (enable : Bool) (w : M)
      → IsClosed flag held
      → step (by_line p) else_line ls (state (flag ∷ stack) enable (one_if held) w)
        ≡ some (state (flag ∷ stack) false 2 (p.print_newline w), 0)
  unfolding step dispatch handle_else
  else_closed flag held ls stack enable w c = ground arith

  pub endif_step :
      (flag satisfy : ℕ) (ls : List Line) (stack : List ℕ) (enable : Bool) (w : M)
      → step (by_line p) endif ls (state (flag ∷ stack) enable satisfy w)
        ≡ some (state stack (flag_enable flag) (flag_satisfy flag) (p.print_newline w), 0)
  unfolding step dispatch handle_endif
  endif_step flag satisfy ls stack enable w = refl

  pub opening_step :
      (o : Opening) (ls : List Line) (stack : List ℕ) (enable : Bool) (satisfy : ℕ) (w : M)
      → step (by_line p) (opening_line o) ls (state stack enable satisfy w) ≡ (
          opens p o (p.print_newline w) >>= λ r.
          some
            (state (cond_value enable satisfy ∷ stack) (enable && (r.0)) (one_if (r.0)) (r.1), 0))
  unfolding step dispatch
  opening_step (defined n) ls stack enable satisfy w =
      sym (bind_assoc (p.handle_ifdef n (p.print_newline w)) _ _)
  opening_step (undefined n) ls stack enable satisfy w =
      sym (bind_assoc (p.handle_ifdef n (p.print_newline w)) _ _)
  opening_step (expression n) ls stack enable satisfy w =
      bind_assoc (p.handle_if n (p.print_newline w)) _ _

  text_skipped :
      (n satisfy : ℕ) (ls : List Line) (stack : List ℕ) (w : M)
      → step (by_line p) (text n) ls (state stack false satisfy w)
        ≡ some (state stack false satisfy (p.print_newline w), 0)
  unfolding step dispatch
  text_skipped n satisfy ls stack w = refl

  directive_skipped :
      (n satisfy : ℕ) (ls : List Line) (stack : List ℕ) (w : M)
      → step (by_line p) (directive n) ls (state stack false satisfy w)
        ≡ some (state stack false satisfy (p.print_newline w), 0)
  unfolding step dispatch
  directive_skipped n satisfy ls stack w = refl

  -- What follows a group, in the state before it.
  abbrev pub behind : List Line → List ℕ → ℕ → M → Option (State (by_line p))
  behind rest stack flag w =
      run (by_line p) 0 rest
        (state stack (flag_enable flag) (flag_satisfy flag) (p.print_newline w))

  -- The flag of a group gives back what was before it.
  pub behind-same :
      (rest : List Line) (stack : List ℕ) (enable : Bool) (satisfy : ℕ) (w : M)
      → satisfy ≤ 2
      → behind rest stack (cond_value enable satisfy) w
        ≡ run (by_line p) 0 rest (state stack enable satisfy (p.print_newline w))
  behind-same rest stack enable satisfy w le =
      let (e, s) = flag_cond_value enable satisfy le in
      let flag = cond_value enable satisfy in
      ap
        (λ (b : Bool).
          run (by_line p) 0 rest (state stack b (flag_satisfy flag) (p.print_newline w)))
        e
      ∙ ap (λ (n : ℕ). run (by_line p) 0 rest (state stack enable n (p.print_newline w))) s

  -- A skipped branch, with what is known of its file and of the branches behind it.
  alternative_closed :
      (f : File) (bs : Branches) (rest : List Line) (stack : List ℕ) (flag : ℕ) (held : Bool)
      (w : M)
      → run
          (by_line p)
          0
          (flatten f (flatten_branches bs (endif ∷ rest)))
          (state (flag ∷ stack) false (one_if held) w)
        ≡ (skip p f w >>= λ w2.
            run
              (by_line p)
              0
              (flatten_branches bs (endif ∷ rest))
              (state (flag ∷ stack) false (one_if held) w2))
      → ((w2 : M)
          → run
              (by_line p)
              0
              (flatten_branches bs (endif ∷ rest))
              (state (flag ∷ stack) false (one_if held) w2)
            ≡ (skip_branches p bs held w2 >>= λ w'. behind rest stack flag w'))
      → run
          (by_line p)
          0
          (flatten f (flatten_branches bs (endif ∷ rest)))
          (state (flag ∷ stack) false (one_if held) w)
        ≡ ((skip p f w >>= λ w2. skip_branches p bs held w2) >>= λ w'. behind rest stack flag w')
  alternative_closed f bs rest stack flag held w inner outer =
      inner
      ∙ bind_cong (skip p f w) outer
      ∙ sym (
          bind_assoc (skip p f w) (λ w2. skip_branches p bs held w2)
            (λ w'. behind rest stack flag w'))

  -- A file that is not enabled is skipped, and the state comes back.
  mutual
    unfolding flatten flatten_branches skip skip_branches

    pub run-flatten_disabled :
        (f : File) (rest : List Line) (stack : List ℕ) (satisfy : ℕ) (w : M)
        → satisfy ≤ 2
        → run (by_line p) 0 (flatten f rest) (state stack false satisfy w)
          ≡ (skip p f w >>= λ w'. run (by_line p) 0 rest (state stack false satisfy w'))
    run-flatten_disabled end rest stack satisfy w le = refl
    run-flatten_disabled (line n f) rest stack satisfy w le =
        run-cons (text n) (flatten f rest) _ _ (text_skipped n satisfy (flatten f rest) stack w)
        ∙ run-flatten_disabled f rest stack satisfy (p.print_newline w) le
    run-flatten_disabled (command n f) rest stack satisfy w le =
        run-cons (directive n) (flatten f rest) _ _
          (directive_skipped n satisfy (flatten f rest) stack w)
        ∙ run-flatten_disabled f rest stack satisfy (p.print_newline w) le
    run-flatten_disabled (group o body bs f) rest stack satisfy w le =
        let m = opens p o (p.print_newline w) in
        let flag = cond_value false satisfy in
        let off = (flag_cond_value false satisfy le).0 in
        let after = λ (w' : M). run (by_line p) 0 rest (state stack false satisfy w') in
        let inner = λ (r : Bool × M). skip p body (r.1) >>= λ w2.
        skip_branches p bs (r.0) w2 >>= λ w3. skip p f (p.print_newline w3) in
        run-line m _ (opening_line o) _ _ (opening_step o _ stack false satisfy w)
        ∙ bind_cong m (λ r.
          run-flatten_disabled body (flatten_branches bs (endif ∷ flatten f rest)) (flag ∷ stack)
            (one_if (r.0)) (r.1) (one_if-small (r.0))
          ∙ bind_cong (skip p body (r.1)) (λ w2.
            run-flatten_closed bs (flatten f rest) stack flag false (r.0) w2 (inl off)
            ∙ bind_cong (skip_branches p bs (r.0) w2) (λ w3.
              behind-same (flatten f rest) stack false satisfy w3 le
              ∙ run-flatten_disabled f rest stack satisfy (p.print_newline w3) le)
            ∙ sym (
                bind_assoc (skip_branches p bs (r.0) w2) (λ w3. skip p f (p.print_newline w3))
                  after))
          ∙ sym (
              bind_assoc (skip p body (r.1))
                (λ w2. skip_branches p bs (r.0) w2 >>= λ w3. skip p f (p.print_newline w3)) after))
        ∙ sym (bind_assoc m inner after)

    pub run-flatten_closed :
        (bs : Branches) (rest : List Line) (stack : List ℕ) (flag : ℕ) (enable held : Bool) (w : M)
        → IsClosed flag held
        → run
            (by_line p)
            0
            (flatten_branches bs (endif ∷ rest))
            (state (flag ∷ stack) enable (one_if held) w)
          ≡ (skip_branches p bs held w >>= λ w'. behind rest stack flag w')
    run-flatten_closed close rest stack flag enable held w c =
        run-cons endif rest _ _ (endif_step flag (one_if held) rest stack enable w)
    run-flatten_closed (otherwise f) rest stack flag enable held w c =
        run-cons else_line _ _ _ (else_closed flag held _ stack enable w c)
        ∙ run-flatten_disabled f (endif ∷ rest) (flag ∷ stack) 2 (p.print_newline w) (omega arith)
        ∙ bind_cong (skip p f (p.print_newline w))
            (λ w'. run-cons endif rest _ _ (endif_step flag 2 rest stack false w'))
    run-flatten_closed (alternative n f bs) rest stack flag enable true w c =
        run-cons (elif n) _ _ _ (elif_held n flag _ stack enable w)
        ∙ alternative_closed f bs rest stack flag true (p.print_newline w)
            (run-flatten_disabled f (flatten_branches bs (endif ∷ rest)) (flag ∷ stack) 1
              (p.print_newline w) (omega arith))
            (λ w2. run-flatten_closed bs rest stack flag false true w2 (inr refl))
    run-flatten_closed (alternative n f bs) rest stack flag enable false w (inl off) =
        let m = p.handle_if n (p.print_newline w) in
        run-line m _ (elif n) _ _ (elif_disabled n flag _ stack enable w off)
        ∙ bind_cong m (λ r.
          alternative_closed f bs rest stack flag (r.0) (r.1)
            (run-flatten_disabled f (flatten_branches bs (endif ∷ rest)) (flag ∷ stack)
              (one_if (r.0)) (r.1) (one_if-small (r.0)))
            (λ w2. run-flatten_closed bs rest stack flag false (r.0) w2 (inl off)))
        ∙ sym (
            bind_assoc m (λ r. skip p f (r.1) >>= λ w2. skip_branches p bs (r.0) w2)
              (λ w'. behind rest stack flag w'))
    run-flatten_closed (alternative n f bs) rest stack flag enable false w (inr held) = cc
