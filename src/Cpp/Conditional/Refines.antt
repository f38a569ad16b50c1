-- ===== src/Cpp/Conditional/Refines.antt =====
-- src/cpp/preprocessor.c: `preprocess` processes a file as its conditional groups say.
use my9cc.Cpp.Conditional.{
  Line, text, elif, else_line, endif, directive, cond_value, flag_enable, State, handle_else,
  handle_elif, dispatch, step, run, preprocess,
}
use my9cc.Cpp.Conditional.Groups.{
  File, end, line, command, group, Branches, close, otherwise, alternative, opening_line, flatten,
  flatten_branches, ByLine, by_line, opens, skip, skip_branches, process, process_branches,
}
use my9cc.Cpp.Conditional.Nested.{
  flag_cond_value, state, one_if, run-line, run-cons, opening_step, endif_step, behind, behind-same,
  run-flatten_disabled, run-flatten_closed,
}
use my9cc.Prelude.{
  ℕ, ◌≤◌, ◌≡◌, refl, inr, Bool, true, false, ◌&&◌, Option, none, some, List, [], ◌∷◌, if◌then◌else◌,
  ◌>>=◌, arith, ap, sym, ◌∙◌, bind_cong, bind_assoc, bind-some,
}

and-true : (b : Bool) → (b && true) ≡ b
and-true true = refl
and-true false = refl

module _ {M : Type 0} (p : ByLine M) where
  text_step :
      (n satisfy : ℕ) (ls : List Line) (stack : List ℕ) (w : M)
      → step (by_line p) (text n) ls (state p stack true satisfy w)
        ≡ (p.process_line n w >>= λ w'. some (state p stack true satisfy w', 0))
  unfolding step dispatch
  text_step n satisfy ls stack w = bind_assoc (p.process_line n w) _ _

  directive_step :
      (n satisfy : ℕ) (ls : List Line) (stack : List ℕ) (w : M)
      → step (by_line p) (directive n) ls (state p stack true satisfy w)
        ≡ (p.handle n (p.print_newline w) >>= λ w'. some (state p stack true satisfy w', 0))
  unfolding step dispatch
  directive_step n satisfy ls stack w = bind_assoc (p.handle n (p.print_newline w)) _ _

  -- `#elif` and `#else` where no branch was taken yet, in an enabled group.
  elif_open :
      (n flag : ℕ) (ls : List Line) (stack : List ℕ) (w : M)
      → flag_enable flag ≡ true
      → step (by_line p) (elif n) ls (state p (flag ∷ stack) false 0 w) ≡ (
          p.handle_if n (p.print_newline w) >>= λ r.
          some (state p (flag ∷ stack) (r.0) (one_if (r.0)) (r.1), 0))
  unfolding step dispatch handle_elif
  elif_open n flag ls stack w on =
      bind_assoc (p.handle_if n (p.print_newline w)) _ _
      ∙ bind_cong (p.handle_if n (p.print_newline w)) (λ r.
        ap (λ (b : Bool). some (state p (flag ∷ stack) b (one_if (r.0)) (r.1), 0))
          (rw on (and-true (r.0))))

  else_open :
      (flag : ℕ) (ls : List Line) (stack : List ℕ) (w : M)
      → flag_enable flag ≡ true
      → step (by_line p) else_line ls (state p (flag ∷ stack) false 0 w)
        ≡ some (state p (flag ∷ stack) true 2 (p.print_newline w), 0)
  unfolding step dispatch handle_else
  else_open flag ls stack w e = rw e refl

  -- What a branch comes to, once its condition is known.
  abbrev chosen : Bool → File → Branches → M → Option M
  chosen t body bs w =
      let taken = process p body w >>= λ w2. skip_branches p bs true w2 in
      let passed = skip p body w >>= λ w2. process_branches p bs w2 in if t then taken else passed

  -- One branch, with what is known of its file and of the branches behind it.
  run-flatten_branch :
      (t : Bool) (body : File) (bs : Branches) (rest : List Line) (stack : List ℕ) (flag : ℕ)
      (w : M)
      → run
          (by_line p)
          0
          (flatten body (flatten_branches bs (endif ∷ rest)))
          (state p (flag ∷ stack) true 1 w)
        ≡ (process p body w >>= λ w'.
            run
              (by_line p)
              0
              (flatten_branches bs (endif ∷ rest))
              (state p (flag ∷ stack) true 1 w'))
      → ((w' : M)
          → run
              (by_line p)
              0
              (flatten_branches bs (endif ∷ rest))
              (state p (flag ∷ stack) false 0 w')
            ≡ (process_branches p bs w' >>= λ w2. behind p rest stack flag w2))
      → run
          (by_line p)
          0
          (flatten body (flatten_branches bs (endif ∷ rest)))
          (state p (flag ∷ stack) t (one_if t) w)
        ≡ (chosen t body bs w >>= λ w2. behind p rest stack flag w2)
  run-flatten_branch true body bs rest stack flag w inner open_bs =
      inner
      ∙ bind_cong (process p body w)
          (λ w2. run-flatten_closed p bs rest stack flag true true w2 (inr refl))
      ∙ sym (
          bind_assoc (process p body w) (λ w2. skip_branches p bs true w2)
            (λ w2. behind p rest stack flag w2))
  run-flatten_branch false body bs rest stack flag w inner open_bs =
      run-flatten_disabled p body (flatten_branches bs (endif ∷ rest)) (flag ∷ stack) 0 w
        (omega arith)
      ∙ bind_cong (skip p body w) open_bs
      ∙ sym (
          bind_assoc (skip p body w) (λ w2. process_branches p bs w2)
            (λ w2. behind p rest stack flag w2))

  mutual
    unfolding flatten flatten_branches process process_branches

    run-flatten :
        (f : File) (rest : List Line) (stack : List ℕ) (satisfy : ℕ) (w : M)
        → satisfy ≤ 2
        → run (by_line p) 0 (flatten f rest) (state p stack true satisfy w)
          ≡ (process p f w >>= λ w'. run (by_line p) 0 rest (state p stack true satisfy w'))
    run-flatten end rest stack satisfy w le = refl
    run-flatten (line n f) rest stack satisfy w le =
        run-line p (p.process_line n w) _ (text n) _ _ (text_step n satisfy _ stack w)
        ∙ bind_cong (p.process_line n w) (λ w'. run-flatten f rest stack satisfy w' le)
        ∙ sym (bind_assoc (p.process_line n w) (process p f) _)
    run-flatten (command n f) rest stack satisfy w le =
        run-line p (p.handle n (p.print_newline w)) _ (directive n) _ _
          (directive_step n satisfy _ stack w)
        ∙ bind_cong (p.handle n (p.print_newline w)) (λ w'. run-flatten f rest stack satisfy w' le)
        ∙ sym (bind_assoc (p.handle n (p.print_newline w)) (process p f) _)
    run-flatten (group o body bs f) rest stack satisfy w le =
        let m = opens p o (p.print_newline w) in
        let flag = cond_value true satisfy in
        let on = (flag_cond_value true satisfy le).0 in
        let after = λ (w' : M). run (by_line p) 0 rest (state p stack true satisfy w') in
        run-line p m _ (opening_line o) _ _ (opening_step p o _ stack true satisfy w)
        ∙ bind_cong m (λ r.
          run-flatten_branch (r.0) body bs (flatten f rest) stack flag (r.1)
            (run-flatten body (flatten_branches bs (endif ∷ flatten f rest)) (flag ∷ stack) 1 (r.1)
              (omega arith))
            (λ w'. run-flatten_open bs (flatten f rest) stack flag w' on)
          ∙ bind_cong (chosen (r.0) body bs (r.1)) (λ w3.
            behind-same p (flatten f rest) stack true satisfy w3 le
            ∙ run-flatten f rest stack satisfy (p.print_newline w3) le)
          ∙ sym (
              bind_assoc (chosen (r.0) body bs (r.1)) (λ w3. process p f (p.print_newline w3))
                after))
        ∙ sym (
            bind_assoc m
              (λ r. chosen (r.0) body bs (r.1) >>= λ w3. process p f (p.print_newline w3)) after)

    run-flatten_open :
        (bs : Branches) (rest : List Line) (stack : List ℕ) (flag : ℕ) (w : M)
        → flag_enable flag ≡ true
        → run (by_line p) 0 (flatten_branches bs (endif ∷ rest)) (state p (flag ∷ stack) false 0 w)
          ≡ (process_branches p bs w >>= λ w2. behind p rest stack flag w2)
    run-flatten_open close rest stack flag w e =
        run-cons p endif rest _ _ (endif_step p flag 0 rest stack false w)
    run-flatten_open (otherwise f) rest stack flag w e =
        run-cons p else_line _ _ _ (else_open flag _ stack w e)
        ∙ run-flatten f (endif ∷ rest) (flag ∷ stack) 2 (p.print_newline w) (omega arith)
        ∙ bind_cong (process p f (p.print_newline w))
            (λ w'. run-cons p endif rest _ _ (endif_step p flag 2 rest stack true w'))
    run-flatten_open (alternative n f bs) rest stack flag w e =
        let m = p.handle_if n (p.print_newline w) in
        run-line p m _ (elif n) _ _ (elif_open n flag _ stack w e)
        ∙ bind_cong m (λ r.
          run-flatten_branch (r.0) f bs rest stack flag (r.1)
            (run-flatten f (flatten_branches bs (endif ∷ rest)) (flag ∷ stack) 1 (r.1)
              (omega arith))
            (λ w'. run-flatten_open bs rest stack flag w' e))
        ∙ sym (bind_assoc m (λ r. chosen (r.0) f bs (r.1)) (λ w2. behind p rest stack flag w2))

  -- A file of lines and well-nested groups, none of whose lines reads a further one, is processed as
  -- the standard says: of each group the first branch whose condition holds, in the state that the
  -- lines before have left, and of the rest only the line breaks. The conditions of skipped groups
  -- are evaluated too, and one that fails ends the program.
  pub preprocess-process :
      (f : File) (w : M) → preprocess (by_line p) (flatten f []) w ≡ process p f w
  unfolding preprocess run
  preprocess-process f w =
      let done = λ (s : State (by_line p)).
        let r : Option M = elim s.condstack [ [] ↦ some s.world | _ ∷ _ ↦ none ] in r in
      ap (λ (o : Option (State (by_line p))). o >>= done) (run-flatten f [] [] 0 w (omega arith))
      ∙ bind_assoc (process p f w) (λ w'. run (by_line p) 0 [] (state p [] true 0 w')) done
      ∙ bind-some (process p f w)
