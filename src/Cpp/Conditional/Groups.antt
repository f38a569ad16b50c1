-- ===== src/Cpp/Conditional/Groups.antt =====
-- The C standard's grammar of a file with conditional groups, and what it selects.
use my9cc.Cpp.Conditional.{
  Line, text, ifdef, ifndef, if_line, elif, else_line, endif, directive, Handlers,
}
use my9cc.Prelude.{ℕ, Bool, not, Option, some, List, ◌∷◌, true, false, if◌then◌else◌, ◌>>=◌}

pub data Opening : Type 0 where
  defined undefined expression : ℕ → Opening

-- A file is a list of lines and groups; a group has an opening, and further branches.
mutual
  pub data File : Type 0 where
    end : File
    line : ℕ → File → File
    command : ℕ → File → File
    group : Opening → File → Branches → File → File

  pub data Branches : Type 0 where
    close : Branches
    otherwise : File → Branches
    alternative : ℕ → File → Branches → Branches

abbrev pub opening_line : Opening → Line
opening_line (defined n) = ifdef n
opening_line (undefined n) = ifndef n
opening_line (expression n) = if_line n

unfoldable mutual
  pub flatten : File → List Line → List Line
  flatten end rest = rest
  flatten (line n f) rest = text n ∷ flatten f rest
  flatten (command n f) rest = directive n ∷ flatten f rest
  flatten (group o body bs f) rest =
      opening_line o ∷ flatten body (flatten_branches bs (endif ∷ flatten f rest))

  pub flatten_branches : Branches → List Line → List Line
  flatten_branches close rest = rest
  flatten_branches (otherwise f) rest = else_line ∷ flatten f rest
  flatten_branches (alternative n f bs) rest = elif n ∷ flatten f (flatten_branches bs rest)

-- The handlers on lines that stand for themselves: none reads a further line.
pub record ByLine (M : Type 0) : Type 0 where
  pub print_newline : M → M
  pub process_line : ℕ → M → Option M
  pub handle : ℕ → M → Option M
  pub handle_ifdef : ℕ → M → Option Bool
  pub handle_if : ℕ → M → Option (Bool × M)

abbrev pub by_line : {M : Type 0} → ByLine M → Handlers M
by_line p = record {
  print_newline = p.print_newline;
  process_line = λ n rest w. p.process_line n w >>= λ w'. some (record { world = w'; read = 0 });
  handle = λ n rest w. p.handle n w >>= λ w'. some (record { world = w'; read = 0 });
  handle_ifdef = p.handle_ifdef;
  handle_if =
      λ n rest w. p.handle_if n w >>= λ r. some (record { holds = r.0; world = r.1; read = 0 });
}

module _ {M : Type 0} (h : ByLine M) where
  abbrev pub opens : Opening → M → Option (Bool × M)
  opens (defined n) w = h.handle_ifdef n w >>= λ b. some (b, w)
  opens (undefined n) w = h.handle_ifdef n w >>= λ b. some (not b, w)
  opens (expression n) w = h.handle_if n w

  -- What is skipped gives a line break for every line, but the conditions in it are evaluated, those of
  -- `#elif` as long as none of their group held.
  unfoldable mutual
    pub skip : File → M → Option M
    skip end w = some w
    skip (line n f) w = skip f (h.print_newline w)
    skip (command n f) w = skip f (h.print_newline w)
    skip (group o body bs f) w = opens o (h.print_newline w) >>= λ r.
        skip body (r.1) >>= λ w2. skip_branches bs (r.0) w2 >>= λ w3. skip f (h.print_newline w3)

    pub skip_branches : Branches → Bool → M → Option M
    skip_branches close held w = some w
    skip_branches (otherwise f) held w = skip f (h.print_newline w)
    skip_branches (alternative n f bs) true w =
        skip f (h.print_newline w) >>= λ w2. skip_branches bs true w2
    skip_branches (alternative n f bs) false w =
        h.handle_if n (h.print_newline w) >>= λ r. skip f (r.1) >>= λ w2. skip_branches bs (r.0) w2

  -- The first branch whose condition holds is processed, and the others are skipped.
  unfoldable mutual
    pub process : File → M → Option M
    process end w = some w
    process (line n f) w = h.process_line n w >>= λ w'. process f w'
    process (command n f) w = h.handle n (h.print_newline w) >>= λ w'. process f w'
    process (group o body bs f) w = opens o (h.print_newline w) >>= λ r.
        let taken = process body (r.1) >>= λ w2. skip_branches bs true w2 in
        let passed = skip body (r.1) >>= λ w2. process_branches bs w2 in
        (if r.0 then taken else passed) >>= λ w3. process f (h.print_newline w3)

    pub process_branches : Branches → M → Option M
    process_branches close w = some w
    process_branches (otherwise f) w = process f (h.print_newline w)
    process_branches (alternative n f bs) w = h.handle_if n (h.print_newline w) >>= λ r.
        let taken = process f (r.1) >>= λ w2. skip_branches bs true w2 in
        let passed = skip f (r.1) >>= λ w2. process_branches bs w2 in if r.0 then taken else passed
