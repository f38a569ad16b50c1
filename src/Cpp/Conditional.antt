-- ===== src/Cpp/Conditional.antt =====
-- src/cpp/preprocessor.c: the loop of `preprocess`, with its stack of open conditions.
-- A line is what `find_directive` and `keyword` find in it, with a number that stands for the rest
-- of its text. `M` is all that the other parts keep (macros, output). `print_newline` writes the line
-- break for a directive or a skipped line; `process_line` and `handle` run a line of text and another
-- directive; `handle_ifdef` and `handle_if` evaluate a condition. Each may end the program, by `none`.
-- All but the second last may read further lines of the file, as a comment or the arguments of a macro
-- that go on there do: they are given the lines behind, and tell how many they took.
pub mod Groups
pub mod Nested
pub mod Refines
pub mod Balanced
mod Tests
use my9cc.Prelude.{
  ℕ, zero, suc, ◌+◌, ◌*◌, ◌/◌, Bool, true, false, not, ◌&&◌, Option, none, some, List, [], ◌∷◌,
  ◌==◌, if◌then◌else◌, ◌>>=◌, bit_and, bit_or,
}

pub data Line : Type 0 where
  text ifdef ifndef if_line elif directive : ℕ → Line
  else_line endif : Line

-- cond_value, with CF_SATISFY_SHIFT 1.
pub cond_value : Bool → ℕ → ℕ
cond_value enable satisfy = bit_or (if enable then 1 else 0) (satisfy * 2)

-- `(flag & CF_ENABLE) != 0`
pub flag_enable : ℕ → Bool
flag_enable flag = not (bit_and flag 1 == 0)

-- `(flag & CF_SATISFY_MASK) >> CF_SATISFY_SHIFT`
pub flag_satisfy : ℕ → ℕ
flag_satisfy flag = bit_and flag 6 / 2

-- The variables of the loop; the top of `condstack` stands first.
pub record Preprocess (M : Type 0) : Type 0 where
  pub condstack : List ℕ
  pub enable : Bool
  pub satisfy : ℕ
  pub world : M

-- What a handler leaves: the world and the number of further lines that it read.
pub record Ran (M : Type 0) : Type 0 where
  pub world : M
  pub read : ℕ

pub record Tested (M : Type 0) : Type 0 where
  pub holds : Bool
  pub world : M
  pub read : ℕ

pub record Handlers (M : Type 0) : Type 0 where
  pub print_newline : M → M
  pub process_line : ℕ → List Line → M → Option (Ran M)
  pub handle : ℕ → List Line → M → Option (Ran M)
  pub handle_ifdef : ℕ → M → Option Bool
  pub handle_if : ℕ → List Line → M → Option (Tested M)

module _ {M : Type 0} (h : Handlers M) where
  abbrev pub State : Type 0
  State = Preprocess M

  -- The head of `#ifdef`, `#ifndef` and `#if`.
  abbrev pub push_cond : Bool → M → State → State
  push_cond cond w s = record {
    condstack = cond_value s.enable s.satisfy ∷ s.condstack;
    enable = s.enable && cond;
    satisfy = if cond then 1 else 0;
    world = w;
  }

  -- `#else` under the flag on top of the stack.
  pub handle_else : List ℕ → State → Option (State × ℕ)
  handle_else [] s = none
  handle_else (flag ∷ _) s =
      if s.satisfy == 2
      then none
      else some (
        record s { enable = not s.enable && (s.satisfy == 0) && flag_enable flag; satisfy = 2 },
        0,
      )

  -- The condition of `#elif` is evaluated where no branch was taken, in a skipped group too.
  pub handle_elif : ℕ → List Line → List ℕ → State → Option (State × ℕ)
  handle_elif n rest [] s = none
  handle_elif n rest (flag ∷ _) s =
      if s.satisfy == 2
      then none
      else if s.satisfy == 0
      then (h.handle_if n rest s.world >>= λ r. some (
        record s {
          enable = not s.enable && r.holds && flag_enable flag;
          satisfy = if r.holds then 1 else 0;
          world = r.world;
        },
        r.read,
      ))
      else some (record s { enable = false }, 0)

  pub handle_endif : List ℕ → State → Option (State × ℕ)
  handle_endif [] s = none
  handle_endif (flag ∷ rest) s =
      some
        (record s { condstack = rest; enable = flag_enable flag; satisfy = flag_satisfy flag }, 0)

  -- The round of the loop for a line with those behind it, after the line break of a directive.
  pub dispatch : Line → List Line → State → Option (State × ℕ)
  dispatch (text n) rest s =
      if s.enable
      then (h.process_line n rest s.world >>= λ r. some (record s { world = r.world }, r.read))
      else some (record s { world = h.print_newline s.world }, 0)
  dispatch (ifdef n) rest s = h.handle_ifdef n s.world >>= λ b. some (push_cond b s.world s, 0)
  dispatch (ifndef n) rest s =
      h.handle_ifdef n s.world >>= λ b. some (push_cond (not b) s.world s, 0)
  dispatch (if_line n) rest s =
      h.handle_if n rest s.world >>= λ r. some (push_cond r.holds r.world s, r.read)
  dispatch else_line rest s = handle_else s.condstack s
  dispatch (elif n) rest s = handle_elif n rest s.condstack s
  dispatch endif rest s = handle_endif s.condstack s
  dispatch (directive n) rest s =
      if s.enable
      then (h.handle n rest s.world >>= λ r. some (record s { world = r.world }, r.read))
      else some (s, 0)

  abbrev pub is_text : Line → Bool
  is_text (text n) = true
  is_text _ = false

  pub step : Line → List Line → State → Option (State × ℕ)
  step line rest s =
      dispatch line rest (if is_text line then s else record s { world = h.print_newline s.world })

  -- The loop, with the number of lines that were read already.
  pub run : ℕ → List Line → State → Option State
  run taken [] s = some s
  run zero (line ∷ lines) s = step line lines s >>= λ r. run (r.1) lines (r.0)
  run (suc taken) (line ∷ lines) s = run taken lines s

  -- The whole of `preprocess`: at the end no condition is open.
  pub preprocess : List Line → M → Option M
  preprocess lines w =
      run 0 lines (record { condstack = []; enable = true; satisfy = 0; world = w }) >>= λ s.
      elim s.condstack [ [] ↦ some s.world | _ ∷ _ ↦ none ]
