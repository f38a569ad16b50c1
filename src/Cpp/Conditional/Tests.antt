-- ===== src/Cpp/Conditional/Tests.antt =====
-- src/cpp/preprocessor.c: runs on concrete files, and the theorems at inputs that meet their hypotheses.
use my9cc.Cpp.Conditional.{
  Line, text, if_line, elif, else_line, endif, cond_value, flag_enable, flag_satisfy, Handlers,
  handle_else, handle_elif, handle_endif, dispatch, step, run, preprocess,
}
use my9cc.Cpp.Conditional.Groups.{
  File, end, line, group, close, otherwise, alternative, expression, flatten, ByLine, by_line,
  process,
}
use my9cc.Cpp.Conditional.Refines.{preprocess-process}
use my9cc.Cpp.Conditional.Balanced.{depth, preprocess-depth}
use my9cc.Prelude.{ℕ, ◌≡◌, refl, none, some, List, [], ◌∷◌, ◌++◌, ◌==◌, if◌then◌else◌}

-- The output so far: 0 for a line break, and the number of a line that is processed. A condition
-- holds if its number is 1, and does not parse if it is 9.
abbrev printing : ByLine (List ℕ)
printing = record {
  print_newline = λ w. w ++ (0 ∷ []);
  process_line = λ n w. some (w ++ (n ∷ []));
  handle = λ n w. some w;
  handle_ifdef = λ n w. some (n == 1);
  handle_if = λ n w. if n == 9 then none else some (n == 1, w);
}

-- #if 0 / 7 / #elif 1 / #if 1 / 8 / #endif / #else / 9 / #endif
abbrev nested : File
nested =
    group (expression 0) (line 7 end)
      (alternative 1 (group (expression 1) (line 8 end) close end) (otherwise (line 9 end))) end

nested_runs :
    preprocess (by_line printing) (flatten nested []) []
    ≡ some (0 ∷ 0 ∷ 0 ∷ 0 ∷ 8 ∷ 0 ∷ 0 ∷ 0 ∷ 0 ∷ [])
unfolding preprocess run step dispatch handle_else handle_elif handle_endif cond_value flag_enable
    flag_satisfy flatten
nested_runs = refl

else_without_if : preprocess (by_line printing) (text 7 ∷ else_line ∷ []) [] ≡ none
unfolding preprocess run step dispatch handle_else
else_without_if = refl

-- A condition that does not parse ends the program in a skipped group as well.
skipped_condition :
    preprocess (by_line printing) (if_line 0 ∷ (if_line 9 ∷ (endif ∷ (endif ∷ [])))) [] ≡ none
unfolding preprocess run step dispatch
skipped_condition = refl

-- The line 7 opens a comment that ends two lines further on.
abbrev commenting : Handlers (List ℕ)
commenting = record {
  print_newline = λ w. w ++ (0 ∷ []);
  process_line =
      λ n rest w. some (record { world = w ++ (n ∷ []); read = if n == 7 then 2 else 0 });
  handle = λ n rest w. some (record { world = w; read = 0 });
  handle_ifdef = λ n w. some (n == 1);
  handle_if = λ n rest w. some (record { holds = n == 1; world = w; read = 0 });
}

comment_hides_endif : preprocess commenting (text 7 ∷ (endif ∷ (text 5 ∷ []))) [] ≡ some (7 ∷ [])
unfolding preprocess run step dispatch
comment_hides_endif = refl

preprocess-process_example :
    preprocess (by_line printing) (flatten nested []) [] ≡ process printing nested []
preprocess-process_example = preprocess-process printing nested []

abbrev guarded : List Line
guarded = if_line 0 ∷ (text 7 ∷ (elif 1 ∷ (text 8 ∷ (endif ∷ []))))

preprocess-depth_example : depth guarded 0 ≡ some 0
unfolding preprocess run step dispatch handle_elif handle_endif cond_value flag_enable flag_satisfy
preprocess-depth_example =
    preprocess-depth printing guarded [] (0 ∷ (0 ∷ (0 ∷ (8 ∷ (0 ∷ []))))) refl
