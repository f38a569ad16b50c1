-- ===== src/Codegen/Tests.antt =====
-- A switch with a default between its cases, and one whose cases lie too far apart.
use my9cc.Codegen.Switch.{
  Case, less, compare_cases, compare_values, compare_each, gen_switch_cond_recur, Switch,
  gen_switch_cond,
}
use my9cc.Codegen.Switch.Machine.{execute_one, execute, flags_of, away}
use my9cc.Codegen.Switch.Find.{find, IsAscending}
use my9cc.Codegen.Switch.Ordered.{Moderate, IsValued, IsSwitch, signed_at}
use my9cc.Codegen.Switch.Correct.{Selects, gen_switch_cond-Selects}
use my9cc.Ir.Bop.{clamp_value}
use my9cc.Ir.Word.{word_sub}
use mathlib.Core.List.{Permᴰ, Memᴰ}
use my9cc.Prelude.{
  ℕ, ◌-◌, ◌^◌, ◌<◌, ◌≡◌, refl, Option, none, some, ◌>>=◌, List, [], ◌∷◌, inl, inr, arith,
}

abbrev case_of : Option ℕ → ℕ → Case
case_of v b = record { value = v; bb = b }

abbrev five : Case
five = case_of (some 5) 1

abbrev minus_three : Case
minus_three = case_of (some (2 ^ 64 - 3)) 2

abbrev fallback : Case
fallback = case_of none 3

abbrev nine : Case
nine = case_of (some 9) 4

abbrev four_cases : Switch
four_cases = record {
  cases = five ∷ minus_three ∷ fallback ∷ nine ∷ [];
  default_ = some fallback;
  break_bb = 0;
  size = 4;
}

abbrev by_value : List Case
by_value = minus_three ∷ five ∷ nine ∷ fallback ∷ []

by_value-permuted : Permᴰ by_value four_cases.cases
by_value-permuted =
    Permᴰ.trans (Permᴰ.swap refl refl) (Permᴰ.cons refl (Permᴰ.cons refl (Permᴰ.swap refl refl)))

by_value-IsAscending : IsAscending by_value
unfolding IsAscending compare_cases compare_values word_sub
by_value-IsAscending = ((refl, (refl, (refl, tt))), ((refl, (refl, tt)), ((refl, tt), (tt, tt))))

is_case : (n b : ℕ) → Moderate n → signed_at 4 n ≡ n → b < 5 → IsValued 4 5 (case_of (some n) b)
is_case n b m f h = record { number = n; is_value = refl; moderate = m; fits = f; before = h }

four_cases-IsSwitch : IsSwitch 5 four_cases
unfolding clamp_value
four_cases-IsSwitch = record {
  valued = (
    inr (is_case 5 1 (omega arith, omega arith, omega arith) refl (omega arith)),
    (
      inr (is_case (2 ^ 64 - 3) 2 (omega arith, omega arith, omega arith) refl (omega arith)),
      (
        inl refl,
        (inr (is_case 9 4 (omega arith, omega arith, omega arith) refl (omega arith)), tt),
      ),
    ),
  );
  default_case = (Memᴰ.tail (Memᴰ.tail (Memᴰ.head refl)), refl);
  other_before = omega arith;
}

gen_switch_cond-Selects_example : Selects 4 9 4 (gen_switch_cond four_cases by_value 5)
unfolding find clamp_value
gen_switch_cond-Selects_example =
    gen_switch_cond-Selects 9 5 four_cases by_value (omega arith) refl by_value-permuted
      by_value-IsAscending four_cases-IsSwitch

-- The difference of the values 2 ^ 62 and - 2 ^ 63 overflows: the larger one stands below.
far_cases : compare_cases (case_of (some (2 ^ 62)) 1) (case_of (some (2 ^ 63)) 2) ≡ less
unfolding compare_cases compare_values word_sub
far_cases = refl

-- The cases 0, 1, 2 ^ 31 and 2 ^ 32 - 1 of an `unsigned int`, in their order: with signs 2 ^ 31 is the
-- lowest, so that the value 0 goes to the upper half, and to the default.
unsigned_missed :
    (gen_switch_cond_recur 5 4 9
        (record { fixnum = 0; bb = 1 }
          ∷ (record { fixnum = 1; bb = 2 }
              ∷ (record { fixnum = 2 ^ 31; bb = 3 }
                  ∷ (record { fixnum = 2 ^ 32 - 1; bb = 4 } ∷ []))))
        10
      >>= λ r. some (execute 0 (r.0) (flags_of 4 0)))
    ≡ some (away 4 9)
unfolding gen_switch_cond_recur compare_each execute execute_one clamp_value
unsigned_missed = refl
