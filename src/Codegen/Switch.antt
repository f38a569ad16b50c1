-- ===== src/Codegen/Switch.antt =====
-- src/cc/codegen.c: `compare_cases`, `gen_switch_cond_recur` and `gen_switch_cond`, which compare the
-- value of a switch with those of its cases, by bisection.
-- A basic block is its number, and `label` the call of `set_curbb` that starts it: the blocks stand
-- in a row, and control falls from one to the next. A Fixnum is its pattern of 64 bits. A constant
-- operand is its value; the register that is compared is the same throughout. A comparison has the
-- size of the type of the value, the field `size` of `vtype`.
pub mod Sorted
pub mod Jumps
pub mod Bisects
pub mod Find
pub mod Ordered
pub mod Machine
pub mod Correct
use my9cc.Ir.Cond.{ConditionKind, any, eq, gt}
use my9cc.Ir.Word.{negative, word_sub}
use my9cc.Prelude.{
  ℕ, zero, suc, ◌+◌, ◌-◌, ◌/◌, Bool, Option, none, some, List, [], ◌∷◌, ◌++◌, ◌==◌, leb, ltb,
  if◌then◌else◌, ◌>>=◌, take, drop, length,
}

-- A `case` or, without a value, the `default` of the vector `cases`.
pub record Case : Type 0 where
  pub value : Option ℕ
  pub bb : ℕ

pub data Instr : Type 0 where
  cmp : ℕ → ℕ → Instr
  jmp : ConditionKind → ℕ → Instr
  label : ℕ → Instr

-- A case with its value: what the loops read at an index of `cases`.
pub record Entry : Type 0 where
  pub fixnum : ℕ
  pub bb : ℕ

-- What a comparison of QSORT returns.
pub data Sign : Type 0 where
  less equal greater : Sign

unfoldable pub compare_values : ℕ → ℕ → Sign
compare_values a b =
    let d = word_sub a b in if d == 0 then equal else if negative d then less else greater

-- `none` is the NULL value of a default.
abbrev pub compare_optional : Option ℕ → Option ℕ → Sign
compare_optional none b = greater
compare_optional (some a) none = less
compare_optional (some a) (some b) = compare_values a b

unfoldable pub compare_cases : Case → Case → Sign
compare_cases ca cb = compare_optional ca.value cb.value

-- The loop for at most two cases, with the number of the next block.
unfoldable pub compare_each : ℕ → ℕ → List Entry → ℕ → List Instr × ℕ
compare_each size other [] bbs = (jmp any other ∷ [], bbs)
compare_each size other (c ∷ cs) bbs =
    let rest = compare_each size other cs (bbs + 1) in
    (cmp size c.fixnum ∷ (jmp eq c.bb ∷ (label bbs ∷ rest.0)), rest.1)

-- A comparison in the middle, between the code of the lower cases and that of the upper ones, which
-- `recur` makes.
abbrev pub bisect :
    ℕ
    → (List Entry → ℕ → Option (List Instr × ℕ))
    → List Entry
    → List Entry
    → ℕ
    → Option (List Instr × ℕ)
bisect size recur lower [] bbs = none
bisect size recur lower (c ∷ upper) bbs = recur lower (bbs + 3) >>= λ low.
    recur upper (low.1) >>= λ high. some (
      cmp size c.fixnum
          ∷ (jmp eq c.bb
              ∷ (label bbs
                  ∷ (jmp gt (bbs + 2)
                      ∷ (label (bbs + 1) ∷ (low.0 ++ (label (bbs + 2) ∷ high.0)))))),
      high.1,
    )

-- `other` is the block of the default, or that behind the switch.
unfoldable pub gen_switch_cond_recur : ℕ → ℕ → ℕ → List Entry → ℕ → Option (List Instr × ℕ)
gen_switch_cond_recur zero size other order bbs = none
gen_switch_cond_recur (suc fuel) size other order bbs =
    let m = length order / 2 in
    if leb (length order) 2
    then some (compare_each size other order bbs)
    else bisect size (λ half n. gen_switch_cond_recur fuel size other half n) (take m order)
        (drop m order) bbs

-- `none` is an access through the NULL value of a default.
abbrev pub entries : List Case → Option (List Entry)
entries [] = some []
entries (c ∷ cs) =
    c.value >>= λ v. entries cs >>= λ rest. some (record { fixnum = v; bb = c.bb } ∷ rest)

-- `size` is that of the type of the value.
pub record Switch : Type 0 where
  pub cases : List Case
  pub default_ : Option Case
  pub break_bb : ℕ
  pub size : ℕ

abbrev pub other_bb : Switch → ℕ
other_bb sw = elim sw.default_ [ none ↦ sw.break_bb | some d ↦ d.bb ]

-- The number of cases that are compared.
abbrev pub compared : Switch → ℕ
compared sw = elim sw.default_ [ none ↦ length sw.cases | some d ↦ length sw.cases - 1 ]

-- `order` are the cases as QSORT puts their indices; the last block starts behind the comparisons.
unfoldable pub gen_switch_cond : Switch → List Case → ℕ → Option (List Instr × ℕ)
gen_switch_cond sw order bbs =
    if ltb 0 (length sw.cases)
    then (entries (take (compared sw) order) >>= λ es.
        gen_switch_cond_recur (length order + 1) sw.size (other_bb sw) es bbs >>= λ r.
        some (r.0 ++ (label (r.1) ∷ []), r.1 + 1))
    else some (jmp any (other_bb sw) ∷ (label bbs ∷ []), bbs + 1)
