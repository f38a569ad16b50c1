-- ===== src/As/Label/Once.antt =====
-- src/as/ir_asm.c: `add_label_table` lets a label be defined once.
use my9cc.As.{LabelInfo, Labels}
use my9cc.As.Label.{put, new_label, set_flags, enter, add_label_table}
use my9cc.Prelude.{
  ℕ, ◌≡◌, ◌≢◌, refl, Bool, true, false, ◌||◌, none, some, ◌==◌, if◌then◌else◌, inl, inr,
  Option-cases, arith,
}

-- The table after the label is put there.
put_self : (labels : Labels) (l : ℕ) (info : LabelInfo) → put labels l info l ≡ some info
put_self labels l info = let same : (l == l) ≡ true = ground arith in rw same refl

put_other : (labels : Labels) (l k : ℕ) (info : LabelInfo) → k ≢ l → put labels l info k ≡ labels k
put_other labels l k info h = let other : (k == l) ≡ false = ground arith in rw other refl

or_true : (b : Bool) → b || true ≡ true
or_true true = refl
or_true false = refl

-- What a successful definition does: the label is defined in its section, and the others stay.
pub record Defines (labels labels' : Labels) (l section : ℕ) : Type 0 where
  pub info : LabelInfo
  pub found : labels' l ≡ some info
  pub placed : info.section ≡ section
  pub marked : info.defined ≡ true
  pub others : (k : ℕ) → k ≢ l → labels' k ≡ labels k

put-Defines :
    (labels : Labels) (l section : ℕ) (info : LabelInfo)
    → info.section ≡ section
    → info.defined ≡ true
    → Defines labels (put labels l info) l section
put-Defines labels l section info p m = record {
  info = info;
  found = put_self labels l info;
  placed = p;
  marked = m;
  others = λ k h. put_other labels l k info h;
}

defined_again :
    (labels : Labels) (l section : ℕ) (is_global : Bool) (info : LabelInfo)
    → labels l ≡ some info
    → info.defined ≡ true
    → add_label_table labels l section true is_global ≡ none
unfolding add_label_table enter
defined_again labels l section is_global info e m = rw e (simp m refl)

else_branch : (b : Bool) (x : Labels) → b ≡ false → (if b then none else some x) ≡ some x
else_branch true x h = cc
else_branch false x h = refl

defined_first :
    (labels : Labels) (l section : ℕ) (is_global : Bool) (info : LabelInfo)
    → labels l ≡ some info
    → info.defined ≡ false
    → add_label_table labels l section true is_global
      ≡ some
          (put labels l (set_flags true is_global (record info { section = section; address = 1 })))
unfolding add_label_table enter
defined_first labels l section is_global info e m = rw e (else_branch info.defined _ m)

-- A label that is not defined yet is defined in the section, with the other labels as they were, and
-- then it cannot be defined again.
pub add_label_table-once :
    (labels : Labels) (l section section' : ℕ) (is_global is_global' : Bool)
    → ((info : LabelInfo) → labels l ≡ some info → info.defined ≡ false)
    → (labels' : Labels) × (add_label_table labels l section true is_global ≡ some labels')
      × Defines labels labels' l section
      × (add_label_table labels' l section' true is_global' ≡ none)
unfolding add_label_table enter
add_label_table-once labels l section section' is_global is_global' h =
    elim (Option-cases (labels l)) [
      | inl new ↦
          let d =
            put-Defines labels l section (set_flags true is_global (new_label section 0)) refl
              refl in
          rw new (
            _,
            refl,
            d,
            defined_again (put labels l (set_flags true is_global (new_label section 0))) l section'
                is_global' _ d.found d.marked,
          )
      | inr (info, e) ↦
          let moved : LabelInfo = record info { section = section; address = 1 } in
          let d =
            put-Defines labels l section (set_flags true is_global moved) refl
              (or_true info.defined) in
          (
            _,
            defined_first labels l section is_global info e (h info e),
            d,
            defined_again (put labels l (set_flags true is_global moved)) l section' is_global' _
                d.found d.marked,
          )
    ]
