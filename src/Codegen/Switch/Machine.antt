-- ===== src/Codegen/Switch/Machine.antt =====
-- src/cc/codegen.c and the IR_CMP and IR_JMP of src/cc/ir.c: how the processor runs the code of a switch.
-- A CMP has a size, and a jump reads its flags: whether the numbers of that size are equal, and their
-- order with and without signs. All three are those of the numbers extended with their signs.
use my9cc.Codegen.Switch.{
  Instr, cmp, jmp, label, Entry, compare_each, bisect, gen_switch_cond_recur,
}
use my9cc.Codegen.Switch.Sorted.{key, All-parts}
use my9cc.Codegen.Switch.Jumps.{Control, at, jumped, step, run}
use my9cc.Codegen.Switch.Ordered.{signed_at, AllShort}
use my9cc.Ir.Bop.{clamp_value}
use my9cc.Ir.Cond.{ConditionKind, holds}
use my9cc.Prelude.{
  ℕ, zero, suc, ◌+◌, ◌/◌, ◌≡◌, refl, Bool, true, false, Option, some, List, [], ◌∷◌, ◌++◌, ◌==◌,
  leb, ltb, if◌then◌else◌, take, drop, length, sym, ◌∙◌, ap, inl, inr, Bool-cases, bind_inversion,
  some_eq, subst, arith, take-append-drop,
}

-- Behind a comparison at a size with a number, or, with the size, on the way to a block. There the
-- flags are those of the number 0: the code of a block compares before it reads them.
pub data Machine : Type 0 where
  flags_of : ℕ → ℕ → Machine
  away : ℕ → ℕ → Machine

abbrev pub taken : ConditionKind → ℕ → ℕ → Bool
taken c a b = holds c (a == b) (ltb (key a) (key b)) (ltb a b)

-- `v` is what the register holds.
unfoldable pub execute_one : ℕ → Instr → Machine → Machine
execute_one v (cmp z n) (flags_of z' last) = flags_of z n
execute_one v (jmp c bb) (flags_of z last) =
    if taken c (signed_at z v) (signed_at z last) then away z bb else flags_of z last
execute_one v (label bb) (flags_of z last) = flags_of z last
execute_one v (label bb) (away z to) = if bb == to then flags_of z 0 else away z to
execute_one v _ (away z to) = away z to

unfoldable pub execute : ℕ → List Instr → Machine → Machine
execute v [] m = m
execute v (i ∷ is) m = execute v is (execute_one v i m)

-- Every comparison is at the size `size`, and with a number that fits in it.
pub Sized : ℕ → List Instr → Type 0
Sized size [] = Unit
Sized size (cmp z n ∷ is) = (z ≡ size) × (signed_at size n ≡ n) × Sized size is
Sized size (jmp c bb ∷ is) = Sized size is
Sized size (label bb ∷ is) = Sized size is

Sized-append :
    (size : ℕ) (is js : List Instr) → Sized size is → Sized size js → Sized size (is ++ js)
unfolding Sized
Sized-append size [] js h k = k
Sized-append size (cmp z n ∷ is) js (e, f, h) k = (e, f, Sized-append size is js h k)
Sized-append size (jmp c bb ∷ is) js h k = Sized-append size is js h k
Sized-append size (label bb ∷ is) js h k = Sized-append size is js h k

pub Sized-label :
    (size bb : ℕ) (is : List Instr) → Sized size is → Sized size (is ++ (label bb ∷ []))
unfolding Sized
Sized-label size bb is h = Sized-append size is (label bb ∷ []) h tt

pub Sized-jump : (size bb to : ℕ) (c : ConditionKind) → Sized size (jmp c to ∷ (label bb ∷ []))
unfolding Sized
Sized-jump size bb to c = tt

compare_each-Sized :
    (size other : ℕ) (es : List Entry) (bbs : ℕ)
    → AllShort size es
    → Sized size (compare_each size other es bbs).0
unfolding compare_each Sized AllShort
compare_each-Sized size other [] bbs h = tt
compare_each-Sized size other (e ∷ es) bbs h =
    (refl, h.0, compare_each-Sized size other es (bbs + 1) (h.1))

bisect-Sized :
    (size : ℕ) (recur : List Entry → ℕ → Option (List Instr × ℕ)) (a d : List Entry) (bbs : ℕ)
    (r : List Instr × ℕ)
    → ((es : List Entry) (n : ℕ) (x : List Instr × ℕ)
        → AllShort size es
        → recur es n ≡ some x
        → Sized size (x.0))
    → AllShort size a
    → AllShort size d
    → bisect size recur a d bbs ≡ some r
    → Sized size (r.0)
unfolding Sized AllShort
bisect-Sized size recur a [] bbs r again ha hd e = cc
bisect-Sized size recur a (c ∷ b) bbs r again ha hd e =
    let (low, e1, f1) = bind_inversion (recur a (bbs + 3)) _ r e in
    let (high, e2, f2) = bind_inversion (recur b (low.1)) _ r f1 in
    subst (λ (x : List Instr × ℕ). Sized size (x.0)) (some_eq f2)
      (
        refl,
        hd.0,
        Sized-append size (low.0) (label (bbs + 2) ∷ high.0) (again a (bbs + 3) low ha e1)
            (again b (low.1) high (hd.1) e2),
      )

pub gen_switch_cond_recur-Sized :
    (fuel size other : ℕ) (es : List Entry) (bbs : ℕ) (r : List Instr × ℕ)
    → AllShort size es
    → gen_switch_cond_recur fuel size other es bbs ≡ some r
    → Sized size (r.0)
unfolding gen_switch_cond_recur AllShort
gen_switch_cond_recur-Sized zero size other es bbs r h e = cc
gen_switch_cond_recur-Sized (suc fuel) size other es bbs r h e =
    elim (Bool-cases (leb (length es) 2)) [
      | inl few ↦
          subst (λ (x : List Instr × ℕ). Sized size (x.0)) (some_eq (simp few at e))
            (compare_each-Sized size other es bbs h)
      | inr many ↦
          let m = length es / 2 in
          let (ha, hd) =
            All-parts _ (take m es) (drop m es)
              (subst (AllShort size) (sym (take-append-drop m es)) h) in
          bisect-Sized size (λ half n. gen_switch_cond_recur fuel size other half n) (take m es)
            (drop m es) bbs r (λ l n x. gen_switch_cond_recur-Sized fuel size other l n x) ha hd
            (simp many at e)
    ]

-- The processor and the run on numbers of 64 bits are at the same place.
pub Same : ℕ → Machine → Control → Type 0
Same size (flags_of z l) (at l') = (z ≡ size) × (signed_at size l ≡ l')
Same size (away z to) (jumped to') = (z ≡ size) × (to ≡ to')
Same size _ _ = ⊥

signed_zero : (size : ℕ) → signed_at size 0 ≡ 0
unfolding clamp_value
signed_zero size = ground arith

jump-Same :
    (t : Bool) (size z bb l l' : ℕ)
    → Same size (flags_of z l) (at l')
    → Same size (if t then away z bb else flags_of z l) (if t then jumped bb else at l')
unfolding Same
jump-Same true size z bb l l' h = (h.0, refl)
jump-Same false size z bb l l' h = h

label-Same :
    (t : Bool) (size z to : ℕ)
    → z ≡ size
    → Same size (if t then flags_of z 0 else away z to) (if t then at 0 else jumped to)
unfolding Same
label-Same true size z to h = (h, signed_zero size)
label-Same false size z to h = (h, refl)

pub execute-run :
    (v size : ℕ) (code : List Instr) (m : Machine) (c : Control)
    → signed_at size v ≡ v
    → Sized size code
    → Same size m c
    → Same size (execute v code m) (run v code c)
unfolding execute run execute_one step Sized Same
execute-run v size [] m c hv k h = h
execute-run v size (cmp z n ∷ is) (flags_of z' l) (at l') hv (e, f, k) h =
    execute-run v size is (flags_of z n) (at n) hv k (e, f)
execute-run v size (cmp z n ∷ is) (away z' to) (jumped to') hv (e, f, k) h =
    execute-run v size is (away z' to) (jumped to') hv k h
execute-run v size (jmp c bb ∷ is) (flags_of z l) (at l') hv k h =
    let left : signed_at z v ≡ v = ap (λ n. signed_at n v) (h.0) ∙ hv in
    let right : signed_at z l ≡ l' = ap (λ n. signed_at n l) (h.0) ∙ h.1 in
    let t = taken c v l' in
    let test : taken c (signed_at z v) (signed_at z l) ≡ t =
      ap (λ a. taken c a (signed_at z l)) left ∙ ap (taken c v) right in
    subst
      (λ (b : Bool).
        Same size (execute v is (if b then away z bb else flags_of z l))
          (run v is (if t then jumped bb else at l')))
      (sym test)
      (execute-run v size is (if t then away z bb else flags_of z l)
        (if t then jumped bb else at l') hv k (jump-Same t size z bb l l' h))
execute-run v size (jmp c bb ∷ is) (away z to) (jumped to') hv k h =
    execute-run v size is (away z to) (jumped to') hv k h
execute-run v size (label bb ∷ is) (flags_of z l) (at l') hv k h =
    execute-run v size is (flags_of z l) (at l') hv k h
execute-run v size (label bb ∷ is) (away z to) (jumped to') hv k h =
    let t = bb == to in
    subst
      (λ (x : ℕ).
        Same size (execute v is (if t then flags_of z 0 else away z to))
          (run v is (if bb == x then at 0 else jumped x)))
      (h.1)
      (execute-run v size is (if t then flags_of z 0 else away z to) (if t then at 0 else jumped to)
        hv k (label-Same t size z to (h.0)))
execute-run v size _ (flags_of z l) (jumped to) hv k h = absurd h
execute-run v size _ (away z to) (at l) hv k h = absurd h

-- Where the run leads, the processor goes.
pub execute-leads :
    (v size : ℕ) (code : List Instr) (last to : ℕ)
    → signed_at size v ≡ v
    → Sized size code
    → run v code (at (signed_at size last)) ≡ jumped to
    → execute v code (flags_of size last) ≡ away size to
unfolding Same
execute-leads v size code last to hv k e = arrived (execute v code (flags_of size last)) (
    subst (Same size (execute v code (flags_of size last))) e
      (execute-run v size code (flags_of size last) (at (signed_at size last)) hv k (refl, refl)))
  where
    arrived : (m : Machine) → Same size m (jumped to) → m ≡ away size to
    arrived (flags_of z l) h = absurd h
    arrived (away z b) h = ap (λ n. away n b) (h.0) ∙ ap (away size) (h.1)
