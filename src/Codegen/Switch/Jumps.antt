-- ===== src/Codegen/Switch/Jumps.antt =====
-- src/cc/codegen.c: where the comparisons of a switch lead.
use my9cc.Codegen.Switch.{Instr, cmp, jmp, label, Entry, compare_each}
use my9cc.Codegen.Switch.Sorted.{key, look}
use my9cc.Ir.Cond.{eq, gt, holds}
use my9cc.Prelude.{
  ℕ, ◌+◌, ◌≤◌, ◌<◌, ◌≡◌, refl, Bool, true, false, not, ◌||◌, List, [], ◌∷◌, ◌++◌, ◌==◌, ltb,
  if◌then◌else◌, All, arith, ◌⊎◌, ◌∙◌, ap, inl, inr, Bool-cases,
}

-- Control is at a block, with the operand of the last comparison, or looks for the block that it
-- jumped to, which stands further on or in another part of the function.
pub data Control : Type 0 where
  at : ℕ → Control
  jumped : ℕ → Control

-- `v` is the value of the switch.
unfoldable pub step : ℕ → Instr → Control → Control
step v (cmp z n) (at last) = at n
step v (jmp c bb) (at last) =
    if holds c (v == last) (ltb (key v) (key last)) (ltb v last) then jumped bb else at last
step v (label bb) (at last) = at last
step v (label bb) (jumped to) = if bb == to then at 0 else jumped to
step v _ (jumped to) = jumped to

unfoldable pub run : ℕ → List Instr → Control → Control
run v [] c = c
run v (i ∷ is) c = run v is (step v i c)

pub run-append :
    (v : ℕ) (is js : List Instr) (c : Control) → run v (is ++ js) c ≡ run v js (run v is c)
unfolding run
run-append v [] js c = refl
run-append v (i ∷ is) js c = run-append v is js (step v i c)

-- The blocks that are started there are those from `lo` up to `hi`, and not that.
unfoldable pub Starts : ℕ → ℕ → List Instr → Type 0
Starts lo hi [] = lo ≤ hi
Starts lo hi (label bb ∷ is) = (lo ≤ bb) × (bb < hi) × Starts lo hi is
Starts lo hi (cmp z n ∷ is) = Starts lo hi is
Starts lo hi (jmp c bb ∷ is) = Starts lo hi is

-- A block elsewhere is not found.
pub passes :
    (v lo hi to : ℕ) (is : List Instr)
    → Starts lo hi is
    → (to < lo) ⊎ (hi ≤ to)
    → run v is (jumped to) ≡ jumped to
unfolding Starts run step
passes v lo hi to [] s away = refl
passes v lo hi to (cmp z n ∷ is) s away = passes v lo hi to is s away
passes v lo hi to (jmp c bb ∷ is) s away = passes v lo hi to is s away
passes v lo hi to (label bb ∷ is) s away =
    let other : (bb == to) ≡ false = elim away [
      | inl low ↦ let h = s.0 in ground arith
      | inr high ↦ let h = s.1 in ground arith
    ] in
    rw other (passes v lo hi to is (s.2) away)

pub Starts-append :
    (lo hi : ℕ) (is js : List Instr) → Starts lo hi is → Starts lo hi js → Starts lo hi (is ++ js)
unfolding Starts
Starts-append lo hi [] js s t = t
Starts-append lo hi (cmp z n ∷ is) js s t = Starts-append lo hi is js s t
Starts-append lo hi (jmp c bb ∷ is) js s t = Starts-append lo hi is js s t
Starts-append lo hi (label bb ∷ is) js s t = (s.0, s.1, Starts-append lo hi is js (s.2) t)

pub Starts-widen :
    (lo hi lo' hi' : ℕ) (is : List Instr)
    → lo' ≤ lo
    → hi ≤ hi'
    → Starts lo hi is
    → Starts lo' hi' is
unfolding Starts
Starts-widen lo hi lo' hi' [] h k s = omega arith
Starts-widen lo hi lo' hi' (cmp z n ∷ is) h k s = Starts-widen lo hi lo' hi' is h k s
Starts-widen lo hi lo' hi' (jmp c bb ∷ is) h k s = Starts-widen lo hi lo' hi' is h k s
Starts-widen lo hi lo' hi' (label bb ∷ is) h k s =
    (omega (arith, s.0), omega (arith, s.1), Starts-widen lo hi lo' hi' is h k (s.2))

-- The code starts blocks of its own, and control leaves it for the block `to`.
pub record Leads (v to lo : ℕ) (r : List Instr × ℕ) : Type 0 where
  pub starts : Starts lo (r.1) (r.0)
  pub grows : lo ≤ r.1
  pub leaves : (last : ℕ) → run v (r.0) (at last) ≡ jumped to

-- The comparison with a case, up to the block behind it.
pub equal_value :
    (v z n bb next last : ℕ) (is : List Instr)
    → (v == n) ≡ true
    → (next == bb) ≡ false
    → run v (cmp z n ∷ (jmp eq bb ∷ (label next ∷ is))) (at last) ≡ run v is (jumped bb)
unfolding run step
equal_value v z n bb next last is hit other = rw (hit, other) refl

pub other_value :
    (v z n bb next last : ℕ) (is : List Instr)
    → (v == n) ≡ false
    → run v (cmp z n ∷ (jmp eq bb ∷ (label next ∷ is))) (at last) ≡ run v is (at n)
unfolding run step
other_value v z n bb next last is miss = rw miss refl

pub compare_each-Leads :
    (z v other base lo : ℕ) (es : List Entry)
    → other < base
    → base ≤ lo
    → All (λ e. e.bb < base) es
    → Leads v (look v es other) lo (compare_each z other es lo)
unfolding compare_each Starts run step
compare_each-Leads z v other base lo [] h k hs = record {
  starts = omega arith;
  grows = omega arith;
  leaves = λ last. refl;
}
compare_each-Leads z v other base lo (e ∷ es) h k hs =
    let r = compare_each-Leads z v other base (lo + 1) es h (omega arith) (hs.1) in
    let code = (compare_each z other es (lo + 1)).0 in
    let grows = r.grows in
    let away = hs.0 in
    record {
      starts = (
        omega arith,
        omega arith,
        Starts-widen (lo + 1) _ lo _ code (omega arith) (omega arith) r.starts,
      );
      grows = omega arith;
      leaves = λ last. elim (Bool-cases (v == e.fixnum)) [
        | inl hit ↦
            let other_block : (lo == e.bb) ≡ false = ground arith in
            equal_value v z e.fixnum e.bb lo last code hit other_block
            ∙ passes v (lo + 1) _ e.bb code r.starts (inl (omega arith))
            ∙ ap (λ (t : ℕ). jumped t) (rw hit refl)
        | inr miss ↦
            other_value v z e.fixnum e.bb lo last code miss
            ∙ r.leaves e.fixnum
            ∙ ap (λ (t : ℕ). jumped t) (rw miss refl)
      ];
    }

goes_on : (c : Bool) (bb n : ℕ) → c ≡ false → (if c then jumped bb else at n) ≡ at n
goes_on true bb n h = cc
goes_on false bb n h = refl

goes_off : (c : Bool) (bb n : ℕ) → c ≡ true → (if c then jumped bb else at n) ≡ jumped bb
goes_off true bb n h = refl
goes_off false bb n h = cc

greater_jumps :
    (v n bb : ℕ) → (v == n) ≡ false → key n < key v → step v (jmp gt bb) (at n) ≡ jumped bb
unfolding step
greater_jumps v n bb miss h =
    let not_less : ltb (key v) (key n) ≡ false = ground arith in
    goes_off _ bb n (ap (λ t. not (t || (v == n))) not_less ∙ ap not miss)

less_stays : (v n bb : ℕ) → key v < key n → step v (jmp gt bb) (at n) ≡ at n
unfolding step
less_stays v n bb h =
    let less : ltb (key v) (key n) ≡ true = ground arith in
    goes_on _ bb n (ap (λ t. not (t || (v == n))) less)

run_two :
    (v : ℕ) (i j : Instr) (is : List Instr) (c : Control)
    → run v (i ∷ (j ∷ is)) c ≡ run v is (step v j (step v i c))
unfolding run
run_two v i j is c = refl

run_label :
    (v b : ℕ) (is : List Instr) (c c' : Control)
    → step v (label b) c ≡ c'
    → run v (label b ∷ is) c ≡ run v is c'
unfolding run
run_label v b is c c' h = ap (run v is) h

pub label_other : (v b to : ℕ) → (b == to) ≡ false → step v (label b) (jumped to) ≡ jumped to
unfolding step
label_other v b to h = rw h refl

label_at : (v b n : ℕ) → step v (label b) (at n) ≡ at n
unfolding step
label_at v b n = refl

label_same : (v b : ℕ) → (b == b) ≡ true → step v (label b) (jumped b) ≡ at 0
unfolding step
label_same v b h = rw h refl

-- The second comparison of a bisection: a jump to the upper half passes the lower one.
pub to_upper :
    (v n bb : ℕ) (low high : List Instr)
    → (v == n) ≡ false
    → key n < key v
    → run v low (jumped (bb + 2)) ≡ jumped (bb + 2)
    → run v (jmp gt (bb + 2) ∷ (label (bb + 1) ∷ (low ++ (label (bb + 2) ∷ high)))) (at n)
      ≡ run v high (at 0)
to_upper v n bb low high miss h pass =
    let other : (bb + 1 == bb + 2) ≡ false = ground arith in
    let same : (bb + 2 == bb + 2) ≡ true = ground arith in
    run_two v (jmp gt (bb + 2)) (label (bb + 1)) _ (at n)
    ∙ ap (λ c. run v (low ++ (label (bb + 2) ∷ high)) (step v (label (bb + 1)) c))
        (greater_jumps v n (bb + 2) miss h)
    ∙ ap (run v (low ++ (label (bb + 2) ∷ high))) (label_other v (bb + 1) (bb + 2) other)
    ∙ run-append v low (label (bb + 2) ∷ high) (jumped (bb + 2))
    ∙ ap (run v (label (bb + 2) ∷ high)) pass
    ∙ run_label v (bb + 2) high (jumped (bb + 2)) (at 0) (label_same v (bb + 2) same)

pub to_lower :
    (v n bb to : ℕ) (low high : List Instr)
    → key v < key n
    → run v low (at n) ≡ jumped to
    → (bb + 2 == to) ≡ false
    → run v (jmp gt (bb + 2) ∷ (label (bb + 1) ∷ (low ++ (label (bb + 2) ∷ high)))) (at n)
      ≡ run v high (jumped to)
to_lower v n bb to low high h leads other =
    run_two v (jmp gt (bb + 2)) (label (bb + 1)) _ (at n)
    ∙ ap (λ c. run v (low ++ (label (bb + 2) ∷ high)) (step v (label (bb + 1)) c))
        (less_stays v n (bb + 2) h)
    ∙ ap (run v (low ++ (label (bb + 2) ∷ high))) (label_at v (bb + 1) n)
    ∙ run-append v low (label (bb + 2) ∷ high) (at n)
    ∙ ap (run v (label (bb + 2) ∷ high)) leads
    ∙ run_label v (bb + 2) high (jumped to) (jumped to) (label_other v (bb + 2) to other)
