-- ===== src/Codegen/Switch/Bisects.antt =====
-- src/cc/codegen.c: the bisection of a switch finds the case of every value.
use my9cc.Codegen.Switch.{
  Instr, cmp, jmp, label, Entry, compare_each, bisect, gen_switch_cond_recur,
}
use my9cc.Codegen.Switch.Sorted.{
  key, look, look-append, look-none, IsSorted, All-parts, Middle, IsSorted-Middle,
}
use my9cc.Codegen.Switch.Jumps.{
  jumped, run, Starts, passes, Starts-append, Starts-widen, Leads, compare_each-Leads, to_upper,
  to_lower, equal_value, other_value,
}
use my9cc.Ir.Cond.{eq, gt}
use my9cc.Prelude.{
  ℕ, zero, suc, ◌+◌, ◌/◌, ◌^◌, ◌≤◌, ◌<◌, ◌≡◌, ◌≢◌, refl, true, false, Option, some, List, [], ◌∷◌,
  ◌++◌, ◌==◌, leb, inl, inr, take, drop, length, All, arith, sym, ◌∙◌, ap, Bool-cases,
  take-append-drop, length-append, length-drop, subst, order_cases,
}

-- Words with one key are one word.
key-injective : (a b : ℕ) → a < 2 ^ 64 → b < 2 ^ 64 → key a ≡ key b → a ≡ b
key-injective a b h k e = omega arith

unfoldable pub Words : List Entry → Type 0
Words es = All (λ e. e.fixnum < 2 ^ 64) es

-- The blocks of the cases were made before.
unfoldable pub Before : ℕ → List Entry → Type 0
Before base es = All (λ e. e.bb < base) es

abbrev bisected : ℕ → Entry → ℕ → List Instr × ℕ → List Instr × ℕ → List Instr × ℕ
bisected z c lo low high = (
  cmp z c.fixnum
      ∷ (jmp eq c.bb
          ∷ (label lo
              ∷ (jmp gt (lo + 2) ∷ (label (lo + 1) ∷ (low.0 ++ (label (lo + 2) ∷ high.0)))))),
  high.1,
)

misses_below :
    (v k : ℕ) (a : List Entry)
    → k ≤ key v
    → All (λ e. key e.fixnum < k) a
    → All (λ e. key v ≢ key e.fixnum) a
misses_below v k [] h hs = tt
misses_below v k (e ∷ a) h hs =
    let less = hs.0 in (λ same. absurd (omega arith), misses_below v k a h (hs.1))

misses_above :
    (v k : ℕ) (b : List Entry)
    → key v ≤ k
    → All (λ e. k < key e.fixnum) b
    → All (λ e. key v ≢ key e.fixnum) b
misses_above v k [] h hs = tt
misses_above v k (e ∷ b) h hs =
    let more = hs.0 in (λ same. absurd (omega arith), misses_above v k b h (hs.1))

module _ (v : ℕ) (a : List Entry) (c : Entry) (b : List Entry) (other : ℕ) where
  look_hit :
      key v ≡ key c.fixnum
      → (v == c.fixnum) ≡ true
      → Middle a c b
      → look v (a ++ (c ∷ b)) other ≡ c.bb
  look_hit same hit m =
      look-append v a (c ∷ b) other
      ∙ look-none v a _ (misses_below v (key c.fixnum) a (omega arith) m.below)
      ∙ rw hit refl

  look_less :
      key v < key c.fixnum
      → (v == c.fixnum) ≡ false
      → Middle a c b
      → look v (a ++ (c ∷ b)) other ≡ look v a other
  look_less less miss m =
      look-append v a (c ∷ b) other
      ∙ ap (look v a)
          (rw miss (look-none v b other (misses_above v (key c.fixnum) b (omega arith) m.above)))

  look_more :
      key c.fixnum < key v
      → (v == c.fixnum) ≡ false
      → Middle a c b
      → look v (a ++ (c ∷ b)) other ≡ look v b other
  look_more more miss m =
      look-append v a (c ∷ b) other
      ∙ look-none v a _ (misses_below v (key c.fixnum) a (omega arith) m.below)
      ∙ rw miss refl

-- The blocks of the two halves.
halves-Starts :
    (lo mid hi : ℕ) (low high : List Instr)
    → lo + 3 ≤ mid
    → mid ≤ hi
    → Starts (lo + 3) mid low
    → Starts mid hi high
    → Starts (lo + 1) hi (jmp gt (lo + 2) ∷ (label (lo + 1) ∷ (low ++ (label (lo + 2) ∷ high))))
unfolding Starts
halves-Starts lo mid hi low high h k s t = (
  omega arith,
  omega arith,
  Starts-append (lo + 1) hi low (label (lo + 2) ∷ high)
      (Starts-widen (lo + 3) mid (lo + 1) hi low (omega arith) (omega arith) s)
      (
        omega arith,
        omega arith,
        Starts-widen mid hi (lo + 1) hi high (omega arith) (omega arith) t,
      ),
)

bisected-Leads :
    (z v other base lo : ℕ) (a : List Entry) (c : Entry) (b : List Entry)
    (low high : List Instr × ℕ)
    → v < 2 ^ 64
    → c.fixnum < 2 ^ 64
    → Middle a c b
    → base ≤ lo
    → other < base
    → Before base (a ++ (c ∷ b))
    → look v a other < base
    → Leads v (look v a other) (lo + 3) low
    → Leads v (look v b other) (low.1) high
    → Leads v (look v (a ++ (c ∷ b)) other) lo (bisected z c lo low high)
unfolding Starts Before
bisected-Leads z v other base lo a c b low high hv hc m hb ho before ha l h =
    let (in_a, in_b) = All-parts _ a (c ∷ b) before in
    let mine = in_b.0 in
    let lg = l.grows in
    let hg = h.grows in
    let found = look-append v a (c ∷ b) other in
    let code = jmp gt (lo + 2) ∷ (label (lo + 1) ∷ (low.0 ++ (label (lo + 2) ∷ high.0))) in
    let tail = halves-Starts lo (low.1) (high.1) (low.0) (high.0) lg hg l.starts h.starts in
    let high_passes : (to : ℕ) → to < base → run v (high.0) (jumped to) ≡ jumped to =
      λ to near. passes v (low.1) (high.1) to (high.0) h.starts (inl (omega arith)) in
    record {
      starts = (
        omega arith,
        omega arith,
        Starts-widen (lo + 1) (high.1) lo (high.1) code (omega arith) (omega arith) tail,
      );
      grows = omega arith;
      leaves = λ last. elim (Bool-cases (v == c.fixnum)) [
        | inl hit ↦
            let elsewhere : (lo == c.bb) ≡ false = ground arith in
            let same : v ≡ c.fixnum = ground arith in
            equal_value v z c.fixnum c.bb lo last _ hit elsewhere
            ∙ passes v (lo + 1) (high.1) c.bb _ tail (inl (omega arith))
            ∙ ap jumped (sym (look_hit v a c b other (ap key same) hit m))
        | inr miss ↦
            other_value v z c.fixnum c.bb lo last _ miss
            ∙ elim (order_cases (key v) (key c.fixnum)) [
              | inl less ↦
                  let elsewhere : (lo + 2 == look v a other) ≡ false = ground arith in
                  to_lower v c.fixnum lo (look v a other) (low.0) (high.0) less (l.leaves c.fixnum)
                    elsewhere
                  ∙ high_passes (look v a other) ha
                  ∙ ap jumped (sym (look_less v a c b other less miss m))
              | inr (inl more) ↦
                  to_upper v c.fixnum lo (low.0) (high.0) miss more
                    (passes v (lo + 3) (low.1) (lo + 2) (low.0) l.starts (inl (omega arith)))
                  ∙ h.leaves 0
                  ∙ ap jumped (sym (look_more v a c b other more miss m))
              | inr (inr same) ↦
                  let equal : v ≡ c.fixnum = key-injective v c.fixnum hv hc same in
                  absurd (ground arith)
            ]
      ];
    }

pub look-Before :
    (v base : ℕ) (es : List Entry) (other : ℕ)
    → other < base
    → Before base es
    → look v es other < base
unfolding Before
look-Before v base [] other h hs = h
look-Before v base (e ∷ es) other h hs = elim (Bool-cases (v == e.fixnum)) [
  | inl hit ↦ rw hit (hs.0)
  | inr miss ↦ rw miss (look-Before v base es other h (hs.1))
]

-- The code for the cases, from the block `lo` on.
pub record Dispatches (v other lo : ℕ) (es : List Entry) (r : Option (List Instr × ℕ))
    : Type 0 where
  pub code : List Instr × ℕ
  pub made : r ≡ some code
  pub leads : Leads v (look v es other) lo code

non_empty : (l : List Entry) → 0 < length l → (c : Entry) × (b : List Entry) × (l ≡ c ∷ b)
non_empty [] h = absurd (omega arith)
non_empty (c ∷ b) h = (c, b, refl)

-- There is a case behind those below the middle.
middle_of :
    (es : List Entry)
    → 2 < length es
    → (c : Entry) × (b : List Entry) × (drop (length es / 2) es ≡ c ∷ b)
middle_of es h = non_empty (drop (length es / 2) es) (omega (arith, length-drop (length es / 2) es))

bisect-made :
    (z : ℕ) (recur : List Entry → ℕ → Option (List Instr × ℕ)) (a d b : List Entry) (c : Entry)
    (lo : ℕ) (low high : List Instr × ℕ)
    → d ≡ c ∷ b
    → recur a (lo + 3) ≡ some low
    → recur b (low.1) ≡ some high
    → bisect z recur a d lo ≡ some (bisected z c lo low high)
bisect-made z recur a d b c lo low high e u w = rw e (rw u (rw w refl))

pub gen_switch_cond_recur-Dispatches :
    (fuel z v other base lo : ℕ) (es : List Entry)
    → length es < fuel
    → v < 2 ^ 64
    → Words es
    → IsSorted es
    → other < base
    → base ≤ lo
    → Before base es
    → Dispatches v other lo es (gen_switch_cond_recur fuel z other es lo)
unfolding gen_switch_cond_recur Before Words
gen_switch_cond_recur-Dispatches zero z v other base lo es enough hv words sorted ho hb before =
    absurd (omega arith)
gen_switch_cond_recur-Dispatches (suc fuel) z v other base lo es enough hv words sorted ho hb
      before =
    elim (Bool-cases (leb (length es) 2)) [
      | inl few ↦ rw few (record {
        code = compare_each z other es lo;
        made = refl;
        leads = compare_each-Leads z v other base lo es ho hb before;
      })
      | inr many ↦
          let size : 2 < length es = ground arith in
          let a = take (length es / 2) es in
          let (c, b, e) = middle_of es size in
          let whole : a ++ (c ∷ b) ≡ es =
            ap (λ l. a ++ l) (sym e) ∙ take-append-drop (length es / 2) es in
          let (words_a, words_b) = All-parts _ a (c ∷ b) (subst Words (sym whole) words) in
          let (in_a, in_b) = All-parts _ a (c ∷ b) (subst (Before base) (sym whole) before) in
          let m = IsSorted-Middle a c b (subst IsSorted (sym whole) sorted) in
          let total : length es ≡ length a + suc (length b) =
            ap length (sym whole) ∙ length-append a (c ∷ b) in
          let low =
            gen_switch_cond_recur-Dispatches fuel z v other base (lo + 3) a (omega arith) hv words_a
              m.left ho (omega arith) in_a in
          let grown = low.leads.grows in
          let high =
            gen_switch_cond_recur-Dispatches fuel z v other base (low.code.1) b (omega arith) hv
              (words_b.1) m.right ho (omega arith) (in_b.1) in
          let joined =
            bisected-Leads z v other base lo a c b low.code high.code hv (words_b.0) m hb ho
              (subst (Before base) (sym whole) before) (look-Before v base a other ho in_a)
              low.leads high.leads in
          rw many (record {
            code = bisected z c lo low.code high.code;
            made =
                bisect-made z (λ half n. gen_switch_cond_recur fuel z other half n) a
                  (drop (length es / 2) es) b c lo low.code high.code e low.made high.made;
            leads =
                subst (λ l. Leads v (look v l other) lo (bisected z c lo low.code high.code)) whole
                  joined;
          })
    ]
