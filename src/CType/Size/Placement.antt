-- ===== src/CType/Size/Placement.antt =====
-- src/cc/type.c: `calc_struct_size` lays the members of a struct out in order, aligned and apart,
-- and those of a union at offset 0.
use mathlib.Core.List.{append-nil, append_assoc}
use native.Mathlib.Nat.{mod-eq_of_lt, mul-mod_left, mod_self as mod-self_lem, pow-le-pow_right}
use my9cc.Util.Align.{align_up}
use my9cc.Util.Align.Laws.{IsAligned, align_up-IsAligned}
use my9cc.CType.Size.{
  Layout, start, add_member, add_members, final_size, StructInfo, calc_struct_size, measure,
  SizeTables, StructHeap,
}
use my9cc.CType.{CType}
use my9cc.Prelude.{
  ℕ, ◌+◌, ◌*◌, ◌-◌, ◌%◌, ◌^◌, ◌≤◌, ◌<◌, ◌≡◌, refl, Bool, true, false, some, List, [], ◌∷◌, ◌++◌,
  arith, ltb, if◌then◌else◌, ◌>>=◌, All, ◌∙◌, sym, subst, order_cases, Bool-cases, inl, inr,
}
use my9cc.Prelude.Bits.{pow-add}

-- An alignment that ALIGN serves.
abbrev pub IsPower : ℕ → Type 0
IsPower a = (k : ℕ) × (k < 64) × (a ≡ 2 ^ k)

abbrev pub HasPower : ℕ × ℕ → Type 0
HasPower (size, align) = IsPower align

-- An upper bound of what the members take, padding included.
abbrev pub total : List (ℕ × ℕ) → ℕ
total [] = 0
total ((size, align) ∷ ms) = size + align + total ms

-- From `p` on, each member stands at the first offset that its alignment allows, behind the member
-- before, and all end at `e` at the latest.
abbrev pub Placed : ℕ → List (ℕ × ℕ) → List ℕ → ℕ → Type 0
Placed p [] [] e = p ≤ e
Placed p [] (o ∷ os) e = ⊥
Placed p (m ∷ ms) [] e = ⊥
Placed p ((size, align) ∷ ms) (o ∷ os) e =
    (p ≤ o) × (o < p + align) × (o % align ≡ 0) × Placed (o + size) ms os e

aligned : (x a : ℕ) → IsPower a → x + a ≤ 2 ^ 64 → IsAligned x a (align_up 64 x a)
aligned x a (k, lt, e) h = rw e (align_up-IsAligned 64 k x (omega arith) (rw e at h))

add_members-Placed :
    (ms : List (ℕ × ℕ)) (l : Layout)
    → All HasPower ms
    → l.size + total ms < 2 ^ 64
    → (os : List ℕ) × ((add_members false l ms).offsets ≡ l.offsets ++ os)
      × Placed l.size ms os (add_members false l ms).size
      × ((add_members false l ms).size ≤ l.size + total ms)
unfolding add_members add_member
add_members-Placed [] l powers h = ([], sym (append-nil l.offsets), omega arith, omega arith)
add_members-Placed ((size, align) ∷ ms) l powers h =
    let r = aligned l.size align powers.0 (omega arith) in
    let o = align_up 64 l.size align in
    let wrap : (o + size) % 2 ^ 64 ≡ o + size = mod-eq_of_lt (omega (arith, r.below)) in
    let (os, e, placed, bound) =
      add_members-Placed ms (add_member false l (size, align)) powers.1
        (omega (arith, r.below, wrap)) in
    (
      o ∷ os,
      e ∙ append_assoc l.offsets (o ∷ []) os,
      (
        r.above,
        r.below,
        r.multiple,
        subst (λ q. Placed q ms os (add_members false (add_member false l (size, align)) ms).size)
            wrap placed,
      ),
      omega (arith, bound, wrap, r.below),
    )

-- The greatest alignment: every alignment divides it.
abbrev pub Divides : ℕ → List (ℕ × ℕ) → Type 0
Divides a [] = Unit
Divides a ((size, align) ∷ ms) = (align ≤ a) × (a % align ≡ 0) × Divides a ms

power_divides : (a b : ℕ) → IsPower a → IsPower b → a ≤ b → b % a ≡ 0
power_divides a b (j, lt, e) (k, lt', e') h = elim (order_cases k j) [
  | inl less ↦ rw (smaller_power less) (mod-self_lem a)
  | inr (inl more) ↦ bigger (omega arith)
  | inr (inr same) ↦ bigger (omega arith)
]
  where
    smaller_power : k < j → b ≡ a
    smaller_power less =
        omega
          (arith, e, e', pow-le-pow_right {n = 2} (omega arith) {i = k} {j = j} (omega arith), h)

    bigger : j ≤ k → b % a ≡ 0
    bigger le =
        let split : (k - j) + j ≡ k = omega arith in
        let product : 2 ^ k ≡ 2 ^ (k - j) * 2 ^ j = rw split at (pow-add (k - j) j) in
        rw (e', e, product) (mul-mod_left (2 ^ (k - j)) (2 ^ j))

max-IsPower : (a b : ℕ) → IsPower a → IsPower b → IsPower (if ltb a b then b else a)
max-IsPower a b p q = elim (Bool-cases (ltb a b)) [ inl less ↦ rw less q | inr more ↦ rw more p ]

Divides-max :
    (u : Bool) (ms : List (ℕ × ℕ)) (l : Layout)
    → All HasPower ms
    → IsPower l.max_align
    → IsPower (add_members u l ms).max_align
      × (l.max_align ≤ (add_members u l ms).max_align)
      × Divides (add_members u l ms).max_align ms
unfolding add_members add_member
Divides-max u [] l powers p = (p, omega arith, tt)
Divides-max u ((size, align) ∷ ms) l powers p =
    let (q, le, d) =
      Divides-max u ms (add_member u l (size, align)) powers.1
        (max-IsPower l.max_align align p powers.0) in
    let mine : align ≤ (add_members u (add_member u l (size, align)) ms).max_align =
      ground (arith, le) in
    (q, ground (arith, le), (mine, power_divides align _ powers.0 q mine, d))

max-le-total :
    (u : Bool) (ms : List (ℕ × ℕ)) (l : Layout)
    → (add_members u l ms).max_align ≤ l.max_align + total ms
unfolding add_members add_member
max-le-total u [] l = omega arith
max-le-total u ((size, align) ∷ ms) l =
    ground (arith, max-le-total u ms (add_member u l (size, align)))

-- The members of a struct.
pub record IsStruct (ms : List (ℕ × ℕ)) (s : StructInfo) : Type 0 where
  pub placed : Placed 0 ms s.offsets s.size
  pub whole : s.size % s.align ≡ 0
  pub divides : Divides s.align ms

-- The members of a union all stand at 0.
abbrev pub Overlaid : List (ℕ × ℕ) → List ℕ → ℕ → Type 0
Overlaid [] [] e = Unit
Overlaid [] (o ∷ os) e = ⊥
Overlaid (m ∷ ms) [] e = ⊥
Overlaid ((size, align) ∷ ms) (o ∷ os) e = (o ≡ 0) × (size ≤ e) × Overlaid ms os e

pub record IsUnion (ms : List (ℕ × ℕ)) (s : StructInfo) : Type 0 where
  pub overlaid : Overlaid ms s.offsets s.size
  pub whole : s.size % s.align ≡ 0
  pub divides : Divides s.align ms

Placed-le :
    (p : ℕ) (ms : List (ℕ × ℕ)) (os : List ℕ) (e e' : ℕ)
    → e ≤ e'
    → Placed p ms os e
    → Placed p ms os e'
Placed-le p [] [] e e' h q = omega arith
Placed-le p [] (o ∷ os) e e' h q = q
Placed-le p (m ∷ ms) [] e e' h q = q
Placed-le p ((size, align) ∷ ms) (o ∷ os) e e' h (a, b, c, q) =
    (a, b, c, Placed-le (o + size) ms os e e' h q)

calc_run :
    (tables : SizeTables) (heap : StructHeap) (members : List CType) (u : Bool) (ms : List (ℕ × ℕ))
    → measure tables heap members ≡ some ms
    → calc_struct_size tables heap members u
      ≡ some (record {
        members = members;
        offsets = (add_members u start ms).offsets;
        is_union = u;
        size = final_size u (add_members u start ms);
        align = (add_members u start ms).max_align;
      })
unfolding calc_struct_size
calc_run tables heap members u ms e = rw (e, ◌>>=◌)

start-IsPower : IsPower 1
start-IsPower = (0, omega arith, refl)

module _ (tables : SizeTables) (heap : StructHeap) (members : List CType) (ms : List (ℕ × ℕ))
    (measured : measure tables heap members ≡ some ms) (powers : All HasPower ms)
    (small : total ms < 2 ^ 63) where
  final-IsAligned :
      (u : Bool) (x : ℕ)
      → x ≤ total ms
      → IsAligned x
          (add_members u start ms).max_align
          (align_up 64 x (add_members u start ms).max_align)
  final-IsAligned u x h =
      aligned x _ (Divides-max u ms start powers start-IsPower).0
        (omega (arith, max-le-total u ms start, small))

  -- Where the sizes of the members are known, their alignments are powers of two, and they take
  -- less than 2 ^ 63 bytes with padding: a struct gets its members in order, each at the first
  -- aligned offset behind the one before, within the size; the size is a multiple of the alignment,
  -- which all the members' alignments divide.
  pub calc_struct_size-IsStruct :
      (s : StructInfo) × (calc_struct_size tables heap members false ≡ some s) × IsStruct ms s
  unfolding final_size
  calc_struct_size-IsStruct =
      let (os, e, placed, bound) = add_members-Placed ms start powers (omega (arith, small)) in
      let l = add_members false start ms in
      let r = final-IsAligned false l.size (omega arith) in
      (
        _,
        calc_run tables heap members false ms measured,
        record {
          placed =
              subst (λ o. Placed 0 ms o (align_up 64 l.size l.max_align)) (sym e)
                (Placed-le 0 ms os l.size _ r.above placed);
          whole = r.multiple;
          divides = (Divides-max false ms start powers start-IsPower).2;
        },
      )

under_zero : (o a : ℕ) → o % a ≡ 0 → o < a → o ≡ 0
under_zero o a h lt = sym (mod-eq_of_lt lt) ∙ h

add_members-Overlaid :
    (ms : List (ℕ × ℕ)) (l : Layout)
    → All HasPower ms
    → l.size ≡ 0
    → total ms < 2 ^ 63
    → (os : List ℕ) × ((add_members true l ms).offsets ≡ l.offsets ++ os)
      × Overlaid ms os (add_members true l ms).maxsize
      × (l.maxsize ≤ (add_members true l ms).maxsize)
      × ((add_members true l ms).maxsize ≤ l.maxsize + total ms)
unfolding add_members add_member
add_members-Overlaid [] l powers z h =
    ([], sym (append-nil l.offsets), tt, omega arith, omega arith)
add_members-Overlaid ((size, align) ∷ ms) l powers z h =
    let r = aligned l.size align powers.0 (omega arith) in
    let o = align_up 64 l.size align in
    let zero_offset : o ≡ 0 = under_zero o align r.multiple (omega (arith, r.below)) in
    let (os, e, over, le, bound) =
      add_members-Overlaid ms (add_member true l (size, align)) powers.1 zero_offset
        (omega arith) in
    (
      o ∷ os,
      e ∙ append_assoc l.offsets (o ∷ []) os,
      (zero_offset, ground (arith, le), over),
      ground (arith, le),
      ground (arith, bound),
    )

Overlaid-le :
    (ms : List (ℕ × ℕ)) (os : List ℕ) (e e' : ℕ) → e ≤ e' → Overlaid ms os e → Overlaid ms os e'
Overlaid-le [] [] e e' h q = tt
Overlaid-le [] (o ∷ os) e e' h q = q
Overlaid-le (m ∷ ms) [] e e' h q = q
Overlaid-le ((size, align) ∷ ms) (o ∷ os) e e' h (a, b, q) =
    (a, omega arith, Overlaid-le ms os e e' h q)

-- On the same conditions the members of a union all stand at offset 0 and within the size, which
-- is a multiple of the alignment; all the members' alignments divide it.
pub calc_struct_size-IsUnion :
    (tables : SizeTables) (heap : StructHeap) (members : List CType) (ms : List (ℕ × ℕ))
    → measure tables heap members ≡ some ms
    → All HasPower ms
    → total ms < 2 ^ 63
    → (s : StructInfo) × (calc_struct_size tables heap members true ≡ some s) × IsUnion ms s
unfolding final_size
calc_struct_size-IsUnion tables heap members ms measured powers small =
    let (os, e, over, le, bound) = add_members-Overlaid ms start powers refl small in
    let l = add_members true start ms in
    let r =
      final-IsAligned tables heap members ms measured powers small true l.maxsize (omega arith) in
    (
      _,
      calc_run tables heap members true ms measured,
      record {
        overlaid =
            subst (λ o. Overlaid ms o (align_up 64 l.maxsize l.max_align)) (sym e)
              (Overlaid-le ms os l.maxsize _ r.above over);
        whole = r.multiple;
        divides = (Divides-max true ms start powers start-IsPower).2;
      },
    )
