-- ===== src/CType/Size/Powers.antt =====
-- src/cc/type.c: with the default size tables every alignment is a power of two.
use my9cc.CType.{
  CType, FixnumKind, char, short, int, long, llong, enum, FlonumKind, float, double, void, fixnum,
  flonum, ptr, array, func, struct,
}
use my9cc.CType.Size.{
  StructHeap, StructInfo, default_tables, fixnum_bytes, flonum_bytes, type_size, align_size,
  measure, calc_struct_size,
}
use my9cc.CType.Size.Placement.{IsPower, HasPower, total, IsStruct, calc_struct_size-IsStruct}
use my9cc.Prelude.{
  ℕ, ◌<◌, ◌^◌, false, ◌≡◌, refl, none, some, List, [], ◌∷◌, arith, Option-cases, inl, inr, ◌>>=◌,
  All, bind_inversion, subst,
}

-- Every struct of the heap has a power of two as its alignment.
abbrev pub HasPowers : StructHeap → Type 0
HasPowers heap = (a : ℕ) (s : StructInfo) → heap a ≡ some s → IsPower s.align

fixnum_bytes-IsPower : (k : FixnumKind) → IsPower (fixnum_bytes k)
fixnum_bytes-IsPower char = (0, omega arith, refl)
fixnum_bytes-IsPower short = (1, omega arith, refl)
fixnum_bytes-IsPower int = (2, omega arith, refl)
fixnum_bytes-IsPower long = (3, omega arith, refl)
fixnum_bytes-IsPower llong = (3, omega arith, refl)
fixnum_bytes-IsPower enum = (2, omega arith, refl)

flonum_bytes-IsPower : (k : FlonumKind) → IsPower (flonum_bytes k)
flonum_bytes-IsPower float = (2, omega arith, refl)
flonum_bytes-IsPower double = (3, omega arith, refl)

some-IsPower : (a b : ℕ) → IsPower a → some a ≡ some b → IsPower b
some-IsPower a b p e = let q : a ≡ b = cc in rw (← q) p

module _ (heap : StructHeap) (powers : HasPowers heap) where
  -- With the default tables, `align_size` gives only powers of two.
  pub align_size-IsPower :
      (t : CType) (a : ℕ) → align_size default_tables heap t ≡ some a → IsPower a
  unfolding align_size
  align_size-IsPower (void q) a e = some-IsPower 1 a (0, omega arith, refl) e
  align_size-IsPower (fixnum q k u name) a e = some-IsPower _ a (fixnum_bytes-IsPower k) e
  align_size-IsPower (flonum q k) a e = some-IsPower _ a (flonum_bytes-IsPower k) e
  align_size-IsPower (ptr q t) a e = some-IsPower 8 a (3, omega arith, refl) e
  align_size-IsPower (array q t n) a e = align_size-IsPower t a e
  align_size-IsPower (func q r ps v) a e = some-IsPower 1 a (0, omega arith, refl) e
  align_size-IsPower (struct q name none) a e = cc
  align_size-IsPower (struct q name (some info)) a e = elim (Option-cases (heap info)) [
    | inl missing ↦ absurd (no_align (rw (missing, ◌>>=◌) at e))
    | inr (s, found) ↦ some-IsPower s.align a (powers info s found) (rw (found, ◌>>=◌) at e)
  ]
    where
      no_align : none ≡ some a → ⊥
      no_align h = cc

  measure-HasPower :
      (ts : List CType) (ms : List (ℕ × ℕ))
      → measure default_tables heap ts ≡ some ms
      → All HasPower ms
  unfolding measure
  measure-HasPower [] [] e = tt
  measure-HasPower [] (m ∷ ms) e = cc
  measure-HasPower (t ∷ ts) ms e =
      let (size, _, e') = bind_inversion (type_size default_tables heap t) _ ms e in
      let (align, aligned, e'') = bind_inversion (align_size default_tables heap t) _ ms e' in
      let (rest, measured, last) = bind_inversion (measure default_tables heap ts) _ ms e'' in
      cons_powers size align rest ms (align_size-IsPower t align aligned)
        (measure-HasPower ts rest measured) last
    where
      cons_powers :
          (size align : ℕ) (rest ms : List (ℕ × ℕ))
          → IsPower align
          → All HasPower rest
          → some ((size, align) ∷ rest) ≡ some ms
          → All HasPower ms
      cons_powers size align rest ms p q e =
          let r : (size, align) ∷ rest ≡ ms = cc in subst (All HasPower) r (p, q)

  -- With the default tables a struct is laid out whenever its members' sizes are known and they
  -- take less than 2 ^ 63 bytes with padding.
  pub default_tables-IsStruct :
      (members : List CType) (ms : List (ℕ × ℕ))
      → measure default_tables heap members ≡ some ms
      → total ms < 2 ^ 63
      → (s : StructInfo) × (calc_struct_size default_tables heap members false ≡ some s)
        × IsStruct ms s
  default_tables-IsStruct members ms measured small =
      calc_struct_size-IsStruct default_tables heap members ms measured
        (measure-HasPower members ms measured) small
