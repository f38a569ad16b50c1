-- ===== src/CType/Cast/Laws.antt =====
-- src/cc/type.c: what `can_cast` allows.
use my9cc.CType.{CType, void, fixnum, flonum, ptr, array, func, same_type}
use my9cc.CType.Cast.{cast_fuel, can_cast, cast_by_kind, is_void}
use my9cc.Prelude.{ℕ, zero, suc, ◌≤◌, ◌<◌, Bool, true, false, ◌||◌, if◌then◌else◌, ◌≡◌, refl, arith}

-- How deep the recursion of `can_cast` goes at a source type.
abbrev rank : CType → ℕ
rank (ptr q (func q' r ps v)) = 1
rank (array q t n) = 2
rank _ = 0

rank-ptr : (q : ℕ) (t : CType) → rank (ptr q t) ≤ 1
rank-ptr q (func q' r ps v) = omega arith
rank-ptr q _ = omega arith

-- The recursive call is made at a type of smaller rank.
cast_by_kind_congr :
    (a b : CType → Bool) (dst src : CType) (z e : Bool)
    → ((t : CType) → rank t < rank src → a t ≡ b t)
    → cast_by_kind a dst src z e ≡ cast_by_kind b dst src z e
cast_by_kind_congr a b (ptr p to) (ptr q (func q' r ps v)) z e h =
    rw (h (func q' r ps v) (omega arith))
cast_by_kind_congr a b (ptr p to) (array q t n) z e h =
    rw (h (ptr 0 t) (omega (arith, rank-ptr 0 t)))
cast_by_kind_congr a b (ptr p (func _ _ _ _)) (func _ _ _ _) z e h = refl
cast_by_kind_congr a b (ptr p (void _)) (func _ _ _ _) z e h = refl
cast_by_kind_congr a b (fixnum _ _ _ _) (void _) z e h = refl
cast_by_kind_congr a b (flonum _ _) (void _) z e h = refl
cast_by_kind_congr a b (array _ _ _) (void _) z e h = refl
cast_by_kind_congr a b (ptr p to) (ptr q (void q')) z e h = refl
cast_by_kind_congr a b _ _ z e h = refl

cast_fuel_enough :
    (o : Bool) (f g : ℕ) (dst src : CType) (z e : Bool)
    → rank src < f
    → rank src < g
    → cast_fuel o f dst src z e ≡ cast_fuel false g dst src z e
unfolding cast_fuel
cast_fuel_enough o zero g dst src z e p q = absurd (omega arith)
cast_fuel_enough o (suc f) zero dst src z e p q = absurd (omega arith)
cast_fuel_enough o (suc f) (suc g) dst src z e p q = rw (
    cast_by_kind_congr (λ t. cast_fuel o f dst t z e) (λ t. cast_fuel false g dst t z e) dst src z e
      (λ t lt. cast_fuel_enough o f g dst t z e (omega arith) (omega arith)))

rank-le-two : (t : CType) → rank t ≤ 2
rank-le-two (ptr q t) = omega (arith, rank-ptr q t)
rank-le-two _ = omega arith

-- Fuel for three levels of recursion is never used up, whatever the types: the answer is that of
-- can_cast, and does not depend on what stands for an answer where the fuel is out.
pub cast_fuel-can_cast :
    (stuck : Bool) (fuel : ℕ) (dst src : CType) (z e : Bool)
    → 3 ≤ fuel
    → cast_fuel stuck fuel dst src z e ≡ can_cast dst src z e
unfolding can_cast
cast_fuel-can_cast stuck fuel dst src z e h =
    cast_fuel_enough stuck fuel 3 dst src z e (omega (arith, rank-le-two src))
      (omega (arith, rank-le-two src))

by_kind_explicit :
    (a b : CType → Bool) (dst src : CType) (z : Bool)
    → ((t : CType) → a t ≡ true → b t ≡ true)
    → cast_by_kind a dst src z false ≡ true
    → cast_by_kind b dst src z true ≡ true
by_kind_explicit a b (ptr p (func _ _ _ _)) (func _ _ _ _) z h t = refl
by_kind_explicit a b (ptr p (void _)) (func _ _ _ _) z h t = refl
by_kind_explicit a b (ptr p to) (ptr q (func q' r ps v)) z h t = refl
by_kind_explicit a b (ptr p to) (ptr q (void q')) z h t = refl
by_kind_explicit a b (fixnum _ _ _ _) (void _) z h t = cc
by_kind_explicit a b (flonum _ _) (void _) z h t = cc
by_kind_explicit a b (array _ _ _) (void _) z h t = cc
by_kind_explicit a b _ _ z h t = ground arith

explicit_fuel :
    (fuel : ℕ) (dst src : CType) (z : Bool)
    → cast_fuel false fuel dst src z false ≡ true
    → cast_fuel false fuel dst src z true ≡ true
unfolding cast_fuel
explicit_fuel zero dst src z h = cc
explicit_fuel (suc fuel) dst src z h =
    let deeper =
      by_kind_explicit (λ t. cast_fuel false fuel dst t z false)
        (λ t. cast_fuel false fuel dst t z true) dst src z (λ t. explicit_fuel fuel dst t z) in
    spread (same_type dst src) (is_void dst) (is_void src) _ _ deeper h
  where
    spread :
        (same dst_void src_void x y : Bool)
        → (x ≡ true → y ≡ true)
        → (if same
            then true
            else if dst_void
            then src_void || false
            else if src_void
            then false
            else x)
          ≡ true
        → (if same
            then true
            else if dst_void
            then src_void || true
            else if src_void
            then false
            else y)
          ≡ true
    spread same dst_void src_void x y i p = ground (arith, i)

-- What is allowed implicitly is allowed explicitly.
pub can_cast_explicit :
    (dst src : CType) (z : Bool) → can_cast dst src z false ≡ true → can_cast dst src z true ≡ true
unfolding can_cast
can_cast_explicit dst src z h = explicit_fuel 3 dst src z h

-- A pointer to void converts to and from every pointer, with no cast.
pub can_cast_void_pointer :
    (p q r : ℕ) (t : CType) (z e : Bool)
    → (can_cast (ptr p (void q)) (ptr r t) z e ≡ true)
      × (can_cast (ptr r t) (ptr p (void q)) z e ≡ true)
unfolding can_cast cast_fuel
can_cast_void_pointer p q r t z e = (ground arith, from_pointer t)
  where
    from_pointer : (t : CType) → cast_fuel false 3 (ptr r t) (ptr p (void q)) z e ≡ true
    from_pointer t = ground arith
