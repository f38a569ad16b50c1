-- ===== src/CType/Cast.antt =====
-- src/cc/type.c: `can_cast`.
pub mod Laws
use my9cc.CType.{
  CType, FixnumKind, void, fixnum, flonum, ptr, array, func, struct, ParamTypes, unspecified,
  listed, same_type,
}
use my9cc.Prelude.{ℕ, zero, suc, Bool, true, false, ◌&&◌, ◌||◌, if◌then◌else◌}

abbrev is_void : CType → Bool
is_void (void q) = true
is_void _ = false

-- `param_types == NULL`
abbrev no_params : CType → Bool
no_params (func q r unspecified v) = true
no_params _ = false

-- The `switch` for a pointer to `to` as the target. `again` is the recursive call of `can_cast`.
abbrev to_pointer : (CType → Bool) → CType → CType → Bool → Bool → Bool
to_pointer again to (fixnum q k u n) is_zero explicit = is_zero || explicit
to_pointer again to (ptr q (func q' r ps v)) is_zero explicit =
    explicit || is_void to || again (func q' r ps v)
to_pointer again to (ptr q t) is_zero explicit = explicit || is_void to || is_void t
to_pointer again to (array q t n) is_zero explicit = explicit || same_type to t || again (ptr 0 t)
to_pointer again (func q r ps v) (func q' r' ps' v') is_zero explicit =
    explicit
    || same_type (func q r ps v) (func q' r' ps' v')
    || no_params (func q r ps v)
    || no_params (func q' r' ps' v')
to_pointer again (void q) (func q' r' ps' v') is_zero explicit = true
to_pointer again to (func q' r' ps' v') is_zero explicit = explicit
to_pointer again to _ is_zero explicit = false

-- The `switch` over the kind of the target.
abbrev cast_by_kind : (CType → Bool) → CType → CType → Bool → Bool → Bool
cast_by_kind again (fixnum _ _ _ _) (fixnum _ _ _ _) is_zero explicit = true
cast_by_kind again (fixnum _ _ _ _) (flonum _ _) is_zero explicit = true
cast_by_kind again (fixnum _ _ _ _) (ptr _ _) is_zero explicit = explicit
cast_by_kind again (fixnum _ _ _ _) (array _ _ _) is_zero explicit = explicit
cast_by_kind again (fixnum _ _ _ _) (func _ _ _ _) is_zero explicit = explicit
cast_by_kind again (flonum _ _) (fixnum _ _ _ _) is_zero explicit = true
cast_by_kind again (flonum _ _) (flonum _ _) is_zero explicit = true
cast_by_kind again (ptr _ to) src is_zero explicit = to_pointer again to src is_zero explicit
cast_by_kind again (array _ to _) (ptr _ t) is_zero explicit =
    explicit && same_type to t || explicit
cast_by_kind again (array _ _ _) (array _ _ _) is_zero explicit = explicit
cast_by_kind again _ _ is_zero explicit = false

-- With fuel for the recursive calls; out of fuel is `stuck`, whatever that is.
unfoldable pub cast_fuel : Bool → ℕ → CType → CType → Bool → Bool → Bool
cast_fuel stuck zero dst src is_zero explicit = stuck
cast_fuel stuck (suc fuel) dst src is_zero explicit =
    if same_type dst src
    then true
    else if is_void dst
    then is_void src || explicit
    else if is_void src
    then false
    else cast_by_kind (λ t. cast_fuel stuck fuel dst t is_zero explicit) dst src is_zero explicit

-- An array is tried as a pointer, a pointer to a function as the function: three levels.
unfoldable pub can_cast : CType → CType → Bool → Bool → Bool
can_cast = cast_fuel false 3
