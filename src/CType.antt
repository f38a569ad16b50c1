-- ===== src/CType.antt =====
-- src/cc/type.c and type.h: the C types of the compiler.
-- A `Name*` and a `StructInfo*` are addresses; NULL is `none`.
pub mod Same
pub mod Cast
pub mod Size
mod Tests
use my9cc.Prelude.{ℕ, Bool, true, false, ◌&&◌, Option, none, some, ◌==◌}
use my9cc.Prelude.Int.{ℤ, pos, negsuc}

pub data FixnumKind : Type 0 where
  char short int long llong enum : FixnumKind

pub data FlonumKind : Type 0 where
  float double : FlonumKind

-- Each constructor has the qualifier first. `fixnum` has `is_unsigned` and the name of an enum;
-- `array` has the length, -1 if it is not specified; `struct` has the name and the info.
mutual
  pub data CType : Type 0 where
    void : ℕ → CType
    fixnum : ℕ → FixnumKind → Bool → Option ℕ → CType
    flonum : ℕ → FlonumKind → CType
    ptr : ℕ → CType → CType
    array : ℕ → CType → ℤ → CType
    func : ℕ → CType → ParamTypes → Bool → CType
    struct : ℕ → Option ℕ → Option ℕ → CType

  -- `param_types`: NULL, or a vector.
  pub data ParamTypes : Type 0 where
    unspecified : ParamTypes
    listed : CTypes → ParamTypes

  pub data CTypes : Type 0 where
    nil : CTypes
    cons : CType → CTypes → CTypes

abbrev pub kind_eq : FixnumKind → FixnumKind → Bool
kind_eq char char = true
kind_eq short short = true
kind_eq int int = true
kind_eq long long = true
kind_eq llong llong = true
kind_eq enum enum = true
kind_eq _ _ = false

abbrev pub flonum_eq : FlonumKind → FlonumKind → Bool
flonum_eq float float = true
flonum_eq double double = true
flonum_eq _ _ = false

abbrev pub bool_eq : Bool → Bool → Bool
bool_eq true b = b
bool_eq false true = false
bool_eq false false = true

-- `equal_name`: names are interned.
abbrev pub equal_name : ℕ → ℕ → Bool
equal_name a b = a == b

abbrev names_eq : Option ℕ → Option ℕ → Bool
names_eq (some a) (some b) = equal_name a b
names_eq _ _ = false

abbrev pub same_struct : Option ℕ → Option ℕ → Option ℕ → Option ℕ → Bool
same_struct name1 (some info1) name2 (some info2) = info1 == info2
same_struct name1 _ name2 _ = names_eq name1 name2

abbrev pub length_eq : ℤ → ℤ → Bool
length_eq (pos a) (pos b) = a == b
length_eq (negsuc a) (negsuc b) = a == b
length_eq _ _ = false

unfoldable mutual
  pub same_type : CType → CType → Bool
  same_type (void _) (void _) = true
  same_type (fixnum _ k u _) (fixnum _ k' u' _) = kind_eq k k' && bool_eq u u'
  same_type (flonum _ k) (flonum _ k') = flonum_eq k k'
  same_type (ptr _ t) (ptr _ t') = same_type t t'
  same_type (array _ t n) (array _ t' n') = length_eq n n' && same_type t t'
  same_type (func _ r ps v) (func _ r' ps' v') =
      same_type r r' && bool_eq v v' && same_params ps ps'
  same_type (struct _ name info) (struct _ name' info') = same_struct name info name' info'
  same_type _ _ = false

  pub same_params : ParamTypes → ParamTypes → Bool
  same_params unspecified unspecified = true
  same_params (listed ts) (listed ts') = same_types ts ts'
  same_params _ _ = false

  -- The comparison of the lengths and the loop over the parameters.
  pub same_types : CTypes → CTypes → Bool
  same_types nil nil = true
  same_types (cons t ts) (cons t' ts') = same_type t t' && same_types ts ts'
  same_types _ _ = false
