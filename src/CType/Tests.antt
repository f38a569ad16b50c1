-- ===== src/CType/Tests.antt =====
-- src/cc/type.c: runs, and the theorems at inputs that meet their hypotheses.
use my9cc.CType.{
  CType, char, short, int, long, void, fixnum, ptr, array, func, struct, listed, nil, cons,
  same_type,
}
use my9cc.CType.Same.{erase, is_complete, same_type-erase_iff}
use my9cc.CType.Cast.{can_cast, cast_fuel}
use my9cc.CType.Cast.Laws.{cast_fuel-can_cast, can_cast_explicit}
use my9cc.CType.Size.{
  StructHeap, StructInfo, default_tables, type_size, align_size, measure, add_members, add_member,
  final_size, calc_struct_size,
}
use my9cc.CType.Size.Placement.{
  IsStruct, IsUnion, calc_struct_size-IsStruct, calc_struct_size-IsUnion,
}
use my9cc.CType.Size.Powers.{HasPowers, default_tables-IsStruct}
use my9cc.Util.Align.{align_up}
use my9cc.Prelude.{ℕ, ◌≡◌, refl, ◌↔◌, true, false, none, some, List, [], ◌∷◌, arith}
use my9cc.Prelude.Int.{pos}

abbrev plain_int : CType
plain_int = fixnum 0 int false none

abbrev const_char : CType
const_char = fixnum 1 char false none

-- A struct at address 7 with its info, and the same name declared forward.
abbrev node : CType
node = struct 0 (some 3) (some 7)

abbrev callback : CType
callback = func 0 (void 0) (listed (cons (ptr 0 node) nil)) false

same_type-erase_iff_example :
    (same_type (ptr 2 callback) (ptr 0 callback) ≡ true)
    ↔ (erase (ptr 2 callback) ≡ erase (ptr 0 callback))
unfolding is_complete
same_type-erase_iff_example = same_type-erase_iff (ptr 2 callback) (ptr 0 callback) refl refl

cast_fuel-can_cast_example :
    cast_fuel true 9 (ptr 0 (void 0)) (array 0 callback (pos 4)) false false
    ≡ can_cast (ptr 0 (void 0)) (array 0 callback (pos 4)) false false
cast_fuel-can_cast_example =
    cast_fuel-can_cast true 9 (ptr 0 (void 0)) (array 0 callback (pos 4)) false false (omega arith)

can_cast_explicit_example : can_cast (ptr 0 node) (fixnum 0 long false none) true true ≡ true
unfolding can_cast cast_fuel same_type
can_cast_explicit_example = can_cast_explicit (ptr 0 node) (fixnum 0 long false none) true refl

-- A pointer does not become an integer by itself.
pointer_to_int : can_cast plain_int (ptr 0 plain_int) false false ≡ false
unfolding can_cast cast_fuel same_type
pointer_to_int = refl

abbrev no_structs : StructHeap
no_structs a = none

no_structs-HasPowers : HasPowers no_structs
no_structs-HasPowers a s h = cc

-- struct { char c; int n; short s[3]; }
abbrev fields : List CType
fields = const_char ∷ plain_int ∷ array 0 (fixnum 0 short false none) (pos 3) ∷ []

abbrev field_sizes : List (ℕ × ℕ)
field_sizes = (1, 1) ∷ (4, 4) ∷ (6, 2) ∷ []

fields_measured : measure default_tables no_structs fields ≡ some field_sizes
unfolding measure type_size align_size
fields_measured = refl

fields_laid_out :
    calc_struct_size default_tables no_structs fields false
    ≡ some (record {
      members = fields;
      offsets = 0 ∷ 4 ∷ 8 ∷ [];
      is_union = false;
      size = 16;
      align = 4;
    })
unfolding calc_struct_size measure type_size align_size add_members add_member final_size align_up
fields_laid_out = refl

default_tables-IsStruct_example :
    (s : StructInfo) × (calc_struct_size default_tables no_structs fields false ≡ some s)
    × IsStruct field_sizes s
default_tables-IsStruct_example =
    default_tables-IsStruct no_structs no_structs-HasPowers fields field_sizes fields_measured
      (omega arith)

calc_struct_size-IsStruct_example :
    (s : StructInfo) × (calc_struct_size default_tables no_structs fields false ≡ some s)
    × IsStruct field_sizes s
calc_struct_size-IsStruct_example =
    calc_struct_size-IsStruct default_tables no_structs fields field_sizes fields_measured
      ((0, omega arith, refl), ((2, omega arith, refl), ((1, omega arith, refl), tt))) (omega arith)

calc_struct_size-IsUnion_example :
    (s : StructInfo) × (calc_struct_size default_tables no_structs fields true ≡ some s)
    × IsUnion field_sizes s
calc_struct_size-IsUnion_example =
    calc_struct_size-IsUnion default_tables no_structs fields field_sizes fields_measured
      ((0, omega arith, refl), ((2, omega arith, refl), ((1, omega arith, refl), tt))) (omega arith)
