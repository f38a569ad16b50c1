-- ===== src/CType/Size.antt =====
-- src/cc/type.c: `type_size`, `align_size`, the size tables, and the layout of structs and unions.
pub mod Placement
pub mod Powers
use my9cc.CType.{
  CType, FixnumKind, char, short, int, long, llong, enum, FlonumKind, float, double, void, fixnum,
  flonum, ptr, array, func, struct, kind_eq,
}
use my9cc.Util.Align.{align_up}
use my9cc.Prelude.{
  ℕ, zero, suc, ◌+◌, ◌*◌, ◌%◌, ◌^◌, Bool, true, false, Option, none, some, List, [], ◌∷◌, ◌++◌, ltb,
  if◌then◌else◌, ◌>>=◌,
}
use my9cc.Prelude.Int.{ℤ, pos, negsuc}

-- `fixnum_size_table` and its siblings.
pub record SizeTables : Type 0 where
  pub fixnum_size : FixnumKind → ℕ
  pub fixnum_align : FixnumKind → ℕ
  pub flonum_size : FlonumKind → ℕ
  pub flonum_align : FlonumKind → ℕ

abbrev pub fixnum_bytes : FixnumKind → ℕ
fixnum_bytes char = 1
fixnum_bytes short = 2
fixnum_bytes int = 4
fixnum_bytes long = 8
fixnum_bytes llong = 8
fixnum_bytes enum = 4

abbrev pub flonum_bytes : FlonumKind → ℕ
flonum_bytes float = 4
flonum_bytes double = 8

abbrev pub default_tables : SizeTables
default_tables = record {
  fixnum_size = fixnum_bytes;
  fixnum_align = fixnum_bytes;
  flonum_size = flonum_bytes;
  flonum_align = flonum_bytes;
}

unfoldable pub set_fixnum_size : SizeTables → FixnumKind → ℕ → ℕ → SizeTables
set_fixnum_size tables kind size align = record tables {
  fixnum_size = λ k. if kind_eq k kind then size else tables.fixnum_size k;
  fixnum_align = λ k. if kind_eq k kind then align else tables.fixnum_align k;
}

-- A `StructInfo` whose size has been computed, as `create_struct_info` leaves it.
pub record StructInfo : Type 0 where
  pub members : List CType
  pub offsets : List ℕ
  pub is_union : Bool
  pub size : ℕ
  pub align : ℕ

-- The infos by their addresses.
abbrev pub StructHeap : Type 0
StructHeap = ℕ → Option StructInfo

module _ (tables : SizeTables) (heap : StructHeap) where
  -- `none` is a failed assertion, or a struct without its info.
  unfoldable pub type_size : CType → Option ℕ
  type_size (void q) = some 0
  type_size (fixnum q k u name) = some (tables.fixnum_size k)
  type_size (flonum q k) = some (tables.flonum_size k)
  type_size (ptr q t) = some (tables.fixnum_size long)
  type_size (array q t (pos zero)) = none
  type_size (array q t (pos (suc n))) = type_size t >>= λ size. some ((size * suc n) % 2 ^ 64)
  type_size (array q t (negsuc n)) = none
  type_size (func q r ps v) = some 1
  type_size (struct q name none) = none
  type_size (struct q name (some info)) = heap info >>= λ s. some s.size

  unfoldable pub align_size : CType → Option ℕ
  align_size (void q) = some 1
  align_size (fixnum q k u name) = some (tables.fixnum_align k)
  align_size (flonum q k) = some (tables.flonum_align k)
  align_size (ptr q t) = some (tables.fixnum_align long)
  align_size (array q t n) = align_size t
  align_size (func q r ps v) = some 1
  align_size (struct q name none) = none
  align_size (struct q name (some info)) = heap info >>= λ s. some s.align

  -- The sizes and alignments that the loop of `calc_struct_size` reads.
  unfoldable pub measure : List CType → Option (List (ℕ × ℕ))
  measure [] = some []
  measure (t ∷ ts) = do
    size ← type_size t
    align ← align_size t
    rest ← measure ts
    some ((size, align) ∷ rest)

-- The variables of the loop of `calc_struct_size`, and the offsets written so far.
pub record Layout : Type 0 where
  pub size : ℕ
  pub maxsize : ℕ
  pub max_align : ℕ
  pub offsets : List ℕ

abbrev pub start : Layout
start = record { size = 0; maxsize = 0; max_align = 1; offsets = [] }

-- The body of the loop.
unfoldable pub add_member : Bool → Layout → ℕ × ℕ → Layout
add_member is_union l (sz, align) =
    let size = align_up 64 l.size align in
    record {
      size = if is_union then size else (size + sz) % 2 ^ 64;
      maxsize = if is_union then (if ltb l.maxsize sz then sz else l.maxsize) else l.maxsize;
      max_align = if ltb l.max_align align then align else l.max_align;
      offsets = l.offsets ++ size ∷ [];
    }

unfoldable pub add_members : Bool → Layout → List (ℕ × ℕ) → Layout
add_members is_union l [] = l
add_members is_union l (m ∷ ms) = add_members is_union (add_member is_union l m) ms

-- After the loop: the size with the padding at the end.
unfoldable pub final_size : Bool → Layout → ℕ
final_size is_union l = align_up 64 (if is_union then l.maxsize else l.size) l.max_align

unfoldable pub calc_struct_size : SizeTables → StructHeap → List CType → Bool → Option StructInfo
calc_struct_size tables heap members is_union = do
  ms ← measure tables heap members
  let l = add_members is_union start ms
  some (record {
    members = members;
    offsets = l.offsets;
    is_union = is_union;
    size = final_size is_union l;
    align = l.max_align;
  })
