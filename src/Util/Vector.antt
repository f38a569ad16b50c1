-- ===== src/Util/Vector.antt =====
-- src/util/util.c: the growing array of pointers `Vector`.
-- The field `data` is `cells` here. Pointers are the type `P`, with `null` for NULL. `realloc` keeps the cells there are; a cell that
-- it adds holds `junk`. A position is an `int`. Overflow of `capacity` is not modelled.
mod Tests
pub mod Represents
pub mod Edit
pub mod Contains
use my9cc.Prelude.{
  ℕ, zero, suc, ◌+◌, ◌-◌, ◌*◌, Bool, true, false, List, [], ◌∷◌, ◌++◌, ltb, leb, ◌==◌,
  if◌then◌else◌, get_or, set, take, drop, length, replicate,
}
use my9cc.Prelude.Int.{ℤ, pos, negsuc}

pub record Vector {ℓ} (P : Type ℓ) : Type ℓ where
  pub cells : List P
  pub capacity : ℕ
  pub len : ℕ

-- `memmove(&cells[to], &cells[from], n)` within an array.
abbrev pub memmove {ℓ} : {P : Type ℓ} → List P → ℕ → ℕ → ℕ → List P
memmove cells to from n = take to cells ++ take n (drop from cells) ++ drop (to + n) cells

module _ {ℓ} {P : Type ℓ} (null junk : P) where
  abbrev pub new_vector : Vector P
  new_vector = record { cells = []; capacity = 0; len = 0 }

  abbrev pub vec_clear : Vector P → Vector P
  vec_clear vec = record vec { len = 0 }

  -- The growth at the head of `vec_push`.
  pub grow : Vector P → Vector P
  grow vec =
      if leb vec.capacity vec.len
      then (let capacity = if leb vec.capacity 0 then 16 else vec.capacity * 2 in
          record {
            cells = vec.cells ++ replicate (capacity - vec.capacity) junk;
            capacity = capacity;
            len = vec.len;
          })
      else vec

  pub vec_push : Vector P → P → Vector P
  vec_push vec elem =
      let v = grow vec in
      record { cells = set v.cells v.len elem; capacity = v.capacity; len = v.len + 1 }

  pub vec_pop : Vector P → P × Vector P
  vec_pop vec =
      if ltb 0 vec.len
      then (get_or vec.cells (vec.len - 1) null, record vec { len = vec.len - 1 })
      else (null, vec)

  pub vec_insert : Vector P → ℤ → P → Vector P
  vec_insert vec (negsuc _) elem = vec
  vec_insert vec (pos i) elem =
      if ltb vec.len i
      then vec
      else if ltb i vec.len
      then (let v = vec_push vec null in
          record v { cells = set (memmove v.cells (i + 1) i (vec.len - i)) i elem })
      else vec_push vec elem

  pub vec_remove_at : Vector P → ℤ → Vector P
  vec_remove_at vec (negsuc _) = vec
  vec_remove_at vec (pos i) =
      if leb vec.len i
      then vec
      else (let d = vec.len - i - 1 in
          let shifted = if ltb 0 d then memmove vec.cells i (i + 1) d else vec.cells in
          record { cells = shifted; capacity = vec.capacity; len = vec.len - 1 })

-- The loop of `vec_contains`, on the cells from `i` on; `same` compares two pointers.
abbrev pub contains_from {ℓ} : {P : Type ℓ} → (P → P → Bool) → List P → ℕ → P → Bool
contains_from same cells zero elem = false
contains_from same [] (suc n) elem = false
contains_from same (c ∷ cells) (suc n) elem =
    let rest = contains_from same cells n elem in if same c elem then true else rest

abbrev pub vec_contains {ℓ} : {P : Type ℓ} → (P → P → Bool) → Vector P → P → Bool
vec_contains same vec elem = contains_from same vec.cells vec.len elem
