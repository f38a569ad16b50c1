-- ===== src/Wasm/Storage.antt =====
-- wasm/src/wcc_util.c and wcc.h: the byte storage `DataStorage`.
-- `realloc` keeps the bytes there are; a byte that it adds is `junk`. Sizes are 64-bit words. `none`
-- is the failed assertion of `data_insert`.
pub mod Inserts
use my9cc.Util.Vector.{memmove}
use my9cc.Prelude.{
  ℕ, ◌+◌, ◌-◌, ◌*◌, ◌%◌, ◌^◌, Option, none, some, List, [], ◌∷◌, ◌++◌, ltb, leb, if◌then◌else◌,
  take, drop, length, replicate,
}

pub record DataStorage : Type 0 where
  pub buf : List ℕ
  pub capacity : ℕ
  pub len : ℕ

abbrev pub data_init : DataStorage
data_init = record { buf = []; capacity = 0; len = 0 }

-- The two `if` of `data_reserve`, on the doubled capacity `c`.
abbrev pub reserved : ℕ → ℕ → ℕ
reserved c capacity =
    let most = if ltb capacity c then c else capacity in if ltb most 16 then 16 else most

module _ (junk : ℕ) where
  unfoldable pub data_reserve : DataStorage → ℕ → DataStorage
  data_reserve d capacity =
      if ltb d.capacity capacity
      then (let c = reserved (d.capacity * 2 % 2 ^ 64) capacity in
          record d { buf = d.buf ++ replicate (c - d.capacity) junk; capacity = c })
      else d

  unfoldable pub data_insert : DataStorage → ℕ → List ℕ → Option DataStorage
  data_insert d pos bytes =
      let size = length bytes in
      let newlen = (d.len + size) % 2 ^ 64 in
      let r = data_reserve d newlen in
      let moved = if ltb pos r.len then memmove r.buf (pos + size) pos (r.len - pos) else r.buf in
      if leb pos d.len
      then some (record {
        buf = (take pos moved ++ bytes) ++ drop (pos + size) moved;
        capacity = r.capacity;
        len = newlen;
      })
      else none

  abbrev pub data_append : DataStorage → List ℕ → Option DataStorage
  data_append d bytes = data_insert d d.len bytes

  abbrev pub data_push : DataStorage → ℕ → Option DataStorage
  data_push d c = data_insert d d.len (c ∷ [])

  -- The bytes of `data2` up to its length.
  abbrev pub data_concat : DataStorage → DataStorage → Option DataStorage
  data_concat d data2 = data_insert d d.len (take data2.len data2.buf)
