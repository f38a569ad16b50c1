-- ===== src/Util/Buffer.antt =====
-- src/util/util.c: the byte buffer `Buffer`.
-- The field `data` is `cells` here. `realloc` keeps the bytes there are; a byte that it adds is
-- `junk`. Sizes are 64-bit words.
pub mod Holds
mod Tests
use my9cc.Util.Align.{align_up}
use my9cc.Prelude.{
  ℕ, ◌+◌, ◌-◌, ◌*◌, ◌%◌, ◌^◌, Option, none, some, List, [], ◌++◌, ltb, ◌==◌, if◌then◌else◌, take,
  drop, length, replicate,
}

pub record Buffer : Type 0 where
  pub cells : List ℕ
  pub capa : ℕ
  pub size : ℕ

abbrev pub empty : Buffer
empty = record { cells = []; capa = 0; size = 0 }

-- ALIGN(MAX(newsize, BUF_MIN) * 2, BUF_ALIGN)
abbrev pub new_capa : ℕ → ℕ
new_capa newsize = align_up 64 ((if ltb 8 newsize then newsize else 8) * 2 % 2 ^ 64) 16

module _ (junk : ℕ) where
  -- The `if` of `buf_put`.
  pub make_room : Buffer → ℕ → Buffer
  make_room buf newsize =
      if ltb buf.capa newsize
      then record {
        cells = buf.cells ++ replicate (new_capa newsize - buf.capa) junk;
        capa = new_capa newsize;
        size = buf.size;
      }
      else buf

  pub buf_put : Buffer → List ℕ → Buffer
  buf_put buf bytes =
      let newsize = (buf.size + length bytes) % 2 ^ 64 in
      let b = make_room buf newsize in
      record {
        cells = (take buf.size b.cells ++ bytes) ++ drop (buf.size + length bytes) b.cells;
        capa = b.capa;
        size = newsize;
      }

  -- `none` is the failed assertion at the end.
  pub buf_align : Buffer → ℕ → Option Buffer
  buf_align buf align =
      let aligned_size = align_up 64 buf.size align in
      let add = (aligned_size + 2 ^ 64 - buf.size) % 2 ^ 64 in
      if add == 0
      then some buf
      else (let b = buf_put buf (replicate add 0) in
          if b.size == aligned_size then some b else none)
