-- ===== src/Wasm/Leb.antt =====
-- wasm/src/gen_wasm.c: `emit_uleb128` and `emit_leb128`.
-- An `int64_t` is its pattern of 64 bits. `none` is a write behind the five bytes of `buf`, or the
-- failed assertion of `data_insert`.
pub mod RoundTrip
use my9cc.Wasm.Storage.{DataStorage, data_insert}
use my9cc.Ir.Word.{sar}
use my9cc.Prelude.{
  ℕ, zero, suc, ◌+◌, ◌-◌, ◌/◌, ◌%◌, ◌^◌, Bool, ◌||◌, Option, none, some, List, [], ◌∷◌, ltb, leb,
  if◌then◌else◌, ◌>>=◌,
}

-- The loop of `emit_uleb128`, with the room that is left in `buf`.
unfoldable pub uleb_loop : ℕ → ℕ → Option (List ℕ)
uleb_loop zero val = none
uleb_loop (suc room) val =
    let rest = uleb_loop room (val / 128) in
    if ltb val 128
    then some (val % 128 ∷ [])
    else rest >>= λ bytes. some ((val % 128 + 128) ∷ bytes)

-- val < MAX && val >= -MAX
abbrev pub is_small : ℕ → Bool
is_small val = ltb val 64 || leb (2 ^ 64 - 64) val

-- The loop of `emit_leb128`.
unfoldable pub leb_loop : ℕ → ℕ → Option (List ℕ)
leb_loop zero val = none
leb_loop (suc room) val =
    let rest = leb_loop room (sar val 7) in
    if is_small val
    then some (val % 128 ∷ [])
    else rest >>= λ bytes. some ((val % 128 + 128) ∷ bytes)

module _ (junk : ℕ) where
  unfoldable pub emit_uleb128 : DataStorage → ℕ → ℕ → Option DataStorage
  emit_uleb128 d pos val = uleb_loop 5 val >>= λ bytes. data_insert junk d pos bytes

  unfoldable pub emit_leb128 : DataStorage → ℕ → ℕ → Option DataStorage
  emit_leb128 d pos val = leb_loop 5 val >>= λ bytes. data_insert junk d pos bytes
