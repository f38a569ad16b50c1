-- ===== src/Wasm/Tests.antt =====
-- wasm/src: runs on concrete numbers, and the theorems at inputs that meet their hypotheses.
use my9cc.Wasm.Storage.{DataStorage, data_init, data_insert}
use my9cc.Wasm.Storage.Inserts.{Holds, data_insert-between}
use my9cc.Wasm.Leb.{uleb_loop, leb_loop, emit_uleb128, emit_leb128}
use my9cc.Wasm.Leb.RoundTrip.{
  read_uleb, read_leb, Emitted, emit_uleb128-Emitted, emit_leb128-Emitted, emit_uleb128-overflow,
}
use my9cc.Ir.Word.{sar}
use my9cc.Prelude.{◌-◌, ◌^◌, ◌≡◌, refl, none, some, [], ◌∷◌, ◌++◌, arith, inr, replicate}

-- 300 takes two bytes, and so does -100.
uleb_run : uleb_loop 5 300 ≡ some (172 ∷ (2 ∷ []))
unfolding uleb_loop
uleb_run = refl

leb_run : leb_loop 5 (2 ^ 64 - 100) ≡ some (156 ∷ (127 ∷ []))
unfolding leb_loop sar
leb_run = refl

-- 2 ^ 34, a constant of 64 bits, takes a sixth byte.
leb_too_large : leb_loop 5 (2 ^ 34) ≡ none
unfolding leb_loop sar
leb_too_large = refl

abbrev two_bytes : DataStorage
two_bytes = record { buf = 1 ∷ (2 ∷ replicate 14 0); capacity = 16; len = 2 }

two_bytes-Holds : Holds two_bytes ((1 ∷ []) ++ (2 ∷ []))
two_bytes-Holds = record { spare = replicate 14 0; contents = refl; full = refl; room = refl }

data_insert-between_example :
    (d' : DataStorage) × (data_insert 0 two_bytes 1 (7 ∷ []) ≡ some d')
    × Holds d' ((1 ∷ []) ++ ((7 ∷ []) ++ (2 ∷ [])))
data_insert-between_example =
    data_insert-between 0 two_bytes (1 ∷ []) (2 ∷ []) (7 ∷ []) two_bytes-Holds (omega arith)

emit_uleb128-Emitted_example :
    Emitted read_uleb (emit_uleb128 0 two_bytes 1 300) (1 ∷ []) (2 ∷ []) 300
emit_uleb128-Emitted_example =
    emit_uleb128-Emitted 0 two_bytes (1 ∷ []) (2 ∷ []) 300 two_bytes-Holds (omega arith)
      (omega arith)

emit_leb128-Emitted_example :
    Emitted read_leb (emit_leb128 0 two_bytes 1 (2 ^ 64 - 100)) (1 ∷ []) (2 ∷ []) (2 ^ 64 - 100)
emit_leb128-Emitted_example =
    emit_leb128-Emitted 0 two_bytes (1 ∷ []) (2 ∷ []) (2 ^ 64 - 100) two_bytes-Holds (omega arith)
      (inr (omega arith, omega arith))

emit_uleb128-overflow_example : emit_uleb128 0 data_init 0 (2 ^ 40) ≡ none
emit_uleb128-overflow_example = emit_uleb128-overflow 0 data_init 0 (2 ^ 40) (omega arith)
