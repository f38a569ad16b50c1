-- ===== src/Wasm/Leb/RoundTrip.antt =====
-- wasm/src/gen_wasm.c: LEB128 numbers are read back, and the numbers that five bytes hold.
use my9cc.Wasm.Leb.{uleb_loop, leb_loop, is_small, emit_uleb128, emit_leb128}
use my9cc.Wasm.Storage.{DataStorage, data_insert}
use my9cc.Wasm.Storage.Inserts.{Holds, data_insert-between}
use my9cc.Ir.Word.{sar}
use native.Mathlib.Nat.{pow-suc, one-le-pow}
use my9cc.Prelude.{
  ℕ, zero, suc, ◌+◌, ◌-◌, ◌*◌, ◌/◌, ◌%◌, ◌^◌, ◌≤◌, ◌<◌, ◌≡◌, refl, true, false, Option, none, some,
  List, [], ◌∷◌, ◌++◌, ltb, leb, if◌then◌else◌, ◌>>=◌, length, inl, inr, Bool-cases, arith, ◌⊎◌,
}

-- A reader of unsigned numbers by the WebAssembly specification, with what stands behind.
pub read_uleb : List ℕ → Option (ℕ × List ℕ)
read_uleb [] = none
read_uleb (b ∷ bs) =
    let rest = read_uleb bs in
    if ltb b 128 then some (b, bs) else rest >>= λ r. some (b - 128 + 128 * r.0, r.1)

-- The same of signed ones, as patterns of 64 bits.
pub read_leb : List ℕ → Option (ℕ × List ℕ)
read_leb [] = none
read_leb (b ∷ bs) =
    let rest = read_leb bs in
    if ltb b 64
    then some (b, bs)
    else if ltb b 128
    then some (b + 2 ^ 64 - 128, bs)
    else rest >>= λ r. some ((b - 128 + 128 * r.0) % 2 ^ 64, r.1)

-- What is written, of a number that `read` gives back.
pub record Written (read : List ℕ → Option (ℕ × List ℕ)) (o : Option (List ℕ)) (val : ℕ) (room : ℕ)
    : Type 0 where
  pub bytes : List ℕ
  pub made : o ≡ some bytes
  pub fits : length bytes ≤ room
  pub read_back : (tail : List ℕ) → read (bytes ++ tail) ≡ some (val, tail)

uleb_loop-Written :
    (room val : ℕ)
    → val < 128 ^ suc room
    → Written read_uleb (uleb_loop (suc room) val) val (suc room)
unfolding uleb_loop read_uleb
uleb_loop-Written zero val h =
    let small : ltb val 128 ≡ true = ground arith in
    let low : val % 128 ≡ val = omega arith in
    rw (small, low)
      (record {
        bytes = val ∷ [];
        made = refl;
        fits = omega arith;
        read_back = λ tail. rw small refl;
      })
uleb_loop-Written (suc room) val h = elim (Bool-cases (ltb val 128)) [
  | inl small ↦
      let low : val % 128 ≡ val = ground arith in
      rw (small, low)
        (record {
          bytes = val ∷ [];
          made = refl;
          fits = omega arith;
          read_back = λ tail. rw small refl;
        })
  | inr big ↦
      let w = uleb_loop-Written room (val / 128) (omega (arith, pow-suc 128 (suc room))) in
      let high : ltb (val % 128 + 128) 128 ≡ false = ground arith in
      let joined : val % 128 + 128 - 128 + 128 * (val / 128) ≡ val = omega arith in
      rw (big, w.made)
        (record {
          bytes = (val % 128 + 128) ∷ w.bytes;
          made = refl;
          fits = omega (arith, w.fits);
          read_back = λ tail. rw (high, w.read_back tail, joined) refl;
        })
]

-- A number that is too large leaves the array.
uleb_loop-none : (room val : ℕ) → 128 ^ room ≤ val → uleb_loop room val ≡ none
unfolding uleb_loop
uleb_loop-none zero val h = refl
uleb_loop-none (suc room) val h =
    let positive : 1 ≤ 128 ^ room = one-le-pow room 128 (omega arith) in
    let big : ltb val 128 ≡ false = ground (arith, pow-suc 128 room) in
    let rest = uleb_loop-none room (val / 128) (omega (arith, pow-suc 128 room)) in
    rw (big, rest) refl

-- Signed numbers of which seven bits and n times seven more are enough.
abbrev pub Within : ℕ → ℕ → Type 0
Within n val = (val < 64 * 128 ^ n) ⊎ ((2 ^ 64 - 64 * 128 ^ n ≤ val) × (val < 2 ^ 64))

-- A small number is one byte.
small_leb :
    (val : ℕ) (tail : List ℕ)
    → val < 2 ^ 64
    → is_small val ≡ true
    → read_leb (val % 128 ∷ tail) ≡ some (val, tail)
unfolding read_leb
small_leb val tail h small = elim (Bool-cases (ltb val 64)) [
  | inl low ↦ let same : val % 128 ≡ val = ground arith in rw (same, low) refl
  | inr high ↦
      let big : 2 ^ 64 - 64 ≤ val = ground arith in
      let first : ltb (val % 128) 64 ≡ false = ground arith in
      let second : ltb (val % 128) 128 ≡ true = ground arith in
      let sum : val % 128 + 2 ^ 64 - 128 ≡ val = omega arith in rw (first, second, sum) refl
]

-- The shift takes seven bits off, and the bytes put them on again.
seven_bits : (val : ℕ) → val < 2 ^ 64 → (val % 128 + 128 - 128 + 128 * sar val 7) % 2 ^ 64 ≡ val
unfolding sar
seven_bits val h = elim (Bool-cases (ltb val (2 ^ 63))) [
  | inl low ↦ rw low (omega arith)
  | inr high ↦ rw high (ground arith)
]

shift_shorter : (n val : ℕ) → 128 ^ suc n ≤ 2 ^ 56 → Within (suc n) val → Within n (sar val 7)
unfolding sar
shift_shorter n val small w = elim w [
  | inl low ↦
      let positive : ltb val (2 ^ 63) ≡ true = ground arith in
      inl (rw positive (omega (arith, pow-suc 128 n)))
  | inr high ↦
      let negative : ltb val (2 ^ 63) ≡ false = ground (arith, high.0) in
      inr (
        rw negative (omega (arith, pow-suc 128 n, high.0, high.1)),
        rw negative (omega (arith, high.1)),
      )
]

shorter_word : (n val : ℕ) → 128 ^ n ≤ 2 ^ 56 → Within n val → val < 2 ^ 64
shorter_word n val small (inl low) = omega arith
shorter_word n val small (inr high) = high.1

shorter_byte : (val : ℕ) → Within 0 val → is_small val ≡ true
shorter_byte val (inl low) = let first : ltb val 64 ≡ true = ground arith in rw first refl
shorter_byte val (inr high) =
    let first : ltb val 64 ≡ false = ground (arith, high.0) in
    let second : leb (2 ^ 64 - 64) val ≡ true = ground (arith, high.0) in rw (first, second) refl

single :
    (room val : ℕ)
    → val < 2 ^ 64
    → is_small val ≡ true
    → Written read_leb (leb_loop (suc room) val) val (suc room)
unfolding leb_loop
single room val h small = rw small (record {
  bytes = val % 128 ∷ [];
  made = refl;
  fits = omega arith;
  read_back = λ tail. small_leb val tail h small;
})

leb_loop-Written :
    (n val : ℕ)
    → 128 ^ n ≤ 2 ^ 56
    → Within n val
    → Written read_leb (leb_loop (suc n) val) val (suc n)
unfolding leb_loop read_leb
leb_loop-Written zero val h w = single 0 val (shorter_word 0 val h w) (shorter_byte val w)
leb_loop-Written (suc n) val h w =
    let word = shorter_word (suc n) val h w in
    elim (Bool-cases (is_small val)) [
      | inl small ↦ single (suc n) val word small
      | inr big ↦
          let r =
            leb_loop-Written n (sar val 7) (omega (arith, pow-suc 128 n))
              (shift_shorter n val h w) in
          let first : ltb (val % 128 + 128) 64 ≡ false = ground arith in
          let second : ltb (val % 128 + 128) 128 ≡ false = ground arith in
          let joined = seven_bits val word in
          rw (big, r.made)
            (record {
              bytes = (val % 128 + 128) ∷ r.bytes;
              made = refl;
              fits = omega (arith, r.fits);
              read_back = λ tail. rw (first, second, r.read_back tail, joined) refl;
            })
    ]

-- What a storage holds behind an emission at the end of `a`.
pub record Emitted (read : List ℕ → Option (ℕ × List ℕ)) (o : Option DataStorage) (a b : List ℕ)
    (val : ℕ) : Type 0 where
  pub bytes : List ℕ
  pub storage : DataStorage
  pub made : o ≡ some storage
  pub holds : Holds storage (a ++ (bytes ++ b))
  pub read_back : (tail : List ℕ) → read (bytes ++ tail) ≡ some (val, tail)

module _ (junk : ℕ) where
  stored :
      (read : List ℕ → Option (ℕ × List ℕ)) (o : Option (List ℕ)) (d : DataStorage) (a b : List ℕ)
      (val : ℕ)
      → Written read o val 5
      → Holds d (a ++ b)
      → length (a ++ b) + 5 ≤ 2 ^ 62
      → Emitted read (o >>= λ bytes. data_insert junk d (length a) bytes) a b val
  stored read o d a b val w v bound =
      let (d', made, holds) =
        data_insert-between junk d a b w.bytes v (omega (arith, bound, w.fits)) in
      rw w.made (record {
        bytes = w.bytes;
        storage = d';
        made = made;
        holds = holds;
        read_back = w.read_back;
      })

  -- emit_uleb128 of a number below 2 ^ 35, within the bytes or at their end, inserts bytes there that
  -- the reader of the WebAssembly format turns back into the number, provided that the storage has at
  -- most 2 ^ 62 bytes with five more.
  pub emit_uleb128-Emitted :
      (d : DataStorage) (a b : List ℕ) (val : ℕ)
      → Holds d (a ++ b)
      → length (a ++ b) + 5 ≤ 2 ^ 62
      → val < 2 ^ 35
      → Emitted read_uleb (emit_uleb128 junk d (length a) val) a b val
  unfolding emit_uleb128
  emit_uleb128-Emitted d a b val v bound h =
      stored read_uleb _ d a b val (uleb_loop-Written 4 val (omega arith)) v bound

  -- emit_leb128 of a number from -(2 ^ 34) up to and without 2 ^ 34, given as its pattern of 64 bits,
  -- within the bytes or at their end, inserts bytes there that the reader of signed numbers of the
  -- WebAssembly format turns back into the pattern, provided that the storage has at most 2 ^ 62 bytes
  -- with five more.
  pub emit_leb128-Emitted :
      (d : DataStorage) (a b : List ℕ) (val : ℕ)
      → Holds d (a ++ b)
      → length (a ++ b) + 5 ≤ 2 ^ 62
      → (val < 2 ^ 34) ⊎ ((2 ^ 64 - 2 ^ 34 ≤ val) × (val < 2 ^ 64))
      → Emitted read_leb (emit_leb128 junk d (length a) val) a b val
  unfolding emit_leb128
  emit_leb128-Emitted d a b val v bound h =
      stored read_leb _ d a b val (leb_loop-Written 4 val (omega arith) h) v bound

  -- emit_uleb128 of a number of 2 ^ 35 or more writes behind its array of five bytes.
  pub emit_uleb128-overflow :
      (d : DataStorage) (pos val : ℕ) → 2 ^ 35 ≤ val → emit_uleb128 junk d pos val ≡ none
  unfolding emit_uleb128
  emit_uleb128-overflow d pos val h = rw (uleb_loop-none 5 val (omega arith)) refl
