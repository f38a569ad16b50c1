-- ===== src/As/Encode/ReadBack.antt =====
-- src/as/asm_x86.c: the prefixes of `put_rex0` and the displacements are read back.
use my9cc.As.{put_value}
use my9cc.As.Resolve.{to_signed}
use my9cc.As.Resolve.Reaches.{sign_extend, read_one, read_four, extend_byte, extend_long}
use my9cc.As.Encode.{
  RegSize, reg8, reg16, reg32, reg64, is_reg16, is_reg64, needs_rex, rex_byte, put_rex0,
  offset_code, put_offset,
}
use my9cc.As.Encode.Decode.{Prefixes, take_prefixes, rex_r, rex_x, rex_b, rex_w, read_offset}
use my9cc.As.Encode.Bytes.{rex_byte-narrow, rex_byte-wide}
use my9cc.Util.Align.{is_im8, is_im32}
use my9cc.Prelude.{
  ℕ, suc, ◌+◌, ◌*◌, ◌/◌, ◌%◌, ◌^◌, ◌<◌, ◌≡◌, refl, Bool, true, false, not, ◌&&◌, none, some, List,
  [], ◌∷◌, ◌++◌, ◌==◌, leb, if◌then◌else◌, arith, sym, ◌∙◌, ap, inl, inr, Bool-cases, length, ◌⊎◌,
}

abbrev size_bit : RegSize → ℕ
size_bit size = if is_reg64 size then 8 else 0

-- What the processor reads of the prefixes that `put_rex0` puts.
abbrev pub prefixes_of : RegSize → ℕ → ℕ → Prefixes
prefixes_of size s d = record {
  data16 = is_reg16 size;
  rex = if needs_rex size s d then some (rex_byte s d (size_bit size) % 16) else none;
}

prefixes_read :
    (w16 need : Bool) (rex o : ℕ) (tail : List ℕ)
    → (rex == 102) ≡ false
    → (rex / 16 == 4) ≡ true
    → (o == 102) ≡ false
    → (o / 16 == 4) ≡ false
    → take_prefixes
        (((if w16 then 102 ∷ [] else []) ++ ((if need then rex ∷ [] else []) ++ (o ∷ []))) ++ tail)
      ≡ (record { data16 = w16; rex = if need then some (rex % 16) else none }, o ∷ tail)
prefixes_read true true rex o tail h k l m = rw k refl
prefixes_read true false rex o tail h k l m = rw m refl
prefixes_read false true rex o tail h k l m = rw (h, k) refl
prefixes_read false false rex o tail h k l m = rw (l, m) refl

rex_byte-value :
    (size : RegSize) (s d : ℕ)
    → s < 16
    → d < 16
    → rex_byte s d (size_bit size) ≡ 64 + size_bit size + s / 8 * 4 + d / 8
rex_byte-value reg8 s d hs hd = rex_byte-narrow s d hs hd
rex_byte-value reg16 s d hs hd = rex_byte-narrow s d hs hd
rex_byte-value reg32 s d hs hd = rex_byte-narrow s d hs hd
rex_byte-value reg64 s d hs hd = rex_byte-wide s d hs hd

-- The fields of the prefix REX.
record Fields (v w s d : ℕ) : Type 0 where
  not_data16 : (v == 102) ≡ false
  is_rex : (v / 16 == 4) ≡ true
  r_bit : v % 16 / 4 % 2 * 8 ≡ s / 8 * 8
  x_bit : v % 16 / 2 % 2 * 8 ≡ 0
  b_bit : v % 16 % 2 * 8 ≡ d / 8 * 8
  w_bit : v % 16 / 8 ≡ w / 8

fields :
    (v w s d : ℕ)
    → v ≡ 64 + w + s / 8 * 4 + d / 8
    → (w ≡ 8) ⊎ (w ≡ 0)
    → s < 16
    → d < 16
    → Fields v w s d
fields v w s d e bit hs hd = record {
  not_data16 = ground arith;
  is_rex = ground arith;
  r_bit = ground arith;
  x_bit = ground arith;
  b_bit = ground arith;
  w_bit = ground arith;
}

size_bit-cases : (size : RegSize) → (size_bit size ≡ 8) ⊎ (size_bit size ≡ 0)
size_bit-cases reg8 = inr refl
size_bit-cases reg16 = inr refl
size_bit-cases reg32 = inr refl
size_bit-cases reg64 = inl refl

size_bit-wide : (size : RegSize) → (size_bit size / 8 == 1) ≡ is_reg64 size
size_bit-wide reg8 = refl
size_bit-wide reg16 = refl
size_bit-wide reg32 = refl
size_bit-wide reg64 = refl

-- Without a prefix REX the numbers are small, and the size is not 64.
no_rex :
    (size : RegSize) (s d : ℕ)
    → needs_rex size s d ≡ false
    → (s < 8) × (d < 8) × (is_reg64 size ≡ false)
no_rex reg8 s d h = (ground arith, ground arith, refl)
no_rex reg16 s d h = (ground arith, ground arith, refl)
no_rex reg32 s d h = (ground arith, ground arith, refl)
no_rex reg64 s d h = absurd (ground arith)

module _ (size : RegSize) (s d : ℕ) (hs : s < 16) (hd : d < 16) where
  rex_fields : Fields (rex_byte s d (size_bit size)) (size_bit size) s d
  rex_fields =
      fields (rex_byte s d (size_bit size)) (size_bit size) s d (rex_byte-value size s d hs hd)
        (size_bit-cases size) hs hd

  pub put_rex0-read :
      (o : ℕ) (tail : List ℕ)
      → (o == 102) ≡ false
      → (o / 16 == 4) ≡ false
      → take_prefixes (put_rex0 size s d o ++ tail) ≡ (prefixes_of size s d, o ∷ tail)
  unfolding put_rex0
  put_rex0-read o tail h k =
      prefixes_read (is_reg16 size) (needs_rex size s d) (rex_byte s d (size_bit size)) o tail
        rex_fields.not_data16 rex_fields.is_rex h k

  pub rex_r-prefixes : rex_r (prefixes_of size s d) ≡ s / 8 * 8
  rex_r-prefixes = elim (Bool-cases (needs_rex size s d)) [
    | inl need ↦ rw need rex_fields.r_bit
    | inr plain ↦ let small = no_rex size s d plain in rw plain (omega (arith, small.0))
  ]

  pub rex_b-prefixes : rex_b (prefixes_of size s d) ≡ d / 8 * 8
  rex_b-prefixes = elim (Bool-cases (needs_rex size s d)) [
    | inl need ↦ rw need rex_fields.b_bit
    | inr plain ↦ let small = no_rex size s d plain in rw plain (omega (arith, small.1))
  ]

  pub rex_x-prefixes : rex_x (prefixes_of size s d) ≡ 0
  rex_x-prefixes = elim (Bool-cases (needs_rex size s d)) [
    | inl need ↦ rw need rex_fields.x_bit
    | inr plain ↦ rw plain refl
  ]

  pub rex_w-prefixes : rex_w (prefixes_of size s d) ≡ is_reg64 size
  rex_w-prefixes = elim (Bool-cases (needs_rex size s d)) [
    | inl need ↦ rw need (ap (λ t. t == 1) rex_fields.w_bit ∙ size_bit-wide size)
    | inr plain ↦ let small = no_rex size s d plain in rw plain (sym (small.2))
  ]

-- The displacement is read back in the width that is chosen for it.
pub record ReadsBack (s offset : ℕ) (rest : List ℕ) : Type 0 where
  pub mode : ℕ
  pub small : mode < 3
  pub code : offset_code 0 s offset ≡ mode * 64
  pub not_bare : ((mode == 0) && (s == 5)) ≡ false
  pub reads : read_offset mode (put_offset s offset ++ rest) ≡ some (offset, rest)

pub byte_back :
    (offset : ℕ) (rest : List ℕ)
    → offset < 2 ^ 64
    → is_im8 (to_signed offset) ≡ true
    → read_offset 1 (put_value offset 1 ++ rest) ≡ some (offset, rest)
unfolding put_value
byte_back offset rest h e =
    let room : leb 1 (suc (length rest)) ≡ true = ground arith in
    rw room (
      ap (λ n. some (sign_extend (2 ^ 7) n, rest)) (read_one offset)
      ∙ ap (λ n. some (n, rest)) (extend_byte offset h e))

pub long_back :
    (offset : ℕ) (rest : List ℕ)
    → offset < 2 ^ 64
    → is_im32 (to_signed offset) ≡ true
    → read_offset 2 (put_value offset 4 ++ rest) ≡ some (offset, rest)
unfolding put_value
long_back offset rest h e =
    let room : leb 4 (suc (suc (suc (suc (length rest))))) ≡ true = ground arith in
    rw room (
      ap (λ n. some (sign_extend (2 ^ 31) n, rest)) (read_four offset h)
      ∙ ap (λ n. some (n, rest)) (extend_long offset h e))

pub put_offset-ReadsBack :
    (s offset : ℕ) (rest : List ℕ)
    → offset < 2 ^ 64
    → is_im32 (to_signed offset) ≡ true
    → ReadsBack s offset rest
put_offset-ReadsBack s offset rest h fits = elim (Bool-cases ((offset == 0) && not (s == 5))) [
  | inl bare ↦ record {
    mode = 0;
    small = omega arith;
    code = rw bare refl;
    not_bare = ground arith;
    reads = rw bare (ap (λ n. some (n, rest)) (ground arith));
  }
  | inr some_offset ↦ elim (Bool-cases (is_im8 (to_signed offset))) [
    | inl byte ↦ record {
      mode = 1;
      small = omega arith;
      code = rw (some_offset, byte) refl;
      not_bare = refl;
      reads = rw (some_offset, byte) (byte_back offset rest h byte);
    }
    | inr long ↦ record {
      mode = 2;
      small = omega arith;
      code = rw (some_offset, long) refl;
      not_bare = refl;
      reads = rw (some_offset, long, fits) (long_back offset rest h fits);
    }
  ]
]
