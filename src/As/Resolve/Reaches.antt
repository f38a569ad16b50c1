-- ===== src/As/Resolve/Reaches.antt =====
-- src/as/ir_asm.c: `put_value`, and how its bytes are read back in a place of the code.
use my9cc.As.{put_value, write_at}
use my9cc.As.Resolve.{to_signed}
use my9cc.Ir.Word.{word_add, word_sub, sar}
use my9cc.Util.Align.{is_im8, is_im32}
use my9cc.Prelude.{
  ℕ, zero, suc, ◌+◌, ◌-◌, ◌*◌, ◌/◌, ◌%◌, ◌^◌, ◌≤◌, ◌<◌, ◌≡◌, refl, true, List, [], ◌∷◌, ◌++◌, take,
  drop, length, ltb, if◌then◌else◌, inl, inr, ◌⊎◌, Bool-cases, arith, ◌∙◌, ap, take-length_append,
}

-- A number from its bytes, the lowest first.
pub read_bytes : List ℕ → ℕ
read_bytes [] = 0
read_bytes (b ∷ bs) = b + 256 * read_bytes bs

-- The pattern of 64 bits of a signed number that has `half` non-negative values.
pub sign_extend : ℕ → ℕ → ℕ
sign_extend half n = if ltb n half then n else n + 2 ^ 64 - 2 * half

-- One more byte.
read_step :
    (v size : ℕ)
    → read_bytes (put_value v (suc size)) ≡ v % 256 + 256 * read_bytes (put_value (sar v 8) size)
unfolding read_bytes put_value
read_step v size = refl

shifted : (v : ℕ) → v < 2 ^ 64 → (sar v 8 % 2 ^ 56 ≡ v / 256) × (sar v 8 < 2 ^ 64)
unfolding sar
shifted v h = elim (Bool-cases (ltb v (2 ^ 63))) [
  | inl low ↦ rw low (omega arith, omega arith)
  | inr high ↦ rw high (ground arith, omega arith)
]

read_none : (v : ℕ) → read_bytes (put_value v 0) ≡ 0
unfolding read_bytes put_value
read_none v = refl

pub read_one : (v : ℕ) → read_bytes (put_value v 1) ≡ v % 256
read_one v = omega (arith, read_step v 0, read_none (sar v 8))

pub read_two : (v : ℕ) → v < 2 ^ 64 → read_bytes (put_value v 2) ≡ v % 2 ^ 16
read_two v h =
    let (low, small) = shifted v h in omega (arith, read_step v 1, read_one (sar v 8), low)

read_three : (v : ℕ) → v < 2 ^ 64 → read_bytes (put_value v 3) ≡ v % 2 ^ 24
read_three v h =
    let (low, small) = shifted v h in omega (arith, read_step v 2, read_two (sar v 8) small, low)

pub read_four : (v : ℕ) → v < 2 ^ 64 → read_bytes (put_value v 4) ≡ v % 2 ^ 32
read_four v h =
    let (low, small) = shifted v h in omega (arith, read_step v 3, read_three (sar v 8) small, low)

read_five : (v : ℕ) → v < 2 ^ 64 → read_bytes (put_value v 5) ≡ v % 2 ^ 40
read_five v h =
    let (low, small) = shifted v h in omega (arith, read_step v 4, read_four (sar v 8) small, low)

read_six : (v : ℕ) → v < 2 ^ 64 → read_bytes (put_value v 6) ≡ v % 2 ^ 48
read_six v h =
    let (low, small) = shifted v h in omega (arith, read_step v 5, read_five (sar v 8) small, low)

read_seven : (v : ℕ) → v < 2 ^ 64 → read_bytes (put_value v 7) ≡ v % 2 ^ 56
read_seven v h =
    let (low, small) = shifted v h in omega (arith, read_step v 6, read_six (sar v 8) small, low)

pub read_eight : (v : ℕ) → v < 2 ^ 64 → read_bytes (put_value v 8) ≡ v % 2 ^ 64
read_eight v h =
    let (low, small) = shifted v h in omega (arith, read_step v 7, read_seven (sar v 8) small, low)

pub extend_byte :
    (d : ℕ) → d < 2 ^ 64 → is_im8 (to_signed d) ≡ true → sign_extend (2 ^ 7) (d % 256) ≡ d
unfolding is_im8 sign_extend
extend_byte d h e = ground arith

pub extend_long :
    (d : ℕ) → d < 2 ^ 64 → is_im32 (to_signed d) ≡ true → sign_extend (2 ^ 31) (d % 2 ^ 32) ≡ d
unfolding is_im32 sign_extend
extend_long d h e = ground arith

pub extend_short :
    (d : ℕ)
    → d < 2 ^ 64
    → (d < 2 ^ 15) ⊎ (2 ^ 64 - 2 ^ 15 ≤ d)
    → sign_extend (2 ^ 15) (d % 2 ^ 16) ≡ d
unfolding sign_extend
extend_short d h e = ground arith

-- What stands in a buffer where bytes were written.
read_at :
    (n : ℕ) (bytes buf behind : List ℕ)
    → n ≤ length buf
    → take (length bytes) (drop n ((take n buf ++ bytes) ++ behind)) ≡ bytes
read_at zero bytes buf behind h = take-length_append bytes behind
read_at (suc n) bytes [] behind h = absurd (omega arith)
read_at (suc n) bytes (b ∷ buf) behind h = read_at n bytes buf behind (omega arith)

-- The displacement leads there.
pub lands : (dst b : ℕ) → dst < 2 ^ 64 → b < 2 ^ 64 → word_add b (word_sub dst b) ≡ dst
unfolding word_add word_sub
lands dst b h k = omega arith

pub word_sub-small : (a b : ℕ) → word_sub a b < 2 ^ 64
unfolding word_sub
word_sub-small a b = omega arith

pub word_add-small : (a b : ℕ) → word_add a b < 2 ^ 64
unfolding word_add
word_add-small a b = omega arith

pub long_bytes :
    (d n : ℕ) (buf : List ℕ)
    → d < 2 ^ 64
    → n ≤ length buf
    → is_im32 (to_signed d) ≡ true
    → sign_extend (2 ^ 31) (read_bytes (take 4 (drop n (write_at n (put_value d 4) buf)))) ≡ d
unfolding put_value
long_bytes d n buf h fits e =
    let bytes : take 4 (drop n (write_at n (put_value d 4) buf)) ≡ put_value d 4 =
      read_at n (put_value d 4) buf (drop (n + 4) buf) fits in
    ap (λ (l : List ℕ). sign_extend (2 ^ 31) (read_bytes l)) bytes
    ∙ ap (λ (t : ℕ). sign_extend (2 ^ 31) t) (read_four d h)
    ∙ extend_long d h e

pub short_bytes :
    (d n : ℕ) (buf : List ℕ)
    → d < 2 ^ 64
    → n ≤ length buf
    → is_im8 (to_signed d) ≡ true
    → sign_extend (2 ^ 7) (read_bytes (take 1 (drop n (write_at n (put_value d 1) buf)))) ≡ d
unfolding put_value
short_bytes d n buf h fits e =
    let bytes : take 1 (drop n (write_at n (put_value d 1) buf)) ≡ put_value d 1 =
      read_at n (put_value d 1) buf (drop (n + 1) buf) fits in
    ap (λ (l : List ℕ). sign_extend (2 ^ 7) (read_bytes l)) bytes
    ∙ ap (λ (t : ℕ). sign_extend (2 ^ 7) t) (read_one d)
    ∙ extend_byte d h e
