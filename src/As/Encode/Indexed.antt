-- ===== src/As/Encode/Indexed.antt =====
-- src/as/asm_x86.c: the operands that `put_rex_indirect_with_index` puts are read back.
use my9cc.As.Resolve.{to_signed}
use my9cc.As.Encode.{scale_bit, offset_code, put_offset, put_rex_indirect_with_index}
use my9cc.As.Encode.Bytes.{bit_and-low, index_rex-parts, index_mod-parts, sib-parts}
use my9cc.As.Encode.Decode.{
  Prefixes, take_prefixes, rex_r, rex_x, rex_b, read_offset, Place, based, indexed, read_memory,
  read_sib, read_mod_rm,
}
use my9cc.As.Encode.ReadBack.{put_offset-ReadsBack}
use my9cc.As.Encode.Modes.{operands, mod_rm_read, memory_read, Decodes}
use my9cc.Util.Align.{is_im32}
use my9cc.Prelude.{
  ℕ, ◌+◌, ◌*◌, ◌/◌, ◌%◌, ◌^◌, ◌<◌, ◌≡◌, true, false, ◌&&◌, some, List, ◌∷◌, ◌++◌, ◌==◌,
  if◌then◌else◌, arith, ◌∙◌, ap, bit_and, bit_or,
}

-- The prefix REX with W and the high bits of the three registers.
abbrev pub wide_prefixes : ℕ → ℕ → ℕ → Prefixes
wide_prefixes b i d = record { data16 = false; rex = some (8 + (b / 8 + i / 8 * 2 + d / 8 * 4)) }

wide_rex :
    (v t o : ℕ) (rest : List ℕ)
    → v ≡ 72 + t
    → t < 8
    → take_prefixes (v ∷ (o ∷ rest)) ≡ (record { data16 = false; rex = some (8 + t) }, o ∷ rest)
wide_rex v t o rest e h =
    let plain : (v == 102) ≡ false = ground arith in
    let is_rex : (v / 16 == 4) ≡ true = ground arith in
    let low : v % 16 ≡ 8 + t = omega arith in
    rw (plain, is_rex) (ap (λ n. (record { data16 = false; rex = some n }, o ∷ rest)) low)

-- Where there is no index, as for %rsp, and where there is one.
abbrev pub indexed_place : ℕ → ℕ → ℕ → ℕ → Place
indexed_place b i k offset = if i == 4 then based b offset else indexed b i k offset

sib_read :
    (p : Prefixes) (mode r s k b i offset : ℕ) (bytes rest : List ℕ)
    → s ≡ k * 64 + i % 8 * 8 + b % 8
    → ((mode == 0) && (b % 8 == 5)) ≡ false
    → rex_x p ≡ i / 8 * 8
    → rex_b p ≡ b / 8 * 8
    → read_offset mode bytes ≡ some (offset, rest)
    → read_sib p mode r (s ∷ bytes) ≡ some (operands r (indexed_place b i k offset) rest)
sib_read p mode r s k b i offset bytes rest e bare hx hb back =
    let scale : s / 64 ≡ k = omega arith in
    let index : s / 8 % 8 + rex_x p ≡ i = omega arith in
    let base : s % 8 ≡ b % 8 = omega arith in
    ap (λ t. read_memory p mode r t (s / 8 % 8 + rex_x p) (s % 8) bytes) scale
    ∙ ap (λ t. read_memory p mode r k t (s % 8) bytes) index
    ∙ ap (λ t. read_memory p mode r k i t bytes) base
    ∙ memory_read p mode r k i b offset bytes rest bare hb back

module _ (b i d k offset : ℕ) (rest : List ℕ) (hb : b < 16) (hi : i < 16) (hd : d < 16) (hk : k < 4)
    (ho : offset < 2 ^ 64) (fits : is_im32 (to_signed offset) ≡ true) where
  indexed_bytes : ℕ → List ℕ
  indexed_bytes low =
      bit_or (bit_or (offset_code 0 low offset) (bit_and d 7 * 8)) 4
      ∷ (bit_or (bit_or (bit_and b 7) (bit_and i 7 * 8)) (scale_bit (2 ^ k) * 64)
          ∷ (put_offset low offset ++ rest))

  indexed_read :
      (p : Prefixes)
      → rex_r p ≡ d / 8 * 8
      → rex_x p ≡ i / 8 * 8
      → rex_b p ≡ b / 8 * 8
      → read_mod_rm p (indexed_bytes (bit_and b 7))
        ≡ some (operands d (indexed_place b i k offset) rest)
  unfolding indexed_bytes
  indexed_read p er ex eb =
      let f = put_offset-ReadsBack (b % 8) offset rest ho fits in
      let small = f.small in
      let memory : (f.mode == 3) ≡ false = ground arith in
      let sib = bit_or (bit_or (bit_and b 7) (bit_and i 7 * 8)) (scale_bit (2 ^ k) * 64) in
      let code : bit_or (bit_or (offset_code 0 (b % 8) offset) (bit_and d 7 * 8)) 4
          ≡ f.mode * 64 + d % 8 * 8 + 4 % 8 =
        ap (λ c. bit_or (bit_or c (bit_and d 7 * 8)) 4) f.code
        ∙ index_mod-parts f.mode d (omega arith) hd in
      ap (λ t. read_mod_rm p (indexed_bytes t)) (bit_and-low b hb)
      ∙ mod_rm_read p f.mode _ d 4 (sib ∷ (put_offset (b % 8) offset ++ rest)) code er
      ∙ rw memory (
          sib_read p f.mode d sib k b i offset (put_offset (b % 8) offset ++ rest) rest
            (sib-parts k b i hk hb hi) f.not_bare ex eb f.reads)

  pub put_rex_indirect_with_index-Decodes :
      (o : ℕ)
      → Decodes
          (wide_prefixes b i d)
          (bit_or o 1)
          (operands d (indexed_place b i k offset) rest)
          (put_rex_indirect_with_index b i d o 0 offset (2 ^ k) ++ rest)
  unfolding put_rex_indirect_with_index indexed_bytes
  put_rex_indirect_with_index-Decodes o = record {
    rest = indexed_bytes (bit_and b 7);
    prefixes =
        wide_rex (bit_or (bit_or (bit_or 72 (bit_and b 8 / 8)) (bit_and i 8 / 4)) (bit_and d 8 / 2))
          (b / 8 + i / 8 * 2 + d / 8 * 4) (bit_or o 1) (indexed_bytes (bit_and b 7))
          (omega (arith, index_rex-parts b i d hb hi hd)) (omega arith);
    places = indexed_read (wide_prefixes b i d) (omega arith) (omega arith) (omega arith);
  }
