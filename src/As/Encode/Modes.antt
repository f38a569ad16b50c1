-- ===== src/As/Encode/Modes.antt =====
-- src/as/asm_x86.c: the operands that `put_rex2`, `put_rex_indirect` and
-- `put_rex_indirect_with_index` put are read back.
use my9cc.As.Resolve.{to_signed}
use my9cc.As.Encode.{
  RegSize, is_reg8, mod_rm, put_rex0, put_rex2, offset_code, put_offset, put_rex_indirect,
}
use my9cc.As.Encode.Bytes.{mod_rm-parts, bit_and-low}
use my9cc.As.Encode.Decode.{
  Prefixes, take_prefixes, rex_r, rex_x, rex_b, read_offset, Place, direct, based, indexed,
  Operands, read_memory, read_place, read_mod_rm,
}
use my9cc.As.Encode.ReadBack.{
  prefixes_of, put_rex0-read, rex_r-prefixes, rex_b-prefixes, rex_x-prefixes, put_offset-ReadsBack,
}
use mathlib.Core.List.{append_assoc}
use my9cc.Util.Align.{is_im32}
use my9cc.Prelude.{
  ℕ, ◌+◌, ◌*◌, ◌/◌, ◌%◌, ◌^◌, ◌<◌, ◌≡◌, true, false, ◌&&◌, some, List, [], ◌∷◌, ◌++◌, ◌==◌,
  if◌then◌else◌, arith, ◌∙◌, ap, inl, inr, Bool-cases, bit_and,
}

-- What is read behind the opcode.
abbrev pub operands : ℕ → Place → List ℕ → Operands
operands r at rest = record { reg = r; place = at; behind = rest }

-- The fields of ModRM.
pub mod_rm_read :
    (p : Prefixes) (mode m r b : ℕ) (bytes : List ℕ)
    → m ≡ mode * 64 + r % 8 * 8 + b % 8
    → rex_r p ≡ r / 8 * 8
    → read_mod_rm p (m ∷ bytes) ≡ read_place p mode r (b % 8) bytes
mod_rm_read p mode m r b bytes e hr =
    let is_mode : m / 64 ≡ mode = omega arith in
    let reg : m / 8 % 8 + rex_r p ≡ r = omega arith in
    let rm : m % 8 ≡ b % 8 = omega arith in
    ap (λ t. read_place p t (m / 8 % 8 + rex_r p) (m % 8) bytes) is_mode
    ∙ ap (λ t. read_place p mode t (m % 8) bytes) reg
    ∙ ap (λ t. read_place p mode r t bytes) rm

-- ModRM of two registers.
pub direct_read :
    (p : Prefixes) (m r d : ℕ) (rest : List ℕ)
    → m ≡ 3 * 64 + r % 8 * 8 + d % 8
    → rex_r p ≡ r / 8 * 8
    → rex_b p ≡ d / 8 * 8
    → read_mod_rm p (m ∷ rest) ≡ some (operands r (direct d) rest)
direct_read p m r d rest e hr hb =
    let place : d % 8 + rex_b p ≡ d = omega arith in
    mod_rm_read p 3 m r d rest e hr ∙ ap (λ i. some (operands r (direct i) rest)) place

-- Memory behind a base register.
pub memory_read :
    (p : Prefixes) (mode r scale index b offset : ℕ) (bytes rest : List ℕ)
    → ((mode == 0) && (b % 8 == 5)) ≡ false
    → rex_b p ≡ b / 8 * 8
    → read_offset mode bytes ≡ some (offset, rest)
    → read_memory p mode r scale index (b % 8) bytes
      ≡ some (operands r (if index == 4 then based b offset else indexed b index scale offset) rest)
memory_read p mode r scale index b offset bytes rest bare hb back =
    let base : b % 8 + rex_b p ≡ b = omega arith in
    rw (bare, back)
      (ap
        (λ i.
          some
            (operands r (if index == 4 then based i offset else indexed i index scale offset) rest))
        base)

-- The byte SIB for a base register alone, and without it.
based_read :
    (p : Prefixes) (mode r b offset : ℕ) (bytes rest : List ℕ)
    → (mode == 3) ≡ false
    → b < 16
    → ((mode == 0) && (b % 8 == 5)) ≡ false
    → rex_x p ≡ 0
    → rex_b p ≡ b / 8 * 8
    → read_offset mode bytes ≡ some (offset, rest)
    → read_place p mode r (b % 8) ((if b % 8 == 4 then 36 ∷ [] else []) ++ bytes)
      ≡ some (operands r (based b offset) rest)
based_read p mode r b offset bytes rest memory hb16 bare hx hb back =
    elim (Bool-cases (b % 8 == 4)) [
      | inl sib ↦
          let low : 4 ≡ b % 8 = ground arith in
          rw (memory, sib)
            (ap (λ i. read_memory p mode r 0 (4 + i) 4 bytes) hx
              ∙ ap (λ i. read_memory p mode r 0 4 i bytes) low
              ∙ memory_read p mode r 0 4 b offset bytes rest bare hb back)
      | inr plain ↦ rw (memory, plain) (memory_read p mode r 0 4 b offset bytes rest bare hb back)
    ]

-- The bytes read as prefixes, the opcode and the operands.
pub record Decodes (p : Prefixes) (opcode : ℕ) (o : Operands) (bytes : List ℕ) : Type 0 where
  pub rest : List ℕ
  pub prefixes : take_prefixes bytes ≡ (p, opcode ∷ rest)
  pub places : read_mod_rm p rest ≡ some o

-- No prefix has the number of the opcode.
pub record IsOpcode (o : ℕ) : Type 0 where
  pub not_data16 : (o == 102) ≡ false
  pub not_rex : (o / 16 == 4) ≡ false

pub put_rex2-Decodes :
    (size : RegSize) (s d o : ℕ) (rest : List ℕ)
    → s < 16
    → d < 16
    → IsOpcode o
    → Decodes (prefixes_of size s d) o (operands s (direct d) rest) (put_rex2 size s d o ++ rest)
unfolding put_rex2
put_rex2-Decodes size s d o rest hs hd h = record {
  rest = mod_rm 192 s d ∷ rest;
  prefixes =
      ap take_prefixes (append_assoc (put_rex0 size s d o) (mod_rm 192 s d ∷ []) rest)
      ∙ put_rex0-read size s d hs hd o (mod_rm 192 s d ∷ rest) h.not_data16 h.not_rex;
  places =
      direct_read (prefixes_of size s d) (mod_rm 192 s d) s d rest
        (mod_rm-parts 3 s d (omega arith) hs hd) (rex_r-prefixes size s d hs hd)
        (rex_b-prefixes size s d hs hd);
}

-- The bytes behind the opcode of `put_rex_indirect`.
abbrev indirect_bytes : ℕ → ℕ → ℕ → List ℕ
indirect_bytes r b offset =
    mod_rm (offset_code 0 (bit_and b 7) offset) r b
    ∷ ((if bit_and b 7 == 4 then 36 ∷ [] else []) ++ put_offset (bit_and b 7) offset)

indirect_read :
    (p : Prefixes) (r b offset : ℕ) (rest : List ℕ)
    → r < 16
    → b < 16
    → offset < 2 ^ 64
    → is_im32 (to_signed offset) ≡ true
    → rex_r p ≡ r / 8 * 8
    → rex_x p ≡ 0
    → rex_b p ≡ b / 8 * 8
    → read_mod_rm p (indirect_bytes r b offset ++ rest) ≡ some (operands r (based b offset) rest)
indirect_read p r b offset rest hr hb ho fits er ex eb =
    let f = put_offset-ReadsBack (b % 8) offset rest ho fits in
    let low = bit_and-low b hb in
    let small = f.small in
    let memory : (f.mode == 3) ≡ false = ground arith in
    let code : mod_rm (offset_code 0 (b % 8) offset) r b ≡ f.mode * 64 + r % 8 * 8 + b % 8 =
      ap (λ c. mod_rm c r b) f.code ∙ mod_rm-parts f.mode r b (omega arith) hr hb in
    let sib = if b % 8 == 4 then 36 ∷ [] else [] in
    ap
      (λ t. read_mod_rm p (
        (mod_rm (offset_code 0 t offset) r b
          ∷ ((if t == 4 then 36 ∷ [] else []) ++ put_offset t offset))
        ++ rest))
      low
    ∙ ap (λ l. read_mod_rm p (mod_rm (offset_code 0 (b % 8) offset) r b ∷ l))
        (append_assoc sib (put_offset (b % 8) offset) rest)
    ∙ mod_rm_read p f.mode (mod_rm (offset_code 0 (b % 8) offset) r b) r b
        (sib ++ (put_offset (b % 8) offset ++ rest)) code er
    ∙ based_read p f.mode r b offset (put_offset (b % 8) offset ++ rest) rest memory hb f.not_bare
        ex eb f.reads

pub put_rex_indirect-Decodes :
    (size : RegSize) (r b o offset : ℕ) (rest : List ℕ)
    → r < 16
    → b < 16
    → offset < 2 ^ 64
    → is_im32 (to_signed offset) ≡ true
    → IsOpcode (if is_reg8 size then o else (o + 1) % 256)
    → Decodes
        (prefixes_of size r b)
        (if is_reg8 size then o else (o + 1) % 256)
        (operands r (based b offset) rest)
        (put_rex_indirect size r b o 0 offset ++ rest)
unfolding put_rex_indirect
put_rex_indirect-Decodes size r b o offset rest hr hb ho fits h =
    let opcode = if is_reg8 size then o else (o + 1) % 256 in
    record {
      rest = indirect_bytes r b offset ++ rest;
      prefixes =
          ap take_prefixes
            (append_assoc (put_rex0 size r b opcode) (indirect_bytes r b offset) rest)
          ∙ put_rex0-read size r b hr hb opcode (indirect_bytes r b offset ++ rest) h.not_data16
              h.not_rex;
      places =
          indirect_read (prefixes_of size r b) r b offset rest hr hb ho fits
            (rex_r-prefixes size r b hr hb) (rex_x-prefixes size r b hr hb)
            (rex_b-prefixes size r b hr hb);
    }
