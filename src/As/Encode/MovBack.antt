-- ===== src/As/Encode/MovBack.antt =====
-- src/as/asm_x86.c: the bytes of `assemble_mov` and of LEA are read back as the instruction.
use my9cc.As.Expr.{ex_fixnum}
use my9cc.As.Resolve.{to_signed}
use my9cc.As.Encode.{
  RegSize, reg8, reg16, reg32, reg64, general, Operand, register, indirect, is_reg8, needs_rex,
  put_rex2, put_rex_indirect,
}
use my9cc.As.Encode.Decode.{Prefixes, direct, based, Operands, read_mod_rm}
use my9cc.As.Encode.ReadBack.{prefixes_of, rex_w-prefixes}
use my9cc.As.Encode.Modes.{operands, Decodes, IsOpcode, put_rex2-Decodes, put_rex_indirect-Decodes}
use my9cc.As.Encode.Disasm.{
  Mnemonic, mov, Disassembled, reg_of, read_reg, size_of, to_place, from_place, by_opcode,
  behind_prefixes, disassemble,
}
use my9cc.Util.Align.{is_im32}
use my9cc.Prelude.{
  ℕ, ◌+◌, ◌%◌, ◌^◌, ◌<◌, ◌≡◌, refl, true, false, ◌&&◌, some, List, ◌++◌, ◌==◌, leb, if◌then◌else◌,
  ◌>>=◌, arith, ◌∙◌, ap, inl, inr, Bool-cases,
}

abbrev pub instruction : Mnemonic → Operand → Operand → List ℕ → Disassembled
instruction m s d rest = record { mnemonic = m; src = s; dst = d; behind = rest }

pub disassemble-Decodes :
    (p : Prefixes) (o : ℕ) (ops : Operands) (bytes : List ℕ)
    → (d : Decodes p o ops bytes) → disassemble bytes ≡ by_opcode p o d.rest
unfolding disassemble
disassemble-Decodes p o ops bytes d = ap (λ t. behind_prefixes (t.0) (t.1)) d.prefixes

-- Without a prefix REX the registers of a byte are below 4.
low_registers :
    (size : RegSize) (s d : ℕ)
    → needs_rex size s d ≡ false
    → ((is_reg8 size && leb 4 s) ≡ false) × ((is_reg8 size && leb 4 d) ≡ false)
low_registers reg8 s d h = (ground arith, ground arith)
low_registers reg16 s d h = (refl, refl)
low_registers reg32 s d h = (refl, refl)
low_registers reg64 s d h = (refl, refl)

module _ (size : RegSize) (s d : ℕ) where
  pub source_read : read_reg size (prefixes_of size s d) s ≡ some (register (reg_of size s))
  source_read = elim (Bool-cases (needs_rex size s d)) [
    | inl need ↦ rw need refl
    | inr plain ↦ let low = low_registers size s d plain in rw (plain, low.0) refl
  ]

  pub target_read : read_reg size (prefixes_of size s d) d ≡ some (register (reg_of size d))
  target_read = elim (Bool-cases (needs_rex size s d)) [
    | inl need ↦ rw need refl
    | inr plain ↦ let low = low_registers size s d plain in rw (plain, low.1) refl
  ]

-- The odd opcode of a size other than that of bytes.
pub wide_size :
    (size : RegSize) (s d o : ℕ)
    → s < 16
    → d < 16
    → is_reg8 size ≡ false
    → (o % 2 == 0) ≡ false
    → size_of (prefixes_of size s d) o ≡ size
wide_size reg8 s d o hs hd e odd = cc
wide_size reg16 s d o hs hd e odd = rw (odd, rex_w-prefixes reg16 s d hs hd) refl
wide_size reg32 s d o hs hd e odd = rw (odd, rex_w-prefixes reg32 s d hs hd) refl
wide_size reg64 s d o hs hd e odd = rw (odd, rex_w-prefixes reg64 s d hs hd) refl

-- The opcode for a size: that of bytes, or the next one.
pub sized :
    (size : RegSize) (s d o : ℕ)
    → s < 16
    → d < 16
    → (o % 2 == 0) ≡ true
    → size_of (prefixes_of size s d) (if is_reg8 size then o else o + 1) ≡ size
sized reg8 s d o hs hd even = rw even refl
sized reg16 s d o hs hd even = wide_size reg16 s d (o + 1) hs hd refl (ground arith)
sized reg32 s d o hs hd even = wide_size reg32 s d (o + 1) hs hd refl (ground arith)
sized reg64 s d o hs hd even = wide_size reg64 s d (o + 1) hs hd refl (ground arith)

-- The opcodes of MOV and LEA in the table of opcodes.
store_opcode :
    (z : RegSize) (p : Prefixes) (bs : List ℕ)
    → by_opcode p (if is_reg8 z then 136 else 137) bs
      ≡ (read_mod_rm p bs >>= to_place mov (size_of p (if is_reg8 z then 136 else 137)) p)
store_opcode reg8 p bs = refl
store_opcode reg16 p bs = refl
store_opcode reg32 p bs = refl
store_opcode reg64 p bs = refl

load_opcode :
    (z : RegSize) (p : Prefixes) (bs : List ℕ)
    → by_opcode p (if is_reg8 z then 138 else 139) bs
      ≡ (read_mod_rm p bs >>= from_place mov (size_of p (if is_reg8 z then 138 else 139)) p)
load_opcode reg8 p bs = refl
load_opcode reg16 p bs = refl
load_opcode reg32 p bs = refl
load_opcode reg64 p bs = refl

store-IsOpcode : (z : RegSize) → IsOpcode (if is_reg8 z then 136 else 137)
store-IsOpcode reg8 = record { not_data16 = refl; not_rex = refl }
store-IsOpcode reg16 = record { not_data16 = refl; not_rex = refl }
store-IsOpcode reg32 = record { not_data16 = refl; not_rex = refl }
store-IsOpcode reg64 = record { not_data16 = refl; not_rex = refl }

load-IsOpcode : (z : RegSize) → IsOpcode (if is_reg8 z then 138 else 139)
load-IsOpcode reg8 = record { not_data16 = refl; not_rex = refl }
load-IsOpcode reg16 = record { not_data16 = refl; not_rex = refl }
load-IsOpcode reg32 = record { not_data16 = refl; not_rex = refl }
load-IsOpcode reg64 = record { not_data16 = refl; not_rex = refl }

-- A store and a load, by what is read behind the prefixes.
store_read :
    (z : RegSize) (s d : ℕ) (ops : Operands) (bytes : List ℕ) (r : Disassembled)
    → s < 16
    → d < 16
    → Decodes (prefixes_of z s d) (if is_reg8 z then 136 else 137) ops bytes
    → to_place mov z (prefixes_of z s d) ops ≡ some r
    → disassemble bytes ≡ some r
store_read z s d ops bytes r hs hd h e =
    let p = prefixes_of z s d in
    let o = if is_reg8 z then 136 else 137 in
    disassemble-Decodes p o ops bytes h
    ∙ store_opcode z p h.rest
    ∙ ap (λ m. m >>= to_place mov (size_of p o) p) h.places
    ∙ ap (λ t. to_place mov t p ops) (sized z s d 136 hs hd refl)
    ∙ e

load_read :
    (z : RegSize) (s d : ℕ) (ops : Operands) (bytes : List ℕ) (r : Disassembled)
    → s < 16
    → d < 16
    → Decodes (prefixes_of z s d) (if is_reg8 z then 138 else 139) ops bytes
    → from_place mov z (prefixes_of z s d) ops ≡ some r
    → disassemble bytes ≡ some r
load_read z s d ops bytes r hs hd h e =
    let p = prefixes_of z s d in
    let o = if is_reg8 z then 138 else 139 in
    disassemble-Decodes p o ops bytes h
    ∙ load_opcode z p h.rest
    ∙ ap (λ m. m >>= from_place mov (size_of p o) p) h.places
    ∙ ap (λ t. from_place mov t p ops) (sized z s d 138 hs hd refl)
    ∙ e

-- Between registers.
pub put_rex2-disassemble :
    (z : RegSize) (s d : ℕ) (rest : List ℕ)
    → s < 16
    → d < 16
    → disassemble (put_rex2 z s d (if is_reg8 z then 136 else 137) ++ rest)
      ≡ some (instruction mov (register (reg_of z s)) (register (reg_of z d)) rest)
put_rex2-disassemble z s d rest hs hd =
    store_read z s d (operands s (direct d) rest) _ _ hs hd
      (put_rex2-Decodes z s d (if is_reg8 z then 136 else 137) rest hs hd (store-IsOpcode z))
      (rw (source_read z s d, target_read z s d) refl)

abbrev pub memory : ℕ → ℕ → Operand
memory b offset = indirect (ex_fixnum offset) (general (reg_of reg64 b))

module _ (z : RegSize) (r b offset : ℕ) (rest : List ℕ) (hr : r < 16) (hb : b < 16)
    (ho : offset < 2 ^ 64) (fits : is_im32 (to_signed offset) ≡ true) where
  pub store-disassemble :
      disassemble (put_rex_indirect z r b 136 0 offset ++ rest)
      ≡ some (instruction mov (register (reg_of z r)) (memory b offset) rest)
  store-disassemble =
      store_read z r b (operands r (based b offset) rest) _ _ hr hb
        (put_rex_indirect-Decodes z r b 136 offset rest hr hb ho fits (store-IsOpcode z))
        (rw (source_read z r b) refl)

  pub load-disassemble :
      disassemble (put_rex_indirect z r b 138 0 offset ++ rest)
      ≡ some (instruction mov (memory b offset) (register (reg_of z r)) rest)
  load-disassemble =
      load_read z r b (operands r (based b offset) rest) _ _ hr hb
        (put_rex_indirect-Decodes z r b 138 offset rest hr hb ho fits (load-IsOpcode z))
        (rw (source_read z r b) refl)
