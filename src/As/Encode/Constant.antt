-- ===== src/As/Encode/Constant.antt =====
-- src/as/asm_x86.c: MOV of a constant is read back.
use my9cc.As.{put_value}
use my9cc.As.Resolve.{to_signed}
use my9cc.As.Resolve.Reaches.{sign_extend, extend_short, read_two, read_eight}
use my9cc.As.Encode.{
  RegSize, reg8, reg16, reg32, reg64, Reg, register, immediate, is_reg8, is_reg64, put_rex0,
}
use my9cc.As.Encode.Bytes.{low_register, regno}
use my9cc.As.Encode.Mov.{size_bytes, mov_immediate}
use my9cc.As.Encode.Decode.{Prefixes, rex_b, read_mod_rm}
use my9cc.As.Encode.ReadBack.{prefixes_of, put_rex0-read, rex_b-prefixes, byte_back, long_back}
use my9cc.As.Encode.Modes.{mod_rm_read, IsOpcode}
use my9cc.As.Encode.Disasm.{
  mov, reg_of, size_of, read_immediate, read_constant, arithmetic, constant_to_place, by_opcode,
  behind_prefixes, disassemble,
}
use my9cc.As.Encode.MovBack.{instruction, target_read, wide_size}
use my9cc.Util.Align.{is_im8, is_im32}
use mathlib.Core.List.{append_assoc}
use my9cc.Prelude.{
  ℕ, zero, suc, ◌+◌, ◌-◌, ◌*◌, ◌/◌, ◌%◌, ◌^◌, ◌≤◌, ◌<◌, ◌≡◌, refl, true, false, ◌&&◌, some, List,
  ◌∷◌, ◌++◌, ◌==◌, leb, if◌then◌else◌, ◌>>=◌, arith, sym, ◌∙◌, ap, inl, inr, Bool-cases, ◌⊎◌,
  length, bit_or, and_true,
}

-- A constant that a register of the size keeps as a signed number.
abbrev pub Fits : RegSize → ℕ → Type 0
Fits reg8 v = is_im8 (to_signed v) ≡ true
Fits reg16 v = (v < 2 ^ 15) ⊎ (2 ^ 64 - 2 ^ 15 ≤ v)
Fits reg32 v = is_im32 (to_signed v) ≡ true
Fits reg64 v = Unit

pub constant_back :
    (z : RegSize) (v : ℕ) (rest : List ℕ)
    → v < 2 ^ 64
    → Fits z v
    → read_immediate z (put_value v (size_bytes z) ++ rest) ≡ some (v, rest)
unfolding put_value
constant_back reg8 v rest h f = byte_back v rest h f
constant_back reg16 v rest h f =
    let room : leb 2 (suc (suc (length rest))) ≡ true = ground arith in
    rw room (
      ap (λ n. some (sign_extend (2 ^ 15) n, rest)) (read_two v h)
      ∙ ap (λ n. some (n, rest)) (extend_short v h f))
constant_back reg32 v rest h f = long_back v rest h f
constant_back reg64 v rest h f =
    let room : leb 8 (suc (suc (suc (suc (suc (suc (suc (suc (length rest))))))))) ≡ true =
      ground arith in
    let whole : v % 2 ^ 64 ≡ v = omega arith in
    rw room (ap (λ n. some (n, rest)) (read_eight v h ∙ whole))

-- An opcode from 0xb0 on is none of the others.
past_others :
    (p : Prefixes) (o : ℕ) (bs : List ℕ)
    → 176 ≤ o
    → o < 192
    → by_opcode p o bs ≡ (
        if o / 8 == 22
        then read_constant reg8 p (o % 8 + rex_b p) bs
        else if o / 8 == 23
        then read_constant (size_of p 1) p (o % 8 + rex_b p) bs
        else arithmetic p o bs)
past_others p o bs h k =
    let a : (o == 136) ≡ false = ground arith in
    let b : (o == 137) ≡ false = ground arith in
    let c : (o == 138) ≡ false = ground arith in
    let d : (o == 139) ≡ false = ground arith in
    let e : (o == 141) ≡ false = ground arith in
    let f : (o == 199) ≡ false = ground arith in rw (a, b, c, d, e, f) refl

byte_constant :
    (p : Prefixes) (n : ℕ) (bs : List ℕ)
    → n < 8
    → by_opcode p (176 + n) bs ≡ read_constant reg8 p (n + rex_b p) bs
byte_constant p n bs h =
    let high : ((176 + n) / 8 == 22) ≡ true = ground arith in
    let low : (176 + n) % 8 ≡ n = omega arith in
    past_others p (176 + n) bs (omega arith) (omega arith)
    ∙ rw high (ap (λ i. read_constant reg8 p (i + rex_b p) bs) low)

wide_constant :
    (p : Prefixes) (n : ℕ) (bs : List ℕ)
    → n < 8
    → by_opcode p (184 + n) bs ≡ read_constant (size_of p 1) p (n + rex_b p) bs
wide_constant p n bs h =
    let high : ((184 + n) / 8 == 22) ≡ false = ground arith in
    let next : ((184 + n) / 8 == 23) ≡ true = ground arith in
    let low : (184 + n) % 8 ≡ n = omega arith in
    past_others p (184 + n) bs (omega arith) (omega arith)
    ∙ rw (high, next) (ap (λ i. read_constant (size_of p 1) p (i + rex_b p) bs) low)

-- The opcodes from 0xb0 on for a byte, and from 0xb8 on.
constant_opcode :
    (z : RegSize) (p : Prefixes) (n : ℕ) (bs : List ℕ)
    → n < 8
    → by_opcode p ((if is_reg8 z then 176 else 184) + n) bs
      ≡ read_constant (if is_reg8 z then reg8 else size_of p 1) p (n + rex_b p) bs
constant_opcode reg8 p n bs h = byte_constant p n bs h
constant_opcode reg16 p n bs h = wide_constant p n bs h
constant_opcode reg32 p n bs h = wide_constant p n bs h
constant_opcode reg64 p n bs h = wide_constant p n bs h

constant_code : (z : RegSize) (n : ℕ) → n < 8 → IsOpcode ((if is_reg8 z then 176 else 184) + n)
constant_code reg8 n h = record { not_data16 = ground arith; not_rex = ground arith }
constant_code reg16 n h = record { not_data16 = ground arith; not_rex = ground arith }
constant_code reg32 n h = record { not_data16 = ground arith; not_rex = ground arith }
constant_code reg64 n h = record { not_data16 = ground arith; not_rex = ground arith }

constant_size :
    (z : RegSize) (d : ℕ) → d < 16 → (if is_reg8 z then reg8 else size_of (prefixes_of z 0 d) 1) ≡ z
constant_size reg8 d h = refl
constant_size reg16 d h = wide_size reg16 0 d 1 (omega arith) h refl refl
constant_size reg32 d h = wide_size reg32 0 d 1 (omega arith) h refl refl
constant_size reg64 d h = wide_size reg64 0 d 1 (omega arith) h refl refl

-- The value is read behind the opcode, and then the register.
constant_read :
    (z : RegSize) (n x v : ℕ) (rest : List ℕ)
    → n < 8
    → x < 2
    → v < 2 ^ 64
    → Fits z v
    → disassemble (
        (put_rex0 z 0 (n + x * 8) ((if is_reg8 z then 176 else 184) + n)
          ++ put_value v (size_bytes z))
        ++ rest)
      ≡ some (instruction mov (immediate v) (register (reg_of z (n + x * 8))) rest)
unfolding disassemble
constant_read z n x v rest hn hx hv f =
    let d = n + x * 8 in
    let o = (if is_reg8 z then 176 else 184) + n in
    let p = prefixes_of z 0 d in
    let hd : d < 16 = omega arith in
    let bytes = put_value v (size_bytes z) ++ rest in
    let code = constant_code z n hn in
    let number : n + rex_b p ≡ d = omega (arith, rex_b-prefixes z 0 d (omega arith) hd) in
    ap disassemble (append_assoc (put_rex0 z 0 d o) (put_value v (size_bytes z)) rest)
    ∙ ap (λ t. behind_prefixes (t.0) (t.1))
        (put_rex0-read z 0 d (omega arith) hd o bytes code.not_data16 code.not_rex)
    ∙ constant_opcode z p n bytes hn
    ∙ ap (λ t. read_constant t p (n + rex_b p) bytes) (constant_size z d hd)
    ∙ ap (λ t. read_constant z p t bytes) number
    ∙ rw (constant_back z v rest hv f, target_read z 0 d) refl

abbrev wide : ℕ → Prefixes
wide b = record { data16 = false; rex = some (8 + b) }

-- Behind the prefix REX with the bit B, which is 0 or 1.
long_place :
    (b n v : ℕ) (rest : List ℕ)
    → n < 8
    → b < 2
    → v < 2 ^ 64
    → is_im32 (to_signed v) ≡ true
    → (read_mod_rm (wide b) ((192 + n) ∷ (put_value v 4 ++ rest)) >>= constant_to_place (wide b))
      ≡ some (instruction mov (immediate v) (register (reg_of reg64 (n + b * 8))) rest)
long_place b n v rest hn hb hv f =
    let bytes = put_value v 4 ++ rest in
    let wide_bit : ((8 + b) / 8 == 1) ≡ true = ground arith in
    let number : n % 8 + (8 + b) % 2 * 8 ≡ n + b * 8 = omega arith in
    ap (λ m. m >>= constant_to_place (wide b))
      (mod_rm_read (wide b) 3 (192 + n) 0 n bytes (omega arith) (omega arith))
    ∙ rw (long_back v rest hv f, wide_bit)
        (ap (λ t. some (instruction mov (immediate v) (register (reg_of reg64 t)) rest)) number)

-- The opcode 0xc7 with a prefix REX: 32 bits for a register of 64.
long_read :
    (n x v : ℕ) (rest : List ℕ)
    → n < 8
    → x < 2
    → v < 2 ^ 64
    → is_im32 (to_signed v) ≡ true
    → disassemble (((if x == 0 then 72 else 73) ∷ (199 ∷ ((192 + n) ∷ put_value v 4))) ++ rest)
      ≡ some (instruction mov (immediate v) (register (reg_of reg64 (n + x * 8))) rest)
unfolding disassemble
long_read n zero v rest hn hx hv f = long_place 0 n v rest hn hx hv f
long_read n (suc zero) v rest hn hx hv f = long_place 1 n v rest hn hx hv f
long_read n (suc (suc x)) v rest hn hx hv f = absurd (omega arith)

-- The bytes of `mov_immediate`, without its masks.
abbrev plain_immediate : ℕ → Reg → List ℕ
plain_immediate v d =
    if is_reg64 d.size && is_im32 (to_signed v)
    then (if d.x == 0 then 72 else 73) ∷ (199 ∷ ((192 + d.no) ∷ put_value v 4))
    else put_rex0 d.size 0 (d.no + d.x * 8) ((if is_reg8 d.size then 176 else 184) + d.no)
      ++ put_value v (size_bytes d.size)

is_reg64-reg64 : (z : RegSize) → is_reg64 z ≡ true → z ≡ reg64
is_reg64-reg64 reg8 h = cc
is_reg64-reg64 reg16 h = cc
is_reg64-reg64 reg32 h = cc
is_reg64-reg64 reg64 h = refl

opcode_plain :
    (z : RegSize) (n : ℕ)
    → n < 8
    → bit_or (bit_or 176 (if is_reg8 z then 0 else 8)) n ≡ (if is_reg8 z then 176 else 184) + n
opcode_plain reg8 n h = (low_register n h).0
opcode_plain reg16 n h = (low_register n h).1
opcode_plain reg32 n h = (low_register n h).1
opcode_plain reg64 n h = (low_register n h).1

immediate_plain : (v : ℕ) (d : Reg) → d.no < 8 → d.x < 2 → mov_immediate v d ≡ plain_immediate v d
immediate_plain v d hn hx =
    rw (regno d.no d.x hn hx, opcode_plain d.size d.no hn, (low_register d.no hn).2) refl

pub mov_immediate-disassemble :
    (v : ℕ) (d : Reg) (rest : List ℕ)
    → d.no < 8
    → d.x < 2
    → v < 2 ^ 64
    → Fits d.size v
    → disassemble (mov_immediate v d ++ rest)
      ≡ some (instruction mov (immediate v) (register (reg_of d.size (d.no + d.x * 8))) rest)
mov_immediate-disassemble v d rest hn hx hv f =
    ap (λ l. disassemble (l ++ rest)) (immediate_plain v d hn hx)
    ∙ elim (Bool-cases (is_reg64 d.size && is_im32 (to_signed v))) [
      | inl long ↦
          let (quad, fits) = and_true (is_reg64 d.size) (is_im32 (to_signed v)) long in
          rw long (
            long_read d.no d.x v rest hn hx hv fits
            ∙ ap
                (λ z.
                  some (instruction mov (immediate v) (register (reg_of z (d.no + d.x * 8))) rest))
                (sym (is_reg64-reg64 d.size quad)))
      | inr own ↦ rw own (constant_read d.size d.no d.x v rest hn hx hv f)
    ]
