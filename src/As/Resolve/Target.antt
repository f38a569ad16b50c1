-- ===== src/As/Resolve/Target.antt =====
-- src/as/ir_asm.c: what the processor reads in a direct jump.
-- The processor reads a jump from its bytes alone, by the opcodes in the manuals: 0xeb and 0xe9, the
-- sixteen from 0x70, and behind 0x0f the sixteen from 0x80.
use my9cc.As.{Code, put_value, write_at}
use my9cc.As.Resolve.{to_signed, long_opcode}
use my9cc.As.Resolve.Reaches.{read_bytes, sign_extend, long_bytes, short_bytes}
use my9cc.Ir.Word.{word_add}
use my9cc.Util.Align.{is_im8, is_im32}
use my9cc.Prelude.{
  ℕ, ◌+◌, ◌/◌, ◌%◌, ◌^◌, ◌<◌, ◌≡◌, Bool, true, false, Option, none, some, List, [], ◌∷◌, ◌++◌, ◌==◌,
  take, length, if◌then◌else◌, arith, ap,
}

-- A jump of `len` bytes at `address`, with its condition, and where it leads.
abbrev pub near_jump : Option ℕ → ℕ → List ℕ → Option (Option ℕ × ℕ)
near_jump cond address bytes =
    some (cond, word_add (word_add address 2) (sign_extend (2 ^ 7) (read_bytes (take 1 bytes))))

abbrev pub far_jump : Option ℕ → ℕ → ℕ → List ℕ → Option (Option ℕ × ℕ)
far_jump cond len address bytes =
    some (cond, word_add (word_add address len) (sign_extend (2 ^ 31) (read_bytes (take 4 bytes))))

-- Behind the byte 0x0f.
pub second_byte : ℕ → List ℕ → Option (Option ℕ × ℕ)
second_byte address [] = none
second_byte address (b ∷ bs) = if b / 16 == 8 then far_jump (some (b % 16)) 6 address bs else none

-- The jump that the processor reads; `none` is another instruction.
pub target : ℕ → List ℕ → Option (Option ℕ × ℕ)
target address [] = none
target address (b ∷ bs) =
    if b == 235
    then near_jump none address bs
    else if b == 233
    then far_jump none 5 address bs
    else if b / 16 == 7
    then near_jump (some (b % 16)) address bs
    else if b == 15
    then second_byte address bs
    else none

-- The opcode by the length of the offset and the condition, and the length of the instruction.
abbrev pub opcode : Bool → Option ℕ → List ℕ
opcode false none = 235 ∷ []
opcode false (some c) = (112 + c) ∷ []
opcode true none = 233 ∷ []
opcode true (some c) = 15 ∷ ((128 + c) ∷ [])

abbrev pub jump_length : Bool → Option ℕ → ℕ
jump_length false cond = 2
jump_length true none = 5
jump_length true (some c) = 6

abbrev pub IsCondition : Option ℕ → Type 0
IsCondition none = Unit
IsCondition (some c) = c < 16

-- The code is a jump: its opcode is that of its flag, in the 14 bytes of the buffer.
pub record IsJump (cond : Option ℕ) (code : Code) : Type 0 where
  pub rest : List ℕ
  pub whole : code.buf ≡ opcode code.flag cond ++ rest
  pub room : length (opcode code.flag cond) + length rest ≡ 14
  pub size : code.len ≡ jump_length code.flag cond

pub far_target :
    (cond : Option ℕ) (address d : ℕ) (rest : List ℕ)
    → IsCondition cond
    → d < 2 ^ 64
    → is_im32 (to_signed d) ≡ true
    → target address
        (write_at (length (long_opcode cond)) (put_value d 4) (opcode true cond ++ rest))
      ≡ some (cond, word_add (word_add address (jump_length true cond)) d)
unfolding target second_byte put_value
far_target none address d rest h hd near =
    ap (λ (t : ℕ). some (none, word_add (word_add address 5) t))
      (long_bytes d 1 (233 ∷ rest) hd (omega arith) near)
far_target (some c) address d rest h hd near =
    let high : ((128 + c) / 16 == 8) ≡ true = ground arith in
    let low : (128 + c) % 16 ≡ c = omega arith in
    rw (high, low)
      (ap (λ (t : ℕ). some (some c, word_add (word_add address 6) t))
        (long_bytes d 2 (15 ∷ ((128 + c) ∷ rest)) hd (omega arith) near))

pub near_target :
    (cond : Option ℕ) (address d : ℕ) (rest : List ℕ)
    → IsCondition cond
    → d < 2 ^ 64
    → is_im8 (to_signed d) ≡ true
    → target address (write_at 1 (put_value d 1) (opcode false cond ++ rest))
      ≡ some (cond, word_add (word_add address 2) d)
unfolding target put_value
near_target none address d rest h hd near =
    ap (λ (t : ℕ). some (none, word_add (word_add address 2) t))
      (short_bytes d 1 (235 ∷ rest) hd (omega arith) near)
near_target (some c) address d rest h hd near =
    let one : (112 + c == 235) ≡ false = ground arith in
    let two : (112 + c == 233) ≡ false = ground arith in
    let high : ((112 + c) / 16 == 7) ≡ true = ground arith in
    let low : (112 + c) % 16 ≡ c = omega arith in
    rw (one, two, high, low)
      (ap (λ (t : ℕ). some (some c, word_add (word_add address 2) t))
        (short_bytes d 1 ((112 + c) ∷ rest) hd (omega arith) near))
