-- ===== src/As/Encode/Arith.antt =====
-- src/as/asm_x86.c: shifts, one operand, and a constant for %al and its like are read back.
use my9cc.As.Encode.{RegSize, Operand, register, immediate, noperand, is_reg8, put_rex0, put_rex1}
use my9cc.As.Encode.Inst.{
  Alu, add, or_, and_, sub, xor, cmp, Shift, shl, shr, sar, Unary, mul, div, idiv, neg, not_, inc,
  dec, alu, shift, unary, regs_opcode, acc_opcode, shift_prefix, put_constant,
}
use my9cc.As.Encode.Decode.{Prefixes, read_mod_rm}
use my9cc.As.Encode.ReadBack.{prefixes_of, put_rex0-read}
use my9cc.As.Encode.Modes.{IsOpcode}
use my9cc.As.Encode.Disasm.{
  inst, reg_of, read_reg, size_of, shift_of, read_short, constant_and, shift_group, unary_group,
  unary_of, step_of, count_byte, count_one, count_cl, by_opcode, behind_prefixes, disassemble,
}
use my9cc.As.Encode.Group.{group_read, ShortFits, short_back}
use my9cc.As.Encode.MovBack.{instruction, target_read, sized}
use mathlib.Core.List.{append_assoc}
use my9cc.Prelude.{
  ℕ, ◌+◌, ◌*◌, ◌%◌, ◌^◌, ◌<◌, ◌≡◌, refl, Bool, true, false, Option, some, List, ◌++◌, ◌==◌,
  if◌then◌else◌, ◌>>=◌, arith, ◌∙◌, ap, inl, ◌≤◌, ◌⊎◌,
}

abbrev pub shift_code : Shift → ℕ
shift_code shl = 4
shift_code shr = 5
shift_code sar = 7

shift_known :
    (k : Shift)
    → (shift_of (shift_code k % 8) ≡ some k)
      × (shift_code k < 8)
      × (shift_prefix k ≡ 192 + shift_code k * 8)
shift_known shl = (refl, omega arith, refl)
shift_known shr = (refl, omega arith, refl)
shift_known sar = (refl, omega arith, refl)

-- A shift, by what its opcode reads as the count.
pub shift_group_read :
    (z : RegSize) (k : Shift) (n o : ℕ) (c : Operand) (bytes rest : List ℕ)
    (count : List ℕ → Option (Operand × List ℕ))
    → n < 16
    → IsOpcode o
    → ((bs : List ℕ)
        → by_opcode (prefixes_of z 0 n) o bs
          ≡ (read_mod_rm (prefixes_of z 0 n) bs >>= shift_group (prefixes_of z 0 n) o count))
    → size_of (prefixes_of z 0 n) o ≡ z
    → count (bytes ++ rest) ≡ some (c, rest)
    → disassemble (put_rex1 z (shift_prefix k) n o ++ (bytes ++ rest))
      ≡ some (instruction (inst (shift k)) c (register (reg_of z n)) rest)
shift_group_read z k n o c bytes rest count hn h form size back =
    let (known, small, code) = shift_known k in
    let p = prefixes_of z 0 n in
    let result =
      λ (w : RegSize). read_reg w p n >>= λ d. some (instruction (inst (shift k)) c d rest) in
    ap (λ t. disassemble (put_rex1 z t n o ++ (bytes ++ rest))) code
    ∙ group_read z (shift_code k) n o (bytes ++ rest) (shift_group p o count) _ small hn h form
        (rw (known, back) (ap result size ∙ rw (target_read z 0 n) refl))

-- The opcodes for bytes and for the other sizes.
pub shift_forms :
    (b : Bool) (p : Prefixes) (bs : List ℕ)
    → (by_opcode p (if b then 192 else 192 + 1) bs
        ≡ (read_mod_rm p bs >>= shift_group p (if b then 192 else 192 + 1) count_byte))
      × (by_opcode p (if b then 208 else 208 + 1) bs
          ≡ (read_mod_rm p bs >>= shift_group p (if b then 208 else 208 + 1) count_one))
      × (by_opcode p (if b then 210 else 210 + 1) bs
          ≡ (read_mod_rm p bs >>= shift_group p (if b then 210 else 210 + 1) count_cl))
shift_forms true p bs = (refl, refl, refl)
shift_forms false p bs = (refl, refl, refl)

-- Opcodes outside the prefixes.
pub sized-IsOpcode : (b : Bool) (o : ℕ) → (o < 63) ⊎ ((103 ≤ o)) → IsOpcode (if b then o else o + 1)
sized-IsOpcode true o h = record { not_data16 = ground arith; not_rex = ground arith }
sized-IsOpcode false o h = record { not_data16 = ground arith; not_rex = ground arith }

abbrev pub unary_code : Unary → ℕ
unary_code mul = 4
unary_code div = 6
unary_code idiv = 7
unary_code neg = 3
unary_code not_ = 2
unary_code inc = 0
unary_code dec = 1

abbrev pub unary_table : Unary → ℕ → Option Unary
unary_table inc n = step_of n
unary_table dec n = step_of n
unary_table u n = unary_of n

unary_known : (u : Unary) → (unary_table u (unary_code u % 8) ≡ some u) × (unary_code u < 8)
unary_known mul = (refl, omega arith)
unary_known div = (refl, omega arith)
unary_known idiv = (refl, omega arith)
unary_known neg = (refl, omega arith)
unary_known not_ = (refl, omega arith)
unary_known inc = (refl, omega arith)
unary_known dec = (refl, omega arith)

-- In the size `w` that the opcode stands for.
pub unary_group_read :
    (z w : RegSize) (u : Unary) (n o : ℕ) (rest : List ℕ)
    → n < 16
    → IsOpcode o
    → ((bs : List ℕ)
        → by_opcode (prefixes_of z 0 n) o bs ≡ (
            read_mod_rm (prefixes_of z 0 n) bs
            >>= unary_group (prefixes_of z 0 n) o (unary_table u)))
    → size_of (prefixes_of z 0 n) o ≡ w
    → read_reg w (prefixes_of z 0 n) n ≡ some (register (reg_of w n))
    → disassemble (put_rex1 z (192 + unary_code u * 8) n o ++ rest)
      ≡ some (instruction (inst (unary u)) (register (reg_of w n)) noperand rest)
unary_group_read z w u n o rest hn h form size reg =
    let (known, small) = unary_known u in
    let p = prefixes_of z 0 n in
    let result = λ (t : RegSize).
      read_reg t p n >>= λ d. some (instruction (inst (unary u)) d noperand rest) in
    group_read z (unary_code u) n o rest (unary_group p o (unary_table u)) _ small hn h form
      (rw known (ap result size ∙ rw reg refl))

-- A constant for %al, %ax, %eax or %rax.
acc_form :
    (a : Alu) (b : Bool) (p : Prefixes) (bs : List ℕ)
    → by_opcode p (if b then acc_opcode a else acc_opcode a + 1) bs ≡ (
        let z = size_of p (if b then acc_opcode a else acc_opcode a + 1) in
        constant_and (inst (alu a)) (some (register (reg_of z 0))) (read_short z bs))
acc_form add true p bs = refl
acc_form add false p bs = refl
acc_form or_ true p bs = refl
acc_form or_ false p bs = refl
acc_form and_ true p bs = refl
acc_form and_ false p bs = refl
acc_form sub true p bs = refl
acc_form sub false p bs = refl
acc_form xor true p bs = refl
acc_form xor false p bs = refl
acc_form cmp true p bs = refl
acc_form cmp false p bs = refl

pub opcode_bounds :
    (a : Alu)
    → (acc_opcode a < 63)
      × (regs_opcode a < 63)
      × ((acc_opcode a % 2 == 0) ≡ true)
      × ((regs_opcode a % 2 == 0) ≡ true)
opcode_bounds add = (omega arith, omega arith, refl, refl)
opcode_bounds or_ = (omega arith, omega arith, refl, refl)
opcode_bounds and_ = (omega arith, omega arith, refl, refl)
opcode_bounds sub = (omega arith, omega arith, refl, refl)
opcode_bounds xor = (omega arith, omega arith, refl, refl)
opcode_bounds cmp = (omega arith, omega arith, refl, refl)

pub acc_read :
    (z : RegSize) (a : Alu) (v : ℕ) (rest : List ℕ)
    → v < 2 ^ 64
    → ShortFits z v
    → disassemble (
        (put_rex0 z 0 0 (if is_reg8 z then acc_opcode a else acc_opcode a + 1) ++ put_constant z v)
        ++ rest)
      ≡ some (instruction (inst (alu a)) (immediate v) (register (reg_of z 0)) rest)
unfolding disassemble
acc_read z a v rest hv f =
    let p = prefixes_of z 0 0 in
    let o = if is_reg8 z then acc_opcode a else acc_opcode a + 1 in
    let bytes = put_constant z v ++ rest in
    let (low, _, even, _) = opcode_bounds a in
    let code = sized-IsOpcode (is_reg8 z) (acc_opcode a) (inl low) in
    ap disassemble (append_assoc (put_rex0 z 0 0 o) (put_constant z v) rest)
    ∙ ap (λ t. behind_prefixes (t.0) (t.1))
        (put_rex0-read z 0 0 (omega arith) (omega arith) o bytes code.not_data16 code.not_rex)
    ∙ acc_form a (is_reg8 z) p bytes
    ∙ ap (λ t. constant_and (inst (alu a)) (some (register (reg_of t 0))) (read_short t bytes))
        (sized z 0 0 (acc_opcode a) (omega arith) (omega arith) even)
    ∙ rw (short_back z v rest hv f) refl
