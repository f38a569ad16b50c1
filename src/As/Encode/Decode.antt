-- ===== src/As/Encode/Decode.antt =====
-- How the processor reads prefixes, the byte ModRM, the byte SIB and a displacement.
use my9cc.As.Resolve.Reaches.{read_bytes, sign_extend}
use my9cc.Prelude.{
  ℕ, ◌+◌, ◌*◌, ◌/◌, ◌%◌, ◌^◌, Bool, true, false, ◌&&◌, Option, none, some, List, [], ◌∷◌, ◌==◌, leb,
  if◌then◌else◌, length, take, drop, ◌>>=◌,
}

-- The prefix 0x66, and the low bits W, R, X and B of a prefix REX.
pub record Prefixes : Type 0 where
  pub data16 : Bool
  pub rex : Option ℕ

abbrev pub take_rex : Bool → List ℕ → Prefixes × List ℕ
take_rex data16 [] = (record { data16 = data16; rex = none }, [])
take_rex data16 (b ∷ bs) =
    if b / 16 == 4
    then (record { data16 = data16; rex = some (b % 16) }, bs)
    else (record { data16 = data16; rex = none }, b ∷ bs)

abbrev pub take_prefixes : List ℕ → Prefixes × List ℕ
take_prefixes [] = take_rex false []
take_prefixes (b ∷ bs) = if b == 102 then take_rex true bs else take_rex false (b ∷ bs)

abbrev pub rex_bits : Option ℕ → ℕ
rex_bits none = 0
rex_bits (some n) = n

-- The bits, times 8, that go in front of the fields of ModRM and SIB.
abbrev pub rex_r : Prefixes → ℕ
rex_r p = rex_bits p.rex / 4 % 2 * 8

abbrev pub rex_x : Prefixes → ℕ
rex_x p = rex_bits p.rex / 2 % 2 * 8

abbrev pub rex_b : Prefixes → ℕ
rex_b p = rex_bits p.rex % 2 * 8

abbrev pub rex_w : Prefixes → Bool
rex_w p = rex_bits p.rex / 8 == 1

-- A displacement of the width that the field Mod chooses, as a pattern of 64 bits.
abbrev pub read_offset : ℕ → List ℕ → Option (ℕ × List ℕ)
read_offset mode bs =
    if mode == 0
    then some (0, bs)
    else let size = if mode == 1 then 1 else 4 in
      if leb size (length bs)
      then some (
        sign_extend (if mode == 1 then 2 ^ 7 else 2 ^ 31) (read_bytes (take size bs)),
        drop size bs,
      )
      else none

-- What ModRM names besides a register: a register, or memory behind a base register, with an index
-- register and the logarithm of its scale or without.
pub data Place : Type 0 where
  direct : ℕ → Place
  based : ℕ → ℕ → Place
  indexed : ℕ → ℕ → ℕ → ℕ → Place

-- The register number, the place, and the bytes behind.
pub record Operands : Type 0 where
  pub reg : ℕ
  pub place : Place
  pub behind : List ℕ

-- By Mod, the register, and the fields of SIB: the scale, the index and the base.
abbrev pub read_memory : Prefixes → ℕ → ℕ → ℕ → ℕ → ℕ → List ℕ → Option Operands
read_memory p mode reg scale index base bs =
    if (mode == 0) && (base == 5)
    then none
    else read_offset mode bs >>= λ r. some (record {
      reg = reg;
      place =
          if index == 4
          then based (base + rex_b p) (r.0)
          else indexed (base + rex_b p) index scale (r.0);
      behind = r.1;
    })

abbrev pub read_sib : Prefixes → ℕ → ℕ → List ℕ → Option Operands
read_sib p mode reg [] = none
read_sib p mode reg (s ∷ bs) = read_memory p mode reg (s / 64) (s / 8 % 8 + rex_x p) (s % 8) bs

-- By the fields of ModRM. `none` is memory without a base register, or relative to RIP.
abbrev pub read_place : Prefixes → ℕ → ℕ → ℕ → List ℕ → Option Operands
read_place p mode reg rm bs =
    if mode == 3
    then some (record { reg = reg; place = direct (rm + rex_b p); behind = bs })
    else if rm == 4
    then read_sib p mode reg bs
    else read_memory p mode reg 0 4 rm bs

abbrev pub read_mod_rm : Prefixes → List ℕ → Option Operands
read_mod_rm p [] = none
read_mod_rm p (m ∷ bs) = read_place p (m / 64) (m / 8 % 8 + rex_r p) (m % 8) bs
