-- ===== src/Prelude/Bits.antt =====
-- `bit_and` with the mask that clears the low `k` bits of a word.
use Prim.Native.Nat.{
  ℕ, zero, suc, ◌+◌, ◌-◌, ◌*◌, ◌/◌, ◌%◌, ◌^◌, ◌≤◌, ◌<◌, min, max, bit_and, bit_or, bit_xor, digits,
  differ, bit_and-bitwise, bit_or-bitwise, bit_xor-bitwise,
}
use mathlib.Core.Path.{◌≡◌, refl, ap, sym, ◌∙◌}
use native.Mathlib.Nat.{
  pow-suc, one-le-pow, mod-lt, add-zero, add-suc, div-lt_iff_lt-mul, div-add-mod',
}
use native.Mathlib.Omega.{arith}

digits-zero : (n b : ℕ) → digits (λ c. zero) min n zero b ≡ 0
digits-zero zero b = refl
digits-zero (suc n) b = refl

-- The fuel of the digit recursion does not matter once it is enough.
digits_enough :
    (n m a b : ℕ) → a ≤ n → a ≤ m → digits (λ c. zero) min n a b ≡ digits (λ c. zero) min m a b
digits_enough n m zero b p q = digits-zero n b ∙ sym (digits-zero m b)
digits_enough zero m (suc a) b p q = absurd (omega arith)
digits_enough (suc n) zero (suc a) b p q = absurd (omega arith)
digits_enough (suc n) (suc m) (suc a) b p q =
    omega (arith, digits_enough n m (suc a / 2) (b / 2) (omega arith) (omega arith))

pub zero-bit_and : (b : ℕ) → bit_and 0 b ≡ 0
zero-bit_and b = bit_and-bitwise 0 b

pub zero-bit_or : (b : ℕ) → bit_or 0 b ≡ b
zero-bit_or b = bit_or-bitwise 0 b

pub zero-bit_xor : (b : ℕ) → bit_xor 0 b ≡ b
zero-bit_xor b = bit_xor-bitwise 0 b

differ-zero : (x : ℕ) → differ x 0 ≡ x
differ-zero zero = refl
differ-zero (suc x) = refl

or_zero_fuel : (n a : ℕ) → a ≤ n → digits (λ c. c) max n a 0 ≡ a
or_zero_fuel zero zero h = refl
or_zero_fuel (suc n) zero h = refl
or_zero_fuel zero (suc a) h = absurd (omega arith)
or_zero_fuel (suc n) (suc a) h = omega (arith, or_zero_fuel n (suc a / 2) (omega arith))

xor_zero_fuel : (n a : ℕ) → a ≤ n → digits (λ c. c) differ n a 0 ≡ a
xor_zero_fuel zero zero h = refl
xor_zero_fuel (suc n) zero h = refl
xor_zero_fuel zero (suc a) h = absurd (omega arith)
xor_zero_fuel (suc n) (suc a) h =
    omega (arith, xor_zero_fuel n (suc a / 2) (omega arith), differ-zero (suc a % 2))

and_zero_fuel : (n a : ℕ) → digits (λ c. 0) min n a 0 ≡ 0
and_zero_fuel zero a = refl
and_zero_fuel (suc n) zero = refl
and_zero_fuel (suc n) (suc a) = omega (arith, and_zero_fuel n (suc a / 2))

pub bit_or-zero : (a : ℕ) → bit_or a 0 ≡ a
bit_or-zero a = bit_or-bitwise a 0 ∙ or_zero_fuel a a (omega arith)

pub bit_xor-zero : (a : ℕ) → bit_xor a 0 ≡ a
bit_xor-zero a = bit_xor-bitwise a 0 ∙ xor_zero_fuel a a (omega arith)

pub bit_and-zero : (a : ℕ) → bit_and a 0 ≡ 0
bit_and-zero a = bit_and-bitwise a 0 ∙ and_zero_fuel a a

-- One binary digit at a time.
pub bit_and-halves : (a b : ℕ) → bit_and a b ≡ bit_and (a / 2) (b / 2) * 2 + min (a % 2) (b % 2)
bit_and-halves zero b = omega (arith, zero-bit_and b, zero-bit_and (b / 2))
bit_and-halves (suc a) b = omega (
  arith,
  bit_and-bitwise (suc a) b,
  bit_and-bitwise (suc a / 2) (b / 2),
  digits_enough a (suc a / 2) (suc a / 2) (b / 2) (omega arith) (omega arith),
)

-- A mask of ones keeps every number that fits.
bit_and-ones : (j x : ℕ) → x < 2 ^ j → bit_and x (2 ^ j - 1) ≡ x
bit_and-ones zero zero h = refl
bit_and-ones zero (suc x) h = absurd (omega arith)
bit_and-ones (suc j) x h =
    let low : 2 ^ suc j ≡ 2 ^ j * 2 = pow-suc 2 j in
    let positive : 1 ≤ 2 ^ j = one-le-pow j 2 (omega arith) in
    let halved : (2 ^ suc j - 1) / 2 ≡ 2 ^ j - 1 = omega arith in
    let rest : bit_and (x / 2) ((2 ^ suc j - 1) / 2) ≡ x / 2 =
      rw halved (bit_and-ones j (x / 2) (omega arith)) in
    omega (arith, bit_and-halves x (2 ^ suc j - 1))

times_pow-suc : (q k : ℕ) → q * 2 ^ suc k ≡ 2 * (q * 2 ^ k)
times_pow-suc q k = omega (arith, ap (λ (t : ℕ). q * t) (pow-suc 2 k))

-- Ones above, `k` zeros below.
bit_and-high :
    (k j q r : ℕ)
    → q < 2 ^ j
    → r < 2 ^ k
    → bit_and (q * 2 ^ k + r) ((2 ^ j - 1) * 2 ^ k) ≡ q * 2 ^ k
bit_and-high zero j q r hq hr =
    let e : q * 1 + r ≡ q = omega arith in
    let f : (2 ^ j - 1) * 1 ≡ 2 ^ j - 1 = omega arith in
    rw (e, f) (bit_and-ones j q hq ∙ omega arith)
bit_and-high (suc k) j q r hq hr =
    let low : 2 ^ suc k ≡ 2 ^ k * 2 = pow-suc 2 k in
    let e : (q * 2 ^ suc k + r) / 2 ≡ q * 2 ^ k + r / 2 = omega (arith, times_pow-suc q k) in
    let f : ((2 ^ j - 1) * 2 ^ suc k) / 2 ≡ (2 ^ j - 1) * 2 ^ k =
      omega (arith, times_pow-suc (2 ^ j - 1) k) in
    let rest : bit_and ((q * 2 ^ suc k + r) / 2) (((2 ^ j - 1) * 2 ^ suc k) / 2) ≡ q * 2 ^ k =
      rw (e, f) (bit_and-high k j q (r / 2) hq (omega arith)) in
    omega (
      arith,
      bit_and-halves (q * 2 ^ suc k + r) ((2 ^ j - 1) * 2 ^ suc k),
      times_pow-suc q k,
      times_pow-suc (2 ^ j - 1) k,
    )

pub pow-add : (j k : ℕ) → 2 ^ (j + k) ≡ 2 ^ j * 2 ^ k
pow-add j zero = rw add-zero (omega arith)
pow-add j (suc k) =
    rw add-suc (omega (arith, pow-suc 2 (j + k), times_pow-suc (2 ^ j) k, pow-add j k))

clear_one : (a b : ℕ) → 1 ≤ a → a * b - b ≡ (a - 1) * b
clear_one a b h = let e : a ≡ (a - 1) + 1 = omega arith in omega (arith, ap (λ (t : ℕ). t * b) e)

-- The mask `2 ^ w - 2 ^ k`, which is `-(2 ^ k)` in `w` bits, rounds down to a multiple of 2 ^ k.
pub bit_and-negated_power :
    (j k x : ℕ) → x < 2 ^ (j + k) → bit_and x (2 ^ (j + k) - 2 ^ k) ≡ x / 2 ^ k * 2 ^ k
bit_and-negated_power j k x h =
    let above : 1 ≤ 2 ^ j = one-le-pow j 2 (omega arith) in
    let positive : 1 ≤ 2 ^ k = one-le-pow k 2 (omega arith) in
    let wide : 2 ^ (j + k) ≡ 2 ^ j * 2 ^ k = pow-add j k in
    let mask : 2 ^ (j + k) - 2 ^ k ≡ (2 ^ j - 1) * 2 ^ k =
      omega (arith, clear_one (2 ^ j) (2 ^ k) above) in
    let fits : x / 2 ^ k < 2 ^ j = (div-lt_iff_lt-mul positive).1 (omega arith) in
    let e = bit_and-high k j (x / 2 ^ k) (x % 2 ^ k) fits (mod-lt x positive) in
    rw mask (rw (div-add-mod' x (2 ^ k)) at e)
