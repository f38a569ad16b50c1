-- ===== src/As/Encode/Bytes.antt =====
-- src/as/asm_x86.c: the fields of the bytes that are put together by masks.
use my9cc.As.Encode.{rex_byte, mod_rm, scale_bit}
use my9cc.Prelude.{
  ℕ, zero, suc, ◌+◌, ◌*◌, ◌/◌, ◌%◌, ◌^◌, ◌<◌, ◌≡◌, refl, Bool, true, ◌&&◌, ◌==◌, arith, sym, ◌∙◌,
  ap, and_true, inl, inr, bit_and, bit_or, ==_iff, ◌⊎◌, subst,
}

-- A test that holds of all numbers below a bound.
abbrev all_below : ℕ → (ℕ → Bool) → Bool
all_below zero f = true
all_below (suc n) f = f n && all_below n f

at_below : (n : ℕ) (f : ℕ → Bool) (i : ℕ) → all_below n f ≡ true → i < n → f i ≡ true
at_below zero f i h k = absurd (omega arith)
at_below (suc n) f i h k =
    let (here, rest) = and_true (f n) (all_below n f) h in
    elim (last i n k) [ inl below ↦ at_below n f i rest below | inr e ↦ ap f e ∙ here ]
  where
    last : (i n : ℕ) → i < suc n → (i < n) ⊎ (i ≡ n)
    last i n k = grind arith

-- A test of two numbers below 16.
at_pair :
    (f : ℕ → ℕ → Bool) (i j : ℕ)
    → all_below 16 (λ a. all_below 16 (λ b. f a b)) ≡ true
    → i < 16
    → j < 16
    → f i j ≡ true
at_pair f i j h hi hj =
    at_below 16 (λ b. f i b) j (at_below 16 (λ a. all_below 16 (λ b. f a b)) i h hi) hj

abbrev rex_is : ℕ → ℕ → ℕ → Bool
rex_is w s d = rex_byte s d w == 64 + w + s / 8 * 4 + d / 8

rex_narrow : all_below 16 (λ s. all_below 16 (λ d. rex_is 0 s d)) ≡ true
rex_narrow = refl

rex_wide : all_below 16 (λ s. all_below 16 (λ d. rex_is 8 s d)) ≡ true
rex_wide = refl

pub rex_byte-narrow : (s d : ℕ) → s < 16 → d < 16 → rex_byte s d 0 ≡ 64 + s / 8 * 4 + d / 8
rex_byte-narrow s d hs hd = (==_iff _ _).0 (at_pair (rex_is 0) s d rex_narrow hs hd)

pub rex_byte-wide : (s d : ℕ) → s < 16 → d < 16 → rex_byte s d 8 ≡ 72 + s / 8 * 4 + d / 8
rex_byte-wide s d hs hd = (==_iff _ _).0 (at_pair (rex_is 8) s d rex_wide hs hd)

abbrev mod_rm_is : ℕ → ℕ → ℕ → Bool
mod_rm_is c r m = mod_rm (c * 64) r m == c * 64 + r % 8 * 8 + m % 8

mod_rms : all_below 4 (λ c. all_below 16 (λ r. all_below 16 (λ m. mod_rm_is c r m))) ≡ true
mod_rms = refl

pub mod_rm-parts :
    (c r m : ℕ) → c < 4 → r < 16 → m < 16 → mod_rm (c * 64) r m ≡ c * 64 + r % 8 * 8 + m % 8
mod_rm-parts c r m hc hr hm = (==_iff _ _).0 (
    at_pair (mod_rm_is c) r m
      (at_below 4 (λ k. all_below 16 (λ a. all_below 16 (λ b. mod_rm_is k a b))) c mod_rms hc) hr
      hm)

low_bits : all_below 16 (λ n. bit_and n 7 == n % 8) ≡ true
low_bits = refl

pub bit_and-low : (n : ℕ) → n < 16 → bit_and n 7 ≡ n % 8
bit_and-low n h = (==_iff _ _).0 (at_below 16 (λ i. bit_and i 7 == i % 8) n low_bits h)

abbrev regno_is : ℕ → ℕ → Bool
regno_is n x = bit_or (n % 8) (x % 2 * 8) == n % 8 + x % 2 * 8

regnos : all_below 16 (λ a. all_below 16 (λ b. regno_is a b)) ≡ true
regnos = refl

pub regno : (n x : ℕ) → n < 8 → x < 2 → bit_or n (x * 8) ≡ n + x * 8
regno n x h k =
    let small : n % 8 ≡ n = omega arith in
    let bit : x % 2 ≡ x = omega arith in
    let e = (==_iff _ _).0 (at_pair regno_is n x regnos (omega arith) (omega arith)) in
    ap (λ t. bit_or t (x * 8)) (sym small)
    ∙ ap (λ t. bit_or (n % 8) (t * 8)) (sym bit)
    ∙ e
    ∙ ap (λ t. t + x % 2 * 8) small
    ∙ ap (λ t. n + t * 8) bit

abbrev index_rex : ℕ → ℕ → ℕ → ℕ
index_rex base index dst =
    bit_or (bit_or (bit_or 72 (bit_and base 8 / 8)) (bit_and index 8 / 4)) (bit_and dst 8 / 2)

abbrev index_rex_is : ℕ → ℕ → ℕ → Bool
index_rex_is base index dst =
    index_rex base index dst == 72 + base / 8 + index / 8 * 2 + dst / 8 * 4

index_rexes : all_below 16 (λ b. all_below 16 (λ i. all_below 16 (λ d. index_rex_is b i d))) ≡ true
index_rexes = refl

pub index_rex-parts :
    (b i d : ℕ)
    → b < 16
    → i < 16
    → d < 16
    → bit_or (bit_or (bit_or 72 (bit_and b 8 / 8)) (bit_and i 8 / 4)) (bit_and d 8 / 2)
      ≡ 72 + b / 8 + i / 8 * 2 + d / 8 * 4
index_rex-parts b i d hb hi hd = (==_iff _ _).0 (
    at_pair (index_rex_is b) i d
      (at_below 16 (λ k. all_below 16 (λ x. all_below 16 (λ y. index_rex_is k x y))) b index_rexes
        hb)
      hi hd)

abbrev index_mod_is : ℕ → ℕ → Bool
index_mod_is c d = bit_or (bit_or (c % 4 * 64) (bit_and d 7 * 8)) 4 == c % 4 * 64 + d % 8 * 8 + 4

index_mods : all_below 16 (λ c. all_below 16 (λ d. index_mod_is c d)) ≡ true
index_mods = refl

pub index_mod-parts :
    (c d : ℕ)
    → c < 4
    → d < 16
    → bit_or (bit_or (c * 64) (bit_and d 7 * 8)) 4 ≡ c * 64 + d % 8 * 8 + 4
index_mod-parts c d hc hd =
    let small : c % 4 ≡ c = omega arith in
    ap (λ t. bit_or (bit_or (t * 64) (bit_and d 7 * 8)) 4) (sym small)
    ∙ (==_iff _ _).0 (at_pair index_mod_is c d index_mods (omega arith) hd)
    ∙ ap (λ t. t * 64 + d % 8 * 8 + 4) small

abbrev sib_is : ℕ → ℕ → ℕ → Bool
sib_is k b i =
    bit_or (bit_or (bit_and b 7) (bit_and i 7 * 8)) (scale_bit (2 ^ k) * 64)
    == k * 64 + i % 8 * 8 + b % 8

sibs : all_below 4 (λ k. all_below 16 (λ b. all_below 16 (λ i. sib_is k b i))) ≡ true
sibs = refl

pub sib-parts :
    (k b i : ℕ)
    → k < 4
    → b < 16
    → i < 16
    → bit_or (bit_or (bit_and b 7) (bit_and i 7 * 8)) (scale_bit (2 ^ k) * 64)
      ≡ k * 64 + i % 8 * 8 + b % 8
sib-parts k b i hk hb hi = (==_iff _ _).0 (
    at_pair (sib_is k) b i
      (at_below 4 (λ c. all_below 16 (λ x. all_below 16 (λ y. sib_is c x y))) k sibs hk) hb hi)

abbrev opcode_is : ℕ → Bool
opcode_is n =
    (bit_or (bit_or 176 0) (n % 8) == 176 + n % 8)
    && ((bit_or (bit_or 176 8) (n % 8) == 184 + n % 8) && (bit_or 192 (n % 8) == 192 + n % 8))

opcodes : all_below 16 opcode_is ≡ true
opcodes = refl

-- The register in the low bits of an opcode and of ModRM.
pub low_register :
    (n : ℕ)
    → n < 8
    → (bit_or (bit_or 176 0) n ≡ 176 + n)
      × (bit_or (bit_or 176 8) n ≡ 184 + n)
      × (bit_or 192 n ≡ 192 + n)
low_register n h =
    let small : n % 8 ≡ n = omega arith in
    let (a, bc) =
      and_true (bit_or (bit_or 176 0) (n % 8) == 176 + n % 8) _
        (at_below 16 opcode_is n opcodes (omega arith)) in
    let (b, c) = and_true (bit_or (bit_or 176 8) (n % 8) == 184 + n % 8) _ bc in
    let a' = (==_iff (bit_or (bit_or 176 0) (n % 8)) (176 + n % 8)).0 a in
    let b' = (==_iff (bit_or (bit_or 176 8) (n % 8)) (184 + n % 8)).0 b in
    let c' = (==_iff (bit_or 192 (n % 8)) (192 + n % 8)).0 c in
    (
      subst (λ t. bit_or (bit_or 176 0) t ≡ 176 + t) small a',
      subst (λ t. bit_or (bit_or 176 8) t ≡ 184 + t) small b',
      subst (λ t. bit_or 192 t ≡ 192 + t) small c',
    )

abbrev prefix_is : ℕ → ℕ → Bool
prefix_is k n = bit_or (192 + k % 8 * 8) (bit_and n 7) == 192 + k % 8 * 8 + n % 8

prefixes : all_below 16 (λ k. all_below 16 (λ n. prefix_is k n)) ≡ true
prefixes = refl

pub prefix_parts :
    (k n : ℕ) → k < 8 → n < 16 → bit_or (192 + k * 8) (bit_and n 7) ≡ 192 + k * 8 + n % 8
prefix_parts k n hk hn =
    let small : k % 8 ≡ k = omega arith in
    subst (λ t. bit_or (192 + t * 8) (bit_and n 7) ≡ 192 + t * 8 + n % 8) small
      ((==_iff _ _).0 (at_pair prefix_is k n prefixes (omega arith) hn))
