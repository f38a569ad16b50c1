-- ===== src/Ir/Bop/Meaning.antt =====
-- src/cc/ir.c: what `new_ir_bop` returns has the value of the operation.
use my9cc.Ir.{BinKind, sub, modulo, modulou, VRegType, VReg, Ir}
use my9cc.Ir.Bop.{clamp_value, left_constant, Made, new_ir_bop, keep}
use my9cc.Ir.Bop.Identities.{meaning, is_negation, is_refused}
use my9cc.Prelude.{
  ℕ, ◌^◌, ◌<◌, ◌≡◌, ◌≢◌, Bool, true, false, not, Option, some, List, [], ◌∷◌, ◌==◌, if◌then◌else◌,
  ◌>>=◌,
}

-- The values of the virtual registers while the code runs.
abbrev pub Env : Type 0
Env = ℕ → ℕ

abbrev pub value : Env → VReg → ℕ
value env v = if v.is_const then v.fixnum else env v.virt

abbrev pub assign : Env → ℕ → ℕ → Env
assign env i w j = if i == j then w else env j

-- An instruction computes at the width of its result; `none` is an operation without a meaning.
pub exec : Env → Ir → Option Env
exec env ir =
    meaning ir.kind ir.opr1.vtype.is_unsigned (value env ir.opr1) (value env ir.opr2) >>= λ w.
    some (assign env ir.dst.virt (clamp_value w ir.dst.vtype))

pub run : Env → List Ir → Option Env
run env [] = some env
run env (ir ∷ irs) = exec env ir >>= λ env'. run env' irs

-- A value of the type.
abbrev pub InRange : VRegType → ℕ → Type 0
InRange vtype a = (a < 2 ^ 64) × (clamp_value a vtype ≡ a)

abbrev pub is_remainder : BinKind → Bool
is_remainder modulo = true
is_remainder modulou = true
is_remainder _ = false

-- The operations outside of what is known to be wrong: the remainder of two constants, the difference
-- of the constant 0 and a register, and the product of a register and the constant 0.
abbrev pub is_sound : BinKind → VReg → VReg → Bool
is_sound kind opr1 opr2 =
    if opr1.is_const
    then (if opr2.is_const then not (is_remainder kind) else not (is_negation kind opr1.fixnum))
    else if opr2.is_const
    then not (is_refused kind opr2.fixnum)
    else true

-- The code that is made runs, its result is the value `w`, and no other register changes.
pub record Computes (env : Env) (vregs w : ℕ) (made : Made) : Type 0 where
  pub after : Env
  pub runs : run env made.irs ≡ some after
  pub result : value after made.result ≡ w
  pub others : (j : ℕ) → j ≢ vregs → after j ≡ env j

-- Code is made, and not an error.
pub record Makes (env : Env) (vregs w : ℕ) (result : Option Made) : Type 0 where
  pub made : Made
  pub returned : result ≡ some made
  pub computes : Computes env vregs w made

module _ (env : Env) (vregs : ℕ) (kind : BinKind) (opr1 opr2 : VReg) (vtype : VRegType)
    (w : ℕ) where
  abbrev a : ℕ
  a = value env opr1

  abbrev b : ℕ
  b = value env opr2

  abbrev Result : Option Made → Type 0
  Result r = Makes env vregs (clamp_value w vtype) r

  -- The values of the operands are in range, the operation has the meaning `w`, and it is one that
  -- is folded rightly.
  module _ (ha : InRange vtype a) (hb : InRange vtype b)
      (m : meaning kind opr1.vtype.is_unsigned a b ≡ some w)
      (sound : is_sound kind opr1 opr2 ≡ true) where
    abbrev Goal : Type 0
    Goal = Result (new_ir_bop vregs kind opr1 opr2 vtype)

-- The constant 0 less a register is the register itself, and no code is made.
pub new_ir_bop-sub_zero :
    (vregs : ℕ) (zero x : VReg) (vtype : VRegType)
    → zero.is_const ≡ true
    → zero.fixnum ≡ 0
    → x.is_const ≡ false
    → new_ir_bop vregs sub zero x vtype ≡ some (keep vregs x)
unfolding new_ir_bop left_constant
new_ir_bop-sub_zero vregs zero x vtype p q r = rw (p, r, q)
