-- ===== src/Ir/TwoAddress.antt =====
-- src/cc/ir.c: `three_to_two`, which rewrites `A = B op C` to `A = B; A = A op C` in a block.
-- What an instruction of another kind does to the registers is a parameter.
pub mod Preserves
use my9cc.Ir.{BinKind, VReg}
use my9cc.Prelude.{ℕ, Option, none, some, List, [], ◌∷◌, if◌then◌else◌, ◌>>=◌}

pub data UnaryKind : Type 0 where
  neg bitnot : UnaryKind

-- `other n` stands for an instruction that `three_to_two` leaves alone.
pub data Instr : Type 0 where
  bin : BinKind → VReg → VReg → VReg → ℕ → Instr
  unary : UnaryKind → VReg → VReg → ℕ → Instr
  mov : VReg → VReg → ℕ → Instr
  other : ℕ → Instr

-- `none` is the assertion on a constant `dst`.
unfoldable pub three_to_two : List Instr → Option (List Instr)
three_to_two [] = some []
three_to_two (bin kind dst opr1 opr2 size ∷ irs) =
    let rest = three_to_two irs in
    if dst.is_const
    then none
    else rest >>= λ l. some (mov dst opr1 size ∷ (bin kind dst dst opr2 size ∷ l))
three_to_two (unary kind dst opr1 size ∷ irs) =
    let rest = three_to_two irs in
    if dst.is_const
    then none
    else rest >>= λ l. some (mov dst opr1 size ∷ (unary kind dst dst size ∷ l))
three_to_two (mov dst opr1 size ∷ irs) = three_to_two irs >>= λ l. some (mov dst opr1 size ∷ l)
three_to_two (other n ∷ irs) = three_to_two irs >>= λ l. some (other n ∷ l)
