-- ===== src/Ir/TwoAddress/Preserves.antt =====
-- src/cc/ir.c: `three_to_two` keeps what a block computes.
use my9cc.Ir.{BinKind, VReg}
use my9cc.Ir.Word.{neg as word_neg}
use my9cc.Ir.Bop.{extend, clamp_value}
use my9cc.Ir.Bop.Identities.{meaning}
use my9cc.Ir.Bop.Meaning.{Env, value, assign}
use my9cc.Ir.TwoAddress.{UnaryKind, neg, bitnot, Instr, bin, unary, mov, other, three_to_two}
use my9cc.Prelude.{
  ℕ, ◌-◌, ◌^◌, ◌≡◌, ◌≢◌, refl, Bool, true, false, Option, none, some, List, [], ◌∷◌, ◌>>=◌, ◌==◌,
  arith, ap, sym, ◌∙◌, All, ◌⊎◌, inl, inr, fun_ext, bind_cong, Bool-cases,
}

abbrev pub unary_meaning : UnaryKind → ℕ → ℕ
unary_meaning neg a = word_neg a
unary_meaning bitnot a = 2 ^ 64 - 1 - a

-- The `size` low bytes of a value, extended without or with their sign.
abbrev pub at_size : ℕ → Bool → ℕ → ℕ
at_size size u v = clamp_value v (record { size = size; is_unsigned = u })

-- The value of an operand in an instruction of `size` bytes.
abbrev pub operand : Env → ℕ → VReg → ℕ
operand env size v = at_size size v.vtype.is_unsigned (value env v)

module _ (others : ℕ → Env → Option Env) where
  -- An instruction reads `size` bytes of its operands; a MOV writes as many.
  pub exec : Env → Instr → Option Env
  exec env (bin kind dst opr1 opr2 size) =
      meaning kind opr1.vtype.is_unsigned (operand env size opr1) (operand env size opr2) >>= λ w.
      some (assign env dst.virt (clamp_value w dst.vtype))
  exec env (unary kind dst opr1 size) =
      some
        (assign env dst.virt (clamp_value (unary_meaning kind (operand env size opr1)) dst.vtype))
  exec env (mov dst opr1 size) = some (assign env dst.virt (operand env size opr1))
  exec env (other n) = others n env

  pub run : Env → List Instr → Option Env
  run env [] = some env
  run env (ir ∷ irs) = exec env ir >>= λ env'. run env' irs

  -- The result is no constant and has the sign of the left operand, and it is not the right operand.
  abbrev pub IsFresh : Instr → Type 0
  IsFresh (bin kind dst opr1 opr2 size) =
      (dst.is_const ≡ false)
      × ((opr2.is_const ≡ true) ⊎ (opr2.virt ≢ dst.virt))
      × (opr1.vtype.is_unsigned ≡ dst.vtype.is_unsigned)
  IsFresh (unary kind dst opr1 size) =
      (dst.is_const ≡ false) × (opr1.vtype.is_unsigned ≡ dst.vtype.is_unsigned)
  IsFresh (mov dst opr1 size) = Unit
  IsFresh (other n) = Unit

  assign_twice : (env : Env) (i v w : ℕ) → assign (assign env i v) i w ≡ assign env i w
  assign_twice env i v w = fun_ext (λ j. ground arith)

  value-assign_self :
      (env : Env) (dst : VReg) (v : ℕ)
      → dst.is_const ≡ false
      → value (assign env dst.virt v) dst ≡ v
  value-assign_self env dst v h = ground arith

  value-assign_other :
      (env : Env) (dst opr : VReg) (v : ℕ)
      → (opr.is_const ≡ true) ⊎ (opr.virt ≢ dst.virt)
      → value (assign env dst.virt v) opr ≡ value env opr
  value-assign_other env dst opr v h = ground arith

  extend_twice8 : (u : Bool) (v : ℕ) → extend 8 u (extend 8 u v) ≡ extend 8 u v
  extend_twice8 true v = omega arith
  extend_twice8 false v = ground arith

  extend_twice16 : (u : Bool) (v : ℕ) → extend 16 u (extend 16 u v) ≡ extend 16 u v
  extend_twice16 true v = omega arith
  extend_twice16 false v = ground arith

  extend_twice32 : (u : Bool) (v : ℕ) → extend 32 u (extend 32 u v) ≡ extend 32 u v
  extend_twice32 true v = omega arith
  extend_twice32 false v = ground arith

  at_size_twice :
      (size : ℕ) (u : Bool) (v : ℕ) → at_size size u (at_size size u v) ≡ at_size size u v
  unfolding clamp_value
  at_size_twice size u v = elim (Bool-cases (size == 1)) [
    | inl one ↦ rw one (extend_twice8 u v)
    | inr a ↦ elim (Bool-cases (size == 2)) [
      | inl two ↦ rw (a, two) (extend_twice16 u v)
      | inr b ↦ elim (Bool-cases (size == 4)) [
        | inl four ↦ rw (a, b, four) (extend_twice32 u v)
        | inr c ↦ rw (a, b, c) refl
      ]
    ]
  ]

  -- What is read back in the register that a MOV has written.
  operand-moved :
      (env : Env) (dst opr1 : VReg) (size : ℕ)
      → dst.is_const ≡ false
      → opr1.vtype.is_unsigned ≡ dst.vtype.is_unsigned
      → operand (assign env dst.virt (operand env size opr1)) size dst ≡ operand env size opr1
  operand-moved env dst opr1 size c s =
      ap (at_size size dst.vtype.is_unsigned) (value-assign_self env dst (operand env size opr1) c)
      ∙ ap (λ (u : Bool). at_size size u (operand env size opr1)) (sym s)
      ∙ at_size_twice size opr1.vtype.is_unsigned (value env opr1)

  finish :
      (m : Option ℕ) (env : Env) (i v : ℕ) (f : ℕ → ℕ)
      → (m >>= λ w. some (assign (assign env i v) i (f w))) ≡ (m >>= λ w. some (assign env i (f w)))
  finish none env i v f = refl
  finish (some w) env i v f = ap some (assign_twice env i v (f w))

  -- The two instructions for one.
  bin_twice :
      (env : Env) (kind : BinKind) (dst opr1 opr2 : VReg) (size : ℕ)
      → IsFresh (bin kind dst opr1 opr2 size)
      → (exec env (mov dst opr1 size) >>= λ env'. exec env' (bin kind dst dst opr2 size))
        ≡ exec env (bin kind dst opr1 opr2 size)
  unfolding exec
  bin_twice env kind dst opr1 opr2 size (c, f, s) =
      let v = operand env size opr1 in
      let env' = assign env dst.virt v in
      let right : operand env' size opr2 ≡ operand env size opr2 =
        ap (at_size size opr2.vtype.is_unsigned) (value-assign_other env dst opr2 v f) in
      let same : meaning kind dst.vtype.is_unsigned (operand env' size dst) (operand env' size opr2)
          ≡ meaning kind opr1.vtype.is_unsigned v (operand env size opr2) =
        ap (λ (x : ℕ). meaning kind dst.vtype.is_unsigned x (operand env' size opr2))
          (operand-moved env dst opr1 size c s)
        ∙ ap (λ (x : ℕ). meaning kind dst.vtype.is_unsigned v x) right
        ∙ ap (λ (u : Bool). meaning kind u v (operand env size opr2)) (sym s) in
      ap
        (λ (m : Option ℕ).
          m >>= λ w. some (assign (assign env dst.virt v) dst.virt (clamp_value w dst.vtype)))
        same
      ∙ finish (meaning kind opr1.vtype.is_unsigned v (operand env size opr2)) env dst.virt v
          (λ w. clamp_value w dst.vtype)

  unary_twice :
      (env : Env) (kind : UnaryKind) (dst opr1 : VReg) (size : ℕ)
      → IsFresh (unary kind dst opr1 size)
      → (exec env (mov dst opr1 size) >>= λ env'. exec env' (unary kind dst dst size))
        ≡ exec env (unary kind dst opr1 size)
  unfolding exec
  unary_twice env kind dst opr1 size (c, s) =
      let v = operand env size opr1 in
      ap
        (λ (x : ℕ).
          some (
            assign (assign env dst.virt v) dst.virt (clamp_value (unary_meaning kind x) dst.vtype)))
        (operand-moved env dst opr1 size c s)
      ∙ ap some (assign_twice env dst.virt v (clamp_value (unary_meaning kind v) dst.vtype))

  -- The rewritten block is there, and from every environment it ends as the block does.
  pub record Rewritten (irs : List Instr) : Type 0 where
    pub block : List Instr
    pub made : three_to_two irs ≡ some block
    pub same : (env : Env) → run env block ≡ run env irs

  -- A block is rewritten, and computes the same after three_to_two, and stops at the same operations
  -- without a meaning, when the result of each operation is no constant, is not the register of its
  -- right operand, and is signed or unsigned as its left operand is.
  pub three_to_two-Rewritten : (irs : List Instr) → All IsFresh irs → Rewritten irs
  unfolding run exec three_to_two
  three_to_two-Rewritten [] h = record { block = []; made = refl; same = λ env. refl }
  three_to_two-Rewritten (bin kind dst opr1 opr2 size ∷ irs) (h, hs) =
      let r = three_to_two-Rewritten irs hs in
      record {
        block = mov dst opr1 size ∷ (bin kind dst dst opr2 size ∷ r.block);
        made = rw (h.0, r.made) refl;
        same = λ env.
            ap (λ m. m >>= λ e. run e r.block) (bin_twice env kind dst opr1 opr2 size h)
            ∙ bind_cong (exec env (bin kind dst opr1 opr2 size)) r.same;
      }
  three_to_two-Rewritten (unary kind dst opr1 size ∷ irs) (h, hs) =
      let r = three_to_two-Rewritten irs hs in
      record {
        block = mov dst opr1 size ∷ (unary kind dst dst size ∷ r.block);
        made = rw (h.0, r.made) refl;
        same = λ env.
            ap (λ m. m >>= λ e. run e r.block) (unary_twice env kind dst opr1 size h)
            ∙ bind_cong (exec env (unary kind dst opr1 size)) r.same;
      }
  three_to_two-Rewritten (mov dst opr1 size ∷ irs) (h, hs) =
      let r = three_to_two-Rewritten irs hs in
      record {
        block = mov dst opr1 size ∷ r.block;
        made = rw r.made refl;
        same = λ env. bind_cong (exec env (mov dst opr1 size)) r.same;
      }
  three_to_two-Rewritten (other n ∷ irs) (h, hs) =
      let r = three_to_two-Rewritten irs hs in
      record {
        block = other n ∷ r.block;
        made = rw r.made refl;
        same = λ env. bind_cong (exec env (other n)) r.same;
      }
