-- ===== src/As/Resolve/Jumps.antt =====
-- src/as/ir_asm.c: a direct jump that is resolved leads to its target.
use my9cc.As.{Code, put_value, write_at}
use my9cc.As.Label.{Outcome}
use my9cc.As.Resolve.{
  UnresolvedInfo, Pending, to_signed, displacement, long_opcode, long_jump, short_jump,
  resolve_jump,
}
use my9cc.As.Resolve.Target.{
  target, opcode, jump_length, IsCondition, IsJump, far_target, near_target,
}
use my9cc.As.Resolve.Reaches.{lands, word_sub-small, word_add-small}
use my9cc.Ir.Word.{word_add, word_sub}
use my9cc.Util.Align.{is_im8, is_im32}
use my9cc.Prelude.{
  ℕ, ◌+◌, ◌^◌, ◌≤◌, ◌<◌, ◌≡◌, refl, Bool, true, false, Option, none, some, List, ◌++◌, drop, length,
  if◌then◌else◌, inl, inr, Bool-cases, arith, sym, ◌∙◌, ap, some_eq, length-append, length-drop,
  subst, ◌-◌,
}

-- Of a result: it is a jump still, and where it was not made longer it leads to `dst`.
pub record Leads (cond : Option ℕ) (address dst : ℕ) (r : Code × Pending) : Type 0 where
  pub jump : IsJump cond (r.0)
  pub goes : (r.1).size_upgraded ≡ false → target address (r.0).buf ≡ some (cond, dst)

far_whole :
    (cond : Option ℕ) (d : ℕ) (rest : List ℕ)
    → write_at (length (long_opcode cond)) (put_value d 4) (opcode true cond ++ rest)
      ≡ opcode true cond ++ (put_value d 4 ++ drop 4 rest)
unfolding put_value
far_whole none d rest = refl
far_whole (some c) d rest = refl

near_whole :
    (cond : Option ℕ) (d : ℕ) (rest : List ℕ)
    → write_at 1 (put_value d 1) (opcode false cond ++ rest)
      ≡ opcode false cond ++ (put_value d 1 ++ drop 1 rest)
unfolding put_value
near_whole none d rest = refl
near_whole (some c) d rest = refl

-- The jump that is made long, and what is left of the buffer behind it.
grown_whole :
    (cond : Option ℕ) (d : ℕ) (rest : List ℕ)
    → (n : ℕ) × (write_at 0 (long_opcode cond ++ put_value d 4) (opcode false cond ++ rest)
        ≡ opcode true cond ++ (put_value d 4 ++ drop n rest))
      × (n + 1 ≡ length (opcode true cond) + 4)
      × (length (long_opcode cond ++ put_value d 4) ≡ jump_length true cond)
unfolding put_value
grown_whole none d rest = (4, refl, refl, refl)
grown_whole (some c) d rest = (5, refl, refl, refl)

put_size : (d : ℕ) → (length (put_value d 4) ≡ 4) × (length (put_value d 1) ≡ 1)
unfolding put_value
put_size d = (refl, refl)

put_room :
    (bytes rest : List ℕ) (size n m : ℕ)
    → length bytes ≡ size
    → n ≤ length rest
    → m + length rest + size ≡ 14 + n
    → m + length (bytes ++ drop n rest) ≡ 14
put_room bytes rest size n m e fits total =
    omega (arith, e, length-append bytes (drop n rest), length-drop n rest)

opcode_size :
    (cond : Option ℕ)
    → (length (opcode false cond) ≡ 1)
      × (length (opcode true cond) ≤ 2)
      × (1 ≤ length (opcode true cond))
opcode_size none = (refl, omega arith, omega arith)
opcode_size (some c) = (refl, omega arith, omega arith)

there :
    (address dst len : ℕ)
    → dst < 2 ^ 64
    → word_add (word_add address len) (word_sub dst (word_add address len)) ≡ dst
there address dst len h = lands dst (word_add address len) h (word_add-small address len)

long_jump-Leads :
    (cond : Option ℕ) (address dst : ℕ) (code : Code) (p : Pending) (r : Code × Pending)
    (rest : List ℕ)
    → IsCondition cond
    → dst < 2 ^ 64
    → code.flag ≡ true
    → code.buf ≡ opcode true cond ++ rest
    → length (opcode true cond) + length rest ≡ 14
    → code.len ≡ jump_length true cond
    → long_jump cond (displacement dst address code) code p ≡ some r
    → Leads cond address dst r
unfolding long_jump
long_jump-Leads cond address dst code p r rest h hd flag whole room size e =
    let d = displacement dst address code in
    elim (Bool-cases (is_im32 (to_signed d))) [
      | inl near ↦
          let written = write_at (length (long_opcode cond)) (put_value d 4) code.buf in
          let same : written
              ≡ write_at (length (long_opcode cond)) (put_value d 4) (opcode true cond ++ rest) =
            ap (write_at (length (long_opcode cond)) (put_value d 4)) whole in
          let small = (opcode_size cond).1 in
          subst (Leads cond address dst) (some_eq (simp near at e)) (record {
            jump = record {
              rest = put_value d 4 ++ drop 4 rest;
              whole =
                  same
                  ∙ far_whole cond d rest
                  ∙ ap (λ b. opcode b cond ++ (put_value d 4 ++ drop 4 rest)) (sym flag);
              room =
                  ap (λ b. length (opcode b cond) + length (put_value d 4 ++ drop 4 rest)) flag
                  ∙ put_room (put_value d 4) rest 4 4 (length (opcode true cond)) (put_size d).0
                      (omega (arith, small)) (omega arith);
              size = size ∙ ap (λ b. jump_length b cond) (sym flag);
            };
            goes = λ _.
                ap (target address) same
                ∙ far_target cond address d rest h (word_sub-small _ _) near
                ∙ ap (λ n. some (cond, word_add (word_add address n) d)) (sym size)
                ∙ ap (λ n. some (cond, n)) (there address dst code.len hd);
          })
      | inr far ↦ cc (simp far at e)
    ]

short_jump-Leads :
    (cond : Option ℕ) (address dst : ℕ) (code : Code) (p : Pending) (r : Code × Pending)
    (rest : List ℕ)
    → IsCondition cond
    → dst < 2 ^ 64
    → code.flag ≡ false
    → code.buf ≡ opcode false cond ++ rest
    → length (opcode false cond) + length rest ≡ 14
    → code.len ≡ 2
    → short_jump cond (displacement dst address code) code p ≡ some r
    → Leads cond address dst r
unfolding short_jump
short_jump-Leads cond address dst code p r rest h hd flag whole room size e =
    let d = displacement dst address code in
    let one = (opcode_size cond).0 in
    elim (Bool-cases (is_im8 (to_signed d))) [
      | inl near ↦
          let written = write_at 1 (put_value d 1) code.buf in
          let same : written ≡ write_at 1 (put_value d 1) (opcode false cond ++ rest) =
            ap (write_at 1 (put_value d 1)) whole in
          subst (Leads cond address dst) (some_eq (simp near at e)) (record {
            jump = record {
              rest = put_value d 1 ++ drop 1 rest;
              whole =
                  same
                  ∙ near_whole cond d rest
                  ∙ ap (λ b. opcode b cond ++ (put_value d 1 ++ drop 1 rest)) (sym flag);
              room =
                  ap (λ b. length (opcode b cond) + length (put_value d 1 ++ drop 1 rest)) flag
                  ∙ put_room (put_value d 1) rest 1 1 (length (opcode false cond)) (put_size d).1
                      (omega (arith, one)) (omega arith);
              size = size ∙ ap (λ b. jump_length b cond) (sym flag);
            };
            goes = λ _.
                ap (target address) same
                ∙ near_target cond address d rest h (word_sub-small _ _) near
                ∙ ap (λ n. some (cond, word_add (word_add address n) d)) (sym size)
                ∙ ap (λ n. some (cond, n)) (there address dst code.len hd);
          })
      | inr far ↦
          let bytes = long_opcode cond ++ put_value (2 ^ 64 - 1) 4 in
          let (n, w, count, len) = grown_whole cond (2 ^ 64 - 1) rest in
          let small = (opcode_size cond).1 in
          subst (Leads cond address dst) (some_eq (simp far at e)) (record {
            jump = record {
              rest = put_value (2 ^ 64 - 1) 4 ++ drop n rest;
              whole = ap (write_at 0 bytes) whole ∙ w;
              room =
                  put_room (put_value (2 ^ 64 - 1) 4) rest 4 n (length (opcode true cond))
                    (put_size (2 ^ 64 - 1)).0 (omega (arith, one, small, count))
                    (omega (arith, one, count));
              size = len;
            };
            goes = λ k. cc k;
          })
    ]

by_flag :
    (b : Bool) (cond : Option ℕ) (address dst : ℕ) (code : Code) (p : Pending) (r : Code × Pending)
    (rest : List ℕ)
    → IsCondition cond
    → dst < 2 ^ 64
    → code.flag ≡ b
    → code.buf ≡ opcode b cond ++ rest
    → length (opcode b cond) + length rest ≡ 14
    → code.len ≡ jump_length b cond
    → (let o = displacement dst address code in
        if b then long_jump cond o code p else short_jump cond o code p)
      ≡ some r
    → Leads cond address dst r
by_flag true cond address dst code p r rest h hd flag whole room size e =
    long_jump-Leads cond address dst code p r rest h hd flag whole room size e
by_flag false cond address dst code p r rest h hd flag whole room size e =
    short_jump-Leads cond address dst code p r rest h hd flag whole room size e

-- A direct jump whose target has a value below 2 ^ 64, and that is resolved, is a jump under the
-- same condition still, its opcode included, and if it was not made longer it leads to the target:
-- the processor, which reads opcode and offset in the bytes of the code, goes on there.
pub resolve_jump-Leads :
    (cond : Option ℕ) (address dst : ℕ) (u : Option (List UnresolvedInfo)) (code : Code)
    (p : Pending) (r : Code × Pending)
    → IsCondition cond
    → dst < 2 ^ 64
    → IsJump cond code
    → resolve_jump cond address (Outcome.value dst) u code p ≡ some r
    → Leads cond address dst r
unfolding resolve_jump
resolve_jump-Leads cond address dst u code p r h hd j e =
    by_flag code.flag cond address dst code p r j.rest h hd refl j.whole j.room j.size e
