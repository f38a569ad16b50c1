-- ===== src/Util/Buffer/Tests.antt =====
-- src/util/util.c: runs on concrete buffers, and the theorems at inputs that meet their hypotheses.
use my9cc.Util.Align.{align_up}
use my9cc.Util.Align.Laws.{IsAligned}
use my9cc.Util.Buffer.{Buffer, empty, make_room, buf_put, buf_align}
use my9cc.Util.Buffer.Holds.{Holds, buf_put-append, buf_align-IsAligned}
use my9cc.Prelude.{
  ℕ, ◌+◌, ◌^◌, ◌≤◌, ◌≡◌, refl, Option, some, ◌>>=◌, List, [], ◌∷◌, ◌++◌, replicate, take, arith,
}

abbrev aligned : Option Buffer
aligned = buf_align 7 (buf_put 7 empty (1 ∷ 2 ∷ 3 ∷ [])) 8

aligned_runs :
    (aligned >>= λ b. some (take (b.size + 1) b.cells))
    ≡ some (1 ∷ 2 ∷ 3 ∷ 0 ∷ 0 ∷ 0 ∷ 0 ∷ 0 ∷ 7 ∷ [])
unfolding buf_align buf_put make_room align_up
aligned_runs = refl

abbrev one : Buffer
one = record { cells = 5 ∷ 7 ∷ []; capa = 2; size = 1 }

abbrev five : List ℕ
five = 5 ∷ []

one-Holds : Holds one five
one-Holds = record { spare = 7 ∷ []; contents = refl; full = refl; room = refl }

buf_put-append_example :
    Holds (buf_put 7 one (1 ∷ 2 ∷ [])) (five ++ (1 ∷ 2 ∷ []))
    × ((buf_put 7 one (1 ∷ 2 ∷ [])).size ≤ (buf_put 7 one (1 ∷ 2 ∷ [])).capa)
buf_put-append_example = buf_put-append 7 one five (1 ∷ 2 ∷ []) (omega arith) one-Holds

buf_align-IsAligned_example :
    (b : Buffer) × (buf_align 7 one (2 ^ 3) ≡ some b)
    × ((n : ℕ) × Holds b (five ++ replicate n 0) × IsAligned 1 (2 ^ 3) (1 + n))
buf_align-IsAligned_example = buf_align-IsAligned 7 one five 3 (omega arith) (omega arith) one-Holds
