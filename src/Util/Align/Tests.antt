-- ===== src/Util/Align/Tests.antt =====
-- ALIGN and the immediate tests at concrete values.
use my9cc.Prelude.{◌^◌, ◌≡◌, refl, true, false, arith}
use my9cc.Util.Align.Laws.{IsAligned, align_up-IsAligned}
use my9cc.Prelude.Int.{pos, negsuc}
use my9cc.Util.Align.{align_up, is_im8, is_im32}

align_13_8 : align_up 64 13 8 ≡ 16
unfolding align_up
align_13_8 = refl

im8_edges : is_im8 (pos 128) ≡ false
unfolding is_im8
im8_edges = refl

im32_edges : is_im32 (negsuc (0x7fff_ffff)) ≡ true
unfolding is_im32
im32_edges = refl

align_up-IsAligned_example : IsAligned 13 (2 ^ 3) (align_up 64 13 (2 ^ 3))
align_up-IsAligned_example = align_up-IsAligned 64 3 13 (omega arith) (omega arith)
