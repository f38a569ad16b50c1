-- ===== src/Util/Align.antt =====
-- src/util/util.h: the macro ALIGN, at an unsigned word of `w` bits; util.c: `is_im8`, `is_im32`.
pub mod Laws
mod Tests
use my9cc.Prelude.{ℕ, ◌+◌, ◌-◌, ◌%◌, ◌^◌, bit_and, Bool, ◌&&◌}
use my9cc.Prelude.Int.{ℤ, pos, negsuc, leb_ℤ}

-- ((x) + (align) - 1) & -(align)
unfoldable pub align_up : ℕ → ℕ → ℕ → ℕ
align_up w x align = bit_and ((x + align + (2 ^ w - 1)) % 2 ^ w) ((2 ^ w - align) % 2 ^ w)

unfoldable pub is_im8 : ℤ → Bool
is_im8 x = leb_ℤ x (pos (2 ^ 7 - 1)) && leb_ℤ (negsuc (2 ^ 7 - 1)) x

unfoldable pub is_im32 : ℤ → Bool
is_im32 x = leb_ℤ x (pos (2 ^ 31 - 1)) && leb_ℤ (negsuc (2 ^ 31 - 1)) x
