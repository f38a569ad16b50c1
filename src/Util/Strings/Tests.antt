-- ===== src/Util/Strings/Tests.antt =====
-- src/util/util.c and src/as/parse_asm.c: runs on concrete strings, and the theorems at inputs that
-- meet their hypotheses.
use my9cc.Util.Strings.{
  until_nul, copy_bytes, total_len, copy_all, sb_to_string, escape, escape_loop, escape_string,
  unescape_string,
}
use my9cc.Util.Strings.Buffer.{flatten, sb_to_string-flatten}
use my9cc.Util.Strings.RoundTrip.{unescape_string-escape_string}
use my9cc.Prelude.{
  ℕ, ◌+◌, ◌/◌, ◌%◌, ◌≡◌, refl, inl, inr, false, some, List, [], ◌∷◌, ◌++◌, ltb, if◌then◌else◌, ◌==◌,
  arith,
}

abbrev digit : ℕ → ℕ
digit d = if ltb d 10 then 48 + d else 87 + d

abbrev two_digits : ℕ → List ℕ
two_digits c = digit (c / 16 % 16) ∷ digit (c % 16) ∷ []

-- `a`, newline, a quote, NUL.
abbrev line : List ℕ
line = 97 ∷ 10 ∷ 34 ∷ 0 ∷ []

line_runs :
    sb_to_string 7 (escape_string two_digits line [])
    ≡ some (97 ∷ 92 ∷ 110 ∷ 92 ∷ 34 ∷ 92 ∷ 48 ∷ 0 ∷ [])
unfolding escape escape_loop copy_bytes copy_all sb_to_string total_len
line_runs = refl

-- The byte 1 comes back as the three bytes of `x01`.
control_runs :
    unescape_string (flatten (escape_string two_digits (1 ∷ []) []) ++ (34 ∷ []))
    ≡ some (120 ∷ 48 ∷ 49 ∷ [])
unfolding escape escape_loop unescape_string
control_runs = refl

digits_whole : (c : ℕ) → until_nul (two_digits c) ≡ two_digits c
digits_whole c =
    let hi : (digit (c / 16 % 16) == 0) ≡ false = ground arith in
    let lo : (digit (c % 16) == 0) ≡ false = ground arith in rw (hi, lo)

sb_to_string-flatten_example :
    sb_to_string 7 (line ∷ line ∷ []) ≡ some (flatten (line ∷ line ∷ []) ++ (0 ∷ []))
sb_to_string-flatten_example = sb_to_string-flatten 7 (line ∷ line ∷ [])

unescape_string-escape_string_example :
    unescape_string (flatten (escape_string two_digits line []) ++ (34 ∷ 10 ∷ [])) ≡ some line
unescape_string-escape_string_example =
    unescape_string-escape_string two_digits digits_whole line (10 ∷ []) (
      inr (inr (inr (inr (omega arith, omega arith)))),
      (inr (inr (inl refl)), (inr (inr (inr (inr (omega arith, omega arith)))), (inl refl, tt))),
    )
