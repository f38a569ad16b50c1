-- ===== src/Util/Strings.antt =====
-- src/util/util.c: the string buffer and `escape_string`; src/as/parse_asm.c: `unescape_string`.
-- A `char` is its byte. A StringBuffer is the list that its vector of elements stands for, and an
-- element is its bytes. `print_hex c` is what `snprintf` writes for "%02x".
mod Tests
pub mod Buffer
pub mod RoundTrip
use my9cc.Prelude.{
  ℕ, zero, suc, ◌+◌, Bool, true, false, ◌||◌, Option, none, some, List, [], ◌∷◌, ◌++◌, ltb, leb,
  ◌==◌, if◌then◌else◌, ◌>>=◌, take, drop, length, replicate,
}

abbrev pub StringBuffer : Type 0
StringBuffer = List (List ℕ)

abbrev pub sb_clear : StringBuffer → StringBuffer
sb_clear sb = []

abbrev pub sb_empty : StringBuffer → Bool
sb_empty [] = true
sb_empty (e ∷ es) = false

-- `strlen` from here on, as the bytes before the first 0.
abbrev pub until_nul : List ℕ → List ℕ
until_nul [] = []
until_nul (c ∷ cs) = if c == 0 then [] else c ∷ until_nul cs

-- `end` is given as `end - start`, and is `none` where it is NULL.
abbrev pub sb_append : StringBuffer → List ℕ → Option ℕ → StringBuffer
sb_append sb start none = sb ++ (until_nul start ∷ [])
sb_append sb start (some n) = sb ++ (take n start ∷ [])

-- The first loop of `sb_to_string`.
pub total_len : StringBuffer → ℕ
total_len [] = 0
total_len (e ∷ es) = length e + total_len es

-- `bytes` written at the index `p` of the memory `str`; `none` is a write outside of it.
unfoldable pub copy_bytes : ℕ → List ℕ → List ℕ → Option (List ℕ)
copy_bytes p bytes str =
    if leb (p + length bytes) (length str)
    then some ((take p str ++ bytes) ++ drop (p + length bytes) str)
    else none

-- The second loop, with what stands in `str` and the index of `p` behind it.
unfoldable pub copy_all : ℕ → StringBuffer → List ℕ → Option (List ℕ × ℕ)
copy_all p [] str = some (str, p)
copy_all p (e ∷ es) str = copy_bytes p e str >>= λ str'. copy_all (p + length e) es str'

-- `malloc` gives bytes that hold `junk`.
unfoldable pub sb_to_string : ℕ → StringBuffer → Option (List ℕ)
sb_to_string junk sb =
    copy_all 0 sb (replicate (total_len sb + 1) junk) >>= λ r. copy_bytes (r.1) (0 ∷ []) (r.0)

module _ (print_hex : ℕ → List ℕ) where
  pub escape : ℕ → Option (List ℕ)
  escape c =
      if c == 0
      then some (92 ∷ 48 ∷ [])
      else if c == 10
      then some (92 ∷ 110 ∷ [])
      else if c == 13
      then some (92 ∷ 114 ∷ [])
      else if c == 9
      then some (92 ∷ 116 ∷ [])
      else if c == 34
      then some (92 ∷ 34 ∷ [])
      else if c == 92
      then some (92 ∷ 92 ∷ [])
      else if ltb c 32 || leb 127 c
      then some (92 ∷ 120 ∷ print_hex c)
      else none

  -- The loop of `escape_string`: the bytes from `s` on, `p - s`, and the bytes from `p` to `end`.
  pub escape_loop : List ℕ → ℕ → List ℕ → StringBuffer → StringBuffer
  escape_loop s n [] sb = if ltb 0 n then sb_append sb s (some n) else sb
  escape_loop s n (c ∷ p) sb = elim (escape c) [
    | none ↦ escape_loop s (n + 1) p sb
    | some e ↦
        let sb' = if ltb 0 n then sb_append sb s (some n) else sb in
        escape_loop p 0 p (sb_append sb' e none)
  ]

  abbrev pub escape_string : List ℕ → StringBuffer → StringBuffer
  escape_string str sb = escape_loop str 0 str sb

abbrev pub unescape_char : ℕ → ℕ
unescape_char c =
    if c == 48
    then 0
    else if c == 110
    then 10
    else if c == 116
    then 9
    else if c == 114
    then 13
    else if c == 34
    then 34
    else if c == 39
    then 39
    else c

-- The bytes that `unescape_string` writes to `dst`, as many as it returns, when it is given the
-- memory from `p` on. At a NUL the C code sets `err` and reads on behind the line: `none`.
pub unescape_string : List ℕ → Option (List ℕ)
unescape_string [] = none
unescape_string (c ∷ []) = if c == 34 then some [] else none
unescape_string (c ∷ d ∷ p) =
    let plain = unescape_string (d ∷ p) in
    let escaped = unescape_string p in
    if c == 34
    then some []
    else if c == 0
    then none
    else if c == 92
    then (escaped >>= λ r. some (unescape_char d ∷ r))
    else (plain >>= λ r. some (c ∷ r))
