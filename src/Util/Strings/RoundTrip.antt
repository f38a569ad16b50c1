-- ===== src/Util/Strings/RoundTrip.antt =====
-- src/util/util.c and src/as/parse_asm.c: what `escape_string` writes, `unescape_string` reads back.
use my9cc.Util.Strings.{escape, escape_string, unescape_string, until_nul}
use my9cc.Util.Strings.Buffer.{flatten, piece, pieces, piece_plain, escape_string-pieces}
use mathlib.Core.List.{append_assoc}
use my9cc.Prelude.{
  ℕ, ◌≤◌, ◌<◌, ◌≡◌, ◌≢◌, refl, ◌⊎◌, inl, inr, false, Option, none, some, List, [], ◌∷◌, ◌++◌, ltb,
  leb, ◌==◌, ◌>>=◌, arith, ap, ◌∙◌, All, ℕ_discrete,
}

-- A byte that has an escape of one letter, or that stands for itself.
abbrev pub IsText : ℕ → Type 0
IsText c = (c ≡ 0) ⊎ ((c ≡ 9) ⊎ ((c ≡ 10) ⊎ ((c ≡ 13) ⊎ ((32 ≤ c) × (c < 127)))))

unescape_plain :
    (c d : ℕ) (t : List ℕ)
    → c ≢ 34
    → c ≢ 0
    → c ≢ 92
    → unescape_string (c ∷ d ∷ t) ≡ (unescape_string (d ∷ t) >>= λ r. some (c ∷ r))
unfolding unescape_string
unescape_plain c d t p q r =
    let a : (c == 34) ≡ false = ground arith in
    let b : (c == 0) ≡ false = ground arith in
    let e : (c == 92) ≡ false = ground arith in rw (a, b, e)

module _ (print_hex : ℕ → List ℕ) where
  escape_plain : (c : ℕ) → 32 ≤ c → c < 127 → c ≢ 34 → c ≢ 92 → escape print_hex c ≡ none
  unfolding escape
  escape_plain c lo hi p q =
      let e0 : (c == 0) ≡ false = ground arith in
      let e1 : (c == 10) ≡ false = ground arith in
      let e2 : (c == 13) ≡ false = ground arith in
      let e3 : (c == 9) ≡ false = ground arith in
      let e4 : (c == 34) ≡ false = ground arith in
      let e5 : (c == 92) ≡ false = ground arith in
      let e6 : ltb c 32 ≡ false = ground arith in
      let e7 : leb 127 c ≡ false = ground arith in rw (e0, e1, e2, e3, e4, e5, e6, e7)

  -- One byte is read back from what stands for it.
  abbrev Reads : ℕ → ℕ → List ℕ → Type 0
  Reads c d t =
      unescape_string (piece print_hex c ++ (d ∷ t))
      ≡ (unescape_string (d ∷ t) >>= λ r. some (c ∷ r))

  printable-Reads : (c d : ℕ) (t : List ℕ) → 32 ≤ c → c < 127 → Reads c d t
  unfolding unescape_string escape
  printable-Reads c d t lo hi = elim (ℕ_discrete c 34) [
    | yes e ↦ rw e
    | no p ↦ elim (ℕ_discrete c 92) [
      | yes e ↦ rw e
      | no q ↦
          rw (piece_plain print_hex c (escape_plain c lo hi p q))
            (unescape_plain c d t p (omega arith) q)
    ]
  ]

  text-Reads : (c d : ℕ) (t : List ℕ) → IsText c → Reads c d t
  unfolding unescape_string escape
  text-Reads c d t (inl e) = rw e
  text-Reads c d t (inr (inl e)) = rw e
  text-Reads c d t (inr (inr (inl e))) = rw e
  text-Reads c d t (inr (inr (inr (inl e)))) = rw e
  text-Reads c d t (inr (inr (inr (inr (lo, hi))))) = printable-Reads c d t lo hi

  first_of : (l : List ℕ) (c : ℕ) (r : List ℕ) → (d : ℕ) × (t : List ℕ) × (l ++ (c ∷ r) ≡ d ∷ t)
  first_of [] c r = (c, r, refl)
  first_of (d ∷ l) c r = (d, l ++ (c ∷ r), refl)

  closing : (rest : List ℕ) → unescape_string (34 ∷ rest) ≡ some []
  unfolding unescape_string
  closing [] = refl
  closing (c ∷ rest) = refl

  read_pieces :
      (str rest : List ℕ)
      → All IsText str
      → unescape_string (pieces print_hex str ++ (34 ∷ rest)) ≡ some str
  read_pieces [] rest h = closing rest
  read_pieces (c ∷ str) rest (h, hs) =
      let (d, t, e) = first_of (pieces print_hex str) 34 rest in
      let behind : unescape_string (d ∷ t) ≡ some str = rw e at (read_pieces str rest hs) in
      ap unescape_string (
        append_assoc (piece print_hex c) (pieces print_hex str) (34 ∷ rest)
        ∙ ap (λ l. piece print_hex c ++ l) e)
      ∙ text-Reads c d t h
      ∙ ap (λ (o : Option (List ℕ)). o >>= λ r. some (c ∷ r)) behind

  -- A string of bytes that are printable or have an escape of one letter is read back by
  -- unescape_string from what escape_string adds to a buffer for it, with the closing quote behind.
  -- The hexadecimal digits that the C library prints are no NULs.
  pub unescape_string-escape_string :
      ((c : ℕ) → until_nul (print_hex c) ≡ print_hex c)
      → (str rest : List ℕ) → All IsText str
      → unescape_string (flatten (escape_string print_hex str []) ++ (34 ∷ rest)) ≡ some str
  unescape_string-escape_string digits str rest h =
      ap (λ l. unescape_string (l ++ (34 ∷ rest))) (escape_string-pieces print_hex digits str [])
      ∙ read_pieces str rest h
