-- ===== src/Util/Strings/Buffer.antt =====
-- src/util/util.c: what a string buffer holds, and what `escape_string` adds to it.
use my9cc.Util.Strings.{
  StringBuffer, until_nul, sb_append, total_len, copy_bytes, copy_all, sb_to_string, escape,
  escape_loop, escape_string,
}
use mathlib.Core.List.{append_assoc, append-nil}
use my9cc.Prelude.{
  ℕ, zero, suc, ◌+◌, ◌≤◌, ◌≡◌, refl, drop, replicate, length-drop, length-replicate, inl, inr, Bool,
  true, false, Option, none, some, List, [], ◌∷◌, ◌++◌, ltb, ◌==◌, if◌then◌else◌, take, length,
  length-append, arith, ap, sym, ◌∙◌, take-length_append, Option-cases, ◌||◌, leb, subst,
}

abbrev pub flatten : StringBuffer → List ℕ
flatten [] = []
flatten (e ∷ es) = e ++ flatten es

length-flatten : (sb : StringBuffer) → length (flatten sb) ≡ total_len sb
unfolding total_len
length-flatten [] = refl
length-flatten (e ∷ es) = omega (arith, length-append e (flatten es), length-flatten es)

drop-behind : (a b : List ℕ) (n : ℕ) → drop (length a + n) (a ++ b) ≡ drop n b
drop-behind [] b n = ap (λ k. drop k b) (plus_zero n)
  where
    plus_zero : (n : ℕ) → 0 + n ≡ n
    plus_zero n = omega arith
drop-behind (x ∷ a) b n =
    let next : length (x ∷ a) + n ≡ suc (length a + n) = omega arith in rw next (drop-behind a b n)

-- What is written behind `done`, where there is room.
copy_bytes-behind :
    (done bytes room : List ℕ)
    → length bytes ≤ length room
    → copy_bytes (length done) bytes (done ++ room)
      ≡ some ((done ++ bytes) ++ drop (length bytes) room)
unfolding copy_bytes
copy_bytes-behind done bytes room h =
    let fits : leb (length done + length bytes) (length (done ++ room)) ≡ true =
      let total = length-append done room in ground arith in
    rw (fits, take-length_append done room, drop-behind done room (length bytes)) refl

drop-drop : (m n : ℕ) (l : List ℕ) → drop n (drop m l) ≡ drop (m + n) l
drop-drop zero n l = let none_more : zero + n ≡ n = omega arith in rw none_more refl
drop-drop (suc m) n [] = drop_nil n ∙ sym (drop_nil (suc m + n))
  where
    drop_nil : (n : ℕ) → drop {A = ℕ} n [] ≡ []
    drop_nil zero = refl
    drop_nil (suc n) = refl
drop-drop (suc m) n (x ∷ l) =
    let next : suc m + n ≡ suc (m + n) = omega arith in rw next (drop-drop m n l)

copy_all-flatten :
    (done room : List ℕ) (sb : StringBuffer)
    → total_len sb ≤ length room
    → copy_all (length done) sb (done ++ room)
      ≡ some ((done ++ flatten sb) ++ drop (total_len sb) room, length done + total_len sb)
unfolding copy_all total_len
copy_all-flatten done room [] h = rw (append-nil done) (ground arith)
copy_all-flatten done room (e ∷ es) h =
    let first = copy_bytes-behind done e room (omega arith) in
    let left = length-drop (length e) room in
    let next = copy_all-flatten (done ++ e) (drop (length e) room) es (omega arith) in
    let size : length (done ++ e) ≡ length done + length e = length-append done e in
    let sum : length done + length e + total_len es ≡ length done + (length e + total_len es) =
      omega arith in
    rw first (
      (rw (size, append_assoc done e (flatten es), drop-drop (length e) (total_len es) room, sum) at
        next))

-- `sb_to_string` writes the elements one behind the other and a NUL into the total_len + 1 bytes that
-- it allocates, which they fill: no write falls outside.
pub sb_to_string-flatten :
    (junk : ℕ) (sb : StringBuffer) → sb_to_string junk sb ≡ some (flatten sb ++ (0 ∷ []))
unfolding sb_to_string
sb_to_string-flatten junk sb =
    let n = total_len sb in
    let size : length {A = ℕ} (replicate (n + 1) junk) ≡ n + 1 = length-replicate (n + 1) junk in
    let copied = copy_all-flatten [] (replicate (n + 1) junk) sb (omega arith) in
    let room = drop n (replicate (n + 1) junk) in
    let one : length room ≡ 1 = omega (arith, length-drop n (replicate (n + 1) junk)) in
    let at_end : length (flatten sb) ≡ n = length-flatten sb in
    let start : 0 + n ≡ n = omega arith in
    let last = copy_bytes-behind (flatten sb) (0 ∷ []) room (omega arith) in
    rw (copied, start)
      ((rw at_end at last)
        ∙ ap (λ l. some ((flatten sb ++ (0 ∷ [])) ++ l)) (drop_all room one)
        ∙ ap some (append-nil (flatten sb ++ (0 ∷ []))))
  where
    drop_all : (l : List ℕ) → length l ≡ 1 → drop 1 l ≡ []
    drop_all [] h = refl
    drop_all (x ∷ []) h = refl
    drop_all (x ∷ (y ∷ l)) h = absurd (omega arith)

flatten-append : (a b : StringBuffer) → flatten (a ++ b) ≡ flatten a ++ flatten b
flatten-append [] b = refl
flatten-append (e ∷ a) b =
    ap (λ l. e ++ l) (flatten-append a b) ∙ sym (append_assoc e (flatten a) (flatten b))

flatten-one : (sb : StringBuffer) (e : List ℕ) → flatten (sb ++ (e ∷ [])) ≡ flatten sb ++ e
flatten-one sb e = flatten-append sb (e ∷ []) ∙ ap (λ l. flatten sb ++ l) (append-nil e)

module _ (print_hex : ℕ → List ℕ) where
  -- What stands for one byte.
  abbrev pub piece : ℕ → List ℕ
  piece c = elim (escape print_hex c) [ none ↦ c ∷ [] | some e ↦ e ]

  abbrev pub pieces : List ℕ → List ℕ
  pieces [] = []
  pieces (c ∷ cs) = piece c ++ pieces cs

  pub piece_plain : (c : ℕ) → escape print_hex c ≡ none → piece c ≡ c ∷ []
  piece_plain c h = ap (λ (o : Option (List ℕ)). elim o [ none ↦ c ∷ [] | some e ↦ e ]) h

  piece_escaped : (c : ℕ) (e : List ℕ) → escape print_hex c ≡ some e → piece c ≡ e
  piece_escaped c e h = ap (λ (o : Option (List ℕ)). elim o [ none ↦ c ∷ [] | some e' ↦ e' ]) h

  abbrev step : List ℕ → ℕ → List ℕ → StringBuffer → Option (List ℕ) → StringBuffer
  step s n p sb none = escape_loop print_hex s (n + 1) p sb
  step s n p sb (some e) =
      escape_loop print_hex p 0 p
        (sb_append (if ltb 0 n then sb_append sb s (some n) else sb) e none)

  loop_plain :
      (s : List ℕ) (n c : ℕ) (p : List ℕ) (sb : StringBuffer)
      → escape print_hex c ≡ none
      → escape_loop print_hex s n (c ∷ p) sb ≡ escape_loop print_hex s (n + 1) p sb
  unfolding escape_loop
  loop_plain s n c p sb h = ap (step s n p sb) h

  loop_escaped :
      (s : List ℕ) (n c : ℕ) (p : List ℕ) (sb : StringBuffer) (e : List ℕ)
      → escape print_hex c ≡ some e
      → escape_loop print_hex s n (c ∷ p) sb
        ≡ escape_loop print_hex p 0 p
            (sb_append (if ltb 0 n then sb_append sb s (some n) else sb) e none)
  unfolding escape_loop
  loop_escaped s n c p sb e h = ap (step s n p sb) h

  -- The bytes since the last escape are added as they are.
  pending :
      (a p : List ℕ) (sb : StringBuffer)
      → flatten (if ltb 0 (length a) then sb_append sb (a ++ p) (some (length a)) else sb)
        ≡ flatten sb ++ a
  pending [] p sb = sym (append-nil (flatten sb))
  pending (c ∷ a) p sb =
      let some_left : ltb 0 (length (c ∷ a)) ≡ true = ground arith in
      rw some_left (
        flatten-one sb (take (length (c ∷ a)) ((c ∷ a) ++ p))
        ∙ ap (λ l. flatten sb ++ l) (take-length_append (c ∷ a) p))

  -- An escape without a NUL.
  Whole : Option (List ℕ) → Type 0
  Whole none = Unit
  Whole (some e) = until_nul e ≡ e

  Whole-if : (b : Bool) (o o' : Option (List ℕ)) → Whole o → Whole o' → Whole (if b then o else o')
  Whole-if true o o' h k = h
  Whole-if false o o' h k = k

  -- `snprintf` writes digits, none of them NUL.
  module _ (digits : (c : ℕ) → until_nul (print_hex c) ≡ print_hex c) where
    Whole-escape : (c : ℕ) → Whole (escape print_hex c)
    unfolding escape Whole
    Whole-escape c = Whole-if (c == 0) _ _ refl (
        Whole-if (c == 10) _ _ refl (
          Whole-if (c == 13) _ _ refl (
            Whole-if (c == 9) _ _ refl (
              Whole-if (c == 34) _ _ refl (
                Whole-if (c == 92) _ _ refl (
                  Whole-if (ltb c 32 || leb 127 c) (some (92 ∷ 120 ∷ print_hex c)) none
                    (ap (λ l. 92 ∷ 120 ∷ l) (digits c)) tt))))))

    whole : (c : ℕ) (e : List ℕ) → escape print_hex c ≡ some e → until_nul e ≡ e
    unfolding Whole
    whole c e h = subst Whole h (Whole-escape c)

    pub escape_loop-pieces :
        (a p : List ℕ) (sb : StringBuffer)
        → flatten (escape_loop print_hex (a ++ p) (length a) p sb) ≡ (flatten sb ++ a) ++ pieces p
    unfolding escape_loop
    escape_loop-pieces a [] sb = pending a [] sb ∙ sym (append-nil (flatten sb ++ a))
    escape_loop-pieces a (c ∷ p) sb = elim (Option-cases (escape print_hex c)) [
      | inl plain ↦
          let next : (a ++ (c ∷ [])) ++ p ≡ a ++ (c ∷ p) = append_assoc a (c ∷ []) p in
          let far : length (a ++ (c ∷ [])) ≡ length a + 1 = length-append a (c ∷ []) in
          ap flatten (loop_plain (a ++ (c ∷ p)) (length a) c p sb plain)
          ∙ (rw (next, far) at (escape_loop-pieces (a ++ (c ∷ [])) p sb))
          ∙ regroup (flatten sb) a (c ∷ []) (pieces p)
          ∙ ap (λ l. (flatten sb ++ a) ++ (l ++ pieces p)) (sym (piece_plain c plain))
      | inr (e, escaped) ↦
          let sb' =
            if ltb 0 (length a) then sb_append sb (a ++ (c ∷ p)) (some (length a)) else sb in
          ap flatten (loop_escaped (a ++ (c ∷ p)) (length a) c p sb e escaped)
          ∙ escape_loop-pieces [] p (sb_append sb' e none)
          ∙ ap (λ l. (l ++ []) ++ pieces p) (added a (c ∷ p) sb e (whole c e escaped))
          ∙ ap (λ l. l ++ pieces p) (append-nil ((flatten sb ++ a) ++ e))
          ∙ append_assoc (flatten sb ++ a) e (pieces p)
          ∙ ap (λ l. (flatten sb ++ a) ++ (l ++ pieces p)) (sym (piece_escaped c e escaped))
    ]
      where
        regroup : (s a b t : List ℕ) → (s ++ (a ++ b)) ++ t ≡ (s ++ a) ++ (b ++ t)
        regroup s a b t = ap (λ l. l ++ t) (sym (append_assoc s a b)) ∙ append_assoc (s ++ a) b t

        added :
            (a p : List ℕ) (sb : StringBuffer) (e : List ℕ)
            → until_nul e ≡ e
            → flatten (
                sb_append
                  (if ltb 0 (length a) then sb_append sb (a ++ p) (some (length a)) else sb)
                  e
                  none)
              ≡ (flatten sb ++ a) ++ e
        added a p sb e h =
            flatten-one (if ltb 0 (length a) then sb_append sb (a ++ p) (some (length a)) else sb)
              (until_nul e)
            ∙ ap (λ l. l ++ until_nul e) (pending a p sb)
            ∙ ap (λ l. (flatten sb ++ a) ++ l) h

    -- escape_string adds to the buffer, for each byte in turn, its escape or the byte itself,
    -- provided that the hexadecimal digits that the C library prints are no NULs.
    pub escape_string-pieces :
        (str : List ℕ) (sb : StringBuffer)
        → flatten (escape_string print_hex str sb) ≡ flatten sb ++ pieces str
    escape_string-pieces str sb =
        escape_loop-pieces [] str sb ∙ ap (λ l. l ++ pieces str) (append-nil (flatten sb))
