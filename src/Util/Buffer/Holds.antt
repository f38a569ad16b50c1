-- ===== src/Util/Buffer/Holds.antt =====
-- src/util/util.c: a `Buffer` holds a list of bytes.
use my9cc.Util.Align.{align_up}
use my9cc.Util.Align.Laws.{IsAligned, align_up-IsAligned}
use my9cc.Util.Buffer.{Buffer, new_capa, make_room, buf_put, buf_align}
use my9cc.Util.Vector.Represents.{take_prefix}
use mathlib.Core.List.{append_assoc, append-nil}
use my9cc.Prelude.{
  ℕ, ◌+◌, ◌-◌, ◌*◌, ◌%◌, ◌^◌, ◌≤◌, ◌<◌, ◌≡◌, refl, inl, inr, some, true, List, ◌++◌, ltb, ◌==◌,
  take, drop, length, replicate, length-append, length-replicate, length-drop, arith, ap, sym, ◌∙◌,
  Bool-cases, subst,
}

-- The buffer holds `xs`, and behind it bytes that nothing reads.
pub record Holds (buf : Buffer) (xs : List ℕ) : Type 0 where
  pub spare : List ℕ
  pub contents : buf.cells ≡ xs ++ spare
  pub full : buf.size ≡ length xs
  pub room : buf.capa ≡ length buf.cells

-- The new capacity is enough.
le-new_capa : (n : ℕ) → n * 2 + 32 ≤ 2 ^ 64 → n ≤ new_capa n
le-new_capa n h = elim (Bool-cases (ltb 8 n)) [
  | inl big ↦
      let fits : n * 2 % 2 ^ 64 ≡ n * 2 = omega arith in
      rw (big, fits)
        (omega (arith, (align_up-IsAligned 64 4 (n * 2) (omega arith) (omega arith)).above))
  | inr small ↦
      rw small (ground (arith, (align_up-IsAligned 64 4 16 (omega arith) (omega arith)).above))
]

module _ (junk : ℕ) where
  make_room-Holds :
      (buf : Buffer) (xs : List ℕ) (n : ℕ)
      → n * 2 + 32 ≤ 2 ^ 64
      → Holds buf xs
      → Holds (make_room junk buf n) xs × (n ≤ (make_room junk buf n).capa)
  unfolding make_room
  make_room-Holds buf xs n h v = elim (Bool-cases (ltb buf.capa n)) [
    | inr enough ↦ rw enough (v, ground arith)
    | inl short ↦
        let more = replicate (new_capa n - buf.capa) junk in
        let enough : n ≤ new_capa n = le-new_capa n h in
        let less : buf.capa < n = ground arith in
        let size = length-replicate (new_capa n - buf.capa) junk in
        rw short (
          record {
            spare = v.spare ++ more;
            contents = ap (λ l. l ++ more) v.contents ∙ append_assoc xs v.spare more;
            full = v.full;
            room = omega (arith, length-append buf.cells more, size, v.room, enough, less);
          },
          enough,
        )
  ]

  -- buf_put appends the bytes, provided that twice the new size and 32 do not exceed 2 ^ 64, and the
  -- capacity is never below the size.
  pub buf_put-append :
      (buf : Buffer) (xs bytes : List ℕ)
      → (length xs + length bytes) * 2 + 32 ≤ 2 ^ 64
      → Holds buf xs
      → Holds (buf_put junk buf bytes) (xs ++ bytes)
        × ((buf_put junk buf bytes).size ≤ (buf_put junk buf bytes).capa)
  unfolding buf_put
  buf_put-append buf xs bytes h v =
      let size : (buf.size + length bytes) % 2 ^ 64 ≡ length xs + length bytes =
        omega (arith, v.full) in
      let (w, enough) = make_room-Holds buf xs (length xs + length bytes) h v in
      let b = make_room junk buf (length xs + length bytes) in
      let kept : take buf.size b.cells ≡ xs =
        take_prefix buf.size xs w.spare b.cells w.contents v.full in
      let behind = drop (buf.size + length bytes) b.cells in
      let total = ap length w.contents ∙ length-append xs w.spare in
      rw (size, kept)
        (
          record {
            spare = behind;
            contents = refl;
            full = sym (length-append xs bytes);
            room = omega (
              arith,
              w.room,
              total,
              enough,
              v.full,
              length-append (xs ++ bytes) behind,
              length-append xs bytes,
              length-drop (buf.size + length bytes) b.cells,
            );
          },
          enough,
        )

  nothing_added :
      (buf : Buffer) (xs : List ℕ)
      → Holds buf xs
      → (n : ℕ) → n ≡ 0
      → Holds buf (xs ++ replicate n 0)
  nothing_added buf xs v n z =
      subst (λ (l : List ℕ). Holds buf l)
        (sym (ap (λ (m : ℕ). xs ++ replicate m 0) z ∙ append-nil xs)) v

  -- buf_align at a power of two keeps its assertion, and fills the buffer with zeros up to the next
  -- multiple of it, provided that twice the sum of the size and the alignment, and 32, do not exceed 2 ^ 64.
  pub buf_align-IsAligned :
      (buf : Buffer) (xs : List ℕ) (k : ℕ)
      → k ≤ 62
      → (length xs + 2 ^ k) * 2 + 32 ≤ 2 ^ 64
      → Holds buf xs
      → (b : Buffer) × (buf_align junk buf (2 ^ k) ≡ some b)
        × ((n : ℕ) × Holds b (xs ++ replicate n 0) × IsAligned (length xs) (2 ^ k) (length xs + n))
  unfolding buf_align
  buf_align-IsAligned buf xs k hk h v =
      let a = align_up-IsAligned 64 k (length xs) (omega arith) (omega arith) in
      let n = align_up 64 (length xs) (2 ^ k) - length xs in
      let size : length {A = ℕ} (replicate n 0) ≡ n = length-replicate n 0 in
      let sum : length xs + n ≡ align_up 64 (length xs) (2 ^ k) = omega (arith, a.above) in
      let same : (align_up 64 buf.size (2 ^ k) + 2 ^ 64 - buf.size) % 2 ^ 64 ≡ n =
        omega (arith, v.full, a.above, a.below, ap (λ m. align_up 64 m (2 ^ k)) v.full) in
      let aligned : IsAligned (length xs) (2 ^ k) (length xs + n) = rw sum a in
      elim (Bool-cases (n == 0)) [
        | inl zeros ↦
            (buf, rw (same, zeros) refl, (n, nothing_added buf xs v n (ground arith), aligned))
        | inr zeros ↦
            let w = (buf_put-append buf xs (replicate n 0) (omega (arith, size, a.below)) v).0 in
            let b = buf_put junk buf (replicate n 0) in
            let reached : b.size ≡ align_up 64 buf.size (2 ^ k) = omega (
              arith,
              w.full,
              length-append xs (replicate n 0),
              size,
              sum,
              ap (λ m. align_up 64 m (2 ^ k)) v.full,
            ) in
            let asserted : (b.size == align_up 64 buf.size (2 ^ k)) ≡ true = ground arith in
            (b, simp (same, zeros, asserted) refl, (n, w, aligned))
      ]
