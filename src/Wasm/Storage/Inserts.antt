-- ===== src/Wasm/Storage/Inserts.antt =====
-- wasm/src/wcc_util.c: a `DataStorage` holds a list of bytes.
use my9cc.Wasm.Storage.{DataStorage, reserved, data_reserve, data_insert}
use my9cc.Util.Vector.{memmove}
use my9cc.Util.Vector.Represents.{take_prefix, drop_prefix, drop-append}
use mathlib.Core.List.{append_assoc, append-nil}
use my9cc.Prelude.{
  ℕ, suc, ◌+◌, ◌-◌, ◌*◌, ◌%◌, ◌^◌, ◌≤◌, ◌<◌, ◌≡◌, refl, inl, inr, true, some, List, [], ◌∷◌, ◌++◌,
  ltb, leb, if◌then◌else◌, take, drop, length, replicate, length-append, length-replicate,
  length-take, length-drop, take-length_append, arith, ap, sym, ◌∙◌, Bool-cases,
}

-- The storage holds `xs`, and behind it bytes that nothing reads.
pub record Holds (d : DataStorage) (xs : List ℕ) : Type 0 where
  pub spare : List ℕ
  pub contents : d.buf ≡ xs ++ spare
  pub full : d.len ≡ length xs
  pub room : d.capacity ≡ length d.buf

le-reserved : (c n : ℕ) → n ≤ reserved c n
le-reserved c n = ground arith

module _ (junk : ℕ) where
  data_reserve-Holds :
      (d : DataStorage) (xs : List ℕ) (n : ℕ)
      → Holds d xs
      → Holds (data_reserve junk d n) xs × (n ≤ (data_reserve junk d n).capacity)
  unfolding data_reserve
  data_reserve-Holds d xs n v = elim (Bool-cases (ltb d.capacity n)) [
    | inr enough ↦ rw enough (v, ground arith)
    | inl short ↦
        let c = reserved (d.capacity * 2 % 2 ^ 64) n in
        let more = replicate (c - d.capacity) junk in
        let enough : n ≤ c = le-reserved (d.capacity * 2 % 2 ^ 64) n in
        let less : d.capacity < n = ground arith in
        rw short (
          record {
            spare = v.spare ++ more;
            contents = ap (λ l. l ++ more) v.contents ∙ append_assoc xs v.spare more;
            full = v.full;
            room = omega (
              arith,
              length-append d.buf more,
              length-replicate (c - d.capacity) junk,
              v.room,
              enough,
              less,
            );
          },
          enough,
        )
  ]

take-append_more : (a l : List ℕ) (s : ℕ) → take (length a + s) (a ++ l) ≡ a ++ take s l
take-append_more [] l s = ap (λ (t : ℕ). take t l) (omega arith)
take-append_more (x ∷ a) l s =
    let next : suc (length a) + s ≡ suc (length a + s) = omega arith in
    ap (λ (t : ℕ). take t (x ∷ (a ++ l))) next ∙ ap (λ t. x ∷ t) (take-append_more a l s)

-- The bytes behind the position are moved, and the new ones are written in the gap.
splice :
    (a b bytes spare rest w : List ℕ)
    → length w ≡ length bytes
    → (take (length a) (((a ++ w) ++ b) ++ rest) ++ bytes)
        ++ drop (length a + length bytes) (((a ++ w) ++ b) ++ rest)
      ≡ (a ++ (bytes ++ b)) ++ rest
splice a b bytes spare rest w size =
    let moved = ((a ++ w) ++ b) ++ rest in
    let all_a : moved ≡ a ++ (w ++ (b ++ rest)) =
      append_assoc (a ++ w) b rest ∙ append_assoc a w (b ++ rest) in
    let first = take_prefix (length a) a (w ++ (b ++ rest)) moved all_a refl in
    let behind =
      drop_prefix (length a + length bytes) (a ++ w) (b ++ rest) moved
        (append_assoc (a ++ w) b rest) (omega (arith, length-append a w, size)) in
    rw (first, behind)
      (sym (append_assoc (a ++ bytes) b rest) ∙ ap (λ l. l ++ rest) (append_assoc a bytes b))

-- What `memmove` makes.
moved_gap :
    (a b spare : List ℕ) (n : ℕ)
    → memmove ((a ++ b) ++ spare) (length a + n) (length a) (length b)
      ≡ ((a ++ take n (b ++ spare)) ++ b) ++ drop (length a + n + length b) ((a ++ b) ++ spare)
moved_gap a b spare n =
    let joined = append_assoc a b spare in
    let first : take (length a + n) ((a ++ b) ++ spare) ≡ a ++ take n (b ++ spare) =
      ap (λ l. take (length a + n) l) joined ∙ take-append_more a (b ++ spare) n in
    let middle : take (length b) (drop (length a) ((a ++ b) ++ spare)) ≡ b =
      ap (λ l. take (length b) (drop (length a) l)) joined
      ∙ ap (λ l. take (length b) l) (drop-append a (b ++ spare))
      ∙ take-length_append b spare in
    ap
      (λ l.
        (l ++ take (length b) (drop (length a) ((a ++ b) ++ spare)))
        ++ drop (length a + n + length b) ((a ++ b) ++ spare))
      first
    ∙ ap
        (λ l.
          ((a ++ take n (b ++ spare)) ++ l) ++ drop (length a + n + length b) ((a ++ b) ++ spare))
        middle

none_behind : (b : List ℕ) → length b ≡ 0 → b ≡ []
none_behind [] h = refl
none_behind (x ∷ b) h = absurd (omega arith)

-- The storage after the bytes are moved, if there are any behind the position.
inserted :
    (a b bytes spare buf : List ℕ) (len : ℕ)
    → buf ≡ (a ++ b) ++ spare
    → len ≡ length (a ++ b)
    → length (a ++ b) + length bytes ≤ length buf
    → (rest : List ℕ) × (length rest + (length (a ++ b) + length bytes) ≡ length buf)
      × ((take (length a) (
                if ltb (length a) len
                then memmove buf (length a + length bytes) (length a) (len - length a)
                else buf)
              ++ bytes)
            ++ drop (length a + length bytes) (
                if ltb (length a) len
                then memmove buf (length a + length bytes) (length a) (len - length a)
                else buf)
          ≡ (a ++ (bytes ++ b)) ++ rest)
inserted a b bytes spare buf len e f room =
    let total = length-append a b in
    let whole : length buf ≡ length ((a ++ b) ++ spare) = ap length e in
    let size = whole ∙ length-append (a ++ b) spare in
    elim (Bool-cases (ltb (length a) len)) [
      | inl inside ↦
          let count : len - length a ≡ length b = omega (arith, total) in
          let gap = take (length bytes) (b ++ spare) in
          let gap_size : length gap ≡ length bytes =
            omega (
              arith,
              length-take (length bytes) (b ++ spare),
              length-append b spare,
              total,
              size,
            ) in
          let rest = drop (length a + length bytes + length b) ((a ++ b) ++ spare) in
          (
            rest,
            omega (
              arith,
              length-drop (length a + length bytes + length b) ((a ++ b) ++ spare),
              total,
              size,
              whole,
            ),
            rw (inside, count, e, moved_gap a b spare (length bytes))
                (splice a b bytes spare rest gap gap_size),
          )
      | inr at_end ↦
          let none_left : b ≡ [] = none_behind b (ground (arith, total)) in
          let rest = drop (length a + length bytes) buf in
          let start : buf ≡ a ++ spare =
            e ∙ ap (λ l. (a ++ l) ++ spare) none_left ∙ ap (λ l. l ++ spare) (append-nil a) in
          (
            rest,
            omega (
              arith,
              length-drop (length a + length bytes) buf,
              total,
              ap (λ (l : List ℕ). length l) none_left,
            ),
            rw at_end (
                ap (λ l. (l ++ bytes) ++ rest) (take_prefix (length a) a spare buf start refl)
                ∙ ap (λ l. (a ++ l) ++ rest)
                    (sym (append-nil bytes) ∙ ap (λ l. bytes ++ l) (sym none_left))),
          )
    ]

module _ (junk : ℕ) where
  -- data_insert at a position within the bytes, or at their end, puts the new ones there, provided
  -- that there are at most 2 ^ 62 in all.
  pub data_insert-between :
      (d : DataStorage) (a b bytes : List ℕ)
      → Holds d (a ++ b)
      → length (a ++ b) + length bytes ≤ 2 ^ 62
      → (d' : DataStorage) × (data_insert junk d (length a) bytes ≡ some d')
        × Holds d' (a ++ (bytes ++ b))
  unfolding data_insert
  data_insert-between d a b bytes v bound =
      let n : (d.len + length bytes) % 2 ^ 64 ≡ length (a ++ b) + length bytes =
        omega (arith, v.full) in
      let (w, enough) = data_reserve-Holds junk d (a ++ b) (length (a ++ b) + length bytes) v in
      let r = data_reserve junk d (length (a ++ b) + length bytes) in
      let within : leb (length a) d.len ≡ true = ground (arith, v.full, length-append a b) in
      let (rest, left, e) =
        inserted a b bytes w.spare r.buf r.len w.contents w.full (omega (arith, w.room, enough)) in
      let total : length (a ++ b) + length bytes ≡ length (a ++ (bytes ++ b)) =
        omega (arith, length-append a b, length-append a (bytes ++ b), length-append bytes b) in
      rw (n, within)
        (
          _,
          refl,
          record {
            spare = rest;
            contents = e;
            full = total;
            room =
                w.room
                ∙ sym left
                ∙ omega (arith, length-append (a ++ (bytes ++ b)) rest, total)
                ∙ ap length (sym e);
          },
        )
