-- ===== src/Util/Vector/Edit.antt =====
-- src/util/util.c: `vec_pop`, `vec_insert` and `vec_remove_at` on a vector that stands for a list.
use my9cc.Util.Vector.{Vector, memmove, vec_push, vec_pop, vec_insert, vec_remove_at}
use my9cc.Util.Vector.Represents.{
  Represents, shift_right, shift_left, vec_push-append, one_more, len-vec_push, get_or-append,
}
use mathlib.Core.List.{append_assoc, append-nil}
use my9cc.Prelude.{
  ℕ, ◌+◌, ◌-◌, ◌≤◌, ◌<◌, ◌≡◌, refl, inl, inr, true, false, List, [], ◌∷◌, ◌++◌, ltb, leb, set,
  length, length-append, arith, ap, sym, ◌∙◌, Bool-cases, subst,
}
use my9cc.Prelude.Int.{pos, negsuc}

module _ {ℓ} {P : Type ℓ} (null junk : P) where
  pop_empty : (vec : Vector P) → Represents vec [] → vec_pop null junk vec ≡ (null, vec)
  unfolding vec_pop
  pop_empty vec v = rw v.size

  pop_last :
      (vec : Vector P) (ys : List P) (x : P)
      → Represents vec (ys ++ (x ∷ []))
      → ((vec_pop null junk vec).0 ≡ x) × Represents (vec_pop null junk vec).1 ys
  unfolding vec_pop
  pop_last vec ys x v =
      let cells : vec.cells ≡ ys ++ (x ∷ v.spare) = v.contents ∙ sym (one_more ys x v.spare) in
      let size : vec.len ≡ length ys + 1 = v.size ∙ length-append ys (x ∷ []) in
      let some_left : ltb 0 vec.len ≡ true = ground arith in
      let below : vec.len - 1 ≡ length ys = omega arith in
      rw some_left (
        rw (below, cells) (get_or-append ys x v.spare null),
        record { spare = x ∷ v.spare; contents = cells; size = below; room = v.room },
      )

  -- On a vector that stands for `xs`, vec_pop gives NULL and changes nothing when `xs` is empty, and
  -- it takes the last element off otherwise.
  pub vec_pop-last :
      (vec : Vector P) (xs : List P)
      → Represents vec xs
      → (xs ≡ [] → vec_pop null junk vec ≡ (null, vec))
        × ((ys : List P) (x : P)
            → xs ≡ ys ++ (x ∷ [])
            → ((vec_pop null junk vec).0 ≡ x) × Represents (vec_pop null junk vec).1 ys)
  vec_pop-last vec xs v = (
    λ e. pop_empty vec (subst (λ (l : List P). Represents vec l) e v),
    λ ys x e. pop_last vec ys x (subst (λ (l : List P). Represents vec l) e v),
  )

  insert_inside :
      (vec : Vector P) (a b : List P) (x : P)
      → 0 < length b
      → Represents vec (a ++ b)
      → Represents (vec_insert null junk vec (pos (length a)) x) (a ++ (x ∷ b))
  unfolding vec_insert
  insert_inside vec a b x h v =
      let size : vec.len ≡ length a + length b = v.size ∙ length-append a b in
      let inside : ltb vec.len (length a) ≡ false = ground arith in
      let before : ltb (length a) vec.len ≡ true = ground arith in
      let w = vec_push-append null junk vec (a ++ b) null v in
      let d : vec.len - length a ≡ length b = omega arith in
      let cells : (vec_push null junk vec null).cells ≡ a ++ (b ++ (null ∷ w.spare)) =
        w.contents ∙ sym (one_more (a ++ b) null w.spare) ∙ append_assoc a b (null ∷ w.spare) in
      let moved : set
            (memmove (vec_push null junk vec null).cells (length a + 1) (length a)
              (vec.len - length a))
            (length a) x
          ≡ (a ++ (x ∷ b)) ++ w.spare =
        rw (cells, d) (shift_right a b x null w.spare ∙ sym (append_assoc a (x ∷ b) w.spare)) in
      rw (inside, before)
        (record {
          spare = w.spare;
          contents = moved;
          size = len-vec_push null junk vec null ∙ omega (arith, length-append a (x ∷ b));
          room = omega (
            arith,
            w.room,
            ap length w.contents,
            ap length moved,
            length-append ((a ++ b) ++ (null ∷ [])) w.spare,
            length-append (a ++ b) (null ∷ []),
            length-append a b,
            length-append (a ++ (x ∷ b)) w.spare,
            length-append a (x ∷ b),
          );
        })

  insert_end :
      (vec : Vector P) (a : List P) (x : P)
      → Represents vec a
      → Represents (vec_insert null junk vec (pos (length a)) x) (a ++ (x ∷ []))
  unfolding vec_insert
  insert_end vec a x v =
      let inside : ltb vec.len (length a) ≡ false = ground (arith, v.size) in
      let last : ltb (length a) vec.len ≡ false = ground (arith, v.size) in
      rw (inside, last) (vec_push-append null junk vec a x v)

  insert_between :
      (vec : Vector P) (a b : List P) (x : P)
      → Represents vec (a ++ b)
      → Represents (vec_insert null junk vec (pos (length a)) x) (a ++ (x ∷ b))
  insert_between vec a [] x v =
      insert_end vec a x (subst (λ (l : List P). Represents vec l) (append-nil a) v)
  insert_between vec a (y ∷ b) x v = insert_inside vec a (y ∷ b) x (omega arith) v

  -- On a vector that stands for `xs`, vec_insert at a position within `xs` or at its end puts the
  -- element there, before what stood there, and at any other position it changes nothing.
  pub vec_insert-between :
      (vec : Vector P) (xs : List P) (x : P)
      → Represents vec xs
      → ((a b : List P)
          → xs ≡ a ++ b
          → Represents (vec_insert null junk vec (pos (length a)) x) (a ++ (x ∷ b)))
        × ((i : ℕ) → length xs < i → vec_insert null junk vec (pos i) x ≡ vec)
        × ((i : ℕ) → vec_insert null junk vec (negsuc i) x ≡ vec)
  unfolding vec_insert
  vec_insert-between vec xs x v = (
    λ a b e. insert_between vec a b x (subst (λ (l : List P). Represents vec l) e v),
    λ i h. let out : ltb vec.len i ≡ true = ground (arith, v.size) in rw out,
    λ i. refl,
  )

  remove_inside :
      (vec : Vector P) (a b : List P) (y : P)
      → Represents vec (a ++ (y ∷ b))
      → Represents (vec_remove_at null junk vec (pos (length a))) (a ++ b)
  unfolding vec_remove_at
  remove_inside vec a b y v =
      let size : vec.len ≡ length a + (length b + 1) =
        v.size ∙ length-append a (y ∷ b) ∙ omega arith in
      let inside : leb vec.len (length a) ≡ false = ground arith in
      let d : vec.len - length a - 1 ≡ length b = omega arith in
      let cells : vec.cells ≡ a ++ (y ∷ (b ++ v.spare)) =
        v.contents ∙ append_assoc a (y ∷ b) v.spare in
      let less : vec.len - 1 ≡ length (a ++ b) = omega (arith, length-append a b) in
      let (rest, moved, size_rest) = shift_left a y b v.spare in
      let shifted : memmove vec.cells (length a) (length a + 1) (length b) ≡ (a ++ b) ++ rest =
        rw cells moved in
      elim (Bool-cases (ltb 0 (length b))) [
        | inl some_behind ↦
            rw (inside, d, some_behind)
              (record {
                spare = rest;
                contents = shifted;
                size = less;
                room = omega (
                  arith,
                  v.room,
                  ap length cells,
                  ap length shifted,
                  length-append (a ++ b) rest,
                  length-append a (y ∷ (b ++ v.spare)),
                  length-append b v.spare,
                  length-append a b,
                  size_rest,
                );
              })
        | inr none_behind ↦
            rw (inside, d, none_behind)
              (record {
                spare = y ∷ v.spare;
                contents =
                    (let e = nothing_left b none_behind in
                      let cells' : vec.cells ≡ a ++ (y ∷ v.spare) = rw e at cells in
                      rw e (cells' ∙ ap (λ l. l ++ (y ∷ v.spare)) (sym (append-nil a))));
                size = less;
                room = v.room;
              })
      ]
    where
      nothing_left : (b : List P) → ltb 0 (length b) ≡ false → b ≡ []
      nothing_left [] h = refl
      nothing_left (z ∷ b) h = absurd (ground arith)

  -- On a vector that stands for `xs`, vec_remove_at at a position within `xs` takes that element
  -- out, and at any other position it changes nothing.
  pub vec_remove_at-without :
      (vec : Vector P) (xs : List P)
      → Represents vec xs
      → ((a b : List P) (y : P)
          → xs ≡ a ++ (y ∷ b)
          → Represents (vec_remove_at null junk vec (pos (length a))) (a ++ b))
        × ((i : ℕ) → length xs ≤ i → vec_remove_at null junk vec (pos i) ≡ vec)
        × ((i : ℕ) → vec_remove_at null junk vec (negsuc i) ≡ vec)
  unfolding vec_remove_at
  vec_remove_at-without vec xs v = (
    λ a b y e. remove_inside vec a b y (subst (λ (l : List P). Represents vec l) e v),
    λ i h. let out : leb vec.len i ≡ true = ground (arith, v.size) in rw out,
    λ i. refl,
  )
