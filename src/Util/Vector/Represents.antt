-- ===== src/Util/Vector/Represents.antt =====
-- src/util/util.c: a `Vector` stands for a list, and its operations are the list's.
use my9cc.Util.Vector.{Vector, memmove, grow, vec_push}
use my9cc.Prelude.{
  ℕ, suc, ◌+◌, ◌-◌, ◌*◌, ◌<◌, ◌≡◌, refl, inl, inr, false, List, [], ◌∷◌, ◌++◌, leb, if◌then◌else◌,
  get_or, set, take, drop, length, replicate, length-append, length-replicate, arith, ap, sym, ◌∙◌,
  Bool-cases, take-length_append, length-set, length-drop,
}
use mathlib.Core.List.{append_assoc}

-- The vector holds `xs`, and behind it cells that nothing reads.
pub record Represents {ℓ} {P : Type ℓ} (vec : Vector P) (xs : List P) : Type ℓ where
  pub spare : List P
  pub contents : vec.cells ≡ xs ++ spare
  pub size : vec.len ≡ length xs
  pub room : vec.capacity ≡ length vec.cells

module _ {ℓ} {P : Type ℓ} where
  set-append : (a : List P) (c x : P) (b : List P) → set (a ++ (c ∷ b)) (length a) x ≡ a ++ (x ∷ b)
  set-append [] c x b = refl
  set-append (y ∷ a) c x b = ap (λ l. y ∷ l) (set-append a c x b)

  pub drop-append : (a b : List P) → drop (length a) (a ++ b) ≡ b
  drop-append [] b = refl
  drop-append (x ∷ a) b = drop-append a b

  pub get_or-append :
      (a : List P) (c : P) (t : List P) (d : P) → get_or (a ++ (c ∷ t)) (length a) d ≡ c
  get_or-append [] c t d = refl
  get_or-append (x ∷ a) c t d = get_or-append a c t d

  pub take_prefix : (n : ℕ) (u t xs : List P) → xs ≡ u ++ t → n ≡ length u → take n xs ≡ u
  take_prefix n u t xs e f = rw (e, f, take-length_append u t)

  pub drop_prefix : (n : ℕ) (u t xs : List P) → xs ≡ u ++ t → n ≡ length u → drop n xs ≡ t
  drop_prefix n u t xs e f = rw (e, f, drop-append u t)

  head_of :
      (b : List P) (y : P) (t : List P) → (c : P) × (rest : List P) × (b ++ (y ∷ t) ≡ c ∷ rest)
  head_of [] y t = (y, t, refl)
  head_of (c ∷ b) y t = (c, b ++ (y ∷ t), refl)

  first_of : (l : List P) → 0 < length l → (c : P) × (rest : List P) × (l ≡ c ∷ rest)
  first_of [] h = absurd (omega arith)
  first_of (c ∷ rest) h = (c, rest, refl)

  pub one_more : (a : List P) (c : P) (t : List P) → a ++ (c ∷ t) ≡ (a ++ (c ∷ [])) ++ t
  one_more a c t = sym (append_assoc a (c ∷ []) t)

  -- What the two uses of `memmove` do.
  pub shift_right :
      (a b : List P) (x y : P) (t : List P)
      → set (memmove (a ++ (b ++ (y ∷ t))) (length a + 1) (length a) (length b)) (length a) x
        ≡ a ++ (x ∷ (b ++ t))
  shift_right a b x y t =
      let xs : List P = a ++ (b ++ (y ∷ t)) in
      let (c, rest, e) = head_of b y t in
      let first : take (length a + 1) xs ≡ a ++ (c ∷ []) =
        take_prefix (length a + 1) (a ++ (c ∷ [])) rest xs (ap (λ l. a ++ l) e ∙ one_more a c rest)
          (omega (arith, length-append a (c ∷ []))) in
      let middle : take (length b) (drop (length a) xs) ≡ b =
        rw (drop-append a (b ++ (y ∷ t)), take-length_append b (y ∷ t)) in
      let end : drop (length a + 1 + length b) xs ≡ t =
        drop_prefix (length a + 1 + length b) (a ++ (b ++ (y ∷ []))) t xs
          (ap (λ l. a ++ l) (one_more b y t) ∙ sym (append_assoc a (b ++ (y ∷ [])) t))
          (omega (arith, length-append a (b ++ (y ∷ [])), length-append b (y ∷ []))) in
      ap (λ l. set l (length a) x) (joined xs c first middle end) ∙ set-append a c x (b ++ t)
    where
      joined :
          (xs : List P) (c : P)
          → take (length a + 1) xs ≡ a ++ (c ∷ [])
          → take (length b) (drop (length a) xs) ≡ b
          → drop (length a + 1 + length b) xs ≡ t
          → memmove xs (length a + 1) (length a) (length b) ≡ a ++ (c ∷ (b ++ t))
      joined xs c first middle end =
          rw (first, middle, end) (append_assoc (a ++ (c ∷ [])) b t ∙ sym (one_more a c (b ++ t)))

  pub shift_left :
      (a : List P) (y : P) (b t : List P)
      → (rest : List P) × (memmove (a ++ (y ∷ (b ++ t))) (length a) (length a + 1) (length b)
          ≡ (a ++ b) ++ rest)
        × (length rest ≡ suc (length t))
  shift_left a y b t =
      let xs : List P = a ++ (y ∷ (b ++ t)) in
      let first : take (length a) xs ≡ a = take-length_append a (y ∷ (b ++ t)) in
      let tail : drop (length a + 1) xs ≡ b ++ t =
        drop_prefix (length a + 1) (a ++ (y ∷ [])) (b ++ t) xs (one_more a y (b ++ t))
          (omega (arith, length-append a (y ∷ []))) in
      let middle : take (length b) (drop (length a + 1) xs) ≡ b =
        rw (tail, take-length_append b t) in
      (
        drop (length a + length b) xs,
        rw (first, middle),
        omega (
          arith,
          length-drop (length a + length b) xs,
          length-append a (y ∷ (b ++ t)),
          length-append b t,
        ),
      )

module _ {ℓ} {P : Type ℓ} (null junk : P) where
  -- After the growth there is a free cell.
  grow-Represents :
      (vec : Vector P) (xs : List P)
      → Represents vec xs
      → (cell : P) × (spare : List P) × ((grow null junk vec).cells ≡ xs ++ (cell ∷ spare))
        × ((grow null junk vec).len ≡ length xs)
        × ((grow null junk vec).capacity ≡ length (grow null junk vec).cells)
  unfolding grow
  grow-Represents vec xs v = elim (Bool-cases (leb vec.capacity vec.len)) [
    | inl full ↦
        let n = if leb vec.capacity 0 then 16 else vec.capacity * 2 in
        let more = replicate (n - vec.capacity) junk in
        let (c, rest, e) =
          first_of (v.spare ++ more) (added more (length-replicate (n - vec.capacity) junk)) in
        rw full (
          c,
          rest,
          rw v.contents (append_assoc xs v.spare more ∙ ap (λ l. xs ++ l) e),
          v.size,
          ground (
            arith,
            v.room,
            length-append vec.cells more,
            length-replicate (n - vec.capacity) junk,
          ),
        )
    | inr left ↦
        let (c, rest, e) = first_of v.spare (left_over left) in
        rw left (c, rest, v.contents ∙ ap (λ l. xs ++ l) e, v.size, v.room)
  ]
    where
      total : vec.capacity ≡ length xs + length v.spare
      total = v.room ∙ ap length v.contents ∙ length-append xs v.spare

      added :
          (more : List P)
          → length more ≡ (if leb vec.capacity 0 then 16 else vec.capacity * 2) - vec.capacity
          → 0 < length (v.spare ++ more)
      added more h = ground (arith, length-append v.spare more)

      left_over : leb vec.capacity vec.len ≡ false → 0 < length v.spare
      left_over h = ground (arith, total, v.size)

  -- vec_push appends the element.
  pub vec_push-append :
      (vec : Vector P) (xs : List P) (x : P)
      → Represents vec xs
      → Represents (vec_push null junk vec x) (xs ++ (x ∷ []))
  unfolding vec_push
  vec_push-append vec xs x v =
      let (cell, spare, e, n, room) = grow-Represents vec xs v in
      record {
        spare = spare;
        contents = rw (n, e, set-append xs cell x spare) (one_more xs x spare);
        size = rw n (omega (arith, length-append xs (x ∷ [])));
        room = room ∙ sym (length-set _ _ x);
      }

  pub len-vec_push : (vec : Vector P) (x : P) → (vec_push null junk vec x).len ≡ vec.len + 1
  unfolding vec_push grow
  len-vec_push vec x = elim (Bool-cases (leb vec.capacity vec.len)) [
    | inl full ↦ rw full
    | inr left ↦ rw left
  ]
