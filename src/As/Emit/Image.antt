-- ===== src/As/Emit/Image.antt =====
-- src/as/ir_asm.c and src/as/gen.c: the bytes of a section are those of its instructions, each at its
-- address.
use my9cc.As.{Expr, IrKind, Ir, Labels, put_value}
use my9cc.As.Address.Walked.{Stands, IsLaid}
use my9cc.As.Emit.{
  Output, buffer, add_section_data, align_section_size, emit_expr, emit_ir, emit_section,
}
use my9cc.As.Footprint.{Footprint, footprint}
use my9cc.As.Label.{Outcome, calc_expr}
use my9cc.As.Resolve.Rounds.{shape}
use my9cc.Ir.Word.{sar}
use my9cc.Util.Align.{align_up}
use my9cc.Util.Align.Laws.{align_up-IsAligned, IsAligned-unique, IsAligned-shift}
use my9cc.Util.Buffer.{Buffer, empty, buf_put}
use my9cc.Util.Buffer.Holds.{Holds, buf_put-append, buf_align-IsAligned}
use native.Mathlib.Nat.{pow-le-pow_right}
use mathlib.Core.List.{append_assoc, append-nil}
use my9cc.Prelude.{
  ℕ, zero, suc, order_cases, inl, inr, ◌+◌, ◌%◌, ◌^◌, ◌≤◌, ◌<◌, ◌==◌, Option, some, List, [], ◌∷◌,
  ◌++◌, ◌≡◌, refl, take, length, length-append, length-replicate, length-take, replicate, set,
  get_or-set_self, length-set, sym, ◌∙◌, ap, subst, arith, All, false,
}

-- An instruction of the section with the number `sec`, which is not that of the BSS: code stands in
-- the first section, an alignment is a power of two, and an expression has a value.
unfoldable pub Fits : ℕ → Labels → IrKind → Type 0
Fits sec labels (IrKind.ir_label l) = Unit
Fits sec labels (IrKind.ir_code code) = (sec ≡ 0) × (code.len ≤ length code.buf)
Fits sec labels (IrKind.ir_data buf) = Unit
Fits sec labels (IrKind.ir_bss n) = sec ≡ 3
Fits sec labels (IrKind.ir_align align) = (k : ℕ) × (align ≡ 2 ^ k)
Fits sec labels (IrKind.ir_expr_byte e) = (n : ℕ) × (calc_expr labels e ≡ Outcome.value n)
Fits sec labels (IrKind.ir_expr_word e) = (n : ℕ) × (calc_expr labels e ≡ Outcome.value n)
Fits sec labels (IrKind.ir_expr_long e) = (n : ℕ) × (calc_expr labels e ≡ Outcome.value n)
Fits sec labels (IrKind.ir_expr_quad e) = (n : ℕ) × (calc_expr labels e ≡ Outcome.value n)

-- The start of a section is a multiple of an alignment in it.
abbrev pub Divides : ℕ → Footprint → Type 0
Divides start Footprint.nothing = Unit
Divides start (Footprint.bytes n) = Unit
Divides start (Footprint.aligned align) = start % align ≡ 0

-- The bytes that an expression stands for.
pub value_bytes : Outcome → ℕ → List ℕ
value_bytes (Outcome.value n) size = put_value n size
value_bytes (Outcome.undefined l) size = []
value_bytes Outcome.fault size = []

-- The bytes of an instruction, without the padding of an alignment.
unfoldable pub bytes_of : Labels → IrKind → List ℕ
bytes_of labels (IrKind.ir_code code) = take code.len code.buf
bytes_of labels (IrKind.ir_data buf) = buf
bytes_of labels (IrKind.ir_expr_byte e) = value_bytes (calc_expr labels e) 1
bytes_of labels (IrKind.ir_expr_word e) = value_bytes (calc_expr labels e) 2
bytes_of labels (IrKind.ir_expr_long e) = value_bytes (calc_expr labels e) 4
bytes_of labels (IrKind.ir_expr_quad e) = value_bytes (calc_expr labels e) 8
bytes_of labels node = []

-- They stand in the image of a section at the instruction's address.
pub record Appears (labels : Labels) (start : ℕ) (image : List ℕ) (ir : Ir) : Type 0 where
  pub before : List ℕ
  pub behind : List ℕ
  pub split : image ≡ (before ++ bytes_of labels ir.node) ++ behind
  pub offset : start + length before ≡ ir.address

-- What an instruction takes at most.
abbrev pub room : IrKind → ℕ
room node = elim (footprint node) [
  | Footprint.nothing ↦ 0
  | Footprint.bytes n ↦ n
  | Footprint.aligned align ↦ align
]

abbrev pub extent : List Ir → ℕ
extent [] = 0
extent (ir ∷ irs) = room ir.node + extent irs

small_power : (k : ℕ) → 2 ^ k ≤ 2 ^ 62 → k ≤ 62
small_power k h = elim (order_cases 62 k) [
  | inl more ↦
      let big : 2 ^ 63 ≤ 2 ^ k = pow-le-pow_right (omega arith) {i = 63} (omega arith) in
      absurd (omega arith)
  | inr (inl less) ↦ omega arith
  | inr (inr same) ↦ omega arith
]

length-put_value : (n size : ℕ) → length (put_value n size) ≡ size
unfolding put_value
length-put_value n zero = refl
length-put_value n (suc size) = ap suc (length-put_value (sar n 8) size)

module _ (junk : ℕ) (sec : ℕ) (start : ℕ) (labels : Labels) where
  -- One instruction is emitted: the image `xs` grows up to the address `c`.
  record Added (node : IrKind) (n at c : ℕ) (o o' : Output) (xs : List ℕ) : Type 0 where
    more : List ℕ
    holds : Holds (buffer o' sec) (xs ++ more)
    sections : length o'.buffers ≡ length o.buffers
    reached : start + length (xs ++ more) ≡ c
    within : length (xs ++ more) ≤ length xs + n
    appears : Appears labels start (xs ++ more) (record { node = node; address = at })

  -- What makes the bytes of the buffer those of the image, before an instruction.
  pub record Ready (o : Output) (xs : List ℕ) (n : ℕ) : Type 0 where
    pub holds : Holds (buffer o sec) xs
    pub small : sec < 3
    pub indexed : sec < length o.buffers
    pub bound : start + length xs + n ≤ 2 ^ 62

  same_buffer :
      (o : Output) (new : Buffer)
      → sec < length o.buffers
      → buffer (record o { buffers = set o.buffers sec new }) sec ≡ new
  same_buffer o new h = get_or-set_self o.buffers sec new empty h

  abbrev Result : Option Output → IrKind → ℕ → ℕ → ℕ → Output → List ℕ → Type 0
  Result r node n at c o xs = (o' : Output) × (r ≡ some o') × Added node n at c o o' xs

  put_bytes :
      (node : IrKind) (at c n : ℕ) (o : Output) (xs bs : List ℕ)
      → bytes_of labels node ≡ bs
      → length bs ≡ n
      → (at ≡ start + length xs) × (c ≡ (start + length xs + n) % 2 ^ 64)
      → Ready o xs n
      → Result (add_section_data junk sec bs o) node n at c o xs
  unfolding add_section_data
  put_bytes node at c n o xs bs e size stands r =
      let other : (sec == 3) ≡ false = let h = r.small in ground arith in
      let new = buf_put junk (buffer o sec) bs in
      let put = buf_put-append junk (buffer o sec) xs bs (omega (arith, size, r.bound)) r.holds in
      rw other (
        record o { buffers = set o.buffers sec new },
        refl,
        record {
          more = bs;
          holds = subst (λ b. Holds b (xs ++ bs)) (sym (same_buffer o new r.indexed)) put.0;
          sections = length-set o.buffers sec new;
          reached = omega (arith, length-append xs bs, size, stands.1, r.bound);
          within = omega (arith, length-append xs bs, size);
          appears = record {
            before = xs;
            behind = [];
            split = ap (λ l. xs ++ l) (sym e) ∙ sym (append-nil (xs ++ bytes_of labels node));
            offset = sym stands.0;
          };
        },
      )

  put_zeros :
      (at c k : ℕ) (o : Output) (xs : List ℕ)
      → start % 2 ^ k ≡ 0
      → (at ≡ align_up 64 (start + length xs) (2 ^ k)) × (c ≡ at)
      → Ready o xs (2 ^ k)
      → Result (align_section_size junk sec (2 ^ k) o) (IrKind.ir_align (2 ^ k)) (2 ^ k) at c o xs
  unfolding align_section_size bytes_of
  put_zeros at c k o xs whole stands r =
      let other : (sec == 3) ≡ false = let h = r.small in ground arith in
      let room = r.bound in
      let few : k ≤ 62 = small_power k (omega arith) in
      let (new, aligned, (n, v, al)) =
        buf_align-IsAligned junk (buffer o sec) xs k few (omega arith) r.holds in
      let sum : start + (length xs + n) ≡ align_up 64 (start + length xs) (2 ^ k) =
        IsAligned-unique (start + length xs) (2 ^ k) _ _ (IsAligned-shift start _ _ _ whole al)
          (align_up-IsAligned 64 k (start + length xs) (omega arith) (omega arith)) in
      rw (other, aligned)
        (
          record o { buffers = set o.buffers sec new },
          refl,
          record {
            more = replicate n 0;
            holds =
                subst (λ b. Holds b (xs ++ replicate n 0)) (sym (same_buffer o new r.indexed)) v;
            sections = length-set o.buffers sec new;
            reached = omega (
              arith,
              length-append xs (replicate n 0),
              length-replicate {A = ℕ} n 0,
              stands.0,
              stands.1,
              sum,
            );
            within =
                omega
                  (arith, length-append xs (replicate n 0), length-replicate {A = ℕ} n 0, al.below);
            appears = record {
              before = xs ++ replicate n 0;
              behind = [];
              split = sym (append-nil _ ∙ append-nil _);
              offset = omega (
                arith,
                length-append xs (replicate n 0),
                length-replicate {A = ℕ} n 0,
                stands.0,
                sum,
              );
            };
          },
        )

  put_nothing :
      (node : IrKind) (at c : ℕ) (o : Output) (xs : List ℕ)
      → bytes_of labels node ≡ []
      → (at ≡ start + length xs) × (c ≡ start + length xs)
      → Ready o xs 0
      → Result (some o) node 0 at c o xs
  put_nothing node at c o xs e stands r = (
    o,
    refl,
    record {
      more = [];
      holds = rw (append-nil xs) r.holds;
      sections = refl;
      reached = rw (append-nil xs) (sym stands.1);
      within = rw (append-nil xs) (omega arith);
      appears = record {
        before = xs;
        behind = [];
        split = rw e (sym (append-nil (xs ++ [])));
        offset = sym stands.0;
      };
    },
  )

  put_value_of :
      (node : IrKind) (at c size : ℕ) (e : Expr) (o : Output) (xs : List ℕ)
      → bytes_of labels node ≡ value_bytes (calc_expr labels e) size
      → (n : ℕ) × (calc_expr labels e ≡ Outcome.value n)
      → (at ≡ start + length xs) × (c ≡ (start + length xs + size) % 2 ^ 64)
      → Ready o xs size
      → Result (emit_expr junk sec (calc_expr labels e) size o) node size at c o xs
  unfolding emit_expr value_bytes
  put_value_of node at c size e o xs b v stands r =
      let bytes : bytes_of labels node ≡ put_value (v.0) size =
        b ∙ ap (λ t. value_bytes t size) (v.1) in
      rw v.1 (
        put_bytes node at c size o xs (put_value (v.0) size) bytes (length-put_value (v.0) size)
          stands r)

  emit_ir-Added :
      (node : IrKind) (at c : ℕ) (o : Output) (xs : List ℕ)
      → Fits sec labels node
      → Divides start (footprint node)
      → Stands (footprint node) (start + length xs) at c
      → Ready o xs (room node)
      → Result (emit_ir junk sec labels node o) node (room node) at c o xs
  unfolding emit_ir Fits Stands bytes_of
  emit_ir-Added (IrKind.ir_label l) at c o xs f d s r = put_nothing _ at c o xs refl s r
  emit_ir-Added (IrKind.ir_code code) at c o xs f d s r =
      let whole : length (take code.len code.buf) ≡ code.len =
        omega (arith, length-take code.len code.buf, f.1) in
      rw (sym f.0) (put_bytes _ at c code.len o xs _ refl whole s r)
  emit_ir-Added (IrKind.ir_data buf) at c o xs f d s r =
      put_bytes _ at c (length buf) o xs buf refl refl s r
  emit_ir-Added (IrKind.ir_bss n) at c o xs f d s r = absurd (omega (arith, r.small, f))
  emit_ir-Added (IrKind.ir_align align) at c o xs f d s r =
      subst
        (λ t.
          start % t ≡ 0
          → (at ≡ align_up 64 (start + length xs) t) × (c ≡ at)
          → Ready o xs t
          → Result (align_section_size junk sec t o) (IrKind.ir_align t) t at c o xs)
        (sym (f.1)) (put_zeros at c (f.0) o xs) d s r
  emit_ir-Added (IrKind.ir_expr_byte e) at c o xs f d s r = put_value_of _ at c 1 e o xs refl f s r
  emit_ir-Added (IrKind.ir_expr_word e) at c o xs f d s r = put_value_of _ at c 2 e o xs refl f s r
  emit_ir-Added (IrKind.ir_expr_long e) at c o xs f d s r = put_value_of _ at c 4 e o xs refl f s r
  emit_ir-Added (IrKind.ir_expr_quad e) at c o xs f d s r = put_value_of _ at c 8 e o xs refl f s r

  -- A section is emitted, up to the address `b`.
  pub record Emitted (irs : List Ir) (b : ℕ) (o o' : Output) (xs : List ℕ) : Type 0 where
    pub image : List ℕ
    pub holds : Holds (buffer o' sec) (xs ++ image)
    pub sections : length o'.buffers ≡ length o.buffers
    pub reached : start + length (xs ++ image) ≡ b
    pub appear : All (Appears labels start (xs ++ image)) irs

  abbrev pub AllFit : List Ir → Type 0
  AllFit irs = All (λ ir. Fits sec labels ir.node) irs

  abbrev pub AllDivide : List Ir → Type 0
  AllDivide irs = All (λ ir. Divides start (footprint ir.node)) irs

  -- What stands in an image stands in a longer one.
  longer :
      (xs ys : List ℕ) (ir : Ir) → Appears labels start xs ir → Appears labels start (xs ++ ys) ir
  longer xs ys ir v = record {
    before = v.before;
    behind = v.behind ++ ys;
    split =
        ap (λ l. l ++ ys) v.split ∙ append_assoc (v.before ++ bytes_of labels ir.node) v.behind ys;
    offset = v.offset;
  }

  Emitted-cons :
      (ir : Ir) (irs : List Ir) (b c : ℕ) (o o1 o2 : Output) (xs : List ℕ)
      (v : Added ir.node (room ir.node) ir.address c o o1 xs)
      → Emitted irs b o1 o2 (xs ++ v.more)
      → Emitted (ir ∷ irs) b o o2 xs
  Emitted-cons ir irs b c o o1 o2 xs v w =
      let join = append_assoc xs v.more w.image in
      record {
        image = v.more ++ w.image;
        holds = subst (λ l. Holds (buffer o2 sec) l) join w.holds;
        sections = w.sections ∙ v.sections;
        reached = subst (λ (l : List ℕ). start + length l ≡ b) join w.reached;
        appear =
            subst (λ l. All (Appears labels start l) (ir ∷ irs)) join
              (longer (xs ++ v.more) w.image ir v.appears, w.appear);
      }

  pub emit_section-Emitted :
      (irs : List Ir) (b : ℕ) (o : Output) (xs : List ℕ)
      → AllFit irs
      → AllDivide irs
      → IsLaid (start + length xs) (shape irs) b
      → Ready o xs (extent irs)
      → (o' : Output) × (emit_section junk sec labels irs o ≡ some o') × Emitted irs b o o' xs
  unfolding IsLaid emit_section
  emit_section-Emitted [] b o xs f d l r = (
    o,
    refl,
    record {
      image = [];
      holds = rw (append-nil xs) r.holds;
      sections = refl;
      reached = rw (append-nil xs) (sym l);
      appear = tt;
    },
  )
  emit_section-Emitted (ir ∷ irs) b o xs f d l r =
      let (c, s, rest) = l in
      let (o1, e1, v) = emit_ir-Added ir.node ir.address c o xs (f.0) (d.0) s (record {
        holds = r.holds;
        small = r.small;
        indexed = r.indexed;
        bound = omega (arith, r.bound);
      }) in
      let (o2, e2, w) =
        emit_section-Emitted irs b o1 (xs ++ v.more) (f.1) (d.1) (rw v.reached rest) (record {
          holds = v.holds;
          small = r.small;
          indexed = omega (arith, v.sections, r.indexed);
          bound = omega (arith, v.within, r.bound);
        }) in
      (o2, rw e1 e2, Emitted-cons ir irs b c o o1 o2 xs v w)
