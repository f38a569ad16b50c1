-- ===== src/As/Emit/Sections.antt =====
-- src/as/as.c: what the assembler emits for a section that its loop has laid out.
use my9cc.As.{IrKind, Ir, Labels, Section}
use my9cc.As.Address.{align_next_section}
use my9cc.As.Address.Passes.{AllLaid}
use my9cc.As.Address.Walked.{IsLaid}
use my9cc.As.Emit.{Output, emit_section}
use my9cc.As.Emit.Image.{Fits, Divides, extent, Ready, Emitted, AllFit, emit_section-Emitted}
use my9cc.As.Footprint.{Footprint, footprint, alignment, Covers, AllCovered}
use my9cc.As.Resolve.{UnresolvedInfo}
use my9cc.As.Resolve.Rounds.{shape, section_shape}
use my9cc.As.Settle.{done, settle_loop}
use my9cc.As.Settle.Ends.{settle_loop-IsFinal}
use my9cc.Prelude.Bits.{pow-add}
use my9cc.Util.Align.{align_up}
use my9cc.Util.Align.Laws.{align_up-multiple}
use Prim.Native.Nat.{◌∣◌}
use native.Mathlib.Nat.{
  mod-mod_of_dvd, dvd-mul_left, one-le-pow, pow-suc, pow-le-pow_right, zero-mod,
}
use my9cc.Prelude.{
  ℕ, zero, suc, ◌+◌, ◌-◌, ◌*◌, Bool-cases, ◌%◌, ◌^◌, ◌≤◌, Option, some, List, [], ◌∷◌, ◌≡◌, refl,
  ◌⊎◌, inl, inr, All, map, get_elem?, arith, subst, sym, order_cases, ltb, some_eq, ◌∙◌, ap,
}

-- A section of a list that is laid out and covered.
record IsPlaced (s : Section) : Type 0 where
  before : ℕ
  finish : ℕ
  starts : s.start_address ≡ align_next_section s.align before
  laid : IsLaid s.start_address (shape s.irs) finish
  covers : Covers s.align s.irs

section_IsPlaced :
    (ss : List Section) (a sec : ℕ) (s : Section)
    → AllLaid a (map section_shape ss)
    → AllCovered ss
    → get_elem? ss sec ≡ some s
    → IsPlaced s
unfolding AllLaid
section_IsPlaced [] a sec s l c e = cc
section_IsPlaced (t ∷ ts) a zero s l c e =
    subst IsPlaced (some_eq e)
      (record { before = a; finish = l.1.0; starts = l.0; laid = l.1.1; covers = c.0 })
section_IsPlaced (t ∷ ts) a (suc sec) s l c e = section_IsPlaced ts _ sec s (l.1.2) (c.1) e

-- The alignment of a section: none is asked for, or it is a power of two.
abbrev pub IsSectionAlign : ℕ → Type 0
IsSectionAlign align = (align ≡ 0) ⊎ ((m : ℕ) × (m ≤ 62) × (align ≡ 2 ^ m))

smaller_power : (k m : ℕ) → 2 ^ k ≤ 2 ^ m → k ≤ m
smaller_power k m h = elim (order_cases m k) [
  | inl more ↦
      let grown : 2 ^ suc m ≤ 2 ^ k = pow-le-pow_right (omega arith) {i = suc m} (omega arith) in
      let positive : 1 ≤ 2 ^ m = one-le-pow m 2 (omega arith) in absurd (omega (arith, pow-suc 2 m))
  | inr (inl less) ↦ omega arith
  | inr (inr same) ↦ omega arith
]

-- A section starts at a multiple of each smaller power.
aligned_start :
    (a start k m : ℕ)
    → start ≡ align_next_section (2 ^ m) a
    → m ≤ 62
    → 2 ^ k ≤ 2 ^ m
    → start % 2 ^ k ≡ 0
aligned_start a start k m e small h =
    let le : k ≤ m = smaller_power k m h in
    let split : 2 ^ m ≡ 2 ^ (m - k) * 2 ^ k =
      ap (λ (t : ℕ). 2 ^ t) (omega arith) ∙ pow-add (m - k) k in
    let divides = subst (λ (t : ℕ). 2 ^ k ∣ t) (sym split) (dvd-mul_left (2 ^ k) (2 ^ (m - k))) in
    let positive : 1 ≤ 2 ^ k = one-le-pow k 2 (omega arith) in
    elim (Bool-cases (ltb 1 (2 ^ m))) [
      | inl more ↦
          let up : start ≡ align_up 64 a (2 ^ m) = rw more at e in
          let whole : start % 2 ^ m ≡ 0 = rw up (align_up-multiple 64 m a (omega arith)) in
          sym (mod-mod_of_dvd (2 ^ k) start divides)
          ∙ ap (λ (t : ℕ). t % 2 ^ k) whole
          ∙ zero-mod (2 ^ k)
      | inr less ↦ let one : 2 ^ k ≡ 1 = ground arith in rw one (omega arith)
    ]

footprint_whole :
    (f : Footprint) (a start align : ℕ)
    → start ≡ align_next_section align a
    → IsSectionAlign align
    → alignment f ≤ align
    → ((t : ℕ) → f ≡ Footprint.aligned t → (k : ℕ) × (t ≡ 2 ^ k))
    → Divides start f
footprint_whole Footprint.nothing a start align e p h power = tt
footprint_whole (Footprint.bytes n) a start align e p h power = tt
footprint_whole (Footprint.aligned t) a start align e p h power =
    let (k, same) = power t refl in
    let positive : 1 ≤ 2 ^ k = one-le-pow k 2 (omega arith) in
    elim p [
      | inl zeros ↦ absurd (omega arith)
      | inr (m, small, eq) ↦ rw same (
          aligned_start a start k m (e ∙ ap (λ (t : ℕ). align_next_section t a) eq) small
            (omega arith))
    ]

power_of_align :
    (sec : ℕ) (labels : Labels) (n : IrKind) (t : ℕ)
    → Fits sec labels n
    → footprint n ≡ Footprint.aligned t
    → (k : ℕ) × (t ≡ 2 ^ k)
unfolding Fits
power_of_align sec labels (IrKind.ir_align align) t f e = (f.0, sym (ap alignment e) ∙ f.1)
power_of_align sec labels (IrKind.ir_label l) t f e = cc
power_of_align sec labels (IrKind.ir_code code) t f e = cc
power_of_align sec labels (IrKind.ir_data buf) t f e = cc
power_of_align sec labels (IrKind.ir_bss n) t f e = cc
power_of_align sec labels (IrKind.ir_expr_byte x) t f e = cc
power_of_align sec labels (IrKind.ir_expr_word x) t f e = cc
power_of_align sec labels (IrKind.ir_expr_long x) t f e = cc
power_of_align sec labels (IrKind.ir_expr_quad x) t f e = cc

irs_whole :
    (irs : List Ir) (sec : ℕ) (labels : Labels) (a start align : ℕ)
    → start ≡ align_next_section align a
    → IsSectionAlign align
    → Covers align irs
    → All (λ ir. Fits sec labels ir.node) irs
    → All (λ ir. Divides start (footprint ir.node)) irs
irs_whole [] sec labels a start align e p c f = tt
irs_whole (ir ∷ irs) sec labels a start align e p c f = (
  footprint_whole (footprint ir.node) a start align e p (c.0)
      λ t same. power_of_align sec labels ir.node t (f.0) same,
  irs_whole irs sec labels a start align e p (c.1) (f.1),
)

-- Where the loop of the assembler ends, take a section that is not the BSS, with an alignment that is
-- 0 or a power of two up to 2 ^ 62, and of at most 2 ^ 62 bytes with its start and its padding, in
-- which code stands only in the first section, alignments are powers of two, and expressions have
-- values. Emitted into an empty buffer, its instructions give an image in which the bytes of each
-- stand at its address.
pub emit_section-image :
    (junk fuel a sec : ℕ) (ss ss' : List Section) (labels labels' : Labels)
    (u u' : Option (List UnresolvedInfo)) (s : Section) (o : Output)
    → settle_loop fuel a ss labels u ≡ done ss' labels' u'
    → get_elem? ss' sec ≡ some s
    → IsSectionAlign s.align
    → AllFit junk sec s.start_address labels' s.irs
    → Ready junk sec s.start_address labels' o [] (extent s.irs)
    → (b : ℕ) × (o' : Output) × (emit_section junk sec labels' s.irs o ≡ some o')
      × Emitted junk sec s.start_address labels' s.irs b o o' []
emit_section-image junk fuel a sec ss ss' labels labels' u u' s o e at p f r =
    let final = settle_loop-IsFinal fuel a ss ss' labels labels' u u' e in
    let x = section_IsPlaced ss' a sec s final.laid final.covered at in
    let divide =
      irs_whole s.irs sec labels' x.before s.start_address s.align x.starts p x.covers f in
    let nothing : s.start_address + 0 ≡ s.start_address = omega arith in
    let (o', done', image) =
      emit_section-Emitted junk sec s.start_address labels' s.irs x.finish o [] f divide
        (rw nothing x.laid) r in
    (x.finish, o', done', image)
