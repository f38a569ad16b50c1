-- ===== src/Table/Probe.antt =====
-- src/util/table.c: where `find_entry` stops.
use native.Mathlib.Nat.{mod-add-mod, mod-lt, mod-eq_of_lt, add-zero}
use my9cc.Table.{Entry, at, is_new, first_of, probe}
use my9cc.Table.Entries.{is_free, holds, skips}
use my9cc.Prelude.{
  ℕ, zero, suc, ◌+◌, ◌%◌, ◌≤◌, ◌<◌, ◌≡◌, refl, ◌⊎◌, inl, inr, true, Option, none, some, List, arith,
  if◌then◌else◌, Bool-cases, ◌∙◌, ap, sym,
}

-- The index after `d` steps from `start`.
abbrev pub place : ℕ → ℕ → ℕ → ℕ
place n start d = (start + d) % n

-- The first `d` entries from `start` on are passed by.
abbrev pub IsPassed : List Entry → ℕ → ℕ → ℕ → ℕ → Type 0
IsPassed es n key start d = (e : ℕ) → e < d → skips key (at es (place n start e)) ≡ true

-- Where a probe may stop: at the key, or at a free entry. In the second case it returns the first
-- tombstone, which it may have been given.
pub data Stop (es : List Entry) (n key : ℕ) (tombstone : Option ℕ) (start i : ℕ) : Type 0 where
  hit :
      (d : ℕ)
      → IsPassed es n key start d
      → i ≡ place n start d
      → holds key (at es i) ≡ true
      → Stop es n key tombstone start i
  vacant :
      (d : ℕ)
      → IsPassed es n key start d
      → is_free (at es (place n start d)) ≡ true
      → (tombstone ≡ some i)
        ⊎ ((e : ℕ) × (e ≤ d) × (i ≡ place n start e) × (is_new (at es i) ≡ true))
      → Stop es n key tombstone start i

place-zero : (n start : ℕ) → start < n → place n start 0 ≡ start
place-zero n start h = rw add-zero (mod-eq_of_lt h)

place-suc : (n start d : ℕ) → place n ((start + 1) % n) d ≡ place n start (suc d)
place-suc n start d =
    let e : start + 1 + d ≡ start + suc d = omega arith in
    mod-add-mod (start + 1) n d ∙ ap (λ (t : ℕ). t % n) e

module _ (es : List Entry) (n key : ℕ) where
  probe_free :
      (fuel : ℕ) (tombstone : Option ℕ) (i : ℕ)
      → is_free (at es i) ≡ true
      → probe (suc fuel) es n key tombstone i ≡ some (first_of tombstone i)
  unfolding probe
  probe_free fuel tombstone i h = ground arith

  probe_hit :
      (fuel : ℕ) (tombstone : Option ℕ) (i : ℕ)
      → holds key (at es i) ≡ true
      → probe (suc fuel) es n key tombstone i ≡ some i
  unfolding probe
  probe_hit fuel tombstone i h = ground arith

  abbrev next_tombstone : Option ℕ → ℕ → Option ℕ
  next_tombstone tombstone i = if is_new (at es i) then some (first_of tombstone i) else tombstone

  probe_skip :
      (fuel : ℕ) (tombstone : Option ℕ) (i : ℕ)
      → skips key (at es i) ≡ true
      → probe (suc fuel) es n key tombstone i
        ≡ probe fuel es n key (next_tombstone tombstone i) ((i + 1) % n)
  unfolding probe
  probe_skip fuel tombstone i h = ground arith

  entry_cases : (e : Entry) → (is_free e ≡ true) ⊎ ((holds key e ≡ true) ⊎ (skips key e ≡ true))
  entry_cases e = ground arith

  -- One more step in front.
  IsPassed-suc :
      (start d : ℕ)
      → start < n
      → skips key (at es start) ≡ true
      → IsPassed es n key ((start + 1) % n) d
      → IsPassed es n key start (suc d)
  IsPassed-suc start d h s p zero lt = rw (place-zero n start h) s
  IsPassed-suc start d h s p (suc e) lt = rw (← place-suc n start e) (p e (omega arith))

  source_suc :
      (tombstone : Option ℕ) (start d i : ℕ)
      → start < n
      → (next_tombstone tombstone start ≡ some i)
        ⊎ ((e : ℕ) × (e ≤ d) × (i ≡ place n ((start + 1) % n) e) × (is_new (at es i) ≡ true))
      → (tombstone ≡ some i)
        ⊎ ((e : ℕ) × (e ≤ suc d) × (i ≡ place n start e) × (is_new (at es i) ≡ true))
  source_suc tombstone start d i h (inr (e, le, eq, new)) =
      inr (suc e, omega arith, eq ∙ place-suc n start e, new)
  source_suc tombstone start d i h (inl t) = elim (Bool-cases (is_new (at es start))) [
    | inr old ↦ inl (ground arith)
    | inl new ↦ from_first tombstone new t
  ]
    where
      from_first :
          (t : Option ℕ)
          → is_new (at es start) ≡ true
          → next_tombstone t start ≡ some i
          → (t ≡ some i)
            ⊎ ((e : ℕ) × (e ≤ suc d) × (i ≡ place n start e) × (is_new (at es i) ≡ true))
      from_first none new t =
          let s : start ≡ i = ground arith in
          inr (0, omega arith, sym s ∙ sym (place-zero n start h), rw (← s) new)
      from_first (some j) new t = inl (ground arith)

  Stop-suc :
      (tombstone : Option ℕ) (start i : ℕ)
      → start < n
      → skips key (at es start) ≡ true
      → Stop es n key (next_tombstone tombstone start) ((start + 1) % n) i
      → Stop es n key tombstone start i
  Stop-suc tombstone start i h s (hit d p e k) =
      hit (suc d) (IsPassed-suc start d h s p) (e ∙ place-suc n start d) k
  Stop-suc tombstone start i h s (vacant d p free source) =
      vacant (suc d) (IsPassed-suc start d h s p) (rw (← place-suc n start d) free)
        (source_suc tombstone start d i h source)

  source_zero :
      (tombstone : Option ℕ) (start : ℕ)
      → start < n
      → is_free (at es start) ≡ true
      → (tombstone ≡ some (first_of tombstone start))
        ⊎ ((e : ℕ) × (e ≤ 0)
            × (first_of tombstone start ≡ place n start e)
            × (is_new (at es (first_of tombstone start)) ≡ true))
  source_zero none start h free = inr (0, omega arith, sym (place-zero n start h), ground arith)
  source_zero (some t) start h free = inl refl

  abbrev pub Stops : ℕ → Option ℕ → ℕ → Type 0
  Stops fuel tombstone start =
      (i : ℕ) × (probe fuel es n key tombstone start ≡ some i) × Stop es n key tombstone start i

  Stops-free :
      (fuel : ℕ) (tombstone : Option ℕ) (start : ℕ)
      → start < n
      → is_free (at es start) ≡ true
      → Stops (suc fuel) tombstone start
  Stops-free fuel tombstone start h here = (
    first_of tombstone start,
    probe_free fuel tombstone start here,
    vacant 0 (λ e small. absurd (omega arith)) (rw (place-zero n start h) here)
        (source_zero tombstone start h here),
  )

  -- With a free entry `d` steps ahead, more fuel than `d` is enough.
  pub probe-Stop :
      (fuel : ℕ) (tombstone : Option ℕ) (start d : ℕ)
      → start < n
      → d < fuel
      → is_free (at es (place n start d)) ≡ true
      → Stops fuel tombstone start
  probe-Stop zero tombstone start d h lt free = absurd (omega arith)
  probe-Stop (suc fuel) tombstone start zero h lt free =
      Stops-free fuel tombstone start h (rw (place-zero n start h) at free)
  probe-Stop (suc fuel) tombstone start (suc d) h lt free =
      let (i, run, stop) =
        probe-Stop fuel (next_tombstone tombstone start) ((start + 1) % n) d
          (mod-lt (start + 1) (omega arith)) (omega arith) (rw (place-suc n start d) free) in
      elim (entry_cases (at es start)) [
        | inl here ↦ Stops-free fuel tombstone start h here
        | inr (inl here) ↦ (
          start,
          probe_hit fuel tombstone start here,
          hit 0 (λ e small. absurd (omega arith)) (sym (place-zero n start h)) here,
        )
        | inr (inr past) ↦
            (i, probe_skip fuel tombstone start past ∙ run, Stop-suc tombstone start i h past stop)
      ]
