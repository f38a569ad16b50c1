-- ===== src/RegAlloc.antt =====
-- src/cc/regalloc.c: linear scan register allocation.
-- Intervals lie in the array `intervals`, and a `LiveInterval*` is an index into it. Positions and
-- register numbers are `int`s from -1 on: they are kept one higher here for positions, so that -1
-- is 0, and as an option for registers. A bit set is the list of its bits, the lowest first.
pub mod Frame
pub mod Expire
pub mod Safety
pub mod Join
pub mod Place
pub mod Outcome
pub mod Steal
pub mod Placed
pub mod LinearScan
pub mod Correct
pub mod Order
mod Tests
use my9cc.Prelude.{
  ℕ, zero, suc, ◌+◌, Bool, true, false, not, ◌&&◌, ◌||◌, Option, none, some, List, [], ◌∷◌, ltb,
  leb, ◌==◌, if◌then◌else◌, ◌>>=◌, get_or, set, length, replicate,
}

pub data LiveIntervalState : Type 0 where
  normal spill const : LiveIntervalState

pub record LiveInterval : Type 0 where
  pub virt : ℕ
  pub start : ℕ
  pub end : ℕ
  pub state : LiveIntervalState
  pub phys : Option ℕ

abbrev pub unset : LiveInterval
unset = record { virt = 0; start = 0; end = 0; state = normal; phys = none }

abbrev pub Intervals : Type 0
Intervals = List LiveInterval

-- `*li`
abbrev pub at : Intervals → ℕ → LiveInterval
at ivs i = get_or ivs i unset

abbrev pub is_normal : LiveIntervalState → Bool
is_normal normal = true
is_normal _ = false

-- The array `active` with its count, as the list of its first `active_count` pointers.
pub insert_active : Intervals → List ℕ → ℕ → List ℕ
insert_active ivs [] li = li ∷ []
insert_active ivs (p ∷ ps) li =
    if ltb (at ivs li).end (at ivs p).end then li ∷ p ∷ ps else p ∷ insert_active ivs ps li

abbrev pub Bits : Type 0
Bits = List Bool

abbrev pub bit : Bits → ℕ → Bool
bit bits j = get_or bits j false

-- `bits &= ~(1 << phys)`; an interval without a register has none to clear.
abbrev pub clear_bit : Bits → Option ℕ → Bits
clear_bit bits none = bits
clear_bit bits (some r) = set bits r false

pub expire_old_intervals : Intervals → List ℕ → Bits → ℕ → List ℕ × Bits
expire_old_intervals ivs [] bits start = ([], bits)
expire_old_intervals ivs (p ∷ ps) bits start =
    let rest = expire_old_intervals ivs ps (clear_bit bits (at ivs p).phys) start in
    if ltb start (at ivs p).end then (p ∷ ps, bits) else rest

-- The last pointer of `active`, and those before it.
pub split_last : List ℕ → Option (List ℕ × ℕ)
split_last [] = none
split_last (p ∷ []) = some ([], p)
split_last (p ∷ q ∷ ps) = split_last (q ∷ ps) >>= λ r. some (p ∷ r.0, r.1)

-- `spilled` is `ra->phys_max`. `none` is the failed assertion on an empty `active`.
pub split_at_interval : ℕ → Intervals → List ℕ → ℕ → Option (Intervals × List ℕ)
split_at_interval spilled ivs active li = do
  (front, last) ← split_last active
  if ltb (at ivs li).end (at ivs last).end
      then (let taken = set ivs li (record (at ivs li) { phys = (at ivs last).phys }) in
          let ivs' =
            set taken last (record (at taken last) { phys = some spilled; state = spill }) in
          some (ivs', insert_active ivs' front li))
      else some (set ivs li (record (at ivs li) { phys = some spilled; state = spill }), active)

-- The loop that looks for a free register: the first `j` from `j` on whose bit is clear.
pub find_free : Bits → ℕ → ℕ → Option ℕ
find_free bits zero j = none
find_free bits (suc n) j =
    let rest = find_free bits n (j + 1) in if bit bits j then rest else some j

abbrev pub or_bits : Bits → Bits → Bits
or_bits [] b = b
or_bits (x ∷ a) [] = x ∷ a
or_bits (x ∷ a) (y ∷ b) = (x || y) ∷ or_bits a b

-- `Info`
pub record Info : Type 0 where
  pub active : List ℕ
  pub phys_max : ℕ
  pub using_bits : Bits
  pub used_bits : Bits

pub record Scan : Type 0 where
  pub intervals : Intervals
  pub ireg : Info
  pub freg : Info

pub expire : Intervals → ℕ → Info → Info
expire ivs start info =
    let r = expire_old_intervals ivs info.active info.using_bits start in
    record info { active = r.0; using_bits = r.1 }

-- The allocation of a register, or the split, and the update of `used_bits`.
pub place : ℕ → Intervals → Info → ℕ → Option (Intervals × Info)
place spilled ivs info li =
    if leb info.phys_max (length info.active)
    then (split_at_interval spilled ivs info.active li >>= λ r.
        some
          (r.0, record info { active = r.1; used_bits = or_bits info.used_bits info.using_bits }))
    else (find_free info.using_bits info.phys_max 0 >>= λ regno.
        let ivs' = set ivs li (record (at ivs li) { phys = some regno }) in
        let using = set info.using_bits regno true in
        some (
          ivs',
          record info {
            active = insert_active ivs' info.active li;
            using_bits = using;
            used_bits = or_bits info.used_bits using;
          },
        ))

-- `is_flonum` reads the flag of the interval's virtual register; `ra->phys_max` is `ireg.phys_max`.
module _ (is_flonum : ℕ → Bool) where
  -- The body of the loop of `linear_scan_register_allocation`.
  pub scan_one : Scan → ℕ → Option Scan
  scan_one s li =
      if not (is_normal (at s.intervals li).state)
      then some s
      else (let start = (at s.intervals li).start in
          let ireg = expire s.intervals start s.ireg in
          let freg = expire s.intervals start s.freg in
          if is_flonum (at s.intervals li).virt
          then (place ireg.phys_max s.intervals freg li >>= λ r.
              some (record { intervals = r.0; ireg = ireg; freg = r.1 }))
          else (place ireg.phys_max s.intervals ireg li >>= λ r.
              some (record { intervals = r.0; ireg = r.1; freg = freg })))

  pub scan_all : Scan → List ℕ → Option Scan
  scan_all s [] = some s
  scan_all s (li ∷ rest) = scan_one s li >>= λ s'. scan_all s' rest

abbrev pub no_bits : Bits
no_bits = replicate 16 false

abbrev pub new_info : ℕ → Info
new_info phys_max = record {
  active = [];
  phys_max = phys_max;
  using_bits = no_bits;
  used_bits = no_bits;
}

pub linear_scan_register_allocation : (ℕ → Bool) → ℕ → ℕ → Intervals → List ℕ → Option Scan
linear_scan_register_allocation is_flonum phys_max fphys_max ivs sorted =
    scan_all is_flonum
      (record { intervals = ivs; ireg = new_info phys_max; freg = new_info fphys_max }) sorted
