-- ===== src/As/Settle.antt =====
-- src/as/as.c: the loop of `main` that assigns addresses until no jump grows.
-- The fuel bounds the rounds.
pub mod Ends
use my9cc.As.{Labels, Section}
use my9cc.As.Address.{calc_label_address}
use my9cc.As.Resolve.{UnresolvedInfo, resolve_relative_address}
use my9cc.Prelude.{ℕ, zero, suc, Bool, true, false, ◌&&◌, Option, none, some, List, ◌>>=◌}

-- `stopped` is a failed assertion or an exit with an error.
pub data Ending : Type 0 where
  done : List Section → Labels → Option (List UnresolvedInfo) → Ending
  stopped out_of_fuel : Ending

pub record Round : Type 0 where
  pub sections : List Section
  pub labels : Labels
  pub unresolved : Option (List UnresolvedInfo)
  pub is_settled : Bool

-- The body of the loop; `is_settled` is its condition, `settle1 && settle2`.
unfoldable pub round : ℕ → List Section → Labels → Option (List UnresolvedInfo) → Option Round
round start_address sections labels unresolved =
    calc_label_address start_address sections labels >>= λ c.
    resolve_relative_address (c.0) (c.2) unresolved >>= λ r.
    some (record { sections = r.0; labels = c.2; unresolved = r.1; is_settled = c.1 && r.2 })

-- The end of a round, with the loop once more as `again`.
abbrev pub after : Option Round → (Round → Ending) → Ending
after none again = stopped
after (some r) again = elim r.is_settled [
  | true ↦ done r.sections r.labels r.unresolved
  | false ↦ again r
]

unfoldable pub settle_loop : ℕ → ℕ → List Section → Labels → Option (List UnresolvedInfo) → Ending
settle_loop zero start_address sections labels unresolved = out_of_fuel
settle_loop (suc fuel) start_address sections labels unresolved =
    after (round start_address sections labels unresolved)
      λ r. settle_loop fuel start_address r.sections r.labels r.unresolved
