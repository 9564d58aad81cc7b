-- ===== src/Datagram/ReassemblerFlatMap.antt =====
-- lib/plexus-datagram/include/plexus/datagram/detail/reassembler_flat_map.h: a bounded vector of
-- entries in the order of their keys. An iterator is an index, and `end` is none.
pub mod Slots
use plexus.Common.{ℕ, zero, suc, ◌+◌, ◌/◌, Bool, true, false, ltb, leb, ◌==◌, if◌then◌else◌}
use plexus.Common.{Option, none, some, List, [], ◌∷◌, length, insert_at, remove_at}

pub record ReassemblerFlatMap {ℓ} (A : Type ℓ) : Type ℓ where
  pub max_entries : ℕ
  pub entries : List (ℕ × A)

module _ {ℓ} {A : Type ℓ} where
  abbrev pub size : ReassemblerFlatMap A → ℕ
  size m = length m.entries

  -- The first entry whose key is not below.
  unfoldable pub lower_bound : ℕ → List (ℕ × A) → ℕ
  lower_bound key [] = 0
  lower_bound key (e ∷ es) = let rest = lower_bound key es in if ltb e.0 key then suc rest else 0

  -- `it != end() && it->first == key`.
  unfoldable pub has_key : ℕ → List (ℕ × A) → ℕ → Bool
  has_key key [] at = false
  has_key key (e ∷ es) zero = e.0 == key
  has_key key (e ∷ es) (suc at) = has_key key es at

  unfoldable pub find : ℕ → ReassemblerFlatMap A → Option ℕ
  find key m =
      let at = lower_bound key m.entries in if has_key key m.entries at then some at else none

  unfoldable pub emplace : ℕ → A → ReassemblerFlatMap A → Option (ReassemblerFlatMap A × ℕ)
  emplace key value m =
      let at = lower_bound key m.entries in
      if leb m.max_entries (length m.entries)
      then none
      else some (record m { entries = insert_at at (key, value) m.entries }, at)

  unfoldable pub erase : ℕ → ReassemblerFlatMap A → ReassemblerFlatMap A
  erase at m = record m { entries = remove_at at m.entries }

unfoldable pub cap_implied_max_partials : ℕ → ℕ → ℕ
cap_implied_max_partials total_memory_cap min_entry_cost = total_memory_cap / min_entry_cost + 1
