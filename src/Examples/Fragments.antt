-- ===== src/Examples/Fragments.antt =====
-- The fragments of a message at concrete inputs.
use plexus.Common.{
  ℕ, ◌/◌, ◌≤◌, ◌<◌, ◌≡◌, refl, arith, false, List, [], ◌∷◌, map, length, replicate, get_or, elem,
  All,
}
use plexus.Datagram.Fragmentation.{
  split, fragment_count, effective_fragment_budget, max_message_size, max_fragment_count,
}
use plexus.Datagram.Fragmentation.Pieces.{Splits, no_fragment, split-Splits}
use plexus.Datagram.ReassemblerFlatMap.{find, lower_bound, has_key, cap_implied_max_partials}
use plexus.Datagram.Reassembler.{
  Reassembler, Effect, reassembler, default_config, in_flight, structural_cost,
}
use plexus.Datagram.Reassembler.Complete.{feeds, feeds-split}
use plexus.Datagram.Reassembler.Charges.{charge}
use plexus.Datagram.Reassembler.Bounds.{IsModest}
use plexus.Datagram.Reassembler.Runs.{Event, run, run-reassembler}

-- Three fragments of at most 128 bytes.
abbrev message : List ℕ
message = replicate 300 7

split-Splits_example :
    Splits message (effective_fragment_budget 100 false) (split message 100 false)
    × (0 < (split message 100 false).0)
    × (length message ≤ max_message_size → (split message 100 false).0 ≤ max_fragment_count)
split-Splits_example = split-Splits message 100 false (omega arith)

abbrev idle : Reassembler
idle = reassembler 24 default_config

-- The last one arrives first, and once more.
feeds-split_example :
    feeds 24 9
      (map (λ i. get_or (split message 100 false).1 i no_fragment) (2 ∷ 0 ∷ 2 ∷ 1 ∷ []))
      idle
    ≡ (idle, Effect.armed 9 idle.cfg.per_message_timeout ∷ Effect.delivered message ∷ [])
unfolding reassembler find lower_bound has_key split fragment_count effective_fragment_budget elem
    structural_cost cap_implied_max_partials
feeds-split_example =
    feeds-split 24 9 idle message 100 false (2 ∷ 0 ∷ 2 ∷ []) 1 refl (omega arith) (omega arith)
      (omega arith) (omega arith) (omega arith) (omega arith) (omega arith) (omega arith)
      (omega arith, (omega arith, (omega arith, tt))) refl (λ j p ne. ground (arith, p, ne))

-- A fragment, one of a shape that no message has, and a wait that ends.
abbrev events : List Event
events = Event.fed 9 0 2 (1 ∷ 2 ∷ []) ∷ Event.fed 4 7 2 [] ∷ Event.fired 0 ∷ []

run-reassembler_example :
    let (m, effects) = run 24 events (reassembler 24 default_config) in
    (m.held ≤ default_config.total_memory_cap)
    × (m.held ≡ charge m.table.entries)
    × (in_flight m ≤ default_config.total_memory_cap / structural_cost 24 1)
    × All (IsModest default_config.max_message_size) effects
run-reassembler_example =
    run-reassembler 24 default_config events (omega arith) (omega arith)
      (omega arith, (omega arith, (tt, tt)))
