-- ===== src/Io/HistoryRing.antt =====
-- lib/plexus-core/include/plexus/io/detail/history_ring.h: the last frames of a topic, in a ring.
pub mod Window
use plexus.Common.{
  ℕ, zero, suc, ◌+◌, ◌-◌, ◌%◌, min, Bool, ltb, ◌==◌, if◌then◌else◌, Option, none, some,
}
use plexus.Common.{List, [], ◌∷◌, ◌++◌, take, length, get_or, set, replicate}

pub record HistoryRing : Type 0 where
  pub slots : List (List ℕ)
  pub head : ℕ
  pub count : ℕ

unfoldable pub history_ring : HistoryRing
history_ring = record { slots = []; head = 0; count = 0 }

-- `m_slots.resize(n)`: it cuts, or adds empty frames.
unfoldable pub resize_to : ℕ → HistoryRing → HistoryRing
resize_to capacity m =
    let n = if capacity == 0 then 1 else capacity in
    record m { slots = take n m.slots ++ replicate (n - length m.slots) [] }

-- None is that the source writes past its slots.
unfoldable pub push : List ℕ → HistoryRing → Option HistoryRing
push frame m =
    if ltb m.head (length m.slots)
    then some (record {
      slots = set m.slots m.head frame;
      head = (m.head + 1) % length m.slots;
      count = min (m.count + 1) (length m.slots);
    })
    else none

unfoldable pub is_empty : HistoryRing → Bool
is_empty m = m.count == 0

unfoldable pub capacity : HistoryRing → ℕ
capacity m = length m.slots

unfoldable pub newest : HistoryRing → List ℕ
newest m = get_or m.slots ((m.head + length m.slots - 1) % length m.slots) []

unfoldable pub oldest_to_newest : ℕ → HistoryRing → List ℕ
oldest_to_newest i m = get_or m.slots ((m.head + length m.slots - m.count + i) % length m.slots) []
