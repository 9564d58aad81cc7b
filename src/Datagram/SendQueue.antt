-- ===== src/Datagram/SendQueue.antt =====
-- lib/plexus-datagram/include/plexus/datagram/detail/send_queue.h: frames are handed to the transport
-- one after the other. What the sink is called with is a list; the transport calls a completion
-- later, not from inside the sink.
pub mod Front
pub mod Fifo
use plexus.Common.{ℕ, ◌+◌, ◌-◌, ◌%◌, ◌^◌, Bool, true, false, not, ◌&&◌, ltb, leb, if◌then◌else◌}
use plexus.Common.{Option, none, some, List, [], ◌∷◌, ◌++◌, length}

abbrev pub k_max_free_buffers : ℕ
k_max_free_buffers = 64

-- `std::numeric_limits<std::size_t>::max()`.
abbrev pub unbounded : ℕ
unbounded = 2 ^ 64 - 1

pub record Node {ℓ} (E : Type ℓ) : Type ℓ where
  pub bytes : List ℕ
  pub dest : E

-- Of a spare buffer nothing but its capacity is reused: it is counted.
pub record SendQueue {ℓ} (E : Type ℓ) : Type ℓ where
  pub byte_cap : ℕ
  pub queue : List (Node E)
  pub free_buffers : ℕ
  pub bytes : ℕ
  pub is_open : Bool
  pub sending : Bool

module _ {ℓ} {E : Type ℓ} where
  unfoldable pub send_queue : ℕ → SendQueue E
  send_queue byte_cap = record {
    byte_cap = byte_cap;
    queue = [];
    free_buffers = 0;
    bytes = 0;
    is_open = true;
    sending = false;
  }

  -- The first clause holds where the second is read, so that nothing wraps.
  unfoldable pub admits : ℕ → SendQueue E → Bool
  admits size m = ltb m.bytes m.byte_cap && leb size (m.byte_cap - m.bytes)

  unfoldable pub take_buffer : SendQueue E → SendQueue E
  take_buffer m = record m { free_buffers = m.free_buffers - 1 }

  unfoldable pub recycle_buffer : SendQueue E → SendQueue E
  recycle_buffer m = record m {
    free_buffers =
        if ltb m.free_buffers k_max_free_buffers then m.free_buffers + 1 else m.free_buffers;
  }

  -- `drive`, for the queue that it reads.
  unfoldable pub drive_front : List (Node E) → SendQueue E → SendQueue E × List (Node E)
  drive_front [] m = (record m { sending = false }, [])
  drive_front (node ∷ nodes) m = (record m { sending = true }, node ∷ [])

  unfoldable pub drive : SendQueue E → SendQueue E × List (Node E)
  drive m = drive_front m.queue m

  unfoldable pub push_back : Node E → SendQueue E → SendQueue E
  push_back node m = record (take_buffer m) {
    bytes = (m.bytes + length node.bytes) % 2 ^ 64;
    queue = m.queue ++ (node ∷ []);
  }

  unfoldable pub enqueue : List ℕ → E → SendQueue E → SendQueue E × Bool × List (Node E)
  enqueue bytes dest m =
      let m1 = push_back (record { bytes = bytes; dest = dest }) m in
      let (m2, handed) = if not m.sending then drive m1 else (m1, []) in
      if not (admits (length bytes) m) then (m, false, []) else (m2, true, handed)

  unfoldable pub full : SendQueue E → Bool
  full m = leb m.byte_cap m.bytes

  unfoldable pub size : SendQueue E → ℕ
  size m = length m.queue

  unfoldable pub close : SendQueue E → SendQueue E
  close m = record m { is_open = false; sending = false; queue = []; free_buffers = 0; bytes = 0 }

  -- The completion behind its guard; with an empty queue the source's `front` is undefined.
  unfoldable pub complete_front : List (Node E) → SendQueue E → Option (SendQueue E × List (Node E))
  complete_front [] m = none
  complete_front (node ∷ nodes) m = some (
      drive (record (recycle_buffer m) {
        bytes = (m.bytes + 2 ^ 64 - length node.bytes) % 2 ^ 64;
        queue = nodes;
      }))

  unfoldable pub complete : SendQueue E → Option (SendQueue E × List (Node E))
  complete m = let rest = complete_front m.queue m in if not m.is_open then some (m, []) else rest
