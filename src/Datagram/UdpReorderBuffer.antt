-- ===== src/Datagram/UdpReorderBuffer.antt =====
-- lib/plexus-datagram/include/plexus/datagram/detail/udp_reorder_buffer.h: the receiver's in-order
-- release of numbered datagrams. What the sink is called with is a list of deliveries.
pub mod Ring
pub mod InOrder
pub mod Arrivals
pub mod Complete
pub mod FirstGap
use plexus.Common.{
  ℕ, zero, suc, ◌+◌, ◌-◌, ◌%◌, ◌<◌, Bool, true, false, not, ltb, leb, ◌==◌, if◌then◌else◌,
}
use plexus.Common.{Option, none, some, ◌>>=◌, List, [], ◌∷◌, length, get_or, set, replicate}

abbrev half_space : ℕ
half_space = 32768

abbrev default_window : ℕ
default_window = 512

pub data Outcome : Type 0 where
  delivered buffered duplicate out_of_window : Outcome

pub record Slot : Type 0 where
  pub bytes : List ℕ
  pub present : Bool
  pub fragmented : Bool

pub record Delivery : Type 0 where
  pub seq : ℕ
  pub fragmented : Bool
  pub bytes : List ℕ

pub record UdpReorderBuffer : Type 0 where
  pub window : ℕ
  pub slots : List Slot
  pub base : ℕ
  pub expected : ℕ

abbrev pub empty_slot : Slot
empty_slot = record { bytes = []; present = false; fragmented = false }

unfoldable pub udp_reorder_buffer : ℕ → ℕ → UdpReorderBuffer
udp_reorder_buffer window initial_seq =
    let window = if window == 0 then default_window else window in
    record {
      window = window;
      slots = replicate window empty_slot;
      base = 0;
      expected = initial_seq;
    }

-- `m_slots[index]`, which every caller takes modulo the window.
abbrev pub slot_at : UdpReorderBuffer → ℕ → Slot
slot_at m index = get_or m.slots index empty_slot

-- The delivery of the slot at the base, and the state behind it.
unfoldable pub front_delivery : UdpReorderBuffer → Delivery
front_delivery m =
    let s = slot_at m m.base in
    record { seq = m.expected; fragmented = s.fragmented; bytes = s.bytes }

unfoldable pub release : UdpReorderBuffer → UdpReorderBuffer
release m =
    let s = slot_at m m.base in
    record m {
      slots = set m.slots m.base (record s { present = false });
      expected = (m.expected + 1) % 65536;
      base = (m.base + 1) % m.window;
    }

-- The loop of `drain_contiguous`; `none` is that the fuel ran out.
unfoldable pub drain_loop : ℕ → UdpReorderBuffer → Option (UdpReorderBuffer × List Delivery)
drain_loop zero m = none
drain_loop (suc fuel) m =
    let next = drain_loop fuel (release m) in
    if not (slot_at m m.base).present
    then some (m, [])
    else do (m', deliveries) ← next; some (m', front_delivery m ∷ deliveries)

-- Each turn clears a slot, so that one turn more than there are slots is enough.
unfoldable pub drain_contiguous : UdpReorderBuffer → Option (UdpReorderBuffer × List Delivery)
drain_contiguous m = drain_loop (m.window + 1) m

unfoldable pub feed :
    ℕ → Bool → List ℕ → UdpReorderBuffer → Option (UdpReorderBuffer × Outcome × List Delivery)
feed seq fragmented bytes m =
    let adv = (seq + 65536 - m.expected) % 65536 in
    if leb half_space adv
    then some (m, duplicate, [])
    else if leb m.window adv
    then some (m, out_of_window, [])
    else let index = (m.base + adv) % m.window in
      let was_gap = not (adv == 0) in
      if (slot_at m index).present
      then some (m, (if was_gap then buffered else duplicate), [])
      else let slot : Slot = record { bytes = bytes; present = true; fragmented = fragmented } in
        let m = record m { slots = set m.slots index slot } in
        if was_gap
        then some (m, buffered, [])
        else do (m, deliveries) ← drain_contiguous m; some (m, delivered, deliveries)

unfoldable pub cumulative : UdpReorderBuffer → ℕ
cumulative m = (m.expected + 65536 - 1) % 65536

unfoldable pub buffered_at : UdpReorderBuffer → ℕ → Bool
buffered_at m hole =
    if leb m.window hole then false else (slot_at m ((m.base + hole) % m.window)).present
