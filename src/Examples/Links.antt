-- ===== src/Examples/Links.antt =====
-- A sender and a receiver at concrete inputs.
use plexus.Common.{
  ℕ, ◌≤◌, ◌<◌, ◌≡◌, refl, arith, true, false, ◌⊎◌, [], ◌∷◌, length, replicate, get_or,
}
use plexus.Datagram.UdpReliableArq.{
  UdpReliableArq, UdpArqConfig, Effect, udp_reliable_arq, slot_at, submit, admission, arm,
  fill_slot, in_flight, on_segment, send_ack, mark_buffered,
}
use plexus.Datagram.UdpReliableArq.Window.{no_segment}
use plexus.Datagram.UdpReliableArq.Events.{Event}
use plexus.Datagram.UdpReliableArq.Link.{
  Link, Frame, Reach, here, next, sends, arrives, after_event, after_arrival,
}
use plexus.Datagram.UdpReliableArq.Link.InOrder.{
  new_link, TakesRun, Reach-in_order, Reach-retained, Reach-progress,
}
use plexus.Datagram.UdpReorderBuffer.{
  udp_reorder_buffer, feed, cumulative, buffered_at, drain_contiguous, drain_loop, release,
  front_delivery,
}
use plexus.Datagram.UdpReorderBuffer.InOrder.{Datagram, run}
use plexus.Wire.UdpAck.{UdpAck, mark_hole, no_ack}
use mathlib.Core.List.{Memᴰ}

abbrev stream : ℕ → Datagram
stream n = (false, n ∷ [])

abbrev config : UdpArqConfig
config = record { window = 4; initial_rto = 200; min_rto = 50; max_rto = 2000; max_retransmit = 2 }

abbrev frame_of : ℕ → Frame
frame_of n = record { number = n; seq = n; fragmented = false; bytes = n ∷ [] }

-- Two segments are submitted.
abbrev first_sent : Link
first_sent = after_event (Event.submitted 0 false (0 ∷ [])) (new_link config config)

abbrev both_sent : Link
both_sent = after_event (Event.submitted 0 false (1 ∷ [])) first_sent

-- The second one arrives, and is held and named.
abbrev holding : UdpReliableArq
holding = record (udp_reliable_arq config 0) {
  recv = record (udp_reorder_buffer 4 0) {
    slots =
        record { bytes = []; present = false; fragmented = false }
        ∷ record { bytes = 1 ∷ []; present = true; fragmented = false }
        ∷ replicate 2 (record { bytes = []; present = false; fragmented = false });
  };
}

abbrev hole_ack : UdpAck
hole_ack = record { cumulative = 65535; selective = 1 ∷ replicate 31 0 }

abbrev one_held : Link
one_held = after_arrival holding [] (Effect.ack_sent hole_ack ∷ []) both_sent

-- Its acknowledgement arrives.
abbrev one_named : Link
one_named = after_event (Event.acked 60 hole_ack) one_held

one_named-Reach : Reach stream (new_link config config) one_named
unfolding udp_reliable_arq submit admission arm fill_slot in_flight on_segment send_ack
    mark_buffered udp_reorder_buffer feed cumulative buffered_at mark_hole no_ack
one_named-Reach =
    next
      (next
        (next (next here (sends (Event.submitted 0 false (0 ∷ [])) refl refl))
          (sends (Event.submitted 0 false (1 ∷ [])) refl refl))
        (arrives (frame_of 1) holding [] (Effect.ack_sent hole_ack ∷ [])
          (Memᴰ.tail (Memᴰ.head refl)) (omega arith) refl refl))
      (sends (Event.acked 60 hole_ack) (0, Memᴰ.head refl, omega arith) refl)

Reach-retained_example :
    (let s = slot_at one_named.sender 0 in
      (s.outstanding ≡ true) × (stream 0 ≡ (s.fragmented, s.bytes)))
    ⊎ (buffered_at one_named.receiver.recv 0 ≡ true)
unfolding udp_reliable_arq submit admission arm fill_slot in_flight
Reach-retained_example =
    Reach-retained stream config config one_named 0 refl (omega arith) one_named-Reach (omega arith)
      (omega arith)

Reach-progress_example : TakesRun stream one_named 0
unfolding udp_reliable_arq submit admission arm fill_slot in_flight
Reach-progress_example =
    Reach-progress stream config config one_named refl (omega arith) one_named-Reach (omega arith)

-- The first one arrives, and both are delivered.
abbrev emptied : UdpReliableArq
emptied = record holding {
  recv = record (udp_reorder_buffer 4 0) {
    slots =
        record { bytes = 0 ∷ []; present = false; fragmented = false }
        ∷ record { bytes = 1 ∷ []; present = false; fragmented = false }
        ∷ replicate 2 (record { bytes = []; present = false; fragmented = false });
    base = 2;
    expected = 2;
  };
}

abbrev full_ack : UdpAck
full_ack = record { cumulative = 1; selective = replicate 32 0 }

abbrev both_delivered : Link
both_delivered = after_arrival emptied (run stream 0 2) (Effect.ack_sent full_ack ∷ []) one_named

both_delivered-Reach : Reach stream (new_link config config) both_delivered
unfolding udp_reliable_arq submit admission arm fill_slot in_flight on_segment send_ack
    mark_buffered udp_reorder_buffer feed cumulative buffered_at mark_hole no_ack drain_contiguous
    drain_loop release front_delivery
both_delivered-Reach = next one_named-Reach (
    arrives (frame_of 0) emptied (run stream 0 2) (Effect.ack_sent full_ack ∷ []) (Memᴰ.head refl)
      (omega arith) refl refl)

Reach-in_order_example :
    (both_delivered.delivered ≡ run stream 0 2)
    × (2 ≤ length both_delivered.sent)
    × ((k : ℕ)
        → k < length both_delivered.sent
        → get_or both_delivered.sent k no_segment ≡ stream k)
unfolding udp_reliable_arq
Reach-in_order_example =
    Reach-in_order stream config config both_delivered refl (omega arith) both_delivered-Reach
