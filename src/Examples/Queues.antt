-- ===== src/Examples/Queues.antt =====
-- The send queue, the handshake's retransmission and the history ring at concrete inputs.
use plexus.Common.{ℕ, ◌≤◌, ◌<◌, ◌≡◌, refl, arith, some, true, inl, List, [], ◌∷◌, ◌++◌}
use plexus.Datagram.SendQueue.{
  send_queue, enqueue, admits, push_back, take_buffer, drive, drive_front, complete, complete_front,
}
use plexus.Datagram.SendQueue.Fifo.{new_state, run-fifo}
use plexus.Datagram.SendQueue.Front.{Event, State, AreDue, run, total, is_busy, waiting}
use plexus.Datagram.UdpHandshakeArq.{UdpHandshakeArq}
use plexus.Datagram.UdpHandshakeArq.Ladder
use plexus.Common.{◌+◌, ◌-◌, none, get_or}
use plexus.Io.HistoryRing.{HistoryRing, history_ring, resize_to, push, newest, oldest_to_newest}
use plexus.Io.HistoryRing.Window.{pushes, pushes-last}

-- Two frames, the end of the first one, and a frame that is too long.
abbrev events : List (Event ℕ)
events =
    Event.enqueued (1 ∷ 2 ∷ []) 5
    ∷ Event.enqueued (3 ∷ []) 6
    ∷ Event.completed
    ∷ Event.enqueued (4 ∷ 5 ∷ 6 ∷ 7 ∷ []) 5
    ∷ []

events-AreDue : AreDue events (new_state 4)
unfolding AreDue send_queue enqueue admits push_back take_buffer drive drive_front complete
    complete_front
events-AreDue = (tt, (tt, (inl refl, (tt, tt))))

run-fifo_example :
    (s : State ℕ) × (run events (new_state 4) ≡ some s)
    × (s.queue.bytes ≡ total s.queue.queue)
    × (s.queue.bytes ≤ s.queue.byte_cap)
    × (s.queue.sending ≡ is_busy s.queue.queue)
    × (s.queue.is_open ≡ true → s.accepted ≡ s.handed ++ waiting s.queue)
run-fifo_example = run-fifo 4 events (omega arith) events-AreDue

abbrev heard_late : List Ladder.Event
heard_late = Ladder.Event.fired ∷ Ladder.Event.fired ∷ Ladder.Event.paired ∷ Ladder.Event.fired ∷ []

-- Three frames in a ring of two.
pushes-last_example :
    (m : HistoryRing) × (pushes ((1 ∷ []) ∷ (2 ∷ []) ∷ (3 ∷ []) ∷ []) (resize_to 2 history_ring)
      ≡ some m)
    × (m.count ≡ 2)
    × ((i : ℕ)
        → i < m.count
        → oldest_to_newest i m ≡ get_or ((1 ∷ []) ∷ (2 ∷ []) ∷ (3 ∷ []) ∷ []) (3 - m.count + i) [])
    × (0 < 3 → newest m ≡ 3 ∷ [])
pushes-last_example = pushes-last 2 ((1 ∷ []) ∷ (2 ∷ []) ∷ (3 ∷ []) ∷ []) (omega arith)

-- A ring of four with three frames is cut to two: the next frame is written past its slots.
abbrev three_of_four : HistoryRing
three_of_four = record { slots = (1 ∷ []) ∷ (2 ∷ []) ∷ (3 ∷ []) ∷ [] ∷ []; head = 3; count = 3 }

cut_ring_test :
    (pushes ((1 ∷ []) ∷ (2 ∷ []) ∷ (3 ∷ []) ∷ []) (resize_to 4 history_ring) ≡ some three_of_four)
    × (push (4 ∷ []) (resize_to 2 three_of_four) ≡ none)
unfolding push resize_to history_ring
cut_ring_test = (refl, refl)
