-- ===== src/Examples/Datagrams.antt =====
-- The sender of the reliable datagrams and its time-outs at concrete inputs.
use plexus.Common.{
  ◌-◌, ◌*◌, ◌%◌, ◌^◌, ◌≡◌, ◌≤◌, min, refl, arith, List, [], ◌∷◌, length, replicate, drop, All, some,
  true, false,
}
use plexus.Datagram.UdpRtoEstimator.{udp_rto_estimator, backed_off, double_rto, sample, smooth}
use plexus.Datagram.UdpRtoEstimator.Bounds.{samples, backed_off_lem}
use plexus.Datagram.UdpReliableArq.{
  UdpReliableArq, UdpArqConfig, empty_slot, udp_reliable_arq, in_flight, slides, on_ack, slot_at,
  submit, admission, arm, fill_slot, expired, on_rto, slide_to, slide_loop, ack_holes, ack_place,
  free_segment,
}
use plexus.Datagram.UdpReliableArq.Runs.{run, all_submissions, run-IsOf, run-Stepped, new-Sending}
use plexus.Datagram.UdpReliableArq.Events.{Event, IsOf}
use plexus.Datagram.UdpReliableArq.Window.{Segment}
use plexus.Datagram.UdpReliableArq.Steps.{on_ack-in_flight}
use plexus.Datagram.UdpReliableArq.Retries.{Awaits, tries, run-tries}
use plexus.Datagram.UdpReorderBuffer.{udp_reorder_buffer}
use plexus.Common.{inr, ltb, ◌&&◌}
use plexus.Datagram.UdpReliableArq.{send_ack, Effect}
use plexus.Datagram.UdpReliableArq.SendAck.{send_ack-buffered_at}
use plexus.Datagram.UdpReorderBuffer.{cumulative, buffered_at}
use plexus.Wire.UdpAck.{UdpAck, hole_received}
use plexus.Wire.UdpAck.{no_ack}

backed_off_lem_example :
    (50 ≤ (samples (80 ∷ 90 ∷ []) (udp_rto_estimator 200 50 2000)).rto)
    × ((samples (80 ∷ 90 ∷ []) (udp_rto_estimator 200 50 2000)).rto ≤ 2000)
    × (backed_off 3 (samples (80 ∷ 90 ∷ []) (udp_rto_estimator 200 50 2000))
        ≡ min ((samples (80 ∷ 90 ∷ []) (udp_rto_estimator 200 50 2000)).rto * 2 ^ 3) 2000)
backed_off_lem_example = backed_off_lem 200 50 2000 80 3 (90 ∷ []) (omega arith)

abbrev config : UdpArqConfig
config = record { window = 4; initial_rto = 200; min_rto = 50; max_rto = 2000; max_retransmit = 2 }

-- Two segments, of which the first is acknowledged, though its handler is queued, and the second is
-- sent again.
abbrev events : List Event
events =
    Event.submitted 0 false (8 ∷ [])
    ∷ Event.submitted 3 true (9 ∷ [])
    ∷ Event.acked 60 no_ack
    ∷ Event.late 0
    ∷ Event.fired 1
    ∷ []

run-IsOf_example :
    (in_flight (run events (udp_reliable_arq config 0)).0 ≤ (udp_reliable_arq config 0).window)
    × All
        (IsOf (all_submissions events (udp_reliable_arq config 0) []))
        (run events (udp_reliable_arq config 0)).1
unfolding udp_reliable_arq submit admission arm fill_slot in_flight no_ack on_ack slide_to
    slide_loop slides ack_holes ack_place hole_received free_segment
run-IsOf_example = run-IsOf config events refl (tt, (tt, (tt, (inr refl, (tt, tt)))))

-- One segment is sent, and is acknowledged.
abbrev one_sent : List Event
one_sent = Event.submitted 0 false (8 ∷ []) ∷ []

abbrev sender : UdpReliableArq
sender = (run one_sent (udp_reliable_arq config 0)).0

abbrev sent : List Segment
sent = all_submissions one_sent (udp_reliable_arq config 0) []

on_ack-in_flight_example :
    ((on_ack 60 no_ack sender).0.base ≡ 1 % 65536)
    × (in_flight (on_ack 60 no_ack sender).0 ≡ length sent - 1)
unfolding udp_reliable_arq no_ack in_flight
on_ack-in_flight_example =
    let r =
      run-Stepped one_sent (udp_reliable_arq config 0) 0 [] (tt, tt) (new-Sending config refl) in
    on_ack-in_flight 60 no_ack sender r.b' 1 sent r.sending refl r.sending.order (omega arith)
      (omega arith)

-- One segment that was sent and waits.
abbrev waiting : UdpReliableArq
waiting = record {
  max_retransmit = 2;
  window = 4;
  slots =
      empty_slot
      ∷ record {
        bytes = 8 ∷ [];
        timer = some 1;
        sent_at = 0;
        retransmits = 0;
        outstanding = true;
        retransmitted = false;
        fragmented = false;
      }
      ∷ empty_slot
      ∷ empty_slot
      ∷ [];
  recv = udp_reorder_buffer 4 0;
  next = 2;
  base = 1;
  rto = udp_rto_estimator 200 50 2000;
  dead = false;
}

waiting-Awaits : Awaits waiting 1 0 false (8 ∷ [])
waiting-Awaits = record {
  positive = omega arith;
  size = refl;
  alive = refl;
  is_out = refl;
  pending = refl;
  counted = refl;
  kind = refl;
  content = refl;
}

run-tries_example :
    ((run (replicate 3 (Event.fired 1)) waiting).1 ≡ tries 1 false (8 ∷ []) waiting.rto 0 2)
    × ((run (replicate 3 (Event.fired 1)) waiting).0.dead ≡ true)
run-tries_example = run-tries 2 1 0 waiting false (8 ∷ []) waiting-Awaits refl

send_ack-buffered_at_example :
    (a : UdpAck) × (send_ack waiting ≡ Effect.ack_sent a)
    × (a.cumulative ≡ cumulative waiting.recv)
    × (hole_received a 3 ≡ (ltb 3 256 && buffered_at waiting.recv 4))
send_ack-buffered_at_example = send_ack-buffered_at waiting 3

-- With the largest window, a whole window that one number acknowledges is not taken for acknowledged.
abbrev full : UdpReliableArq
full = record waiting { window = 32768; base = 0; next = 32768 }

whole_window_test : slides 32768 full ≡ false
unfolding slides
whole_window_test = refl

-- With a window that does not divide the numbers, two numbers in flight share a slot.
abbrev odd : UdpReliableArq
odd = record waiting { window = 5; slots = replicate 5 empty_slot; base = 65533; next = 65533 }

abbrev four_sent : List Event
four_sent =
    Event.submitted 0 false (1 ∷ [])
    ∷ Event.submitted 0 false (2 ∷ [])
    ∷ Event.submitted 0 false (3 ∷ [])
    ∷ Event.submitted 0 false (4 ∷ [])
    ∷ []

-- The first of four segments is acknowledged when the handler of its wait is queued, and a fifth one
-- takes its slot.
abbrev reused : List Event
reused =
    Event.submitted 0 false (1 ∷ [])
    ∷ Event.submitted 0 false (2 ∷ [])
    ∷ Event.submitted 0 false (3 ∷ [])
    ∷ Event.submitted 0 false (4 ∷ [])
    ∷ Event.acked 60 (record no_ack { cumulative = 0 })
    ∷ Event.submitted 60 false (5 ∷ [])
    ∷ Event.late 0
    ∷ []

-- The handler sends the fifth one's bytes under the first one's number, and waits under that.
late_test :
    (drop 9 (run reused (udp_reliable_arq config 0)).1
      ≡ Effect.transmitted 4 false (5 ∷ [])
        ∷ Effect.armed 4 180
        ∷ Effect.transmitted 0 false (5 ∷ [])
        ∷ Effect.armed 0 360
        ∷ [])
    × ((slot_at (run reused (udp_reliable_arq config 0)).0 4).timer ≡ some 0)
unfolding udp_reliable_arq submit admission arm fill_slot in_flight no_ack on_ack expired on_rto
    slide_to slide_loop slides ack_holes ack_place hole_received free_segment backed_off double_rto
    sample smooth udp_rto_estimator
late_test = (refl, refl)

shared_place_test :
    (in_flight (run four_sent odd).0 ≡ 4) × ((slot_at (run four_sent odd).0 65535).bytes ≡ 4 ∷ [])
unfolding submit admission arm fill_slot in_flight
shared_place_test = (refl, refl)
