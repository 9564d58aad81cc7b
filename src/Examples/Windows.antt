-- ===== src/Examples/Windows.antt =====
-- The receive windows at concrete inputs.
use plexus.Common.{ℕ, ◌<◌, ◌≡◌, arith, true, false, List, [], ◌∷◌, some, elem, ◌%◌}
use plexus.Wire.UdpDedupWindow.{udp_dedup_window, admit}
use plexus.Wire.UdpDedupWindow.Exact.{
  Receiver, Tracks, IsNear, receive, udp_dedup_window-Tracks, admit-receive,
}
use plexus.Wire.UdpDedupWindow.Once.{accepted, AreDistinct, AreNear, accepted-AreDistinct}
use plexus.Datagram.UdpReorderBuffer.{
  UdpReorderBuffer, udp_reorder_buffer, feed, drain_contiguous, drain_loop, release, front_delivery,
}
use plexus.Datagram.UdpReorderBuffer.InOrder.{Datagram, run}
use plexus.Datagram.UdpReorderBuffer.FirstGap.{feeds, AreWithin, feeds-first_gap}

abbrev new_receiver : Receiver
new_receiver = record { highest = 0; seen = [] }

admit-receive_example :
    ((admit (5 % 65536) (udp_dedup_window 32)).1
      ≡ (receive (udp_dedup_window 32).depth 5 new_receiver).1)
    × Tracks
        (admit (5 % 65536) (udp_dedup_window 32)).0
        (receive (udp_dedup_window 32).depth 5 new_receiver).0
unfolding IsNear
admit-receive_example =
    admit-receive (udp_dedup_window 32) new_receiver 5 (udp_dedup_window-Tracks 32)
      (omega arith, omega arith)

abbrev arrivals : List ℕ
arrivals = 1 ∷ 3 ∷ 1 ∷ 2 ∷ 3 ∷ []

accepted-AreDistinct_example : AreDistinct (accepted arrivals (udp_dedup_window 32))
unfolding AreNear IsNear
accepted-AreDistinct_example = accepted-AreDistinct 32 arrivals (
  (omega arith, omega arith),
  (
    (omega arith, omega arith),
    ((omega arith, omega arith), ((omega arith, omega arith), ((omega arith, omega arith), tt))),
  ),
)

abbrev numbers : ℕ → Datagram
numbers n = (false, n ∷ [])

abbrev shuffled : List ℕ
shuffled = 1 ∷ 0 ∷ 0 ∷ 3 ∷ []

feeds-first_gap_example :
    (e : ℕ) × (m' : UdpReorderBuffer) × (feeds numbers shuffled (udp_reorder_buffer 4 0)
      ≡ some (m', run numbers 0 e))
    × ((i : ℕ) → i < e → elem i shuffled ≡ true)
    × (elem e shuffled ≡ false)
unfolding AreWithin feed udp_reorder_buffer drain_contiguous drain_loop release front_delivery
feeds-first_gap_example = feeds-first_gap numbers 4 shuffled (omega arith) (omega arith) (
  omega arith,
  omega arith,
  (omega arith, omega arith, (omega arith, omega arith, (omega arith, omega arith, tt))),
)
