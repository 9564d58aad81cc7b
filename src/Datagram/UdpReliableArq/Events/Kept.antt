-- ===== src/Datagram/UdpReliableArq/Events/Kept.antt =====
-- What each event leaves of the sender's window.
use plexus.Common.{ℕ, ◌+◌, ◌%◌, ◌≤◌, ◌<◌, ◌≡◌, refl, arith, true, some}
use plexus.Common.{if_elim}
use plexus.Common.{List, [], ◌∷◌, All}
use plexus.Datagram.UdpReliableArq.{Slot, UdpReliableArq, Effect, slot_at, transmit}
use plexus.Datagram.UdpReliableArq.{arm, slide_to, on_ack, give_up}
use plexus.Datagram.UdpReliableArq.Window.{
  Segment, Serves, Sending, slot_at-Serves, put_slot-Sending,
}
use plexus.Wire.UdpAck.{UdpAck}
use plexus.Datagram.UdpReliableArq.Events.{IsOf, IsFrom, each_IsFrom-IsOf}

-- What an event leaves of a sender's window.
pub record Stepped (m : UdpReliableArq) (b : ℕ) (sent : List Segment)
    (result : UdpReliableArq × List Effect) : Type 0 where
  pub b' : ℕ
  pub forward : b ≤ b'
  pub sending : Sending result.0 b' sent
  pub same_window : result.0.window ≡ m.window
  pub faithful : All (IsOf sent) result.1

-- The same, where the window stays where it is.
pub record Stayed (m : UdpReliableArq) (b : ℕ) (sent : List Segment)
    (result : UdpReliableArq × List Effect) : Type 0 where
  pub sending : Sending result.0 b sent
  pub same_window : result.0.window ≡ m.window
  pub faithful : All (IsFrom b sent) result.1

pub Stayed-Stepped :
    (m : UdpReliableArq) (b : ℕ) (sent : List Segment) (result : UdpReliableArq × List Effect)
    → Stayed m b sent result
    → Stepped m b sent result
Stayed-Stepped m b sent result s = record {
  b' = b;
  forward = omega arith;
  sending = s.sending;
  same_window = s.same_window;
  faithful = each_IsFrom-IsOf b sent result.1 s.faithful;
}

-- An acknowledgement transmits nothing.
pub on_ack-silent :
    (now : ℕ) (ack : UdpAck) (m : UdpReliableArq) (b : ℕ) (sent : List Segment)
    → All (IsFrom b sent) (on_ack now ack m).1
unfolding on_ack slide_to
on_ack-silent now ack m b sent =
    if_elim (All (IsFrom b sent)) _ [] (Effect.window_advanced ∷ []) (λ e. tt) (λ e. (tt, tt))

module _ (m : UdpReliableArq) (b : ℕ) (sent : List Segment) (h : Sending m b sent) where
  pub arm-Sending :
      (k : ℕ)
      → b ≤ k
      → k < b + m.window
      → (slot_at m (k % 65536)).outstanding ≡ true
      → Sending (arm (k % 65536) m).0 b sent
  unfolding arm
  arm-Sending k p q o =
      let s = slot_at m (k % 65536) in
      let v = slot_at-Serves m b sent h k p q in
      put_slot-Sending m b sent h k (record s { timer = some (k % 65536) }) p q
        (record { known = v.known; content = v.content; waits = λ t e. (o, ground (arith, e)) })

  pub transmit-IsFrom :
      (k : ℕ) (s : Slot)
      → b ≤ k
      → Serves sent k s
      → s.outstanding ≡ true
      → IsFrom b sent (transmit (k % 65536) s)
  transmit-IsFrom k s p v o = (k, p, v.known o, refl, v.content o)

  pub stays : Stayed m b sent (m, [])
  stays = record { sending = h; same_window = refl; faithful = tt }

  pub give_up-Stayed : Stayed m b sent (give_up m)
  unfolding give_up
  give_up-Stayed =
      if_elim (Stayed m b sent) m.dead _ _ (λ e. stays)
        (λ e. record { sending = h; same_window = refl; faithful = (tt, tt) })
