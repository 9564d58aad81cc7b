-- ===== src/Datagram/UdpReliableArq/Link.antt =====
-- A sender and a receiver over a network that loses, repeats, delays and reorders what is sent: the
-- frames and the acknowledgements that were sent arrive any number of times, in any order, or never,
-- but not when they are half of the sequence space too old.
pub mod Invariant
pub mod Sender
pub mod Receiver
pub mod InOrder
use plexus.Common.{
  ℕ, zero, suc, ◌+◌, ◌-◌, ◌%◌, ◌≤◌, ◌<◌, ◌≡◌, refl, sym, ap, ◌∙◌, arith, Bool, true, false, Option,
  none, some, ◌⊎◌, inl, inr,
}
use plexus.Common.{
  if_elim, leb, ltb, List, [], ◌∷◌, ◌++◌, length, length-append, get_or, get_or-append,
  get_or-append_last, All, All-append, elem, ◌==◌,
}
use plexus.Datagram.UdpReliableArq.{
  UdpReliableArq, UdpArqConfig, Effect, in_flight, udp_reliable_arq, on_segment, on_ack, send_ack,
}
use plexus.Datagram.UdpReliableArq.Window.{Segment, no_segment, Sending}
use plexus.Datagram.UdpReliableArq.Steps.{on_ack-Acked, on_ack-edge}
use plexus.Datagram.UdpReliableArq.Slide.{in_flight-Sending}
use plexus.Datagram.UdpReliableArq.Events.{Event, IsPrompt, step, submissions}
use plexus.Datagram.UdpReliableArq.Events.Changes.{step-Stepped}
use plexus.Datagram.UdpReliableArq.Events.{submitted, acked, fired, late, cancelled}
use plexus.Datagram.UdpReliableArq.Runs.{new-Sending}
use plexus.Datagram.UdpReliableArq.SendAck.{send_ack-buffered_at}
use plexus.Datagram.UdpReorderBuffer.{
  Delivery, UdpReorderBuffer, udp_reorder_buffer, feed, cumulative,
}
use plexus.Datagram.UdpReorderBuffer.InOrder.{Datagram, run, Holds, IsRun}
use plexus.Datagram.UdpReorderBuffer.Complete.{Fed, feed_number, feed-Fed}
use plexus.Datagram.UdpReorderBuffer.FirstGap.{length-run, run-append, new-Holds}
use plexus.Wire.UdpAck.{UdpAck}
use mathlib.Core.List.{Memᴰ}
use mathlib.Core.Path.{subst}

-- A frame as it was sent, with the number of the newest segment that its `seq` can stand for when it
-- is sent.
pub record Frame : Type 0 where
  pub number : ℕ
  pub seq : ℕ
  pub fragmented : Bool
  pub bytes : List ℕ

-- The largest number below `n` that is `seq` on the wire.
abbrev pub newest : ℕ → ℕ → ℕ
newest n seq = n - 1 - (n - 1 + 65536 - seq) % 65536

-- The frames among the effects of the sender, to which `n` segments were submitted.
abbrev pub frames_of : ℕ → List Effect → List Frame
frames_of n [] = []
frames_of n (Effect.transmitted seq fragmented bytes ∷ es) =
    record { number = newest n seq; seq = seq; fragmented = fragmented; bytes = bytes }
    ∷ frames_of n es
frames_of n (Effect.ack_sent a ∷ es) = frames_of n es
frames_of n (Effect.armed seq delay ∷ es) = frames_of n es
frames_of n (Effect.exhausted ∷ es) = frames_of n es
frames_of n (Effect.window_advanced ∷ es) = frames_of n es

-- The two ends; what was submitted; the frames that were sent; what the receiver delivered; and
-- its acknowledgements, each with the number that it waited for when it sent it.
pub record Link : Type 0 where
  pub sender : UdpReliableArq
  pub receiver : UdpReliableArq
  pub sent : List Segment
  pub air : List Frame
  pub delivered : List Delivery
  pub acks : List (ℕ × UdpAck)

-- An event that the sender may have: it submits the stream's next segment, or an acknowledgement
-- arrives that was sent, and that is not too old. The handler of a wait that was cancelled or
-- replaced never runs on a slot that is outstanding again.
abbrev pub IsNext : (ℕ → Datagram) → Link → Event → Type 0
IsNext stream l (submitted now fragmented payload) = stream (length l.sent) ≡ (fragmented, payload)
IsNext stream l (acked now ack) =
    (edge : ℕ) × Memᴰ (edge, ack) l.acks × (length l.sent - in_flight l.sender ≤ edge + 32768)
IsNext stream l (fired n) = Unit
IsNext stream l (late seq) = IsPrompt (late seq) l.sender
IsNext stream l cancelled = Unit

abbrev pub after_event : Event → Link → Link
after_event e l = record l {
  sender = (step e l.sender).0;
  sent = submissions e l.sender l.sent;
  air = l.air ++ frames_of (length (submissions e l.sender l.sent)) (step e l.sender).1;
}

-- The acknowledgements among the effects of the receiver.
abbrev pub acks_of : ℕ → List Effect → List (ℕ × UdpAck)
acks_of edge [] = []
acks_of edge (Effect.ack_sent a ∷ es) = (edge, a) ∷ acks_of edge es
acks_of edge (Effect.transmitted seq fragmented bytes ∷ es) = acks_of edge es
acks_of edge (Effect.armed seq delay ∷ es) = acks_of edge es
acks_of edge (Effect.exhausted ∷ es) = acks_of edge es
acks_of edge (Effect.window_advanced ∷ es) = acks_of edge es

abbrev pub after_arrival : UdpReliableArq → List Delivery → List Effect → Link → Link
after_arrival m deliveries effects l = record l {
  receiver = m;
  delivered = l.delivered ++ deliveries;
  acks = l.acks ++ acks_of (length (l.delivered ++ deliveries)) effects;
}

-- What the receiver does with a frame of the stream's segment `k`.
abbrev pub segment_arrives :
    (ℕ → Datagram) → ℕ → Link → Option (UdpReliableArq × List Delivery × List Effect)
segment_arrives stream k l = on_segment (k % 65536) (stream k).0 (stream k).1 l.receiver

pub data Step (stream : ℕ → Datagram) (l l' : Link) : Type 0 where
  sends : (e : Event) → IsNext stream l e → l' ≡ after_event e l → Step stream l l'
  arrives :
      (x : Frame) (m : UdpReliableArq) (deliveries : List Delivery) (effects : List Effect)
      → Memᴰ x l.air
      → length l.delivered ≤ x.number + 32768
      → on_segment x.seq x.fragmented x.bytes l.receiver ≡ some (m, deliveries, effects)
      → l' ≡ after_arrival m deliveries effects l
      → Step stream l l'

pub data Reach (stream : ℕ → Datagram) (l : Link) : Link → Type 0 where
  here : Reach stream l l
  next : {t u : Link} → Reach stream l t → Step stream t u → Reach stream l u
