-- ===== src/Datagram/UdpReliableArq/Link/Receiver.antt =====
-- The receiver's side of a link keeps the invariant.
use plexus.Common.{ℕ, ◌+◌, ◌-◌, ◌≤◌, ◌<◌, ◌≡◌, refl, sym, ap, ◌∙◌, arith, true, some}
use plexus.Common.{[], ◌∷◌, ◌++◌, length, All-append, elem, elem-cons_ne}
use plexus.Datagram.UdpReliableArq.{UdpReliableArq, Effect, on_segment}
use plexus.Datagram.UdpReorderBuffer.InOrder.{Datagram, run}
use plexus.Datagram.UdpReorderBuffer.Complete.{Fed, feed-Fed}
use plexus.Datagram.UdpReorderBuffer.FirstGap.{known, gap_further, length-run, run-append}
use plexus.Wire.UdpAck.{UdpAck}
use mathlib.Core.Path.{subst}
use native.Mathlib.Decide.{ℕ_discrete}
use plexus.Datagram.UdpReliableArq.Link.{Link, acks_of, after_arrival, segment_arrives}
use plexus.Datagram.UdpReliableArq.Link.Invariant.{Inv, IsEdge, IsEdge-later, answer-IsEdge}

-- A frame of segment `k` arrives.
module _ (stream : ℕ → Datagram) (l : Link) (i : Inv stream l) where
  module _ (k : ℕ) (p : k < length l.sent) (recent : i.e ≤ k + 32768) where
    pub f : Fed stream l.receiver.recv i.e i.seen k
    f =
        feed-Fed stream l.receiver.recv i.e i.seen i.holds i.small k i.first.missing
          (omega (arith, p, i.sending.room, i.behind, i.wide)) recent

    pub received : UdpReliableArq
    received = record l.receiver { recv = f.state }

    -- The acknowledgement is of what the receiver waits for then.
    pub segment_arrives_lem :
        (ack : UdpAck) × (segment_arrives stream k l
          ≡ some (received, run stream i.e f.k, Effect.ack_sent ack ∷ []))
        × IsEdge (i.e + f.k) (k ∷ i.seen) (i.e + f.k, ack)
    unfolding on_segment received
    segment_arrives_lem =
        let (ack, is, edge) = answer-IsEdge stream received (i.e + f.k) (k ∷ i.seen) f.holds in
        (ack, rw (f.fed, is) refl, edge)

    arrived_known : (x : ℕ) → elem x (k ∷ i.seen) ≡ true → x < length l.sent
    arrived_known x h = elim (ℕ_discrete x k) [
      | yes q ↦ omega (arith, q, p)
      | no ne ↦ i.known x (sym (elem-cons_ne x k i.seen ne) ∙ h)
    ]

    arrived_ahead : i.e + f.k ≤ length l.sent
    arrived_ahead = elim (ℕ_discrete f.k 0) [
      | yes q ↦ omega (arith, q, i.ahead)
      | no ne ↦
          let last = f.is_run.held (f.k - 1) (omega (arith, ne)) in
          omega (arith, ne, arrived_known (i.e + (f.k - 1)) last)
    ]

    pub arrival-Inv :
        (ack : UdpAck)
        → IsEdge (i.e + f.k) (k ∷ i.seen) (i.e + f.k, ack)
        → Inv stream (after_arrival received (run stream i.e f.k) (Effect.ack_sent ack ∷ []) l)
    unfolding received
    arrival-Inv ack edge =
        let zero_on : 0 + i.e ≡ i.e = omega arith in
        let all : l.delivered ++ run stream i.e f.k ≡ run stream 0 (i.e + f.k) =
          ap (λ t. t ++ run stream i.e f.k) i.in_order
          ∙ ap (λ t. run stream 0 i.e ++ run stream t f.k) (sym zero_on)
          ∙ run-append stream 0 i.e f.k in
        let len : length (l.delivered ++ run stream i.e f.k) ≡ i.e + f.k =
          ap (λ t. length t) all ∙ length-run stream 0 (i.e + f.k) in
        record {
          b = i.b;
          e = i.e + f.k;
          seen = k ∷ i.seen;
          sending = i.sending;
          holds = f.holds;
          first = gap_further k i.e f.k i.seen i.first f.is_run;
          known = arrived_known;
          behind = omega (arith, i.behind);
          ahead = arrived_ahead;
          wide = omega (arith, i.wide, f.same_window);
          small = omega (arith, i.small, f.same_window);
          agree = i.agree;
          held = λ x p q o. known k x i.seen (i.held x p q o);
          flying = i.flying;
          edges =
              All-append (IsEdge (i.e + f.k) (k ∷ i.seen)) l.acks
                (acks_of (length (l.delivered ++ run stream i.e f.k)) (Effect.ack_sent ack ∷ []))
                (IsEdge-later i.e (i.e + f.k) k i.seen l.acks (omega arith) i.edges)
                (subst (λ t. IsEdge (i.e + f.k) (k ∷ i.seen) (t, ack)) (sym len) edge, tt);
          in_order = all;
        }
