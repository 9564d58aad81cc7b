-- ===== src/Datagram/UdpReliableArq/Link/InOrder.antt =====
-- What the receiver delivers is the stream that was submitted, in order.
use plexus.Common.{
  ℕ, ◌+◌, ◌-◌, ◌%◌, ◌≤◌, ◌<◌, ◌≡◌, refl, sym, ap, ◌∙◌, arith, true, false, some, ◌⊎◌, inl, inr,
}
use plexus.Common.{Bool-cases, List, [], ◌∷◌, length, get_or, elem, elem-cons_self, elem-cons_ne}
use plexus.Datagram.UdpReliableArq.{
  UdpReliableArq, UdpArqConfig, Effect, udp_reliable_arq, on_segment,
}
use plexus.Datagram.UdpReliableArq.Window.{no_segment, slot_at-Serves}
use plexus.Datagram.UdpReliableArq.Runs.{new-Sending}
use plexus.Datagram.UdpReorderBuffer.{Delivery, udp_reorder_buffer}
use plexus.Datagram.UdpReorderBuffer.InOrder.{Datagram, run}
use plexus.Datagram.UdpReorderBuffer.Complete.{Fed}
use plexus.Datagram.UdpReorderBuffer.FirstGap.{known, length-run, new-Holds}
use plexus.Wire.UdpAck.{UdpAck}
use plexus.Datagram.UdpReliableArq.{slot_at}
use plexus.Datagram.UdpReorderBuffer.{buffered_at}
use plexus.Datagram.UdpReliableArq.Link.{sends, arrives, here, next}
use mathlib.Core.Path.{subst}
use native.Mathlib.Decide.{ℕ_discrete}
use plexus.Datagram.UdpReliableArq.Link.{Link, after_arrival, segment_arrives, Step, Reach}
use plexus.Datagram.UdpReliableArq.Link.Sender.{events-Inv, false_not_true}
use plexus.Datagram.UdpReliableArq.Link.Invariant.{
  All-Memᴰ, Inv, IsFrame, some_same, elem-buffered_at, gap-buffered_at,
}
use plexus.Datagram.UdpReliableArq.Link.Receiver.{f, received, segment_arrives_lem, arrival-Inv}

Step-Inv : (stream : ℕ → Datagram) {l l' : Link} → Inv stream l → Step stream l l' → Inv stream l'
Step-Inv stream {l = l} i (sends ev n e) = subst (Inv stream) (sym e) (events-Inv stream l i ev n)
Step-Inv stream {l = l} i (arrives x m deliveries effects flies recent got e) =
    let k = x.number in
    let is_frame : IsFrame stream (length l.sent) x =
      All-Memᴰ (IsFrame stream (length l.sent)) l.air flies i.flying in
    let p = is_frame.below in
    let near : i.e ≤ k + 32768 =
      omega (arith, recent, ap (λ t. length t) i.in_order, length-run stream 0 i.e) in
    let (ack, is, edge) = segment_arrives_lem stream l i k p near in
    let frame : segment_arrives stream k l ≡ on_segment x.seq x.fragmented x.bytes l.receiver =
      ap (λ seq. on_segment seq (stream k).0 (stream k).1 l.receiver) (sym is_frame.numbered)
      ∙ ap (λ (t : Datagram). on_segment x.seq t.0 t.1 l.receiver) is_frame.content in
    let same = some_same (sym is ∙ frame ∙ got) in
    subst (Inv stream)
      (ap (λ (t : UdpReliableArq × List Delivery × List Effect). after_arrival t.0 t.1 t.2 l) same
        ∙ sym e)
      (arrival-Inv stream l i k p near ack edge)

Reach-Inv : (stream : ℕ → Datagram) {l l' : Link} → Inv stream l → Reach stream l l' → Inv stream l'
Reach-Inv stream i here = i
Reach-Inv stream i (next r s) = Step-Inv stream (Reach-Inv stream i r) s

-- A new sender and a new receiver.
abbrev pub new_link : UdpArqConfig → UdpArqConfig → Link
new_link cfg cfg' = record {
  sender = udp_reliable_arq cfg 0;
  receiver = udp_reliable_arq cfg' 0;
  sent = [];
  air = [];
  delivered = [];
  acks = [];
}

recv-window :
    (cfg : UdpArqConfig) → (udp_reliable_arq cfg 0).recv.window ≡ (udp_reliable_arq cfg 0).window
unfolding udp_reliable_arq udp_reorder_buffer
recv-window cfg = ground arith

window-half : (cfg : UdpArqConfig) → (udp_reliable_arq cfg 0).window ≤ 32768
unfolding udp_reliable_arq
window-half cfg = ground arith

new-Inv :
    (stream : ℕ → Datagram) (cfg cfg' : UdpArqConfig)
    → 65536 % (udp_reliable_arq cfg 0).window ≡ 0
    → (udp_reliable_arq cfg 0).window ≤ (udp_reliable_arq cfg' 0).window
    → Inv stream (new_link cfg cfg')
new-Inv stream cfg cfg' d wide =
    let positive : 0 < (udp_reliable_arq cfg' 0).window = unfold udp_reliable_arq in ground arith in
    record {
      b = 0;
      e = 0;
      seen = [];
      sending = new-Sending cfg d;
      holds = unfold udp_reliable_arq in new-Holds stream (udp_reliable_arq cfg' 0).window positive;
      first = record { before = λ x p. absurd (omega arith); missing = unfold elem in refl };
      known = λ x h. absurd (unfold elem in ground (arith, h));
      behind = omega arith;
      ahead = omega arith;
      wide = omega (arith, wide, recv-window cfg');
      small = omega (arith, recv-window cfg', window-half cfg');
      agree = λ k p. absurd (omega arith);
      held = λ k p q o. absurd (omega arith);
      flying = tt;
      edges = tt;
      in_order = refl;
    }

-- Between a new sender and a new receiver that count from 0, where the sender's window divides 65536
-- and is no larger than the receiver's, and the handler of a wait that was cancelled or replaced
-- never runs on a slot that is outstanding again, whatever the network loses, repeats, delays and
-- reorders of the frames and acknowledgements that the two sent, as long as nothing arrives that is
-- half of the sequence space too old: what the receiver has delivered is the segments that were
-- submitted, from the first on, in order, each once, with its bytes, and never one that was not
-- submitted.
pub Reach-in_order :
    (stream : ℕ → Datagram) (cfg cfg' : UdpArqConfig) (l : Link)
    → 65536 % (udp_reliable_arq cfg 0).window ≡ 0
    → (udp_reliable_arq cfg 0).window ≤ (udp_reliable_arq cfg' 0).window
    → Reach stream (new_link cfg cfg') l
    → (l.delivered ≡ run stream 0 (length l.delivered))
      × (length l.delivered ≤ length l.sent)
      × ((k : ℕ) → k < length l.sent → get_or l.sent k no_segment ≡ stream k)
Reach-in_order stream cfg cfg' l d wide r =
    let i = Reach-Inv stream (new-Inv stream cfg cfg' d wide) r in
    let len : length l.delivered ≡ i.e = ap (λ t. length t) i.in_order ∙ length-run stream 0 i.e in
    (i.in_order ∙ ap (run stream 0) (sym len), omega (arith, len, i.ahead), i.agree)

-- In the runs of a new sender and a new receiver that count from 0, where the sender's window divides
-- 65536 and is no larger than the receiver's, the handler of a wait that was cancelled or replaced
-- never runs on a slot that is outstanding again, and nothing arrives that is half of the sequence
-- space too old: a segment that was submitted and not delivered is either outstanding at the sender,
-- with its bytes, or held by the receiver, behind the one that it waits for. The acknowledgements that arrive never make the sender
-- forget one that the receiver lacks.
pub Reach-retained :
    (stream : ℕ → Datagram) (cfg cfg' : UdpArqConfig) (l : Link) (k : ℕ)
    → 65536 % (udp_reliable_arq cfg 0).window ≡ 0
    → (udp_reliable_arq cfg 0).window ≤ (udp_reliable_arq cfg' 0).window
    → Reach stream (new_link cfg cfg') l
    → length l.delivered ≤ k
    → k < length l.sent
    → (let s = slot_at l.sender (k % 65536) in
        (s.outstanding ≡ true) × (stream k ≡ (s.fragmented, s.bytes)))
      ⊎ (buffered_at l.receiver.recv (k - length l.delivered) ≡ true)
Reach-retained stream cfg cfg' l k d wide r behind known =
    let i = Reach-Inv stream (new-Inv stream cfg cfg' d wide) r in
    let len : length l.delivered ≡ i.e = ap (λ t. length t) i.in_order ∙ length-run stream 0 i.e in
    let p : i.b ≤ k = omega (arith, i.behind, len, behind) in
    let q : k < i.b + l.sender.window = omega (arith, known, i.sending.room) in
    elim (Bool-cases (slot_at l.sender (k % 65536)).outstanding) [
      | inl out ↦ inl (
        out,
        sym (i.agree k known) ∙ (slot_at-Serves l.sender i.b l.sent i.sending k p q).content out,
      )
      | inr free ↦
          let got = i.held k p known free in
          let hole = k - length l.delivered in
          let at : i.e + hole ≡ k = omega (arith, len, behind) in
          let near : hole < l.receiver.recv.window =
            omega (arith, q, i.behind, i.wide, len, behind) in
          inr (
            elem-buffered_at stream l.receiver.recv i.e i.seen hole i.holds near
              (ap (λ t. elem t i.seen) at ∙ got))
    ]

-- A frame of the stream's segment `e` delivers it and those that are held right behind it, up to the
-- first that is not, and is answered by an acknowledgement of them all.
abbrev pub TakesRun : (ℕ → Datagram) → Link → ℕ → Type 0
TakesRun stream l e =
    (m : UdpReliableArq) × (n : ℕ) × (ack : UdpAck) × (segment_arrives stream e l
      ≡ some (m, run stream e n, Effect.ack_sent ack ∷ []))
    × (0 < n)
    × ((i : ℕ) → 0 < i → i < n → buffered_at l.receiver.recv i ≡ true)
    × (buffered_at l.receiver.recv n ≡ false)
    × ((ack.cumulative + 1) % 65536 ≡ (e + n) % 65536)

module _ (stream : ℕ → Datagram) (l : Link) (i : Inv stream l) (p : i.e < length l.sent) where
  abbrev first_fed : Fed stream l.receiver.recv i.e i.seen i.e
  first_fed = f stream l i i.e p (omega arith)

  first_some : 0 < first_fed.k
  first_some = elim (ℕ_discrete first_fed.k 0) [
    | yes z ↦
        let here : i.e + first_fed.k ≡ i.e = omega (arith, z) in
        absurd (
          false_not_true (
            sym first_fed.is_run.gap
            ∙ ap (λ t. elem t (i.e ∷ i.seen)) here
            ∙ elem-cons_self i.e i.seen))
    | no ne ↦ omega (arith, ne)
  ]

  -- Behind the first segment, what is seen is seen without it.
  behind_first : (j : ℕ) → 0 < j → elem (i.e + j) (i.e ∷ i.seen) ≡ elem (i.e + j) i.seen
  behind_first j pos = elem-cons_ne (i.e + j) i.e i.seen (λ e. omega (arith, e, pos))

  first_behind : (j : ℕ) → 0 < j → j < first_fed.k → buffered_at l.receiver.recv j ≡ true
  first_behind j pos less =
      let there : elem (i.e + j) i.seen ≡ true =
        sym (behind_first j pos) ∙ first_fed.is_run.held j less in
      let far : i.e + j < length l.sent = i.known (i.e + j) there in
      elem-buffered_at stream l.receiver.recv i.e i.seen j i.holds
        (omega (arith, far, i.sending.room, i.behind, i.wide)) there

  first_TakesRun : TakesRun stream l i.e
  first_TakesRun =
      let near : i.e ≤ i.e + 32768 = omega arith in
      let (ack, is, edge) = segment_arrives_lem stream l i i.e p near in
      (
        received stream l i i.e p near,
        first_fed.k,
        ack,
        is,
        first_some,
        first_behind,
        gap-buffered_at stream l.receiver.recv i.e i.seen first_fed.k i.holds
            (sym (behind_first first_fed.k first_some) ∙ first_fed.is_run.gap),
        edge.cumulates,
      )

-- In the runs of a new sender and a new receiver that count from 0, where the sender's window divides
-- 65536 and is no larger than the receiver's, the handler of a wait that was cancelled or replaced
-- never runs on a slot that is outstanding again, and nothing arrives that is half of the sequence
-- space too old: where not everything is delivered, a frame of the first segment that is missing is
-- taken whenever it arrives. It delivers that segment and those that are held right behind it, up to
-- the first that is not, and the answer acknowledges them all.
pub Reach-progress :
    (stream : ℕ → Datagram) (cfg cfg' : UdpArqConfig) (l : Link)
    → 65536 % (udp_reliable_arq cfg 0).window ≡ 0
    → (udp_reliable_arq cfg 0).window ≤ (udp_reliable_arq cfg' 0).window
    → Reach stream (new_link cfg cfg') l
    → length l.delivered < length l.sent
    → TakesRun stream l (length l.delivered)
Reach-progress stream cfg cfg' l d wide r more =
    let i = Reach-Inv stream (new-Inv stream cfg cfg' d wide) r in
    let len : i.e ≡ length l.delivered =
      sym (ap (λ t. length t) i.in_order ∙ length-run stream 0 i.e) in
    subst (TakesRun stream l) len (first_TakesRun stream l i (omega (arith, more, len)))
