-- ===== src/Datagram/UdpReliableArq/Link/Sender.antt =====
-- The sender's side of a link keeps the invariant.
use plexus.Common.{
  ℕ, ◌+◌, ◌%◌, ◌≤◌, ◌<◌, ◌≡◌, ◌≢◌, refl, sym, ap, ◌∙◌, arith, Bool, true, false, ◌⊎◌, inl, inr,
}
use plexus.Common.{
  Bool-cases, if◌then◌else◌, if_elim, leb, ltb, List, [], ◌∷◌, ◌++◌, length, length-append, get_or,
  get_or-append, get_or-append_last, elem, All, All-append,
}
use plexus.Datagram.UdpReliableArq.{UdpReliableArq, Effect, in_flight, on_ack, submit, fire, cancel}
use plexus.Datagram.UdpReliableArq.Window.{Segment, no_segment, Sending}
use plexus.Datagram.UdpReliableArq.Steps.{on_ack-Acked, on_ack-edge}
use plexus.Datagram.UdpReliableArq.Slide.{in_flight-Sending}
use plexus.Datagram.UdpReliableArq.Events.{Event, IsFrom, expired_lem, submissions}
use plexus.Datagram.UdpReliableArq.Events.Kept.{on_ack-silent}
use plexus.Datagram.UdpReliableArq.Events.Timeouts.{fire-Stayed}
use plexus.Datagram.UdpReliableArq.Events.Changes.{submit-Stayed, cancel-Stayed}
use plexus.Datagram.UdpReliableArq.Events.{submitted, acked, fired, late, cancelled}
use plexus.Datagram.UdpReorderBuffer.InOrder.{Datagram}
use plexus.Wire.UdpAck.{UdpAck}
use plexus.Datagram.UdpReliableArq.{empty_slot, slot_at}
use plexus.Datagram.UdpReliableArq.Outstanding.{
  SameOut, fire-SameOut, cancel-SameOut, submit-more, submit-new,
}
use mathlib.Core.Path.{subst}
use native.Mathlib.Decide.{ℕ_discrete}
use plexus.Datagram.UdpReliableArq.Link.{Link, IsNext, after_event, frames_of}
use plexus.Datagram.UdpReliableArq.Link.Invariant.{
  All-Memᴰ, Inv, IsEdge, IsFrame, IsFrame-later, frames_of-IsFrame,
}

one_or_more :
    (full : Bool) (sent : List Segment) (x : Segment) (k : ℕ)
    → k < length (if full then sent else sent ++ (x ∷ []))
    → (k < length sent) ⊎ ((full ≡ false) × (k ≡ length sent))
one_or_more true sent x k p = inl p
one_or_more false sent x k p =
    let n = length-append sent (x ∷ []) in
    elim (Bool-cases (ltb k (length sent))) [
      | inl less ↦ inl (ground (arith, less))
      | inr more ↦ inr (refl, ground (arith, more, n, p))
    ]

pub false_not_true : false ≢ true
false_not_true e = ground (arith, e)

module _ (stream : ℕ → Datagram) (l : Link) (i : Inv stream l) where
  -- What is submitted further agrees with the stream.
  record Agrees (sent : List Segment) : Type 0 where
    longer : length l.sent ≤ length sent
    agree : (k : ℕ) → k < length sent → get_or sent k no_segment ≡ stream k

  -- The sender's window moves, and more may be submitted.
  sender_moves :
      (m : UdpReliableArq) (sent : List Segment) (effects : List Effect) (b : ℕ)
      → Agrees sent
      → Sending m b sent
      → m.window ≡ l.sender.window
      → b ≤ i.e
      → All (IsFrom b sent) effects
      → ((k : ℕ)
          → b ≤ k
          → k < length sent
          → (slot_at m (k % 65536)).outstanding ≡ false
          → elem k i.seen ≡ true)
      → Inv stream
          (record l { sender = m; sent = sent; air = l.air ++ frames_of (length sent) effects })
  sender_moves m sent effects b a sending same behind faithful held = record {
    b = b;
    e = i.e;
    seen = i.seen;
    sending = sending;
    holds = i.holds;
    first = i.first;
    known = λ x h. omega (arith, i.known x h, a.longer);
    behind = behind;
    ahead = omega (arith, i.ahead, a.longer);
    wide = omega (arith, same, i.wide);
    small = i.small;
    agree = a.agree;
    held = held;
    flying =
        All-append (IsFrame stream (length sent)) l.air (frames_of (length sent) effects)
          (IsFrame-later stream (length l.sent) (length sent) l.air a.longer i.flying)
          (frames_of-IsFrame stream sent b m.window a.agree sending.room sending.small effects
            faithful);
    edges = i.edges;
    in_order = i.in_order;
  }

  unchanged : Agrees l.sent
  unchanged = record { longer = omega arith; agree = i.agree }

  one_more : (x : Segment) → stream (length l.sent) ≡ x → Agrees (l.sent ++ (x ∷ []))
  one_more x e =
      let n = length-append l.sent (x ∷ []) in
      record {
        longer = omega (arith, n);
        agree = λ k p. elim (ℕ_discrete k (length l.sent)) [
          | yes q ↦
              ap (λ t. get_or (l.sent ++ (x ∷ [])) t no_segment) q
              ∙ get_or-append_last l.sent x no_segment
              ∙ sym e
              ∙ ap stream (sym q)
          | no ne ↦
              let inside : k < length l.sent = omega (arith, n) in
              get_or-append l.sent (x ∷ []) k no_segment inside ∙ i.agree k inside
        ];
      }

  acked-Inv :
      (now : ℕ) (ack : UdpAck)
      → IsNext stream l (acked now ack)
      → Inv stream (after_event (acked now ack) l)
  acked-Inv now ack (edge, sent_ack, recent) =
      let a = on_ack-Acked now l.sent ack l.sender i.b i.sending in
      let x = All-Memᴰ (IsEdge i.e i.seen) l.acks sent_ack i.edges in
      let flight = in_flight-Sending l.sender i.b l.sent i.sending in
      let near : i.b ≤ edge + 32768 = omega (arith, flight, recent, i.sending.order) in
      let within : edge ≤ length l.sent = omega (arith, x.reached, i.ahead) in
      let behind : a.b' ≤ i.e =
        elim (on_ack-edge now l.sent ack l.sender i.b edge i.sending x.cumulates within near) [
          | inl same ↦ omega (arith, same, i.behind)
          | inr same ↦ omega (arith, same, x.reached)
        ] in
      sender_moves (on_ack now ack l.sender).0 l.sent (on_ack now ack l.sender).1 a.b' unchanged
        a.sending a.same_window behind (on_ack-silent now ack l.sender a.b' l.sent)
        (λ k p q o. elim (a.freed k p (omega (arith, q, i.sending.room)) o) [
          | inl was ↦ i.held k (omega (arith, p, a.forward)) q was
          | inr (j, hole, at) ↦
              let there = x.named j hole in
              let far : edge + (j + 1) < length l.sent = i.known (edge + (j + 1)) there in
              let same : edge + (j + 1) ≡ k = omega (
                arith, at, x.cumulates, far, near, p, q, a.forward, i.sending.room, i.sending.small,
              ) in
              ap (λ t. elem t i.seen) (sym same) ∙ there
        ])

  -- What is held stays so where the same slots are outstanding.
  still :
      (m : UdpReliableArq)
      → m.window ≡ l.sender.window
      → SameOut l.sender m
      → (k : ℕ) → i.b ≤ k
      → k < length l.sent
      → (slot_at m (k % 65536)).outstanding ≡ false
      → elem k i.seen ≡ true
  still m same out k p q o = i.held k p q (
      sym (out (k % 65536 % l.sender.window))
      ∙ ap (λ w. (get_or m.slots (k % 65536 % w) empty_slot).outstanding) (sym same)
      ∙ o)

  submit_held :
      (now : ℕ) (fragmented : Bool) (payload : List ℕ) (k : ℕ)
      → i.b ≤ k
      → k < length (submissions (submitted now fragmented payload) l.sender l.sent)
      → (slot_at (submit now fragmented payload l.sender).0 (k % 65536)).outstanding ≡ false
      → elem k i.seen ≡ true
  submit_held now fragmented payload k p q o =
      let s = submit-Stayed l.sender i.b l.sent i.sending now fragmented payload in
      let m' = (submit now fragmented payload l.sender).0 in
      let w = l.sender.window in
      let o' : (get_or m'.slots (k % 65536 % w) empty_slot).outstanding ≡ false =
        ap (λ w. (get_or m'.slots (k % 65536 % w) empty_slot).outstanding) (sym s.same_window)
        ∙ o in
      elim (one_or_more (leb w (in_flight l.sender)) l.sent (fragmented, payload) k q) [
        | inl old ↦ i.held k p old (submit-more now fragmented payload l.sender (k % 65536 % w) o')
        | inr (room, new) ↦
            let at : k % 65536 ≡ l.sender.next = ap (λ t. t % 65536) new ∙ sym i.sending.next_is in
            let out =
              submit-new now fragmented payload l.sender i.sending.positive i.sending.size room in
            absurd (
              false_not_true
                (sym o' ∙ ap (λ t. (get_or m'.slots (t % w) empty_slot).outstanding) at ∙ out))
      ]

  submitted-Inv :
      (now : ℕ) (fragmented : Bool) (payload : List ℕ)
      → IsNext stream l (submitted now fragmented payload)
      → Inv stream (after_event (submitted now fragmented payload) l)
  submitted-Inv now fragmented payload is_next =
      let held = submit_held now fragmented payload in
      let s = submit-Stayed l.sender i.b l.sent i.sending now fragmented payload in
      let sent = submissions (submitted now fragmented payload) l.sender l.sent in
      let a : Agrees sent =
        if_elim Agrees (leb l.sender.window (in_flight l.sender)) _ _ (λ e. unchanged)
          (λ e. one_more (fragmented, payload) is_next) in
      sender_moves (submit now fragmented payload l.sender).0 sent
        (submit now fragmented payload l.sender).2 i.b a s.sending s.same_window i.behind s.faithful
        held

  pub events-Inv : (ev : Event) → IsNext stream l ev → Inv stream (after_event ev l)
  events-Inv (submitted now fragmented payload) n = submitted-Inv now fragmented payload n
  events-Inv (acked now ack) n = acked-Inv now ack n
  events-Inv (fired k) n =
      let s = fire-Stayed l.sender i.b l.sent i.sending k in
      let r = fire (k % l.sender.window) l.sender in
      let r0 = r.0 in
      let same_out = fire-SameOut (k % l.sender.window) l.sender in
      sender_moves r.0 l.sent r.1 i.b unchanged s.sending s.same_window i.behind s.faithful
        (still r0 s.same_window same_out)
  events-Inv (late seq) n =
      subst
        (λ (r : UdpReliableArq × List Effect).
          Inv stream (record l {
            sender = r.0;
            sent = l.sent;
            air = l.air ++ frames_of (length l.sent) r.1;
          }))
        (sym (expired_lem seq l.sender n))
        (sender_moves l.sender l.sent [] i.b unchanged i.sending refl i.behind tt i.held)
  events-Inv cancelled n =
      let s = cancel-Stayed l.sender i.b l.sent i.sending in
      let r0 = cancel l.sender in
      let same_out = cancel-SameOut l.sender in
      sender_moves (cancel l.sender) l.sent [] i.b unchanged s.sending s.same_window i.behind
        s.faithful (still r0 s.same_window same_out)
