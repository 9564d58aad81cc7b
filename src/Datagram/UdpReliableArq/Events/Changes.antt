-- ===== src/Datagram/UdpReliableArq/Events/Changes.antt =====
-- What the other events leave of the window, and what each of them does.
use plexus.Common.{ℕ, ◌+◌, ◌%◌, ◌<◌, ◌≡◌, refl, sym, ap, ◌∙◌, arith, Bool, true, none}
use plexus.Common.{Bool-cases, inl, inr, leb}
use plexus.Common.{length-map, get_or-map}
use plexus.Common.{List, [], ◌∷◌, ◌++◌, length, length-append, get_or-append_last}
use plexus.Datagram.UdpReliableArq.{Slot, UdpReliableArq, empty_slot, slot_at, put_slot, in_flight}
use plexus.Datagram.UdpReliableArq.{arm, fill_slot, submit, admission, on_ack, cancel}
use plexus.Datagram.UdpReliableArq.Window.{
  Segment, no_segment, Serves, Sending, slot_at-put_slot, slot_at-Serves, put_slot-Sending,
  more-Sending,
}
use plexus.Datagram.UdpReliableArq.Steps.{on_ack-Acked}
use plexus.Datagram.UdpReliableArq.Slide.{in_flight-Sending}
use plexus.Wire.UdpAck.{UdpAck}
use mathlib.Core.Path.{subst}
use plexus.Datagram.UdpReliableArq.Events.{
  Event, step, submissions, IsPrompt, expired_lem, each_IsFrom-IsOf,
}
use plexus.Datagram.UdpReliableArq.Events.{submitted, acked, fired, late, cancelled}
use plexus.Datagram.UdpReliableArq.Events.Kept.{
  Stepped, Stayed, Stayed-Stepped, on_ack-silent, arm-Sending, transmit-IsFrom, stays,
}
use plexus.Datagram.UdpReliableArq.Events.Timeouts.{fire-Stayed}

module _ (m : UdpReliableArq) (b : ℕ) (sent : List Segment) (h : Sending m b sent) where
  on_ack-Stepped : (now : ℕ) (ack : UdpAck) → Stepped m b sent (on_ack now ack m)
  on_ack-Stepped now ack =
      let a = on_ack-Acked now sent ack m b h in
      record {
        b' = a.b';
        forward = a.forward;
        sending = a.sending;
        same_window = a.same_window;
        faithful = each_IsFrom-IsOf b sent (on_ack now ack m).1 (on_ack-silent now ack m b sent);
      }

  pub cancel-Stayed : Stayed m b sent (cancel m, [])
  unfolding cancel
  cancel-Stayed = record {
    sending = record {
      positive = h.positive;
      small = h.small;
      divides = h.divides;
      size = length-map quiet m.slots ∙ h.size;
      base_is = h.base_is;
      next_is = h.next_is;
      order = h.order;
      room = h.room;
      serves = λ k p q. rw (get_or-map quiet m.slots (k % m.window) empty_slot) (
          let v = h.serves k p q in
          record {
            known = v.known;
            content = v.content;
            waits = λ t e. absurd (ground (arith, e));
          });
    };
    same_window = refl;
    faithful = tt;
  }
    where
      quiet : Slot → Slot
      quiet s = record s { timer = none }

  -- A submission where there is room, under the number that is next.
  admitted-Stayed :
      (now : ℕ) (fragmented : Bool) (payload : List ℕ)
      → length sent < b + m.window
      → Stayed m b
          (sent ++ ((fragmented, payload) ∷ []))
          (admission now fragmented payload m (length sent % 65536))
  unfolding admission
  admitted-Stayed now fragmented payload l =
      let x : Segment = (fragmented, payload) in
      let n = length sent in
      let sent' = sent ++ (x ∷ []) in
      let more : length sent' ≡ n + 1 = omega (arith, length-append sent (x ∷ [])) in
      let m1 : UdpReliableArq = record m { next = (m.next + 1) % 65536 } in
      let slot = fill_slot now fragmented payload (slot_at m (n % 65536)) in
      let h1 : Sending m1 b sent' = more-Sending m b sent h x l in
      let v = slot_at-Serves m1 b sent' h1 n h.order l in
      let v' : Serves sent' n slot =
        unfold fill_slot in
        record {
          known = λ e. omega (arith, more);
          content = λ e. get_or-append_last sent x no_segment;
          waits = λ t e. (refl, (v.waits t e).1);
        } in
      let put = put_slot-Sending m1 b sent' h1 n slot h.order l v' in
      let at = slot_at-put_slot m1 b sent' h1 n slot in
      let filled : slot.outstanding ≡ true = unfold fill_slot in refl in
      record {
        sending =
            arm-Sending (put_slot (n % 65536) slot m1) b sent' put n h.order l
              (ap (λ t. t.outstanding) at ∙ filled);
        same_window = unfold arm in refl;
        faithful = (transmit-IsFrom m1 b sent' h1 n slot h.order v' filled, (unfold arm in tt, tt));
      }

  pub submit-Stayed :
      (now : ℕ) (fragmented : Bool) (payload : List ℕ)
      → Stayed m b
          (submissions (submitted now fragmented payload) m sent)
          ((submit now fragmented payload m).0, (submit now fragmented payload m).2)
  unfolding submit
  submit-Stayed now fragmented payload = elim (Bool-cases (leb m.window (in_flight m))) [
    | inl full ↦ rw full (stays m b sent h)
    | inr has_room ↦
        let l : length sent < b + m.window =
          ground (arith, has_room, in_flight-Sending m b sent h, h.order) in
        let here = admitted-Stayed now fragmented payload l in
        rw has_room (
          subst
            (λ seq.
              Stayed m b (sent ++ ((fragmented, payload) ∷ []))
                (admission now fragmented payload m seq))
            (sym h.next_is) here)
  ]

-- What one event leaves that is no handler on another segment's slot.
pub step-Stepped :
    (e : Event) (m : UdpReliableArq) (b : ℕ) (sent : List Segment)
    → IsPrompt e m
    → Sending m b sent
    → Stepped m b (submissions e m sent) (step e m)
step-Stepped (submitted now fragmented payload) m b sent _ h =
    Stayed-Stepped m b _ _ (submit-Stayed m b sent h now fragmented payload)
step-Stepped (acked now ack) m b sent _ h = on_ack-Stepped m b sent h now ack
step-Stepped (fired n) m b sent _ h = Stayed-Stepped m b _ _ (fire-Stayed m b sent h n)
step-Stepped (late seq) m b sent prompt h =
    subst (Stepped m b sent) (sym (expired_lem seq m prompt))
      (Stayed-Stepped m b sent (m, []) (stays m b sent h))
step-Stepped cancelled m b sent _ h = Stayed-Stepped m b _ _ (cancel-Stayed m b sent h)
