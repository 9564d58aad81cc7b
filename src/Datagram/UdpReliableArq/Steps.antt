-- ===== src/Datagram/UdpReliableArq/Steps.antt =====
-- The sender's operations, on a window of segments.
use plexus.Common.{
  ℕ, zero, suc, ◌+◌, ◌-◌, ◌%◌, ◌≤◌, ◌<◌, ◌≡◌, refl, sym, ap, ◌∙◌, arith, true, false, ◌||◌,
}
use plexus.Common.{Bool-cases, ◌⊎◌, inl, inr, leb, List, length}
use plexus.Datagram.UdpReliableArq.{UdpReliableArq, slot_at, in_flight}
use plexus.Datagram.UdpReliableArq.{
  free_segment, slides, slide_to, ack_hole, ack_place, ack_holes, on_ack,
}
use plexus.Datagram.UdpReliableArq.Window.{Segment, Sending}
use plexus.Wire.UdpAck.{UdpAck, hole_received}
use mathlib.Core.Path.{subst}
use native.Mathlib.Decide.{ℕ_discrete}
use plexus.Datagram.UdpReliableArq.Slide.{
  Freed, free_segment-Freed, in_flight-Sending, slide_to-Slid,
}

module _ (now : ℕ) (sent : List Segment) where
  -- What the bitmap leaves: a segment is freed only if a hole names its number.
  record Holed (m m' : UdpReliableArq) (b : ℕ) (IsNamed : ℕ → Type 0) : Type 0 where
    sending : Sending m' b sent
    same_window : m'.window ≡ m.window
    freed :
        (j : ℕ)
        → b ≤ j
        → j < b + m.window
        → (slot_at m' (j % 65536)).outstanding ≡ false
        → ((slot_at m (j % 65536)).outstanding ≡ false) ⊎ IsNamed (j % 65536)

  nothing_freed :
      (m : UdpReliableArq) (b : ℕ) (IsNamed : ℕ → Type 0) → Sending m b sent → Holed m m b IsNamed
  nothing_freed m b IsNamed h = record { sending = h; same_window = refl; freed = λ j p q o. inl o }

  ack_hole-Holed :
      (seq : ℕ) (m : UdpReliableArq) (b : ℕ)
      → seq < 65536
      → Sending m b sent
      → Holed m (ack_hole now seq m) b (λ x. x ≡ seq)
  unfolding ack_hole
  ack_hole-Holed seq m b small h =
      let rel = (seq + 65536 - m.base) % 65536 in
      elim (Bool-cases (leb 32768 rel || leb m.window rel)) [
        | inl out ↦ rw out (nothing_freed m b (λ x. x ≡ seq) h)
        | inr inside ↦
            let near : rel < m.window = ground (arith, inside) in
            let same : (b + rel) % 65536 ≡ seq = omega (arith, h.base_is) in
            let f =
              subst (λ t. Freed m (free_segment now t m) b (b + rel) sent) same
                (free_segment-Freed now sent m b (b + rel) h (omega arith) (omega arith)) in
            rw inside (record {
              sending = f.sending;
              same_window = f.same_window;
              freed = λ j p q o. elim (ℕ_discrete (b + rel) j) [
                | yes e ↦ inr (ap (λ t. t % 65536) (sym e) ∙ same)
                | no ne ↦ inl (ap (λ s. s.outstanding) (sym (f.others j p q ne)) ∙ o)
              ];
            })
      ]

  -- A number that a hole of the acknowledgement names.
  abbrev pub IsHole : UdpAck → ℕ → Type 0
  IsHole ack x = (i : ℕ) × (hole_received ack i ≡ true) × (x ≡ (ack.cumulative + 2 + i) % 65536)

  ack_place-Holed :
      (i : ℕ) (ack : UdpAck) (m : UdpReliableArq) (b : ℕ)
      → Sending m b sent
      → Holed m (ack_place i now ack m) b (IsHole ack)
  unfolding ack_place
  ack_place-Holed i ack m b h = elim (Bool-cases (hole_received ack i)) [
    | inr e ↦ rw e (nothing_freed m b (IsHole ack) h)
    | inl e ↦
        let r = ack_hole-Holed ((ack.cumulative + 2 + i) % 65536) m b (omega arith) h in
        rw e (record {
          sending = r.sending;
          same_window = r.same_window;
          freed = λ j p q o. elim (r.freed j p q o) [ inl was ↦ inl was | inr at ↦ inr (i, e, at) ];
        })
  ]

  ack_holes-Holed :
      (count i : ℕ) (ack : UdpAck) (m : UdpReliableArq) (b : ℕ)
      → Sending m b sent
      → Holed m (ack_holes count i now ack m) b (IsHole ack)
  unfolding ack_holes
  ack_holes-Holed zero i ack m b h = nothing_freed m b (IsHole ack) h
  ack_holes-Holed (suc count) i ack m b h =
      let one = ack_place-Holed i ack m b h in
      let rest = ack_holes-Holed count (i + 1) ack (ack_place i now ack m) b one.sending in
      record {
        sending = rest.sending;
        same_window = rest.same_window ∙ one.same_window;
        freed = λ j p q o. elim (rest.freed j p (omega (arith, q, one.same_window)) o) [
          | inl was ↦ one.freed j p q was
          | inr named ↦ inr named
        ];
      }

  -- What an acknowledgement leaves.
  pub record Acked (ack : UdpAck) (m : UdpReliableArq) (b : ℕ) : Type 0 where
    pub b' : ℕ
    pub sending : Sending (on_ack now ack m).0 b' sent
    pub forward : b ≤ b'
    pub same_window : (on_ack now ack m).0.window ≡ m.window
    pub exact :
        (c : ℕ)
        → (ack.cumulative + 1) % 65536 ≡ c % 65536
        → b ≤ c
        → c ≤ length sent
        → c < b + 32768
        → b' ≡ c
    -- A segment of the window that was outstanding and is not is one that a hole names.
    pub freed :
        (j : ℕ)
        → b' ≤ j
        → j < b + m.window
        → (slot_at (on_ack now ack m).0 (j % 65536)).outstanding ≡ false
        → ((slot_at m (j % 65536)).outstanding ≡ false) ⊎ IsHole ack (j % 65536)
    pub stays : slides ((ack.cumulative + 1) % 65536) m ≡ false → b' ≡ b

  pub on_ack-Acked : (ack : UdpAck) (m : UdpReliableArq) (b : ℕ) → Sending m b sent → Acked ack m b
  unfolding on_ack
  on_ack-Acked ack m b h =
      let new_base = (ack.cumulative + 1) % 65536 in
      let slid = slide_to-Slid now sent new_base m b h in
      let holed = ack_holes-Holed 256 0 ack (slide_to now new_base m).0 slid.b' slid.sending in
      record {
        b' = slid.b';
        sending = holed.sending;
        forward = slid.forward;
        same_window = holed.same_window ∙ slid.same_window;
        freed = λ j p q o.
            elim (holed.freed j p (omega (arith, q, slid.forward, slid.same_window)) o) [
              | inl was ↦ inl (ap (λ s. s.outstanding) (sym (slid.behind j p q)) ∙ was)
              | inr named ↦ inr named
            ];
        exact = λ c e p q r. slid.exact c e p q r (omega arith);
        stays = slid.stays;
      }

  -- An acknowledgement whose edge is number `c`, at most half of the numbers behind the base, moves
  -- the base to it or not at all.
  pub on_ack-edge :
      (ack : UdpAck) (m : UdpReliableArq) (b c : ℕ) (h : Sending m b sent)
      → (ack.cumulative + 1) % 65536 ≡ c % 65536
      → c ≤ length sent
      → b ≤ c + 32768
      → ((on_ack-Acked ack m b h).b' ≡ b) ⊎ ((on_ack-Acked ack m b h).b' ≡ c)
  unfolding slides
  on_ack-edge ack m b c h e le near = elim (Bool-cases (slides ((ack.cumulative + 1) % 65536) m)) [
    | inr stop ↦ inl ((on_ack-Acked ack m b h).stays stop)
    | inl go ↦
        let ahead : (b ≤ c) × (c < b + 32768) =
          ground (arith, go, e, le, near, h.base_is, h.order, h.room, h.small) in
        inr ((on_ack-Acked ack m b h).exact c e ahead.0 le ahead.1)
  ]

-- In a sound window, a cumulative acknowledgement of the segments below number `c`, of those that
-- were sent, leaves in flight those from `c` on, where it acknowledges fewer than half of the
-- numbers there are.
pub on_ack-in_flight :
    (now : ℕ) (ack : UdpAck) (m : UdpReliableArq) (b c : ℕ) (sent : List Segment)
    → Sending m b sent
    → (ack.cumulative + 1) % 65536 ≡ c % 65536
    → b ≤ c
    → c ≤ length sent
    → c < b + 32768
    → ((on_ack now ack m).0.base ≡ c % 65536) × (in_flight (on_ack now ack m).0 ≡ length sent - c)
on_ack-in_flight now ack m b c sent h e p q r =
    let a = on_ack-Acked now sent ack m b h in
    let same : a.b' ≡ c = a.exact c e p q r in
    (
      a.sending.base_is ∙ ap (λ t. t % 65536) same,
      in_flight-Sending (on_ack now ack m).0 a.b' sent a.sending
          ∙ ap (λ (t : ℕ). length sent - t) same,
    )
