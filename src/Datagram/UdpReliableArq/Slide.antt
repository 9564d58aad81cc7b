-- ===== src/Datagram/UdpReliableArq/Slide.antt =====
-- The slide of the base, over the segments that a cumulative acknowledgement frees.
use plexus.Common.{
  ℕ, zero, suc, ◌+◌, ◌-◌, ◌%◌, ◌≤◌, ◌<◌, ◌≡◌, refl, sym, ap, ◌∙◌, ◌≢◌, arith, true, false, none,
}
use plexus.Common.{Bool-cases, inl, inr, List, length}
use plexus.Datagram.UdpReliableArq.{Slot, UdpReliableArq, slot_at, in_flight}
use plexus.Datagram.UdpReliableArq.{free_segment, slides, slide_loop, slide_to}
use plexus.Datagram.UdpReliableArq.Window.{
  Segment, Serves, Sends, Sending, slot_at-put_slot, slot_at-put_slot_ne, put_slot-Sending,
  slide-Sending,
}
use mathlib.Core.Path.{subst}
use native.Mathlib.Decide.{ℕ_discrete}

pub in_flight-Sending :
    (m : UdpReliableArq) (b : ℕ) (sent : List Segment)
    → Sending m b sent
    → in_flight m ≡ length sent - b
unfolding in_flight
in_flight-Sending m b sent h = omega (arith, h.base_is, h.next_is, h.order, h.room, h.small)

-- The state after a segment is freed: what else an acknowledgement reads has not changed.
pub record Freed (m m' : UdpReliableArq) (b k : ℕ) (sent : List Segment) : Type 0 where
  pub sending : Sending m' b sent
  pub same_base : m'.base ≡ m.base
  pub same_window : m'.window ≡ m.window
  pub is_free : (slot_at m' (k % 65536)).outstanding ≡ false
  pub others :
      (j : ℕ) → b ≤ j → j < b + m.window → k ≢ j → slot_at m' (j % 65536) ≡ slot_at m (j % 65536)

module _ (now : ℕ) (sent : List Segment) where
  pub free_segment-Freed :
      (m : UdpReliableArq) (b k : ℕ)
      → Sending m b sent
      → b ≤ k
      → k < b + m.window
      → Freed m (free_segment now (k % 65536) m) b k sent
  unfolding free_segment
  free_segment-Freed m b k h p q =
      let s = slot_at m (k % 65536) in
      let idle : Slot = record s { timer = none; outstanding = false } in
      let serves : Serves sent k idle = record {
        known = λ o. absurd (ground (arith, o));
        content = λ o. absurd (ground (arith, o));
        waits = λ t o. absurd (ground (arith, o));
      } in
      elim (Bool-cases s.outstanding) [
        | inr e ↦ rw e (record {
          sending = h;
          same_base = refl;
          same_window = refl;
          is_free = e;
          others = λ j r t ne. refl;
        })
        | inl e ↦ rw e (record {
          sending = put_slot-Sending m b sent h k idle p q serves;
          same_base = refl;
          same_window = refl;
          is_free = ap (λ t. t.outstanding) (slot_at-put_slot m b sent h k idle);
          others = λ j r t ne. slot_at-put_slot_ne m b sent h k j idle p q r t ne;
        })
      ]

  -- What the loop of `slide_to` leaves, whatever it is given; and where it is given a number that it
  -- can reach, it stops there.
  pub record Slid (new_base fuel : ℕ) (m m' : UdpReliableArq) (b : ℕ) : Type 0 where
    pub b' : ℕ
    pub sending : Sending m' b' sent
    pub forward : b ≤ b'
    pub same_window : m'.window ≡ m.window
    pub exact :
        (c : ℕ)
        → new_base ≡ c % 65536
        → b ≤ c
        → c ≤ length sent
        → c < b + 32768
        → c ≤ b + fuel
        → b' ≡ c
    pub stays : slides new_base m ≡ false → b' ≡ b
    pub behind :
        (j : ℕ) → b' ≤ j → j < b + m.window → slot_at m' (j % 65536) ≡ slot_at m (j % 65536)

  slides-order :
      (m : UdpReliableArq) (b new_base : ℕ)
      → Sending m b sent
      → slides new_base m ≡ true
      → b < length sent
  unfolding slides
  slides-order m b new_base h e = ground (arith, e, h.base_is, h.next_is, h.order)

  slides-stop :
      (m : UdpReliableArq) (b new_base c : ℕ)
      → Sending m b sent
      → slides new_base m ≡ false
      → new_base ≡ c % 65536
      → b ≤ c
      → c ≤ length sent
      → c < b + 32768
      → b ≡ c
  unfolding slides
  slides-stop m b new_base c h e f p q r =
      ground (arith, e, f, p, q, r, h.base_is, h.next_is, h.order, h.room, h.small)

  slides-go :
      (m : UdpReliableArq) (b new_base c : ℕ)
      → Sending m b sent
      → slides new_base m ≡ true
      → new_base ≡ c % 65536
      → b ≢ c
  unfolding slides
  slides-go m b new_base c h e f same = ground (arith, e, f, same, h.base_is)

  slide_loop-Slid :
      (fuel new_base : ℕ) (m : UdpReliableArq) (b : ℕ)
      → Sending m b sent
      → Slid new_base fuel m (slide_loop fuel now new_base m) b
  unfolding slide_loop
  slide_loop-Slid zero new_base m b h = record {
    b' = b;
    sending = h;
    forward = omega arith;
    same_window = refl;
    exact = λ c e p q r s. omega arith;
    stays = λ e. refl;
    behind = λ j r t. refl;
  }
  slide_loop-Slid (suc fuel) new_base m b h = elim (Bool-cases (slides new_base m)) [
    | inr stop ↦ rw stop (record {
      b' = b;
      sending = h;
      forward = omega arith;
      same_window = refl;
      exact = λ c e p q r s. slides-stop m b new_base c h stop e p q r;
      stays = λ e. refl;
      behind = λ j r t. refl;
    })
    | inl go ↦
        let l = slides-order m b new_base h go in
        let freed = free_segment now m.base m in
        let f : Freed m freed b b sent =
          subst (λ t. Freed m (free_segment now t m) b b sent) (sym h.base_is)
            (free_segment-Freed m b b h (omega arith) (omega (arith, h.positive))) in
        let slid =
          subst (λ t. Sends freed.window freed.slots ((t + 1) % 65536) freed.next (b + 1) sent)
            f.same_base (slide-Sending freed b sent f.sending f.is_free l) in
        let ih =
          slide_loop-Slid fuel new_base (record freed { base = (m.base + 1) % 65536 }) (b + 1)
            slid in
        rw go (record {
          b' = ih.b';
          sending = ih.sending;
          forward = omega (arith, ih.forward);
          same_window = ih.same_window ∙ f.same_window;
          exact = λ c e p q r s. elim (ℕ_discrete b c) [
            | yes same ↦ absurd (slides-go m b new_base c h go e same)
            | no ne ↦ ih.exact c e (omega arith) q (omega arith) (omega arith)
          ];
          stays = λ e. absurd (ground (arith, go, e));
          behind = λ j r t.
              ih.behind j r (omega (arith, t, f.same_window))
              ∙ f.others j (omega (arith, r, ih.forward)) t
                  (λ q. absurd (omega (arith, q, r, ih.forward)));
        })
  ]

  pub slide_to-Slid :
      (new_base : ℕ) (m : UdpReliableArq) (b : ℕ)
      → Sending m b sent
      → Slid new_base (length sent - b) m (slide_to now new_base m).0 b
  unfolding slide_to
  slide_to-Slid new_base m b h =
      rw (in_flight-Sending m b sent h) (slide_loop-Slid (length sent - b) new_base m b h)
