-- ===== src/Datagram/UdpReliableArq/Events/Timeouts.antt =====
-- What a wait that ends leaves of the window.
use plexus.Common.{
  ℕ, ◌+◌, ◌-◌, ◌%◌, ◌≤◌, ◌<◌, ◌≡◌, refl, sym, ap, ◌∙◌, arith, true, not, Option, none, some,
}
use plexus.Common.{if_elim, leb}
use plexus.Common.{List, [], get_or}
use plexus.Datagram.UdpReliableArq.{Slot, UdpReliableArq, empty_slot, slot_at, put_slot}
use plexus.Datagram.UdpReliableArq.{arm, on_rto, expired, ended, fire}
use plexus.Datagram.UdpReliableArq.Window.{
  Segment, Serves, Sending, place_number, slot_at-put_slot, slot_at-Serves, put_slot-Sending,
}
use mathlib.Core.Path.{subst}
use native.Mathlib.Nat.{mod-lt, mod-add-mod, add-mod-mod, mod-mod, add-mod_right}
use plexus.Datagram.UdpReliableArq.Events.Kept.{
  Stayed, arm-Sending, transmit-IsFrom, stays, give_up-Stayed,
}

module _ (m : UdpReliableArq) (b : ℕ) (sent : List Segment) (h : Sending m b sent) where
  on_rto-Stayed : (k : ℕ) → b ≤ k → k < b + m.window → Stayed m b sent (on_rto (k % 65536) m)
  unfolding on_rto
  on_rto-Stayed k p q =
      let s = slot_at m (k % 65536) in
      let s' : Slot = record s { retransmits = s.retransmits + 1; retransmitted = true } in
      let v = slot_at-Serves m b sent h k p q in
      let v' : Serves sent k s' = record {
        known = v.known;
        content = v.content;
        waits = v.waits;
      } in
      let put = put_slot-Sending m b sent h k s' p q v' in
      let at : slot_at (put_slot (k % 65536) s' m) (k % 65536) ≡ s' =
        slot_at-put_slot m b sent h k s' in
      if_elim (Stayed m b sent) (not s.outstanding) _ _ (λ e. stays m b sent h)
        (λ e.
          let o : s.outstanding ≡ true = ground (arith, e) in
          if_elim (Stayed m b sent) (leb m.max_retransmit s.retransmits) _ _
            (λ e. give_up-Stayed m b sent h)
            (λ e. record {
              sending =
                  arm-Sending (put_slot (k % 65536) s' m) b sent put k p q
                    (ap (λ t. t.outstanding) at ∙ o);
              same_window = unfold arm in refl;
              faithful = (transmit-IsFrom m b sent h k s' p v' o, (unfold arm in tt, tt));
            }))

module _ (m : UdpReliableArq) (b : ℕ) (sent : List Segment) (h : Sending m b sent) where
  ended-Stayed :
      (k : ℕ) (timer : Option ℕ)
      → b ≤ k
      → k < b + m.window
      → ((t : ℕ) → timer ≡ some t → t ≡ k % 65536)
      → Stayed m b sent (ended timer (k % 65536 % m.window) m)
  unfolding ended expired
  ended-Stayed k none p q at = stays m b sent h
  ended-Stayed k (some t) p q at =
      let s = slot_at m (k % 65536) in
      let idle : Slot = record s { timer = none } in
      let v = slot_at-Serves m b sent h k p q in
      let v' : Serves sent k idle = record {
        known = v.known;
        content = v.content;
        waits = λ t e. absurd (ground (arith, e));
      } in
      let put = put_slot-Sending m b sent h k idle p q v' in
      let m' = put_slot (k % 65536) idle m in
      if_elim (Stayed m b sent) m.dead (m', []) (on_rto t m')
        (λ e. record { sending = put; same_window = refl; faithful = tt })
        (λ e.
          let r =
            subst (λ t. Stayed m' b sent (on_rto t m')) (sym (at t refl))
              (on_rto-Stayed m' b sent put k p q) in
          record { sending = r.sending; same_window = r.same_window; faithful = r.faithful })

  pub fire-Stayed : (n : ℕ) → Stayed m b sent (fire (n % m.window) m)
  unfolding fire
  fire-Stayed n =
      let w = m.window in
      let d = (n % w + w - b % w) % w in
      let l : d < w = mod-lt (n % w + w - b % w) h.positive in
      let k = b + d in
      let place : k % 65536 % w ≡ n % w = place_number w k h.divides ∙ around w b n h.positive in
      let v = slot_at-Serves m b sent h k (omega arith) (omega arith) in
      subst (λ i. Stayed m b sent (ended (get_or m.slots i empty_slot).timer i m)) place
        (ended-Stayed k (slot_at m (k % 65536)).timer (omega arith) (omega arith)
          (λ t e. (v.waits t e).1))
    where
      around : (w b n : ℕ) → 0 < w → (b + (n % w + w - b % w) % w) % w ≡ n % w
      around w b n pos =
          let l = mod-lt b pos in
          let c = n % w + w - b % w in
          let e : b % w + c ≡ n % w + w = omega arith in
          add-mod-mod b c w
          ∙ sym (mod-add-mod b w c)
          ∙ ap (λ t. t % w) e
          ∙ add-mod_right (n % w) w
          ∙ mod-mod n w
