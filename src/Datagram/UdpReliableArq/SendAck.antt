-- ===== src/Datagram/UdpReliableArq/SendAck.antt =====
-- The acknowledgement of what the receiver holds.
use plexus.Common.{
  ℕ, zero, suc, ◌+◌, ◌/◌, ◌%◌, ◌≡◌, refl, sym, ap, ◌∙◌, arith, Bool, true, false, ltb, leb, ◌==◌,
  ◌&&◌, ◌||◌, Bool-cases, inl, inr,
}
use plexus.Common.{get_or-replicate}
use plexus.Common.Bits.{bit, zero-bit}
use plexus.Datagram.UdpReorderBuffer.{UdpReorderBuffer, cumulative, buffered_at}
use plexus.Datagram.UdpReliableArq.{UdpReliableArq, Effect, mark_buffered, send_ack}
use plexus.Wire.UdpAck.{UdpAck, no_ack, hole_received, mark_hole}
use plexus.Wire.UdpAck.Holes.{IsBitmap, hole_bit, hole_received-hole_bit, hole_received-mark_hole}
use native.Mathlib.Decide.{ℕ_discrete}

-- The places from `i` on, `count` of them.
abbrev among : ℕ → ℕ → ℕ → Bool
among count i j = leb i j && ltb j (i + count)

record Marks (count i : ℕ) (recv : UdpReorderBuffer) (a a' : UdpAck) : Type 0 where
  same_edge : a'.cumulative ≡ a.cumulative
  whole : IsBitmap a'
  named :
      (j : ℕ)
      → hole_received a' j
        ≡ (hole_received a j || (among count i j && (buffered_at recv (j + 1) && ltb j 256)))

mark_hole-cumulative : (a : UdpAck) (i : ℕ) → (mark_hole a i).cumulative ≡ a.cumulative
unfolding mark_hole
mark_hole-cumulative a i = ground arith

-- One place more, where nothing is held and where something is.
among_skipped :
    (count i j : ℕ) (h b : Bool)
    → (i ≡ j → b ≡ false)
    → (h || (among count (i + 1) j && (b && ltb j 256)))
      ≡ (h || (among (suc count) i j && (b && ltb j 256)))
among_skipped count i j h b none_held = elim (ℕ_discrete i j) [
  | yes e ↦ rw (none_held e) (ground arith)
  | no ne ↦ ground (arith, ne)
]

among_marked :
    (count i j : ℕ) (h b : Bool)
    → (i ≡ j → b ≡ true)
    → ((h || ((i == j) && ltb i 256)) || (among count (i + 1) j && (b && ltb j 256)))
      ≡ (h || (among (suc count) i j && (b && ltb j 256)))
among_marked count i j h b held = elim (ℕ_discrete i j) [
  | yes e ↦ rw (held e) (ground (arith, e))
  | no ne ↦ ground (arith, ne)
]

mark_buffered-Marks :
    (count i : ℕ) (recv : UdpReorderBuffer) (a : UdpAck)
    → IsBitmap a
    → Marks count i recv a (mark_buffered count i recv a)
unfolding mark_buffered
mark_buffered-Marks zero i recv a w = record {
  same_edge = refl;
  whole = w;
  named = λ j. ground arith;
}
mark_buffered-Marks (suc count) i recv a w = elim (Bool-cases (buffered_at recv (i + 1))) [
  | inr e ↦
      let ih = mark_buffered-Marks count (i + 1) recv a w in
      rw (mark_buffered, e)
        (record {
          same_edge = ih.same_edge;
          whole = ih.whole;
          named = λ j.
              ih.named j
              ∙ among_skipped count i j (hole_received a j) (buffered_at recv (j + 1))
                  (λ q. ap (λ t. buffered_at recv (t + 1)) (sym q) ∙ e);
        })
  | inl e ↦
      let ih =
        mark_buffered-Marks count (i + 1) recv (mark_hole a i)
          (hole_received-mark_hole a i i w).0 in
      rw (mark_buffered, e)
        (record {
          same_edge = ih.same_edge ∙ mark_hole-cumulative a i;
          whole = ih.whole;
          named = λ j.
              ih.named j
              ∙ ap (λ t. t || (among count (i + 1) j && (buffered_at recv (j + 1) && ltb j 256)))
                  (hole_received-mark_hole a i j w).1
              ∙ among_marked count i j (hole_received a j) (buffered_at recv (j + 1))
                  (λ q. ap (λ t. buffered_at recv (t + 1)) (sym q) ∙ e);
        })
]

no_hole : (edge j : ℕ) → hole_received (record no_ack { cumulative = edge }) j ≡ false
unfolding no_ack
no_hole edge j =
    let zero_digit : hole_bit (record no_ack { cumulative = edge }) j ≡ 0 =
      unfold hole_bit in
      (ap (λ t. bit t (j % 8)) (get_or-replicate 32 (j / 8) 0) ∙ zero-bit (j % 8)) in
    hole_received-hole_bit (record no_ack { cumulative = edge }) j
    ∙ ap (λ t. ltb j 256 && (t == 1)) zero_digit
    ∙ ground arith

-- The acknowledgement that is sent carries the receiver's edge, and names a hole exactly where the
-- number behind it is held out of order, as far as the bitmap goes.
pub send_ack-buffered_at :
    (m : UdpReliableArq) (j : ℕ)
    → (a : UdpAck) × (send_ack m ≡ Effect.ack_sent a)
      × (a.cumulative ≡ cumulative m.recv)
      × (hole_received a j ≡ (ltb j 256 && buffered_at m.recv (j + 1)))
unfolding send_ack
send_ack-buffered_at m j =
    let start : UdpAck = record no_ack { cumulative = cumulative m.recv } in
    let marks = mark_buffered-Marks 256 0 m.recv start (unfold no_ack in refl) in
    (
      mark_buffered 256 0 m.recv start,
      refl,
      marks.same_edge,
      marks.named j
          ∙ ap (λ h. h || (among 256 0 j && (buffered_at m.recv (j + 1) && ltb j 256)))
              (no_hole (cumulative m.recv) j)
          ∙ ground arith,
    )
