-- ===== src/Datagram/UdpReorderBuffer/Arrivals.antt =====
-- What arrives is delivered in the order of its numbers, each once, up to the first gap.
use plexus.Common.{ℕ, ◌+◌, ◌%◌, ◌<◌, ◌≡◌, refl, sym, ap, ◌∙◌, ◌≢◌, arith, true}
use plexus.Common.{◌==◌, ==_iff, Bool-cases, ◌⊎◌, inl, inr}
use plexus.Common.{List, ◌∷◌, get_or, set, length-set, get_or-set_self, get_or-set_ne}
use plexus.Common.{elem, elem-cons_ne, elem-cons_self}
use plexus.Datagram.UdpReorderBuffer.{UdpReorderBuffer, Slot, empty_slot}
use plexus.Datagram.UdpReorderBuffer.Ring.{place_inside, place_apart}
use plexus.Datagram.UdpReorderBuffer.InOrder.{Datagram, ahead, Holds}

-- The slot that a datagram is stored in.
abbrev pub stored : Datagram → Slot
stored d = record { bytes = d.1; present = true; fragmented = d.0 }

-- The state after an arrival at `j` steps from the base.
abbrev pub store : (ℕ → Datagram) → UdpReorderBuffer → ℕ → ℕ → UdpReorderBuffer
store sent m e j = record m {
  slots = set m.slots ((m.base + j) % m.window) (stored (sent (e + j)));
}

module _ (sent : ℕ → Datagram) (m : UdpReorderBuffer) (e : ℕ) (seen : List ℕ)
    (h : Holds sent m e seen) where
  -- A number that changes nothing: it is behind, or it is there.
  pub again-Holds :
      (n : ℕ) → n < e + m.window → (n < e) ⊎ (elem n seen ≡ true) → Holds sent m e (n ∷ seen)
  again-Holds n p old = record {
    size = h.size;
    inside = h.inside;
    next = h.next;
    below = (omega arith, h.below);
    kept = λ j q. h.kept j q ∙ sym (same j);
    content = h.content;
  }
    where
      same : (j : ℕ) → elem (e + j) (n ∷ seen) ≡ elem (e + j) seen
      same j = elim (Bool-cases (e + j == n)) [
        | inl b ↦
            let b = (==_iff (e + j) n).0 b in
            elim old [
              | inl l ↦ absurd (omega arith)
              | inr k ↦ rw (b, elem-cons_self n seen) (sym k)
            ]
        | inr b ↦ elem-cons_ne (e + j) n seen (ground arith)
      ]

  module _ (j : ℕ) (fits : j < m.window) where
    here :
        get_or
          (set m.slots ((m.base + j) % m.window) (stored (sent (e + j))))
          ((m.base + j) % m.window)
          empty_slot
        ≡ stored (sent (e + j))
    here =
        get_or-set_self m.slots ((m.base + j) % m.window) (stored (sent (e + j))) empty_slot
          (omega (arith, h.size, place_inside m.window m.base j h.inside (omega arith)))

    elsewhere : (i : ℕ) → i < m.window → j ≢ i → ahead (store sent m e j) i ≡ ahead m i
    elsewhere i p ne =
        get_or-set_ne m.slots ((m.base + j) % m.window) ((m.base + i) % m.window)
          (stored (sent (e + j))) empty_slot (place_apart m.window m.base j i h.inside fits p ne)

    store-kept :
        (i : ℕ)
        → i < m.window
        → (ahead (store sent m e j) i).present ≡ elem (e + i) ((e + j) ∷ seen)
    store-kept i p = elim (Bool-cases (j == i)) [
      | inl b ↦ let b = (==_iff j i).0 b in rw (← b, here, elem-cons_self (e + j) seen) refl
      | inr b ↦
          let ne : j ≢ i = ground arith in
          ap (λ (s : Slot). s.present) (elsewhere i p ne)
          ∙ h.kept i p
          ∙ sym (elem-cons_ne (e + i) (e + j) seen (ground arith))
    ]

    store-content :
        (i : ℕ)
        → i < m.window
        → (ahead (store sent m e j) i).present ≡ true
        → ((ahead (store sent m e j) i).fragmented ≡ (sent (e + i)).0)
          × ((ahead (store sent m e j) i).bytes ≡ (sent (e + i)).1)
    store-content i p there = elim (Bool-cases (j == i)) [
      | inl b ↦ let b = (==_iff j i).0 b in rw (← b, here) (refl, refl)
      | inr b ↦
          let same = elsewhere i p (ground arith) in
          let (f, c) = h.content i p (ap (λ (s : Slot). s.present) (sym same) ∙ there) in
          (ap (λ (s : Slot). s.fragmented) same ∙ f, ap (λ (s : Slot). s.bytes) same ∙ c)
    ]

    pub store-Holds : Holds sent (store sent m e j) e ((e + j) ∷ seen)
    store-Holds = record {
      size = length-set m.slots ((m.base + j) % m.window) (stored (sent (e + j))) ∙ h.size;
      inside = h.inside;
      next = h.next;
      below = (omega arith, h.below);
      kept = store-kept;
      content = store-content;
    }
