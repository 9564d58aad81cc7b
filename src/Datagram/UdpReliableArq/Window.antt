-- ===== src/Datagram/UdpReliableArq/Window.antt =====
-- The slots of the sender against the segments that were submitted, numbered without bounds.
use plexus.Common.{
  ℕ, ◌+◌, ◌-◌, ◌%◌, ◌≤◌, ◌<◌, ◌≡◌, sym, ap, ◌∙◌, ◌≢◌, arith, Bool, true, false, some,
}
use plexus.Common.{
  List, [], ◌∷◌, ◌++◌, length, length-append, get_or, length-set, get_or-set_self, get_or-set_ne,
  get_or-append,
}
use plexus.Datagram.UdpReliableArq.{Slot, UdpReliableArq, empty_slot, slot_at, put_slot}
use plexus.Datagram.UdpReorderBuffer.Ring.{place_apart}
use native.Mathlib.Nat.{mod-lt, mod-add-mod, mod-mod_of_dvd, dvd_of_mod-eq-zero, add-mod_right}
use native.Mathlib.Decide.{ℕ_discrete}
use mathlib.Core.Path.{subst}

-- What is submitted: whether it is a fragment, and its bytes.
abbrev pub Segment : Type 0
Segment = Bool × List ℕ

abbrev pub no_segment : Segment
no_segment = (false, [])

-- A slot that serves number `k`: what is outstanding in it is the segment of that number, and a wait
-- that is pending is for it.
pub record Serves (sent : List Segment) (k : ℕ) (s : Slot) : Type 0 where
  pub known : s.outstanding ≡ true → k < length sent
  pub content : s.outstanding ≡ true → get_or sent k no_segment ≡ (s.fragmented, s.bytes)
  pub waits : (t : ℕ) → s.timer ≡ some t → (s.outstanding ≡ true) × (t ≡ k % 65536)

-- The window from number `b` on, of a sender to which `sent` was submitted.
pub record Sends (window : ℕ) (slots : List Slot) (base next b : ℕ) (sent : List Segment)
    : Type 0 where
  pub positive : 0 < window
  pub small : window ≤ 32768
  pub divides : 65536 % window ≡ 0
  pub size : length slots ≡ window
  pub base_is : base ≡ b % 65536
  pub next_is : next ≡ length sent % 65536
  pub order : b ≤ length sent
  pub room : length sent ≤ b + window
  pub serves :
      (k : ℕ) → b ≤ k → k < b + window → Serves sent k (get_or slots (k % window) empty_slot)

abbrev pub Sending : UdpReliableArq → ℕ → List Segment → Type 0
Sending m b sent = Sends m.window m.slots m.base m.next b sent

-- A free slot serves any number.
pub free-Serves :
    (sent sent' : List Segment) (k k' : ℕ) (s : Slot)
    → Serves sent k s
    → s.outstanding ≡ false
    → Serves sent' k' s
free-Serves sent sent' k k' s v e = record {
  known = λ q. absurd (ground (arith, e, q));
  content = λ q. absurd (ground (arith, e, q));
  waits = λ t q. let (o, _) = v.waits t q in absurd (ground (arith, e, o));
}

-- The place of a number on the wire is that of the number.
pub place_number : (window k : ℕ) → 65536 % window ≡ 0 → k % 65536 % window ≡ k % window
place_number window k d = mod-mod_of_dvd window k (dvd_of_mod-eq-zero window {n = 65536} d)

pub place_distinct :
    (window b k k' : ℕ)
    → 0 < window
    → b ≤ k
    → k < b + window
    → b ≤ k'
    → k' < b + window
    → k ≢ k'
    → k % window ≢ k' % window
place_distinct window b k k' pos p q p' q' ne e =
    place_apart window (b % window) (k - b) (k' - b) (mod-lt b pos) (omega arith) (omega arith)
      (λ f. ne (omega arith)) (from_base k p ∙ e ∙ sym (from_base k' p'))
  where
    from_base : (k : ℕ) → b ≤ k → (b % window + (k - b)) % window ≡ k % window
    from_base k p =
        let s : b + (k - b) ≡ k = omega arith in
        mod-add-mod b window (k - b) ∙ ap (λ t. t % window) s

module _ (m : UdpReliableArq) (b : ℕ) (sent : List Segment) (h : Sending m b sent) where
  -- What is read at a number of the window that was written there.
  pub slot_at-put_slot : (k : ℕ) (s : Slot) → slot_at (put_slot (k % 65536) s m) (k % 65536) ≡ s
  slot_at-put_slot k s =
      let p = mod-lt (k % 65536) h.positive in
      get_or-set_self m.slots (k % 65536 % m.window) s empty_slot (omega (arith, h.size))

  -- What is read at another number of the window.
  pub slot_at-put_slot_ne :
      (k k' : ℕ) (s : Slot)
      → b ≤ k
      → k < b + m.window
      → b ≤ k'
      → k' < b + m.window
      → k ≢ k'
      → slot_at (put_slot (k % 65536) s m) (k' % 65536) ≡ slot_at m (k' % 65536)
  slot_at-put_slot_ne k k' s p q p' q' ne =
      rw (place_number m.window k h.divides, place_number m.window k' h.divides)
        (get_or-set_ne m.slots (k % m.window) (k' % m.window) s empty_slot
          (place_distinct m.window b k k' h.positive p q p' q' ne))

  pub slot_at-Serves : (k : ℕ) → b ≤ k → k < b + m.window → Serves sent k (slot_at m (k % 65536))
  slot_at-Serves k p q = rw (place_number m.window k h.divides) (h.serves k p q)

  -- A slot of the window is written.
  pub put_slot-Sending :
      (k : ℕ) (s : Slot)
      → b ≤ k
      → k < b + m.window
      → Serves sent k s
      → Sending (put_slot (k % 65536) s m) b sent
  put_slot-Sending k s p q v = record {
    positive = h.positive;
    small = h.small;
    divides = h.divides;
    size = length-set m.slots (k % 65536 % m.window) s ∙ h.size;
    base_is = h.base_is;
    next_is = h.next_is;
    order = h.order;
    room = h.room;
    serves = λ k' p' q'. elim (ℕ_discrete k k') [
      | yes e ↦
          let l = mod-lt (k' % 65536) h.positive in
          rw
            (
              e,
              ← place_number m.window k' h.divides,
              get_or-set_self m.slots (k' % 65536 % m.window) s empty_slot (omega (arith, h.size)),
            )
            (subst (λ t. Serves sent t s) e v)
      | no ne ↦
          rw
            (
              place_number m.window k h.divides,
              get_or-set_ne m.slots (k % m.window) (k' % m.window) s empty_slot
                  (place_distinct m.window b k k' h.positive p q p' q' ne),
            )
            (h.serves k' p' q')
    ];
  }

  -- The first number of the window is passed, where its slot is free.
  pub slide-Sending :
      (slot_at m (b % 65536)).outstanding ≡ false
      → b < length sent
      → Sends m.window m.slots ((m.base + 1) % 65536) m.next (b + 1) sent
  slide-Sending free l = record {
    positive = h.positive;
    small = h.small;
    divides = h.divides;
    size = h.size;
    base_is = omega (arith, h.base_is);
    next_is = h.next_is;
    order = omega arith;
    room = omega (arith, h.room);
    serves = λ k p q. elim (ℕ_discrete k (b + m.window)) [
      | no ne ↦ h.serves k (omega arith) (omega arith)
      | yes e ↦
          rw (e, add-mod_right b m.window)
            (let at : get_or m.slots (b % 65536 % m.window) empty_slot
                  ≡ get_or m.slots (b % m.window) empty_slot =
                ap (λ t. get_or m.slots t empty_slot) (place_number m.window b h.divides) in
              free-Serves sent sent b (b + m.window) (get_or m.slots (b % m.window) empty_slot)
                (h.serves b (omega arith) (omega (arith, h.positive)))
                (ap (λ s. s.outstanding) (sym at) ∙ free))
    ];
  }

  -- One more segment is known.
  pub more-Sending :
      (x : Segment)
      → length sent < b + m.window
      → Sends m.window m.slots m.base ((m.next + 1) % 65536) b (sent ++ (x ∷ []))
  more-Sending x l =
      let n : length (sent ++ (x ∷ [])) ≡ length sent + 1 =
        omega (arith, length-append sent (x ∷ [])) in
      record {
        positive = h.positive;
        small = h.small;
        divides = h.divides;
        size = h.size;
        base_is = h.base_is;
        next_is = omega (arith, h.next_is, n);
        order = omega (arith, h.order, n);
        room = omega (arith, n);
        serves = λ k p q.
            let v = h.serves k p q in
            record {
              known = λ o. let l = v.known o in omega (arith, n);
              content = λ o. get_or-append sent (x ∷ []) k no_segment (v.known o) ∙ v.content o;
              waits = v.waits;
            };
      }
