-- ===== src/Datagram/Reassembler/Stored.antt =====
-- The fragments of one message that are fed while it is open, beside anything else that is held.
use plexus.Common.{ℕ, ◌+◌, ◌^◌, ◌≤◌, ◌<◌, ◌≡◌, refl, ap, ◌∙◌, arith, true, false, ◌||◌}
use plexus.Common.{if◌then◌else◌, ltb, leb, ◌==◌, List, [], ◌∷◌, ◌++◌, length, get_or, concat, elem}
use plexus.Datagram.Fragmentation.{max_fragment_count}
use plexus.Datagram.Reassembler.{
  Reassembler, Entry, Outcome, Effect, plus64, minus64, put_entry, fill_slot, filled, store,
  structural_cost, feed, admit_fragment, admit_at, report, admitted, completed, assemble_and_evict,
}
use plexus.Datagram.Reassembler.Entries.{
  place, opening, find-opening, entry_at-opening, put_entry-opening, evict-opening, plus64-exact,
  minus64-exact,
}
use plexus.Datagram.Reassembler.Parts.{
  Part, Part-total, Part-sum, fill_slot-Part, total, count_missing, count_full, get_or_ext,
}

-- Room for a message beside what `m` holds.
pub record HasRoom (vector_size : ℕ) (m : Reassembler) (frags : List (List ℕ)) : Type 0 where
  pub few : length frags ≤ 32768
  pub small : total frags ≤ m.cfg.max_message_size
  pub room :
      m.held + structural_cost vector_size (length frags) + total frags ≤ m.cfg.total_memory_cap
  pub word : m.cfg.total_memory_cap < 2 ^ 64
  pub word_message : m.cfg.max_message_size < 2 ^ 64

-- `m` with the entry open, and what it holds and costs counted.
abbrev pub beside : ℕ → Entry → Reassembler → Reassembler
beside msg_id e m = opening msg_id e (m.held + e.overhead + e.size) m

given_back :
    (held size overhead : ℕ)
    → held + overhead + size < 2 ^ 64
    → minus64 (held + overhead + size) (plus64 size overhead) ≡ held
given_back held size overhead p =
    let s = plus64-exact size overhead (omega (arith, p)) in
    let e : held + overhead + size ≡ held + (size + overhead) = omega arith in
    rw (s, e) (minus64-exact held (size + overhead) (omega (arith, p)))

module _ (vector_size msg_id : ℕ) (m : Reassembler) (frags : List (List ℕ))
    (r : HasRoom vector_size m frags) where
  abbrev cost : ℕ
  cost = structural_cost vector_size (length frags)

  abbrev frag : ℕ → List ℕ
  frag i = get_or frags i []

  abbrev pub feed_frag : ℕ → Reassembler → Reassembler × Outcome × List Effect
  feed_frag i = feed vector_size msg_id i (length frags) (frag i)

  feed-store :
      (i : ℕ) (e : Entry)
      → i < length frags
      → feed_frag i (beside msg_id e m) ≡ (
          let (m', o, effects) = store (place msg_id m) msg_id i (frag i) (beside msg_id e m) in
          (m', o, effects ++ report o))
  unfolding feed admit_fragment admit_at
  feed-store i e l =
      let n = length frags in
      let sound : (n == 0) || (leb n i || ltb max_fragment_count n) ≡ false =
        ground (arith, l, r.few) in
      rw (sound, find-opening msg_id e (m.held + e.overhead + e.size) m) refl

  module _ (seen : List ℕ) (e : Entry) (h : Part cost frags seen e) (i : ℕ)
      (l : i < length frags) where
    -- A fragment that was fed before.
    pub feed_again :
        elem i seen ≡ true → feed_frag i (beside msg_id e m) ≡ (beside msg_id e m, admitted, [])
    unfolding store report
    feed_again old =
        let inside : leb (length e.slots) i ≡ false = ground (arith, h.all_slots, l) in
        let there : get_or e.present i false ≡ true = h.kept i l ∙ old in
        feed-store i e l
        ∙ rw (entry_at-opening msg_id e (m.held + e.overhead + e.size) m, inside, there) refl

    module _ (new : elem i seen ≡ false) where
      abbrev next : Entry
      next = fill_slot i (frag i) e

      pub next-Part : Part cost frags (i ∷ seen) next
      next-Part =
          fill_slot-Part cost frags seen e h i l new (omega (arith, r.small, r.word_message))
            (omega (arith, r.few))

      store-filled :
          store (place msg_id m) msg_id i (frag i) (beside msg_id e m)
          ≡ filled (place msg_id m) msg_id next (length (frag i)) (beside msg_id e m)
      unfolding store
      store-filled =
          let inside : leb (length e.slots) i ≡ false = ground (arith, h.all_slots, l) in
          let gone : get_or e.present i false ≡ false = h.kept i l ∙ new in
          let sum = Part-sum cost frags seen e h i l new in
          let s : plus64 e.size (length (frag i)) ≡ e.size + length (frag i) =
            plus64-exact e.size (length (frag i)) (omega (arith, sum, r.small, r.word_message)) in
          let s' : plus64 (m.held + e.overhead + e.size) (length (frag i))
              ≡ m.held + e.overhead + e.size + length (frag i) =
            plus64-exact (m.held + e.overhead + e.size) (length (frag i))
              (omega (arith, sum, r.room, r.word, h.charged)) in
          let fits : ltb m.cfg.max_message_size (plus64 e.size (length (frag i)))
                || ltb m.cfg.total_memory_cap
                    (plus64 (m.held + e.overhead + e.size) (length (frag i)))
              ≡ false =
            rw (s, s') (ground (arith, sum, r.small, r.room, h.charged)) in
          rw (entry_at-opening msg_id e (m.held + e.overhead + e.size) m, inside, gone, fits) refl

      put_next :
          put_entry (place msg_id m) msg_id next (record (beside msg_id e m) {
            held = plus64 (m.held + e.overhead + e.size) (length (frag i));
          })
          ≡ beside msg_id next m
      unfolding fill_slot
      put_next =
          let sum = Part-sum cost frags seen e h i l new in
          let held = m.held + e.overhead + e.size in
          let s : plus64 e.size (length (frag i)) ≡ e.size + length (frag i) =
            plus64-exact e.size (length (frag i)) (omega (arith, sum, r.small, r.word_message)) in
          let same : plus64 held (length (frag i))
              ≡ m.held + e.overhead + plus64 e.size (length (frag i)) =
            plus64-exact held (length (frag i)) (omega (arith, sum, r.room, r.word, h.charged))
            ∙ omega (arith, s) in
          put_entry-opening msg_id e (plus64 held (length (frag i))) m next
          ∙ ap (λ t. opening msg_id next t m) same

      -- A fragment that leaves another one missing.
      pub feed_more :
          (j : ℕ)
          → j < length frags
          → elem j (i ∷ seen) ≡ false
          → feed_frag i (beside msg_id e m) ≡ (beside msg_id next m, admitted, [])
      unfolding filled report
      feed_more j p missing =
          let part = next-Part in
          let some_left : ltb next.received (length next.slots) ≡ true = ground (
            arith,
            part.counted,
            part.all_slots,
            part.all_marks,
            count_missing next.present j (omega (arith, part.all_marks, p))
                (part.kept j p ∙ missing),
          ) in
          feed-store i e l ∙ rw (store-filled, filled, put_next, some_left) refl

      -- The last one.
      pub feed_last :
          ((j : ℕ) → j < length frags → elem j (i ∷ seen) ≡ true)
          → feed_frag i (beside msg_id e m) ≡ (m, completed, Effect.delivered (concat frags) ∷ [])
      unfolding filled report assemble_and_evict
      feed_last all =
          let part = next-Part in
          let none_left : ltb next.received (length next.slots) ≡ false = ground (
            arith,
            part.counted,
            part.all_slots,
            part.all_marks,
            count_full next.present (λ j p.
                part.kept j (omega (arith, part.all_marks, p))
                ∙ all j (omega (arith, part.all_marks, p))),
          ) in
          let whole : next.slots ≡ frags =
            get_or_ext next.slots frags part.all_slots
              (λ j p. part.content j p ∙ ap (λ b. if b then frag j else []) (all j p)) in
          let bound = Part-total cost frags (i ∷ seen) next part in
          let back : minus64 (m.held + next.overhead + next.size) (plus64 next.size next.overhead)
              ≡ m.held =
            given_back m.held next.size next.overhead
              (omega (arith, bound, part.charged, r.room, r.word)) in
          feed-store i e l
          ∙ rw (store-filled, filled, put_next, none_left, evict-opening, back, whole) refl
