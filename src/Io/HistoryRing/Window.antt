-- ===== src/Io/HistoryRing/Window.antt =====
-- A ring of a fixed capacity against all the frames that were pushed.
use plexus.Common.{
  ℕ, ◌+◌, ◌-◌, ◌%◌, min, ◌≤◌, ◌<◌, ◌≡◌, refl, sym, ap, ◌∙◌, arith, true, false, ltb, if◌then◌else◌,
  ◌==◌,
}
use plexus.Common.{
  Option, none, some, ◌>>=◌, List, [], ◌∷◌, ◌++◌, length, get_or, set, length-append, length-set,
  length-replicate, get_or-set_self, get_or-set_ne, get_or-append, get_or-append_last, append-nil,
  append_assoc, take_all,
}
use plexus.Io.HistoryRing.{HistoryRing, history_ring, resize_to, push, newest, oldest_to_newest}
use plexus.Datagram.UdpReliableArq.Window.{place_distinct}
use native.Mathlib.Nat.{mod-lt, mod-add-mod, add-mod_right}
use native.Mathlib.Decide.{ℕ_discrete}

abbrev pub pushes : List (List ℕ) → HistoryRing → Option HistoryRing
pushes [] m = some m
pushes (f ∷ fs) m = do m' ← push f m; pushes fs m'

-- The ring has the last frames of those that were pushed, each at the place of its number.
record Holds (n : ℕ) (m : HistoryRing) (fs : List (List ℕ)) : Type 0 where
  size : length m.slots ≡ n
  at : m.head ≡ length fs % n
  kept : m.count ≡ min (length fs) n
  frames : (j : ℕ) → length fs ≤ j + n → j < length fs → get_or m.slots (j % n) [] ≡ get_or fs j []

module _ (n : ℕ) (positive : 0 < n) where
  push-Holds :
      (f : List ℕ) (m : HistoryRing) (fs : List (List ℕ))
      → Holds n m fs
      → (m' : HistoryRing) × (push f m ≡ some m') × Holds n m' (fs ++ (f ∷ []))
  unfolding push
  push-Holds f m fs h =
      let t = length fs in
      let l : t % n < n = mod-lt t positive in
      let inside : ltb m.head (length m.slots) ≡ true = ground (arith, h.at, h.size, l) in
      let more : length (fs ++ (f ∷ [])) ≡ t + 1 = omega (arith, length-append fs (f ∷ [])) in
      let m' : HistoryRing = record {
        slots = set m.slots m.head f;
        head = (m.head + 1) % length m.slots;
        count = min (m.count + 1) (length m.slots);
      } in
      (
        m',
        ap (λ b. if b then some m' else none) inside,
        record {
          size = length-set m.slots m.head f ∙ h.size;
          at = rw (h.at, h.size, more) (mod-add-mod t n 1);
          kept = omega (arith, h.kept, h.size, more);
          frames = λ j p q. rw h.at (elim (ℕ_discrete t j) [
            | yes e ↦
                ap (λ x. get_or (set m.slots (t % n) f) (x % n) []) (sym e)
                ∙ get_or-set_self m.slots (t % n) f [] (omega (arith, l, h.size))
                ∙ sym (get_or-append_last fs f [])
                ∙ ap (λ x. get_or (fs ++ (f ∷ [])) x []) e
            | no ne ↦
                let old : j < t = omega (arith, q, more, ne) in
                let near : t < j + n = omega (arith, p, more) in
                get_or-set_ne m.slots (t % n) (j % n) f [] (
                  place_distinct n j t j positive (omega (arith, old)) near (omega arith)
                    (omega (arith, positive)) ne)
                ∙ h.frames j (omega (arith, near)) old
                ∙ sym (get_or-append fs (f ∷ []) j [] old)
          ]);
        },
      )

  pushes-Holds :
      (new : List (List ℕ)) (m : HistoryRing) (fs : List (List ℕ))
      → Holds n m fs
      → (m' : HistoryRing) × (pushes new m ≡ some m') × Holds n m' (fs ++ new)
  pushes-Holds [] m fs h = (m, refl, rw (append-nil fs) h)
  pushes-Holds (f ∷ new) m fs h =
      let (m1, is, h1) = push-Holds f m fs h in
      let (m2, runs, h2) = pushes-Holds new m1 (fs ++ (f ∷ [])) h1 in
      (m2, rw (is, runs) refl, rw⁻¹ (append_assoc fs (f ∷ []) new) h2)

  -- The place that the source computes is that of the number.
  place_of : (t c i : ℕ) → c ≤ n → c ≤ t → (t % n + n - c + i) % n ≡ (t - c + i) % n
  place_of t c i p q =
      let e1 : t % n + n - c + i ≡ t % n + (n - c + i) = omega arith in
      let e2 : t + (n - c + i) ≡ (t - c + i) + n = omega arith in
      ap (λ x. x % n) e1
      ∙ mod-add-mod t n (n - c + i)
      ∙ ap (λ x. x % n) e2
      ∙ add-mod_right (t - c + i) n

  new-Holds : Holds n (resize_to n history_ring) []
  unfolding resize_to history_ring
  new-Holds =
      let some_room : (n == 0) ≡ false = ground (arith, positive) in
      let all : n - 0 ≡ n = omega arith in
      rw (some_room, take_all {A = List ℕ} n [] (omega arith), all)
        (record {
          size = length-replicate n [];
          at = omega arith;
          kept = omega arith;
          frames = λ j p q. absurd (omega arith);
        })

-- A new ring of a capacity of at least one, into which frames are pushed, never writes past its slots,
-- holds as many of the last ones as it has slots, in their order, and the newest is the last pushed.
pub pushes-last :
    (n : ℕ) (fs : List (List ℕ))
    → 0 < n
    → (m : HistoryRing) × (pushes fs (resize_to n history_ring) ≡ some m)
      × (m.count ≡ min (length fs) n)
      × ((i : ℕ) → i < m.count → oldest_to_newest i m ≡ get_or fs (length fs - m.count + i) [])
      × (0 < length fs → newest m ≡ get_or fs (length fs - 1) [])
unfolding newest oldest_to_newest
pushes-last n fs positive =
    let (m, runs, h) =
      pushes-Holds n positive fs (resize_to n history_ring) [] (new-Holds n positive) in
    (
      m,
      runs,
      h.kept,
      (λ i l.
          rw (h.size, h.at)
            (ap (λ x. get_or m.slots x [])
                (place_of n positive (length fs) m.count i (omega (arith, h.kept))
                  (omega (arith, h.kept)))
              ∙ h.frames (length fs - m.count + i) (omega (arith, h.kept, l))
                  (omega (arith, h.kept, l)))),
      λ some_frame.
          let t = length fs in
          let e0 : t % n + n - 1 ≡ t % n + n - 1 + 0 = omega arith in
          let e1 : t - 1 + 0 ≡ t - 1 = omega arith in
          rw (h.size, h.at)
            (ap (λ x. get_or m.slots x [])
                (ap (λ x. x % n) e0
                  ∙ place_of n positive t 1 0 (omega (arith, positive)) (omega (arith, some_frame))
                  ∙ ap (λ x. x % n) e1)
              ∙ h.frames (t - 1) (omega (arith, some_frame, positive)) (omega (arith, some_frame))),
    )
