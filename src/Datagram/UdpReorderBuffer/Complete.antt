-- ===== src/Datagram/UdpReorderBuffer/Complete.antt =====
-- Runs of arrivals, each numbered within the window of the receiver when it arrives.
use plexus.Common.{
  ℕ, ◌+◌, ◌-◌, ◌%◌, ◌≤◌, ◌<◌, ◌≡◌, refl, sym, ap, ◌∙◌, ◌≢◌, arith, Bool, true, false, not,
}
use mathlib.Core.Path.{subst}
use plexus.Common.{
  ltb, ltb→lt, leb, ◌==◌, ==_iff, if◌then◌else◌, Bool-cases, inl, inr, Option, some, ◌>>=◌,
}
use plexus.Common.{List, [], ◌∷◌, elem, elem-cons_ne}
use plexus.Datagram.UdpReorderBuffer.{
  UdpReorderBuffer, Delivery, Outcome, feed, drain_contiguous, drain_loop,
}
use plexus.Datagram.UdpReorderBuffer.{delivered, buffered, duplicate}
use plexus.Datagram.UdpReorderBuffer.InOrder.{
  Datagram, run, ahead, Holds, IsRun, drain_loop-Drained,
}
use plexus.Datagram.UdpReorderBuffer.Arrivals.{store, store-Holds, again-Holds}

-- The datagram `n` of the stream, as it is fed.
abbrev pub feed_number :
    (ℕ → Datagram) → ℕ → UdpReorderBuffer → Option (UdpReorderBuffer × Outcome × List Delivery)
feed_number sent n m = feed (n % 65536) (sent n).0 (sent n).1 m

distance : (e n : ℕ) → e ≤ n → n < e + 32768 → (n % 65536 + 65536 - e % 65536) % 65536 ≡ n - e
distance e n p q = omega arith

distance_behind :
    (e n : ℕ) → n < e → e ≤ n + 32768 → 32768 ≤ (n % 65536 + 65536 - e % 65536) % 65536
distance_behind e n p q = ground arith

module _ (sent : ℕ → Datagram) (m : UdpReorderBuffer) (e : ℕ) (seen : List ℕ)
    (h : Holds sent m e seen) (small : m.window ≤ 32768) where
  feed-behind : (n : ℕ) → n < e → e ≤ n + 32768 → feed_number sent n m ≡ some (m, duplicate, [])
  unfolding feed
  feed-behind n p q =
      let far : leb 32768 ((n % 65536 + 65536 - m.expected) % 65536) ≡ true =
        rw h.next (let d = distance_behind e n p q in ground arith) in
      rw (far, feed) refl

  module _ (j : ℕ) (fits : j < m.window) where
    feed-inside : feed_number sent (e + j) m ≡ (
        if (ahead m j).present
        then some (m, (if not (j == 0) then buffered else duplicate), [])
        else if not (j == 0)
        then some (store sent m e j, buffered, [])
        else drain_contiguous (store sent m e j) >>= λ (m', ds). some (m', delivered, ds))
    unfolding feed
    feed-inside =
        let d : ((e + j) % 65536 + 65536 - m.expected) % 65536 ≡ j =
          rw h.next (distance e (e + j) (omega arith) (omega arith) ∙ omega arith) in
        let near : leb 32768 j ≡ false = ground arith in
        let in_window : leb m.window j ≡ false = ground arith in rw (d, near, in_window, feed) refl

-- The last branch of `feed`, where the slot is free and at the base.
first_drained :
    (m m' : UdpReorderBuffer) (deliveries : List Delivery) (b : Bool)
    (other : Option (UdpReorderBuffer × Outcome × List Delivery))
    → b ≡ false
    → drain_loop (m.window + 1) m ≡ some (m', deliveries)
    → (if b then other else drain_contiguous m >>= λ (m', ds). some (m', delivered, ds))
      ≡ some (m', delivered, deliveries)
unfolding drain_contiguous
first_drained m m' deliveries b other gone runs = rw (gone, runs) refl

-- What the arrival of number `n` does to a buffer that waits for `e`.
pub record Fed (sent : ℕ → Datagram) (m : UdpReorderBuffer) (e : ℕ) (seen : List ℕ) (n : ℕ)
    : Type 0 where
  pub k : ℕ
  pub state : UdpReorderBuffer
  pub outcome : Outcome
  pub fed : feed_number sent n m ≡ some (state, outcome, run sent e k)
  pub holds : Holds sent state (e + k) (n ∷ seen)
  pub is_run : IsRun (n ∷ seen) e k
  pub same_window : state.window ≡ m.window

module _ (sent : ℕ → Datagram) (m : UdpReorderBuffer) (e : ℕ) (seen : List ℕ)
    (h : Holds sent m e seen) (small : m.window ≤ 32768) where
  -- An arrival that delivers nothing.
  nothing_new :
      (n : ℕ) (state : UdpReorderBuffer) (outcome : Outcome)
      → feed_number sent n m ≡ some (state, outcome, [])
      → Holds sent state e (n ∷ seen)
      → elem e (n ∷ seen) ≡ false
      → state.window ≡ m.window
      → Fed sent m e seen n
  nothing_new n state outcome fed holds gap same =
      let here : e ≡ e + 0 = omega arith in
      record {
        k = 0;
        state = state;
        outcome = outcome;
        fed = fed;
        holds = subst (λ x. Holds sent state x (n ∷ seen)) here holds;
        is_run = record {
          held = λ i p. absurd (omega arith);
          gap = ap (λ x. elem x (n ∷ seen)) (sym here) ∙ gap;
        };
        same_window = same;
      }

  feed-first : (ahead m 0).present ≡ false → Fed sent m e seen (e + 0)
  feed-first gone =
      let inside = feed-inside sent m e seen h small 0 (omega (arith, h.inside)) in
      let stored_at = store-Holds sent m e seen h 0 (omega (arith, h.inside)) in
      let d =
        drain_loop-Drained sent (m.window + 1) (store sent m e 0) e ((e + 0) ∷ seen)
          (e + m.window - 1) stored_at stored_at.below (omega (arith, h.inside))
          (omega (arith, h.inside)) in
      record {
        k = d.k;
        state = d.state;
        outcome = delivered;
        fed = inside ∙ first_drained (store sent m e 0) d.state (run sent e d.k) _ _ gone d.runs;
        holds = d.holds;
        is_run = d.is_run;
        same_window = d.same_window;
      }

  feed-later : (j : ℕ) → j < m.window → elem e seen ≡ false → j ≢ 0 → Fed sent m e seen (e + j)
  feed-later j fits gap later =
      let inside = feed-inside sent m e seen h small j fits in
      let was_gap : (not (j == 0)) ≡ true = ground arith in
      let still : elem e ((e + j) ∷ seen) ≡ false =
        elem-cons_ne e (e + j) seen (λ e. absurd (omega arith)) ∙ gap in
      elim (Bool-cases (ahead m j).present) [
        | inl there ↦
            nothing_new (e + j) m buffered (inside ∙ rw (there, was_gap) refl)
              (again-Holds sent m e seen h (e + j) (omega arith)
                (inr (sym (h.kept j fits) ∙ there)))
              still refl
        | inr gone ↦
            nothing_new (e + j) (store sent m e j) buffered (inside ∙ rw (gone, was_gap) refl)
              (store-Holds sent m e seen h j fits) still refl
      ]

  pub feed-Fed :
      (n : ℕ) → elem e seen ≡ false → n < e + m.window → e ≤ n + 32768 → Fed sent m e seen n
  feed-Fed n gap p q = elim (Bool-cases (ltb n e)) [
    | inl b ↦
        let l = ltb→lt n e b in
        nothing_new n m duplicate (feed-behind sent m e seen h small n l q)
          (again-Holds sent m e seen h n p (inl l))
          (elem-cons_ne e n seen (λ e. absurd (omega arith)) ∙ gap) refl
    | inr b ↦
        let l : e ≤ n = ground arith in
        let back : e + (n - e) ≡ n = omega arith in
        subst (Fed sent m e seen) back (elim (Bool-cases (n - e == 0)) [
          | inl z ↦
              let z = (==_iff (n - e) 0).0 z in
              let here : e + 0 ≡ e = omega arith in
              subst (λ j. Fed sent m e seen (e + j)) (sym z)
                (feed-first (h.kept 0 (omega (arith, h.inside)) ∙ ap (λ x. elem x seen) here ∙ gap))
          | inr z ↦ feed-later (n - e) (omega arith) gap (ground arith)
        ])
  ]
