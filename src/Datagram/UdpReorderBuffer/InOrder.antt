-- ===== src/Datagram/UdpReorderBuffer/InOrder.antt =====
-- The state of the buffer against the stream that the other side sends, numbered without bounds.
use plexus.Common.{
  ℕ, zero, suc, ◌+◌, ◌-◌, ◌%◌, ◌≤◌, ◌<◌, ◌≡◌, refl, sym, ap, ◌∙◌, ◌≢◌, arith, Bool, true, false,
}
use mathlib.Core.Path.{subst}
use plexus.Common.{ltb, ltb→lt, Bool-cases, ◌⊎◌, inl, inr, some}
use plexus.Common.{List, [], ◌∷◌, All, length, get_or, length-set, get_or-set_self, get_or-set_ne}
use plexus.Common.{elem, above-elem}
use plexus.Datagram.UdpReorderBuffer.{
  UdpReorderBuffer, Slot, Delivery, empty_slot, slot_at, release, front_delivery, drain_loop,
}
use plexus.Datagram.UdpReorderBuffer.Ring.{
  place_inside, place_apart, place_next, place_round, place_base,
}

-- A datagram: whether it is a fragment, and its bytes.
abbrev pub Datagram : Type 0
Datagram = Bool × List ℕ

-- The deliveries of the datagrams from `e` on, `k` of them.
abbrev pub run : (ℕ → Datagram) → ℕ → ℕ → List Delivery
run sent e zero = []
run sent e (suc k) =
    record { seq = e % 65536; fragmented = (sent e).0; bytes = (sent e).1 } ∷ run sent (suc e) k

-- The slot `j` steps behind the base.
abbrev pub ahead : UdpReorderBuffer → ℕ → Slot
ahead m j = slot_at m ((m.base + j) % m.window)

-- `m` waits for number `e`, and of the window behind it holds those of `seen`.
pub record Holds (sent : ℕ → Datagram) (m : UdpReorderBuffer) (e : ℕ) (seen : List ℕ) : Type 0 where
  pub size : length m.slots ≡ m.window
  pub inside : m.base < m.window
  pub next : m.expected ≡ e % 65536
  pub below : All (λ x. x ≤ e + m.window - 1) seen
  pub kept : (j : ℕ) → j < m.window → (ahead m j).present ≡ elem (e + j) seen
  pub content :
      (j : ℕ)
      → j < m.window
      → (ahead m j).present ≡ true
      → ((ahead m j).fragmented ≡ (sent (e + j)).0) × ((ahead m j).bytes ≡ (sent (e + j)).1)

pub All-le : (h n : ℕ) (xs : List ℕ) → All (λ x. x ≤ h) xs → h ≤ n → All (λ x. x ≤ n) xs
All-le h n [] b p = tt
All-le h n (x ∷ xs) (q, b) p = (omega arith, All-le h n xs b p)

false_not_true : false ≢ true
false_not_true e = ground arith

module _ (sent : ℕ → Datagram) (m : UdpReorderBuffer) (e : ℕ) (seen : List ℕ)
    (h : Holds sent m e seen) where
  at_base : ahead m 0 ≡ slot_at m m.base
  at_base = ap (slot_at m) (place_base m.window m.base h.inside)

  -- Behind the base, the release moves every slot one step on.
  release-ahead : (j : ℕ) → suc j < m.window → ahead (release m) j ≡ ahead m (suc j)
  unfolding release
  release-ahead j p =
      let next = place_next m.window m.base j h.inside (omega arith) in
      let apart =
        place_apart m.window m.base 0 (j + 1) h.inside (omega arith) (omega arith)
          (λ e. absurd (omega arith)) in
      let base = place_base m.window m.base h.inside in
      let one : j + 1 ≡ suc j = omega arith in
      let other : m.base ≢ (m.base + (j + 1)) % m.window = λ e. apart (base ∙ e) in
      rw next (
        get_or-set_ne m.slots m.base ((m.base + (j + 1)) % m.window) _ empty_slot other
        ∙ ap (λ i. get_or m.slots ((m.base + i) % m.window) empty_slot) one)

  release-last : (j : ℕ) → suc j ≡ m.window → (ahead (release m) j).present ≡ false
  unfolding release
  release-last j p =
      let next = place_next m.window m.base j h.inside (omega arith) in
      let round = place_round m.window m.base h.inside in
      let one : j + 1 ≡ m.window = omega arith in
      rw (next, one, round)
        (ap (λ (s : Slot). s.present)
          (get_or-set_self m.slots m.base _ empty_slot (omega (arith, h.size, h.inside))))

  -- A slot of the ring after a release: an old one, or the vacated one at the end.
  last_or_not : (j : ℕ) → j < m.window → (suc j < m.window) ⊎ (suc j ≡ m.window)
  last_or_not j p = ground arith

  release-kept : (j : ℕ) → j < m.window → (ahead (release m) j).present ≡ elem (suc e + j) seen
  release-kept j p =
      let step : e + suc j ≡ suc e + j = omega arith in
      elim (last_or_not j p) [
        | inl q ↦
            ap (λ (s : Slot). s.present) (release-ahead j q)
            ∙ h.kept (suc j) q
            ∙ ap (λ n. elem n seen) step
        | inr q ↦
            release-last j q
            ∙ sym (above-elem (e + m.window - 1) (suc e + j) seen h.below (omega arith))
      ]

  release-content :
      (j : ℕ)
      → j < m.window
      → (ahead (release m) j).present ≡ true
      → ((ahead (release m) j).fragmented ≡ (sent (suc e + j)).0)
        × ((ahead (release m) j).bytes ≡ (sent (suc e + j)).1)
  release-content j p there =
      let step : e + suc j ≡ suc e + j = omega arith in
      elim (last_or_not j p) [
        | inl q ↦
            let same = release-ahead j q in
            let (f, b) = h.content (suc j) q (ap (λ (s : Slot). s.present) (sym same) ∙ there) in
            (
              ap (λ (s : Slot). s.fragmented) same ∙ f ∙ ap (λ n. (sent n).0) step,
              ap (λ (s : Slot). s.bytes) same ∙ b ∙ ap (λ n. (sent n).1) step,
            )
        | inr q ↦ absurd (false_not_true (sym (release-last j q) ∙ there))
      ]

  release-Holds : Holds sent (release m) (suc e) seen
  unfolding release
  release-Holds = record {
    size = length-set m.slots m.base _ ∙ h.size;
    inside = place_inside m.window m.base 1 h.inside (omega (arith, h.inside));
    next = omega (arith, h.next);
    below = All-le (e + m.window - 1) (suc e + m.window - 1) seen h.below (omega arith);
    kept = release-kept;
    content = release-content;
  }

  -- The slot at the base, where it is present, delivers number `e`.
  front_delivery_lem :
      (slot_at m m.base).present ≡ true
      → front_delivery m ≡ record { seq = e % 65536; fragmented = (sent e).0; bytes = (sent e).1 }
  unfolding front_delivery
  front_delivery_lem there =
      let here : e + 0 ≡ e = omega arith in
      let (f, b) =
        h.content 0 (omega (arith, h.inside)) (ap (λ (s : Slot). s.present) at_base ∙ there) in
      let f' : (slot_at m m.base).fragmented ≡ (sent e).0 =
        ap (λ (s : Slot). s.fragmented) (sym at_base) ∙ f ∙ ap (λ n. (sent n).0) here in
      let b' : (slot_at m m.base).bytes ≡ (sent e).1 =
        ap (λ (s : Slot). s.bytes) (sym at_base) ∙ b ∙ ap (λ n. (sent n).1) here in
      λ i. record { seq = h.next i; fragmented = f' i; bytes = b' i }

  base-elem : (slot_at m m.base).present ≡ elem e seen
  base-elem =
      let here : e + 0 ≡ e = omega arith in
      ap (λ (s : Slot). s.present) (sym at_base)
      ∙ h.kept 0 (omega (arith, h.inside))
      ∙ ap (λ n. elem n seen) here

release-window : (m : UdpReorderBuffer) → (release m).window ≡ m.window
unfolding release
release-window m = refl

-- All the numbers from `e` on, `k` of them, are in `seen`, and the next is not.
pub record IsRun (seen : List ℕ) (e k : ℕ) : Type 0 where
  pub held : (i : ℕ) → i < k → elem (e + i) seen ≡ true
  pub gap : elem (e + k) seen ≡ false

IsRun-further :
    (seen : List ℕ) (e k : ℕ) → elem e seen ≡ true → IsRun seen (suc e) k → IsRun seen e (suc k)
IsRun-further seen e k got r = record {
  held = further;
  gap = let step : e + suc k ≡ suc e + k = omega arith in ap (λ n. elem n seen) step ∙ r.gap;
}
  where
    further : (i : ℕ) → i < suc k → elem (e + i) seen ≡ true
    further zero p = let here : e + 0 ≡ e = omega arith in ap (λ n. elem n seen) here ∙ got
    further (suc i) p =
        let step : e + suc i ≡ suc e + i = omega arith in
        ap (λ n. elem n seen) step ∙ r.held i (omega arith)

elem-bound :
    (bound e : ℕ) (seen : List ℕ) → All (λ x. x ≤ bound) seen → elem e seen ≡ true → e ≤ bound
elem-bound bound e seen b got = elim (Bool-cases (ltb bound e)) [
  | inl l ↦ absurd (false_not_true (sym (above-elem bound e seen b (ltb→lt bound e l)) ∙ got))
  | inr l ↦ ground arith
]

-- What draining does: the run at the base is delivered, in order.
pub record Drained (sent : ℕ → Datagram) (m : UdpReorderBuffer) (e : ℕ) (seen : List ℕ) (fuel : ℕ)
    : Type 0 where
  pub k : ℕ
  pub state : UdpReorderBuffer
  pub runs : drain_loop fuel m ≡ some (state, run sent e k)
  pub holds : Holds sent state (e + k) seen
  pub is_run : IsRun seen e k
  pub same_window : state.window ≡ m.window

pub drain_loop-Drained :
    (sent : ℕ → Datagram) (fuel : ℕ) (m : UdpReorderBuffer) (e : ℕ) (seen : List ℕ) (bound : ℕ)
    → Holds sent m e seen
    → All (λ x. x ≤ bound) seen
    → bound + 1 < e + fuel
    → e ≤ bound + 1
    → Drained sent m e seen fuel
unfolding drain_loop
drain_loop-Drained sent zero m e seen bound h b f le = absurd (omega arith)
drain_loop-Drained sent (suc fuel) m e seen bound h b f le =
    elim (Bool-cases (slot_at m m.base).present) [
      | inl there ↦
          let got : elem e seen ≡ true = sym (base-elem sent m e seen h) ∙ there in
          let le' = elem-bound bound e seen b got in
          let inner =
            drain_loop-Drained sent fuel (release m) (suc e) seen bound
              (release-Holds sent m e seen h) b (omega arith) (omega arith) in
          record {
            k = suc inner.k;
            state = inner.state;
            runs = rw (there, inner.runs, front_delivery_lem sent m e seen h there) refl;
            holds = subst (λ n. Holds sent inner.state n seen) (omega arith) inner.holds;
            is_run = IsRun-further seen e inner.k got inner.is_run;
            same_window = inner.same_window ∙ release-window m;
          }
      | inr gone ↦
          let here : e ≡ e + 0 = omega arith in
          record {
            k = 0;
            state = m;
            runs = rw gone refl;
            holds = subst (λ n. Holds sent m n seen) here h;
            is_run = record {
              held = λ i p. absurd (omega arith);
              gap = ap (λ n. elem n seen) (sym here) ∙ sym (base-elem sent m e seen h) ∙ gone;
            };
            same_window = refl;
          }
    ]
