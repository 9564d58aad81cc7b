-- ===== src/Wire/UdpDedupWindow/Once.antt =====
-- Runs of arrivals at a window.
use mathlib.Core.Path.{subst}
use plexus.Common.{ℕ, ◌%◌, ◌≤◌, max, ◌≡◌, refl, sym, ◌∙◌, ◌≢◌, arith}
use plexus.Common.{false, ltb, Bool-cases, ◌⊎◌, inl, inr}
use plexus.Common.{List, [], ◌∷◌, All, elem, above-elem}
use plexus.Wire.UdpDedupWindow.{UdpDedupWindow, Outcome, udp_dedup_window, admit, fresh}
use plexus.Wire.UdpDedupWindow.Exact.{
  Receiver, receive, Tracks, IsNear, admit-receive, udp_dedup_window-Tracks,
}

-- The numbers that a window takes for new, of those that arrive.
unfoldable pub accepted : List ℕ → UdpDedupWindow → List ℕ
accepted [] m = []
accepted (n ∷ ns) m =
    let (m', outcome) = admit (n % 65536) m in
    let rest = accepted ns m' in elim outcome [ fresh ↦ n ∷ rest | _ ↦ rest ]

-- Each arrival is within half of the sequence space of the highest one before it.
unfoldable pub AreNear : ℕ → List ℕ → Type 0
AreNear highest [] = Unit
AreNear highest (n ∷ ns) = IsNear highest n × AreNear (max highest n) ns

pub AreDistinct : List ℕ → Type 0
AreDistinct [] = Unit
AreDistinct (n ∷ ns) = (elem n ns ≡ false) × AreDistinct ns

-- What one arrival does to the receiver without bounds.
receive-fresh :
    (depth n : ℕ) (s : Receiver)
    → All (λ x. x ≤ s.highest) s.seen
    → (receive depth n s).1 ≡ fresh
    → (elem n s.seen ≡ false) × ((receive depth n s).0.seen ≡ n ∷ s.seen)
unfolding receive
receive-fresh depth n s b h = elim (Bool-cases (ltb s.highest n)) [
  | inl e ↦ rw e (above-elem s.highest n s.seen b (ground arith), refl)
  | inr e ↦ ground arith
]

receive-not_fresh :
    (depth n : ℕ) (s : Receiver)
    → (receive depth n s).1 ≢ fresh
    → (receive depth n s).0.seen ≡ s.seen
unfolding receive
receive-not_fresh depth n s h = ground arith

receive-highest : (depth n : ℕ) (s : Receiver) → (receive depth n s).0.highest ≡ max s.highest n
unfolding receive
receive-highest depth n s = ground arith

module _ (n : ℕ) (ns : List ℕ) (m : UdpDedupWindow) where
  accepted-fresh :
      (admit (n % 65536) m).1 ≡ fresh
      → accepted (n ∷ ns) m ≡ n ∷ accepted ns (admit (n % 65536) m).0
  unfolding accepted
  accepted-fresh e = rw (e, accepted) refl

  accepted-not_fresh :
      (admit (n % 65536) m).1 ≢ fresh → accepted (n ∷ ns) m ≡ accepted ns (admit (n % 65536) m).0
  unfolding accepted
  accepted-not_fresh e = ground arith

Outcome-cases : (o : Outcome) → (o ≡ fresh) ⊎ (o ≢ fresh)
Outcome-cases o = ground arith

not_in :
    (n : ℕ) (seen xs : List ℕ)
    → elem n seen ≡ false
    → All (λ x. elem x (n ∷ seen) ≡ false) xs
    → All (λ x. elem x seen ≡ false) xs × (elem n xs ≡ false)
unfolding elem
not_in n seen [] e a = (tt, refl)
not_in n seen (x ∷ xs) e (p, a) =
    let (q, r) = not_in n seen xs e a in ((ground arith, q), ground arith)

accepted-apart :
    (ns : List ℕ) (m : UdpDedupWindow) (s : Receiver)
    → Tracks m s
    → AreNear s.highest ns
    → All (λ x. elem x s.seen ≡ false) (accepted ns m) × AreDistinct (accepted ns m)
unfolding accepted AreNear AreDistinct
accepted-apart [] m s t near = (tt, tt)
accepted-apart (n ∷ ns) m s t (near, later) =
    let (same, t') = admit-receive m s n t near in
    let s' = (receive m.depth n s).0 in
    let m' = (admit (n % 65536) m).0 in
    let high = receive-highest m.depth n s in
    let (apart, distinct) =
      accepted-apart ns m' s' t' (subst (λ h. AreNear h ns) (sym high) later) in
    elim (Outcome-cases (admit (n % 65536) m).1) [
      | inl e ↦
          let (unseen, now) = receive-fresh m.depth n s t.behind (sym same ∙ e) in
          let apart' = subst (λ x. All (λ y. elem y x ≡ false) (accepted ns m')) now apart in
          let (rest, once) = not_in n s.seen (accepted ns m') unseen apart' in
          subst (λ xs. All (λ x. elem x s.seen ≡ false) xs × AreDistinct xs)
            (sym (accepted-fresh n ns m e)) ((unseen, rest), (once, distinct))
      | inr e ↦
          let now = receive-not_fresh m.depth n s (λ f. e (same ∙ f)) in
          let apart' = subst (λ x. All (λ y. elem y x ≡ false) (accepted ns m')) now apart in
          subst (λ xs. All (λ x. elem x s.seen ≡ false) xs × AreDistinct xs)
            (sym (accepted-not_fresh n ns m e)) (apart', distinct)
    ]

-- A new window takes no number for new twice, though it sees sixteen bits of each, as long as each
-- arrival is near.
pub accepted-AreDistinct :
    (depth : ℕ) (ns : List ℕ) → AreNear 0 ns → AreDistinct (accepted ns (udp_dedup_window depth))
accepted-AreDistinct depth ns near =
    (accepted-apart ns (udp_dedup_window depth) (record { highest = 0; seen = [] })
      (udp_dedup_window-Tracks depth) near).1
