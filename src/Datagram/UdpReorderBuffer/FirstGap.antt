-- ===== src/Datagram/UdpReorderBuffer/FirstGap.antt =====
-- Runs of arrivals at a reorder buffer, and the first number that is missing.
use plexus.Common.{
  ℕ, zero, suc, ◌+◌, ◌-◌, ◌%◌, ◌≤◌, ◌<◌, ◌≡◌, refl, sym, ap, ◌∙◌, ◌≢◌, arith, true, false, ◌||◌,
}
use mathlib.Core.Path.{subst}
use plexus.Common.{ltb, ◌==◌, Bool-cases, inl, inr, Option, none, some, ◌>>=◌}
use plexus.Common.{List, [], ◌∷◌, ◌++◌, length, get_or, replicate, elem, length-replicate}
use plexus.Datagram.UdpReorderBuffer.{
  UdpReorderBuffer, Slot, Delivery, Outcome, empty_slot, udp_reorder_buffer,
}
use plexus.Datagram.UdpReorderBuffer.InOrder.{Datagram, run, Holds, IsRun}
use plexus.Datagram.UdpReorderBuffer.Complete.{feed_number, feed-Fed}

false_not_true : false ≢ true
false_not_true e = ground arith

-- A run of arrivals, with everything that is delivered.
pub feeds : (ℕ → Datagram) → List ℕ → UdpReorderBuffer → Option (UdpReorderBuffer × List Delivery)
feeds sent [] m = some (m, [])
feeds sent (n ∷ ns) m = do
  (m', _, now) ← feed_number sent n m
  (m'', later) ← feeds sent ns m'
  some (m'', now ++ later)

-- A condition on what a feed leaves: the state, and the next number that it waits for.
abbrev pub After :
    (UdpReorderBuffer → ℕ → Type 0)
    → ℕ
    → Option (UdpReorderBuffer × Outcome × List Delivery)
    → Type 0
After P e none = Unit
After P e (some (m', _, now)) = P m' (e + length now)

-- Each arrival is below the end of the window that starts at the number waited for, `e`, and not
-- older than half of the sequence space.
unfoldable pub AreWithin : (ℕ → Datagram) → List ℕ → UdpReorderBuffer → ℕ → Type 0
AreWithin sent [] m e = Unit
AreWithin sent (n ∷ ns) m e =
    (n < e + m.window) × (e ≤ n + 32768) × After (AreWithin sent ns) e (feed_number sent n m)

pub length-run : (sent : ℕ → Datagram) (e k : ℕ) → length (run sent e k) ≡ k
length-run sent e zero = refl
length-run sent e (suc k) = ap suc (length-run sent (suc e) k)

pub run-append :
    (sent : ℕ → Datagram) (e j k : ℕ) → run sent e j ++ run sent (e + j) k ≡ run sent e (j + k)
run-append sent e zero k =
    let here : e + 0 ≡ e = omega arith in let none : 0 + k ≡ k = omega arith in rw (here, none) refl
run-append sent e (suc j) k =
    let step : e + suc j ≡ suc e + j = omega arith in
    let count : suc j + k ≡ suc (j + k) = omega arith in
    rw (step, count)
      (ap (λ rs. record { seq = e % 65536; fragmented = (sent e).0; bytes = (sent e).1 } ∷ rs)
        (run-append sent (suc e) j k))

-- Every number below `e` has arrived, and `e` has not.
pub record IsFirstGap (seen : List ℕ) (e : ℕ) : Type 0 where
  pub before : (i : ℕ) → i < e → elem i seen ≡ true
  pub missing : elem e seen ≡ false

-- What has arrived, the last one first.
abbrev arrived : List ℕ → List ℕ → List ℕ
arrived [] seen = seen
arrived (n ∷ ns) seen = arrived ns (n ∷ seen)

elem-arrived : (i : ℕ) (ns seen : List ℕ) → elem i (arrived ns seen) ≡ (elem i ns || elem i seen)
unfolding elem
elem-arrived i [] seen = refl
elem-arrived i (n ∷ ns) seen = let later = elem-arrived i ns (n ∷ seen) in ground arith

pub known : (n i : ℕ) (seen : List ℕ) → elem i seen ≡ true → elem i (n ∷ seen) ≡ true
unfolding elem
known n i seen p = ground arith

pub gap_further :
    (n e k : ℕ) (seen : List ℕ)
    → IsFirstGap seen e
    → IsRun (n ∷ seen) e k
    → IsFirstGap (n ∷ seen) (e + k)
gap_further n e k seen g r = record { before = before; missing = r.gap }
  where
    before : (i : ℕ) → i < e + k → elem i (n ∷ seen) ≡ true
    before i p = elim (Bool-cases (ltb i e)) [
      | inl b ↦ known n i seen (g.before i (ground arith))
      | inr b ↦
          let back : e + (i - e) ≡ i = ground arith in
          subst (λ x. elem x (n ∷ seen) ≡ true) back (r.held (i - e) (ground arith))
    ]

feeds-run :
    (sent : ℕ → Datagram) (ns : List ℕ) (m : UdpReorderBuffer) (e : ℕ) (seen : List ℕ)
    → Holds sent m e seen
    → m.window ≤ 32768
    → IsFirstGap seen e
    → AreWithin sent ns m e
    → (k : ℕ) × (m' : UdpReorderBuffer) × (feeds sent ns m ≡ some (m', run sent e k))
      × IsFirstGap (arrived ns seen) (e + k)
unfolding feeds AreWithin
feeds-run sent [] m e seen h small g near = (0, m, refl, subst (IsFirstGap seen) (omega arith) g)
feeds-run sent (n ∷ ns) m e seen h small g (p, q, near) =
    let f = feed-Fed sent m e seen h small n g.missing p q in
    let later : AreWithin sent ns f.state (e + length (run sent e f.k)) =
      subst (After (AreWithin sent ns) e) f.fed near in
    let (k, m', runs, gap) =
      feeds-run sent ns f.state (e + f.k) (n ∷ seen) f.holds (omega (arith, f.same_window))
        (gap_further n e f.k seen g f.is_run)
        (subst (λ l. AreWithin sent ns f.state (e + l)) (length-run sent e f.k) later) in
    (
      f.k + k,
      m',
      rw (f.fed, runs, run-append sent e f.k k) refl,
      subst (IsFirstGap (arrived ns (n ∷ seen))) (omega arith) gap,
    )

empty_ahead : (w i : ℕ) → get_or (replicate w empty_slot) i empty_slot ≡ empty_slot
empty_ahead zero i = refl
empty_ahead (suc w) zero = refl
empty_ahead (suc w) (suc i) = empty_ahead w i

pub new-Holds :
    (sent : ℕ → Datagram) (window : ℕ) → 0 < window → Holds sent (udp_reorder_buffer window 0) 0 []
unfolding udp_reorder_buffer elem
new-Holds sent window p =
    let some_window : (window == 0) ≡ false = ground arith in
    rw some_window (record {
      size = length-replicate window empty_slot;
      inside = p;
      next = refl;
      below = tt;
      kept = λ j q. ap (λ (s : Slot). s.present) (empty_ahead window ((0 + j) % window));
      content = λ j q there. absurd (
          false_not_true
            (ap (λ (s : Slot). s.present) (sym (empty_ahead window ((0 + j) % window))) ∙ there));
    })

pub new_window :
    (window : ℕ) → 0 < window → window ≤ 32768 → (udp_reorder_buffer window 0).window ≤ 32768
unfolding udp_reorder_buffer
new_window window p small = ground arith

-- A new buffer delivers the datagrams from number 0 up to the first that has not arrived, in the
-- order of their numbers and each once, however the arrivals are ordered and repeated, as long as
-- each is within the window at its time and the window is at most half of the sequence space.
pub feeds-first_gap :
    (sent : ℕ → Datagram) (window : ℕ) (ns : List ℕ)
    → 0 < window
    → window ≤ 32768
    → AreWithin sent ns (udp_reorder_buffer window 0) 0
    → (e : ℕ) × (m' : UdpReorderBuffer) × (feeds sent ns (udp_reorder_buffer window 0)
        ≡ some (m', run sent 0 e))
      × ((i : ℕ) → i < e → elem i ns ≡ true)
      × (elem e ns ≡ false)
unfolding elem
feeds-first_gap sent window ns p small near =
    let (e, m', runs, gap) =
      feeds-run sent ns (udp_reorder_buffer window 0) 0 [] (new-Holds sent window p)
        (new_window window p small)
        (record { before = λ i q. absurd (omega arith); missing = refl }) near in
    (
      e,
      m',
      runs,
      (λ i q.
          let known = gap.before i (omega arith) in let all = elem-arrived i ns [] in ground arith),
      (let missing = gap.missing in let all = elem-arrived e ns [] in ground arith),
    )
