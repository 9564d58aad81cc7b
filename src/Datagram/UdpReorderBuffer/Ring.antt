-- ===== src/Datagram/UdpReorderBuffer/Ring.antt =====
-- The ring of slots, seen from its base.
use plexus.Common.{ℕ, ◌+◌, ◌-◌, ◌%◌, ◌≤◌, ◌<◌, ◌≡◌, ◌∙◌, ◌≢◌, arith}
use plexus.Common.{ltb, Bool-cases, ◌⊎◌, inl, inr}
use native.Mathlib.Nat.{mod-eq_of_lt, mod-eq-sub-mod}

-- The place of the slot `j` steps behind the base `b` in a ring of `w`.
pub place_cases :
    (w b j : ℕ)
    → b < w
    → j ≤ w
    → ((b + j < w) × ((b + j) % w ≡ b + j)) ⊎ ((w ≤ b + j) × ((b + j) % w ≡ b + j - w))
place_cases w b j p q = elim (Bool-cases (ltb (b + j) w)) [
  | inl e ↦ let l : b + j < w = ground arith in inl (l, mod-eq_of_lt l)
  | inr e ↦
      let l : w ≤ b + j = ground arith in inr (l, mod-eq-sub-mod l ∙ mod-eq_of_lt (omega arith))
]

pub place_inside : (w b j : ℕ) → b < w → j ≤ w → (b + j) % w < w
place_inside w b j p q = let c = place_cases w b j p q in ground arith

pub place_apart : (w b i j : ℕ) → b < w → i < w → j < w → i ≢ j → (b + i) % w ≢ (b + j) % w
place_apart w b i j p q r h e =
    let c = place_cases w b i p (omega arith) in
    let d = place_cases w b j p (omega arith) in h (ground arith)

-- One step on, the slots are those one further.
pub place_next : (w b j : ℕ) → b < w → j < w → ((b + 1) % w + j) % w ≡ (b + (j + 1)) % w
place_next w b j p q =
    let c = place_cases w b 1 p (omega arith) in
    let d = place_cases w b (j + 1) p (omega arith) in
    let e = place_cases w ((b + 1) % w) j (place_inside w b 1 p (omega arith)) (omega arith) in
    ground arith

pub place_round : (w b : ℕ) → b < w → (b + w) % w ≡ b
place_round w b p = let c = place_cases w b w p (omega arith) in ground arith

pub place_base : (w b : ℕ) → b < w → (b + 0) % w ≡ b
place_base w b p = let c = place_cases w b 0 p (omega arith) in ground arith
