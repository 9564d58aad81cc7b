-- ===== src/Wire/UdpDedupWindow/Exact.antt =====
-- The window against a receiver that keeps whole sequence numbers and every one that it has seen.
use plexus.Common.{
  ℕ, zero, suc, ◌+◌, ◌-◌, ◌*◌, ◌%◌, ◌^◌, ◌≤◌, ◌<◌, ◌≡◌, refl, sym, ap, ◌∙◌, ◌≢◌, arith,
}
use plexus.Common.{
  Bool, true, false, not, ◌&&◌, ltb, leb, ◌==◌, ==_iff, if◌then◌else◌, Bool-cases, ◌⊎◌, inl, inr,
}
use plexus.Common.{List, [], ◌∷◌, All, bit_and, bit_or, ltb→lt}
use native.Mathlib.Nat.{pow-suc, pow-le-pow_right}
use plexus.Common.Bits.{
  bit, bit-le-one, bit-bit_or, bit-pow_self, bit-pow_ne, bit_and-pow, zero-bit, bit-mod,
  bit-shifted_low, bit-shifted_high,
}
use plexus.Common.{elem, above-elem, elem-cons_ne, elem-cons_self}
use plexus.Wire.UdpDedupWindow.{
  UdpDedupWindow, Outcome, udp_dedup_window, admit, advance_to, seq_distance, fresh, duplicate,
  too_old,
}

-- The receiver without bounds: the highest number and all the numbers seen.
pub record Receiver : Type 0 where
  pub highest : ℕ
  pub seen : List ℕ

unfoldable pub receive : ℕ → ℕ → Receiver → Receiver × Outcome
receive depth n s =
    if ltb s.highest n
    then (record { highest = n; seen = n ∷ s.seen }, fresh)
    else if leb depth (s.highest - n)
    then (s, too_old)
    else if elem n s.seen
    then (s, duplicate)
    else (record s { seen = n ∷ s.seen }, fresh)

pub flag : Bool → ℕ
flag true = 1
flag false = 0

-- The window holds the receiver's numbers modulo 2^16, and of the last 64 it knows which were seen.
pub record Tracks (m : UdpDedupWindow) (s : Receiver) : Type 0 where
  pub depth_fits : m.depth ≤ 32
  pub depth_some : 1 ≤ m.depth
  pub high : m.high_water ≡ s.highest % 65536
  pub behind : All (λ x. x ≤ s.highest) s.seen
  pub marks : (k : ℕ) → k < 64 → k ≤ s.highest → bit m.bitmap k ≡ flag (elem (s.highest - k) s.seen)

-- A number within half of the sequence space of the highest one.
unfoldable pub IsNear : ℕ → ℕ → Type 0
IsNear highest n = (n < highest + 32768) × (highest ≤ n + 32768)

forward : (h n : ℕ) → h < n → n < h + 32768 → seq_distance (n % 65536) (h % 65536) ≡ n - h
forward h n a b = omega arith

backward : (h n : ℕ) → n ≤ h → h ≤ n + 32768 → seq_distance (h % 65536) (n % 65536) ≡ h - n
backward h n a b = omega arith

not_forward :
    (h n : ℕ)
    → n ≤ h
    → h ≤ n + 32768
    → (seq_distance (n % 65536) (h % 65536) ≡ 0) ⊎ (32768 ≤ seq_distance (n % 65536) (h % 65536))
not_forward h n a b = ground arith

weaken : (h n : ℕ) (xs : List ℕ) → All (λ x. x ≤ h) xs → h ≤ n → All (λ x. x ≤ n) xs
weaken h n [] b p = tt
weaken h n (x ∷ xs) (q, b) p = (omega arith, weaken h n xs b p)

-- The two ways in which the bitmap changes, digit by digit.
bit-set : (b d k : ℕ) → d ≢ k → bit (bit_or b (2 ^ d)) k ≡ bit b k
bit-set b d k h = omega (arith, bit-bit_or b (2 ^ d) k, bit-pow_ne d k h)

bit-set_self : (b d : ℕ) → bit (bit_or b (2 ^ d)) d ≡ 1
bit-set_self b d = omega (arith, bit-bit_or b (2 ^ d) d, bit-pow_self d, bit-le-one b d)

shifted : ℕ → ℕ → ℕ
shifted b adv = if leb 64 adv then 0 else (b * 2 ^ adv) % 2 ^ 64

bit-shifted_new : (b adv k : ℕ) → k < 64 → k < adv → bit (shifted b adv) k ≡ 0
unfolding shifted
bit-shifted_new b adv k h l = elim (Bool-cases (leb 64 adv)) [
  | inl e ↦ rw e (zero-bit k)
  | inr e ↦ rw e (bit-mod 64 (b * 2 ^ adv) k h ∙ bit-shifted_low adv b k l)
]

bit-shifted_old : (b adv k : ℕ) → k < 64 → adv ≤ k → bit (shifted b adv) k ≡ bit b (k - adv)
unfolding shifted
bit-shifted_old b adv k h l = elim (Bool-cases (leb 64 adv)) [
  | inl e ↦ absurd (ground arith)
  | inr e ↦ rw e (bit-mod 64 (b * 2 ^ adv) k h ∙ bit-shifted_high adv b k l)
]

module _ (m : UdpDedupWindow) (s : Receiver) (t : Tracks m s) (n : ℕ) where
  -- What each of them is after taking `n` in front of the highest number.
  abbrev ahead_window : UdpDedupWindow
  ahead_window = record m {
    high_water = n % 65536;
    bitmap = bit_or (shifted m.bitmap (n - s.highest)) 1;
  }

  ahead_marks :
      s.highest < n
      → (k : ℕ) → k < 64
      → k ≤ n
      → bit ahead_window.bitmap k ≡ flag (elem (n - k) (n ∷ s.seen))
  unfolding flag
  ahead_marks a zero h l =
      let e : n - 0 ≡ n = omega arith in
      rw (e, elem-cons_self n s.seen) (bit-set_self (shifted m.bitmap (n - s.highest)) 0)
  ahead_marks a (suc k) h l =
      let adv = n - s.highest in
      let old = bit-set (shifted m.bitmap adv) 0 (suc k) (λ e. absurd (omega arith)) in
      let same = elem-cons_ne (n - suc k) n s.seen (λ e. absurd (omega arith)) in
      elim (Bool-cases (ltb (suc k) adv)) [
        | inl b ↦
            let b = ltb→lt (suc k) adv b in
            old
            ∙ bit-shifted_new m.bitmap adv (suc k) h b
            ∙ ap flag (sym (same ∙ above-elem s.highest (n - suc k) s.seen t.behind (omega arith)))
        | inr b ↦
            let b : adv ≤ suc k = ground arith in
            let e : s.highest - (suc k - adv) ≡ n - suc k = omega arith in
            old
            ∙ bit-shifted_old m.bitmap adv (suc k) h b
            ∙ t.marks (suc k - adv) (omega arith) (omega arith)
            ∙ ap (λ x. flag (elem x s.seen)) e
            ∙ ap flag (sym same)
      ]

  abbrev behind_window : UdpDedupWindow
  behind_window = record m { bitmap = bit_or m.bitmap (2 ^ (s.highest - n)) }

  behind_marks :
      n ≤ s.highest
      → (k : ℕ) → k < 64
      → k ≤ s.highest
      → bit behind_window.bitmap k ≡ flag (elem (s.highest - k) (n ∷ s.seen))
  unfolding flag
  behind_marks a k h l = elim (Bool-cases (s.highest - n == k)) [
    | inl b ↦
        let e : s.highest - n ≡ k = (==_iff (s.highest - n) k).0 b in
        let f : s.highest - k ≡ n = omega arith in
        rw (f, ← e, elem-cons_self n s.seen) (bit-set_self m.bitmap (s.highest - n))
    | inr b ↦
        bit-set m.bitmap (s.highest - n) k (ground arith)
        ∙ t.marks k h l
        ∙ ap flag (sym (elem-cons_ne (s.highest - k) n s.seen (λ e. ground arith)))
  ]

  ahead-Tracks : s.highest < n → Tracks ahead_window (record { highest = n; seen = n ∷ s.seen })
  ahead-Tracks a = record {
    depth_fits = t.depth_fits;
    depth_some = t.depth_some;
    high = refl;
    behind = (omega arith, weaken s.highest n s.seen t.behind (omega arith));
    marks = ahead_marks a;
  }

  behind-Tracks : n ≤ s.highest → Tracks behind_window (record s { seen = n ∷ s.seen })
  behind-Tracks a = record {
    depth_fits = t.depth_fits;
    depth_some = t.depth_some;
    high = t.high;
    behind = (a, t.behind);
    marks = behind_marks a;
  }

  admit-ahead : s.highest < n → n < s.highest + 32768 → admit (n % 65536) m ≡ (ahead_window, fresh)
  unfolding admit advance_to shifted
  admit-ahead a b =
      let tests : (not (n - s.highest == 0) && ltb (n - s.highest) 32768) ≡ true = ground arith in
      rw (t.high, forward s.highest n a b, tests, admit) refl

  -- The test for a step forward fails on a number that is not in front.
  admit-not_ahead :
      n ≤ s.highest
      → s.highest ≤ n + 32768
      → admit (n % 65536) m ≡ (
          if leb m.depth (s.highest - n)
          then (m, too_old)
          else if not (bit_and m.bitmap (2 ^ (s.highest - n) % 2 ^ 64) == 0)
          then (m, duplicate)
          else (record m { bitmap = bit_or m.bitmap (2 ^ (s.highest - n) % 2 ^ 64) }, fresh))
  unfolding admit
  admit-not_ahead a b =
      let no = not_forward s.highest n a b in
      let tests : (not (seq_distance (n % 65536) (s.highest % 65536) == 0)
            && ltb (seq_distance (n % 65536) (s.highest % 65536)) 32768)
          ≡ false =
        ground arith in
      rw (t.high, tests, backward s.highest n a b, admit) refl

mask_found :
    (b d : ℕ) (seen : Bool) → bit b d ≡ flag seen → 0 < 2 ^ d → not (bit_and b (2 ^ d) == 0) ≡ seen
unfolding flag
mask_found b d true e p =
    let q : bit_and b (2 ^ d) ≡ 2 ^ d =
      omega (arith, bit_and-pow d b, ap (λ (t : ℕ). t * 2 ^ d) e) in
    rw q (ground arith)
mask_found b d false e p =
    let q : bit_and b (2 ^ d) ≡ 0 = omega (arith, bit_and-pow d b, ap (λ (t : ℕ). t * 2 ^ d) e) in
    rw q refl

-- The mask of one digit finds that digit.
mask_lem :
    (b d : ℕ) (seen : Bool)
    → d < 64
    → bit b d ≡ flag seen
    → (2 ^ d % 2 ^ 64 ≡ 2 ^ d) × (not (bit_and b (2 ^ d) == 0) ≡ seen)
mask_lem b d seen h e =
    let below : 2 ^ suc d ≤ 2 ^ 64 =
      pow-le-pow_right (omega arith) {i = suc d} {j = 64} (omega arith) in
    let some_bit : 2 ^ 0 ≤ 2 ^ d = pow-le-pow_right (omega arith) {i = 0} {j = d} (omega arith) in
    (omega (arith, pow-suc 2 d), mask_found b d seen e (omega arith))

-- The window answers a number that is near as the receiver without bounds does, and keeps up with
-- it.
pub admit-receive :
    (m : UdpDedupWindow) (s : Receiver) (n : ℕ)
    → Tracks m s
    → IsNear s.highest n
    → ((admit (n % 65536) m).1 ≡ (receive m.depth n s).1)
      × Tracks (admit (n % 65536) m).0 (receive m.depth n s).0
unfolding receive IsNear
admit-receive m s n t (a, b) = elim (Bool-cases (ltb s.highest n)) [
  | inl e ↦
      let l = ltb→lt s.highest n e in rw (e, admit-ahead m s t n l a) (refl, ahead-Tracks m s t n l)
  | inr e ↦
      let l : n ≤ s.highest = ground arith in
      rw (e, admit-not_ahead m s t n l b)
        (elim (Bool-cases (leb m.depth (s.highest - n))) [
          | inl d ↦ rw d (refl, t)
          | inr d ↦
              let near : s.highest - n < 64 = let f = t.depth_fits in ground arith in
              let back : s.highest - (s.highest - n) ≡ n = omega arith in
              let mark : bit m.bitmap (s.highest - n) ≡ flag (elem n s.seen) =
                t.marks (s.highest - n) near (omega arith) ∙ ap (λ x. flag (elem x s.seen)) back in
              let (small, found) = mask_lem m.bitmap (s.highest - n) (elem n s.seen) near mark in
              rw (d, small, found)
                (elim (Bool-cases (elem n s.seen)) [
                  | inl k ↦ rw k (refl, t)
                  | inr k ↦ rw k (refl, behind-Tracks m s t n l)
                ])
        ])
]

pub udp_dedup_window-Tracks :
    (depth : ℕ) → Tracks (udp_dedup_window depth) (record { highest = 0; seen = [] })
unfolding udp_dedup_window flag elem
udp_dedup_window-Tracks depth = record {
  depth_fits = ground arith;
  depth_some = ground arith;
  high = refl;
  behind = tt;
  marks = λ k h l. zero-bit k;
}
