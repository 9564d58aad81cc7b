-- ===== src/Datagram/UdpRtoEstimator/Bounds.antt =====
-- The timeout and its bounds.
use plexus.Common.{
  ℕ, zero, suc, ◌*◌, ◌^◌, ◌<◌, ◌≤◌, ◌≡◌, refl, sym, ap, ◌∙◌, arith, min, ltb, ltb→lt, Bool-cases,
  inl, inr,
}
use plexus.Common.{List, [], ◌∷◌}
use plexus.Common.Bits.{half-pow}
use native.Mathlib.Nat.{mul_assoc, mul-le-mul}
use plexus.Datagram.UdpRtoEstimator.{
  UdpRtoEstimator, udp_rto_estimator, smooth, sample, double_rto, backed_off,
}

-- The samples folded in, the first one first.
abbrev pub samples : List ℕ → UdpRtoEstimator → UdpRtoEstimator
samples [] m = m
samples (rtt ∷ rtts) m = samples rtts (sample rtt m)

record Bounded (lo hi : ℕ) (m : UdpRtoEstimator) : Type 0 where
  lo_is : m.min_rto ≡ lo
  hi_is : m.max_rto ≡ hi
  above : lo ≤ m.rto
  below : m.rto ≤ hi

sample-Bounded :
    (lo hi rtt : ℕ) (m : UdpRtoEstimator)
    → lo ≤ hi
    → m.min_rto ≡ lo
    → m.max_rto ≡ hi
    → Bounded lo hi (sample rtt m)
unfolding sample smooth
sample-Bounded lo hi rtt m order el eh = record {
  lo_is = ground (arith, el);
  hi_is = ground (arith, eh);
  above = ground (arith, el, eh);
  below = ground (arith, el, eh);
}

samples-Bounded :
    (lo hi : ℕ) (rtts : List ℕ) (m : UdpRtoEstimator)
    → lo ≤ hi
    → Bounded lo hi m
    → Bounded lo hi (samples rtts m)
samples-Bounded lo hi [] m order b = b
samples-Bounded lo hi (rtt ∷ rtts) m order b =
    samples-Bounded lo hi rtts (sample rtt m) order
      (sample-Bounded lo hi rtt m order b.lo_is b.hi_is)

doubled : (k r hi : ℕ) → min (min (r * 2) hi * 2 ^ k) hi ≡ min (r * 2 ^ suc k) hi
doubled k r hi = elim (Bool-cases (ltb hi (r * 2))) [
  | inr e ↦ let m : min (r * 2) hi ≡ r * 2 = ground (arith, e) in rw m (omega (arith, step))
  | inl e ↦
      let l = ltb→lt hi (r * 2) e in
      let m : min (r * 2) hi ≡ hi = omega arith in
      let p : 0 < 2 ^ k = pow_pos k in
      let a : hi * 2 ^ k ≤ r * 2 * 2 ^ k = mul-le-mul (omega arith) (omega arith) in
      let b : hi * 1 ≤ hi * 2 ^ k = mul-le-mul (omega arith) p in rw m (omega (arith, step))
]
  where
    pow_pos : (k : ℕ) → 0 < 2 ^ k
    pow_pos zero = omega arith
    pow_pos (suc k) = omega (arith, half-pow k, pow_pos k)

    step : r * 2 ^ suc k ≡ r * 2 * 2 ^ k
    step = ap (λ (t : ℕ). r * t) (half-pow k) ∙ sym (mul_assoc r 2 (2 ^ k))

double_rto_lem : (k r hi : ℕ) → r ≤ hi → double_rto k r hi ≡ min (r * 2 ^ k) hi
unfolding double_rto
double_rto_lem zero r hi h = omega arith
double_rto_lem (suc k) r hi h = double_rto_lem k (min (r * 2) hi) hi (omega arith) ∙ doubled k r hi

-- After a first round trip has been measured, the timeout is within its bounds, and the timeout of
-- the `k`-th retransmission is `2 ^ k` times as long, up to the upper bound.
pub backed_off_lem :
    (initial lo hi rtt k : ℕ) (rtts : List ℕ)
    → lo ≤ hi
    → (lo ≤ (samples (rtt ∷ rtts) (udp_rto_estimator initial lo hi)).rto)
      × ((samples (rtt ∷ rtts) (udp_rto_estimator initial lo hi)).rto ≤ hi)
      × (backed_off k (samples (rtt ∷ rtts) (udp_rto_estimator initial lo hi))
          ≡ min ((samples (rtt ∷ rtts) (udp_rto_estimator initial lo hi)).rto * 2 ^ k) hi)
unfolding backed_off
backed_off_lem initial lo hi rtt k rtts order =
    let m = samples (rtt ∷ rtts) (udp_rto_estimator initial lo hi) in
    let b = samples-Bounded lo hi rtts (sample rtt (udp_rto_estimator initial lo hi)) order (
      sample-Bounded lo hi rtt (udp_rto_estimator initial lo hi) order
        (unfold udp_rto_estimator in refl) (unfold udp_rto_estimator in refl)) in
    (b.above, b.below, rw b.hi_is (double_rto_lem k m.rto hi b.below))
