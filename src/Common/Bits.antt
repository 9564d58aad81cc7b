-- ===== src/Common/Bits.antt =====
-- `bit_and` and `bit_or` through single binary digits.
use Prim.Native.Nat.{ℕ, zero, suc, ◌+◌, ◌-◌, ◌*◌, ◌/◌, ◌%◌, ◌^◌, ◌≤◌, ◌<◌, min, max}
use Prim.Native.Nat.{bit_and, bit_or, digits, bit_and-bitwise, bit_or-bitwise}
use mathlib.Core.Path.{◌≡◌, refl, sym, ap, ◌∙◌}
use mathlib.Core.Logic.{◌≢◌}
use native.Mathlib.Nat.{pow-suc, div-div-eq-div-mul, mod-add-div'}
use native.Mathlib.Omega.{arith}

module _ (z : ℕ → ℕ) (f : ℕ → ℕ → ℕ) where
  pub digits_enough : (n m a b : ℕ) → a ≤ n → a ≤ m → digits z f n a b ≡ digits z f m a b
  digits_enough zero zero a b p q = refl
  digits_enough zero (suc m) zero b p q = refl
  digits_enough zero (suc m) (suc a) b p q = absurd (omega arith)
  digits_enough (suc n) zero zero b p q = refl
  digits_enough (suc n) zero (suc a) b p q = absurd (omega arith)
  digits_enough (suc n) (suc m) zero b p q = refl
  digits_enough (suc n) (suc m) (suc a) b p q =
      omega (arith, digits_enough n m (suc a / 2) (b / 2) (omega arith) (omega arith))

zero-bit_and : (b : ℕ) → bit_and 0 b ≡ 0
zero-bit_and b = bit_and-bitwise 0 b

zero-bit_or : (b : ℕ) → bit_or 0 b ≡ b
zero-bit_or b = bit_or-bitwise 0 b

pub bit_and_halves : (a b : ℕ) → bit_and a b ≡ bit_and (a / 2) (b / 2) * 2 + min (a % 2) (b % 2)
bit_and_halves zero b = omega (arith, zero-bit_and b, zero-bit_and (b / 2))
bit_and_halves (suc a) b = omega (
  arith,
  bit_and-bitwise (suc a) b,
  bit_and-bitwise (suc a / 2) (b / 2),
  digits_enough (λ _. zero) min a (suc a / 2) (suc a / 2) (b / 2) (omega arith) (omega arith),
)

pub bit_or_halves : (a b : ℕ) → bit_or a b ≡ bit_or (a / 2) (b / 2) * 2 + max (a % 2) (b % 2)
bit_or_halves zero b = omega (arith, zero-bit_or b, zero-bit_or (b / 2))
bit_or_halves (suc a) b = omega (
  arith,
  bit_or-bitwise (suc a) b,
  bit_or-bitwise (suc a / 2) (b / 2),
  digits_enough (λ b. b) max a (suc a / 2) (suc a / 2) (b / 2) (omega arith) (omega arith),
)

-- The binary digit of `a` at place `k`.
pub bit : ℕ → ℕ → ℕ
bit a zero = a % 2
bit a (suc k) = bit (a / 2) k

pub bit-le-one : (a k : ℕ) → bit a k ≤ 1
unfolding bit
bit-le-one a zero = omega arith
bit-le-one a (suc k) = bit-le-one (a / 2) k

pub bit-bit_or : (a b k : ℕ) → bit (bit_or a b) k ≡ max (bit a k) (bit b k)
unfolding bit
bit-bit_or a b zero = omega (arith, bit_or_halves a b)
bit-bit_or a b (suc k) =
    let e : bit_or a b / 2 ≡ bit_or (a / 2) (b / 2) = omega (arith, bit_or_halves a b) in
    rw e (bit-bit_or (a / 2) (b / 2) k)

pub zero-bit : (k : ℕ) → bit 0 k ≡ 0
unfolding bit
zero-bit zero = refl
zero-bit (suc k) = zero-bit k

pub half-pow : (k : ℕ) → 2 ^ suc k ≡ 2 * 2 ^ k
half-pow k = omega (arith, pow-suc 2 k)

-- Two has one digit at each of its powers.
pub bit-pow_self : (k : ℕ) → bit (2 ^ k) k ≡ 1
unfolding bit
bit-pow_self zero = refl
bit-pow_self (suc k) =
    let e : 2 ^ suc k / 2 ≡ 2 ^ k = omega (arith, half-pow k) in rw e (bit-pow_self k)

pub bit-pow_ne : (d k : ℕ) → d ≢ k → bit (2 ^ d) k ≡ 0
unfolding bit
bit-pow_ne zero zero h = absurd (h refl)
bit-pow_ne zero (suc k) h = zero-bit k
bit-pow_ne (suc d) zero h = omega (arith, half-pow d)
bit-pow_ne (suc d) (suc k) h =
    let e : 2 ^ suc d / 2 ≡ 2 ^ d = omega (arith, half-pow d) in
    rw e (bit-pow_ne d k (λ p. h (ap suc p)))

-- `a & (1 << k)` is the digit at `k`.
bit_and-zero : (k a : ℕ) → a ≤ k → bit_and a 0 ≡ 0
bit_and-zero zero zero h = zero-bit_and 0
bit_and-zero zero (suc a) h = absurd (omega arith)
bit_and-zero (suc k) zero h = zero-bit_and 0
bit_and-zero (suc k) (suc a) h =
    omega (arith, bit_and_halves (suc a) 0, bit_and-zero k (suc a / 2) (omega arith))

pub bit_and-pow : (k a : ℕ) → bit_and a (2 ^ k) ≡ bit a k * 2 ^ k
unfolding bit
bit_and-pow zero a = omega (arith, bit_and_halves a 1, bit_and-zero (a / 2) (a / 2) (omega arith))
bit_and-pow (suc k) a =
    let e : 2 ^ suc k / 2 ≡ 2 ^ k = omega (arith, half-pow k) in
    let h : bit_and (a / 2) (2 ^ suc k / 2) ≡ bit (a / 2) k * 2 ^ k =
      rw e (bit_and-pow k (a / 2)) in
    omega (
      arith,
      bit_and_halves a (2 ^ suc k),
      h,
      half-pow k,
      ap (λ (t : ℕ). bit (a / 2) k * t) (half-pow k),
    )

-- `a | (b << k)` is a sum where `a` fits `k` digits.
pub bit_or_shifted : (k a b : ℕ) → a < 2 ^ k → bit_or a (b * 2 ^ k) ≡ a + b * 2 ^ k
bit_or_shifted zero a b h =
    let e : a ≡ 0 = omega arith in rw e (omega (arith, zero-bit_or (b * 2 ^ 0)))
bit_or_shifted (suc k) a b h =
    let d : b * 2 ^ suc k ≡ 2 * (b * 2 ^ k) = omega (arith, ap (λ (t : ℕ). b * t) (half-pow k)) in
    let e : b * 2 ^ suc k / 2 ≡ b * 2 ^ k = omega (arith, d) in
    let r : bit_or (a / 2) (b * 2 ^ suc k / 2) ≡ a / 2 + b * 2 ^ k =
      rw e (bit_or_shifted k (a / 2) b (omega (arith, half-pow k))) in
    omega (arith, bit_or_halves a (b * 2 ^ suc k), r, d)

-- `a & (2^k - 1)` is `a % 2^k`, for the masks of seven and of eight digits.
mask_step : (a m : ℕ) → bit_and a (2 * m + 1) ≡ bit_and (a / 2) m * 2 + a % 2
mask_step a m =
    let e : (2 * m + 1) / 2 ≡ m = omega arith in
    let r : bit_and (a / 2) ((2 * m + 1) / 2) ≡ bit_and (a / 2) m = rw e refl in
    omega (arith, bit_and_halves a (2 * m + 1), r)

pub bit_and_one : (a : ℕ) → bit_and a 1 ≡ a % 2
unfolding bit
bit_and_one a = omega (arith, bit_and-pow 0 a)

pub bit_and_seven : (a : ℕ) → bit_and a 7 ≡ a % 8
bit_and_seven a = omega (arith, mask_step a 3, mask_step (a / 2) 1, bit_and_one (a / 2 / 2))

bit_and_x0f : (a : ℕ) → bit_and a 0x0f ≡ a % 16
bit_and_x0f a = omega (arith, mask_step a 7, bit_and_seven (a / 2))

bit_and_x1f : (a : ℕ) → bit_and a 0x1f ≡ a % 32
bit_and_x1f a = omega (arith, mask_step a 15, bit_and_x0f (a / 2))

bit_and_x3f : (a : ℕ) → bit_and a 0x3f ≡ a % 64
bit_and_x3f a = omega (arith, mask_step a 31, bit_and_x1f (a / 2))

pub bit_and_x7f : (a : ℕ) → bit_and a 0x7f ≡ a % 128
bit_and_x7f a = omega (arith, mask_step a 63, bit_and_x3f (a / 2))

pub bit_and_xff : (a : ℕ) → bit_and a 0xff ≡ a % 256
bit_and_xff a = omega (arith, mask_step a 127, bit_and_x7f (a / 2))

-- The top digit of a byte.
pub bit_and_x80 : (a : ℕ) → bit_and a 0x80 ≡ a / 128 % 2 * 128
unfolding bit
bit_and_x80 a = omega (arith, bit_and-pow 7 a)

pub bit_or_x80 : (a : ℕ) → a < 128 → bit_or a 0x80 ≡ a + 128
bit_or_x80 a h = omega (arith, bit_or_shifted 7 a 1 h)

-- A mask that stands `k` digits up.
pub bit_and_shifted : (k a m : ℕ) → bit_and a (m * 2 ^ k) ≡ bit_and (a / 2 ^ k) m * 2 ^ k
bit_and_shifted zero a m =
    omega (arith, ap (λ (t : ℕ). bit_and t m) e, ap (λ (t : ℕ). bit_and a t) f)
  where
    e : a / 2 ^ 0 ≡ a
    e = omega arith

    f : m * 2 ^ 0 ≡ m
    f = omega arith
bit_and_shifted (suc k) a m =
    let d : m * 2 ^ suc k ≡ 2 * (m * 2 ^ k) = omega (arith, ap (λ (t : ℕ). m * t) (half-pow k)) in
    let e : m * 2 ^ suc k / 2 ≡ m * 2 ^ k = omega (arith, d) in
    let q : a / 2 / 2 ^ k ≡ a / 2 ^ suc k =
      div-div-eq-div-mul a 2 (2 ^ k) ∙ ap (λ (t : ℕ). a / t) (sym (half-pow k)) in
    let r : bit_and (a / 2) (m * 2 ^ suc k / 2) ≡ bit_and (a / 2 ^ suc k) m * 2 ^ k =
      rw (e, ← q) (bit_and_shifted k (a / 2) m) in
    omega (
      arith,
      bit_and_halves a (m * 2 ^ suc k),
      r,
      d,
      ap (λ (t : ℕ). bit_and (a / 2 ^ suc k) m * t) (half-pow k),
    )

-- The digits below place `w` do not see what is added at `w`.
pub bit-add_shifted : (w x y k : ℕ) → k < w → bit (x + y * 2 ^ w) k ≡ bit x k
unfolding bit
bit-add_shifted zero x y k h = absurd (omega arith)
bit-add_shifted (suc w) x y zero h = omega (arith, ap (λ (t : ℕ). y * t) (half-pow w))
bit-add_shifted (suc w) x y (suc k) h =
    let d : y * 2 ^ suc w ≡ 2 * (y * 2 ^ w) = omega (arith, ap (λ (t : ℕ). y * t) (half-pow w)) in
    let e : (x + y * 2 ^ suc w) / 2 ≡ x / 2 + y * 2 ^ w = omega (arith, d) in
    rw e (bit-add_shifted w (x / 2) y k (omega arith))

pub bit-mod : (w a k : ℕ) → k < w → bit (a % 2 ^ w) k ≡ bit a k
bit-mod w a k h =
    let e : a % 2 ^ w + a / 2 ^ w * 2 ^ w ≡ a = mod-add-div' a (2 ^ w) in
    sym (bit-add_shifted w (a % 2 ^ w) (a / 2 ^ w) k h) ∙ ap (λ t. bit t k) e

pub bit-shifted_low : (w a k : ℕ) → k < w → bit (a * 2 ^ w) k ≡ 0
bit-shifted_low w a k h =
    let e : 0 + a * 2 ^ w ≡ a * 2 ^ w = omega arith in
    ap (λ t. bit t k) (sym e) ∙ bit-add_shifted w 0 a k h ∙ zero-bit k

pub bit-shifted_high : (w a k : ℕ) → w ≤ k → bit (a * 2 ^ w) k ≡ bit a (k - w)
unfolding bit
bit-shifted_high zero a k h =
    let e : a * 2 ^ 0 ≡ a = omega arith in let f : k - 0 ≡ k = omega arith in rw (e, f) refl
bit-shifted_high (suc w) a zero h = absurd (omega arith)
bit-shifted_high (suc w) a (suc k) h =
    let e : a * 2 ^ suc w / 2 ≡ a * 2 ^ w = omega (arith, ap (λ (t : ℕ). a * t) (half-pow w)) in
    let f : suc k - suc w ≡ k - w = omega arith in rw (e, f) (bit-shifted_high w a k (omega arith))
