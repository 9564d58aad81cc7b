-- ===== src/Common/Xor.antt =====
-- `bit_xor`: its binary digits, and the laws that follow from them.
use Prim.Native.Nat.{ℕ, zero, suc, ◌+◌, ◌*◌, ◌/◌, ◌%◌, ◌^◌, ◌≤◌, ◌<◌}
use Prim.Native.Nat.{bit_xor, differ, bit_xor-bitwise}
use mathlib.Core.Path.{◌≡◌, refl, sym, ap, ◌∙◌}
use native.Mathlib.Omega.{arith}
use native.Mathlib.Nat.{div-div-eq-div-mul}
use plexus.Common.Bits.{digits_enough, half-pow}

zero-bit_xor : (b : ℕ) → bit_xor 0 b ≡ b
zero-bit_xor b = bit_xor-bitwise 0 b

differ_lem : (x y : ℕ) → x < 2 → y < 2 → differ x y ≡ (x + y) % 2
differ_lem zero y p q = omega arith
differ_lem (suc zero) zero p q = refl
differ_lem (suc zero) (suc zero) p q = refl
differ_lem (suc zero) (suc (suc y)) p q = absurd (omega arith)
differ_lem (suc (suc x)) y p q = absurd (omega arith)

pub bit_xor_halves : (a b : ℕ) → bit_xor a b ≡ bit_xor (a / 2) (b / 2) * 2 + (a % 2 + b % 2) % 2
bit_xor_halves zero b = omega (arith, zero-bit_xor b, zero-bit_xor (b / 2))
bit_xor_halves (suc a) b = omega (
  arith,
  bit_xor-bitwise (suc a) b,
  bit_xor-bitwise (suc a / 2) (b / 2),
  digits_enough (λ b. b) differ a (suc a / 2) (suc a / 2) (b / 2) (omega arith) (omega arith),
  differ_lem (suc a % 2) (b % 2) (omega arith) (omega arith),
)

bit_xor_half : (a b : ℕ) → bit_xor a b / 2 ≡ bit_xor (a / 2) (b / 2)
bit_xor_half a b = omega (arith, bit_xor_halves a b)

comm_up_to : (n a b : ℕ) → a ≤ n → b ≤ n → bit_xor a b ≡ bit_xor b a
comm_up_to zero a b p q =
    let x : a ≡ b = omega arith in ap (λ t. bit_xor t b) x ∙ ap (bit_xor b) (sym x)
comm_up_to (suc n) a b p q = omega (
  arith,
  bit_xor_halves a b,
  bit_xor_halves b a,
  comm_up_to n (a / 2) (b / 2) (omega arith) (omega arith),
)

pub bit_xor_comm : (a b : ℕ) → bit_xor a b ≡ bit_xor b a
bit_xor_comm a b = comm_up_to (a + b) a b (omega arith) (omega arith)

assoc_up_to :
    (n a b c : ℕ) → a ≤ n → b ≤ n → c ≤ n → bit_xor (bit_xor a b) c ≡ bit_xor a (bit_xor b c)
assoc_up_to zero a b c p q r =
    let x : a ≡ 0 = omega arith in
    let y : b ≡ 0 = omega arith in
    ap (λ t. bit_xor (bit_xor t b) c) x
    ∙ ap (λ t. bit_xor t c) (zero-bit_xor b)
    ∙ sym (zero-bit_xor (bit_xor b c))
    ∙ ap (λ t. bit_xor t (bit_xor b c)) (sym x)
assoc_up_to (suc n) a b c p q r = omega (
  arith,
  bit_xor_halves (bit_xor a b) c,
  bit_xor_halves a (bit_xor b c),
  bit_xor_halves a b,
  bit_xor_halves b c,
  ap (λ t. bit_xor t (c / 2)) (bit_xor_half a b),
  ap (bit_xor (a / 2)) (bit_xor_half b c),
  assoc_up_to n (a / 2) (b / 2) (c / 2) (omega arith) (omega arith) (omega arith),
)

pub bit_xor_assoc : (a b c : ℕ) → bit_xor (bit_xor a b) c ≡ bit_xor a (bit_xor b c)
bit_xor_assoc a b c = assoc_up_to (a + b + c) a b c (omega arith) (omega arith) (omega arith)

pub bit_xor-lt : (k a b : ℕ) → a < 2 ^ k → b < 2 ^ k → bit_xor a b < 2 ^ k
bit_xor-lt zero a b p q =
    let x : a ≡ 0 = omega arith in omega (arith, ap (λ t. bit_xor t b) x, zero-bit_xor b)
bit_xor-lt (suc k) a b p q = omega (
  arith,
  half-pow k,
  bit_xor_halves a b,
  bit_xor-lt k (a / 2) (b / 2) (omega (arith, half-pow k)) (omega (arith, half-pow k)),
)

pub bit_xor_shifted : (k a b : ℕ) → a < 2 ^ k → bit_xor a (b * 2 ^ k) ≡ a + b * 2 ^ k
bit_xor_shifted zero a b h =
    let e : a ≡ 0 = omega arith in
    omega (arith, ap (λ t. bit_xor t (b * 2 ^ 0)) e, zero-bit_xor (b * 2 ^ 0))
bit_xor_shifted (suc k) a b h =
    let d : b * 2 ^ suc k ≡ 2 * (b * 2 ^ k) = omega (arith, ap (λ (t : ℕ). b * t) (half-pow k)) in
    let e : b * 2 ^ suc k / 2 ≡ b * 2 ^ k = omega (arith, d) in
    omega (
      arith,
      d,
      bit_xor_halves a (b * 2 ^ suc k),
      ap (bit_xor (a / 2)) e,
      bit_xor_shifted k (a / 2) b (omega (arith, half-pow k)),
    )

-- The digits from place `k` on stay where the other number has none.
pub bit_xor_over : (k a b : ℕ) → b < 2 ^ k → bit_xor a b / 2 ^ k ≡ a / 2 ^ k
bit_xor_over zero a b h =
    let e : b ≡ 0 = omega arith in
    ap (λ t. t / 1) (bit_xor_comm a b ∙ ap (λ t. bit_xor t a) e ∙ zero-bit_xor a)
bit_xor_over (suc k) a b h =
    over (bit_xor a b)
    ∙ ap (λ t. t / 2 ^ k) (bit_xor_half a b)
    ∙ bit_xor_over k (a / 2) (b / 2) (omega (arith, h, half-pow k))
    ∙ sym (over a)
  where
    over : (x : ℕ) → x / 2 ^ suc k ≡ x / 2 / 2 ^ k
    over x = ap (λ t. x / t) (half-pow k) ∙ sym (div-div-eq-div-mul x 2 (2 ^ k))
