-- ===== src/Wire/Crc32c/Bitwise.antt =====
-- The checksum by table against one that shifts a bit at a time.
use plexus.Common.{
  ℕ, zero, suc, ◌+◌, ◌-◌, ◌*◌, ◌/◌, ◌%◌, ◌^◌, ◌<◌, ◌≡◌, refl, sym, ap, ◌∙◌, arith, ◌==◌,
  if◌then◌else◌, bit_and, bit_xor, Bool-cases, inl, inr,
}
use plexus.Common.{List, [], ◌∷◌, get_or, All}
use plexus.Common.Bits.{bit_and_one, half-pow}
use plexus.Common.Xor.{
  bit_xor_halves, bit_xor_comm, bit_xor_assoc, bit_xor-lt, bit_xor_shifted, bit_xor_over,
}
use plexus.Wire.ByteOrder.{shr}
use plexus.Wire.Crc32c.{
  k_crc32c_poly_reflected, table_rounds, build_crc32c_table, k_crc32c_table, complement, crc_round,
  crc_loop, crc32c,
}
use native.Mathlib.Nat.{mod-eq_of_lt}

-- The exponents of Castagnoli's polynomial of degree 32 but the first, and its digits in the order of
-- reflected words, the lowest power first.
abbrev exponents : List ℕ
exponents = 28 ∷ 27 ∷ 26 ∷ 25 ∷ 23 ∷ 22 ∷ 20 ∷ 19 ∷ 18 ∷ 14 ∷ 13 ∷ 11 ∷ 10 ∷ 9 ∷ 8 ∷ 6 ∷ 0 ∷ []

abbrev reflected : List ℕ → ℕ
reflected [] = 0
reflected (e ∷ es) = 2 ^ (31 - e) + reflected es

-- A digit is shifted out, and where it is 1 the polynomial is taken off.
abbrev shift_out : ℕ → ℕ
shift_out c = if c % 2 == 0 then c / 2 else bit_xor (c / 2) (reflected exponents)

abbrev shifts : ℕ → ℕ → ℕ
shifts zero c = c
shifts (suc k) c = shifts k (shift_out c)

abbrev bitwise_loop : ℕ → List ℕ → ℕ
bitwise_loop c [] = c
bitwise_loop c (b ∷ bs) = bitwise_loop (shifts 8 (bit_xor c b)) bs

-- The checksum, from the one of what goes before.
abbrev pub bitwise_crc32c : List ℕ → ℕ → ℕ
bitwise_crc32c bytes seed = 0xFFFFFFFF - bitwise_loop (0xFFFFFFFF - seed) bytes

shift_out-lt : (c : ℕ) → c < 2 ^ 32 → shift_out c < 2 ^ 32
shift_out-lt c h = elim (Bool-cases (c % 2 == 0)) [
  | inl even ↦ rw even (omega (arith, h))
  | inr odd ↦ rw odd (bit_xor-lt 32 (c / 2) (reflected exponents) (omega (arith, h)) (omega arith))
]

-- A round of the table's inner loop shifts a digit out.
table_rounds-shifts : (k c : ℕ) → c < 2 ^ 32 → table_rounds k c ≡ shifts k c
unfolding table_rounds
table_rounds-shifts zero c h = refl
table_rounds-shifts (suc k) c h =
    ap (table_rounds k) one ∙ table_rounds-shifts k (shift_out c) (shift_out-lt c h)
  where
    one :
        (if bit_and c 1 == 0 then shr c 1 else bit_xor k_crc32c_poly_reflected (shr c 1) % 2 ^ 32)
        ≡ shift_out c
    one =
        let taken = bit_xor_comm k_crc32c_poly_reflected (c / 2) in
        let fits = bit_xor-lt 32 (c / 2) k_crc32c_poly_reflected (omega (arith, h)) (omega arith) in
        rw (bit_and_one c, taken, mod-eq_of_lt fits) refl

build_crc32c_table_lem :
    (count n i : ℕ) → i < count → get_or (build_crc32c_table count n) i 0 ≡ table_rounds 8 (n + i)
unfolding build_crc32c_table
build_crc32c_table_lem zero n i p = absurd (omega arith)
build_crc32c_table_lem (suc count) n zero p =
    let e : n ≡ n + 0 = omega arith in ap (table_rounds 8) e
build_crc32c_table_lem (suc count) n (suc i) p =
    let e : n + 1 + i ≡ n + suc i = omega arith in
    build_crc32c_table_lem count (n + 1) i (omega arith) ∙ ap (table_rounds 8) e

-- What is shifted out of the digits below leaves those above.
shift_out-bit_xor : (y z : ℕ) → z % 2 ≡ 0 → shift_out (bit_xor y z) ≡ bit_xor (shift_out y) (z / 2)
shift_out-bit_xor y z h =
    let parity : bit_xor y z % 2 ≡ y % 2 = omega (arith, bit_xor_halves y z, h) in
    let half : bit_xor y z / 2 ≡ bit_xor (y / 2) (z / 2) = omega (arith, bit_xor_halves y z) in
    let p = reflected exponents in
    elim (Bool-cases (y % 2 == 0)) [
      | inl even ↦ rw (parity, even) half
      | inr odd ↦
          rw (parity, odd)
            (ap (λ t. bit_xor t p) half
              ∙ bit_xor_assoc (y / 2) (z / 2) p
              ∙ ap (bit_xor (y / 2)) (bit_xor_comm (z / 2) p)
              ∙ sym (bit_xor_assoc (y / 2) p (z / 2)))
    ]

shifts-bit_xor : (k y h : ℕ) → shifts k (bit_xor y (h * 2 ^ k)) ≡ bit_xor (shifts k y) h
shifts-bit_xor zero y h = let e : h * 2 ^ 0 ≡ h = omega arith in ap (bit_xor y) e
shifts-bit_xor (suc k) y h =
    let d : h * 2 ^ suc k ≡ 2 * (h * 2 ^ k) = omega (arith, ap (λ (t : ℕ). h * t) (half-pow k)) in
    let half : h * 2 ^ suc k / 2 ≡ h * 2 ^ k = omega (arith, d) in
    ap (shifts k)
      (shift_out-bit_xor y (h * 2 ^ suc k) (omega (arith, d)) ∙ ap (bit_xor (shift_out y)) half)
    ∙ shifts-bit_xor k (shift_out y) h

-- A step by table takes a byte in, and shifts its eight digits out.
crc_round-shifts : (crc b : ℕ) → crc < 2 ^ 32 → b < 256 → crc_round crc b ≡ shifts 8 (bit_xor crc b)
unfolding crc_round k_crc32c_table
crc_round-shifts crc b h l =
    let x = bit_xor crc b in
    let low = x % 256 in
    let high : x / 256 ≡ crc / 256 = bit_xor_over 8 crc b l in
    let split : bit_xor low (x / 256 * 2 ^ 8) ≡ x =
      bit_xor_shifted 8 low (x / 256) (omega arith) ∙ omega arith in
    let from_zero : 0 + low ≡ low = omega arith in
    let entry : get_or (build_crc32c_table 256 0) low 0 ≡ shifts 8 low =
      build_crc32c_table_lem 256 0 low (omega arith)
      ∙ ap (table_rounds 8) from_zero
      ∙ table_rounds-shifts 8 low (omega arith) in
    let whole : shifts 8 x ≡ bit_xor (shifts 8 low) (crc / 256) =
      ap (shifts 8) (sym split)
      ∙ shifts-bit_xor 8 low (x / 256)
      ∙ ap (bit_xor (shifts 8 low)) high in
    let fits : bit_xor (shifts 8 low) (crc / 256) < 2 ^ 32 =
      bit_xor-lt 32 (shifts 8 low) (crc / 256) (shifts-lt 8 low (omega arith)) (omega (arith, h)) in
    ap (λ t. bit_xor t (crc / 256) % 2 ^ 32) entry ∙ mod-eq_of_lt fits ∙ sym whole
  where
    shifts-lt : (k c : ℕ) → c < 2 ^ 32 → shifts k c < 2 ^ 32
    shifts-lt zero c h = h
    shifts-lt (suc k) c h = shifts-lt k (shift_out c) (shift_out-lt c h)

crc_loop-bitwise_loop :
    (bytes : List ℕ) (crc : ℕ)
    → All (λ b. b < 256) bytes
    → crc < 2 ^ 32
    → crc_loop crc bytes ≡ bitwise_loop crc bytes
unfolding crc_loop
crc_loop-bitwise_loop [] crc hb h = refl
crc_loop-bitwise_loop (b ∷ bs) crc (l, ls) h =
    crc_loop-bitwise_loop bs (crc_round crc b) ls (unfold crc_round in omega arith)
    ∙ ap (λ t. bitwise_loop t bs) (crc_round-shifts crc b h l)

-- The checksum of bytes by table, for a seed of 32 bits, is the one that is found bit by bit with
-- Castagnoli's polynomial.
pub crc32c-bitwise_crc32c :
    (bytes : List ℕ) (seed : ℕ)
    → All (λ b. b < 256) bytes
    → seed < 2 ^ 32
    → crc32c bytes seed ≡ bitwise_crc32c bytes seed
unfolding crc32c
crc32c-bitwise_crc32c bytes seed hb h =
    ap complement (crc_loop-bitwise_loop bytes (complement seed) hb (omega arith))
