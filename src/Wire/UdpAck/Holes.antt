-- ===== src/Wire/UdpAck/Holes.antt =====
-- The bitmap of an acknowledgement.
use plexus.Common.{
  ℕ, zero, suc, if◌then◌else◌, ◌*◌, ◌/◌, ◌%◌, ◌^◌, ◌<◌, ◌≤◌, ◌≡◌, ◌≢◌, refl, ap, ◌∙◌, arith, Bool,
  true, false, ltb, lt→ltb, ltb→lt, Bool-cases, inl, inr, ◌==◌, ◌||◌, ◌&&◌, not,
}
use plexus.Common.{length, get_or, length-set, get_or-set_self, get_or-set_ne, bit_and, bit_or, max}
use plexus.Common.Bits.{
  bit, bit_and-pow, bit_and_seven, bit-bit_or, bit-mod, bit-pow_self, bit-pow_ne, bit-le-one,
}
use native.Mathlib.Decide.{ℕ_discrete}
use plexus.Wire.ByteOrder.{shr, shl}
use plexus.Wire.UdpAck.{UdpAck, hole_received, mark_hole}

-- The bitmap has its 32 bytes.
abbrev pub IsBitmap : UdpAck → Type 0
IsBitmap a = length a.selective ≡ 32

-- The bit that stands for the `i`-th hole.
unfoldable pub hole_bit : UdpAck → ℕ → ℕ
hole_bit a i = bit (get_or a.selective (i / 8) 0) (i % 8)

small_pow : (k : ℕ) → k < 8 → (1 * 2 ^ k % 2 ^ 32 ≡ 2 ^ k) × (1 * 2 ^ k % 2 ^ 32 % 2 ^ 8 ≡ 2 ^ k)
small_pow zero h = (refl, refl)
small_pow (suc zero) h = (refl, refl)
small_pow (suc (suc zero)) h = (refl, refl)
small_pow (suc (suc (suc zero))) h = (refl, refl)
small_pow (suc (suc (suc (suc zero)))) h = (refl, refl)
small_pow (suc (suc (suc (suc (suc zero))))) h = (refl, refl)
small_pow (suc (suc (suc (suc (suc (suc zero)))))) h = (refl, refl)
small_pow (suc (suc (suc (suc (suc (suc (suc zero))))))) h = (refl, refl)
small_pow (suc (suc (suc (suc (suc (suc (suc (suc k)))))))) h = absurd (omega arith)

hole_bit-le-one : (a : UdpAck) (i : ℕ) → hole_bit a i ≤ 1
unfolding hole_bit
hole_bit-le-one a i = bit-le-one (get_or a.selective (i / 8) 0) (i % 8)

pub hole_received-hole_bit :
    (a : UdpAck) (i : ℕ) → hole_received a i ≡ (ltb i 256 && (hole_bit a i == 1))
unfolding hole_received hole_bit
hole_received-hole_bit a i =
    let byte = get_or a.selective (i / 8) 0 in
    let p = (small_pow (i % 8) (omega arith)).0 in
    let pos : 0 < 2 ^ (i % 8) = pow_pos (i % 8) in
    let le : bit byte (i % 8) ≤ 1 = bit-le-one byte (i % 8) in
    rw (bit_and_seven i, p, bit_and-pow (i % 8) byte)
      (ap (λ t. ltb i 256 && t) (digit_test (bit byte (i % 8)) (2 ^ (i % 8)) le pos))
  where
    pow_pos : (k : ℕ) → 0 < 2 ^ k
    pow_pos zero = omega arith
    pow_pos (suc k) = omega (arith, pow_pos k)

    digit_test : (b p : ℕ) → b ≤ 1 → 0 < p → not (b * p == 0) ≡ (b == 1)
    digit_test zero p h pos = ground arith
    digit_test (suc zero) p h pos = ground arith
    digit_test (suc (suc b)) p h pos = absurd (omega arith)

mark_hole-hole_bit :
    (a : UdpAck) (i j : ℕ)
    → IsBitmap a
    → i < 256
    → j < 256
    → hole_bit (mark_hole a i) j ≡ max (hole_bit a j) (if i == j then 1 else 0)
unfolding mark_hole hole_bit
mark_hole-hole_bit a i j h hi hj =
    let old = get_or a.selective (i / 8) 0 in
    let new = bit_or old (2 ^ (i % 8)) % 2 ^ 8 in
    let p = (small_pow (i % 8) (omega arith)).1 in
    let inside : ltb i 256 ≡ true = lt→ltb i 256 hi in
    let digit : bit new (j % 8) ≡ max (bit old (j % 8)) (bit (2 ^ (i % 8)) (j % 8)) =
      bit-mod 8 (bit_or old (2 ^ (i % 8))) (j % 8) (omega arith)
      ∙ bit-bit_or old (2 ^ (i % 8)) (j % 8) in
    rw (inside, bit_and_seven i, p)
      (elim (ℕ_discrete (i / 8) (j / 8)) [
        | no other ↦ rw (get_or-set_ne a.selective (i / 8) (j / 8) new 0 other) (ground arith)
        | yes same ↦
            rw (← same, get_or-set_self a.selective (i / 8) new 0 (omega (arith, h)), digit)
              (elim (ℕ_discrete (i % 8) (j % 8)) [
                | yes e ↦
                    rw (e, bit-pow_self (j % 8)) (let ij : i ≡ j = omega arith in ground arith)
                | no ne ↦
                    rw (bit-pow_ne (i % 8) (j % 8) ne)
                      (let ij : i ≢ j = λ q. ne (ap (λ t. t % 8) q) in ground arith)
              ])
      ])

-- Marking a hole reports that hole, where the bitmap has a bit for it, and changes the report of
-- no other one; the bitmap keeps its size.
pub hole_received-mark_hole :
    (a : UdpAck) (i j : ℕ)
    → IsBitmap a
    → IsBitmap (mark_hole a i)
      × (hole_received (mark_hole a i) j ≡ (hole_received a j || ((i == j) && ltb i 256)))
hole_received-mark_hole a i j h = (
  mark_hole-IsBitmap a i h,
  rw (hole_received-hole_bit (mark_hole a i) j, hole_received-hole_bit a j)
      (elim (Bool-cases (ltb i 256)) [
        | inr out ↦ unfold mark_hole in rw out (ground (arith, out))
        | inl i_in ↦ elim (Bool-cases (ltb j 256)) [
          | inr out ↦ rw out (ground (arith, out, i_in))
          | inl j_in ↦
              let e = mark_hole-hole_bit a i j h (ltb→lt i 256 i_in) (ltb→lt j 256 j_in) in
              rw (j_in, i_in, e) (digits (hole_bit a j) (i == j) (hole_bit-le-one a j))
        ]
      ]),
)
  where
    digits :
        (b : ℕ) (same : Bool)
        → b ≤ 1
        → (max b (if same then 1 else 0) == 1) ≡ ((b == 1) || (same && true))
    digits b true h = ground arith
    digits b false h = ground arith

    mark_hole-IsBitmap : (a : UdpAck) (i : ℕ) → IsBitmap a → IsBitmap (mark_hole a i)
    mark_hole-IsBitmap a i h =
        unfold mark_hole in
        let byte =
          bit_or (get_or a.selective (shr i 3) 0) (shl 32 1 (bit_and i 7) % 2 ^ 8) % 2 ^ 8 in
        ground (arith, length-set a.selective (shr i 3) byte)
