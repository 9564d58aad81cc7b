-- ===== src/Wire/Varint/Encode.antt =====
-- What `write_varint` and `varint_size` compute, against the groups of seven bits of a number.
use plexus.Common.{ℕ, zero, suc, ◌+◌, ◌/◌, ◌%◌, ◌^◌, ◌<◌, ◌≤◌, ◌≡◌, refl, ap, arith, true, false}
use plexus.Common.{List, [], ◌∷◌, ◌++◌, append_assoc, length, length-append, ltb, All}
use plexus.Common.Bits.{bit_and_x7f, bit_or_x80}
use plexus.Wire.ByteOrder.{IsByte}
use plexus.Wire.Varint.{round_byte, write_loop, write_varint, size_loop, varint_size}
use mathlib.Core.WellFounded.{Acc}

-- Seven bits a byte, lowest first, and 128 added to every byte but the last. The count bounds
-- the continuation bytes: `leb128 9` serves every number of 64 bits.
unfoldable pub leb128 : ℕ → ℕ → List ℕ
leb128 zero v = v ∷ []
leb128 (suc k) v = elim (ltb v 128) [ true ↦ v ∷ [] | false ↦ (v % 128 + 128) ∷ leb128 k (v / 128) ]

pub leb128_last : (k v : ℕ) → v < 128 → leb128 k v ≡ v ∷ []
unfolding leb128
leb128_last zero v h = refl
leb128_last (suc k) v h = ground arith

pub leb128_more : (k v : ℕ) → 128 ≤ v → leb128 (suc k) v ≡ (v % 128 + 128) ∷ leb128 k (v / 128)
unfolding leb128
leb128_more k v h = ground arith

pub round_byte_lem :
    (v : ℕ) → (v < 128 → round_byte v ≡ v) × (128 ≤ v → round_byte v ≡ v % 128 + 128)
unfolding round_byte
round_byte_lem v =
    (λ h. ground (arith, bit_and_x7f v), λ h. ground (arith, bit_and_x7f v, bit_or_x80 (v % 128)))

write_loop-leb128 :
    (k v : ℕ) (out : List ℕ) (w : Acc ◌<◌ v)
    → v < 128 ^ suc k
    → write_loop out v w ≡ out ++ leb128 k v
unfolding write_loop leb128
write_loop-leb128 zero v out (Acc.intro _ smaller) h = ground (arith, round_byte_lem v)
write_loop-leb128 (suc k) v out (Acc.intro _ smaller) h = grind (
  arith,
  round_byte_lem v,
  λ (w : Acc ◌<◌ (v / 128)).
      write_loop-leb128 k (v / 128) (out ++ ((v % 128 + 128) ∷ [])) w (omega arith),
  append_assoc out ((v % 128 + 128) ∷ []) (leb128 k (v / 128)),
)

-- `write_varint` keeps what `out` holds and appends the encoding.
pub write_varint-leb128 :
    (v : ℕ) (out : List ℕ) → v < 2 ^ 64 → write_varint out v ≡ out ++ leb128 9 v
unfolding write_varint
write_varint-leb128 v out h = write_loop-leb128 9 v out _ (omega arith)

size_loop-length :
    (k v n : ℕ) (w : Acc ◌<◌ v) → v < 128 ^ suc k → size_loop n v w + 1 ≡ n + length (leb128 k v)
unfolding size_loop leb128
size_loop-length zero v n (Acc.intro _ smaller) h = ground arith
size_loop-length (suc k) v n (Acc.intro _ smaller) h =
    grind (arith, λ (w : Acc ◌<◌ (v / 128)). size_loop-length k (v / 128) (n + 1) w (omega arith))

pub varint_size-length : (v : ℕ) → v < 2 ^ 64 → varint_size v ≡ length (leb128 9 v)
unfolding varint_size
varint_size-length v h = omega (arith, size_loop-length 9 v 1 _ (omega arith))

pub length-leb128 : (k v : ℕ) → (1 ≤ length (leb128 k v)) × (length (leb128 k v) ≤ k + 1)
unfolding leb128
length-leb128 zero v = omega arith
length-leb128 (suc k) v = ground (arith, length-leb128 k (v / 128))

pub leb128-IsByte : (k v : ℕ) → v < 128 ^ suc k → All IsByte (leb128 k v)
unfolding leb128
leb128-IsByte zero v h = omega arith
leb128-IsByte (suc k) v h = ground (arith, leb128-IsByte k (v / 128) (omega arith))

-- The computed size of a 64-bit number is what writing it appends: one to ten bytes.
pub varint_size-write_varint :
    (v : ℕ) (out : List ℕ)
    → v < 2 ^ 64
    → (length (write_varint out v) ≡ length out + varint_size v)
      × (1 ≤ varint_size v)
      × (varint_size v ≤ 10)
varint_size-write_varint v out h = omega (
  arith,
  varint_size-length v h,
  length-leb128 9 v,
  ap length (write_varint-leb128 v out h),
  length-append out (leb128 9 v),
)
