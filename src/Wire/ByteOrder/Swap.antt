-- ===== src/Wire/ByteOrder/Swap.antt =====
-- `byteswap` reverses the bytes of a word, so a host of either order writes and reads big-endian.
use plexus.Common.{◌≤◌, ℕ, zero, suc, ◌+◌, ◌*◌, ◌/◌, ◌%◌, ◌^◌, ◌<◌, ◌≡◌, refl, sym, ap, ◌∙◌, arith}
use plexus.Common.{List, [], ◌∷◌, ◌++◌, length, All, bit_and, bit_or}
use plexus.Common.Bits.{bit_or_shifted, bit_and_shifted, bit_and_xff}
use plexus.Wire.ByteOrder.{Endian, little, big, IsByte, le_bytes, be_bytes, le_value, be_value}
use plexus.Wire.ByteOrder.{to_memory, from_memory, byteswap16, byteswap32, byteswap64}
use plexus.Wire.ByteOrder.{write_u8, read_u8}
use plexus.Wire.ByteOrder.{write_u16, write_u32, write_u64, read_u16, read_u32, read_u64}

-- One byte of a number, moved up by `k` places.
masked : (k a : ℕ) → bit_and a (255 * 2 ^ k) ≡ a / 2 ^ k % 256 * 2 ^ k
masked k a = bit_and_shifted k a 255 ∙ ap (λ (t : ℕ). t * 2 ^ k) (bit_and_xff (a / 2 ^ k))

-- One more byte `x`, `b` at place `k`, put above the sum `s` that is already there.
or_byte : (k acc x s b : ℕ) → acc ≡ s → s < 2 ^ k → x ≡ b * 2 ^ k → bit_or acc x ≡ s + b * 2 ^ k
or_byte k acc x s b p h q = rw (p, q) (bit_or_shifted k s b h)

byteswap16_lem : (v : ℕ) → v < 2 ^ 16 → byteswap16 v ≡ v / 256 + 256 * (v % 256)
unfolding byteswap16
byteswap16_lem v h =
    omega (arith, or_byte 8 (v / 2 ^ 8) (v * 2 ^ 8 % 2 ^ 32) _ v refl (omega arith) (omega arith))

byteswap32_lem :
    (v : ℕ)
    → v < 2 ^ 32
    → byteswap32 v
      ≡ v / 2 ^ 24 + v / 2 ^ 16 % 256 * 2 ^ 8 + v / 2 ^ 8 % 256 * 2 ^ 16 + v % 256 * 2 ^ 24
unfolding byteswap32
byteswap32_lem v h =
    let x1 = masked 8 (v / 2 ^ 8) in
    let x2 = masked 16 (v * 2 ^ 8 % 2 ^ 32) in
    let p1 =
      or_byte 8 (v / 2 ^ 24) (bit_and (v / 2 ^ 8) 0xFF00) (v / 2 ^ 24) (v / 2 ^ 16 % 256) refl
        (omega arith) (omega (arith, x1)) in
    let p2 =
      or_byte 16 _ (bit_and (v * 2 ^ 8 % 2 ^ 32) 0xFF0000) _ (v / 2 ^ 8 % 256) p1 (omega arith)
        (omega (arith, x2)) in
    or_byte 24 _ (v * 2 ^ 24 % 2 ^ 32) _ (v % 256) p2 (omega arith) (omega arith)

byteswap64_lem :
    (v : ℕ)
    → v < 2 ^ 64
    → byteswap64 v
      ≡ v / 2 ^ 56
        + v / 2 ^ 48 % 256 * 2 ^ 8
        + v / 2 ^ 40 % 256 * 2 ^ 16
        + v / 2 ^ 32 % 256 * 2 ^ 24
        + v / 2 ^ 24 % 256 * 2 ^ 32
        + v / 2 ^ 16 % 256 * 2 ^ 40
        + v / 2 ^ 8 % 256 * 2 ^ 48
        + v % 256 * 2 ^ 56
unfolding byteswap64
byteswap64_lem v h =
    let x1 = masked 8 (v / 2 ^ 40) in
    let x2 = masked 16 (v / 2 ^ 24) in
    let x3 = masked 24 (v / 2 ^ 8) in
    let x4 = masked 32 (v * 2 ^ 8 % 2 ^ 64) in
    let x5 = masked 40 (v * 2 ^ 24 % 2 ^ 64) in
    let x6 = masked 48 (v * 2 ^ 40 % 2 ^ 64) in
    let p1 =
      or_byte 8 (v / 2 ^ 56) (bit_and (v / 2 ^ 40) 0xFF00) _ (v / 2 ^ 48 % 256) refl (omega arith)
        (omega (arith, x1)) in
    let p2 =
      or_byte 16 _ (bit_and (v / 2 ^ 24) 0xFF0000) _ (v / 2 ^ 40 % 256) p1 (omega arith)
        (omega (arith, x2)) in
    let p3 =
      or_byte 24 _ (bit_and (v / 2 ^ 8) 0xFF000000) _ (v / 2 ^ 32 % 256) p2 (omega arith)
        (omega (arith, x3)) in
    let p4 =
      or_byte 32 _ (bit_and (v * 2 ^ 8 % 2 ^ 64) 0xFF00000000) _ (v / 2 ^ 24 % 256) p3 (omega arith)
        (omega (arith, x4)) in
    let p5 =
      or_byte 40 _ (bit_and (v * 2 ^ 24 % 2 ^ 64) 0xFF0000000000) _ (v / 2 ^ 16 % 256) p4
        (omega arith) (omega (arith, x5)) in
    let p6 =
      or_byte 48 _ (bit_and (v * 2 ^ 40 % 2 ^ 64) 0xFF000000000000) _ (v / 2 ^ 8 % 256) p5
        (omega arith) (omega (arith, x6)) in
    or_byte 56 _ (v * 2 ^ 56 % 2 ^ 64) _ (v % 256) p6 (omega arith) (omega arith)

pub write_u16-be_bytes : (host : Endian) (v : ℕ) → v < 2 ^ 16 → write_u16 host v ≡ be_bytes 2 v
unfolding write_u16 to_memory le_bytes be_bytes
write_u16-be_bytes big v h = refl
write_u16-be_bytes little v h = ground (arith, byteswap16_lem v h)

pub write_u32-be_bytes : (host : Endian) (v : ℕ) → v < 2 ^ 32 → write_u32 host v ≡ be_bytes 4 v
unfolding write_u32 to_memory le_bytes be_bytes
write_u32-be_bytes big v h = refl
write_u32-be_bytes little v h = ground (arith, byteswap32_lem v h)

pub write_u64-be_bytes : (host : Endian) (v : ℕ) → v < 2 ^ 64 → write_u64 host v ≡ be_bytes 8 v
unfolding write_u64 to_memory le_bytes be_bytes
write_u64-be_bytes big v h = refl
write_u64-be_bytes little v h = ground (arith, byteswap64_lem v h)

pub read_u16-be_bytes :
    (host : Endian) (v : ℕ) (rest : List ℕ) → v < 2 ^ 16 → read_u16 host (be_bytes 2 v ++ rest) ≡ v
unfolding read_u16 from_memory le_value be_value be_bytes
read_u16-be_bytes big v rest h = omega arith
read_u16-be_bytes little v rest h =
    omega (arith, byteswap16_lem (le_value (be_bytes 2 v)) (omega arith))

pub read_u32-be_bytes :
    (host : Endian) (v : ℕ) (rest : List ℕ) → v < 2 ^ 32 → read_u32 host (be_bytes 4 v ++ rest) ≡ v
unfolding read_u32 from_memory le_value be_value be_bytes
read_u32-be_bytes big v rest h = omega arith
read_u32-be_bytes little v rest h =
    omega (arith, byteswap32_lem (le_value (be_bytes 4 v)) (omega arith))

pub read_u64-be_bytes :
    (host : Endian) (v : ℕ) (rest : List ℕ) → v < 2 ^ 64 → read_u64 host (be_bytes 8 v ++ rest) ≡ v
unfolding read_u64 from_memory le_value be_value be_bytes
read_u64-be_bytes big v rest h = omega arith
read_u64-be_bytes little v rest h =
    omega (arith, byteswap64_lem (le_value (be_bytes 8 v)) (omega arith))

pub length-be_bytes : (n v : ℕ) → length (be_bytes n v) ≡ n
unfolding be_bytes
length-be_bytes zero v = refl
length-be_bytes (suc n) v = ap suc (length-be_bytes n v)

pub be_bytes-IsByte : (n v : ℕ) → All IsByte (be_bytes n v)
unfolding be_bytes
be_bytes-IsByte zero v = tt
be_bytes-IsByte (suc n) v = (omega arith, be_bytes-IsByte n v)

pub write_u8-be_bytes : (v : ℕ) → v < 256 → write_u8 v ≡ be_bytes 1 v
unfolding be_bytes
write_u8-be_bytes v h = ground arith

pub read_u8-be_bytes : (v : ℕ) (rest : List ℕ) → v < 256 → read_u8 (be_bytes 1 v ++ rest) ≡ v
unfolding be_bytes
read_u8-be_bytes v rest h = omega arith

be_bytes_of_bytes :
    (a b c d e f g h : ℕ)
    → All IsByte (a ∷ b ∷ c ∷ d ∷ e ∷ f ∷ g ∷ h ∷ [])
    → (v : ℕ) × (v < 2 ^ 64) × (be_bytes 8 v ≡ a ∷ b ∷ c ∷ d ∷ e ∷ f ∷ g ∷ h ∷ [])
unfolding be_bytes be_value
be_bytes_of_bytes a b c d e f g h p =
    (be_value (a ∷ b ∷ c ∷ d ∷ e ∷ f ∷ g ∷ h ∷ []), omega arith, ground arith)

-- Eight bytes at the front of an input are the encoding of a number of 64 bits.
pub split_u64 :
    (xs : List ℕ)
    → All IsByte xs
    → 8 ≤ length xs
    → (v : ℕ) × (rest : List ℕ) × (v < 2 ^ 64) × (xs ≡ be_bytes 8 v ++ rest) × All IsByte rest
split_u64 (a ∷ b ∷ c ∷ d ∷ e ∷ f ∷ g ∷ h ∷ rest) (pa, (pb, (pc, (pd, (pe, (pf, (pg, (ph, pr))))))))
      n =
    let (v, fits, same) =
      be_bytes_of_bytes a b c d e f g h (pa, (pb, (pc, (pd, (pe, (pf, (pg, (ph, tt)))))))) in
    (v, rest, fits, ap (λ t. t ++ rest) (sym same), pr)
split_u64 _ p n = absurd (omega arith)

-- What a host of either byte order writes, a host of either byte order reads back, in each width.
pub read-write :
    (host host' : Endian) (v16 v32 v64 : ℕ) (rest : List ℕ)
    → v16 < 2 ^ 16
    → v32 < 2 ^ 32
    → v64 < 2 ^ 64
    → (read_u16 host' (write_u16 host v16 ++ rest) ≡ v16)
      × (read_u32 host' (write_u32 host v32 ++ rest) ≡ v32)
      × (read_u64 host' (write_u64 host v64 ++ rest) ≡ v64)
read-write host host' v16 v32 v64 rest a b c = (
  rw (write_u16-be_bytes host v16 a) (read_u16-be_bytes host' v16 rest a),
  rw (write_u32-be_bytes host v32 b) (read_u32-be_bytes host' v32 rest b),
  rw (write_u64-be_bytes host v64 c) (read_u64-be_bytes host' v64 rest c),
)
