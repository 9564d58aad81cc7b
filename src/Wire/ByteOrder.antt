-- ===== src/Wire/ByteOrder.antt =====
-- lib/plexus-wire/include/plexus/wire/byte_order.h. A `std::byte` is a number below 256 and a
-- word a number below 2^w. What `memcpy` shows of a word is its bytes in the host's order.
pub mod Swap
use plexus.Common.{ℕ, zero, suc, ◌+◌, ◌*◌, ◌/◌, ◌%◌, ◌^◌, ◌<◌, List, [], ◌∷◌, take}
use plexus.Common.{bit_and, bit_or}

-- `std::endian::native`.
pub data Endian : Type 0 where
  little big : Endian

abbrev pub IsByte : ℕ → Type 0
IsByte b = b < 256

abbrev pub shr : ℕ → ℕ → ℕ
shr v k = v / 2 ^ k

-- A left shift in a word of `w` bits.
abbrev pub shl : ℕ → ℕ → ℕ → ℕ
shl w v k = v * 2 ^ k % 2 ^ w

-- The low `n` bytes of a number, lowest first and highest first.
unfoldable pub le_bytes : ℕ → ℕ → List ℕ
le_bytes zero v = []
le_bytes (suc n) v = v % 256 ∷ le_bytes n (v / 256)

unfoldable pub be_bytes : ℕ → ℕ → List ℕ
be_bytes zero v = []
be_bytes (suc n) v = v / 256 ^ n % 256 ∷ be_bytes n v

unfoldable pub le_value : List ℕ → ℕ
le_value [] = 0
le_value (b ∷ bs) = b + 256 * le_value bs

unfoldable pub be_from : ℕ → List ℕ → ℕ
be_from acc [] = acc
be_from acc (b ∷ bs) = be_from (acc * 256 + b) bs

unfoldable pub be_value : List ℕ → ℕ
unfolding be_from
be_value bs = be_from 0 bs

-- `memcpy` out of and into a word of `n` bytes.
unfoldable pub to_memory : Endian → ℕ → ℕ → List ℕ
to_memory little n v = le_bytes n v
to_memory big n v = be_bytes n v

unfoldable pub from_memory : Endian → List ℕ → ℕ
from_memory little bs = le_value bs
from_memory big bs = be_value bs

unfoldable pub byteswap16 : ℕ → ℕ
byteswap16 v = bit_or (shr v 8) (shl 32 v 8) % 2 ^ 16

unfoldable pub byteswap32 : ℕ → ℕ
byteswap32 v =
    bit_or
      (bit_or (bit_or (shr v 24) (bit_and (shr v 8) 0x0000FF00)) (bit_and (shl 32 v 8) 0x00FF0000))
      (shl 32 v 24)

unfoldable pub byteswap64 : ℕ → ℕ
byteswap64 v =
    let a = bit_or (shr v 56) (bit_and (shr v 40) 0x000000000000FF00) in
    let b = bit_or a (bit_and (shr v 24) 0x0000000000FF0000) in
    let c = bit_or b (bit_and (shr v 8) 0x00000000FF000000) in
    let d = bit_or c (bit_and (shl 64 v 8) 0x000000FF00000000) in
    let e = bit_or d (bit_and (shl 64 v 24) 0x0000FF0000000000) in
    let f = bit_or e (bit_and (shl 64 v 40) 0x00FF000000000000) in bit_or f (shl 64 v 56)

-- `if constexpr (std::endian::native == std::endian::little) val = byteswap(val);`
abbrev swap_if_little : Endian → (ℕ → ℕ) → ℕ → ℕ
swap_if_little little swap v = swap v
swap_if_little big swap v = v

abbrev pub write_u8 : ℕ → List ℕ
write_u8 v = v ∷ []

abbrev pub read_u8 : List ℕ → ℕ
read_u8 [] = 0
read_u8 (b ∷ bs) = b

unfoldable pub write_u16 : Endian → ℕ → List ℕ
write_u16 host v = to_memory host 2 (swap_if_little host byteswap16 v)

unfoldable pub read_u16 : Endian → List ℕ → ℕ
read_u16 host src = swap_if_little host byteswap16 (from_memory host (take 2 src))

unfoldable pub write_u32 : Endian → ℕ → List ℕ
write_u32 host v = to_memory host 4 (swap_if_little host byteswap32 v)

unfoldable pub read_u32 : Endian → List ℕ → ℕ
read_u32 host src = swap_if_little host byteswap32 (from_memory host (take 4 src))

unfoldable pub write_u64 : Endian → ℕ → List ℕ
write_u64 host v = to_memory host 8 (swap_if_little host byteswap64 v)

unfoldable pub read_u64 : Endian → List ℕ → ℕ
read_u64 host src = swap_if_little host byteswap64 (from_memory host (take 8 src))
