-- ===== src/Wire/LengthPrefixed.antt =====
-- lib/plexus-wire/include/plexus/wire/length_prefixed.h: the bounds gate for untrusted prefixes.
pub mod Bounds
use plexus.Common.{
  ℕ, zero, suc, ◌+◌, ◌-◌, ◌*◌, ◌/◌, ◌%◌, ◌^◌, Bool, true, false, not, ◌&&◌, Option, none, some,
}
use plexus.Common.{List, length, take, drop, ltb, ◌==◌, if◌then◌else◌}
use plexus.Wire.ByteOrder.{Endian, read_u8, read_u16, read_u32, read_u64}

-- `UIntT`, by its `sizeof`.
pub data Width : Type 0 where
  w8 w16 w32 w64 : Width

abbrev pub size_of : Width → ℕ
size_of w8 = 1
size_of w16 = 2
size_of w32 = 4
size_of w64 = 8

unfoldable pub read_length_value : Endian → Width → List ℕ → ℕ
read_length_value host w8 at = read_u8 at
read_length_value host w16 at = read_u16 host at
read_length_value host w32 at = read_u32 host at
read_length_value host w64 at = read_u64 host at

-- `std::numeric_limits<std::size_t>::max()`.
abbrev pub size_max : ℕ
size_max = 2 ^ 64 - 1

-- The payload with the new `consumed`. The product is one of `std::size_t`, which wraps at 2^64.
unfoldable pub read_length_prefixed : Endian → Width → List ℕ → ℕ → ℕ → Option (List ℕ × ℕ)
read_length_prefixed host w bytes consumed element_size =
    let remaining_after_consumed = length bytes - consumed in
    let length_sz = read_length_value host w (drop consumed bytes) in
    let payload_bytes = (length_sz * element_size) % 2 ^ 64 in
    let after_prefix = remaining_after_consumed - size_of w in
    let payload_offset = consumed + size_of w in
    if ltb (length bytes) consumed
    then none
    else if ltb remaining_after_consumed (size_of w)
    then none
    else if not (element_size == 0) && ltb (size_max / element_size) length_sz
    then none
    else if ltb after_prefix payload_bytes
    then none
    else some (take payload_bytes (drop payload_offset bytes), payload_offset + payload_bytes)
