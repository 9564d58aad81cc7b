-- ===== src/Wire/Crc32c.antt =====
-- lib/plexus-wire/include/plexus/wire/crc32c.h: the checksum by table. A word of 32 bits is a number
-- below 2^32.
pub mod Bitwise
use plexus.Common.{
  ℕ, zero, suc, ◌+◌, ◌-◌, ◌%◌, ◌^◌, ◌<◌, ◌≡◌, refl, sym, ap, ◌∙◌, arith, ◌==◌, if◌then◌else◌,
  bit_and, bit_xor,
}
use plexus.Common.{List, [], ◌∷◌, ◌++◌, get_or}
use plexus.Wire.ByteOrder.{shr}

abbrev pub k_crc32c_poly_reflected : ℕ
k_crc32c_poly_reflected = 0x82F63B78

-- The inner loop of `build_crc32c_table`, `k` rounds of it.
unfoldable pub table_rounds : ℕ → ℕ → ℕ
table_rounds zero c = c
table_rounds (suc k) c =
    table_rounds k
      (if bit_and c 1 == 0 then shr c 1 else bit_xor k_crc32c_poly_reflected (shr c 1) % 2 ^ 32)

-- The outer loop, from entry `n` on.
unfoldable pub build_crc32c_table : ℕ → ℕ → List ℕ
build_crc32c_table zero n = []
build_crc32c_table (suc count) n = table_rounds 8 n ∷ build_crc32c_table count (n + 1)

unfoldable pub k_crc32c_table : List ℕ
k_crc32c_table = build_crc32c_table 256 0

-- `~word`.
abbrev pub complement : ℕ → ℕ
complement word = 2 ^ 32 - 1 - word

unfoldable pub crc_round : ℕ → ℕ → ℕ
crc_round crc b =
    let index = bit_xor crc b % 2 ^ 8 in
    bit_xor (get_or k_crc32c_table index 0) (shr crc 8) % 2 ^ 32

unfoldable pub crc_loop : ℕ → List ℕ → ℕ
crc_loop crc [] = crc
crc_loop crc (b ∷ bs) = crc_loop (crc_round crc b) bs

unfoldable pub crc32c : List ℕ → ℕ → ℕ
crc32c bytes seed = complement (crc_loop (complement seed) bytes)
