-- ===== src/Wire/UdpDedupWindow.antt =====
-- lib/plexus-wire/include/plexus/wire/udp_dedup_window.h: the anti-replay window over a 16-bit
-- sequence number.
pub mod Exact
pub mod Once
use plexus.Common.{
  ℕ, ◌+◌, ◌-◌, ◌*◌, ◌%◌, ◌^◌, ◌<◌, min, max, Bool, true, false, not, ◌&&◌, ltb, leb, ◌==◌,
  if◌then◌else◌,
}
use plexus.Common.{bit_and, bit_or}

abbrev depth_max : ℕ
depth_max = 32

abbrev half_space : ℕ
half_space = 32768

pub data Outcome : Type 0 where
  fresh duplicate too_old : Outcome

pub record UdpDedupWindow : Type 0 where
  pub depth : ℕ
  pub high_water : ℕ
  pub bitmap : ℕ

-- `std::clamp(depth, 1, depth_max)`.
unfoldable pub udp_dedup_window : ℕ → UdpDedupWindow
udp_dedup_window depth = record { depth = max 1 (min depth depth_max); high_water = 0; bitmap = 0 }

-- `static_cast<seq_t>(a - b)` of two numbers of 16 bits.
abbrev pub seq_distance : ℕ → ℕ → ℕ
seq_distance a b = (a + 65536 - b) % 65536

unfoldable pub advance_to : ℕ → ℕ → UdpDedupWindow → UdpDedupWindow × Outcome
advance_to seq adv m =
    let shifted = if leb 64 adv then 0 else (m.bitmap * 2 ^ adv) % 2 ^ 64 in
    (record m { bitmap = bit_or shifted 1; high_water = seq }, fresh)

unfoldable pub admit : ℕ → UdpDedupWindow → UdpDedupWindow × Outcome
admit seq m =
    let adv = seq_distance seq m.high_water in
    if not (adv == 0) && ltb adv half_space
    then advance_to seq adv m
    else let delta = seq_distance m.high_water seq in
      if leb m.depth delta
      then (m, too_old)
      else let mask = 2 ^ delta % 2 ^ 64 in
        if not (bit_and m.bitmap mask == 0)
        then (m, duplicate)
        else (record m { bitmap = bit_or m.bitmap mask }, fresh)

unfoldable pub reset : UdpDedupWindow → UdpDedupWindow
reset m = record m { high_water = 0; bitmap = 0 }
