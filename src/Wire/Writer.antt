-- ===== src/Wire/Writer.antt =====
-- lib/plexus-wire/include/plexus/wire/writer.h: the big-endian field writer, which fills a region
-- of fixed size at a cursor and never grows it.
pub mod Fill
use plexus.Common.{ℕ, zero, suc, ◌+◌, ◌-◌, ◌*◌, ◌<◌, Bool, true, false, Option, none, some}
use plexus.Common.{List, [], ◌∷◌, ◌++◌, length, take, replicate, leb, if◌then◌else◌, ◌>>=◌}
use plexus.Common.Order.{lt_wf}
use plexus.Wire.ByteOrder.{Endian, shr, write_u8, write_u16, write_u32, write_u64}
use plexus.Wire.Varint.{round_byte, shr-lt}
use mathlib.Core.Logic.{dite}
use mathlib.Core.WellFounded.{Acc}
use native.Mathlib.Decide.{dec_lt}

pub record Writer : Type 0 where
  pub region : List ℕ
  pub offset : ℕ

unfoldable pub writer : List ℕ → Writer
writer region = record { region = region; offset = 0 }

-- `std::vector::resize`: the kept prefix, then zeros.
unfoldable pub resize : ℕ → List ℕ → List ℕ
resize n out = take n out ++ replicate (n - length out) 0

-- The bytes `bs` put over those from place `i` on.
unfoldable pub overwrite : List ℕ → ℕ → List ℕ → List ℕ
overwrite [] i bs = []
overwrite (x ∷ xs) zero [] = x ∷ xs
overwrite (x ∷ xs) zero (b ∷ bs) = b ∷ overwrite xs zero bs
overwrite (x ∷ xs) (suc i) bs = x ∷ overwrite xs i bs

-- `std::memcpy` to the cursor, which it moves. `none` is a write past the end of the region, which
-- the source does not test.
unfoldable pub bytes : List ℕ → Writer → Option Writer
unfolding overwrite
bytes blob w =
    if leb (w.offset + length blob) (length w.region)
    then some
        (record { region = overwrite w.region w.offset blob; offset = w.offset + length blob })
    else none

abbrev pub u8 : ℕ → Writer → Option Writer
u8 v w = bytes (write_u8 v) w

abbrev pub u16 : Endian → ℕ → Writer → Option Writer
u16 host v w = bytes (write_u16 host v) w

abbrev pub u32 : Endian → ℕ → Writer → Option Writer
u32 host v w = bytes (write_u32 host v) w

abbrev pub u64 : Endian → ℕ → Writer → Option Writer
u64 host v w = bytes (write_u64 host v) w

-- The do-while loop over the region; the byte of a round is that of `write_varint`.
varint_loop : (v : ℕ) → Acc ◌<◌ v → Writer → Option Writer
varint_loop v (Acc.intro _ smaller) w =
    dite (dec_lt 0 (shr v 7))
      (λ more. bytes (round_byte v ∷ []) w >>= varint_loop (shr v 7) (smaller _ (shr-lt v more)))
      (λ _. bytes (round_byte v ∷ []) w)

pub varint : ℕ → Writer → Option Writer
varint value w = varint_loop value (lt_wf.apply value) w
