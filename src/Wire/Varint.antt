-- ===== src/Wire/Varint.antt =====
-- lib/plexus-wire/include/plexus/wire/varint.h: LEB128 numbers of at most 64 bits.
pub mod Encode
pub mod Decode
use plexus.Common.{
  ℕ, zero, suc, ◌+◌, ◌-◌, ◌*◌, ◌/◌, ◌%◌, ◌^◌, ◌<◌, Bool, true, false, bit_and, bit_or, arith,
}
use plexus.Common.{
  List, [], ◌∷◌, ◌++◌, Option, none, some, length, get_or, ltb, leb, ◌==◌, ◌&&◌, if◌then◌else◌,
}
use plexus.Common.Order.{lt_wf}
use plexus.Wire.ByteOrder.{shl, shr}
use mathlib.Core.Logic.{dite}
use mathlib.Core.WellFounded.{Acc}
use native.Mathlib.Decide.{dec_lt}

abbrev pub k_max_varint_bytes : ℕ
k_max_varint_bytes = 10

pub shr-lt : (v : ℕ) → 0 < shr v 7 → shr v 7 < v
shr-lt v h = omega arith

-- The byte of one round: the low seven bits of `v`, and the continuation bit if more follows.
unfoldable pub round_byte : ℕ → ℕ
round_byte v = let byte = bit_and v 0x7F in if ltb 0 (shr v 7) then bit_or byte 0x80 else byte

-- The do-while loop: it goes on while the shifted value is not 0.
unfoldable pub write_loop : List ℕ → (v : ℕ) → Acc ◌<◌ v → List ℕ
write_loop out v (Acc.intro _ smaller) =
    dite (dec_lt 0 (shr v 7))
      (λ more. write_loop (out ++ (round_byte v ∷ [])) (shr v 7) (smaller _ (shr-lt v more)))
      (λ _. out ++ (round_byte v ∷ []))

unfoldable pub write_varint : List ℕ → ℕ → List ℕ
write_varint out value = write_loop out value (lt_wf.apply value)

unfoldable pub size_loop : ℕ → (v : ℕ) → Acc ◌<◌ v → ℕ
size_loop bytes v (Acc.intro _ smaller) =
    dite (dec_lt 0 (shr v 7)) (λ more. size_loop (bytes + 1) (shr v 7) (smaller _ (shr-lt v more)))
      (λ _. bytes)

unfoldable pub varint_size : ℕ → ℕ
varint_size value = size_loop 1 value (lt_wf.apply value)

-- `varint_step`: whether the number ends with this byte, the value so far, and the overflow mark.
pub record VarintStep : Type 0 where
  pub done : Bool
  pub value : ℕ
  pub overflow : Bool

unfoldable pub varint_step : ℕ → ℕ → ℕ → VarintStep
varint_step byte i value =
    let payload = bit_and byte 0x7F in
    if i == k_max_varint_bytes - 1 && ltb 0x01 payload
    then record { done = true; value = value; overflow = true }
    else record {
      done = bit_and byte 0x80 == 0;
      value = bit_or value (shl 64 payload (7 * i));
      overflow = false;
    }

-- The loop over `i`, which ends after `rounds` more bytes.
unfoldable pub read_loop : ℕ → List ℕ → ℕ → ℕ → ℕ → Option (ℕ × ℕ)
read_loop zero bytes i offset value = none
read_loop (suc rounds) bytes i offset value =
    let step = varint_step (get_or bytes offset 0) i value in
    let next = read_loop rounds bytes (suc i) (suc offset) step.value in
    if leb (length bytes) offset
    then none
    else if step.done
    then if step.overflow then none else some (step.value, suc offset)
    else next

-- The value with the new `consumed`. On `none` the caller's `consumed` stays as it was.
unfoldable pub read_varint : List ℕ → ℕ → Option (ℕ × ℕ)
read_varint bytes consumed =
    if ltb (length bytes) consumed then none else read_loop k_max_varint_bytes bytes 0 consumed 0
