-- ===== src/Wire/Varint/Decode.antt =====
-- `read_varint` on any input, and on what `write_varint` wrote.
use plexus.Common.{append_assoc, drop-append, length-append}
use plexus.Common.{
  ℕ, zero, suc, ◌+◌, ◌*◌, ◌/◌, ◌%◌, ◌^◌, ◌<◌, ◌≤◌, ◌≡◌, ◌∙◌, ap, refl, arith, true, false,
}
use plexus.Common.{
  List, [], ◌∷◌, ◌++◌, some, length, length-append, length-drop, drop, drop_cons, get_or,
}
use plexus.Common.Bits.{bit_and_x7f, bit_and_x80, bit_or_shifted}
use plexus.Wire.Varint.{varint_step, read_loop, read_varint}
use plexus.Wire.Varint.{write_varint}
use plexus.Wire.Varint.Encode.{write_varint-leb128, leb128, length-leb128, leb128_last, leb128_more}
use plexus.Common.{◌⊎◌, inl, inr, ◌==◌}
use mathlib.Core.Logic.{◌≢◌}
use native.Mathlib.Nat.{pow-le-pow_right, div-add-mod}
use native.Mathlib.Numerals.{towards_suc}

pow_seven : (i : ℕ) → 2 ^ (7 * suc i) ≡ 128 * 2 ^ (7 * i)
pow_seven i = let e : 7 * suc i ≡ 7 * i + 7 = omega arith in rw e (simp towards_suc (omega arith))

early_or_last : (i : ℕ) → i ≤ 9 → (i ≤ 8) ⊎ (i ≡ 9)
early_or_last i h = ground arith

-- The bits of a round stay within a word: the tenth round has room for one.
shift_fits : (p i : ℕ) → p < 128 → i ≤ 9 → (i ≡ 9 → p ≤ 1) → p * 2 ^ (7 * i) < 2 ^ 64
shift_fits p i hp early top = elim (early_or_last i early) [
  | inl below ↦
      grind (arith, pow-le-pow_right {n = 2} (omega arith) {i = 7 * i} {j = 56} (omega arith))
  | inr e ↦ rw e (let q : p ≤ 1 = top e in omega arith)
]

module _ (b i value : ℕ) (low : value < 2 ^ (7 * i)) (early : i ≤ 9) where
  -- A round without overflow adds its seven bits above the bits so far.
  step_adds :
      (i ≡ 9 → b % 128 ≤ 1)
      → ((varint_step b i value).value ≡ value + b % 128 * 2 ^ (7 * i))
        × ((varint_step b i value).overflow ≡ false)
        × ((varint_step b i value).done ≡ (b / 128 % 2 == 0))
  unfolding varint_step
  step_adds top = ground (
    arith,
    bit_and_x7f b,
    bit_and_x80 b,
    shift_fits (b % 128) i (omega arith) early top,
    bit_or_shifted (7 * i) value (b % 128) low,
  )

  -- A tenth byte with a higher bit is an overflow.
  step_overflows :
      i ≡ 9
      → 1 < b % 128
      → ((varint_step b i value).overflow ≡ true) × ((varint_step b i value).done ≡ true)
  unfolding varint_step
  step_overflows e h = ground (arith, bit_and_x7f b)

low_next :
    (i value p : ℕ) → value < 2 ^ (7 * i) → p < 128 → value + p * 2 ^ (7 * i) < 2 ^ (7 * suc i)
low_next i value p h hp = grind (arith, pow_seven i)

top_bit_only : (b i : ℕ) → b * 2 ^ (7 * i) < 2 ^ 64 → i ≡ 9 → b ≤ 1
top_bit_only b i h e = omega (arith, rw e at h)

module _ (k i off value : ℕ) (bytes : List ℕ) (low : value < 2 ^ (7 * i)) (early : i ≤ 9) where
  read_last :
      (b : ℕ) (bs : List ℕ)
      → drop off bytes ≡ b ∷ bs
      → b < 128
      → value + b * 2 ^ (7 * i) < 2 ^ 64
      → read_loop (suc k) bytes i off value ≡ some (value + b * 2 ^ (7 * i), suc off)
  unfolding read_loop
  read_last b bs d hb fits =
      let top : i ≡ 9 → b ≤ 1 = top_bit_only b i (omega arith) in
      ground (
        arith,
        drop_cons off bytes 0 d,
        step_adds b i value low early (λ e. let t = top e in omega arith),
      )

  read_more :
      (g : ℕ) (bs : List ℕ)
      → drop off bytes ≡ (g + 128) ∷ bs
      → g < 128
      → i ≤ 8
      → read_loop (suc k) bytes i off value
        ≡ read_loop k bytes (suc i) (suc off) (value + g * 2 ^ (7 * i))
  unfolding read_loop
  read_more g bs d hg hi =
      let e : (g + 128) % 128 ≡ g = omega arith in
      let (v, o, n) = step_adds (g + 128) i value low early (λ e. absurd (omega arith)) in
      let (inside, at, after) = drop_cons off bytes 0 d in
      let v' : (varint_step (g + 128) i value).value ≡ value + g * 2 ^ (7 * i) =
        v ∙ ap (λ (t : ℕ). value + t * 2 ^ (7 * i)) e in
      let n' : (varint_step (g + 128) i value).done ≡ false = ground (arith, n) in
      rw (at, v', n') (ground arith)

split_round : (v i : ℕ) → v * 2 ^ (7 * i) ≡ v % 128 * 2 ^ (7 * i) + v / 128 * 2 ^ (7 * suc i)
split_round v i = omega (
  arith,
  ap (λ (t : ℕ). t * 2 ^ (7 * i)) (div-add-mod v 128),
  ap (λ (t : ℕ). v / 128 * t) (pow_seven i),
)

lt_or_le : (v : ℕ) → (v < 128) ⊎ (128 ≤ v)
lt_or_le v = omega arith

read_loop-leb128 :
    (k i v off value : ℕ) (bytes rest : List ℕ)
    → i + k ≡ 9
    → drop off bytes ≡ leb128 k v ++ rest
    → v < 128 ^ suc k
    → value < 2 ^ (7 * i)
    → value + v * 2 ^ (7 * i) < 2 ^ 64
    → read_loop (suc k) bytes i off value
      ≡ some (value + v * 2 ^ (7 * i), off + length (leb128 k v))
read_loop-leb128 zero i v off value bytes rest hi d hv low fits = ground (
  arith,
  leb128_last 0 v (omega arith),
  read_last 0 i off value bytes low (omega arith) v rest (rw leb128_last0 at d) (omega arith) fits,
)
  where
    leb128_last0 : leb128 0 v ≡ v ∷ []
    leb128_last0 = leb128_last 0 v (omega arith)
read_loop-leb128 (suc k) i v off value bytes rest hi d hv low fits = elim (lt_or_le v) [
  | inl small ↦ ground (
    arith,
    leb128_last (suc k) v small,
    read_last (suc k) i off value bytes low (omega arith) v rest
        (d ∙ ap (λ t. t ++ rest) (leb128_last (suc k) v small)) small fits,
  )
  | inr large ↦ ground (
    arith,
    leb128_more k v large,
    split_round v i,
    read_more (suc k) i off value bytes low (omega arith) (v % 128) (leb128 k (v / 128) ++ rest)
        (d ∙ ap (λ t. t ++ rest) (leb128_more k v large)) (omega arith) (omega arith),
    read_loop-leb128 k (suc i) (v / 128) (suc off) (value + v % 128 * 2 ^ (7 * i)) bytes rest
        (omega arith) (drop_cons off bytes 0 (d ∙ ap (λ t. t ++ rest) (leb128_more k v large))).2
        (omega arith) (low_next i value (v % 128) low (omega arith))
        (omega (arith, split_round v i)),
  )
]

-- `read_varint` returns the number that was encoded at `consumed`, and stops right behind it.
pub read_varint-leb128 :
    (v consumed : ℕ) (bytes rest : List ℕ)
    → v < 2 ^ 64
    → drop consumed bytes ≡ leb128 9 v ++ rest
    → read_varint bytes consumed ≡ some (v, consumed + length (leb128 9 v))
unfolding read_varint
read_varint-leb128 v consumed bytes rest h d = ground (
  arith,
  ap length d,
  length-drop consumed bytes,
  length-append (leb128 9 v) rest,
  length-leb128 9 v,
  read_loop-leb128 9 0 v consumed 0 bytes rest refl d (omega arith) (omega arith) (omega arith),
)

-- A number so far and the bits of one more round stay below 2 ^ 64.
sum_fits :
    (value p i : ℕ)
    → value < 2 ^ (7 * i)
    → p < 128
    → i ≤ 9
    → (i ≡ 9 → p ≤ 1)
    → value + p * 2 ^ (7 * i) < 2 ^ 64
sum_fits value p i low hp early top = elim (early_or_last i early) [
  | inl below ↦
      grind (arith, pow-le-pow_right {n = 2} (omega arith) {i = 7 * i} {j = 56} (omega arith))
  | inr e ↦ rw e (let q : p ≤ 1 = top e in let l : value < 2 ^ 63 = rw e at low in omega arith)
]

overflow_or_not : (b i : ℕ) → ((i ≡ 9) × (1 < b % 128)) ⊎ (i ≡ 9 → b % 128 ≤ 1)
overflow_or_not b i = elim (compare_cases (b % 128)) [
  | inl small ↦ inr (λ _. small)
  | inr large ↦ elim (nine_cases i) [ inl e ↦ inl (e, large) | inr h ↦ inr (λ e. absurd (h e)) ]
]
  where
    compare_cases : (p : ℕ) → (p ≤ 1) ⊎ (1 < p)
    compare_cases p = omega arith

    nine_cases : (i : ℕ) → (i ≡ 9) ⊎ (i ≢ 9)
    nine_cases i = ground arith

read_loop_takes :
    (rounds i off value : ℕ) (bytes : List ℕ) (v c : ℕ)
    → i + rounds ≡ 10
    → value < 2 ^ (7 * i)
    → read_loop rounds bytes i off value ≡ some (v, c)
    → (v < 2 ^ 64) × (off < c) × (c ≤ length bytes) × (c ≤ off + rounds)
unfolding read_loop
read_loop_takes zero i off value bytes v c hi low e = cc
read_loop_takes (suc rounds) i off value bytes v c hi low e =
    let b = get_or bytes off 0 in
    elim (overflow_or_not b i) [
      | inl (last, large) ↦ absurd (overflowed b last large refl)
      | inr top ↦ ground (
        arith,
        step_adds b i value low (omega arith) top,
        low_next i value (b % 128) low (omega arith),
        sum_fits value (b % 128) i low (omega arith) (omega arith) top,
        read_loop_takes rounds (suc i) (suc off) (varint_step b i value).value bytes v c,
      )
    ]
  where
    overflowed : (b : ℕ) → i ≡ 9 → 1 < b % 128 → get_or bytes off 0 ≡ b → ⊥
    overflowed b last large at =
        ground (arith, at, step_overflows b i value low (omega arith) last large)

-- A number that is read fits 64 bits, and was read from at least one and at most ten bytes, all of
-- them in the input.
pub read_varint_takes :
    (bytes : List ℕ) (consumed v c : ℕ)
    → read_varint bytes consumed ≡ some (v, c)
    → (v < 2 ^ 64) × (consumed < c) × (c ≤ length bytes) × (c ≤ consumed + 10)
unfolding read_varint
read_varint_takes bytes consumed v c e =
    ground (arith, read_loop_takes 10 0 consumed 0 bytes v c refl (omega arith))

-- A 64-bit number that was appended to some bytes is read back from its place, whatever follows,
-- and the position is then the end of what was appended.
pub read_varint-write_varint :
    (v : ℕ) (out rest : List ℕ)
    → v < 2 ^ 64
    → read_varint (write_varint out v ++ rest) (length out) ≡ some (v, length (write_varint out v))
read_varint-write_varint v out rest h =
    let written = write_varint-leb128 v out h in
    let there : drop (length out) ((out ++ leb128 9 v) ++ rest) ≡ leb128 9 v ++ rest =
      ap (drop (length out)) (append_assoc out (leb128 9 v) rest)
      ∙ drop-append out (leb128 9 v ++ rest) in
    rw (written, length-append out (leb128 9 v))
      (read_varint-leb128 v (length out) ((out ++ leb128 9 v) ++ rest) rest h there)
