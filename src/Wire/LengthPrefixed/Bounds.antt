-- ===== src/Wire/LengthPrefixed/Bounds.antt =====
-- Where `read_length_prefixed` succeeds, and what it returns then.
use plexus.Common.{ℕ, ◌∙◌, sym, ◌+◌, ◌*◌, ◌/◌, ◌%◌, ◌^◌, ◌≤◌, ◌<◌, ◌≡◌, ◌++◌, ap, arith, some}
use plexus.Common.{
  List, length, drop, length-drop, length-append, take-append, drop-append, drop-drop,
}
use plexus.Wire.ByteOrder.{Endian, be_bytes}
use plexus.Wire.ByteOrder.Swap.{
  length-be_bytes, read_u8-be_bytes, read_u16-be_bytes, read_u32-be_bytes, read_u64-be_bytes,
}
use native.Mathlib.Nat.{le-div_iff_mul-le, mod-eq_of_lt}
use plexus.Wire.LengthPrefixed.{
  Width, w8, w16, w32, w64, size_of, size_max, read_length_value, read_length_prefixed,
}

read_length_value-be_bytes :
    (host : Endian) (w : Width) (n : ℕ) (rest : List ℕ)
    → n < 256 ^ size_of w
    → read_length_value host w (be_bytes (size_of w) n ++ rest) ≡ n
unfolding read_length_value
read_length_value-be_bytes host w8 n rest h = read_u8-be_bytes n rest h
read_length_value-be_bytes host w16 n rest h = read_u16-be_bytes host n rest h
read_length_value-be_bytes host w32 n rest h = read_u32-be_bytes host n rest h
read_length_value-be_bytes host w64 n rest h = read_u64-be_bytes host n rest h

-- A payload of the declared number of elements, in an input of addressable size, is read back whole
-- by each of the four prefix widths and in either byte order of the host.
pub read_length_prefixed-be_bytes :
    (host : Endian) (w : Width) (bytes : List ℕ) (consumed n element_size : ℕ)
    (payload rest : List ℕ)
    → n < 256 ^ size_of w
    → length payload ≡ n * element_size
    → length bytes ≤ size_max
    → drop consumed bytes ≡ be_bytes (size_of w) n ++ (payload ++ rest)
    → read_length_prefixed host w bytes consumed element_size
      ≡ some (payload, consumed + size_of w + length payload)
unfolding read_length_prefixed
read_length_prefixed-be_bytes host w bytes consumed n element_size payload rest hn hp hb d =
    let k = size_of w in
    ground (
      arith,
      len,
      tail,
      take-append payload rest,
      ap length d,
      length-drop consumed bytes,
      length-append (be_bytes k n) (payload ++ rest),
      length-be_bytes k n,
      length-append payload rest,
      no_overflow,
      exact,
    )
  where
    len : read_length_value host w (drop consumed bytes) ≡ n
    len = rw d (read_length_value-be_bytes host w n (payload ++ rest) hn)

    tail : drop (consumed + size_of w) bytes ≡ payload ++ rest
    tail =
        sym (drop-drop (size_of w) consumed bytes)
        ∙ ap (drop (size_of w)) d
        ∙ ap (λ t. drop t (be_bytes (size_of w) n ++ (payload ++ rest)))
            (sym (length-be_bytes (size_of w) n))
        ∙ drop-append (be_bytes (size_of w) n) (payload ++ rest)

    bounded : n * element_size ≤ size_max
    bounded = omega (
      arith,
      hp,
      hb,
      ap length d,
      length-drop consumed bytes,
      length-append (be_bytes (size_of w) n) (payload ++ rest),
      length-append payload rest,
    )

    exact : (n * element_size) % 2 ^ 64 ≡ n * element_size
    exact = mod-eq_of_lt (omega (arith, bounded))

    no_overflow : 0 < element_size → n ≤ size_max / element_size
    no_overflow pos = (le-div_iff_mul-le pos).1 bounded
