-- ===== src/Wire/Reader.antt =====
-- lib/plexus-wire/include/plexus/wire/reader.h: the field reader over an untrusted span. A read
-- returns its value with the reader's new state.
pub mod Take
use plexus.Common.{ℕ, ◌+◌, ◌-◌, Bool, true, false, not, ◌||◌, Option, none, some}
use plexus.Common.{List, [], length, take, drop, ltb, if◌then◌else◌}
use plexus.Wire.ByteOrder.{Endian, read_u8, read_u16, read_u32, read_u64}
use plexus.Wire.Varint.{read_varint}
use plexus.Wire.LengthPrefixed.{Width, read_length_prefixed}

pub record Reader : Type 0 where
  pub input : List ℕ
  pub offset : ℕ
  pub ok : Bool

unfoldable pub reader : List ℕ → Reader
reader input = record { input = input; offset = 0; ok = true }

unfoldable pub remaining : Reader → ℕ
remaining r = length r.input - r.offset

-- `take` of the source: whether `width` more bytes are there, and the reader past them.
unfoldable pub take_width : ℕ → Reader → Bool × Reader
unfolding remaining
take_width width r =
    if not r.ok || ltb (remaining r) width
    then (false, record r { ok = false })
    else (true, record r { offset = r.offset + width })

-- A fixed-width field, read at the place that `take_width` has stepped over.
unfoldable pub field : ℕ → (List ℕ → ℕ) → Reader → ℕ × Reader
unfolding take_width
field width read r =
    let (taken, r') = take_width width r in
    if taken then (read (drop (r'.offset - width) r'.input), r') else (0, r')

abbrev pub u8 : Reader → ℕ × Reader
u8 r = field 1 read_u8 r

abbrev pub u16 : Endian → Reader → ℕ × Reader
u16 host r = field 2 (read_u16 host) r

abbrev pub u32 : Endian → Reader → ℕ × Reader
u32 host r = field 4 (read_u32 host) r

abbrev pub u64 : Endian → Reader → ℕ × Reader
u64 host r = field 8 (read_u64 host) r

unfoldable pub bytes : ℕ → Reader → List ℕ × Reader
unfolding take_width
bytes n r =
    let (taken, r') = take_width n r in
    if taken then (take n (drop (r'.offset - n) r'.input), r') else ([], r')

-- The target keeps its bytes where the read fails.
unfoldable pub copy_to : List ℕ → ℕ → Reader → List ℕ × Reader
unfolding bytes
copy_to dst n r = let (view, r') = bytes n r in (if r'.ok then view else dst, r')

unfoldable pub varint : Reader → Option ℕ × Reader
varint r = if not r.ok then (none, r) else elim (read_varint r.input r.offset) [
  | none ↦ (none, record r { ok = false })
  | some (value, consumed) ↦ (some value, record r { offset = consumed })
]

unfoldable pub length_prefixed : Endian → Width → ℕ → Reader → List ℕ × Reader
length_prefixed host w element_size r =
    if not r.ok then ([], r) else elim (read_length_prefixed host w r.input r.offset element_size) [
      | none ↦ ([], record r { ok = false })
      | some (payload, consumed) ↦ (payload, record r { offset = consumed })
    ]

unfoldable pub rest : Reader → List ℕ
rest r = drop r.offset r.input
