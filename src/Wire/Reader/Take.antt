-- ===== src/Wire/Reader/Take.antt =====
-- Reads on a reader whose unread input is known.
use plexus.Common.{ℕ, ◌+◌, ◌-◌, ◌≤◌, ◌<◌, ◌^◌, ◌≡◌, refl, sym, ap, ◌∙◌, arith, true, false, some}
use plexus.Common.{
  List, [], ◌∷◌, ◌++◌, length, drop, length-drop, length-append, take-append, drop-append,
  drop-drop,
}
use plexus.Wire.ByteOrder.{Endian, be_bytes, read_u8, read_u16, read_u32, read_u64}
use plexus.Wire.ByteOrder.Swap.{
  length-be_bytes, read_u16-be_bytes, read_u32-be_bytes, read_u64-be_bytes,
}
use plexus.Wire.Varint.Encode.{leb128}
use plexus.Wire.Varint.Decode.{read_varint-leb128}
use plexus.Wire.Reader.{
  Reader, reader, remaining, take_width, field, u8, u16, u32, u64, bytes, copy_to, varint, rest,
}

-- The reader has not failed, and `unread` is what it has not read.
pub record At (r : Reader) (unread : List ℕ) : Type 0 where
  pub fine : r.ok ≡ true
  pub inside : r.offset ≤ length r.input
  pub tail : drop r.offset r.input ≡ unread

pub reader-At : (input : List ℕ) → At (reader input) input
unfolding reader
reader-At input = record { fine = refl; inside = omega arith; tail = refl }

pub rest-At : {r : Reader} {unread : List ℕ} → At r unread → rest r ≡ unread
unfolding rest
rest-At a = a.tail

-- Past `n` bytes.
pub step : Reader → ℕ → Reader
step r n = record r { offset = r.offset + n }

pub step-At :
    (r : Reader) (front unread : List ℕ)
    → At r (front ++ unread)
    → At (step r (length front)) unread
unfolding step
step-At r front unread a = record {
  fine = a.fine;
  inside =
      omega (
        arith,
        ap length a.tail,
        length-drop r.offset r.input,
        length-append front unread,
        a.inside,
      );
  tail =
      sym (drop-drop (length front) r.offset r.input)
      ∙ ap (drop (length front)) a.tail
      ∙ drop-append front unread;
}

take_width_lem :
    (r : Reader) (front unread : List ℕ)
    → At r (front ++ unread)
    → take_width (length front) r ≡ (true, step r (length front))
unfolding take_width remaining step
take_width_lem r front unread a =
    ground
      (arith, a.fine, ap length a.tail, length-drop r.offset r.input, length-append front unread)

field_lem :
    (r : Reader) (front unread : List ℕ) (read : List ℕ → ℕ)
    → At r (front ++ unread)
    → field (length front) read r ≡ (read (front ++ unread), step r (length front))
unfolding field step
field_lem r front unread read a =
    rw (take_width_lem r front unread a)
      (let e : r.offset + length front - length front ≡ r.offset = omega arith in rw (e, a.tail))

-- A read yields `value` and leaves `unread`.
abbrev pub Yields {ℓ} : {A : Type ℓ} → A × Reader → A → List ℕ → Type ℓ
Yields result value unread = (r' : Reader) × (result ≡ (value, r')) × At r' unread

be_field :
    (n v : ℕ) (r : Reader) (read : List ℕ → ℕ) (unread : List ℕ)
    → ((more : List ℕ) → read (be_bytes n v ++ more) ≡ v)
    → At r (be_bytes n v ++ unread)
    → Yields (field n read r) v unread
be_field n v r read unread value a = (
  step r (length (be_bytes n v)),
  ap (λ k. field k read r) (sym (length-be_bytes n v))
      ∙ field_lem r (be_bytes n v) unread read a
      ∙ ap (λ t. (t, step r (length (be_bytes n v)))) (value unread),
  step-At r (be_bytes n v) unread a,
)

module _ (host : Endian) (r : Reader) (v : ℕ) (unread : List ℕ) where
  pub u16-At : v < 2 ^ 16 → At r (be_bytes 2 v ++ unread) → Yields (u16 host r) v unread
  u16-At h a = be_field 2 v r (read_u16 host) unread (λ more. read_u16-be_bytes host v more h) a

  pub u32-At : v < 2 ^ 32 → At r (be_bytes 4 v ++ unread) → Yields (u32 host r) v unread
  u32-At h a = be_field 4 v r (read_u32 host) unread (λ more. read_u32-be_bytes host v more h) a

  pub u64-At : v < 2 ^ 64 → At r (be_bytes 8 v ++ unread) → Yields (u64 host r) v unread
  u64-At h a = be_field 8 v r (read_u64 host) unread (λ more. read_u64-be_bytes host v more h) a

module _ (r : Reader) (unread : List ℕ) where
  pub u8-At : (v : ℕ) → At r (v ∷ unread) → Yields (u8 r) v unread
  u8-At v a = (step r 1, field_lem r (v ∷ []) unread read_u8 a, step-At r (v ∷ []) unread a)

  pub bytes-At :
      (front : List ℕ) → At r (front ++ unread) → Yields (bytes (length front) r) front unread
  unfolding bytes step
  bytes-At front a = (
    step r (length front),
    rw (take_width_lem r front unread a) (
        let e : r.offset + length front - length front ≡ r.offset = omega arith in
        rw (e, a.tail, take-append front unread)),
    step-At r front unread a,
  )

  pub copy_to-At :
      (n : ℕ) (dst front : List ℕ)
      → length front ≡ n
      → At r (front ++ unread)
      → Yields (copy_to dst n r) front unread
  unfolding copy_to
  copy_to-At n dst front e a =
      let (r', read, at) = bytes-At front a in (r', rw (← e, read, at.fine) refl, at)

  pub varint-At :
      (v : ℕ) → v < 2 ^ 64 → At r (leb128 9 v ++ unread) → Yields (varint r) (some v) unread
  unfolding varint step
  varint-At v h a = (
    step r (length (leb128 9 v)),
    ground (arith, a.fine, read_varint-leb128 v r.offset r.input unread h a.tail),
    step-At r (leb128 9 v) unread a,
  )

-- A failed reader stays failed, and its fixed-width reads are 0.
pub field_failed :
    (n : ℕ) (read : List ℕ → ℕ) (r : Reader)
    → r.ok ≡ false
    → field n read r ≡ (0, record r { ok = false })
unfolding field take_width
field_failed n read r e = ground (arith, e)
