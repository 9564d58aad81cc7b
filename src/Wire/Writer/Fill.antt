-- ===== src/Wire/Writer/Fill.antt =====
-- A sequence of writes that together are as long as the region fills it with their bytes.
use plexus.Common.{ℕ, zero, suc, ◌+◌, ◌-◌, ◌≤◌, ◌<◌, ◌^◌, ◌/◌, ◌%◌, ◌≡◌, refl, sym, ap, ◌∙◌, arith}
use plexus.Common.{Bool-cases, Option-cases, inl, inr, Option, some, ◌>>=◌, leb}
use plexus.Common.{
  List, [], ◌∷◌, ◌++◌, append_assoc, length, length-append, length-take, length-replicate,
  replicate, take,
}
use plexus.Wire.ByteOrder.{shr}
use plexus.Wire.Varint.{shr-lt}
use plexus.Wire.Varint.Encode.{leb128, leb128_last, leb128_more, round_byte_lem}
use plexus.Wire.Varint.{write_varint}
use plexus.Wire.Varint.Encode.{write_varint-leb128}
use plexus.Wire.Writer.{Writer, writer, resize, overwrite, bytes, varint_loop, varint}
use mathlib.Core.Path.{fun_ext}
use mathlib.Core.Logic.{dif_pos, dif_neg}
use mathlib.Core.WellFounded.{Acc}
use native.Mathlib.Decide.{dec_lt}
use native.Mathlib.Bridge.{le_prop}

length-overwrite : (xs : List ℕ) (i : ℕ) (bs : List ℕ) → length (overwrite xs i bs) ≡ length xs
unfolding overwrite
length-overwrite [] i bs = refl
length-overwrite (x ∷ xs) zero [] = refl
length-overwrite (x ∷ xs) zero (b ∷ bs) = ap suc (length-overwrite xs zero bs)
length-overwrite (x ∷ xs) (suc i) bs = ap suc (length-overwrite xs i bs)

overwrite_nil : (xs : List ℕ) (i : ℕ) → overwrite xs i [] ≡ xs
unfolding overwrite
overwrite_nil [] i = refl
overwrite_nil (x ∷ xs) zero = refl
overwrite_nil (x ∷ xs) (suc i) = ap (λ t. x ∷ t) (overwrite_nil xs i)

-- A second write behind the first is one write of both.
overwrite-append :
    (xs : List ℕ) (i : ℕ) (front back : List ℕ) (j : ℕ)
    → j ≡ i + length front
    → overwrite (overwrite xs i front) j back ≡ overwrite xs i (front ++ back)
unfolding overwrite
overwrite-append [] i front back j e = refl
overwrite-append (x ∷ xs) zero [] back j e = let z : j ≡ 0 = omega arith in rw z
overwrite-append (x ∷ xs) zero (a ∷ front) back zero e = absurd (omega arith)
overwrite-append (x ∷ xs) zero (a ∷ front) back (suc j) e =
    ap (λ t. a ∷ t) (overwrite-append xs zero front back j (omega arith))
overwrite-append (x ∷ xs) (suc i) front back zero e = absurd (omega arith)
overwrite-append (x ∷ xs) (suc i) front back (suc j) e =
    ap (λ t. x ∷ t) (overwrite-append xs i front back j (omega arith))

overwrite_all : (xs bs : List ℕ) → length bs ≡ length xs → overwrite xs 0 bs ≡ bs
unfolding overwrite
overwrite_all [] [] h = refl
overwrite_all [] (b ∷ bs) h = absurd (omega arith)
overwrite_all (x ∷ xs) [] h = absurd (omega arith)
overwrite_all (x ∷ xs) (b ∷ bs) h = ap (λ t. b ∷ t) (overwrite_all xs bs (omega arith))

-- Two writes are one write of both blobs, also where they do not fit.
pub bytes-append :
    (front back : List ℕ) (w : Writer) → (bytes front w >>= bytes back) ≡ bytes (front ++ back) w
unfolding bytes
bytes-append front back w = elim (Bool-cases (leb (w.offset + length front) (length w.region))) [
  | inl fits ↦ ground (
    arith,
    fits,
    length-append front back,
    length-overwrite w.region w.offset front,
    overwrite-append w.region w.offset front back (w.offset + length front) refl,
  )
  | inr full ↦ ground (arith, full, length-append front back)
]

varint_loop-bytes :
    (k v : ℕ) (w : Acc ◌<◌ v) (t : Writer)
    → v < 128 ^ suc k
    → varint_loop v w t ≡ bytes (leb128 k v) t
unfolding varint_loop
varint_loop-bytes zero v (Acc.intro _ smaller) t h =
    ground (arith, round_byte_lem v, leb128_last 0 v)
varint_loop-bytes (suc k) v (Acc.intro _ smaller) t h = elim (dec_lt 0 (shr v 7)) [
  | yes more ↦
      dif_pos (dec_lt 0 (shr v 7)) le_prop more _ _
      ∙ ap (λ b. bytes (b ∷ []) t >>= varint_loop (shr v 7) (smaller _ (shr-lt v more)))
          ((round_byte_lem v).1 (omega arith))
      ∙ ap (λ f. bytes ((v % 128 + 128) ∷ []) t >>= f)
          (fun_ext
            (λ t'. varint_loop-bytes k (shr v 7) (smaller _ (shr-lt v more)) t' (omega arith)))
      ∙ bytes-append ((v % 128 + 128) ∷ []) (leb128 k (v / 128)) t
      ∙ ap (λ b. bytes b t) (sym (leb128_more k v (omega arith)))
  | no last ↦
      dif_neg (dec_lt 0 (shr v 7)) last _ _
      ∙ ground (arith, round_byte_lem v, leb128_last (suc k) v)
]

-- `varint` writes into the region what `write_varint` appends to a vector.
pub varint-leb128 : (v : ℕ) (t : Writer) → v < 2 ^ 64 → varint v t ≡ bytes (leb128 9 v) t
unfolding varint
varint-leb128 v t h = varint_loop-bytes 9 v _ t (omega arith)

-- A writer's cursor is given the bytes that `write_varint` appends, for a number of 64 bits.
pub varint-write_varint :
    (v : ℕ) (t : Writer) → v < 2 ^ 64 → varint v t ≡ bytes (write_varint [] v) t
varint-write_varint v t h = rw (write_varint-leb128 v [] h) (varint-leb128 v t h)

abbrev pub flatten : List (List ℕ) → List ℕ
flatten [] = []
flatten (b ∷ bs) = b ++ flatten bs

-- The chunks in front of `rest`, as a reader meets them.
abbrev pub join : List (List ℕ) → List ℕ → List ℕ
join [] rest = rest
join (b ∷ bs) rest = b ++ join bs rest

pub flatten-join : (bs : List (List ℕ)) (rest : List ℕ) → flatten bs ++ rest ≡ join bs rest
flatten-join [] rest = refl
flatten-join (b ∷ bs) rest =
    append_assoc b (flatten bs) rest ∙ ap (λ t. b ++ t) (flatten-join bs rest)

-- The writes of an encoder, one after the other, and the region at the end.
abbrev pub fill : List (List ℕ) → Writer → Option (List ℕ)
fill [] w = some w.region
fill (b ∷ bs) w = bytes b w >>= fill bs

offset_within : (b : List ℕ) (w w' : Writer) → bytes b w ≡ some w' → w'.offset ≤ length w'.region
unfolding bytes
offset_within b w w' e = ground (arith, length-overwrite w.region w.offset b)

fill-bytes :
    (bs : List (List ℕ)) (w : Writer)
    → w.offset ≤ length w.region
    → fill bs w ≡ (bytes (flatten bs) w >>= λ w. some w.region)
fill-bytes [] w h = unfold bytes in ground (arith, overwrite_nil w.region w.offset)
fill-bytes (b ∷ bs) w h = elim (Option-cases (bytes b w)) [
  | inl refused ↦ rw (← bytes-append b (flatten bs) w, refused)
  | inr (w', written) ↦
      rw (← bytes-append b (flatten bs) w, written)
        (fill-bytes bs w' (offset_within b w w' written))
]

pub fill_lem :
    (bs : List (List ℕ)) (region : List ℕ)
    → length (flatten bs) ≡ length region
    → fill bs (writer region) ≡ some (flatten bs)
unfolding writer bytes
fill_lem bs region h =
    fill-bytes bs (writer region) (omega arith)
    ∙ ground (arith, overwrite_all region (flatten bs) h)

pub length-resize : (n : ℕ) (out : List ℕ) → length (resize n out) ≡ n
unfolding resize
length-resize n out = omega (
  arith,
  length-append (take n out) (replicate (n - length out) 0),
  length-take n out,
  length-replicate {A = ℕ} (n - length out) 0,
)

-- The same with what the encoder does after its writes.
abbrev pub fill_then {ℓ} : {B : Type ℓ} → List (List ℕ) → (Writer → Option B) → Writer → Option B
fill_then [] k w = k w
fill_then (b ∷ bs) k w = bytes b w >>= fill_then bs k

bytes_nil : (w : Writer) → w.offset ≤ length w.region → bytes [] w ≡ some w
unfolding bytes
bytes_nil w h = ground (arith, overwrite_nil w.region w.offset)

fill_then-bytes {ℓ} :
    {B : Type ℓ} (bs : List (List ℕ)) (k : Writer → Option B) (w : Writer)
    → w.offset ≤ length w.region
    → fill_then bs k w ≡ (bytes (flatten bs) w >>= k)
fill_then-bytes [] k w h = rw (bytes_nil w h)
fill_then-bytes (b ∷ bs) k w h = elim (Option-cases (bytes b w)) [
  | inl refused ↦ rw (← bytes-append b (flatten bs) w, refused)
  | inr (w', written) ↦
      rw (← bytes-append b (flatten bs) w, written)
        (fill_then-bytes bs k w' (offset_within b w w' written))
]

-- The writer at the end of a region that is full.
abbrev pub filled : List ℕ → Writer
filled bs = record { region = bs; offset = length bs }

bytes_all :
    (region bs : List ℕ)
    → length bs ≡ length region
    → bytes bs (record { region = region; offset = 0 }) ≡ some (filled bs)
unfolding bytes
bytes_all region bs h = ground (arith, overwrite_all region bs h)

pub fill_then_lem {ℓ} :
    {B : Type ℓ} (bs : List (List ℕ)) (k : Writer → Option B) (region : List ℕ)
    → length (flatten bs) ≡ length region
    → fill_then bs k (writer region) ≡ k (filled (flatten bs))
unfolding writer
fill_then_lem bs k region h =
    fill_then-bytes bs k (record { region = region; offset = 0 }) (omega arith)
    ∙ ap (λ o. o >>= k) (bytes_all region (flatten bs) h)

-- What follows the writes may follow their last continuation.
pub fill_then_bind {ℓ κ} :
    {B : Type ℓ} {C : Type κ} (bs : List (List ℕ)) (k : Writer → Option B) (f : B → Option C)
    (w : Writer)
    → (fill_then bs k w >>= f) ≡ fill_then bs (λ w. k w >>= f) w
fill_then_bind [] k f w = refl
fill_then_bind (b ∷ bs) k f w = elim (Option-cases (bytes b w)) [
  | inl refused ↦ rw refused refl
  | inr (w', written) ↦ rw written (fill_then_bind bs k f w')
]
