-- ===== src/Wire/FrameReassembler/Chunks.antt =====
-- The frames do not depend on how the bytes of the stream are cut into pieces.
use plexus.Common.{
  ℕ, zero, suc, ◌+◌, ◌≤◌, ◌<◌, true, false, ◌≡◌, refl, sym, ap, ◌∙◌, arith, inl, inr,
}
use plexus.Common.{
  Option, none, some, Option-cases, Bool-cases, List, [], ◌∷◌, ◌++◌, length, drop, get_or, ltb,
  le→not_ltb, All,
}
use plexus.Common.{
  length-append, length-drop, drop-append_short, take-append_short, append_assoc, All-drop,
}
use mathlib.Core.Path.{ap₂}
use plexus.Wire.ByteOrder.{Endian, IsByte}
use plexus.Wire.Frame.{FrameHeader, header_size}
use plexus.Wire.Frame.Codec.{decode_header}
use plexus.Wire.Frame.RoundTrip.{header_layout, decode_header-layout, decode_header-Framed}
use plexus.Wire.FrameReassembler.{CompleteFrame, FeedError, none_error, payload_too_large}
use plexus.Wire.FrameReassembler.Stream.{
  Parsed, failed, waiting, frame_of, prepend, after_header, scan, parse,
}

get_or-append : (i : ℕ) (xs ys : List ℕ) → i < length xs → get_or (xs ++ ys) i 0 ≡ get_or xs i 0
get_or-append i [] ys h = absurd (omega arith)
get_or-append zero (x ∷ xs) ys h = refl
get_or-append (suc i) (x ∷ xs) ys h = get_or-append i xs ys (omega arith)

-- `decode_header` looks at 28 bytes.
decode_header-append :
    (host : Endian) (front back : List ℕ)
    → All IsByte front
    → header_size ≤ length front
    → decode_header host (front ++ back) ≡ decode_header host front
decode_header-append host front back b n = elim (Option-cases (decode_header host front)) [
  | inr (h, e) ↦
      let f = decode_header-Framed host front h b e in
      ap (decode_header host)
        (ap (λ t. t ++ back) f.layout ∙ append_assoc (header_layout h) f.rest back)
      ∙ decode_header-layout host h f.valid (f.rest ++ back)
      ∙ sym e
  | inl e ↦
      unfold decode_header in
      ground (
        arith,
        e,
        length-append front back,
        get_or-append 0 front back (omega arith),
        get_or-append 1 front back (omega arith),
      )
]

-- Fewer bytes than a header wait.
few :
    (n : ℕ) (host : Endian) (limit : ℕ) (bytes : List ℕ)
    → ltb (length bytes) header_size ≡ true
    → scan n host limit bytes ≡ waiting none bytes
unfolding scan
few zero host limit bytes short = refl
few (suc n) host limit bytes short = rw short

-- More fuel than bytes changes nothing.
pub scan_fuel :
    (n k : ℕ) (host : Endian) (limit : ℕ) (bytes : List ℕ)
    → length bytes < n
    → length bytes < k
    → scan n host limit bytes ≡ scan k host limit bytes
unfolding scan
scan_fuel zero k host limit bytes hn hk = absurd (omega arith)
scan_fuel (suc n) zero host limit bytes hn hk = absurd (omega arith)
scan_fuel (suc n) (suc k) host limit bytes hn hk =
    elim (Bool-cases (ltb (length bytes) header_size)) [
      | inl short ↦ rw short
      | inr room ↦ elim (Option-cases (decode_header host bytes)) [
        | inl bad ↦ rw (room, bad)
        | inr (h, good) ↦
            rw (room, good)
              (ap (after_header limit h (drop header_size bytes)) (
                scan_fuel n k host limit (drop h.payload_len (drop header_size bytes))
                  (fits h room n hn) (fits h room k hk)))
      ]
    ]
  where
    fits :
        (h : FrameHeader)
        → ltb (length bytes) header_size ≡ false
        → (j : ℕ) → length bytes < suc j
        → length (drop h.payload_len (drop header_size bytes)) < j
    fits h room j hj =
        ground
          (arith, length-drop h.payload_len (drop header_size bytes), length-drop header_size bytes)

-- The meaning of `p` and then of `q`: after an error nothing changes.
abbrev pub extend_on : FeedError → Parsed → Parsed → Parsed
extend_on none_error p q = record q { frames = p.frames ++ q.frames }
extend_on _ p q = p

unfoldable pub resume : ℕ → Endian → ℕ → Parsed → List ℕ → Parsed
resume n host limit p more = extend_on p.error p (parse n host limit p.pending (p.left ++ more))

prepend-extend_on :
    (e : FeedError) (f : CompleteFrame) (p q : Parsed)
    → prepend f (extend_on e p q) ≡ extend_on e (prepend f p) q
prepend-extend_on none_error f p q = refl
prepend-extend_on _ f p q = refl

module _ (limit : ℕ) (h : FrameHeader) (bytes : List ℕ) (next : Parsed) where
  pub too_large :
      ltb limit h.payload_len ≡ true → after_header limit h bytes next ≡ failed payload_too_large
  unfolding after_header
  too_large large = rw large

  pub too_short :
      ltb limit h.payload_len ≡ false
      → ltb (length bytes) h.payload_len ≡ true
      → after_header limit h bytes next ≡ waiting (some h) bytes
  unfolding after_header
  too_short fine short = rw (fine, short)

  pub complete :
      ltb limit h.payload_len ≡ false
      → ltb (length bytes) h.payload_len ≡ false
      → after_header limit h bytes next ≡ prepend (frame_of h bytes) next
  unfolding after_header
  complete fine there = rw (fine, there)

module _ (n k : ℕ) (host : Endian) (limit : ℕ) (h : FrameHeader) (bytes more : List ℕ) where
  -- The part behind a header, given the part behind the payload.
  after_header-append :
      (h.payload_len ≤ length bytes
        → scan n host limit (drop h.payload_len bytes ++ more)
          ≡ resume k host limit (scan n host limit (drop h.payload_len bytes)) more)
      → length bytes + length more < n
      → length bytes + length more < k
      → after_header limit h
          (bytes ++ more)
          (scan n host limit (drop h.payload_len (bytes ++ more)))
        ≡ resume k host limit
            (after_header limit h bytes (scan n host limit (drop h.payload_len bytes)))
            more
  unfolding resume parse
  after_header-append ih hn hk = elim (Bool-cases (ltb limit h.payload_len)) [
    | inl large ↦
        too_large limit h (bytes ++ more) _ large
        ∙ ap (λ p. resume k host limit p more)
            (sym (too_large limit h bytes (scan n host limit (drop h.payload_len bytes)) large))
    | inr fine ↦ elim (Bool-cases (ltb (length bytes) h.payload_len)) [
      | inl short ↦
          ap (after_header limit h (bytes ++ more)) same_fuel
          ∙ ap (λ p. resume k host limit p more)
              (sym
                (too_short limit h bytes (scan n host limit (drop h.payload_len bytes)) fine short))
      | inr there ↦
          let enough : h.payload_len ≤ length bytes = ground arith in
          let next = scan n host limit (drop h.payload_len bytes) in
          complete limit h (bytes ++ more) _ fine (
            le→not_ltb (length (bytes ++ more)) h.payload_len
              (omega (arith, length-append bytes more)))
          ∙ ap₂ prepend
              (ap (λ t. record { header = h; payload = header_layout h ++ t })
                (take-append_short h.payload_len bytes more enough))
              (ap (scan n host limit) (drop-append_short h.payload_len bytes more enough)
                ∙ ih enough)
          ∙ prepend-extend_on next.error (frame_of h bytes) next _
          ∙ ap (λ p. resume k host limit p more) (sym (complete limit h bytes next fine there))
    ]
  ]
    where
      same_fuel :
          scan n host limit (drop h.payload_len (bytes ++ more))
          ≡ scan k host limit (drop h.payload_len (bytes ++ more))
      same_fuel =
          scan_fuel n k host limit (drop h.payload_len (bytes ++ more))
            (omega (arith, length-drop h.payload_len (bytes ++ more), length-append bytes more))
            (omega (arith, length-drop h.payload_len (bytes ++ more), length-append bytes more))

scan-append :
    (n k : ℕ) (host : Endian) (limit : ℕ) (bytes more : List ℕ)
    → All IsByte bytes
    → length bytes + length more < n
    → length bytes + length more < k
    → scan n host limit (bytes ++ more) ≡ resume k host limit (scan n host limit bytes) more
unfolding scan resume parse
scan-append zero k host limit bytes more b hn hk = absurd (omega arith)
scan-append (suc n) k host limit bytes more b hn hk =
    elim (Bool-cases (ltb (length bytes) header_size)) [
      | inl short ↦
          scan_fuel (suc n) k host limit (bytes ++ more) (omega (arith, length-append bytes more))
            (omega (arith, length-append bytes more))
          ∙ ap (λ p. resume k host limit p more) (sym (few (suc n) host limit bytes short))
      | inr room ↦ elim (Option-cases (decode_header host bytes)) [
        | inl bad ↦ rw (longer room, ahead room ∙ bad, room, bad)
        | inr (h, good) ↦
            rw (longer room, ahead room ∙ good, room, good)
              (ap (λ t. after_header limit h t (scan n host limit (drop h.payload_len t)))
                  (drop-append_short header_size bytes more (at_least room))
                ∙ after_header-append n k host limit h (drop header_size bytes) more
                    (λ enough.
                      scan-append n k host limit (drop h.payload_len (drop header_size bytes)) more
                        (All-drop IsByte h.payload_len (drop header_size bytes)
                          (All-drop IsByte header_size bytes b))
                        (fewer h room n hn) (omega (arith, fewer h room n hn, dropped h, hk)))
                    (omega (arith, length-drop header_size bytes, at_least room))
                    (omega (arith, length-drop header_size bytes)))
      ]
    ]
  where
    at_least : ltb (length bytes) header_size ≡ false → header_size ≤ length bytes
    at_least room = ground arith

    longer :
        ltb (length bytes) header_size ≡ false → ltb (length (bytes ++ more)) header_size ≡ false
    longer room = ground (arith, length-append bytes more)

    ahead :
        ltb (length bytes) header_size ≡ false
        → decode_header host (bytes ++ more) ≡ decode_header host bytes
    ahead room = decode_header-append host bytes more b (at_least room)

    dropped :
        (h : FrameHeader) → length (drop h.payload_len (drop header_size bytes)) ≤ length bytes
    dropped h =
        omega
          (arith, length-drop h.payload_len (drop header_size bytes), length-drop header_size bytes)

    fewer :
        (h : FrameHeader)
        → ltb (length bytes) header_size ≡ false
        → (j : ℕ) → length bytes + length more < suc j
        → length (drop h.payload_len (drop header_size bytes)) + length more < j
    fewer h room j hj = omega (
      arith,
      at_least room,
      length-drop h.payload_len (drop header_size bytes),
      length-drop header_size bytes,
    )

-- The parse of a stream in two pieces is the parse of the first, and then of what it left with the
-- second behind it.
pub parse-append :
    (n : ℕ) (host : Endian) (limit : ℕ) (pending : Option FrameHeader) (bytes more : List ℕ)
    → All IsByte bytes
    → length bytes + length more < n
    → parse n host limit pending (bytes ++ more)
      ≡ resume n host limit (parse n host limit pending bytes) more
unfolding parse
parse-append n host limit none bytes more b hn = scan-append n n host limit bytes more b hn hn
parse-append n host limit (some h) bytes more b hn =
    after_header-append n n host limit h bytes more
      (λ enough.
        scan-append n n host limit (drop h.payload_len bytes) more
          (All-drop IsByte h.payload_len bytes b) (omega (arith, length-drop h.payload_len bytes))
          (omega (arith, length-drop h.payload_len bytes)))
      hn hn

-- What is left is part of the bytes.
scan_left :
    (n : ℕ) (host : Endian) (limit : ℕ) (bytes : List ℕ)
    → length (scan n host limit bytes).left ≤ length bytes
unfolding scan
scan_left zero host limit bytes = omega arith
scan_left (suc n) host limit bytes =
    let b = drop header_size bytes in
    elim (Bool-cases (ltb (length bytes) header_size)) [
      | inl short ↦ rw short (omega arith)
      | inr room ↦ elim (Option-cases (decode_header host bytes)) [
        | inl bad ↦ rw (room, bad) (omega arith)
        | inr (h, good) ↦
            rw (room, good)
              (unfold after_header in
                ground (
                  arith,
                  length-drop header_size bytes,
                  length-drop h.payload_len b,
                  scan_left n host limit (drop h.payload_len b),
                ))
      ]
    ]

pub parse_left :
    (n : ℕ) (host : Endian) (limit : ℕ) (pending : Option FrameHeader) (bytes : List ℕ)
    → length (parse n host limit pending bytes).left ≤ length bytes
unfolding parse after_header
parse_left n host limit none bytes = scan_left n host limit bytes
parse_left n host limit (some h) bytes =
    ground
      (arith, length-drop h.payload_len bytes, scan_left n host limit (drop h.payload_len bytes))
