-- ===== src/Wire/FrameReassembler/Delivery.antt =====
-- What a caller of `feed` gets: the frames that were sent, however the stream was cut.
use plexus.Common.{ℕ, zero, suc, ◌+◌, ◌≤◌, ◌<◌, ◌≡◌, refl, sym, ap, ◌∙◌, arith}
use plexus.Common.{none, some, List, [], ◌∷◌, ◌++◌, length, take, drop, le→not_ltb, All}
use plexus.Common.{length-append, take-append, drop-append, append_assoc, All-append}
use mathlib.Core.Path.{subst₂, ap₂}
use plexus.Wire.ByteOrder.{Endian, IsByte}
use plexus.Wire.Frame.{FrameHeader, IsFrameHeader, header_size}
use plexus.Wire.Frame.RoundTrip.{
  header_layout, length-header_layout, header_layout-IsByte, decode_header-layout,
}
use plexus.Wire.FrameReassembler.{
  FrameReassembler, CompleteFrame, FeedResult, none_error, feed, unread, frame_reassembler,
}
use plexus.Wire.FrameReassembler.Stream.{Parsed, prepend, after_header, scan, parse}
use plexus.Wire.FrameReassembler.Refine.{feed-parse}
use plexus.Wire.FrameReassembler.Turns.{unread-IsByte}
use plexus.Wire.FrameReassembler.Payload.{IsSound, Refines, pending_of}
use plexus.Wire.FrameReassembler.Chunks.{resume, extend_on, parse-append, parse_left, complete}

abbrev with_frames : List CompleteFrame → Parsed → Parsed
with_frames fs p = record p { frames = fs ++ p.frames }

module _ (n : ℕ) (host : Endian) (m : FrameReassembler) (first : List ℕ) where
  -- The parse of the first piece.
  first_parse : Parsed
  first_parse = parse n host m.max_payload_size (pending_of m) (unread m ++ first)

  answered :
      (m2 : FrameReassembler) (r2 : FeedResult)
      → IsSound m
      → All IsByte first
      → length (unread m) + length first ≤ m.buffered_bytes_cap
      → length (unread m) + length first < n
      → feed host m first ≡ some (m2, r2)
      → Refines [] first_parse m m2 r2
  unfolding first_parse
  answered m2 r2 v b fits hn e =
      let (m2', r2', e', f) = feed-parse n host m first v b fits hn in
      let same_m : m2' ≡ m2 = cc in
      let same_r : r2' ≡ r2 = cc in subst₂ (Refines [] first_parse m) same_m same_r f

  first_left : length first_parse.left ≤ length (unread m) + length first
  unfolding first_parse
  first_left = omega (
    arith,
    parse_left n host m.max_payload_size (pending_of m) (unread m ++ first),
    length-append (unread m) first,
  )

  -- Behind it, the parse of the second piece.
  first_then :
      (second : List ℕ) (m2 : FrameReassembler) (r2 : FeedResult)
      → All IsByte (unread m ++ first)
      → length (unread m ++ first) + length second < n
      → Refines [] first_parse m m2 r2
      → r2.error ≡ none_error
      → let q = parse n host m2.max_payload_size (pending_of m2) (unread m2 ++ second) in
        parse n host m.max_payload_size (pending_of m) (unread m ++ (first ++ second))
        ≡ record q { frames = r2.frames ++ q.frames }
  unfolding first_parse resume
  first_then second m2 r2 b hn f fine =
      let limit = m.max_payload_size in
      let p2 : Parsed = parse n host limit (pending_of m) (unread m ++ first) in
      let q0 : Parsed = parse n host limit p2.pending (p2.left ++ second) in
      let q : Parsed = parse n host m2.max_payload_size (pending_of m2) (unread m2 ++ second) in
      let same : q0 ≡ q = cc (f.limit_same, f.pending_same, f.left_same) in
      ap (parse n host limit (pending_of m)) (sym (append_assoc (unread m) first second))
      ∙ parse-append n host limit (pending_of m) (unread m ++ first) second b hn
      ∙ ap (λ e. extend_on e p2 q0) (sym f.error_same ∙ fine)
      ∙ ap₂ with_frames (sym f.frames_same) same

-- Where a first piece of a stream of bytes is fed without an error, and both pieces fit the buffer,
-- feeding the two pieces returns the frames and the error of feeding them at once, and leaves the
-- same bytes unread behind the same pending header.
pub feed-append :
    (host : Endian) (m : FrameReassembler) (first second : List ℕ) (m2 : FrameReassembler)
    (r2 : FeedResult)
    → IsSound m
    → All IsByte first
    → All IsByte second
    → length (unread m) + length first + length second ≤ m.buffered_bytes_cap
    → feed host m first ≡ some (m2, r2)
    → r2.error ≡ none_error
    → (m1 m3 : FrameReassembler) × (r1 r3 : FeedResult) × (feed host m (first ++ second)
        ≡ some (m1, r1))
      × (feed host m2 second ≡ some (m3, r3))
      × (r1.frames ≡ r2.frames ++ r3.frames)
      × (r1.error ≡ r3.error)
      × (pending_of m1 ≡ pending_of m3)
      × (unread m1 ≡ unread m3)
feed-append host m first second m2 r2 v b c fits e fine =
    let n = length (unread m) + length first + length second + 1 in
    let (m1, r1, e1, f1) =
      feed-parse n host m (first ++ second) v (All-append IsByte first second b c)
        (omega (arith, length-append first second)) (omega (arith, length-append first second)) in
    let f2 = answered n host m first m2 r2 v b (omega arith) (omega arith) e in
    let left = first_left n host m first in
    let (m3, r3, e3, f3) =
      feed-parse n host m2 second f2.sound c
        (omega (arith, left, ap length f2.left_same, f2.cap_same))
        (omega (arith, left, ap length f2.left_same)) in
    let whole =
      first_then n host m first second m2 r2
        (All-append IsByte (unread m) first (unread-IsByte m v) b)
        (omega (arith, length-append (unread m) first)) f2 fine in
    (
      m1,
      m3,
      r1,
      r3,
      e1,
      e3,
      f1.frames_same ∙ ap (λ p. p.frames) whole ∙ ap (λ t. r2.frames ++ t) (sym f3.frames_same),
      f1.error_same ∙ ap (λ p. p.error) whole ∙ sym f3.error_same,
      f1.pending_same ∙ ap (λ p. p.pending) whole ∙ sym f3.pending_same,
      f1.left_same ∙ ap (λ p. p.left) whole ∙ sym f3.left_same,
    )

-- The 28 bytes of a header taken off.
behind_header :
    (h : FrameHeader) (tail : List ℕ) → drop header_size (header_layout h ++ tail) ≡ tail
behind_header h tail =
    ap (λ k. drop k (header_layout h ++ tail)) (sym (length-header_layout h))
    ∙ drop-append (header_layout h) tail

-- A message as it stands in the stream: a header and a payload of the declared length.
abbrev pub Message : Type 0
Message = FrameHeader × List ℕ

abbrev pub IsMessage : ℕ → Message → Type 0
IsMessage limit msg =
    IsFrameHeader msg.0
    × All IsByte msg.1
    × (length msg.1 ≡ msg.0.payload_len)
    × (msg.0.payload_len ≤ limit)

abbrev pub sent : List Message → List ℕ
sent [] = []
sent (msg ∷ msgs) = header_layout msg.0 ++ (msg.1 ++ sent msgs)

abbrev pub received : List Message → List CompleteFrame
received [] = []
received (msg ∷ msgs) =
    record { header = msg.0; payload = header_layout msg.0 ++ msg.1 } ∷ received msgs

scan-sent :
    (n : ℕ) (host : Endian) (limit : ℕ) (msgs : List Message)
    → All (IsMessage limit) msgs
    → length (sent msgs) < n
    → scan n host limit (sent msgs)
      ≡ record { frames = received msgs; pending = none; left = []; error = none_error }
unfolding scan
scan-sent zero host limit msgs v hn = absurd (omega arith)
scan-sent (suc n) host limit [] v hn = refl
scan-sent (suc n) host limit ((h, body) ∷ msgs) ((v, b, size, small), vs) hn =
    let tail = body ++ sent msgs in
    let sizes = length-append (header_layout h) tail in
    rw
      (
        le→not_ltb (length (header_layout h ++ tail)) header_size
            (omega (arith, sizes, length-header_layout h)),
        decode_header-layout host h v tail,
      )
      (ap (λ t. after_header limit h t (scan n host limit (drop h.payload_len t)))
          (behind_header h tail)
        ∙ complete limit h tail _ (le→not_ltb limit h.payload_len small) (
            le→not_ltb (length tail) h.payload_len
              (omega (arith, size, length-append body (sent msgs))))
        ∙ ap₂ prepend
            (ap (λ t. record { header = h; payload = header_layout h ++ t })
              (ap (λ k. take k tail) (sym size) ∙ take-append body (sent msgs)))
            (ap (scan n host limit)
                (ap (λ k. drop k tail) (sym size) ∙ drop-append body (sent msgs))
              ∙ scan-sent n host limit msgs vs
                  (omega (arith, sizes, length-header_layout h, length-append body (sent msgs)))))

sent-IsByte :
    (limit : ℕ) (msgs : List Message) → All (IsMessage limit) msgs → All IsByte (sent msgs)
sent-IsByte limit [] v = tt
sent-IsByte limit ((h, body) ∷ msgs) ((v, b, size, small), vs) =
    All-append IsByte (header_layout h) (body ++ sent msgs) (header_layout-IsByte h v)
      (All-append IsByte body (sent msgs) b (sent-IsByte limit msgs vs))

fresh :
    (limit room : ℕ)
    → IsSound (frame_reassembler limit room)
      × (unread (frame_reassembler limit room) ≡ [])
      × (pending_of (frame_reassembler limit room) ≡ none)
      × ((frame_reassembler limit room).max_payload_size ≡ limit)
      × ((frame_reassembler limit room).buffered_bytes_cap ≡ room)
unfolding frame_reassembler pending_of unread
fresh limit room =
    (record { inside = omega arith; are_bytes = tt; pending_fits = tt }, refl, refl, refl, refl)

-- A new reassembler that is fed well-formed messages, within its limits, returns exactly them, each
-- as its header and its header-on bytes, without an error, and keeps nothing back.
pub feed-sent :
    (host : Endian) (limit room : ℕ) (msgs : List Message)
    → All (IsMessage limit) msgs
    → length (sent msgs) ≤ room
    → (m' : FrameReassembler) × (feed host (frame_reassembler limit room) (sent msgs)
        ≡ some (m', record { frames = received msgs; error = none_error }))
      × (unread m' ≡ [])
      × (pending_of m' ≡ none)
unfolding parse pending_of unread
feed-sent host limit room msgs v fits =
    let n = length (sent msgs) + 1 in
    let m = frame_reassembler limit room in
    let (s, u, p, l, c) = fresh limit room in
    let (m', res, e, f) =
      feed-parse n host m (sent msgs) s (sent-IsByte limit msgs v) (omega (arith, ap length u, c))
        (omega (arith, ap length u)) in
    let whole : parse n host m.max_payload_size (pending_of m) (unread m ++ sent msgs)
        ≡ record { frames = received msgs; pending = none; left = []; error = none_error } =
      rw (l, p, u) (scan-sent n host limit msgs v (omega arith)) in
    let frames : res.frames ≡ received msgs = f.frames_same ∙ ap (λ p. p.frames) whole in
    let error : res.error ≡ none_error = f.error_same ∙ ap (λ p. p.error) whole in
    let same : res ≡ record { frames = received msgs; error = none_error } =
      λ i. record { frames = frames i; error = error i } in
    (
      m',
      e ∙ ap (λ r. some (m', r)) same,
      f.left_same ∙ ap (λ p. p.left) whole,
      f.pending_same ∙ ap (λ p. p.pending) whole,
    )
