-- ===== src/Wire/FrameReassembler/Refine.antt =====
-- `feed` computes the meaning of the bytes that it holds.
use plexus.Common.{ℕ, ◌+◌, ◌-◌, ◌≤◌, ◌<◌, not, ◌&&◌, ◌==◌, ◌≡◌, refl, ap, ◌∙◌, arith, inl, inr}
use plexus.Common.{
  some, Bool-cases, List, [], ◌++◌, length, ltb, leb, lt→ltb, le→not_ltb, if◌then◌else◌, All,
}
use plexus.Common.{length-append, drop-append_short, All-append, All-drop}
use plexus.Wire.ByteOrder.{Endian, IsByte}
use plexus.Wire.FrameReassembler.{FrameReassembler, FeedResult, buffer_overflow}
use plexus.Wire.FrameReassembler.{unread, feed_loop, feed, reset, compact, live_bytes}
use plexus.Wire.FrameReassembler.Stream.{Parsed, parse}
use plexus.Wire.FrameReassembler.Turns.{feed_loop-parse, length-unread}
use plexus.Wire.FrameReassembler.Payload.{IsSound, Refines, pending_of}

-- After the compaction the same bytes are unread.
compact_lem :
    (m : FrameReassembler)
    → IsSound m
    → IsSound (compact m)
      × (unread (compact m) ≡ unread m)
      × (pending_of (compact m) ≡ pending_of m)
      × ((compact m).max_payload_size ≡ m.max_payload_size)
      × ((compact m).buffered_bytes_cap ≡ m.buffered_bytes_cap)
unfolding compact unread pending_of
compact_lem m v =
    elim (Bool-cases (not (m.consumed == 0) && leb (length m.buffer - m.consumed) m.consumed)) [
      | inl moved ↦ rw moved (
        record {
          inside = omega arith;
          are_bytes = All-drop IsByte m.consumed m.buffer v.are_bytes;
          pending_fits = v.pending_fits;
        },
        refl,
        refl,
        refl,
        refl,
      )
      | inr kept ↦ rw kept (v, refl, refl, refl, refl)
    ]

-- The state of `feed` once the input stands in the buffer.
unfoldable pub loaded : FrameReassembler → List ℕ → FrameReassembler
loaded m input = let c = compact m in record c { buffer = c.buffer ++ input }

loaded_lem :
    (m : FrameReassembler) (input : List ℕ)
    → IsSound m
    → All IsByte input
    → IsSound (loaded m input)
      × (unread (loaded m input) ≡ unread m ++ input)
      × (pending_of (loaded m input) ≡ pending_of m)
      × ((loaded m input).max_payload_size ≡ m.max_payload_size)
      × ((loaded m input).buffered_bytes_cap ≡ m.buffered_bytes_cap)
unfolding loaded pending_of
loaded_lem m input v b =
    let c = compact m in
    let (vc, u, p, limit, room) = compact_lem m v in
    (
      record {
        inside = omega (arith, vc.inside, length-append c.buffer input);
        are_bytes = All-append IsByte c.buffer input vc.are_bytes b;
        pending_fits = vc.pending_fits;
      },
      unfold unread in
          (drop-append_short c.consumed c.buffer input vc.inside ∙ ap (λ t. t ++ input) u),
      p,
      limit,
      room,
    )

fresh_IsSound : (m : FrameReassembler) → IsSound (reset m) × (unread (reset m) ≡ [])
unfolding reset pending_of unread
fresh_IsSound m = (record { inside = omega arith; are_bytes = tt; pending_fits = tt }, refl)

feed-loaded :
    (host : Endian) (m : FrameReassembler) (input : List ℕ)
    → let l = loaded m input in
      feed host m input ≡ (
        if ltb l.buffered_bytes_cap (live_bytes l)
        then some (reset l, record { frames = []; error = buffer_overflow })
        else feed_loop (length l.buffer + 2) host l [])
unfolding feed loaded
feed-loaded host m input = refl

live_bytes-loaded :
    (m : FrameReassembler) (input : List ℕ)
    → IsSound m
    → All IsByte input
    → (live_bytes (loaded m input) ≡ length (unread m) + length input)
      × ((loaded m input).buffered_bytes_cap ≡ m.buffered_bytes_cap)
unfolding live_bytes
live_bytes-loaded m input v b =
    let (vl, u, p, limit, room) = loaded_lem m input v b in
    (
      omega (arith, length-unread (loaded m input), ap length u, length-append (unread m) input),
      room,
    )

-- The same parse, counted from a state with the same limits.
Refines_same :
    {p q : Parsed} {l m m' : FrameReassembler} {res : FeedResult}
    → p ≡ q
    → l.max_payload_size ≡ m.max_payload_size
    → l.buffered_bytes_cap ≡ m.buffered_bytes_cap
    → Refines [] p l m' res
    → Refines [] q m m' res
Refines_same e limit room r = record {
  frames_same = r.frames_same ∙ ap (λ p. p.frames) e;
  error_same = r.error_same ∙ ap (λ p. p.error) e;
  pending_same = r.pending_same ∙ ap (λ p. p.pending) e;
  left_same = r.left_same ∙ ap (λ p. p.left) e;
  sound = r.sound;
  limit_same = r.limit_same ∙ limit;
  cap_same = r.cap_same ∙ room;
}

-- On a sound state and bytes that fit the buffer, a feed ends, stays within its regions, and
-- returns the frames, the error and the rest that the parse of the unread bytes and the input gives.
pub feed-parse :
    (n : ℕ) (host : Endian) (m : FrameReassembler) (input : List ℕ)
    → IsSound m
    → All IsByte input
    → length (unread m) + length input ≤ m.buffered_bytes_cap
    → length (unread m) + length input < n
    → (m' : FrameReassembler) × (res : FeedResult) × (feed host m input ≡ some (m', res))
      × Refines [] (parse n host m.max_payload_size (pending_of m) (unread m ++ input)) m m' res
feed-parse n host m input v b fits hn =
    let l = loaded m input in
    let (vl, u, p, limit, room) = loaded_lem m input v b in
    let (live, _) = live_bytes-loaded m input v b in
    let (m', res, e, r) =
      feed_loop-parse (length l.buffer + 2) n host l [] vl
        (omega (arith, ap length u, length-append (unread m) input))
        (omega (arith, length-unread l, vl.inside)) in
    let same : parse n host l.max_payload_size (pending_of l) (unread l)
        ≡ parse n host m.max_payload_size (pending_of m) (unread m ++ input) =
      cc in
    (
      m',
      res,
      feed-loaded host m input
          ∙ rw (le→not_ltb l.buffered_bytes_cap (live_bytes l) (omega arith)) e,
      Refines_same same limit room r,
    )

-- Bytes that do not fit the buffer of a sound state return the overflow error and no frame, and
-- leave a sound state with nothing unread.
pub feed_overflow :
    (host : Endian) (m : FrameReassembler) (input : List ℕ)
    → IsSound m
    → All IsByte input
    → m.buffered_bytes_cap < length (unread m) + length input
    → (m' : FrameReassembler) × (feed host m input
        ≡ some (m', record { frames = []; error = buffer_overflow }))
      × IsSound m'
      × (unread m' ≡ [])
feed_overflow host m input v b over =
    let l = loaded m input in
    let (live, room) = live_bytes-loaded m input v b in
    let (vf, uf) = fresh_IsSound l in
    (
      reset l,
      feed-loaded host m input ∙ rw (lt→ltb l.buffered_bytes_cap (live_bytes l) (omega arith)),
      vf,
      uf,
    )
