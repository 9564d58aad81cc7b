-- ===== src/Wire/FrameReassembler/Payload.antt =====
-- The turns that complete a payload, and how the loop ends.
use plexus.Common.{ℕ, suc, ◌+◌, ◌≤◌, ◌≡◌, refl, sym, ap, ◌∙◌, arith, inl, inr}
use plexus.Common.{
  Option, none, some, Bool-cases, List, [], ◌∷◌, ◌++◌, append-nil, append_assoc, length, take,
  replicate, ltb, if◌then◌else◌, All,
}
use plexus.Common.{length-append, length-take, length-replicate}
use mathlib.Core.Path.{subst}
use plexus.Wire.ByteOrder.{Endian, IsByte}
use plexus.Wire.Frame.{FrameHeader, IsFrameHeader, header_size}
use plexus.Wire.Frame.RoundTrip.{header_layout, encode_header-layout, length-header_layout}
use plexus.Wire.Writer.Fill.{fill_lem}
use plexus.Wire.FrameReassembler.{
  FrameReassembler, CompleteFrame, State, reading_header, reading_payload, FeedError, FeedResult,
  none_error, payload_too_large,
}
use plexus.Wire.FrameReassembler.{
  framed, unread, payload_turn, turn, stop, fail, again, feed_loop, reset,
}
use plexus.Wire.FrameReassembler.Stream.{Parsed, failed, waiting, frame_of, prepend, after_header}

-- A frame is its header, encoded again, and its payload; the buffer of `framed` has just the room.
framed_lem :
    (host : Endian) (h : FrameHeader) (span : List ℕ)
    → IsFrameHeader h
    → length span ≡ h.payload_len
    → framed host h span ≡ some (header_layout h ++ span)
unfolding framed
framed_lem host h span v n =
    let bs = header_layout h in
    let f = fill_lem (bs ∷ span ∷ []) (replicate (header_size + h.payload_len) 0) (
      omega (
        arith,
        n,
        length-replicate {A = ℕ} (header_size + h.payload_len) 0,
        length-header_layout h,
        length-append span [],
        length-append bs (span ++ []),
      )) in
    rw (encode_header-layout host h v) (f ∙ ap (λ t. some (bs ++ t)) (append-nil span))

payload_turn_lem :
    (host : Endian) (m : FrameReassembler)
    → IsFrameHeader m.pending_header
    → payload_turn host m ≡ (
        if ltb m.max_payload_size m.pending_header.payload_len
        then fail payload_too_large
        else if ltb (length (unread m)) m.pending_header.payload_len
        then stop m
        else again
            (record m {
              consumed = m.consumed + m.pending_header.payload_len;
              state = reading_header;
            })
            (frame_of m.pending_header (unread m)))
unfolding payload_turn
payload_turn_lem host m v =
    let len = m.pending_header.payload_len in
    ground
      (arith, length-take len (unread m), framed_lem host m.pending_header (take len (unread m)) v)

abbrev pub pending_in : State → FrameHeader → Option FrameHeader
pending_in reading_header h = none
pending_in reading_payload h = some h

unfoldable pub pending_of : FrameReassembler → Option FrameHeader
pending_of m = pending_in m.state m.pending_header

abbrev pub IsPending : Option FrameHeader → Type 0
IsPending none = Unit
IsPending (some h) = IsFrameHeader h

-- Between two calls: the cursor is in the buffer, which holds bytes, and a header that was read
-- fits its types.
pub record IsSound (m : FrameReassembler) : Type 0 where
  pub inside : m.consumed ≤ length m.buffer
  pub are_bytes : All IsByte m.buffer
  pub pending_fits : IsPending (pending_of m)

-- What the loop left behind is what the parse says.
pub record Refines (frames : List CompleteFrame) (p : Parsed) (m m' : FrameReassembler)
    (res : FeedResult) : Type 0 where
  pub frames_same : res.frames ≡ frames ++ p.frames
  pub error_same : res.error ≡ p.error
  pub pending_same : pending_of m' ≡ p.pending
  pub left_same : unread m' ≡ p.left
  pub sound : IsSound m'
  pub limit_same : m'.max_payload_size ≡ m.max_payload_size
  pub cap_same : m'.buffered_bytes_cap ≡ m.buffered_bytes_cap

-- A result of the loop that refines the parse `p`.
abbrev pub Runs : ℕ → Endian → FrameReassembler → List CompleteFrame → Parsed → Type 0
Runs fuel host m frames p =
    (m' : FrameReassembler) × (res : FeedResult) × (feed_loop fuel host m frames ≡ some (m', res))
    × Refines frames p m m' res

-- A turn that ends the loop with an error, or with what is there.
pub fails :
    (fuel : ℕ) (host : Endian) (m : FrameReassembler) (frames : List CompleteFrame) (e : FeedError)
    → turn host m ≡ fail e
    → Runs (suc fuel) host m frames (failed e)
unfolding pending_of unread feed_loop reset
fails fuel host m frames e t = (
  reset m,
  record { frames = frames; error = e },
  rw (t, feed_loop),
  record {
    frames_same = sym (append-nil frames);
    error_same = refl;
    pending_same = refl;
    left_same = refl;
    sound = record { inside = omega arith; are_bytes = tt; pending_fits = tt };
    limit_same = refl;
    cap_same = refl;
  },
)

pub stops :
    (fuel : ℕ) (host : Endian) (m m' : FrameReassembler) (frames : List CompleteFrame)
    → turn host m ≡ stop m'
    → IsSound m'
    → m'.max_payload_size ≡ m.max_payload_size
    → m'.buffered_bytes_cap ≡ m.buffered_bytes_cap
    → Runs (suc fuel) host m frames (waiting (pending_of m') (unread m'))
unfolding feed_loop
stops fuel host m m' frames t v limit room = (
  m',
  record { frames = frames; error = none_error },
  rw (t, feed_loop),
  record {
    frames_same = sym (append-nil frames);
    error_same = refl;
    pending_same = refl;
    left_same = refl;
    sound = v;
    limit_same = limit;
    cap_same = room;
  },
)

-- The loop goes on from `m1`, which has the limits of `m`.
goes_on :
    (fuel : ℕ) (host : Endian) (m m1 : FrameReassembler) (frames : List CompleteFrame)
    (f : CompleteFrame) (next : Parsed)
    → turn host m ≡ again m1 f
    → m1.max_payload_size ≡ m.max_payload_size
    → m1.buffered_bytes_cap ≡ m.buffered_bytes_cap
    → Runs fuel host m1 (frames ++ (f ∷ [])) next
    → Runs (suc fuel) host m frames (prepend f next)
unfolding feed_loop
goes_on fuel host m m1 frames f next t limit room (m', res, e, r) = (
  m',
  res,
  rw (t, feed_loop) e,
  record {
    frames_same = r.frames_same ∙ append_assoc frames (f ∷ []) next.frames;
    error_same = r.error_same;
    pending_same = r.pending_same;
    left_same = r.left_same;
    sound = r.sound;
    limit_same = r.limit_same ∙ limit;
    cap_same = r.cap_same ∙ room;
  },
)

-- The state behind the payload.
abbrev pub past_payload : FrameReassembler → FrameReassembler
past_payload m = record m {
  consumed = m.consumed + m.pending_header.payload_len;
  state = reading_header;
}

-- A turn of `m` that comes to the payload with the state `m1`.
pub payload-Runs :
    (fuel : ℕ) (host : Endian) (m m1 : FrameReassembler) (frames : List CompleteFrame)
    (next : Parsed)
    → turn host m ≡ payload_turn host m1
    → IsSound m1
    → m1.state ≡ reading_payload
    → IsFrameHeader m1.pending_header
    → m1.max_payload_size ≡ m.max_payload_size
    → m1.buffered_bytes_cap ≡ m.buffered_bytes_cap
    → (m1.pending_header.payload_len ≤ length (unread m1)
        → (frames' : List CompleteFrame) → Runs fuel host (past_payload m1) frames' next)
    → Runs
        (suc fuel)
        host
        m
        frames
        (after_header m1.max_payload_size m1.pending_header (unread m1) next)
unfolding after_header
payload-Runs fuel host m m1 frames next t v s valid limit room ih =
    let len = m1.pending_header.payload_len in
    let pending : pending_of m1 ≡ some m1.pending_header =
      unfold pending_of in ap (λ s. pending_in s m1.pending_header) s in
    let p = payload_turn_lem host m1 valid in
    elim (Bool-cases (ltb m1.max_payload_size len)) [
      | inl large ↦ rw large (fails fuel host m frames payload_too_large (t ∙ p ∙ rw large))
      | inr fine ↦ elim (Bool-cases (ltb (length (unread m1)) len)) [
        | inl short ↦
            rw (fine, short)
              (subst (λ q. Runs (suc fuel) host m frames (waiting q (unread m1))) pending
                (stops fuel host m m1 frames (t ∙ p ∙ rw (fine, short)) v limit room))
        | inr there ↦
            rw (fine, there)
              (goes_on fuel host m (past_payload m1) frames (frame_of m1.pending_header (unread m1))
                next (t ∙ p ∙ rw (fine, there)) limit room
                (ih (ground arith) (frames ++ (frame_of m1.pending_header (unread m1) ∷ []))))
      ]
    ]
