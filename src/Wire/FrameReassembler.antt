-- ===== src/Wire/FrameReassembler.antt =====
-- lib/plexus-wire/include/plexus/wire/frame_reassembler.h: the stream of frames in a byte stream.
pub mod Stream
pub mod Payload
pub mod Turns
pub mod Refine
pub mod Chunks
pub mod Delivery
use plexus.Common.{ℕ, zero, suc, ◌+◌, ◌-◌, Bool, true, false, not, ◌&&◌, ◌||◌, Option, none, some}
use plexus.Common.{
  List, [], ◌∷◌, ◌++◌, length, take, drop, replicate, ltb, leb, ◌==◌, if◌then◌else◌, ◌>>=◌,
}
use plexus.Wire.ByteOrder.{Endian}
use plexus.Wire.Frame.{FrameHeader, header_size}
use plexus.Wire.Frame.Codec.{encode_header, decode_header}
use plexus.Wire.Writer
use plexus.Wire.Writer.{writer}

-- `shared_bytes` is its bytes: the owner is behind a pointer to constant data.
pub record CompleteFrame : Type 0 where
  pub header : FrameHeader
  pub payload : List ℕ

pub data FeedError : Type 0 where
  none_error invalid_magic payload_too_large buffer_overflow no_progress : FeedError

pub record FeedResult : Type 0 where
  pub frames : List CompleteFrame
  pub error : FeedError

pub data State : Type 0 where
  reading_header reading_payload : State

pub record FrameReassembler : Type 0 where
  pub state : State
  pub max_payload_size : ℕ
  pub buffered_bytes_cap : ℕ
  pub consumed : ℕ
  pub pending_header : FrameHeader
  pub buffer : List ℕ

abbrev pub no_header : FrameHeader
no_header = record { type = 0; flags = 0; session_id = 0; timestamp_ns = 0; payload_len = 0 }

unfoldable pub frame_reassembler : ℕ → ℕ → FrameReassembler
frame_reassembler max_payload_size buffered_bytes_cap = record {
  state = reading_header;
  max_payload_size = max_payload_size;
  buffered_bytes_cap = buffered_bytes_cap;
  consumed = 0;
  pending_header = no_header;
  buffer = [];
}

unfoldable pub reset : FrameReassembler → FrameReassembler
reset m = record m { buffer = []; consumed = 0; state = reading_header; pending_header = no_header }

unfoldable pub live_bytes : FrameReassembler → ℕ
live_bytes m = length m.buffer - m.consumed

unfoldable pub compact : FrameReassembler → FrameReassembler
compact m =
    if not (m.consumed == 0) && leb (length m.buffer - m.consumed) m.consumed
    then record m { buffer = drop m.consumed m.buffer; consumed = 0 }
    else m

-- The header that was read, encoded again, and the payload behind it.
unfoldable pub framed : Endian → FrameHeader → List ℕ → Option (List ℕ)
framed host hdr payload_span = do
  header_bytes ← encode_header host hdr
  w ← Writer.bytes header_bytes (writer (replicate (header_size + hdr.payload_len) 0))
  w ← Writer.bytes payload_span w
  some w.region

-- What one turn of the loop of `feed` does: `break`, `return` with an error, or go round again.
-- `fault` is a write past the end of `framed`.
pub data Turn : Type 0 where
  stop : FrameReassembler → Turn
  fail : FeedError → Turn
  again : FrameReassembler → CompleteFrame → Turn
  fault : Turn

unfoldable pub unread : FrameReassembler → List ℕ
unread m = drop m.consumed m.buffer

-- The second `if` of a turn, which runs after the first in the same turn too.
unfoldable pub payload_turn : Endian → FrameReassembler → Turn
unfolding unread framed
payload_turn host m =
    let len = m.pending_header.payload_len in
    if ltb m.max_payload_size len
    then fail payload_too_large
    else if ltb (length (unread m)) len
    then stop m
    else elim (framed host m.pending_header (take len (unread m))) [
      | none ↦ fault
      | some bytes ↦
          again (record m { consumed = m.consumed + len; state = reading_header })
            (record { header = m.pending_header; payload = bytes })
    ]

unfoldable pub header_turn : Endian → FrameReassembler → Turn
unfolding unread payload_turn
header_turn host m =
    if ltb (length (unread m)) header_size then stop m else elim (decode_header host (unread m)) [
      | none ↦ fail invalid_magic
      | some hdr ↦ payload_turn host (record m {
        pending_header = hdr;
        consumed = m.consumed + header_size;
        state = reading_payload;
      })
    ]

unfoldable pub turn_in : State → Endian → FrameReassembler → Turn
unfolding header_turn payload_turn
turn_in reading_header host m = header_turn host m
turn_in reading_payload host m = payload_turn host m

unfoldable pub turn : Endian → FrameReassembler → Turn
unfolding turn_in
turn host m = turn_in m.state host m

-- The loop. A turn that goes round again has consumed a header or the rest of a frame; `none` is
-- a fault, or too little fuel.
unfoldable pub feed_loop :
    ℕ → Endian → FrameReassembler → List CompleteFrame → Option (FrameReassembler × FeedResult)
feed_loop zero host m frames = none
feed_loop (suc fuel) host m frames = elim (turn host m) [
  | stop m' ↦ some (m', record { frames = frames; error = none_error })
  | fail e ↦ some (reset m, record { frames = frames; error = e })
  | again m' frame ↦ feed_loop fuel host m' (frames ++ (frame ∷ []))
  | fault ↦ none
]

unfoldable pub feed : Endian → FrameReassembler → List ℕ → Option (FrameReassembler × FeedResult)
feed host m input =
    let c = compact m in
    let m' = record c { buffer = c.buffer ++ input } in
    if ltb m'.buffered_bytes_cap (live_bytes m')
    then some (reset m', record { frames = []; error = buffer_overflow })
    else feed_loop (length (m'.buffer) + 2) host m' []

unfoldable pub frame_in_progress : FrameReassembler → Bool
frame_in_progress m = elim m.state [
  | reading_payload ↦ true
  | reading_header ↦ not (live_bytes m == 0)
]

unfoldable pub pending_payload_len : FrameReassembler → Option ℕ
pending_payload_len m = elim m.state [
  | reading_payload ↦ some m.pending_header.payload_len
  | reading_header ↦ none
]
