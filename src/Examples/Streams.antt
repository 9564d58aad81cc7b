-- ===== src/Examples/Streams.antt =====
-- The frame reassembler at concrete inputs.
use plexus.Common.{ℕ, ◌≡◌, refl, arith, List, [], ◌∷◌, ◌++◌, some, none, length-append}
use plexus.Wire.ByteOrder.{little}
use plexus.Wire.Frame.{FrameHeader, IsFrameHeader}
use plexus.Wire.Frame.RoundTrip.{header_layout, length-header_layout}
use plexus.Wire.FrameReassembler.{
  FrameReassembler, FeedResult, frame_reassembler, feed, feed_loop, turn, turn_in, header_turn,
  compact, live_bytes, unread, none_error, buffer_overflow, reading_header,
}
use plexus.Wire.FrameReassembler.Stream.{parse}
use plexus.Wire.FrameReassembler.Refine.{feed-parse, feed_overflow}
use plexus.Wire.FrameReassembler.Payload.{IsSound, Refines, pending_of}
use plexus.Wire.FrameReassembler.Delivery.{Message, sent, received, feed-append, feed-sent}

abbrev header : FrameHeader
header = record { type = 1; flags = 0; session_id = 7; timestamp_ns = 900; payload_len = 2 }

header-IsFrameHeader : IsFrameHeader header
header-IsFrameHeader = record {
  type_fits = omega arith;
  flags_fits = omega arith;
  session_id_fits = omega arith;
  timestamp_ns_fits = omega arith;
  payload_len_fits = omega arith;
}

abbrev two_bytes : List ℕ
two_bytes = 10 ∷ 11 ∷ []

abbrev messages : List Message
messages = (header, two_bytes) ∷ []

feed-sent_example :
    (m' : FrameReassembler) × (feed little (frame_reassembler 100 100) (sent messages)
      ≡ some (m', record { frames = received messages; error = none_error }))
    × (unread m' ≡ [])
    × (pending_of m' ≡ none)
feed-sent_example =
    feed-sent little 100 100 messages
      ((header-IsFrameHeader, (omega arith, (omega arith, tt)), refl, omega arith), tt)
      (omega (
        arith,
        length-append (header_layout header) (two_bytes ++ []),
        length-header_layout header,
      ))

abbrev empty : FrameReassembler
empty = frame_reassembler 100 100

empty-IsSound : IsSound empty
unfolding frame_reassembler pending_of
empty-IsSound = record { inside = omega arith; are_bytes = tt; pending_fits = tt }

-- The first bytes of a header, and the state that waits for more of it.
abbrev first : List ℕ
first = 0x56 ∷ 0x50 ∷ 1 ∷ []

abbrev second : List ℕ
second = 0 ∷ 0 ∷ []

abbrev waiting : FrameReassembler
waiting = record {
  state = reading_header;
  max_payload_size = 100;
  buffered_bytes_cap = 100;
  consumed = 0;
  pending_header = record {
    type = 0;
    flags = 0;
    session_id = 0;
    timestamp_ns = 0;
    payload_len = 0;
  };
  buffer = first;
}

abbrev no_frames : FeedResult
no_frames = record { frames = []; error = none_error }

feed-append_example :
    (m1 m3 : FrameReassembler) × (r1 r3 : FeedResult) × (feed little empty (first ++ second)
      ≡ some (m1, r1))
    × (feed little waiting second ≡ some (m3, r3))
    × (r1.frames ≡ no_frames.frames ++ r3.frames)
    × (r1.error ≡ r3.error)
    × (pending_of m1 ≡ pending_of m3)
    × (unread m1 ≡ unread m3)
unfolding feed feed_loop turn turn_in header_turn compact live_bytes unread frame_reassembler
feed-append_example =
    feed-append little empty first second waiting no_frames empty-IsSound
      (omega arith, (omega arith, (omega arith, tt))) (omega arith, (omega arith, tt)) (omega arith)
      refl refl

feed-parse_example :
    (m' : FrameReassembler) × (res : FeedResult) × (feed little empty first ≡ some (m', res))
    × Refines []
        (parse 9 little empty.max_payload_size (pending_of empty) (unread empty ++ first))
        empty
        m'
        res
unfolding frame_reassembler unread
feed-parse_example =
    feed-parse 9 little empty first empty-IsSound (omega arith, (omega arith, (omega arith, tt)))
      (omega arith) (omega arith)

feed_overflow_example :
    (m' : FrameReassembler) × (feed little (frame_reassembler 100 2) first
      ≡ some (m', record { frames = []; error = buffer_overflow }))
    × IsSound m'
    × (unread m' ≡ [])
unfolding frame_reassembler unread pending_of
feed_overflow_example =
    feed_overflow little (frame_reassembler 100 2) first
      (record { inside = omega arith; are_bytes = tt; pending_fits = tt })
      (omega arith, (omega arith, (omega arith, tt))) (omega arith)
