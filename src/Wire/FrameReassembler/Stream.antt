-- ===== src/Wire/FrameReassembler/Stream.antt =====
-- What a byte stream means: the frames in it, and what is left of it for the next bytes.
use plexus.Common.{ℕ, zero, suc}
use plexus.Common.{Option, none, some, List, [], ◌∷◌, ◌++◌, length, take, drop, ltb, if◌then◌else◌}
use plexus.Wire.ByteOrder.{Endian}
use plexus.Wire.Frame.{FrameHeader, header_size}
use plexus.Wire.Frame.Codec.{decode_header}
use plexus.Wire.Frame.RoundTrip.{header_layout}
use plexus.Wire.FrameReassembler.{
  CompleteFrame, FeedError, none_error, invalid_magic, payload_too_large,
}

-- After an error nothing is left.
pub record Parsed : Type 0 where
  pub frames : List CompleteFrame
  pub pending : Option FrameHeader
  pub left : List ℕ
  pub error : FeedError

abbrev pub failed : FeedError → Parsed
failed e = record { frames = []; pending = none; left = []; error = e }

abbrev pub waiting : Option FrameHeader → List ℕ → Parsed
waiting pending left = record { frames = []; pending = pending; left = left; error = none_error }

abbrev pub frame_of : FrameHeader → List ℕ → CompleteFrame
frame_of h bytes = record { header = h; payload = header_layout h ++ take h.payload_len bytes }

abbrev pub prepend : CompleteFrame → Parsed → Parsed
prepend f p = record p { frames = f ∷ p.frames }

-- Behind a header; `next` is the meaning of what follows its payload.
unfoldable pub after_header : ℕ → FrameHeader → List ℕ → Parsed → Parsed
after_header limit h bytes next =
    if ltb limit h.payload_len
    then failed payload_too_large
    else if ltb (length bytes) h.payload_len
    then waiting (some h) bytes
    else prepend (frame_of h bytes) next

-- A stream that begins with a header. The fuel bounds the frames, of 28 bytes at least.
unfoldable pub scan : ℕ → Endian → ℕ → List ℕ → Parsed
unfolding after_header
scan zero host limit bytes = waiting none bytes
scan (suc n) host limit bytes =
    if ltb (length bytes) header_size then waiting none bytes else elim (decode_header host bytes) [
      | none ↦ failed invalid_magic
      | some h ↦
          after_header limit h (drop header_size bytes)
            (scan n host limit (drop h.payload_len (drop header_size bytes)))
    ]

-- A stream that goes on with a header already read, or none.
unfoldable pub parse : ℕ → Endian → ℕ → Option FrameHeader → List ℕ → Parsed
unfolding scan
parse n host limit none bytes = scan n host limit bytes
parse n host limit (some h) bytes =
    after_header limit h bytes (scan n host limit (drop h.payload_len bytes))
