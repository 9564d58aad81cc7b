-- ===== src/Wire/CloseCause.antt =====
-- lib/plexus-wire/include/plexus/wire/close_cause.h: why a stream is closed.
use plexus.Wire.FrameReassembler.{FeedError}

pub data CloseCause : Type 0 where
  invalid_magic payload_too_large buffer_overflow no_progress_timeout crc_mismatch : CloseCause

unfoldable pub to_close_cause : FeedError → CloseCause
to_close_cause FeedError.payload_too_large = CloseCause.payload_too_large
to_close_cause FeedError.buffer_overflow = CloseCause.buffer_overflow
to_close_cause FeedError.none_error = CloseCause.invalid_magic
to_close_cause FeedError.invalid_magic = CloseCause.invalid_magic
to_close_cause FeedError.no_progress = CloseCause.invalid_magic
