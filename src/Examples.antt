-- ===== src/Examples.antt =====
-- The theorems at concrete inputs.
mod Codecs
mod Streams
mod Windows
mod Handshakes
mod Bands
mod Frames
mod Datagrams
mod Links
mod Fragments
mod Queues
