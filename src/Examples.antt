-- ===== src/Examples.antt =====
-- Concrete inputs: a ring whose readable bytes wrap, streams cut into single bytes, a peer that takes
-- a few bytes at a time, and a session between two sides.
mod Rings
mod Streams
mod Channels
mod Codecs
mod Decoding
mod Encoding
