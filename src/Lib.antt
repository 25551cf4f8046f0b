-- ===== src/Lib.antt =====
-- Universal Protocol Runtime: frames of declared binary protocols are cut out of byte streams and
-- decoded, and sent over framed channels.
--
-- Parts and files (paths from the repository's root).
--
-- A stream runtime (packages/upr_runtime/include/universal_protocol_runtime/runtime) polls a
-- transport into a byte ring, asks a framer for a frame in front of the ring's contents, and hands
-- the frame to a decoder. `Ring` is byte_ring_buffer.hpp: its record has the two indices and the
-- storage, its operations have the source's names, and the capacity is the section's parameter.
-- `Framing`, `Framing.FixedSize` and `Framing.LengthPrefixed` are the interface `IFramer` and the two
-- framers of packages/upr_runtime/src/framing; `Framing.Laws` has what the runtime relies on of a
-- framer. `Transport` is `ITransport`, with its laws in `Transport.Laws`; `Transport.SpanTransport`
-- is transport/span_transport.hpp. `Stream` is stream_runtime.hpp: `fill_buffer`,
-- `try_extract_frame`, `policy_for` and `poll`, with one round of the loop as `round`. The decoder is
-- a function from a frame and the message object to a status and the object as it is left.
--
-- `Layout` is the compiled protocol that the decoder walks
-- (packages/upr_compiler/include/universal_protocol_runtime/compiler/compiled_protocol.hpp);
-- `Layout.Names` has its lookups by name, and `Layout.Variants` the dense table of variant cases with
-- its construction in schema_compiler.cpp. `Decoded` is the state of a `DecodedMessage`
-- (packages/upr_runtime/src/decoder/decoded_message.cpp) and what reads it during decoding,
-- `Decoded.Assign` its `assign_from_layout`, `Decoded.Access` and `Decoded.Nested` the accessors and
-- `DecodedCollectionView`. `Outcome` is how a decoding ends: with a value, with a `DecodeStatus`, with
-- an access out of bounds, or out of fuel. `Decoded.Compiled` says what the decoder relies on of the
-- schema compiler. `ByteOps` is the checksums and text validation of
-- decoder/direct_decode_support.hpp; the vector routines that the runtime uses for some of them are an
-- interface, with the header's scalar build as one implementation.
--
-- `Dispatch` is how `ProtocolDecoder::decode_any`
-- (packages/upr_runtime/src/decoder/protocol_decoder.cpp) chooses the layouts to try, with the table
-- that the constructor of `CompiledProtocol`
-- (packages/upr_compiler/src/compiler/schema_compiler.cpp) builds; `Dispatch.Decoder` is the rest of
-- protocol_decoder.cpp, decoding by name, with a mask of fields and with a plan. `Scalar` is the reading and
-- writing of unsigned scalars (decoder/direct_decode_support.hpp and
-- encoder/direct_encode_support.hpp), compared with the values and bytes of `Scalar.Value`. `Encoder`
-- and `Encoder.Finalize` are `MessageBuilder` (packages/upr_runtime/src/encoder/message_encoder.cpp), whose
-- calls are functions from a builder to how the call ends and the builder after it. `Hash` is
-- packages/utils/include/utils/xxhash64.hpp, with which schemas are fingerprinted.
--
-- `Channel`, `Channel.Receive` and `Channel.Send` are `FrameChannel`
-- (packages/upr_adapters/src/adapters/frame_channel.cpp) over `IByteStreamTransport`, and `Session`
-- is the handshake of upr_session.cpp over a channel. `Status` and `Core` have the shared values,
-- `Base` the shared lemmas, and `Examples` the runs on concrete inputs.
--
-- Conventions. A byte is a number below 256 and a span of bytes a list. `size_t` and `uint64_t` are
-- numbers whose additions and shifts wrap at 2 ^ 64 where that could happen; a ring's capacity is at
-- most 2 ^ 62 (`Ring.Invariant.IsCapacity`), and what a channel has received and is still to receive
-- is below 2 ^ 64 bytes (`IsSound` of `Channel.Receive.Unread`). An object that a function changes
-- is an argument and part of its result.
--
-- Bounds. The loops that wait for a transport take a number of rounds and return `none` when it does
-- not suffice: `poll` is called with more rounds than the free slots of the ring and one, the loop of
-- `try_acquire_frame` with more than the bytes left in the transport, and the writing loops with more
-- than the bytes to write. `assign_from_layout` takes as many levels of fuel as the layouts nest
-- deep (`IsCompiled`). The loops of the hash are bounded by the number of their bytes. The polls
-- of a handshake before its deadline are an argument, since the clock decides them.
--
-- Not modelled: the segmented message builder and `ProtocolEncoder`, the checksum registry and the vector
-- routines themselves, the schema loader, the schema compiler but for the tables of dispatch candidates
-- and variant cases, the operating-system transports, the code generator, discovery, workbench and bindings. The
-- endpoint names, flushing and shutdown of `IByteStreamTransport` are not used by a channel.
pub mod Base
pub mod Core
pub mod Ring
pub mod Framing
pub mod Scalar
pub mod Status
pub mod Transport
pub mod Stream
pub mod Channel
pub mod Session
pub mod Dispatch
pub mod Outcome
pub mod Layout
pub mod ByteOps
pub mod Decoded
pub mod Encoder
pub mod Hash
pub mod Examples
