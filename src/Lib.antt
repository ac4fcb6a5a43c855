-- ===== src/Lib.antt =====
-- Micro XRCE-DDS Client (src/c, include/uxr/client): the client side of the DDS-XRCE protocol.
--
-- The parts of the program and the files that model them. Paths are from the repository's root.
--
-- - Prelude: what the other files share. Bytes and machine words are native natural numbers; a sum
--   that the C code casts to w bits is taken modulo 2 ^ w. `size_t` has 64 bits. Arrays are lists.
-- - SeqNum (src/c/core/session/stream/seq_num.c): the 16-bit sequence numbers of the streams.
-- - StreamId (src/c/core/session/stream/stream_id.c), ObjectId (src/c/core/session/object_id.c): the
--   identifiers and their raw octets.
-- - Framing (src/c/profile/transport/stream_framing/stream_framing_protocol.c): messages over a byte
--   stream, as the serial transports use it. `Framing.FramingIo` is `uxrFramingIO`;
--   Framing/Octets, Framing/Write, Framing/Ring and Framing/Read hold its functions. A transport is
--   a parameter: its state `W`, its callbacks, and the clock. `sent` and `feed` say which bytes it
--   has taken and which are still to come (`IsTransport`, `IsSource`).
-- - Stream (src/c/core/session/stream, src/c/core/session/submessage.c): what a session keeps for each
--   stream. Stream/ReliableBuffer is common_reliable_stream_internal.h: a block of memory as a function
--   from offsets to bytes, and pointers into it as offsets. Stream/InputReliable and
--   Stream/OutputReliable hold the functions of input_reliable_stream.c and output_reliable_stream.c,
--   Stream/BestEffort those of the two best-effort files, Stream/Storage those of stream_storage.c.
--   Their callback for fragments is a function on memory. A buffer that is initialised for Micro-CDR is
--   given by its first byte, its size and its callback.
-- - Tcp (src/c/profile/transport/ip/tcp/tcp_transport.c): Tcp/Send is `send_tcp_msg`, Tcp/Receive is
--   `read_tcp_data` and `recv_tcp_msg`. The platform's socket functions are the record `TcpPlatform`
--   over a state `W`; `IsTcpSink` and `IsTcpSource` say what is assumed of them. `mtu` stands for
--   UXR_CONFIG_TCP_TRANSPORT_MTU, the size of the buffer; a read that stores more ends in `overrun`. The static
--   `error_code` is a field of the transport.
--
-- - Xrce (src/c/core/serialization/xrce_types.c, include/uxr/client/core/type/xrce_types.h): Xrce/Cdr is
--   the interface of Micro-CDR and the control flow that the functions share (`ret &= ...`,
--   `if (ret)`, the loop over a sequence, an optional member). Xrce/Cdr/Laws says what is assumed of
--   Micro-CDR: a buffer holds items, a write that fits appends one, a read of the item takes it off.
--   Each other child models a stretch of the file: the types, Serialize and Deserialize with
--   `uxr_serialize_X` and `uxr_deserialize_X` as `serialize_x` and `deserialize_x`, Layout with the
--   items that stand for a value and the bounds of the types, Codec with the proofs. What a failed
--   read leaves in its destination is a value of the interface.
--
-- - Session (src/c/core/session/session_info.c, submessage.c, session.c, src/c/core/serialization/
--   xrce_header.c, xrce_subheader.c): Session/Header and Session/Submessage are the headers,
--   Session/Info the identity and the requests of a session, Session/Flush the loops of
--   `uxr_flash_output_streams` over the reliable streams, Session/Status the loops of `process_status`
--   and of the runs that wait for statuses. `uxrCommunication` is a parameter.
--
-- A stream storage has the streams, which use the sequence numbers and the slots; a session takes
-- messages off its output streams, stamps its header on them, and hands them to a transport, which is
-- the framing protocol over a serial line or TCP. What it serializes are the XRCE types.
--
-- Loops that end in the C code by a test take a number of rounds here, and `none` says that they were
-- used up. The octet loops of a write get two rounds for each octet, the flush loop one for each
-- pending byte and one more, the TCP state machine one more than the bytes to come, and the results
-- below show that these are enough. The search for the last fragment has no number that is always
-- enough; the results say when it ends.
--
-- Locks (profile/multithread) are not modelled: every operation is one atomic step. Not modelled
-- either are the dispatch of what a session receives and the waiting of its run loops, the entities
-- and data that it creates, the callbacks of an application, the sockets and serial ports of each
-- platform, logging, discovery, and the serialization library Micro-CDR, which is not part of the
-- repository.
-- `uxr_prepare_reliable_buffer_to_write` and its callback write through Micro-CDR and are left out.
pub mod Prelude
pub mod SeqNum
pub mod StreamId
pub mod ObjectId
pub mod Framing
pub mod Stream
pub mod Tcp
pub mod Xrce
pub mod Session
