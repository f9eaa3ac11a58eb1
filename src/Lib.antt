-- ===== src/Lib.antt =====
-- ST2110-OBS-PLUGIN: a receiver of SMPTE ST 2110 video and audio for OBS Studio, as a verification
-- library of the receive path in libs/st2110core.
--
-- A datagram that arrives on a socket is parsed (RTP header, then for video the ST 2110-20 payload
-- header and its segments), copied into an owned packet and queued. A second thread takes it from the
-- queue, merges the duplicates of redundant legs, puts packets in order in a reorder buffer with a
-- window of sequence numbers, and drains that to the sink: for video through the depacketizer, which
-- writes the segments of one frame, field or segment into one frame, and the reconstructor, which
-- puts fields and segments together. RTP timestamps are mapped to nanoseconds.
-- Where the packets are received by the MTL library instead, a worker process does that: the plugin and
-- the worker exchange control messages, framed on a stream socket, and the worker hands frames over in
-- the slots of a ring in shared memory.
-- Paths below stand under libs/st2110core/include/st2110, where they begin with no other directory.
--
-- Base (Base/Tests, Base/Lists, Base/Words, Base/Results): shared notation, lists over the native
--   numbers, wrapping counters, the errors of foundation/error.hpp, `std::expected` as Expected, and
--   Outcome for code that returns, throws or is undefined.
-- Foundation: foundation/endian.hpp and foundation/error.hpp.
-- Rtp: ingress/shared/rtp.hpp. parse_rtp_header is written as the chain of its early returns;
--   skip_extension and trim_padding are two blocks of it.
-- PayloadHeader: ingress/shared/st2110_20.hpp. The array srd[3] is a list of three headers.
-- PacketStats: ingress/shared/packet_parse_stats.hpp.
-- VideoPacket: ingress/shared/packet_parse.hpp and receive/video/video_packet_view.hpp.
-- AudioPacket: receive/audio/audio_packet.hpp.
-- Stored: receive/shared/reorder_buffer.hpp and the stored packets of
--   receive/shared/fixed_reorder_buffer.hpp.
-- Reorder: FixedWindowReorderBuffer of receive/shared/fixed_reorder_buffer.hpp, for video (32-bit
--   numbers) and audio (16-bit numbers); the std::map is a list of entries in order of keys.
-- Downstream: backends/socket/socket_rx_single_media_backend_base.hpp, the duplicate history and the
--   drain loop. The loop runs on fuel; more than the square of the window's size is enough.
-- Backend: the same file, contracts/backend/backend.hpp and the two parse_packet of
--   socket_rx_video_backend.hpp and socket_rx_audio_backend.hpp: the packet queue, the counters, and one
--   round of each thread.
-- Timestamp: foundation/rtp_timestamp_mapper.hpp.
-- VideoFrame: delivery/video/video_frame.hpp and pixel_format.hpp.
-- Assembler: receive/video/frame_write_coverage.hpp and frame_assembler.hpp.
-- Depacketizer: receive/video/depacketizer.hpp and contracts/video/depacketizer_config.hpp.
-- Reconstructor: receive/video/video_unit_reconstructor.hpp and video_receive_pipeline.hpp.
-- Word: unsigned integers that carry their bound, for the fields of the worker's messages.
-- Protocol: backends/mtl/mtl_worker_protocol.hpp, the descriptor of a ring and its tests.
-- Codec: libs/st2110core/src/backends/mtl/mtl_worker_ipc_codec.cpp. A Writer (Codec/Writer) is what is
--   put in front of the bytes that come later, a Reader (Codec/Reader) a function of the bytes that are
--   left; each enum is the number on the wire and its tests. Reads (Codec/Reading) is the relation that
--   Codec/RoundTrip builds up from primitives to messages, Codec/Prefix that reading does not depend on
--   later bytes.
-- Framing: libs/st2110core/src/backends/mtl/mtl_worker_ipc_framing.cpp, writing (Framing/Send) and
--   reading (Framing/Receive) a frame. The answer of each system call is an element of a list, and a run
--   that has used them all is still waiting; an Account has the descriptors that are owned and closed.
-- Ring: backends/mtl/mtl_worker_shared_memory_ring.hpp and
--   libs/st2110core/src/backends/mtl/mtl_worker_shared_memory_ring.cpp. The headers of the slots are a
--   list by index, 192 bytes each in the file; what fstat and mmap answer is an argument. Each operation
--   is one step, but for begin_read_slot_if_matches, between whose look and exchange the other process
--   makes any steps on the slot (Ring/Operations). Ring/View is the abstract slot, Ring/Promises shows
--   that the operations refine it.
-- Tests: concrete runs, and each theorem applied at a concrete input.
--
-- A byte is a number below 256 (IsBytes where it matters), a machine integer a number with its
-- wrap-around written out; positions inside an object in memory do not wrap. A throw and an access
-- outside an object are outcomes of their own (Outcome). Not modelled: sockets, processes
-- and the mapping of memory, which are the platform; thread scheduling, since each round runs under the
-- locks of the class; the audio assembler, the session descriptions, the class that
-- owns a received frame, the worker's manager and clients, the calls of the MTL library and the OBS side.
pub mod Base
pub mod Foundation
pub mod Rtp
pub mod PayloadHeader
pub mod PacketStats
pub mod VideoPacket
pub mod AudioPacket
pub mod Stored
pub mod Reorder
pub mod Downstream
pub mod Backend
pub mod Timestamp
pub mod VideoFrame
pub mod Assembler
pub mod Depacketizer
pub mod Reconstructor
pub mod Word
pub mod Protocol
pub mod Codec
pub mod Framing
pub mod Ring
pub mod Tests
