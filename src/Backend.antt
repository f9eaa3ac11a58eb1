-- ===== src/Backend.antt =====
-- libs/st2110core/include/st2110/backends/socket/socket_rx_single_media_backend_base.hpp and
-- contracts/backend/backend.hpp: from a datagram to the packet queue, and from the queue through the
-- reorder buffer. The two threads share the state below under locks; each function is one of their
-- rounds. The virtual `parse_packet` is an argument, with the two that exist as instances.
pub mod Counting
pub mod Duplicates
use mathlib.Core.Option
use st2110_obs_plugin.Base.{
  ℕ, zero, suc, ◌+◌, ◌/◌, ◌%◌, Bool, true, false, not, ◌&&◌, ◌||◌, Option, none, some, List, [],
  ◌∷◌, ◌++◌, length, get_or, ltb, leb, ◌==◌, if◌then◌else◌, Error, no_error, is_ok, Expected, ok,
  unexpected, Outcome, returns, throws, undefined, and_then, inc64, add64,
}
use st2110_obs_plugin.Foundation.{byte}
use st2110_obs_plugin.Rtp.{RtpHeaderView}
use st2110_obs_plugin.VideoPacket.{VideoPacketView, parse_packet_view, validate_packet_parse_policy}
use st2110_obs_plugin.AudioPacket.{
  AudioPacketView, AudioMediaDescription, parse_audio_rtp_packet_view,
}
use st2110_obs_plugin.Stored.{
  StoredPacket, PacketView, video_view, audio_view, store_video, store_audio, reorder_sequence,
}
use st2110_obs_plugin.Reorder.{Buffer, push, reset}
use st2110_obs_plugin.Downstream.{
  ReorderBufferConfig, DuplicateMergeHistory, seen, remember, drain_reorder_buffer_to_sink,
}

-- The counters that the class writes.
pub record BackendStats : Type 0 where
  pub datagrams_received : ℕ
  pub bytes_received : ℕ
  pub control_datagrams_ignored : ℕ
  pub nonmedia_datagrams_ignored : ℕ
  pub packets_parsed_ok : ℕ
  pub packets_rejected : ℕ
  pub frames_delivered : ℕ
  pub datagrams_dropped : ℕ
  pub media_units_delivered : ℕ

-- `SocketRxStoredPacketQueue`; a new queue is closed.
pub record PacketQueue : Type 0 where
  pub packets : List StoredPacket
  pub closed : Bool

unfoldable pub reset_queue : PacketQueue → PacketQueue
reset_queue q = record { packets = []; closed = false }

unfoldable pub close_queue : PacketQueue → PacketQueue
close_queue q = record q { closed = true }

unfoldable pub push_queue : PacketQueue → StoredPacket → Bool × PacketQueue
push_queue q packet =
    if q.closed then (false, q) else (true, record q { packets = q.packets ++ packet ∷ [] })

-- `none` while the call waits; the packet that it returns is none if the queue is closed and empty, or
-- if a stop is requested while it is empty.
unfoldable pub wait_pop : Bool → PacketQueue → Option (Option StoredPacket × PacketQueue)
wait_pop stop_requested q = elim q.packets [
  | [] ↦ if q.closed || stop_requested then some (none, q) else none
  | p ∷ ps ↦ some (some p, record q { packets = ps })
]

pub record Backend : Type 0 where
  pub maxudp : ℕ
  pub expected_payload_type : ℕ
  pub reorder_buffer_config : ReorderBufferConfig
  pub duplicate_merge_enabled : Bool
  pub reorder_buffer : Buffer
  pub duplicate_merge_history : DuplicateMergeHistory
  pub packet_queue : PacketQueue
  pub stats : BackendStats

unfoldable pub is_rtcp_like_datagram : List ℕ → Bool
is_rtcp_like_datagram udp_payload =
    if ltb (length udp_payload) 2
    then false
    else if not (byte udp_payload 0 / 64 % 4 == 2)
    then false
    else leb 192 (byte udp_payload 1) && leb (byte udp_payload 1) 223

-- `SocketRxVideoBackend::parse_packet`
unfoldable pub parse_video_packet : List ℕ → Expected PacketView
parse_video_packet udp_payload = elim (parse_packet_view udp_payload) [
  | ok v ↦ ok (video_view v)
  | unexpected e ↦ unexpected e
]

-- `SocketRxAudioBackend::parse_packet`
unfoldable pub parse_audio_packet : AudioMediaDescription → ℕ → List ℕ → Expected PacketView
parse_audio_packet media samples_per_packet udp_payload =
    elim (parse_audio_rtp_packet_view udp_payload media samples_per_packet) [
      | ok a ↦ ok (audio_view a)
      | unexpected e ↦ unexpected e
    ]

abbrev pub rtp_of : PacketView → RtpHeaderView
rtp_of (video_view v) = v.rtp
rtp_of (audio_view a) = a.rtp

-- `(*packet)->receive_timestamp_ns = …; (*packet)->store()`
unfoldable pub store_at : ℕ → PacketView → StoredPacket
store_at now (video_view v) = store_video (record v { receive_timestamp_ns = now })
store_at now (audio_view a) = store_audio (record a { receive_timestamp_ns = now })

unfoldable pub record_datagram_received : BackendStats → ℕ → BackendStats
record_datagram_received s size_bytes = record s {
  datagrams_received = inc64 s.datagrams_received;
  bytes_received = add64 s.bytes_received size_bytes;
}

abbrev pub record_control_datagram_ignored : BackendStats → BackendStats
record_control_datagram_ignored s = record s {
  control_datagrams_ignored = inc64 s.control_datagrams_ignored;
}

abbrev pub record_nonmedia_datagram_ignored : BackendStats → BackendStats
record_nonmedia_datagram_ignored s = record s {
  nonmedia_datagrams_ignored = inc64 s.nonmedia_datagrams_ignored;
}

abbrev pub record_packet_parsed_ok : BackendStats → BackendStats
record_packet_parsed_ok s = record s { packets_parsed_ok = inc64 s.packets_parsed_ok }

abbrev pub record_packet_rejected : BackendStats → BackendStats
record_packet_rejected s = record s { packets_rejected = inc64 s.packets_rejected }

abbrev pub record_datagram_dropped : BackendStats → BackendStats
record_datagram_dropped s = record s { datagrams_dropped = inc64 s.datagrams_dropped }

-- The end of `process_received_datagram`: the packet goes into the queue.
unfoldable pub enqueue : Backend → StoredPacket → Backend
unfolding push_queue
enqueue b packet =
    let (pushed, queue) = push_queue b.packet_queue packet in
    if pushed
    then record b { packet_queue = queue }
    else record b { packet_queue = queue; stats = record_datagram_dropped b.stats }

-- `process_received_datagram` from the parsed packet on.
unfoldable pub accept_packet : Backend → ℕ → Expected PacketView → Backend
unfolding enqueue store_at
accept_packet b now (unexpected e) = record b { stats = record_packet_rejected b.stats }
accept_packet b now (ok packet) =
    if not ((rtp_of packet).payload_type == b.expected_payload_type)
    then record b { stats = record_nonmedia_datagram_ignored b.stats }
    else enqueue (record b { stats = record_packet_parsed_ok b.stats }) (store_at now packet)

unfoldable pub process_received_datagram :
    (List ℕ → Expected PacketView) → Backend → List ℕ → ℕ → Backend
unfolding accept_packet
process_received_datagram parse_packet b udp_payload receive_timestamp_ns =
    if is_rtcp_like_datagram udp_payload
    then record b { stats = record_control_datagram_ignored b.stats }
    else if not (is_ok (validate_packet_parse_policy udp_payload b.maxudp))
    then record b { stats = record_packet_rejected b.stats }
    else accept_packet b receive_timestamp_ns (parse_packet udp_payload)

-- A round of `run_receive_loop` whose port has received a datagram.
unfoldable pub receive_datagram : (List ℕ → Expected PacketView) → Backend → List ℕ → ℕ → Backend
receive_datagram parse_packet b udp_payload receive_timestamp_ns =
    process_received_datagram parse_packet
      (record b { stats = record_datagram_received b.stats (length udp_payload) }) udp_payload
      receive_timestamp_ns

module _ (is_video : Bool) where
  abbrev pub drained :
      Backend → Outcome (List StoredPacket × Buffer) → Outcome (List StoredPacket × Backend)
  drained b r = and_then r (λ s. returns (s.0, record b { reorder_buffer = s.1 }))

  -- After the push: the number is remembered, and the buffer is drained on the fuel given.
  unfoldable pub drain_pushed : ℕ → Backend → ℕ → Option (Outcome (List StoredPacket × Backend))
  drain_pushed fuel b sequence =
      let cfg = b.reorder_buffer_config in
      let history =
        if b.duplicate_merge_enabled
        then remember b.duplicate_merge_history sequence cfg.window_size_packets
        else b.duplicate_merge_history in
      Option.map (drained (record b { duplicate_merge_history = history })) (
        drain_reorder_buffer_to_sink is_video cfg.reorder_tolerance_policy cfg.flush_after_n_packets
          fuel b.reorder_buffer)

  -- The packets delivered, with the new state. The function is `noexcept`: a throw in it ends the
  -- program.
  unfoldable pub process_stored_packet_downstream :
      ℕ → Backend → StoredPacket → Option (Outcome (List StoredPacket × Backend))
  unfolding drain_pushed
  process_stored_packet_downstream fuel b packet =
      let sequence = reorder_sequence packet in
      let (err, buffer) = push is_video b.reorder_buffer packet in
      let pushed = record b { reorder_buffer = buffer } in
      if b.duplicate_merge_enabled && seen b.duplicate_merge_history sequence
      then some (returns ([], b))
      else if not (is_ok err)
      then some (returns ([], record pushed { stats = record_datagram_dropped b.stats }))
      else drain_pushed fuel pushed sequence
