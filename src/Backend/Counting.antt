-- ===== src/Backend/Counting.antt =====
-- Each datagram that arrives is counted once by what becomes of it.
use st2110_obs_plugin.Base.{
  ℕ, ◌+◌, ◌%◌, ◌/◌, ◌≤◌, ◌<◌, ◌≡◌, ◌≢◌, ◌⊎◌, ◌↔◌, true, false, ltb, ==_iff, ◌++◌, inl, inr, refl,
  not, List, [], ◌∷◌, length, arith, Expected, ok, unexpected, inc64, u64_mod, Bool-cases, ◌==◌,
  is_ok, length-append,
}
use st2110_obs_plugin.Foundation.{byte}
use st2110_obs_plugin.VideoPacket.{validate_packet_parse_policy}
use st2110_obs_plugin.Stored.{StoredPacket, PacketView}
use st2110_obs_plugin.Backend.{
  Backend, BackendStats, is_rtcp_like_datagram, rtp_of, store_at, accept_packet, enqueue,
  push_queue, process_received_datagram,
}

-- Ignored or rejected, or parsed and then queued, or dropped because the queue is closed.
abbrev pub seen_so_far : BackendStats → ℕ
seen_so_far s =
    s.control_datagrams_ignored + s.packets_rejected + s.nonmedia_datagrams_ignored
    + s.packets_parsed_ok

abbrev pub queued : Backend → ℕ
queued b = length b.packet_queue.packets

-- One datagram more, and its packet in the queue if it was parsed and not dropped.
pub record Counted (b b' : Backend) : Type 0 where
  pub once : seen_so_far b'.stats % u64_mod ≡ (seen_so_far b.stats + 1) % u64_mod
  pub kept :
      (queued b' + b'.stats.datagrams_dropped + b.stats.packets_parsed_ok) % u64_mod
      ≡ (queued b + b.stats.datagrams_dropped + b'.stats.packets_parsed_ok) % u64_mod
  pub same_buffer : b'.reorder_buffer ≡ b.reorder_buffer

enqueue-kept :
    (b : Backend) (p : StoredPacket)
    → let b' = enqueue b p in
      ((queued b' + b'.stats.datagrams_dropped) % u64_mod
        ≡ (queued b + b.stats.datagrams_dropped + 1) % u64_mod)
      × (seen_so_far b'.stats ≡ seen_so_far b.stats)
      × (b'.stats.packets_parsed_ok ≡ b.stats.packets_parsed_ok)
      × (b'.reorder_buffer ≡ b.reorder_buffer)
unfolding enqueue push_queue
enqueue-kept b p = elim (Bool-cases b.packet_queue.closed) [
  | inl c ↦ rw c (omega arith, refl, refl, refl)
  | inr c ↦ rw c (omega (arith, length-append b.packet_queue.packets (p ∷ [])), refl, refl, refl)
]

accept_packet-Counted :
    (b : Backend) (now : ℕ) (r : Expected PacketView) → Counted b (accept_packet b now r)
unfolding accept_packet
accept_packet-Counted b now (unexpected e) = record {
  once = ground arith;
  kept = ground arith;
  same_buffer = refl;
}
accept_packet-Counted b now (ok packet) =
    elim (Bool-cases (not ((rtp_of packet).payload_type == b.expected_payload_type))) [
      | inl t ↦ rw t (record { once = ground arith; kept = ground arith; same_buffer = refl })
      | inr t ↦
          let c = record b {
            stats = record b.stats { packets_parsed_ok = inc64 b.stats.packets_parsed_ok };
          } in
          let k = enqueue-kept c (store_at now packet) in
          rw t (record {
            once = omega (arith, k.1);
            kept = omega (arith, k.0, k.2);
            same_buffer = k.3;
          })
    ]

-- A datagram of RTP's version 2 with a packet type of RTCP.
abbrev pub IsControl : List ℕ → Type 0
IsControl udp =
    (2 ≤ length udp) × (byte udp 0 / 64 % 4 ≡ 2) × (192 ≤ byte udp 1) × (byte udp 1 ≤ 223)

is_rtcp_like_datagram_iff : (udp : List ℕ) → (is_rtcp_like_datagram udp ≡ true) ↔ IsControl udp
unfolding is_rtcp_like_datagram
is_rtcp_like_datagram_iff udp = ground arith

-- What a packet of the expected payload type does: it is counted as parsed, and stands behind the
-- others if the queue is open, or is counted as dropped if it is closed.
abbrev pub Queued : Backend → StoredPacket → Backend → Type 0
Queued b packet b' =
    ((b.packet_queue.closed ≡ false)
      × (b' ≡ record b {
        stats = record b.stats { packets_parsed_ok = inc64 b.stats.packets_parsed_ok };
        packet_queue = record b.packet_queue { packets = b.packet_queue.packets ++ packet ∷ [] };
      }))
    ⊎ ((b.packet_queue.closed ≡ true)
        × (b' ≡ record b {
          stats = record b.stats {
            packets_parsed_ok = inc64 b.stats.packets_parsed_ok;
            datagrams_dropped = inc64 b.stats.datagrams_dropped;
          };
        }))

-- What the parser's answer leads to.
abbrev pub Parsed : Backend → ℕ → Expected PacketView → Backend → Type 0
Parsed b now (unexpected error) b' =
    b' ≡ record b { stats = record b.stats { packets_rejected = inc64 b.stats.packets_rejected } }
Parsed b now (ok packet) b' =
    (((rtp_of packet).payload_type ≢ b.expected_payload_type)
      × (b' ≡ record b {
        stats = record b.stats {
          nonmedia_datagrams_ignored = inc64 b.stats.nonmedia_datagrams_ignored;
        };
      }))
    ⊎ (((rtp_of packet).payload_type ≡ b.expected_payload_type) × Queued b (store_at now packet) b')

-- What becomes of a datagram: nothing but what is said changes.
abbrev pub Became : (List ℕ → Expected PacketView) → Backend → List ℕ → ℕ → Backend → Type 0
Became parse_packet b udp now b' =
    (IsControl udp
      × (b' ≡ record b {
        stats = record b.stats {
          control_datagrams_ignored = inc64 b.stats.control_datagrams_ignored;
        };
      }))
    ⊎ ((¬ IsControl udp)
        × (b.maxudp < length udp + 8)
        × (b' ≡ record b {
          stats = record b.stats { packets_rejected = inc64 b.stats.packets_rejected };
        }))
    ⊎ ((¬ IsControl udp) × (length udp + 8 ≤ b.maxudp) × Parsed b now (parse_packet udp) b')

enqueue-Queued :
    (b : Backend) (packet : StoredPacket)
    → Queued b packet (
        enqueue
          (record b {
            stats = record b.stats { packets_parsed_ok = inc64 b.stats.packets_parsed_ok };
          })
          packet)
unfolding enqueue push_queue
enqueue-Queued b packet = elim (Bool-cases b.packet_queue.closed) [
  | inl c ↦ rw c (inr (refl, refl))
  | inr c ↦ rw c (inl (refl, refl))
]

accept_packet-Parsed :
    (b : Backend) (now : ℕ) (r : Expected PacketView) → Parsed b now r (accept_packet b now r)
unfolding accept_packet
accept_packet-Parsed b now (unexpected error) = refl
accept_packet-Parsed b now (ok packet) =
    elim (Bool-cases ((rtp_of packet).payload_type == b.expected_payload_type)) [
      | inl t ↦ rw t (inr ((==_iff _ _).0 t, enqueue-Queued b (store_at now packet)))
      | inr t ↦ rw t (inl (ground arith, refl))
    ]

process_received_datagram-Became :
    (parse_packet : List ℕ → Expected PacketView) (b : Backend) (udp_payload : List ℕ) (now : ℕ)
    → Became parse_packet b udp_payload now
        (process_received_datagram parse_packet b udp_payload now)
unfolding process_received_datagram validate_packet_parse_policy
process_received_datagram-Became parse b udp now = elim (Bool-cases (is_rtcp_like_datagram udp)) [
  | inl t ↦ rw t (inl ((is_rtcp_like_datagram_iff udp).0 t, refl))
  | inr t ↦
      let media : ¬ IsControl udp = λ c. ground (arith, t, (is_rtcp_like_datagram_iff udp).1 c) in
      elim (Bool-cases (ltb b.maxudp (length udp + 8))) [
        | inl u ↦ rw (t, u) (inr (inl (media, ground arith, refl)))
        | inr u ↦
            rw (t, u) (inr (inr (media, ground arith, accept_packet-Parsed b now (parse udp))))
      ]
]

-- Whatever the datagram and the parser, the datagram is counted exactly once: as control traffic if it
-- looks like RTCP; else as rejected if it is larger than the limit or the parser refuses it; else as of
-- another payload type if it is; else as parsed, and then it is put behind the others into the queue if
-- that is open, or counted as dropped if it is closed. Nothing else changes; counts are modulo 2^64.
pub process_received_datagram-Counted :
    (parse_packet : List ℕ → Expected PacketView) (b : Backend) (udp_payload : List ℕ) (now : ℕ)
    → let b' = process_received_datagram parse_packet b udp_payload now in
      Counted b b' × Became parse_packet b udp_payload now b'
unfolding process_received_datagram
process_received_datagram-Counted parse b udp now = (
  elim (Bool-cases (is_rtcp_like_datagram udp)) [
    | inl t ↦ rw t (record { once = ground arith; kept = ground arith; same_buffer = refl })
    | inr t ↦ elim (Bool-cases (not (is_ok (validate_packet_parse_policy udp b.maxudp)))) [
      | inl u ↦ rw (t, u) (record { once = ground arith; kept = ground arith; same_buffer = refl })
      | inr u ↦ rw (t, u) (accept_packet-Counted b now (parse udp))
    ]
  ],
  process_received_datagram-Became parse b udp now,
)
