-- ===== src/Tests/Timing.antt =====
-- A clock across its wrap-around, a datagram through the backend, and the history of duplicates.
use st2110_obs_plugin.Reorder.{admit, place, pop_next, store_packet}
use st2110_obs_plugin.Reorder.Entries.{contains, emplace, erase, find}
use st2110_obs_plugin.Downstream.{apply_reorder_buffer_policy, drain_reorder_buffer_to_sink}
use st2110_obs_plugin.Stored.{StoredPacket, video}
use st2110_obs_plugin.Base.{some, returns, no_error}
use st2110_obs_plugin.Reorder.{push}
use st2110_obs_plugin.Backend.{process_stored_packet_downstream}
use st2110_obs_plugin.Backend.Duplicates.{process_stored_packet_downstream-twice}
use st2110_obs_plugin.Tests.Parse.{datagram_header}
use st2110_obs_plugin.Base.{
  ℕ, ◌+◌, ◌-◌, ◌*◌, ◌/◌, ◌≤◌, ◌≡◌, refl, true, false, List, [], ◌∷◌, map, length, arith, ok,
}
use st2110_obs_plugin.Timestamp.{
  RtpTimestampMapperConfig, first_observed_becomes_local_zero, make_mapper,
  rtp_ticks_to_timestamp_ns, nanoseconds_per_second,
}
use st2110_obs_plugin.Timestamp.Unwrapping.{map_all, wrap, map_all-unwraps}
use st2110_obs_plugin.Timestamp.Checked.{fitting, rtp_ticks_to_timestamp_ns-exact}
use st2110_obs_plugin.Downstream.{DuplicateMergeHistory, wait_for_missing, seen, remember}
use st2110_obs_plugin.Downstream.History.{IsSynced, remember-IsSynced}
use st2110_obs_plugin.Reorder.{no_stats}
use st2110_obs_plugin.Backend.{Backend, parse_video_packet, process_received_datagram}
use st2110_obs_plugin.Backend.Counting.{Counted, Became, process_received_datagram-Counted}
use st2110_obs_plugin.Tests.Parse.{datagram}

-- 90 kHz; the readings are ten ticks before the wrap-around and behind it.
abbrev clock : RtpTimestampMapperConfig
clock = record {
  rtp_clock_rate = 90000;
  initial_anchor_mode = first_observed_becomes_local_zero;
  anchor_rtp_timestamp = 0;
  anchor_timestamp_ns = 0;
}

abbrev before_wrap : ℕ
before_wrap = 4294967286

abbrev readings : List ℕ
readings = 4294967296 ∷ 4295057286 ∷ []

map_all-unwraps_example :
    (map_all (make_mapper clock) (map wrap (before_wrap ∷ readings))).0
    ≡ ok 0 ∷ map (λ t. rtp_ticks_to_timestamp_ns (t - before_wrap) 90000 0) readings
map_all-unwraps_example =
    map_all-unwraps clock before_wrap readings refl (omega arith) (omega arith)

rtp_ticks_to_timestamp_ns-exact_example :
    rtp_ticks_to_timestamp_ns 10 90000 5 ≡ fitting (5 + 10 * nanoseconds_per_second / 90000)
rtp_ticks_to_timestamp_ns-exact_example =
    rtp_ticks_to_timestamp_ns-exact 10 90000 5 (omega arith) (omega arith)

ten_ticks : rtp_ticks_to_timestamp_ns 10 90000 5 ≡ ok 111116
unfolding rtp_ticks_to_timestamp_ns
ten_ticks = refl

abbrev full_history : DuplicateMergeHistory
full_history = record { ordered_sequences = 1 ∷ 2 ∷ []; sequence_set = 2 ∷ 1 ∷ [] }

abbrev one_number : DuplicateMergeHistory
one_number = record { ordered_sequences = 5 ∷ []; sequence_set = 5 ∷ [] }

one_number-IsSynced : IsSynced one_number
one_number-IsSynced = record { same = λ s. refl; distinct = (refl, tt) }

not_seen : seen one_number 6 ≡ false
unfolding seen
not_seen = refl

remember-IsSynced_example :
    IsSynced (remember one_number 6 1)
    × (seen (remember one_number 6 1) 6 ≡ true)
    × (length (remember one_number 6 1).ordered_sequences ≤ 1)
remember-IsSynced_example =
    remember-IsSynced one_number 6 1 one_number-IsSynced not_seen (omega arith)

forgets_oldest :
    remember full_history 3 2 ≡ record { ordered_sequences = 2 ∷ 3 ∷ []; sequence_set = 3 ∷ 2 ∷ [] }
unfolding remember
forgets_oldest = refl

abbrev started : Backend
started = record {
  maxudp = 1500;
  expected_payload_type = 96;
  reorder_buffer_config = record {
    window_size_packets = 32;
    reorder_tolerance_policy = wait_for_missing;
    flush_after_n_packets = 8;
  };
  duplicate_merge_enabled = true;
  reorder_buffer = record {
    window_size = 32;
    next_expected = 0;
    packets = [];
    stats = no_stats;
    initialized = false;
    missing_head_accounted = false;
  };
  duplicate_merge_history = record { ordered_sequences = []; sequence_set = [] };
  packet_queue = record { packets = []; closed = false };
  stats = record {
    datagrams_received = 1;
    bytes_received = 26;
    control_datagrams_ignored = 0;
    nonmedia_datagrams_ignored = 0;
    packets_parsed_ok = 0;
    packets_rejected = 0;
    frames_delivered = 0;
    datagrams_dropped = 0;
    media_units_delivered = 0;
  };
}

process_received_datagram-Counted_example :
    Counted started (process_received_datagram parse_video_packet started datagram 5)
    × Became parse_video_packet started datagram 5
        (process_received_datagram parse_video_packet started datagram 5)
process_received_datagram-Counted_example =
    process_received_datagram-Counted parse_video_packet started datagram 5

abbrev stored : StoredPacket
stored = record {
  rtp = datagram_header;
  payload_data = 1 ∷ [];
  extended_seq = 65543;
  receive_timestamp_ns = 5;
  detail = video [] 0;
}

abbrev delivered_one : Backend
delivered_one = record started {
  reorder_buffer = record {
    window_size = 32;
    next_expected = 65544;
    packets = [];
    stats = record no_stats { packets_pushed = 1; packets_stored = 1; packets_popped = 1 };
    initialized = true;
    missing_head_accounted = false;
  };
  duplicate_merge_history = record { ordered_sequences = 65543 ∷ []; sequence_set = 65543 ∷ [] };
}

delivers_first :
    process_stored_packet_downstream true 9 started stored
    ≡ some (returns (stored ∷ [], delivered_one))
unfolding process_stored_packet_downstream seen push place admit store_packet contains
    drain_reorder_buffer_to_sink pop_next emplace find erase apply_reorder_buffer_policy remember
delivers_first = refl

new_number : seen started.duplicate_merge_history 65543 ≡ false
unfolding seen
new_number = refl

takes_stored : (push true started.reorder_buffer stored).0 ≡ no_error
unfolding push place admit store_packet contains
takes_stored = refl

process_stored_packet_downstream-twice_example :
    (process_stored_packet_downstream true 1 delivered_one stored
      ≡ some (returns ([], delivered_one)))
    × IsSynced (record { ordered_sequences = 65543 ∷ []; sequence_set = 65543 ∷ [] })
process_stored_packet_downstream-twice_example =
    process_stored_packet_downstream-twice true 9 1 started stored refl (omega arith)
      (record { same = λ s. refl; distinct = tt }) new_number takes_stored delivers_first
