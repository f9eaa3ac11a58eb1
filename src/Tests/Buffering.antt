-- ===== src/Tests/Buffering.antt =====
-- Small reorder buffers across the wrap-around of the sequence number.
use st2110_obs_plugin.Base.{
  ℕ, ◌≤◌, ◌≡◌, refl, inl, true, false, some, List, [], ◌∷◌, All, length, arith, returns, Outcome,
}
use st2110_obs_plugin.Rtp.{RtpHeaderView}
use st2110_obs_plugin.AudioPacket.{bits16}
use st2110_obs_plugin.Stored.{StoredPacket, store_audio}
use st2110_obs_plugin.Reorder.{
  Buffer, no_stats, push, place, admit, store_packet, pop_next, flush_missing_once,
  find_recovery_expected_for_incoming, find_recovery_from,
}
use st2110_obs_plugin.Reorder.Entries.{find, contains, erase, emplace}
use st2110_obs_plugin.Reorder.Invariant.{IsValid}
use st2110_obs_plugin.Reorder.Bound.{length-run}
use st2110_obs_plugin.Reorder.Delivery.{Op, pushes, pops, flushes_once, step, run, run-IsValid}
use st2110_obs_plugin.Reorder.Order.{Delivered, flushed_in, run-Delivered}
use st2110_obs_plugin.Reorder.Recovery.{IsFound, IsCovered, find_recovery-nearest}
use st2110_obs_plugin.Downstream.{flush_gap_once, drain_reorder_buffer_to_sink}
use st2110_obs_plugin.Reorder.{make}
use st2110_obs_plugin.Downstream.Termination.{drain_reorder_buffer_to_sink_total}
use st2110_obs_plugin.Downstream.Drain.{Delivers, drain_reorder_buffer_to_sink-Delivers}

abbrev audio_header : ℕ → RtpHeaderView
audio_header seq = record {
  version = 2;
  padding_flag = false;
  extension_flag = false;
  csrc_count = 0;
  marker = false;
  payload_type = 97;
  seq_number = seq;
  timestamp = 48;
  ssrc = 1;
  payload_offset = 12;
  payload_len = 2;
}

unfoldable packet : ℕ → StoredPacket
unfolding store_audio
packet seq = store_audio (record {
  rtp = audio_header seq;
  payload_data = 1 ∷ 2 ∷ [];
  receive_timestamp_ns = 0;
  sampling_rate_hz = 48000;
  channel_count = 1;
  samples_per_channel = 1;
  pcm_bit_depth = bits16;
})

-- The number 65534 is missing, its two successors are there, and the window has room for four.
abbrev waiting : Buffer
waiting = record {
  window_size = 4;
  next_expected = 65534;
  packets = record { key = 0; item = packet 0 } ∷ record { key = 65535; item = packet 65535 } ∷ [];
  stats = no_stats;
  initialized = true;
  missing_head_accounted = false;
}

waiting-IsValid : IsValid false waiting
unfolding packet
waiting-IsValid = record {
  window_positive = omega arith;
  next_width = omega arith;
  ordered = omega arith;
  fitting = ((omega arith, refl, omega arith), ((omega arith, refl, omega arith), tt));
  idle = inl refl;
}

abbrev calls : List Op
calls = pops ∷ flushes_once ∷ pops ∷ pushes (packet 1) ∷ pops ∷ pops ∷ []

run-Delivered_example :
    Delivered false waiting 65534
      (flushed_in false waiting calls)
      (run false waiting calls).0
      (run false waiting calls).1
run-Delivered_example = run-Delivered false calls waiting 65534 waiting-IsValid refl refl

delivers_three : (run false waiting calls).0 ≡ packet 65535 ∷ packet 0 ∷ packet 1 ∷ []
unfolding run packet step pop_next find flush_missing_once contains push place admit store_packet
    erase emplace
delivers_three = refl

drain_reorder_buffer_to_sink-Delivers_example :
    (r : List StoredPacket × Buffer) × (drain_reorder_buffer_to_sink false flush_gap_once 0 17
        waiting
      ≡ some (returns r))
    × Delivers false waiting 65534 r
drain_reorder_buffer_to_sink-Delivers_example =
    drain_reorder_buffer_to_sink-Delivers false flush_gap_once 0 17 waiting 65534 refl (omega arith)
      waiting-IsValid refl refl

run-IsValid_example : IsValid false (run false waiting calls).1
run-IsValid_example = run-IsValid false waiting calls waiting-IsValid

made : make 4 ≡ some (record waiting { next_expected = 0; packets = []; initialized = false })
unfolding make
made = refl

length-run_example :
    length
      (run false
        (record waiting { next_expected = 0; packets = []; initialized = false })
        (pushes (packet 3) ∷ calls)).1.packets
    ≤ 4
length-run_example = length-run false 4 (pushes (packet 3) ∷ calls) made

find_recovery-nearest_example :
    IsFound false 4 65534 2 (find_recovery_expected_for_incoming false waiting 2) waiting.packets
    × All
        (IsCovered false 4 65534 2 (find_recovery_expected_for_incoming false waiting 2))
        waiting.packets
find_recovery-nearest_example = find_recovery-nearest false waiting 2

finds_nearest : find_recovery_expected_for_incoming false waiting 2 ≡ some 65535
unfolding find_recovery_expected_for_incoming find_recovery_from
finds_nearest = refl

drain_reorder_buffer_to_sink_total_example :
    (o : Outcome (List StoredPacket × Buffer)) × (drain_reorder_buffer_to_sink false flush_gap_once
        0 17 waiting
      ≡ some o)
drain_reorder_buffer_to_sink_total_example =
    drain_reorder_buffer_to_sink_total false flush_gap_once 0 17 waiting waiting-IsValid
      (omega arith)
