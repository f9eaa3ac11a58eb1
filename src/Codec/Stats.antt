-- ===== src/Codec/Stats.antt =====
-- libs/st2110core/include/st2110/backends/mtl/mtl_worker_protocol.hpp and
-- libs/st2110core/src/backends/mtl/mtl_worker_ipc_codec.cpp: the counters of a receive session and of
-- a port, and their bytes.
use st2110_obs_plugin.Word.{U64}
use st2110_obs_plugin.Codec.Writer.{Writer, ◌then◌, write_u64}
use st2110_obs_plugin.Codec.Reader.{Reader, return, ◌>>=◌, read_u64}

pub record MtlWorkerRxPortStats : Type 0 where
  pub packets : U64
  pub bytes : U64
  pub frames : U64
  pub incomplete_frames : U64
  pub err_packets : U64
  pub out_of_order_packets : U64

unfoldable pub write_rx_port_stats : MtlWorkerRxPortStats → Writer
write_rx_port_stats stats =
    write_u64 stats.packets
    then write_u64 stats.bytes
    then write_u64 stats.frames
    then write_u64 stats.incomplete_frames
    then write_u64 stats.err_packets
    then write_u64 stats.out_of_order_packets

unfoldable pub read_rx_port_stats : Reader MtlWorkerRxPortStats
read_rx_port_stats = do
  packets ← read_u64
  bytes ← read_u64
  frames ← read_u64
  incomplete_frames ← read_u64
  err_packets ← read_u64
  out_of_order_packets ← read_u64
  return record {
    packets = packets;
    bytes = bytes;
    frames = frames;
    incomplete_frames = incomplete_frames;
    err_packets = err_packets;
    out_of_order_packets = out_of_order_packets;
  }

pub record MtlWorkerSt20RxUserStats : Type 0 where
  pub primary : MtlWorkerRxPortStats
  pub redundant : MtlWorkerRxPortStats
  pub stat_pkts_received : U64
  pub stat_pkts_out_of_order : U64
  pub stat_pkts_wrong_ssrc_dropped : U64
  pub stat_pkts_wrong_pt_dropped : U64
  pub stat_bytes_received : U64
  pub stat_slices_received : U64
  pub stat_pkts_idx_dropped : U64
  pub stat_pkts_offset_dropped : U64
  pub stat_frames_dropped : U64
  pub stat_pkts_idx_oo_bitmap : U64
  pub stat_frames_pks_missed : U64
  pub stat_pkts_rtp_ring_full : U64
  pub stat_pkts_no_slot : U64
  pub stat_pkts_redundant_dropped : U64
  pub stat_pkts_wrong_interlace_dropped : U64
  pub stat_pkts_wrong_len_dropped : U64
  pub stat_pkts_enqueue_fallback : U64
  pub stat_pkts_dma : U64
  pub stat_pkts_slice_fail : U64
  pub stat_pkts_slice_merged : U64
  pub stat_pkts_multi_segments_received : U64
  pub stat_pkts_not_bpm : U64
  pub stat_pkts_wrong_payload_hdr_split : U64
  pub stat_mismatch_hdr_split_frame : U64
  pub stat_pkts_copy_hdr_split : U64
  pub stat_vsync_mismatch : U64
  pub stat_slot_get_frame_fail : U64
  pub stat_slot_query_ext_fail : U64
  pub stat_pkts_simulate_loss : U64
  pub stat_pkts_user_meta : U64
  pub stat_pkts_user_meta_err : U64
  pub stat_pkts_retransmit : U64
  pub stat_interlace_first_field : U64
  pub stat_interlace_second_field : U64
  pub stat_st22_boxes : U64
  pub stat_burst_pkts_max : U64
  pub stat_burst_succ_cnt : U64
  pub stat_burst_pkts_sum : U64
  pub incomplete_frames_cnt : U64
  pub stat_pkts_wrong_kmod_dropped : U64

unfoldable pub write_st20_rx_user_stats : MtlWorkerSt20RxUserStats → Writer
write_st20_rx_user_stats stats =
    write_rx_port_stats stats.primary
    then write_rx_port_stats stats.redundant
    then write_u64 stats.stat_pkts_received
    then write_u64 stats.stat_pkts_out_of_order
    then write_u64 stats.stat_pkts_wrong_ssrc_dropped
    then write_u64 stats.stat_pkts_wrong_pt_dropped
    then write_u64 stats.stat_bytes_received
    then write_u64 stats.stat_slices_received
    then write_u64 stats.stat_pkts_idx_dropped
    then write_u64 stats.stat_pkts_offset_dropped
    then write_u64 stats.stat_frames_dropped
    then write_u64 stats.stat_pkts_idx_oo_bitmap
    then write_u64 stats.stat_frames_pks_missed
    then write_u64 stats.stat_pkts_rtp_ring_full
    then write_u64 stats.stat_pkts_no_slot
    then write_u64 stats.stat_pkts_redundant_dropped
    then write_u64 stats.stat_pkts_wrong_interlace_dropped
    then write_u64 stats.stat_pkts_wrong_len_dropped
    then write_u64 stats.stat_pkts_enqueue_fallback
    then write_u64 stats.stat_pkts_dma
    then write_u64 stats.stat_pkts_slice_fail
    then write_u64 stats.stat_pkts_slice_merged
    then write_u64 stats.stat_pkts_multi_segments_received
    then write_u64 stats.stat_pkts_not_bpm
    then write_u64 stats.stat_pkts_wrong_payload_hdr_split
    then write_u64 stats.stat_mismatch_hdr_split_frame
    then write_u64 stats.stat_pkts_copy_hdr_split
    then write_u64 stats.stat_vsync_mismatch
    then write_u64 stats.stat_slot_get_frame_fail
    then write_u64 stats.stat_slot_query_ext_fail
    then write_u64 stats.stat_pkts_simulate_loss
    then write_u64 stats.stat_pkts_user_meta
    then write_u64 stats.stat_pkts_user_meta_err
    then write_u64 stats.stat_pkts_retransmit
    then write_u64 stats.stat_interlace_first_field
    then write_u64 stats.stat_interlace_second_field
    then write_u64 stats.stat_st22_boxes
    then write_u64 stats.stat_burst_pkts_max
    then write_u64 stats.stat_burst_succ_cnt
    then write_u64 stats.stat_burst_pkts_sum
    then write_u64 stats.incomplete_frames_cnt
    then write_u64 stats.stat_pkts_wrong_kmod_dropped

unfoldable pub read_st20_rx_user_stats : Reader MtlWorkerSt20RxUserStats
read_st20_rx_user_stats = do
  primary ← read_rx_port_stats
  redundant ← read_rx_port_stats
  stat_pkts_received ← read_u64
  stat_pkts_out_of_order ← read_u64
  stat_pkts_wrong_ssrc_dropped ← read_u64
  stat_pkts_wrong_pt_dropped ← read_u64
  stat_bytes_received ← read_u64
  stat_slices_received ← read_u64
  stat_pkts_idx_dropped ← read_u64
  stat_pkts_offset_dropped ← read_u64
  stat_frames_dropped ← read_u64
  stat_pkts_idx_oo_bitmap ← read_u64
  stat_frames_pks_missed ← read_u64
  stat_pkts_rtp_ring_full ← read_u64
  stat_pkts_no_slot ← read_u64
  stat_pkts_redundant_dropped ← read_u64
  stat_pkts_wrong_interlace_dropped ← read_u64
  stat_pkts_wrong_len_dropped ← read_u64
  stat_pkts_enqueue_fallback ← read_u64
  stat_pkts_dma ← read_u64
  stat_pkts_slice_fail ← read_u64
  stat_pkts_slice_merged ← read_u64
  stat_pkts_multi_segments_received ← read_u64
  stat_pkts_not_bpm ← read_u64
  stat_pkts_wrong_payload_hdr_split ← read_u64
  stat_mismatch_hdr_split_frame ← read_u64
  stat_pkts_copy_hdr_split ← read_u64
  stat_vsync_mismatch ← read_u64
  stat_slot_get_frame_fail ← read_u64
  stat_slot_query_ext_fail ← read_u64
  stat_pkts_simulate_loss ← read_u64
  stat_pkts_user_meta ← read_u64
  stat_pkts_user_meta_err ← read_u64
  stat_pkts_retransmit ← read_u64
  stat_interlace_first_field ← read_u64
  stat_interlace_second_field ← read_u64
  stat_st22_boxes ← read_u64
  stat_burst_pkts_max ← read_u64
  stat_burst_succ_cnt ← read_u64
  stat_burst_pkts_sum ← read_u64
  incomplete_frames_cnt ← read_u64
  stat_pkts_wrong_kmod_dropped ← read_u64
  return record {
    primary = primary;
    redundant = redundant;
    stat_pkts_received = stat_pkts_received;
    stat_pkts_out_of_order = stat_pkts_out_of_order;
    stat_pkts_wrong_ssrc_dropped = stat_pkts_wrong_ssrc_dropped;
    stat_pkts_wrong_pt_dropped = stat_pkts_wrong_pt_dropped;
    stat_bytes_received = stat_bytes_received;
    stat_slices_received = stat_slices_received;
    stat_pkts_idx_dropped = stat_pkts_idx_dropped;
    stat_pkts_offset_dropped = stat_pkts_offset_dropped;
    stat_frames_dropped = stat_frames_dropped;
    stat_pkts_idx_oo_bitmap = stat_pkts_idx_oo_bitmap;
    stat_frames_pks_missed = stat_frames_pks_missed;
    stat_pkts_rtp_ring_full = stat_pkts_rtp_ring_full;
    stat_pkts_no_slot = stat_pkts_no_slot;
    stat_pkts_redundant_dropped = stat_pkts_redundant_dropped;
    stat_pkts_wrong_interlace_dropped = stat_pkts_wrong_interlace_dropped;
    stat_pkts_wrong_len_dropped = stat_pkts_wrong_len_dropped;
    stat_pkts_enqueue_fallback = stat_pkts_enqueue_fallback;
    stat_pkts_dma = stat_pkts_dma;
    stat_pkts_slice_fail = stat_pkts_slice_fail;
    stat_pkts_slice_merged = stat_pkts_slice_merged;
    stat_pkts_multi_segments_received = stat_pkts_multi_segments_received;
    stat_pkts_not_bpm = stat_pkts_not_bpm;
    stat_pkts_wrong_payload_hdr_split = stat_pkts_wrong_payload_hdr_split;
    stat_mismatch_hdr_split_frame = stat_mismatch_hdr_split_frame;
    stat_pkts_copy_hdr_split = stat_pkts_copy_hdr_split;
    stat_vsync_mismatch = stat_vsync_mismatch;
    stat_slot_get_frame_fail = stat_slot_get_frame_fail;
    stat_slot_query_ext_fail = stat_slot_query_ext_fail;
    stat_pkts_simulate_loss = stat_pkts_simulate_loss;
    stat_pkts_user_meta = stat_pkts_user_meta;
    stat_pkts_user_meta_err = stat_pkts_user_meta_err;
    stat_pkts_retransmit = stat_pkts_retransmit;
    stat_interlace_first_field = stat_interlace_first_field;
    stat_interlace_second_field = stat_interlace_second_field;
    stat_st22_boxes = stat_st22_boxes;
    stat_burst_pkts_max = stat_burst_pkts_max;
    stat_burst_succ_cnt = stat_burst_succ_cnt;
    stat_burst_pkts_sum = stat_burst_pkts_sum;
    incomplete_frames_cnt = incomplete_frames_cnt;
    stat_pkts_wrong_kmod_dropped = stat_pkts_wrong_kmod_dropped;
  }

pub record MtlWorkerDeviceRxPortStats : Type 0 where
  pub rx_packets : U64
  pub rx_bytes : U64
  pub rx_err_packets : U64
  pub rx_hw_dropped_packets : U64
  pub rx_nombuf_packets : U64

unfoldable pub write_device_rx_port_stats : MtlWorkerDeviceRxPortStats → Writer
write_device_rx_port_stats stats =
    write_u64 stats.rx_packets
    then write_u64 stats.rx_bytes
    then write_u64 stats.rx_err_packets
    then write_u64 stats.rx_hw_dropped_packets
    then write_u64 stats.rx_nombuf_packets

unfoldable pub read_device_rx_port_stats : Reader MtlWorkerDeviceRxPortStats
read_device_rx_port_stats = do
  rx_packets ← read_u64
  rx_bytes ← read_u64
  rx_err_packets ← read_u64
  rx_hw_dropped_packets ← read_u64
  rx_nombuf_packets ← read_u64
  return record {
    rx_packets = rx_packets;
    rx_bytes = rx_bytes;
    rx_err_packets = rx_err_packets;
    rx_hw_dropped_packets = rx_hw_dropped_packets;
    rx_nombuf_packets = rx_nombuf_packets;
  }
