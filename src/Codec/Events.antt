-- ===== src/Codec/Events.antt =====
-- libs/st2110core/src/backends/mtl/mtl_worker_ipc_codec.cpp, `serialize_mtl_worker_control_event` and
-- `deserialize_mtl_worker_control_event`, and the events of mtl_worker_protocol.hpp. The error of an
-- error event is its number: the reader casts it without a test.
use st2110_obs_plugin.Base
use st2110_obs_plugin.Base.{ℕ, Bool, List, Expected, ok, ◌==◌, if◌then◌else◌, unsupported}
use st2110_obs_plugin.Word.{U8, U32, U64}
use st2110_obs_plugin.Codec.Tags.{MessageTag, tag_value, write_tag}
use st2110_obs_plugin.Codec.Writer.{
  Writer, ◌then◌, write_u32, write_u64, write_bool, write_string, finish,
}
use st2110_obs_plugin.Codec.Reader.{
  Reader, return, fail, ◌>>=◌, read_u8, read_u32, read_u64, read_bool_u8, read_string, whole,
  deserialize,
}
use st2110_obs_plugin.Codec.StatsEvent.{MtlWorkerStatsEvent, write_stats_event, read_stats_event}

-- `MtlWorkerFrameReadyEvent` and `MtlWorkerAudioBlockReadyEvent`, which have the same fields.
pub record MtlWorkerReadyEvent : Type 0 where
  pub graph_id : U64
  pub ring_id : U64
  pub slot_id : U64
  pub sequence : U64

-- The ids are `request_id` and, where there are two, `graph_id`.
pub data MtlWorkerControlEvent : Type 0 where
  started : U64 → U64 → MtlWorkerControlEvent
  stopped : U64 → U64 → MtlWorkerControlEvent
  failed : U64 → U64 → U32 → List U8 → MtlWorkerControlEvent
  statistics : MtlWorkerStatsEvent → MtlWorkerControlEvent
  health : U64 → Bool → List U8 → MtlWorkerControlEvent
  frame_ready : MtlWorkerReadyEvent → MtlWorkerControlEvent
  audio_block_ready : MtlWorkerReadyEvent → MtlWorkerControlEvent

unfoldable pub write_ready_event : MtlWorkerReadyEvent → Writer
write_ready_event event =
    write_u64 event.graph_id
    then write_u64 event.ring_id
    then write_u64 event.slot_id
    then write_u64 event.sequence

unfoldable pub write_event : MtlWorkerControlEvent → Expected Writer
write_event (MtlWorkerControlEvent.health request_id healthy message) =
    Base.◌>>=◌ (write_string message) (λ text. ok (
      write_tag MessageTag.health_event
      then write_u64 request_id
      then write_bool healthy
      then text))
write_event (MtlWorkerControlEvent.failed request_id graph_id error message) =
    Base.◌>>=◌ (write_string message) (λ text. ok (
      write_tag MessageTag.error_event
      then write_u64 request_id
      then write_u64 graph_id
      then write_u32 error
      then text))
write_event (MtlWorkerControlEvent.started request_id graph_id) =
    ok (write_tag MessageTag.started_event then write_u64 request_id then write_u64 graph_id)
write_event (MtlWorkerControlEvent.stopped request_id graph_id) =
    ok (write_tag MessageTag.stopped_event then write_u64 request_id then write_u64 graph_id)
write_event (MtlWorkerControlEvent.statistics event) =
    ok (write_tag MessageTag.stats_event then write_stats_event event)
write_event (MtlWorkerControlEvent.frame_ready event) =
    ok (write_tag MessageTag.frame_ready_event then write_ready_event event)
write_event (MtlWorkerControlEvent.audio_block_ready event) =
    ok (write_tag MessageTag.audio_block_ready_event then write_ready_event event)

unfoldable pub serialize_mtl_worker_control_event : MtlWorkerControlEvent → Expected (List U8)
serialize_mtl_worker_control_event event =
    Base.◌>>=◌ (write_event event) (λ writer. ok (finish writer))

unfoldable pub read_health : Reader MtlWorkerControlEvent
read_health = do
  request_id ← read_u64
  healthy ← read_bool_u8
  message ← read_string
  return (MtlWorkerControlEvent.health request_id healthy message)

unfoldable pub read_failed : Reader MtlWorkerControlEvent
read_failed = do
  request_id ← read_u64
  graph_id ← read_u64
  error ← read_u32
  message ← read_string
  return (MtlWorkerControlEvent.failed request_id graph_id error message)

unfoldable pub read_started : Reader MtlWorkerControlEvent
read_started = do
  request_id ← read_u64
  graph_id ← read_u64
  return (MtlWorkerControlEvent.started request_id graph_id)

unfoldable pub read_stopped : Reader MtlWorkerControlEvent
read_stopped = do
  request_id ← read_u64
  graph_id ← read_u64
  return (MtlWorkerControlEvent.stopped request_id graph_id)

unfoldable pub read_statistics : Reader MtlWorkerControlEvent
read_statistics = do event ← read_stats_event; return (MtlWorkerControlEvent.statistics event)

-- The fields of a frame's and of an audio block's event, line for line the same.
unfoldable pub read_ready_event : Reader MtlWorkerReadyEvent
read_ready_event = do
  graph_id ← read_u64
  ring_id ← read_u64
  slot_id ← read_u64
  sequence ← read_u64
  return record { graph_id = graph_id; ring_id = ring_id; slot_id = slot_id; sequence = sequence }

unfoldable pub read_frame_ready : Reader MtlWorkerControlEvent
read_frame_ready = do event ← read_ready_event; return (MtlWorkerControlEvent.frame_ready event)

unfoldable pub read_audio_block_ready : Reader MtlWorkerControlEvent
read_audio_block_ready = do
  event ← read_ready_event
  return (MtlWorkerControlEvent.audio_block_ready event)

-- `switch (static_cast<MessageTag>(*tag))`
unfoldable pub read_event_of : ℕ → Reader MtlWorkerControlEvent
read_event_of tag =
    if tag == tag_value MessageTag.health_event
    then whole read_health
    else if tag == tag_value MessageTag.error_event
    then whole read_failed
    else if tag == tag_value MessageTag.started_event
    then whole read_started
    else if tag == tag_value MessageTag.stopped_event
    then whole read_stopped
    else if tag == tag_value MessageTag.stats_event
    then whole read_statistics
    else if tag == tag_value MessageTag.frame_ready_event
    then whole read_frame_ready
    else if tag == tag_value MessageTag.audio_block_ready_event
    then whole read_audio_block_ready
    else fail unsupported

unfoldable pub read_event : Reader MtlWorkerControlEvent
read_event = do tag ← read_u8; read_event_of (tag.value)

unfoldable pub deserialize_mtl_worker_control_event : List U8 → Expected MtlWorkerControlEvent
deserialize_mtl_worker_control_event = deserialize read_event
