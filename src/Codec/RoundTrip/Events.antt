-- ===== src/Codec/RoundTrip/Events.antt =====
-- A control event that is serialized is deserialized to itself.
use st2110_obs_plugin.Base.{◌≡◌, refl, subst, List, [], ok, chain_ok, ok_injective}
use st2110_obs_plugin.Word
use st2110_obs_plugin.Word.{U8}
use st2110_obs_plugin.Codec.Writer.{Writer, write_string, finish}
use st2110_obs_plugin.Codec.Tags.{MessageTag}
use st2110_obs_plugin.Codec.Events.{
  MtlWorkerReadyEvent, MtlWorkerControlEvent, write_ready_event, write_event, read_ready_event,
  serialize_mtl_worker_control_event, read_health, read_failed, read_started, read_stopped,
  read_statistics, read_frame_ready, read_audio_block_ready, read_event_of, read_event,
  deserialize_mtl_worker_control_event,
}
use st2110_obs_plugin.Codec.Reading.{Reads, next, last, u32, u64, bool_u8, string, deserialize-ok}
use st2110_obs_plugin.Codec.RoundTrip.Tagged.{tagged}
use st2110_obs_plugin.Codec.RoundTrip.Stats.{read_stats_event-Reads}

read_ready_event-Reads :
    (event : MtlWorkerReadyEvent) → Reads read_ready_event (write_ready_event event) event
unfolding read_ready_event write_ready_event
read_ready_event-Reads event = next _ u64 (next _ u64 (next _ u64 (last _ u64 refl)))

read_event-exact :
    (event : MtlWorkerControlEvent) {w : Writer}
    → write_event event ≡ ok w
    → read_event (w []) ≡ ok (event, [])
unfolding write_event read_event read_event_of Word.word read_health read_failed read_started
    read_stopped read_statistics read_frame_ready read_audio_block_ready
read_event-exact (MtlWorkerControlEvent.health request_id healthy message) e =
    let text = chain_ok (write_string message) _ e in
    tagged MessageTag.health_event read_event_of {read = read_health} refl (text.2)
      (next _ u64 (next _ bool_u8 (last _ (string (text.1)) refl)))
read_event-exact (MtlWorkerControlEvent.failed request_id graph_id error message) e =
    let text = chain_ok (write_string message) _ e in
    tagged MessageTag.error_event read_event_of {read = read_failed} refl (text.2)
      (next _ u64 (next _ u64 (next _ u32 (last _ (string (text.1)) refl))))
read_event-exact (MtlWorkerControlEvent.started request_id graph_id) e =
    tagged MessageTag.started_event read_event_of {read = read_started} refl e
      (next _ u64 (last _ u64 refl))
read_event-exact (MtlWorkerControlEvent.stopped request_id graph_id) e =
    tagged MessageTag.stopped_event read_event_of {read = read_stopped} refl e
      (next _ u64 (last _ u64 refl))
read_event-exact (MtlWorkerControlEvent.statistics event) e =
    tagged MessageTag.stats_event read_event_of {read = read_statistics} refl e
      (last _ (read_stats_event-Reads event) refl)
read_event-exact (MtlWorkerControlEvent.frame_ready event) e =
    tagged MessageTag.frame_ready_event read_event_of {read = read_frame_ready} refl e
      (last _ (read_ready_event-Reads event) refl)
read_event-exact (MtlWorkerControlEvent.audio_block_ready event) e =
    tagged MessageTag.audio_block_ready_event read_event_of {read = read_audio_block_ready} refl e
      (last _ (read_ready_event-Reads event) refl)

-- Whatever bytes a control event is serialized to, they deserialize to that event: every counter of a
-- statistics event, every id and every byte of a message comes back.
pub deserialize-serialize_event :
    (event : MtlWorkerControlEvent) (bytes : List U8)
    → serialize_mtl_worker_control_event event ≡ ok bytes
    → deserialize_mtl_worker_control_event bytes ≡ ok event
unfolding serialize_mtl_worker_control_event deserialize_mtl_worker_control_event finish
deserialize-serialize_event event bytes e =
    let w = chain_ok (write_event event) _ e in
    deserialize-ok read_event (
      subst (λ b. read_event b ≡ ok (event, [])) (ok_injective (w.2))
        (read_event-exact event (w.1)))
