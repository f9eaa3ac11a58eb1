-- ===== src/Codec/Prefix/Messages.antt =====
-- Nothing may stand behind a message.
use st2110_obs_plugin.Base.{
  arith, ℕ, ◌==◌, unsupported, ◌≡◌, refl, List, [], ◌∷◌, ◌++◌, Expected, ok, unexpected,
  invalid_value,
}
use st2110_obs_plugin.Codec.Tags.{MessageTag, tag_value}
use st2110_obs_plugin.Word.{U8}
use st2110_obs_plugin.Codec.Reader.{
  Reader, return, ◌>>=◌, pass, ensure_consumed, whole, deserialize,
}
use st2110_obs_plugin.Codec.Requests.{MtlWorkerControlRequest}
use st2110_obs_plugin.Codec.ReadRequests.{
  read_config_handshake, read_start_sessions, read_stop_sessions, read_stats, read_health_check,
  read_shutdown, read_request_of, read_request, deserialize_mtl_worker_control_request,
}
use st2110_obs_plugin.Codec.Events.{
  MtlWorkerControlEvent, read_health, read_failed, read_started, read_stopped, read_statistics,
  read_ready_event, read_frame_ready, read_audio_block_ready, read_event_of, read_event,
  deserialize_mtl_worker_control_event,
}
use st2110_obs_plugin.Codec.Prefix.Extending.{
  Extends, Closed, onto, onto-Closed, return-Extends, check-Extends, fail-Closed, if-Closed,
}
use st2110_obs_plugin.Codec.Prefix.Primitives.{
  read_u8-Extends, read_u32-Extends, read_u64-Extends, read_string-Extends, read_bool_u8-Extends,
  read_optional-Extends,
}
use st2110_obs_plugin.Codec.Prefix.Fields.{
  read_stats_event-Extends, read_runtime_config-Extends, read_video_start_config-Extends,
  read_audio_start_config-Extends, read_shared_memory_ring_descriptors-Extends,
}

not_ended :
    {A : Type 0} (a : A) (bytes : List U8) (x : U8) (extra : List U8)
    → pass (λ (consumed : Unit {0}). return a) (ensure_consumed (bytes ++ x ∷ extra))
      ≡ unexpected invalid_value
unfolding pass ensure_consumed
not_ended a [] x extra = refl
not_ended a (y ∷ bytes) x extra = refl

-- Whatever is left in front of a byte more is not the end.
ends-Closed : {A : Type 0} (a : A) → Closed (ensure_consumed >>= (λ consumed. return a))
unfolding ◌>>=◌
ends-Closed a = record { refuse = λ bytes x extra b rest e. not_ended a bytes x extra }

whole-Closed : {A : Type 0} {read : Reader A} → Extends read → Closed (whole read)
unfolding whole
whole-Closed r = onto-Closed _ r ends-Closed

read_config_handshake-Extends : Extends read_config_handshake
unfolding read_config_handshake
read_config_handshake-Extends =
    onto _ read_u64-Extends (λ a. onto _ read_runtime_config-Extends (λ a. return-Extends _))

read_start_sessions-Extends : Extends read_start_sessions
unfolding read_start_sessions
read_start_sessions-Extends = onto _ read_u64-Extends (λ a. onto _ read_u64-Extends (λ a.
    onto _ (read_optional-Extends _ read_video_start_config-Extends) (λ a.
      onto _ (read_optional-Extends _ read_audio_start_config-Extends) (λ a.
        onto _ read_shared_memory_ring_descriptors-Extends (λ a.
          onto _ (check-Extends _) (λ b. onto _ (check-Extends _) (λ c. return-Extends _)))))))

read_stop_sessions-Extends : Extends read_stop_sessions
unfolding read_stop_sessions
read_stop_sessions-Extends =
    onto _ read_u64-Extends (λ a. onto _ read_u64-Extends (λ a. return-Extends _))

read_stats-Extends : Extends read_stats
unfolding read_stats
read_stats-Extends = onto _ read_u64-Extends (λ a. onto _ read_u64-Extends (λ a. return-Extends _))

read_health_check-Extends : Extends read_health_check
unfolding read_health_check
read_health_check-Extends = onto _ read_u64-Extends (λ a. return-Extends _)

read_shutdown-Extends : Extends read_shutdown
unfolding read_shutdown
read_shutdown-Extends = onto _ read_u64-Extends (λ a. return-Extends _)

read_health-Extends : Extends read_health
unfolding read_health
read_health-Extends =
    onto _ read_u64-Extends
      (λ a. onto _ read_bool_u8-Extends (λ a. onto _ read_string-Extends (λ a. return-Extends _)))

read_failed-Extends : Extends read_failed
unfolding read_failed
read_failed-Extends = onto _ read_u64-Extends (λ a.
    onto _ read_u64-Extends
      (λ a. onto _ read_u32-Extends (λ a. onto _ read_string-Extends (λ a. return-Extends _))))

read_started-Extends : Extends read_started
unfolding read_started
read_started-Extends =
    onto _ read_u64-Extends (λ a. onto _ read_u64-Extends (λ a. return-Extends _))

read_stopped-Extends : Extends read_stopped
unfolding read_stopped
read_stopped-Extends =
    onto _ read_u64-Extends (λ a. onto _ read_u64-Extends (λ a. return-Extends _))

read_statistics-Extends : Extends read_statistics
unfolding read_statistics
read_statistics-Extends = onto _ read_stats_event-Extends (λ a. return-Extends _)

read_ready_event-Extends : Extends read_ready_event
unfolding read_ready_event
read_ready_event-Extends = onto _ read_u64-Extends (λ a.
    onto _ read_u64-Extends
      (λ a. onto _ read_u64-Extends (λ a. onto _ read_u64-Extends (λ a. return-Extends _))))

read_frame_ready-Extends : Extends read_frame_ready
unfolding read_frame_ready
read_frame_ready-Extends = onto _ read_ready_event-Extends (λ a. return-Extends _)

read_audio_block_ready-Extends : Extends read_audio_block_ready
unfolding read_audio_block_ready
read_audio_block_ready-Extends = onto _ read_ready_event-Extends (λ a. return-Extends _)

read_request_of-Closed : (tag : ℕ) → Closed (read_request_of tag)
unfolding read_request_of
read_request_of-Closed tag =
    (if-Closed (tag == tag_value MessageTag.config_handshake_request)
      (whole-Closed read_config_handshake-Extends)
      (if-Closed (tag == tag_value MessageTag.start_sessions_request)
        (whole-Closed read_start_sessions-Extends)
        (if-Closed (tag == tag_value MessageTag.stop_sessions_request)
          (whole-Closed read_stop_sessions-Extends)
          (if-Closed (tag == tag_value MessageTag.stats_request) (whole-Closed read_stats-Extends) (
            if-Closed (tag == tag_value MessageTag.health_check_request)
              (whole-Closed read_health_check-Extends)
              (if-Closed (tag == tag_value MessageTag.shutdown_request)
                (whole-Closed read_shutdown-Extends) (fail-Closed unsupported)))))))

read_event_of-Closed : (tag : ℕ) → Closed (read_event_of tag)
unfolding read_event_of
read_event_of-Closed tag =
    (if-Closed (tag == tag_value MessageTag.health_event) (whole-Closed read_health-Extends) (
      if-Closed (tag == tag_value MessageTag.error_event) (whole-Closed read_failed-Extends) (
        if-Closed (tag == tag_value MessageTag.started_event) (whole-Closed read_started-Extends) (
          if-Closed (tag == tag_value MessageTag.stopped_event) (whole-Closed read_stopped-Extends)
            (if-Closed (tag == tag_value MessageTag.stats_event)
              (whole-Closed read_statistics-Extends)
              (if-Closed (tag == tag_value MessageTag.frame_ready_event)
                (whole-Closed read_frame_ready-Extends)
                (if-Closed (tag == tag_value MessageTag.audio_block_ready_event)
                  (whole-Closed read_audio_block_ready-Extends) (fail-Closed unsupported))))))))

-- What a message deserializes to, read from its bytes; and bytes that no reader takes.
deserialize-Closed :
    {A : Type 0} (read : Reader A)
    → Closed read
    → (payload : List U8) (x : U8) (extra : List U8) (a : A) → deserialize read payload ≡ ok a
    → deserialize read (payload ++ x ∷ extra) ≡ unexpected invalid_value
unfolding deserialize
deserialize-Closed {A = A} read c payload x extra a e = go (read payload) refl e
  where
    go :
        (result : Expected (A × List U8))
        → read payload ≡ result
        → (elim result [ ok r ↦ ok (r.0) | unexpected error ↦ unexpected error ]) ≡ ok a
        → deserialize read (payload ++ x ∷ extra) ≡ unexpected invalid_value
    go (ok r) q f = rw (c.refuse payload x extra (r.0) (r.1) q, deserialize) refl
    go (unexpected error) q f = absurd (ground arith)

-- A request with bytes behind it is rejected, whatever they are: no request is a proper beginning of
-- another, so a request cut short is not taken for one.
pub deserialize_request-Closed :
    (payload : List U8) (x : U8) (extra : List U8) (request : MtlWorkerControlRequest)
    → deserialize_mtl_worker_control_request payload ≡ ok request
    → deserialize_mtl_worker_control_request (payload ++ x ∷ extra) ≡ unexpected invalid_value
unfolding deserialize_mtl_worker_control_request read_request
deserialize_request-Closed payload x extra request e =
    deserialize-Closed _ (onto-Closed _ read_u8-Extends (λ tag. read_request_of-Closed (tag.value)))
      payload x extra request e

-- An event with bytes behind it is rejected, whatever they are: no event is a proper beginning of
-- another, so an event cut short is not taken for one.
pub deserialize_event-Closed :
    (payload : List U8) (x : U8) (extra : List U8) (event : MtlWorkerControlEvent)
    → deserialize_mtl_worker_control_event payload ≡ ok event
    → deserialize_mtl_worker_control_event (payload ++ x ∷ extra) ≡ unexpected invalid_value
unfolding deserialize_mtl_worker_control_event read_event
deserialize_event-Closed payload x extra event e =
    deserialize-Closed _ (onto-Closed _ read_u8-Extends (λ tag. read_event_of-Closed (tag.value)))
      payload x extra event e
