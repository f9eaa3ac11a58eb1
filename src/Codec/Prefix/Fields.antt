-- ===== src/Codec/Prefix/Fields.antt =====
-- The readers of the fields of a message take what they take.
use st2110_obs_plugin.Base.{ℕ, zero, suc}
use st2110_obs_plugin.Codec.Stats.{
  read_rx_port_stats, read_st20_rx_user_stats, read_device_rx_port_stats,
}
use st2110_obs_plugin.Codec.StatsEvent.{read_stats_event}
use st2110_obs_plugin.Codec.ReadSessions.{
  read_runtime_port, read_runtime_config, read_optional_ipv4, read_session_port,
  read_video_start_config, read_audio_media_description, read_audio_start_config,
}
use st2110_obs_plugin.Codec.ReadRings.{
  read_worker_media_kind, read_shared_memory_ring_descriptor, read_each,
  read_shared_memory_ring_descriptors,
}
use st2110_obs_plugin.Codec.Prefix.Extending.{Extends, onto, return-Extends, check-Extends}
use st2110_obs_plugin.Codec.Prefix.Primitives.{
  read_u8-Extends, read_u16-Extends, read_u32-Extends, read_u64-Extends, read_ipv4-Extends,
  read_string-Extends, read_bool_u8-Extends, read_optional-Extends,
}

read_rx_port_stats-Extends : Extends read_rx_port_stats
unfolding read_rx_port_stats
read_rx_port_stats-Extends = onto _ read_u64-Extends (λ a. onto _ read_u64-Extends (λ a.
    onto _ read_u64-Extends (λ a.
      onto _ read_u64-Extends
        (λ a. onto _ read_u64-Extends (λ a. onto _ read_u64-Extends (λ a. return-Extends _))))))

read_st20_rx_user_stats-Extends : Extends read_st20_rx_user_stats
unfolding read_st20_rx_user_stats
read_st20_rx_user_stats-Extends = onto _ read_rx_port_stats-Extends (λ a.
    onto _ read_rx_port_stats-Extends (λ a. onto _ read_u64-Extends (λ a.
      onto _ read_u64-Extends (λ a. onto _ read_u64-Extends (λ a. onto _ read_u64-Extends (λ a.
        onto _ read_u64-Extends (λ a. onto _ read_u64-Extends (λ a. onto _ read_u64-Extends (λ a.
          onto _ read_u64-Extends (λ a. onto _ read_u64-Extends (λ a. onto _ read_u64-Extends (λ a.
            onto _ read_u64-Extends (λ a. onto _ read_u64-Extends (λ a.
              onto _ read_u64-Extends (λ a. onto _ read_u64-Extends (λ a.
                onto _ read_u64-Extends (λ a. onto _ read_u64-Extends (λ a.
                  onto _ read_u64-Extends (λ a. onto _ read_u64-Extends (λ a.
                    onto _ read_u64-Extends (λ a. onto _ read_u64-Extends (λ a.
                      onto _ read_u64-Extends (λ a. onto _ read_u64-Extends (λ a.
                        onto _ read_u64-Extends (λ a. onto _ read_u64-Extends (λ a.
                          onto _ read_u64-Extends (λ a. onto _ read_u64-Extends (λ a.
                            onto _ read_u64-Extends (λ a. onto _ read_u64-Extends (λ a.
                              onto _ read_u64-Extends (λ a. onto _ read_u64-Extends (λ a.
                                onto _ read_u64-Extends (λ a. onto _ read_u64-Extends (λ a.
                                  onto _ read_u64-Extends (λ a. onto _ read_u64-Extends (λ a.
                                    onto _ read_u64-Extends (λ a. onto _ read_u64-Extends (λ a.
                                      onto _ read_u64-Extends (λ a. onto _ read_u64-Extends (λ a.
                                        onto _ read_u64-Extends
                                          (λ a. onto _ read_u64-Extends (λ a. return-Extends _))))))
                                            ))))))))))))))))))))))))))))))))))))

read_device_rx_port_stats-Extends : Extends read_device_rx_port_stats
unfolding read_device_rx_port_stats
read_device_rx_port_stats-Extends = onto _ read_u64-Extends (λ a. onto _ read_u64-Extends (λ a.
    onto _ read_u64-Extends
      (λ a. onto _ read_u64-Extends (λ a. onto _ read_u64-Extends (λ a. return-Extends _)))))

pub read_stats_event-Extends : Extends read_stats_event
unfolding read_stats_event
read_stats_event-Extends = onto _ read_u64-Extends (λ a. onto _ read_u64-Extends (λ a.
    onto _ read_u64-Extends (λ a. onto _ read_u64-Extends (λ a. onto _ read_u64-Extends (λ a.
      onto _ read_u64-Extends (λ a. onto _ read_u64-Extends (λ a. onto _ read_u64-Extends (λ a.
        onto _ read_u64-Extends (λ a. onto _ read_u64-Extends (λ a. onto _ read_u64-Extends (λ a.
          onto _ read_u64-Extends (λ a. onto _ read_bool_u8-Extends (λ a.
            onto _ read_rx_port_stats-Extends (λ a. onto _ read_rx_port_stats-Extends (λ a.
              onto _ read_u64-Extends (λ a. onto _ read_u64-Extends (λ a.
                onto _ read_u64-Extends (λ a. onto _ read_u64-Extends (λ a.
                  onto _ read_u64-Extends (λ a. onto _ read_u64-Extends (λ a.
                    onto _ read_u64-Extends (λ a. onto _ read_u64-Extends (λ a.
                      onto _ read_u64-Extends (λ a. onto _ read_u64-Extends (λ a.
                        onto _ read_st20_rx_user_stats-Extends (λ a. onto _ read_u64-Extends (λ a.
                          onto _ read_u64-Extends (λ a. onto _ read_u64-Extends (λ a.
                            onto _ read_u64-Extends (λ a. onto _ read_bool_u8-Extends (λ a.
                              onto _ read_rx_port_stats-Extends (λ a.
                                onto _ read_rx_port_stats-Extends (λ a.
                                  onto _ read_u64-Extends (λ a. onto _ read_u64-Extends (λ a.
                                    onto _ read_u64-Extends (λ a. onto _ read_u64-Extends (λ a.
                                      onto _ read_u64-Extends (λ a. onto _ read_u64-Extends (λ a.
                                        onto _ read_u64-Extends (λ a. onto _ read_u64-Extends (λ a.
                                          onto _ read_u64-Extends (λ a.
                                            onto _ read_bool_u8-Extends (λ a.
                                              onto _ read_device_rx_port_stats-Extends (λ a.
                                                onto _ read_bool_u8-Extends (λ a.
                                                  onto _ read_device_rx_port_stats-Extends (λ a.
                                                    onto _ read_u64-Extends (λ a.
                                                      onto _ read_u64-Extends (λ a.
                                                        onto _ read_u64-Extends (λ a.
                                                          onto _ read_u64-Extends (λ a.
                                                            onto _ read_u64-Extends (λ a.
                                                            onto _ read_u64-Extends (λ a.
                                                            onto _ read_u64-Extends (λ a.
                                                            onto _ read_u64-Extends (λ a.
                                                            onto _ read_u64-Extends (λ a.
                                                            onto _ read_u64-Extends (λ a.
                                                            onto _ read_u64-Extends
                                                            (λ a. return-Extends _))))))))))))))))))
                                                            )))))))))))))))))))))))))))))))))))))))

read_runtime_port-Extends : Extends read_runtime_port
unfolding read_runtime_port
read_runtime_port-Extends =
    onto _ read_string-Extends (λ a. onto _ read_ipv4-Extends (λ a. return-Extends _))

pub read_runtime_config-Extends : Extends read_runtime_config
unfolding read_runtime_config
read_runtime_config-Extends =
    onto _ read_runtime_port-Extends
      (λ a. onto _ (read_optional-Extends _ read_runtime_port-Extends) (λ a. return-Extends _))

read_optional_ipv4-Extends : Extends read_optional_ipv4
unfolding read_optional_ipv4
read_optional_ipv4-Extends = read_optional-Extends _ read_ipv4-Extends

read_session_port-Extends : Extends read_session_port
unfolding read_session_port
read_session_port-Extends =
    onto _ read_ipv4-Extends (λ a.
      onto _ read_optional_ipv4-Extends (λ a. onto _ read_u16-Extends (λ a. return-Extends _)))

pub read_video_start_config-Extends : Extends read_video_start_config
unfolding read_video_start_config
read_video_start_config-Extends = onto _ read_runtime_config-Extends (λ a.
    onto _ read_session_port-Extends (λ a.
      onto _ (read_optional-Extends _ read_session_port-Extends) (λ a. onto _ read_u8-Extends (λ a.
        onto _ read_u32-Extends (λ a. onto _ read_u32-Extends (λ a. onto _ read_u32-Extends (λ a.
          onto _ read_u32-Extends (λ a. onto _ read_u32-Extends (λ a.
            onto _ read_u32-Extends (λ a. onto _ read_u16-Extends (λ a. return-Extends _)))))))))))

read_audio_media_description-Extends : Extends read_audio_media_description
unfolding read_audio_media_description
read_audio_media_description-Extends = onto _ read_u32-Extends (λ a. onto _ read_u32-Extends (λ a.
    onto _ read_u32-Extends
      (λ a. onto _ read_u32-Extends (λ a. onto _ read_u16-Extends (λ a. return-Extends _)))))

pub read_audio_start_config-Extends : Extends read_audio_start_config
unfolding read_audio_start_config
read_audio_start_config-Extends = onto _ read_runtime_config-Extends (λ a.
    onto _ read_session_port-Extends (λ a.
      onto _ (read_optional-Extends _ read_session_port-Extends) (λ a. onto _ read_u8-Extends (λ a.
        onto _ read_audio_media_description-Extends (λ a. onto _ read_u32-Extends (λ a.
          onto _ read_u32-Extends (λ a. onto _ read_u32-Extends (λ a. onto _ read_u32-Extends (λ a.
            onto _ read_u16-Extends (λ a. onto _ read_u64-Extends (λ a. return-Extends _)))))))))))

read_worker_media_kind-Extends : Extends read_worker_media_kind
unfolding read_worker_media_kind
read_worker_media_kind-Extends =
    onto _ read_u32-Extends (λ a. onto _ (check-Extends _) (λ b. return-Extends _))

read_shared_memory_ring_descriptor-Extends : Extends read_shared_memory_ring_descriptor
unfolding read_shared_memory_ring_descriptor
read_shared_memory_ring_descriptor-Extends = onto _ read_u64-Extends (λ a.
    onto _ read_worker_media_kind-Extends (λ a. onto _ read_u32-Extends (λ a.
      onto _ read_u32-Extends (λ a. onto _ read_u64-Extends (λ a. onto _ read_u64-Extends (λ a.
        onto _ read_u32-Extends (λ a. onto _ read_u64-Extends (λ a. onto _ read_u64-Extends (λ a.
          onto _ read_u64-Extends (λ a. onto _ (check-Extends _) (λ b. return-Extends _)))))))))))

read_each-Extends : (n : ℕ) → Extends (read_each n)
unfolding read_each
read_each-Extends zero = return-Extends _
read_each-Extends (suc n) =
    onto _ read_shared_memory_ring_descriptor-Extends
      (λ a. onto _ (read_each-Extends n) (λ b. return-Extends _))

pub read_shared_memory_ring_descriptors-Extends : Extends read_shared_memory_ring_descriptors
unfolding read_shared_memory_ring_descriptors
read_shared_memory_ring_descriptors-Extends = onto _ read_u32-Extends (λ count.
    onto _ (check-Extends _) (λ few.
      onto _ (read_each-Extends (count.value))
        (λ a. onto _ (check-Extends _) (λ b. return-Extends _))))
