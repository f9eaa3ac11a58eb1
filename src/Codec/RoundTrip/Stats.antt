-- ===== src/Codec/RoundTrip/Stats.antt =====
-- The readers of the counters undo their writers.
use st2110_obs_plugin.Base.{refl}
use st2110_obs_plugin.Codec.Stats.{
  MtlWorkerRxPortStats, write_rx_port_stats, read_rx_port_stats, MtlWorkerSt20RxUserStats,
  write_st20_rx_user_stats, read_st20_rx_user_stats, MtlWorkerDeviceRxPortStats,
  write_device_rx_port_stats, read_device_rx_port_stats,
}
use st2110_obs_plugin.Codec.StatsEvent.{MtlWorkerStatsEvent, write_stats_event, read_stats_event}
use st2110_obs_plugin.Codec.Reading.{Reads, next, last, u64, bool_u8}

pub read_rx_port_stats-Reads :
    (stats : MtlWorkerRxPortStats) → Reads read_rx_port_stats (write_rx_port_stats stats) stats
unfolding read_rx_port_stats write_rx_port_stats
read_rx_port_stats-Reads stats =
    next _ u64 (next _ u64 (next _ u64 (next _ u64 (next _ u64 (last _ u64 refl)))))

pub read_st20_rx_user_stats-Reads :
    (stats : MtlWorkerSt20RxUserStats)
    → Reads read_st20_rx_user_stats (write_st20_rx_user_stats stats) stats
unfolding read_st20_rx_user_stats write_st20_rx_user_stats
read_st20_rx_user_stats-Reads stats = next _ (read_rx_port_stats-Reads _) (
    next _ (read_rx_port_stats-Reads _) (
      next _ u64 (
        next _ u64 (
          next _ u64 (
            next _ u64 (
              next _ u64 (
                next _ u64 (
                  next _ u64 (
                    next _ u64 (
                      next _ u64 (
                        next _ u64 (
                          next _ u64 (
                            next _ u64 (
                              next _ u64 (
                                next _ u64 (
                                  next _ u64 (
                                    next _ u64 (
                                      next _ u64 (
                                        next _ u64 (
                                          next _ u64 (
                                            next _ u64 (
                                              next _ u64 (
                                                next _ u64 (
                                                  next _ u64 (
                                                    next _ u64 (
                                                      next _ u64 (
                                                        next _ u64 (
                                                          next _ u64 (
                                                            next _ u64 (
                                                            next _ u64 (
                                                            next _ u64 (
                                                            next _ u64 (
                                                            next _ u64 (
                                                            next _ u64 (
                                                            next _ u64 (
                                                            next _ u64 (
                                                            next _ u64 (
                                                            next _ u64 (
                                                            next _ u64
                                                            (next _ u64 (last _ u64 refl))))))))))))
                                                            )))))))))))))))))))))))))))))

pub read_device_rx_port_stats-Reads :
    (stats : MtlWorkerDeviceRxPortStats)
    → Reads read_device_rx_port_stats (write_device_rx_port_stats stats) stats
unfolding read_device_rx_port_stats write_device_rx_port_stats
read_device_rx_port_stats-Reads stats =
    next _ u64 (next _ u64 (next _ u64 (next _ u64 (last _ u64 refl))))

pub read_stats_event-Reads :
    (event : MtlWorkerStatsEvent) → Reads read_stats_event (write_stats_event event) event
unfolding read_stats_event write_stats_event
read_stats_event-Reads event = next _ u64 (
    next _ u64 (
      next _ u64 (
        next _ u64 (
          next _ u64 (
            next _ u64 (
              next _ u64 (
                next _ u64 (
                  next _ u64 (
                    next _ u64 (
                      next _ u64 (
                        next _ u64 (
                          next _ bool_u8 (
                            next _ (read_rx_port_stats-Reads _) (
                              next _ (read_rx_port_stats-Reads _) (
                                next _ u64 (
                                  next _ u64 (
                                    next _ u64 (
                                      next _ u64 (
                                        next _ u64 (
                                          next _ u64 (
                                            next _ u64 (
                                              next _ u64 (
                                                next _ u64 (
                                                  next _ u64 (
                                                    next _ (read_st20_rx_user_stats-Reads _) (
                                                      next _ u64 (
                                                        next _ u64 (
                                                          next _ u64 (
                                                            next _ u64 (
                                                            next _ bool_u8 (
                                                            next _ (read_rx_port_stats-Reads _) (
                                                            next _ (read_rx_port_stats-Reads _) (
                                                            next _ u64 (
                                                            next _ u64 (
                                                            next _ u64 (
                                                            next _ u64 (
                                                            next _ u64 (
                                                            next _ u64 (
                                                            next _ u64 (
                                                            next _ u64 (
                                                            next _ u64 (
                                                            next _ bool_u8 (
                                                            next _
                                                            (read_device_rx_port_stats-Reads _)
                                                            (next _ bool_u8 (
                                                            next _
                                                            (read_device_rx_port_stats-Reads _)
                                                            (next _ u64 (
                                                            next _ u64 (
                                                            next _ u64 (
                                                            next _ u64 (
                                                            next _ u64 (
                                                            next _ u64 (
                                                            next _ u64 (
                                                            next _ u64 (
                                                            next _ u64
                                                            (next _ u64 (last _ u64 refl))))))))))))
                                                            ))))))))))))))))))))))))))))))))))))))))
                                                            ))))
