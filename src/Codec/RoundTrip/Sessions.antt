-- ===== src/Codec/RoundTrip/Sessions.antt =====
-- The readers of the session configurations undo their writers, where these succeed.
use st2110_obs_plugin.Base.{◌≡◌, refl, Option, none, some, ok, chain_ok}
use st2110_obs_plugin.Codec.Writer.{Writer, write_string, write_optional, Ipv4}
use st2110_obs_plugin.Codec.Sessions.{
  MtlRuntimePortConfig, MtlRuntimeConfig, MtlSessionPortConfig, MtlVideoStartConfig,
  AudioMediaWords, MtlAudioStartConfig, write_runtime_port, write_runtime_config,
  write_optional_ipv4, write_session_port, write_redundant_port, write_video_start_config,
  write_audio_media_description, write_audio_start_config,
}
use st2110_obs_plugin.Codec.Reader.{read_optional}
use st2110_obs_plugin.Codec.ReadSessions.{
  read_runtime_port, read_runtime_config, read_optional_ipv4, read_session_port,
  read_video_start_config, read_audio_media_description, read_audio_start_config,
}
use st2110_obs_plugin.Codec.Reading.{
  Reads, next, last, u8, u16, u32, u64, ipv4, bool_u8, string, optional, written,
}

pub read_runtime_port-Reads :
    (port : MtlRuntimePortConfig) (w : Writer)
    → write_runtime_port port ≡ ok w
    → Reads read_runtime_port w port
unfolding read_runtime_port write_runtime_port
read_runtime_port-Reads port w e =
    let s = chain_ok (write_string port.port_name) _ e in
    written (s.2) (next _ (string (s.1)) (last _ ipv4 refl))

pub read_runtime_config-Reads :
    (runtime : MtlRuntimeConfig) {w : Writer}
    → write_runtime_config runtime ≡ ok w
    → Reads read_runtime_config w runtime
unfolding read_runtime_config write_runtime_config
read_runtime_config-Reads runtime e =
    let s = chain_ok (write_runtime_port runtime.primary_port) _ e in
    let t = chain_ok (write_optional write_runtime_port runtime.redundant_port) _ (s.2) in
    written (t.2) (
      next _ (read_runtime_port-Reads _ _ (s.1))
        (last _ (optional _ _ read_runtime_port-Reads _ (t.1)) refl))

read_optional_ipv4-Reads : (ip : Option Ipv4) → Reads read_optional_ipv4 (write_optional_ipv4 ip) ip
unfolding read_optional_ipv4 write_optional_ipv4 read_optional
read_optional_ipv4-Reads none = last _ bool_u8 refl
read_optional_ipv4-Reads (some ip) = next _ bool_u8 (last _ ipv4 refl)

pub read_session_port-Reads :
    (port : MtlSessionPortConfig) → Reads read_session_port (write_session_port port) port
unfolding read_session_port write_session_port
read_session_port-Reads port = next _ ipv4 (next _ (read_optional_ipv4-Reads _) (last _ u16 refl))

write_redundant_port-Reads :
    (port : Option MtlSessionPortConfig) {w : Writer}
    → write_redundant_port port ≡ ok w
    → Reads (read_optional read_session_port) w port
unfolding write_redundant_port
write_redundant_port-Reads port e =
    optional _ _ (λ p v f. written f (read_session_port-Reads p)) port e

pub read_video_start_config-Reads :
    (cfg : MtlVideoStartConfig) (w : Writer)
    → write_video_start_config cfg ≡ ok w
    → Reads read_video_start_config w cfg
unfolding read_video_start_config write_video_start_config
read_video_start_config-Reads cfg w e =
    let s = chain_ok (write_runtime_config cfg.runtime) _ e in
    let t = chain_ok (write_redundant_port cfg.redundant) _ (s.2) in
    written (t.2) (
      next _ (read_runtime_config-Reads _ (s.1)) (
        next _ (read_session_port-Reads _) (
          next _ (write_redundant_port-Reads _ (t.1)) (
            next _ u8 (
              next _ u32 (
                next _ u32
                  (next _ u32 (next _ u32 (next _ u32 (next _ u32 (last _ u16 refl)))))))))))

read_audio_media_description-Reads :
    (media : AudioMediaWords)
    → Reads read_audio_media_description (write_audio_media_description media) media
unfolding read_audio_media_description write_audio_media_description
read_audio_media_description-Reads media =
    next _ u32 (next _ u32 (next _ u32 (next _ u32 (last _ u16 refl))))

pub read_audio_start_config-Reads :
    (cfg : MtlAudioStartConfig) (w : Writer)
    → write_audio_start_config cfg ≡ ok w
    → Reads read_audio_start_config w cfg
unfolding read_audio_start_config write_audio_start_config
read_audio_start_config-Reads cfg w e =
    let s = chain_ok (write_runtime_config cfg.runtime) _ e in
    let t = chain_ok (write_redundant_port cfg.redundant) _ (s.2) in
    written (t.2) (
      next _ (read_runtime_config-Reads _ (s.1)) (
        next _ (read_session_port-Reads _) (
          next _ (write_redundant_port-Reads _ (t.1)) (
            next _ u8 (
              next _ (read_audio_media_description-Reads _) (
                next _ u32
                  (next _ u32 (next _ u32 (next _ u32 (next _ u16 (last _ u64 refl)))))))))))
