-- ===== src/Stored/RoundTrip.antt =====
-- A stored packet gives back the view that was stored.
use st2110_obs_plugin.Base.{ok, subst, sym, ℕ, ◌≡◌, ◌⊎◌, inl, inr, refl, List, arith}
use st2110_obs_plugin.Rtp.{RtpHeaderView}
use st2110_obs_plugin.PayloadHeader.{St2110PayloadHeaderView}
use st2110_obs_plugin.VideoPacket.{VideoPacketView, split_view, parse_packet_view}
use st2110_obs_plugin.VideoPacket.Parsed.{parse_packet_view-Checks}
use st2110_obs_plugin.PayloadHeader.Validation.{IsWellFormed}
use st2110_obs_plugin.AudioPacket.{AudioPacketView}
use st2110_obs_plugin.Stored.{video_view, audio_view, store_video, store_audio, view}

view-store_split :
    (rtp : RtpHeaderView) (h : St2110PayloadHeaderView) (payload : List ℕ) (now n : ℕ)
    → h.srd_count ≡ n
    → (n ≡ 1) ⊎ ((n ≡ 2) ⊎ (n ≡ 3))
    → view (store_video (record (split_view rtp h payload) { receive_timestamp_ns = now }))
      ≡ video_view (record (split_view rtp h payload) { receive_timestamp_ns = now })
unfolding view store_video split_view
view-store_split rtp h payload now n e (inl k) = ground arith
view-store_split rtp h payload now n e (inr (inl k)) = ground arith
view-store_split rtp h payload now n e (inr (inr k)) = ground arith

-- Storing a video packet that came from the parser, with its time of arrival, and viewing the
-- stored copy gives the packet back, segments and padding included.
pub view-store_video :
    (udp_payload : List ℕ) (now : ℕ) {v : VideoPacketView}
    → parse_packet_view udp_payload ≡ ok v
    → view (store_video (record v { receive_timestamp_ns = now }))
      ≡ video_view (record v { receive_timestamp_ns = now })
view-store_video udp now {v} h =
    let c = parse_packet_view-Checks udp h in
    subst
      (λ w.
        view (store_video (record w { receive_timestamp_ns = now }))
        ≡ video_view (record w { receive_timestamp_ns = now }))
      (sym c.split)
      (view-store_split c.rtp c.header _ now c.header.srd_count refl
        (counts c.header c.header_valid))
  where
    counts :
        (h : St2110PayloadHeaderView)
        → IsWellFormed h
        → (h.srd_count ≡ 1) ⊎ ((h.srd_count ≡ 2) ⊎ (h.srd_count ≡ 3))
    counts h w = ground arith

-- Storing an audio packet and viewing the stored copy gives the packet back.
pub view-store_audio : (a : AudioPacketView) → view (store_audio a) ≡ audio_view a
unfolding view store_audio
view-store_audio a = refl
