-- ===== src/Backend/Duplicates.antt =====
-- The second copy of a packet, from the redundant leg.
use mathlib.Core.Option
use st2110_obs_plugin.Base.{
  ℕ, ◌<◌, ◌≡◌, refl, sym, ap, subst, ◌∙◌, Bool, true, false, ◌&&◌, Option, none, some, List, [],
  arith, no_error, Outcome, returns, and_then-returns,
}
use st2110_obs_plugin.Stored.{StoredPacket, reorder_sequence}
use st2110_obs_plugin.Reorder.{push}
use st2110_obs_plugin.Downstream.{seen, remember}
use st2110_obs_plugin.Downstream.History.{IsSynced, remember-IsSynced}
use st2110_obs_plugin.Backend.{Backend, drain_pushed, process_stored_packet_downstream}

-- What a drain after a push leaves: the merging on, and the number remembered.
record Remembers (b : Backend) (sequence : ℕ) (b' : Backend) : Type 0 where
  enabled : b'.duplicate_merge_enabled ≡ true
  history :
      b'.duplicate_merge_history
      ≡ remember b.duplicate_merge_history sequence b.reorder_buffer_config.window_size_packets

map_returned :
    {A B : Type 0} (f : Outcome A → Outcome B) (o : Option (Outcome A)) {r : B}
    → Option.map f o ≡ some (returns r)
    → (x : Outcome A) × (f x ≡ returns r)
map_returned f none e = absurd (ground arith)
map_returned f (some x) e = (x, ground arith)

drain_pushed-Remembers :
    (is_video : Bool) (fuel : ℕ) (b : Backend) (sequence : ℕ) {ps : List StoredPacket}
    {b' : Backend}
    → b.duplicate_merge_enabled ≡ true
    → drain_pushed is_video fuel b sequence ≡ some (returns (ps, b'))
    → Remembers b sequence b'
unfolding drain_pushed
drain_pushed-Remembers is_video fuel b sequence {ps} {b'} m e =
    let (o, g) = map_returned _ _ e in
    let (s, h, k) = and_then-returns o _ g in
    record { enabled = ground arith; history = ground arith }

-- The two branches that matter.
skips :
    (is_video : Bool) (fuel : ℕ) (b : Backend) (packet : StoredPacket)
    → (b.duplicate_merge_enabled && seen b.duplicate_merge_history (reorder_sequence packet)) ≡ true
    → process_stored_packet_downstream is_video fuel b packet ≡ some (returns ([], b))
unfolding process_stored_packet_downstream
skips is_video fuel b packet t = rw t refl

passes :
    (is_video : Bool) (fuel : ℕ) (b : Backend) (packet : StoredPacket)
    → (b.duplicate_merge_enabled && seen b.duplicate_merge_history (reorder_sequence packet))
      ≡ false
    → (push is_video b.reorder_buffer packet).0 ≡ no_error
    → process_stored_packet_downstream is_video fuel b packet
      ≡ drain_pushed is_video fuel
          (record b { reorder_buffer = (push is_video b.reorder_buffer packet).1 })
          (reorder_sequence packet)
unfolding process_stored_packet_downstream
passes is_video fuel b packet t o = rw (t, o) refl

-- With merging of duplicates on, a history in step and a window that is not empty, a packet of a new
-- number that the reorder buffer takes is remembered: when its second copy comes next, nothing is
-- delivered and the state stays as it is, on any fuel. The history is in step again.
pub process_stored_packet_downstream-twice :
    (is_video : Bool) (fuel fuel' : ℕ) (b : Backend) (packet : StoredPacket)
    {ps : List StoredPacket} {b' : Backend}
    → b.duplicate_merge_enabled ≡ true
    → 0 < b.reorder_buffer_config.window_size_packets
    → IsSynced b.duplicate_merge_history
    → seen b.duplicate_merge_history (reorder_sequence packet) ≡ false
    → (push is_video b.reorder_buffer packet).0 ≡ no_error
    → process_stored_packet_downstream is_video fuel b packet ≡ some (returns (ps, b'))
    → (process_stored_packet_downstream is_video fuel' b' packet ≡ some (returns ([], b')))
      × IsSynced b'.duplicate_merge_history
process_stored_packet_downstream-twice is_video fuel fuel' b packet {ps} {b'} m w v n o e =
    let c = record b { reorder_buffer = (push is_video b.reorder_buffer packet).1 } in
    let r =
      drain_pushed-Remembers is_video fuel c (reorder_sequence packet) {ps = ps} {b' = b'} m
        (sym (passes is_video fuel b packet (ground arith) o) ∙ e) in
    let s =
      remember-IsSynced b.duplicate_merge_history (reorder_sequence packet)
        b.reorder_buffer_config.window_size_packets v n w in
    let k : seen b'.duplicate_merge_history (reorder_sequence packet) ≡ true =
      ap (λ h. seen h (reorder_sequence packet)) r.history ∙ s.1 in
    (
      skips is_video fuel' b' packet (ground (arith, r.enabled, k)),
      subst IsSynced (sym r.history) s.0,
    )
