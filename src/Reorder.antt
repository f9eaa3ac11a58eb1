-- ===== src/Reorder.antt =====
-- libs/st2110core/include/st2110/receive/shared/fixed_reorder_buffer.hpp, the class template
-- `FixedWindowReorderBuffer<is_video_>`, and receive/shared/reorder_stats.hpp.
-- The template's parameter is the argument `is_video`: a video buffer counts in 32-bit extended
-- sequence numbers, an audio buffer in 16-bit ones, and the functions of the two that differ in
-- nothing else are one function here. `next_expected` is `next_expected_seq_` in a video buffer and
-- `next_expected_audio_seq_` in an audio buffer. The ordered map `packets_` is a list of entries in
-- the order of their keys (`Reorder/Entries.antt`). Counters wrap at 2^64.
pub mod Entries
pub mod Invariant
pub mod Pushing
pub mod Bound
pub mod Accounting
pub mod Delivery
pub mod Order
pub mod Recovery
use st2110_obs_plugin.Base.{
  ℕ, ◌+◌, ◌-◌, ◌%◌, ◌^◌, Bool, true, false, not, ◌&&◌, ◌||◌, Option, none, some, List, [], ◌∷◌, ltb,
  leb, ◌==◌, if◌then◌else◌, Error, no_error, invalid_value, inc64, add64, u16_mod, u32_mod, length,
}
use st2110_obs_plugin.Stored.{StoredPacket, reorder_sequence}
use Entries.{Entry, find, contains, emplace, erase, is_empty}

pub record ReorderBufferStats : Type 0 where
  pub packets_pushed : ℕ
  pub packets_stored : ℕ
  pub packets_popped : ℕ
  pub duplicates : ℕ
  pub out_of_window : ℕ
  pub late_packets : ℕ
  pub missing_seq : ℕ
  pub missing_seq_flushed : ℕ

abbrev pub no_stats : ReorderBufferStats
no_stats = record {
  packets_pushed = 0;
  packets_stored = 0;
  packets_popped = 0;
  duplicates = 0;
  out_of_window = 0;
  late_packets = 0;
  missing_seq = 0;
  missing_seq_flushed = 0;
}

pub record Buffer : Type 0 where
  pub window_size : ℕ
  pub next_expected : ℕ
  pub packets : List (Entry StoredPacket)
  pub stats : ReorderBufferStats
  pub initialized : Bool
  pub missing_head_accounted : Bool

-- The constructor; `none` is the exception `std::invalid_argument`.
unfoldable pub make : ℕ → Option Buffer
make window_size =
    if window_size == 0
    then none
    else some (record {
      window_size = window_size;
      next_expected = 0;
      packets = [];
      stats = no_stats;
      initialized = false;
      missing_head_accounted = false;
    })

-- The width of the sequence numbers.
abbrev pub modulus : Bool → ℕ
modulus true = u32_mod
modulus false = u16_mod

-- The largest distance that counts as forward.
abbrev pub max_forward : Bool → ℕ
max_forward true = 0x7FFF_FFFF
max_forward false = 0x8000

module _ (is_video : Bool) where
  -- `static_cast<std::uint16_t>`, in the audio buffer only.
  abbrev pub cast : ℕ → ℕ
  cast seq = seq % modulus is_video

  -- `to - from` in the width of the sequence numbers.
  abbrev pub distance : ℕ → ℕ → ℕ
  distance from to = (to + modulus is_video - from) % modulus is_video

  -- `++next_expected`
  abbrev pub next : ℕ → ℕ
  next seq = (seq + 1) % modulus is_video

  unfoldable pub pop_next : Buffer → Option StoredPacket × Buffer
  pop_next b = elim (not b.initialized || is_empty b.packets) [
    | true ↦ (none, b)
    | false ↦ elim (find b.next_expected b.packets) [
      | some packet ↦ (
        some packet,
        record b {
          packets = erase b.next_expected b.packets;
          next_expected = next b.next_expected;
          stats = record stats { packets_popped = inc64 stats.packets_popped };
          missing_head_accounted = false;
        },
      )
      | none ↦
          if not (is_empty b.packets) && not b.missing_head_accounted
          then (
            none,
            record b {
              stats = record stats { missing_seq = inc64 stats.missing_seq };
              missing_head_accounted = true;
            },
          )
          else (none, b)
    ]
  ]
    where
      open b use {stats}

  unfoldable pub reset : Buffer → Buffer
  reset b = record b {
    packets = [];
    next_expected = 0;
    stats = no_stats;
    missing_head_accounted = false;
    initialized = false;
  }

  unfoldable pub flush_missing_once : Buffer → Bool × Buffer
  flush_missing_once b =
      if not b.initialized || is_empty b.packets || contains b.next_expected b.packets
      then (false, b)
      else (
        true,
        record b {
          next_expected = next b.next_expected;
          missing_head_accounted = false;
          stats = record stats { missing_seq_flushed = inc64 stats.missing_seq_flushed };
        },
      )
    where
      open b use {stats}

  unfoldable pub flush_after_n_packets : Buffer → ℕ → Bool × Buffer
  flush_after_n_packets b threshold_packets =
      let effective_threshold = if threshold_packets == 0 then 1 else threshold_packets in
      if not b.initialized || is_empty b.packets
      then (false, b)
      else if ltb (length b.packets) effective_threshold
      then (false, b)
      else if contains b.next_expected b.packets
      then (false, b)
      else flush_missing_once b

  unfoldable pub has_marker_boundary_packet : List (Entry StoredPacket) → Bool
  has_marker_boundary_packet [] = false
  has_marker_boundary_packet (e ∷ es) = e.item.rtp.marker || has_marker_boundary_packet es

  unfoldable pub flush_missing_until_marker_boundary : Buffer → Bool × Buffer
  flush_missing_until_marker_boundary b =
      if not b.initialized || is_empty b.packets
      then (false, b)
      else if contains b.next_expected b.packets
      then (false, b)
      else if not (has_marker_boundary_packet b.packets)
      then (false, b)
      else flush_missing_once b

  -- The three tests that a candidate of `find_…_recovery_expected_for_incoming` must pass: it is not
  -- late, not behind the incoming packet, and the incoming packet fits a window that starts there.
  abbrev pub fits_from : ℕ → ℕ → ℕ → ℕ → Bool
  fits_from window_size next_expected incoming candidate =
      not (ltb (max_forward is_video) (distance next_expected candidate))
      && not (ltb (max_forward is_video) (distance candidate incoming))
      && not (leb window_size (distance candidate incoming))

  abbrev pub is_better : Option ℕ → ℕ → ℕ → Bool
  is_better none best_distance d = true
  is_better (some c) best_distance d = ltb d best_distance

  -- The loop over the buffered packets, with the best candidate so far and its distance.
  unfoldable pub find_recovery_from :
      ℕ → ℕ → ℕ → Option ℕ → ℕ → List (Entry StoredPacket) → Option ℕ
  find_recovery_from window_size next_expected incoming best best_distance [] = best
  find_recovery_from window_size next_expected incoming best best_distance (e ∷ es) =
      let candidate = cast e.key in
      let d = distance next_expected candidate in
      let taken = find_recovery_from window_size next_expected incoming (some candidate) d es in
      let passed = find_recovery_from window_size next_expected incoming best best_distance es in
      if fits_from window_size next_expected incoming candidate && is_better best best_distance d
      then taken
      else passed

  unfoldable pub find_recovery_expected_for_incoming : Buffer → ℕ → Option ℕ
  find_recovery_expected_for_incoming b incoming =
      find_recovery_from b.window_size b.next_expected incoming none 0 b.packets

  unfoldable pub erase_packets_outside_window :
      ℕ → ℕ → List (Entry StoredPacket) → List (Entry StoredPacket)
  erase_packets_outside_window window_size next_expected [] = []
  erase_packets_outside_window window_size next_expected (e ∷ es) =
      let dist = distance next_expected (cast e.key) in
      let rest = erase_packets_outside_window window_size next_expected es in
      if ltb (max_forward is_video) dist || leb window_size dist then rest else e ∷ rest

  unfoldable pub advance_expected_to : Buffer → ℕ → Buffer
  advance_expected_to b new_expected_seq = record b {
    stats = record stats {
      missing_seq_flushed =
          add64 stats.missing_seq_flushed (distance b.next_expected new_expected_seq);
    };
    next_expected = new_expected_seq;
    missing_head_accounted = false;
    packets = erase_packets_outside_window b.window_size new_expected_seq b.packets;
  }
    where
      open b use {stats}

  abbrev pub target : Option ℕ → ℕ → ℕ
  target none seq = seq
  target (some recovery) seq = recovery

  -- The end of `push`: a packet whose sequence number lies in the window.
  unfoldable pub store_packet : Buffer → ℕ → StoredPacket → Error × Buffer
  store_packet b seq packet =
      if contains seq b.packets
      then (
        invalid_value,
        record b { stats = record stats { duplicates = inc64 stats.duplicates } },
      )
      else (
        no_error,
        record b {
          packets = emplace seq packet b.packets;
          stats = record stats { packets_stored = inc64 stats.packets_stored };
        },
      )
    where
      open b use {stats}

  -- The branch of `push` for a packet ahead of the window.
  unfoldable pub push_ahead : Buffer → ℕ → StoredPacket → Error × Buffer
  push_ahead b seq packet =
      let counted = record b {
        stats = record stats { out_of_window = inc64 stats.out_of_window };
      } in
      let advanced =
        advance_expected_to counted
          (target (find_recovery_expected_for_incoming counted seq) seq) in
      let dist = distance advanced.next_expected seq in
      if leb b.window_size dist || ltb (max_forward is_video) dist
      then (invalid_value, advanced)
      else store_packet advanced seq packet
    where
      open b use {stats}

  -- The state in which `push` tests the distance: the first packet sets the expected number.
  unfoldable pub admit : Buffer → ℕ → Buffer
  admit b seq =
      let started =
        if b.initialized then b else record b { initialized = true; next_expected = seq } in
      let stats = started.stats in
      record started { stats = record stats { packets_pushed = inc64 stats.packets_pushed } }

  -- `push` from its test of the distance `dist` on.
  unfoldable pub place : Buffer → ℕ → StoredPacket → ℕ → Error × Buffer
  place b seq packet dist =
      if ltb dist b.window_size
      then store_packet b seq packet
      else if ltb (max_forward is_video) dist
      then (
        invalid_value,
        record b { stats = record stats { late_packets = inc64 stats.late_packets } },
      )
      else push_ahead b seq packet
    where
      open b use {stats}

  unfoldable pub push : Buffer → StoredPacket → Error × Buffer
  push b packet =
      let seq = cast (reorder_sequence packet) in
      let admitted = admit b seq in place admitted seq packet (distance admitted.next_expected seq)
