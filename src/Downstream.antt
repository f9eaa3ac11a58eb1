-- ===== src/Downstream.antt =====
-- libs/st2110core/include/st2110/backends/socket/socket_rx_single_media_backend_base.hpp: the thread
-- that takes stored packets, merges the duplicates of redundant legs, reorders and delivers.
-- A drain returns the packets that it hands to `deliver_media`, in order. The `while (true)` of the
-- drain runs on fuel; `none` means that the fuel ran out.
pub mod Termination
pub mod Refinement
pub mod Drain
pub mod History
use mathlib.Core.Option
use st2110_obs_plugin.Base.{
  ℕ, zero, suc, ◌+◌, Bool, true, false, not, ◌&&◌, ◌||◌, Option, none, some, List, [], ◌∷◌, ◌++◌,
  length, ltb, ◌==◌, if◌then◌else◌, Error, no_error, is_ok, inc64, Outcome, returns, throws,
  undefined, Exception, runtime_error,
}
use st2110_obs_plugin.Stored.{StoredPacket, reorder_sequence}
use st2110_obs_plugin.Reorder.{
  Buffer, pop_next, flush_missing_once, flush_after_n_packets, flush_missing_until_marker_boundary,
  push,
}

-- receive/shared/receive_reorder_tolerance_policy.hpp
pub data ReceiveReorderGapPolicy : Type 0 where
  wait_for_missing : ReceiveReorderGapPolicy
  flush_gap_once : ReceiveReorderGapPolicy
  flush_always : ReceiveReorderGapPolicy
  flush_after_timeout : ReceiveReorderGapPolicy
  drop_frame_on_gap : ReceiveReorderGapPolicy
  flush_on_marker_boundary : ReceiveReorderGapPolicy
  topology_aware_wait : ReceiveReorderGapPolicy
  flush_after_n : ReceiveReorderGapPolicy

pub record ReorderBufferConfig : Type 0 where
  pub window_size_packets : ℕ
  pub reorder_tolerance_policy : ReceiveReorderGapPolicy
  pub flush_after_n_packets : ℕ

-- The sequence numbers seen lately: `std::deque` and `std::unordered_set`, as lists.
pub record DuplicateMergeHistory : Type 0 where
  pub ordered_sequences : List ℕ
  pub sequence_set : List ℕ

abbrev pub member : ℕ → List ℕ → Bool
member s [] = false
member s (x ∷ xs) = x == s || member s xs

abbrev pub remove : ℕ → List ℕ → List ℕ
remove s [] = []
remove s (x ∷ xs) = let rest = remove s xs in if x == s then rest else x ∷ rest

unfoldable pub seen : DuplicateMergeHistory → ℕ → Bool
seen h sequence = member sequence h.sequence_set

-- The loop that forgets the oldest numbers, on the list of the deque.
unfoldable pub forget : ℕ → List ℕ → List ℕ → DuplicateMergeHistory
forget capacity [] set = record { ordered_sequences = []; sequence_set = set }
forget capacity (x ∷ xs) set =
    let rest = forget capacity xs (remove x set) in
    if ltb capacity (length (x ∷ xs))
    then rest
    else record { ordered_sequences = x ∷ xs; sequence_set = set }

unfoldable pub remember : DuplicateMergeHistory → ℕ → ℕ → DuplicateMergeHistory
unfolding forget
remember h sequence capacity =
    forget capacity (h.ordered_sequences ++ sequence ∷ [])
      (if member sequence h.sequence_set then h.sequence_set else sequence ∷ h.sequence_set)

abbrev pub allow_multiple_gap_flushes : ReceiveReorderGapPolicy → Bool
allow_multiple_gap_flushes flush_on_marker_boundary = true
allow_multiple_gap_flushes flush_after_n = true
allow_multiple_gap_flushes _ = false

module _ (is_video : Bool) where
  -- The new value of the flag beside the buffer; the flag is false at the call.
  unfoldable pub apply_reorder_buffer_policy :
      ReceiveReorderGapPolicy → ℕ → Buffer → Outcome (Bool × Buffer)
  apply_reorder_buffer_policy wait_for_missing n b = returns (false, b)
  apply_reorder_buffer_policy flush_gap_once n b = returns (flush_missing_once is_video b)
  apply_reorder_buffer_policy flush_after_n n b = returns (flush_after_n_packets is_video b n)
  apply_reorder_buffer_policy flush_on_marker_boundary n b =
      returns (flush_missing_until_marker_boundary is_video b)
  apply_reorder_buffer_policy _ n b = throws runtime_error

  abbrev pub deliver_first :
      StoredPacket → Outcome (List StoredPacket × Buffer) → Outcome (List StoredPacket × Buffer)
  deliver_first p (returns (ps, b)) = returns (p ∷ ps, b)
  deliver_first p (throws e) = throws e
  deliver_first p undefined = undefined

  module _ (policy : ReceiveReorderGapPolicy) (n : ℕ) where
    -- The loop, with `gap_flush_used`.
    unfoldable pub drain_from : ℕ → Bool → Buffer → Option (Outcome (List StoredPacket × Buffer))
    drain_from zero used b = none
    drain_from (suc fuel) used b =
        let (popped, b') = pop_next is_video b in
        elim popped [
          | some packet ↦ Option.map (deliver_first packet) (drain_from fuel used b')
          | none ↦ elim (used && not (allow_multiple_gap_flushes policy)) [
            | true ↦ some (returns ([], b'))
            | false ↦ elim (apply_reorder_buffer_policy policy n b') [
              | returns (flushed, b'') ↦ elim flushed [
                | true ↦ drain_from fuel true b''
                | false ↦ some (returns ([], b''))
              ]
              | throws e ↦ some (throws e)
              | undefined ↦ some undefined
            ]
          ]
        ]

    unfoldable pub drain_reorder_buffer_to_sink :
        ℕ → Buffer → Option (Outcome (List StoredPacket × Buffer))
    unfolding drain_from
    drain_reorder_buffer_to_sink fuel b = drain_from fuel false b
