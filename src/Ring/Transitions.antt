-- ===== src/Ring/Transitions.antt =====
-- libs/st2110core/src/backends/mtl/mtl_worker_shared_memory_ring.cpp:
-- what an operation does to the header of a slot that is there. A compare-and-exchange is one step.
use st2110_obs_plugin.Base.{
  ℕ, Bool, true, false, not, ◌==◌, if◌then◌else◌, Expected, ok, unexpected, ◌>>◌, reject,
  invalid_value, invalid_backend_state,
}
use st2110_obs_plugin.Word.{word, U32, U64}
use st2110_obs_plugin.Ring.{
  empty_state, writing_state, ready_state, reading_state, MtlWorkerSharedMemorySlotMediaMetadata,
  MtlWorkerSharedMemorySlotHeader, no_metadata,
}
use st2110_obs_plugin.Ring.Metadata.{validate_slot_media_metadata}
use st2110_obs_plugin.Ring.Headers.{valid_slot_state_value}

-- `compare_exchange_strong` of a slot's state.
unfoldable pub exchange_state :
    U32 → U32 → MtlWorkerSharedMemorySlotHeader → Bool × MtlWorkerSharedMemorySlotHeader
exchange_state expected desired header =
    if header.state.value == expected.value
    then (true, record header { state = desired })
    else (false, header)

-- What is left of a slot that is given back; its sequence number stays.
unfoldable pub cleared : MtlWorkerSharedMemorySlotHeader → MtlWorkerSharedMemorySlotHeader
cleared header = record header {
  payload_size = word 64 0;
  flags = word 32 0;
  media = no_metadata;
  state = empty_state;
}

-- What `publish_written_slot` puts into a slot.
pub record SlotContent : Type 0 where
  pub content_size : U64
  pub content_sequence : U64
  pub content_flags : U32
  pub content_media : MtlWorkerSharedMemorySlotMediaMetadata

-- The result of an operation on a header, and the header behind it.
abbrev pub OnHeader : Type 0 → Type 0
OnHeader A = Expected A × MtlWorkerSharedMemorySlotHeader

-- `load_slot_state` behind a `slot_header` that succeeded, and the test of the state that follows: `wrong`
-- where it is valid and another than `wanted`.
unfoldable pub in_state :
    U32
    → MtlWorkerSharedMemorySlotHeader
    → Expected Bool
    → MtlWorkerSharedMemorySlotHeader
    → OnHeader Bool
in_state wanted header wrong changed =
    if not (valid_slot_state_value header.state)
    then (unexpected invalid_value, header)
    else if header.state.value == wanted.value
    then (ok true, changed)
    else (wrong, header)

unfoldable pub begin_write : MtlWorkerSharedMemorySlotHeader → OnHeader Bool
begin_write header =
    let exchanged = exchange_state empty_state writing_state header in
    (ok (exchanged.0), exchanged.1)

unfoldable pub publish : SlotContent → MtlWorkerSharedMemorySlotHeader → OnHeader Bool
publish content header =
    in_state writing_state header (unexpected invalid_backend_state) (record header {
      payload_size = content.content_size;
      sequence = content.content_sequence;
      flags = content.content_flags;
      media = content.content_media;
      state = ready_state;
    })

unfoldable pub abort_write : MtlWorkerSharedMemorySlotHeader → OnHeader Bool
abort_write header = in_state writing_state header (ok false) (cleared header)

unfoldable pub begin_read : MtlWorkerSharedMemorySlotHeader → OnHeader Bool
begin_read header =
    let exchanged = exchange_state ready_state reading_state header in
    (ok (exchanged.0), exchanged.1)

unfoldable pub release_read : MtlWorkerSharedMemorySlotHeader → OnHeader Bool
release_read header =
    in_state reading_state header (unexpected invalid_backend_state) (cleared header)

-- enum class MtlWorkerSharedMemoryBeginReadResult
pub data MtlWorkerSharedMemoryBeginReadResult : Type 0 where
  acquired : MtlWorkerSharedMemoryBeginReadResult
  not_ready : MtlWorkerSharedMemoryBeginReadResult
  stale : MtlWorkerSharedMemoryBeginReadResult

-- The tests of a slot that is in the reading state.
unfoldable pub recheck :
    ℕ → ℕ → MtlWorkerSharedMemorySlotHeader → Expected MtlWorkerSharedMemoryBeginReadResult
recheck capacity expected_sequence header = do
  reject (not (header.sequence.value == expected_sequence)) invalid_value
  validate_slot_media_metadata header.media (header.payload_size.value) capacity
  ok acquired

-- The tests behind the exchange, and what it answers where the state was another by then.
unfoldable pub acquire :
    ℕ → ℕ → Bool × MtlWorkerSharedMemorySlotHeader → OnHeader MtlWorkerSharedMemoryBeginReadResult
acquire capacity expected_sequence (false, header) =
    if valid_slot_state_value header.state
    then (ok not_ready, header)
    else (unexpected invalid_value, header)
acquire capacity expected_sequence (true, header) =
    (recheck capacity expected_sequence header, header)

-- `other` is what the other process does to the slot between the look at it and the exchange.
unfoldable pub begin_read_if_matches :
    (MtlWorkerSharedMemorySlotHeader → MtlWorkerSharedMemorySlotHeader)
    → ℕ
    → ℕ
    → MtlWorkerSharedMemorySlotHeader
    → OnHeader MtlWorkerSharedMemoryBeginReadResult
begin_read_if_matches other capacity expected_sequence header =
    if not (valid_slot_state_value header.state)
    then (unexpected invalid_value, header)
    else if not (header.state.value == ready_state.value)
    then (ok not_ready, header)
    else if not (header.sequence.value == expected_sequence)
    then (ok stale, header)
    else acquire capacity expected_sequence
        (exchange_state ready_state reading_state (other header))
