-- ===== src/Ring/Slots.antt =====
-- libs/st2110core/src/backends/mtl/mtl_worker_shared_memory_ring.cpp:
-- the operations on a slot of the ring: their result and the map behind it.
use st2110_obs_plugin.Base.{ℕ, Bool, ltb, Expected, ok, unexpected, ◌>>◌, reject, invalid_value}
use st2110_obs_plugin.Ring.{
  MtlWorkerSharedMemorySlotHeader, MtlWorkerSharedMemoryRingMap, slot_header,
}
use st2110_obs_plugin.Ring.Metadata.{validate_slot_media_metadata}
use st2110_obs_plugin.Ring.Headers.{header_of, with_header, if_valid, Operated}
use st2110_obs_plugin.Ring.Transitions.{
  SlotContent, OnHeader, begin_write, publish, abort_write, begin_read, begin_read_if_matches,
  release_read, MtlWorkerSharedMemoryBeginReadResult,
}

-- `if (!header.has_value()) return std::unexpected(header.error());`, and the header put back.
unfoldable pub store :
    {A : Type 0} → MtlWorkerSharedMemoryRingMap → ℕ → Expected ℕ → OnHeader A → Operated A
store map slot_index (ok offset) operated = (operated.0, with_header map slot_index (operated.1))
store map slot_index (unexpected error) operated = (unexpected error, map)

-- An operation on the header of a slot, if the slot is there.
unfoldable pub at_slot :
    {A : Type 0}
    → (MtlWorkerSharedMemorySlotHeader → OnHeader A)
    → MtlWorkerSharedMemoryRingMap
    → ℕ
    → Operated A
at_slot operate map slot_index =
    store map slot_index (slot_header map slot_index) (operate (header_of map slot_index))

unfoldable pub begin_write_slot : MtlWorkerSharedMemoryRingMap → ℕ → Operated Bool
begin_write_slot = at_slot begin_write

-- The tests of what is to be published, in a slot of that capacity.
unfoldable pub accepts_within : ℕ → SlotContent → Expected (Unit {0})
accepts_within capacity content = do
  reject (ltb capacity (content.content_size.value)) invalid_value
  validate_slot_media_metadata content.content_media (content.content_size.value) capacity

abbrev pub accepts : MtlWorkerSharedMemoryRingMap → SlotContent → Expected (Unit {0})
accepts map content = accepts_within (map.descriptor.slot_payload_capacity_bytes.value) content

unfoldable pub publish_written_slot : MtlWorkerSharedMemoryRingMap → ℕ → SlotContent → Operated Bool
publish_written_slot map slot_index content =
    if_valid map (accepts map content) (at_slot (publish content) map slot_index)

unfoldable pub abort_write_slot : MtlWorkerSharedMemoryRingMap → ℕ → Operated Bool
abort_write_slot = at_slot abort_write

unfoldable pub begin_read_slot : MtlWorkerSharedMemoryRingMap → ℕ → Operated Bool
begin_read_slot = at_slot begin_read

unfoldable pub begin_read_slot_if_matches :
    (MtlWorkerSharedMemorySlotHeader → MtlWorkerSharedMemorySlotHeader)
    → MtlWorkerSharedMemoryRingMap
    → ℕ
    → ℕ
    → Operated MtlWorkerSharedMemoryBeginReadResult
begin_read_slot_if_matches other map slot_index expected_sequence =
    at_slot
      (begin_read_if_matches other (map.descriptor.slot_payload_capacity_bytes.value)
        expected_sequence)
      map slot_index

unfoldable pub release_read_slot : MtlWorkerSharedMemoryRingMap → ℕ → Operated Bool
release_read_slot = at_slot release_read
