-- ===== src/Ring/Operations.antt =====
-- libs/st2110core/src/backends/mtl/mtl_worker_shared_memory_ring.cpp:
-- every operation on a slot, `begin_read_slot_if_matches` with the steps that the other process makes
-- between its look at the slot and its exchange.
use st2110_obs_plugin.Base.{ℕ, Bool, List, [], ◌∷◌, Expected, ok, unexpected}
use st2110_obs_plugin.Ring.{MtlWorkerSharedMemorySlotHeader, MtlWorkerSharedMemoryRingMap}
use st2110_obs_plugin.Ring.Headers.{Operated}
use st2110_obs_plugin.Ring.Transitions.{
  SlotContent, OnHeader, begin_write, publish, abort_write, begin_read, release_read,
  MtlWorkerSharedMemoryBeginReadResult,
}
use st2110_obs_plugin.Ring.View.{SlotView, SlotStep, step_promised, read_matching_promised}
use st2110_obs_plugin.Ring.Slots.{accepts_within, begin_read_slot_if_matches}
use st2110_obs_plugin.Ring.Refinement.{perform_step}

-- `matching_read` has the steps of the other process and the sequence number that is expected.
pub data SlotOperation : Type 0 where
  step : SlotStep → SlotOperation
  matching_read : List SlotStep → ℕ → SlotOperation

-- The results of the two kinds.
pub data Answer : Type 0 where
  answered : Bool → Answer
  read_as : MtlWorkerSharedMemoryBeginReadResult → Answer

unfoldable pub result_as : {A : Type 0} → (A → Answer) → Expected A → Expected Answer
result_as f (ok a) = ok (f a)
result_as f (unexpected error) = unexpected error

abbrev pub answering : {A S : Type 0} → (A → Answer) → Expected A × S → Expected Answer × S
answering f operated = (result_as f (operated.0), operated.1)

-- The test that only `publish_written_slot` makes.
abbrev pub step_accepted : ℕ → SlotStep → Expected (Unit {0})
step_accepted capacity (SlotStep.publish_content content) = accepts_within capacity content
step_accepted capacity _ = ok tt

unfoldable pub publish_valid :
    Expected (Unit {0}) → SlotContent → MtlWorkerSharedMemorySlotHeader → OnHeader Bool
publish_valid (ok valid) content header = publish content header
publish_valid (unexpected error) content header = (unexpected error, header)

-- A step of the other process on the header of the slot.
unfoldable pub step_header : ℕ → SlotStep → MtlWorkerSharedMemorySlotHeader → OnHeader Bool
step_header capacity SlotStep.start_write header = begin_write header
step_header capacity (SlotStep.publish_content content) header =
    publish_valid (accepts_within capacity content) content header
step_header capacity SlotStep.give_up header = abort_write header
step_header capacity SlotStep.start_read header = begin_read header
step_header capacity SlotStep.give_back header = release_read header

unfoldable pub steps_header :
    ℕ → List SlotStep → MtlWorkerSharedMemorySlotHeader → MtlWorkerSharedMemorySlotHeader
steps_header capacity [] header = header
steps_header capacity (s ∷ later) header =
    steps_header capacity later ((step_header capacity s header).1)

abbrev pub capacity_of : MtlWorkerSharedMemoryRingMap → ℕ
capacity_of map = map.descriptor.slot_payload_capacity_bytes.value

unfoldable pub perform : SlotOperation → MtlWorkerSharedMemoryRingMap → ℕ → Operated Answer
perform (SlotOperation.step s) map i = answering Answer.answered (perform_step s map i)
perform (SlotOperation.matching_read between sequence) map i =
    answering Answer.read_as
      (begin_read_slot_if_matches (steps_header (capacity_of map) between) map i sequence)

-- Operations on slots, one behind the other: each is the slot and what is done to it.
unfoldable pub perform_all :
    List (ℕ × SlotOperation) → MtlWorkerSharedMemoryRingMap → MtlWorkerSharedMemoryRingMap
perform_all [] map = map
perform_all ((i, operation) ∷ later) map = perform_all later ((perform operation map i).1)

-- What the steps of the other process make of the slot, and what an operation promises.
unfoldable pub steps_promised : ℕ → List SlotStep → SlotView → SlotView
steps_promised capacity [] slot = slot
steps_promised capacity (s ∷ later) slot =
    steps_promised capacity later ((step_promised s (step_accepted capacity s) slot).1)

unfoldable pub promised : ℕ → SlotOperation → SlotView → Expected Answer × SlotView
promised capacity (SlotOperation.step s) slot =
    answering Answer.answered (step_promised s (step_accepted capacity s) slot)
promised capacity (SlotOperation.matching_read between sequence) slot =
    answering Answer.read_as
      (read_matching_promised capacity sequence slot (steps_promised capacity between slot))
