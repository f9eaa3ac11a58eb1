-- ===== src/Ring/View.antt =====
-- What a slot is to its users: a state, with the content that was published while there is one. The
-- numbers of the header's fields, and what is left in them, are forgotten.
use st2110_obs_plugin.Base.{
  ℕ, not, reject, ◌>>◌, Bool, true, false, ◌==◌, if◌then◌else◌, Expected, ok, unexpected,
  invalid_value, invalid_backend_state,
}
use st2110_obs_plugin.Ring.{MtlWorkerSharedMemorySlotHeader}
use st2110_obs_plugin.Ring.Metadata.{validate_slot_media_metadata}
use st2110_obs_plugin.Ring.Transitions.{
  SlotContent, MtlWorkerSharedMemoryBeginReadResult, acquired, not_ready, stale,
}

pub data SlotView : Type 0 where
  idle : SlotView
  filling : SlotView
  published : SlotContent → SlotView
  taken : SlotContent → SlotView
  broken : SlotView

abbrev pub content_of : MtlWorkerSharedMemorySlotHeader → SlotContent
content_of header = record {
  content_size = header.payload_size;
  content_sequence = header.sequence;
  content_flags = header.flags;
  content_media = header.media;
}

unfoldable pub view : MtlWorkerSharedMemorySlotHeader → SlotView
view header =
    if header.state.value == 0
    then SlotView.idle
    else if header.state.value == 1
    then SlotView.filling
    else if header.state.value == 2
    then SlotView.published (content_of header)
    else if header.state.value == 3
    then SlotView.taken (content_of header)
    else SlotView.broken

-- What the operations promise.
unfoldable pub begin_write_promised : SlotView → Expected Bool × SlotView
begin_write_promised SlotView.idle = (ok true, SlotView.filling)
begin_write_promised slot = (ok false, slot)

unfoldable pub publish_promised : SlotContent → SlotView → Expected Bool × SlotView
publish_promised content SlotView.filling = (ok true, SlotView.published content)
publish_promised content SlotView.broken = (unexpected invalid_value, SlotView.broken)
publish_promised content slot = (unexpected invalid_backend_state, slot)

unfoldable pub abort_write_promised : SlotView → Expected Bool × SlotView
abort_write_promised SlotView.filling = (ok true, SlotView.idle)
abort_write_promised SlotView.broken = (unexpected invalid_value, SlotView.broken)
abort_write_promised slot = (ok false, slot)

unfoldable pub begin_read_promised : SlotView → Expected Bool × SlotView
begin_read_promised (SlotView.published content) = (ok true, SlotView.taken content)
begin_read_promised slot = (ok false, slot)

unfoldable pub release_read_promised : SlotView → Expected Bool × SlotView
release_read_promised (SlotView.taken content) = (ok true, SlotView.idle)
release_read_promised SlotView.broken = (unexpected invalid_value, SlotView.broken)
release_read_promised slot = (unexpected invalid_backend_state, slot)

-- The operations on a slot that are one step: all but `begin_read_slot_if_matches`.
pub data SlotStep : Type 0 where
  start_write : SlotStep
  publish_content : SlotContent → SlotStep
  give_up : SlotStep
  start_read : SlotStep
  give_back : SlotStep

-- What a step promises, where `accepted` is the answer to the test of what is published.
unfoldable pub step_promised : SlotStep → Expected (Unit {0}) → SlotView → Expected Bool × SlotView
step_promised SlotStep.start_write accepted slot = begin_write_promised slot
step_promised (SlotStep.publish_content content) (ok valid) slot = publish_promised content slot
step_promised (SlotStep.publish_content content) (unexpected error) slot = (unexpected error, slot)
step_promised SlotStep.give_up accepted slot = abort_write_promised slot
step_promised SlotStep.start_read accepted slot = begin_read_promised slot
step_promised SlotStep.give_back accepted slot = release_read_promised slot

-- What `begin_read_slot_if_matches` tests of a slot that it has taken.
unfoldable pub matches : ℕ → ℕ → SlotContent → Expected MtlWorkerSharedMemoryBeginReadResult
matches capacity expected_sequence content = do
  reject (not (content.content_sequence.value == expected_sequence)) invalid_value
  validate_slot_media_metadata content.content_media (content.content_size.value) capacity
  ok acquired

-- The exchange and the tests behind it: a slot that fails them stays taken.
unfoldable pub take_promised :
    ℕ → ℕ → SlotView → Expected MtlWorkerSharedMemoryBeginReadResult × SlotView
take_promised capacity expected_sequence (SlotView.published content) =
    (matches capacity expected_sequence content, SlotView.taken content)
take_promised capacity expected_sequence SlotView.broken =
    (unexpected invalid_value, SlotView.broken)
take_promised capacity expected_sequence slot = (ok not_ready, slot)

-- `begin_read_slot_if_matches`, where `later` is the slot when the exchange comes.
unfoldable pub read_matching_promised :
    ℕ → ℕ → SlotView → SlotView → Expected MtlWorkerSharedMemoryBeginReadResult × SlotView
read_matching_promised capacity expected_sequence (SlotView.published content) later =
    if content.content_sequence.value == expected_sequence
    then take_promised capacity expected_sequence later
    else (ok stale, SlotView.published content)
read_matching_promised capacity expected_sequence SlotView.broken later =
    (unexpected invalid_value, SlotView.broken)
read_matching_promised capacity expected_sequence slot later = (ok not_ready, slot)
