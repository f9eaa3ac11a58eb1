-- ===== src/Ring/Promises.antt =====
-- Every operation on a slot does what it promises, whatever steps the other process makes in between.
use st2110_obs_plugin.Base.{
  ℕ, ◌≡◌, refl, ap, ◌∙◌, Bool, List, [], ◌∷◌, length, ◌<◌, Expected, ok, unexpected, arith,
}
use st2110_obs_plugin.Word.{word}
use st2110_obs_plugin.Ring.{
  MtlWorkerSharedMemorySlotHeader, MtlWorkerSharedMemoryRingMap, slot_header,
}
use st2110_obs_plugin.Ring.Headers.{header_of, valid_slot_state_value}
use st2110_obs_plugin.Ring.Transitions.{
  SlotContent, begin_read_if_matches, acquire, recheck, exchange_state,
}
use st2110_obs_plugin.Ring.View.{
  SlotView, view, SlotStep, step_promised, read_matching_promised, take_promised, matches,
}
use st2110_obs_plugin.Ring.Slots.{accepts_within, begin_read_slot_if_matches}
use st2110_obs_plugin.Ring.Refinement.{
  seen, slot_seen, perform_step-seen, accepted, at_slot-seen, begin_write-seen, publish-seen,
  abort_write-seen, begin_read-seen, release_read-seen,
}
use st2110_obs_plugin.Ring.Operations.{
  SlotOperation, Answer, answering, step_accepted, publish_valid, step_header, steps_header,
  capacity_of, perform, steps_promised, promised,
}

publish_valid-seen :
    (test : Expected (Unit {0})) (content : SlotContent) (header : MtlWorkerSharedMemorySlotHeader)
    → seen (publish_valid test content header)
      ≡ step_promised (SlotStep.publish_content content) test (view header)
unfolding publish_valid step_promised
publish_valid-seen (ok valid) content header = publish-seen content header
publish_valid-seen (unexpected error) content header = refl

step_header-seen :
    (capacity : ℕ) (s : SlotStep) (header : MtlWorkerSharedMemorySlotHeader)
    → seen (step_header capacity s header)
      ≡ step_promised s (step_accepted capacity s) (view header)
unfolding step_header step_promised
step_header-seen capacity SlotStep.start_write header = begin_write-seen header
step_header-seen capacity (SlotStep.publish_content content) header =
    publish_valid-seen (accepts_within capacity content) content header
step_header-seen capacity SlotStep.give_up header = abort_write-seen header
step_header-seen capacity SlotStep.start_read header = begin_read-seen header
step_header-seen capacity SlotStep.give_back header = release_read-seen header

pub steps_header-seen :
    (capacity : ℕ) (between : List SlotStep) (header : MtlWorkerSharedMemorySlotHeader)
    → view (steps_header capacity between header) ≡ steps_promised capacity between (view header)
unfolding steps_header steps_promised
steps_header-seen capacity [] header = refl
steps_header-seen capacity (s ∷ later) header =
    steps_header-seen capacity later ((step_header capacity s header).1)
    ∙ ap (λ (x : Expected Bool × SlotView). steps_promised capacity later (x.1))
        (step_header-seen capacity s header)

pub acquire-seen :
    (capacity sequence : ℕ) (header : MtlWorkerSharedMemorySlotHeader)
    → seen (acquire capacity sequence (exchange_state (word 32 2) (word 32 3) header))
      ≡ take_promised capacity sequence (view header)
unfolding acquire exchange_state recheck valid_slot_state_value view take_promised matches word
acquire-seen capacity sequence header = ground arith

pub begin_read_if_matches-seen :
    (other : MtlWorkerSharedMemorySlotHeader → MtlWorkerSharedMemorySlotHeader)
    (capacity sequence : ℕ) (header : MtlWorkerSharedMemorySlotHeader)
    → seen (begin_read_if_matches other capacity sequence header)
      ≡ read_matching_promised capacity sequence (view header) (view (other header))
unfolding begin_read_if_matches valid_slot_state_value view read_matching_promised word
begin_read_if_matches-seen other capacity sequence header =
    ground (arith, acquire-seen capacity sequence (other header))

accepted_lem :
    (s : SlotStep) (map : MtlWorkerSharedMemoryRingMap)
    → accepted s map ≡ step_accepted (capacity_of map) s
accepted_lem SlotStep.start_write map = refl
accepted_lem (SlotStep.publish_content content) map = refl
accepted_lem SlotStep.give_up map = refl
accepted_lem SlotStep.start_read map = refl
accepted_lem SlotStep.give_back map = refl

-- Each operation on a slot that is there answers, and leaves in the slot, what is promised of a slot in
-- that state: the writing, publishing, giving up, reading and giving back of a slot, and the reading of
-- the frame with a given number, for any steps of the other process on that slot between its look at
-- the slot and its exchange.
pub perform-seen :
    (operation : SlotOperation) (map : MtlWorkerSharedMemoryRingMap) (i offset : ℕ)
    → slot_header map i ≡ ok offset
    → i < length map.headers
    → ◌≡◌ {A = Expected Answer × SlotView}
        ((perform operation map i).0, slot_seen ((perform operation map i).1) i)
        (promised (capacity_of map) operation (slot_seen map i))
unfolding perform promised begin_read_slot_if_matches
perform-seen (SlotOperation.step s) map i offset e h = ap (answering Answer.answered) (
    perform_step-seen s map i offset e h
    ∙ ap (λ t. step_promised s t (slot_seen map i)) (accepted_lem s map))
perform-seen (SlotOperation.matching_read between sequence) map i offset e h =
    ap (answering Answer.read_as) (
      at_slot-seen _ map i e h
      ∙ begin_read_if_matches-seen (steps_header (capacity_of map) between) (capacity_of map)
          sequence (header_of map i)
      ∙ ap (read_matching_promised (capacity_of map) sequence (slot_seen map i))
          (steps_header-seen (capacity_of map) between (header_of map i)))
