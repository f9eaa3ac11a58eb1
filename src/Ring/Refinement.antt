-- ===== src/Ring/Refinement.antt =====
-- The operations on a slot's header do what they promise of the slot.
use st2110_obs_plugin.Base.{
  ℕ, ◌≡◌, refl, Bool, Expected, arith, ap, ok, unexpected, ◌∙◌, ◌<◌, length, get_or-set_self,
  get_or-set_ne, ◌≢◌,
}
use st2110_obs_plugin.Word.{word}
use st2110_obs_plugin.Ring.{
  MtlWorkerSharedMemorySlotHeader, MtlWorkerSharedMemoryRingMap, slot_header,
}
use st2110_obs_plugin.Ring.Headers.{
  valid_slot_state_value, header_of, if_valid, fresh_header, Operated,
}
use st2110_obs_plugin.Ring.Transitions.{
  SlotContent, OnHeader, exchange_state, in_state, cleared, begin_write, publish, abort_write,
  begin_read, release_read,
}
use st2110_obs_plugin.Ring.View.{
  SlotView, view, begin_write_promised, publish_promised, abort_write_promised, begin_read_promised,
  release_read_promised, SlotStep, step_promised,
}
use st2110_obs_plugin.Ring.Slots.{
  store, at_slot, accepts, begin_write_slot, publish_written_slot, abort_write_slot,
  begin_read_slot, release_read_slot,
}

-- The result, and the slot seen behind it.
abbrev pub seen {ℓ} :
    {A : Type ℓ} → Expected A × MtlWorkerSharedMemorySlotHeader → Expected A × SlotView
seen operated = (operated.0, view (operated.1))

pub begin_write-seen :
    (header : MtlWorkerSharedMemorySlotHeader)
    → seen (begin_write header) ≡ begin_write_promised (view header)
unfolding begin_write exchange_state view begin_write_promised word
begin_write-seen header = ground arith

pub publish-seen :
    (content : SlotContent) (header : MtlWorkerSharedMemorySlotHeader)
    → seen (publish content header) ≡ publish_promised content (view header)
unfolding publish in_state valid_slot_state_value view publish_promised word
publish-seen content header = ground arith

pub release_read-seen :
    (header : MtlWorkerSharedMemorySlotHeader)
    → seen (release_read header) ≡ release_read_promised (view header)
unfolding release_read in_state cleared valid_slot_state_value view release_read_promised word
release_read-seen header = ground arith

pub abort_write-seen :
    (header : MtlWorkerSharedMemorySlotHeader)
    → seen (abort_write header) ≡ abort_write_promised (view header)
unfolding abort_write in_state cleared valid_slot_state_value view abort_write_promised word
abort_write-seen header = ground arith

pub begin_read-seen :
    (header : MtlWorkerSharedMemorySlotHeader)
    → seen (begin_read header) ≡ begin_read_promised (view header)
unfolding begin_read exchange_state view begin_read_promised word
begin_read-seen header = ground arith

-- The steps on the ring, by name.
unfoldable pub perform_step : SlotStep → MtlWorkerSharedMemoryRingMap → ℕ → Operated Bool
perform_step SlotStep.start_write map i = begin_write_slot map i
perform_step (SlotStep.publish_content content) map i = publish_written_slot map i content
perform_step SlotStep.give_up map i = abort_write_slot map i
perform_step SlotStep.start_read map i = begin_read_slot map i
perform_step SlotStep.give_back map i = release_read_slot map i

-- The answer to the test that only `publish_written_slot` makes.
abbrev pub accepted : SlotStep → MtlWorkerSharedMemoryRingMap → Expected (Unit {0})
accepted (SlotStep.publish_content content) map = accepts map content
accepted operation map = ok tt

abbrev pub slot_seen : MtlWorkerSharedMemoryRingMap → ℕ → SlotView
slot_seen map j = view (header_of map j)

-- An operation on a slot that is there is one on its header, and on no other slot's.
pub at_slot-seen :
    {A : Type 0} (operate : MtlWorkerSharedMemorySlotHeader → OnHeader A)
    (map : MtlWorkerSharedMemoryRingMap) (i : ℕ) {offset : ℕ}
    → slot_header map i ≡ ok offset
    → i < length map.headers
    → ◌≡◌ {A = Expected A × SlotView}
        ((at_slot operate map i).0, slot_seen ((at_slot operate map i).1) i)
        (seen (operate (header_of map i)))
unfolding at_slot store
at_slot-seen operate map i e h = rw e (
    ap (λ x. ((operate (header_of map i)).0, view x))
      (get_or-set_self map.headers i ((operate (header_of map i)).1) fresh_header h))

-- The test of the content first.
published_seen :
    (content : SlotContent) (map : MtlWorkerSharedMemoryRingMap) (i : ℕ)
    (test : Expected (Unit {0})) {offset : ℕ}
    → slot_header map i ≡ ok offset
    → i < length map.headers
    → ◌≡◌ {A = Expected Bool × SlotView}
        (
          (if_valid map test (at_slot (publish content) map i)).0,
          slot_seen ((if_valid map test (at_slot (publish content) map i)).1) i,
        )
        (step_promised (SlotStep.publish_content content) test (slot_seen map i))
unfolding if_valid step_promised
published_seen content map i (ok valid) e h =
    at_slot-seen (publish content) map i e h ∙ publish-seen content (header_of map i)
published_seen content map i (unexpected error) e h = refl

-- Each step on a slot of the ring answers, and leaves in the slot, what is step_promised of a slot in
-- that state.
pub perform_step-seen :
    (operation : SlotStep) (map : MtlWorkerSharedMemoryRingMap) (i offset : ℕ)
    → slot_header map i ≡ ok offset
    → i < length map.headers
    → ◌≡◌ {A = Expected Bool × SlotView}
        ((perform_step operation map i).0, slot_seen ((perform_step operation map i).1) i)
        (step_promised operation (accepted operation map) (slot_seen map i))
unfolding perform_step step_promised publish_written_slot begin_write_slot abort_write_slot
    begin_read_slot release_read_slot
perform_step-seen SlotStep.start_write map i offset e h =
    at_slot-seen begin_write map i e h ∙ begin_write-seen (header_of map i)
perform_step-seen (SlotStep.publish_content content) map i offset e h =
    published_seen content map i (accepts map content) e h
perform_step-seen SlotStep.give_up map i offset e h =
    at_slot-seen abort_write map i e h ∙ abort_write-seen (header_of map i)
perform_step-seen SlotStep.start_read map i offset e h =
    at_slot-seen begin_read map i e h ∙ begin_read-seen (header_of map i)
perform_step-seen SlotStep.give_back map i offset e h =
    at_slot-seen release_read map i e h ∙ release_read-seen (header_of map i)

at_slot-others :
    (operate : MtlWorkerSharedMemorySlotHeader → OnHeader Bool) (map : MtlWorkerSharedMemoryRingMap)
    (i j : ℕ)
    → i ≢ j
    → slot_seen ((at_slot operate map i).1) j ≡ slot_seen map j
unfolding at_slot store
at_slot-others operate map i j h =
    elim (slot_header map i)
      as (λ found.
        slot_seen ((store map i found (operate (header_of map i))).1) j ≡ slot_seen map j) [
          | ok offset ↦ ap view (get_or-set_ne map.headers _ fresh_header h)
          | unexpected error ↦ refl
        ]

-- No operation on a slot changes what another slot is.
pub perform_step-others :
    (operation : SlotStep) (map : MtlWorkerSharedMemoryRingMap) (i j : ℕ)
    → i ≢ j
    → slot_seen ((perform_step operation map i).1) j ≡ slot_seen map j
unfolding perform_step if_valid publish_written_slot begin_write_slot abort_write_slot
    begin_read_slot release_read_slot
perform_step-others SlotStep.start_write map i j h = at_slot-others _ map i j h
perform_step-others (SlotStep.publish_content content) map i j h =
    elim (accepts map content)
      as (λ test.
        slot_seen ((if_valid map test (at_slot (publish content) map i)).1) j ≡ slot_seen map j) [
          | ok valid ↦ at_slot-others _ map i j h
          | unexpected error ↦ refl
        ]
perform_step-others SlotStep.give_up map i j h = at_slot-others _ map i j h
perform_step-others SlotStep.start_read map i j h = at_slot-others _ map i j h
perform_step-others SlotStep.give_back map i j h = at_slot-others _ map i j h
