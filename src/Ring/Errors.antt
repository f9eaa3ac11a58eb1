-- ===== src/Ring/Errors.antt =====
-- What a step that fails leaves behind.
use st2110_obs_plugin.Base.{
  ℕ, ◌≡◌, refl, ap, ◌∙◌, Bool, Expected, ok, unexpected, Error, arith, set-get_or, set,
}
use st2110_obs_plugin.Ring.{MtlWorkerSharedMemorySlotHeader, MtlWorkerSharedMemoryRingMap}
use st2110_obs_plugin.Ring.Headers.{header_of, if_valid, fresh_header}
use st2110_obs_plugin.Ring.Transitions.{
  SlotContent, OnHeader, in_state, begin_write, publish, abort_write, begin_read, release_read,
}
use st2110_obs_plugin.Ring.View.{SlotStep}
use st2110_obs_plugin.Ring.Slots.{
  store, at_slot, accepts, begin_write_slot, publish_written_slot, abort_write_slot,
  begin_read_slot, release_read_slot,
}
use st2110_obs_plugin.Ring.Refinement.{perform_step}

-- A failure that changes nothing.
abbrev KeepsOnError : (MtlWorkerSharedMemorySlotHeader → OnHeader Bool) → Type 0
KeepsOnError operate =
    (header : MtlWorkerSharedMemorySlotHeader) (error : Error)
    → (operate header).0 ≡ unexpected error
    → (operate header).1 ≡ header

begin_write-KeepsOnError : KeepsOnError begin_write
unfolding begin_write
begin_write-KeepsOnError header error e = absurd (ground arith)

publish-KeepsOnError : (content : SlotContent) → KeepsOnError (publish content)
unfolding publish in_state
publish-KeepsOnError content header error e = ground arith

abort_write-KeepsOnError : KeepsOnError abort_write
unfolding abort_write in_state
abort_write-KeepsOnError header error e = ground arith

begin_read-KeepsOnError : KeepsOnError begin_read
unfolding begin_read
begin_read-KeepsOnError header error e = absurd (ground arith)

release_read-KeepsOnError : KeepsOnError release_read
unfolding release_read in_state
release_read-KeepsOnError header error e = ground arith

store-failed :
    (map : MtlWorkerSharedMemoryRingMap) (i : ℕ) (found : Expected ℕ) (operated : OnHeader Bool)
    (error : Error)
    → (operated.0 ≡ unexpected error → operated.1 ≡ header_of map i)
    → (store map i found operated).0 ≡ unexpected error
    → (store map i found operated).1 ≡ map
unfolding store
store-failed map i (unexpected other) operated error keeps e = refl
store-failed map i (ok offset) operated error keeps e =
    ap (λ xs. record map { headers = xs })
      (ap (set map.headers i) (keeps e) ∙ set-get_or map.headers i fresh_header)

at_slot-failed :
    (operate : MtlWorkerSharedMemorySlotHeader → OnHeader Bool)
    → KeepsOnError operate
    → (map : MtlWorkerSharedMemoryRingMap) (i : ℕ) (error : Error)
    → (at_slot operate map i).0 ≡ unexpected error
    → (at_slot operate map i).1 ≡ map
unfolding at_slot
at_slot-failed operate keeps map i error e =
    store-failed map i _ _ error (keeps (header_of map i) error) e

published-failed :
    (content : SlotContent) (map : MtlWorkerSharedMemoryRingMap) (i : ℕ)
    (test : Expected (Unit {0})) (error : Error)
    → (if_valid map test (at_slot (publish content) map i)).0 ≡ unexpected error
    → (if_valid map test (at_slot (publish content) map i)).1 ≡ map
unfolding if_valid
published-failed content map i (ok valid) error e =
    at_slot-failed _ (publish-KeepsOnError content) map i error e
published-failed content map i (unexpected other) error e = refl

-- A step that fails leaves every header as it was.
pub perform_step-failed :
    (operation : SlotStep) (map : MtlWorkerSharedMemoryRingMap) (i : ℕ) (error : Error)
    → (perform_step operation map i).0 ≡ unexpected error
    → (perform_step operation map i).1 ≡ map
unfolding perform_step publish_written_slot begin_write_slot abort_write_slot begin_read_slot
    release_read_slot
perform_step-failed SlotStep.start_write map i error e =
    at_slot-failed _ begin_write-KeepsOnError map i error e
perform_step-failed (SlotStep.publish_content content) map i error e =
    published-failed content map i (accepts map content) error e
perform_step-failed SlotStep.give_up map i error e =
    at_slot-failed _ abort_write-KeepsOnError map i error e
perform_step-failed SlotStep.start_read map i error e =
    at_slot-failed _ begin_read-KeepsOnError map i error e
perform_step-failed SlotStep.give_back map i error e =
    at_slot-failed _ release_read-KeepsOnError map i error e
