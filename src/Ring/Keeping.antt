-- ===== src/Ring/Keeping.antt =====
-- Whatever operation is made on a slot, the ring stays sound.
use st2110_obs_plugin.Base.{
  ℕ, ◌≡◌, refl, sym, ◌==◌, List, [], ◌∷◌, Expected, ok, unexpected, subst, Bool-cases, inl, inr,
}
use st2110_obs_plugin.Ring.{MtlWorkerSharedMemoryRingMap}
use st2110_obs_plugin.Ring.Headers.{header_of}
use st2110_obs_plugin.Ring.Transitions.{SlotContent}
use st2110_obs_plugin.Ring.View.{
  SlotView, view, SlotStep, step_promised, read_matching_promised, take_promised,
}
use st2110_obs_plugin.Ring.Slots.{at_slot, accepts, accepts_within, begin_read_slot_if_matches}
use st2110_obs_plugin.Ring.Soundness.{
  IsSound, IsSoundRing, begin_write_promised-IsSound, publish_promised-IsSound,
  abort_write_promised-IsSound, begin_read_promised-IsSound, release_read_promised-IsSound,
  seen-IsSound, store-IsSound, perform_step-IsSound,
}
use st2110_obs_plugin.Ring.Operations.{
  SlotOperation, step_accepted, steps_header, capacity_of, perform, perform_all, steps_promised,
}
use st2110_obs_plugin.Ring.Promises.{steps_header-seen, begin_read_if_matches-seen}

-- What a step's test lets pass, the test of the ring lets pass.
abbrev pub Passes : (SlotContent → Expected (Unit {0})) → SlotStep → Expected (Unit {0}) → Type 0
Passes test (SlotStep.publish_content content) accepted = accepted ≡ ok tt → test content ≡ ok tt
Passes test _ accepted = Unit

publishing-IsSound :
    (test : SlotContent → Expected (Unit {0})) (content : SlotContent)
    (accepted : Expected (Unit {0})) (slot : SlotView)
    → (accepted ≡ ok tt → test content ≡ ok tt)
    → IsSound test slot
    → IsSound test ((step_promised (SlotStep.publish_content content) accepted slot).1)
unfolding step_promised
publishing-IsSound test content (ok valid) slot p h =
    publish_promised-IsSound test content slot (p refl) h
publishing-IsSound test content (unexpected error) slot p h = h

pub step_promised-IsSound :
    (test : SlotContent → Expected (Unit {0})) (s : SlotStep) (accepted : Expected (Unit {0}))
    (slot : SlotView)
    → Passes test s accepted
    → IsSound test slot
    → IsSound test ((step_promised s accepted slot).1)
unfolding step_promised
step_promised-IsSound test SlotStep.start_write accepted slot p h =
    begin_write_promised-IsSound test slot h
step_promised-IsSound test (SlotStep.publish_content content) accepted slot p h =
    publishing-IsSound test content accepted slot p h
step_promised-IsSound test SlotStep.give_up accepted slot p h =
    abort_write_promised-IsSound test slot h
step_promised-IsSound test SlotStep.start_read accepted slot p h =
    begin_read_promised-IsSound test slot h
step_promised-IsSound test SlotStep.give_back accepted slot p h =
    release_read_promised-IsSound test slot h

pub steps_promised-IsSound :
    (test : SlotContent → Expected (Unit {0})) (capacity : ℕ) (between : List SlotStep)
    (slot : SlotView)
    → ((s : SlotStep) → Passes test s (step_accepted capacity s))
    → IsSound test slot
    → IsSound test (steps_promised capacity between slot)
unfolding steps_promised
steps_promised-IsSound test capacity [] slot p h = h
steps_promised-IsSound test capacity (s ∷ later) slot p h =
    steps_promised-IsSound test capacity later _ p (step_promised-IsSound test s _ slot (p s) h)

take_promised-IsSound :
    (test : SlotContent → Expected (Unit {0})) (capacity sequence : ℕ) (slot : SlotView)
    → IsSound test slot
    → IsSound test ((take_promised capacity sequence slot).1)
unfolding take_promised
take_promised-IsSound test capacity sequence SlotView.idle h = h
take_promised-IsSound test capacity sequence SlotView.filling h = h
take_promised-IsSound test capacity sequence (SlotView.published content) h = h
take_promised-IsSound test capacity sequence (SlotView.taken content) h = h
take_promised-IsSound test capacity sequence SlotView.broken h = h

read_matching_promised-IsSound :
    (test : SlotContent → Expected (Unit {0})) (capacity sequence : ℕ) (slot later : SlotView)
    → IsSound test slot
    → IsSound test later
    → IsSound test ((read_matching_promised capacity sequence slot later).1)
unfolding read_matching_promised
read_matching_promised-IsSound test capacity sequence SlotView.idle later h k = h
read_matching_promised-IsSound test capacity sequence SlotView.filling later h k = h
read_matching_promised-IsSound test capacity sequence (SlotView.published content) later h k =
    elim (Bool-cases (content.content_sequence.value == sequence)) [
      | inl same ↦ rw same (take_promised-IsSound test capacity sequence later k)
      | inr other ↦ rw other h
    ]
read_matching_promised-IsSound test capacity sequence (SlotView.taken content) later h k = h
read_matching_promised-IsSound test capacity sequence SlotView.broken later h k = h

tested :
    (capacity : ℕ) (s : SlotStep) → Passes (accepts_within capacity) s (step_accepted capacity s)
tested capacity SlotStep.start_write = tt
tested capacity (SlotStep.publish_content content) = λ e. e
tested capacity SlotStep.give_up = tt
tested capacity SlotStep.start_read = tt
tested capacity SlotStep.give_back = tt

perform-IsSound :
    (operation : SlotOperation) (map : MtlWorkerSharedMemoryRingMap) (i : ℕ)
    → IsSoundRing map
    → IsSoundRing ((perform operation map i).1)
unfolding perform begin_read_slot_if_matches at_slot
perform-IsSound (SlotOperation.step s) map i sound = perform_step-IsSound s map i sound
perform-IsSound (SlotOperation.matching_read between sequence) map i sound =
    let capacity = capacity_of map in
    let later : IsSound (accepts map) (view (steps_header capacity between (header_of map i))) =
      subst (IsSound (accepts map)) (sym (steps_header-seen capacity between (header_of map i)))
        (steps_promised-IsSound (accepts map) capacity between _ (tested capacity) (sound i)) in
    store-IsSound map i _ _ sound (
      seen-IsSound (accepts map) _ _
        (begin_read_if_matches-seen (steps_header capacity between) capacity sequence
          (header_of map i))
        (read_matching_promised-IsSound (accepts map) capacity sequence _ _ (sound i) later))

pub perform_all-IsSound :
    (operations : List (ℕ × SlotOperation)) (map : MtlWorkerSharedMemoryRingMap)
    → IsSoundRing map
    → IsSoundRing (perform_all operations map)
unfolding perform_all
perform_all-IsSound [] map sound = sound
perform_all-IsSound ((i, operation) ∷ later) map sound =
    perform_all-IsSound later _ (perform-IsSound operation map i sound)
