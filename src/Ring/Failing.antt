-- ===== src/Ring/Failing.antt =====
-- What an operation that fails leaves behind.
use st2110_obs_plugin.Base.{
  ℕ, ◌≡◌, refl, sym, ap, ◌∙◌, ◌⊎◌, inl, inr, ◌==◌, List, length, ◌<◌, set, set-get_or,
  get_or-set_self, Expected, ok, unexpected, Error, subst, arith, Bool-cases,
}
use st2110_obs_plugin.Word.{word}
use st2110_obs_plugin.Ring.{
  MtlWorkerSharedMemorySlotHeader, MtlWorkerSharedMemoryRingMap, slot_header,
}
use st2110_obs_plugin.Ring.Headers.{header_of, fresh_header, valid_slot_state_value}
use st2110_obs_plugin.Ring.Transitions.{
  SlotContent, begin_read_if_matches, acquire, exchange_state, MtlWorkerSharedMemoryBeginReadResult,
}
use st2110_obs_plugin.Ring.View.{SlotView, view, content_of, SlotStep, take_promised, matches}
use st2110_obs_plugin.Ring.Slots.{store, at_slot, begin_read_slot_if_matches}
use st2110_obs_plugin.Ring.Refinement.{slot_seen, seen}
use st2110_obs_plugin.Ring.Soundness.{IsSound}
use st2110_obs_plugin.Ring.Keeping.{Passes, steps_promised-IsSound}
use st2110_obs_plugin.Ring.Errors.{perform_step-failed}
use st2110_obs_plugin.Ring.Operations.{
  SlotOperation, Answer, result_as, step_accepted, steps_header, capacity_of, perform,
  steps_promised,
}
use st2110_obs_plugin.Ring.Promises.{steps_header-seen, acquire-seen}

-- The reading of the frame with a given number has taken a slot that it then rejects: the content that
-- the other process has published by then is not the one that is expected, or its metadata are invalid.
abbrev pub LeftTaken :
    SlotOperation → MtlWorkerSharedMemoryRingMap → ℕ → MtlWorkerSharedMemoryRingMap → Error → Type 0
LeftTaken (SlotOperation.step s) map i after error = ⊥
LeftTaken (SlotOperation.matching_read between sequence) map i after error =
    (content : SlotContent) × (steps_promised (capacity_of map) between (slot_seen map i)
      ≡ SlotView.published content)
    × (slot_seen after i ≡ SlotView.taken content)
    × (matches (capacity_of map) sequence content ≡ unexpected error)

any_content : SlotContent → Expected (Unit {0})
any_content content = ok tt

all_pass : (s : SlotStep) (accepted : Expected (Unit {0})) → Passes any_content s accepted
unfolding any_content
all_pass SlotStep.start_write accepted = tt
all_pass (SlotStep.publish_content content) accepted = λ e. refl
all_pass SlotStep.give_up accepted = tt
all_pass SlotStep.start_read accepted = tt
all_pass SlotStep.give_back accepted = tt

take_failed :
    (capacity sequence : ℕ) (slot : SlotView) (error : Error)
    → IsSound any_content slot
    → (take_promised capacity sequence slot).0 ≡ unexpected error
    → (content : SlotContent) × (slot ≡ SlotView.published content)
      × ((take_promised capacity sequence slot).1 ≡ SlotView.taken content)
      × (matches capacity sequence content ≡ unexpected error)
unfolding take_promised
take_failed capacity sequence SlotView.idle error h e = absurd (ground arith)
take_failed capacity sequence SlotView.filling error h e = absurd (ground arith)
take_failed capacity sequence (SlotView.published content) error h e = (content, refl, refl, e)
take_failed capacity sequence (SlotView.taken content) error h e = absurd (ground arith)
take_failed capacity sequence SlotView.broken error h e = absurd h

-- A failure comes from the first look, or from behind the exchange of a slot that was ready.
begin_read_if_matches-failed :
    (other : MtlWorkerSharedMemorySlotHeader → MtlWorkerSharedMemorySlotHeader)
    (capacity sequence : ℕ) (header : MtlWorkerSharedMemorySlotHeader) (error : Error)
    → (begin_read_if_matches other capacity sequence header).0 ≡ unexpected error
    → ((begin_read_if_matches other capacity sequence header).1 ≡ header)
      ⊎ ((header.state.value ≡ 2)
          × (begin_read_if_matches other capacity sequence header
              ≡ acquire capacity sequence (exchange_state (word 32 2) (word 32 3) (other header))))
unfolding begin_read_if_matches word
begin_read_if_matches-failed other capacity sequence header error e =
    elim (Bool-cases (valid_slot_state_value header.state)) [
      | inr bad ↦ rw bad (inl refl)
      | inl valid ↦ elim (Bool-cases (header.state.value == 2)) [
        | inr busy ↦ rw (valid, busy) (inl refl)
        | inl ready ↦ elim (Bool-cases (header.sequence.value == sequence)) [
          | inr old ↦ rw (valid, ready, old) (inl refl)
          | inl same ↦ rw (valid, ready, same) (inr (ground arith, refl))
        ]
      ]
    ]

ready-IsSound :
    (header : MtlWorkerSharedMemorySlotHeader)
    → header.state.value ≡ 2
    → IsSound any_content (view header)
unfolding view any_content
ready-IsSound header e =
    let ready : view header ≡ SlotView.published (content_of header) = ground arith in
    subst (IsSound any_content) (sym ready) refl

result_as-failed :
    {A : Type 0} (f : A → Answer) (r : Expected A) (error : Error)
    → result_as f r ≡ unexpected error
    → r ≡ unexpected error
unfolding result_as
result_as-failed f (ok a) error e = absurd (ground arith)
result_as-failed f (unexpected other) error e = ground arith

read_slot_failed :
    (between : List SlotStep) (sequence : ℕ) (map : MtlWorkerSharedMemoryRingMap) (i : ℕ)
    (found : Expected ℕ) (error : Error)
    → i < length map.headers
    → let operated =
        begin_read_if_matches
          (steps_header (capacity_of map) between)
          (capacity_of map)
          sequence
          (header_of map i) in
      (store map i found operated).0 ≡ unexpected error
      → ((store map i found operated).1 ≡ map)
        ⊎ LeftTaken
            (SlotOperation.matching_read between sequence)
            map
            i
            ((store map i found operated).1)
            error
unfolding store
read_slot_failed between sequence map i (unexpected other) error h e = inl refl
read_slot_failed between sequence map i (ok offset) error h e =
    let capacity = capacity_of map in
    let header = header_of map i in
    let other = steps_header capacity between in
    elim (begin_read_if_matches-failed other capacity sequence header error e) [
      | inl kept ↦ inl (
          ap (λ xs. record map { headers = xs })
            (ap (set map.headers i) kept ∙ set-get_or map.headers i fresh_header))
      | inr (ready, late) ↦
          let later = steps_header-seen capacity between header in
          let promise : seen (begin_read_if_matches other capacity sequence header)
              ≡ take_promised capacity sequence (steps_promised capacity between (view header)) =
            ap seen late
            ∙ acquire-seen capacity sequence (other header)
            ∙ ap (take_promised capacity sequence) later in
          let sound =
            steps_promised-IsSound any_content capacity between (view header)
              (λ s. all_pass s (step_accepted capacity s)) (ready-IsSound header ready) in
          let (content, was, now, why) =
            take_failed capacity sequence (steps_promised capacity between (view header)) error
              sound
              (ap (λ (x : Expected MtlWorkerSharedMemoryBeginReadResult × SlotView). x.0)
                  (sym promise)
                ∙ e) in
          inr (
            content,
            was,
            ap view (get_or-set_self map.headers i _ fresh_header h)
                ∙ ap (λ (x : Expected MtlWorkerSharedMemoryBeginReadResult × SlotView). x.1) promise
                ∙ now,
            why,
          )
    ]

-- An operation on a slot that fails, for whatever reason, leaves every byte of every header as it was,
-- with one exception: the reading of the frame with a given number may have taken the slot when it finds
-- that the number is another by then or that the metadata are invalid, and then leaves the slot taken,
-- with that content.
pub perform-failed :
    (operation : SlotOperation) (map : MtlWorkerSharedMemoryRingMap) (i : ℕ) (error : Error)
    → i < length map.headers
    → (perform operation map i).0 ≡ unexpected error
    → ((perform operation map i).1 ≡ map)
      ⊎ LeftTaken operation map i ((perform operation map i).1) error
unfolding perform begin_read_slot_if_matches at_slot
perform-failed (SlotOperation.step s) map i error h e =
    inl (perform_step-failed s map i error (result_as-failed Answer.answered _ error e))
perform-failed (SlotOperation.matching_read between sequence) map i error h e =
    read_slot_failed between sequence map i (slot_header map i) error h
      (result_as-failed Answer.read_as _ error e)
