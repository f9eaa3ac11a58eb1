-- ===== src/Ring/Soundness.antt =====
-- No step on a slot breaks a slot, and what is published or being read has passed its test.
use st2110_obs_plugin.Base.{
  ℕ, zero, suc, ◌≡◌, refl, sym, ap, List, [], ◌∷◌, get_or, set, Expected, ok, unexpected, subst,
}
use st2110_obs_plugin.Word
use st2110_obs_plugin.Ring.{MtlWorkerSharedMemorySlotHeader, MtlWorkerSharedMemoryRingMap}
use st2110_obs_plugin.Ring.Headers.{header_of, if_valid, fresh_header}
use st2110_obs_plugin.Ring.Transitions.{SlotContent, OnHeader, publish}
use st2110_obs_plugin.Ring.View.{
  SlotView, view, SlotStep, begin_write_promised, publish_promised, abort_write_promised,
  begin_read_promised, release_read_promised,
}
use st2110_obs_plugin.Ring.Slots.{
  store, at_slot, accepts, begin_write_slot, publish_written_slot, abort_write_slot,
  begin_read_slot, release_read_slot,
}
use st2110_obs_plugin.Ring.Refinement.{
  perform_step, slot_seen, seen, begin_write-seen, publish-seen, abort_write-seen, begin_read-seen,
  release_read-seen,
}

-- A slot that holds something holds what the test lets pass.
abbrev pub IsSound : (SlotContent → Expected (Unit {0})) → SlotView → Type 0
IsSound test (SlotView.published content) = test content ≡ ok tt
IsSound test (SlotView.taken content) = test content ≡ ok tt
IsSound test SlotView.broken = ⊥
IsSound test _ = Unit

-- Every slot of the ring is sound.
abbrev pub IsSoundRing : MtlWorkerSharedMemoryRingMap → Type 0
IsSoundRing map = (j : ℕ) → IsSound (accepts map) (slot_seen map j)

pub fresh-IsSound : (test : SlotContent → Expected (Unit {0})) → IsSound test (view fresh_header)
unfolding view fresh_header Word.word
fresh-IsSound test = tt

-- A header that is put back is sound if what is put back is.
set-IsSound :
    (test : SlotContent → Expected (Unit {0})) (headers : List MtlWorkerSharedMemorySlotHeader)
    (i : ℕ) (header : MtlWorkerSharedMemorySlotHeader)
    → IsSound test (view header)
    → ((j : ℕ) → IsSound test (view (get_or headers j fresh_header)))
    → (j : ℕ) → IsSound test (view (get_or (set headers i header) j fresh_header))
set-IsSound test [] i header h all j = all j
set-IsSound test (x ∷ xs) zero header h all zero = h
set-IsSound test (x ∷ xs) zero header h all (suc j) = all (suc j)
set-IsSound test (x ∷ xs) (suc i) header h all zero = all zero
set-IsSound test (x ∷ xs) (suc i) header h all (suc j) =
    set-IsSound test xs i header h (λ k. all (suc k)) j

pub begin_write_promised-IsSound :
    (test : SlotContent → Expected (Unit {0})) (slot : SlotView)
    → IsSound test slot
    → IsSound test ((begin_write_promised slot).1)
unfolding begin_write_promised
begin_write_promised-IsSound test SlotView.idle h = tt
begin_write_promised-IsSound test SlotView.filling h = h
begin_write_promised-IsSound test (SlotView.published held) h = h
begin_write_promised-IsSound test (SlotView.taken held) h = h
begin_write_promised-IsSound test SlotView.broken h = h

pub publish_promised-IsSound :
    (test : SlotContent → Expected (Unit {0})) (content : SlotContent) (slot : SlotView)
    → test content ≡ ok tt
    → IsSound test slot
    → IsSound test ((publish_promised content slot).1)
unfolding publish_promised
publish_promised-IsSound test content SlotView.idle valid h = h
publish_promised-IsSound test content SlotView.filling valid h = valid
publish_promised-IsSound test content (SlotView.published held) valid h = h
publish_promised-IsSound test content (SlotView.taken held) valid h = h
publish_promised-IsSound test content SlotView.broken valid h = h

pub abort_write_promised-IsSound :
    (test : SlotContent → Expected (Unit {0})) (slot : SlotView)
    → IsSound test slot
    → IsSound test ((abort_write_promised slot).1)
unfolding abort_write_promised
abort_write_promised-IsSound test SlotView.idle h = h
abort_write_promised-IsSound test SlotView.filling h = tt
abort_write_promised-IsSound test (SlotView.published held) h = h
abort_write_promised-IsSound test (SlotView.taken held) h = h
abort_write_promised-IsSound test SlotView.broken h = h

pub begin_read_promised-IsSound :
    (test : SlotContent → Expected (Unit {0})) (slot : SlotView)
    → IsSound test slot
    → IsSound test ((begin_read_promised slot).1)
unfolding begin_read_promised
begin_read_promised-IsSound test SlotView.idle h = h
begin_read_promised-IsSound test SlotView.filling h = h
begin_read_promised-IsSound test (SlotView.published held) h = h
begin_read_promised-IsSound test (SlotView.taken held) h = h
begin_read_promised-IsSound test SlotView.broken h = h

pub release_read_promised-IsSound :
    (test : SlotContent → Expected (Unit {0})) (slot : SlotView)
    → IsSound test slot
    → IsSound test ((release_read_promised slot).1)
unfolding release_read_promised
release_read_promised-IsSound test SlotView.idle h = h
release_read_promised-IsSound test SlotView.filling h = h
release_read_promised-IsSound test (SlotView.published held) h = h
release_read_promised-IsSound test (SlotView.taken held) h = tt
release_read_promised-IsSound test SlotView.broken h = h

-- The view of the header that is put back, in the promise's terms.
pub seen-IsSound :
    {A : Type 0} (test : SlotContent → Expected (Unit {0})) (operated : OnHeader A)
    (promise : Expected A × SlotView)
    → seen operated ≡ promise
    → IsSound test (promise.1)
    → IsSound test (view (operated.1))
seen-IsSound {A = A} test operated promise e h =
    subst (IsSound test) (ap (λ (x : Expected A × SlotView). x.1) (sym e)) h

pub store-IsSound :
    (map : MtlWorkerSharedMemoryRingMap) (i : ℕ) (found : Expected ℕ) {A : Type 0}
    (operated : OnHeader A)
    → IsSoundRing map
    → IsSound (accepts map) (view (operated.1))
    → IsSoundRing ((store map i found operated).1)
unfolding store
store-IsSound map i (ok offset) operated sound h =
    set-IsSound (accepts map) map.headers i (operated.1) h sound
store-IsSound map i (unexpected error) operated sound h = sound

published-IsSound :
    (content : SlotContent) (map : MtlWorkerSharedMemoryRingMap) (i : ℕ)
    (test : Expected (Unit {0}))
    → accepts map content ≡ test
    → IsSoundRing map
    → IsSoundRing ((if_valid map test (at_slot (publish content) map i)).1)
unfolding if_valid at_slot
published-IsSound content map i (unexpected error) e sound = sound
published-IsSound content map i (ok valid) e sound = store-IsSound map i _ _ sound (
    seen-IsSound (accepts map) _ _ (publish-seen content (header_of map i))
      (publish_promised-IsSound (accepts map) content _ e (sound i)))

pub perform_step-IsSound :
    (operation : SlotStep) (map : MtlWorkerSharedMemoryRingMap) (i : ℕ)
    → IsSoundRing map
    → IsSoundRing ((perform_step operation map i).1)
unfolding perform_step begin_write_slot abort_write_slot begin_read_slot release_read_slot
    publish_written_slot at_slot
perform_step-IsSound SlotStep.start_write map i sound = store-IsSound map i _ _ sound (
    seen-IsSound (accepts map) _ _ (begin_write-seen (header_of map i))
      (begin_write_promised-IsSound (accepts map) _ (sound i)))
perform_step-IsSound (SlotStep.publish_content content) map i sound =
    published-IsSound content map i (accepts map content) refl sound
perform_step-IsSound SlotStep.give_up map i sound = store-IsSound map i _ _ sound (
    seen-IsSound (accepts map) _ _ (abort_write-seen (header_of map i))
      (abort_write_promised-IsSound (accepts map) _ (sound i)))
perform_step-IsSound SlotStep.start_read map i sound = store-IsSound map i _ _ sound (
    seen-IsSound (accepts map) _ _ (begin_read-seen (header_of map i))
      (begin_read_promised-IsSound (accepts map) _ (sound i)))
perform_step-IsSound SlotStep.give_back map i sound = store-IsSound map i _ _ sound (
    seen-IsSound (accepts map) _ _ (release_read-seen (header_of map i))
      (release_read_promised-IsSound (accepts map) _ (sound i)))
