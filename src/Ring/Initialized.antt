-- ===== src/Ring/Initialized.antt =====
-- A ring that is initialized is sound, and stays so whatever is done to its slots.
use st2110_obs_plugin.Ring.View.{view}
use st2110_obs_plugin.Ring.Operations.{SlotOperation, perform_all}
use st2110_obs_plugin.Ring.Keeping.{perform_all-IsSound}
use st2110_obs_plugin.Ring.Refinement.{slot_seen}
use st2110_obs_plugin.Ring.Slots.{accepts}
use st2110_obs_plugin.Ring.Soundness.{IsSound, IsSoundRing, fresh-IsSound}
use st2110_obs_plugin.Base.{
  ℕ, zero, suc, ◌+◌, ◌≤◌, ◌<◌, ◌≡◌, refl, sym, ap, ◌≢◌, Bool, true, false, List, [], ◌∷◌, length,
  length-set, get_or, set, Expected, ok, unexpected, Error, invalid_backend_state, if◌then◌else◌,
  subst, arith, ltb, ltb→lt, ltb→le, Bool-cases, inl, inr, ◌==◌, ==_iff, get_or-set_ne,
}
use st2110_obs_plugin.Ring.{
  MtlWorkerSharedMemorySlotHeader, MtlWorkerSharedMemoryRingMap, slot_header,
}
use st2110_obs_plugin.Ring.Headers.{
  if_valid, fresh_header, initialize_from, initialize_slot_headers, with_header, Operated,
}

beyond :
    (headers : List MtlWorkerSharedMemorySlotHeader) (j : ℕ)
    → length headers ≤ j
    → get_or headers j fresh_header ≡ fresh_header
beyond [] j h = refl
beyond (x ∷ xs) zero h = absurd (omega arith)
beyond (x ∷ xs) (suc j) h = beyond xs j (omega arith)

-- The first slots are sound, and there are no others.
all-IsSound :
    (map : MtlWorkerSharedMemoryRingMap) (i : ℕ)
    → length map.headers ≤ i
    → ((j : ℕ) → j < i → IsSound (accepts map) (slot_seen map j))
    → IsSoundRing map
all-IsSound map i h sound j = elim (Bool-cases (ltb j i)) [
  | inl below ↦ sound j (ltb→lt _ _ below)
  | inr above ↦
      subst (λ x. IsSound (accepts map) (view x))
        (sym (beyond map.headers j (omega (arith, ltb→le _ _ above)))) (fresh-IsSound (accepts map))
]

failed-ok : {B : Type 0} {error : Error} {b : B} → unexpected error ≡ ok b → ⊥
failed-ok e = ground arith

get_or-set_default :
    (headers : List MtlWorkerSharedMemorySlotHeader) (i : ℕ)
    → get_or (set headers i fresh_header) i fresh_header ≡ fresh_header
get_or-set_default [] i = refl
get_or-set_default (x ∷ xs) zero = refl
get_or-set_default (x ∷ xs) (suc i) = get_or-set_default xs i

-- Where the memory is mapped, the loop runs.
looped :
    (mapped : Bool) (map : MtlWorkerSharedMemoryRingMap) (loop : Operated Bool) {b : Bool}
    {after : MtlWorkerSharedMemoryRingMap}
    → (if mapped then loop else (unexpected invalid_backend_state, map)) ≡ (ok b, after)
    → loop ≡ (ok b, after)
looped true map loop e = e
looped false map loop e = absurd (failed-ok (ap (λ (x : Operated Bool). x.0) e))

-- What passes a test is what stands behind it.
passed_on :
    {A B : Type 0} {b : B} (map : MtlWorkerSharedMemoryRingMap) (found : Expected A)
    (operated : Operated B) {after : MtlWorkerSharedMemoryRingMap}
    → if_valid map found operated ≡ (ok b, after)
    → operated ≡ (ok b, after)
unfolding if_valid
passed_on map (ok a) operated e = e
passed_on {B = B} map (unexpected error) operated e =
    absurd (failed-ok (ap (λ (x : Operated B). x.0) e))

ne : (j i : ℕ) → (j == i) ≡ false → i ≢ j
ne j i e p = ground arith

-- One slot more is sound when its header is made anew.
initialized :
    (map : MtlWorkerSharedMemoryRingMap) (i : ℕ)
    → ((j : ℕ) → j < i → IsSound (accepts map) (slot_seen map j))
    → (j : ℕ) → j < suc i
    → IsSound (accepts map) (slot_seen (with_header map i fresh_header) j)
initialized map i sound j h = elim (Bool-cases (j == i)) [
  | inl same ↦
      subst (λ k. IsSound (accepts map) (slot_seen (with_header map i fresh_header) k))
        (sym ((==_iff j i).0 same))
        (subst (λ x. IsSound (accepts map) (view x)) (sym (get_or-set_default map.headers i))
          (fresh-IsSound (accepts map)))
  | inr other ↦
      let apart : i ≢ j = λ e. ne j i other e in
      subst (λ x. IsSound (accepts map) (view x))
        (sym (get_or-set_ne map.headers fresh_header fresh_header apart)) (sound j (omega arith))
]

-- The slots below `i` are sound; the loop makes the others so.
initialize_from-IsSound :
    (map : MtlWorkerSharedMemoryRingMap) (i left : ℕ) {after : MtlWorkerSharedMemoryRingMap}
    → initialize_from map i left ≡ (ok true, after)
    → length map.headers ≤ i + left
    → ((j : ℕ) → j < i → IsSound (accepts map) (slot_seen map j))
    → IsSoundRing after
unfolding initialize_from
initialize_from-IsSound map i zero e h sound =
    subst IsSoundRing (ap (λ (x : Operated Bool). x.1) e) (all-IsSound map i (omega arith) sound)
initialize_from-IsSound map i (suc left) e h sound =
    let next = passed_on map (slot_header map i) _ e in
    initialize_from-IsSound (with_header map i fresh_header) (suc i) left next
      (omega (arith, length-set map.headers i fresh_header)) (initialized map i sound)

-- Whatever operations are made on the slots of a ring that was initialized, in whatever order, with any
-- steps of the other process between the look and the exchange of a read of a given number, each step
-- taken as a whole: no slot's state is a value that no operation knows, and whatever a slot has
-- published or lets be read has passed the test of `publish_written_slot`.
pub initialized-IsSound :
    (map after : MtlWorkerSharedMemoryRingMap) (operations : List (ℕ × SlotOperation))
    → initialize_slot_headers map ≡ (ok true, after)
    → length map.headers ≤ map.descriptor.slot_count.value
    → IsSoundRing (perform_all operations after)
unfolding initialize_slot_headers
initialized-IsSound map after operations e h = perform_all-IsSound operations after (
    initialize_from-IsSound map 0 _ (looped map.mapped map _ e) (omega (arith, h))
      (λ j k. absurd (omega arith)))
