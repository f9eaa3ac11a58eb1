-- ===== src/Ring/Cycle.antt =====
-- A slot goes its whole way: written, published, read and given back.
use st2110_obs_plugin.Base.{
  ℕ, ◌≡◌, refl, ap, ◌∙◌, ◌<◌, Bool, true, ◌==◌, ok, length, length-set, get_or-set_self, arith,
  ==_refl, chain_ok, ltb, reject, invalid_value,
}
use st2110_obs_plugin.Word.{word}
use st2110_obs_plugin.Ring.{
  MtlWorkerSharedMemorySlotHeader, MtlWorkerSharedMemoryRingMap, slot_header,
}
use st2110_obs_plugin.Ring.Metadata.{validate_slot_media_metadata}
use st2110_obs_plugin.Ring.Headers.{
  header_of, fresh_header, with_header, if_valid, valid_slot_state_value, Operated,
}
use st2110_obs_plugin.Ring.Transitions.{
  SlotContent, OnHeader, exchange_state, in_state, cleared, begin_write, publish, recheck, acquire,
  begin_read_if_matches, release_read, MtlWorkerSharedMemoryBeginReadResult, acquired,
}
use st2110_obs_plugin.Ring.View.{SlotView, view, content_of}
use st2110_obs_plugin.Ring.Slots.{
  store, at_slot, accepts, accepts_within, begin_write_slot, publish_written_slot,
  begin_read_slot_if_matches, release_read_slot,
}

-- The four operations on a header, one behind the other.
header_cycle :
    (header : MtlWorkerSharedMemorySlotHeader) (content : SlotContent) (capacity : ℕ)
    → header.state.value ≡ 0
    → validate_slot_media_metadata content.content_media (content.content_size.value) capacity
      ≡ ok tt
    → let writing : OnHeader Bool = begin_write header in
      let ready : OnHeader Bool = publish content (writing.1) in
      let read : OnHeader MtlWorkerSharedMemoryBeginReadResult =
        begin_read_if_matches (λ h. h) capacity (content.content_sequence.value) (ready.1) in
      let free : OnHeader Bool = release_read (read.1) in
      (writing.0 ≡ ok true)
      × (ready.0 ≡ ok true)
      × (read.0 ≡ ok acquired)
      × (content_of (read.1) ≡ content)
      × (free.0 ≡ ok true)
      × (view (free.1) ≡ SlotView.idle)
unfolding begin_write publish begin_read_if_matches release_read exchange_state in_state acquire
    recheck cleared valid_slot_state_value view word
header_cycle header content capacity h valid =
    let z : (header.state.value == 0) ≡ true = ground arith in
    rw (z, ==_refl (content.content_sequence.value), valid) (refl, refl, refl, refl, refl, refl)

at_slot-found :
    {A : Type 0} (operate : MtlWorkerSharedMemorySlotHeader → OnHeader A)
    (map : MtlWorkerSharedMemoryRingMap) (i : ℕ) {offset : ℕ}
    → slot_header map i ≡ ok offset
    → at_slot operate map i
      ≡ ((operate (header_of map i)).0, with_header map i ((operate (header_of map i)).1))
unfolding at_slot store
at_slot-found operate map i e = rw e refl

-- A slot that is there, its header, and the room it has.
record At (map : MtlWorkerSharedMemoryRingMap) (i offset capacity : ℕ)
    (header : MtlWorkerSharedMemorySlotHeader) : Type 0 where
  found : slot_header map i ≡ ok offset
  below : i < length map.headers
  room : map.descriptor.slot_payload_capacity_bytes.value ≡ capacity
  is : header_of map i ≡ header

-- An operation answers as it does on the header, and the slot is still there.
step :
    {A : Type 0} (operate : MtlWorkerSharedMemorySlotHeader → OnHeader A)
    (map : MtlWorkerSharedMemoryRingMap) (i : ℕ) {offset capacity : ℕ}
    {header : MtlWorkerSharedMemorySlotHeader}
    → At map i offset capacity header
    → ((at_slot operate map i).0 ≡ (operate header).0)
      × At ((at_slot operate map i).1) i offset capacity ((operate header).1)
unfolding slot_header
step operate map i {offset} {capacity} {header} a = rw (at_slot-found operate map i (a.found)) (
  ap (λ h. (operate h).0) (a.is),
  record {
    found = a.found;
    below = omega (arith, a.below, length-set map.headers i ((operate (header_of map i)).1));
    room = a.room;
    is = get_or-set_self map.headers i _ fresh_header (a.below) ∙ ap (λ h. (operate h).1) (a.is);
  },
)

write_step :
    (map : MtlWorkerSharedMemoryRingMap) (i : ℕ) {offset capacity : ℕ}
    {header : MtlWorkerSharedMemorySlotHeader}
    → At map i offset capacity header
    → ((begin_write_slot map i).0 ≡ (begin_write header).0)
      × At ((begin_write_slot map i).1) i offset capacity ((begin_write header).1)
unfolding begin_write_slot
write_step map i a = step begin_write map i a

publish_step :
    (map : MtlWorkerSharedMemoryRingMap) (i : ℕ) {offset capacity : ℕ}
    {header : MtlWorkerSharedMemorySlotHeader} (content : SlotContent)
    → At map i offset capacity header
    → accepts_within capacity content ≡ ok tt
    → ((publish_written_slot map i content).0 ≡ (publish content header).0)
      × At ((publish_written_slot map i content).1) i offset capacity ((publish content header).1)
unfolding publish_written_slot if_valid
publish_step map i content a valid = rw (a.room, valid) (step (publish content) map i a)

read_step :
    (map : MtlWorkerSharedMemoryRingMap) (i : ℕ) {offset capacity : ℕ}
    {header : MtlWorkerSharedMemorySlotHeader} (sequence : ℕ)
    → At map i offset capacity header
    → ((begin_read_slot_if_matches (λ h. h) map i sequence).0
        ≡ (begin_read_if_matches (λ h. h) capacity sequence header).0)
      × At
          ((begin_read_slot_if_matches (λ h. h) map i sequence).1)
          i
          offset
          capacity
          ((begin_read_if_matches (λ h. h) capacity sequence header).1)
unfolding begin_read_slot_if_matches
read_step map i {capacity = capacity} sequence a =
    rw (a.room) (step (begin_read_if_matches (λ h. h) capacity sequence) map i a)

release_step :
    (map : MtlWorkerSharedMemoryRingMap) (i : ℕ) {offset capacity : ℕ}
    {header : MtlWorkerSharedMemorySlotHeader}
    → At map i offset capacity header
    → ((release_read_slot map i).0 ≡ (release_read header).0)
      × At ((release_read_slot map i).1) i offset capacity ((release_read header).1)
unfolding release_read_slot
release_step map i a = step release_read map i a

-- The same in the ring: a slot that is idle is written, its content published, acquired by its sequence
-- number with the content that was published, and given back, each call with success; behind it the
-- slot is idle again.
pub slot_cycle :
    (map : MtlWorkerSharedMemoryRingMap) (i offset : ℕ) (content : SlotContent)
    → slot_header map i ≡ ok offset
    → i < length map.headers
    → (header_of map i).state.value ≡ 0
    → accepts map content ≡ ok tt
    → let writing : Operated Bool = begin_write_slot map i in
      let ready : Operated Bool = publish_written_slot (writing.1) i content in
      let read : Operated MtlWorkerSharedMemoryBeginReadResult =
        begin_read_slot_if_matches (λ h. h) (ready.1) i (content.content_sequence.value) in
      let free : Operated Bool = release_read_slot (read.1) i in
      (writing.0 ≡ ok true)
      × (ready.0 ≡ ok true)
      × (read.0 ≡ ok acquired)
      × (content_of (header_of (read.1) i) ≡ content)
      × (free.0 ≡ ok true)
      × (view (header_of (free.1) i) ≡ SlotView.idle)
unfolding accepts_within
slot_cycle map i offset content e l h valid =
    let capacity = map.descriptor.slot_payload_capacity_bytes.value in
    let start : At map i offset capacity (header_of map i) = record {
      found = e;
      below = l;
      room = refl;
      is = refl;
    } in
    let tested =
      chain_ok (reject (ltb capacity (content.content_size.value)) invalid_value) _ valid in
    let (w, p, r, c, f, v) = header_cycle (header_of map i) content capacity h (tested.2) in
    let (w', written) = write_step map i start in
    let (p', ready) = publish_step _ i content written valid in
    let (r', taken) = read_step _ i (content.content_sequence.value) ready in
    let (f', free) = release_step _ i taken in
    (w' ∙ w, p' ∙ p, r' ∙ r, ap content_of (taken.is) ∙ c, f' ∙ f, ap view (free.is) ∙ v)
