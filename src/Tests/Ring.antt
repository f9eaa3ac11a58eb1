-- ===== src/Tests/Ring.antt =====
-- A ring of two slots: where they are, and what happens to them.
use st2110_obs_plugin.Base.{
  ℕ, ◌+◌, ◌≡◌, ◌≤◌, ◌⊎◌, refl, true, some, List, [], ◌∷◌, ok, unexpected, Expected, invalid_value,
  replicate, arith, Bool,
}
use st2110_obs_plugin.Word.{word}
use st2110_obs_plugin.Protocol.{
  require_ring_fields, require_ring_layout, has_bad_field, add_overflows_u64, mul_overflows_u64,
}
use st2110_obs_plugin.Ring.{
  MtlWorkerSharedMemorySlotMediaMetadata, MtlWorkerSharedMemorySlotHeader,
  MtlWorkerSharedMemoryRingMap, map_from_descriptor, slot_header, slot_payload,
  require_ring_alignment, validate_ring_descriptor_for_mapping, ready_state, reading_state,
  header_size, no_metadata,
}
use st2110_obs_plugin.Ring.Metadata.{planes_end, require_media, validate_slot_media_metadata}
use st2110_obs_plugin.Ring.Headers.{
  header_of, fresh_header, if_valid, initialize_from, initialize_slot_headers,
  valid_slot_state_value, Operated,
}
use st2110_obs_plugin.Ring.Transitions.{
  SlotContent, exchange_state, acquire, recheck, begin_read_if_matches, acquired, in_state,
  release_read, begin_read, cleared, begin_write, publish, MtlWorkerSharedMemoryBeginReadResult,
}
use st2110_obs_plugin.Ring.Slots.{
  store, at_slot, accepts, accepts_within, begin_write_slot, publish_written_slot,
  begin_read_slot_if_matches, release_read_slot,
}
use st2110_obs_plugin.Ring.View.{SlotView, SlotStep, view, content_of}
use st2110_obs_plugin.Ring.Bounds.{slot_inside_file, slots_apart}
use st2110_obs_plugin.Ring.Refinement.{slot_seen}
use st2110_obs_plugin.Ring.Operations.{
  SlotOperation, Answer, perform, perform_all, promised, capacity_of, result_as, steps_header,
  step_header, publish_valid,
}
use st2110_obs_plugin.Ring.Promises.{perform-seen}
use st2110_obs_plugin.Ring.Failing.{LeftTaken, perform-failed}
use st2110_obs_plugin.Ring.Acquiring.{begin_read_if_matches-acquired}
use st2110_obs_plugin.Ring.Soundness.{IsSoundRing}
use st2110_obs_plugin.Ring.Initialized.{initialized-IsSound}
use st2110_obs_plugin.Ring.Cycle.{slot_cycle}
use st2110_obs_plugin.Tests.Worker.{small_ring}

abbrev two_headers : List MtlWorkerSharedMemorySlotHeader
two_headers = fresh_header ∷ fresh_header ∷ []

abbrev two_slots : MtlWorkerSharedMemoryRingMap
two_slots = record {
  descriptor = small_ring;
  mapped = true;
  mapping_size = 4096;
  headers = two_headers;
}

is_two_slots : map_from_descriptor small_ring true (some 5000) (some two_headers) ≡ ok two_slots
unfolding map_from_descriptor validate_ring_descriptor_for_mapping require_ring_fields has_bad_field
    require_ring_alignment require_ring_layout add_overflows_u64 mul_overflows_u64 word
is_two_slots = refl

slot_inside_file_example :
    (file_size : ℕ) × (some 5000 ≡ some file_size)
    × ((header payload : ℕ) × (slot_header two_slots 1 ≡ ok header)
        × (slot_payload two_slots 1 ≡ ok (payload, small_ring.slot_payload_capacity_bytes.value))
        × (header + header_size ≤ payload)
        × (payload + small_ring.slot_payload_capacity_bytes.value ≤ file_size))
unfolding word
slot_inside_file_example =
    slot_inside_file small_ring true (some 5000) (some two_headers) two_slots 1 is_two_slots
      (omega arith)

first_payload : slot_payload two_slots 0 ≡ ok (320, 768)
unfolding slot_payload add_overflows_u64 mul_overflows_u64 word
first_payload = refl

second_header : slot_header two_slots 1 ≡ ok 1088
unfolding slot_header add_overflows_u64 mul_overflows_u64 word
second_header = refl

slots_apart_example : 320 + 768 ≤ 1088
slots_apart_example =
    slots_apart small_ring true (some 5000) (some two_headers) two_slots 0 1 320 768 1088
      is_two_slots (omega arith) first_payload second_header

perform-seen_example :
    ◌≡◌ {A = Expected Answer × SlotView}
      (
        (perform (SlotOperation.step SlotStep.start_write) two_slots 1).0,
        slot_seen ((perform (SlotOperation.step SlotStep.start_write) two_slots 1).1) 1,
      )
      (promised
        (capacity_of two_slots)
        (SlotOperation.step SlotStep.start_write)
        (slot_seen two_slots 1))
perform-seen_example =
    perform-seen (SlotOperation.step SlotStep.start_write) two_slots 1 1088 second_header
      (omega arith)

-- One plane of 700 bytes.
abbrev frame_metadata : MtlWorkerSharedMemorySlotMediaMetadata
frame_metadata = record no_metadata {
  width = word 32 4;
  height = word 32 2;
  plane_count = word 32 1;
  plane_size_bytes = word 64 700 ∷ replicate 3 (word 64 0);
}

abbrev frame : SlotContent
frame = record {
  content_size = word 64 700;
  content_sequence = word 64 9;
  content_flags = word 32 0;
  content_media = frame_metadata;
}

frame_accepted : accepts two_slots frame ≡ ok tt
unfolding accepts_within validate_slot_media_metadata planes_end require_media add_overflows_u64
    no_metadata word
frame_accepted = refl

slot_cycle_example :
    let writing : Operated Bool = begin_write_slot two_slots 1 in
    let ready : Operated Bool = publish_written_slot (writing.1) 1 frame in
    let read : Operated MtlWorkerSharedMemoryBeginReadResult =
      begin_read_slot_if_matches (λ h. h) (ready.1) 1 (frame.content_sequence.value) in
    let free : Operated Bool = release_read_slot (read.1) 1 in
    (writing.0 ≡ ok true)
    × (ready.0 ≡ ok true)
    × (read.0 ≡ ok acquired)
    × (content_of (header_of (read.1) 1) ≡ frame)
    × (free.0 ≡ ok true)
    × (view (header_of (free.1) 1) ≡ SlotView.idle)
unfolding fresh_header word
slot_cycle_example =
    slot_cycle two_slots 1 1088 frame second_header (omega arith) refl frame_accepted

abbrev published_header : MtlWorkerSharedMemorySlotHeader
published_header = record fresh_header {
  state = ready_state;
  payload_size = word 64 700;
  sequence = word 64 9;
  media = frame_metadata;
}

-- The other process sets a flag in between.
abbrev flag : MtlWorkerSharedMemorySlotHeader → MtlWorkerSharedMemorySlotHeader
flag header = record header { flags = word 32 1 }

frame_acquired : (begin_read_if_matches flag 768 9 published_header).0 ≡ ok acquired
unfolding begin_read_if_matches valid_slot_state_value acquire recheck exchange_state
    validate_slot_media_metadata planes_end require_media add_overflows_u64 no_metadata fresh_header
    word
frame_acquired = refl

begin_read_if_matches-acquired_example :
    ((flag published_header).state.value ≡ ready_state.value)
    × ((begin_read_if_matches flag 768 9 published_header).1
        ≡ record (flag published_header) { state = reading_state })
    × ((flag published_header).sequence.value ≡ 9)
    × (validate_slot_media_metadata
          ((flag published_header).media)
          ((flag published_header).payload_size.value)
          768
        ≡ ok tt)
begin_read_if_matches-acquired_example =
    begin_read_if_matches-acquired flag 768 9 published_header frame_acquired

two_slots_initialized : initialize_slot_headers two_slots ≡ (ok true, two_slots)
unfolding initialize_slot_headers initialize_from if_valid slot_header add_overflows_u64
    mul_overflows_u64 word
two_slots_initialized = refl

initialized-IsSound_example : IsSoundRing (
    perform_all
      ((1, (SlotOperation.step SlotStep.start_write))
        ∷ (1, SlotOperation.step (SlotStep.publish_content frame))
        ∷ (0, SlotOperation.matching_read (SlotStep.start_read ∷ []) 9)
        ∷ [])
      two_slots)
unfolding word
initialized-IsSound_example =
    initialized-IsSound two_slots two_slots
      ((1, (SlotOperation.step SlotStep.start_write))
        ∷ (1, SlotOperation.step (SlotStep.publish_content frame))
        ∷ (0, SlotOperation.matching_read (SlotStep.start_read ∷ []) 9)
        ∷ [])
      two_slots_initialized (omega arith)

-- Another process reads and gives back the frame 9, and the frame 10 is published in its place.
abbrev replaced : SlotOperation
replaced =
    SlotOperation.matching_read
      (SlotStep.start_read
        ∷ SlotStep.give_back
        ∷ SlotStep.start_write
        ∷ SlotStep.publish_content (record frame { content_sequence = word 64 10 })
        ∷ [])
      9

abbrev one_published : MtlWorkerSharedMemoryRingMap
one_published = record two_slots { headers = published_header ∷ fresh_header ∷ [] }

taken_in_vain :
    slot_seen ((perform replaced one_published 0).1) 0
    ≡ SlotView.taken (record frame { content_sequence = word 64 10 })
unfolding perform result_as view begin_read_slot_if_matches at_slot store slot_header
    add_overflows_u64 mul_overflows_u64 begin_read_if_matches valid_slot_state_value acquire recheck
    exchange_state steps_header step_header publish_valid accepts_within
    validate_slot_media_metadata planes_end require_media no_metadata begin_read release_read
    in_state cleared begin_write publish fresh_header word
taken_in_vain = refl

found_another : (perform replaced one_published 0).0 ≡ unexpected invalid_value
unfolding perform result_as begin_read_slot_if_matches at_slot store slot_header add_overflows_u64
    mul_overflows_u64 begin_read_if_matches valid_slot_state_value acquire recheck exchange_state
    steps_header step_header publish_valid accepts_within validate_slot_media_metadata planes_end
    require_media no_metadata begin_read release_read in_state cleared begin_write publish
    fresh_header word
found_another = refl

perform-failed_example :
    ((perform replaced one_published 0).1 ≡ one_published)
    ⊎ LeftTaken replaced one_published 0 ((perform replaced one_published 0).1) invalid_value
perform-failed_example =
    perform-failed replaced one_published 0 invalid_value (omega arith) found_another
