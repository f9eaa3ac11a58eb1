-- ===== src/Ring/Acquiring.antt =====
-- Reading a slot by the sequence number of its event, while the other process does what it will.
use st2110_obs_plugin.Base.{
  ℕ, ◌≡◌, refl, sym, ap, ◌∙◌, Bool, true, false, not, ◌==◌, if◌then◌else◌, ok, unexpected, reject,
  chain_ok, reject-ok, arith, invalid_value,
}
use st2110_obs_plugin.Word.{U32}
use st2110_obs_plugin.Ring.{MtlWorkerSharedMemorySlotHeader, ready_state, reading_state}
use st2110_obs_plugin.Ring.Metadata.{validate_slot_media_metadata}
use st2110_obs_plugin.Ring.Transitions.{
  exchange_state, acquire, recheck, OnHeader, not_ready, stale, begin_read_if_matches,
  MtlWorkerSharedMemoryBeginReadResult, acquired,
}

acquire-checked :
    (capacity expected_sequence : ℕ) (exchanged : Bool × MtlWorkerSharedMemorySlotHeader)
    → (acquire capacity expected_sequence exchanged).0 ≡ ok acquired
    → (exchanged.0 ≡ true)
      × ((acquire capacity expected_sequence exchanged).1 ≡ exchanged.1)
      × (exchanged.1.sequence.value ≡ expected_sequence)
      × (validate_slot_media_metadata exchanged.1.media (exchanged.1.payload_size.value) capacity
          ≡ ok tt)
unfolding acquire recheck
acquire-checked capacity expected_sequence (false, header) e = absurd (ground arith)
acquire-checked capacity expected_sequence (true, header) e =
    let sequence =
      chain_ok (reject (not (header.sequence.value == expected_sequence)) invalid_value) _ e in
    let valid =
      chain_ok (validate_slot_media_metadata header.media (header.payload_size.value) capacity) _
        (sequence.2) in
    let same =
      reject-ok (not (header.sequence.value == expected_sequence)) invalid_value (sequence.1) in
    (refl, refl, ground arith, valid.1)

-- What is acquired has passed the first look.
past_looks :
    (a b c : Bool) (header : MtlWorkerSharedMemorySlotHeader)
    (result : OnHeader MtlWorkerSharedMemoryBeginReadResult)
    → (if a
        then (unexpected invalid_value, header)
        else if b
        then (ok not_ready, header)
        else if c
        then (ok stale, header)
        else result).0
      ≡ ok acquired
    → (if a
        then (unexpected invalid_value, header)
        else if b
        then (ok not_ready, header)
        else if c
        then (ok stale, header)
        else result)
      ≡ result
past_looks true b c header result e = absurd (ground arith)
past_looks false true c header result e = absurd (ground arith)
past_looks false false true header result e = absurd (ground arith)
past_looks false false false header result e = refl

exchange_state-won :
    (expected desired : U32) (header : MtlWorkerSharedMemorySlotHeader)
    → (exchange_state expected desired header).0 ≡ true
    → (header.state.value ≡ expected.value)
      × ((exchange_state expected desired header).1 ≡ record header { state = desired })
unfolding exchange_state
exchange_state-won expected desired header e = ground arith

-- Whatever the other process does to a slot between the look at it and the exchange, a slot that is
-- acquired was ready when it was exchanged, is in the reading state, holds the sequence number asked
-- for and metadata that pass their test, and is otherwise what the other process left.
pub begin_read_if_matches-acquired :
    (other : MtlWorkerSharedMemorySlotHeader → MtlWorkerSharedMemorySlotHeader)
    (capacity expected_sequence : ℕ) (header : MtlWorkerSharedMemorySlotHeader)
    → (begin_read_if_matches other capacity expected_sequence header).0 ≡ ok acquired
    → ((other header).state.value ≡ ready_state.value)
      × ((begin_read_if_matches other capacity expected_sequence header).1
          ≡ record (other header) { state = reading_state })
      × ((other header).sequence.value ≡ expected_sequence)
      × (validate_slot_media_metadata
            ((other header).media)
            ((other header).payload_size.value)
            capacity
          ≡ ok tt)
unfolding begin_read_if_matches
begin_read_if_matches-acquired other capacity expected_sequence header e =
    let looked =
      past_looks _ _ _ header
        (acquire capacity expected_sequence
          (exchange_state ready_state reading_state (other header)))
        e in
    let (won, same, sequence, valid) =
      acquire-checked capacity expected_sequence
        (exchange_state ready_state reading_state (other header)) (rw looked at e) in
    let (was, now) = exchange_state-won ready_state reading_state (other header) won in
    (
      was,
      ap (λ (r : OnHeader MtlWorkerSharedMemoryBeginReadResult). r.1) looked ∙ same ∙ now,
      ap (λ (h : MtlWorkerSharedMemorySlotHeader). h.sequence.value) (sym now) ∙ sequence,
      rw now at valid,
    )
