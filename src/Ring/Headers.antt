-- ===== src/Ring/Headers.antt =====
-- libs/st2110core/src/backends/mtl/mtl_worker_shared_memory_ring.cpp:
-- the slots' headers as a whole.
use st2110_obs_plugin.Base.{
  ℕ, zero, suc, Bool, true, not, ◌||◌, get_or, set, ltb, ◌==◌, if◌then◌else◌, Expected, ok,
  unexpected, ◌>>=◌, ◌>>◌, reject, require, invalid_value, invalid_backend_state,
}
use st2110_obs_plugin.Word.{word, U32}
use st2110_obs_plugin.Protocol.{shared_memory_ring_layout_version}
use st2110_obs_plugin.Ring.{
  slot_magic, empty_state, MtlWorkerSharedMemorySlotHeader, MtlWorkerSharedMemoryRingMap,
  slot_header, no_metadata,
}

unfoldable pub valid_slot_state_value : U32 → Bool
valid_slot_state_value state = ltb (state.value) 4

-- `MtlWorkerSharedMemorySlotHeader{}`, as the layout's constants and an empty slot.
unfoldable pub fresh_header : MtlWorkerSharedMemorySlotHeader
fresh_header = record {
  magic = word 32 slot_magic;
  layout_version = word 32 shared_memory_ring_layout_version;
  state = empty_state;
  flags = word 32 0;
  sequence = word 64 0;
  payload_size = word 64 0;
  media = no_metadata;
}

-- `**header`, which `slot_header` has found in the mapping.
abbrev pub header_of : MtlWorkerSharedMemoryRingMap → ℕ → MtlWorkerSharedMemorySlotHeader
header_of map slot_index = get_or map.headers slot_index fresh_header

abbrev pub with_header :
    MtlWorkerSharedMemoryRingMap
    → ℕ
    → MtlWorkerSharedMemorySlotHeader
    → MtlWorkerSharedMemoryRingMap
with_header map slot_index header = record map { headers = set map.headers slot_index header }

-- An operation's result, and the map behind it.
abbrev pub Operated : Type 0 → Type 0
Operated A = Expected A × MtlWorkerSharedMemoryRingMap

-- `if (!tested.has_value()) return std::unexpected(tested.error());`
unfoldable pub if_valid :
    {A B : Type 0} → MtlWorkerSharedMemoryRingMap → Expected A → Operated B → Operated B
if_valid map (ok passed) operated = operated
if_valid map (unexpected error) operated = (unexpected error, map)

-- The loop over the slots from `i` on.
unfoldable pub initialize_from : MtlWorkerSharedMemoryRingMap → ℕ → ℕ → Operated Bool
initialize_from map i zero = (ok true, map)
initialize_from map i (suc left) =
    let rest = initialize_from (with_header map i fresh_header) (suc i) left in
    if_valid map (slot_header map i) rest

unfoldable pub initialize_slot_headers : MtlWorkerSharedMemoryRingMap → Operated Bool
initialize_slot_headers map =
    if map.mapped
    then initialize_from map 0 (map.descriptor.slot_count.value)
    else (unexpected invalid_backend_state, map)

-- The loop over the slots from `i` on.
unfoldable pub validate_headers_from : MtlWorkerSharedMemoryRingMap → ℕ → ℕ → Expected Bool
validate_headers_from map i zero = ok true
validate_headers_from map i (suc left) =
    let header = header_of map i in
    let rest = validate_headers_from map (suc i) left in
    slot_header map i >>= (λ offset.
      reject
        (not (header.magic.value == slot_magic)
          || not (header.layout_version.value == shared_memory_ring_layout_version)
          || not (valid_slot_state_value header.state))
        invalid_value
      >> rest)

unfoldable pub validate_initialized_slot_headers : MtlWorkerSharedMemoryRingMap → Expected Bool
validate_initialized_slot_headers map = do
  require map.mapped invalid_backend_state
  validate_headers_from map 0 (map.descriptor.slot_count.value)

unfoldable pub load_slot_state : MtlWorkerSharedMemoryRingMap → ℕ → Expected U32
load_slot_state map slot_index = do
  offset ← slot_header map slot_index
  require (valid_slot_state_value (header_of map slot_index).state) invalid_value
  ok ((header_of map slot_index).state)
