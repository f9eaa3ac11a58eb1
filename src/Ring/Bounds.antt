-- ===== src/Ring/Bounds.antt =====
-- The slots of a ring that is mapped from a valid descriptor lie apart and inside the mapping.
use native.Mathlib.Nat.{mul-le-mul_right, div-lt_iff_lt-mul, mul_comm}
use st2110_obs_plugin.Base.{
  ℕ, suc, ◌+◌, ◌-◌, ◌*◌, ◌%◌, ◌≤◌, ◌<◌, ◌≡◌, refl, sym, ap, ◌∙◌, Bool, not, ◌||◌, leb, List, true,
  false, Option, some, none, arith, ok, chain_ok, ok_injective, subst, reject-ok, ltb, ltb→le, ◌==◌,
  invalid_value, u64_max, u64_mod, reject,
}
use st2110_obs_plugin.Protocol.{
  MtlWorkerSharedMemoryRingDescriptor, require_ring_fields, require_ring_layout, add_overflows_u64,
  mul_overflows_u64, fits, IsLaidOut, add_overflows_u64-some, mul_overflows_u64-some,
}
use st2110_obs_plugin.Ring.{
  header_size, header_alignment, map_from_descriptor, answered, MtlWorkerSharedMemorySlotHeader,
  MtlWorkerSharedMemoryRingMap, require_ring_alignment, validate_ring_descriptor_for_mapping,
  slot_header, slot_payload,
}

fits-ok : (o : Option ℕ) (out : ℕ) → fits o ≡ ok out → o ≡ some out
fits-ok none out e = absurd (ground arith)
fits-ok (some a) out e = ground arith

-- The layout that passes its test keeps payloads in their slots and slots in the mapping.
pub require_ring_layout-IsLaidOut :
    (d : MtlWorkerSharedMemoryRingDescriptor) → require_ring_layout d ≡ ok tt → IsLaidOut d
unfolding require_ring_layout
require_ring_layout-IsLaidOut d e =
    let payload =
      chain_ok
        (fits (
          add_overflows_u64 (d.slot_payload_offset_bytes.value)
            (d.slot_payload_capacity_bytes.value)))
        _ e in
    let payload_end = add_overflows_u64-some _ _ (fits-ok _ _ (payload.1)) in
    let inside =
      chain_ok (reject (ltb (d.slot_stride_bytes.value) (payload.0)) invalid_value) _ (payload.2) in
    let last_slot =
      chain_ok (fits (mul_overflows_u64 (d.slot_count.value - 1) (d.slot_stride_bytes.value))) _
        (inside.2) in
    let last_offset = mul_overflows_u64-some _ _ (fits-ok _ _ (last_slot.1)) in
    let last_payload =
      chain_ok (fits (add_overflows_u64 (last_slot.0) (payload.0))) _ (last_slot.2) in
    let last_end = add_overflows_u64-some _ _ (fits-ok _ _ (last_payload.1)) in
    let mapped =
      chain_ok (fits (add_overflows_u64 (d.slot_region_offset_bytes.value) (last_payload.0))) _
        (last_payload.2) in
    let mapped_end = add_overflows_u64-some _ _ (fits-ok _ _ (mapped.1)) in
    let p = ltb→le _ _ (reject-ok _ invalid_value (inside.1)) in
    let q =
      ltb→le _ _
        (reject-ok (ltb (d.mapped_size_bytes.value) (mapped.0)) invalid_value (mapped.2)) in
    record { payload_inside = omega arith; slots_inside = omega arith }

add_overflows_u64-fits : (a b : ℕ) → a + b < u64_mod → add_overflows_u64 a b ≡ some (a + b)
unfolding add_overflows_u64
add_overflows_u64-fits a b h = ground arith

mul_overflows_u64-fits : (a b : ℕ) → a * b < u64_mod → mul_overflows_u64 a b ≡ some (a * b)
unfolding mul_overflows_u64
mul_overflows_u64-fits ℕ.zero b h = ground arith
mul_overflows_u64-fits (suc a) b h =
    let k = div-lt_iff_lt-mul {k = suc a} {x = u64_max} {y = b} (omega arith) in
    let l = mul_comm b (suc a) in ground arith

-- What a map keeps of the descriptor and the file that it was made from.
pub record IsMapped (map : MtlWorkerSharedMemoryRingMap) (file_size : ℕ) : Type 0 where
  pub is_mapped : map.mapped ≡ true
  pub laid_out : IsLaidOut map.descriptor
  pub payload_behind : header_size ≤ map.descriptor.slot_payload_offset_bytes.value
  pub whole_size : map.mapping_size ≡ map.descriptor.mapped_size_bytes.value
  pub in_file : map.mapping_size ≤ file_size

answered-ok : {A : Type 0} (o : Option A) (a : A) → answered o ≡ ok a → o ≡ some a
answered-ok none a e = absurd (ground arith)
answered-ok (some b) a e = ground arith

payload_starts_behind :
    (d : MtlWorkerSharedMemoryRingDescriptor)
    → require_ring_alignment d ≡ ok tt
    → header_size ≤ d.slot_payload_offset_bytes.value
unfolding require_ring_alignment
payload_starts_behind d e =
    let aligned =
      chain_ok
        (reject
          (not (d.slot_region_offset_bytes.value % header_alignment == 0)
            || not (d.slot_stride_bytes.value % header_alignment == 0))
          invalid_value)
        _ e in
    ltb→le _ _
      (reject-ok (ltb (d.slot_payload_offset_bytes.value) header_size) invalid_value (aligned.2))

pub map_from_descriptor-IsMapped :
    (d : MtlWorkerSharedMemoryRingDescriptor) (fd_is_valid : Bool) (fstat : Option ℕ)
    (mmap : Option (List MtlWorkerSharedMemorySlotHeader)) {map : MtlWorkerSharedMemoryRingMap}
    → map_from_descriptor d fd_is_valid fstat mmap ≡ ok map
    → (file_size : ℕ) × (fstat ≡ some file_size) × IsMapped map file_size
unfolding map_from_descriptor validate_ring_descriptor_for_mapping
map_from_descriptor-IsMapped d fd_is_valid fstat mmap e =
    let valid = chain_ok (validate_ring_descriptor_for_mapping d) _ e in
    let fields = chain_ok (require_ring_fields d) _ (valid.1) in
    let aligned = chain_ok (require_ring_alignment d) _ (fields.2) in
    let file = chain_ok (reject (not fd_is_valid) invalid_value) _ (valid.2) in
    let size = chain_ok (answered fstat) _ (file.2) in
    let enough =
      chain_ok (reject (ltb (size.0) (d.mapped_size_bytes.value)) invalid_value) _ (size.2) in
    let headers = chain_ok (answered mmap) _ (enough.2) in
    (
      size.0,
      answered-ok fstat (size.0) (size.1),
      subst (λ (m : MtlWorkerSharedMemoryRingMap). IsMapped m (size.0)) (ok_injective (headers.2))
          record {
            is_mapped = refl;
            laid_out = require_ring_layout-IsLaidOut d (aligned.2);
            payload_behind = payload_starts_behind d (aligned.1);
            whole_size = refl;
            in_file = ltb→le _ _ (reject-ok _ invalid_value (enough.1));
          },
    )

-- The offsets of a slot, which do not wrap.
slot_inside :
    {map : MtlWorkerSharedMemoryRingMap} {file_size : ℕ} (i : ℕ)
    → IsMapped map file_size
    → i < map.descriptor.slot_count.value
    → i * map.descriptor.slot_stride_bytes.value
      ≤ (map.descriptor.slot_count.value - 1) * map.descriptor.slot_stride_bytes.value
slot_inside {map} i m h = mul-le-mul_right (map.descriptor.slot_stride_bytes.value) (omega arith)

present :
    {map : MtlWorkerSharedMemoryRingMap} {file_size : ℕ} (i : ℕ)
    → IsMapped map file_size
    → i < map.descriptor.slot_count.value
    → (not map.mapped || leb (map.descriptor.slot_count.value) i) ≡ false
present i m h = rw (m.is_mapped) (ground arith)

pub slot_header-ok :
    {map : MtlWorkerSharedMemoryRingMap} {file_size : ℕ} (i : ℕ)
    → IsMapped map file_size
    → i < map.descriptor.slot_count.value
    → slot_header map i
      ≡ ok (
          map.descriptor.slot_region_offset_bytes.value
          + i * map.descriptor.slot_stride_bytes.value)
unfolding slot_header
slot_header-ok {map} i m h =
    let inside = slot_inside i m h in
    let bound = map.descriptor.mapped_size_bytes.bound in
    let a = mul_overflows_u64-fits i (map.descriptor.slot_stride_bytes.value) (omega arith) in
    let b =
      add_overflows_u64-fits (map.descriptor.slot_region_offset_bytes.value)
        (i * map.descriptor.slot_stride_bytes.value) (omega arith) in
    rw (present i m h, a, b) (ground arith)

slot_payload-ok :
    {map : MtlWorkerSharedMemoryRingMap} {file_size : ℕ} (i : ℕ)
    → IsMapped map file_size
    → i < map.descriptor.slot_count.value
    → slot_payload map i
      ≡ ok (
        map.descriptor.slot_region_offset_bytes.value
            + i * map.descriptor.slot_stride_bytes.value
            + map.descriptor.slot_payload_offset_bytes.value,
        map.descriptor.slot_payload_capacity_bytes.value,
      )
unfolding slot_payload
slot_payload-ok {map} i m h =
    let inside = slot_inside i m h in
    let bound = map.descriptor.mapped_size_bytes.bound in
    let a = mul_overflows_u64-fits i (map.descriptor.slot_stride_bytes.value) (omega arith) in
    let b =
      add_overflows_u64-fits (map.descriptor.slot_region_offset_bytes.value)
        (i * map.descriptor.slot_stride_bytes.value) (omega arith) in
    let c =
      add_overflows_u64-fits
        (map.descriptor.slot_region_offset_bytes.value + i * map.descriptor.slot_stride_bytes.value)
        (map.descriptor.slot_payload_offset_bytes.value) (omega arith) in
    rw (present i m h, a, b, c) (ground arith)

outside : (mapped : Bool) (n j : ℕ) → (not mapped || leb n j) ≡ false → j < n
outside mapped n j e = ground arith

-- Every slot of a ring that was mapped has its header and its payload where the layout says, the payload
-- behind the header, and both inside the mapped file.
pub slot_inside_file :
    (d : MtlWorkerSharedMemoryRingDescriptor) (fd_is_valid : Bool) (fstat : Option ℕ)
    (mmap : Option (List MtlWorkerSharedMemorySlotHeader)) (map : MtlWorkerSharedMemoryRingMap)
    (i : ℕ)
    → map_from_descriptor d fd_is_valid fstat mmap ≡ ok map
    → i < map.descriptor.slot_count.value
    → (file_size : ℕ) × (fstat ≡ some file_size)
      × ((header payload : ℕ) × (slot_header map i ≡ ok header)
          × (slot_payload map i ≡ ok (payload, map.descriptor.slot_payload_capacity_bytes.value))
          × (header + header_size ≤ payload)
          × (payload + map.descriptor.slot_payload_capacity_bytes.value ≤ file_size))
slot_inside_file d fd_is_valid fstat mmap map i e h =
    let (file_size, f, m) = map_from_descriptor-IsMapped d fd_is_valid fstat mmap e in
    let inside = slot_inside i m h in
    (file_size, f, (_, _, slot_header-ok i m h, slot_payload-ok i m h, omega arith, omega arith))

-- A slot whose header is found is one of the ring's.
slot_header-present :
    (map : MtlWorkerSharedMemoryRingMap) (j : ℕ) {header : ℕ}
    → slot_header map j ≡ ok header
    → j < map.descriptor.slot_count.value
unfolding slot_header
slot_header-present map j e =
    let c =
      chain_ok (reject (not map.mapped || leb (map.descriptor.slot_count.value) j) invalid_value) _
        e in
    outside (map.mapped) _ _ (reject-ok _ invalid_value (c.1))

-- The slots of a ring that was mapped do not overlap: a slot's payload ends where the header of a later
-- slot begins, or before.
pub slots_apart :
    (d : MtlWorkerSharedMemoryRingDescriptor) (fd_is_valid : Bool) (fstat : Option ℕ)
    (mmap : Option (List MtlWorkerSharedMemorySlotHeader)) (map : MtlWorkerSharedMemoryRingMap)
    (i j payload capacity header : ℕ)
    → map_from_descriptor d fd_is_valid fstat mmap ≡ ok map
    → i < j
    → slot_payload map i ≡ ok (payload, capacity)
    → slot_header map j ≡ ok header
    → payload + capacity ≤ header
slots_apart d fd_is_valid fstat mmap map i j payload capacity header e h p q =
    let (file_size, f, m) = map_from_descriptor-IsMapped d fd_is_valid fstat mmap e in
    let k = slot_header-present map j q in
    let apart : suc i * map.descriptor.slot_stride_bytes.value
        ≤ j * map.descriptor.slot_stride_bytes.value =
      mul-le-mul_right (map.descriptor.slot_stride_bytes.value) (omega arith) in
    let a = ok_injective (sym p ∙ slot_payload-ok i m (omega arith)) in
    let b = ok_injective (sym q ∙ slot_header-ok j m k) in
    let payload_at = ap (λ (x : ℕ × ℕ). x.0) a in
    let capacity_is = ap (λ (x : ℕ × ℕ). x.1) a in grind arith
