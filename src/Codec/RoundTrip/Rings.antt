-- ===== src/Codec/RoundTrip/Rings.antt =====
-- The reader of the ring descriptors undoes their writer: what the writer has tested, the reader's tests
-- pass.
use st2110_obs_plugin.Base.{
  ◌≡◌, refl, true, false, ◌||◌, ltb, List, [], ◌∷◌, length, ok, reject, invalid_value, arith,
  chain_ok, require-ok, reject-ok, ltb→le,
}
use st2110_obs_plugin.Word.{word}
use st2110_obs_plugin.Protocol.{
  MtlWorkerMediaKind, is_video, is_audio, max_shared_memory_ring_descriptors,
  MtlWorkerSharedMemoryRingDescriptor, validate_shared_memory_ring_descriptor, require_ring_fields,
  has_bad_field,
}
use st2110_obs_plugin.Codec.Writer.{Writer, write_u32}
use st2110_obs_plugin.Codec.Rings.{
  validate_shared_memory_ring_descriptors, write_shared_memory_ring_descriptor,
  write_shared_memory_ring_descriptors, write_each,
}
use st2110_obs_plugin.Codec.ReadRings.{
  read_worker_media_kind, read_shared_memory_ring_descriptor, read_each,
  read_shared_memory_ring_descriptors,
}
use st2110_obs_plugin.Codec.Reading.{Reads, next, last, closing, checked, built, u32, u64, written}

known_kind :
    (d : MtlWorkerSharedMemoryRingDescriptor)
    → validate_shared_memory_ring_descriptor d ≡ ok tt
    → (is_video d.media_kind || is_audio d.media_kind) ≡ true
unfolding validate_shared_memory_ring_descriptor require_ring_fields
known_kind d e =
    let fields = chain_ok (require_ring_fields d) _ e in
    require-ok _ invalid_value ((chain_ok (reject (has_bad_field d) invalid_value) _ (fields.1)).2)

read_worker_media_kind-Reads :
    (kind : MtlWorkerMediaKind)
    → (is_video kind || is_audio kind) ≡ true
    → Reads read_worker_media_kind (write_u32 kind) kind
unfolding read_worker_media_kind
read_worker_media_kind-Reads kind e = closing _ u32 (checked _ (rw e) built)

read_shared_memory_ring_descriptor-Reads :
    (d : MtlWorkerSharedMemoryRingDescriptor) (w : Writer)
    → write_shared_memory_ring_descriptor d ≡ ok w
    → Reads read_shared_memory_ring_descriptor w d
unfolding read_shared_memory_ring_descriptor write_shared_memory_ring_descriptor
read_shared_memory_ring_descriptor-Reads d w e =
    let v = chain_ok (validate_shared_memory_ring_descriptor d) _ e in
    written (v.2) (
      next _ u64 (
        next _ (read_worker_media_kind-Reads _ (known_kind d (v.1))) (
          next _ u32 (
            next _ u32 (
              next _ u64 (
                next _ u64 (
                  next _ u32
                    (next _ u64 (next _ u64 (closing _ u64 (checked _ (v.1) built)))))))))))

read_each-Reads :
    (ds : List MtlWorkerSharedMemoryRingDescriptor) {w : Writer}
    → write_each ds ≡ ok w
    → Reads (read_each (length ds)) w ds
unfolding read_each write_each
read_each-Reads [] e = written e built
read_each-Reads (d ∷ ds) e =
    let first = chain_ok (write_shared_memory_ring_descriptor d) _ e in
    let behind = chain_ok (write_each ds) _ (first.2) in
    written (behind.2) (
      next _ (read_shared_memory_ring_descriptor-Reads d _ (first.1))
        (last _ (read_each-Reads ds (behind.1)) refl))

-- At most sixteen are valid.
few :
    (ds : List MtlWorkerSharedMemoryRingDescriptor)
    → validate_shared_memory_ring_descriptors ds ≡ ok tt
    → ltb max_shared_memory_ring_descriptors (length ds) ≡ false
unfolding validate_shared_memory_ring_descriptors
few ds e =
    reject-ok _ invalid_value
      ((chain_ok (reject (ltb max_shared_memory_ring_descriptors (length ds)) invalid_value) _ e).1)

count-value :
    (ds : List MtlWorkerSharedMemoryRingDescriptor)
    → validate_shared_memory_ring_descriptors ds ≡ ok tt
    → (word 32 (length ds)).value ≡ length ds
unfolding word
count-value ds e = omega (arith, ltb→le _ _ (few ds e))

pub read_shared_memory_ring_descriptors-Reads :
    (ds : List MtlWorkerSharedMemoryRingDescriptor) {w : Writer}
    → write_shared_memory_ring_descriptors ds ≡ ok w
    → Reads read_shared_memory_ring_descriptors w ds
unfolding read_shared_memory_ring_descriptors write_shared_memory_ring_descriptors
read_shared_memory_ring_descriptors-Reads ds e =
    let valid = chain_ok (validate_shared_memory_ring_descriptors ds) _ e in
    let each = chain_ok (write_each ds) _ (valid.2) in
    let n = count-value ds (valid.1) in
    written (each.2) (
      next _ u32 (
        checked _ (rw (n, few ds (valid.1)) refl)
          (rw n (closing _ (read_each-Reads ds (each.1)) (checked _ (valid.1) built)))))
