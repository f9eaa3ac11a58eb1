-- ===== src/Framing/Receiving.antt =====
-- A frame that was written is read, in whatever pieces it arrives.
use mathlib.Core.List.{append-nil}
use st2110_obs_plugin.Base.{
  ◌≡◌, refl, sym, ◌∙◌, ap, zero, suc, ◌-◌, ◌≤◌, ◌<◌, ◌^◌, ap₂, ℕ, false, some, List, [], ◌∷◌,
  length, take, drop, ◌++◌, ltb, ◌==◌, ◌||◌, ok, arith, length-append,
}
use st2110_obs_plugin.Word.{U8, word}
use st2110_obs_plugin.Framing.Send.{
  SendAnswer, encode_u32_be, max_ancillary_file_descriptors,
  write_mtl_worker_control_frame_with_fds,
}
use st2110_obs_plugin.Framing.Sending.{write_frame-Progress}
use st2110_obs_plugin.Framing.Receive.{
  ReadAnswer, append_messages, append_received_fds, verdict, after_append, read_all, after_payload,
  read_payload, after_header, read_validated, nothing_received, decode_u32_be,
  read_mtl_worker_control_frame_with_fds,
}

-- What one call is given: a byte, and more.
abbrev pub Part : Type 0
Part = U8 × List U8

unfoldable pub joined : List Part → List U8
joined [] = []
joined (part ∷ parts) = (part.0 ∷ part.1) ++ joined parts

-- No descriptors come with them.
unfoldable pub answers_of : List Part → List ReadAnswer → List ReadAnswer
answers_of [] rest = rest
answers_of (part ∷ parts) rest =
    ReadAnswer.received (part.0) (part.1) [] false ∷ answers_of parts rest

take_beyond : (n : ℕ) (xs : List U8) → length xs ≤ n → take n xs ≡ xs
take_beyond zero [] h = refl
take_beyond (suc n) [] h = refl
take_beyond zero (x ∷ xs) h = absurd (omega arith)
take_beyond (suc n) (x ∷ xs) h = ap (◌∷◌ x) (take_beyond n xs (omega arith))

read_all-parts :
    (max : ℕ) (parts : List Part) (rest : List ReadAnswer)
    → read_all max (length (joined parts)) (answers_of parts rest) nothing_received ≡ record {
      result = some (ok tt);
      bytes = joined parts;
      account = nothing_received;
      answers = rest;
    }
unfolding read_all joined answers_of append_received_fds append_messages verdict after_append
read_all-parts max [] rest = refl
read_all-parts max (part ∷ parts) rest =
    let left : length (part.1 ++ joined parts) - length (part.1) ≡ length (joined parts) =
      omega (arith, length-append (part.1) (joined parts)) in
    let whole : take (length (part.1 ++ joined parts)) (part.1) ≡ part.1 =
      take_beyond _ (part.1) (omega (arith, length-append (part.1) (joined parts))) in
    rw left (rw (read_all-parts max parts rest) (rw whole refl))

decode-encode : (n : ℕ) → n < 2 ^ 32 → decode_u32_be (encode_u32_be n) ≡ n
unfolding decode_u32_be encode_u32_be word
decode-encode n h = omega arith

-- The length in front of the payload is split off by its size.
split_at_header :
    (front back header payload : List U8)
    → front ++ back ≡ header ++ payload
    → length front ≡ length header
    → (front ≡ header) × (back ≡ payload)
split_at_header [] back [] payload e l = (refl, e)
split_at_header [] back (y ∷ header) payload e l = absurd (omega arith)
split_at_header (x ∷ front) back [] payload e l = absurd (omega arith)
split_at_header (x ∷ front) back (y ∷ header) payload e l =
    let later = split_at_header front back header payload (ap (drop 1) e) (omega arith) in
    let same : x ≡ y = cc in (ap₂ ◌∷◌ same (later.0), later.1)

read_frame-parts :
    (reader max_frame_bytes max : ℕ) (payload : List U8) (header_parts payload_parts : List Part)
    (rest : List ReadAnswer)
    → joined header_parts ≡ encode_u32_be (length payload)
    → joined payload_parts ≡ payload
    → 0 < length payload
    → length payload ≤ max_frame_bytes
    → max_frame_bytes < 2 ^ 32
    → max ≤ max_ancillary_file_descriptors
    → read_mtl_worker_control_frame_with_fds
        (some reader)
        max_frame_bytes
        max
        (answers_of header_parts (answers_of payload_parts rest))
      ≡ record { result = some (ok payload); account = nothing_received; answers = rest }
unfolding read_mtl_worker_control_frame_with_fds read_validated after_header read_payload
    after_payload encode_u32_be
read_frame-parts reader max_frame_bytes max payload header_parts payload_parts rest eh ep positive
      fits small few =
    let open_ : (max_frame_bytes == 0 || ltb max_ancillary_file_descriptors max) ≡ false =
      ground arith in
    let accepted : (length payload == 0 || ltb max_frame_bytes (length payload)) ≡ false =
      ground arith in
    let header_read = read_all-parts max header_parts (answers_of payload_parts rest) in
    let payload_read = read_all-parts max payload_parts rest in
    rw open_ (
      rw (rw eh at header_read) (
        rw (decode-encode (length payload) (omega arith))
          (rw accepted (rw (rw ep at payload_read) refl))))

-- A frame that was written without descriptors, however the socket took it, is read: where the other
-- end is given the same bytes, in any parts of which none reaches from the length into the payload, and
-- the payload is not empty and not above the reader's limit, reading returns the payload, owns and
-- closes no descriptor, and takes no later answer.
pub read_frame-write_frame :
    (writer reader : ℕ) (payload : List U8) (sends : List SendAnswer) (max_frame_bytes max : ℕ)
    (header_parts payload_parts : List Part) (rest : List ReadAnswer)
    → (write_mtl_worker_control_frame_with_fds (some writer) payload [] sends).result ≡ some (ok tt)
    → joined header_parts ++ joined payload_parts
      ≡ (write_mtl_worker_control_frame_with_fds (some writer) payload [] sends).stream
    → length (joined header_parts) ≡ 4
    → 0 < length payload
    → length payload ≤ max_frame_bytes
    → max_frame_bytes < 2 ^ 32
    → max ≤ max_ancillary_file_descriptors
    → read_mtl_worker_control_frame_with_fds
        (some reader)
        max_frame_bytes
        max
        (answers_of header_parts (answers_of payload_parts rest))
      ≡ record { result = some (ok payload); account = nothing_received; answers = rest }
unfolding encode_u32_be
read_frame-write_frame writer reader payload sends max_frame_bytes max header_parts payload_parts
      rest done same four positive fits small few =
    let run = write_mtl_worker_control_frame_with_fds (some writer) payload [] sends in
    let progress = write_frame-Progress (some writer) payload [] sends in
    let whole : run.stream ≡ encode_u32_be (length payload) ++ payload =
      sym (append-nil run.stream)
      ∙ ap (λ ys. run.stream ++ ys) (sym (progress.complete done))
      ∙ progress.in_order in
    let split =
      split_at_header (joined header_parts) (joined payload_parts) (encode_u32_be (length payload))
        payload (same ∙ whole) four in
    read_frame-parts reader max_frame_bytes max payload header_parts payload_parts rest (split.0)
      (split.1) positive fits small few
