-- ===== src/Framing/Send.antt =====
-- libs/st2110core/src/backends/mtl/mtl_worker_ipc_framing.cpp: the writing side. A call of `send` or
-- `sendmsg` is answered by the number of bytes it took, or by its failure.
use st2110_obs_plugin.Base.{
  ℕ, zero, suc, ◌+◌, ◌-◌, Bool, true, false, not, ◌||◌, Option, none, some, List, [], ◌∷◌, ◌++◌,
  length, take, drop, ltb, ◌==◌, if◌then◌else◌, Expected, ok, unexpected, reject, ◌>>◌,
  invalid_value, system_failure, operation_aborted,
}
use st2110_obs_plugin.Word.{word, U8}
use st2110_obs_plugin.Codec.Writer.{byte_at}

-- 1024 * 1024
abbrev pub max_control_frame_bytes : ℕ
max_control_frame_bytes = 1048576

abbrev pub max_ancillary_file_descriptors : ℕ
max_ancillary_file_descriptors = 64

-- A file descriptor is a number, a negative one none.
abbrev pub Descriptor : Type 0
Descriptor = Option ℕ

pub data SendAnswer : Type 0 where
  sent : ℕ → SendAnswer
  interrupted : SendAnswer
  failed : SendAnswer

-- What a run of calls came to: its result, none while it waits; the bytes and the descriptors that the
-- socket took; and the answers that are left.
pub record Sent : Type 0 where
  pub result : Option (Expected (Unit {0}))
  pub stream : List U8
  pub passed : List Descriptor
  pub answers : List SendAnswer

abbrev pub stopped : Option (Expected (Unit {0})) → List SendAnswer → Sent
stopped result answers = record { result = result; stream = []; passed = []; answers = answers }

-- What was taken before stands in front.
abbrev pub behind : List U8 → List Descriptor → Sent → Sent
behind stream passed later = record later {
  stream = stream ++ later.stream;
  passed = passed ++ later.passed;
}

-- The loop over what is left of the bytes.
unfoldable pub write_all : List U8 → List SendAnswer → Sent
write_all [] answers = stopped (some (ok tt)) answers
write_all (x ∷ bytes) [] = stopped none []
write_all (x ∷ bytes) (SendAnswer.interrupted ∷ answers) = write_all (x ∷ bytes) answers
write_all (x ∷ bytes) (SendAnswer.failed ∷ answers) =
    stopped (some (unexpected system_failure)) answers
write_all (x ∷ bytes) (SendAnswer.sent zero ∷ answers) =
    stopped (some (unexpected operation_aborted)) answers
write_all (x ∷ bytes) (SendAnswer.sent (suc n) ∷ answers) =
    behind (x ∷ take n bytes) [] (write_all (drop n bytes) answers)

-- `if (!wrote.has_value()) return std::unexpected(wrote.error());`, and the calls behind it.
unfoldable pub send_after : Option (Expected (Unit {0})) → Sent → (List SendAnswer → Sent) → Sent
send_after (some (ok wrote)) first next = behind first.stream first.passed (next first.answers)
send_after (some (unexpected error)) first next = first
send_after none first next = first

abbrev pub and_then_send : Sent → (List SendAnswer → Sent) → Sent
and_then_send first next = send_after first.result first next

unfoldable pub write_remaining_no_fds : List U8 → List U8 → ℕ → List SendAnswer → Sent
write_remaining_no_fds header payload already_written answers =
    if ltb (length header + length payload) already_written
    then stopped (some (unexpected invalid_value)) answers
    else if ltb already_written (length header)
    then and_then_send (write_all (drop already_written header) answers) (write_all payload)
    else write_all (drop (already_written - length header) payload) answers

unfoldable pub all_valid : List Descriptor → Bool
all_valid [] = true
all_valid (none ∷ later) = false
all_valid (some fd ∷ later) = all_valid later

unfoldable pub validate_outbound_frame :
    Descriptor → List U8 → List Descriptor → Expected (Unit {0})
validate_outbound_frame none payload file_descriptors = unexpected invalid_value
validate_outbound_frame (some fd) payload file_descriptors = do
  reject
      (length payload == 0
        || ltb max_control_frame_bytes (length payload)
        || ltb max_ancillary_file_descriptors (length file_descriptors))
      invalid_value
  reject (not (all_valid file_descriptors)) invalid_value

-- What follows a `sendmsg` that took some bytes.
unfoldable pub after_first : List U8 → List U8 → ℕ → List SendAnswer → Sent
after_first header payload written answers =
    let total_size = length header + length payload in
    if ltb total_size written
    then stopped (some (unexpected system_failure)) answers
    else if ltb written total_size
    then write_remaining_no_fds header payload written answers
    else stopped (some (ok tt)) answers

-- `sendmsg` with the descriptors, until it is not interrupted; then what is left, without them.
unfoldable pub send_frame_with_fds : List U8 → List U8 → List Descriptor → List SendAnswer → Sent
send_frame_with_fds header payload file_descriptors [] = stopped none []
send_frame_with_fds header payload file_descriptors (SendAnswer.interrupted ∷ answers) =
    send_frame_with_fds header payload file_descriptors answers
send_frame_with_fds header payload file_descriptors (SendAnswer.failed ∷ answers) =
    stopped (some (unexpected system_failure)) answers
send_frame_with_fds header payload file_descriptors (SendAnswer.sent zero ∷ answers) =
    stopped (some (unexpected operation_aborted)) answers
send_frame_with_fds header payload file_descriptors (SendAnswer.sent (suc n) ∷ answers) =
    behind (take (suc n) (header ++ payload)) file_descriptors
      (after_first header payload (suc n) answers)

-- `encode_u32_be`
unfoldable pub encode_u32_be : ℕ → List U8
encode_u32_be n = let v = word 32 n in byte_at 24 v ∷ byte_at 16 v ∷ byte_at 8 v ∷ byte_at 0 v ∷ []

unfoldable pub send_frame : List U8 → List U8 → List Descriptor → List SendAnswer → Sent
send_frame header payload [] answers = and_then_send (write_all header answers) (write_all payload)
send_frame header payload (fd ∷ fds) answers = send_frame_with_fds header payload (fd ∷ fds) answers

-- `if (!valid.has_value()) return std::unexpected(valid.error());`, and the sending behind it.
unfoldable pub send_validated :
    Expected (Unit {0}) → List U8 → List Descriptor → List SendAnswer → Sent
send_validated (ok valid) payload file_descriptors answers =
    send_frame (encode_u32_be (length payload)) payload file_descriptors answers
send_validated (unexpected error) payload file_descriptors answers =
    stopped (some (unexpected error)) answers

unfoldable pub write_mtl_worker_control_frame_with_fds :
    Descriptor → List U8 → List Descriptor → List SendAnswer → Sent
write_mtl_worker_control_frame_with_fds fd payload file_descriptors answers =
    send_validated (validate_outbound_frame fd payload file_descriptors) payload file_descriptors
      answers
