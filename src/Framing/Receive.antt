-- ===== src/Framing/Receive.antt =====
-- libs/st2110core/src/backends/mtl/mtl_worker_ipc_framing.cpp: the reading side, and the descriptors
-- that a call owns or has closed. A call of `recvmsg` is answered by bytes with control messages beside
-- them, by the end of the stream, or by its failure. read_mtl_worker_control_frame_with_fds has tested the
-- arguments that read_all_with_fds tests once more.
use st2110_obs_plugin.Base.{
  ℕ, zero, suc, ◌+◌, ◌-◌, ◌*◌, ◌^◌, Bool, true, false, not, ◌||◌, Option, none, some, List, [], ◌∷◌,
  ◌++◌, length, take, ltb, leb, ◌==◌, if◌then◌else◌, Expected, ok, unexpected, Error, reject, ◌>>◌,
  invalid_value, unsupported, system_failure, operation_aborted,
}
use st2110_obs_plugin.Word.{U8}
use st2110_obs_plugin.Framing.Send.{Descriptor, max_ancillary_file_descriptors}

-- A descriptor that the kernel has installed, and whether `fcntl` sets its close-on-exec flag.
pub record Installed : Type 0 where
  pub number : ℕ
  pub close_on_exec : Bool

-- `misfit` has a length that is not one of whole descriptors.
pub data ControlMessage : Type 0 where
  rights : List Installed → ControlMessage
  misfit : ControlMessage
  other : ControlMessage

-- `received` has the bytes, at least one, and whether MSG_CTRUNC or MSG_TRUNC is set.
pub data ReadAnswer : Type 0 where
  received : U8 → List U8 → List ControlMessage → Bool → ReadAnswer
  ended : ReadAnswer
  interrupted : ReadAnswer
  failed : ReadAnswer

-- The descriptors that the call owns and those that it has closed, with the two flags of the loop.
pub record Account : Type 0 where
  pub owned : List ℕ
  pub closed : List ℕ
  pub too_many_descriptors : Bool
  pub close_on_exec_failed : Bool

unfoldable pub append_fd : ℕ → Installed → Account → Account
append_fd max fd account =
    if leb max (length account.owned)
    then record account { closed = fd.number ∷ account.closed; too_many_descriptors = true }
    else if not fd.close_on_exec
    then record account { closed = fd.number ∷ account.closed; close_on_exec_failed = true }
    else record account { owned = account.owned ++ fd.number ∷ [] }

unfoldable pub append_fds : ℕ → List Installed → Account → Account
append_fds max [] account = account
append_fds max (fd ∷ fds) account = append_fds max fds (append_fd max fd account)

-- The two tests behind the loop.
unfoldable pub verdict : Account → Expected (Unit {0})
verdict account = do
  reject account.close_on_exec_failed system_failure
  reject account.too_many_descriptors invalid_value

-- Each control message in turn; the first of another kind ends the loop.
unfoldable pub append_messages : ℕ → List ControlMessage → Account → Expected (Unit {0}) × Account
append_messages max [] account = (verdict account, account)
append_messages max (ControlMessage.rights fds ∷ messages) account =
    append_messages max messages (append_fds max fds account)
append_messages max (ControlMessage.misfit ∷ messages) account = (unexpected invalid_value, account)
append_messages max (ControlMessage.other ∷ messages) account = (unexpected unsupported, account)

unfoldable pub append_received_fds :
    ℕ → List ControlMessage → Account → Expected (Unit {0}) × Account
append_received_fds max messages account =
    append_messages max messages
      (record account { too_many_descriptors = false; close_on_exec_failed = false })

-- What a run of calls came to: its result, none while it waits, and the bytes it was given.
pub record Read : Type 0 where
  pub result : Option (Expected (Unit {0}))
  pub bytes : List U8
  pub account : Account
  pub answers : List ReadAnswer

abbrev pub halted : Option (Expected (Unit {0})) → Account → List ReadAnswer → Read
halted result account answers = record {
  result = result;
  bytes = [];
  account = account;
  answers = answers;
}

-- What follows `append_received_fds`, with the flags of the message; `later` is the rest of the loop.
unfoldable pub after_append :
    Expected (Unit {0}) → Bool → Account → List ReadAnswer → List U8 → Read → Read
after_append (unexpected error) truncated account answers bytes later =
    halted (some (unexpected error)) account answers
after_append (ok appended) true account answers bytes later =
    halted (some (unexpected invalid_value)) account answers
after_append (ok appended) false account answers bytes later = record later {
  bytes = bytes ++ later.bytes;
}

-- The loop over the `size` bytes that are missing.
unfoldable pub read_all : ℕ → ℕ → List ReadAnswer → Account → Read
read_all max zero answers account = halted (some (ok tt)) account answers
read_all max (suc size) [] account = halted none account []
read_all max (suc size) (ReadAnswer.interrupted ∷ answers) account =
    read_all max (suc size) answers account
read_all max (suc size) (ReadAnswer.failed ∷ answers) account =
    halted (some (unexpected system_failure)) account answers
read_all max (suc size) (ReadAnswer.ended ∷ answers) account =
    halted (some (unexpected operation_aborted)) account answers
read_all max (suc size) (ReadAnswer.received b bytes messages truncated ∷ answers) account =
    let appended = append_received_fds max messages account in
    let later = read_all max (size - length bytes) answers (appended.1) in
    after_append (appended.0) truncated (appended.1) answers (b ∷ take size bytes) later

unfoldable pub decode_u32_be : List U8 → ℕ
decode_u32_be (a ∷ b ∷ c ∷ d ∷ _) = a.value * 2 ^ 24 + b.value * 2 ^ 16 + c.value * 2 ^ 8 + d.value
decode_u32_be _ = 0

-- The payload, or the error; the descriptors; and the answers that are left.
pub record ReadFrame : Type 0 where
  pub result : Option (Expected (List U8))
  pub account : Account
  pub answers : List ReadAnswer

-- `close_fds_noexcept(received_fds); return std::unexpected(error);`
unfoldable pub close_fds : Error → Account → List ReadAnswer → ReadFrame
close_fds error account answers = record {
  result = some (unexpected error);
  account = record account { owned = []; closed = account.owned ++ account.closed };
  answers = answers;
}

unfoldable pub after_payload : Option (Expected (Unit {0})) → Read → ReadFrame
after_payload none run = record { result = none; account = run.account; answers = run.answers }
after_payload (some (unexpected error)) run = close_fds error run.account run.answers
after_payload (some (ok read)) run = record {
  result = some (ok run.bytes);
  account = run.account;
  answers = run.answers;
}

unfoldable pub read_payload : ℕ → ℕ → ℕ → Read → ReadFrame
read_payload max_frame_bytes max payload_size header =
    if payload_size == 0 || ltb max_frame_bytes payload_size
    then close_fds invalid_value header.account header.answers
    else let run = read_all max payload_size header.answers header.account in
      after_payload run.result run

unfoldable pub after_header : ℕ → ℕ → Option (Expected (Unit {0})) → Read → ReadFrame
after_header max_frame_bytes max none run = record {
  result = none;
  account = run.account;
  answers = run.answers;
}
after_header max_frame_bytes max (some (unexpected error)) run =
    close_fds error run.account run.answers
after_header max_frame_bytes max (some (ok read)) run =
    read_payload max_frame_bytes max (decode_u32_be run.bytes) run

abbrev pub nothing_received : Account
nothing_received = record {
  owned = [];
  closed = [];
  too_many_descriptors = false;
  close_on_exec_failed = false;
}

unfoldable pub read_validated : Bool → ℕ → ℕ → List ReadAnswer → ReadFrame
read_validated true max_frame_bytes max answers = close_fds invalid_value nothing_received answers
read_validated false max_frame_bytes max answers =
    let run = read_all max 4 answers nothing_received in
    after_header max_frame_bytes max run.result run

abbrev pub no_descriptor : Descriptor → Bool
no_descriptor none = true
no_descriptor (some fd) = false

unfoldable pub read_mtl_worker_control_frame_with_fds :
    Descriptor → ℕ → ℕ → List ReadAnswer → ReadFrame
read_mtl_worker_control_frame_with_fds fd max_frame_bytes max answers =
    read_validated
      (no_descriptor fd || (max_frame_bytes == 0) || ltb max_ancillary_file_descriptors max)
      max_frame_bytes max answers
