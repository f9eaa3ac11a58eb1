-- ===== src/Tests/Framing.antt =====
-- Runs of the frames of mtl_worker_ipc_framing.cpp.
use st2110_obs_plugin.Base.{◌≡◌, refl, some, List, [], ◌∷◌, length, ok, ◌++◌, arith, true, false}
use st2110_obs_plugin.Word.{word, U8}
use st2110_obs_plugin.Framing.Send.{
  SendAnswer, encode_u32_be, validate_outbound_frame, send_validated, send_frame, all_valid,
  send_frame_with_fds, after_first, write_remaining_no_fds, write_all, send_after,
  write_mtl_worker_control_frame_with_fds,
}
use st2110_obs_plugin.Framing.Sending.{Progress, write_frame-Progress}
use st2110_obs_plugin.Framing.Receive.{
  ControlMessage, ReadAnswer, read_mtl_worker_control_frame_with_fds, nothing_received,
  read_validated, after_header, read_all, after_append, append_received_fds, append_messages,
  close_fds,
}
use st2110_obs_plugin.Framing.Descriptors.{
  Accounted, OnlyRights, AllRights, arriving, occurrences, read_frame-Accounted,
}
use st2110_obs_plugin.Framing.Receiving.{Part, joined, answers_of, read_frame-write_frame}
use st2110_obs_plugin.Framing.Passing.{PassedOnce, write_frame-PassedOnce}

abbrev payload : List U8
payload = word 8 1 ∷ word 8 2 ∷ word 8 3 ∷ []

-- An interruption, a part of the length, the rest of it, and the payload in two parts.
abbrev answers : List SendAnswer
answers =
    SendAnswer.interrupted
    ∷ SendAnswer.sent 3
    ∷ SendAnswer.sent 1
    ∷ SendAnswer.sent 2
    ∷ SendAnswer.sent 1
    ∷ []

sent_in_parts :
    write_mtl_worker_control_frame_with_fds (some 5) payload (some 9 ∷ []) answers ≡ record {
      result = some (ok tt);
      stream = encode_u32_be 3 ++ payload;
      passed = some 9 ∷ [];
      answers = [];
    }
unfolding write_mtl_worker_control_frame_with_fds validate_outbound_frame send_validated send_frame
    send_frame_with_fds after_first write_remaining_no_fds write_all send_after encode_u32_be
    all_valid
sent_in_parts = refl

write_frame-Progress_example :
    Progress
      (encode_u32_be (length payload) ++ payload)
      (write_mtl_worker_control_frame_with_fds (some 5) payload (some 9 ∷ []) answers)
write_frame-Progress_example = write_frame-Progress (some 5) payload (some 9 ∷ []) answers

write_frame-PassedOnce_example :
    PassedOnce
      (some 9 ∷ [])
      (write_mtl_worker_control_frame_with_fds (some 5) payload (some 9 ∷ []) answers)
write_frame-PassedOnce_example = write_frame-PassedOnce (some 5) payload (some 9 ∷ []) answers

-- The length, with a descriptor and one more that cannot be kept open, and half of the payload.
abbrev arrivals : List ReadAnswer
arrivals =
    ReadAnswer.received (word 8 0) (word 8 0 ∷ word 8 0 ∷ word 8 2 ∷ [])
      (ControlMessage.rights (
          record { number = 7; close_on_exec = true }
          ∷ record { number = 8; close_on_exec = true }
          ∷ [])
        ∷ [])
      false
    ∷ ReadAnswer.received (word 8 1) [] [] false
    ∷ ReadAnswer.ended
    ∷ []

arrivals-AllRights : AllRights arrivals
unfolding AllRights OnlyRights
arrivals-AllRights = (tt, (tt, tt))

read_frame-Accounted_example :
    Accounted 7
      (occurrences 7 (arriving arrivals))
      (read_mtl_worker_control_frame_with_fds (some 5) 64 1 arrivals)
read_frame-Accounted_example = read_frame-Accounted 7 (some 5) 64 1 arrivals arrivals-AllRights

-- The descriptor 7 stands behind a message of another kind: it is neither owned nor closed.
leaked :
    (read_mtl_worker_control_frame_with_fds (some 5) 64 1 (
      ReadAnswer.received
        (word 8 0)
        []
        (ControlMessage.other
          ∷ ControlMessage.rights (record { number = 7; close_on_exec = true } ∷ [])
          ∷ [])
        false
      ∷ [])).account
    ≡ nothing_received
unfolding read_mtl_worker_control_frame_with_fds read_validated after_header read_all after_append
    append_received_fds append_messages close_fds
leaked = refl

abbrev in_full : List SendAnswer
in_full = SendAnswer.sent 4 ∷ SendAnswer.sent 3 ∷ []

abbrev header_parts : List Part
header_parts = (word 8 0, word 8 0 ∷ []) ∷ (word 8 0, word 8 3 ∷ []) ∷ []

abbrev payload_parts : List Part
payload_parts = (word 8 1, []) ∷ (word 8 2, word 8 3 ∷ []) ∷ []

in_full_sent :
    (write_mtl_worker_control_frame_with_fds (some 5) payload [] in_full).result ≡ some (ok tt)
unfolding write_mtl_worker_control_frame_with_fds validate_outbound_frame send_validated send_frame
    all_valid write_all send_after encode_u32_be
in_full_sent = refl

parts_joined :
    joined header_parts ++ joined payload_parts
    ≡ (write_mtl_worker_control_frame_with_fds (some 5) payload [] in_full).stream
unfolding write_mtl_worker_control_frame_with_fds validate_outbound_frame send_validated send_frame
    all_valid write_all send_after encode_u32_be joined word
parts_joined = refl

header_joined : length (joined header_parts) ≡ 4
unfolding joined
header_joined = refl

read_frame-write_frame_example :
    read_mtl_worker_control_frame_with_fds
      (some 6)
      1024
      0
      (answers_of header_parts (answers_of payload_parts []))
    ≡ record { result = some (ok payload); account = nothing_received; answers = [] }
read_frame-write_frame_example =
    read_frame-write_frame 5 6 payload in_full 1024 0 header_parts payload_parts [] in_full_sent
      parts_joined header_joined (omega arith) (omega arith) (omega arith) (omega arith)
