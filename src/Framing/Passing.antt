-- ===== src/Framing/Passing.antt =====
-- File descriptors go with the first bytes, and never with later ones.
use st2110_obs_plugin.Base.{
  ◌≡◌, refl, zero, suc, ◌+◌, ℕ, Option, none, some, List, [], ◌∷◌, length, take, ◌++◌, drop, ltb,
  Expected, ok, unexpected, Bool-cases, ◌⊎◌, inl, inr,
}
use mathlib.Core.List.{append-nil}
use st2110_obs_plugin.Word.{U8}
use st2110_obs_plugin.Framing.Send.{
  Descriptor, SendAnswer, Sent, stopped, behind, write_all, send_after, write_remaining_no_fds,
  send_frame_with_fds, after_first, send_frame, send_validated,
  write_mtl_worker_control_frame_with_fds, validate_outbound_frame,
}
use st2110_obs_plugin.Framing.Sending.{IsSent, error-unsent, waiting-unsent}

-- The descriptors that were passed are none or all, each once, and all of them where the run succeeded.
pub record PassedOnce (file_descriptors : List Descriptor) (run : Sent) : Type 0 where
  pub at_most_once : (run.passed ≡ []) ⊎ (run.passed ≡ file_descriptors)
  pub when_sent : IsSent run.result → run.passed ≡ file_descriptors

write_all-passed :
    (bytes : List U8) (answers : List SendAnswer) → (write_all bytes answers).passed ≡ []
unfolding write_all
write_all-passed [] answers = refl
write_all-passed (x ∷ bytes) [] = refl
write_all-passed (x ∷ bytes) (SendAnswer.interrupted ∷ answers) =
    write_all-passed (x ∷ bytes) answers
write_all-passed (x ∷ bytes) (SendAnswer.failed ∷ answers) = refl
write_all-passed (x ∷ bytes) (SendAnswer.sent zero ∷ answers) = refl
write_all-passed (x ∷ bytes) (SendAnswer.sent (suc n) ∷ answers) =
    write_all-passed (drop n bytes) answers

send_after-passed :
    (result : Option (Expected (Unit {0}))) (run : Sent) (second : List U8)
    → run.passed ≡ []
    → (send_after result run (write_all second)).passed ≡ []
unfolding send_after
send_after-passed (some (ok wrote)) run second e = rw e (write_all-passed second run.answers)
send_after-passed (some (unexpected error)) run second e = e
send_after-passed none run second e = e

write_remaining-passed :
    (header payload : List U8) (written : ℕ) (answers : List SendAnswer)
    → (write_remaining_no_fds header payload written answers).passed ≡ []
unfolding write_remaining_no_fds
write_remaining-passed header payload written answers =
    elim (Bool-cases (ltb (length header + length payload) written)) [
      | inl over ↦ rw over refl
      | inr fits ↦ rw fits (elim (Bool-cases (ltb written (length header))) [
        | inl inside ↦
            rw inside
              (send_after-passed _ _ payload (write_all-passed (drop written header) answers))
        | inr past ↦ rw past (write_all-passed _ answers)
      ])
    ]

unsent-PassedOnce :
    (fds : List Descriptor) (result : Option (Expected (Unit {0}))) (answers : List SendAnswer)
    → ¬ IsSent result
    → PassedOnce fds (stopped result answers)
unsent-PassedOnce fds result answers h = record {
  at_most_once = inl refl;
  when_sent = λ e. absurd (h e);
}

-- With all of them passed first, none may follow.
first-PassedOnce :
    (fds : List Descriptor) (bytes : List U8) (later : Sent)
    → later.passed ≡ []
    → PassedOnce fds (behind bytes fds later)
first-PassedOnce fds bytes later e =
    let all : (behind bytes fds later).passed ≡ fds = rw e (append-nil fds) in
    record { at_most_once = inr all; when_sent = λ sent. all }

after_first-passed :
    (header payload : List U8) (written : ℕ) (answers : List SendAnswer)
    → (after_first header payload written answers).passed ≡ []
unfolding after_first
after_first-passed header payload written answers =
    elim (Bool-cases (ltb (length header + length payload) written)) [
      | inl over ↦ rw over refl
      | inr fits ↦ rw fits (elim (Bool-cases (ltb written (length header + length payload))) [
        | inl short ↦ rw short (write_remaining-passed header payload written answers)
        | inr all ↦ rw all refl
      ])
    ]

send_with_fds-PassedOnce :
    (header payload : List U8) (fds : List Descriptor) (answers : List SendAnswer)
    → PassedOnce fds (send_frame_with_fds header payload fds answers)
unfolding send_frame_with_fds
send_with_fds-PassedOnce header payload fds [] = unsent-PassedOnce fds none [] waiting-unsent
send_with_fds-PassedOnce header payload fds (SendAnswer.interrupted ∷ answers) =
    send_with_fds-PassedOnce header payload fds answers
send_with_fds-PassedOnce header payload fds (SendAnswer.failed ∷ answers) =
    unsent-PassedOnce fds _ answers (error-unsent _)
send_with_fds-PassedOnce header payload fds (SendAnswer.sent zero ∷ answers) =
    unsent-PassedOnce fds _ answers (error-unsent _)
send_with_fds-PassedOnce header payload fds (SendAnswer.sent (suc n) ∷ answers) =
    first-PassedOnce fds (take (suc n) (header ++ payload))
      (after_first header payload (suc n) answers)
      (after_first-passed header payload (suc n) answers)

send_frame-PassedOnce :
    (header payload : List U8) (fds : List Descriptor) (answers : List SendAnswer)
    → PassedOnce fds (send_frame header payload fds answers)
unfolding send_frame
send_frame-PassedOnce header payload [] answers =
    let passed = send_after-passed _ _ payload (write_all-passed header answers) in
    record { at_most_once = inl passed; when_sent = λ e. passed }
send_frame-PassedOnce header payload (fd ∷ fds) answers =
    send_with_fds-PassedOnce header payload (fd ∷ fds) answers

send_validated-PassedOnce :
    (valid : Expected (Unit {0})) (payload : List U8) (fds : List Descriptor)
    (answers : List SendAnswer)
    → PassedOnce fds (send_validated valid payload fds answers)
unfolding send_validated
send_validated-PassedOnce (ok valid) payload fds answers =
    send_frame-PassedOnce _ payload fds answers
send_validated-PassedOnce (unexpected error) payload fds answers =
    unsent-PassedOnce fds _ answers (error-unsent error)

-- However often the socket is interrupted or takes only a part of a frame, the descriptors of the frame
-- are passed together and at most once, and where the call succeeds they have been passed.
pub write_frame-PassedOnce :
    (fd : Descriptor) (payload : List U8) (file_descriptors : List Descriptor)
    (answers : List SendAnswer)
    → PassedOnce file_descriptors
        (write_mtl_worker_control_frame_with_fds fd payload file_descriptors answers)
unfolding write_mtl_worker_control_frame_with_fds
write_frame-PassedOnce fd payload file_descriptors answers =
    send_validated-PassedOnce (validate_outbound_frame fd payload file_descriptors) payload
      file_descriptors answers
