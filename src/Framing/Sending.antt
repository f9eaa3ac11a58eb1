-- ===== src/Framing/Sending.antt =====
-- What the socket has taken is a beginning of the frame, and all of it where the call succeeds.
use mathlib.Core.List.{append_assoc, append-nil}
use st2110_obs_plugin.Base.{
  ◌≢◌, ap₂, drop-append_le, drop-append_ge, drop_beyond, length-append, ℕ, zero, suc, ◌+◌, ◌≤◌, ◌≡◌,
  refl, sym, ap, ◌∙◌, Option, none, some, List, [], ◌∷◌, ◌++◌, length, take, drop, ltb, Expected,
  ok, unexpected, Error, arith, Bool-cases, inl, inr, take-append-drop, ltb→le,
}
use st2110_obs_plugin.Word.{U8}
use st2110_obs_plugin.Framing.Send.{
  Descriptor, SendAnswer, Sent, stopped, behind, write_all, send_after, write_remaining_no_fds,
  send_frame_with_fds, after_first, send_frame, send_validated, encode_u32_be,
  write_mtl_worker_control_frame_with_fds, validate_outbound_frame,
}

-- What was taken, with what was not, is the bytes; nothing is left where the run succeeded.
pub record Progress (bytes : List U8) (run : Sent) : Type 0 where
  pub left : List U8
  pub in_order : run.stream ++ left ≡ bytes
  pub complete : run.result ≡ some (ok tt) → left ≡ []

write_all-Progress :
    (bytes : List U8) (answers : List SendAnswer) → Progress bytes (write_all bytes answers)
unfolding write_all
write_all-Progress [] answers = record { left = []; in_order = refl; complete = λ e. refl }
write_all-Progress (x ∷ bytes) [] = record {
  left = x ∷ bytes;
  in_order = refl;
  complete = λ e. absurd (ground arith);
}
write_all-Progress (x ∷ bytes) (SendAnswer.interrupted ∷ answers) =
    write_all-Progress (x ∷ bytes) answers
write_all-Progress (x ∷ bytes) (SendAnswer.failed ∷ answers) = record {
  left = x ∷ bytes;
  in_order = refl;
  complete = λ e. absurd (ground arith);
}
write_all-Progress (x ∷ bytes) (SendAnswer.sent zero ∷ answers) = record {
  left = x ∷ bytes;
  in_order = refl;
  complete = λ e. absurd (ground arith);
}
write_all-Progress (x ∷ bytes) (SendAnswer.sent (suc n) ∷ answers) =
    let later = write_all-Progress (drop n bytes) answers in
    record {
      left = later.left;
      in_order = ap (◌∷◌ x) (
          append_assoc (take n bytes) _ _
          ∙ ap (λ ys. take n bytes ++ ys) later.in_order
          ∙ take-append-drop n bytes);
      complete = later.complete;
    }

-- A run that did not succeed leaves what was to come behind it.
not_done :
    (first second : List U8) (run : Sent)
    → Progress first run
    → run.result ≢ some (ok tt)
    → Progress (first ++ second) run
not_done first second run p h = record {
  left = p.left ++ second;
  in_order = sym (append_assoc run.stream p.left second) ∙ ap (λ ys. ys ++ second) p.in_order;
  complete = λ e. absurd (h e);
}

-- The result that a whole frame has, and no other has.
abbrev pub IsSent : Option (Expected (Unit {0})) → Type 0
IsSent result = result ≡ some (ok tt)

pub error-unsent : (error : Error) → ¬ IsSent (some (unexpected error))
error-unsent error e = ground arith

pub waiting-unsent : ¬ IsSent none
waiting-unsent e = ground arith

-- One run behind another sends one piece behind another.
send_after-Progress :
    (result : Option (Expected (Unit {0}))) (first second : List U8) (run : Sent)
    → run.result ≡ result
    → Progress first run
    → Progress (first ++ second) (send_after result run (write_all second))
unfolding send_after
send_after-Progress (some (ok wrote)) first second run e p =
    let later = write_all-Progress second run.answers in
    let whole : run.stream ≡ first =
      sym (append-nil run.stream) ∙ ap (λ ys. run.stream ++ ys) (sym (p.complete e)) ∙ p.in_order in
    record {
      left = later.left;
      in_order = append_assoc run.stream _ _ ∙ ap₂ ◌++◌ whole later.in_order;
      complete = later.complete;
    }
send_after-Progress (some (unexpected error)) first second run e p =
    not_done first second run p (λ q. error-unsent error (sym e ∙ q))
send_after-Progress none first second run e p =
    not_done first second run p (λ q. waiting-unsent (sym e ∙ q))

-- A run that is over and took nothing.
stopped-Progress :
    (bytes : List U8) (result : Option (Expected (Unit {0}))) (answers : List SendAnswer)
    → result ≢ some (ok tt)
    → Progress bytes (stopped result answers)
stopped-Progress bytes result answers h = record {
  left = bytes;
  in_order = refl;
  complete = λ e. absurd (h e);
}

behind-Progress :
    (bytes : List U8) (n : ℕ) (fds : List Descriptor) (later : Sent)
    → Progress (drop n bytes) later
    → Progress bytes (behind (take n bytes) fds later)
behind-Progress bytes n fds later p = record {
  left = p.left;
  in_order =
      append_assoc (take n bytes) later.stream p.left
      ∙ ap (λ ys. take n bytes ++ ys) p.in_order
      ∙ take-append-drop n bytes;
  complete = p.complete;
}

write_remaining-Progress :
    (header payload : List U8) (written : ℕ) (answers : List SendAnswer)
    → written ≤ length header + length payload
    → Progress
        (drop written (header ++ payload))
        (write_remaining_no_fds header payload written answers)
unfolding write_remaining_no_fds
write_remaining-Progress header payload written answers h =
    elim (Bool-cases (ltb (length header + length payload) written)) [
      | inl over ↦ absurd (ground arith)
      | inr fits ↦ rw fits (elim (Bool-cases (ltb written (length header))) [
        | inl inside ↦ rw inside (
            rw (drop-append_le written header payload (ground arith)) (
              send_after-Progress _ (drop written header) payload
                (write_all (drop written header) answers) refl (write_all-Progress _ answers)))
        | inr behind_header ↦ rw behind_header (
            rw (drop-append_ge written header payload (ltb→le _ _ behind_header))
              (write_all-Progress _ answers))
      ])
    ]

after_first-Progress :
    (header payload : List U8) (written : ℕ) (answers : List SendAnswer)
    → Progress (drop written (header ++ payload)) (after_first header payload written answers)
unfolding after_first
after_first-Progress header payload written answers =
    elim (Bool-cases (ltb (length header + length payload) written)) [
      | inl over ↦ rw over (stopped-Progress _ _ answers (error-unsent _))
      | inr fits ↦ rw fits (elim (Bool-cases (ltb written (length header + length payload))) [
        | inl short ↦
            rw short (write_remaining-Progress header payload written answers (ground arith))
        | inr all ↦ rw all (record {
          left = [];
          in_order = sym (
              drop_beyond written (header ++ payload)
                (omega (arith, length-append header payload, ltb→le _ _ all)));
          complete = λ e. refl;
        })
      ])
    ]

send_with_fds-Progress :
    (header payload : List U8) (fds : List Descriptor) (answers : List SendAnswer)
    → Progress (header ++ payload) (send_frame_with_fds header payload fds answers)
unfolding send_frame_with_fds
send_with_fds-Progress header payload fds [] = stopped-Progress _ none [] waiting-unsent
send_with_fds-Progress header payload fds (SendAnswer.interrupted ∷ answers) =
    send_with_fds-Progress header payload fds answers
send_with_fds-Progress header payload fds (SendAnswer.failed ∷ answers) =
    stopped-Progress _ _ answers (error-unsent _)
send_with_fds-Progress header payload fds (SendAnswer.sent zero ∷ answers) =
    stopped-Progress _ _ answers (error-unsent _)
send_with_fds-Progress header payload fds (SendAnswer.sent (suc n) ∷ answers) =
    behind-Progress (header ++ payload) (suc n) fds _
      (after_first-Progress header payload (suc n) answers)

send_frame-Progress :
    (header payload : List U8) (fds : List Descriptor) (answers : List SendAnswer)
    → Progress (header ++ payload) (send_frame header payload fds answers)
unfolding send_frame
send_frame-Progress header payload [] answers =
    send_after-Progress _ header payload (write_all header answers) refl
      (write_all-Progress header answers)
send_frame-Progress header payload (fd ∷ fds) answers =
    send_with_fds-Progress header payload (fd ∷ fds) answers

send_validated-Progress :
    (valid : Expected (Unit {0})) (payload : List U8) (fds : List Descriptor)
    (answers : List SendAnswer)
    → Progress
        (encode_u32_be (length payload) ++ payload)
        (send_validated valid payload fds answers)
unfolding send_validated
send_validated-Progress (ok valid) payload fds answers =
    send_frame-Progress (encode_u32_be (length payload)) payload fds answers
send_validated-Progress (unexpected error) payload fds answers =
    stopped-Progress _ _ answers (error-unsent error)

-- Whatever the socket takes at each call, and whether or not descriptors go with it: the bytes that it
-- has taken are, in order and none twice, a beginning of the length and the payload; and where the call
-- succeeds they are all of it.
pub write_frame-Progress :
    (fd : Descriptor) (payload : List U8) (file_descriptors : List Descriptor)
    (answers : List SendAnswer)
    → Progress
        (encode_u32_be (length payload) ++ payload)
        (write_mtl_worker_control_frame_with_fds fd payload file_descriptors answers)
unfolding write_mtl_worker_control_frame_with_fds
write_frame-Progress fd payload file_descriptors answers =
    send_validated-Progress (validate_outbound_frame fd payload file_descriptors) payload
      file_descriptors answers
