-- ===== src/Framing/Descriptors.antt =====
-- No descriptor that arrives is lost: each is owned by the frame or closed.
use st2110_obs_plugin.Base.{
  ◌≡◌, refl, ◌∙◌, zero, suc, ◌+◌, ◌-◌, ℕ, Bool, true, false, Option, none, some, List, [], ◌∷◌,
  length, take, ◌++◌, ltb, leb, ◌==◌, ◌||◌, if◌then◌else◌, Expected, ok, unexpected, Error, arith,
  Bool-cases, inl, inr,
}
use st2110_obs_plugin.Word.{U8}
use st2110_obs_plugin.Framing.Send.{Descriptor}
use st2110_obs_plugin.Framing.Receive.{
  Installed, ControlMessage, ReadAnswer, Account, append_fd, append_fds, append_messages,
  append_received_fds, Read, after_append, read_all, ReadFrame, close_fds, after_payload,
  read_payload, after_header, read_validated, nothing_received, decode_u32_be,
  read_mtl_worker_control_frame_with_fds,
}

-- How often a number stands in a list.
unfoldable pub occurrences : ℕ → List ℕ → ℕ
occurrences d [] = 0
occurrences d (x ∷ xs) = (if x == d then 1 else 0) + occurrences d xs

occurrences-append :
    (d : ℕ) (xs ys : List ℕ) → occurrences d (xs ++ ys) ≡ occurrences d xs + occurrences d ys
unfolding occurrences
occurrences-append d [] ys = omega arith
occurrences-append d (x ∷ xs) ys = omega (arith, occurrences-append d xs ys)

-- How often a descriptor is among those that an account owns or has closed.
abbrev pub held : ℕ → Account → ℕ
held d account = occurrences d account.owned + occurrences d account.closed

abbrev pub numbers : List Installed → List ℕ
numbers [] = []
numbers (fd ∷ fds) = fd.number ∷ numbers fds

-- The descriptors that arrive with some control messages, and with the answers of some calls.
unfoldable pub carried : List ControlMessage → List ℕ
carried [] = []
carried (ControlMessage.rights fds ∷ messages) = numbers fds ++ carried messages
carried (_ ∷ messages) = carried messages

unfoldable pub arriving : List ReadAnswer → List ℕ
arriving [] = []
arriving (ReadAnswer.received b bytes messages truncated ∷ answers) =
    carried messages ++ arriving answers
arriving (_ ∷ answers) = arriving answers

-- Every control message carries descriptors, as where no other kind is asked for on the socket.
unfoldable pub OnlyRights : List ControlMessage → Type 0
OnlyRights [] = Unit
OnlyRights (ControlMessage.rights fds ∷ messages) = OnlyRights messages
OnlyRights (_ ∷ messages) = ⊥

unfoldable pub AllRights : List ReadAnswer → Type 0
AllRights [] = Unit
AllRights (ReadAnswer.received b bytes messages truncated ∷ answers) =
    OnlyRights messages × AllRights answers
AllRights (_ ∷ answers) = AllRights answers

append_fd-held :
    (d max : ℕ) (fd : Installed) (account : Account)
    → held d (append_fd max fd account) ≡ occurrences d (fd.number ∷ []) + held d account
unfolding append_fd occurrences
append_fd-held d max fd account = elim (Bool-cases (leb max (length account.owned))) [
  | inl full ↦ rw full (omega arith)
  | inr room ↦ rw room (elim (Bool-cases fd.close_on_exec) [
    | inl set ↦ rw set (omega (arith, occurrences-append d account.owned (fd.number ∷ [])))
    | inr unset ↦ rw unset (omega arith)
  ])
]

append_fds-held :
    (d max : ℕ) (fds : List Installed) (account : Account)
    → held d (append_fds max fds account) ≡ occurrences d (numbers fds) + held d account
unfolding append_fds occurrences
append_fds-held d max [] account = omega arith
append_fds-held d max (fd ∷ fds) account =
    omega
      (arith, append_fds-held d max fds (append_fd max fd account), append_fd-held d max fd account)

append_messages-held :
    (d max : ℕ) (messages : List ControlMessage) (account : Account)
    → OnlyRights messages
    → held d ((append_messages max messages account).1)
      ≡ occurrences d (carried messages) + held d account
unfolding append_messages occurrences carried OnlyRights
append_messages-held d max [] account h = omega arith
append_messages-held d max (ControlMessage.rights fds ∷ messages) account h = omega (
  arith,
  append_messages-held d max messages (append_fds max fds account) h,
  append_fds-held d max fds account,
  occurrences-append d (numbers fds) (carried messages),
)
append_messages-held d max (ControlMessage.misfit ∷ messages) account h = absurd h
append_messages-held d max (ControlMessage.other ∷ messages) account h = absurd h

-- What is held and what is still to arrive come to the same before and after.
pub record Conserved (d before : ℕ) (account : Account) (answers : List ReadAnswer) : Type 0 where
  pub kept : held d account + occurrences d (arriving answers) ≡ before
  pub rights_left : AllRights answers

after_append-Conserved :
    (d before : ℕ) (appended : Expected (Unit {0})) (truncated : Bool) (account : Account)
    (answers : List ReadAnswer) (bytes : List U8) (later : Read)
    → Conserved d before account answers
    → Conserved d before later.account later.answers
    → let run = after_append appended truncated account answers bytes later in
      Conserved d before run.account run.answers
unfolding after_append
after_append-Conserved d before (unexpected error) truncated account answers bytes later now then_ =
    now
after_append-Conserved d before (ok appended) true account answers bytes later now then_ = now
after_append-Conserved d before (ok appended) false account answers bytes later now then_ = then_

read_all-Conserved :
    (d max size : ℕ) (answers : List ReadAnswer) (account : Account)
    → AllRights answers
    → let run = read_all max size answers account in
      Conserved d (held d account + occurrences d (arriving answers)) run.account run.answers
unfolding read_all arriving AllRights append_received_fds
read_all-Conserved d max zero answers account h = record { kept = refl; rights_left = h }
read_all-Conserved d max (suc size) [] account h = record { kept = refl; rights_left = h }
read_all-Conserved d max (suc size) (ReadAnswer.interrupted ∷ answers) account h =
    read_all-Conserved d max (suc size) answers account h
read_all-Conserved d max (suc size) (ReadAnswer.failed ∷ answers) account h = record {
  kept = refl;
  rights_left = h;
}
read_all-Conserved d max (suc size) (ReadAnswer.ended ∷ answers) account h = record {
  kept = refl;
  rights_left = h;
}
read_all-Conserved d max (suc size) (ReadAnswer.received b bytes messages truncated ∷ answers)
      account h =
    let appended = append_received_fds max messages account in
    let same : held d (appended.1) + occurrences d (arriving answers)
        ≡ held d account + occurrences d (carried messages ++ arriving answers) =
      omega (
        arith,
        occurrences-append d (carried messages) (arriving answers),
        append_messages-held d max messages
            (record account { too_many_descriptors = false; close_on_exec_failed = false }) (h.0),
      ) in
    let later = read_all-Conserved d max (size - length bytes) answers (appended.1) (h.1) in
    after_append-Conserved d _ (appended.0) truncated (appended.1) answers (b ∷ take size bytes) _
      (record { kept = same; rights_left = h.1 })
      (record { kept = later.kept ∙ same; rights_left = later.rights_left })

-- A frame's run holds on to every descriptor that arrived in it; when it failed it has closed them all.
pub record Accounted (d : ℕ) (before : ℕ) (run : ReadFrame) : Type 0 where
  pub kept : held d run.account + occurrences d (arriving run.answers) ≡ before
  pub closed_on_error :
      (error : Error) → run.result ≡ some (unexpected error) → run.account.owned ≡ []

close_fds-Accounted :
    (d before : ℕ) (error : Error) (account : Account) (answers : List ReadAnswer)
    → Conserved d before account answers
    → Accounted d before (close_fds error account answers)
unfolding close_fds occurrences
close_fds-Accounted d before error account answers c = record {
  kept = omega (arith, c.kept, occurrences-append d account.owned account.closed);
  closed_on_error = λ e h. refl;
}

after_payload-Accounted :
    (d before : ℕ) (result : Option (Expected (Unit {0}))) (run : Read)
    → Conserved d before run.account run.answers
    → Accounted d before (after_payload result run)
unfolding after_payload
after_payload-Accounted d before none run c = record {
  kept = c.kept;
  closed_on_error = λ e h. absurd (ground arith);
}
after_payload-Accounted d before (some (unexpected error)) run c =
    close_fds-Accounted d before error run.account run.answers c
after_payload-Accounted d before (some (ok read)) run c = record {
  kept = c.kept;
  closed_on_error = λ e h. absurd (ground arith);
}

read_payload-Accounted :
    (d before max_frame_bytes max payload_size : ℕ) (header : Read)
    → Conserved d before header.account header.answers
    → Accounted d before (read_payload max_frame_bytes max payload_size header)
unfolding read_payload
read_payload-Accounted d before max_frame_bytes max payload_size header c =
    let run = read_all max payload_size header.answers header.account in
    let later = read_all-Conserved d max payload_size header.answers header.account c.rights_left in
    elim (Bool-cases (payload_size == 0 || ltb max_frame_bytes payload_size)) [
      | inl bad ↦ rw bad (close_fds-Accounted d before _ header.account header.answers c)
      | inr good ↦ rw good (
          after_payload-Accounted d before run.result run
            (record { kept = later.kept ∙ c.kept; rights_left = later.rights_left }))
    ]

after_header-Accounted :
    (d before max_frame_bytes max : ℕ) (result : Option (Expected (Unit {0}))) (run : Read)
    → Conserved d before run.account run.answers
    → Accounted d before (after_header max_frame_bytes max result run)
unfolding after_header
after_header-Accounted d before max_frame_bytes max none run c = record {
  kept = c.kept;
  closed_on_error = λ e h. absurd (ground arith);
}
after_header-Accounted d before max_frame_bytes max (some (unexpected error)) run c =
    close_fds-Accounted d before error run.account run.answers c
after_header-Accounted d before max_frame_bytes max (some (ok read)) run c =
    read_payload-Accounted d before max_frame_bytes max (decode_u32_be run.bytes) run c

read_validated-Accounted :
    (d : ℕ) (bad : Bool) (max_frame_bytes max : ℕ) (answers : List ReadAnswer)
    → AllRights answers
    → Accounted d
        (occurrences d (arriving answers))
        (read_validated bad max_frame_bytes max answers)
unfolding read_validated occurrences
read_validated-Accounted d true max_frame_bytes max answers h =
    close_fds-Accounted d _ _ nothing_received answers
      (record { kept = omega arith; rights_left = h })
read_validated-Accounted d false max_frame_bytes max answers h =
    let run = read_all max 4 answers nothing_received in
    let read = read_all-Conserved d max 4 answers nothing_received h in
    after_header-Accounted d _ max_frame_bytes max run.result run
      (record { kept = omega (arith, read.kept); rights_left = read.rights_left })

-- Where every control message on the socket carries descriptors, and however the frame arrives in
-- pieces: each descriptor that has arrived is either owned by the frame or was closed, once for each
-- time it arrived; and where the call returns an error it owns none, so that all of them are closed.
pub read_frame-Accounted :
    (d : ℕ) (fd : Descriptor) (max_frame_bytes max : ℕ) (answers : List ReadAnswer)
    → AllRights answers
    → Accounted d
        (occurrences d (arriving answers))
        (read_mtl_worker_control_frame_with_fds fd max_frame_bytes max answers)
unfolding read_mtl_worker_control_frame_with_fds
read_frame-Accounted d fd max_frame_bytes max answers h =
    read_validated-Accounted d _ max_frame_bytes max answers h
