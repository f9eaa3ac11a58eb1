-- ===== src/Reorder/Delivery.antt =====
-- The calls of a reorder buffer as steps, and what each does to the expected number.
use st2110_obs_plugin.Base.{
  ℕ, ◌+◌, ◌%◌, ◌<◌, ◌≡◌, ◌⊎◌, inl, inr, refl, sym, subst, ◌∙◌, Bool, true, false, not, ◌&&◌, ◌||◌,
  Option, none, some, List, [], ◌∷◌, Bool-cases, Option-cases, arith, inc64, u64_mod,
}
use st2110_obs_plugin.Stored.{StoredPacket, reorder_sequence}
use st2110_obs_plugin.Reorder.Entries.{find, contains, is_empty, find-All}
use st2110_obs_plugin.Reorder.Invariant.{
  IsValid, cast-lt, pop_next-IsValid, flush_missing_once-IsValid, flush_after_n_packets-IsValid,
  flush_missing_until_marker_boundary-IsValid,
}
use st2110_obs_plugin.Reorder.Pushing.{
  push_cases, push_ahead_stores, moved, start_for, push-IsValid, admit-IsValid,
}
use st2110_obs_plugin.Reorder.{
  Buffer, modulus, cast, distance, next, pop_next, flush_missing_once, flush_after_n_packets,
  flush_missing_until_marker_boundary, advance_expected_to, store_packet, push_ahead, admit, push,
}

-- The calls that a backend makes between two resets.
pub data Op : Type 0 where
  pushes : StoredPacket → Op
  pops : Op
  flushes_once : Op
  flushes_after : ℕ → Op
  flushes_at_marker : Op

abbrev pub collect : Option StoredPacket → List StoredPacket → List StoredPacket
collect none ps = ps
collect (some p) ps = p ∷ ps

module _ (is_video : Bool) where
  -- A call, with the packet that it delivers, if any.
  unfoldable pub step : Buffer → Op → Option StoredPacket × Buffer
  step b (pushes packet) = (none, (push is_video b packet).1)
  step b pops = pop_next is_video b
  step b flushes_once = (none, (flush_missing_once is_video b).1)
  step b (flushes_after n) = (none, (flush_after_n_packets is_video b n).1)
  step b flushes_at_marker = (none, (flush_missing_until_marker_boundary is_video b).1)

  unfoldable pub run : Buffer → List Op → List StoredPacket × Buffer
  run b [] = ([], b)
  run b (op ∷ ops) =
      let (delivered, b') = step b op in
      let (rest, b'') = run b' ops in (collect delivered rest, b'')

  pub step-IsValid : (b : Buffer) (op : Op) → IsValid is_video b → IsValid is_video (step b op).1
  unfolding step
  step-IsValid b (pushes packet) v = push-IsValid is_video b packet v
  step-IsValid b pops v = pop_next-IsValid is_video b v
  step-IsValid b flushes_once v = flush_missing_once-IsValid is_video b v
  step-IsValid b (flushes_after n) v = flush_after_n_packets-IsValid is_video b n v
  step-IsValid b flushes_at_marker v = flush_missing_until_marker_boundary-IsValid is_video b v

  -- Any sequence of calls keeps a buffer valid: the window is not empty, the expected number fits its
  -- width, and the packets lie in order of their keys, each under its own sequence number and inside
  -- the window.
  pub run-IsValid :
      (b : Buffer) (ops : List Op) → IsValid is_video b → IsValid is_video (run b ops).1
  unfolding run
  run-IsValid b [] v = v
  run-IsValid b (op ∷ ops) v = run-IsValid (step b op).1 ops (step-IsValid b op v)

  -- A call without a delivery passes over some numbers and counts them as flushed; one with a
  -- delivery delivers the expected number and passes over it.
  abbrev pub Moved : Buffer → Option StoredPacket × Buffer → Type 0
  Moved b (none, b') =
      (k : ℕ) × (b'.next_expected ≡ (b.next_expected + k) % modulus is_video)
      × (b'.stats.missing_seq_flushed % u64_mod ≡ (b.stats.missing_seq_flushed + k) % u64_mod)
      × (b'.initialized ≡ true)
      × (k < modulus is_video)
  Moved b (some p, b') =
      (cast is_video (reorder_sequence p) ≡ b.next_expected)
      × (b'.next_expected ≡ next is_video b.next_expected)
      × (b'.stats.missing_seq_flushed ≡ b.stats.missing_seq_flushed)
      × (b'.initialized ≡ true)

distance_reaches :
    (is_video : Bool) (from to : ℕ)
    → from < modulus is_video
    → to < modulus is_video
    → to ≡ (from + distance is_video from to) % modulus is_video
distance_reaches true from to h k = omega arith
distance_reaches false from to h k = omega arith

distance_lt : (is_video : Bool) (from to : ℕ) → distance is_video from to < modulus is_video
distance_lt true from to = omega arith
distance_lt false from to = omega arith

one_lt : (is_video : Bool) → 1 < modulus is_video
one_lt true = omega arith
one_lt false = omega arith

stays : (is_video : Bool) (n : ℕ) → n < modulus is_video → n ≡ (n + 0) % modulus is_video
stays true n h = omega arith
stays false n h = omega arith

-- What the counters and the stored packets leave alone.
abbrev Same : Buffer → Buffer → Type 0
Same b c =
    (c.next_expected ≡ b.next_expected)
    × (c.stats.missing_seq_flushed ≡ b.stats.missing_seq_flushed)
    × (c.initialized ≡ b.initialized)

store_packet-Same :
    (is_video : Bool) (b : Buffer) (seq : ℕ) (packet : StoredPacket)
    → Same b (store_packet is_video b seq packet).1
unfolding store_packet
store_packet-Same is_video b seq packet = ground arith

module _ (is_video : Bool) (b : Buffer) (v : IsValid is_video b) (live : b.initialized ≡ true) where
  unmoved : Moved is_video b (none, b)
  unmoved = (
    0,
    stays is_video b.next_expected v.next_width,
    omega arith,
    live,
    omega (arith, v.next_width),
  )

  pop_next-Moved : Moved is_video b (pop_next is_video b)
  unfolding pop_next
  pop_next-Moved = elim (Bool-cases (not b.initialized || is_empty b.packets)) [
    | inl t ↦ rw (t, pop_next) unmoved
    | inr t ↦ elim (Option-cases (find b.next_expected b.packets)) [
      | inl s ↦ elim (Bool-cases (not (is_empty b.packets) && not b.missing_head_accounted)) [
        | inl u ↦ rw (t, s, u, pop_next) unmoved
        | inr u ↦ rw (t, s, u, pop_next) unmoved
      ]
      | inr (a, s) ↦
          rw (t, s, pop_next)
            (sym (find-All _ b.next_expected b.packets a v.fitting s).1, refl, refl, live)
    ]
  ]

  flush_missing_once-Moved : Moved is_video b (none, (flush_missing_once is_video b).1)
  unfolding flush_missing_once
  flush_missing_once-Moved =
      elim (Bool-cases
        (not b.initialized || is_empty b.packets || contains b.next_expected b.packets)) [
          | inl t ↦ rw t unmoved
          | inr t ↦ rw t (1, refl, omega arith, live, one_lt is_video)
        ]

  either_Moved :
      (c : Buffer) → (c ≡ b) ⊎ (c ≡ (flush_missing_once is_video b).1) → Moved is_video b (none, c)
  either_Moved c (inl e) = subst (λ c. Moved is_video b (none, c)) (sym e) unmoved
  either_Moved c (inr e) = subst (λ c. Moved is_video b (none, c)) (sym e) flush_missing_once-Moved

  flush_after_n_packets-Moved :
      (n : ℕ) → Moved is_video b (none, (flush_after_n_packets is_video b n).1)
  unfolding flush_after_n_packets
  flush_after_n_packets-Moved n = either_Moved (flush_after_n_packets is_video b n).1 (ground arith)

  flush_missing_until_marker_boundary-Moved :
      Moved is_video b (none, (flush_missing_until_marker_boundary is_video b).1)
  unfolding flush_missing_until_marker_boundary
  flush_missing_until_marker_boundary-Moved =
      either_Moved (flush_missing_until_marker_boundary is_video b).1 (ground arith)

  Same-Moved : (c : Buffer) → Same b c → Moved is_video b (none, c)
  Same-Moved c s = (
    0,
    s.0 ∙ stays is_video b.next_expected v.next_width,
    omega (arith, s.1),
    s.2 ∙ live,
    omega (arith, v.next_width),
  )

  admit-Same : (seq : ℕ) → Same b (admit is_video b seq)
  unfolding admit
  admit-Same seq = ground arith

  -- The window moved to `t` from a state that had not moved yet.
  advanced_Moved :
      (a : Buffer) (t : ℕ)
      → t < modulus is_video
      → Same b a
      → Moved is_video b (none, advance_expected_to is_video a t)
  unfolding advance_expected_to
  advanced_Moved a t h s = (
    distance is_video b.next_expected t,
    distance_reaches is_video b.next_expected t v.next_width h,
    ground (arith, s),
    s.2 ∙ live,
    distance_lt is_video b.next_expected t,
  )

  stored_Moved :
      (c : Buffer) (seq : ℕ) (packet : StoredPacket)
      → Moved is_video b (none, c)
      → Moved is_video b (none, (store_packet is_video c seq packet).1)
  stored_Moved c seq packet m =
      let s = store_packet-Same is_video c seq packet in
      (m.0, s.0 ∙ m.1, omega (arith, s.1, m.2), s.2 ∙ m.3, m.4)

  push-Moved : (packet : StoredPacket) → Moved is_video b (none, (push is_video b packet).1)
  push-Moved packet =
      push_cases (λ r. Moved is_video b (none, r.1)) is_video b packet
        (λ h. stored_Moved a seq packet m) (λ h k. m)
        (λ h k.
          subst (λ r. Moved is_video b (none, r.1)) (sym f.0)
            (stored_Moved (moved is_video a seq) seq packet (
              advanced_Moved
                (record a {
                  stats = record a.stats { out_of_window = inc64 a.stats.out_of_window };
                })
                (start_for is_video a seq) f.1 (admit-Same seq))))
    where
      seq : ℕ
      seq = cast is_video (reorder_sequence packet)

      a : Buffer
      a = admit is_video b seq

      m : Moved is_video b (none, a)
      m = Same-Moved a (admit-Same seq)

      s : IsValid is_video a × (a.initialized ≡ true)
      s = admit-IsValid is_video b seq v (cast-lt is_video (reorder_sequence packet))

      f :
          (push_ahead is_video a seq packet
            ≡ store_packet is_video (moved is_video a seq) seq packet)
          × (start_for is_video a seq < modulus is_video)
          × (distance is_video (start_for is_video a seq) seq < a.window_size)
      f = push_ahead_stores is_video a seq packet s.0 (cast-lt is_video (reorder_sequence packet))

  pub step-Moved : (op : Op) → Moved is_video b (step is_video b op)
  unfolding step
  step-Moved (pushes packet) = push-Moved packet
  step-Moved pops = pop_next-Moved
  step-Moved flushes_once = flush_missing_once-Moved
  step-Moved (flushes_after n) = flush_after_n_packets-Moved n
  step-Moved flushes_at_marker = flush_missing_until_marker_boundary-Moved
