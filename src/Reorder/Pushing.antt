-- ===== src/Reorder/Pushing.antt =====
-- `push` keeps the representation invariant, and what it does to the expected number.
use st2110_obs_plugin.Base.{
  ℕ, ◌≤◌, ◌<◌, ◌≡◌, inl, inr, refl, subst, sym, Bool, true, ◌&&◌, ◌||◌, Option, none, some, List,
  [], ◌∷◌, ltb, leb, Bool-cases, All, arith, invalid_value, Error, ltb→lt, ltb→le, inc64,
}
use st2110_obs_plugin.Stored.{StoredPacket, reorder_sequence}
use st2110_obs_plugin.Reorder.Entries.{
  Entry, contains, IsOrdered, All-emplace, Above, Above-mono, emplace-IsOrdered, IsOrdered-tail,
}
use st2110_obs_plugin.Reorder.Invariant.{IsValid, Fits, cast-lt, cast_small, distance_self}
use st2110_obs_plugin.Reorder.{
  Buffer, ReorderBufferStats, modulus, max_forward, cast, distance, fits_from, is_better,
  find_recovery_from, erase_packets_outside_window, advance_expected_to,
  find_recovery_expected_for_incoming, target, store_packet, push_ahead, admit, place, push,
}

module _ (is_video : Bool) (window_size next_expected : ℕ) where
  Above-kept :
      (n : ℕ) (es : List (Entry StoredPacket))
      → Above n es
      → Above n (erase_packets_outside_window is_video window_size next_expected es)
  unfolding erase_packets_outside_window
  Above-kept n [] h = tt
  Above-kept n (e ∷ es) h =
      elim (Bool-cases (
        ltb (max_forward is_video) (distance is_video next_expected (cast is_video e.key))
        || leb window_size (distance is_video next_expected (cast is_video e.key)))) [
          | inl t ↦ rw t (Above-kept n es (Above-mono n e.key es (omega arith) h.1))
          | inr t ↦ rw t (h.0, Above-kept e.key es h.1)
        ]

  IsOrdered-kept :
      (es : List (Entry StoredPacket))
      → IsOrdered es
      → IsOrdered (erase_packets_outside_window is_video window_size next_expected es)
  unfolding erase_packets_outside_window
  IsOrdered-kept [] h = tt
  IsOrdered-kept (e ∷ es) h =
      elim (Bool-cases (
        ltb (max_forward is_video) (distance is_video next_expected (cast is_video e.key))
        || leb window_size (distance is_video next_expected (cast is_video e.key)))) [
          | inl t ↦ rw t (IsOrdered-kept es (IsOrdered-tail e es h))
          | inr t ↦ rw t (Above-kept e.key es h)
        ]

  pub All-kept {ℓ} :
      (P : Entry StoredPacket → Type ℓ) (es : List (Entry StoredPacket))
      → All P es
      → All P (erase_packets_outside_window is_video window_size next_expected es)
  unfolding erase_packets_outside_window
  All-kept P [] h = tt
  All-kept P (e ∷ es) h =
      elim (Bool-cases (
        ltb (max_forward is_video) (distance is_video next_expected (cast is_video e.key))
        || leb window_size (distance is_video next_expected (cast is_video e.key)))) [
          | inl t ↦ rw t (All-kept P es h.1)
          | inr t ↦ rw t (h.0, All-kept P es h.1)
        ]

  Fits-kept :
      (old : ℕ) (es : List (Entry StoredPacket))
      → All (Fits is_video window_size old) es
      → All
          (Fits is_video window_size next_expected)
          (erase_packets_outside_window is_video window_size next_expected es)
  unfolding erase_packets_outside_window
  Fits-kept old [] h = tt
  Fits-kept old (e ∷ es) h =
      elim (Bool-cases (
        ltb (max_forward is_video) (distance is_video next_expected (cast is_video e.key))
        || leb window_size (distance is_video next_expected (cast is_video e.key)))) [
          | inl t ↦ rw t (Fits-kept old es h.1)
          | inr t ↦ rw t (
            (h.0.0, h.0.1, ground (arith, cast_small is_video e.key h.0.0)),
            Fits-kept old es h.1,
          )
        ]

advance_expected_to-IsValid :
    (is_video : Bool) (b : Buffer) (seq : ℕ)
    → IsValid is_video b
    → b.initialized ≡ true
    → seq < modulus is_video
    → IsValid is_video (advance_expected_to is_video b seq)
unfolding advance_expected_to
advance_expected_to-IsValid is_video b seq v i h = record {
  window_positive = v.window_positive;
  next_width = h;
  ordered = IsOrdered-kept is_video b.window_size seq b.packets v.ordered;
  fitting = Fits-kept is_video b.window_size seq b.next_expected b.packets v.fitting;
  idle = inl i;
}

store_packet-IsValid :
    (is_video : Bool) (b : Buffer) (packet : StoredPacket)
    → IsValid is_video b
    → b.initialized ≡ true
    → distance is_video b.next_expected (cast is_video (reorder_sequence packet)) < b.window_size
    → IsValid is_video (store_packet is_video b (cast is_video (reorder_sequence packet)) packet).1
unfolding store_packet
store_packet-IsValid is_video b packet v i h =
    let seq = cast is_video (reorder_sequence packet) in
    elim (Bool-cases (contains seq b.packets)) [
      | inl t ↦ rw t (ground (arith, v))
      | inr t ↦ rw t (record {
        window_positive = v.window_positive;
        next_width = v.next_width;
        ordered = emplace-IsOrdered seq packet b.packets v.ordered;
        fitting =
            All-emplace _ seq packet b.packets (cast-lt is_video (reorder_sequence packet), refl, h)
              v.fitting;
        idle = inl i;
      })
    ]

-- What a candidate of the recovery search is, if there is one.
abbrev IsCandidate : Bool → ℕ → ℕ → ℕ → Option ℕ → Type 0
IsCandidate is_video window_size next_expected incoming none = Unit
IsCandidate is_video window_size next_expected incoming (some c) =
    (c < modulus is_video) × (fits_from is_video window_size next_expected incoming c ≡ true)

find_recovery_from-IsCandidate :
    (is_video : Bool) (w n seq : ℕ) (best : Option ℕ) (d : ℕ) (es : List (Entry StoredPacket))
    → IsCandidate is_video w n seq best
    → IsCandidate is_video w n seq (find_recovery_from is_video w n seq best d es)
unfolding find_recovery_from
find_recovery_from-IsCandidate is_video w n seq best d [] h = h
find_recovery_from-IsCandidate is_video w n seq best d (e ∷ es) h =
    let c = cast is_video e.key in
    let d' = distance is_video n c in
    elim (Bool-cases (fits_from is_video w n seq c && is_better is_video best d d')) [
      | inl t ↦ rw t (
          find_recovery_from-IsCandidate is_video w n seq (some c) d' es
            (cast-lt is_video e.key, ground arith))
      | inr t ↦ rw t (find_recovery_from-IsCandidate is_video w n seq best d es h)
    ]

-- From the number that the search picks, or from the incoming one, the incoming packet fits.
target_fits :
    (is_video : Bool) (w n seq : ℕ) (best : Option ℕ)
    → 0 < w
    → seq < modulus is_video
    → IsCandidate is_video w n seq best
    → (target is_video best seq < modulus is_video)
      × (distance is_video (target is_video best seq) seq < w)
      × (distance is_video (target is_video best seq) seq ≤ max_forward is_video)
target_fits is_video w n seq none p h c =
    (h, ground (arith, distance_self is_video seq h), ground (arith, distance_self is_video seq h))
target_fits is_video w n seq (some r) p h c = (c.0, ground (arith, c.1), ground (arith, c.1))

pub admit-IsValid :
    (is_video : Bool) (b : Buffer) (seq : ℕ)
    → IsValid is_video b
    → seq < modulus is_video
    → IsValid is_video (admit is_video b seq) × ((admit is_video b seq).initialized ≡ true)
unfolding admit
admit-IsValid is_video b seq v h = ground (arith, v)

abbrev counted : Buffer → Buffer
counted b = record b { stats = record b.stats { out_of_window = inc64 b.stats.out_of_window } }

-- Where the window starts after a packet ahead of it has arrived.
abbrev pub start_for : Bool → Buffer → ℕ → ℕ
start_for is_video b seq =
    target is_video (find_recovery_expected_for_incoming is_video (counted b) seq) seq

-- The buffer with its window there.
abbrev pub moved : Bool → Buffer → ℕ → Buffer
moved is_video b seq = advance_expected_to is_video (counted b) (start_for is_video b seq)

-- The branch for a packet ahead of the window: the buffer moves its window so that the packet fits,
-- and the second test of the distance never rejects it.
pub push_ahead_stores :
    (is_video : Bool) (b : Buffer) (seq : ℕ) (packet : StoredPacket)
    → IsValid is_video b
    → seq < modulus is_video
    → (push_ahead is_video b seq packet ≡ store_packet is_video (moved is_video b seq) seq packet)
      × (start_for is_video b seq < modulus is_video)
      × (distance is_video (start_for is_video b seq) seq < b.window_size)
unfolding push_ahead find_recovery_expected_for_incoming advance_expected_to
push_ahead_stores is_video b seq packet v h =
    let best = find_recovery_from is_video b.window_size b.next_expected seq none 0 b.packets in
    let f = target_fits is_video b.window_size b.next_expected seq best v.window_positive h (
      find_recovery_from-IsCandidate is_video b.window_size b.next_expected seq none 0 b.packets
        tt) in
    (ground (arith, f.1, f.2), f.0, f.1)

with_stats-IsValid :
    (is_video : Bool) (b : Buffer) (s : ReorderBufferStats)
    → IsValid is_video b
    → IsValid is_video (record b { stats = s })
with_stats-IsValid is_video b s v = record {
  window_positive = v.window_positive;
  next_width = v.next_width;
  ordered = v.ordered;
  fitting = v.fitting;
  idle = v.idle;
}

push_ahead-IsValid :
    (is_video : Bool) (b : Buffer) (packet : StoredPacket)
    → IsValid is_video b
    → b.initialized ≡ true
    → IsValid is_video (push_ahead is_video b (cast is_video (reorder_sequence packet)) packet).1
push_ahead-IsValid is_video b packet v i =
    let seq = cast is_video (reorder_sequence packet) in
    let f =
      push_ahead_stores is_video b seq packet v (cast-lt is_video (reorder_sequence packet)) in
    subst (λ r. IsValid is_video r.1) (sym f.0)
      (store_packet-IsValid is_video _ packet
        (advance_expected_to-IsValid is_video _ _ (with_stats-IsValid is_video b _ v) i f.1)
        (unfold advance_expected_to in i) (unfold advance_expected_to in f.2))

abbrev pub late : Buffer → Error × Buffer
late b = (
  invalid_value,
  record b { stats = record b.stats { late_packets = inc64 b.stats.late_packets } },
)

place_cases {ℓ} :
    (P : Error × Buffer → Type ℓ) (is_video : Bool) (b : Buffer) (seq : ℕ) (packet : StoredPacket)
    (dist : ℕ)
    → (dist < b.window_size → P (store_packet is_video b seq packet))
    → (b.window_size ≤ dist → max_forward is_video < dist → P (late b))
    → (b.window_size ≤ dist → dist ≤ max_forward is_video → P (push_ahead is_video b seq packet))
    → P (place is_video b seq packet dist)
unfolding place
place_cases P is_video b seq packet d near behind ahead = elim (Bool-cases (ltb d b.window_size)) [
  | inl t ↦ rw (t, place) (near (ltb→lt d b.window_size t))
  | inr t ↦ elim (Bool-cases (ltb (max_forward is_video) d)) [
    | inl s ↦
        rw (t, s, place) (behind (ltb→le d b.window_size t) (ltb→lt (max_forward is_video) d s))
    | inr s ↦
        rw (t, s, place) (ahead (ltb→le d b.window_size t) (ltb→le (max_forward is_video) d s))
  ]
]

-- The three branches of `push`, for a proof about its result.
pub push_cases {ℓ} :
    (P : Error × Buffer → Type ℓ) (is_video : Bool) (b : Buffer) (packet : StoredPacket)
    → (let seq = cast is_video (reorder_sequence packet) in
        let a = admit is_video b seq in
        (distance is_video a.next_expected seq < a.window_size
          → P (store_packet is_video a seq packet))
        → (a.window_size ≤ distance is_video a.next_expected seq
            → max_forward is_video < distance is_video a.next_expected seq
            → P (late a))
        → (a.window_size ≤ distance is_video a.next_expected seq
            → distance is_video a.next_expected seq ≤ max_forward is_video
            → P (push_ahead is_video a seq packet))
        → P (push is_video b packet))
unfolding push
push_cases P is_video b packet near behind ahead =
    place_cases P is_video (admit is_video b (cast is_video (reorder_sequence packet)))
      (cast is_video (reorder_sequence packet)) packet _ near behind ahead

pub push-IsValid :
    (is_video : Bool) (b : Buffer) (packet : StoredPacket)
    → IsValid is_video b
    → IsValid is_video (push is_video b packet).1
push-IsValid is_video b packet v =
    push_cases (λ r. IsValid is_video r.1) is_video b packet
      (λ h. store_packet-IsValid is_video a packet s.0 s.1 h)
      (λ h k. with_stats-IsValid is_video a _ s.0)
      (λ h k. push_ahead-IsValid is_video a packet s.0 s.1)
  where
    a : Buffer
    a = admit is_video b (cast is_video (reorder_sequence packet))

    s : IsValid is_video a × (a.initialized ≡ true)
    s = admit-IsValid is_video b _ v (cast-lt is_video (reorder_sequence packet))
