-- ===== src/Reorder/Invariant.antt =====
-- The representation invariant of the reorder buffer, and that what takes packets out keeps it.
use st2110_obs_plugin.Base.{
  ℕ, ◌+◌, ◌<◌, ◌≡◌, ◌≢◌, ◌⊎◌, inl, inr, Bool, true, false, not, ◌||◌, some, List, [], Bool-cases,
  Option-cases, All, arith,
}
use st2110_obs_plugin.Stored.{StoredPacket, reorder_sequence}
use st2110_obs_plugin.Reorder.Entries.{
  Entry, find, contains, erase, is_empty, IsOrdered, All-erase, All-map, erase-IsOrdered, erase-ne,
  contains-ne, All-and,
}
use st2110_obs_plugin.Reorder.{
  Buffer, make, modulus, cast, distance, next, pop_next, reset, flush_missing_once,
  flush_after_n_packets, flush_missing_until_marker_boundary,
}

module _ (is_video : Bool) where
  -- An entry is kept under its packet's sequence number, less than `window` ahead of the expected.
  abbrev pub Fits : ℕ → ℕ → Entry StoredPacket → Type 0
  Fits window_size next_expected e =
      (e.key < modulus is_video)
      × (e.key ≡ cast is_video (reorder_sequence e.item))
      × (distance is_video next_expected e.key < window_size)

  pub record IsValid (b : Buffer) : Type 0 where
    pub window_positive : 0 < b.window_size
    pub next_width : b.next_expected < modulus is_video
    pub ordered : IsOrdered b.packets
    pub fitting : All (Fits b.window_size b.next_expected) b.packets
    pub idle : (b.initialized ≡ true) ⊎ (b.packets ≡ [])

pub distance-next :
    (is_video : Bool) (from to : ℕ)
    → from < modulus is_video
    → to < modulus is_video
    → to ≢ from
    → distance is_video (next is_video from) to + 1 ≡ distance is_video from to
distance-next true from to h k n = omega arith
distance-next false from to h k n = omega arith

pub cast-lt : (is_video : Bool) (seq : ℕ) → cast is_video seq < modulus is_video
cast-lt true seq = omega arith
cast-lt false seq = omega arith

pub next-lt : (is_video : Bool) (seq : ℕ) → next is_video seq < modulus is_video
next-lt true seq = omega arith
next-lt false seq = omega arith

pub distance_self :
    (is_video : Bool) (seq : ℕ) → seq < modulus is_video → distance is_video seq seq ≡ 0
distance_self true seq h = omega arith
distance_self false seq h = omega arith

pub cast_small : (is_video : Bool) (seq : ℕ) → seq < modulus is_video → cast is_video seq ≡ seq
cast_small true seq h = omega arith
cast_small false seq h = omega arith

-- Passing over a number that no entry has leaves every entry in the window.
module _ (is_video : Bool) (w n : ℕ) (width : n < modulus is_video) where
  shift_entry :
      (e : Entry StoredPacket)
      → Fits is_video w n e × (e.key ≢ n)
      → Fits is_video w (next is_video n) e
  shift_entry e (f, g) = (f.0, f.1, omega (arith, distance-next is_video n e.key width f.0 g, f.2))

  pub shift :
      (es : List (Entry StoredPacket))
      → All (Fits is_video w n) es
      → All (λ e. e.key ≢ n) es
      → All (Fits is_video w (next is_video n)) es
  shift es f g = All-map _ _ es shift_entry (All-and _ _ es f g)

pub pop_next-IsValid :
    (is_video : Bool) (b : Buffer) → IsValid is_video b → IsValid is_video (pop_next is_video b).1
unfolding pop_next
pop_next-IsValid is_video b v = elim (Bool-cases (not b.initialized || is_empty b.packets)) [
  | inl t ↦ rw (t, pop_next) v
  | inr t ↦ elim (Option-cases (find b.next_expected b.packets)) [
    | inl s ↦ rw (t, s, pop_next) (ground arith)
    | inr (a, s) ↦
        rw (t, s, pop_next)
          (record {
            window_positive = v.window_positive;
            next_width = next-lt is_video b.next_expected;
            ordered = erase-IsOrdered b.next_expected b.packets v.ordered;
            fitting =
                shift is_video b.window_size b.next_expected v.next_width
                  (erase b.next_expected b.packets)
                  (All-erase _ b.next_expected b.packets v.fitting)
                  (erase-ne b.next_expected b.packets v.ordered);
            idle = inl (ground arith);
          })
  ]
]

pub flush_missing_once-IsValid :
    (is_video : Bool) (b : Buffer)
    → IsValid is_video b
    → IsValid is_video (flush_missing_once is_video b).1
unfolding flush_missing_once
flush_missing_once-IsValid is_video b v =
    elim (Bool-cases
      (not b.initialized || is_empty b.packets || contains b.next_expected b.packets)) [
        | inl t ↦ rw t v
        | inr t ↦ rw t (record {
          window_positive = v.window_positive;
          next_width = next-lt is_video b.next_expected;
          ordered = v.ordered;
          fitting =
              shift is_video b.window_size b.next_expected v.next_width b.packets v.fitting
                (contains-ne b.next_expected b.packets (ground arith));
          idle = inl (ground arith);
        })
      ]

pub flush_after_n_packets-IsValid :
    (is_video : Bool) (b : Buffer) (threshold : ℕ)
    → IsValid is_video b
    → IsValid is_video (flush_after_n_packets is_video b threshold).1
unfolding flush_after_n_packets
flush_after_n_packets-IsValid is_video b threshold v =
    ground (arith, flush_missing_once-IsValid is_video b v)

pub flush_missing_until_marker_boundary-IsValid :
    (is_video : Bool) (b : Buffer)
    → IsValid is_video b
    → IsValid is_video (flush_missing_until_marker_boundary is_video b).1
unfolding flush_missing_until_marker_boundary
flush_missing_until_marker_boundary-IsValid is_video b v =
    ground (arith, flush_missing_once-IsValid is_video b v)

pub reset-IsValid :
    (is_video : Bool) (b : Buffer) → IsValid is_video b → IsValid is_video (reset is_video b)
unfolding reset
reset-IsValid true b v = ground arith
reset-IsValid false b v = ground arith

pub make-IsValid :
    (is_video : Bool) (window_size : ℕ) {b : Buffer}
    → make window_size ≡ some b
    → IsValid is_video b
unfolding make
make-IsValid true w e = ground arith
make-IsValid false w e = ground arith
