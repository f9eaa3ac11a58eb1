-- ===== src/Reorder/Accounting.antt =====
-- What `push` does to the counters, and that a stored packet is there.
use st2110_obs_plugin.Base.{
  ℕ, ◌≤◌, ◌<◌, ◌≡◌, ◌⊎◌, Bool, true, false, some, List, if◌then◌else◌, Error, no_error,
  invalid_value, inc64,
}
use st2110_obs_plugin.Stored.{StoredPacket}
use st2110_obs_plugin.Reorder.Entries.{Entry, find, contains}
use st2110_obs_plugin.Reorder.{Buffer, ReorderBufferStats, distance, max_forward}

-- The number that a buffer expects when a packet with the number `seq` arrives: the first one sets it.
unfoldable pub expected : Buffer → ℕ → ℕ
expected b seq = if b.initialized then b.next_expected else seq

-- The counters of fates, each with the amount that it rose by.
abbrev Counts :
    (ReorderBufferStats → ReorderBufferStats) → ReorderBufferStats → ReorderBufferStats → Type 0
Counts rose s t =
    (t.packets_stored ≡ (rose s).packets_stored)
    × (t.duplicates ≡ (rose s).duplicates)
    × (t.late_packets ≡ (rose s).late_packets)

-- What a packet with the number `seq` meets in a buffer that expects `n` and has a window of `w` numbers
-- and these packets. It is stored if the buffer does not hold its number: inside the window, which then
-- stays, or ahead of it, which then moves so that the number is inside. It is a duplicate if its number
-- is inside the window and held, and late if the number is behind the window.
module _ (is_video : Bool) (seq : ℕ) (packet : StoredPacket) (n w : ℕ)
    (packets : List (Entry StoredPacket)) (s : ReorderBufferStats) where
  abbrev pub IsStored : Error × Buffer → Type 0
  IsStored (e, b') =
      (e ≡ no_error)
      × (contains seq packets ≡ false)
      × (find seq b'.packets ≡ some packet)
      × (((distance is_video n seq < w) × (b'.next_expected ≡ n))
          ⊎ ((w ≤ distance is_video n seq)
              × (distance is_video n seq ≤ max_forward is_video)
              × (distance is_video b'.next_expected seq < w)))
      × Counts (λ s. record s { packets_stored = inc64 s.packets_stored }) s b'.stats

  abbrev pub IsDuplicate : Error × Buffer → Type 0
  IsDuplicate (e, b') =
      (e ≡ invalid_value)
      × (distance is_video n seq < w)
      × (contains seq packets ≡ true)
      × (b'.next_expected ≡ n)
      × (b'.packets ≡ packets)
      × Counts (λ s. record s { duplicates = inc64 s.duplicates }) s b'.stats

  abbrev pub IsLate : Error × Buffer → Type 0
  IsLate (e, b') =
      (e ≡ invalid_value)
      × (w ≤ distance is_video n seq)
      × (max_forward is_video < distance is_video n seq)
      × (b'.next_expected ≡ n)
      × (b'.packets ≡ packets)
      × Counts (λ s. record s { late_packets = inc64 s.late_packets }) s b'.stats

  abbrev pub Fate : Error × Buffer → Type 0
  Fate r =
      (r.1.stats.packets_pushed ≡ inc64 s.packets_pushed) × (IsStored r ⊎ IsDuplicate r ⊎ IsLate r)

-- Counted as pushed, and not yet by its fate.
abbrev Admitted : ReorderBufferStats → ReorderBufferStats → Type 0
Admitted s t =
    (t.packets_pushed ≡ inc64 s.packets_pushed)
    × (t.packets_stored ≡ s.packets_stored)
    × (t.duplicates ≡ s.duplicates)
    × (t.late_packets ≡ s.late_packets)
