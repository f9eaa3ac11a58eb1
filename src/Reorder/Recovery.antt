-- ===== src/Reorder/Recovery.antt =====
-- Where the window moves when a packet arrives ahead of it: to the nearest buffered packet that makes
-- room for the incoming one.
use st2110_obs_plugin.Base.{
  ℕ, ◌≤◌, ◌≡◌, ◌⊎◌, inl, inr, refl, sym, subst, Bool, true, false, ◌&&◌, Option, none, some, List,
  [], ◌∷◌, Bool-cases, All, arith,
}
use st2110_obs_plugin.Stored.{StoredPacket}
use st2110_obs_plugin.Reorder.Entries.{Entry}
use st2110_obs_plugin.Reorder.{
  Buffer, cast, distance, fits_from, is_better, find_recovery_from,
  find_recovery_expected_for_incoming,
}

module _ (is_video : Bool) (w n seq : ℕ) where
  -- Of one buffered packet: it does not make room, or the search found one at least as near.
  abbrev pub IsCovered : Option ℕ → Entry StoredPacket → Type 0
  IsCovered none e = fits_from is_video w n seq (cast is_video e.key) ≡ false
  IsCovered (some c) e =
      (fits_from is_video w n seq (cast is_video e.key) ≡ false)
      ⊎ (distance is_video n c ≤ distance is_video n (cast is_video e.key))

  abbrev pub Holds : ℕ → List (Entry StoredPacket) → Type 0
  Holds c [] = ⊥
  Holds c (e ∷ es) = (c ≡ cast is_video e.key) ⊎ Holds c es

  -- What the search found is buffered and makes room.
  abbrev pub IsFound : Option ℕ → List (Entry StoredPacket) → Type 0
  IsFound none es = Unit
  IsFound (some c) es = (fits_from is_video w n seq c ≡ true) × Holds c es

  -- The loop's second variable is the distance of its first.
  abbrev Tracks : Option ℕ → ℕ → Type 0
  Tracks none d = Unit
  Tracks (some c) d = d ≡ distance is_video n c

  -- At least as near as the best before.
  abbrev Nearer : Option ℕ → Option ℕ → Type 0
  Nearer r none = Unit
  Nearer none (some c) = ⊥
  Nearer (some r) (some c) = distance is_video n r ≤ distance is_video n c

  Nearer-self : (r : Option ℕ) → Nearer r r
  Nearer-self none = tt
  Nearer-self (some r) = omega arith

  Nearer-taken :
      (r best : Option ℕ) (c d : ℕ)
      → Tracks best d
      → is_better is_video best d (distance is_video n c) ≡ true
      → Nearer r (some c)
      → Nearer r best
  Nearer-taken r none c d t b h = tt
  Nearer-taken none (some x) c d t b h = h
  Nearer-taken (some r) (some x) c d t b h = ground arith

  IsCovered-taken :
      (r : Option ℕ) (e : Entry StoredPacket)
      → Nearer r (some (cast is_video e.key))
      → IsCovered r e
  IsCovered-taken none e h = absurd h
  IsCovered-taken (some r) e h = inr h

  IsCovered-passed :
      (r best : Option ℕ) (d : ℕ) (e : Entry StoredPacket)
      → Tracks best d
      → (fits_from is_video w n seq (cast is_video e.key)
          && is_better is_video best d (distance is_video n (cast is_video e.key)))
        ≡ false
      → Nearer r best
      → IsCovered r e
  IsCovered-passed none none d e t b h = ground arith
  IsCovered-passed (some r) none d e t b h = inl (ground arith)
  IsCovered-passed none (some x) d e t b h = absurd h
  IsCovered-passed (some r) (some x) d e t b h = ground arith

  -- The two branches of a round.
  taken_round :
      (best : Option ℕ) (d : ℕ) (e : Entry StoredPacket) (es : List (Entry StoredPacket))
      → (fits_from is_video w n seq (cast is_video e.key)
          && is_better is_video best d (distance is_video n (cast is_video e.key)))
        ≡ true
      → find_recovery_from is_video w n seq best d (e ∷ es)
        ≡ find_recovery_from is_video w n seq
            (some (cast is_video e.key))
            (distance is_video n (cast is_video e.key))
            es
  unfolding find_recovery_from
  taken_round best d e es b = rw b

  passed_round :
      (best : Option ℕ) (d : ℕ) (e : Entry StoredPacket) (es : List (Entry StoredPacket))
      → (fits_from is_video w n seq (cast is_video e.key)
          && is_better is_video best d (distance is_video n (cast is_video e.key)))
        ≡ false
      → find_recovery_from is_video w n seq best d (e ∷ es)
        ≡ find_recovery_from is_video w n seq best d es
  unfolding find_recovery_from
  passed_round best d e es b = rw b

  find_recovery_from-nearest :
      (best : Option ℕ) (d : ℕ) (es : List (Entry StoredPacket))
      → Tracks best d
      → All (IsCovered (find_recovery_from is_video w n seq best d es)) es
        × Nearer (find_recovery_from is_video w n seq best d es) best
  unfolding find_recovery_from
  find_recovery_from-nearest best d [] t = (tt, Nearer-self best)
  find_recovery_from-nearest best d (e ∷ es) t =
      let c = cast is_video e.key in
      let d' = distance is_video n c in
      let taken = find_recovery_from-nearest (some c) d' es refl in
      let passed = find_recovery_from-nearest best d es t in
      elim (Bool-cases (fits_from is_video w n seq c && is_better is_video best d d')) [
        | inl b ↦
            subst (λ r. All (IsCovered r) (e ∷ es) × Nearer r best)
              (sym (taken_round best d e es b))
              (
                (IsCovered-taken _ e taken.1, taken.0),
                Nearer-taken _ best c d t (ground arith) taken.1,
              )
        | inr b ↦
            subst (λ r. All (IsCovered r) (e ∷ es) × Nearer r best)
              (sym (passed_round best d e es b))
              ((IsCovered-passed _ best d e t b passed.1, passed.0), passed.1)
      ]

  -- The search finds a buffered packet that makes room, or keeps what it had.
  Kept : Option ℕ → Option ℕ → List (Entry StoredPacket) → Type 0
  Kept r best es =
      (r ≡ best) ⊎ ((c : ℕ) × (r ≡ some c) × (fits_from is_video w n seq c ≡ true) × Holds c es)

  Kept-later :
      (r best : Option ℕ) (e : Entry StoredPacket) (es : List (Entry StoredPacket))
      → Kept r best es
      → Kept r best (e ∷ es)
  unfolding Kept
  Kept-later r best e es (inl h) = inl h
  Kept-later r best e es (inr (c, p, q, h)) = inr (c, p, q, inr h)

  Kept-taken :
      (r best : Option ℕ) (e : Entry StoredPacket) (es : List (Entry StoredPacket))
      → fits_from is_video w n seq (cast is_video e.key) ≡ true
      → Kept r (some (cast is_video e.key)) es
      → Kept r best (e ∷ es)
  unfolding Kept
  Kept-taken r best e es b (inl h) = inr (cast is_video e.key, h, b, inl refl)
  Kept-taken r best e es b (inr (c, p, q, h)) = inr (c, p, q, inr h)

  find_recovery_from-Kept :
      (best : Option ℕ) (d : ℕ) (es : List (Entry StoredPacket))
      → Kept (find_recovery_from is_video w n seq best d es) best es
  unfolding find_recovery_from
  find_recovery_from-Kept best d [] = unfold Kept in inl refl
  find_recovery_from-Kept best d (e ∷ es) =
      let c = cast is_video e.key in
      let d' = distance is_video n c in
      elim (Bool-cases (fits_from is_video w n seq c && is_better is_video best d d')) [
        | inl b ↦
            rw b (Kept-taken _ best e es (ground arith) (find_recovery_from-Kept (some c) d' es))
        | inr b ↦ rw b (Kept-later _ best e es (find_recovery_from-Kept best d es))
      ]

  IsFound-of-Kept : (r : Option ℕ) (es : List (Entry StoredPacket)) → Kept r none es → IsFound r es
  unfolding Kept
  IsFound-of-Kept none es h = tt
  IsFound-of-Kept (some c) es (inl h) = absurd (ground arith)
  IsFound-of-Kept (some c) es (inr (x, p, q, h)) = subst (λ y. IsFound y es) (sym p) (q, h)

-- The search for a place to move the window to, given a packet ahead of it, finds the nearest one: what
-- it returns is the number of a buffered packet that makes room for the incoming one, and no buffered
-- packet that makes room is nearer to the expected number. It returns nothing only if none makes room.
pub find_recovery-nearest :
    (is_video : Bool) (b : Buffer) (seq : ℕ)
    → let r = find_recovery_expected_for_incoming is_video b seq in
      IsFound is_video b.window_size b.next_expected seq r b.packets
      × All (IsCovered is_video b.window_size b.next_expected seq r) b.packets
unfolding find_recovery_expected_for_incoming
find_recovery-nearest is_video b seq = (
  IsFound-of-Kept is_video b.window_size b.next_expected seq _ b.packets
      (find_recovery_from-Kept is_video b.window_size b.next_expected seq none 0 b.packets),
  (find_recovery_from-nearest is_video b.window_size b.next_expected seq none 0 b.packets tt).0,
)
