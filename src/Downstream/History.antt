-- ===== src/Downstream/History.antt =====
-- The history of sequence numbers that merges the duplicates of redundant legs.
use st2110_obs_plugin.Base.{
  ℕ, ◌≤◌, ◌<◌, ◌≡◌, inl, inr, refl, sym, subst, ◌∙◌, true, false, not, ◌&&◌, ◌||◌, List, [], ◌∷◌,
  ◌++◌, length, ltb, ◌==◌, if◌then◌else◌, Bool-cases, arith,
}
use st2110_obs_plugin.Downstream.{DuplicateMergeHistory, member, remove, seen, forget, remember}

-- No number twice.
abbrev pub Distinct : List ℕ → Type 0
Distinct [] = Unit
Distinct (x ∷ xs) = (member x xs ≡ false) × Distinct xs

-- The set and the queue hold the same numbers, each once.
pub record IsSynced (h : DuplicateMergeHistory) : Type 0 where
  pub same : (s : ℕ) → member s h.sequence_set ≡ member s h.ordered_sequences
  pub distinct : Distinct h.ordered_sequences

member-remove : (s x : ℕ) (set : List ℕ) → member s (remove x set) ≡ member s set && not (x == s)
member-remove s x [] = ground arith
member-remove s x (y ∷ ys) = let r = member-remove s x ys in ground arith

member-append : (s : ℕ) (xs ys : List ℕ) → member s (xs ++ ys) ≡ member s xs || member s ys
member-append s [] ys = refl
member-append s (x ∷ xs) ys = let r = member-append s xs ys in ground arith

Distinct-append :
    (xs : List ℕ) (s : ℕ) → Distinct xs → member s xs ≡ false → Distinct (xs ++ s ∷ [])
Distinct-append [] s d n = (refl, tt)
Distinct-append (x ∷ xs) s d n =
    let m = member-append x xs (s ∷ []) in
    let e = d.0 in (ground arith, Distinct-append xs s d.1 (ground arith))

member_last : (xs : List ℕ) (s : ℕ) → member s (xs ++ s ∷ []) ≡ true
member_last xs s = let m = member-append s xs (s ∷ []) in ground arith

-- The oldest number leaves both.
synced_tail :
    (x : ℕ) (xs set : List ℕ)
    → ((t : ℕ) → member t set ≡ member t (x ∷ xs))
    → member x xs ≡ false
    → (t : ℕ) → member t (remove x set) ≡ member t xs
synced_tail x xs set e d t =
    let m = member-remove t x set in
    let f = e t in
    elim (Bool-cases (x == t)) [
      | inl q ↦
          let z : x ≡ t = ground arith in
          let g = subst (λ y. member y xs ≡ false) z d in ground arith
      | inr q ↦ ground arith
    ]

record Forgot (capacity s : ℕ) (h : DuplicateMergeHistory) : Type 0 where
  synced : IsSynced h
  kept : seen h s ≡ true
  bounded : length h.ordered_sequences ≤ capacity

Forgot-stop :
    (capacity s : ℕ) (ys set : List ℕ)
    → ((t : ℕ) → member t set ≡ member t ys)
    → Distinct ys
    → member s ys ≡ true
    → length ys ≤ capacity
    → Forgot capacity s (record { ordered_sequences = ys; sequence_set = set })
unfolding seen
Forgot-stop capacity s ys set e d m l = record {
  synced = record { same = e; distinct = d };
  kept = e s ∙ m;
  bounded = l;
}

forget-Forgot :
    (capacity s : ℕ) (xs set : List ℕ)
    → 0 < capacity
    → ((t : ℕ) → member t set ≡ member t (xs ++ s ∷ []))
    → Distinct (xs ++ s ∷ [])
    → Forgot capacity s (forget capacity (xs ++ s ∷ []) set)
unfolding forget
forget-Forgot capacity s [] set c e d =
    let f : ltb capacity 1 ≡ false = ground arith in
    rw f (Forgot-stop capacity s (s ∷ []) set e d (member_last [] s) (omega arith))
forget-Forgot capacity s (x ∷ xs) set c e d =
    elim (Bool-cases (ltb capacity (length (x ∷ (xs ++ s ∷ []))))) [
      | inl t ↦ rw t (
          forget-Forgot capacity s xs (remove x set) c (synced_tail x (xs ++ s ∷ []) set e d.0) d.1)
      | inr t ↦ rw t (
          Forgot-stop capacity s (x ∷ (xs ++ s ∷ [])) set e d (member_last (x ∷ xs) s)
            (ground arith))
    ]

inserted :
    (s t : ℕ) (h : DuplicateMergeHistory)
    → IsSynced h
    → seen h s ≡ false
    → member t (if member s h.sequence_set then h.sequence_set else s ∷ h.sequence_set)
      ≡ member t (h.ordered_sequences ++ s ∷ [])
unfolding seen
inserted s t h v n =
    let m = member-append t h.ordered_sequences (s ∷ []) in let e = v.same t in rw n (ground arith)

-- Remembering a number that is new to a history in step keeps the history in step and within its
-- capacity, which is positive, and the number is known afterwards: the loop that forgets the oldest
-- never takes the newest.
pub remember-IsSynced :
    (h : DuplicateMergeHistory) (s capacity : ℕ)
    → IsSynced h
    → seen h s ≡ false
    → 0 < capacity
    → IsSynced (remember h s capacity)
      × (seen (remember h s capacity) s ≡ true)
      × (length (remember h s capacity).ordered_sequences ≤ capacity)
unfolding remember
remember-IsSynced h s capacity v n c =
    let f =
      forget-Forgot capacity s h.ordered_sequences
        (if member s h.sequence_set then h.sequence_set else s ∷ h.sequence_set) c
        (λ t. inserted s t h v n)
        (Distinct-append h.ordered_sequences s v.distinct (unfold seen in sym (v.same s) ∙ n)) in
    (f.synced, f.kept, f.bounded)
