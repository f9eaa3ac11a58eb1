-- ===== src/Reorder/Entries.antt =====
-- `std::map<std::uint32_t, T>` as the reorder buffer uses it: the entries in the order of their
-- keys, which are distinct.
use st2110_obs_plugin.Base.{
  ℕ, ◌<◌, ◌≤◌, ◌≡◌, ◌≢◌, refl, subst, inl, inr, Bool, true, false, Option, none, some, List, [],
  ◌∷◌, ltb, ltb→lt, ◌==◌, if◌then◌else◌, Bool-cases, All, arith, length, ◌+◌,
}

pub record Entry {ℓ} (A : Type ℓ) : Type ℓ where
  pub key : ℕ
  pub item : A

module _ {ℓ} {A : Type ℓ} where
  abbrev pub is_empty : List (Entry A) → Bool
  is_empty [] = true
  is_empty (e ∷ es) = false

  unfoldable pub find : ℕ → List (Entry A) → Option A
  find k [] = none
  find k (e ∷ es) = if e.key == k then some e.item else find k es

  unfoldable pub contains : ℕ → List (Entry A) → Bool
  contains k [] = false
  contains k (e ∷ es) = if e.key == k then true else contains k es

  -- Inserts at the key's place, and changes nothing if the key is there.
  unfoldable pub emplace : ℕ → A → List (Entry A) → List (Entry A)
  emplace k a [] = record { key = k; item = a } ∷ []
  emplace k a (e ∷ es) =
      if ltb k e.key
      then record { key = k; item = a } ∷ e ∷ es
      else if e.key == k
      then e ∷ es
      else e ∷ emplace k a es

  unfoldable pub erase : ℕ → List (Entry A) → List (Entry A)
  erase k [] = []
  erase k (e ∷ es) = if e.key == k then es else e ∷ erase k es

  -- Keys rise along the list.
  abbrev pub Above : ℕ → List (Entry A) → Type 0
  Above n [] = Unit
  Above n (e ∷ es) = (n < e.key) × Above e.key es

  abbrev pub IsOrdered : List (Entry A) → Type 0
  IsOrdered [] = Unit
  IsOrdered (e ∷ es) = Above e.key es

module _ {ℓ κ} {A : Type ℓ} (P : Entry A → Type κ) where
  pub All-emplace :
      (k : ℕ) (a : A) (es : List (Entry A))
      → P (record { key = k; item = a })
      → All P es
      → All P (emplace k a es)
  unfolding emplace
  All-emplace k a [] p h = (p, tt)
  All-emplace k a (e ∷ es) p h = elim (Bool-cases (ltb k e.key)) [
    | inl t ↦ rw t (p, h)
    | inr t ↦ elim (Bool-cases (e.key == k)) [
      | inl s ↦ rw (t, s) h
      | inr s ↦ rw (t, s) (h.0, All-emplace k a es p h.1)
    ]
  ]

  pub All-erase : (k : ℕ) (es : List (Entry A)) → All P es → All P (erase k es)
  unfolding erase
  All-erase k [] h = tt
  All-erase k (e ∷ es) h = elim (Bool-cases (e.key == k)) [
    | inl t ↦ rw t h.1
    | inr t ↦ rw t (h.0, All-erase k es h.1)
  ]

  pub All-map {μ} :
      (Q : Entry A → Type μ) (es : List (Entry A))
      → ((e : Entry A) → P e → Q e)
      → All P es
      → All Q es
  All-map Q [] f h = tt
  All-map Q (e ∷ es) f h = (f e h.0, All-map Q es f h.1)

  pub find-All :
      (k : ℕ) (es : List (Entry A)) (a : A)
      → All P es
      → find k es ≡ some a
      → P (record { key = k; item = a })
  unfolding find
  find-All k [] a h e = absurd (ground arith)
  find-All k (x ∷ es) a h e = elim (Bool-cases (x.key == k)) [
    | inl t ↦ subst P (ground arith) h.0
    | inr t ↦ find-All k es a h.1 (ground arith)
  ]

module _ {ℓ} {A : Type ℓ} where
  pub Above-mono : (m n : ℕ) (es : List (Entry A)) → m ≤ n → Above n es → Above m es
  Above-mono m n [] h a = tt
  Above-mono m n (e ∷ es) h a = (omega arith, a.1)

  pub IsOrdered-tail : (e : Entry A) (es : List (Entry A)) → IsOrdered (e ∷ es) → IsOrdered es
  IsOrdered-tail e [] h = tt
  IsOrdered-tail e (x ∷ es) h = h.1

  Above-emplace :
      (n k : ℕ) (a : A) (es : List (Entry A)) → n < k → Above n es → Above n (emplace k a es)
  unfolding emplace
  Above-emplace n k a [] h o = (h, tt)
  Above-emplace n k a (e ∷ es) h o = elim (Bool-cases (ltb k e.key)) [
    | inl t ↦ rw t (h, (ltb→lt k e.key t, o.1))
    | inr t ↦ elim (Bool-cases (e.key == k)) [
      | inl s ↦ rw (t, s) o
      | inr s ↦ rw (t, s) (o.0, Above-emplace e.key k a es (ground arith) o.1)
    ]
  ]

  pub emplace-IsOrdered :
      (k : ℕ) (a : A) (es : List (Entry A)) → IsOrdered es → IsOrdered (emplace k a es)
  unfolding emplace
  emplace-IsOrdered k a [] h = tt
  emplace-IsOrdered k a (e ∷ es) h = elim (Bool-cases (ltb k e.key)) [
    | inl t ↦ rw t (ltb→lt k e.key t, h)
    | inr t ↦ elim (Bool-cases (e.key == k)) [
      | inl s ↦ rw (t, s) h
      | inr s ↦ rw (t, s) (Above-emplace e.key k a es (ground arith) h)
    ]
  ]

  Above-erase : (n k : ℕ) (es : List (Entry A)) → Above n es → Above n (erase k es)
  unfolding erase
  Above-erase n k [] h = tt
  Above-erase n k (e ∷ es) h = elim (Bool-cases (e.key == k)) [
    | inl t ↦ rw t (Above-mono n e.key es (omega arith) h.1)
    | inr t ↦ rw t (h.0, Above-erase e.key k es h.1)
  ]

  pub erase-IsOrdered : (k : ℕ) (es : List (Entry A)) → IsOrdered es → IsOrdered (erase k es)
  unfolding erase
  erase-IsOrdered k [] h = tt
  erase-IsOrdered k (e ∷ es) h = elim (Bool-cases (e.key == k)) [
    | inl t ↦ rw t (IsOrdered-tail e es h)
    | inr t ↦ rw t (Above-erase e.key k es h)
  ]

  Above-ne : (n k : ℕ) (es : List (Entry A)) → k ≤ n → Above n es → All (λ e. e.key ≢ k) es
  Above-ne n k [] h a = tt
  Above-ne n k (e ∷ es) h a = (omega arith, Above-ne e.key k es (omega arith) a.1)

  -- After the erasure no entry has the key.
  pub erase-ne : (k : ℕ) (es : List (Entry A)) → IsOrdered es → All (λ e. e.key ≢ k) (erase k es)
  unfolding erase
  erase-ne k [] h = tt
  erase-ne k (e ∷ es) h = elim (Bool-cases (e.key == k)) [
    | inl t ↦ rw t (Above-ne e.key k es (ground arith) h)
    | inr t ↦ rw t (ground arith, erase-ne k es (IsOrdered-tail e es h))
  ]

  pub contains-ne : (k : ℕ) (es : List (Entry A)) → contains k es ≡ false → All (λ e. e.key ≢ k) es
  unfolding contains
  contains-ne k [] h = tt
  contains-ne k (e ∷ es) h = (ground arith, contains-ne k es (ground arith))

  pub contains-find : (k : ℕ) (es : List (Entry A)) → find k es ≡ none → contains k es ≡ false
  unfolding contains find
  contains-find k [] h = refl
  contains-find k (e ∷ es) h = ground (arith, contains-find k es)

  pub All-and {κ μ} :
      (P : Entry A → Type κ) (Q : Entry A → Type μ) (es : List (Entry A))
      → All P es
      → All Q es
      → All (λ e. P e × Q e) es
  All-and P Q [] h k = tt
  All-and P Q (e ∷ es) h k = ((h.0, k.0), All-and P Q es h.1 k.1)

  pub length-erase : (k : ℕ) (es : List (Entry A)) → length es ≤ length (erase k es) + 1
  unfolding erase
  length-erase k [] = omega arith
  length-erase k (e ∷ es) = ground (arith, length-erase k es)

  pub find-emplace :
      (k : ℕ) (a : A) (es : List (Entry A))
      → contains k es ≡ false
      → find k (emplace k a es) ≡ some a
  unfolding find emplace contains
  find-emplace k a [] h = ground arith
  find-emplace k a (e ∷ es) h = ground (arith, find-emplace k a es)
