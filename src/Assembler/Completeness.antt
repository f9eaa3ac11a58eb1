-- ===== src/Assembler/Completeness.antt =====
-- A frame counts as complete exactly when each of its bytes has been written.
use st2110_obs_plugin.Base.{
  ℕ, zero, suc, ◌+◌, ◌*◌, ◌≤◌, ◌<◌, ◌≡◌, ◌≢◌, ◌↔◌, inl, inr, refl, sym, ◌∙◌, subst, Bool, true,
  false, ◌&&◌, ◌||◌, some, List, [], ◌∷◌, map, length, get_elem?, set, replicate, ◌==◌,
  Option-cases, arith, Outcome, returns, and_then, and_then-returns, length-replicate,
}
use st2110_obs_plugin.VideoFrame.{Plane, VideoFrame}
use st2110_obs_plugin.Assembler.{
  PlaneWriteCoverage, FrameWriteCoverage, cover_plane, expected_sum, reset_from, mark_bytes,
  mark_written, is_complete,
}
use st2110_obs_plugin.Assembler.Tally.{flag, unwritten, within, Marked, mark_bytes-Marked}

-- One call of `mark_written`.
pub record Write : Type 0 where
  pub plane : ℕ
  pub row : ℕ
  pub byte_offset : ℕ
  pub count : ℕ

-- Does the call write the byte `j` of the plane `k`, whose rows take `row_bytes`?
abbrev pub hits : Write → ℕ → ℕ → ℕ → Bool
hits w k row_bytes j = w.plane == k && within (w.row * row_bytes + w.byte_offset) w.count j

abbrev pub covered : List Write → ℕ → ℕ → ℕ → Bool
covered [] k row_bytes j = false
covered (w ∷ ws) k row_bytes j = hits w k row_bytes j || covered ws k row_bytes j

unfoldable pub mark_all : FrameWriteCoverage → List Write → Outcome FrameWriteCoverage
unfolding mark_written
mark_all c [] = returns c
mark_all c (w ∷ ws) =
    and_then (mark_written c w.plane w.row w.byte_offset w.count) (λ marked. mark_all marked ws)

-- The flags of a plane are those of the bytes that the history `h` says are written.
record Follows (h : ℕ → ℕ → ℕ → Bool) (k : ℕ) (p : Plane) (q : PlaneWriteCoverage) : Type 0 where
  same_row : q.active_row_bytes ≡ p.active_row_bytes
  size : length q.written ≡ p.active_row_bytes * p.height_rows
  tally : q.written_unique_bytes + unwritten q.written ≡ length q.written
  flags : (j : ℕ) → flag q.written j ≡ h k p.active_row_bytes j

abbrev AllFollow : (ℕ → ℕ → ℕ → Bool) → ℕ → List Plane → List PlaneWriteCoverage → Type 0
AllFollow h k [] [] = Unit
AllFollow h k (p ∷ ps) (q ∷ qs) = Follows h k p q × AllFollow h (k + 1) ps qs
AllFollow h k _ _ = ⊥

abbrev unique_sum : List PlaneWriteCoverage → ℕ
unique_sum [] = 0
unique_sum (q ∷ qs) = q.written_unique_bytes + unique_sum qs

abbrev unwritten_sum : List PlaneWriteCoverage → ℕ
unwritten_sum [] = 0
unwritten_sum (q ∷ qs) = unwritten q.written + unwritten_sum qs

record State (h : ℕ → ℕ → ℕ → Bool) (ps : List Plane) (c : FrameWriteCoverage) : Type 0 where
  follow : AllFollow h 0 ps c.planes
  expected : c.total_expected_bytes ≡ expected_sum ps
  total : c.total_written_unique_bytes ≡ unique_sum c.planes

unwritten-replicate : (n : ℕ) → unwritten (replicate n 0) ≡ n
unfolding unwritten
unwritten-replicate zero = refl
unwritten-replicate (suc n) = let r = unwritten-replicate n in ground arith

flag-replicate : (n j : ℕ) → flag (replicate n 0) j ≡ false
flag-replicate zero j = refl
flag-replicate (suc n) zero = refl
flag-replicate (suc n) (suc j) = flag-replicate n j

abbrev never : ℕ → ℕ → ℕ → Bool
never k row_bytes j = false

start-Follows : (k : ℕ) (p : Plane) → Follows never k p (cover_plane p)
start-Follows k p = record {
  same_row = refl;
  size = length-replicate {A = ℕ} (p.active_row_bytes * p.height_rows) 0;
  tally = omega (
    arith,
    unwritten-replicate (p.active_row_bytes * p.height_rows),
    length-replicate {A = ℕ} (p.active_row_bytes * p.height_rows) 0,
  );
  flags = λ j. flag-replicate (p.active_row_bytes * p.height_rows) j;
}

start-AllFollow :
    (k : ℕ) (ps : List Plane)
    → AllFollow never k ps (map cover_plane ps) × (unique_sum (map cover_plane ps) ≡ 0)
start-AllFollow k [] = (tt, refl)
start-AllFollow k (p ∷ ps) =
    let r = start-AllFollow (k + 1) ps in ((start-Follows k p, r.0), omega (arith, r.1))

start-State : (f : VideoFrame) → State never f.planes (reset_from f)
unfolding reset_from
start-State f =
    let r = start-AllFollow 0 f.planes in record { follow = r.0; expected = refl; total = sym r.1 }

-- A change of history that no plane from `k` on sees.
AllFollow-map :
    (h h' : ℕ → ℕ → ℕ → Bool) (k : ℕ) (ps : List Plane) (qs : List PlaneWriteCoverage)
    → ((l : ℕ) (p : Plane) (r : PlaneWriteCoverage) → k ≤ l → Follows h l p r → Follows h' l p r)
    → AllFollow h k ps qs
    → AllFollow h' k ps qs
AllFollow-map h h' k [] [] there f = tt
AllFollow-map h h' k [] (x ∷ xs) there f = f
AllFollow-map h h' k (p ∷ ps) [] there f = f
AllFollow-map h h' k (p ∷ ps) (x ∷ xs) there f = (
  there k p x (omega arith) f.0,
  AllFollow-map h h' (k + 1) ps xs (λ l p r g. there l p r (omega arith)) f.1,
)

-- One plane changes, the one at `target`.
AllFollow-set :
    (h h' : ℕ → ℕ → ℕ → Bool) (target k i : ℕ) (ps : List Plane) (qs : List PlaneWriteCoverage)
    {q q' : PlaneWriteCoverage}
    → k + i ≡ target
    → get_elem? qs i ≡ some q
    → ((p : Plane) → Follows h target p q → Follows h' target p q')
    → ((l : ℕ) (p : Plane) (r : PlaneWriteCoverage)
        → l ≢ target
        → Follows h l p r
        → Follows h' l p r)
    → AllFollow h k ps qs
    → AllFollow h' k ps (set qs i q')
AllFollow-set h h' t k i [] [] m e here there f = absurd (ground arith)
AllFollow-set h h' t k i [] (x ∷ xs) m e here there f = absurd f
AllFollow-set h h' t k i (p ∷ ps) [] m e here there f = absurd f
AllFollow-set h h' t k zero (p ∷ ps) (x ∷ xs) {q} {q'} m e here there f =
    let n : t ≡ k = omega arith in
    let y : x ≡ q = ground arith in
    (
      subst (λ l. Follows h' l p q') n
          (here p (subst (λ r. Follows h t p r) y (subst (λ l. Follows h l p x) (sym n) f.0))),
      AllFollow-map h h' (k + 1) ps xs (λ l p r g. there l p r (omega arith)) f.1,
    )
AllFollow-set h h' t k (suc i) (p ∷ ps) (x ∷ xs) m e here there f = (
  there k p x (omega arith) f.0,
  AllFollow-set h h' t (k + 1) i ps xs (omega arith) e here there f.1,
)

unique_sum-set :
    (qs : List PlaneWriteCoverage) (i : ℕ) {q : PlaneWriteCoverage} (q' : PlaneWriteCoverage)
    → get_elem? qs i ≡ some q
    → unique_sum (set qs i q') + q.written_unique_bytes ≡ unique_sum qs + q'.written_unique_bytes
unique_sum-set [] i q' e = absurd (ground arith)
unique_sum-set (x ∷ xs) zero q' e = ground arith
unique_sum-set (x ∷ xs) (suc i) q' e = omega (arith, unique_sum-set xs i q' e)

-- The history with one call more.
abbrev then_hits : (ℕ → ℕ → ℕ → Bool) → Write → ℕ → ℕ → ℕ → Bool
then_hits h w k row_bytes j = h k row_bytes j || hits w k row_bytes j

Follows-other :
    (h : ℕ → ℕ → ℕ → Bool) (w : Write) (l : ℕ) (p : Plane) (r : PlaneWriteCoverage)
    → l ≢ w.plane
    → Follows h l p r
    → Follows (then_hits h w) l p r
Follows-other h w l p r n f = record {
  same_row = f.same_row;
  size = f.size;
  tally = f.tally;
  flags = λ j. let g = f.flags j in ground arith;
}

Follows-here :
    (h : ℕ → ℕ → ℕ → Bool) (w : Write) (p : Plane) (q q' : PlaneWriteCoverage) (t t' : ℕ)
    → Marked q t (w.row * q.active_row_bytes + w.byte_offset) w.count q' t'
    → Follows h w.plane p q
    → Follows (then_hits h w) w.plane p q'
Follows-here h w p q q' t t' m f = record {
  same_row = m.same_row ∙ f.same_row;
  size = m.same_size ∙ f.size;
  tally = omega (arith, m.tally, f.tally, m.same_size);
  flags = λ j.
      let g = f.flags j in
      let k =
        subst
          (λ b.
            flag q'.written j ≡ flag q.written j || within (w.row * b + w.byte_offset) w.count j)
          f.same_row (m.flags j) in
      ground arith;
}

mark_written-State :
    (h : ℕ → ℕ → ℕ → Bool) (ps : List Plane) (w : Write) (c c' : FrameWriteCoverage)
    → mark_written c w.plane w.row w.byte_offset w.count ≡ returns c'
    → State h ps c
    → State (then_hits h w) ps c'
unfolding mark_written
mark_written-State h ps w c c' e s = elim (Option-cases (get_elem? c.planes w.plane)) [
  | inl n ↦ absurd (ground arith)
  | inr (q, n) ↦
      let base = w.row * q.active_row_bytes + w.byte_offset in
      let (r, m, g) =
        and_then-returns (mark_bytes w.count q c.total_written_unique_bytes base) _
          (rw (n, mark_written) at e) in
      let k = mark_bytes-Marked w.count q c.total_written_unique_bytes base m in
      let u : c'
          ≡ record c { planes = set c.planes w.plane r.0; total_written_unique_bytes = r.1 } =
        ground arith in
      rw u (record {
        follow =
            AllFollow-set h (then_hits h w) w.plane 0 w.plane ps c.planes (omega arith) n
              (λ p f. Follows-here h w p q r.0 c.total_written_unique_bytes r.1 k f)
              (λ l p x d f. Follows-other h w l p x d f) s.follow;
        expected = s.expected;
        total = omega (arith, s.total, k.total, unique_sum-set c.planes w.plane r.0 n);
      })
]

abbrev then_all : (ℕ → ℕ → ℕ → Bool) → List Write → ℕ → ℕ → ℕ → Bool
then_all h [] = h
then_all h (w ∷ ws) = then_all (then_hits h w) ws

mark_all-State :
    (h : ℕ → ℕ → ℕ → Bool) (ps : List Plane) (ws : List Write) (c c' : FrameWriteCoverage)
    → mark_all c ws ≡ returns c'
    → State h ps c
    → State (then_all h ws) ps c'
unfolding mark_all
mark_all-State h ps [] c c' e s = let u : c' ≡ c = ground arith in rw u s
mark_all-State h ps (w ∷ ws) c c' e s =
    let (d, m, g) = and_then-returns (mark_written c w.plane w.row w.byte_offset w.count) _ e in
    mark_all-State (then_hits h w) ps ws d c' g (mark_written-State h ps w c d m s)

then_all-covered :
    (h : ℕ → ℕ → ℕ → Bool) (ws : List Write) (k row_bytes j : ℕ)
    → then_all h ws k row_bytes j ≡ h k row_bytes j || covered ws k row_bytes j
then_all-covered h [] k b j = ground arith
then_all-covered h (w ∷ ws) k b j =
    let r = then_all-covered (then_hits h w) ws k b j in ground arith

flag_of-unwritten : (xs : List ℕ) (j : ℕ) → unwritten xs ≡ 0 → j < length xs → flag xs j ≡ true
unfolding unwritten
flag_of-unwritten [] j u h = absurd (omega arith)
flag_of-unwritten (x ∷ xs) zero u h = ground arith
flag_of-unwritten (x ∷ xs) (suc j) u h = flag_of-unwritten xs j (ground arith) (omega arith)

unwritten_of-flag : (xs : List ℕ) → ((j : ℕ) → j < length xs → flag xs j ≡ true) → unwritten xs ≡ 0
unfolding unwritten
unwritten_of-flag [] f = refl
unwritten_of-flag (x ∷ xs) f =
    let z = f 0 (omega arith) in
    let r = unwritten_of-flag xs (λ j h. f (suc j) (omega arith)) in ground arith

-- Every byte of every plane, from the plane `k` on, is written by some call.
abbrev pub AllCovered : List Write → ℕ → List Plane → Type 0
AllCovered ws k [] = Unit
AllCovered ws k (p ∷ ps) =
    ((j : ℕ) → j < p.active_row_bytes * p.height_rows → covered ws k p.active_row_bytes j ≡ true)
    × AllCovered ws (k + 1) ps

abbrev Tracks : List Write → (ℕ → ℕ → ℕ → Bool) → Type 0
Tracks ws h = (k row_bytes j : ℕ) → h k row_bytes j ≡ covered ws k row_bytes j

sums :
    (h : ℕ → ℕ → ℕ → Bool) (k : ℕ) (ps : List Plane) (qs : List PlaneWriteCoverage)
    → AllFollow h k ps qs
    → unique_sum qs + unwritten_sum qs ≡ expected_sum ps
unfolding expected_sum
sums h k [] [] f = refl
sums h k [] (x ∷ xs) f = absurd f
sums h k (p ∷ ps) [] f = absurd f
sums h k (p ∷ ps) (x ∷ xs) f = omega (arith, sums h (k + 1) ps xs f.1, f.0.tally, f.0.size)

covered_of-unwritten :
    (ws : List Write) (h : ℕ → ℕ → ℕ → Bool) (k : ℕ) (ps : List Plane)
    (qs : List PlaneWriteCoverage)
    → Tracks ws h
    → AllFollow h k ps qs
    → unwritten_sum qs ≡ 0
    → AllCovered ws k ps
covered_of-unwritten ws h k [] [] t f z = tt
covered_of-unwritten ws h k [] (x ∷ xs) t f z = absurd f
covered_of-unwritten ws h k (p ∷ ps) [] t f z = absurd f
covered_of-unwritten ws h k (p ∷ ps) (x ∷ xs) t f z = (
  λ j b.
      sym (t k p.active_row_bytes j)
      ∙ sym (f.0.flags j)
      ∙ flag_of-unwritten x.written j (omega arith) (omega (arith, f.0.size)),
  covered_of-unwritten ws h (k + 1) ps xs t f.1 (omega arith),
)

unwritten_of-covered :
    (ws : List Write) (h : ℕ → ℕ → ℕ → Bool) (k : ℕ) (ps : List Plane)
    (qs : List PlaneWriteCoverage)
    → Tracks ws h
    → AllFollow h k ps qs
    → AllCovered ws k ps
    → unwritten_sum qs ≡ 0
unwritten_of-covered ws h k [] [] t f c = refl
unwritten_of-covered ws h k [] (x ∷ xs) t f c = absurd f
unwritten_of-covered ws h k (p ∷ ps) [] t f c = absurd f
unwritten_of-covered ws h k (p ∷ ps) (x ∷ xs) t f c = omega (
  arith,
  unwritten_of-covered ws h (k + 1) ps xs t f.1 c.1,
  unwritten_of-flag x.written
      (λ j b. f.0.flags j ∙ t k p.active_row_bytes j ∙ c.0 j (omega (arith, f.0.size))),
)

-- After a reset to a frame of some bytes and any calls of `mark_written` that stay inside its planes,
-- the coverage is complete exactly when each byte of each plane was written by one of the calls,
-- however often and in whatever order.
pub is_complete-covered :
    (f : VideoFrame) (ws : List Write) {c : FrameWriteCoverage}
    → mark_all (reset_from f) ws ≡ returns c
    → 0 < expected_sum f.planes
    → (is_complete c ≡ true) ↔ AllCovered ws 0 f.planes
unfolding is_complete
is_complete-covered f ws {c} e pos =
    let s = mark_all-State never f.planes ws (reset_from f) c e (start-State f) in
    let t : Tracks ws (then_all never ws) = λ k b j. then_all-covered never ws k b j in
    let n = sums (then_all never ws) 0 f.planes c.planes s.follow in
    let x = s.expected in
    let y = s.total in
    (
      λ h.
          covered_of-unwritten ws (then_all never ws) 0 f.planes c.planes t s.follow (ground arith),
      λ h.
          let z = unwritten_of-covered ws (then_all never ws) 0 f.planes c.planes t s.follow h in
          ground arith,
    )
