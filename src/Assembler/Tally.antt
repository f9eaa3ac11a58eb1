-- ===== src/Assembler/Tally.antt =====
-- What `mark_written` does to the flags of one plane and to the counters.
use st2110_obs_plugin.Base.{
  ℕ, zero, suc, ◌+◌, ◌≡◌, inl, inr, refl, ap, ◌∙◌, Bool, true, false, not, ◌&&◌, ◌||◌, some, List,
  [], ◌∷◌, length, get_elem?, get_or, set, ltb, leb, ◌==◌, if◌then◌else◌, Bool-cases, Option-cases,
  arith, returns, and_then-returns, length-set,
}
use st2110_obs_plugin.Assembler.{PlaneWriteCoverage, mark_byte, mark_bytes}

-- Is the byte marked as written?
abbrev pub flag : List ℕ → ℕ → Bool
flag bytes i = not (get_or bytes i 0 == 0)

unfoldable pub unwritten : List ℕ → ℕ
unwritten [] = 0
unwritten (x ∷ xs) = let rest = unwritten xs in if x == 0 then suc rest else rest

abbrev pub within : ℕ → ℕ → ℕ → Bool
within start count i = leb start i && ltb i (start + count)

unwritten-set :
    (xs : List ℕ) (i : ℕ) → get_elem? xs i ≡ some 0 → unwritten (set xs i 1) + 1 ≡ unwritten xs
unfolding unwritten
unwritten-set [] i h = absurd (ground arith)
unwritten-set (x ∷ xs) zero h = ground arith
unwritten-set (x ∷ xs) (suc i) h = let r = unwritten-set xs i h in ground arith

flag-set :
    (xs : List ℕ) (i j : ℕ) {x : ℕ}
    → get_elem? xs i ≡ some x
    → flag (set xs i 1) j ≡ flag xs j || within i 1 j
flag-set [] i j h = absurd (ground arith)
flag-set (x ∷ xs) zero zero h = ground arith
flag-set (x ∷ xs) zero (suc j) h = ground arith
flag-set (x ∷ xs) (suc i) zero h = ground arith
flag-set (x ∷ xs) (suc i) (suc j) h = let r = flag-set xs i j h in ground arith

flag_there :
    (xs : List ℕ) (i j : ℕ) {x : ℕ}
    → get_elem? xs i ≡ some x
    → (x == 0) ≡ false
    → flag xs j ≡ flag xs j || within i 1 j
flag_there [] i j h k = absurd (ground arith)
flag_there (x ∷ xs) zero zero h k = ground arith
flag_there (x ∷ xs) zero (suc j) h k = ground arith
flag_there (x ∷ xs) (suc i) zero h k = ground arith
flag_there (x ∷ xs) (suc i) (suc j) h k = let r = flag_there xs i j h k in ground arith

-- The bytes from `start` on are marked, and the counters go up by those that were not.
pub record Marked (p : PlaneWriteCoverage) (t start count : ℕ) (p' : PlaneWriteCoverage) (t' : ℕ)
    : Type 0 where
  pub same_row : p'.active_row_bytes ≡ p.active_row_bytes
  pub same_size : length p'.written ≡ length p.written
  pub flags : (j : ℕ) → flag p'.written j ≡ flag p.written j || within start count j
  pub tally :
      p'.written_unique_bytes + unwritten p'.written ≡ p.written_unique_bytes + unwritten p.written
  pub total : t' + p.written_unique_bytes ≡ t + p'.written_unique_bytes

Marked-new :
    (p : PlaneWriteCoverage) (t i : ℕ) {x : ℕ}
    → get_elem? p.written i ≡ some x
    → (x == 0) ≡ true
    → Marked p t i 1
        (record p {
          written = set p.written i 1;
          written_unique_bytes = p.written_unique_bytes + 1;
        })
        (t + 1)
Marked-new p t i {x} e z = record {
  same_row = refl;
  same_size = length-set p.written i 1;
  flags = λ j. flag-set p.written i j e;
  tally = omega (arith, unwritten-set p.written i (e ∙ ap some (ground arith)));
  total = omega arith;
}

mark_byte-Marked :
    (p : PlaneWriteCoverage) (t i : ℕ) {p' : PlaneWriteCoverage} {t' : ℕ}
    → mark_byte p t i ≡ returns (p', t')
    → Marked p t i 1 p' t'
unfolding mark_byte
mark_byte-Marked p t i {p'} {t'} h = elim (Option-cases (get_elem? p.written i)) [
  | inl e ↦ absurd (ground arith)
  | inr (x, e) ↦ elim (Bool-cases (x == 0)) [
    | inl z ↦
        let q : p' ≡ record p {
          written = set p.written i 1;
          written_unique_bytes = p.written_unique_bytes + 1;
        } =
          ground arith in
        let u : t' ≡ t + 1 = ground arith in rw (q, u) (Marked-new p t i e z)
    | inr z ↦
        let q : p' ≡ p = ground arith in
        let u : t' ≡ t = ground arith in
        rw (q, u)
          (record {
            same_row = refl;
            same_size = refl;
            flags = λ j. flag_there p.written i j e z;
            tally = refl;
            total = refl;
          })
  ]
]

Marked-then :
    (n : ℕ) (p : PlaneWriteCoverage) (t i : ℕ) (q : PlaneWriteCoverage) (u : ℕ)
    (p' : PlaneWriteCoverage) (t' : ℕ)
    → Marked p t i 1 q u
    → Marked q u (i + 1) n p' t'
    → Marked p t i (suc n) p' t'
Marked-then n p t i q u p' t' a b = record {
  same_row = b.same_row ∙ a.same_row;
  same_size = b.same_size ∙ a.same_size;
  flags = λ j. let f = a.flags j in let g = b.flags j in ground arith;
  tally = b.tally ∙ a.tally;
  total = omega (arith, a.total, b.total);
}

pub mark_bytes-Marked :
    (n : ℕ) (p : PlaneWriteCoverage) (t i : ℕ) {p' : PlaneWriteCoverage} {t' : ℕ}
    → mark_bytes n p t i ≡ returns (p', t')
    → Marked p t i n p' t'
unfolding mark_bytes
mark_bytes-Marked zero p t i {p'} {t'} h =
    let q : p' ≡ p = ground arith in
    let u : t' ≡ t = ground arith in
    rw (q, u)
      (record {
        same_row = refl;
        same_size = refl;
        flags = λ j. ground arith;
        tally = refl;
        total = refl;
      })
mark_bytes-Marked (suc n) p t i {p'} {t'} h =
    let (s, e, k) = and_then-returns (mark_byte p t i) _ h in
    Marked-then n p t i s.0 s.1 p' t' (mark_byte-Marked p t i e)
      (mark_bytes-Marked n s.0 s.1 (i + 1) k)
