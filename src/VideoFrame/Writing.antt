-- ===== src/VideoFrame/Writing.antt =====
-- Writing into the bytes of a frame: the bytes land where they should, and the rest stays.
use st2110_obs_plugin.Base.{
  ℕ, ◌+◌, ◌≤◌, ◌≡◌, sym, ap, subst, ◌∙◌, Bool-cases, inl, inr, List, ◌++◌, length, take, drop, ltb,
  arith, returns, length-append, length-take, length-drop, take-append, drop-append,
}
use mathlib.Core.List.{append_assoc}
use st2110_obs_plugin.VideoFrame.{copy_bytes}

-- `out` is `target` with `bytes` at the position.
pub record Copied (target : List ℕ) (position : ℕ) (bytes : List ℕ) (out : List ℕ) : Type 0 where
  pub same_length : length out ≡ length target
  pub inside : position + length bytes ≤ length target
  pub before : take position out ≡ take position target
  pub there : take (length bytes) (drop position out) ≡ bytes
  pub after : drop (position + length bytes) out ≡ drop (position + length bytes) target

take_first : {A : Type 0} (n : ℕ) (xs ys : List A) → length xs ≡ n → take n (xs ++ ys) ≡ xs
take_first n xs ys e = subst (λ k. take k (xs ++ ys) ≡ xs) e (take-append xs ys)

drop_first : {A : Type 0} (n : ℕ) (xs ys : List A) → length xs ≡ n → drop n (xs ++ ys) ≡ ys
drop_first n xs ys e = subst (λ k. drop k (xs ++ ys) ≡ ys) e (drop-append xs ys)

copied :
    (target bytes : List ℕ) (position : ℕ)
    → position + length bytes ≤ length target
    → Copied target position bytes
        (take position target ++ (bytes ++ drop (position + length bytes) target))
copied target bytes position h =
    let n : length (take position target) ≡ position = omega (arith, length-take position target) in
    let rest = drop (position + length bytes) target in
    record {
      same_length = omega (
        arith,
        length-append (take position target) (bytes ++ rest),
        length-append bytes rest,
        length-take position target,
        length-drop (position + length bytes) target,
      );
      inside = h;
      before = take_first position (take position target) (bytes ++ rest) n;
      there =
          ap (take (length bytes)) (drop_first position (take position target) (bytes ++ rest) n)
          ∙ take-append bytes rest;
      after =
          ap (drop (position + length bytes)) (sym (append_assoc (take position target) bytes rest))
          ∙ drop_first (position + length bytes) (take position target ++ bytes) rest
              (omega (arith, length-append (take position target) bytes, n));
    }

-- A copy that is defined puts the bytes at the position, inside the target, and leaves every other
-- byte and the length as they were.
pub copy_bytes-Copied :
    (target bytes : List ℕ) (position : ℕ) {out : List ℕ}
    → copy_bytes target position bytes ≡ returns out
    → Copied target position bytes out
unfolding copy_bytes
copy_bytes-Copied target bytes position {out} e =
    elim (Bool-cases (ltb (length target) (position + length bytes))) [
      | inl t ↦ absurd (ground arith)
      | inr t ↦
          let u : take position target ++ (bytes ++ drop (position + length bytes) target) ≡ out =
            ground arith in
          subst (Copied target position bytes) u (copied target bytes position (ground arith))
    ]
