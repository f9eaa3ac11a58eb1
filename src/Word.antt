-- ===== src/Word.antt =====
-- Machine words as numbers with their bound: the fields that the worker's messages carry, where a
-- round trip is exact because a field cannot hold more than its width.
use mathlib.Core.HLevel.{is_prop→PathP}
use native.Mathlib.Nat.{mod-lt, mod-eq_of_lt}
use native.Mathlib.Bridge.{le_prop}
use st2110_obs_plugin.Base.{ℕ, ◌%◌, ◌^◌, ◌<◌, ◌≡◌, arith, suc}

-- An unsigned integer of `w` bits.
pub record Word (w : ℕ) : Type 0 where
  pub value : ℕ
  pub bound : value < 2 ^ w

abbrev pub U8 : Type 0
U8 = Word 8

abbrev pub U16 : Type 0
U16 = Word 16

abbrev pub U32 : Type 0
U32 = Word 32

abbrev pub U64 : Type 0
U64 = Word 64

pub pow-pos : (w : ℕ) → 0 < 2 ^ w
pow-pos ℕ.zero = omega arith
pow-pos (suc w) = omega (arith, pow-pos w)

-- `static_cast` to the unsigned type of `w` bits: the low bits of the number.
unfoldable pub word : (w : ℕ) → ℕ → Word w
word w n = record { value = n % 2 ^ w; bound = mod-lt n (pow-pos w) }

pub Word_path : {w : ℕ} (a b : Word w) → a.value ≡ b.value → a ≡ b
Word_path {w} a b e = λ i. record {
  value = e i;
  bound = is_prop→PathP (λ j. e j < 2 ^ w) (λ j. le_prop) a.bound b.bound i;
}

-- A word's own number gives the word back.
pub word-value : {w : ℕ} (a : Word w) {n : ℕ} → n ≡ a.value → word w n ≡ a
unfolding word
word-value {w} a {n} e = Word_path (word w n) a (rw e (mod-eq_of_lt a.bound))
