-- ===== src/Codec/Prefix/Extending.antt =====
-- Readers that do not look behind what they take, and messages that nothing may follow.
use st2110_obs_plugin.Base.{
  ◌≡◌, refl, ap, Bool, true, false, List, ◌∷◌, ◌++◌, Expected, ok, unexpected, Error, invalid_value,
  arith, if◌then◌else◌, ok_injective,
}
use st2110_obs_plugin.Word.{U8}
use st2110_obs_plugin.Codec.Reader.{Reader, return, fail, ◌>>=◌, pass, check}

-- What the reader takes does not depend on the bytes behind it.
pub record Extends {A : Type 0} (read : Reader A) : Type 0 where
  pub extend :
      (bytes extra : List U8) (a : A) (rest : List U8)
      → read bytes ≡ ok (a, rest)
      → read (bytes ++ extra) ≡ ok (a, rest ++ extra)

-- Bytes that the reader takes, with a byte more behind them, are not a message.
pub record Closed {A : Type 0} (read : Reader A) : Type 0 where
  pub refuse :
      (bytes : List U8) (x : U8) (extra : List U8) (a : A) (rest : List U8)
      → read bytes ≡ ok (a, rest)
      → read (bytes ++ x ∷ extra) ≡ unexpected invalid_value

-- The first read of a chain that succeeds, and the others.
split :
    {A B : Type 0} (k : A → Reader B) (first : Expected (A × List U8)) (b : B) (rest : List U8)
    → pass k first ≡ ok (b, rest)
    → (a : A) × (between : List U8) × (first ≡ ok (a, between)) × (k a between ≡ ok (b, rest))
unfolding pass
split k (ok (a, between)) b rest e = (a, between, refl, e)
split k (unexpected error) b rest e = absurd (ground arith)

pub onto :
    {A B : Type 0} {read : Reader A} (k : A → Reader B)
    → Extends read
    → ((a : A) → Extends (k a))
    → Extends (read >>= k)
unfolding ◌>>=◌ pass
onto {read = read} k r s = record {
  extend = λ bytes extra b rest e.
      let c = split k (read bytes) b rest e in
      rw (r.extend bytes extra (c.0) (c.1) (c.2)) ((s (c.0)).extend (c.1) extra b rest (c.3));
}

pub onto-Closed :
    {A B : Type 0} {read : Reader A} (k : A → Reader B)
    → Extends read
    → ((a : A) → Closed (k a))
    → Closed (read >>= k)
unfolding ◌>>=◌ pass
onto-Closed {read = read} k r s = record {
  refuse = λ bytes x extra b rest e.
      let c = split k (read bytes) b rest e in
      rw (r.extend bytes (x ∷ extra) (c.0) (c.1) (c.2))
        ((s (c.0)).refuse (c.1) x extra b rest (c.3));
}

-- The bytes behind are added to what is left.
pub with_extra :
    {A : Type 0} {a b : A} {left rest : List U8} (extra : List U8)
    → ◌≡◌ {A = Expected (A × List U8)} (ok (a, left)) (ok (b, rest))
    → ◌≡◌ {A = Expected (A × List U8)} (ok (a, left ++ extra)) (ok (b, rest ++ extra))
with_extra {A} extra e = ap (λ (read : A × List U8). ok (read.0, read.1 ++ extra)) (ok_injective e)

pub return-Extends : {A : Type 0} (a : A) → Extends (return a)
unfolding return
return-Extends a = record { extend = λ bytes extra b rest e. with_extra extra e }

pub fail-Extends : {A : Type 0} (error : Error) → Extends (fail {A = A} error)
unfolding fail
fail-Extends error = record { extend = λ bytes extra b rest e. absurd (ground arith) }

pub check-Extends : (test : Expected (Unit {0})) → Extends (check test)
unfolding check
check-Extends (ok passed) = return-Extends tt
check-Extends (unexpected error) = fail-Extends error

pub fail-Closed : {A : Type 0} (error : Error) → Closed (fail {A = A} error)
unfolding fail
fail-Closed error = record { refuse = λ bytes x extra b rest e. absurd (ground arith) }

pub if-Closed :
    {A : Type 0} (b : Bool) {read other : Reader A}
    → Closed read
    → Closed other
    → Closed (if b then read else other)
if-Closed true r s = r
if-Closed false r s = s

pub if-Extends :
    {A : Type 0} (b : Bool) {read other : Reader A}
    → Extends read
    → Extends other
    → Extends (if b then read else other)
if-Extends true r s = r
if-Extends false r s = s
