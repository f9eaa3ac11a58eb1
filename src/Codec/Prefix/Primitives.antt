-- ===== src/Codec/Prefix/Primitives.antt =====
-- The primitive reads take what they take, and fail with less.
use st2110_obs_plugin.Base.{
  ℕ, ◌≤◌, ◌≡◌, false, List, [], ◌∷◌, ◌++◌, length, length-append, take-append_le, drop-append_le,
  ltb, ltb→le, ok, arith, Bool-cases, inl, inr,
}
use st2110_obs_plugin.Word.{U8, U16, U32, U64}
use st2110_obs_plugin.Codec.Writer.{Ipv4}
use st2110_obs_plugin.Codec.Reader.{
  Reader, read_u8, read_u16, read_u32, read_u64, read_bytes, read_string, read_ipv4, read_bool_u8,
  read_optional,
}
use st2110_obs_plugin.Codec.Prefix.Extending.{
  Extends, onto, with_extra, return-Extends, fail-Extends, if-Extends,
}

taken_u8 :
    (bytes extra : List U8) (a : U8) (rest : List U8)
    → read_u8 bytes ≡ ok (a, rest)
    → read_u8 (bytes ++ extra) ≡ ok (a, rest ++ extra)
unfolding read_u8
taken_u8 [] extra a rest e = absurd (ground arith)
taken_u8 (x0 ∷ left) extra a rest e = with_extra extra e

pub read_u8-Extends : Extends read_u8
read_u8-Extends = record { extend = taken_u8 }

taken_u16 :
    (bytes extra : List U8) (a : U16) (rest : List U8)
    → read_u16 bytes ≡ ok (a, rest)
    → read_u16 (bytes ++ extra) ≡ ok (a, rest ++ extra)
unfolding read_u16
taken_u16 [] extra a rest e = absurd (ground arith)
taken_u16 (x0 ∷ []) extra a rest e = absurd (ground arith)
taken_u16 (x0 ∷ x1 ∷ left) extra a rest e = with_extra extra e

pub read_u16-Extends : Extends read_u16
read_u16-Extends = record { extend = taken_u16 }

taken_u32 :
    (bytes extra : List U8) (a : U32) (rest : List U8)
    → read_u32 bytes ≡ ok (a, rest)
    → read_u32 (bytes ++ extra) ≡ ok (a, rest ++ extra)
unfolding read_u32
taken_u32 [] extra a rest e = absurd (ground arith)
taken_u32 (x0 ∷ []) extra a rest e = absurd (ground arith)
taken_u32 (x0 ∷ x1 ∷ []) extra a rest e = absurd (ground arith)
taken_u32 (x0 ∷ x1 ∷ x2 ∷ []) extra a rest e = absurd (ground arith)
taken_u32 (x0 ∷ x1 ∷ x2 ∷ x3 ∷ left) extra a rest e = with_extra extra e

pub read_u32-Extends : Extends read_u32
read_u32-Extends = record { extend = taken_u32 }

taken_u64 :
    (bytes extra : List U8) (a : U64) (rest : List U8)
    → read_u64 bytes ≡ ok (a, rest)
    → read_u64 (bytes ++ extra) ≡ ok (a, rest ++ extra)
unfolding read_u64
taken_u64 [] extra a rest e = absurd (ground arith)
taken_u64 (x0 ∷ []) extra a rest e = absurd (ground arith)
taken_u64 (x0 ∷ x1 ∷ []) extra a rest e = absurd (ground arith)
taken_u64 (x0 ∷ x1 ∷ x2 ∷ []) extra a rest e = absurd (ground arith)
taken_u64 (x0 ∷ x1 ∷ x2 ∷ x3 ∷ []) extra a rest e = absurd (ground arith)
taken_u64 (x0 ∷ x1 ∷ x2 ∷ x3 ∷ x4 ∷ []) extra a rest e = absurd (ground arith)
taken_u64 (x0 ∷ x1 ∷ x2 ∷ x3 ∷ x4 ∷ x5 ∷ []) extra a rest e = absurd (ground arith)
taken_u64 (x0 ∷ x1 ∷ x2 ∷ x3 ∷ x4 ∷ x5 ∷ x6 ∷ []) extra a rest e = absurd (ground arith)
taken_u64 (x0 ∷ x1 ∷ x2 ∷ x3 ∷ x4 ∷ x5 ∷ x6 ∷ x7 ∷ left) extra a rest e = with_extra extra e

pub read_u64-Extends : Extends read_u64
read_u64-Extends = record { extend = taken_u64 }

taken_ipv4 :
    (bytes extra : List U8) (a : Ipv4) (rest : List U8)
    → read_ipv4 bytes ≡ ok (a, rest)
    → read_ipv4 (bytes ++ extra) ≡ ok (a, rest ++ extra)
unfolding read_ipv4
taken_ipv4 [] extra a rest e = absurd (ground arith)
taken_ipv4 (x0 ∷ []) extra a rest e = absurd (ground arith)
taken_ipv4 (x0 ∷ x1 ∷ []) extra a rest e = absurd (ground arith)
taken_ipv4 (x0 ∷ x1 ∷ x2 ∷ []) extra a rest e = absurd (ground arith)
taken_ipv4 (x0 ∷ x1 ∷ x2 ∷ x3 ∷ left) extra a rest e = with_extra extra e

pub read_ipv4-Extends : Extends read_ipv4
read_ipv4-Extends = record { extend = taken_ipv4 }

taken_bytes :
    (n : ℕ) (bytes extra : List U8) (a rest : List U8)
    → read_bytes n bytes ≡ ok (a, rest)
    → read_bytes n (bytes ++ extra) ≡ ok (a, rest ++ extra)
unfolding read_bytes
taken_bytes n bytes extra a rest e = elim (Bool-cases (ltb (length bytes) n)) [
  | inl short ↦ absurd (ground arith)
  | inr enough ↦
      let h : n ≤ length bytes = ltb→le _ _ enough in
      let f : ltb (length (bytes ++ extra)) n ≡ false = grind (arith, length-append bytes extra) in
      rw (f, take-append_le n bytes extra h, drop-append_le n bytes extra h)
        (with_extra extra (rw enough at e))
]

read_bytes-Extends : (n : ℕ) → Extends (read_bytes n)
read_bytes-Extends n = record { extend = taken_bytes n }

pub read_string-Extends : Extends read_string
unfolding read_string
read_string-Extends = onto _ read_u32-Extends (λ size. read_bytes-Extends (size.value))

pub read_bool_u8-Extends : Extends read_bool_u8
unfolding read_bool_u8
read_bool_u8-Extends =
    onto _ read_u8-Extends (λ value. if-Extends _ (fail-Extends _) (return-Extends _))

pub read_optional-Extends :
    {A : Type 0} (read : Reader A) → Extends read → Extends (read_optional read)
unfolding read_optional
read_optional-Extends read r =
    onto _ read_bool_u8-Extends
      (λ has_value. if-Extends _ (onto _ r (λ value. return-Extends _)) (return-Extends _))
