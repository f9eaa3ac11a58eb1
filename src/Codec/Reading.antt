-- ===== src/Codec/Reading.antt =====
-- What it means that a reader undoes a writer, for the primitives and along a chain of calls.
use st2110_obs_plugin.Base.{
  ℕ, ◌≡◌, refl, sym, ltb→le, ap, Bool, true, false, List, [], ◌++◌, length, take-append,
  drop-append, ltb, Expected, chain_ok, ok, arith, u32_mod, length-append, subst, ◌-◌, Option, none,
  some, Bool-cases, inl, inr,
}
use st2110_obs_plugin.Word.{word, word-value, U8, U16, U32, U64}
use st2110_obs_plugin.Codec.Writer.{
  Writer, nothing, ◌then◌, write_u8, write_u16, write_u32, write_u64, write_bytes, write_string,
  write_bool, write_ipv4, write_optional, Ipv4,
}
use st2110_obs_plugin.Codec.Reader.{
  Reader, whole, ensure_consumed, deserialize, return, ◌>>=◌, check, read_u8, read_u16, read_u32,
  read_u64, read_bytes, read_string, read_ipv4, read_optional, read_bool_u8, pass,
}

-- Whatever is written later, the reader gives the value back and leaves the later bytes.
pub record Reads {A : Type 0} (read : Reader A) (write : Writer) (a : A) : Type 0 where
  pub undo : (later : List U8) → read (write later) ≡ ok (a, later)

-- A run of reads undoes a run of writes.
pub next :
    {A B : Type 0} {read : Reader A} (k : A → Reader B) {first second : Writer} {a : A} {b : B}
    → Reads read first a
    → Reads (k a) second b
    → Reads (read >>= k) (first then second) b
unfolding ◌>>=◌ ◌then◌ pass
next k {second = second} r s = record { undo = λ later. rw (r.undo (second later)) (s.undo later) }

-- The last read of a chain, whose result is built from it.
pub last :
    {A B : Type 0} {read : Reader A} (k : A → Reader B) {write : Writer} {a : A} {b : B}
    → Reads read write a
    → k a ≡ return b
    → Reads (read >>= k) write b
unfolding ◌>>=◌ return pass
last k r e = record { undo = λ later. rw (r.undo later, e) refl }

-- The last read of a chain, with tests behind it.
pub closing :
    {A B : Type 0} {read : Reader A} (k : A → Reader B) {write : Writer} {a : A} {b : B}
    → Reads read write a
    → Reads (k a) nothing b
    → Reads (read >>= k) write b
unfolding ◌>>=◌ nothing pass
closing k r s = record { undo = λ later. rw (r.undo later) (s.undo later) }

pub checked :
    {A : Type 0} {test : Expected (Unit {0})} (k : Unit → Reader A) {write : Writer} {a : A}
    → test ≡ ok tt
    → Reads (k tt) write a
    → Reads (check test >>= k) write a
unfolding ◌>>=◌ return check pass
checked k e r = record { undo = λ later. rw e (r.undo later) }

pub u8 : {v : U8} → Reads read_u8 (write_u8 v) v
unfolding read_u8 write_u8
u8 = record { undo = λ later. refl }

pub u16 : {v : U16} → Reads read_u16 (write_u16 v) v
unfolding read_u16 write_u16 word
u16 {v} = record { undo = λ later. ap (λ x. ok (x, later)) (word-value v (omega (arith, v.bound))) }

pub u32 : {v : U32} → Reads read_u32 (write_u32 v) v
unfolding read_u32 write_u32 word
u32 {v} = record { undo = λ later. ap (λ x. ok (x, later)) (word-value v (omega (arith, v.bound))) }

pub u64 : {v : U64} → Reads read_u64 (write_u64 v) v
unfolding read_u64 write_u64 word
u64 {v} = record { undo = λ later. ap (λ x. ok (x, later)) (word-value v (omega (arith, v.bound))) }

pub ipv4 : {v : Ipv4} → Reads read_ipv4 (write_ipv4 v) v
unfolding read_ipv4 write_ipv4 write_bytes
ipv4 = record { undo = λ later. refl }

pub bool_u8 : {b : Bool} → Reads read_bool_u8 (write_bool b) b
unfolding read_bool_u8 write_bool ◌>>=◌ pass read_u8 write_u8 return word
bool_u8 {b = true} = record { undo = λ later. refl }
bool_u8 {b = false} = record { undo = λ later. refl }

pub bytes : (n : ℕ) (v : List U8) → length v ≡ n → Reads (read_bytes n) (write_bytes v) v
unfolding read_bytes write_bytes
bytes n v e = record {
  undo = λ later.
      let short : ltb (length (v ++ later)) n ≡ false = grind (arith, length-append v later) in
      rw (short, sym e, take-append v later, drop-append v later) refl;
}

-- The writer that a chain ends with.
pub written :
    {A : Type 0} {read : Reader A} {w v : Writer} {a : A}
    → ok w ≡ ok v
    → Reads read w a
    → Reads read v a
written {read = read} {a = a} e r = subst (λ x. Reads read x a) (ground arith) r

pub string : {v : List U8} {w : Writer} → write_string v ≡ ok w → Reads read_string w v
unfolding read_string write_string word
string {v} {w} e = elim (Bool-cases (ltb (u32_mod - 1) (length v))) [
  | inl long ↦ absurd (ground arith)
  | inr short ↦ written (rw short at e) (next _ u32 (bytes _ v (omega (arith, ltb→le _ _ short))))
]

-- An optional value that its writer's reader reads back.
pub optional :
    {A : Type 0} (read : Reader A) (write : A → Expected Writer)
    → ((a : A) (w : Writer) → write a ≡ ok w → Reads read w a)
    → (v : Option A) {w : Writer} → write_optional write v ≡ ok w
    → Reads (read_optional read) w v
unfolding read_optional write_optional
optional read write h none e = written e (last _ bool_u8 refl)
optional read write h (some a) e =
    let s = chain_ok (write a) _ e in written (s.2) (next _ bool_u8 (last _ (h a (s.0) (s.1)) refl))

-- Nothing is read where nothing is written.
pub built : {A : Type 0} {a : A} → Reads (return a) nothing a
unfolding return nothing
built = record { undo = λ later. refl }

-- A message that its fields' reader reads back is read whole.
pub exact :
    {A : Type 0} {read : Reader A} {write : Writer} {a : A}
    → Reads read write a
    → whole read (write []) ≡ ok (a, [])
unfolding whole ◌>>=◌ pass ensure_consumed return
exact r = rw (r.undo []) refl

pub deserialize-ok :
    {A : Type 0} (read : Reader A) {payload : List U8} {a : A}
    → read payload ≡ ok (a, [])
    → deserialize read payload ≡ ok a
unfolding deserialize
deserialize-ok read e = rw (e, deserialize) refl
