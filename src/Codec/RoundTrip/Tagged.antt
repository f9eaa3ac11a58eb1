-- ===== src/Codec/RoundTrip/Tagged.antt =====
-- A message is read by the reader that its tag picks.
use st2110_obs_plugin.Base.{ℕ, ◌≡◌, subst, [], ok, ok_injective}
use st2110_obs_plugin.Word.{word}
use st2110_obs_plugin.Codec.Tags.{MessageTag, tag_value, write_tag}
use st2110_obs_plugin.Codec.Writer.{Writer, ◌then◌, write_u8}
use st2110_obs_plugin.Codec.Reader.{Reader, whole, pass, ◌>>=◌, read_u8}
use st2110_obs_plugin.Codec.Reading.{Reads, exact}

pub tagged :
    {A : Type 0} (tag : MessageTag) (of : ℕ → Reader A) {read : Reader A} {fields w : Writer}
    {a : A}
    → of ((word 8 (tag_value tag)).value) ≡ whole read
    → ok (write_tag tag then fields) ≡ ok w
    → Reads read fields a
    → (read_u8 >>= (λ t. of (t.value))) (w []) ≡ ok (a, [])
unfolding ◌>>=◌ pass read_u8 write_u8 ◌then◌
tagged tag of {fields = fields} {a = a} pick e r =
    subst (λ (v : Writer). (read_u8 >>= (λ t. of (t.value))) (v []) ≡ ok (a, [])) (ok_injective e)
      (rw pick (exact r))
