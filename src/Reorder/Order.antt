-- ===== src/Reorder/Order.antt =====
-- The order in which a reorder buffer delivers its packets, over any sequence of calls.
use st2110_obs_plugin.Base.{
  ℕ, ◌+◌, ◌-◌, ◌%◌, ◌≤◌, ◌≡◌, ◌∙◌, Bool, true, false, Option, none, some, List, [], ◌∷◌, length,
  arith, u32_mod, u64_mod, ap, suc, ◌<◌,
}
use st2110_obs_plugin.Stored.{StoredPacket, reorder_sequence}
use st2110_obs_plugin.Reorder.Invariant.{IsValid}
use st2110_obs_plugin.Reorder.Delivery.{Op, step, run, collect, step-IsValid, Moved, step-Moved}
use st2110_obs_plugin.Reorder.{Buffer, modulus, cast}

-- The packets in the order of their numbers on an unbounded scale: from the position `pos` on, up to
-- `end`, each packet stands at the position of its sequence number.
abbrev pub InOrder : Bool → ℕ → List StoredPacket → ℕ → Type 0
InOrder is_video pos [] end = pos ≤ end
InOrder is_video pos (p ∷ ps) end =
    (q : ℕ) × (pos ≤ q)
    × (cast is_video (reorder_sequence p) ≡ q % modulus is_video)
    × InOrder is_video (q + 1) ps end

-- By how much a 64-bit counter rose.
abbrev pub rise : ℕ → ℕ → ℕ
rise before after = (after % u64_mod + u64_mod - before % u64_mod) % u64_mod

-- The numbers that the calls of a run counted as flushed: what each call added to the counter, summed
-- without a wrap-around.
unfoldable pub flushed_in : Bool → Buffer → List Op → ℕ
flushed_in is_video b [] = 0
flushed_in is_video b (op ∷ ops) =
    let b' = (step is_video b op).1 in
    rise b.stats.missing_seq_flushed b'.stats.missing_seq_flushed + flushed_in is_video b' ops

-- What a run from the position `pos` delivered, and where it left the buffer, with so many numbers
-- flushed: it ends behind the delivered and the flushed numbers, and nowhere else.
pub record Delivered (is_video : Bool) (b : Buffer) (pos flushed : ℕ) (ps : List StoredPacket)
    (b' : Buffer) : Type 0 where
  pub in_order : InOrder is_video pos ps (pos + length ps + flushed)
  pub reached : b'.next_expected ≡ (pos + length ps + flushed) % modulus is_video
  pub counted :
      b'.stats.missing_seq_flushed % u64_mod ≡ (b.stats.missing_seq_flushed + flushed) % u64_mod

small : (is_video : Bool) → modulus is_video ≤ u32_mod
small true = omega arith
small false = omega arith

rise_lem : (m n k : ℕ) → k < u32_mod → n % u64_mod ≡ (m + k) % u64_mod → rise m n ≡ k
rise_lem m n k h e = omega arith

rise_none : (m n : ℕ) → n ≡ m → rise m n ≡ 0
rise_none m n e = rise_lem m n 0 (omega arith) (omega arith)

passes :
    (is_video : Bool) (n m pos k : ℕ)
    → n ≡ pos % modulus is_video
    → m ≡ (n + k) % modulus is_video
    → m ≡ (pos + k) % modulus is_video
passes true n m pos k h e = omega arith
passes false n m pos k h e = omega arith

InOrder-from :
    (is_video : Bool) (pos k : ℕ) (ps : List StoredPacket) (end : ℕ)
    → InOrder is_video (pos + k) ps end
    → InOrder is_video pos ps end
InOrder-from is_video pos k [] end h = omega arith
InOrder-from is_video pos k (p ∷ ps) end h = (h.0, omega (arith, h.1), h.2, h.3)

-- One call in front of a run, which flushed `r` numbers.
prepend :
    (is_video : Bool) (b : Buffer) (pos flushed : ℕ) (out : Option StoredPacket) (b' c : Buffer)
    (ps : List StoredPacket)
    → b.next_expected ≡ pos % modulus is_video
    → Moved is_video b (out, b')
    → ((pos' : ℕ)
        → b'.next_expected ≡ pos' % modulus is_video
        → Delivered is_video b' pos' flushed ps c)
    → Delivered is_video b pos
        (rise b.stats.missing_seq_flushed b'.stats.missing_seq_flushed + flushed)
        (collect out ps)
        c
prepend is_video b pos flushed none b' c ps h (k, m, f, i, w) rest =
    let d = rest (pos + k) (passes is_video b.next_expected b'.next_expected pos k h m) in
    let r : rise b.stats.missing_seq_flushed b'.stats.missing_seq_flushed ≡ k =
      rise_lem _ _ k (omega (arith, w, small is_video)) f in
    let e : pos + k + length ps + flushed ≡ pos + length ps + (k + flushed) = omega arith in
    rw r (record {
      in_order = InOrder-from is_video pos k ps _ (rw e at d.in_order);
      reached = d.reached ∙ ap (λ n. n % modulus is_video) e;
      counted = omega (arith, d.counted, f);
    })
prepend is_video b pos flushed (some p) b' c ps h (s, m, f, i) rest =
    let d = rest (pos + 1) (passes is_video b.next_expected b'.next_expected pos 1 h m) in
    let r = rise_none _ _ f in
    let e : pos + 1 + length ps + flushed ≡ pos + suc (length ps) + (0 + flushed) = omega arith in
    rw r (record {
      in_order = (pos, omega arith, s ∙ h, rw e at d.in_order);
      reached = d.reached ∙ ap (λ n. n % modulus is_video) e;
      counted = omega (arith, d.counted, f);
    })

Moved-initialized :
    (is_video : Bool) (b : Buffer) (out : Option StoredPacket) (b' : Buffer)
    → Moved is_video b (out, b')
    → b'.initialized ≡ true
Moved-initialized is_video b none b' m = m.3
Moved-initialized is_video b (some p) b' m = m.3

-- Any sequence of calls on a valid buffer that is under way delivers packets in strictly rising order
-- of their sequence numbers, counted on through wrap-arounds from a position that the expected number
-- starts at. The run ends at the position behind as many numbers as it delivered and counted as
-- flushed, so that each number it passed is one or the other, and the counter rose by the latter.
pub run-Delivered :
    (is_video : Bool) (ops : List Op) (b : Buffer) (pos : ℕ)
    → IsValid is_video b
    → b.initialized ≡ true
    → b.next_expected ≡ pos % modulus is_video
    → Delivered is_video b pos
        (flushed_in is_video b ops)
        (run is_video b ops).0
        (run is_video b ops).1
unfolding run flushed_in
run-Delivered is_video [] b pos v i h = record {
  in_order = omega arith;
  reached = h ∙ ap (λ n. n % modulus is_video) (omega arith);
  counted = ap (λ n. n % u64_mod) (omega arith);
}
run-Delivered is_video (op ∷ ops) b pos v i h =
    let (out, b') = step is_video b op in
    prepend is_video b pos _ out b' (run is_video b' ops).1 (run is_video b' ops).0 h
      (step-Moved is_video b v i op)
      (λ pos'.
        run-Delivered is_video ops b' pos' (step-IsValid is_video b op v)
          (Moved-initialized is_video b out b' (step-Moved is_video b v i op)))
