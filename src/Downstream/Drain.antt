-- ===== src/Downstream/Drain.antt =====
-- The drain as a whole: with a policy that is implemented it returns, having delivered in order all
-- that could be delivered.
use mathlib.Core.Option
use st2110_obs_plugin.Base.{
  ℕ, zero, suc, ◌*◌, ◌%◌, ◌<◌, ◌≡◌, refl, subst, inl, inr, Bool, true, false, not, ◌&&◌, Option,
  none, some, List, [], All, Bool-cases, Option-cases, arith, Outcome, returns, throws, undefined,
}
use st2110_obs_plugin.Stored.{StoredPacket}
use st2110_obs_plugin.Reorder.{Buffer, modulus, pop_next}
use st2110_obs_plugin.Reorder.Invariant.{IsValid}
use st2110_obs_plugin.Reorder.Delivery.{run-IsValid, Op, run}
use st2110_obs_plugin.Reorder.Order.{Delivered, flushed_in, run-Delivered}
use st2110_obs_plugin.Downstream.{
  ReceiveReorderGapPolicy, wait_for_missing, flush_gap_once, flush_after_n,
  flush_on_marker_boundary, allow_multiple_gap_flushes, apply_reorder_buffer_policy, deliver_first,
  drain_from, drain_reorder_buffer_to_sink,
}
use st2110_obs_plugin.Downstream.Termination.{drain_reorder_buffer_to_sink_total}
use st2110_obs_plugin.Downstream.Refinement.{
  Drained, IsDrainCall, drain_reorder_buffer_to_sink-Drained,
}

-- The four policies that `apply_reorder_buffer_policy` has a case for.
abbrev pub is_implemented : ReceiveReorderGapPolicy → Bool
is_implemented wait_for_missing = true
is_implemented flush_gap_once = true
is_implemented flush_after_n = true
is_implemented flush_on_marker_boundary = true
is_implemented _ = false

abbrev Returned {ℓ} : {A : Type ℓ} → Outcome A → Type 0
Returned (returns a) = Unit
Returned (throws e) = ⊥
Returned undefined = ⊥

module _ (is_video : Bool) (policy : ReceiveReorderGapPolicy) (n : ℕ)
    (known : is_implemented policy ≡ true) where
  policy_returns : (b : Buffer) → Returned (apply_reorder_buffer_policy is_video policy n b)
  policy_returns b = go policy known
    where
      go :
          (p : ReceiveReorderGapPolicy)
          → is_implemented p ≡ true
          → Returned (apply_reorder_buffer_policy is_video p n b)
      go wait_for_missing h = unfold apply_reorder_buffer_policy in tt
      go flush_gap_once h = unfold apply_reorder_buffer_policy in tt
      go flush_after_n h = unfold apply_reorder_buffer_policy in tt
      go flush_on_marker_boundary h = unfold apply_reorder_buffer_policy in tt
      go _ h = absurd (ground arith)

  Fine : Option (Outcome (List StoredPacket × Buffer)) → Type 0
  Fine none = Unit
  Fine (some o) = Returned o

  delivered_Fine :
      (p : StoredPacket) (o : Option (Outcome (List StoredPacket × Buffer)))
      → Fine o
      → Fine (Option.map (deliver_first is_video p) o)
  unfolding Fine
  delivered_Fine p none h = tt
  delivered_Fine p (some (returns s)) h = tt
  delivered_Fine p (some (throws e)) h = h
  delivered_Fine p (some undefined) h = h

  flush_Fine :
      (fuel : ℕ) (o : Outcome (Bool × Buffer))
      → Returned o
      → ((c : Buffer) → Fine (drain_from is_video policy n fuel true c))
      → Fine (elim o [
        | returns (flushed, c) ↦ elim flushed [
          | true ↦ drain_from is_video policy n fuel true c
          | false ↦ some (returns ([], c))
        ]
        | throws e ↦ some (throws e)
        | undefined ↦ some undefined
      ])
  unfolding Fine
  flush_Fine fuel (returns (true, c)) h rest = rest c
  flush_Fine fuel (returns (false, c)) h rest = tt
  flush_Fine fuel (throws x) h rest = h
  flush_Fine fuel undefined h rest = h

  drain_from-Fine :
      (fuel : ℕ) (used : Bool) (b : Buffer) → Fine (drain_from is_video policy n fuel used b)
  unfolding drain_from
  drain_from-Fine zero used b = unfold Fine in tt
  drain_from-Fine (suc fuel) used b = elim (Option-cases (pop_next is_video b).0) [
    | inr (p, e) ↦
        rw (e, drain_from)
          (delivered_Fine p (drain_from is_video policy n fuel used (pop_next is_video b).1)
            (drain_from-Fine fuel used (pop_next is_video b).1))
    | inl e ↦ elim (Bool-cases (used && not (allow_multiple_gap_flushes policy))) [
      | inl u ↦ rw (e, u, drain_from) (unfold Fine in tt)
      | inr u ↦
          rw (e, u, drain_from)
            (flush_Fine fuel (apply_reorder_buffer_policy is_video policy n (pop_next is_video b).1)
              (policy_returns (pop_next is_video b).1) (drain_from-Fine fuel true))
    ]
  ]

  returned_value :
      (o : Outcome (List StoredPacket × Buffer))
      → Fine (some o)
      → (r : List StoredPacket × Buffer) × (o ≡ returns r)
  unfolding Fine
  returned_value (returns r) h = (r, refl)
  returned_value (throws e) h = absurd h
  returned_value undefined h = absurd h

-- What a drain from the position `pos` of the expected number gives.
pub record Delivers (is_video : Bool) (b : Buffer) (pos : ℕ) (r : List StoredPacket × Buffer)
    : Type 0 where
  pub calls : List Op
  pub no_push : All IsDrainCall calls
  pub ran : run is_video b calls ≡ r
  pub delivered : Delivered is_video b pos (flushed_in is_video b calls) r.0 r.1
  pub valid : IsValid is_video r.1
  pub nothing_left : (pop_next is_video r.1).0 ≡ none

Delivers-of-Drained :
    (is_video : Bool) (b : Buffer) (pos : ℕ) (r : List StoredPacket × Buffer)
    → IsValid is_video b
    → b.initialized ≡ true
    → b.next_expected ≡ pos % modulus is_video
    → Drained is_video b r
    → Delivers is_video b pos r
Delivers-of-Drained is_video b pos r v i h d = record {
  calls = d.calls;
  no_push = d.no_push;
  ran = d.ran;
  delivered =
      subst (λ s. Delivered is_video b pos (flushed_in is_video b d.calls) s.0 s.1) d.ran
        (run-Delivered is_video d.calls b pos v i h);
  valid = subst (λ s. IsValid is_video s.1) d.ran (run-IsValid is_video b d.calls v);
  nothing_left = d.nothing_left;
}

-- With each of the four implemented policies and a fuel above the square of the window's size, the
-- drain of a valid buffer under way returns. It makes calls of pop and flush only; what these deliver
-- is handed to the sink, in strictly rising order of the numbers; the drain ends at the position behind
-- as many numbers as were delivered and counted as flushed; the buffer is left valid, and nothing that
-- could be delivered next is left in it.
pub drain_reorder_buffer_to_sink-Delivers :
    (is_video : Bool) (policy : ReceiveReorderGapPolicy) (n fuel : ℕ) (b : Buffer) (pos : ℕ)
    → is_implemented policy ≡ true
    → b.window_size * b.window_size < fuel
    → IsValid is_video b
    → b.initialized ≡ true
    → b.next_expected ≡ pos % modulus is_video
    → (r : List StoredPacket × Buffer) × (drain_reorder_buffer_to_sink is_video policy n fuel b
        ≡ some (returns r))
      × Delivers is_video b pos r
drain_reorder_buffer_to_sink-Delivers is_video policy n fuel b pos known m v i h =
    let (o, e) = drain_reorder_buffer_to_sink_total is_video policy n fuel b v m in
    let (r, f) = returned_value is_video policy n known o (
      subst (Fine is_video policy n known) e (
        unfold drain_reorder_buffer_to_sink in
        drain_from-Fine is_video policy n known fuel false b)) in
    let g = subst (λ x. drain_reorder_buffer_to_sink is_video policy n fuel b ≡ some x) f e in
    (
      r,
      g,
      Delivers-of-Drained is_video b pos r v i h
          (drain_reorder_buffer_to_sink-Drained is_video policy n fuel b g),
    )
