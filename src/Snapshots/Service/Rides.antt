-- ===== src/Snapshots/Service/Rides.antt =====
-- What a result of the worker that passes the tests of `ride` reports.
use riderless.Prelude.{
  not, subst, both, eqb-true, ℕ, ◌+◌, ◌≡◌, refl, sym, Bool, true, false, ◌&&◌, ◌||◌, is_some,
  length, eqb, leb, arith, all, ◌==◌, ◌⊎◌, inl, inr,
}
use riderless.Action.{ok}
use riderless.Mapping.Arithmetic.{Floats}
use riderless.Snapshots.Errors.{Error}
use riderless.Snapshots.Wire.{is_nonempty, is_sha256, if_present, is_nonnegative}
use riderless.Snapshots.Wire.Rows.{top_logits_ok}
use riderless.Snapshots.Wire.Branches.{
  WorkerRide, RideMode, is_resident, is_snapshot_mode, is_reference_mode, same, timing_ok,
  ride_accounting, ride_ok,
}
use riderless.Snapshots.Store.Types.{SnapshotRecord}
use riderless.Snapshots.Store.Env.{Env}
use riderless.Snapshots.Store.Persist.{guard}
use riderless.Snapshots.Service.Office.{Backend, Settings}
use riderless.Snapshots.Service.Planning.{BranchPlan}
use riderless.Snapshots.Service.Evaluations.{check_ride, ride_response, RiderResponse}

-- The response accounts for the prompt: what was reused is the parent, and the rest was prefilled.
pub record Accounts (fl : Floats) (parent : SnapshotRecord) (r : WorkerRide fl)
    (response : RiderResponse fl) : Type 0 where
  pub reused : response.reused_prefix_tokens ≡ parent.tokens
  pub prompt : parent.tokens + response.suffix_tokens ≡ r.prompt_tokens
  pub output : response.output_tokens ≡ length response.token_ids
  pub restored : is_some r.restore ≡ true
  pub split : r.is_stock ≡ false
  pub traced :
      ((length response.steps ≡ 0) ⊎ (length response.steps ≡ response.output_tokens))
      ⊎ (length response.steps ≡ response.output_tokens + 1)

guarded : (b : Bool) → guard b Error.protocol ≡ ok tt → b ≡ true
guarded true h = refl
guarded false h = absurd (ground (arith, h))

module _ (env : Env) (fl : Floats) (backend : Backend env fl) (settings : Settings) where
  accounting : (r : WorkerRide fl) → ride_ok fl r ≡ true → ride_accounting fl r ≡ true
  unfolding ride_ok
  accounting r h =
      let reason =
        (r.stop_reason == "eog" || r.stop_reason == "max_tokens") && ride_accounting fl r in
      let traced = all (λ s. top_logits_ok fl s.top_logits) r.steps in
      let rate = is_nonnegative fl r.decode_tokens_per_second in
      let timing = timing_ok fl r.timing_ms in
      let prefilled = leb 1 r.prefilled_tokens in
      let prompt = leb 1 r.prompt_tokens in
      let digest = is_sha256 r.prompt_sha256 in
      let a =
        both (is_nonempty r.id)
          (digest && (prompt && (prefilled && (timing && (rate && (traced && reason)))))) h in
      let b = both digest (prompt && (prefilled && (timing && (rate && (traced && reason))))) a.1 in
      let c = both prompt (prefilled && (timing && (rate && (traced && reason)))) b.1 in
      let d = both prefilled (timing && (rate && (traced && reason))) c.1 in
      let e = both timing (rate && (traced && reason)) d.1 in
      let f = both rate (traced && reason) e.1 in
      let g = both traced reason f.1 in
      (both (r.stop_reason == "eog" || r.stop_reason == "max_tokens") (ride_accounting fl r) g.1).1

  not_reference : (m : RideMode fl) → is_snapshot_mode fl m ≡ true → is_reference_mode fl m ≡ false
  not_reference RideMode.snapshot_mode h = refl
  not_reference RideMode.split_prefill_mode h = refl
  not_reference RideMode.reference_mode h = absurd (ground (arith, h))

  is_split : (a b : Bool) → a ≡ false → same fl a b ≡ true → b ≡ false
  is_split false false h k = refl
  is_split false true h k = absurd (ground (arith, k))
  is_split true b h k = absurd (ground (arith, h))

  is_restored : (a b : Bool) → a ≡ true → same fl a b ≡ true → b ≡ true
  is_restored true b h k = k
  is_restored false b h k = absurd (ground (arith, h))

  steps-traced :
      (m n : ℕ) → eqb m 0 || (eqb m n || eqb m (n + 1)) ≡ true → ((m ≡ 0) ⊎ (m ≡ n)) ⊎ (m ≡ n + 1)
  steps-traced m n h = go (eqb m 0) (eqb m n) (eqb m (n + 1)) refl refl refl h
    where
      go :
          (a b c : Bool)
          → eqb m 0 ≡ a
          → eqb m n ≡ b
          → eqb m (n + 1) ≡ c
          → a || (b || c) ≡ true
          → ((m ≡ 0) ⊎ (m ≡ n)) ⊎ (m ≡ n + 1)
      go true b c p q r e = inl (inl (eqb-true m 0 p))
      go false true c p q r e = inl (inr (eqb-true m n q))
      go false false true p q r e = inr (eqb-true m (n + 1) r)
      go false false false p q r e = absurd (ground (arith, e))

  -- Where the worker's result passes the test of its model and the tests of `ride`, the response reports the
  -- tokens of the snapshot as reused and, with the suffix, the whole prompt; the output has as many tokens as
  -- it counts; the step trace is absent, or has one entry for each token, or one more; and the snapshot was
  -- restored and continued in the split mode.
  pub check_ride-Accounts :
      (p : BranchPlan fl) (parent : SnapshotRecord) (r : WorkerRide fl)
      → ride_ok fl r ≡ true
      → check_ride env fl backend settings parent r ≡ ok tt
      → Accounts fl parent r (ride_response env fl backend settings p r)
  unfolding check_ride ride_accounting
  check_ride-Accounts p parent r h k =
      let restored = if_present (λ w. not (is_resident w) || eqb r.restored_bytes 0) r.restore in
      let stock = same fl (is_reference_mode fl r.mode) r.is_stock in
      let mode = same fl (is_snapshot_mode fl r.mode) (is_some r.restore) in
      let prompt = eqb r.prompt_tokens (r.reused_tokens + r.prefilled_tokens) in
      let a =
        both (eqb r.generated_tokens (length r.token_ids)) (prompt && (mode && (restored && stock)))
          (accounting r h) in
      let b = both prompt (mode && (restored && stock)) a.1 in
      let c = both mode (restored && stock) b.1 in
      let d = both restored stock c.1 in
      let reuse = eqb r.reused_tokens parent.tokens in
      let steps =
        eqb (length r.steps) 0
        || (eqb (length r.steps) (length r.token_ids)
            || eqb (length r.steps) (length r.token_ids + 1)) in
      let e =
        both (is_snapshot_mode fl r.mode && reuse) steps
          (guarded ((is_snapshot_mode fl r.mode && reuse) && steps) k) in
      let f = both (is_snapshot_mode fl r.mode) reuse e.0 in
      let count = eqb-true r.generated_tokens (length r.token_ids) a.0 in
      record {
        reused = eqb-true r.reused_tokens parent.tokens f.1;
        prompt = omega (
          arith,
          eqb-true r.reused_tokens parent.tokens f.1,
          eqb-true r.prompt_tokens (r.reused_tokens + r.prefilled_tokens) b.0,
        );
        output = count;
        restored = is_restored (is_snapshot_mode fl r.mode) (is_some r.restore) f.0 c.0;
        split = is_split (is_reference_mode fl r.mode) r.is_stock (not_reference r.mode f.0) d.1;
        traced =
            subst (λ n. ((length r.steps ≡ 0) ⊎ (length r.steps ≡ n)) ⊎ (length r.steps ≡ n + 1))
              (sym count) (steps-traced (length r.steps) (length r.token_ids) e.1);
      }
