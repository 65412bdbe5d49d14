-- ===== src/Runtime/Warnings.antt =====
-- When a round that is stuck is reported.
use winny.Base.{ℕ, ◌+◌, ◌≤◌, ◌<◌, ◌≡◌, ◌↔◌, ◌≢◌, inl, inr, Option-cases, true, none, some, arith}
use winny.RoundStatus.{locked, vrf_requested, settled, cancelled}
use winny.Runtime.{
  StuckThresholds, StuckWarningInput, or_default, get_stuck_threshold_sec,
  should_emit_stuck_warning,
}

-- The round is still in the status that is asked about, has been for the threshold or longer, and
-- the last report lies the repeat interval or more back.
pub record IsDue (args : StuckWarningInput) (threshold : ℕ) : Type 0 where
  pub armed : 0 < threshold
  pub unchanged : args.observed_status ≡ args.target_status
  pub old : args.observed_since_sec + threshold ≤ args.now_sec
  pub quiet : or_default args.last_warn_sec 0 + args.repeat_sec ≤ args.now_sec

-- A warning is emitted exactly when there is a threshold above 0 and the round is due.
pub should_emit_stuck_warning_iff :
    (args : StuckWarningInput)
    → (should_emit_stuck_warning args ≡ true)
      ↔ ((threshold : ℕ) × (args.threshold_sec ≡ some threshold) × IsDue args threshold)
unfolding should_emit_stuck_warning
should_emit_stuck_warning_iff args = (
  λ e. elim (Option-cases args.threshold_sec) [
    | inl missing ↦ absurd (ground arith)
    | inr (threshold, given) ↦ (
      threshold,
      given,
      record {
        armed = ground arith;
        unchanged = ground arith;
        old = ground arith;
        quiet = ground arith;
      },
    )
  ],
  λ (threshold, e, due). ground arith,
)

-- A status has a threshold exactly when it is one in which a round waits for somebody: locked,
-- waiting for its randomness, settled, or cancelled.
pub get_stuck_threshold_sec-eq-none_iff :
    (status : ℕ) (t : StuckThresholds)
    → (get_stuck_threshold_sec status t ≡ none)
      ↔ ((status ≢ locked) × (status ≢ vrf_requested) × (status ≢ settled) × (status ≢ cancelled))
unfolding get_stuck_threshold_sec
get_stuck_threshold_sec-eq-none_iff status t = ground arith
