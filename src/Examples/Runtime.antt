-- ===== src/Examples/Runtime.antt =====
-- The retry plans, the warnings and the scan at concrete inputs.
use winny.Base.{ℕ, ◌≤◌, ◌≡◌, refl, true, none, some, map, ◌==◌, if◌then◌else◌, arith}
use winny.RoundStatus.{open_round, is_active_round_status}
use winny.Text.{codes}
use winny.Runtime.{
  OutcomePlanInput, CleanupRetryScheduleUpdate, StuckThresholds, StuckWarningInput,
  ParticipantCleanupRetryScheduleInput, close_round_failed, compute_cleanup_retry_delay,
  plan_cleanup_retry_schedule_for_outcome, describe_cleanup_retry_outcome,
  build_cleanup_retry_schedule_update,
}
use winny.Scan
use winny.Scan.{ScanEntry, ActiveRoundScanArgs, scan_for_active_round, found}
use winny.Scan.Window.{is_active}
use winny.Scan.Result.{
  scan_for_active_round_complete, scan_for_active_round-Verdict, Coverage, Verdict,
}

abbrev failed_close : OutcomePlanInput
failed_close = record {
  now_sec = 1000;
  outcome = close_round_failed (codes "timeout");
  min_delay_sec = 5;
  max_delay_sec = 60;
  current_delay_sec = some 10;
  retry_count = some 1;
}

abbrev failed_close_plan : CleanupRetryScheduleUpdate
failed_close_plan = record {
  next_delay_sec = 20;
  next_attempt_at_sec = 1020;
  next_retry_count = 2;
  last_reason = codes "close_round failed: timeout";
}

failed_close-planned : plan_cleanup_retry_schedule_for_outcome failed_close ≡ some failed_close_plan
unfolding plan_cleanup_retry_schedule_for_outcome describe_cleanup_retry_outcome
    build_cleanup_retry_schedule_update compute_cleanup_retry_delay
failed_close-planned = refl

abbrev pending_plan : ParticipantCleanupRetryScheduleInput
pending_plan = record {
  now_sec = 1000;
  stats = record { existing = 3; closed = 1; blocked_by_refund = 1 };
  min_delay_sec = 5;
  max_delay_sec = 60;
  current_delay_sec = some 5;
  retry_count = none;
}

abbrev stuck : StuckWarningInput
stuck = record {
  now_sec = 1000;
  observed_status = 1;
  target_status = 1;
  observed_since_sec = 900;
  threshold_sec = some 90;
  last_warn_sec = none;
  repeat_sec = 60;
}

abbrev thresholds : StuckThresholds
thresholds = record {
  locked_sec = 90;
  vrf_requested_sec = 180;
  settled_sec = 300;
  cancelled_sec = 180;
}

-- A chain with one round, round 1, which is open.
abbrev one_round : ℕ → ScanEntry
one_round id = if id == 1 then Scan.round open_round else Scan.missing

abbrev scan_one_round : ActiveRoundScanArgs
scan_one_round = record {
  scan_start = 1;
  archived_max = 0;
  max_scan = 200;
  batch_size = 20;
  null_streak_limit = 20;
  fetch_batch = λ ids. some (map one_round ids);
}

scan_for_active_round_complete_example :
    (r : ℕ) × (scan_for_active_round scan_one_round ≡ found r)
    × (is_active (one_round r) ≡ true)
    × (1 ≤ r)
scan_for_active_round_complete_example =
    scan_for_active_round_complete scan_one_round one_round (λ ids. refl) (omega arith)
      (omega arith) 1 (omega arith) (omega arith) (unfold is_active_round_status in refl)
      (λ n le gap. omega (arith, le, gap.within))

scan_for_active_round-Verdict_example :
    (r next : ℕ) × (scan_for_active_round scan_one_round ≡ found r)
    × Coverage scan_one_round one_round next
    × Verdict scan_one_round one_round next r
scan_for_active_round-Verdict_example =
    scan_for_active_round-Verdict scan_one_round one_round (λ ids. refl) (omega arith) (omega arith)
