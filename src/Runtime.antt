-- ===== src/Runtime.antt =====
-- The pure rules of the crank's loop (crank/src/runtimeLogic.ts): when a message means that a round
-- cannot be locked, how long to wait between two attempts to clean a round up, and when a round
-- that is stuck is reported. Times and delays are whole seconds that are not negative.
pub mod Backoff
pub mod Plans
pub mod Warnings
use winny.Base.{
  ℕ, ◌+◌, ◌-◌, ◌*◌, min, max, String, Bool, true, false, ◌||◌, Option, none, some, ◌++◌, ltb, leb,
  ◌==◌, if◌then◌else◌,
}
use winny.RoundStatus.{locked, vrf_requested, settled, cancelled}
use winny.Text.{JsString, codes, includes, includes_word, decimal}

pub record StuckThresholds : Type 0 where
  pub locked_sec : ℕ
  pub vrf_requested_sec : ℕ
  pub settled_sec : ℕ
  pub cancelled_sec : ℕ

pub record ParticipantCleanupRetryInput : Type 0 where
  pub existing : ℕ
  pub closed : ℕ
  pub blocked_by_refund : ℕ

pub record CleanupRetryScheduleInput : Type 0 where
  pub now_sec : ℕ
  pub reason : JsString
  pub min_delay_sec : ℕ
  pub max_delay_sec : ℕ
  pub current_delay_sec : Option ℕ
  pub retry_count : Option ℕ
  pub fast : Option Bool

pub record CleanupRetryScheduleUpdate : Type 0 where
  pub next_delay_sec : ℕ
  pub next_attempt_at_sec : ℕ
  pub next_retry_count : ℕ
  pub last_reason : JsString

pub record ParticipantCleanupRetryScheduleInput : Type 0 where
  pub now_sec : ℕ
  pub stats : ParticipantCleanupRetryInput
  pub min_delay_sec : ℕ
  pub max_delay_sec : ℕ
  pub current_delay_sec : Option ℕ
  pub retry_count : Option ℕ

pub data CleanupRetryOutcome : Type 0 where
  participants_pending : ParticipantCleanupRetryInput → CleanupRetryOutcome
  left_terminal_state : ℕ → CleanupRetryOutcome
  close_round_failed : JsString → CleanupRetryOutcome
  background_error : JsString → CleanupRetryOutcome

-- x ?? d
abbrev pub or_default {ℓ} : {A : Type ℓ} → Option A → A → A
or_default none d = d
or_default (some a) d = a

abbrev is_true : Option Bool → Bool
is_true (some true) = true
is_true _ = false

unfoldable pub is_min_requirements_error_message : JsString → Bool
is_min_requirements_error_message message =
    includes (codes "NotEnoughTickets") message
    || includes (codes "NotEnoughParticipants") message
    || includes_word (codes "6010") message
    || includes_word (codes "6009") message

unfoldable pub compute_cleanup_retry_delay : Option ℕ → ℕ → ℕ → Option Bool → ℕ
compute_cleanup_retry_delay current_delay_sec min_delay_sec max_delay_sec fast =
    let current = or_default current_delay_sec min_delay_sec in
    if is_true fast
    then min min_delay_sec 2
    else min max_delay_sec (max min_delay_sec (current * 2))

unfoldable pub get_stuck_threshold_sec : ℕ → StuckThresholds → Option ℕ
get_stuck_threshold_sec status thresholds =
    if status == locked
    then some thresholds.locked_sec
    else if status == vrf_requested
    then some thresholds.vrf_requested_sec
    else if status == settled
    then some thresholds.settled_sec
    else if status == cancelled
    then some thresholds.cancelled_sec
    else none

pub record StuckWarningInput : Type 0 where
  pub now_sec : ℕ
  pub observed_status : ℕ
  pub target_status : ℕ
  pub observed_since_sec : ℕ
  pub threshold_sec : Option ℕ
  pub last_warn_sec : Option ℕ
  pub repeat_sec : ℕ

-- `nowSec - observedSinceSec < thresholdSec` and `nowSec - lastWarnSec >= repeatSec`, on integers:
-- the clock may have gone back.
unfoldable pub should_emit_stuck_warning : StuckWarningInput → Bool
should_emit_stuck_warning args = elim args.threshold_sec [
  | none ↦ false
  | some threshold ↦
      if leb threshold 0
      then false
      else if args.observed_status == args.target_status
      then (if ltb args.now_sec (threshold + args.observed_since_sec)
          then false
          else leb (args.repeat_sec + or_default args.last_warn_sec 0) args.now_sec)
      else false
]

pub record RetryDescription : Type 0 where
  pub reason : JsString
  pub fast : Bool

unfoldable pub describe_participant_cleanup_retry :
    ParticipantCleanupRetryInput → Option RetryDescription
describe_participant_cleanup_retry stats =
    let remaining = stats.existing - stats.closed in
    if leb stats.existing stats.closed
    then none
    else some (record {
      reason =
          if ltb 0 stats.blocked_by_refund
          then codes "waiting user refunds ("
            ++ (decimal stats.blocked_by_refund ++ codes " participant PDAs still funded)")
          else if ltb 0 stats.closed
          then codes "participant cleanup in progress ("
            ++ (decimal remaining ++ codes " remaining)")
          else codes "participant cleanup pending (" ++ (decimal remaining ++ codes " remaining)");
      fast = ltb 0 stats.closed;
    })

unfoldable pub build_cleanup_retry_schedule_update :
    CleanupRetryScheduleInput → CleanupRetryScheduleUpdate
build_cleanup_retry_schedule_update args =
    let next_delay_sec =
      compute_cleanup_retry_delay (some (or_default args.current_delay_sec args.min_delay_sec))
        args.min_delay_sec args.max_delay_sec args.fast in
    record {
      next_delay_sec = next_delay_sec;
      next_attempt_at_sec = args.now_sec + next_delay_sec;
      next_retry_count = or_default args.retry_count 0 + 1;
      last_reason = args.reason;
    }

unfoldable pub plan_participant_cleanup_retry_schedule :
    ParticipantCleanupRetryScheduleInput → Option CleanupRetryScheduleUpdate
plan_participant_cleanup_retry_schedule args =
    elim (describe_participant_cleanup_retry args.stats) [
      | none ↦ none
      | some retry ↦ some (
          build_cleanup_retry_schedule_update (record {
            now_sec = args.now_sec;
            reason = retry.reason;
            min_delay_sec = args.min_delay_sec;
            max_delay_sec = args.max_delay_sec;
            current_delay_sec = args.current_delay_sec;
            retry_count = args.retry_count;
            fast = some retry.fast;
          }))
    ]

unfoldable pub describe_cleanup_retry_outcome : CleanupRetryOutcome → Option RetryDescription
describe_cleanup_retry_outcome (participants_pending stats) =
    describe_participant_cleanup_retry stats
describe_cleanup_retry_outcome (left_terminal_state status) = some (record {
  reason = codes "round left terminal state (" ++ (decimal status ++ codes ")");
  fast = false;
})
describe_cleanup_retry_outcome (close_round_failed message) =
    some (record { reason = codes "close_round failed: " ++ message; fast = false })
describe_cleanup_retry_outcome (background_error message) =
    some (record { reason = codes "background error: " ++ message; fast = false })

pub record OutcomePlanInput : Type 0 where
  pub now_sec : ℕ
  pub outcome : CleanupRetryOutcome
  pub min_delay_sec : ℕ
  pub max_delay_sec : ℕ
  pub current_delay_sec : Option ℕ
  pub retry_count : Option ℕ

unfoldable pub plan_cleanup_retry_schedule_for_outcome :
    OutcomePlanInput → Option CleanupRetryScheduleUpdate
plan_cleanup_retry_schedule_for_outcome args = elim (describe_cleanup_retry_outcome args.outcome) [
  | none ↦ none
  | some desc ↦ some (
      build_cleanup_retry_schedule_update (record {
        now_sec = args.now_sec;
        reason = desc.reason;
        min_delay_sec = args.min_delay_sec;
        max_delay_sec = args.max_delay_sec;
        current_delay_sec = args.current_delay_sec;
        retry_count = args.retry_count;
        fast = some desc.fast;
      }))
]
