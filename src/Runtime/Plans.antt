-- ===== src/Runtime/Plans.antt =====
-- When a new attempt is planned, and what the plan says.
use mathlib.Core.Bool.{false≢true}
use winny.Base.{◌+◌, ◌≤◌, ◌≡◌, ◌↔◌, ◌⊎◌, inl, inr, ◌||◌, refl, Bool, true, false, none, some, arith}
use winny.Text.{JsString, codes}
use winny.Text.Search.{Occurs, OccursAsWord, includes_iff, includes_word_iff}
use winny.Runtime.{
  ParticipantCleanupRetryInput, CleanupRetryOutcome, participants_pending, left_terminal_state,
  close_round_failed, background_error, CleanupRetryScheduleUpdate, OutcomePlanInput,
  ParticipantCleanupRetryScheduleInput, or_default, is_min_requirements_error_message,
  compute_cleanup_retry_delay, describe_participant_cleanup_retry,
  plan_participant_cleanup_retry_schedule, describe_cleanup_retry_outcome,
  plan_cleanup_retry_schedule_for_outcome, build_cleanup_retry_schedule_update,
}

-- All the participants' accounts that were there are closed.
abbrev pub NothingPending : CleanupRetryOutcome → Type 0
NothingPending outcome =
    (stats : ParticipantCleanupRetryInput) × (outcome ≡ participants_pending stats)
    × (stats.existing ≤ stats.closed)

describe_participant-eq-none_iff :
    (stats : ParticipantCleanupRetryInput)
    → (describe_participant_cleanup_retry stats ≡ none) ↔ (stats.existing ≤ stats.closed)
unfolding describe_participant_cleanup_retry
describe_participant-eq-none_iff stats = (λ e. ground arith, λ le. ground arith)

describe-eq-none_iff :
    (outcome : CleanupRetryOutcome)
    → (describe_cleanup_retry_outcome outcome ≡ none) ↔ NothingPending outcome
unfolding describe_cleanup_retry_outcome
describe-eq-none_iff (participants_pending stats) = (
  λ e. (stats, refl, (describe_participant-eq-none_iff stats).0 e),
  λ (stats', same, le). (describe_participant-eq-none_iff stats).1 (ground arith),
)
describe-eq-none_iff (left_terminal_state status) = (λ e. cc, λ (stats, same, le). cc)
describe-eq-none_iff (close_round_failed message) = (λ e. cc, λ (stats, same, le). cc)
describe-eq-none_iff (background_error message) = (λ e. cc, λ (stats, same, le). cc)

-- No new attempt is planned exactly when the outcome is that of the participants' accounts, and
-- none of them is left.
pub plan_for_outcome-eq-none_iff :
    (args : OutcomePlanInput)
    → (plan_cleanup_retry_schedule_for_outcome args ≡ none) ↔ NothingPending args.outcome
unfolding plan_cleanup_retry_schedule_for_outcome
plan_for_outcome-eq-none_iff args = (
  λ e. (describe-eq-none_iff args.outcome).0 (ground arith),
  λ n. rw ((describe-eq-none_iff args.outcome).1 n, plan_cleanup_retry_schedule_for_outcome),
)

-- A plan's attempt is due one delay from now, the retry count goes up by one, and the delay is the
-- least one or more, up to the greatest one, unless the outcome is a fast one: then it is at most
-- 2 seconds.
pub plan_for_outcome_lem :
    (args : OutcomePlanInput) (u : CleanupRetryScheduleUpdate)
    → args.min_delay_sec ≤ args.max_delay_sec
    → plan_cleanup_retry_schedule_for_outcome args ≡ some u
    → (u.next_attempt_at_sec ≡ args.now_sec + u.next_delay_sec)
      × (u.next_retry_count ≡ or_default args.retry_count 0 + 1)
      × (u.next_delay_sec ≤ args.max_delay_sec)
      × ((args.min_delay_sec ≤ u.next_delay_sec) ⊎ (u.next_delay_sec ≤ 2))
unfolding plan_cleanup_retry_schedule_for_outcome build_cleanup_retry_schedule_update
    compute_cleanup_retry_delay
plan_for_outcome_lem args u h e = ground arith

-- The participants' own plan is the plan for an outcome of pending participants.
pub plan_participant-eq-plan_for_outcome :
    (a : ParticipantCleanupRetryScheduleInput)
    → plan_participant_cleanup_retry_schedule a
      ≡ plan_cleanup_retry_schedule_for_outcome (record {
        now_sec = a.now_sec;
        outcome = participants_pending a.stats;
        min_delay_sec = a.min_delay_sec;
        max_delay_sec = a.max_delay_sec;
        current_delay_sec = a.current_delay_sec;
        retry_count = a.retry_count;
      })
unfolding plan_participant_cleanup_retry_schedule plan_cleanup_retry_schedule_for_outcome
    describe_cleanup_retry_outcome
plan_participant-eq-plan_for_outcome a = refl

or_iff : {a b : Bool} {P Q : Type 0} → (a ≡ true) ↔ P → (b ≡ true) ↔ Q → ((a || b) ≡ true) ↔ (P ⊎ Q)
or_iff {a = true} p q = (λ e. inl (p.0 refl), λ o. refl)
or_iff {a = false} p q =
    (λ e. inr (q.0 e), elim [ inl x ↦ absurd (false≢true (p.1 x)) | inr y ↦ q.1 y ])

-- A message says that a round cannot be locked exactly when it holds one of the two error names,
-- or one of the two error codes as a word of its own.
pub is_min_requirements_error_message_iff :
    (message : JsString)
    → (is_min_requirements_error_message message ≡ true) ↔ (
        ((Occurs (codes "NotEnoughTickets") message
            ⊎ Occurs (codes "NotEnoughParticipants") message)
          ⊎ OccursAsWord false (codes "6010") message)
        ⊎ OccursAsWord false (codes "6009") message)
unfolding is_min_requirements_error_message
is_min_requirements_error_message_iff message =
    or_iff
      (or_iff
        (or_iff (includes_iff (codes "NotEnoughTickets") message)
          (includes_iff (codes "NotEnoughParticipants") message))
        (includes_word_iff (codes "6010") message))
      (includes_word_iff (codes "6009") message)
