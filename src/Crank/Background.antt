-- ===== src/Crank/Background.antt =====
-- The rounds that wait for their cleanup in the background (crank/src/index.ts).
use winny.Base.{
  ℕ, ◌+◌, Bool, true, false, Option, none, some, has_key, lookup, insert, erase, add, remove,
  if◌then◌else◌,
}
use winny.Runtime.{
  CleanupRetryOutcome, CleanupRetryScheduleUpdate, or_default,
  plan_cleanup_retry_schedule_for_outcome,
}
use winny.Crank.{World, Crank, Action, pure, ◌>>=◌, ◌>>◌, gets, modify, now}
use winny.Crank.Observe.{delete_warned_at}

module _ {Key : Type 0} where
  -- `forgetRoundState`
  unfoldable pub forget_round_state : ℕ → Crank Key → Crank Key
  forget_round_state round_id s = record s {
    stuck_warned_at = elim (lookup round_id s.round_observed_state) [
      | none ↦ s.stuck_warned_at
      | some prev ↦ delete_warned_at round_id prev.status s.stuck_warned_at
    ];
    round_observed_state = erase round_id s.round_observed_state;
    cleanup_last_stats = erase round_id s.cleanup_last_stats;
    cleanup_retry_count = erase round_id s.cleanup_retry_count;
    cleanup_last_reason = erase round_id s.cleanup_last_reason;
  }

  -- `clearBackgroundRound`
  unfoldable pub clear_background_round : ℕ → Crank Key → Crank Key
  unfolding forget_round_state
  clear_background_round round_id s = forget_round_state round_id (record s {
    background_rounds = remove round_id s.background_rounds;
    archived_rounds = remove round_id s.archived_rounds;
    cleanup_next_attempt_at = erase round_id s.cleanup_next_attempt_at;
    cleanup_backoff_sec = erase round_id s.cleanup_backoff_sec;
  })

  -- The parts of `trackBackgroundRound`: a value that is there stays.
  unfoldable pub add_to_background : ℕ → Crank Key → Crank Key
  add_to_background round_id s = record s { background_rounds = add round_id s.background_rounds }

  unfoldable pub set_next_attempt : ℕ → ℕ → Crank Key → Crank Key
  set_next_attempt round_id at s = record s {
    cleanup_next_attempt_at = insert round_id at s.cleanup_next_attempt_at;
  }

  unfoldable pub start_backoff : ℕ → ℕ → Crank Key → Crank Key
  start_backoff min_sec round_id s = record s {
    cleanup_backoff_sec =
        if has_key round_id s.cleanup_backoff_sec
        then s.cleanup_backoff_sec
        else insert round_id min_sec s.cleanup_backoff_sec;
    cleanup_retry_count =
        if has_key round_id s.cleanup_retry_count
        then s.cleanup_retry_count
        else insert round_id 0 s.cleanup_retry_count;
  }

  unfoldable pub apply_retry_update : ℕ → CleanupRetryScheduleUpdate → Crank Key → Crank Key
  apply_retry_update round_id update s = record s {
    cleanup_backoff_sec = insert round_id update.next_delay_sec s.cleanup_backoff_sec;
    cleanup_next_attempt_at = insert round_id update.next_attempt_at_sec s.cleanup_next_attempt_at;
    cleanup_retry_count = insert round_id update.next_retry_count s.cleanup_retry_count;
    cleanup_last_reason = insert round_id update.last_reason s.cleanup_last_reason;
  }

  -- `if (!update) return false; …`
  unfoldable pub apply_plan : ℕ → Option CleanupRetryScheduleUpdate → Action Key Bool
  apply_plan round_id none = pure false
  apply_plan round_id (some update) = do modify (apply_retry_update round_id update); pure true

module _ {Key : Type 0} (w : World Key) where
  unfoldable pub track_background_round : ℕ → Action Key (Unit {0})
  track_background_round round_id = do
    modify (add_to_background round_id)
    scheduled ← gets (λ s. has_key round_id s.cleanup_next_attempt_at)
    if scheduled
        then pure tt
        else do t ← now w; modify (set_next_attempt round_id (t + w.close_delay_sec))
    modify (start_backoff w.cleanup_backoff_min_sec round_id)

  unfoldable pub schedule_cleanup_retry_outcome : ℕ → CleanupRetryOutcome → Action Key Bool
  schedule_cleanup_retry_outcome round_id outcome = do
    t ← now w
    backoff ← gets (λ s. lookup round_id s.cleanup_backoff_sec)
    count ← gets (λ s. lookup round_id s.cleanup_retry_count)
    apply_plan round_id (
        plan_cleanup_retry_schedule_for_outcome (record {
          now_sec = t;
          outcome = outcome;
          min_delay_sec = w.cleanup_backoff_min_sec;
          max_delay_sec = w.cleanup_backoff_max_sec;
          current_delay_sec = some (or_default backoff w.cleanup_backoff_min_sec);
          retry_count = some (or_default count 0);
        }))
