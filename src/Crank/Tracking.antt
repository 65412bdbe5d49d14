-- ===== src/Crank/Tracking.antt =====
-- The bookkeeping of the rounds in the background: which maps and sets have an entry for a round.
pub mod Actions
pub mod Ticks
use winny.Base.{
  ℕ, suc, ◌+◌, ◌≡◌, ◌≢◌, ◌∙◌, sym, Bool, true, false, Option, none, some, List, ◌==◌, if◌then◌else◌,
  arith, has_key, lookup, insert, erase, contains, add, remove, lookup-insert, lookup-erase,
  contains-add, contains-remove, Distinct, add-Distinct, remove-Distinct,
}
use native.Mathlib.Decide.{ℕ_discrete}
use winny.Runtime.{CleanupRetryScheduleUpdate}
use winny.Text.{JsString}
use winny.Crank.{Crank, ParticipantCleanupStats}
use winny.Crank.Background.{
  clear_background_round, add_to_background, set_next_attempt, start_backoff, apply_retry_update,
}

-- The rounds in the background are those with a next attempt, a backoff and a retry count; a last
-- reason, last figures or an archive mark belong to one of them.
pub record Tracked (background archived_rounds : List ℕ)
    (next_attempt backoff_sec counts : List (ℕ × ℕ)) (reasons : List (ℕ × JsString))
    (last_stats : List (ℕ × (ParticipantCleanupStats × ℕ))) : Type 0 where
  pub due : (j : ℕ) → has_key j next_attempt ≡ contains j background
  pub backoff : (j : ℕ) → has_key j backoff_sec ≡ contains j background
  pub count : (j : ℕ) → has_key j counts ≡ contains j background
  pub reason : (j : ℕ) → has_key j reasons ≡ true → contains j background ≡ true
  pub stats : (j : ℕ) → has_key j last_stats ≡ true → contains j background ≡ true
  pub archived : (j : ℕ) → contains j archived_rounds ≡ true → contains j background ≡ true
  pub distinct : Distinct background

abbrev pub IsTracked : {Key : Type 0} → Crank Key → Type 0
IsTracked s =
    Tracked s.background_rounds s.archived_rounds s.cleanup_next_attempt_at s.cleanup_backoff_sec
      s.cleanup_retry_count s.cleanup_last_reason s.cleanup_last_stats

module _ {Key : Type 0} where
  pub IsTracked-clear :
      (round_id : ℕ) (s : Crank Key) → IsTracked s → IsTracked (clear_background_round round_id s)
  unfolding clear_background_round
  IsTracked-clear i s h = record {
    due = λ j. ground (
      arith,
      h.due j,
      lookup-erase i j s.cleanup_next_attempt_at,
      contains-remove i j s.background_rounds,
    );
    backoff = λ j. ground (
      arith,
      h.backoff j,
      lookup-erase i j s.cleanup_backoff_sec,
      contains-remove i j s.background_rounds,
    );
    count = λ j. ground (
      arith,
      h.count j,
      lookup-erase i j s.cleanup_retry_count,
      contains-remove i j s.background_rounds,
    );
    reason = λ j e. ground (
      arith,
      h.reason j,
      lookup-erase i j s.cleanup_last_reason,
      contains-remove i j s.background_rounds,
    );
    stats = λ j e. ground (
      arith,
      h.stats j,
      lookup-erase i j s.cleanup_last_stats,
      contains-remove i j s.background_rounds,
    );
    archived = λ j e. ground (
      arith,
      h.archived j,
      contains-remove i j s.archived_rounds,
      contains-remove i j s.background_rounds,
    );
    distinct = remove-Distinct i s.background_rounds h.distinct;
  }

  pub IsTracked-retry :
      (round_id : ℕ) (u : CleanupRetryScheduleUpdate) (s : Crank Key)
      → contains round_id s.background_rounds ≡ true
      → IsTracked s
      → IsTracked (apply_retry_update round_id u s)
  unfolding apply_retry_update
  IsTracked-retry i u s here h = record {
    due = λ j.
        ground (arith, h.due j, lookup-insert i j u.next_attempt_at_sec s.cleanup_next_attempt_at);
    backoff =
        λ j. ground (arith, h.backoff j, lookup-insert i j u.next_delay_sec s.cleanup_backoff_sec);
    count =
        λ j. ground (arith, h.count j, lookup-insert i j u.next_retry_count s.cleanup_retry_count);
    reason =
        λ j e. ground (arith, h.reason j, lookup-insert i j u.last_reason s.cleanup_last_reason);
    stats = h.stats;
    archived = h.archived;
    distinct = h.distinct;
  }

  pub IsTracked-stats :
      (i : ℕ) (v : ParticipantCleanupStats × ℕ) (s : Crank Key)
      → contains i s.background_rounds ≡ true
      → IsTracked s
      → IsTracked (record s { cleanup_last_stats = insert i v s.cleanup_last_stats })
  IsTracked-stats i v s here h = record {
    due = h.due;
    backoff = h.backoff;
    count = h.count;
    reason = h.reason;
    stats = λ j e. ground (arith, h.stats j, lookup-insert i j v s.cleanup_last_stats);
    archived = h.archived;
    distinct = h.distinct;
  }

  pub IsTracked-archived :
      (i : ℕ) (s : Crank Key)
      → contains i s.background_rounds ≡ true
      → IsTracked s
      → IsTracked (record s { archived_rounds = add i s.archived_rounds })
  IsTracked-archived i s here h = record {
    due = h.due;
    backoff = h.backoff;
    count = h.count;
    reason = h.reason;
    stats = h.stats;
    archived = λ j e. ground (arith, h.archived j, contains-add i j s.archived_rounds);
    distinct = h.distinct;
  }

-- The bookkeeping between the steps of adding round `i`: its own entries may still be missing.
pub record Added (i : ℕ) (background archived_rounds : List ℕ)
    (next_attempt backoff_sec counts : List (ℕ × ℕ)) (reasons : List (ℕ × JsString))
    (last_stats : List (ℕ × (ParticipantCleanupStats × ℕ))) : Type 0 where
  pub member : contains i background ≡ true
  pub due : (j : ℕ) → j ≢ i → has_key j next_attempt ≡ contains j background
  pub backoff : (j : ℕ) → j ≢ i → has_key j backoff_sec ≡ contains j background
  pub count : (j : ℕ) → j ≢ i → has_key j counts ≡ contains j background
  pub reason : (j : ℕ) → has_key j reasons ≡ true → contains j background ≡ true
  pub stats : (j : ℕ) → has_key j last_stats ≡ true → contains j background ≡ true
  pub archived : (j : ℕ) → contains j archived_rounds ≡ true → contains j background ≡ true
  pub distinct : Distinct background

abbrev pub IsAdded : {Key : Type 0} → ℕ → Crank Key → Type 0
IsAdded i s =
    Added i s.background_rounds s.archived_rounds s.cleanup_next_attempt_at s.cleanup_backoff_sec
      s.cleanup_retry_count s.cleanup_last_reason s.cleanup_last_stats

-- The parts of `trackBackgroundRound`, in its order.
module _ {Key : Type 0} where
  pub IsAdded-add : (i : ℕ) (s : Crank Key) → IsTracked s → IsAdded i (add_to_background i s)
  unfolding add_to_background
  IsAdded-add i s h = record {
    member = ground (arith, contains-add i i s.background_rounds);
    due = λ j e. ground (arith, h.due j, contains-add i j s.background_rounds);
    backoff = λ j e. ground (arith, h.backoff j, contains-add i j s.background_rounds);
    count = λ j e. ground (arith, h.count j, contains-add i j s.background_rounds);
    reason = λ j e. ground (arith, h.reason j e, contains-add i j s.background_rounds);
    stats = λ j e. ground (arith, h.stats j e, contains-add i j s.background_rounds);
    archived = λ j e. ground (arith, h.archived j e, contains-add i j s.background_rounds);
    distinct = add-Distinct i s.background_rounds h.distinct;
  }

  pub IsAdded-next_attempt :
      (i at : ℕ) (s : Crank Key) → IsAdded i s → IsAdded i (set_next_attempt i at s)
  unfolding set_next_attempt
  IsAdded-next_attempt i at s h = record {
    member = h.member;
    due = λ j e. ground (arith, h.due j e, lookup-insert i j at s.cleanup_next_attempt_at);
    backoff = h.backoff;
    count = h.count;
    reason = h.reason;
    stats = h.stats;
    archived = h.archived;
    distinct = h.distinct;
  }

  pub has-next_attempt :
      (i at : ℕ) (s : Crank Key)
      → has_key i (set_next_attempt i at s).cleanup_next_attempt_at ≡ true
  unfolding set_next_attempt
  has-next_attempt i at s = ground (arith, lookup-insert i i at s.cleanup_next_attempt_at)

  pub IsTracked-start_backoff :
      (i min_sec : ℕ) (s : Crank Key)
      → IsAdded i s
      → has_key i s.cleanup_next_attempt_at ≡ true
      → IsTracked (start_backoff min_sec i s)
  unfolding start_backoff
  IsTracked-start_backoff i m s h e = record {
    due = λ j. elim (ℕ_discrete j i) [ yes p ↦ rw p (e ∙ sym h.member) | no p ↦ h.due j p ];
    backoff = λ j. ground (arith, h.backoff j, h.member, lookup-insert i j m s.cleanup_backoff_sec);
    count = λ j. ground (arith, h.count j, h.member, lookup-insert i j 0 s.cleanup_retry_count);
    reason = h.reason;
    stats = h.stats;
    archived = h.archived;
    distinct = h.distinct;
  }
