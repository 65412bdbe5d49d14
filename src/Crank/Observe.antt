-- ===== src/Crank/Observe.antt =====
-- What the service remembers of each round's status, its warnings about stuck rounds and its
-- health line (crank/src/index.ts). Only the figures of the logged lines are modelled.
use winny.Base.{
  ℕ, ◌+◌, ◌-◌, max, Bool, true, false, ◌&&◌, Option, none, some, List, [], ◌∷◌, length, ltb, leb,
  ◌==◌, if◌then◌else◌, lookup, insert,
}
use winny.RoundStatus.{settled, claimed, cancelled}
use winny.Runtime.{get_stuck_threshold_sec, should_emit_stuck_warning, or_default}
use winny.Crank.{
  World, Crank, Action, warned, health, ObservedState, HealthSnapshot, pure, ◌>>=◌, ◌>>◌, gets,
  modify, when, emit, now,
}

-- `stuckWarnedAt`, whose keys `${roundId}:${status}` stand for pairs of numbers.
unfoldable pub warned_at : ℕ → ℕ → List ((ℕ × ℕ) × ℕ) → Option ℕ
warned_at round_id status [] = none
warned_at round_id status (((i, k), t) ∷ m) =
    if i == round_id && k == status then some t else warned_at round_id status m

unfoldable pub set_warned_at : ℕ → ℕ → ℕ → List ((ℕ × ℕ) × ℕ) → List ((ℕ × ℕ) × ℕ)
set_warned_at round_id status at [] = ((round_id, status), at) ∷ []
set_warned_at round_id status at (((i, k), t) ∷ m) =
    if i == round_id && k == status
    then ((round_id, status), at) ∷ m
    else ((i, k), t) ∷ set_warned_at round_id status at m

unfoldable pub delete_warned_at : ℕ → ℕ → List ((ℕ × ℕ) × ℕ) → List ((ℕ × ℕ) × ℕ)
delete_warned_at round_id status [] = []
delete_warned_at round_id status (((i, k), t) ∷ m) =
    let rest = delete_warned_at round_id status m in
    if i == round_id && k == status then rest else ((i, k), t) ∷ rest

module _ {Key : Type 0} where
  -- `roundObservedState` after a status was observed at time `t`.
  unfoldable pub next_observed : ℕ → ℕ → ℕ → Crank Key → List (ℕ × ObservedState)
  next_observed round_id status t s =
      let fresh : ObservedState = record { status = status; since_ts = t; last_seen_ts = t } in
      elim (lookup round_id s.round_observed_state) [
        | none ↦ insert round_id fresh s.round_observed_state
        | some prev ↦
            if prev.status == status
            then insert round_id (record prev { last_seen_ts = t }) s.round_observed_state
            else insert round_id fresh s.round_observed_state
      ]

  -- A changed status resets the warnings for the old one.
  unfoldable pub next_warned : ℕ → ℕ → Crank Key → List ((ℕ × ℕ) × ℕ)
  next_warned round_id status s = elim (lookup round_id s.round_observed_state) [
    | none ↦ s.stuck_warned_at
    | some prev ↦
        if prev.status == status
        then s.stuck_warned_at
        else delete_warned_at round_id prev.status s.stuck_warned_at
  ]

  unfoldable pub observed_at : ℕ → ℕ → ℕ → Crank Key → Crank Key
  observed_at round_id status t s = record s {
    round_observed_state = next_observed round_id status t s;
    stuck_warned_at = next_warned round_id status s;
  }

abbrev pub is_status : ℕ → Option ℕ → Bool
is_status k none = false
is_status k (some status) = status == k

module _ {Key : Type 0} (w : World Key) where
  unfoldable pub observe_round_state : ℕ → ℕ → Action Key (Unit {0})
  observe_round_state round_id status = do t ← now w; modify (observed_at round_id status t)

  unfoldable pub stuck_threshold_sec : ℕ → Option ℕ
  stuck_threshold_sec status = get_stuck_threshold_sec status (record {
    locked_sec = w.stuck_locked_sec;
    vrf_requested_sec = w.stuck_vrf_requested_sec;
    settled_sec = w.stuck_settled_sec;
    cancelled_sec = w.stuck_cancelled_sec;
  })

  unfoldable pub warn_stuck_round : ℕ → ℕ → ℕ → ObservedState → Action Key (Unit {0})
  warn_stuck_round round_id status threshold obs = do
    now_sec ← now w
    last_warn ← gets (λ s. warned_at round_id status s.stuck_warned_at)
    let due = should_emit_stuck_warning (record {
      now_sec = now_sec;
      observed_status = obs.status;
      target_status = status;
      observed_since_sec = obs.since_ts;
      threshold_sec = some threshold;
      last_warn_sec = last_warn;
      repeat_sec = w.stuck_warn_repeat_sec;
    })
    when due do
      modify (λ s. record s {
        stuck_warned_at = set_warned_at round_id status now_sec s.stuck_warned_at;
      })
      emit (warned round_id status (now_sec - obs.since_ts))

  unfoldable pub maybe_warn_stuck_round : ℕ → ℕ → Action Key (Unit {0})
  unfolding warn_stuck_round
  maybe_warn_stuck_round round_id status = elim (stuck_threshold_sec status) [
    | none ↦ pure tt
    | some threshold ↦ if leb threshold 0 then pure tt else do
      obs ← gets (λ s. lookup round_id s.round_observed_state)
      elim obs [
        | none ↦ pure tt
        | some o ↦
            if o.status == status then warn_stuck_round round_id status threshold o else pure tt
      ]
  ]

  unfoldable pub allow_cleanup_now : ℕ → Action Key Bool
  allow_cleanup_now round_id = do
    due ← gets (λ s. lookup round_id s.cleanup_next_attempt_at)
    elim due [ none ↦ pure true | some at ↦ do t ← now w; pure (leb at t) ]

  -- What one background round adds to the figures.
  unfoldable pub count_round : ℕ → Bool → Crank Key → HealthSnapshot → HealthSnapshot
  count_round round_id due s h =
      let status : Option ℕ = elim (lookup round_id s.round_observed_state) [
        | none ↦ none
        | some obs ↦ some obs.status
      ] in
      let blocked : ℕ = elim (lookup round_id s.cleanup_last_stats) [
        | none ↦ 0
        | some (stats, at) ↦ stats.blocked_by_refund
      ] in
      record h {
        due_cleanup = if due then h.due_cleanup + 1 else h.due_cleanup;
        settled_rounds =
            if is_status settled status then h.settled_rounds + 1 else h.settled_rounds;
        claimed_rounds =
            if is_status claimed status then h.claimed_rounds + 1 else h.claimed_rounds;
        cancelled_rounds =
            if is_status cancelled status then h.cancelled_rounds + 1 else h.cancelled_rounds;
        rounds_waiting_refund =
            if ltb 0 blocked then h.rounds_waiting_refund + 1 else h.rounds_waiting_refund;
        blocked_refund_participants = h.blocked_refund_participants + blocked;
        max_cleanup_retry =
            max h.max_cleanup_retry (or_default (lookup round_id s.cleanup_retry_count) 0);
      }

  unfoldable pub count_rounds : List ℕ → HealthSnapshot → Action Key HealthSnapshot
  unfolding allow_cleanup_now count_round
  count_rounds [] h = pure h
  count_rounds (round_id ∷ rest) h = do
    due ← allow_cleanup_now round_id
    h' ← gets (λ s. count_round round_id due s h)
    count_rounds rest h'

  unfoldable pub log_health_snapshot : Action Key (Unit {0})
  unfolding count_rounds
  log_health_snapshot = do
    rounds ← gets (λ s. s.background_rounds)
    h ← count_rounds rounds (record {
      background = length rounds;
      due_cleanup = 0;
      settled_rounds = 0;
      claimed_rounds = 0;
      cancelled_rounds = 0;
      rounds_waiting_refund = 0;
      blocked_refund_participants = 0;
      max_cleanup_retry = 0;
    })
    emit (health h)

  unfoldable pub maybe_log_health_snapshot : Action Key (Unit {0})
  unfolding log_health_snapshot
  maybe_log_health_snapshot = if leb w.health_log_interval_sec 0 then pure tt else do
    t ← now w
    last ← gets (λ s. s.last_health_log_at)
    if ltb t (w.health_log_interval_sec + last)
        then pure tt
        else do modify (λ s. record s { last_health_log_at = t }); log_health_snapshot
