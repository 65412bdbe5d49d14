-- ===== src/Crank/Tick.antt =====
-- One pass of the main loop (`tick` of crank/src/index.ts), and a run of passes. The social event
-- of a settled round is published without being waited for, and is not modelled.
use winny.Base.{ℕ, zero, suc, ◌||◌, Option, none, some, length, ltb, ◌==◌, if◌then◌else◌}
use winny.RoundStatus.{open_round, locked, vrf_requested, settled}
use winny.Accounts.Crank.{RoundData}
use winny.Crank.{
  World, Crank, Action, pure, ◌>>=◌, ◌>>◌, try_catch, gets, modify, when, fetch_round,
}
use winny.Crank.Observe.{observe_round_state, maybe_warn_stuck_round, maybe_log_health_snapshot}
use winny.Crank.Background.{track_background_round}
use winny.Crank.Rounds.{
  next_round, mark_vrf_sent, handle_start_round, handle_lock_and_vrf, handle_request_vrf,
}
use winny.Crank.Cleanup.{is_terminal_status, process_background_rounds}

module _ {Key : Type 0} (w : World Key) where
  -- A round that is settled or over is left to the cleanup, and the service goes on to the next.
  unfoldable pub leave_round : ℕ → Action Key (Unit {0})
  leave_round round_id = do
    track_background_round w round_id
    modify next_round
    modify (mark_vrf_sent 0)

  -- The branches of `tick` by the status of the round in play.
  unfoldable pub act_on_status : ℕ → RoundData Key → Action Key (Unit {0})
  act_on_status round_id rd =
      if rd.status == open_round
      then (do maybe_log_health_snapshot w; handle_lock_and_vrf w round_id rd; pure tt)
      else if rd.status == locked
      then (do maybe_log_health_snapshot w; handle_request_vrf w round_id; pure tt)
      else if rd.status == vrf_requested
      then maybe_log_health_snapshot w
      else if rd.status == settled || is_terminal_status rd.status
      then (do leave_round round_id; maybe_log_health_snapshot w)
      else maybe_log_health_snapshot w

  unfoldable pub act_on_round : ℕ → Option (RoundData Key) → Action Key (Unit {0})
  act_on_round round_id none = do
    maybe_log_health_snapshot w
    handle_start_round w round_id
    pure tt
  act_on_round round_id (some rd) = do
    observe_round_state w round_id rd.status
    maybe_warn_stuck_round w round_id rd.status
    act_on_status round_id rd

  unfoldable pub play_round : Action Key (Unit {0})
  play_round = do
    round_id ← gets (λ s. s.current_round_id)
    rd ← fetch_round w round_id
    act_on_round round_id rd

  unfoldable pub tick : Action Key (Unit {0})
  tick =
      try_catch
        (do
          rounds ← gets (λ s. s.background_rounds)
          when (ltb 0 (length rounds)) (process_background_rounds w)
          play_round)
        (λ message. maybe_log_health_snapshot w)

  -- The state after `n` passes.
  unfoldable pub run : ℕ → Crank Key → Crank Key
  run zero s = s
  run (suc n) s = run n (tick s).1
