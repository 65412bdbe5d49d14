-- ===== src/Examples/Service.antt =====
-- The service on a chain whose round 1 is settled and whose round 2 is not there yet.
use winny.Base.{
  ℕ, ◌+◌, ◌≤◌, ◌≡◌, refl, true, Option, none, some, [], ◌∷◌, map, ◌==◌, if◌then◌else◌, List, ◌++◌,
  contains, lookup, insert, add, arith,
}
use winny.Text.{codes, same_text}
use winny.Bytes.{Buffer, subarray, le_value, get_uint, to_signed64, get_big_int64}
use winny.Crank.{
  Settings, World, Crank, answer, success, initial_crank, ◌>>=◌, try_catch, gets, modify, when,
  emit, now, read_round, get_account_info, fetch_round,
}
use winny.Crank.Tick.{tick, run, play_round, act_on_round, act_on_status, leave_round}
use winny.Accounts.Crank.{parse_round, participants_from}
use winny.Runtime.{get_stuck_threshold_sec, should_emit_stuck_warning}
use winny.Crank.Observe.{
  observe_round_state, observed_at, next_observed, next_warned, maybe_warn_stuck_round,
  stuck_threshold_sec, warn_stuck_round, set_warned_at, warned_at, maybe_log_health_snapshot,
  log_health_snapshot, count_rounds, count_round, allow_cleanup_now,
}
use winny.Crank.Background.{
  track_background_round, add_to_background, set_next_attempt, start_backoff,
}
use winny.Crank.Cleanup.{is_terminal_status}
use winny.Crank.Rounds.{next_round, mark_vrf_sent}
use winny.Crank.Startup.{start_service}
use winny.Crank.Tracking.{IsTracked}
use winny.Crank.Tracking.Ticks.{service-IsTracked}
use winny.Crank.Justified.{Justified, service-Justified}
use winny.Crank.Progress.{Stepped, tick-Stepped, run-current_bounds, run-left_behind}
use winny.Crank.Cleanup.{cleanup_participant_pdas}
use winny.Crank.Hoare.{Post}
use winny.Crank.Refunds.Chunks.{ReadFailed}
use winny.Crank.Refunds.Report.{Reports, cleanup_participant_pdas-IsReport}
use winny.Accounts.Crank.{RoundData}
use winny.Base.Int.{pos}
use winny.Examples.{zeros, round_bytes}

abbrev settings : Settings
settings = record {
  lock_buffer_sec = 3;
  close_delay_sec = 5;
  cleanup_backoff_min_sec = 5;
  cleanup_backoff_max_sec = 60;
  participant_cleanup_batch = 12;
  health_log_interval_sec = 60;
  startup_backfill_scan_rounds = 50;
  stuck_locked_sec = 90;
  stuck_vrf_requested_sec = 180;
  stuck_settled_sec = 300;
  stuck_cancelled_sec = 180;
  stuck_warn_repeat_sec = 60;
  vrf_cooldown_sec = 15;
}

abbrev account_of : ℕ → Option Buffer
account_of i = if i == 1 then some (round_bytes 3) else none

abbrev world : World Buffer
world = record {
  settings = settings;
  public_key = λ d. d;
  clock = λ calls. 1000 + calls;
  round_account = λ calls i. answer (account_of i);
  round_accounts = λ calls ids. answer (map account_of ids);
  participant_accounts = λ calls i users. answer [];
  transaction = λ calls tx. answer (codes "signature");
  has_archive = true;
  archive = λ calls i. success;
  max_archived_round_id = λ calls. 0;
}

abbrev at_round_1 : Crank Buffer
at_round_1 = record initial_crank { current_round_id = 1 }

goes_on : (run world 1 at_round_1).current_round_id ≡ 2
unfolding run tick play_round act_on_round act_on_status leave_round try_catch gets modify when emit
    now read_round get_account_info fetch_round ◌>>=◌ parse_round participants_from subarray
    le_value get_uint to_signed64 get_big_int64 observe_round_state observed_at next_observed
    next_warned maybe_warn_stuck_round stuck_threshold_sec get_stuck_threshold_sec warn_stuck_round
    should_emit_stuck_warning set_warned_at warned_at track_background_round add_to_background
    set_next_attempt start_backoff next_round mark_vrf_sent is_terminal_status
    maybe_log_health_snapshot log_health_snapshot count_rounds count_round allow_cleanup_now lookup
    insert add
goes_on = refl

waits : contains 1 (run world 1 at_round_1).background_rounds ≡ true
unfolding run tick play_round act_on_round act_on_status leave_round try_catch gets modify when emit
    now read_round get_account_info fetch_round ◌>>=◌ parse_round participants_from subarray
    le_value get_uint to_signed64 get_big_int64 observe_round_state observed_at next_observed
    next_warned maybe_warn_stuck_round stuck_threshold_sec get_stuck_threshold_sec warn_stuck_round
    should_emit_stuck_warning set_warned_at warned_at track_background_round add_to_background
    set_next_attempt start_backoff next_round mark_vrf_sent is_terminal_status
    maybe_log_health_snapshot log_health_snapshot count_rounds count_round allow_cleanup_now lookup
    insert add contains
waits = refl

service-Justified_example : Justified (run world 2 (start_service world 1 initial_crank).1).events
service-Justified_example = service-Justified world 1 2

service-IsTracked_example : IsTracked (run world 2 (start_service world 1 initial_crank).1)
service-IsTracked_example = service-IsTracked world 1 2

tick-Stepped_example : Stepped 1 [] (tick world at_round_1).1
tick-Stepped_example = tick-Stepped world at_round_1

run-current_bounds_example :
    (1 ≤ (run world 3 at_round_1).current_round_id)
    × ((run world 3 at_round_1).current_round_id ≤ 1 + 3)
run-current_bounds_example = run-current_bounds world 3 at_round_1

run-left_behind_example :
    (m : ℕ) × (m ≤ 1) × (contains 1 (run world m at_round_1).background_rounds ≡ true)
run-left_behind_example =
    run-left_behind world 1 at_round_1 1 (omega arith) (omega (arith, goes_on))

abbrev two_players : RoundData Buffer
two_players = record {
  round_id = 1;
  status = 3;
  bump = 0;
  start_ts = pos 0;
  end_ts = pos 0;
  first_deposit_ts = pos 0;
  vault_usdc_ata = [];
  total_usdc = 0;
  total_tickets = 0;
  participants_count = 2;
  randomness = [];
  winning_ticket = 0;
  winner = [];
  participants = (1 ∷ []) ∷ (2 ∷ []) ∷ [];
  vrf_payer = [];
}

-- The round is cancelled; the first account has USDC in it, the second one nothing, and the third
-- one is too short.
abbrev three_players : RoundData Buffer
three_players = record two_players {
  status = 5;
  participants = (1 ∷ []) ∷ (2 ∷ []) ∷ (3 ∷ []) ∷ (4 ∷ []) ∷ [];
}

abbrev player_account : Buffer → Option Buffer
player_account user =
    if same_text user (1 ∷ [])
    then some (zeros 88 ++ (7 ∷ zeros 31))
    else if same_text user (2 ∷ [])
    then some (zeros 120)
    else if same_text user (3 ∷ [])
    then some (zeros 20)
    else none

abbrev players_world : World Buffer
players_world = record world {
  participant_accounts = λ calls i users. answer (map player_account users);
}

answer-inj : {xs ys : List (Option Buffer)} → answer xs ≡ answer ys → ys ≡ xs
answer-inj e = cc

cleanup_participant_pdas-IsReport_example :
    Post
      (λ stats s. Reports players_world player_account three_players [] stats s)
      (λ s. ReadFailed players_world 1)
      (cleanup_participant_pdas players_world 1 three_players at_round_1)
cleanup_participant_pdas-IsReport_example =
    cleanup_participant_pdas-IsReport players_world 1 player_account
      (λ calls users infos e. answer-inj e) three_players at_round_1
