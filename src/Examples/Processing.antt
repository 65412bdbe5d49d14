-- ===== src/Examples/Processing.antt =====
-- A ready claim that is worked on until its first transaction lands.
use winny.Base.{answered, ℕ, ◌≡◌, refl, ap, ◌∙◌, false, none, some, List, [], ◌∷◌, ◌==◌, arith}
use winny.Base.Int.{pos, ◌-ℤ◌}
use winny.Text.{codes, includes, starts_with}
use winny.Bytes.{subarray, get_uint, le_value}
use winny.Base.{contains}
use winny.Accounts.Layout.{encode}
use winny.Accounts.Degen.{parse_round_vrf_payer}
use winny.Degen.{
  derive_candidates, derive_from, draw_unused, draw_index, draw_digest, decode_u32_le,
}
use winny.Degen.Payout.{compute_begin_degen_payout, scale, quotient}
use winny.Executor.{
  Step, tried, has_route, try_candidates, try_candidate, try_slippages, try_accounts,
  after_accounts, after_candidate, is_confirm_timeout_error,
}
use winny.Executor.Prepare.{prepare_claim, payout_of_claim, positive_payout}
use winny.Executor.Build.{
  build_execution_tx, build_for_mint, assemble, middle, resolve_lookup_tables, present_tables,
  swap_middle, supported_owner, prefix_ixs, drain_ixs, cu_limit_ixs, is_cu_limit, body_ixs,
}
use winny.Executor.Send.{
  simulate_and_send, simulate, send, confirm, poll_status, status_verdict, sent_of,
}
use winny.Executor.Process.{
  World, Processed, rejected, skipped, worked, raw, window_or_30, attempt, work, with_config,
  process_ready_claim,
}
use winny.Executor.Pass.{fetch_ready_claims, pass, process_claims}
use winny.Executor.Pass.Reached.{IsReached, pass-reaches_iff}
use winny.Base.{get_elem?, ◌↔◌, if◌then◌else◌}
use winny.Executor.Process.Landed.{IsWorked, process_ready_claim-IsWorked}
use winny.Examples.{zeros}
use winny.Examples.Accounts.{settled_round, config_bytes}
use winny.Examples.Executor.{meta_read, fee_read}
use winny.Examples.Sending.{builder, claim, slow_connection}

-- One mint in the pool, one slippage and one number of accounts; the round has no VRF payer.
abbrev world : World ℕ ℕ
world = record {
  public_key = λ d. 0;
  equals = ◌==◌;
  default_key = 0;
  claim = claim;
  claim_status = 2;
  randomness = [];
  pool_version = 1;
  candidate_window = 10;
  pool = codes "mint" ∷ [];
  digest = λ payload. zeros 32;
  round_info = answered (some (encode settled_round));
  config_info = answered (some config_bytes);
  builder = λ steps. builder;
  connection = λ steps a built. slow_connection;
  check_mint = λ steps c. has_route;
  status_after = λ steps. none;
  clock = λ steps. 1000;
  options = record {
    is_usdc = λ c. false;
    slippage_sequence = 300 ∷ [];
    max_accounts_sequence = 64 ∷ [];
    fallback_after_ts = 2000;
  };
}

abbrev all_tried : List Step
all_tried =
    tried (record {
      candidate = record { rank = 0; index = 0; mint = some (codes "mint") };
      max_accounts = some 64;
      only_direct_routes = false;
      slippage_bps = some 300;
    })
    ∷ []

no_payer : parse_round_vrf_payer (λ d. 0) ◌==◌ 0 (encode settled_round) ≡ none
unfolding parse_round_vrf_payer
no_payer = refl

unreimbursed : positive_payout (compute_begin_degen_payout 5000000 300 false) ≡ some (pos 4850000)
unfolding positive_payout compute_begin_degen_payout scale quotient ◌-ℤ◌
unreimbursed = refl

prepared :
    prepare_claim (λ d. 0) ◌==◌ 0 2 (some (encode settled_round)) (some config_bytes)
    ≡ some (some (pos 4850000))
unfolding prepare_claim payout_of_claim
prepared = ground (arith, meta_read, no_payer, fee_read, unreimbursed)

swaps :
    work world
      (encode settled_round)
      (pos 4850000)
      (derive_candidates world.digest [] 1 world.pool 1 (window_or_30 10))
    ≡ worked all_tried
unfolding work raw window_or_30 derive_candidates derive_from draw_unused draw_index try_candidates
    try_candidate try_slippages try_accounts after_accounts after_candidate attempt
    parse_round_vrf_payer build_execution_tx build_for_mint assemble middle swap_middle
    supported_owner prefix_ixs drain_ixs cu_limit_ixs is_cu_limit body_ixs resolve_lookup_tables
    present_tables sent_of simulate_and_send simulate send confirm poll_status status_verdict
    is_confirm_timeout_error includes starts_with subarray decode_u32_le get_uint draw_digest
    contains le_value
swaps = refl

processed : process_ready_claim world 1 ≡ worked all_tried
unfolding process_ready_claim with_config
processed =
    ap
      (λ p. elim p as (λ p. Processed) [
        | none ↦ rejected
        | some none ↦ skipped
        | some (some payout) ↦
            work world (encode settled_round) payout
              (derive_candidates world.digest [] 1 world.pool 1 (window_or_30 10))
      ])
      prepared
    ∙ swaps

process_ready_claim-IsWorked_example : IsWorked world 1 all_tried
process_ready_claim-IsWorked_example = process_ready_claim-IsWorked world 1 all_tried processed

-- Two claims that are ready, and alike, and one between them that is not.
abbrev entries : List ℕ
entries = 5 ∷ 7 ∷ 6 ∷ []

abbrev status_of : ℕ → ℕ
status_of entry = if entry == 7 then 1 else 2

abbrev worlds : ℕ → ℕ → World ℕ ℕ
worlds n entry = world

pass-reaches_iff_example :
    (get_elem? (pass 1 status_of worlds (answered entries)) 1 ≡ some (6, worked all_tried))
    ↔ IsReached 1 status_of worlds entries 1 6 (worked all_tried)
pass-reaches_iff_example = pass-reaches_iff 1 status_of worlds entries 1 6 (worked all_tried)

-- Both of the claims that are ready are reached.
reaches_second :
    get_elem? (pass 1 status_of worlds (answered entries)) 1 ≡ some (6, worked all_tried)
unfolding pass fetch_ready_claims process_claims
reaches_second = rw processed refl
