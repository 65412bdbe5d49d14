-- ===== src/Examples/Executor.antt =====
-- The executor's attempts at a claim with two candidates.
use winny.Base.{
  ◌≡◌, refl, arith, true, false, none, some, List, [], ◌∷◌, if◌then◌else◌, length, ltb,
}
use winny.Base.Int.{pos, ◌-ℤ◌}
use winny.Text.{codes}
use winny.Bytes.{get_uint, subarray, le_value}
use winny.Accounts.Layout.{encode}
use winny.Accounts.RoundTrip.{parse_round-encode}
use winny.Accounts.Degen.{parse_round_meta, parse_round_vrf_payer, parse_config_fee_bps}
use winny.Accounts.Agreement.{parse_round_meta_agree, parse_round_vrf_payer_agree}
use winny.Degen.Payout.{compute_begin_degen_payout, scale, quotient}
use winny.Executor.Prepare.{prepare_claim, payout_of_claim, positive_payout}
use winny.Examples.{zeros}
use winny.Examples.Accounts.{
  same_key, settled_round, settled_round-IsSized, settled_contents, config_bytes,
}
use winny.Degen.{Candidate}
use winny.Executor.{landed, failed, has_route, Outside, Options, try_candidates}
use winny.Executor.Once.{IsOver, try_candidates-IsOver}

-- The first two transactions are too large, and the third one lands.
abbrev outside : Outside
outside = record {
  send = λ steps a.
      if ltb (length steps) 2
      then failed
          (record { message = codes "transaction too large: 1300 bytes"; is_tx_timeout = false })
      else landed;
  check_mint = λ steps c. has_route;
  claim_status = λ steps. none;
  clock = λ steps. 1000;
}

abbrev options : Options
options = record {
  is_usdc = λ c. false;
  slippage_sequence = 300 ∷ 400 ∷ [];
  max_accounts_sequence = 64 ∷ 48 ∷ 36 ∷ [];
  fallback_after_ts = 2000;
}

abbrev candidates : List Candidate
candidates =
    record { rank = 0; index = 5; mint = some (codes "mint F") }
    ∷ record { rank = 1; index = 2; mint = some (codes "mint C") }
    ∷ []

try_candidates-IsOver_example :
    IsOver outside options (try_candidates outside options candidates [])
try_candidates-IsOver_example = try_candidates-IsOver outside options candidates [] tt

pub meta_read :
    parse_round_meta (encode settled_round)
    ≡ some (record { status = 3; total_usdc = 5000000; degen_mode_status = some 2 })
meta_read =
    parse_round_meta_agree (λ d. d) (encode settled_round) settled_contents
      (parse_round-encode settled_round settled_round-IsSized (λ d. d))

payer_read :
    parse_round_vrf_payer (λ d. d) same_key (zeros 32) (encode settled_round) ≡ some (4 ∷ zeros 31)
payer_read =
    parse_round_vrf_payer_agree (λ d. d) same_key (zeros 32) (encode settled_round) settled_contents
      (parse_round-encode settled_round settled_round-IsSized (λ d. d))

pub fee_read : parse_config_fee_bps config_bytes ≡ some 300
unfolding parse_config_fee_bps get_uint subarray le_value
fee_read = refl

payout_computed : positive_payout (compute_begin_degen_payout 5000000 300 true) ≡ some (pos 4656000)
unfolding positive_payout compute_begin_degen_payout scale quotient ◌-ℤ◌
payout_computed = refl

prepared :
    prepare_claim (λ d. d) same_key (zeros 32) 2 (some (encode settled_round)) (some config_bytes)
    ≡ some (some (pos 4656000))
unfolding prepare_claim payout_of_claim
prepared = ground (arith, meta_read, payer_read, fee_read, payout_computed)
