-- ===== src/Executor/Process.antt =====
-- `processReadyClaim` (crank/src/degenExecutor.ts) from its reads to its last transaction, and
-- `deriveCandidates` (crank/src/degenLogic.ts), which it calls, composed as the code composes them.
pub mod Landed
use winny.Base.{
  Reply, answered, raised, ℕ, ◌==◌, Bool, not, ◌||◌, Option, none, some, List, [], ◌∷◌,
  if◌then◌else◌,
}
use winny.Base.Int.{ℤ, pos, negsuc}
use winny.Text.{JsString}
use winny.Bytes.{Buffer}
use winny.RoundStatus.{settled}
use winny.Accounts.Degen.{RoundMeta, parse_round_meta, parse_round_vrf_payer}
use winny.Degen.{Candidate, Derived, derived, range_error, out_of_fuel, derive_candidates}
use winny.Executor.{
  Attempt, Step, Failure, Sent, landed, failed, MintCheck, Outside, Options, try_candidates,
}
use winny.Executor.Prepare.{vrf_ready, is_degen_ready, prepare_claim}
use winny.Executor.Build.{Claim, Builder, Built, build_execution_tx}
use winny.Executor.Send.{Connection, plain_error, simulate_and_send, sent_of}

-- The claim, and what the outside answers; what is asked while a claim is worked on may be answered
-- differently after each step.
pub record World (Key Table : Type 0) : Type 0 where
  pub public_key : Buffer → Key
  pub equals : Key → Key → Bool
  pub default_key : Key
  pub claim : Claim Key
  pub claim_status : ℕ
  pub randomness : Buffer
  pub pool_version : ℕ
  -- `claim.account.candidateWindow`
  pub candidate_window : ℕ
  pub pool : List JsString
  pub digest : Buffer → Buffer
  pub round_info : Reply (Option Buffer)
  pub config_info : Reply (Option Buffer)
  pub builder : List Step → Builder Key Table
  pub connection : List Step → Attempt → Built Key Table → Connection
  pub check_mint : List Step → Candidate → MintCheck
  pub status_after : List Step → Option ℕ
  pub clock : List Step → ℕ
  pub options : Options

-- An early return, an error that leaves the function, or all that was tried, the last step first.
pub data Processed : Type 0 where
  skipped : Processed
  rejected : Processed
  worked : List Step → Processed
  no_fuel : Processed

-- A payout that is not below 0, as it is written into a transaction.
unfoldable pub raw : ℤ → ℕ
raw (pos n) = n
raw (negsuc n) = 0

-- `candidateWindow || 30`
unfoldable pub window_or_30 : ℕ → ℕ
window_or_30 n = if n == 0 then 30 else n

module _ {Key Table : Type 0} (w : World Key Table) where
  -- `buildExecutionTx` and then `simulateAndSend`, under the `try` of an attempt.
  unfoldable pub attempt : ℕ → Option Key → List Step → Attempt → Sent
  attempt payout vrf_payer steps a =
      elim (build_execution_tx (w.builder steps) w.claim a payout vrf_payer) [
        | raised message ↦ failed (plain_error message)
        | answered built ↦ sent_of (simulate_and_send (w.connection steps a built))
      ]

  abbrev pub outside_of : ℕ → Option Key → Outside
  outside_of payout vrf_payer = record {
    send = attempt payout vrf_payer;
    check_mint = w.check_mint;
    claim_status = w.status_after;
    clock = w.clock;
  }

  abbrev pub vrf_payer_of : Buffer → Option Key
  vrf_payer_of round = parse_round_vrf_payer w.public_key w.equals w.default_key round

  unfoldable pub work : Buffer → ℤ → Derived → Processed
  work round payout range_error = rejected
  work round payout out_of_fuel = no_fuel
  work round payout (derived candidates) =
      worked (try_candidates (outside_of (raw payout) (vrf_payer_of round)) w.options candidates [])

  -- The read of the config failed: that is an error where it is reached.
  unfoldable pub without_config : Buffer → Processed
  without_config round = elim (parse_round_meta round) [
    | none ↦ rejected
    | some meta ↦
        if not (meta.status == settled)
          || not (is_degen_ready meta.degen_mode_status)
          || not (w.claim_status == vrf_ready)
        then skipped
        else rejected
  ]

  unfoldable pub with_config : ℕ → Buffer → Option Buffer → Processed
  with_config fuel round config =
      elim (prepare_claim w.public_key w.equals w.default_key w.claim_status (some round) config) [
        | none ↦ rejected
        | some none ↦ skipped
        | some (some payout) ↦ work round payout (
            derive_candidates w.digest w.randomness w.pool_version w.pool fuel
              (window_or_30 w.candidate_window))
      ]

  -- `fuel` is for the search of each candidate.
  unfoldable pub process_ready_claim : ℕ → Processed
  process_ready_claim fuel = elim w.round_info [
    | raised message ↦ rejected
    | answered none ↦ skipped
    | answered (some round) ↦ elim w.config_info [
      | raised message ↦ without_config round
      | answered config ↦ with_config fuel round config
    ]
  ]
