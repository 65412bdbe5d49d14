-- ===== src/Executor.antt =====
-- The degen executor's attempts to swap a prize (`processReadyClaim` of
-- crank/src/degenExecutor.ts). What the outside answers may depend on all that was tried before.
-- Building, simulating, sending and confirming a transaction is one answer: it landed, or an error.
pub mod Once
pub mod Tried
pub mod Build
pub mod Prepare
pub mod Send
pub mod Process
pub mod Pass
use winny.Base.{
  ◌==◌, ℕ, ◌+◌, Bool, true, false, not, ◌&&◌, ◌||◌, Option, none, some, List, [], ◌∷◌, ◌++◌, map,
  ltb, leb, if◌then◌else◌,
}
use winny.Text.{JsString, codes, includes, decimal}
use winny.Degen.{Candidate}
use winny.Degen.Errors.{is_tx_too_large_error, is_slippage_error}

-- The arguments of `buildExecutionTx` that vary.
pub record Attempt : Type 0 where
  pub candidate : Candidate
  pub max_accounts : Option ℕ
  pub only_direct_routes : Bool
  pub slippage_bps : Option ℕ

pub data Step : Type 0 where
  tried : Attempt → Step
  tried_fallback : Step

-- An error's message, and whether it is a `TxTimeoutError`.
pub record Failure : Type 0 where
  pub message : JsString
  pub is_tx_timeout : Bool

pub data Sent : Type 0 where
  landed : Sent
  failed : Failure → Sent

-- What is found out about a mint before anything is sent.
pub data MintCheck : Type 0 where
  bad_mint : Failure → MintCheck
  no_route : MintCheck
  has_route : MintCheck

pub record Outside : Type 0 where
  pub send : List Step → Attempt → Sent
  pub check_mint : List Step → Candidate → MintCheck
  -- The status byte of the claim's account; none without an account, or after an error.
  pub claim_status : List Step → Option ℕ
  pub clock : List Step → ℕ

pub record Options : Type 0 where
  pub is_usdc : Candidate → Bool
  pub slippage_sequence : List ℕ
  pub max_accounts_sequence : List ℕ
  pub fallback_after_ts : ℕ

abbrev pub executing : ℕ
executing = 3

unfoldable pub is_confirm_timeout_error : JsString → Bool
is_confirm_timeout_error msg =
    includes (codes "was not confirmed in") msg
    || includes (codes "TransactionExpiredTimeoutError") msg
    || includes (codes "TransactionExpiredBlockheightExceededError") msg

-- The error that is kept for a transaction that is too large.
unfoldable pub sized_error : Failure → Option ℕ → Failure
sized_error f none = record { message = f.message; is_tx_timeout = false }
sized_error f (some n) = record {
  message =
      if n == 0 then f.message else f.message ++ codes " (maxAccounts=" ++ decimal n ++ codes ")";
  is_tx_timeout = false;
}

unfoldable pub direct_route_error : Failure → Failure
direct_route_error f = record {
  message = f.message ++ codes " (directRoute maxAccounts=20)";
  is_tx_timeout = false;
}

-- How a part of the loop over one candidate ends: with `lastSizedError` and `lastSlippageError`.
pub data Ended : Type 0 where
  executed : Ended
  threw : Failure → Ended
  goes_on : (last_sized last_slippage : Option Failure) → Ended

-- Whether the `for` over the candidates goes on.
pub data Verdict : Type 0 where
  returns : Verdict
  next : Verdict

module _ (outside : Outside) (options : Options) where
  -- The inner loop: shrinking `maxAccounts`.
  unfoldable pub try_accounts :
      Candidate
      → Bool
      → Option ℕ
      → List (Option ℕ)
      → Option Failure
      → Option Failure
      → List Step
      → Ended × List Step
  try_accounts c direct slip [] sized slippage steps = (goes_on sized slippage, steps)
  try_accounts c direct slip (n ∷ ns) sized slippage steps =
      let a : Attempt = record {
        candidate = c;
        max_accounts = n;
        only_direct_routes = false;
        slippage_bps = slip;
      } in
      elim (outside.send steps a) [
        | landed ↦ (executed, tried a ∷ steps)
        | failed f ↦
            let rest =
              try_accounts c direct slip ns (some (sized_error f n)) slippage (tried a ∷ steps) in
            if is_tx_too_large_error f.message && not direct
            then rest
            else if is_slippage_error f.message
            then (goes_on sized (some f), tried a ∷ steps)
            else (threw f, tried a ∷ steps)
      ]

  -- The last resort at one slippage: a single-hop route.
  unfoldable pub try_direct_route :
      Candidate → Option ℕ → Option Failure → Option Failure → List Step → Ended × List Step
  try_direct_route c slip sized slippage steps =
      let a : Attempt = record {
        candidate = c;
        max_accounts = some 20;
        only_direct_routes = true;
        slippage_bps = slip;
      } in
      elim (outside.send steps a) [
        | landed ↦ (executed, tried a ∷ steps)
        | failed f ↦
            if is_tx_too_large_error f.message
            then (goes_on (some (direct_route_error f)) slippage, tried a ∷ steps)
            else if is_slippage_error f.message
            then (goes_on sized (some f), tried a ∷ steps)
            else (threw f, tried a ∷ steps)
      ]

  unfoldable pub after_accounts :
      Candidate → Bool → Option ℕ → Ended × List Step → Ended × List Step
  after_accounts c direct slip (executed, steps) = (executed, steps)
  after_accounts c direct slip (threw f, steps) = (threw f, steps)
  after_accounts c direct slip (goes_on none slippage, steps) = (goes_on none slippage, steps)
  after_accounts c direct slip (goes_on (some f) slippage, steps) =
      if direct
      then (goes_on (some f) slippage, steps)
      else try_direct_route c slip (some f) slippage steps

  -- What follows the loop over the slippages.
  abbrev pub last_error : Option Failure → Option Failure → Ended
  last_error (some f) slippage = threw f
  last_error none (some f) = threw f
  last_error none none = goes_on none none

  -- The outer loop: escalating slippage; `lastSlippageError` is kept from step to step.
  unfoldable pub try_slippages :
      Candidate
      → Bool
      → List (Option ℕ)
      → List (Option ℕ)
      → Option Failure
      → Option Failure
      → List Step
      → Ended × List Step
  try_slippages c direct [] accounts sized slippage steps = (last_error sized slippage, steps)
  try_slippages c direct (slip ∷ slips) accounts sized slippage steps =
      let result =
        after_accounts c direct slip (try_accounts c direct slip accounts none slippage steps) in
      elim result.0 [
        | executed ↦ (executed, result.1)
        | threw f ↦ (threw f, result.1)
        | goes_on sized' slippage' ↦ try_slippages c direct slips accounts sized' slippage' result.1
      ]

  unfoldable pub try_candidate : Candidate → List Step → Ended × List Step
  try_candidate c steps =
      if options.is_usdc c
      then try_slippages c true (none ∷ []) (none ∷ []) none none steps
      else elim (outside.check_mint steps c) [
        | bad_mint f ↦ (threw f, steps)
        | no_route ↦ (goes_on none none, steps)
        | has_route ↦
            try_slippages c false (map some options.slippage_sequence)
              (map some options.max_accounts_sequence) none none steps
      ]

  -- The `catch` of a candidate: a transaction that timed out may have landed.
  unfoldable pub after_failure : Failure → List Step → Verdict
  after_failure f steps =
      if f.is_tx_timeout || is_confirm_timeout_error f.message
      then elim (outside.claim_status steps) [
        | none ↦ next
        | some status ↦ if leb executing status then returns else next
      ]
      else next

  unfoldable pub after_candidate : Ended × List Step → Verdict
  after_candidate (executed, steps) = returns
  after_candidate (threw f, steps) = after_failure f steps
  after_candidate (goes_on sized slippage, steps) = next

  unfoldable pub try_fallback : List Step → List Step
  try_fallback steps =
      if ltb (outside.clock steps) options.fallback_after_ts then steps else tried_fallback ∷ steps

  -- The candidates in turn, and then the fallback: all that was tried, the last first.
  unfoldable pub try_candidates : List Candidate → List Step → List Step
  try_candidates [] steps = try_fallback steps
  try_candidates (c ∷ cs) steps =
      let result = try_candidate c steps in
      let rest = try_candidates cs result.1 in
      elim (after_candidate result) [ returns ↦ result.1 | next ↦ rest ]
