-- ===== src/Executor/Pass.antt =====
-- One pass of the executor's loop (`main` and `fetchReadyClaims` of crank/src/degenExecutor.ts).
pub mod Reached
use winny.Base.{Reply, answered, raised, ℕ, zero, suc, List, [], ◌∷◌, ◌==◌, if◌then◌else◌}
use winny.Executor.Prepare.{vrf_ready}
use winny.Executor.Process.{
  World, Processed, skipped, rejected, worked, no_fuel, process_ready_claim,
}

unfoldable pub fetch_ready_claims : {A : Type 0} → (A → ℕ) → List A → List A
fetch_ready_claims status [] = []
fetch_ready_claims status (entry ∷ entries) =
    let rest = fetch_ready_claims status entries in
    if status entry == vrf_ready then entry ∷ rest else rest

-- What follows the work on one claim: an error leaves the loop.
abbrev pub go_on :
    {Account : Type 0}
    → Account
    → Processed
    → List (Account × Processed)
    → List (Account × Processed)
go_on claim rejected rest = (claim, rejected) ∷ []
go_on claim skipped rest = (claim, skipped) ∷ rest
go_on claim (worked steps) rest = (claim, worked steps) ∷ rest
go_on claim no_fuel rest = (claim, no_fuel) ∷ rest

-- What a claim is worked on with may depend on how many were worked on before it in the pass; its
-- status is the one that was fetched.
module _ {Account Key Table : Type 0} (fuel : ℕ) (status : Account → ℕ) where
  abbrev pub process_claim : World Key Table → Account → Processed
  process_claim w claim = process_ready_claim (record w { claim_status = status claim }) fuel

  -- The `for` over the claims: those that were worked on, and what came of it.
  unfoldable pub process_claims :
      (ℕ → Account → World Key Table) → List Account → List (Account × Processed)
  process_claims world_of [] = []
  process_claims world_of (claim ∷ claims) =
      go_on claim (process_claim (world_of 0 claim) claim)
        (process_claims (λ n. world_of (suc n)) claims)

  unfoldable pub pass :
      (ℕ → Account → World Key Table) → Reply (List Account) → List (Account × Processed)
  unfolding process_claims fetch_ready_claims
  pass world_of (raised message) = []
  pass world_of (answered entries) = process_claims world_of (fetch_ready_claims status entries)
