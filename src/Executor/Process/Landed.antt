-- ===== src/Executor/Process/Landed.antt =====
-- How work on a ready claim ends, from the accounts that were read to the transaction that landed.
use winny.Base.{
  Reply, answered, raised, ℕ, zero, suc, ◌≤◌, ◌≡◌, ◌≢◌, refl, ◌⊎◌, inl, inr, Option, none, some,
  List, [], ◌∷◌, get_elem?, subst, arith, false,
}
use winny.Base.Int.{ℤ}
use winny.Text.{JsString}
use winny.Bytes.{Buffer}
use winny.Accounts.Degen.{RoundMeta}
use winny.Degen.{Candidate, Derived, derived, range_error, out_of_fuel, derive_candidates}
use winny.Executor.{
  Attempt, Step, tried, tried_fallback, Sent, landed, failed, Outside, try_candidates,
}
use winny.Executor.Once.{AllFailed, MovedOn, IsOver, try_candidates-IsOver}
use winny.Executor.Tried.{AllFor, EachHas, try_candidates-AllFor}
use winny.Executor.Prepare.{payout_of_claim, prepare_claim, IsReady, prepare_claim-IsReady}
use winny.Executor.Build.{Built, build_execution_tx}
use winny.Executor.Build.Shape.{IsExecution, build_execution_tx-IsExecution}
use winny.Executor.Send.{Sending, returned, thrown, simulate_and_send, sent_of}
use winny.Executor.Send.Delivered.{IsSent, IsConfirmed, simulate_and_send-returned_iff}
use winny.Executor.Process.{
  World, Processed, worked, rejected, skipped, raw, window_or_30, attempt, outside_of, vrf_payer_of,
  work, without_config, with_config, process_ready_claim,
}

abbrev pub IsOf : List Candidate → Candidate → Type 0
IsOf cs c = (i : ℕ) × (get_elem? cs i ≡ some c)

each_of :
    (P : Candidate → Type 0) (outside : Outside) (options : _) (cs : List Candidate)
    → ((i : ℕ) (c : Candidate) → get_elem? cs i ≡ some c → P c)
    → EachHas outside options P cs
each_of P outside options [] h = tt
each_of P outside options (c ∷ cs) h =
    (h zero c refl, each_of P outside options cs (λ i c e. h (suc i) c e))

module _ {Key Table : Type 0} (w : World Key Table) where
  -- The transaction of an attempt landed, as it was built for the payout.
  abbrev pub Delivers : ℕ → Option Key → List Step → Attempt → Type 0
  Delivers payout vrf_payer steps a =
      (built : Built Key Table) × (sig : JsString) × (build_execution_tx (w.builder steps) w.claim a
          payout vrf_payer
        ≡ answered built)
      × IsExecution (w.builder steps) w.claim a payout vrf_payer built.instructions
      × IsSent (w.connection steps a built) sig
      × IsConfirmed (w.connection steps a built)

  sent_of-landed : (s : Sending) → sent_of s ≡ landed → (sig : JsString) × (s ≡ returned sig)
  unfolding sent_of
  sent_of-landed (returned sig) h = (sig, refl)
  sent_of-landed (thrown f) h = cc

  attempt-Delivers :
      (payout : ℕ) (vrf_payer : Option Key) (steps : List Step) (a : Attempt)
      → attempt w payout vrf_payer steps a ≡ landed
      → Delivers payout vrf_payer steps a
  unfolding attempt
  attempt-Delivers payout vrf_payer steps a h =
      go (build_execution_tx (w.builder steps) w.claim a payout vrf_payer) refl h
    where
      go :
          (r : Reply (Built Key Table))
          → build_execution_tx (w.builder steps) w.claim a payout vrf_payer ≡ r
          → elim r as (λ r. Sent) [
            | raised message ↦ failed (record { message = message; is_tx_timeout = false })
            | answered built ↦ sent_of (simulate_and_send (w.connection steps a built))
          ]
            ≡ landed
          → Delivers payout vrf_payer steps a
      go (raised message) e h = cc
      go (answered built) e h =
          let (sig, sent) = sent_of-landed (simulate_and_send (w.connection steps a built)) h in
          let (is_sent, confirmed) =
            (simulate_and_send-returned_iff (w.connection steps a built) sig).0 sent in
          (
            built,
            sig,
            e,
            build_execution_tx-IsExecution (w.builder steps) w.claim a payout vrf_payer built e,
            is_sent,
            confirmed,
          )

  -- How the steps end: nothing was tried, the last transaction landed after all before it had
  -- failed, it timed out and has landed after all, all failed, or all failed and the fallback was
  -- tried in its time.
  abbrev pub Ends : ℕ → Option Key → List Step → Type 0
  Ends payout vrf_payer [] = Unit
  Ends payout vrf_payer (tried a ∷ steps) =
      (Delivers payout vrf_payer steps a
        × AllFailed (outside_of w payout vrf_payer) w.options steps)
      ⊎ (MovedOn (outside_of w payout vrf_payer) w.options (tried a ∷ steps)
          ⊎ AllFailed (outside_of w payout vrf_payer) w.options (tried a ∷ steps))
  Ends payout vrf_payer (tried_fallback ∷ steps) =
      AllFailed (outside_of w payout vrf_payer) w.options steps
      × (w.options.fallback_after_ts ≤ w.clock steps)

  IsOver-Ends :
      (payout : ℕ) (vrf_payer : Option Key) (steps : List Step)
      → IsOver (outside_of w payout vrf_payer) w.options steps
      → Ends payout vrf_payer steps
  IsOver-Ends payout vrf_payer [] h = tt
  IsOver-Ends payout vrf_payer (tried a ∷ steps) (inl (lands, before)) =
      inl (attempt-Delivers payout vrf_payer steps a lands, before)
  IsOver-Ends payout vrf_payer (tried a ∷ steps) (inr other) = inr other
  IsOver-Ends payout vrf_payer (tried_fallback ∷ steps) h = h

  -- What holds of a claim that was worked on.
  abbrev pub IsWorked : ℕ → List Step → Type 0
  IsWorked fuel all =
      (round : Buffer) × (config : Buffer) × (meta : RoundMeta) × (fee_bps : ℕ) × (payout : ℤ)
      × (cs : List Candidate) × (w.round_info ≡ answered (some round))
      × (w.config_info ≡ answered (some config))
      × IsReady w.public_key w.equals w.default_key w.claim_status round config meta fee_bps payout
      × (derive_candidates w.digest w.randomness w.pool_version w.pool fuel
            (window_or_30 w.candidate_window)
          ≡ derived cs)
      × AllFor (outside_of w (raw payout) (vrf_payer_of w round)) w.options (IsOf cs) all
      × Ends (raw payout) (vrf_payer_of w round) all

  work-IsWorked :
      (fuel : ℕ) (all : List Step) (round config : Buffer) (payout : ℤ) (d : Derived)
      → w.round_info ≡ answered (some round)
      → w.config_info ≡ answered (some config)
      → prepare_claim w.public_key w.equals w.default_key w.claim_status (some round) (some config)
        ≡ some (some payout)
      → derive_candidates w.digest w.randomness w.pool_version w.pool fuel
          (window_or_30 w.candidate_window)
        ≡ d
      → work w round payout d ≡ worked all
      → IsWorked fuel all
  unfolding work
  work-IsWorked fuel all round config payout range_error r c ready e h = cc
  work-IsWorked fuel all round config payout out_of_fuel r c ready e h = cc
  work-IsWorked fuel all round config payout (derived cs) r c ready e h =
      let (meta, fee_bps, is_ready) =
        prepare_claim-IsReady w.public_key w.equals w.default_key w.claim_status round config payout
          ready in
      let tried_all : try_candidates o w.options cs [] ≡ all = cc in
      (
        round,
        config,
        meta,
        fee_bps,
        payout,
        cs,
        r,
        c,
        is_ready,
        e,
        subst (AllFor o w.options (IsOf cs)) tried_all (
            try_candidates-AllFor o w.options (IsOf cs) cs []
              (each_of (IsOf cs) o w.options cs (λ i c at. (i, at))) tt),
        IsOver-Ends (raw payout) (vrf_payer_of w round) all
            (subst (IsOver o w.options) tried_all (try_candidates-IsOver o w.options cs [] tt)),
      )
    where
      o : Outside
      o = outside_of w (raw payout) (vrf_payer_of w round)

  no_config :
      (round : Buffer) (payout : ℤ)
      → prepare_claim w.public_key w.equals w.default_key w.claim_status (some round) none
        ≢ some (some payout)
  unfolding prepare_claim payout_of_claim
  no_config round payout e = ground (arith, e)

  with_config-IsWorked :
      (fuel : ℕ) (all : List Step) (round : Buffer) (config : Option Buffer)
      → w.round_info ≡ answered (some round)
      → w.config_info ≡ answered config
      → with_config w fuel round config ≡ worked all
      → IsWorked fuel all
  unfolding with_config
  with_config-IsWorked fuel all round config r c h =
      go config c
        (prepare_claim w.public_key w.equals w.default_key w.claim_status (some round) config) refl
        h
    where
      d : Derived
      d =
          derive_candidates w.digest w.randomness w.pool_version w.pool fuel
            (window_or_30 w.candidate_window)

      go :
          (config : Option Buffer)
          → w.config_info ≡ answered config
          → (p : Option (Option ℤ))
          → prepare_claim w.public_key w.equals w.default_key w.claim_status (some round) config ≡ p
          → elim p as (λ p. Processed) [
            | none ↦ rejected
            | some none ↦ skipped
            | some (some payout) ↦ work w round payout d
          ]
            ≡ worked all
          → IsWorked fuel all
      go config c none e h = cc
      go config c (some none) e h = cc
      go none c (some (some payout)) e h = absurd (no_config round payout e)
      go (some config) c (some (some payout)) e h =
          work-IsWorked fuel all round config payout d r c e refl h

  without_config-ne-worked :
      (round : Buffer) (all : List Step) → without_config w round ≢ worked all
  unfolding without_config
  without_config-ne-worked round all h = ground (arith, h)

  -- A ready claim is only worked on with accounts that were read and are as they should be, and for
  -- the payout that they give; every transaction that is tried is for a candidate that is derived
  -- from the round's randomness; and the work ends with the first transaction that lands, which was
  -- built for that payout, simulated, sent and confirmed, or with one that timed out when the claim
  -- on the chain had moved all the same, or with none that landed, and then with the fallback not
  -- before its time.
  pub process_ready_claim-IsWorked :
      (fuel : ℕ) (all : List Step) → process_ready_claim w fuel ≡ worked all → IsWorked fuel all
  unfolding process_ready_claim
  process_ready_claim-IsWorked fuel all h = go w.round_info refl w.config_info refl h
    where
      go :
          (r : Reply (Option Buffer))
          → w.round_info ≡ r
          → (c : Reply (Option Buffer)) → w.config_info ≡ c
          → elim r as (λ r. Processed) [
            | raised message ↦ rejected
            | answered none ↦ skipped
            | answered (some round) ↦ elim c as (λ c. Processed) [
              | raised message ↦ without_config w round
              | answered config ↦ with_config w fuel round config
            ]
          ]
            ≡ worked all
          → IsWorked fuel all
      go (raised message) r c read h = cc
      go (answered none) r c read h = cc
      go (answered (some round)) r (raised message) read h =
          absurd (without_config-ne-worked round all h)
      go (answered (some round)) r (answered config) read h =
          with_config-IsWorked fuel all round config r read h
