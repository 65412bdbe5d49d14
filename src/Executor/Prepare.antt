-- ===== src/Executor/Prepare.antt =====
-- The first part of `processReadyClaim` (crank/src/degenExecutor.ts): whether a claim is worked on,
-- and the payout that is swapped.
use winny.Base.{
  ℕ, ◌≡◌, refl, Bool, true, false, not, ◌||◌, ◌==◌, Option, none, some, if◌then◌else◌, arith,
}
use winny.Base.Int.{ℤ, pos, ltb_ℤ}
use winny.RoundStatus.{settled}
use winny.Bytes.{Buffer, ◌>>=◌}
use winny.Accounts.Degen.{RoundMeta, parse_round_meta, parse_round_vrf_payer, parse_config_fee_bps}
use winny.Degen.Payout.{compute_begin_degen_payout}

abbrev pub vrf_ready : ℕ
vrf_ready = 2

-- `data[…] === 2`, where the byte may be missing.
abbrev pub is_degen_ready : Option ℕ → Bool
is_degen_ready none = false
is_degen_ready (some n) = n == 2

abbrev pub is_some : {A : Type 0} → Option A → Bool
is_some none = false
is_some (some a) = true

-- `if (actualPayoutRaw <= 0n) return`
unfoldable pub positive_payout : ℤ → Option ℤ
positive_payout payout = if ltb_ℤ (pos 0) payout then some payout else none

module _ {Key : Type 0} (public_key : Buffer → Key) (equals : Key → Key → Bool)
    (default_key : Key) where
  unfoldable pub payout_of_claim : Buffer → ℕ → Option Buffer → Option (Option ℤ)
  payout_of_claim round total_usdc none = some none
  payout_of_claim round total_usdc (some config) = do
    fee_bps ← parse_config_fee_bps config
    some (
        positive_payout (
          compute_begin_degen_payout total_usdc fee_bps
            (is_some (parse_round_vrf_payer public_key equals default_key round))))

  -- The payout; an early return is `some none`, and an account that is too short throws.
  unfoldable pub prepare_claim : ℕ → Option Buffer → Option Buffer → Option (Option ℤ)
  prepare_claim claim_status none config = some none
  prepare_claim claim_status (some round) config = do
    meta ← parse_round_meta round
    if not (meta.status == settled)
          || not (is_degen_ready meta.degen_mode_status)
          || not (claim_status == vrf_ready)
        then some none
        else payout_of_claim round meta.total_usdc config

  -- What holds of a claim that is worked on with a payout.
  pub record IsReady (claim_status : ℕ) (round config : Buffer) (meta : RoundMeta) (fee_bps : ℕ)
      (payout : ℤ) : Type 0 where
    pub read : parse_round_meta round ≡ some meta
    pub is_settled : meta.status ≡ settled
    pub is_waiting : meta.degen_mode_status ≡ some 2
    pub is_vrf_ready : claim_status ≡ vrf_ready
    pub fee : parse_config_fee_bps config ≡ some fee_bps
    pub amount :
        payout
        ≡ compute_begin_degen_payout meta.total_usdc fee_bps
            (is_some (parse_round_vrf_payer public_key equals default_key round))
    pub positive : ltb_ℤ (pos 0) payout ≡ true

  -- A claim is only worked on if its round was read as settled and as waiting for the executor, the
  -- claim is ready, and the payout is positive: the payout for the round's total, the config's fee,
  -- and the reimbursement that is due.
  pub prepare_claim-IsReady :
      (claim_status : ℕ) (round config : Buffer) (payout : ℤ)
      → prepare_claim claim_status (some round) (some config) ≡ some (some payout)
      → (meta : RoundMeta) × (fee_bps : ℕ) × IsReady claim_status round config meta fee_bps payout
  unfolding prepare_claim payout_of_claim positive_payout
  prepare_claim-IsReady claim_status round config payout e =
      go (parse_round_meta round) refl (parse_config_fee_bps config) refl e
    where
      go :
          (m : Option RoundMeta)
          → parse_round_meta round ≡ m
          → (f : Option ℕ) → parse_config_fee_bps config ≡ f
          → (m >>= (λ meta.
              if not (meta.status == settled)
                || not (is_degen_ready meta.degen_mode_status)
                || not (claim_status == vrf_ready)
              then some none
              else (f >>= (λ fee_bps. some (
                  positive_payout (
                    compute_begin_degen_payout meta.total_usdc fee_bps
                      (is_some (parse_round_vrf_payer public_key equals default_key round))))))))
            ≡ some (some payout)
          → (meta : RoundMeta) × (fee_bps : ℕ) × IsReady claim_status round config meta fee_bps
              payout
      go none m f g e = absurd (ground (arith, e))
      go (some meta) m none g e = absurd (ground (arith, e))
      go (some meta) m (some fee_bps) g e = (
        meta,
        fee_bps,
        record {
          read = m;
          is_settled = ground (arith, e);
          is_waiting = ground (arith, e);
          is_vrf_ready = ground (arith, e);
          fee = g;
          amount = ground (arith, e);
          positive = ground (arith, e);
        },
      )
