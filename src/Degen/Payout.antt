-- ===== src/Degen/Payout.antt =====
-- `computeBeginDegenPayout` (crank/src/degenLogic.ts), on `bigint`s.
use winny.Base.{ℕ, ◌+◌, ◌-◌, ◌*◌, ◌/◌, ◌≤◌, ◌<◌, ◌≡◌, Bool, true, if◌then◌else◌, arith}
use native.Mathlib.Nat.{mul-le-mul_left}
use winny.Base.Int.{ℤ, pos, pos_part, neg_part, sub_ℕ, ◌-ℤ◌, ◌≤ℤ◌}

-- a * b for a `b` that is not negative.
unfoldable pub scale : ℤ → ℕ → ℤ
scale a n = sub_ℕ (pos_part a * n) (neg_part a * n)

-- a / b, which is rounded towards zero.
unfoldable pub quotient : ℤ → ℕ → ℤ
quotient a n = sub_ℕ (pos_part a / n) (neg_part a / n)

abbrev pub vrf_reimburse_amount : ℕ
vrf_reimburse_amount = 200000

unfoldable pub compute_begin_degen_payout : ℕ → ℕ → Bool → ℤ
unfolding scale quotient
compute_begin_degen_payout total_usdc fee_bps reimburse_vrf =
    let vrf_deduct : ℕ = if reimburse_vrf then vrf_reimburse_amount else 0 in
    let pool = pos total_usdc -ℤ pos vrf_deduct in
    let fee = quotient (scale pool fee_bps) 10000 in pool -ℤ fee

abbrev pub vrf_deduction : Bool → ℕ
vrf_deduction reimburse_vrf = if reimburse_vrf then vrf_reimburse_amount else 0

fee_le : (pool fee_bps : ℕ) → fee_bps ≤ 10000 → pool * fee_bps / 10000 ≤ pool
fee_le pool fee_bps h = omega (arith, mul-le-mul_left pool h)

payout_of_pool :
    (pool fee_bps : ℕ)
    → fee_bps ≤ 10000
    → pos pool -ℤ quotient (scale (pos pool) fee_bps) 10000 ≡ pos (pool - pool * fee_bps / 10000)
unfolding ◌-ℤ◌ scale quotient
payout_of_pool pool fee_bps h = ground (arith, fee_le pool fee_bps h)

covered_sub : (a b : ℕ) → b ≤ a → pos a -ℤ pos b ≡ pos (a - b)
unfolding ◌-ℤ◌
covered_sub a b h = ground (arith, h)

-- With at most 10,000 basis points, and a total that covers the deduction for VRF, the payout, the
-- fee and the deduction add up to the total, and the fee is the rounded-down share of what is left
-- of the total after the deduction.
pub compute_begin_degen_payout_split :
    (total_usdc fee_bps : ℕ) (reimburse_vrf : Bool)
    → fee_bps ≤ 10000
    → vrf_deduction reimburse_vrf ≤ total_usdc
    → (payout : ℕ) × (fee : ℕ) × (compute_begin_degen_payout total_usdc fee_bps reimburse_vrf
        ≡ pos payout)
      × (payout + fee + vrf_deduction reimburse_vrf ≡ total_usdc)
      × (fee * 10000 ≤ (total_usdc - vrf_deduction reimburse_vrf) * fee_bps)
      × ((total_usdc - vrf_deduction reimburse_vrf) * fee_bps < (fee + 1) * 10000)
unfolding compute_begin_degen_payout
compute_begin_degen_payout_split total fee_bps vrf h covered = (
  pool - pool * fee_bps / 10000,
  pool * fee_bps / 10000,
  rw (covered_sub total (vrf_deduction vrf) covered) (payout_of_pool pool fee_bps h),
  omega (arith, fee_le pool fee_bps h, covered),
  omega arith,
  omega arith,
)
  where
    pool : ℕ
    pool = total - vrf_deduction vrf

-- A total below the deduction gives a payout that is not positive.
pub compute_begin_degen_payout_uncovered :
    (total_usdc fee_bps : ℕ)
    → fee_bps ≤ 10000
    → total_usdc < vrf_reimburse_amount
    → compute_begin_degen_payout total_usdc fee_bps true ≤ℤ pos 0
unfolding compute_begin_degen_payout ◌-ℤ◌ scale quotient
compute_begin_degen_payout_uncovered total fee_bps h uncovered =
    ground (arith, uncovered, fee_le (vrf_reimburse_amount - total) fee_bps h)
