-- ===== src/Actions/Eligibility.antt =====
-- `findLatestClaimableRoundId` and `findLatestRefundableRoundId` (lib/api/actions-shared.ts): the
-- rounds below the latest one are read in batches, from the highest id down.
pub mod Reference
pub mod Latest
use winny.Base.{
  ℕ, zero, suc, ◌+◌, ◌-◌, max, Bool, true, false, ◌&&◌, Option, none, some, List, [], ◌∷◌, ltb, leb,
  ◌==◌, if◌then◌else◌,
}
use winny.RoundStatus.{settled, cancelled}
use winny.Bytes.{Buffer}
use winny.Accounts.Crank.{RoundData, ParticipantData, parse_round, parse_participant}
use winny.Actions.{Result, ok, error, rpc_error, no_unclaimed_prize, no_refund_available}

abbrev pub eligibility_lookback_rounds : ℕ
eligibility_lookback_rounds = 300

abbrev pub round_scan_batch : ℕ
round_scan_batch = 20

-- `current - i` for each `i` below the batch size that does not go below the end, which is not 0.
unfoldable pub descending_batch : ℕ → ℕ → ℕ → List ℕ
descending_batch zero current end = []
descending_batch (suc size) current end =
    let rest = descending_batch size (current - 1) end in
    if ltb current end then [] else current ∷ rest

-- `descendingBatches`, with fuel for the number of batches.
unfoldable pub descending_batches : ℕ → ℕ → ℕ → ℕ → List (List ℕ)
descending_batches zero current end batch_size = []
descending_batches (suc fuel) current end batch_size =
    let rest = descending_batches fuel (current - batch_size) end batch_size in
    if ltb current end then [] else descending_batch batch_size current end ∷ rest

unfoldable pub min_round : ℕ → ℕ
min_round latest = max 1 (latest - eligibility_lookback_rounds)

module _ {Key : Type 0} (public_key : Buffer → Key) (equals : Key → Key → Bool) where
  -- The body of the loop over `infos`: whether the account is a round that the user won.
  unfoldable pub is_claimable : Key → Option Buffer → Bool
  is_claimable winner none = false
  is_claimable winner (some account) = elim (parse_round public_key account) [
    | none ↦ false
    | some round ↦ round.status == settled && equals round.winner winner
  ]

  unfoldable pub is_cancelled : Option Buffer → Bool
  is_cancelled none = false
  is_cancelled (some account) = elim (parse_round public_key account) [
    | none ↦ false
    | some round ↦ round.status == cancelled
  ]

  unfoldable pub is_refundable : Key → Option Buffer → Bool
  is_refundable user none = false
  is_refundable user (some account) = elim (parse_participant public_key account) [
    | none ↦ false
    | some p ↦ equals p.user user && ltb 0 p.usdc_total
  ]

-- The first id whose account passes the test; the loop goes over the answers.
unfoldable pub first_passing : (Option Buffer → Bool) → List ℕ → List (Option Buffer) → Option ℕ
first_passing test (id ∷ ids) (info ∷ infos) =
    let rest = first_passing test ids infos in if test info then some id else rest
first_passing test _ _ = none

-- The ids whose account passes the test, in their order.
unfoldable pub all_passing : (Option Buffer → Bool) → List ℕ → List (Option Buffer) → List ℕ
all_passing test (id ∷ ids) (info ∷ infos) =
    let rest = all_passing test ids infos in if test info then id ∷ rest else rest
all_passing test _ _ = []

module _ {Key : Type 0} (public_key : Buffer → Key) (equals : Key → Key → Bool)
    (get_rounds : List ℕ → Option (List (Option Buffer)))
    -- The accounts of a user in the rounds of a list.
    (get_participants : Key → List ℕ → Option (List (Option Buffer))) where
  unfoldable pub find_claimable_in : Key → List (List ℕ) → Result ℕ
  find_claimable_in winner [] = error no_unclaimed_prize
  find_claimable_in winner (ids ∷ batches) =
      let rest = find_claimable_in winner batches in
      elim (get_rounds ids) [
        | none ↦ error rpc_error
        | some infos ↦ elim (first_passing (is_claimable public_key equals winner) ids infos) [
          | some id ↦ ok id
          | none ↦ rest
        ]
      ]

  unfoldable pub find_refundable_in : Key → List (List ℕ) → Result ℕ
  find_refundable_in user [] = error no_refund_available
  find_refundable_in user (ids ∷ batches) =
      let rest = find_refundable_in user batches in
      elim (get_rounds ids) [
        | none ↦ error rpc_error
        | some infos ↦ elim (all_passing (is_cancelled public_key equals) ids infos) [
          | [] ↦ rest
          | id ∷ more ↦ elim (get_participants user (id ∷ more)) [
            | none ↦ error rpc_error
            | some accounts ↦
                elim (first_passing (is_refundable public_key equals user) (id ∷ more) accounts) [
                  | some found ↦ ok found
                  | none ↦ rest
                ]
          ]
        ]
      ]

  -- `latest` is what `getLatestKnownRoundId` answers.
  unfoldable pub find_latest_claimable_round_id : ℕ → Key → Result ℕ
  find_latest_claimable_round_id latest winner =
      find_claimable_in winner
        (descending_batches (latest + 1) latest (min_round latest) round_scan_batch)

  unfoldable pub find_latest_refundable_round_id : ℕ → Key → Result ℕ
  find_latest_refundable_round_id latest user =
      find_refundable_in user
        (descending_batches (latest + 1) latest (min_round latest) round_scan_batch)
