-- ===== src/Actions/Endpoint/Found.antt =====
-- What the two endpoints say and build on a chain that answers: the round is the latest one that
-- qualifies.
use winny.Base.{ℕ, ◌≡◌, subst, sym, Bool, Option, none, max, arith}
use winny.Bytes.{Buffer}
use winny.Actions.{ok, no_unclaimed_prize, no_refund_available}
use winny.Actions.Endpoint.{
  whole, Request, Outside, transaction, get_latest_known_round_id, claimable_round,
  refundable_round,
}
use winny.Actions.Endpoint.Post.{ClaimIx, RefundIx, claim_handler, refund_handler}
use winny.Actions.Endpoint.Built.{IsChosen}
use winny.Actions.Eligibility.{
  min_round, is_claimable, find_latest_claimable_round_id, find_latest_refundable_round_id,
}
use winny.Actions.Eligibility.Reference.{IsLatest}
use winny.Actions.Eligibility.Latest.{
  rounds_of, participants_of, refundable, find_claimable-IsLatest, find_refundable-IsLatest,
}
use winny.Actions.Endpoint.Claims.{claim_handler-IsClaimOf}
use winny.Actions.Endpoint.Refunds.{refund_handler-IsRefundOf}

-- The chain answers every read of several accounts, and the scan finds a round.
pub record Answers {Key : Type 0} (o : Outside Key) (chain : ℕ → Option Buffer)
    (participant : Key → ℕ → Option Buffer) (latest : ℕ) : Type 0 where
  pub scanned : o.scanned ≡ ok latest
  pub rounds : o.rounds ≡ rounds_of o.public_key o.equals chain participant
  pub participants : o.participants ≡ participants_of o.public_key o.equals chain participant

module _ {Key : Type 0} (o : Outside Key) (chain : ℕ → Option Buffer)
    (participant : Key → ℕ → Option Buffer) (latest : ℕ)
    (w : Answers o chain participant latest) where
  latest_known : get_latest_known_round_id o ≡ ok (max 1 latest)
  unfolding get_latest_known_round_id
  latest_known = ground (arith, w.scanned)

  pub claimable_round-IsLatest :
      (winner : Key)
      → IsLatest no_unclaimed_prize
          (λ i. is_claimable o.public_key o.equals winner (chain i))
          (min_round (max 1 latest))
          (max 1 latest)
          (claimable_round o winner)
  unfolding claimable_round
  claimable_round-IsLatest winner =
      subst
        (IsLatest no_unclaimed_prize (λ i. is_claimable o.public_key o.equals winner (chain i))
          (min_round (max 1 latest)) (max 1 latest))
        (sym same)
        (find_claimable-IsLatest o.public_key o.equals chain participant (max 1 latest) winner)
    where
      same :
          claimable_round o winner
          ≡ find_latest_claimable_round_id o.public_key o.equals
              (rounds_of o.public_key o.equals chain participant)
              (participants_of o.public_key o.equals chain participant)
              (max 1 latest)
              winner
      same = ground (arith, latest_known, w.rounds, w.participants)

  refundable_round-IsLatest :
      (user : Key)
      → IsLatest no_refund_available
          (refundable o.public_key o.equals chain participant user)
          (min_round (max 1 latest))
          (max 1 latest)
          (refundable_round o user)
  unfolding refundable_round
  refundable_round-IsLatest user =
      subst
        (IsLatest no_refund_available (refundable o.public_key o.equals chain participant user)
          (min_round (max 1 latest)) (max 1 latest))
        (sym same)
        (find_refundable-IsLatest o.public_key o.equals chain participant (max 1 latest) user)
    where
      same :
          refundable_round o user
          ≡ find_latest_refundable_round_id o.public_key o.equals
              (rounds_of o.public_key o.equals chain participant)
              (participants_of o.public_key o.equals chain participant)
              (max 1 latest)
              user
      same = ground (arith, latest_known, w.rounds, w.participants)

  -- On a chain that answers, a claim that is built without a round in the query is for the latest
  -- round, of those that are looked at, that is settled with the payer as its winner.
  pub claim_handler-latest :
      (builds : ClaimIx Key → Bool) (req : Request) (payer : Key) (ix : ClaimIx Key)
      → req.round_id ≡ none
      → claim_handler o builds req ≡ record { status = 200; page = transaction payer ix }
      → (n : ℕ) × (ix.round_id ≡ whole n)
        × (ix.winner ≡ payer)
        × IsLatest no_unclaimed_prize
            (λ i. is_claimable o.public_key o.equals payer (chain i))
            (min_round (max 1 latest))
            (max 1 latest)
            (ok n)
  claim_handler-latest builds req payer ix unasked h =
      let (is_post, sent, chosen, accounts) = claim_handler-IsClaimOf o builds req payer ix h in
      let (n, found, id_is) =
        subst (λ asked. IsChosen asked (claimable_round o payer) ix.round_id) unasked chosen in
      (
        n,
        id_is,
        accounts.7,
        subst
            (IsLatest no_unclaimed_prize (λ i. is_claimable o.public_key o.equals payer (chain i))
              (min_round (max 1 latest)) (max 1 latest))
            found (claimable_round-IsLatest payer),
      )

  -- On a chain that answers, a refund that is built without a round in the query is for the latest
  -- round, of those that are looked at, that is cancelled and in which the payer has money.
  pub refund_handler-latest :
      (builds : RefundIx Key → Bool) (req : Request) (payer : Key) (ix : RefundIx Key)
      → req.round_id ≡ none
      → refund_handler o builds req ≡ record { status = 200; page = transaction payer ix }
      → (n : ℕ) × (ix.round_id ≡ whole n)
        × (ix.user ≡ payer)
        × IsLatest no_refund_available
            (refundable o.public_key o.equals chain participant payer)
            (min_round (max 1 latest))
            (max 1 latest)
            (ok n)
  refund_handler-latest builds req payer ix unasked h =
      let (is_post, sent, chosen, accounts) = refund_handler-IsRefundOf o builds req payer ix h in
      let (n, found, id_is) =
        subst (λ asked. IsChosen asked (refundable_round o payer) ix.round_id) unasked chosen in
      (
        n,
        id_is,
        accounts.3,
        subst
            (IsLatest no_refund_available (refundable o.public_key o.equals chain participant payer)
              (min_round (max 1 latest)) (max 1 latest))
            found (refundable_round-IsLatest payer),
      )
