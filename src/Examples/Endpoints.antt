-- ===== src/Examples/Endpoints.antt =====
-- The claim and refund endpoints (api/actions/claim.ts and claim-refund.ts) on a small chain.
use winny.Base.{
  ℕ, ◌≡◌, refl, ◌↔◌, inr, Bool, true, false, Option, none, some, [], ◌∷◌, ◌++◌, max, ◌==◌,
  if◌then◌else◌,
}
use winny.Text.{codes}
use winny.Bytes.{Buffer, subarray, get_uint, get_big_int64, le_value}
use winny.Actions.{ok, no_unclaimed_prize}
use winny.Actions.Eligibility.{
  is_claimable, is_cancelled, is_refundable, min_round, find_latest_claimable_round_id,
  find_latest_refundable_round_id, find_claimable_in, find_refundable_in, descending_batches,
  descending_batch, first_passing, all_passing,
}
use winny.Accounts.Crank.{parse_round, parse_participant, participants_from}
use winny.Accounts.Config.{parse_config}
use winny.Actions.Eligibility.Reference.{IsLatest}
use winny.Actions.Eligibility.Latest.{rounds_of, participants_of}
use winny.Actions.Endpoint.{
  JsNumber, whole, negative, Field, text, object, Method, get, post, Request, Outside, Eligibility,
  action, transaction, returned, parse_body, require_account, claimable_round, refundable_round,
  with_handler, parse_optional_account_query, parse_optional_round_id,
}
use winny.Actions.{is_joinable_round_status, is_active_round_status}
use winny.Actions.RoundCache.{
  empty_cache, joinable, scan_fresh, sweep_batches, sweep_infos, sweep_round, sweep_is_over,
  next_cache, answer_from, cached_for, seed_round_id,
}
use winny.Actions.RoundCache.Found.{HasStatus}
use winny.Bytes.{to_signed64}
use winny.Scan.{batch_ids}
use winny.Base.{List, map}
use winny.Actions.Endpoint.Launch.{
  claim_degen_handler, LegJson, leg, array, post_batch, batch_handler,
}
use winny.Actions.Endpoint.Legs.{ReadAs}
use winny.Actions.Endpoint.Opened.{batch_handler-opens_iff, batch_handler-joinable}
use winny.Actions.Endpoint.{searched, fraction, external_link, Leg, parse_optional_round_id}
use winny.Actions.Endpoint.Post.{
  post_claim, post_refund, ClaimIx, RefundIx, claim_handler, refund_handler,
}
use winny.Actions.Endpoint.Malformed.{IsMalformed, handlers-bad_request_iff}
use winny.Actions.Endpoint.Built.{IsChosen}
use winny.Actions.Endpoint.Claims.{IsClaimOf, claim_handler-IsClaimOf}
use winny.Actions.Endpoint.Refunds.{IsRefundOf, refund_handler-IsRefundOf}
use winny.Actions.Endpoint.Found.{Answers, claim_handler-latest}
use winny.Actions.Endpoint.Offers.{IsOffer, claim_handler-IsOffer}
use winny.Examples.{zeros, round_bytes}

abbrev same_key : Buffer → Buffer → Bool
same_key [] [] = true
same_key (a ∷ s) (b ∷ t) = if a == b then same_key s t else false
same_key _ _ = false

-- Round 1 is settled, round 2 cancelled and round 3 open; every key in them is the zero key.
abbrev chain : ℕ → Option Buffer
chain n =
    if n == 1
    then some (round_bytes 3)
    else if n == 2
    then some (round_bytes 5)
    else if n == 3
    then some (round_bytes 0)
    else none

abbrev stake : Buffer → ℕ → Option Buffer
stake user i = some (zeros 40 ++ (user ++ (zeros 11 ++ (1 ∷ zeros 60))))

-- The address of a round is its number.
abbrev pda : JsNumber → Option Buffer
pda (whole n) = some (n ∷ [])
pda _ = none

abbrev account_at : Buffer → Option (Option Buffer)
account_at [] = some (some (zeros 140))
account_at (n ∷ rest) = some (chain n)

abbrev wallet : Buffer
wallet = zeros 32

-- The key of no bytes is the zero key.
abbrev key_of : Buffer → Buffer
key_of [] = wallet
key_of (b ∷ d) = b ∷ d

abbrev outside : Outside Buffer
outside = record {
  public_key = key_of;
  read_key = λ s. some wallet;
  equals = same_key;
  default_key = wallet;
  config_pda = [];
  round_pda = pda;
  participant_pda = λ round user. round ++ user;
  token_account = λ mint owner off_curve. some owner;
  account_info = account_at;
  rounds = rounds_of key_of same_key chain stake;
  participants = participants_of key_of same_key chain stake;
  scanned = ok 3;
  config_first = true;
}

abbrev request : Method → Request
request m = record {
  method = m;
  body = object (text (codes "wallet"));
  account = text (codes "wallet");
  round_id = none;
}

abbrev claim_of_1 : ClaimIx Buffer
claim_of_1 = record {
  round_id = whole 1;
  winner = wallet;
  config = [];
  round = 1 ∷ [];
  vault_usdc_ata = 1 ∷ [];
  winner_usdc_ata = wallet;
  treasury_usdc_ata = wallet;
  vrf_payer_usdc_ata = none;
}

abbrev refund_of_2 : RefundIx Buffer
refund_of_2 = record {
  round_id = whole 2;
  config = [];
  round = 2 ∷ [];
  user = wallet;
  participant = 2 ∷ wallet;
  vault_usdc_ata = 2 ∷ [];
  user_usdc_ata = wallet;
}

claims_1 :
    claim_handler outside (λ ix. true) (request post)
    ≡ record { status = 200; page = transaction wallet claim_of_1 }
unfolding claim_handler with_handler post_claim claimable_round find_latest_claimable_round_id
    find_claimable_in descending_batches min_round first_passing descending_batch is_claimable
    parse_round participants_from parse_config subarray get_uint get_big_int64 le_value
claims_1 = refl

refunds_2 :
    refund_handler outside (λ ix. true) (request post)
    ≡ record { status = 200; page = transaction wallet refund_of_2 }
unfolding refund_handler with_handler post_refund refundable_round find_latest_refundable_round_id
    find_refundable_in descending_batches min_round first_passing all_passing descending_batch
    is_cancelled is_refundable parse_participant parse_round participants_from parse_config subarray
    get_uint get_big_int64 le_value
refunds_2 = refl

claim_handler-IsClaimOf_example :
    (post ≡ post)
    × ((field : Field) × (parse_body (request post).body ≡ returned field)
        × (require_account outside field ≡ returned wallet))
    × IsChosen none (claimable_round outside wallet) (whole 1)
    × IsClaimOf outside wallet claim_of_1
claim_handler-IsClaimOf_example =
    claim_handler-IsClaimOf outside (λ ix. true) (request post) wallet claim_of_1 claims_1

refund_handler-IsRefundOf_example :
    (post ≡ post)
    × ((field : Field) × (parse_body (request post).body ≡ returned field)
        × (require_account outside field ≡ returned wallet))
    × IsChosen none (refundable_round outside wallet) (whole 2)
    × IsRefundOf outside wallet refund_of_2
refund_handler-IsRefundOf_example =
    refund_handler-IsRefundOf outside (λ ix. true) (request post) wallet refund_of_2 refunds_2

abbrev answers : Answers outside chain stake 3
answers = record { scanned = refl; rounds = refl; participants = refl }

claim_handler-latest_example :
    (n : ℕ) × (whole 1 ≡ whole n)
    × (wallet ≡ wallet)
    × IsLatest no_unclaimed_prize
        (λ i. is_claimable key_of same_key wallet (chain i))
        (min_round (max 1 3))
        (max 1 3)
        (ok n)
claim_handler-latest_example =
    claim_handler-latest outside chain stake 3 answers (λ ix. true) (request post) wallet claim_of_1
      refl claims_1

claim_handler-IsOffer_example :
    (link : Option JsNumber) × (e : Eligibility Buffer) × (claim_handler outside
        (λ ix. true)
        (request get)
      ≡ record { status = 200; page = action link (some e) })
    × IsOffer outside chain 3 wallet none link e
unfolding parse_optional_account_query parse_optional_round_id
claim_handler-IsOffer_example =
    claim_handler-IsOffer outside chain 3 stake answers (λ ix. true) (request get) wallet refl refl
      refl

-- A request with a round id below 0.
abbrev below_0 : Request
below_0 = record (request post) { round_id = some negative }

handlers-bad_request_iff_example :
    (((claim_handler outside (λ ix. true) below_0).status ≡ 400) ↔ IsMalformed outside below_0 post)
    × (((refund_handler outside (λ ix. true) below_0).status ≡ 400)
        ↔ IsMalformed outside below_0 post)
    × (((claim_degen_handler outside {Ix = ℕ} below_0).status ≡ 400)
        ↔ IsMalformed outside below_0 post)
handlers-bad_request_iff_example =
    handlers-bad_request_iff outside ℕ (λ ix. true) (λ ix. true) below_0

below_0-IsMalformed : IsMalformed outside below_0 post
below_0-IsMalformed = inr tt

abbrev two_legs : List LegJson
two_legs = leg (codes "A") (whole 2) ∷ leg (codes "B") (fraction (codes "0.5")) ∷ []

abbrev two_read : List Leg
two_read =
    record { mint = codes "A"; amount = whole 2 }
    ∷ record { mint = codes "B"; amount = fraction (codes "0.5") }
    ∷ []

batch_handler-opens_iff_example :
    (batch_handler outside {Ix = ℕ} (ok 3) (array two_legs) (request post)
      ≡ record { status = 200; page = external_link (whole 3) (some two_read) })
    ↔ ((post ≡ post)
        × ((field : Field) × (account : Buffer) × (parse_body (request post).body ≡ returned field)
            × (require_account outside field ≡ returned account))
        × (parse_optional_round_id none ≡ returned none)
        × IsChosen none (ok 3) (whole 3)
        × ReadAs (array two_legs) (some two_read))
batch_handler-opens_iff_example =
    batch_handler-opens_iff outside (ok 3) (array two_legs) (request post) (whole 3) (some two_read)

opens_3 :
    batch_handler outside {Ix = ℕ}
      ((scan_fresh key_of (λ ids. some (map chain ids)) 1000 joinable empty_cache).0)
      (array two_legs)
      (request post)
    ≡ record { status = 200; page = external_link (whole 3) (some two_read) }
unfolding batch_handler with_handler post_batch searched scan_fresh sweep_batches sweep_infos
    sweep_round sweep_is_over next_cache answer_from cached_for seed_round_id batch_ids parse_round
    participants_from subarray le_value get_uint to_signed64 get_big_int64 is_joinable_round_status
    is_active_round_status
opens_3 = refl

batch_handler-joinable_example :
    (n : ℕ) × (whole 3 ≡ whole n) × HasStatus key_of chain is_joinable_round_status n
batch_handler-joinable_example =
    batch_handler-joinable outside chain 1000 empty_cache (array two_legs) (request post) (whole 3)
      (some two_read) refl opens_3
