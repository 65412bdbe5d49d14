-- ===== src/Actions/Endpoint.antt =====
-- What the Actions endpoints share (lib/api/actions-shared.ts): how errors are answered, the fields
-- of a request, the reads of the config, and the GET of the endpoints that look for a round of a
-- wallet (api/actions/claim.ts, claim-refund.ts and claim-degen.ts).
mod Types
pub mod Post
mod Statuses
pub mod Malformed
pub mod Built
pub mod Claims
pub mod Refunds
pub mod Found
pub mod Offers
pub mod Launch
pub mod Legs
pub mod Opened
unfoldable pub use Types.*
use winny.Base.{
  ℕ, ◌≡◌, Bool, true, false, ◌||◌, not, Option, none, some, List, [], ◌∷◌, max, ◌==◌, if◌then◌else◌,
}
use winny.Text.{JsString}
use winny.Bytes.{Buffer}
use winny.Accounts.Config.{ParsedConfigLike, parse_config}
use winny.Actions.{
  ActionError, Result, ok, error, no_open_round, no_active_round, no_unclaimed_prize,
  no_refund_available, rpc_error,
}
use winny.Actions.Eligibility.{find_latest_claimable_round_id, find_latest_refundable_round_id}

unfoldable pub parse_body : Body → Answer Field
parse_body no_body = returned absent
parse_body (json none) = thrown plain
parse_body (json (some account)) = returned account
parse_body (object account) = returned account

unfoldable pub parse_round_id : JsNumber → Answer JsNumber
parse_round_id not_finite = fail 400 invalid_round_id
parse_round_id negative = fail 400 invalid_round_id
parse_round_id (whole n) = returned (whole n)
parse_round_id (fraction s) = returned (fraction s)

unfoldable pub parse_optional_round_id : Option JsNumber → Answer (Option JsNumber)
unfolding parse_round_id
parse_optional_round_id none = returned none
parse_optional_round_id (some raw) = do n ← parse_round_id raw; returned (some n)

-- `e?.code || fallbackCode`, and what is said of a retry.
unfoldable pub eligibility_code : Thrown → Code → Code
eligibility_code e fallback = elim e.code [ none ↦ fallback | some code ↦ code ]

unfoldable pub is_retryable : Code → Bool
is_retryable (search_failed no_unclaimed_prize) = true
is_retryable (search_failed no_refund_available) = true
is_retryable _ = false

-- `===` of two numbers.
unfoldable pub same_number : JsNumber → ℕ → Bool
same_number (whole m) n = m == n
same_number _ n = false

-- The status and the code of an error that leaves a handler.
unfoldable pub answer_error : {Key Ix : Type 0} → Thrown → Served Key Ix
answer_error e = record {
  status = elim e.status [ none ↦ 500 | some status ↦ status ];
  page = failure (elim e.code [ none ↦ internal_error | some code ↦ code ]);
}

unfoldable pub with_handler : {Key Ix : Type 0} → Answer (Page Key Ix) → Served Key Ix
unfolding answer_error
with_handler (returned page) = record { status = 200; page = page }
with_handler (thrown e) = answer_error e

module _ {Key : Type 0} (o : Outside Key) where
  unfoldable pub require_account : Field → Answer Key
  require_account absent = fail 400 missing_account
  require_account other = fail 400 missing_account
  require_account (text []) = fail 400 missing_account
  require_account (text (c ∷ s)) = elim (o.read_key (c ∷ s)) [
    | none ↦ fail 400 invalid_account
    | some key ↦ returned key
  ]

  unfoldable pub parse_optional_account_query : Field → Answer (Option Key)
  parse_optional_account_query absent = returned none
  parse_optional_account_query other = fail 400 invalid_account
  parse_optional_account_query (text []) = returned none
  parse_optional_account_query (text (c ∷ s)) = elim (o.read_key (c ∷ s)) [
    | none ↦ fail 400 invalid_account
    | some key ↦ returned (some key)
  ]

  unfoldable pub fetch_parsed_config : Answer (ParsedConfigLike Key)
  fetch_parsed_config = elim (o.account_info o.config_pda) [
    | none ↦ thrown plain
    | some none ↦ fail 500 config_not_found
    | some (some account) ↦ elim (parse_config o.public_key account) [
      | none ↦ fail 500 config_parse_error
      | some config ↦ returned config
    ]
  ]

  unfoldable pub get_latest_known_round_id : Result ℕ
  get_latest_known_round_id = elim o.scanned [ ok id ↦ ok (max 1 id) | error e ↦ error e ]

  -- `findLatestClaimableRoundId`, on the round that the scan answers.
  unfoldable pub claimable_round : Key → Result ℕ
  unfolding get_latest_known_round_id
  claimable_round winner = elim get_latest_known_round_id [
    | error e ↦ error e
    | ok latest ↦
        find_latest_claimable_round_id o.public_key o.equals o.rounds o.participants latest winner
  ]

  unfoldable pub refundable_round : Key → Result ℕ
  unfolding get_latest_known_round_id
  refundable_round user = elim get_latest_known_round_id [
    | error e ↦ error e
    | ok latest ↦
        find_latest_refundable_round_id o.public_key o.equals o.rounds o.participants latest user
  ]

  -- The GET of an endpoint with the search and the code it falls back to.
  unfoldable pub show_found : {Ix : Type 0} → Code → Option JsNumber → Key → Answer ℕ → Page Key Ix
  show_found fallback (some asked) account (returned found) =
      action (some asked) (some (eligible account found (same_number asked found)))
  show_found fallback none account (returned found) =
      action (some (whole found)) (some (eligible account found true))
  show_found fallback asked account (thrown e) = action asked (
      some (
        not_eligible account (eligibility_code e fallback)
          (is_retryable (eligibility_code e fallback))))

  unfoldable pub get_action :
      {Ix : Type 0} → (Key → Result ℕ) → Code → Request → Answer (Page Key Ix)
  unfolding parse_optional_account_query parse_optional_round_id show_found
  get_action search fallback req = do
    account ← parse_optional_account_query req.account
    asked ← parse_optional_round_id req.round_id
    returned (elim account [
      | none ↦ action asked none
      | some key ↦ show_found fallback asked key (searched (search key))
    ])
