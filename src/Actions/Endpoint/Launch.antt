-- ===== src/Actions/Endpoint/Launch.antt =====
-- The handlers of api/actions/claim-degen.ts and api/actions/join-batch.ts, which lead into the app.
use winny.Base.{ℕ, Bool, true, false, Option, none, some, List, [], ◌∷◌, length, ltb, if◌then◌else◌}
use winny.Text.{JsString}
use winny.Actions.{Result, no_unclaimed_prize}
use winny.Actions.Endpoint.{
  search_failed, invalid_legs, Answer, returned, ◌>>=◌, fail, searched, JsNumber, not_finite,
  negative, whole, fraction, Request, Outside, Page, external_link, launcher, Leg, Served,
  parse_optional_round_id, claimable_round, get_action,
}
use winny.Actions.Endpoint.Post.{choose_round, dispatch, read_post}

-- An element of the legs: no object, or one by its mint, as a text that is empty where there is
-- none, and by what `Number` makes of its amount.
pub data LegJson : Type 0 where
  not_object : LegJson
  leg : JsString → JsNumber → LegJson

-- `req.query?.legs`: none or "", a text that is not JSON, a value that is no array, or an array.
pub data LegsQuery : Type 0 where
  no_legs : LegsQuery
  not_json : LegsQuery
  not_array : LegsQuery
  array : List LegJson → LegsQuery

unfoldable pub is_positive : JsNumber → Bool
is_positive not_finite = false
is_positive negative = false
is_positive (whole n) = ltb 0 n
is_positive (fraction s) = true

-- The function that is mapped over the legs.
unfoldable pub parse_leg : LegJson → Answer Leg
unfolding is_positive
parse_leg not_object = fail 400 invalid_legs
parse_leg (leg [] amount) = fail 400 invalid_legs
parse_leg (leg (c ∷ mint) amount) =
    if is_positive amount
    then returned (record { mint = c ∷ mint; amount = amount })
    else fail 400 invalid_legs

unfoldable pub parse_each : List LegJson → Answer (List Leg)
unfolding parse_leg
parse_each [] = returned []
parse_each (json ∷ more) = do
  first ← parse_leg json
  rest ← parse_each more
  returned (first ∷ rest)

unfoldable pub parse_batch_legs : LegsQuery → Answer (Option (List Leg))
unfolding parse_each
parse_batch_legs no_legs = returned none
parse_batch_legs not_json = fail 400 invalid_legs
parse_batch_legs not_array = fail 400 invalid_legs
parse_batch_legs (array []) = fail 400 invalid_legs
parse_batch_legs (array (json ∷ more)) =
    if ltb 5 (length (json ∷ more))
    then fail 400 invalid_legs
    else do legs ← parse_each (json ∷ more); returned (some legs)

-- `resolveRoundId` of a request, on what the scan answers; whether the round is from the query.
unfoldable pub resolve_with_source : Option JsNumber → Result ℕ → Answer (JsNumber × Bool)
unfolding parse_optional_round_id searched
resolve_with_source raw scanned = do
  asked ← parse_optional_round_id raw
  elim asked [
    | some id ↦ returned (id, true)
    | none ↦ do found ← searched scanned; returned (whole found, false)
  ]

module _ {Key : Type 0} (o : Outside Key) {Ix : Type 0} where
  unfoldable pub post_claim_degen : Request → Answer (Page Key Ix)
  unfolding read_post choose_round
  post_claim_degen req = read_post o req (λ winner asked. do
    round_id ← choose_round asked (claimable_round o winner)
    returned (external_link round_id none))

  -- api/actions/claim-degen.ts
  unfoldable pub claim_degen_handler : Request → Served Key Ix
  unfolding dispatch get_action
  claim_degen_handler req =
      dispatch req.method (get_action o (claimable_round o) (search_failed no_unclaimed_prize) req)
        (post_claim_degen req)

  unfoldable pub get_batch : Result ℕ → Request → Answer (Page Key Ix)
  unfolding resolve_with_source
  get_batch scanned req = do
    resolved ← resolve_with_source req.round_id scanned
    returned (launcher resolved.0 resolved.1)

  -- `scanned` is what the scan for a round to join answers.
  unfoldable pub post_batch : Result ℕ → LegsQuery → Request → Answer (Page Key Ix)
  unfolding read_post choose_round parse_batch_legs
  post_batch scanned query req = read_post o req (λ account asked. do
    round_id ← choose_round asked scanned
    legs ← parse_batch_legs query
    returned (external_link round_id legs))

  -- api/actions/join-batch.ts
  unfoldable pub batch_handler : Result ℕ → LegsQuery → Request → Served Key Ix
  unfolding dispatch
  batch_handler scanned query req =
      dispatch req.method (get_batch scanned req) (post_batch scanned query req)
