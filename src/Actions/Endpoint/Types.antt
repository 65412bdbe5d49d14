-- ===== src/Actions/Endpoint/Types.antt =====
-- Requests, errors and answers of the Actions endpoints (lib/api/actions-shared.ts), and what the
-- endpoints use of the Solana libraries and of the chain.
use winny.Base.{ℕ, Bool, true, false, Option, none, some, List}
use winny.Text.{JsString}
use winny.Bytes.{Buffer}
use winny.Actions.{
  ActionError, Result, ok, error, no_open_round, no_active_round, no_unclaimed_prize,
  no_refund_available, rpc_error,
}

-- The codes that the endpoints answer with.
pub data Code : Type 0 where
  method_not_allowed : Code
  missing_account : Code
  invalid_account : Code
  invalid_round_id : Code
  invalid_legs : Code
  config_not_found : Code
  config_parse_error : Code
  round_not_found : Code
  internal_error : Code
  search_failed : ActionError → Code

-- An Error with the `status` and the `code` that were put on it.
pub record Thrown : Type 0 where
  pub status : Option ℕ
  pub code : Option Code

pub data Answer (A : Type 0) : Type 0 where
  returned : A → Answer A
  thrown : Thrown → Answer A

infixl 5 ◌>>=◌
abbrev pub ◌>>=◌ : {A B : Type 0} → Answer A → (A → Answer B) → Answer B
returned value >>= next = next value
thrown e >>= next = thrown e

abbrev pub fail : {A : Type 0} → ℕ → Code → Answer A
fail status code = thrown (record { status = some status; code = some code })

-- An Error of the code that is called: it has no status, and the code it may have is left out.
abbrev pub plain : Thrown
plain = record { status = none; code = none }

abbrev pub or_throw : {A : Type 0} → Option A → Answer A
or_throw none = thrown plain
or_throw (some value) = returned value

-- The error that a search throws.
unfoldable pub thrown_by : ActionError → Thrown
thrown_by rpc_error = plain
thrown_by no_open_round = record { status = some 404; code = some (search_failed no_open_round) }
thrown_by no_active_round = record {
  status = some 404;
  code = some (search_failed no_active_round);
}
thrown_by no_unclaimed_prize = record {
  status = some 404;
  code = some (search_failed no_unclaimed_prize);
}
thrown_by no_refund_available = record {
  status = some 404;
  code = some (search_failed no_refund_available);
}

unfoldable pub searched : {A : Type 0} → Result A → Answer A
searched (ok value) = returned value
searched (error e) = thrown (thrown_by e)

-- `Promise.all` of two reads; when both fail, the first rejection is the one that is seen.
unfoldable pub both : {A B C : Type 0} → Bool → Answer A → Answer B → (A → B → Answer C) → Answer C
both left_first (returned a) (returned b) next = next a b
both left_first (thrown e) (returned b) next = thrown e
both left_first (returned a) (thrown f) next = thrown f
both true (thrown e) (thrown f) next = thrown e
both false (thrown e) (thrown f) next = thrown f

-- A number as `Number` reads it: NaN or an infinity, one below 0, a natural number, or a positive
-- one with a fraction, by its text.
pub data JsNumber : Type 0 where
  not_finite : JsNumber
  negative : JsNumber
  whole : ℕ → JsNumber
  fraction : JsString → JsNumber

-- A value that should be the text of a key.
pub data Field : Type 0 where
  absent : Field
  text : JsString → Field
  other : Field

-- `req.body`: none, a text by what `JSON.parse` makes of its account, or an object by its account.
pub data Body : Type 0 where
  no_body : Body
  json : Option Field → Body
  object : Field → Body

pub data Method : Type 0 where
  get : Method
  post : Method
  options : Method
  other_method : JsString → Method

-- `round_id` is the query's value by the number it stands for; none for no value or "".
pub record Request : Type 0 where
  pub method : Method
  pub body : Body
  pub account : Field
  pub round_id : Option JsNumber

-- What the endpoints use of the Solana libraries, and what the chain answers to them: `rounds` and
-- `participants` are reads of several accounts, `scanned` is the answer of the scan for the active
-- round.
pub record Outside (Key : Type 0) : Type 0 where
  pub public_key : Buffer → Key
  pub read_key : JsString → Option Key
  pub equals : Key → Key → Bool
  pub default_key : Key
  pub config_pda : Key
  pub round_pda : JsNumber → Option Key
  pub participant_pda : Key → Key → Key
  pub token_account : Key → Key → Bool → Option Key
  pub account_info : Key → Option (Option Buffer)
  pub rounds : List ℕ → Option (List (Option Buffer))
  pub participants : Key → List ℕ → Option (List (Option Buffer))
  pub scanned : Result ℕ
  -- Whether the config's rejection comes before that of the round's read.
  pub config_first : Bool

pub data Eligibility (Key : Type 0) : Type 0 where
  -- The account, the round that was found, and whether the link is for it ("wallet-auto").
  eligible : Key → ℕ → Bool → Eligibility Key
  -- The account, the code, and whether to try again.
  not_eligible : Key → Code → Bool → Eligibility Key

-- A leg of a batch of deposits.
pub record Leg : Type 0 where
  pub mint : JsString
  pub amount : JsNumber

-- What is sent: nothing, an error, the action with its link (for a round, or a template that asks
-- for one), the transaction with its payer and its one instruction, a link into the app for a round and
-- for legs, or the action that leads there, with whether its round is from the query.
pub data Page (Key Ix : Type 0) : Type 0 where
  no_content : Page Key Ix
  failure : Code → Page Key Ix
  action : Option JsNumber → Option (Eligibility Key) → Page Key Ix
  transaction : Key → Ix → Page Key Ix
  external_link : JsNumber → Option (List Leg) → Page Key Ix
  launcher : JsNumber → Bool → Page Key Ix

pub record Served (Key Ix : Type 0) : Type 0 where
  pub status : ℕ
  pub page : Page Key Ix
