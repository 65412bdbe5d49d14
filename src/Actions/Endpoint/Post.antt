-- ===== src/Actions/Endpoint/Post.antt =====
-- The handlers of api/actions/claim.ts and api/actions/claim-refund.ts. The texts of an action and
-- the message of a transaction are left out.
use winny.Base.{ℕ, Bool, true, false, Option, none, some, if◌then◌else◌}
use winny.Bytes.{Buffer}
use winny.Accounts.Config.{ParsedConfigLike}
use winny.Accounts.Crank.{RoundData, parse_round}
use winny.Actions.{Result, no_unclaimed_prize, no_refund_available}
use winny.Actions.Endpoint.{
  method_not_allowed, round_not_found, search_failed, Answer, returned, thrown, ◌>>=◌, fail, plain,
  or_throw, searched, both, JsNumber, whole, Method, get, post, options, other_method, Request,
  Outside, Page, no_content, failure, transaction, Served, parse_body, parse_optional_round_id,
  with_handler, require_account, fetch_parsed_config, claimable_round, refundable_round, get_action,
}

-- The accounts of the `claim` instruction.
pub record ClaimIx (Key : Type 0) : Type 0 where
  pub round_id : JsNumber
  pub winner : Key
  pub config : Key
  pub round : Key
  pub vault_usdc_ata : Key
  pub winner_usdc_ata : Key
  pub treasury_usdc_ata : Key
  pub vrf_payer_usdc_ata : Option Key

-- The accounts of the `claimRefund` instruction.
pub record RefundIx (Key : Type 0) : Type 0 where
  pub round_id : JsNumber
  pub config : Key
  pub round : Key
  pub user : Key
  pub participant : Key
  pub vault_usdc_ata : Key
  pub user_usdc_ata : Key

-- The round of the query, or else the one that the search finds.
unfoldable pub choose_round : Option JsNumber → Result ℕ → Answer JsNumber
choose_round (some asked) search = returned asked
choose_round none search = do found ← searched search; returned (whole found)

-- The dispatch on the method, which is the same in both endpoints.
unfoldable pub dispatch :
    {Key Ix : Type 0} → Method → Answer (Page Key Ix) → Answer (Page Key Ix) → Served Key Ix
unfolding with_handler
dispatch options shown built = record { status = 204; page = no_content }
dispatch get shown built = with_handler shown
dispatch post shown built = with_handler built
dispatch (other_method name) shown built = record {
  status = 405;
  page = failure method_not_allowed;
}

module _ {Key : Type 0} (o : Outside Key) where
  -- Who asks for a transaction, and the round of the query.
  unfoldable pub read_post : {A : Type 0} → Request → (Key → Option JsNumber → Answer A) → Answer A
  unfolding parse_body require_account parse_optional_round_id
  read_post req next = do
    field ← parse_body req.body
    account ← require_account o field
    asked ← parse_optional_round_id req.round_id
    next account asked

  -- The token account of the VRF payer, where the round has one.
  unfoldable pub vrf_payer_ata : Key → Key → Answer (Option Key)
  vrf_payer_ata mint payer =
      if o.equals payer o.default_key
      then returned none
      else do ata ← or_throw (o.token_account mint payer false); returned (some ata)

  unfoldable pub claim_ix :
      Key → JsNumber → Key → ParsedConfigLike Key → RoundData Key → Answer (ClaimIx Key)
  unfolding vrf_payer_ata
  claim_ix winner round_id round_pda config round = do
    vault ← or_throw (o.token_account config.usdc_mint round_pda true)
    winner_ata ← or_throw (o.token_account config.usdc_mint winner false)
    payer_ata ← vrf_payer_ata config.usdc_mint round.vrf_payer
    returned (record {
      round_id = round_id;
      winner = winner;
      config = o.config_pda;
      round = round_pda;
      vault_usdc_ata = vault;
      winner_usdc_ata = winner_ata;
      treasury_usdc_ata = config.treasury_usdc_ata;
      vrf_payer_usdc_ata = payer_ata;
    })

  unfoldable pub read_round_info : Option Buffer → Answer (RoundData Key)
  read_round_info none = fail 404 round_not_found
  read_round_info (some account) = or_throw (parse_round o.public_key account)

  -- `buildActionTxResponse`; `builds` is whether the libraries make a transaction of it.
  unfoldable pub transaction_of : {Ix : Type 0} → (Ix → Bool) → Key → Ix → Answer (Page Key Ix)
  transaction_of builds payer ix =
      if builds ix then returned (transaction payer ix) else thrown plain

  unfoldable pub claim_for : (ClaimIx Key → Bool) → Key → JsNumber → Answer (Page Key (ClaimIx Key))
  unfolding both read_round_info claim_ix transaction_of fetch_parsed_config
  claim_for builds winner round_id = do
    round_pda ← or_throw (o.round_pda round_id)
    both o.config_first (fetch_parsed_config o) (or_throw (o.account_info round_pda))
        (λ config info. do
          round ← read_round_info info
          ix ← claim_ix winner round_id round_pda config round
          transaction_of builds winner ix)

  unfoldable pub refund_ix : Key → JsNumber → Key → ParsedConfigLike Key → Answer (RefundIx Key)
  refund_ix user round_id round_pda config = do
    vault ← or_throw (o.token_account config.usdc_mint round_pda true)
    user_ata ← or_throw (o.token_account config.usdc_mint user false)
    returned (record {
      round_id = round_id;
      config = o.config_pda;
      round = round_pda;
      user = user;
      participant = o.participant_pda round_pda user;
      vault_usdc_ata = vault;
      user_usdc_ata = user_ata;
    })

  unfoldable pub refund_for :
      (RefundIx Key → Bool) → Key → JsNumber → Answer (Page Key (RefundIx Key))
  unfolding refund_ix transaction_of fetch_parsed_config
  refund_for builds user round_id = do
    config ← fetch_parsed_config o
    round_pda ← or_throw (o.round_pda round_id)
    ix ← refund_ix user round_id round_pda config
    transaction_of builds user ix

  unfoldable pub post_claim : (ClaimIx Key → Bool) → Request → Answer (Page Key (ClaimIx Key))
  unfolding read_post claim_for choose_round searched
  post_claim builds req = read_post req (λ winner asked. do
    round_id ← choose_round asked (claimable_round o winner)
    claim_for builds winner round_id)

  unfoldable pub post_refund : (RefundIx Key → Bool) → Request → Answer (Page Key (RefundIx Key))
  unfolding read_post refund_for choose_round searched
  post_refund builds req = read_post req (λ user asked. do
    round_id ← choose_round asked (refundable_round o user)
    refund_for builds user round_id)

  -- api/actions/claim.ts
  unfoldable pub claim_handler : (ClaimIx Key → Bool) → Request → Served Key (ClaimIx Key)
  unfolding dispatch get_action
  claim_handler builds req =
      dispatch req.method (get_action o (claimable_round o) (search_failed no_unclaimed_prize) req)
        (post_claim builds req)

  -- api/actions/claim-refund.ts
  unfoldable pub refund_handler : (RefundIx Key → Bool) → Request → Served Key (RefundIx Key)
  unfolding dispatch get_action
  refund_handler builds req =
      dispatch req.method
        (get_action o (refundable_round o) (search_failed no_refund_available) req)
        (post_refund builds req)
