-- ===== src/Actions/Endpoint/Claims.antt =====
-- What the transactions of api/actions/claim.ts are about.
use winny.Base.{◌≡◌, refl, ap, subst, sym, ◌∙◌, Bool, true, false, Option, none, some, arith}
use winny.Bytes.{Buffer}
use winny.Accounts.Config.{ParsedConfigLike}
use winny.Accounts.Crank.{RoundData, parse_round}
use winny.Actions.{no_unclaimed_prize}
use winny.Actions.Endpoint.{
  search_failed, returned, or_throw, JsNumber, Field, post, Request, Outside, transaction,
  parse_body, require_account, fetch_parsed_config, claimable_round,
}
use winny.Actions.Endpoint.Post.{
  ClaimIx, vrf_payer_ata, claim_ix, read_round_info, claim_for, choose_round, post_claim,
  claim_handler,
}
use winny.Actions.Endpoint.Built.{
  bind-returned, returned-inj, or_throw-returned, both-returned, IsChosen, choose_round-IsChosen,
  dispatch-transaction, read_post-returned, transaction_of-returned,
}

module _ {Key : Type 0} (o : Outside Key) where
  -- The token account of the VRF payer is named just where the round has one.
  abbrev pub IsPayerAta : Key → Key → Option Key → Type 0
  IsPayerAta mint payer none = o.equals payer o.default_key ≡ true
  IsPayerAta mint payer (some ata) =
      (o.equals payer o.default_key ≡ false) × (o.token_account mint payer false ≡ some ata)

  vrf_payer_ata-IsPayerAta :
      (mint payer : Key) (ata : Option Key)
      → vrf_payer_ata o mint payer ≡ returned ata
      → IsPayerAta mint payer ata
  unfolding vrf_payer_ata
  vrf_payer_ata-IsPayerAta mint payer none h = ground (arith, h)
  vrf_payer_ata-IsPayerAta mint payer (some ata) h = ground (arith, h)

  -- The accounts of a claim of an account on a round, with the config and the round that were read.
  abbrev pub IsClaimOf : Key → ClaimIx Key → Type 0
  IsClaimOf account ix =
      (config : ParsedConfigLike Key) × (bytes : Buffer) × (round : RoundData Key)
      × (fetch_parsed_config o ≡ returned config)
      × (o.round_pda ix.round_id ≡ some ix.round)
      × (o.account_info ix.round ≡ some (some bytes))
      × (parse_round o.public_key bytes ≡ some round)
      × (ix.winner ≡ account)
      × (ix.config ≡ o.config_pda)
      × (ix.treasury_usdc_ata ≡ config.treasury_usdc_ata)
      × (o.token_account config.usdc_mint ix.round true ≡ some ix.vault_usdc_ata)
      × (o.token_account config.usdc_mint account false ≡ some ix.winner_usdc_ata)
      × IsPayerAta config.usdc_mint round.vrf_payer ix.vrf_payer_usdc_ata

  read_round_info-returned :
      (info : Option Buffer) (round : RoundData Key)
      → read_round_info o info ≡ returned round
      → (bytes : Buffer) × (info ≡ some bytes) × (parse_round o.public_key bytes ≡ some round)
  unfolding read_round_info
  read_round_info-returned none round h = cc
  read_round_info-returned (some bytes) round h = (bytes, refl, or_throw-returned _ h)

  claim_ix-IsClaimOf :
      (winner : Key) (round_id : JsNumber) (pda : Key) (config : ParsedConfigLike Key)
      (bytes : Buffer) (round : RoundData Key) (ix : ClaimIx Key)
      → fetch_parsed_config o ≡ returned config
      → o.round_pda round_id ≡ some pda
      → o.account_info pda ≡ some (some bytes)
      → parse_round o.public_key bytes ≡ some round
      → claim_ix o winner round_id pda config round ≡ returned ix
      → (ix.round_id ≡ round_id) × IsClaimOf winner ix
  unfolding claim_ix
  claim_ix-IsClaimOf winner round_id pda config bytes round ix read at_pda info parsed h =
      let (vault, vault_at, more) =
        bind-returned (or_throw (o.token_account config.usdc_mint pda true)) _ h in
      let (ata, ata_at, rest) =
        bind-returned (or_throw (o.token_account config.usdc_mint winner false)) _ more in
      let (payer, payer_at, last) =
        bind-returned (vrf_payer_ata o config.usdc_mint round.vrf_payer) _ rest in
      subst (λ ix. (ix.round_id ≡ round_id) × IsClaimOf winner ix) (returned-inj last)
        (
          refl,
          (
            config,
            bytes,
            round,
            read,
            at_pda,
            info,
            parsed,
            refl,
            refl,
            refl,
            or_throw-returned _ vault_at,
            or_throw-returned _ ata_at,
            vrf_payer_ata-IsPayerAta config.usdc_mint round.vrf_payer payer payer_at,
          ),
        )

  -- A claim that is built is for the account and the round that were chosen, and every account in it
  -- is the one that belongs there.
  claim_for-IsClaimOf :
      (builds : ClaimIx Key → Bool) (winner : Key) (round_id : JsNumber) {payer : Key}
      {ix : ClaimIx Key}
      → claim_for o builds winner round_id ≡ returned (transaction payer ix)
      → (payer ≡ winner) × (ix.round_id ≡ round_id) × IsClaimOf winner ix
  unfolding claim_for
  claim_for-IsClaimOf builds winner round_id {payer} {ix} h =
      let (pda, at_pda, more) = bind-returned (or_throw (o.round_pda round_id)) _ h in
      let (config, info, config_read, info_read, rest) =
        both-returned o.config_first (fetch_parsed_config o) (or_throw (o.account_info pda)) _
          more in
      let (round, round_read, final) = bind-returned (read_round_info o info) _ rest in
      let (built, built_by, last) =
        bind-returned (claim_ix o winner round_id pda config round) _ final in
      let (same_payer, same_ix) = transaction_of-returned o builds winner built last in
      let (bytes, info_is, parsed) = read_round_info-returned info round round_read in
      let claimed =
        claim_ix-IsClaimOf winner round_id pda config bytes round built config_read
          (or_throw-returned _ at_pda) (or_throw-returned _ info_read ∙ ap some info_is) parsed
          built_by in
      let (same_id, accounts) =
        subst (λ ix. (ix.round_id ≡ round_id) × IsClaimOf winner ix) same_ix claimed in
      (sym same_payer, same_id, accounts)

  -- A claim endpoint that answers a request with a transaction was asked by a POST with the key of
  -- an account in its body; the transaction is paid by that account and claims, for it, the round of
  -- the query or else the round that the search finds, and every account of the instruction belongs
  -- to that round as the chain has it.
  pub claim_handler-IsClaimOf :
      (builds : ClaimIx Key → Bool) (req : Request) (payer : Key) (ix : ClaimIx Key)
      → claim_handler o builds req ≡ record { status = 200; page = transaction payer ix }
      → (req.method ≡ post)
        × ((field : Field) × (parse_body req.body ≡ returned field)
            × (require_account o field ≡ returned payer))
        × IsChosen req.round_id (claimable_round o payer) ix.round_id
        × IsClaimOf payer ix
  unfolding claim_handler post_claim
  claim_handler-IsClaimOf builds req payer ix h =
      let (is_post, built) =
        dispatch-transaction o req.method (claimable_round o) (search_failed no_unclaimed_prize) req
          (post_claim o builds req) h in
      let (field, account, body_read, account_read, rest) = read_post-returned o req _ built in
      let (round_id, chosen, claimed) =
        bind-returned (choose_round req.round_id (claimable_round o account)) _ rest in
      let (same, same_id, accounts) = claim_for-IsClaimOf builds account round_id claimed in
      subst
        (λ account.
          (req.method ≡ post)
          × ((field : Field) × (parse_body req.body ≡ returned field)
              × (require_account o field ≡ returned account))
          × IsChosen req.round_id (claimable_round o account) ix.round_id
          × IsClaimOf account ix)
        (sym same)
        (
          is_post,
          (field, body_read, account_read),
          subst (IsChosen req.round_id (claimable_round o account)) (sym same_id)
              (choose_round-IsChosen req.round_id (claimable_round o account) chosen),
          accounts,
        )
