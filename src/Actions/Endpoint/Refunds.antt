-- ===== src/Actions/Endpoint/Refunds.antt =====
-- What the transactions of api/actions/claim-refund.ts are about.
use winny.Base.{◌≡◌, refl, subst, sym, Bool, true, false, some}
use winny.Accounts.Config.{ParsedConfigLike}
use winny.Actions.{no_refund_available}
use winny.Actions.Endpoint.{
  search_failed, returned, or_throw, JsNumber, Field, post, Request, Outside, transaction,
  parse_body, require_account, fetch_parsed_config, refundable_round,
}
use winny.Actions.Endpoint.Post.{
  RefundIx, refund_ix, refund_for, choose_round, post_refund, refund_handler,
}
use winny.Actions.Endpoint.Built.{
  bind-returned, returned-inj, or_throw-returned, IsChosen, choose_round-IsChosen,
  dispatch-transaction, read_post-returned, transaction_of-returned,
}

module _ {Key : Type 0} (o : Outside Key) where
  -- The accounts of a refund of an account on a round, with the config that was read.
  abbrev pub IsRefundOf : Key → RefundIx Key → Type 0
  IsRefundOf account ix =
      (config : ParsedConfigLike Key) × (fetch_parsed_config o ≡ returned config)
      × (o.round_pda ix.round_id ≡ some ix.round)
      × (ix.user ≡ account)
      × (ix.config ≡ o.config_pda)
      × (ix.participant ≡ o.participant_pda ix.round account)
      × (o.token_account config.usdc_mint ix.round true ≡ some ix.vault_usdc_ata)
      × (o.token_account config.usdc_mint account false ≡ some ix.user_usdc_ata)

  refund_ix-IsRefundOf :
      (user : Key) (round_id : JsNumber) (pda : Key) (config : ParsedConfigLike Key)
      (ix : RefundIx Key)
      → fetch_parsed_config o ≡ returned config
      → o.round_pda round_id ≡ some pda
      → refund_ix o user round_id pda config ≡ returned ix
      → (ix.round_id ≡ round_id) × IsRefundOf user ix
  unfolding refund_ix
  refund_ix-IsRefundOf user round_id pda config ix read at_pda h =
      let (vault, vault_at, more) =
        bind-returned (or_throw (o.token_account config.usdc_mint pda true)) _ h in
      let (ata, ata_at, last) =
        bind-returned (or_throw (o.token_account config.usdc_mint user false)) _ more in
      subst (λ ix. (ix.round_id ≡ round_id) × IsRefundOf user ix) (returned-inj last)
        (
          refl,
          (
            config,
            read,
            at_pda,
            refl,
            refl,
            refl,
            or_throw-returned _ vault_at,
            or_throw-returned _ ata_at,
          ),
        )

  refund_for-IsRefundOf :
      (builds : RefundIx Key → Bool) (user : Key) (round_id : JsNumber) {payer : Key}
      {ix : RefundIx Key}
      → refund_for o builds user round_id ≡ returned (transaction payer ix)
      → (payer ≡ user) × (ix.round_id ≡ round_id) × IsRefundOf user ix
  unfolding refund_for
  refund_for-IsRefundOf builds user round_id {payer} {ix} h =
      let (config, config_read, more) = bind-returned (fetch_parsed_config o) _ h in
      let (pda, at_pda, rest) = bind-returned (or_throw (o.round_pda round_id)) _ more in
      let (built, built_by, last) = bind-returned (refund_ix o user round_id pda config) _ rest in
      let (same_payer, same_ix) = transaction_of-returned o builds user built last in
      let (same_id, accounts) =
        subst (λ ix. (ix.round_id ≡ round_id) × IsRefundOf user ix) same_ix
          (refund_ix-IsRefundOf user round_id pda config built config_read
            (or_throw-returned _ at_pda) built_by) in
      (sym same_payer, same_id, accounts)

  -- A refund endpoint that answers a request with a transaction was asked by a POST with the key of
  -- an account in its body; the transaction is paid by that account and takes back, for it, its money
  -- in the round of the query or else in the round that the search finds, and every account of the
  -- instruction belongs to that round.
  pub refund_handler-IsRefundOf :
      (builds : RefundIx Key → Bool) (req : Request) (payer : Key) (ix : RefundIx Key)
      → refund_handler o builds req ≡ record { status = 200; page = transaction payer ix }
      → (req.method ≡ post)
        × ((field : Field) × (parse_body req.body ≡ returned field)
            × (require_account o field ≡ returned payer))
        × IsChosen req.round_id (refundable_round o payer) ix.round_id
        × IsRefundOf payer ix
  unfolding refund_handler post_refund
  refund_handler-IsRefundOf builds req payer ix h =
      let (is_post, built) =
        dispatch-transaction o req.method (refundable_round o) (search_failed no_refund_available)
          req (post_refund o builds req) h in
      let (field, account, body_read, account_read, rest) = read_post-returned o req _ built in
      let (round_id, chosen, claimed) =
        bind-returned (choose_round req.round_id (refundable_round o account)) _ rest in
      let (same, same_id, accounts) = refund_for-IsRefundOf builds account round_id claimed in
      subst
        (λ account.
          (req.method ≡ post)
          × ((field : Field) × (parse_body req.body ≡ returned field)
              × (require_account o field ≡ returned account))
          × IsChosen req.round_id (refundable_round o account) ix.round_id
          × IsRefundOf account ix)
        (sym same)
        (
          is_post,
          (field, body_read, account_read),
          subst (IsChosen req.round_id (refundable_round o account)) (sym same_id)
              (choose_round-IsChosen req.round_id (refundable_round o account) chosen),
          accounts,
        )
