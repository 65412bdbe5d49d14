-- ===== src/Actions/Endpoint/Statuses.antt =====
-- The statuses of the answers that the endpoints build: none of the later steps answers with 400.
use winny.Base.{ℕ, ◌≡◌, refl, ◌≢◌, Bool, true, false, Option, none, some, arith}
use winny.Bytes.{Buffer}
use winny.Accounts.Config.{ParsedConfigLike}
use winny.Accounts.Crank.{RoundData, parse_round}
use winny.Actions.{
  Result, ok, error, no_open_round, no_active_round, no_unclaimed_prize, no_refund_available,
  rpc_error,
}
use winny.Actions.Endpoint.{
  Answer, returned, thrown, ◌>>=◌, or_throw, thrown_by, searched, both, JsNumber, Outside, Page,
  with_handler, answer_error, fetch_parsed_config,
}
use winny.Actions.Endpoint.Post.{
  ClaimIx, RefundIx, vrf_payer_ata, claim_ix, read_round_info, transaction_of, claim_for, refund_ix,
  refund_for, choose_round,
}

abbrev pub status_of : {A : Type 0} → Answer A → ℕ
status_of (returned value) = 200
status_of (thrown e) = elim e.status [ none ↦ 500 | some status ↦ status ]

abbrev pub NotBad : {A : Type 0} → Answer A → Type 0
NotBad a = status_of a ≢ 400

pub bind-NotBad :
    {A B : Type 0} (a : Answer A) (next : A → Answer B)
    → NotBad a
    → ((value : A) → NotBad (next value))
    → NotBad (a >>= next)
bind-NotBad (returned value) next h rest = rest value
bind-NotBad (thrown e) next h rest = h

or_throw-NotBad : {A : Type 0} (value : Option A) → NotBad (or_throw value)
or_throw-NotBad none = ground arith
or_throw-NotBad (some value) = ground arith

searched-NotBad : {A : Type 0} (r : Result A) → NotBad (searched r)
unfolding searched thrown_by
searched-NotBad (ok value) = ground arith
searched-NotBad (error no_open_round) = ground arith
searched-NotBad (error no_active_round) = ground arith
searched-NotBad (error no_unclaimed_prize) = ground arith
searched-NotBad (error no_refund_available) = ground arith
searched-NotBad (error rpc_error) = ground arith

both-NotBad :
    {A B C : Type 0} (first : Bool) (a : Answer A) (b : Answer B) (next : A → B → Answer C)
    → NotBad a
    → NotBad b
    → ((x : A) (y : B) → NotBad (next x y))
    → NotBad (both first a b next)
unfolding both
both-NotBad first (returned x) (returned y) next p q rest = rest x y
both-NotBad first (thrown e) (returned y) next p q rest = p
both-NotBad first (returned x) (thrown f) next p q rest = q
both-NotBad true (thrown e) (thrown f) next p q rest = p
both-NotBad false (thrown e) (thrown f) next p q rest = q

module _ {Key : Type 0} (o : Outside Key) where
  fetch_parsed_config-NotBad : NotBad (fetch_parsed_config o)
  unfolding fetch_parsed_config
  fetch_parsed_config-NotBad = ground arith

  read_round_info-NotBad : (info : Option Buffer) → NotBad (read_round_info o info)
  unfolding read_round_info
  read_round_info-NotBad none = ground arith
  read_round_info-NotBad (some account) = or_throw-NotBad (parse_round o.public_key account)

  transaction_of-NotBad :
      {Ix : Type 0} (builds : Ix → Bool) (payer : Key) (ix : Ix)
      → NotBad (transaction_of o builds payer ix)
  unfolding transaction_of
  transaction_of-NotBad builds payer ix = ground arith

  vrf_payer_ata-NotBad : (mint payer : Key) → NotBad (vrf_payer_ata o mint payer)
  unfolding vrf_payer_ata
  vrf_payer_ata-NotBad mint payer = ground arith

  claim_ix-NotBad :
      (winner : Key) (round_id : JsNumber) (round_pda : Key) (config : ParsedConfigLike Key)
      (round : RoundData Key)
      → NotBad (claim_ix o winner round_id round_pda config round)
  unfolding claim_ix
  claim_ix-NotBad winner round_id round_pda config round =
      bind-NotBad (or_throw (o.token_account config.usdc_mint round_pda true)) _ (or_throw-NotBad _)
        (λ vault.
          bind-NotBad (or_throw (o.token_account config.usdc_mint winner false)) _
            (or_throw-NotBad _)
            (λ ata.
              bind-NotBad (vrf_payer_ata o config.usdc_mint round.vrf_payer) _
                (vrf_payer_ata-NotBad config.usdc_mint round.vrf_payer) (λ payer. ground arith)))

  pub claim_for-NotBad :
      (builds : ClaimIx Key → Bool) (winner : Key) (round_id : JsNumber)
      → NotBad (claim_for o builds winner round_id)
  unfolding claim_for
  claim_for-NotBad builds winner round_id =
      bind-NotBad (or_throw (o.round_pda round_id)) _ (or_throw-NotBad _) (λ pda.
        both-NotBad o.config_first (fetch_parsed_config o) (or_throw (o.account_info pda)) _
          fetch_parsed_config-NotBad (or_throw-NotBad _)
          (λ config info.
            bind-NotBad (read_round_info o info) _ (read_round_info-NotBad info) (λ round.
              bind-NotBad (claim_ix o winner round_id pda config round) _
                (claim_ix-NotBad winner round_id pda config round)
                (transaction_of-NotBad builds winner))))

  pub refund_for-NotBad :
      (builds : RefundIx Key → Bool) (user : Key) (round_id : JsNumber)
      → NotBad (refund_for o builds user round_id)
  unfolding refund_for refund_ix
  refund_for-NotBad builds user round_id =
      bind-NotBad (fetch_parsed_config o) _ fetch_parsed_config-NotBad (λ config.
        bind-NotBad (or_throw (o.round_pda round_id)) _ (or_throw-NotBad _) (λ pda.
          bind-NotBad (refund_ix o user round_id pda config) _
            (bind-NotBad (or_throw (o.token_account config.usdc_mint pda true)) _
              (or_throw-NotBad _) (λ vault. ground arith))
            (transaction_of-NotBad builds user)))

  pub choose_round-NotBad :
      (asked : Option JsNumber) (search : Result ℕ) → NotBad (choose_round asked search)
  unfolding choose_round
  choose_round-NotBad (some n) search = ground arith
  choose_round-NotBad none search =
      bind-NotBad (searched search) _ (searched-NotBad search) (λ found. ground arith)

  pub status-with_handler :
      {Ix : Type 0} (a : Answer (Page Key Ix)) → (with_handler a).status ≡ status_of a
  unfolding with_handler answer_error
  status-with_handler (returned page) = refl
  status-with_handler (thrown e) = refl
