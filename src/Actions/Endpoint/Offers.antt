-- ===== src/Actions/Endpoint/Offers.antt =====
-- What the GET of api/actions/claim.ts says of a wallet's prize, and where its link leads.
use winny.Base.{
  ℕ, ◌≡◌, ◌≤◌, ◌↔◌, ==_iff, refl, ap, subst, sym, ◌∙◌, Bool, true, false, Option, none, some, max,
  arith,
}
use winny.Bytes.{Buffer}
use winny.Actions.{Result, ok, error, no_unclaimed_prize}
use winny.Actions.Endpoint.{
  Code, search_failed, returned, searched, JsNumber, whole, Eligibility, eligible, not_eligible,
  same_number, thrown_by, eligibility_code, is_retryable, get, Request, Outside, Page, action,
  with_handler, parse_optional_round_id, parse_optional_account_query, show_found, claimable_round,
  get_action,
}
use winny.Actions.Endpoint.Post.{ClaimIx, dispatch, post_claim, claim_handler}
use winny.Actions.Eligibility.{min_round, is_claimable}
use winny.Actions.Eligibility.Reference.{IsLatest}
use winny.Actions.Endpoint.Found.{Answers, claimable_round-IsLatest}

whole-inj : {m n : ℕ} → some (whole m) ≡ some (whole n) → m ≡ n
whole-inj h = cc

module _ {Key : Type 0} (o : Outside Key) (chain : ℕ → Option Buffer) (latest : ℕ) where
  -- A wallet that is eligible is told the latest round that it won, and the link is for the round of
  -- the query or else for that one, which is what "wallet-auto" says of it; a wallet that is not is
  -- told that it has won none of the rounds looked at, and to try again.
  abbrev pub IsOffer : Key → Option JsNumber → Option JsNumber → Eligibility Key → Type 0
  IsOffer wallet asked link (eligible account n auto) =
      (account ≡ wallet)
      × (link ≡ some (elim asked [ none ↦ whole n | some id ↦ id ]))
      × ((auto ≡ true) ↔ (link ≡ some (whole n)))
      × IsLatest no_unclaimed_prize (λ i. is_claimable o.public_key o.equals wallet (chain i))
          (min_round (max 1 latest)) (max 1 latest) (ok n)
  IsOffer wallet asked link (not_eligible account code retryable) =
      (account ≡ wallet)
      × (link ≡ asked)
      × (code ≡ search_failed no_unclaimed_prize)
      × (retryable ≡ true)
      × ((j : ℕ)
          → min_round (max 1 latest) ≤ j
          → j ≤ max 1 latest
          → is_claimable o.public_key o.equals wallet (chain j) ≡ false)

  abbrev Offers : Key → Option JsNumber → Page Key (ClaimIx Key) → Type 0
  Offers wallet asked page =
      (link : Option JsNumber) × (e : Eligibility Key) × (page ≡ action link (some e))
      × IsOffer wallet asked link e

  same_number_iff :
      (asked : JsNumber) (n : ℕ) → (same_number asked n ≡ true) ↔ (some asked ≡ some (whole n))
  unfolding same_number
  same_number_iff (whole m) n =
      ((λ h. ap (λ k. some (whole k)) ((==_iff m n).0 h)), λ h. (==_iff m n).1 (whole-inj h))
  same_number_iff JsNumber.not_finite n = ((λ h. cc), λ h. cc)
  same_number_iff JsNumber.negative n = ((λ h. cc), λ h. cc)
  same_number_iff (JsNumber.fraction s) n = ((λ h. cc), λ h. cc)

  show_found-Offers :
      (wallet : Key) (asked : Option JsNumber) (r : Result ℕ)
      → IsLatest no_unclaimed_prize
          (λ i. is_claimable o.public_key o.equals wallet (chain i))
          (min_round (max 1 latest))
          (max 1 latest)
          r
      → Offers wallet asked
          (show_found o (search_failed no_unclaimed_prize) asked wallet (searched r))
  unfolding show_found searched thrown_by eligibility_code is_retryable
  show_found-Offers wallet (some id) (ok n) h =
      (some id, eligible wallet n (same_number id n), refl, (refl, refl, same_number_iff id n, h))
  show_found-Offers wallet none (ok n) h =
      (some (whole n), eligible wallet n true, refl, (refl, refl, ((λ e. refl), λ e. refl), h))
  show_found-Offers wallet asked (error e) (is_prize, none_won) =
      subst
        (λ e. Offers wallet asked (
          show_found o (search_failed no_unclaimed_prize) asked wallet
            (searched {A = ℕ} (error e))))
        (sym is_prize) (refused asked)
    where
      refused :
          (asked : Option JsNumber)
          → Offers wallet asked (
              show_found o
                (search_failed no_unclaimed_prize)
                asked
                wallet
                (searched {A = ℕ} (error no_unclaimed_prize)))
      refused none = (
        none,
        not_eligible wallet (search_failed no_unclaimed_prize) true,
        refl,
        (refl, refl, refl, refl, none_won),
      )
      refused (some id) = (
        some id,
        not_eligible wallet (search_failed no_unclaimed_prize) true,
        refl,
        (refl, refl, refl, refl, none_won),
      )

  get_action-shown :
      (Ix : Type 0) (find : Key → Result ℕ) (fallback : Code) (req : Request) (wallet : Key)
      → parse_optional_account_query o req.account ≡ returned (some wallet)
      → parse_optional_round_id req.round_id ≡ returned req.round_id
      → get_action o {Ix = Ix} find fallback req
        ≡ returned (show_found o fallback req.round_id wallet (searched (find wallet)))
  unfolding get_action
  get_action-shown Ix find fallback req wallet account_read round_read =
      ground (arith, account_read, round_read)

  -- On a chain that answers, a GET of the claim endpoint with the key of a wallet, and without a bad
  -- round id, is answered with an offer that is right for the wallet.
  pub claim_handler-IsOffer :
      (participant : Key → ℕ → Option Buffer)
      → Answers o chain participant latest
      → (builds : ClaimIx Key → Bool) (req : Request) (wallet : Key) → req.method ≡ get
      → parse_optional_account_query o req.account ≡ returned (some wallet)
      → parse_optional_round_id req.round_id ≡ returned req.round_id
      → (link : Option JsNumber) × (e : Eligibility Key) × (claim_handler o builds req
          ≡ record { status = 200; page = action link (some e) })
        × IsOffer wallet req.round_id link e
  unfolding claim_handler dispatch with_handler
  claim_handler-IsOffer participant w builds req wallet is_get account_read round_read =
      let (link, e, page_is, offer) =
        show_found-Offers wallet req.round_id (claimable_round o wallet)
          (claimable_round-IsLatest o chain participant latest w wallet) in
      (
        link,
        e,
        ap
              (λ m.
                dispatch m (get_action o (claimable_round o) (search_failed no_unclaimed_prize) req)
                  (post_claim o builds req))
              is_get
            ∙ ap with_handler (
                get_action-shown (ClaimIx Key) (claimable_round o)
                  (search_failed no_unclaimed_prize) req wallet account_read round_read)
            ∙ ap (λ page. record { status = 200; page = page }) page_is,
        offer,
      )
