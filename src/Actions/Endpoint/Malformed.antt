-- ===== src/Actions/Endpoint/Malformed.antt =====
-- Which requests to the claim endpoints are answered with 400.
use winny.Base.{
  ℕ, ◌≡◌, refl, ap, subst, sym, ◌∙◌, ◌↔◌, ◌⊎◌, inl, inr, Bool, Option, none, some, [], ◌∷◌, arith,
}
use winny.Actions.{Result}
use winny.Actions.Endpoint.{
  Code, missing_account, invalid_account, invalid_round_id, fail, Answer, returned, ◌>>=◌, JsNumber,
  not_finite, negative, whole, fraction, Field, absent, text, other, Body, no_body, json, object,
  Method, get, post, options, other_method, Request, Outside, Page, parse_body,
  parse_optional_round_id, parse_optional_account_query, require_account, claimable_round,
  refundable_round, get_action,
}
use winny.Actions.Endpoint.Launch.{post_claim_degen, claim_degen_handler}
use winny.Actions.Endpoint.Post.{
  ClaimIx, RefundIx, dispatch, read_post, choose_round, post_claim, post_refund, claim_handler,
  refund_handler,
}
use winny.Actions.Endpoint.Statuses.{
  status_of, NotBad, bind-NotBad, choose_round-NotBad, claim_for-NotBad, refund_for-NotBad,
  status-with_handler,
}

-- A query with a round id that is not a number from 0 on.
abbrev pub BadRound : Option JsNumber → Type 0
BadRound none = ⊥
BadRound (some not_finite) = Unit
BadRound (some negative) = Unit
BadRound (some (whole n)) = ⊥
BadRound (some (fraction s)) = ⊥

module _ {Key : Type 0} (o : Outside Key) where
  -- No account in the body, or one that is not the text of a key.
  abbrev pub NoKey : Field → Type 0
  NoKey absent = Unit
  NoKey other = Unit
  NoKey (text []) = Unit
  NoKey (text (c ∷ s)) = o.read_key (c ∷ s) ≡ none

  abbrev pub BadQueryAccount : Field → Type 0
  BadQueryAccount absent = ⊥
  BadQueryAccount other = Unit
  BadQueryAccount (text []) = ⊥
  BadQueryAccount (text (c ∷ s)) = o.read_key (c ∷ s) ≡ none

  -- A body that is read, and without a key or with a bad round in the query.
  abbrev pub BadPost : Body → Option JsNumber → Type 0
  BadPost no_body round = Unit
  BadPost (json none) round = ⊥
  BadPost (json (some field)) round = NoKey field ⊎ BadRound round
  BadPost (object field) round = NoKey field ⊎ BadRound round

  abbrev pub IsMalformed : Request → Method → Type 0
  IsMalformed req get = BadQueryAccount req.account ⊎ BadRound req.round_id
  IsMalformed req post = BadPost req.body req.round_id
  IsMalformed req options = ⊥
  IsMalformed req (other_method name) = ⊥

-- A check: it gives a value and the condition does not hold, or it fails with 400 and it does.
abbrev Checked : {A : Type 0} → Answer A → Type 0 → Type 0
Checked {A} a P =
    ((value : A) × (a ≡ returned value) × ¬ P) ⊎ ((code : Code) × (a ≡ fail 400 code) × P)

checks-bad_iff :
    {A B C : Type 0} (a : Answer A) (b : Answer B) (P Q : Type 0) (next : A → B → Answer C)
    → Checked a P
    → Checked b Q
    → ((x : A) (y : B) → NotBad (next x y))
    → (status_of (a >>= λ x. b >>= λ y. next x y) ≡ 400) ↔ (P ⊎ Q)
checks-bad_iff {A} {B} {C} a b P Q next (inr (code, fails, holds)) second rest =
    ((λ e. inl holds), λ h. ap (λ a. status_of (a >>= λ x. b >>= λ y. next x y)) fails)
checks-bad_iff {A} {B} {C} a b P Q next (inl (x, gives, not_p)) (inr (code, fails, holds)) rest = (
  (λ e. inr holds),
  λ h.
      ap (λ a. status_of (a >>= λ x. b >>= λ y. next x y)) gives
      ∙ ap (λ b. status_of (b >>= λ y. next x y)) fails,
)
checks-bad_iff {A} {B} {C} a b P Q next (inl (x, gives, not_p)) (inl (y, gives', not_q)) rest = (
  (λ e. absurd (
      rest x y (
        sym (
          ap (λ a. status_of (a >>= λ x. b >>= λ y. next x y)) gives
          ∙ ap (λ b. status_of (b >>= λ y. next x y)) gives')
        ∙ e))),
  λ h. elim h [ inl p ↦ absurd (not_p p) | inr q ↦ absurd (not_q q) ],
)

round-Checked : (round : Option JsNumber) → Checked (parse_optional_round_id round) (BadRound round)
unfolding parse_optional_round_id
round-Checked none = inl (none, refl, λ h. h)
round-Checked (some not_finite) = inr (invalid_round_id, refl, tt)
round-Checked (some negative) = inr (invalid_round_id, refl, tt)
round-Checked (some (whole n)) = inl (some (whole n), refl, λ h. h)
round-Checked (some (fraction s)) = inl (some (fraction s), refl, λ h. h)

module _ {Key : Type 0} (o : Outside Key) where
  require_account-Checked : (field : Field) → Checked (require_account o field) (NoKey o field)
  unfolding require_account
  require_account-Checked absent = inr (missing_account, refl, tt)
  require_account-Checked other = inr (missing_account, refl, tt)
  require_account-Checked (text []) = inr (missing_account, refl, tt)
  require_account-Checked (text (c ∷ s)) = go (o.read_key (c ∷ s))
    where
      go :
          (key : Option Key)
          → Checked
              (elim key as (λ key. Answer Key) [
                | none ↦ fail 400 invalid_account
                | some key ↦ returned key
              ])
              (key ≡ none)
      go none = inr (invalid_account, refl, refl)
      go (some key) = inl (key, refl, λ h. cc)

  query_account-Checked :
      (field : Field) → Checked (parse_optional_account_query o field) (BadQueryAccount o field)
  unfolding parse_optional_account_query
  query_account-Checked absent = inl (none, refl, λ h. h)
  query_account-Checked other = inr (invalid_account, refl, tt)
  query_account-Checked (text []) = inl (none, refl, λ h. h)
  query_account-Checked (text (c ∷ s)) = go (o.read_key (c ∷ s))
    where
      go :
          (key : Option Key)
          → Checked
              (elim key as (λ key. Answer (Option Key)) [
                | none ↦ fail 400 invalid_account
                | some key ↦ returned (some key)
              ])
              (key ≡ none)
      go none = inr (invalid_account, refl, refl)
      go (some key) = inl (some key, refl, λ h. cc)

  post-bad_iff :
      {A : Type 0} (req : Request) (next : Key → Option JsNumber → Answer A)
      → ((key : Key) (asked : Option JsNumber) → NotBad (next key asked))
      → (status_of (read_post o req next) ≡ 400) ↔ BadPost o req.body req.round_id
  unfolding read_post parse_body
  post-bad_iff {A} req next rest = go req.body
    where
      asked :
          (field : Field)
          → (status_of (
                require_account o field >>= λ account.
                parse_optional_round_id req.round_id >>= λ asked. next account asked)
              ≡ 400)
            ↔ (NoKey o field ⊎ BadRound req.round_id)
      asked field =
          checks-bad_iff (require_account o field) (parse_optional_round_id req.round_id)
            (NoKey o field) (BadRound req.round_id) next (require_account-Checked field)
            (round-Checked req.round_id) rest

      go :
          (body : Body)
          → (status_of (
                parse_body body >>= λ field. require_account o field >>= λ account.
                parse_optional_round_id req.round_id >>= λ asked. next account asked)
              ≡ 400)
            ↔ BadPost o body req.round_id
      go no_body = ((λ e. tt), (λ h. refl))
      go (json none) = ((λ e. ground (arith, e)), λ h. absurd h)
      go (json (some field)) = asked field
      go (object field) = asked field

  get-bad_iff :
      (Ix : Type 0) (find : Key → Result ℕ) (fallback : Code) (req : Request)
      → (status_of (get_action o {Ix = Ix} find fallback req) ≡ 400)
        ↔ (BadQueryAccount o req.account ⊎ BadRound req.round_id)
  unfolding get_action
  get-bad_iff Ix find fallback req =
      checks-bad_iff (parse_optional_account_query o req.account)
        (parse_optional_round_id req.round_id) (BadQueryAccount o req.account)
        (BadRound req.round_id) _ (query_account-Checked req.account) (round-Checked req.round_id)
        (λ account asked. ground arith)

  dispatch-bad_iff :
      {Ix : Type 0} (req : Request) (shown built : Answer (Page Key Ix))
      → (status_of shown ≡ 400) ↔ (BadQueryAccount o req.account ⊎ BadRound req.round_id)
      → (status_of built ≡ 400) ↔ BadPost o req.body req.round_id
      → ((dispatch req.method shown built).status ≡ 400) ↔ IsMalformed o req req.method
  unfolding dispatch
  dispatch-bad_iff {Ix} req shown built on_get on_post = go req.method
    where
      go : (m : Method) → ((dispatch m shown built).status ≡ 400) ↔ IsMalformed o req m
      go get =
          subst (λ n. (n ≡ 400) ↔ IsMalformed o req get) (sym (status-with_handler o shown)) on_get
      go post =
          subst (λ n. (n ≡ 400) ↔ IsMalformed o req post) (sym (status-with_handler o built))
            on_post
      go options = ((λ e. absurd (omega (arith, e))), λ h. absurd h)
      go (other_method name) = ((λ e. absurd (omega (arith, e))), λ h. absurd h)

  -- The three claim endpoints answer with 400 just the malformed requests: a GET whose account or
  -- round id in the query is bad, and a POST whose body can be read and names no key or whose round
  -- id is bad.
  pub handlers-bad_request_iff :
      (Ix : Type 0) (builds_claim : ClaimIx Key → Bool) (builds_refund : RefundIx Key → Bool)
      (req : Request)
      → (((claim_handler o builds_claim req).status ≡ 400) ↔ IsMalformed o req req.method)
        × (((refund_handler o builds_refund req).status ≡ 400) ↔ IsMalformed o req req.method)
        × (((claim_degen_handler o {Ix = Ix} req).status ≡ 400) ↔ IsMalformed o req req.method)
  unfolding claim_handler refund_handler claim_degen_handler post_claim post_refund post_claim_degen
  handlers-bad_request_iff Ix builds_claim builds_refund req = (
    checked _ _ _ (λ winner asked.
        chosen asked (claimable_round o winner) _ (claim_for-NotBad o builds_claim winner)),
    checked _ _ _ (λ user asked.
        chosen asked (refundable_round o user) _ (refund_for-NotBad o builds_refund user)),
    checked _ _ _ (λ winner asked. chosen asked (claimable_round o winner) _ (λ id. ground arith)),
  )
    where
      chosen :
          {A : Type 0} (asked : Option JsNumber) (found : Result ℕ) (next : JsNumber → Answer A)
          → ((id : JsNumber) → NotBad (next id))
          → NotBad (choose_round asked found >>= next)
      chosen asked found next =
          bind-NotBad (choose_round asked found) next (choose_round-NotBad o asked found)

      checked :
          {I : Type 0} (find : Key → Result ℕ) (fallback : Code)
          (next : Key → Option JsNumber → Answer (Page Key I))
          → ((key : Key) (asked : Option JsNumber) → NotBad (next key asked))
          → ((dispatch req.method (get_action o find fallback req) (read_post o req next)).status
              ≡ 400)
            ↔ IsMalformed o req req.method
      checked find fallback next rest =
          dispatch-bad_iff req _ _ (get-bad_iff _ _ _ req) (post-bad_iff req next rest)
