-- ===== src/Actions/Endpoint/Built.antt =====
-- What the transactions that the two endpoints build are about.
use winny.Base.{
  ℕ, ◌≡◌, refl, ap, subst, ◌≢◌, Bool, true, false, Option, none, some, inl, inr, Bool-cases, arith,
}
use winny.Actions.{Result, ok, error}
use winny.Actions.Endpoint.{
  Code, Answer, returned, thrown, ◌>>=◌, or_throw, searched, both, JsNumber, whole, Field, Method,
  get, post, options, other_method, Request, Outside, Page, action, transaction, with_handler,
  answer_error, parse_body, require_account, parse_optional_round_id, parse_optional_account_query,
  show_found, get_action,
}
use winny.Actions.Endpoint.Post.{dispatch, read_post, transaction_of, choose_round}

pub bind-returned :
    {A B : Type 0} (a : Answer A) (next : A → Answer B) {y : B}
    → (a >>= next) ≡ returned y
    → (x : A) × (a ≡ returned x) × (next x ≡ returned y)
bind-returned (returned x) next h = (x, refl, h)
bind-returned (thrown e) next h = cc

pub returned-inj : {A : Type 0} {x y : A} → returned x ≡ returned y → x ≡ y
returned-inj h = cc

pub or_throw-returned : {A : Type 0} (a : Option A) {x : A} → or_throw a ≡ returned x → a ≡ some x
or_throw-returned none h = cc
or_throw-returned (some x) h = cc

pub both-returned :
    {A B C : Type 0} (first : Bool) (a : Answer A) (b : Answer B) (next : A → B → Answer C) {z : C}
    → both first a b next ≡ returned z
    → (x : A) × (y : B) × (a ≡ returned x) × (b ≡ returned y) × (next x y ≡ returned z)
unfolding both
both-returned first (returned x) (returned y) next h = (x, y, refl, refl, h)
both-returned first (thrown e) (returned y) next h = cc
both-returned first (returned x) (thrown f) next h = cc
both-returned true (thrown e) (thrown f) next h = cc
both-returned false (thrown e) (thrown f) next h = cc

-- The round of a transaction: the one that was asked for, or the one that the search finds.
abbrev pub IsChosen : Option JsNumber → Result ℕ → JsNumber → Type 0
IsChosen none found id = (n : ℕ) × (found ≡ ok n) × (id ≡ whole n)
IsChosen (some asked) found id = id ≡ asked

pub choose_round-IsChosen :
    (asked : Option JsNumber) (found : Result ℕ) {id : JsNumber}
    → choose_round asked found ≡ returned id
    → IsChosen asked found id
unfolding choose_round searched
choose_round-IsChosen (some asked) found h = cc
choose_round-IsChosen none (ok n) h = (n, refl, cc)
choose_round-IsChosen none (error e) h = cc

pub round-asked :
    (round : Option JsNumber) {asked : Option JsNumber}
    → parse_optional_round_id round ≡ returned asked
    → asked ≡ round
unfolding parse_optional_round_id
round-asked none h = cc
round-asked (some JsNumber.not_finite) h = cc
round-asked (some JsNumber.negative) h = cc
round-asked (some (whole n)) h = cc
round-asked (some (JsNumber.fraction s)) h = cc

module _ {Key : Type 0} (o : Outside Key) where
  with_handler-transaction :
      {Ix : Type 0} (a : Answer (Page Key Ix)) {payer : Key} {ix : Ix}
      → with_handler a ≡ record { status = 200; page = transaction payer ix }
      → a ≡ returned (transaction payer ix)
  unfolding with_handler answer_error
  with_handler-transaction (returned page) h = ap (λ s. returned (s.page)) h
  with_handler-transaction (thrown e) h = cc (ap (λ s. s.page) h)

  show_found-ne-transaction :
      {Ix : Type 0} (fallback : Code) (asked : Option JsNumber) (account : Key) (found : Answer ℕ)
      {payer : Key} {ix : Ix}
      → show_found o fallback asked account found ≢ transaction payer ix
  unfolding show_found
  show_found-ne-transaction fallback (some asked) account (returned found) = cc
  show_found-ne-transaction fallback none account (returned found) = cc
  show_found-ne-transaction fallback asked account (thrown e) = cc

  get_action-ne-transaction :
      {Ix : Type 0} (find : Key → Result ℕ) (fallback : Code) (req : Request) {payer : Key}
      {ix : Ix}
      → get_action o find fallback req ≢ returned (transaction payer ix)
  unfolding get_action
  get_action-ne-transaction {Ix} find fallback req {payer} {ix} h =
      let (account, read, more) = bind-returned (parse_optional_account_query o req.account) _ h in
      let (asked, round_read, last) = bind-returned (parse_optional_round_id req.round_id) _ more in
      go account asked last
    where
      go :
          (account : Option Key) (asked : Option JsNumber)
          → returned (elim account as (λ account. Page Key Ix) [
            | none ↦ action asked none
            | some key ↦ show_found o fallback asked key (searched (find key))
          ])
            ≢ returned (transaction payer ix)
      go none asked e = cc
      go (some key) asked e =
          show_found-ne-transaction fallback asked key (searched (find key)) (returned-inj e)

  -- Only a POST is answered with a transaction, the one that is built.
  pub dispatch-transaction :
      {Ix : Type 0} (m : Method) (find : Key → Result ℕ) (fallback : Code) (req : Request)
      (built : Answer (Page Key Ix)) {payer : Key} {ix : Ix}
      → dispatch m (get_action o find fallback req) built
        ≡ record { status = 200; page = transaction payer ix }
      → (m ≡ post) × (built ≡ returned (transaction payer ix))
  unfolding dispatch
  dispatch-transaction post find fallback req built h = (refl, with_handler-transaction built h)
  dispatch-transaction options find fallback req built h = cc (ap (λ s. s.page) h)
  dispatch-transaction (other_method name) find fallback req built h = cc (ap (λ s. s.page) h)
  dispatch-transaction get find fallback req built h = absurd (
      get_action-ne-transaction find fallback req
        (with_handler-transaction (get_action o find fallback req) h))

  -- A POST that goes through has read the key in its body and asks for its query's round.
  pub read_post-returned :
      {A : Type 0} (req : Request) (next : Key → Option JsNumber → Answer A) {y : A}
      → read_post o req next ≡ returned y
      → (field : Field) × (account : Key) × (parse_body req.body ≡ returned field)
        × (require_account o field ≡ returned account)
        × (next account req.round_id ≡ returned y)
  unfolding read_post
  read_post-returned req next {y} h =
      let (field, body_read, more) = bind-returned (parse_body req.body) _ h in
      let (account, account_read, rest) = bind-returned (require_account o field) _ more in
      let (asked, round_read, last) = bind-returned (parse_optional_round_id req.round_id) _ rest in
      (
        field,
        account,
        body_read,
        account_read,
        subst (λ a. next account a ≡ returned y) (round-asked req.round_id round_read) last,
      )

  pub transaction_of-returned :
      {Ix : Type 0} (builds : Ix → Bool) (payer : Key) (ix : Ix) {payer' : Key} {ix' : Ix}
      → transaction_of o builds payer ix ≡ returned (transaction payer' ix')
      → (payer ≡ payer') × (ix ≡ ix')
  unfolding transaction_of
  transaction_of-returned builds payer ix h = elim (Bool-cases (builds ix)) [
    | inl built ↦ (ground (arith, built, h), ground (arith, built, h))
    | inr refused ↦ ground (arith, refused, h)
  ]
