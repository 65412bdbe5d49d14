-- ===== src/Actions/Endpoint/Opened.antt =====
-- When api/actions/join-batch.ts leads into the app, and for which round and legs.
use winny.Base.{ℕ, ◌≡◌, ◌↔◌, refl, ap, subst, sym, ◌∙◌, Option, none, some, List, map, arith}
use winny.Bytes.{Buffer}
use winny.Actions.{Result, is_joinable_round_status}
use winny.Actions.RoundCache.{RoundCache, joinable, scan_fresh}
use winny.Actions.RoundCache.Found.{HasStatus, scan_fresh_joinable}
use winny.Actions.Endpoint.{
  Answer, returned, thrown, ◌>>=◌, searched, JsNumber, whole, Field, Method, get, post, options,
  other_method, Request, Outside, Page, external_link, Leg, parse_body, parse_optional_round_id,
  with_handler, answer_error, require_account,
}
use winny.Actions.Endpoint.Post.{choose_round, dispatch, read_post}
use winny.Actions.Endpoint.Built.{
  bind-returned, IsChosen, choose_round-IsChosen, read_post-returned, round-asked,
}
use winny.Actions.Endpoint.Launch.{
  LegsQuery, parse_batch_legs, resolve_with_source, get_batch, post_batch, batch_handler,
}
use winny.Actions.Endpoint.Legs.{ReadAs, parse_batch_legs_iff}

link_round :
    {Key Ix : Type 0} (a : Answer (Page Key Ix)) {id id' : JsNumber}
    {legs legs' : Option (List Leg)}
    → a ≡ returned (external_link id legs)
    → a ≡ returned (external_link id' legs')
    → id ≡ id'
link_round a h e = cc

link_legs :
    {Key Ix : Type 0} (a : Answer (Page Key Ix)) {id id' : JsNumber}
    {legs legs' : Option (List Leg)}
    → a ≡ returned (external_link id legs)
    → a ≡ returned (external_link id' legs')
    → legs ≡ legs'
link_legs a h e = cc

choose_round-of-IsChosen :
    (asked : Option JsNumber) (scanned : Result ℕ) {id : JsNumber}
    → IsChosen asked scanned id
    → choose_round asked scanned ≡ returned id
unfolding choose_round searched
choose_round-of-IsChosen none scanned (n, found, is_n) = ground (arith, found, is_n)
choose_round-of-IsChosen (some asked) scanned is_asked = ap returned (sym is_asked)

module _ {Key : Type 0} (o : Outside Key) where
  -- The round of the query is good where a POST goes through.
  read_post-round :
      {A : Type 0} (req : Request) (next : Key → Option JsNumber → Answer A) {y : A}
      → read_post o req next ≡ returned y
      → parse_optional_round_id req.round_id ≡ returned req.round_id
  unfolding read_post
  read_post-round req next h =
      let (field, body_read, more) = bind-returned (parse_body req.body) _ h in
      let (account, account_read, rest) = bind-returned (require_account o field) _ more in
      let (asked, round_read, last) = bind-returned (parse_optional_round_id req.round_id) _ rest in
      round_read ∙ ap returned (round-asked req.round_id round_read)

  read_post-reads :
      {A : Type 0} (req : Request) (next : Key → Option JsNumber → Answer A) (field : Field)
      (account : Key)
      → parse_body req.body ≡ returned field
      → require_account o field ≡ returned account
      → parse_optional_round_id req.round_id ≡ returned req.round_id
      → read_post o req next ≡ next account req.round_id
  unfolding read_post
  read_post-reads req next field account body_read account_read round_read =
      ground (arith, body_read, account_read, round_read)

module _ {Key : Type 0} (o : Outside Key) {Ix : Type 0} where
  with_handler-external_link :
      (a : Answer (Page Key Ix)) {id : JsNumber} {legs : Option (List Leg)}
      → with_handler a ≡ record { status = 200; page = external_link id legs }
      → a ≡ returned (external_link id legs)
  unfolding with_handler answer_error
  with_handler-external_link (returned page) h = ap (λ s. returned (s.page)) h
  with_handler-external_link (thrown e) h = cc (ap (λ s. s.page) h)

  -- Only a POST of the batch endpoint is answered with a link into the app.
  batch_handler-post :
      (m : Method) (scanned : Result ℕ) (req : Request) (built : Answer (Page Key Ix))
      {id : JsNumber} {legs : Option (List Leg)}
      → dispatch m (get_batch o scanned req) built
        ≡ record { status = 200; page = external_link id legs }
      → (m ≡ post) × (built ≡ returned (external_link id legs))
  unfolding dispatch get_batch
  batch_handler-post post scanned req built h = (refl, with_handler-external_link built h)
  batch_handler-post options scanned req built h = cc (ap (λ s. s.page) h)
  batch_handler-post (other_method name) scanned req built h = cc (ap (λ s. s.page) h)
  batch_handler-post get scanned req built h =
      let (resolved, read, last) =
        bind-returned (resolve_with_source req.round_id scanned) _
          (with_handler-external_link (get_batch o scanned req) h) in
      cc

  -- The batch endpoint leads into the app just where it is asked by a POST whose body has the key of
  -- an account, whose query has no bad round id, and whose legs are absent or from one to five with a
  -- mint and an amount above 0 each: with these legs, and for the round of the query or else the
  -- round that the scan finds.
  pub batch_handler-opens_iff :
      (scanned : Result ℕ) (query : LegsQuery) (req : Request) (id : JsNumber)
      (legs : Option (List Leg))
      → (batch_handler o {Ix = Ix} scanned query req
          ≡ record { status = 200; page = external_link id legs })
        ↔ ((req.method ≡ post)
            × ((field : Field) × (account : Key) × (parse_body req.body ≡ returned field)
                × (require_account o field ≡ returned account))
            × (parse_optional_round_id req.round_id ≡ returned req.round_id)
            × IsChosen req.round_id scanned id
            × ReadAs query legs)
  unfolding batch_handler post_batch
  batch_handler-opens_iff scanned query req id legs = (
    λ h.
        let (is_post, built) =
          batch_handler-post req.method scanned req (post_batch o scanned query req) h in
        let (field, account, body_read, account_read, rest) = read_post-returned o req _ built in
        let (round_id, chosen, more) = bind-returned (choose_round req.round_id scanned) _ rest in
        let (ls, legs_read, last) = bind-returned (parse_batch_legs query) _ more in
        (
          is_post,
          (field, account, body_read, account_read),
          read_post-round o req _ built,
          subst (IsChosen req.round_id scanned) (link_round _ refl last)
              (choose_round-IsChosen req.round_id scanned chosen),
          subst (ReadAs query) (link_legs _ refl last)
              ((parse_batch_legs_iff query ls).0 legs_read),
        ),
    λ (is_post, (field, account, body_read, account_read), round_read, chosen, read).
        ap (λ m. dispatch m (get_batch o scanned req) (post_batch o scanned query req)) is_post
        ∙ ap with_handler (
            read_post-reads o req _ field account body_read account_read round_read
            ∙ ap
                (λ a. a >>= λ round_id.
                  parse_batch_legs query >>= λ legs. returned (external_link round_id legs))
                (choose_round-of-IsChosen req.round_id scanned chosen)
            ∙ ap (λ a. a >>= λ legs. returned (external_link id legs))
                ((parse_batch_legs_iff query legs).1 read)),
  )

  -- Where the scan is fresh and every read is answered, a batch without a round in its query is for a
  -- round that is on the chain and open.
  pub batch_handler-joinable :
      (chain : ℕ → Option Buffer) (now : ℕ) (cache : RoundCache) (query : LegsQuery) (req : Request)
      (id : JsNumber) (legs : Option (List Leg))
      → req.round_id ≡ none
      → batch_handler o {Ix = Ix}
          ((scan_fresh o.public_key (λ ids. some (map chain ids)) now joinable cache).0)
          query
          req
        ≡ record { status = 200; page = external_link id legs }
      → (n : ℕ) × (id ≡ whole n) × HasStatus o.public_key chain is_joinable_round_status n
  batch_handler-joinable chain now cache query req id legs unasked h =
      let scan = scan_fresh o.public_key (λ ids. some (map chain ids)) now joinable cache in
      let opened = (batch_handler-opens_iff scan.0 query req id legs).0 h in
      let (n, found, is_n) = subst (λ asked. IsChosen asked scan.0 id) unasked opened.3 in
      (
        n,
        is_n,
        scan_fresh_joinable o.public_key chain now cache scan.1 n (ap (λ r. (r, scan.1)) found),
      )
