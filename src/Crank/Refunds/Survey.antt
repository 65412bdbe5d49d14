-- ===== src/Crank/Refunds/Survey.antt =====
-- What the survey of the participants' accounts counts (the first loop of `cleanupParticipantPdas`,
-- crank/src/index.ts).
use winny.Base.{
  ℕ, ◌+◌, ◌≡◌, refl, sym, subst, inl, inr, true, false, Bool-cases, Option, none, some, List, [],
  ◌∷◌, ◌++◌, map, length, length-append, ltb, ◌==◌, if◌then◌else◌, arith,
}
use mathlib.Core.List.{append_assoc, append-nil}
use winny.Bytes.{Buffer}
use winny.RoundStatus.{cancelled}
use winny.Accounts.Crank.{ParticipantData, parse_participant}
use winny.Crank.Cleanup.{Survey, is_funded_refund, survey_account, survey_accounts}
use winny.Crank.Refunds.{
  Sifted, sifted_nil, sifted_keep, sifted_skip, IsCount, IsThere, IsUnreadable, IsFunded,
  IsUnfunded, IsBlocked, IsClosable,
}

module _ {A : Type 0} {P : A → Type 0} where
  keep_last :
      {xs ys : List A} {x : A} → Sifted P xs ys → P x → Sifted P (xs ++ (x ∷ [])) (ys ++ (x ∷ []))
  keep_last sifted_nil p = sifted_keep p sifted_nil
  keep_last (sifted_keep q h) p = sifted_keep q (keep_last h p)
  keep_last (sifted_skip q h) p = sifted_skip q (keep_last h p)

  skip_last : {xs ys : List A} {x : A} → Sifted P xs ys → (P x → ⊥) → Sifted P (xs ++ (x ∷ [])) ys
  skip_last sifted_nil p = sifted_skip p sifted_nil
  skip_last (sifted_keep q h) p = sifted_keep q (skip_last h p)
  skip_last (sifted_skip q h) p = sifted_skip q (skip_last h p)

abbrev Of : {Key : Type 0} → (Option Buffer → Type 0) → (Key → Option Buffer) → Key → Type 0
Of Q chain user = Q (chain user)

-- One more user, for a property of the user's account.
module _ {Key : Type 0} (Q : Option Buffer → Type 0) (chain : Key → Option Buffer) {done : List Key}
    {user : Key} {info : Option Buffer} (e : chain user ≡ info) where
  kept :
      {ys : List Key}
      → Q info
      → Sifted (Of Q chain) done ys
      → Sifted (Of Q chain) (done ++ (user ∷ [])) (ys ++ (user ∷ []))
  kept q h = keep_last {x = user} h (subst Q (sym e) q)

  skipped :
      {ys : List Key}
      → (Q info → ⊥)
      → Sifted (Of Q chain) done ys
      → Sifted (Of Q chain) (done ++ (user ∷ [])) ys
  skipped q h = skip_last {x = user} h (λ p. q (subst Q e p))

  one_more :
      {n : ℕ}
      → Q info
      → IsCount (Of Q chain) done n
      → IsCount (Of Q chain) (done ++ (user ∷ [])) (n + 1)
  one_more q (ys, h, counted) =
      (ys ++ (user ∷ []), kept q h, omega (arith, counted, length-append ys (user ∷ [])))

  no_more :
      {n : ℕ}
      → (Q info → ⊥)
      → IsCount (Of Q chain) done n
      → IsCount (Of Q chain) (done ++ (user ∷ [])) n
  no_more q (ys, h, counted) = (ys, skipped q h, counted)

module _ {Key : Type 0} (public_key : Buffer → Key) (status : ℕ) where
  is_funded_refund-true :
      (p : ParticipantData Key)
      → is_funded_refund public_key status p ≡ true
      → IsFunded public_key status p
  unfolding is_funded_refund
  is_funded_refund-true p h = elim (Bool-cases (ltb 0 p.usdc_total)) [
    | inl usdc ↦ (ground (arith, h), inl (ground (arith, usdc)))
    | inr no_usdc ↦ (ground (arith, h), inr (ground (arith, h, no_usdc)))
  ]

  is_funded_refund-false :
      (p : ParticipantData Key)
      → is_funded_refund public_key status p ≡ false
      → IsUnfunded public_key status p
  unfolding is_funded_refund
  is_funded_refund-false p h = elim (Bool-cases (status == cancelled)) [
    | inl over ↦ inr (ground (arith, h, over), ground (arith, h, over))
    | inr other ↦ inl (λ e. ground (arith, e, other))
  ]

  not_both :
      (p : ParticipantData Key) → IsFunded public_key status p → IsUnfunded public_key status p → ⊥
  not_both p (over, funds) (inl other) = other over
  not_both p (over, inl usdc) (inr (no_usdc, no_tickets)) = omega arith
  not_both p (over, inr tickets) (inr (no_usdc, no_tickets)) = omega arith

  IsBlocked-not-IsClosable :
      (info : Option Buffer)
      → IsBlocked public_key status info
      → IsClosable public_key status info
      → ⊥
  IsBlocked-not-IsClosable none h k = h
  IsBlocked-not-IsClosable (some account) (p, e, funds) (q, e', free) =
      not_both p funds (subst (IsUnfunded public_key status) {x = q} {y = p} (cc (e, e')) free)

  -- What the survey has of the users that it came to.
  pub record Surveyed (chain : Key → Option Buffer) (done : List Key) (v : Survey Key)
      : Type 0 where
    pub existing : IsCount (λ user. IsThere (chain user)) done v.stats.existing
    pub blocked :
        IsCount (λ user. IsBlocked public_key status (chain user)) done v.stats.blocked_by_refund
    pub unreadable :
        IsCount (λ user. IsUnreadable public_key status (chain user)) done v.stats.errors
    pub sifted : Sifted (λ user. IsClosable public_key status (chain user)) done v.closable_users
    pub closable : length v.closable_users ≡ v.stats.closable
    pub none_closed : v.stats.closed ≡ 0

  survey_account-Surveyed :
      (chain : Key → Option Buffer) (done : List Key) (user : Key) (v : Survey Key)
      → Surveyed chain done v
      → Surveyed chain (done ++ (user ∷ [])) (survey_account public_key status user (chain user) v)
  unfolding survey_account
  survey_account-Surveyed chain done user v h = go (chain user) refl
    where
      parsed :
          (account : Buffer)
          → chain user ≡ some account
          → (o : Option (ParticipantData Key)) → parse_participant public_key account ≡ o
          → Surveyed chain (done ++ (user ∷ [])) (elim o [
            | none ↦ record v {
              stats = record v.stats {
                existing = v.stats.existing + 1;
                errors = v.stats.errors + 1;
              };
            }
            | some p ↦
                if is_funded_refund public_key status p
                then record v {
                  stats = record v.stats {
                    existing = v.stats.existing + 1;
                    blocked_by_refund = v.stats.blocked_by_refund + 1;
                  };
                }
                else record {
                  stats = record v.stats {
                    existing = v.stats.existing + 1;
                    closable = v.stats.closable + 1;
                  };
                  closable_users = v.closable_users ++ (user ∷ []);
                }
          ])
      parsed account e none bad = record {
        existing = one_more IsThere chain e tt h.existing;
        blocked = no_more (IsBlocked public_key status) chain e (λ b. cc (b.1, bad)) h.blocked;
        unreadable = one_more (IsUnreadable public_key status) chain e bad h.unreadable;
        sifted = skipped (IsClosable public_key status) chain e (λ b. cc (b.1, bad)) h.sifted;
        closable = h.closable;
        none_closed = h.none_closed;
      }
      parsed account e (some p) good = elim (Bool-cases (is_funded_refund public_key status p)) [
        | inl funds ↦
            let blocks : IsBlocked public_key status (some account) =
              (p, good, is_funded_refund-true p funds) in
            rw funds (record {
              existing = one_more IsThere chain e tt h.existing;
              blocked = one_more (IsBlocked public_key status) chain e blocks h.blocked;
              unreadable =
                  no_more (IsUnreadable public_key status) chain e (λ bad. cc (bad, good))
                    h.unreadable;
              sifted =
                  skipped (IsClosable public_key status) chain e
                    (λ free. IsBlocked-not-IsClosable (some account) blocks free) h.sifted;
              closable = h.closable;
              none_closed = h.none_closed;
            })
        | inr free ↦
            let closes : IsClosable public_key status (some account) =
              (p, good, is_funded_refund-false p free) in
            rw free (record {
              existing = one_more IsThere chain e tt h.existing;
              blocked =
                  no_more (IsBlocked public_key status) chain e
                    (λ blocks. IsBlocked-not-IsClosable (some account) blocks closes) h.blocked;
              unreadable =
                  no_more (IsUnreadable public_key status) chain e (λ bad. cc (bad, good))
                    h.unreadable;
              sifted = kept (IsClosable public_key status) chain e closes h.sifted;
              closable = omega (arith, h.closable, length-append v.closable_users (user ∷ []));
              none_closed = h.none_closed;
            })
      ]

      go :
          (info : Option Buffer)
          → chain user ≡ info
          → Surveyed chain (done ++ (user ∷ [])) (survey_account public_key status user info v)
      go none e = record {
        existing = no_more IsThere chain e (λ b. b) h.existing;
        blocked = no_more (IsBlocked public_key status) chain e (λ b. b) h.blocked;
        unreadable = no_more (IsUnreadable public_key status) chain e (λ b. b) h.unreadable;
        sifted = skipped (IsClosable public_key status) chain e (λ b. b) h.sifted;
        closable = h.closable;
        none_closed = h.none_closed;
      }
      go (some account) e = parsed account e (parse_participant public_key account) refl

  pub survey_accounts-Surveyed :
      (chain : Key → Option Buffer) (done users : List Key) (v : Survey Key)
      → Surveyed chain done v
      → Surveyed chain (done ++ users) (survey_accounts public_key status users (map chain users) v)
  unfolding survey_accounts
  survey_accounts-Surveyed chain done [] v h =
      subst (λ us. Surveyed chain us v) (sym (append-nil done)) h
  survey_accounts-Surveyed chain done (user ∷ users) v h =
      subst
        (λ us. Surveyed chain us (
          survey_accounts public_key status users (map chain users)
            (survey_account public_key status user (chain user) v)))
        (append_assoc done (user ∷ []) users)
        (survey_accounts-Surveyed chain (done ++ (user ∷ [])) users _
          (survey_account-Surveyed chain done user v h))
