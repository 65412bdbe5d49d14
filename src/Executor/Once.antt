-- ===== src/Executor/Once.antt =====
-- A prize is swapped once: the first transaction that lands is the last thing that is tried.
use winny.Base.{
  ℕ, ◌≤◌, ◌<◌, Bool-cases, leb, ◌||◌, ◌≡◌, refl, ◌⊎◌, inl, inr, subst, sym, Bool, true, false, not,
  ◌&&◌, Option, none, some, List, [], ◌∷◌, map, ltb, if◌then◌else◌, arith,
}
use winny.Degen.{Candidate}
use winny.Degen.Errors.{is_tx_too_large_error, is_slippage_error}
use winny.Executor.{
  Attempt, Step, tried, tried_fallback, Failure, Sent, landed, failed, MintCheck, bad_mint,
  no_route, has_route, Outside, Options, sized_error, direct_route_error, Ended, executed, threw,
  goes_on, Verdict, returns, next, try_accounts, try_direct_route, after_accounts, last_error,
  try_slippages, try_candidate, after_candidate, try_fallback, try_candidates, after_failure,
  executing, is_confirm_timeout_error,
}

module _ (outside : Outside) (options : Options) where
  -- What the status of the claim's account on the chain says: it is at Executing or beyond, or not.
  abbrev pub HasMoved : Option ℕ → Type 0
  HasMoved none = ⊥
  HasMoved (some status) = executing ≤ status

  abbrev pub HasNotMoved : Option ℕ → Type 0
  HasNotMoved none = Unit
  HasNotMoved (some status) = status < executing

  -- Whether a transaction with this error may have landed all the same.
  abbrev pub timed_out : Failure → Bool
  timed_out f = f.is_tx_timeout || is_confirm_timeout_error f.message

  -- Why the work may go on after a failed attempt: it is an error of size or of slippage, for which
  -- the next attempt is made at once, or it is no timeout, or the claim on the chain has not moved.
  abbrev pub IsPassed : List Step → Attempt → Failure → Type 0
  IsPassed steps a f =
      (is_tx_too_large_error f.message ≡ true)
      ⊎ ((is_slippage_error f.message ≡ true)
          ⊎ ((timed_out f ≡ false) ⊎ HasNotMoved (outside.claim_status (tried a ∷ steps))))

  -- Everything in the list was tried and failed, so that the work may go on.
  abbrev pub AllFailed : List Step → Type 0
  AllFailed [] = Unit
  AllFailed (tried a ∷ steps) =
      ((f : Failure) × (outside.send steps a ≡ failed f) × IsPassed steps a f) × AllFailed steps
  AllFailed (tried_fallback ∷ steps) = ⊥

  -- The last step landed, and all before it failed.
  abbrev pub Landed : List Step → Type 0
  Landed [] = ⊥
  Landed (tried a ∷ steps) = (outside.send steps a ≡ landed) × AllFailed steps
  Landed (tried_fallback ∷ steps) = ⊥

  -- The last step timed out, and then the claim on the chain had moved: it has landed after all.
  abbrev pub MovedOn : List Step → Type 0
  MovedOn [] = ⊥
  MovedOn (tried a ∷ steps) =
      ((f : Failure) × (outside.send steps a ≡ failed f)
        × (timed_out f ≡ true)
        × HasMoved (outside.claim_status (tried a ∷ steps)))
      × AllFailed steps
  MovedOn (tried_fallback ∷ steps) = ⊥

  -- A candidate ended with an error: that of the last step, or all steps may be passed.
  abbrev Threw : Failure → List Step → Type 0
  Threw f [] = Unit
  Threw f (tried a ∷ steps) =
      AllFailed (tried a ∷ steps) ⊎ ((outside.send steps a ≡ failed f) × AllFailed steps)
  Threw f (tried_fallback ∷ steps) = ⊥

  abbrev Sound : Ended × List Step → Type 0
  Sound (executed, steps) = Landed steps
  Sound (threw f, steps) = Threw f steps
  Sound (goes_on sized slippage, steps) = AllFailed steps

  AllFailed-Threw : (f : Failure) (steps : List Step) → AllFailed steps → Threw f steps
  AllFailed-Threw f [] h = tt
  AllFailed-Threw f (tried a ∷ steps) h = inl h
  AllFailed-Threw f (tried_fallback ∷ steps) h = absurd h

  slipped :
      (steps : List Step) (a : Attempt) (f : Failure) (sized : Option Failure)
      → outside.send steps a ≡ failed f
      → AllFailed steps
      → Sound (
          if is_slippage_error f.message
          then (goes_on sized (some f), tried a ∷ steps)
          else (threw f, tried a ∷ steps))
  slipped steps a f sized e h = elim (Bool-cases (is_slippage_error f.message)) [
    | inl slip ↦ rw slip ((f, e, inr (inl slip)), h)
    | inr other ↦ rw other (inr (e, h))
  ]

  choose : {A : Type 0} (P : A → Type 0) (b : Bool) (x y : A) → P x → P y → P (if b then x else y)
  choose P true x y p q = p
  choose P false x y p q = q

  try_accounts-Sound :
      (c : Candidate) (direct : Bool) (slip : Option ℕ) (ns : List (Option ℕ))
      (sized slippage : Option Failure) (steps : List Step)
      → AllFailed steps
      → Sound (try_accounts outside options c direct slip ns sized slippage steps)
  unfolding try_accounts
  try_accounts-Sound c direct slip [] sized slippage steps h = h
  try_accounts-Sound c direct slip (n ∷ ns) sized slippage steps h =
      go (outside.send steps a) refl (λ f k.
        try_accounts-Sound c direct slip ns (some (sized_error f n)) slippage (tried a ∷ steps) k)
    where
      a : Attempt
      a = record {
        candidate = c;
        max_accounts = n;
        only_direct_routes = false;
        slippage_bps = slip;
      }

      go :
          (r : Sent)
          → outside.send steps a ≡ r
          → ((f : Failure)
              → AllFailed (tried a ∷ steps)
              → Sound (
                  try_accounts outside options c direct slip ns
                    (some (sized_error f n))
                    slippage
                    (tried a ∷ steps)))
          → Sound (elim r [
            | landed ↦ (executed, tried a ∷ steps)
            | failed f ↦
                if is_tx_too_large_error f.message && not direct
                then try_accounts outside options c direct slip ns
                    (some (sized_error f n))
                    slippage
                    (tried a ∷ steps)
                else if is_slippage_error f.message
                then (goes_on sized (some f), tried a ∷ steps)
                else (threw f, tried a ∷ steps)
          ])
      go landed e rest = (e, h)
      go (failed f) e rest = elim (Bool-cases (is_tx_too_large_error f.message && not direct)) [
        | inl retried ↦ rw retried (rest f ((f, e, inl (ground (arith, retried))), h))
        | inr ended ↦ rw ended (slipped steps a f sized e h)
      ]

  try_direct_route-Sound :
      (c : Candidate) (slip : Option ℕ) (sized slippage : Option Failure) (steps : List Step)
      → AllFailed steps
      → Sound (try_direct_route outside options c slip sized slippage steps)
  unfolding try_direct_route
  try_direct_route-Sound c slip sized slippage steps h = go (outside.send steps a) refl
    where
      a : Attempt
      a = record {
        candidate = c;
        max_accounts = some 20;
        only_direct_routes = true;
        slippage_bps = slip;
      }

      go :
          (r : Sent)
          → outside.send steps a ≡ r
          → Sound (elim r [
            | landed ↦ (executed, tried a ∷ steps)
            | failed f ↦
                if is_tx_too_large_error f.message
                then (goes_on (some (direct_route_error f)) slippage, tried a ∷ steps)
                else if is_slippage_error f.message
                then (goes_on sized (some f), tried a ∷ steps)
                else (threw f, tried a ∷ steps)
          ])
      go landed e = (e, h)
      go (failed f) e = elim (Bool-cases (is_tx_too_large_error f.message)) [
        | inl large ↦ rw large ((f, e, inl large), h)
        | inr other ↦ rw other (slipped steps a f sized e h)
      ]

  after_accounts-Sound :
      (c : Candidate) (direct : Bool) (slip : Option ℕ) (r : Ended × List Step)
      → Sound r
      → Sound (after_accounts outside options c direct slip r)
  unfolding after_accounts
  after_accounts-Sound c direct slip (executed, steps) h = h
  after_accounts-Sound c direct slip (threw f, steps) h = h
  after_accounts-Sound c direct slip (goes_on none slippage, steps) h = h
  after_accounts-Sound c direct slip (goes_on (some f) slippage, steps) h =
      choose Sound direct _ _ h (try_direct_route-Sound c slip (some f) slippage steps h)

  last_error-Sound :
      (sized slippage : Option Failure) (steps : List Step)
      → AllFailed steps
      → Sound (last_error outside options sized slippage, steps)
  last_error-Sound (some f) slippage steps h = AllFailed-Threw f steps h
  last_error-Sound none (some f) steps h = AllFailed-Threw f steps h
  last_error-Sound none none steps h = h

  try_slippages-Sound :
      (c : Candidate) (direct : Bool) (slips accounts : List (Option ℕ))
      (sized slippage : Option Failure) (steps : List Step)
      → AllFailed steps
      → Sound (try_slippages outside options c direct slips accounts sized slippage steps)
  unfolding try_slippages
  try_slippages-Sound c direct [] accounts sized slippage steps h =
      last_error-Sound sized slippage steps h
  try_slippages-Sound c direct (slip ∷ slips) accounts sized slippage steps h =
      go _
        (after_accounts-Sound c direct slip _
          (try_accounts-Sound c direct slip accounts none slippage steps h))
        (λ sized' slippage' steps' k.
          try_slippages-Sound c direct slips accounts sized' slippage' steps' k)
    where
      go :
          (r : Ended × List Step)
          → Sound r
          → ((sized' slippage' : Option Failure) (steps' : List Step)
              → AllFailed steps'
              → Sound
                  (try_slippages outside options c direct slips accounts sized' slippage' steps'))
          → Sound (elim r.0 [
            | executed ↦ (executed, r.1)
            | threw f ↦ (threw f, r.1)
            | goes_on sized' slippage' ↦
                try_slippages outside options c direct slips accounts sized' slippage' r.1
          ])
      go (executed, steps') k rest = k
      go (threw f, steps') k rest = k
      go (goes_on sized' slippage', steps') k rest = rest sized' slippage' steps' k

  try_candidate-Sound :
      (c : Candidate) (steps : List Step)
      → AllFailed steps
      → Sound (try_candidate outside options c steps)
  unfolding try_candidate
  try_candidate-Sound c steps h =
      choose Sound (options.is_usdc c) _ _
        (try_slippages-Sound c true (none ∷ []) (none ∷ []) none none steps h)
        (go (outside.check_mint steps c))
    where
      go :
          (m : MintCheck)
          → Sound (elim m [
            | bad_mint f ↦ (threw f, steps)
            | no_route ↦ (goes_on none none, steps)
            | has_route ↦
                try_slippages outside options c false
                  (map some options.slippage_sequence)
                  (map some options.max_accounts_sequence)
                  none
                  none
                  steps
          ])
      go (bad_mint f) = AllFailed-Threw f steps h
      go no_route = h
      go has_route = try_slippages-Sound c false _ _ none none steps h

  -- How an attempt at a claim ends: a transaction landed, or timed out and has landed after all, or
  -- all failed, or all failed and then, not before its time, the fallback was tried.
  abbrev pub IsOver : List Step → Type 0
  IsOver [] = Unit
  IsOver (tried a ∷ steps) =
      Landed (tried a ∷ steps) ⊎ (MovedOn (tried a ∷ steps) ⊎ AllFailed (tried a ∷ steps))
  IsOver (tried_fallback ∷ steps) =
      AllFailed steps × (options.fallback_after_ts ≤ outside.clock steps)

  AllFailed-IsOver : (steps : List Step) → AllFailed steps → IsOver steps
  AllFailed-IsOver [] h = tt
  AllFailed-IsOver (tried a ∷ steps) h = inr (inr h)
  AllFailed-IsOver (tried_fallback ∷ steps) h = absurd h

  Landed-IsOver : (steps : List Step) → Landed steps → IsOver steps
  Landed-IsOver [] h = absurd h
  Landed-IsOver (tried a ∷ steps) h = inl h
  Landed-IsOver (tried_fallback ∷ steps) h = absurd h

  try_fallback-IsOver :
      (steps : List Step) → AllFailed steps → IsOver (try_fallback outside options steps)
  unfolding try_fallback
  try_fallback-IsOver steps h = go (ltb (outside.clock steps) options.fallback_after_ts) refl
    where
      go :
          (b : Bool)
          → ltb (outside.clock steps) options.fallback_after_ts ≡ b
          → IsOver (if b then steps else tried_fallback ∷ steps)
      go true e = AllFailed-IsOver steps h
      go false e = (h, ground (arith, e))

  -- What is known after a failed candidate: that the attempt may end here, or may go on.
  abbrev Passes : List Step → Verdict → Type 0
  Passes steps returns = IsOver steps
  Passes steps next = AllFailed steps

  AllFailed-Passes : (steps : List Step) (v : Verdict) → AllFailed steps → Passes steps v
  AllFailed-Passes steps returns h = AllFailed-IsOver steps h
  AllFailed-Passes steps next h = h

  -- The claim's account is read after a timeout: the verdict follows what it says.
  status-Passes :
      (a : Attempt) (f : Failure) (steps : List Step) (status : Option ℕ)
      → outside.claim_status (tried a ∷ steps) ≡ status
      → outside.send steps a ≡ failed f
      → timed_out f ≡ true
      → AllFailed steps
      → Passes
          (tried a ∷ steps)
          (elim status [ none ↦ next | some n ↦ if leb executing n then returns else next ])
  status-Passes a f steps none s e late h =
      ((f, e, inr (inr (inr (subst HasNotMoved (sym s) tt)))), h)
  status-Passes a f steps (some n) s e late h = elim (Bool-cases (leb executing n)) [
    | inl moved ↦
        rw moved (inr (inl ((f, e, late, subst HasMoved (sym s) (ground (arith, moved))), h)))
    | inr still ↦
        rw still ((f, e, inr (inr (inr (subst HasNotMoved (sym s) (ground (arith, still)))))), h)
  ]

  after_failure-Passes :
      (f : Failure) (steps : List Step)
      → Threw f steps
      → Passes steps (after_failure outside options f steps)
  after_failure-Passes f [] h = AllFailed-Passes [] (after_failure outside options f []) tt
  after_failure-Passes f (tried a ∷ steps) (inl h) =
      AllFailed-Passes (tried a ∷ steps) (after_failure outside options f (tried a ∷ steps)) h
  after_failure-Passes f (tried a ∷ steps) (inr (e, h)) =
      unfold after_failure in
      elim (Bool-cases (timed_out f)) [
        | inl late ↦
            rw late (status-Passes a f steps (outside.claim_status (tried a ∷ steps)) refl e late h)
        | inr other ↦ rw other ((f, e, inr (inr (inl other))), h)
      ]
  after_failure-Passes f (tried_fallback ∷ steps) h = absurd h

  -- However the outside answers, the attempt at a claim tries nothing after a transaction that
  -- landed: every step before the last one failed. Nor does it go on after a transaction that timed
  -- out and may have landed, if that is how the candidate ended and the claim on the chain has moved:
  -- a step before the last one failed by size or slippage, or by no timeout, or the claim had not
  -- moved. The fallback is only tried last, after all the transactions that were tried had failed in
  -- this way, and not before its time.
  pub try_candidates-IsOver :
      (cs : List Candidate) (steps : List Step)
      → AllFailed steps
      → IsOver (try_candidates outside options cs steps)
  unfolding try_candidates
  try_candidates-IsOver [] steps h = try_fallback-IsOver steps h
  try_candidates-IsOver (c ∷ cs) steps h =
      go (try_candidate outside options c steps) (try_candidate-Sound c steps h)
        (λ steps' k. try_candidates-IsOver cs steps' k)
    where
      verdict :
          (steps' : List Step) (v : Verdict)
          → Passes steps' v
          → (AllFailed steps' → IsOver (try_candidates outside options cs steps'))
          → IsOver (elim v [ returns ↦ steps' | next ↦ try_candidates outside options cs steps' ])
      verdict steps' returns here later = here
      verdict steps' next here later = later here

      go :
          (r : Ended × List Step)
          → Sound r
          → ((steps' : List Step)
              → AllFailed steps'
              → IsOver (try_candidates outside options cs steps'))
          → IsOver (elim (after_candidate outside options r) [
            | returns ↦ r.1
            | next ↦ try_candidates outside options cs r.1
          ])
      go (executed, steps') k rest = unfold after_candidate in Landed-IsOver steps' k
      go (threw f, steps') k rest =
          unfold after_candidate in
          verdict steps' (after_failure outside options f steps') (after_failure-Passes f steps' k)
            (rest steps')
      go (goes_on sized slippage, steps') k rest = unfold after_candidate in rest steps' k
