-- ===== src/Executor/Tried.antt =====
-- Which candidates the attempts at a claim are for.
use winny.Base.{
  ℕ, Bool, true, false, not, ◌&&◌, Option, none, some, List, [], ◌∷◌, map, ltb, if◌then◌else◌,
}
use winny.Degen.{Candidate}
use winny.Degen.Errors.{is_tx_too_large_error, is_slippage_error}
use winny.Executor.{
  Attempt, Step, tried, tried_fallback, Failure, Sent, landed, failed, MintCheck, bad_mint,
  no_route, has_route, Outside, Options, sized_error, direct_route_error, Ended, executed, threw,
  goes_on, Verdict, returns, next, try_accounts, try_direct_route, after_accounts, try_slippages,
  try_candidate, after_candidate, try_fallback, try_candidates,
}

module _ (outside : Outside) (options : Options) (P : Candidate → Type 0) where
  -- Every transaction in the list was for a candidate with the property.
  abbrev pub AllFor : List Step → Type 0
  AllFor [] = Unit
  AllFor (tried a ∷ steps) = P a.candidate × AllFor steps
  AllFor (tried_fallback ∷ steps) = AllFor steps

  abbrev Kept : Ended × List Step → Type 0
  Kept (ended, steps) = AllFor steps

  either : (b : Bool) (x y : Ended × List Step) → Kept x → Kept y → Kept (if b then x else y)
  either true x y p q = p
  either false x y p q = q

  try_accounts-AllFor :
      (c : Candidate) (direct : Bool) (slip : Option ℕ) (ns : List (Option ℕ))
      (sized slippage : Option Failure) (steps : List Step)
      → P c
      → AllFor steps
      → Kept (try_accounts outside options c direct slip ns sized slippage steps)
  unfolding try_accounts
  try_accounts-AllFor c direct slip [] sized slippage steps p h = h
  try_accounts-AllFor c direct slip (n ∷ ns) sized slippage steps p h =
      go (outside.send steps a) (λ f k.
        try_accounts-AllFor c direct slip ns (some (sized_error f n)) slippage (tried a ∷ steps) p
          k)
    where
      a : Attempt
      a = record {
        candidate = c;
        max_accounts = n;
        only_direct_routes = false;
        slippage_bps = slip;
      }

      go :
          (r : Sent)
          → ((f : Failure)
              → AllFor (tried a ∷ steps)
              → Kept (
                  try_accounts outside options c direct slip ns
                    (some (sized_error f n))
                    slippage
                    (tried a ∷ steps)))
          → Kept (elim r [
            | landed ↦ (executed, tried a ∷ steps)
            | failed f ↦
                if is_tx_too_large_error f.message && not direct
                then try_accounts outside options c direct slip ns
                    (some (sized_error f n))
                    slippage
                    (tried a ∷ steps)
                else if is_slippage_error f.message
                then (goes_on sized (some f), tried a ∷ steps)
                else (threw f, tried a ∷ steps)
          ])
      go landed rest = (p, h)
      go (failed f) rest =
          either (is_tx_too_large_error f.message && not direct) _ _ (rest f (p, h))
            (either (is_slippage_error f.message) _ _ (p, h) (p, h))

  try_direct_route-AllFor :
      (c : Candidate) (slip : Option ℕ) (sized slippage : Option Failure) (steps : List Step)
      → P c
      → AllFor steps
      → Kept (try_direct_route outside options c slip sized slippage steps)
  unfolding try_direct_route
  try_direct_route-AllFor c slip sized slippage steps p h = go (outside.send steps a)
    where
      a : Attempt
      a = record {
        candidate = c;
        max_accounts = some 20;
        only_direct_routes = true;
        slippage_bps = slip;
      }

      go :
          (r : Sent)
          → Kept (elim r [
            | landed ↦ (executed, tried a ∷ steps)
            | failed f ↦
                if is_tx_too_large_error f.message
                then (goes_on (some (direct_route_error f)) slippage, tried a ∷ steps)
                else if is_slippage_error f.message
                then (goes_on sized (some f), tried a ∷ steps)
                else (threw f, tried a ∷ steps)
          ])
      go landed = (p, h)
      go (failed f) =
          either (is_tx_too_large_error f.message) _ _ (p, h)
            (either (is_slippage_error f.message) _ _ (p, h) (p, h))

  after_accounts-AllFor :
      (c : Candidate) (direct : Bool) (slip : Option ℕ) (r : Ended × List Step)
      → P c
      → Kept r
      → Kept (after_accounts outside options c direct slip r)
  unfolding after_accounts
  after_accounts-AllFor c direct slip (executed, steps) p h = h
  after_accounts-AllFor c direct slip (threw f, steps) p h = h
  after_accounts-AllFor c direct slip (goes_on none slippage, steps) p h = h
  after_accounts-AllFor c direct slip (goes_on (some f) slippage, steps) p h =
      either direct _ _ h (try_direct_route-AllFor c slip (some f) slippage steps p h)

  try_slippages-AllFor :
      (c : Candidate) (direct : Bool) (slips accounts : List (Option ℕ))
      (sized slippage : Option Failure) (steps : List Step)
      → P c
      → AllFor steps
      → Kept (try_slippages outside options c direct slips accounts sized slippage steps)
  unfolding try_slippages
  try_slippages-AllFor c direct [] accounts sized slippage steps p h = h
  try_slippages-AllFor c direct (slip ∷ slips) accounts sized slippage steps p h =
      go
        (after_accounts outside options c direct slip
          (try_accounts outside options c direct slip accounts none slippage steps))
        (after_accounts-AllFor c direct slip
          (try_accounts outside options c direct slip accounts none slippage steps) p
          (try_accounts-AllFor c direct slip accounts none slippage steps p h))
        (λ sized' slippage' steps' k.
          try_slippages-AllFor c direct slips accounts sized' slippage' steps' p k)
    where
      go :
          (r : Ended × List Step)
          → Kept r
          → ((sized' slippage' : Option Failure) (steps' : List Step)
              → AllFor steps'
              → Kept
                  (try_slippages outside options c direct slips accounts sized' slippage' steps'))
          → Kept (elim r.0 [
            | executed ↦ (executed, r.1)
            | threw f ↦ (threw f, r.1)
            | goes_on sized' slippage' ↦
                try_slippages outside options c direct slips accounts sized' slippage' r.1
          ])
      go (executed, steps') k rest = k
      go (threw f, steps') k rest = k
      go (goes_on sized' slippage', steps') k rest = rest sized' slippage' steps' k

  try_candidate-AllFor :
      (c : Candidate) (steps : List Step)
      → P c
      → AllFor steps
      → Kept (try_candidate outside options c steps)
  unfolding try_candidate
  try_candidate-AllFor c steps p h =
      either (options.is_usdc c) _ _
        (try_slippages-AllFor c true (none ∷ []) (none ∷ []) none none steps p h)
        (go (outside.check_mint steps c))
    where
      go :
          (m : MintCheck)
          → Kept (elim m [
            | bad_mint f ↦ (threw f, steps)
            | no_route ↦ (goes_on none none, steps)
            | has_route ↦
                try_slippages outside options c false
                  (map some options.slippage_sequence)
                  (map some options.max_accounts_sequence)
                  none
                  none
                  steps
          ])
      go (bad_mint f) = h
      go no_route = h
      go has_route = try_slippages-AllFor c false _ _ none none steps p h

  abbrev pub EachHas : List Candidate → Type 0
  EachHas [] = Unit
  EachHas (c ∷ cs) = P c × EachHas cs

  try_fallback-AllFor :
      (steps : List Step) → AllFor steps → AllFor (try_fallback outside options steps)
  unfolding try_fallback
  try_fallback-AllFor steps h = go (ltb (outside.clock steps) options.fallback_after_ts)
    where
      go : (b : Bool) → AllFor (if b then steps else tried_fallback ∷ steps)
      go true = h
      go false = h

  pub try_candidates-AllFor :
      (cs : List Candidate) (steps : List Step)
      → EachHas cs
      → AllFor steps
      → AllFor (try_candidates outside options cs steps)
  unfolding try_candidates
  try_candidates-AllFor [] steps each h = try_fallback-AllFor steps h
  try_candidates-AllFor (c ∷ cs) steps (p, each) h =
      verdict (after_candidate outside options (try_candidate outside options c steps))
        (Kept-steps (try_candidate outside options c steps) (try_candidate-AllFor c steps p h))
        (λ k. try_candidates-AllFor cs (try_candidate outside options c steps).1 each k)
    where
      Kept-steps : (r : Ended × List Step) → Kept r → AllFor r.1
      Kept-steps (ended, steps') k = k

      verdict :
          (v : Verdict)
          → AllFor (try_candidate outside options c steps).1
          → (AllFor (try_candidate outside options c steps).1
              → AllFor
                  (try_candidates outside options cs (try_candidate outside options c steps).1))
          → AllFor (elim v [
            | returns ↦ (try_candidate outside options c steps).1
            | next ↦ try_candidates outside options cs (try_candidate outside options c steps).1
          ])
      verdict returns k rest = k
      verdict next k rest = rest k
