-- ===== src/Executor/Pass/Reached.antt =====
-- Which claims a pass of the executor reaches (`main` of crank/src/degenExecutor.ts), by the accounts
-- that are on the chain.
use winny.Base.{
  answered, ℕ, zero, suc, ◌<◌, ◌≡◌, ◌≢◌, ◌↔◌, refl, sym, subst, ap, ◌∙◌, false, Bool-cases, inl,
  inr, some, List, [], ◌∷◌, get_elem?, take, ◌==◌, if◌then◌else◌, arith,
}
use winny.Executor.Prepare.{vrf_ready}
use winny.Executor.Process.{World, Processed, skipped, rejected, worked, no_fuel}
use winny.Executor.Pass.{fetch_ready_claims, process_claim, go_on, process_claims, pass}

module _ {Account : Type 0} (status : Account → ℕ) where
  abbrev pub IsWaiting : Account → Type 0
  IsWaiting claim = status claim ≡ vrf_ready

  -- How many of the accounts wait for the executor.
  abbrev pub waiting : List Account → ℕ
  waiting [] = 0
  waiting (claim ∷ claims) =
      if status claim == vrf_ready then suc (waiting claims) else waiting claims

  waiting_first :
      (c : Account) (cs : List Account) → IsWaiting c → waiting (c ∷ cs) ≡ suc (waiting cs)
  waiting_first c cs h = ground (arith, h)

  waiting_other :
      (c : Account) (cs : List Account)
      → (status c == vrf_ready) ≡ false
      → waiting (c ∷ cs) ≡ waiting cs
  waiting_other c cs h = rw h refl

-- Two claims with their outcomes that are the same.
module _ {Account : Type 0} (c d : Account) (p r : Processed) where
  abbrev AreSame : Type 0
  AreSame = get_elem? {A = Account × Processed} ((c, p) ∷ []) 0 ≡ some (d, r)

  same_account : AreSame → c ≡ d
  same_account h = cc

  same_outcome : AreSame → p ≡ r
  same_outcome h = cc

  both_same : c ≡ d → p ≡ r → AreSame
  both_same h k = λ i. some (h i, k i)

module _ {Account Key Table : Type 0} (fuel : ℕ) (status : Account → ℕ) where
  -- If the j-th account waits, the work on it as the n-th of the pass does not end with an error.
  abbrev pub IsFine : (ℕ → Account → World Key Table) → List Account → ℕ → ℕ → Type 0
  IsFine world_of entries j n =
      (other : Account)
      → get_elem? entries j ≡ some other
      → IsWaiting status other
      → process_claim fuel status (world_of n other) other ≢ rejected

  -- The account is among the entries and waits for the executor; `i` others that wait are before it,
  -- and the work on none of those ends with an error; and the work on it comes to `r`.
  pub record IsReached (world_of : ℕ → Account → World Key Table) (entries : List Account) (i : ℕ)
      (claim : Account) (r : Processed) : Type 0 where
    pub place : ℕ
    pub at : get_elem? entries place ≡ some claim
    pub waits : IsWaiting status claim
    pub position : waiting status (take place entries) ≡ i
    pub outcome : process_claim fuel status (world_of i claim) claim ≡ r
    pub earlier : (j : ℕ) → j < place → IsFine world_of entries j (waiting status (take j entries))

  abbrev Agrees :
      List (Account × Processed) → (ℕ → Account → World Key Table) → List Account → Type 0
  Agrees reached world_of entries =
      (i : ℕ) (claim : Account) (r : Processed)
      → (get_elem? reached i ≡ some (claim, r)) ↔ IsReached world_of entries i claim r

  module _ (world_of : ℕ → Account → World Key Table) (c : Account) (entries : List Account) where
    -- The first account does not wait: it is passed over.
    module _ (other : (status c == vrf_ready) ≡ false) where
      over :
          {i : ℕ} {claim : Account} {r : Processed}
          → IsReached world_of entries i claim r
          → IsReached world_of (c ∷ entries) i claim r
      over h = record {
        place = suc h.place;
        at = h.at;
        waits = h.waits;
        position = waiting_other status c (take h.place entries) other ∙ h.position;
        outcome = h.outcome;
        earlier = earlier;
      }
        where
          earlier :
              (j : ℕ)
              → j < suc h.place
              → IsFine world_of (c ∷ entries) j (waiting status (take j (c ∷ entries)))
          earlier zero lt = λ d at waits.
              let first : IsWaiting status c =
                subst (IsWaiting status) {x = d} {y = c} (cc at) waits in
              absurd (ground (arith, other, first))
          earlier (suc j) lt =
              subst (IsFine world_of entries j)
                (sym (waiting_other status c (take j entries) other))
                (h.earlier j (omega (arith, lt)))

      not_over :
          (i : ℕ) (claim : Account) (r : Processed) (place : ℕ)
          → get_elem? (c ∷ entries) place ≡ some claim
          → IsWaiting status claim
          → waiting status (take place (c ∷ entries)) ≡ i
          → process_claim fuel status (world_of i claim) claim ≡ r
          → ((j : ℕ)
              → j < place
              → IsFine world_of (c ∷ entries) j (waiting status (take j (c ∷ entries))))
          → IsReached world_of entries i claim r
      not_over i claim r zero at waits position outcome earlier =
          let first : IsWaiting status c =
            subst (IsWaiting status) {x = claim} {y = c} (cc at) waits in
          absurd (ground (arith, other, first))
      not_over i claim r (suc place) at waits position outcome earlier = record {
        place = place;
        at = at;
        waits = waits;
        position = sym (waiting_other status c (take place entries) other) ∙ position;
        outcome = outcome;
        earlier = λ j lt.
            subst (IsFine world_of entries j) (waiting_other status c (take j entries) other)
              (earlier (suc j) (omega (arith, lt)));
      }

      passed_over :
          (reached : List (Account × Processed))
          → Agrees reached world_of entries
          → Agrees reached world_of (c ∷ entries)
      passed_over reached agree i claim r = (
        (λ e. over ((agree i claim r).0 e)),
        λ h.
            (agree i claim r).1
              (not_over i claim r h.place h.at h.waits h.position h.outcome h.earlier),
      )

    -- The first account waits.
    module _ (first : IsWaiting status c) where
      first_reached :
          (claim : Account) (r : Processed)
          → c ≡ claim
          → process_claim fuel status (world_of 0 c) c ≡ r
          → IsReached world_of (c ∷ entries) 0 claim r
      first_reached claim r same e = record {
        place = 0;
        at = ap some same;
        waits = subst (IsWaiting status) same first;
        position = refl;
        outcome = subst (λ d. process_claim fuel status (world_of 0 d) d ≡ r) same e;
        earlier = λ j lt. absurd (omega (arith, lt));
      }

      only_first :
          (claim : Account) (r : Processed) (place : ℕ)
          → get_elem? (c ∷ entries) place ≡ some claim
          → waiting status (take place (c ∷ entries)) ≡ 0
          → process_claim fuel status (world_of 0 claim) claim ≡ r
          → (c ≡ claim) × (process_claim fuel status (world_of 0 c) c ≡ r)
      only_first claim r zero at position outcome =
          let same : c ≡ claim = cc at in
          (same, ap (λ d. process_claim fuel status (world_of 0 d) d) same ∙ outcome)
      only_first claim r (suc place) at position outcome =
          absurd (omega (arith, position, waiting_first status c (take place entries) first))

      later :
          {i : ℕ} {claim : Account} {r : Processed}
          → process_claim fuel status (world_of 0 c) c ≢ rejected
          → IsReached (λ n. world_of (suc n)) entries i claim r
          → IsReached world_of (c ∷ entries) (suc i) claim r
      later fine h = record {
        place = suc h.place;
        at = h.at;
        waits = h.waits;
        position = waiting_first status c (take h.place entries) first ∙ ap suc h.position;
        outcome = h.outcome;
        earlier = earlier;
      }
        where
          earlier :
              (j : ℕ)
              → j < suc h.place
              → IsFine world_of (c ∷ entries) j (waiting status (take j (c ∷ entries)))
          earlier zero lt = λ d at waits.
              subst (λ e. process_claim fuel status (world_of 0 e) e ≢ rejected) {x = c} {y = d}
                (cc at) fine
          earlier (suc j) lt =
              subst (IsFine world_of entries j)
                (sym (waiting_first status c (take j entries) first))
                (h.earlier j (omega (arith, lt)))

      not_first :
          (i : ℕ) (claim : Account) (r : Processed) (place : ℕ)
          → get_elem? (c ∷ entries) place ≡ some claim
          → IsWaiting status claim
          → waiting status (take place (c ∷ entries)) ≡ suc i
          → process_claim fuel status (world_of (suc i) claim) claim ≡ r
          → ((j : ℕ)
              → j < place
              → IsFine world_of (c ∷ entries) j (waiting status (take j (c ∷ entries))))
          → (process_claim fuel status (world_of 0 c) c ≢ rejected)
            × IsReached (λ n. world_of (suc n)) entries i claim r
      not_first i claim r zero at waits position outcome earlier = absurd (omega (arith, position))
      not_first i claim r (suc place) at waits position outcome earlier = (
        earlier 0 (omega arith) c refl first,
        record {
          place = place;
          at = at;
          waits = waits;
          position = omega (arith, position, waiting_first status c (take place entries) first);
          outcome = outcome;
          earlier = λ j lt.
              subst (IsFine world_of entries j) (waiting_first status c (take j entries) first)
                (earlier (suc j) (omega (arith, lt)));
        },
      )

      goes_on :
          (p : Processed) (reached : List (Account × Processed))
          → process_claim fuel status (world_of 0 c) c ≡ p
          → p ≢ rejected
          → Agrees reached (λ n. world_of (suc n)) entries
          → Agrees ((c, p) ∷ reached) world_of (c ∷ entries)
      goes_on p reached e fine agree zero claim r = (
        (λ h. first_reached claim r (same_account c claim p r h) (e ∙ same_outcome c claim p r h)),
        λ h.
            let (same, comes) = only_first claim r h.place h.at h.position h.outcome in
            both_same c claim p r same (sym e ∙ comes),
      )
      goes_on p reached e fine agree (suc i) claim r = (
        (λ h. later (λ bad. fine (sym e ∙ bad)) ((agree i claim r).0 h)),
        λ h.
            (agree i claim r).1
              (not_first i claim r h.place h.at h.waits h.position h.outcome h.earlier).1,
      )

      stops :
          process_claim fuel status (world_of 0 c) c ≡ rejected
          → Agrees ((c, rejected) ∷ []) world_of (c ∷ entries)
      stops e zero claim r = (
        (λ h.
            first_reached claim r (same_account c claim rejected r h)
              (e ∙ same_outcome c claim rejected r h)),
        λ h.
            let (same, comes) = only_first claim r h.place h.at h.position h.outcome in
            both_same c claim rejected r same (sym e ∙ comes),
      )
      stops e (suc i) claim r = (
        (λ h. cc),
        λ h. absurd ((not_first i claim r h.place h.at h.waits h.position h.outcome h.earlier).0 e),
      )

      go_on-Agrees :
          (p : Processed) (reached : List (Account × Processed))
          → process_claim fuel status (world_of 0 c) c ≡ p
          → Agrees reached (λ n. world_of (suc n)) entries
          → Agrees (go_on c p reached) world_of (c ∷ entries)
      go_on-Agrees rejected reached e agree = stops e
      go_on-Agrees skipped reached e agree = goes_on skipped reached e (λ h. cc) agree
      go_on-Agrees no_fuel reached e agree = goes_on no_fuel reached e (λ h. cc) agree
      go_on-Agrees (worked steps) reached e agree = goes_on (worked steps) reached e (λ h. cc) agree

  process_claims-Agrees :
      (world_of : ℕ → Account → World Key Table) (entries : List Account)
      → Agrees
          (process_claims fuel status world_of (fetch_ready_claims status entries))
          world_of
          entries
  unfolding process_claims fetch_ready_claims
  process_claims-Agrees world_of [] =
      λ i claim r. ((λ e. cc), λ h. absurd (none_at claim h.place h.at))
    where
      none_at : (claim : Account) (place : ℕ) → get_elem? {A = Account} [] place ≡ some claim → ⊥
      none_at claim place at = cc
  process_claims-Agrees world_of (c ∷ entries) = elim (Bool-cases (status c == vrf_ready)) [
    | inl waits ↦ rw waits (
        go_on-Agrees world_of c entries (ground (arith, waits)) _ _ refl
          (process_claims-Agrees (λ n. world_of (suc n)) entries))
    | inr other ↦
        rw other (passed_over world_of c entries other _ (process_claims-Agrees world_of entries))
  ]

  -- Where the accounts are fetched: the i-th claim that a pass works on is `claim`, and the work on it
  -- comes to `r`, just where `claim` is one of the accounts, has the status VrfReady, `i` accounts
  -- before it have that status, the work on it as the i-th comes to `r`, and the work on none of those
  -- before it ends with an error.
  pub pass-reaches_iff :
      (world_of : ℕ → Account → World Key Table) (entries : List Account) (i : ℕ) (claim : Account)
      (r : Processed)
      → (get_elem? (pass fuel status world_of (answered entries)) i ≡ some (claim, r))
        ↔ IsReached world_of entries i claim r
  unfolding pass
  pass-reaches_iff world_of entries i claim r = process_claims-Agrees world_of entries i claim r
