-- ===== src/Crank/Tracking/Ticks.antt =====
-- A pass of the service, and any run of passes, keeps the bookkeeping.
use winny.Base.{
  ℕ, zero, suc, ◌≡◌, refl, true, false, List, [], ◌∷◌, arith, Distinct, contains, contains-cons,
  contains_empty, lookup_empty,
}
use winny.Text.{JsString}
use winny.Crank.{World, Crank, ParticipantCleanupStats, gets, ◌>>=◌, initial_crank, fetch_round}
use winny.Crank.Cleanup.{process_background_round, process_rounds, process_background_rounds}
use winny.Crank.Rounds.{next_round}
use winny.Crank.Tick.{play_round, tick, run}
use winny.Crank.Hoare.{Triple, Keeps, Triple-pure, Triple-bind, Triple-weaken}
use winny.Crank.Handlers.{PlayingRules}
use winny.Crank.Startup.{start_service}
use winny.Crank.Recovery.{start_service-Keeps}
use winny.Crank.Rules.{play_round-Left, tick-Left, Post-state}
use winny.Crank.Passes.{process_background_round-Served}
use winny.Crank.Tracking.{IsTracked}
use winny.Crank.Tracking.Actions.{
  Others, Serving, Serving-rules, IsTracked-stable, track_background_round-IsTracked,
}

-- The rounds of a list are in the background.
abbrev pub AllIn : {Key : Type 0} → List ℕ → Crank Key → Type 0
AllIn rounds s = (j : ℕ) → contains j rounds ≡ true → contains j s.background_rounds ≡ true

AllIn-rest :
    {Key : Type 0} (i : ℕ) (rest : List ℕ) (s t : Crank Key)
    → contains i rest ≡ false
    → AllIn (i ∷ rest) s
    → Others i s.background_rounds t
    → AllIn rest t
AllIn-rest i rest s t apart all others j e =
    ground (arith, contains-cons j i rest, apart, all j, others j)

module _ {Key : Type 0} (w : World Key) where
  process_rounds-IsTracked :
      (rounds : List ℕ)
      → Distinct rounds
      → Triple
          (λ s. IsTracked s × AllIn rounds s)
          (process_rounds w rounds)
          (λ _. IsTracked)
          IsTracked
  unfolding process_rounds
  process_rounds-IsTracked [] distinct = Triple-pure tt (λ s h. h.0)
  process_rounds-IsTracked (i ∷ rest) distinct =
      Triple-bind {Q = λ _ s. IsTracked s × AllIn rest s} _ _
        (record {
          at = λ s h.
              (serve s h).at s (h.0, ground (arith, contains-cons i i rest, h.1 i), λ j e. refl);
        })
        (λ done. process_rounds-IsTracked rest distinct.1)
    where
      serve :
          (s : Crank Key)
          → IsTracked s × AllIn (i ∷ rest) s
          → Triple
              (Serving i s.background_rounds)
              (process_background_round w i)
              (λ _ t. IsTracked t × AllIn rest t)
              IsTracked
      serve s h =
          Triple-weaken _ (λ t k. k) (λ done t k. (k.0, AllIn-rest i rest s t distinct.0 h.1 k.1))
            (λ t k. k.0)
            (process_background_round-Served w i (Serving-rules w i s.background_rounds))

  process_background_rounds-IsTracked : Keeps IsTracked (process_background_rounds w)
  unfolding process_background_rounds ◌>>=◌ gets
  process_background_rounds-IsTracked = record {
    at = λ s h. (process_rounds-IsTracked s.background_rounds h.distinct).at s (h, λ j e. e);
  }

  next_round-IsTracked : (s : Crank Key) → IsTracked s → IsTracked (next_round s)
  unfolding next_round
  next_round-IsTracked s h = h

  Playing-rules : (i : ℕ) → PlayingRules w i IsTracked IsTracked
  Playing-rules i = record {
    stable = IsTracked-stable w;
    stable_after = IsTracked-stable w;
    stayed = λ s h. h;
    created = unfold winny.Crank.Rounds.mark_created in λ s h. h;
    locked_by = unfold winny.Crank.Rounds.mark_locked in λ s h. h;
    left =
        Triple-weaken {Q = λ _. IsTracked} _ (λ s h. h) (λ done. next_round-IsTracked) (λ s h. h)
          (track_background_round-IsTracked w i);
    starting = λ s h noted. h;
    locking = λ rd s is_open filled h noted. h;
    requesting = λ rd s is_locked h noted. h;
    confirming = λ tx s h. h;
  }

  -- A pass keeps the bookkeeping, whatever the outside answers and wherever an error is thrown.
  pub tick-IsTracked : (s : Crank Key) → IsTracked s → IsTracked (tick w s).1
  tick-IsTracked s h =
      tick-Left w (IsTracked-stable w) (λ s h. h) process_background_rounds-IsTracked play s h
    where
      play : Triple IsTracked (play_round w) (λ _. IsTracked) IsTracked
      play = record {
        at = λ s h.
            (play_round-Left w s.current_round_id (Playing-rules s.current_round_id)).at s
              (h, refl);
      }

  initial-IsTracked : IsTracked {Key = Key} initial_crank
  initial-IsTracked = record {
    due = λ j. ground (arith, contains_empty j, lookup_empty {V = ℕ} j);
    backoff = λ j. ground (arith, contains_empty j, lookup_empty {V = ℕ} j);
    count = λ j. ground (arith, contains_empty j, lookup_empty {V = ℕ} j);
    reason = λ j e. ground (arith, lookup_empty {V = JsString} j);
    stats = λ j e. ground (arith, lookup_empty {V = ParticipantCleanupStats × ℕ} j);
    archived = λ j e. e;
    distinct = tt;
  }

  run-IsTracked : (n : ℕ) (s : Crank Key) → IsTracked s → IsTracked (run w n s)
  unfolding run
  run-IsTracked zero s h = h
  run-IsTracked (suc n) s h = run-IsTracked n _ (tick-IsTracked s h)

  -- After any number of passes, from the start of the service on, the rounds in the background are
  -- without repetitions, exactly they have a next attempt, a backoff and a retry count, and only
  -- they have a last reason, last figures and an archive mark.
  pub service-IsTracked :
      (current n : ℕ) → IsTracked (run w n (start_service w current initial_crank).1)
  service-IsTracked current n = run-IsTracked n _ (
      Post-state IsTracked (start_service w current initial_crank)
        (start.at initial_crank initial-IsTracked))
    where
      start : Keeps IsTracked (start_service w current)
      start =
          start_service-Keeps w (IsTracked-stable w) (track_background_round-IsTracked w) current
            (λ s h. h)
