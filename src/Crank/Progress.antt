-- ===== src/Crank/Progress.antt =====
-- How the service goes from round to round.
use winny.Base.{
  ℕ, zero, suc, ◌+◌, ◌≤◌, ◌<◌, ◌≡◌, ◌≢◌, refl, ◌⊎◌, inl, inr, true, List, arith, contains,
  contains-add, contains-remove,
}
use native.Mathlib.Decide.{ℕ_discrete}
use winny.Crank.{World, Crank, Event, Transaction, initial_crank}
use winny.Crank.Background.{
  clear_background_round, apply_retry_update, track_background_round, add_to_background,
  set_next_attempt, start_backoff,
}
use winny.Crank.Rounds.{next_round, mark_created, mark_locked, mark_vrf_sent}
use winny.Crank.Tick.{tick, run}
use winny.Crank.Hoare.{
  Triple, Triple-pure, Triple-gets, Triple-modify, Triple-bind, Triple-if, Triple-now,
}
use winny.Crank.Stable.{IsStable}
use winny.Crank.Passes.{ServingRules}
use winny.Crank.Handlers.{PlayingRules}
use winny.Crank.Rules.{play_round-Left, tick-Left, process_background_rounds-Keeps}

-- Round `i` is in play, and no round was added to the background `b`.
abbrev pub InPlay : {Key : Type 0} → ℕ → List ℕ → Crank Key → Type 0
InPlay i b s =
    (s.current_round_id ≡ i)
    × ((j : ℕ) → contains j s.background_rounds ≡ true → contains j b ≡ true)

-- Round `i` was left to the background, the next one is in play, and no other was added.
abbrev pub Moved : {Key : Type 0} → ℕ → List ℕ → Crank Key → Type 0
Moved i b s =
    (s.current_round_id ≡ suc i)
    × (contains i s.background_rounds ≡ true)
    × ((j : ℕ) → j ≢ i → contains j s.background_rounds ≡ true → contains j b ≡ true)

abbrev pub Stepped : {Key : Type 0} → ℕ → List ℕ → Crank Key → Type 0
Stepped i b s = InPlay i b s ⊎ Moved i b s

module _ {Key : Type 0} (w : World Key) (i : ℕ) (b : List ℕ) where
  InPlay-stable : IsStable {Key = Key} (InPlay i b)
  InPlay-stable = record {
    answered = λ s h. h;
    observed = unfold winny.Crank.Observe.observed_at in λ j k t s h. h;
    warned = λ m s h. h;
    logged = λ t s h. h;
    vrf_sent = unfold mark_vrf_sent in λ t s h. h;
    noted = λ e s quiet h. h;
  }

  Stepped-stable : IsStable {Key = Key} (Stepped i b)
  Stepped-stable = record {
    answered = λ s h. h;
    observed = unfold winny.Crank.Observe.observed_at in λ j k t s h. h;
    warned = λ m s h. h;
    logged = λ t s h. h;
    vrf_sent = unfold mark_vrf_sent in λ t s h. h;
    noted = λ e s quiet h. h;
  }

  Serving-InPlay : (j : ℕ) → ServingRules {Key = Key} j (InPlay i b) (InPlay i b)
  Serving-InPlay j = record {
    stable = InPlay-stable;
    retried = unfold apply_retry_update in λ u s h. h;
    counted = λ v s h. h;
    archived = λ s h. h;
    cleared =
        unfold clear_background_round in
        λ s (e, h).
          (e, λ k k_in. h k (ground (arith, k_in, contains-remove j k s.background_rounds)));
    served = λ s h. h;
    closing = λ user s h. h;
    closing_round = λ rd s terminal h noted. h;
    confirming = λ tx s h. h;
  }

  -- Round `i` was added, and is still in play.
  Leaving : Crank Key → Type 0
  Leaving s =
      (s.current_round_id ≡ i)
      × (contains i s.background_rounds ≡ true)
      × ((j : ℕ) → j ≢ i → contains j s.background_rounds ≡ true → contains j b ≡ true)

  track_background_round-Leaving :
      Triple
        (InPlay i b)
        (track_background_round w i)
        (λ _ s. Stepped i b (next_round s))
        (Stepped i b)
  unfolding track_background_round add_to_background set_next_attempt start_backoff next_round
      Leaving
  track_background_round-Leaving =
      Triple-bind {Q = λ _. Leaving} _ _
        (Triple-modify _ (λ s (e, h). (
          e,
          ground (arith, contains-add i i s.background_rounds),
          λ j apart j_in. h j (ground (arith, apart, j_in, contains-add i j s.background_rounds)),
        )))
        (λ done. Triple-bind {Q = λ _. Leaving} _ _ (Triple-gets _ (λ s h. h)) (λ scheduled.
          Triple-bind {Q = λ _. Leaving} _ _
            (Triple-if scheduled _ _ (λ e. Triple-pure tt (λ s h. h))
              (λ e.
                Triple-bind {Q = λ _. Leaving} _ _ (Triple-now w (λ t s h. h))
                  (λ t. Triple-modify _ (λ s h. h))))
            (λ done'.
              Triple-modify _ (λ s (e, here, others). inr (omega (arith, e), here, others)))))

  Playing-InPlay : PlayingRules w i (InPlay i b) (Stepped i b)
  Playing-InPlay = record {
    stable = InPlay-stable;
    stable_after = Stepped-stable;
    stayed = λ s h. inl h;
    created = unfold mark_created in λ s h. h;
    locked_by = unfold mark_locked in λ s h. h;
    left = track_background_round-Leaving;
    starting = λ s h noted. h;
    locking = λ rd s opened filled h noted. h;
    requesting = λ rd s is_locked h noted. h;
    confirming = λ tx s h. h;
  }

module _ {Key : Type 0} (w : World Key) where
  -- A pass, whatever the outside answers, keeps the round in play, or leaves it to the background
  -- and goes on to the next one; no other round is added to the background.
  pub tick-Stepped : (s : Crank Key) → Stepped s.current_round_id s.background_rounds (tick w s).1
  tick-Stepped s =
      tick-Left w (Stepped-stable w i b) (λ t h. inl h)
        (process_background_rounds-Keeps w (Serving-InPlay w i b))
        (record { at = λ t h. (play_round-Left w i (Playing-InPlay w i b)).at t (h, h.0) }) s
        (refl, λ j e. e)
    where
      i : ℕ
      i = s.current_round_id

      b : List ℕ
      b = s.background_rounds

  -- A run of passes never goes back to an earlier round, and goes on by one round a pass at most.
  pub run-current_bounds :
      (n : ℕ) (s : Crank Key)
      → (s.current_round_id ≤ (run w n s).current_round_id)
        × ((run w n s).current_round_id ≤ s.current_round_id + n)
  unfolding run
  run-current_bounds zero s = (omega arith, omega arith)
  run-current_bounds (suc n) s = elim (tick-Stepped s) [
    | inl h ↦
        let rest = run-current_bounds n (tick w s).1 in
        (omega (arith, rest.0, h.0), omega (arith, rest.1, h.0))
    | inr h ↦
        let rest = run-current_bounds n (tick w s).1 in
        (omega (arith, rest.0, h.0), omega (arith, rest.1, h.0))
  ]

  -- No round is passed over: each one that a run of passes has left behind was in the background
  -- after one of its passes.
  pub run-left_behind :
      (n : ℕ) (s : Crank Key) (i : ℕ)
      → s.current_round_id ≤ i
      → i < (run w n s).current_round_id
      → (m : ℕ) × (m ≤ n) × (contains i (run w m s).background_rounds ≡ true)
  unfolding run
  run-left_behind zero s i lo hi = absurd (omega (arith, lo, hi))
  run-left_behind (suc n) s i lo hi = elim (tick-Stepped s) [
    | inl h ↦ later (run-left_behind n (tick w s).1 i (omega (arith, h.0, lo)) hi)
    | inr h ↦ elim (ℕ_discrete i s.current_round_id) [
      | yes e ↦ (1, omega arith, rw e h.1)
      | no apart ↦ later (run-left_behind n (tick w s).1 i (omega (arith, h.0, lo, apart)) hi)
    ]
  ]
    where
      later :
          (m : ℕ) × (m ≤ n) × (contains i (run w m (tick w s).1).background_rounds ≡ true)
          → (m : ℕ) × (m ≤ suc n) × (contains i (run w m s).background_rounds ≡ true)
      later (m, le, e) = (suc m, omega (arith, le), e)

  -- The rounds in the background are never ahead of the round in play, if they were not at first.
  pub run-behind :
      (n : ℕ) (s : Crank Key)
      → ((j : ℕ) → contains j s.background_rounds ≡ true → j ≤ s.current_round_id)
      → (j : ℕ) → contains j (run w n s).background_rounds ≡ true
      → j ≤ (run w n s).current_round_id
  unfolding run
  run-behind zero s behind = behind
  run-behind (suc n) s behind = run-behind n (tick w s).1 (elim (tick-Stepped s) [
    | inl h ↦ λ j j_in. omega (arith, h.0, behind j (h.1 j j_in))
    | inr h ↦ λ j j_in. elim (ℕ_discrete j s.current_round_id) [
      | yes e ↦ omega (arith, e, h.0)
      | no apart ↦ omega (arith, h.0, behind j (h.2 j apart j_in))
    ]
  ])
