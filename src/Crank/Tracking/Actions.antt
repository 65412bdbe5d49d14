-- ===== src/Crank/Tracking/Actions.antt =====
-- The actions on one background round, against the bookkeeping.
use winny.Base.{ℕ, ◌≡◌, ◌≢◌, refl, ◌∙◌, true, List, arith, has_key, contains, contains-remove}
use winny.Crank.{
  World, Crank, Action, Event, Transaction, pure, ◌>>=◌, ◌>>◌, gets, modify, now, answered,
  sign_and_send, emit, from_answer, ParticipantCleanupStats, archived,
}
use winny.Crank.Background.{clear_background_round, apply_retry_update, track_background_round}
use winny.Crank.Hoare.{
  Triple, Triple-pure, Triple-gets, Triple-modify, Triple-bind, Triple-if, Triple-now,
}
use winny.Crank.Stable.{IsStable}
use winny.Crank.Passes.{ServingRules}
use winny.Crank.Tracking.{
  IsTracked, IsTracked-stats, IsTracked-archived, IsTracked-clear, IsTracked-retry, IsAdded,
  IsAdded-add, IsAdded-next_attempt, has-next_attempt, IsTracked-start_backoff,
}

module _ {Key : Type 0} (w : World Key) where
  pub IsTracked-stable : IsStable {Key = Key} IsTracked
  IsTracked-stable = record {
    answered = λ s h. h;
    observed = unfold winny.Crank.Observe.observed_at in λ i k t s h. h;
    warned = λ m s h. h;
    logged = λ t s h. h;
    vrf_sent = unfold winny.Crank.Rounds.mark_vrf_sent in λ t s h. h;
    noted = λ e s q h. h;
  }

  -- A round that is put into the background has all its entries.
  pub track_background_round-IsTracked :
      (i : ℕ) → Triple IsTracked (track_background_round w i) (λ _ s. IsTracked s) IsTracked
  unfolding track_background_round
  track_background_round-IsTracked i =
      Triple-bind {Q = λ _ s. IsAdded i s} _ _ (Triple-modify _ (IsAdded-add i)) (λ done.
        Triple-bind {Q = λ b s. IsAdded i s × (has_key i s.cleanup_next_attempt_at ≡ b)} _ _
          (Triple-gets _ (λ s h. (h, refl)))
          (λ scheduled.
            Triple-bind {Q = λ _ s. IsAdded i s × (has_key i s.cleanup_next_attempt_at ≡ true)} _ _
              (Triple-if scheduled _ _ (λ e. Triple-pure tt (λ s h. (h.0, h.1 ∙ e)))
                (λ e. Triple-bind {Q = λ t s. IsAdded i s} _ _ (Triple-now w (λ t s h. h.0)) (λ t.
                  Triple-modify _ (λ s h. (IsAdded-next_attempt i _ s h, has-next_attempt i _ s)))))
              (λ done'. Triple-modify _ (λ s h. IsTracked-start_backoff i _ s h.0 h.1))))

module _ {Key : Type 0} where
  -- The other rounds are in the background where they are in `rounds`.
  abbrev pub Others : ℕ → List ℕ → Crank Key → Type 0
  Others i rounds s = (j : ℕ) → j ≢ i → contains j s.background_rounds ≡ contains j rounds

  -- Round `i` of those in `rounds` is being served, and stays in the background.
  abbrev pub Serving : ℕ → List ℕ → Crank Key → Type 0
  Serving i rounds s = IsTracked s × (contains i s.background_rounds ≡ true) × Others i rounds s

  -- It was served, and may be gone.
  abbrev pub Served : ℕ → List ℕ → Crank Key → Type 0
  Served i rounds s = IsTracked s × Others i rounds s

module _ {Key : Type 0} (w : World Key) (i : ℕ) (rounds : List ℕ) where
  pub Serving-stable : IsStable {Key = Key} (Serving i rounds)
  Serving-stable = record {
    answered = λ s h. h;
    observed = unfold winny.Crank.Observe.observed_at in λ i k t s h. h;
    warned = λ m s h. h;
    logged = λ t s h. h;
    vrf_sent = unfold winny.Crank.Rounds.mark_vrf_sent in λ t s h. h;
    noted = λ e s q h. h;
  }

  -- Serving round `i` follows the rules, so the bookkeeping survives it.
  pub Serving-rules : ServingRules {Key = Key} i (Serving i rounds) (Served i rounds)
  Serving-rules = record {
    stable = Serving-stable;
    retried = λ u s (t, here, others). (
      IsTracked-retry i u s here t,
      unfold apply_retry_update in here,
      unfold apply_retry_update in others,
    );
    counted = λ v s (t, here, others). (IsTracked-stats i v s here t, here, others);
    archived = λ s (t, here, others). (IsTracked-archived i s here t, here, others);
    cleared = λ s (t, here, others). (
      IsTracked-clear i s t,
      unfold clear_background_round in
          λ j e. ground (arith, others j e, contains-remove i j s.background_rounds),
    );
    served = λ s (t, here, others). (t, others);
    closing = λ user s h. h;
    closing_round = λ rd s terminal h noted. h;
    confirming = λ tx s h. h;
  }
