-- ===== src/Crank/Rules.antt =====
-- What a pass of the service keeps and establishes, from what its handlers and its cleanup do.
use winny.Base.{ℕ, ◌≡◌, sym, subst, ◌||◌, Option, none, some, List, [], ◌∷◌, length, ltb, ◌==◌}
use winny.RoundStatus.{open_round, locked, vrf_requested, settled}
use winny.Accounts.Crank.{RoundData}
use winny.Crank.{
  World, Crank, Action, Outcome, returned, thrown, pure, ◌>>=◌, ◌>>◌, gets, modify, fetch_round,
}
use winny.Crank.Cleanup.{is_terminal_status, process_rounds, process_background_rounds}
use winny.Crank.Rounds.{next_round}
use winny.Crank.Tick.{leave_round, act_on_status, act_on_round, play_round, tick}
use winny.Crank.Hoare.{
  Post, Triple, Keeps, Triple-pure, Triple-gets, Triple-modify, Triple-bind, Triple-try, Triple-if,
  Triple-when, Triple-weaken,
}
use winny.Crank.Stable.{
  IsStable, fetch_round-Keeps, observe_round_state-Keeps, maybe_warn_stuck_round-Keeps,
  maybe_log_health_snapshot-Keeps,
}
use winny.Crank.Passes.{ServingRules, process_background_round-Served}
use winny.Crank.Handlers.{
  PlayingRules, settle, handle_start_round-Keeps, handle_lock_and_vrf-Left,
  handle_request_vrf-Keeps,
}

module _ {Key : Type 0} (w : World Key) (i : ℕ) {P R : Crank Key → Type 0}
    (rules : PlayingRules w i P R) where
  leave_round-Left : Triple P (leave_round w i) (λ _. R) R
  unfolding leave_round
  leave_round-Left = Triple-bind {Q = λ _ s. R (next_round s)} _ _ rules.left (λ done.
      Triple-bind {Q = λ _. R} _ _ (Triple-modify next_round (λ s h. h))
        (λ done'. Triple-modify _ (rules.stable_after.vrf_sent 0)))

  logged : Triple P (winny.Crank.Observe.maybe_log_health_snapshot w) (λ _. P) R
  logged =
      Triple-weaken _ (λ s h. h) (λ done s h. h) rules.stayed
        (maybe_log_health_snapshot-Keeps w rules.stable)

  logged_after : Triple P (winny.Crank.Observe.maybe_log_health_snapshot w) (λ _. R) R
  logged_after = settle w i rules _ (maybe_log_health_snapshot-Keeps w rules.stable)

  act_on_status-Left : (rd : RoundData Key) → Triple P (act_on_status w i rd) (λ _. R) R
  unfolding act_on_status
  act_on_status-Left rd =
      Triple-if (rd.status == open_round) _ _
        (λ e. Triple-bind _ _ logged (λ done.
          Triple-bind _ _ (handle_lock_and_vrf-Left w i rules rd) (λ b. Triple-pure tt (λ s h. h))))
        (λ e.
          Triple-if (rd.status == locked) _ _
            (λ e'. Triple-bind _ _ logged (λ done.
              Triple-bind _ _ (settle w i rules _ (handle_request_vrf-Keeps w i rules))
                (λ b. Triple-pure tt (λ s h. h))))
            (λ e'.
              Triple-if (rd.status == vrf_requested) _ _ (λ e''. logged_after)
                (λ e''.
                  Triple-if (rd.status == settled || is_terminal_status rd.status) _ _
                    (λ over.
                      Triple-bind _ _ leave_round-Left
                        (λ done. maybe_log_health_snapshot-Keeps w rules.stable_after))
                    (λ other. logged_after))))

  pub act_on_round-Left : (rd : Option (RoundData Key)) → Triple P (act_on_round w i rd) (λ _. R) R
  unfolding act_on_round
  act_on_round-Left none = Triple-bind _ _ logged (λ done.
      Triple-bind _ _ (settle w i rules _ (handle_start_round-Keeps w i rules))
        (λ b. Triple-pure tt (λ s h. h)))
  act_on_round-Left (some rd) =
      Triple-bind {Q = λ _. P} _ _
        (Triple-weaken _ (λ s h. h) (λ done s h. h) rules.stayed
          (observe_round_state-Keeps w rules.stable i rd.status))
        (λ done.
          Triple-bind {Q = λ _. P} _ _
            (Triple-weaken _ (λ s h. h) (λ done s h. h) rules.stayed
              (maybe_warn_stuck_round-Keeps w rules.stable i rd.status))
            (λ done'. act_on_status-Left rd))

module _ {Key : Type 0} (w : World Key) where
  -- The cleanup of the rounds of a list, where serving any round keeps `P`.
  process_rounds-Keeps :
      {P : Crank Key → Type 0}
      → ((i : ℕ) → ServingRules i P P)
      → (rounds : List ℕ) → Keeps P (process_rounds w rounds)
  unfolding process_rounds
  process_rounds-Keeps rules [] = Triple-pure tt (λ s h. h)
  process_rounds-Keeps rules (i ∷ rest) =
      Triple-bind _ _ (process_background_round-Served w i (rules i))
        (λ done. process_rounds-Keeps rules rest)

  pub process_background_rounds-Keeps :
      {P : Crank Key → Type 0}
      → ((i : ℕ) → ServingRules i P P)
      → Keeps P (process_background_rounds w)
  unfolding process_background_rounds
  process_background_rounds-Keeps rules =
      Triple-bind _ _ (Triple-gets _ (λ s h. h)) (process_rounds-Keeps rules)

pub Post-state :
    {Key A : Type 0} (R : Crank Key → Type 0) (r : Outcome A × Crank Key)
    → Post (λ _. R) R r
    → R r.1
Post-state R (returned a, s) h = h
Post-state R (thrown message, s) h = h

module _ {Key : Type 0} (w : World Key) {P R : Crank Key → Type 0} where
  pub play_round-Left :
      (i : ℕ)
      → PlayingRules w i P R
      → Triple (λ s. P s × (s.current_round_id ≡ i)) (play_round w) (λ _. R) R
  unfolding play_round
  play_round-Left i rules =
      Triple-bind {Q = λ round_id s. P s × (round_id ≡ i)} _ _ (Triple-gets _ (λ s h. h))
        (λ round_id. record {
          at = λ s h.
              subst (λ j. Post (λ _. R) R ((fetch_round w j >>= act_on_round w j) s)) (sym h.1)
                ((play i rules).at s h.0);
        })
    where
      play :
          (i : ℕ)
          → PlayingRules w i P R
          → Triple P (fetch_round w i >>= act_on_round w i) (λ _. R) R
      play i rules =
          Triple-bind {Q = λ _. P} _ _
            (Triple-weaken _ (λ s h. h) (λ rd s h. h) rules.stayed
              (fetch_round-Keeps w rules.stable i))
            (act_on_round-Left w i rules)

  -- A pass: the cleanup of the background, then the round in play.
  pub tick-Left :
      IsStable R
      → ((s : Crank Key) → P s → R s)
      → Keeps P (process_background_rounds w)
      → Triple P (play_round w) (λ _. R) R
      → (s : Crank Key) → P s
      → R (tick w s).1
  unfolding tick
  tick-Left after stayed background play s h = Post-state R (tick w s) (pass.at s h)
    where
      pass : Triple P (tick w) (λ _. R) R
      pass =
          Triple-try {F = R} _ _
            (Triple-bind {Q = λ _. P} _ _ (Triple-gets _ (λ t k. k)) (λ rounds.
              Triple-bind {Q = λ _. P} _ _
                (Triple-when (ltb 0 (length rounds)) _
                  (λ e. Triple-weaken _ (λ t k. k) (λ done t k. k) stayed background) (λ t k. k))
                (λ done. play)))
            (λ message. maybe_log_health_snapshot-Keeps w after)
