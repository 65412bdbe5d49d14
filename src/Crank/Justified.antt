-- ===== src/Crank/Justified.antt =====
-- What the service saw before it sends a transaction, read off the list of events.
use winny.Base.{ℕ, zero, suc, ◌≡◌, refl, true, false, List, [], ◌∷◌, ◌==◌}
use winny.RoundStatus.{locked}
use winny.Accounts.Crank.{RoundData}
use winny.Crank.{
  World, Crank, Event, absent, saw, submitted, confirmed, archived, warned, health, Transaction,
  start_round, lock_and_request_vrf, request_vrf, close_participant, close_round, initial_crank,
}
use winny.Crank.Background.{
  clear_background_round, apply_retry_update, track_background_round, add_to_background,
  set_next_attempt, start_backoff,
}
use winny.Crank.Cleanup.{is_terminal_status}
use winny.Crank.Rounds.{
  is_open, is_empty_round, next_round, mark_created, mark_locked, mark_vrf_sent,
}
use winny.Crank.Tick.{tick, run}
use winny.Crank.Startup.{start_service}
use winny.Crank.Hoare.{
  Keeps, Triple-pure, Triple-gets, Triple-modify, Triple-bind, Triple-if, Triple-now, Triple-weaken,
}
use winny.Crank.Stable.{IsStable, IsQuiet}
use winny.Crank.Passes.{ServingRules}
use winny.Crank.Handlers.{PlayingRules}
use winny.Crank.Rules.{play_round-Left, tick-Left, process_background_rounds-Keeps, Post-state}
use winny.Crank.Recovery.{start_service-Keeps}

-- The event right before a transaction is sent, on which it rests.
abbrev pub Grounds : {Key : Type 0} → Transaction Key → List (Event Key) → Type 0
Grounds {Key} (start_round i) before = (earlier : List (Event Key)) × (before ≡ absent i ∷ earlier)
Grounds {Key} (lock_and_request_vrf i) before =
    (rd : RoundData Key) × (earlier : List (Event Key)) × (before ≡ saw i rd ∷ earlier)
    × (is_open rd ≡ true)
    × (is_empty_round rd ≡ false)
Grounds {Key} (request_vrf i) before =
    (rd : RoundData Key) × (earlier : List (Event Key)) × (before ≡ saw i rd ∷ earlier)
    × (rd.status == locked ≡ true)
Grounds {Key} (close_round i) before =
    (rd : RoundData Key) × (earlier : List (Event Key)) × (before ≡ saw i rd ∷ earlier)
    × (is_terminal_status rd.status ≡ true)
Grounds (close_participant i user) before = Unit

-- Every transaction in the list rests on the event before it; closing a participant's account needs
-- no event.
abbrev pub Justified : {Key : Type 0} → List (Event Key) → Type 0
Justified [] = Unit
Justified (submitted tx ∷ before) = Grounds tx before × Justified before
Justified (absent i ∷ before) = Justified before
Justified (saw i rd ∷ before) = Justified before
Justified (confirmed tx ∷ before) = Justified before
Justified (archived i ∷ before) = Justified before
Justified (warned i k age ∷ before) = Justified before
Justified (health h ∷ before) = Justified before

abbrev pub IsJustified : {Key : Type 0} → Crank Key → Type 0
IsJustified s = Justified s.events

module _ {Key : Type 0} (w : World Key) where
  Justified-noted :
      (e : Event Key) (before : List (Event Key))
      → IsQuiet e
      → Justified before
      → Justified (e ∷ before)
  Justified-noted (submitted tx) before quiet h = absurd quiet
  Justified-noted (confirmed tx) before quiet h = h
  Justified-noted (absent i) before quiet h = h
  Justified-noted (saw i rd) before quiet h = h
  Justified-noted (archived i) before quiet h = h
  Justified-noted (warned i k age) before quiet h = h
  Justified-noted (health x) before quiet h = h

  IsJustified-stable : IsStable {Key = Key} IsJustified
  IsJustified-stable = record {
    answered = λ s h. h;
    observed = unfold winny.Crank.Observe.observed_at in λ i k t s h. h;
    warned = λ m s h. h;
    logged = λ t s h. h;
    vrf_sent = unfold mark_vrf_sent in λ t s h. h;
    noted = λ e s quiet h. Justified-noted e s.events quiet h;
  }

  Serving-Justified : (i : ℕ) → ServingRules {Key = Key} i IsJustified IsJustified
  Serving-Justified i = record {
    stable = IsJustified-stable;
    retried = unfold apply_retry_update in λ u s h. h;
    counted = λ v s h. h;
    archived = λ s h. h;
    cleared = unfold clear_background_round in λ s h. h;
    served = λ s h. h;
    closing = λ user s h. (tt, h);
    closing_round = λ rd s terminal h (earlier, e). ((rd, earlier, e, terminal), h);
    confirming = λ tx s h. h;
  }

  track_background_round-Justified : (i : ℕ) → Keeps IsJustified (track_background_round w i)
  unfolding track_background_round add_to_background set_next_attempt start_backoff
  track_background_round-Justified i =
      Triple-bind {Q = λ _. IsJustified} _ _ (Triple-modify _ (λ s h. h)) (λ done.
        Triple-bind {Q = λ _. IsJustified} _ _ (Triple-gets _ (λ s h. h)) (λ scheduled.
          Triple-bind {Q = λ _. IsJustified} _ _
            (Triple-if scheduled _ _ (λ e. Triple-pure tt (λ s h. h))
              (λ e.
                Triple-bind {Q = λ _. IsJustified} _ _ (Triple-now w (λ t s h. h))
                  (λ t. Triple-modify _ (λ s h. h))))
            (λ done'. Triple-modify _ (λ s h. h))))

  next_round-Justified : (s : Crank Key) → IsJustified s → IsJustified (next_round s)
  unfolding next_round
  next_round-Justified s h = h

  Playing-Justified : (i : ℕ) → PlayingRules w i IsJustified IsJustified
  Playing-Justified i = record {
    stable = IsJustified-stable;
    stable_after = IsJustified-stable;
    stayed = λ s h. h;
    created = unfold mark_created in λ s h. h;
    locked_by = unfold mark_locked in λ s h. h;
    left =
        Triple-weaken {Q = λ _. IsJustified} _ (λ s h. h) (λ done. next_round-Justified) (λ s h. h)
          (track_background_round-Justified i);
    starting = λ s h (earlier, e). ((earlier, e), h);
    locking = λ rd s opened filled h (earlier, e). ((rd, earlier, e, opened, filled), h);
    requesting = λ rd s is_locked h (earlier, e). ((rd, earlier, e, is_locked), h);
    confirming = λ tx s h. h;
  }

  tick-Justified : (s : Crank Key) → IsJustified s → IsJustified (tick w s).1
  tick-Justified =
      tick-Left w IsJustified-stable (λ s h. h)
        (process_background_rounds-Keeps w Serving-Justified)
        (record {
          at = λ s h.
              (play_round-Left w s.current_round_id (Playing-Justified s.current_round_id)).at s
                (h, refl);
        })

  run-Justified : (n : ℕ) (s : Crank Key) → IsJustified s → IsJustified (run w n s)
  unfolding run
  run-Justified zero s h = h
  run-Justified (suc n) s h = run-Justified n _ (tick-Justified s h)

  -- After any number of passes, from the start of the service on, every transaction that was sent
  -- for a round rests on the event right before it: a round is only started after its account was
  -- found absent, only locked after it was read as open with a participant and with tickets, VRF is
  -- only requested for a round read as locked, and a round is only closed after it was read as
  -- claimed or cancelled. Of the transactions that close a participant's account nothing is said.
  pub service-Justified :
      (current n : ℕ) → Justified (run w n (start_service w current initial_crank).1).events
  service-Justified current n =
      run-Justified n _
        (Post-state IsJustified (start_service w current initial_crank) (start.at initial_crank tt))
    where
      start : Keeps IsJustified (start_service w current)
      start =
          start_service-Keeps w IsJustified-stable track_background_round-Justified current
            (λ s h. h)
