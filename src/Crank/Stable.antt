-- ===== src/Crank/Stable.antt =====
-- Predicates that watching, warning and logging keep, and the actions that do no more.
use winny.Base.{ℕ, ◌+◌, true, Option, none, some, List, [], ◌∷◌, leb, ltb, ◌==◌, ◌≡◌, refl}
use winny.Bytes.{Buffer}
use winny.Accounts.Crank.{RoundData, parse_round}
use winny.Crank.{
  World, Crank, Event, absent, saw, submitted, confirmed, ObservedState, HealthSnapshot, pure, gets,
  emit, answered, now, read_round, note_absence, get_account_info, fetch_round,
}
use winny.Crank.Observe.{
  observed_at, observe_round_state, stuck_threshold_sec, warn_stuck_round, maybe_warn_stuck_round,
  allow_cleanup_now, count_rounds, maybe_log_health_snapshot,
}
use winny.Crank.Rounds.{mark_vrf_sent}
use winny.Crank.Hoare.{
  Triple, Keeps, Triple-pure, Triple-gets, Triple-modify, Triple-emit, Triple-bind, Triple-if,
  Triple-when, Triple-option, Triple-answer, Triple-now, Triple-weaken,
}

-- An event that is no transaction.
abbrev pub IsQuiet : {Key : Type 0} → Event Key → Type 0
IsQuiet (submitted tx) = ⊥
IsQuiet (confirmed tx) = ⊥
IsQuiet _ = Unit

pub record IsStable {Key : Type 0} (I : Crank Key → Type 0) : Type 0 where
  pub answered : (s : Crank Key) → I s → I (answered s)
  pub observed : (i status t : ℕ) (s : Crank Key) → I s → I (observed_at i status t s)
  pub warned : (m : List ((ℕ × ℕ) × ℕ)) (s : Crank Key) → I s → I (record s { stuck_warned_at = m })
  pub logged : (t : ℕ) (s : Crank Key) → I s → I (record s { last_health_log_at = t })
  pub vrf_sent : (t : ℕ) (s : Crank Key) → I s → I (mark_vrf_sent t s)
  pub noted :
      (e : Event Key) (s : Crank Key) → IsQuiet e → I s → I (record s { events = e ∷ s.events })

-- What is known after a round was read: the event that was just noted, and the round.
abbrev pub Noted : {Key : Type 0} → ℕ → Option (RoundData Key) → Crank Key → Type 0
Noted {Key} i none s = (before : List (Event Key)) × (s.events ≡ absent i ∷ before)
Noted {Key} i (some rd) s = (before : List (Event Key)) × (s.events ≡ saw i rd ∷ before)

-- What is known after the account of a round was asked for: that there is none was just noted.
abbrev pub Looked : {Key : Type 0} → ℕ → Option Buffer → Crank Key → Type 0
Looked {Key} i none s = (before : List (Event Key)) × (s.events ≡ absent i ∷ before)
Looked {Key} i (some account) s = Unit

module _ {Key : Type 0} (w : World Key) {I : Crank Key → Type 0} (stable : IsStable I) where
  pub now-Keeps : Keeps I (now w)
  now-Keeps = Triple-now w (λ t. stable.answered)

  pub emit-Keeps : (e : Event Key) → IsQuiet e → Keeps I (emit e)
  emit-Keeps e quiet = Triple-emit e (λ s. stable.noted e s quiet)

  pub gets-Keeps : {A : Type 0} (f : Crank Key → A) → Keeps I (gets f)
  gets-Keeps f = Triple-gets f (λ s h. h)

  pub pure-Keeps : {A : Type 0} (a : A) → Keeps I (pure {Key = Key} a)
  pure-Keeps a = Triple-pure a (λ s h. h)

  pub observe_round_state-Keeps : (i status : ℕ) → Keeps I (observe_round_state w i status)
  unfolding observe_round_state
  observe_round_state-Keeps i status =
      Triple-bind _ _ now-Keeps (λ t. Triple-modify _ (stable.observed i status t))

  warn_stuck_round-Keeps :
      (i status threshold : ℕ) (obs : ObservedState)
      → Keeps I (warn_stuck_round w i status threshold obs)
  unfolding warn_stuck_round
  warn_stuck_round-Keeps i status threshold obs = Triple-bind _ _ now-Keeps (λ t.
      Triple-bind _ _ (gets-Keeps _) (λ last.
        Triple-when _ _
          (λ due.
            Triple-bind _ _ (Triple-modify _ (λ s. stable.warned _ s)) (λ done. emit-Keeps _ tt))
          (λ s h. h)))

  pub maybe_warn_stuck_round-Keeps : (i status : ℕ) → Keeps I (maybe_warn_stuck_round w i status)
  unfolding maybe_warn_stuck_round
  maybe_warn_stuck_round-Keeps i status =
      Triple-option (stuck_threshold_sec w status) _ _ (λ e. pure-Keeps tt)
        (λ threshold e.
          Triple-if (leb threshold 0) _ _ (λ off. pure-Keeps tt)
            (λ on. Triple-bind _ _ (gets-Keeps _) (λ obs.
              Triple-option obs _ _ (λ e'. pure-Keeps tt)
                (λ o e'.
                  Triple-if (o.status == status) _ _
                    (λ same. warn_stuck_round-Keeps i status threshold o)
                    (λ other. pure-Keeps tt)))))

  pub allow_cleanup_now-Keeps : (i : ℕ) → Keeps I (allow_cleanup_now w i)
  unfolding allow_cleanup_now
  allow_cleanup_now-Keeps i = Triple-bind _ _ (gets-Keeps _) (λ due.
      Triple-option due _ _ (λ e. pure-Keeps true)
        (λ at e. Triple-bind _ _ now-Keeps (λ t. pure-Keeps (leb at t))))

  count_rounds-Keeps : (rounds : List ℕ) (h : HealthSnapshot) → Keeps I (count_rounds w rounds h)
  unfolding count_rounds
  count_rounds-Keeps [] h = pure-Keeps h
  count_rounds-Keeps (i ∷ rest) h =
      Triple-bind _ _ (allow_cleanup_now-Keeps i)
        (λ due. Triple-bind _ _ (gets-Keeps _) (λ h'. count_rounds-Keeps rest h'))

  pub maybe_log_health_snapshot-Keeps : Keeps I (maybe_log_health_snapshot w)
  unfolding maybe_log_health_snapshot
  maybe_log_health_snapshot-Keeps =
      Triple-if (leb w.health_log_interval_sec 0) _ _ (λ off. pure-Keeps tt)
        (λ on. Triple-bind _ _ now-Keeps (λ t. Triple-bind _ _ (gets-Keeps _) (λ last.
          Triple-if (ltb t (w.health_log_interval_sec + last)) _ _ (λ soon. pure-Keeps tt)
            (λ late. Triple-bind _ _ (Triple-modify _ (stable.logged t)) (λ done.
              Triple-bind _ _ (gets-Keeps _) (λ rounds.
                Triple-bind _ _ (count_rounds-Keeps rounds _) (λ h. emit-Keeps _ tt)))))))

  note_absence-Looked :
      (i : ℕ) (info : Option Buffer)
      → Triple I (note_absence w i info) (λ found s. I s × Looked i found s) I
  unfolding note_absence
  note_absence-Looked i none =
      Triple-bind _ _
        (Triple-emit {Q = λ _ s. I s × Looked i none s} _
          (λ s h. (stable.noted _ s tt h, (s.events, refl))))
        (λ done. Triple-pure none (λ s h. h))
  note_absence-Looked i (some account) = Triple-pure (some account) (λ s h. (h, tt))

  pub get_account_info-Looked :
      (i : ℕ) → Triple I (get_account_info w i) (λ found s. I s × Looked i found s) I
  unfolding get_account_info
  get_account_info-Looked i =
      Triple-bind {Q = λ info. I} _ _
        (Triple-answer (λ s. w.round_account s.calls i) (λ a. stable.answered) stable.answered)
        (note_absence-Looked i)

  read_round-Noted :
      (i : ℕ) (account : Option Buffer)
      → Triple
          (λ s. I s × Looked i account s)
          (read_round w i account)
          (λ rd s. I s × Noted i rd s)
          I
  unfolding read_round
  read_round-Noted i none = Triple-pure none (λ s h. h)
  read_round-Noted i (some account) =
      Triple-option (parse_round w.public_key account) _ _ (λ e. record { at = λ s h. h.0 })
        (λ rd e.
          Triple-bind _ _
            (Triple-emit {Q = λ _ s. I s × Noted i (some rd) s} _
              (λ s h. (stable.noted _ s tt h.0, (s.events, refl))))
            (λ done. Triple-pure (some rd) (λ s h. h)))

  pub fetch_round-Noted : (i : ℕ) → Triple I (fetch_round w i) (λ rd s. I s × Noted i rd s) I
  unfolding fetch_round
  fetch_round-Noted i =
      Triple-bind _ _ (get_account_info-Looked i) (λ account. read_round-Noted i account)

  pub fetch_round-Keeps : (i : ℕ) → Keeps I (fetch_round w i)
  fetch_round-Keeps i =
      Triple-weaken (fetch_round w i) (λ s h. h) (λ rd s h. h.0) (λ s h. h) (fetch_round-Noted i)
