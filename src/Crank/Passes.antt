-- ===== src/Crank/Passes.antt =====
-- What the cleanup of one background round keeps and establishes, for any predicates that follow the
-- rules of its steps.
use winny.Base.{
  ℕ, zero, suc, ◌≡◌, true, false, ◌&&◌, not, Option, none, some, List, [], ◌∷◌, length, ◌==◌,
  insert, add,
}
use winny.Accounts.Crank.{RoundData}
use winny.Crank.{
  World, Crank, Transaction, close_participant, close_round, submitted, confirmed,
  ParticipantCleanupStats, answered, sign_and_send,
}
use winny.Crank.Cleanup.{
  Survey, survey_chunks, get_participant_accounts, close_participants, record_stats,
  cleanup_participant_pdas, archive_round, is_archived, send_close_round, close_fresh,
  handle_terminal_round_cleanup, process_fetched, process_background_round, is_terminal_status,
}
use winny.Crank.Hoare.{
  Triple, Keeps, Triple-pure, Triple-gets, Triple-modify, Triple-emit, Triple-bind, Triple-try,
  Triple-if, Triple-when, Triple-answer, Triple-weaken,
}
use winny.Crank.Stable.{
  IsStable, Noted, fetch_round-Noted, now-Keeps, gets-Keeps, fetch_round-Keeps,
  allow_cleanup_now-Keeps, observe_round_state-Keeps, maybe_warn_stuck_round-Keeps,
}
use winny.Runtime.{CleanupRetryOutcome, CleanupRetryScheduleUpdate}
use winny.Crank.Background.{
  apply_retry_update, apply_plan, clear_background_round, schedule_cleanup_retry_outcome,
}

-- What a send needs: `P` lets the transaction be noted, and then its confirmation.
pub sign_and_send-Triple :
    {Key : Type 0} {P Q : Crank Key → Type 0} (w : World Key) (tx : Transaction Key)
    → ((s : Crank Key) → P s → Q (record s { events = submitted tx ∷ s.events }))
    → ((s : Crank Key) → Q s → Q (answered s))
    → ((s : Crank Key) → Q s → Q (record s { events = confirmed tx ∷ s.events }))
    → Triple P (sign_and_send w tx) (λ _. Q) Q
unfolding sign_and_send
sign_and_send-Triple {Q} w tx submit step confirm =
    Triple-bind {Q = λ _. Q} _ _ (Triple-emit (submitted tx) submit) (λ done.
      Triple-bind {Q = λ _. Q} _ _ (Triple-answer (λ s. w.transaction s.calls tx) (λ a. step) step)
        (λ sig.
          Triple-bind {Q = λ _. Q} _ _ (Triple-emit (confirmed tx) confirm)
            (λ done'. Triple-pure sig (λ s h. h))))

-- The steps of serving round `i`: `P` holds until the round is cleared or left, and `Q` after that.
pub record ServingRules {Key : Type 0} (i : ℕ) (P Q : Crank Key → Type 0) : Type 0 where
  pub stable : IsStable P
  pub retried :
      (u : CleanupRetryScheduleUpdate) (s : Crank Key) → P s → P (apply_retry_update i u s)
  pub counted :
      (v : ParticipantCleanupStats × ℕ) (s : Crank Key)
      → P s
      → P (record s { cleanup_last_stats = insert i v s.cleanup_last_stats })
  pub archived : (s : Crank Key) → P s → P (record s { archived_rounds = add i s.archived_rounds })
  pub cleared : (s : Crank Key) → P s → Q (clear_background_round i s)
  pub served : (s : Crank Key) → P s → Q s
  pub closing :
      (user : Key) (s : Crank Key)
      → P s
      → P (record s { events = submitted (close_participant i user) ∷ s.events })
  pub closing_round :
      (rd : RoundData Key) (s : Crank Key)
      → is_terminal_status rd.status ≡ true
      → P s
      → Noted i (some rd) s
      → P (record s { events = submitted (close_round i) ∷ s.events })
  pub confirming :
      (tx : Transaction Key) (s : Crank Key)
      → P s
      → P (record s { events = confirmed tx ∷ s.events })

module _ {Key : Type 0} (w : World Key) (i : ℕ) {P Q : Crank Key → Type 0}
    (rules : ServingRules i P Q) where
  apply_plan-Keeps : (plan : Option CleanupRetryScheduleUpdate) → Keeps P (apply_plan i plan)
  unfolding apply_plan
  apply_plan-Keeps none = Triple-pure false (λ s h. h)
  apply_plan-Keeps (some u) =
      Triple-bind {Q = λ _. P} _ _ (Triple-modify _ (rules.retried u))
        (λ done. Triple-pure true (λ s h. h))

  schedule-Keeps :
      (outcome : CleanupRetryOutcome) → Keeps P (schedule_cleanup_retry_outcome w i outcome)
  unfolding schedule_cleanup_retry_outcome
  schedule-Keeps outcome = Triple-bind _ _ (now-Keeps w rules.stable) (λ t.
      Triple-bind _ _ (gets-Keeps w rules.stable _)
        (λ backoff. Triple-bind _ _ (gets-Keeps w rules.stable _) (λ count. apply_plan-Keeps _)))

  survey_chunks-Keeps :
      (fuel status : ℕ) (users : List Key) (v : Survey Key)
      → Keeps P (survey_chunks w fuel i status users v)
  unfolding survey_chunks get_participant_accounts
  survey_chunks-Keeps zero status users v = Triple-pure v (λ s h. h)
  survey_chunks-Keeps (suc fuel) status [] v = Triple-pure v (λ s h. h)
  survey_chunks-Keeps (suc fuel) status (user ∷ users) v =
      Triple-bind {Q = λ _. P} _ _
        (Triple-answer (λ s. w.participant_accounts s.calls i _) (λ a. rules.stable.answered)
          rules.stable.answered)
        (λ infos. survey_chunks-Keeps fuel status _ _)

  close_participants-Keeps :
      (users : List Key) (stats : ParticipantCleanupStats)
      → Keeps P (close_participants w i users stats)
  unfolding close_participants
  close_participants-Keeps [] stats = Triple-pure stats (λ s h. h)
  close_participants-Keeps (user ∷ users) stats =
      Triple-bind {Q = λ _. P} _ _
        (Triple-try {F = P} _ _
          (Triple-bind {Q = λ _. P} _ _
            (sign_and_send-Triple w _ (rules.closing user) rules.stable.answered
              (rules.confirming _))
            (λ sig. Triple-pure _ (λ s h. h)))
          (λ message. Triple-pure _ (λ s h. h)))
        (λ stats'. close_participants-Keeps users stats')

  record_stats-Keeps : (stats : ParticipantCleanupStats) → Keeps P (record_stats w i stats)
  unfolding record_stats
  record_stats-Keeps stats =
      Triple-bind {Q = λ _. P} _ _ (now-Keeps w rules.stable)
        (λ t. Triple-modify _ (rules.counted (stats, t)))

  cleanup_participant_pdas-Keeps : (rd : RoundData Key) → Keeps P (cleanup_participant_pdas w i rd)
  unfolding cleanup_participant_pdas
  cleanup_participant_pdas-Keeps rd =
      Triple-if (length rd.participants == 0) _ _ (λ e. Triple-pure _ (λ s h. h))
        (λ e. Triple-bind {Q = λ _. P} _ _ (survey_chunks-Keeps _ rd.status rd.participants _) (λ v.
          Triple-bind {Q = λ _. P} _ _ (close_participants-Keeps _ _) (λ stats.
            Triple-bind {Q = λ _. P} _ _ (record_stats-Keeps stats)
              (λ done. Triple-pure stats (λ s h. h)))))

  archive_round-Keeps : Keeps P (archive_round w i)
  unfolding archive_round
  archive_round-Keeps = Triple-bind {Q = λ _. P} _ _ (Triple-gets _ (λ s h. h)) (λ known.
      Triple-when (not known && w.has_archive) _
        (λ e.
          Triple-bind {Q = λ _. P} _ _ (record { at = rules.stable.answered })
            (λ reply.
              Triple-when (is_archived reply) _
                (λ e'.
                  Triple-bind {Q = λ _. P} _ _ (Triple-modify _ rules.archived)
                    (λ done. Triple-emit _ (λ s. rules.stable.noted _ s tt)))
                (λ s h. h)))
        (λ s h. h))

  send_close_round-Served :
      (rd : RoundData Key)
      → is_terminal_status rd.status ≡ true
      → Triple (λ s. P s × Noted i (some rd) s) (send_close_round w i) (λ _. Q) P
  unfolding send_close_round
  send_close_round-Served rd terminal =
      Triple-try {F = P} _ _
        (Triple-bind {Q = λ _. P} _ _
          (sign_and_send-Triple w (close_round i) (λ s h. rules.closing_round rd s terminal h.0 h.1)
            rules.stable.answered (rules.confirming (close_round i)))
          (λ sig.
            Triple-bind {Q = λ _. Q} _ _ (Triple-modify _ rules.cleared)
              (λ done. Triple-pure true (λ s h. h))))
        (λ message.
          Triple-bind {Q = λ _. P} _ _ (schedule-Keeps _) (λ b. Triple-pure false rules.served))

  close_fresh-Served :
      (fresh : Option (RoundData Key))
      → Triple (λ s. P s × Noted i fresh s) (close_fresh w i fresh) (λ _. Q) P
  unfolding close_fresh
  close_fresh-Served none =
      Triple-bind {Q = λ _. Q} _ _ (Triple-modify _ (λ s h. rules.cleared s h.0))
        (λ done. Triple-pure true (λ s h. h))
  close_fresh-Served (some fresh) =
      Triple-if (is_terminal_status fresh.status) _ _ (send_close_round-Served fresh) (λ e.
        Triple-bind {Q = λ _. P} _ _
          (Triple-weaken _ (λ s h. h.0) (λ b s h. h) (λ s h. h) (schedule-Keeps _))
          (λ b. Triple-pure false rules.served))

  handle_terminal_round_cleanup-Served :
      (rd : RoundData Key) → Triple P (handle_terminal_round_cleanup w i rd) (λ _. Q) P
  unfolding handle_terminal_round_cleanup
  handle_terminal_round_cleanup-Served rd =
      Triple-bind {Q = λ _. P} _ _ (allow_cleanup_now-Keeps w rules.stable i) (λ allowed.
        Triple-if (not allowed) _ _ (λ e. Triple-pure false rules.served)
          (λ e. Triple-bind {Q = λ _. P} _ _ archive_round-Keeps (λ done.
            Triple-bind {Q = λ _. P} _ _ (cleanup_participant_pdas-Keeps rd) (λ stats.
              Triple-bind {Q = λ _. P} _ _ (schedule-Keeps _) (λ pending.
                Triple-if pending _ _ (λ e'. Triple-pure false rules.served)
                  (λ e'.
                    Triple-bind _ _ (fetch_round-Noted w rules.stable i) close_fresh-Served))))))

  process_fetched-Served :
      (o : Option (RoundData Key)) → Triple P (process_fetched w i o) (λ _. Q) P
  unfolding process_fetched
  process_fetched-Served none = Triple-modify _ rules.cleared
  process_fetched-Served (some rd) =
      Triple-bind {Q = λ _. P} _ _ (observe_round_state-Keeps w rules.stable i rd.status) (λ done.
        Triple-bind {Q = λ _. P} _ _ (maybe_warn_stuck_round-Keeps w rules.stable i rd.status)
          (λ done'.
            Triple-when (is_terminal_status rd.status) _
              (λ e.
                Triple-bind {Q = λ _. Q} _ _ (handle_terminal_round_cleanup-Served rd)
                  (λ b. Triple-pure tt (λ s h. h)))
              rules.served))

  -- One background round is served, whatever fails.
  pub process_background_round-Served : Triple P (process_background_round w i) (λ _. Q) Q
  unfolding process_background_round
  process_background_round-Served =
      Triple-try {F = P} _ _
        (Triple-bind {Q = λ _. P} _ _ (fetch_round-Keeps w rules.stable i) process_fetched-Served)
        (λ message.
          Triple-bind {Q = λ _. P} _ _
            (Triple-weaken _ (λ s h. h) (λ b s h. h) rules.served (schedule-Keeps _))
            (λ b. Triple-pure tt rules.served))
