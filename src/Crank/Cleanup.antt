-- ===== src/Crank/Cleanup.antt =====
-- Closing the accounts of rounds that are over: `cleanupParticipantPdas`,
-- `handleTerminalRoundCleanup` and `processBackgroundRounds` (crank/src/index.ts), with the reply
-- codes of `saveRoundToFirebase` (crank/src/firebase.ts).
use winny.Base.{
  ℕ, zero, suc, ◌+◌, Bool, true, false, not, ◌||◌, ◌&&◌, Option, none, some, List, [], ◌∷◌, ◌++◌,
  length, take, drop, contains, add, insert, ltb, ◌==◌, if◌then◌else◌,
}
use winny.RoundStatus.{claimed, cancelled}
use winny.Bytes.{Buffer}
use winny.Runtime.{participants_pending, left_terminal_state, close_round_failed, background_error}
use winny.Accounts.Crank.{RoundData, ParticipantData, parse_participant}
use winny.Crank.{
  World, Action, archived, close_participant, close_round, ArchiveReply, success, http_error,
  unreachable, ParticipantCleanupStats, returned, pure, ◌>>=◌, ◌>>◌, try_catch, gets, modify, when,
  emit, from_answer, answered, now, fetch_round, sign_and_send,
}
use winny.Crank.Observe.{observe_round_state, maybe_warn_stuck_round, allow_cleanup_now}
use winny.Crank.Background.{clear_background_round, schedule_cleanup_retry_outcome}

abbrev pub no_stats : ParticipantCleanupStats
no_stats = record { existing = 0; closable = 0; closed = 0; blocked_by_refund = 0; errors = 0 }

-- `rd.status === Claimed || rd.status === Cancelled`
unfoldable pub is_terminal_status : ℕ → Bool
is_terminal_status status = status == claimed || status == cancelled

-- Whether the archive holds the round after a reply; 401 and 403 mean that it did before.
unfoldable pub is_archived : ArchiveReply → Bool
is_archived success = true
is_archived (http_error status) = status == 401 || status == 403
is_archived unreachable = false

-- The users whose account can be closed, and the figures so far.
pub record Survey (Key : Type 0) : Type 0 where
  pub stats : ParticipantCleanupStats
  pub closable_users : List Key

module _ {Key : Type 0} (public_key : Buffer → Key) where
  -- `rd.status === Cancelled && (p.usdcTotal > 0n || p.ticketsTotal > 0n)`
  unfoldable pub is_funded_refund : ℕ → ParticipantData Key → Bool
  is_funded_refund status p = status == cancelled && (ltb 0 p.usdc_total || ltb 0 p.tickets_total)

  -- The body of the loop over `infos`, for the account of one user.
  unfoldable pub survey_account : ℕ → Key → Option Buffer → Survey Key → Survey Key
  unfolding is_funded_refund
  survey_account status user none v = v
  survey_account status user (some account) v =
      let stats = record v.stats { existing = v.stats.existing + 1 } in
      elim (parse_participant public_key account) [
        | none ↦ record v { stats = record stats { errors = stats.errors + 1 } }
        | some p ↦
            if is_funded_refund status p
            then record v {
              stats = record stats { blocked_by_refund = stats.blocked_by_refund + 1 };
            }
            else record {
              stats = record stats { closable = stats.closable + 1 };
              closable_users = v.closable_users ++ (user ∷ []);
            }
      ]

  -- The answer holds one entry for each address that was asked for.
  unfoldable pub survey_accounts : ℕ → List Key → List (Option Buffer) → Survey Key → Survey Key
  unfolding survey_account
  survey_accounts status (user ∷ users) (info ∷ infos) v =
      survey_accounts status users infos (survey_account status user info v)
  survey_accounts status _ _ v = v

abbrev pub chunk_size : ℕ
chunk_size = 50

module _ {Key : Type 0} (w : World Key) where
  unfoldable pub get_participant_accounts : ℕ → List Key → Action Key (List (Option Buffer))
  get_participant_accounts round_id users s =
      from_answer (w.participant_accounts s.calls round_id users) s

  -- The loop over the chunks, with fuel for their number.
  unfoldable pub survey_chunks : ℕ → ℕ → ℕ → List Key → Survey Key → Action Key (Survey Key)
  survey_chunks zero round_id status users v = pure v
  survey_chunks (suc fuel) round_id status [] v = pure v
  survey_chunks (suc fuel) round_id status users v = do
    infos ← get_participant_accounts round_id (take chunk_size users)
    survey_chunks fuel round_id status (drop chunk_size users)
        (survey_accounts w.public_key status (take chunk_size users) infos v)

  unfoldable pub close_participants :
      ℕ → List Key → ParticipantCleanupStats → Action Key ParticipantCleanupStats
  close_participants round_id [] stats = pure stats
  close_participants round_id (user ∷ users) stats = do
    stats' ←
        try_catch
          (do
            sign_and_send w (close_participant round_id user)
            pure (record stats { closed = stats.closed + 1 }))
          (λ message. pure (record stats { errors = stats.errors + 1 }))
    close_participants round_id users stats'

  unfoldable pub record_stats : ℕ → ParticipantCleanupStats → Action Key (Unit {0})
  record_stats round_id stats = do
    t ← now w
    modify (λ s. record s { cleanup_last_stats = insert round_id (stats, t) s.cleanup_last_stats })

  unfoldable pub cleanup_participant_pdas : ℕ → RoundData Key → Action Key ParticipantCleanupStats
  cleanup_participant_pdas round_id rd = if length rd.participants == 0 then pure no_stats else do
    v ←
        survey_chunks (length rd.participants) round_id rd.status rd.participants
          (record { stats = no_stats; closable_users = [] })
    stats ← close_participants round_id (take w.participant_cleanup_batch v.closable_users) v.stats
    record_stats round_id stats
    pure stats

  -- Without an archive `saveRoundToFirebase` answers false and asks nobody.
  unfoldable pub archive_round : ℕ → Action Key (Unit {0})
  archive_round round_id = do
    known ← gets (λ s. contains round_id s.archived_rounds)
    when (not known && w.has_archive) do
      reply ← λ s. (returned (w.archive s.calls round_id), answered s)
      when (is_archived reply) do
        modify (λ s. record s { archived_rounds = add round_id s.archived_rounds })
        emit (archived round_id)

  unfoldable pub send_close_round : ℕ → Action Key Bool
  send_close_round round_id =
      try_catch
        (do
          sign_and_send w (close_round round_id)
          modify (clear_background_round round_id)
          pure true)
        (λ message. do
          schedule_cleanup_retry_outcome w round_id (close_round_failed message)
          pure false)

  -- What is done with the state that is read again from the chain.
  unfoldable pub close_fresh : ℕ → Option (RoundData Key) → Action Key Bool
  close_fresh round_id none = do modify (clear_background_round round_id); pure true
  close_fresh round_id (some fresh) =
      if is_terminal_status fresh.status then send_close_round round_id else do
        schedule_cleanup_retry_outcome w round_id (left_terminal_state fresh.status)
        pure false

  unfoldable pub handle_terminal_round_cleanup : ℕ → RoundData Key → Action Key Bool
  handle_terminal_round_cleanup round_id rd = do
    allowed ← allow_cleanup_now w round_id
    if not allowed then pure false else do
      archive_round round_id
      stats ← cleanup_participant_pdas round_id rd
      pending ← schedule_cleanup_retry_outcome w round_id (
          participants_pending (record {
            existing = stats.existing;
            closed = stats.closed;
            blocked_by_refund = stats.blocked_by_refund;
          }))
      if pending then pure false else do fresh ← fetch_round w round_id; close_fresh round_id fresh

  unfoldable pub process_fetched : ℕ → Option (RoundData Key) → Action Key (Unit {0})
  process_fetched round_id none = modify (clear_background_round round_id)
  process_fetched round_id (some rd) = do
    observe_round_state w round_id rd.status
    maybe_warn_stuck_round w round_id rd.status
    when (is_terminal_status rd.status) do handle_terminal_round_cleanup round_id rd; pure tt

  unfoldable pub process_background_round : ℕ → Action Key (Unit {0})
  process_background_round round_id =
      try_catch (do rd ← fetch_round w round_id; process_fetched round_id rd)
        (λ message. do
          schedule_cleanup_retry_outcome w round_id (background_error message)
          pure tt)

  unfoldable pub process_rounds : List ℕ → Action Key (Unit {0})
  process_rounds [] = pure tt
  process_rounds (round_id ∷ rest) = do process_background_round round_id; process_rounds rest

  -- The loop goes over a copy of the set.
  unfoldable pub process_background_rounds : Action Key (Unit {0})
  process_background_rounds = do rounds ← gets (λ s. s.background_rounds); process_rounds rounds
