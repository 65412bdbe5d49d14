-- ===== src/Crank/Rounds.antt =====
-- The handlers of the round in play: `handleStartRound`, `handleLockAndVrf` and `handleRequestVrf`
-- (crank/src/index.ts). The times in an account are taken as whole numbers of any size.
use winny.Base.{
  ℕ, ◌+◌, Bool, true, false, not, ◌||◌, Option, none, some, ltb, leb, ◌==◌, if◌then◌else◌,
}
use winny.Base.Int.{pos, ◌+ℤ◌, ltb_ℤ, eqb_ℤ}
use winny.RoundStatus.{open_round, locked}
use winny.Text.{JsString}
use winny.Runtime.{is_min_requirements_error_message}
use winny.Accounts.Crank.{RoundData}
use winny.Crank.{
  World, Crank, Action, start_round, lock_and_request_vrf, request_vrf, pure, ◌>>=◌, ◌>>◌,
  try_catch, gets, modify, when, now, get_account_info, fetch_round, sign_and_send,
}
use winny.Crank.Background.{track_background_round}

module _ {Key : Type 0} where
  unfoldable pub mark_created : ℕ → Crank Key → Crank Key
  mark_created round_id s = record s { last_created_round = round_id }

  unfoldable pub mark_locked : ℕ → Crank Key → Crank Key
  mark_locked round_id s = record s { last_locked_round = round_id }

  unfoldable pub mark_vrf_sent : ℕ → Crank Key → Crank Key
  mark_vrf_sent t s = record s { last_vrf_sent_at = t }

  -- `currentRoundId++; lastLockedRound = 0;`
  unfoldable pub next_round : Crank Key → Crank Key
  next_round s = record s { current_round_id = s.current_round_id + 1; last_locked_round = 0 }

  -- The status and the contents with which a round can be locked.
  unfoldable pub is_open : RoundData Key → Bool
  is_open rd = rd.status == open_round

  unfoldable pub is_empty_round : RoundData Key → Bool
  is_empty_round rd = ltb rd.participants_count 1 || rd.total_tickets == 0

module _ {Key : Type 0} (w : World Key) where
  -- The `catch` of `handleStartRound`: somebody else may have created the round.
  unfoldable pub after_failed_start : ℕ → Action Key Bool
  after_failed_start round_id = do
    check ← fetch_round w round_id
    elim check [ none ↦ pure false | some rd ↦ do modify (mark_created round_id); pure false ]

  unfoldable pub send_start_round : ℕ → Action Key Bool
  send_start_round round_id =
      try_catch
        (do sign_and_send w (start_round round_id); modify (mark_created round_id); pure true)
        (λ message. after_failed_start round_id)

  unfoldable pub handle_start_round : ℕ → Action Key Bool
  handle_start_round round_id = do
    last_created ← gets (λ s. s.last_created_round)
    if leb round_id last_created then pure false else do
      info ← get_account_info w round_id
      elim info [
        | some account ↦ do modify (mark_created round_id); pure false
        | none ↦ send_start_round round_id
      ]

  -- A round that cannot be locked is left to the cleanup, and the service goes on to the next.
  unfoldable pub skip_round : ℕ → Action Key Bool
  skip_round round_id = do
    modify (mark_locked round_id)
    track_background_round w round_id
    modify next_round
    pure true

  -- The last part of the `catch` of `handleLockAndVrf`.
  unfoldable pub check_external_lock : ℕ → Action Key Bool
  check_external_lock round_id = do
    try_catch
        (do
          retry ← fetch_round w round_id
          elim retry [
            | none ↦ pure tt
            | some rd ↦ when (not (is_open rd)) (modify (mark_locked round_id))
          ])
        (λ message. pure tt)
    pure false

  unfoldable pub after_failed_lock : ℕ → JsString → Action Key Bool
  after_failed_lock round_id message =
      if is_min_requirements_error_message message
      then skip_round round_id
      else check_external_lock round_id

  unfoldable pub send_lock_and_vrf : ℕ → Action Key Bool
  send_lock_and_vrf round_id =
      try_catch
        (do
          sign_and_send w (lock_and_request_vrf round_id)
          modify (mark_locked round_id)
          t ← now w
          modify (mark_vrf_sent t)
          pure true)
        (after_failed_lock round_id)

  -- What is done with the state that is read again from the chain.
  unfoldable pub lock_fresh : ℕ → Option (RoundData Key) → Action Key Bool
  lock_fresh round_id none = pure false
  lock_fresh round_id (some fresh) =
      if not (is_open fresh)
      then pure false
      else if is_empty_round fresh
      then skip_round round_id
      else send_lock_and_vrf round_id

  unfoldable pub handle_lock_and_vrf : ℕ → RoundData Key → Action Key Bool
  handle_lock_and_vrf round_id rd = do
    last_locked ← gets (λ s. s.last_locked_round)
    if last_locked == round_id || eqb_ℤ rd.end_ts (pos 0) then pure false else do
      t ← now w
      if ltb_ℤ (pos t) (rd.end_ts +ℤ pos w.lock_buffer_sec)
          then pure false
          else do fresh ← fetch_round w round_id; lock_fresh round_id fresh

  unfoldable pub send_request_vrf : ℕ → Action Key Bool
  send_request_vrf round_id =
      try_catch
        (do sign_and_send w (request_vrf round_id); t ← now w; modify (mark_vrf_sent t); pure true)
        (λ message. pure false)

  -- Past the status check: the cooldown, `now() - lastVrfSentAt < VRF_COOLDOWN_SEC` on integers.
  unfoldable pub request_fresh : ℕ → Option (RoundData Key) → Action Key Bool
  request_fresh round_id none = pure false
  request_fresh round_id (some fresh) = if not (fresh.status == locked) then pure false else do
    t ← now w
    last ← gets (λ s. s.last_vrf_sent_at)
    if ltb t (w.vrf_cooldown_sec + last) then pure false else send_request_vrf round_id

  unfoldable pub handle_request_vrf : ℕ → Action Key Bool
  handle_request_vrf round_id = do fresh ← fetch_round w round_id; request_fresh round_id fresh
