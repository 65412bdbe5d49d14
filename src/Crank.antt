-- ===== src/Crank.antt =====
-- The crank's service (crank/src/index.ts): its settings, its module-level state, what it asks of
-- the outside world, and the actions that its handlers are made of.
-- Each answer of the outside (the clock, RPC reads, transactions, the archive's HTTP replies) is a
-- function of the number of answers given before, so a `World` is any course of events. The list
-- of events, the last one first, records what the service saw and what it did.
pub mod Observe
pub mod Background
pub mod Rounds
pub mod Cleanup
pub mod Tick
pub mod Startup
pub mod Hoare
pub mod Stable
pub mod Passes
pub mod Handlers
pub mod Rules
pub mod Recovery
pub mod Tracking
pub mod Justified
pub mod Progress
pub mod Refunds
use winny.Base.{ℕ, suc, ◌+◌, Bool, true, false, Option, none, some, List, [], ◌∷◌, if◌then◌else◌}
use winny.Text.{JsString, codes}
use winny.Bytes.{Buffer}
use winny.Accounts.Crank.{RoundData, parse_round}

-- What the constants read from the environment are, in seconds where they are times.
pub record Settings : Type 0 where
  pub lock_buffer_sec : ℕ
  pub close_delay_sec : ℕ
  pub cleanup_backoff_min_sec : ℕ
  pub cleanup_backoff_max_sec : ℕ
  pub participant_cleanup_batch : ℕ
  pub health_log_interval_sec : ℕ
  pub startup_backfill_scan_rounds : ℕ
  pub stuck_locked_sec : ℕ
  pub stuck_vrf_requested_sec : ℕ
  pub stuck_settled_sec : ℕ
  pub stuck_cancelled_sec : ℕ
  pub stuck_warn_repeat_sec : ℕ
  pub vrf_cooldown_sec : ℕ

pub data Transaction (Key : Type 0) : Type 0 where
  start_round : ℕ → Transaction Key
  lock_and_request_vrf : ℕ → Transaction Key
  request_vrf : ℕ → Transaction Key
  close_participant : ℕ → Key → Transaction Key
  close_round : ℕ → Transaction Key

-- An answer from outside, or the message of the error that is thrown.
pub data Answer (A : Type 0) : Type 0 where
  answer : A → Answer A
  failure : JsString → Answer A

-- The reply to the PATCH that archives a round, by its HTTP status.
pub data ArchiveReply : Type 0 where
  success : ArchiveReply
  http_error : ℕ → ArchiveReply
  unreachable : ArchiveReply

pub record World (Key : Type 0) : Type 0 where
  pub settings : Settings
  pub open settings use *
  pub public_key : Buffer → Key
  pub clock : ℕ → ℕ
  -- `getAccountInfo` and `getMultipleAccountsInfo` at the addresses of rounds.
  pub round_account : ℕ → ℕ → Answer (Option Buffer)
  pub round_accounts : ℕ → List ℕ → Answer (List (Option Buffer))
  -- `getMultipleAccountsInfo` at the addresses of a round's participants.
  pub participant_accounts : ℕ → ℕ → List Key → Answer (List (Option Buffer))
  -- Building, sending and confirming a transaction: its signature.
  pub transaction : ℕ → Transaction Key → Answer JsString
  pub has_archive : Bool
  pub archive : ℕ → ℕ → ArchiveReply
  pub max_archived_round_id : ℕ → ℕ

pub record ParticipantCleanupStats : Type 0 where
  pub existing : ℕ
  pub closable : ℕ
  pub closed : ℕ
  pub blocked_by_refund : ℕ
  pub errors : ℕ

pub record ObservedState : Type 0 where
  pub status : ℕ
  pub since_ts : ℕ
  pub last_seen_ts : ℕ

-- The figures of a health line.
pub record HealthSnapshot : Type 0 where
  pub background : ℕ
  pub due_cleanup : ℕ
  pub settled_rounds : ℕ
  pub claimed_rounds : ℕ
  pub cancelled_rounds : ℕ
  pub rounds_waiting_refund : ℕ
  pub blocked_refund_participants : ℕ
  pub max_cleanup_retry : ℕ

pub data Event (Key : Type 0) : Type 0 where
  absent : ℕ → Event Key
  saw : ℕ → RoundData Key → Event Key
  submitted : Transaction Key → Event Key
  confirmed : Transaction Key → Event Key
  archived : ℕ → Event Key
  warned : (round_id status age : ℕ) → Event Key
  health : HealthSnapshot → Event Key

-- The variables of the module; `cleanupLastStats` with the time at which each entry was written.
pub record Crank (Key : Type 0) : Type 0 where
  pub current_round_id : ℕ
  pub last_locked_round : ℕ
  pub last_created_round : ℕ
  pub background_rounds : List ℕ
  pub archived_rounds : List ℕ
  pub cleanup_next_attempt_at : List (ℕ × ℕ)
  pub cleanup_backoff_sec : List (ℕ × ℕ)
  pub cleanup_retry_count : List (ℕ × ℕ)
  pub cleanup_last_reason : List (ℕ × JsString)
  pub cleanup_last_stats : List (ℕ × (ParticipantCleanupStats × ℕ))
  pub round_observed_state : List (ℕ × ObservedState)
  pub stuck_warned_at : List ((ℕ × ℕ) × ℕ)
  pub last_health_log_at : ℕ
  pub last_vrf_sent_at : ℕ
  pub calls : ℕ
  pub events : List (Event Key)

abbrev pub initial_crank : {Key : Type 0} → Crank Key
initial_crank = record {
  current_round_id = 0;
  last_locked_round = 0;
  last_created_round = 0;
  background_rounds = [];
  archived_rounds = [];
  cleanup_next_attempt_at = [];
  cleanup_backoff_sec = [];
  cleanup_retry_count = [];
  cleanup_last_reason = [];
  cleanup_last_stats = [];
  round_observed_state = [];
  stuck_warned_at = [];
  last_health_log_at = 0;
  last_vrf_sent_at = 0;
  calls = 0;
  events = [];
}

pub data Outcome (A : Type 0) : Type 0 where
  returned : A → Outcome A
  thrown : JsString → Outcome A

-- An action of the service: what was changed before an error stays changed.
abbrev pub Action : Type 0 → Type 0 → Type 0
Action Key A = Crank Key → Outcome A × Crank Key

module _ {Key : Type 0} where
  abbrev pub pure : {A : Type 0} → A → Action Key A
  pure a s = (returned a, s)

  abbrev pub throw : {A : Type 0} → JsString → Action Key A
  throw message s = (thrown message, s)

  abbrev pub continue :
      {A B : Type 0} → Outcome A × Crank Key → (A → Action Key B) → Outcome B × Crank Key
  continue (returned a, s) k = k a s
  continue (thrown message, s) k = (thrown message, s)

  infixl 5 ◌>>=◌ ◌>>◌
  unfoldable pub ◌>>=◌ : {A B : Type 0} → Action Key A → (A → Action Key B) → Action Key B
  ◌>>=◌ m k s = continue (m s) k

  abbrev pub ◌>>◌ : {A B : Type 0} → Action Key A → Action Key B → Action Key B
  m >> n = m >>= λ _. n

  abbrev pub handle :
      {A : Type 0} → Outcome A × Crank Key → (JsString → Action Key A) → Outcome A × Crank Key
  handle (returned a, s) k = (returned a, s)
  handle (thrown message, s) k = k message s

  -- try { m } catch (e) { k(e.message) }
  unfoldable pub try_catch : {A : Type 0} → Action Key A → (JsString → Action Key A) → Action Key A
  try_catch m k s = handle (m s) k

  unfoldable pub gets : {A : Type 0} → (Crank Key → A) → Action Key A
  gets f s = (returned (f s), s)

  unfoldable pub modify : (Crank Key → Crank Key) → Action Key (Unit {0})
  modify f s = (returned tt, f s)

  unfoldable pub when : Bool → Action Key (Unit {0}) → Action Key (Unit {0})
  when b m = if b then m else pure tt

  unfoldable pub emit : Event Key → Action Key (Unit {0})
  emit event s = (returned tt, record s { events = event ∷ s.events })

  -- One more answer was given.
  abbrev pub answered : Crank Key → Crank Key
  answered s = record s { calls = suc s.calls }

  abbrev pub from_answer : {A : Type 0} → Answer A → Action Key A
  from_answer (answer a) s = (returned a, answered s)
  from_answer (failure message) s = (thrown message, answered s)

module _ {Key : Type 0} (w : World Key) where
  -- now()
  unfoldable pub now : Action Key ℕ
  now s = (returned (w.clock s.calls), answered s)

  -- What `fetchRound` makes of an account: an account that is no round throws a RangeError.
  unfoldable pub read_round : ℕ → Option Buffer → Action Key (Option (RoundData Key))
  unfolding emit
  read_round round_id none = pure none
  read_round round_id (some account) = elim (parse_round w.public_key account) [
    | none ↦ throw (codes "RangeError")
    | some rd ↦ emit (saw round_id rd) >> pure (some rd)
  ]

  -- The answer that there is no account is an event.
  unfoldable pub note_absence : ℕ → Option Buffer → Action Key (Option Buffer)
  unfolding emit
  note_absence round_id none = emit (absent round_id) >> pure none
  note_absence round_id (some account) = pure (some account)

  unfoldable pub get_account_info : ℕ → Action Key (Option Buffer)
  unfolding note_absence ◌>>=◌
  get_account_info round_id =
      (λ s. from_answer (w.round_account s.calls round_id) s) >>= note_absence round_id

  unfoldable pub fetch_round : ℕ → Action Key (Option (RoundData Key))
  unfolding read_round get_account_info ◌>>=◌
  fetch_round round_id = get_account_info round_id >>= read_round round_id

  unfoldable pub sign_and_send : Transaction Key → Action Key JsString
  unfolding emit ◌>>=◌
  sign_and_send tx = do
    emit (submitted tx)
    sig ← λ s. from_answer (w.transaction s.calls tx) s
    emit (confirmed tx)
    pure sig
