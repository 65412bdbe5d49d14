-- ===== src/Crank/Startup.antt =====
-- The start of the service: `findActiveRound` and `recoverBackgroundRoundsOnStartup`
-- (crank/src/index.ts).
use winny.Base.{
  ℕ, zero, suc, ◌+◌, ◌-◌, max, min, ◌||◌, Option, none, some, List, ◌∷◌, map, ltb, leb, ◌==◌,
  if◌then◌else◌,
}
use winny.RoundStatus.{settled}
use winny.Bytes.{Buffer}
use winny.Accounts.Crank.{parse_round}
use winny.Scan
use winny.Scan.{ScanEntry, ActiveRoundScanArgs, batch_ids}
use winny.Crank.{World, Action, pure, ◌>>=◌, ◌>>◌, modify, when, from_answer}
use winny.Crank.Observe.{observe_round_state}
use winny.Crank.Background.{track_background_round}
use winny.Crank.Cleanup.{is_terminal_status}

-- `if (archivedMax > 0) scanStart = Math.max(1, archivedMax - 2)`
unfoldable pub scan_start_after : ℕ → ℕ
scan_start_after archived_max = if ltb 0 archived_max then max 1 (archived_max - 2) else 1

module _ {Key : Type 0} (public_key : Buffer → Key) where
  -- What `findActiveRound` makes of one account.
  unfoldable pub scan_entry : Option Buffer → ScanEntry
  scan_entry none = Scan.missing
  scan_entry (some account) = elim (parse_round public_key account) [
    | none ↦ Scan.invalid
    | some rd ↦ Scan.round rd.status
  ]

  -- The arguments of the scan, for accounts that answer a batch or reject it.
  unfoldable pub scan_args : ℕ → (List ℕ → Option (List (Option Buffer))) → ActiveRoundScanArgs
  unfolding scan_entry scan_start_after
  scan_args archived_max accounts = record {
    scan_start = scan_start_after archived_max;
    archived_max = archived_max;
    max_scan = 200;
    batch_size = 20;
    null_streak_limit = 20;
    fetch_batch =
        λ ids. elim (accounts ids) [ none ↦ none | some infos ↦ some (map scan_entry infos) ];
  }

abbrev pub recovery_batch : ℕ
recovery_batch = 25

module _ {Key : Type 0} (w : World Key) where
  unfoldable pub get_round_accounts : List ℕ → Action Key (List (Option Buffer))
  get_round_accounts ids s = from_answer (w.round_accounts s.calls ids) s

  unfoldable pub recover_round : ℕ → Option Buffer → Action Key (Unit {0})
  recover_round id none = pure tt
  recover_round id (some account) = elim (parse_round w.public_key account) [
    | none ↦ pure tt
    | some rd ↦ do
      observe_round_state w id rd.status
      when (rd.status == settled || is_terminal_status rd.status) (track_background_round w id)
  ]

  unfoldable pub recover_rounds : List ℕ → List (Option Buffer) → Action Key (Unit {0})
  recover_rounds (id ∷ ids) (info ∷ infos) = do recover_round id info; recover_rounds ids infos
  recover_rounds _ _ = pure tt

  -- The ids of a batch, up to the last one of all.
  unfoldable pub ids_upto : ℕ → ℕ → List ℕ
  ids_upto base last = batch_ids base (min recovery_batch (last + 1 - base))

  -- The loop over the batches, with fuel for their number.
  unfoldable pub recover_batches : ℕ → ℕ → ℕ → Action Key (Unit {0})
  recover_batches zero base last = pure tt
  recover_batches (suc fuel) base last = if ltb last base then pure tt else do
    infos ← get_round_accounts (ids_upto base last)
    recover_rounds (ids_upto base last) infos
    recover_batches fuel (base + recovery_batch) last

  unfoldable pub recover_background_rounds_on_startup : ℕ → Action Key (Unit {0})
  recover_background_rounds_on_startup current =
      let first = max 1 (current - w.startup_backfill_scan_rounds) in
      if leb current 1 then pure tt else recover_batches (current + 1) first current

  -- The part of `main` after the scan: its result, and the rounds that are taken over.
  unfoldable pub start_service : ℕ → Action Key (Unit {0})
  start_service current = do
    modify (λ s. record s { current_round_id = current })
    recover_background_rounds_on_startup current
