-- ===== src/Scan.antt =====
-- The search for the round that is in play (crank/src/activeRoundScan.ts).
-- Accounts are read in batches of consecutive ids from `scan_start` on. The scan stops when it has
-- seen a round and then `null_streak_limit` missing accounts in a row.
-- A batch that cannot be fetched rejects the promise of the whole scan: `rejected`.
pub mod Window
mod Trace
pub mod Result
use winny.Base.{
  ℕ, zero, suc, ◌+◌, max, Bool, true, false, ◌&&◌, Option, none, some, List, [], ◌∷◌, ltb, leb,
  if◌then◌else◌,
}
use winny.RoundStatus.{is_active_round_status}

pub data ScanEntry : Type 0 where
  missing invalid : ScanEntry
  round : ℕ → ScanEntry

-- `fetch_batch` answers with one entry for each id, or rejects.
pub record ActiveRoundScanArgs : Type 0 where
  pub scan_start : ℕ
  pub archived_max : ℕ
  pub max_scan : ℕ
  pub batch_size : ℕ
  pub null_streak_limit : ℕ
  pub fetch_batch : List ℕ → Option (List ScanEntry)

-- The three variables of `scanForActiveRound`.
pub record Progress : Type 0 where
  pub max_existing : ℕ
  pub active_round : ℕ
  pub null_streak : ℕ

abbrev pub initial : Progress
initial = record { max_existing = 0; active_round = 0; null_streak = 0 }

-- `maxExisting > 0 && nullStreak >= nullStreakLimit`, the test of both `break`s.
unfoldable pub stops : ℕ → Progress → Bool
stops limit s = ltb 0 s.max_existing && leb limit s.null_streak

-- The ids of a batch: `base + i` for each `i` below the batch size.
unfoldable pub batch_ids : ℕ → ℕ → List ℕ
batch_ids base zero = []
batch_ids base (suc n) = base ∷ batch_ids (base + 1) n

-- The body of the inner loop, up to its test for a `break`.
unfoldable pub visit : ℕ → ScanEntry → Progress → Progress
visit id missing s = record s { null_streak = s.null_streak + 1 }
visit id invalid s = record s { null_streak = 0 }
visit id (round status) s = record {
  max_existing = id;
  active_round = if is_active_round_status status then id else s.active_round;
  null_streak = 0;
}

-- The inner loop. Only a missing account makes it test for the `break`.
unfoldable pub scan_entries : ℕ → Progress → List ℕ → List ScanEntry → Progress
scan_entries limit s (id ∷ ids) (missing ∷ entries) =
    let s' = visit id missing s in
    let rest = scan_entries limit s' ids entries in if stops limit s' then s' else rest
scan_entries limit s (id ∷ ids) (entry ∷ entries) =
    scan_entries limit (visit id entry s) ids entries
scan_entries limit s _ _ = s

pub data ScanResult : Type 0 where
  found : ℕ → ScanResult
  rejected : ScanResult
  out_of_fuel : ScanResult

-- The result of a scan that has ended.
unfoldable pub conclude : ℕ → Progress → ℕ
conclude archived_max s =
    if ltb 0 s.active_round then s.active_round else max s.max_existing archived_max + 1

-- The outer loop, from `base` on, with fuel for its rounds.
unfoldable pub scan_batches : ActiveRoundScanArgs → ℕ → ℕ → Progress → ScanResult
scan_batches a zero base s = out_of_fuel
scan_batches a (suc fuel) base s = elim (leb base (a.scan_start + a.max_scan)) [
  | false ↦ found (conclude a.archived_max s)
  | true ↦ elim (a.fetch_batch (batch_ids base a.batch_size)) [
    | none ↦ rejected
    | some entries ↦
        let s' = scan_entries a.null_streak_limit s (batch_ids base a.batch_size) entries in
        let rest = scan_batches a fuel (base + a.batch_size) s' in
        if stops a.null_streak_limit s' then found (conclude a.archived_max s') else rest
  ]
]

-- With a positive batch size the loop makes at most `max_scan + 1` rounds and one last test.
unfoldable pub scan_for_active_round : ActiveRoundScanArgs → ScanResult
scan_for_active_round a = scan_batches a (suc (a.max_scan + 1)) a.scan_start initial
