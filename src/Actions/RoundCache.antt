-- ===== src/Actions/RoundCache.antt =====
-- `scanRoundIds` and `resolveRoundId` with their cache (lib/api/actions-shared.ts). Times are in
-- milliseconds. The RPC read of a batch answers, or throws: `none`.
pub mod Laws
pub mod Found
use winny.Base.{
  ℕ, zero, suc, ◌+◌, ◌-◌, max, Bool, true, false, ◌&&◌, Option, none, some, List, [], ◌∷◌, ltb, leb,
  ◌==◌, if◌then◌else◌,
}
use winny.Bytes.{Buffer}
use winny.Accounts.Crank.{parse_round}
use winny.Scan.{batch_ids}
use winny.Actions.{
  Result, ok, error, no_open_round, no_active_round, rpc_error, is_joinable_round_status,
  is_active_round_status,
}

pub data Mode : Type 0 where
  active : Mode
  joinable : Mode

-- `currentRoundCache`
pub record RoundCache : Type 0 where
  pub ts_ms : ℕ
  pub active_round_id : Option ℕ
  pub joinable_round_id : Option ℕ

abbrev pub empty_cache : RoundCache
empty_cache = record { ts_ms = 0; active_round_id = none; joinable_round_id = none }

abbrev pub current_round_cache_ttl_ms : ℕ
current_round_cache_ttl_ms = 5000

abbrev pub round_scan_batch : ℕ
round_scan_batch = 20

abbrev pub round_scan_null_streak_limit : ℕ
round_scan_null_streak_limit = 20

-- ROUND_SCAN_MAX / ROUND_SCAN_BATCH + 1: the loop's bound is inclusive.
abbrev pub round_scan_batches : ℕ
round_scan_batches = 11

unfoldable pub cached_for : Mode → RoundCache → Option ℕ
cached_for joinable cache = cache.joinable_round_id
cached_for active cache = cache.active_round_id

-- `a ?? b`
abbrev pub or_else : Option ℕ → Option ℕ → Option ℕ
or_else none b = b
or_else (some a) b = some a

abbrev pub or_one : Option ℕ → ℕ
or_one none = 1
or_one (some a) = a

unfoldable pub seed_round_id : Mode → RoundCache → ℕ
seed_round_id joinable cache = or_one (or_else cache.joinable_round_id cache.active_round_id)
seed_round_id active cache = or_one (or_else cache.active_round_id cache.joinable_round_id)

-- The `let` variables of the scan.
pub record Sweep : Type 0 where
  pub max_existing : ℕ
  pub active_round : ℕ
  pub joinable_round : ℕ
  pub null_streak : ℕ

abbrev pub no_rounds : Sweep
no_rounds = record { max_existing = 0; active_round = 0; joinable_round = 0; null_streak = 0 }

unfoldable pub sweep_is_over : Sweep → Bool
sweep_is_over v = ltb 0 v.max_existing && leb round_scan_null_streak_limit v.null_streak

unfoldable pub sweep_round : ℕ → ℕ → Sweep → Sweep
sweep_round id status v = record {
  max_existing = id;
  active_round = if is_active_round_status status then id else v.active_round;
  joinable_round = if is_joinable_round_status status then id else v.joinable_round;
  null_streak = 0;
}

unfoldable pub next_cache : ℕ → Sweep → RoundCache
next_cache now v = record {
  ts_ms = now;
  active_round_id = some (if ltb 0 v.active_round then v.active_round else max 1 v.max_existing);
  joinable_round_id = if ltb 0 v.joinable_round then some v.joinable_round else none;
}

-- What the cache has for the mode, if it is fresh: `cached && cached > 0`.
unfoldable pub fresh_id : ℕ → Mode → RoundCache → Option ℕ
fresh_id now mode cache =
    if ltb now (current_round_cache_ttl_ms + cache.ts_ms)
    then elim (cached_for mode cache) [ none ↦ none | some id ↦ if ltb 0 id then some id else none ]
    else none

abbrev pub not_found : Mode → Result ℕ
not_found joinable = error no_open_round
not_found active = error no_active_round

-- The end of the scan: the cache is replaced before the answer is looked up in it.
unfoldable pub answer_from : Mode → RoundCache → Result ℕ
answer_from mode cache = elim (cached_for mode cache) [
  | none ↦ not_found mode
  | some id ↦ if leb id 0 then not_found mode else ok id
]

module _ {Key : Type 0} (public_key : Buffer → Key) where
  -- The inner loop, with its `break` and `continue`s.
  unfoldable pub sweep_infos : List ℕ → List (Option Buffer) → Sweep → Sweep
  sweep_infos (id ∷ ids) (none ∷ infos) v =
      let v' : Sweep = record v { null_streak = v.null_streak + 1 } in
      let rest = sweep_infos ids infos v' in if sweep_is_over v' then v' else rest
  sweep_infos (id ∷ ids) (some account ∷ infos) v = elim (parse_round public_key account) [
    | none ↦ sweep_infos ids infos (record v { null_streak = 0 })
    | some parsed ↦ sweep_infos ids infos (sweep_round id parsed.status v)
  ]
  sweep_infos _ _ v = v

  module _ (get_rounds : List ℕ → Option (List (Option Buffer))) where
    -- The outer loop, with the number of batches that are left.
    unfoldable pub sweep_batches : ℕ → ℕ → Sweep → Option Sweep
    sweep_batches zero base v = some v
    sweep_batches (suc left) base v = elim (get_rounds (batch_ids base round_scan_batch)) [
      | none ↦ none
      | some infos ↦
          let v' = sweep_infos (batch_ids base round_scan_batch) infos v in
          let rest = sweep_batches left (base + round_scan_batch) v' in
          if sweep_is_over v' then some v' else rest
    ]

    unfoldable pub scan_fresh : ℕ → Mode → RoundCache → Result ℕ × RoundCache
    scan_fresh now mode cache =
        elim (sweep_batches round_scan_batches (max 1 (seed_round_id mode cache - 2)) no_rounds) [
          | none ↦ (error rpc_error, cache)
          | some v ↦ (answer_from mode (next_cache now v), next_cache now v)
        ]

    unfoldable pub scan_round_ids : ℕ → Mode → RoundCache → Result ℕ × RoundCache
    scan_round_ids now mode cache = elim (fresh_id now mode cache) [
      | none ↦ scan_fresh now mode cache
      | some id ↦ (ok id, cache)
    ]

    -- `resolveRoundId`, for a `roundId` of the query that was parsed.
    unfoldable pub resolve_round_id : Option ℕ → ℕ → Mode → RoundCache → Result ℕ × RoundCache
    resolve_round_id (some round_id) now mode cache = (ok round_id, cache)
    resolve_round_id none now mode cache = scan_round_ids now mode cache
