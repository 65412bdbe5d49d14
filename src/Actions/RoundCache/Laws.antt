-- ===== src/Actions/RoundCache/Laws.antt =====
-- What the scan for a round answers, and what it leaves in its cache.
use winny.Base.{
  ℕ, zero, suc, ◌+◌, ◌-◌, ◌<◌, ◌≡◌, refl, ap, subst, ◌∙◌, inl, inr, max, Option, none, some,
  Option-cases, List, ltb, if◌then◌else◌, arith, Bool-cases,
}
use winny.Bytes.{Buffer}
use winny.Scan.{batch_ids}
use winny.Actions.{Result, ok, error, rpc_error}
use winny.Actions.RoundCache.{
  Mode, active, joinable, RoundCache, Sweep, no_rounds, cached_for, current_round_cache_ttl_ms,
  fresh_id, next_cache, answer_from, sweep_is_over, sweep_infos, sweep_batches, scan_fresh,
  scan_round_ids, round_scan_batches, round_scan_batch, seed_round_id,
}

module _ {Key : Type 0} (public_key : Buffer → Key) where
  answer-fresh :
      (mode : Mode) (cache : RoundCache) (id later : ℕ)
      → answer_from mode cache ≡ ok id
      → later < current_round_cache_ttl_ms + cache.ts_ms
      → fresh_id later mode cache ≡ some id
  unfolding answer_from fresh_id cached_for
  answer-fresh active cache id later e h = ground (arith, e, h)
  answer-fresh joinable cache id later e h = ground (arith, e, h)

  fresh-later :
      (mode : Mode) (cache : RoundCache) (id now later : ℕ)
      → fresh_id now mode cache ≡ some id
      → later < current_round_cache_ttl_ms + cache.ts_ms
      → fresh_id later mode cache ≡ some id
  unfolding fresh_id cached_for
  fresh-later active cache id now later e h = ground (arith, e, h)
  fresh-later joinable cache id now later e h = ground (arith, e, h)

  sweep_batches-some :
      (get_rounds : List ℕ → Option (List (Option Buffer)))
      → ((ids : List ℕ) → (infos : List (Option Buffer)) × (get_rounds ids ≡ some infos))
      → (left base : ℕ) (v : Sweep)
      → (v' : Sweep) × (sweep_batches public_key get_rounds left base v ≡ some v')
  unfolding sweep_batches
  sweep_batches-some get_rounds answers zero base v = (v, refl)
  sweep_batches-some get_rounds answers (suc left) base v =
      let (infos, e) = answers (batch_ids base round_scan_batch) in
      let v' : Sweep = sweep_infos public_key (batch_ids base round_scan_batch) infos v in
      let rest = sweep_batches-some get_rounds answers left (base + round_scan_batch) v' in
      elim (Bool-cases (sweep_is_over v')) [
        | inl over ↦ (v', ground (arith, e, over))
        | inr on ↦ (rest.0, ground (arith, e, on, rest.1))
      ]

  module _ (get_rounds : List ℕ → Option (List (Option Buffer))) where
    scan-cached :
        (now : ℕ) (mode : Mode) (cache : RoundCache) (id : ℕ)
        → fresh_id now mode cache ≡ some id
        → scan_round_ids public_key get_rounds now mode cache ≡ (ok id, cache)
    unfolding scan_round_ids
    scan-cached now mode cache id e = ground (arith, e)

    scan_fresh-ok :
        (now : ℕ) (mode : Mode) (cache cache' : RoundCache) (id : ℕ)
        → scan_fresh public_key get_rounds now mode cache ≡ (ok id, cache')
        → answer_from mode cache' ≡ ok id
    unfolding scan_fresh
    scan_fresh-ok now mode cache cache' id e =
        go
          (sweep_batches public_key get_rounds round_scan_batches
            (max 1 (seed_round_id mode cache - 2)) no_rounds)
          e
      where
        go :
            (o : Option Sweep)
            → elim o as (λ o. Result ℕ × RoundCache) [
              | none ↦ (error rpc_error, cache)
              | some v ↦ (answer_from mode (next_cache now v), next_cache now v)
            ]
              ≡ (ok id, cache')
            → answer_from mode cache' ≡ ok id
        go none e = absurd (ground (arith, ap (λ p. p.0) e))
        go (some v) e = subst (λ c. answer_from mode c ≡ ok id) (ap (λ p. p.1) e) (ap (λ p. p.0) e)

    scan-fresh :
        (now later : ℕ) (mode : Mode) (cache cache' : RoundCache) (id : ℕ)
        → scan_round_ids public_key get_rounds now mode cache ≡ (ok id, cache')
        → later < current_round_cache_ttl_ms + cache'.ts_ms
        → fresh_id later mode cache' ≡ some id
    unfolding scan_round_ids
    scan-fresh now later mode cache cache' id e h = go (fresh_id now mode cache) refl e
      where
        go :
            (o : Option ℕ)
            → fresh_id now mode cache ≡ o
            → elim o as (λ o. Result ℕ × RoundCache) [
              | none ↦ scan_fresh public_key get_rounds now mode cache
              | some id ↦ (ok id, cache)
            ]
              ≡ (ok id, cache')
            → fresh_id later mode cache' ≡ some id
        go none f e = answer-fresh mode cache' id later (scan_fresh-ok now mode cache cache' id e) h
        go (some i) f e =
            let same : cache ≡ cache' = ap (λ p. p.1) e in
            let same_id : i ≡ id = ground (arith, ap (λ p. p.0) e) in
            subst (λ c. fresh_id later mode c ≡ some id) same
              (fresh-later mode cache id now later (f ∙ ap some same_id) (rw same h))

  -- A round that was found is answered again, from any later state of the chain and without a
  -- change of the cache, for as long as the cache is fresh.
  pub scan_round_ids_again :
      (get_rounds get_rounds' : List ℕ → Option (List (Option Buffer))) (now later : ℕ)
      (mode : Mode) (cache cache' : RoundCache) (id : ℕ)
      → scan_round_ids public_key get_rounds now mode cache ≡ (ok id, cache')
      → later < current_round_cache_ttl_ms + cache'.ts_ms
      → scan_round_ids public_key get_rounds' later mode cache' ≡ (ok id, cache')
  scan_round_ids_again get_rounds get_rounds' now later mode cache cache' id e h =
      scan-cached get_rounds' later mode cache' id
        (scan-fresh get_rounds now later mode cache cache' id e h)

  active-found : (now : ℕ) (v : Sweep) → (id : ℕ) × (answer_from active (next_cache now v) ≡ ok id)
  unfolding answer_from next_cache cached_for
  active-found now v =
      (if ltb 0 v.active_round then v.active_round else max 1 v.max_existing, ground arith)

  -- A request for the active round only fails where a read of the chain does: the scan falls back
  -- to the last round that exists, or to round 1.
  pub scan_round_ids_active_total :
      (get_rounds : List ℕ → Option (List (Option Buffer)))
      → ((ids : List ℕ) → (infos : List (Option Buffer)) × (get_rounds ids ≡ some infos))
      → (now : ℕ) (cache : RoundCache)
      → (id : ℕ) × ((scan_round_ids public_key get_rounds now active cache).0 ≡ ok id)
  unfolding scan_round_ids scan_fresh
  scan_round_ids_active_total get_rounds answers now cache =
      elim (Option-cases (fresh_id now active cache)) [
        | inr (id, e) ↦ (id, ground (arith, e))
        | inl e ↦
            let (v, swept) =
              sweep_batches-some get_rounds answers round_scan_batches
                (max 1 (seed_round_id active cache - 2)) no_rounds in
            let (id, found) = active-found now v in (id, ground (arith, e, swept, found))
      ]
