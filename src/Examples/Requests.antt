-- ===== src/Examples/Requests.antt =====
-- The endpoints, the proxy and the pages at concrete inputs.
use winny.Base.{
  ℕ, ◌≡◌, refl, Bool, true, false, Option, none, some, List, [], ◌∷◌, ◌++◌, map, ◌==◌,
  if◌then◌else◌, arith,
}
use winny.Text.{codes, same_text, trim_start, trim_end, is_space}
use winny.Bytes.{Buffer, subarray, le_value, get_uint, to_signed64, get_big_int64}
use winny.Scan.{batch_ids}
use winny.Accounts.Crank.{parse_round, participants_from}
use winny.Actions.{
  ok, no_unclaimed_prize, no_refund_available, is_joinable_round_status, is_active_round_status,
}
use winny.Actions.RoundCache.{
  joinable, RoundCache, empty_cache, scan_round_ids, scan_fresh, sweep_batches, sweep_infos,
  sweep_round, sweep_is_over, next_cache, answer_from, cached_for, seed_round_id, fresh_id,
}
use winny.Actions.RoundCache.Laws.{scan_round_ids_again}
use winny.Actions.Eligibility.{
  is_claimable, min_round, find_latest_claimable_round_id, find_latest_refundable_round_id,
}
use winny.Actions.Eligibility.Reference.{IsLatest}
use winny.Actions.Eligibility.Latest.{
  rounds_of, participants_of, refundable, find_claimable-IsLatest, find_refundable-IsLatest,
}
use winny.Proxy.{
  handle_http, post, forwarded, handle_ws, joined, has_origin, is_origin_allowed,
  get_allowed_origins, split_comma, trimmed, includes_text,
}
use winny.Proxy.Origins.{MayPass, handle_http-forwarded, handle_ws-joined}
use winny.Proxy.Relay.{
  RelayEvent, client_message, upstream_opened, keepalive_due, run_relay, joined_relay,
}
use winny.Proxy.Relay.Order.{Relayed, relay_in_order}
use winny.Examples.{zeros, round_bytes}

-- Rounds 1 to 3: settled, cancelled and open.
abbrev chain : ℕ → Option Buffer
chain i =
    if i == 1
    then some (round_bytes 3)
    else if i == 2
    then some (round_bytes 5)
    else if i == 3
    then some (round_bytes 0)
    else none

abbrev reader : List ℕ → Option (List (Option Buffer))
reader ids = some (map chain ids)

abbrev cache_at_3 : RoundCache
cache_at_3 = record { ts_ms = 1000; active_round_id = some 3; joinable_round_id = some 3 }

scan_fresh-at_3 : scan_fresh (λ d. d) reader 1000 joinable empty_cache ≡ (ok 3, cache_at_3)
unfolding scan_fresh sweep_batches sweep_infos sweep_round sweep_is_over next_cache answer_from
    cached_for seed_round_id batch_ids parse_round participants_from subarray le_value get_uint
    to_signed64 get_big_int64 is_joinable_round_status is_active_round_status
scan_fresh-at_3 = refl

scan_round_ids-cached_at_3 :
    scan_round_ids (λ d. d) reader 2000 joinable cache_at_3 ≡ (ok 3, cache_at_3)
unfolding scan_round_ids fresh_id cached_for
scan_round_ids-cached_at_3 = refl

scan_round_ids_again_example :
    scan_round_ids (λ d. d) (λ ids. none) 5999 joinable cache_at_3 ≡ (ok 3, cache_at_3)
scan_round_ids_again_example =
    scan_round_ids_again (λ d. d) reader (λ ids. none) 2000 5999 joinable cache_at_3 cache_at_3 3
      scan_round_ids-cached_at_3 (omega arith)

abbrev same_key : Buffer → Buffer → Bool
same_key [] [] = true
same_key (a ∷ s) (b ∷ t) = if a == b then same_key s t else false
same_key _ _ = false

abbrev participant : Buffer → ℕ → Option Buffer
participant user i = some (zeros 72 ++ (user ++ zeros 60))

find_claimable-IsLatest_example :
    IsLatest no_unclaimed_prize
      (λ i. is_claimable (λ d. d) same_key (zeros 32) (chain i))
      (min_round 3)
      3
      (find_latest_claimable_round_id
        (λ d. d)
        same_key
        (rounds_of (λ d. d) same_key chain participant)
        (participants_of (λ d. d) same_key chain participant)
        3
        (zeros 32))
find_claimable-IsLatest_example =
    find_claimable-IsLatest (λ d. d) same_key chain participant 3 (zeros 32)

find_refundable-IsLatest_example :
    IsLatest no_refund_available
      (refundable (λ d. d) same_key chain participant (zeros 32))
      (min_round 3)
      3
      (find_latest_refundable_round_id
        (λ d. d)
        same_key
        (rounds_of (λ d. d) same_key chain participant)
        (participants_of (λ d. d) same_key chain participant)
        3
        (zeros 32))
find_refundable-IsLatest_example =
    find_refundable-IsLatest (λ d. d) same_key chain participant 3 (zeros 32)

handle_http-forwards :
    handle_http (some (codes "https://b.io")) post (codes "https://a.io, https://b.io")
    ≡ forwarded (some (codes "https://b.io"))
unfolding handle_http has_origin is_origin_allowed get_allowed_origins split_comma trimmed
    trim_start trim_end is_space includes_text same_text
handle_http-forwards = refl

handle_http-forwarded_example :
    (post ≡ post) × MayPass (some (codes "https://b.io")) (codes "https://a.io, https://b.io")
handle_http-forwarded_example =
    handle_http-forwarded (some (codes "https://b.io")) (some (codes "https://b.io")) post
      (codes "https://a.io, https://b.io") handle_http-forwards

handle_ws-joins :
    handle_ws (some (codes "https://b.io")) true (codes "https://a.io, https://b.io") ≡ joined
unfolding handle_ws has_origin is_origin_allowed get_allowed_origins split_comma trimmed trim_start
    trim_end is_space includes_text same_text
handle_ws-joins = refl

handle_ws-joined_example :
    (true ≡ true) × MayPass (some (codes "https://b.io")) (codes "https://a.io, https://b.io")
handle_ws-joined_example =
    handle_ws-joined (some (codes "https://b.io")) true (codes "https://a.io, https://b.io")
      handle_ws-joins

abbrev relay_events : List (RelayEvent ℕ)
relay_events =
    client_message 1 ∷ client_message 2 ∷ upstream_opened ∷ keepalive_due ∷ client_message 3 ∷ []

relay_in_order_example : Relayed (1 ∷ 2 ∷ 3 ∷ []) (run_relay relay_events joined_relay)
relay_in_order_example = relay_in_order relay_events tt
