-- ===== src/Actions/RoundCache/Found.antt =====
-- The rounds that the scan finds are on the chain with the status that is asked for.
use winny.Base.{
  ℕ, zero, suc, ◌+◌, ◌-◌, ◌≡◌, refl, ap, subst, ◌⊎◌, inl, inr, max, Bool, true, false, Option, none,
  some, List, [], ◌∷◌, map, if◌then◌else◌, arith,
}
use mathlib.Core.Option.{some-injective}
use winny.Bytes.{Buffer}
use winny.Accounts.Crank.{RoundData, parse_round}
use winny.Scan.{batch_ids}
use winny.Actions.{Result, ok, error, rpc_error, is_joinable_round_status, is_active_round_status}
use winny.Actions.RoundCache.{
  joinable, RoundCache, Sweep, no_rounds, cached_for, next_cache, answer_from, sweep_round,
  sweep_is_over, sweep_infos, sweep_batches, scan_fresh, round_scan_batches, round_scan_batch,
  seed_round_id,
}

module _ {Key : Type 0} (public_key : Buffer → Key) (chain : ℕ → Option Buffer) where
  -- Round `id` is on the chain, with a status that passes the test.
  abbrev pub HasStatus : (ℕ → Bool) → ℕ → Type 0
  HasStatus test id =
      (account : Buffer) × (rd : RoundData Key) × (chain id ≡ some account)
      × (parse_round public_key account ≡ some rd)
      × (test rd.status ≡ true)

  abbrev Sound : Sweep → Type 0
  Sound v =
      ((v.active_round ≡ 0) ⊎ HasStatus is_active_round_status v.active_round)
      × ((v.joinable_round ≡ 0) ⊎ HasStatus is_joinable_round_status v.joinable_round)

  take_round :
      (test : ℕ → Bool) (id old : ℕ) (account : Buffer) (rd : RoundData Key)
      → chain id ≡ some account
      → parse_round public_key account ≡ some rd
      → (old ≡ 0) ⊎ HasStatus test old
      → let chosen : ℕ = if test rd.status then id else old in (chosen ≡ 0) ⊎ HasStatus test chosen
  take_round test id old account rd e parsed h = go (test rd.status) refl
    where
      go :
          (b : Bool)
          → test rd.status ≡ b
          → let chosen : ℕ = if b then id else old in (chosen ≡ 0) ⊎ HasStatus test chosen
      go true passes = inr (account, rd, e, parsed, passes)
      go false fails = h

  sweep_round-Sound :
      (id : ℕ) (v : Sweep) (account : Buffer) (rd : RoundData Key)
      → chain id ≡ some account
      → parse_round public_key account ≡ some rd
      → Sound v
      → Sound (sweep_round id rd.status v)
  unfolding sweep_round
  sweep_round-Sound id v account rd e p h = (
    take_round is_active_round_status id v.active_round account rd e p h.0,
    take_round is_joinable_round_status id v.joinable_round account rd e p h.1,
  )

  joinable-answer :
      (now : ℕ) (v : Sweep) (id : ℕ)
      → answer_from joinable (next_cache now v) ≡ ok id
      → (v.joinable_round ≡ 0) ⊎ HasStatus is_joinable_round_status v.joinable_round
      → HasStatus is_joinable_round_status id
  unfolding answer_from next_cache cached_for
  joinable-answer now v id e (inl none_seen) = absurd (ground (arith, e, none_seen))
  joinable-answer now v id e (inr seen) =
      subst (HasStatus is_joinable_round_status) (ground (arith, e)) seen

  choose : {A : Type 0} (P : A → Type 0) (b : Bool) (x y : A) → P x → P y → P (if b then x else y)
  choose P true x y p q = p
  choose P false x y p q = q

  sweep_infos-Sound :
      (ids : List ℕ) (v : Sweep) → Sound v → Sound (sweep_infos public_key ids (map chain ids) v)
  unfolding sweep_infos
  sweep_infos-Sound [] v h = h
  sweep_infos-Sound (id ∷ ids) v h = go (λ u k. sweep_infos-Sound ids u k) (chain id) refl
    where
      parsed :
          ((u : Sweep) → Sound u → Sound (sweep_infos public_key ids (map chain ids) u))
          → (account : Buffer) → chain id ≡ some account
          → (o : Option (RoundData Key)) → parse_round public_key account ≡ o
          → Sound (elim o [
            | none ↦ sweep_infos public_key ids (map chain ids) (record v { null_streak = 0 })
            | some rd ↦ sweep_infos public_key ids (map chain ids) (sweep_round id rd.status v)
          ])
      parsed rest account e none p = rest _ h
      parsed rest account e (some rd) p =
          rest (sweep_round id rd.status v) (sweep_round-Sound id v account rd e p h)

      go :
          ((u : Sweep) → Sound u → Sound (sweep_infos public_key ids (map chain ids) u))
          → (o : Option Buffer) → chain id ≡ o
          → Sound (sweep_infos public_key (id ∷ ids) (o ∷ map chain ids) v)
      go rest none e =
          choose Sound (sweep_is_over (record v { null_streak = v.null_streak + 1 })) _ _ h
            (rest _ h)
      go rest (some account) e = parsed rest account e (parse_round public_key account) refl

  sweep_batches-Sound :
      (left base : ℕ) (v v' : Sweep)
      → Sound v
      → sweep_batches public_key (λ ids. some (map chain ids)) left base v ≡ some v'
      → Sound v'
  unfolding sweep_batches
  sweep_batches-Sound zero base v v' h e = subst Sound {y = v'} (some-injective v v' e) h
  sweep_batches-Sound (suc left) base v v' h e =
      go (sweep_is_over swept)
        (λ e'. sweep_batches-Sound left (base + round_scan_batch) swept v' sound e') e
    where
      swept : Sweep
      swept =
          sweep_infos public_key (batch_ids base round_scan_batch)
            (map chain (batch_ids base round_scan_batch)) v

      sound : Sound swept
      sound = sweep_infos-Sound (batch_ids base round_scan_batch) v h

      go :
          (b : Bool)
          → (sweep_batches public_key
                  (λ ids. some (map chain ids))
                  left
                  (base + round_scan_batch)
                  swept
                ≡ some v'
              → Sound v')
          → (if b
              then some swept
              else sweep_batches public_key
                  (λ ids. some (map chain ids))
                  left
                  (base + round_scan_batch)
                  swept)
            ≡ some v'
          → Sound v'
      go true rest e = subst Sound {y = v'} (some-injective swept v' e) sound
      go false rest e = rest e

  -- A scan of a chain, where the cache has no fresh round, answers a request for a round to join
  -- with one that is on the chain and open.
  pub scan_fresh_joinable :
      (now : ℕ) (cache cache' : RoundCache) (id : ℕ)
      → scan_fresh public_key (λ ids. some (map chain ids)) now joinable cache ≡ (ok id, cache')
      → HasStatus is_joinable_round_status id
  unfolding scan_fresh
  scan_fresh_joinable now cache cache' id e = go _ refl e
    where
      go :
          (o : Option Sweep)
          → sweep_batches public_key
              (λ ids. some (map chain ids))
              round_scan_batches
              (max 1 (seed_round_id joinable cache - 2))
              no_rounds
            ≡ o
          → elim o as (λ o. Result ℕ × RoundCache) [
            | none ↦ (error rpc_error, cache)
            | some v ↦ (answer_from joinable (next_cache now v), next_cache now v)
          ]
            ≡ (ok id, cache')
          → HasStatus is_joinable_round_status id
      go none swept e = absurd (ground (arith, ap (λ p. p.0) e))
      go (some v) swept e =
          joinable-answer now v id (ap (λ p. p.0) e)
            (sweep_batches-Sound round_scan_batches _ no_rounds v (inl refl, inl refl) swept).1
