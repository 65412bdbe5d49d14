-- ===== src/Social/Profiles/Bounded.antt =====
-- The cache of profiles while `getProfilesByWallets` runs.
use winny.Base.{
  ℕ, Reply, answered, raised, ◌≡◌, refl, subst, sym, Bool, true, false, not, Option, none, some,
  List, [], ◌∷◌, ◌++◌, if◌then◌else◌, Bool-cases, inl, inr,
}
use winny.Text.{JsString}
use winny.Text.Dict.{get, set}
use winny.Social.Cache.{get_fresh}
use winny.Social.Cache.Bounds.{IsBounded, remember-IsBounded, get_fresh-IsBounded}
use winny.Social.Profiles.{
  SocialProfile, Caches, Service, Profiles, dedupe, Found, fetched_profile, look_up, fetch_missing,
  add_handle, resolve_handles, enrich_profiles_with_twitter, all_unknown, cache_tapestry_profile,
  complete, get_profiles_by_wallets, get_identity_for_wallet, cache_identity, answer_identity,
  profile_cache_ttl_ms, profile_cache_max_entries, identity_cache_ttl_ms,
}

-- The cache of profiles has each wallet once and at most 1000 wallets.
abbrev pub IsKept : Caches → Type 0
IsKept caches = IsBounded profile_cache_max_entries caches.profiles

module _ (service : Service) where
  cache_identity-profiles :
      (wallet : JsString) (reply : Reply (List (Option JsString))) (caches : Caches)
      → (cache_identity service wallet reply caches).1.profiles ≡ caches.profiles
  unfolding cache_identity
  cache_identity-profiles wallet (answered contacts) caches = refl
  cache_identity-profiles wallet (raised message) caches = refl

  answer_identity-profiles :
      (wallet : JsString) (hit : Option (Option JsString)) (caches : Caches)
      → (answer_identity service wallet hit caches).1.profiles ≡ caches.profiles
  unfolding answer_identity
  answer_identity-profiles wallet (some known) caches = refl
  answer_identity-profiles wallet none caches = cache_identity-profiles wallet _ caches

  get_identity_for_wallet-IsKept :
      (wallet : JsString) (caches : Caches)
      → IsKept caches
      → IsKept (get_identity_for_wallet service wallet caches).1
  unfolding get_identity_for_wallet
  get_identity_for_wallet-IsKept wallet caches h = elim (Bool-cases service.key_present) [
    | inr missing ↦ rw missing h
    | inl there ↦ simp there (
        let (hit, identities) =
          get_fresh identity_cache_ttl_ms (service.identity_read wallet) wallet caches.identities in
        subst (IsBounded profile_cache_max_entries)
          (sym (answer_identity-profiles wallet hit (record caches { identities = identities }))) h)
  ]

  cache_tapestry_profile-IsKept :
      (now : ℕ) (wallet : JsString) (profile : Option SocialProfile) (caches : Caches)
      → IsKept caches
      → IsKept (cache_tapestry_profile service now wallet profile caches)
  unfolding cache_tapestry_profile
  cache_tapestry_profile-IsKept now wallet profile caches h =
      remember-IsBounded profile_cache_max_entries now wallet profile caches.profiles h.distinct

  look_up-IsKept :
      (wallets : List JsString) (f : Found)
      → IsKept f.caches
      → IsKept (look_up service wallets f).caches
  unfolding look_up
  look_up-IsKept [] f h = h
  look_up-IsKept (v ∷ wallets) f h =
      go (λ (g : Found). look_up-IsKept wallets g)
        (get_fresh profile_cache_ttl_ms (service.profile_read v) v f.caches.profiles).0
    where
      caches : Caches
      caches = record f.caches {
        profiles = (get_fresh profile_cache_ttl_ms (service.profile_read v) v f.caches.profiles).1;
      }

      kept : IsKept caches
      kept =
          get_fresh-IsBounded profile_cache_max_entries profile_cache_ttl_ms
            (service.profile_read v) v f.caches.profiles h

      go :
          ((g : Found) → IsKept g.caches → IsKept (look_up service wallets g).caches)
          → (hit : Option (Option SocialProfile))
          → IsKept
              (look_up service wallets (elim hit [
                | some cached ↦ record f { result = set v cached f.result; caches = caches }
                | none ↦ record f { missing = f.missing ++ (v ∷ []); caches = caches }
              ])).caches
      go rest (some cached) = rest _ kept
      go rest none = rest _ kept

  fetch_missing-IsKept :
      (wallets : List JsString) (r : Profiles × Caches)
      → IsKept r.1
      → IsKept (fetch_missing service wallets r).1
  unfolding fetch_missing
  fetch_missing-IsKept [] r h = h
  fetch_missing-IsKept (v ∷ wallets) r h = fetch_missing-IsKept wallets _ (
      cache_tapestry_profile-IsKept (service.profile_written v) v (fetched_profile service v) r.1 h)

  add_handle-IsKept :
      (v : JsString) (o : Option (Option SocialProfile)) (handle : Option JsString)
      (r : Profiles × Caches)
      → IsKept r.1
      → IsKept (add_handle service v o handle r).1
  unfolding add_handle
  add_handle-IsKept v none handle r h = h
  add_handle-IsKept v (some none) handle r h = h
  add_handle-IsKept v (some (some p)) none r h = h
  add_handle-IsKept v (some (some p)) (some []) r h = h
  add_handle-IsKept v (some (some p)) (some (c ∷ s)) r h =
      cache_tapestry_profile-IsKept (service.profile_enriched v) v _ r.1 h

  resolve_handles-IsKept :
      (wallets : List JsString) (r : Profiles × Caches)
      → IsKept r.1
      → IsKept (resolve_handles service wallets r).1
  unfolding resolve_handles
  resolve_handles-IsKept [] r h = h
  resolve_handles-IsKept (v ∷ wallets) r h =
      resolve_handles-IsKept wallets _
        (add_handle-IsKept v (get v r.0) _ _ (get_identity_for_wallet-IsKept v r.1 h))

  complete-IsKept : (f : Found) → IsKept f.caches → IsKept (complete service f).1
  unfolding complete enrich_profiles_with_twitter
  complete-IsKept f h = go f.missing
    where
      go :
          (missing : List JsString)
          → IsKept
              (elim missing as (λ m. Profiles × Caches) [
                | [] ↦ (f.result, f.caches)
                | v ∷ vs ↦
                    enrich_profiles_with_twitter service
                      (fetch_missing service (v ∷ vs) (f.result, f.caches))
              ]).1
      go [] = h
      go (v ∷ vs) =
          resolve_handles-IsKept _ _ (fetch_missing-IsKept (v ∷ vs) (f.result, f.caches) h)

  -- Whatever the service answers, a request for profiles leaves the cache of profiles with each
  -- wallet once and with at most 1000 wallets, where it was so before.
  pub get_profiles_by_wallets-IsKept :
      (wallets : List JsString) (caches : Caches)
      → IsKept caches
      → IsKept (get_profiles_by_wallets service wallets caches).1
  unfolding get_profiles_by_wallets
  get_profiles_by_wallets-IsKept wallets caches h = go service.key_present
    where
      start : Found
      start = record { result = []; missing = []; caches = caches }

      go :
          (key_present : Bool)
          → IsKept
              (if◌then◌else◌ {A = Profiles × Caches}
                (not key_present)
                (all_unknown service (dedupe [] wallets) [], caches)
                (complete service (look_up service (dedupe [] wallets) start))).1
      go false = h
      go true = complete-IsKept _ (look_up-IsKept (dedupe [] wallets) start h)
