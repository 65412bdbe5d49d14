-- ===== src/Social/Profiles/Answers.antt =====
-- For which wallets `getProfilesByWallets` has an answer.
use winny.Base.{
  ℕ, ◌≡◌, refl, ◌∙◌, Bool, true, false, not, ◌&&◌, ◌||◌, Option, none, some, List, [], ◌∷◌, ◌++◌,
  if◌then◌else◌, arith, inl, inr, Bool-cases,
}
use winny.Text.{JsString, same_text}
use winny.Text.Dict.{get, set, get-set, same_text_iff}
use winny.Social.Cache.{get_fresh}
use winny.Social.Profiles.{
  SocialProfile, Caches, Service, Profiles, includes_wallet, dedupe, Found, fetched_profile,
  look_up, fetch_missing, add_handle, resolve_handles, enrich_profiles_with_twitter, all_unknown,
  complete, get_profiles_by_wallets, get_identity_for_wallet, profile_cache_ttl_ms,
}

abbrev pub is_some : {A : Type 0} → Option A → Bool
is_some none = false
is_some (some a) = true

abbrev pub has : JsString → Profiles → Bool
has w d = is_some (get w d)

abbrev pub is_empty : JsString → Bool
is_empty [] = true
is_empty (c ∷ s) = false

has-set :
    (w v : JsString) (p : Option SocialProfile) (d : Profiles)
    → has w (set v p d) ≡ (same_text v w || has w d)
has-set w v p d = ground (arith, get-set v w p d)

includes_wallet-append :
    (w : JsString) (vs ws : List JsString)
    → includes_wallet w (vs ++ ws) ≡ (includes_wallet w vs || includes_wallet w ws)
unfolding includes_wallet
includes_wallet-append w [] ws = refl
includes_wallet-append w (v ∷ vs) ws = ground (arith, includes_wallet-append w vs ws)

not_empty : (w : JsString) → (not (is_empty w) && same_text [] w) ≡ false
unfolding same_text
not_empty [] = refl
not_empty (c ∷ s) = refl

same_text-not_empty :
    (c : ℕ) (v w : JsString) → same_text (c ∷ v) w ≡ (not (is_empty w) && same_text (c ∷ v) w)
unfolding same_text
same_text-not_empty c v [] = refl
same_text-not_empty c v (d ∷ s) = refl

module _ (w : JsString) where
  dedupe_lem :
      (seen wallets : List JsString)
      → (includes_wallet w (dedupe seen wallets) || includes_wallet w seen)
        ≡ ((not (is_empty w) && includes_wallet w wallets) || includes_wallet w seen)
  unfolding includes_wallet dedupe
  dedupe_lem seen [] = ground arith
  dedupe_lem seen ([] ∷ wallets) = ground (arith, not_empty w, dedupe_lem seen wallets)
  dedupe_lem seen ((c ∷ v) ∷ wallets) = elim (Bool-cases (includes_wallet (c ∷ v) seen)) [
    | inl there ↦
        ground (
          arith,
          there,
          same_text_iff (c ∷ v) w,
          same_text-not_empty c v w,
          dedupe_lem seen wallets,
        )
    | inr new ↦ ground (arith, new, same_text-not_empty c v w, dedupe_lem ((c ∷ v) ∷ seen) wallets)
  ]

  module _ (service : Service) where
    fetch_missing-has :
        (wallets : List JsString) (r : Profiles × Caches)
        → has w (fetch_missing service wallets r).0 ≡ (includes_wallet w wallets || has w r.0)
    unfolding includes_wallet fetch_missing
    fetch_missing-has [] r = refl
    fetch_missing-has (v ∷ wallets) r =
        fetch_missing-has wallets _ ∙ ground (arith, has-set w v (fetched_profile service v) r.0)

    add_handle-has :
        (v : JsString) (handle : Option JsString) (r : Profiles × Caches)
        → has w (add_handle service v (get v r.0) handle r).0 ≡ has w r.0
    unfolding add_handle
    add_handle-has v handle r = go (get v r.0) refl handle
      where
        go :
            (o : Option (Option SocialProfile))
            → get v r.0 ≡ o
            → (handle : Option JsString) → has w (add_handle service v o handle r).0 ≡ has w r.0
        go none e handle = refl
        go (some none) e handle = refl
        go (some (some p)) e none = refl
        go (some (some p)) e (some []) = refl
        go (some (some p)) e (some (c ∷ s)) = ground (
          arith,
          e,
          same_text_iff v w,
          has-set w v (some (record p { twitter_handle = some (c ∷ s) })) r.0,
        )

    resolve_handles-has :
        (wallets : List JsString) (r : Profiles × Caches)
        → has w (resolve_handles service wallets r).0 ≡ has w r.0
    unfolding resolve_handles
    resolve_handles-has [] r = refl
    resolve_handles-has (v ∷ wallets) r =
        resolve_handles-has wallets _
        ∙ add_handle-has v (get_identity_for_wallet service v r.1).0
            (r.0, (get_identity_for_wallet service v r.1).1)

    all_unknown-has :
        (wallets : List JsString) (d : Profiles)
        → has w (all_unknown service wallets d) ≡ (includes_wallet w wallets || has w d)
    unfolding includes_wallet all_unknown
    all_unknown-has [] d = refl
    all_unknown-has (v ∷ wallets) d = all_unknown-has wallets _ ∙ ground (arith, has-set w v none d)

    abbrev known : Found → Bool
    known f = has w f.result || includes_wallet w f.missing

    look_up-known :
        (wallets : List JsString) (f : Found)
        → known (look_up service wallets f) ≡ (includes_wallet w wallets || known f)
    unfolding includes_wallet look_up
    look_up-known [] f = refl
    look_up-known (v ∷ wallets) f =
        go (λ (g : Found). look_up-known wallets g)
          (get_fresh profile_cache_ttl_ms (service.profile_read v) v f.caches.profiles).0
      where
        caches : Caches
        caches = record f.caches {
          profiles =
              (get_fresh profile_cache_ttl_ms (service.profile_read v) v f.caches.profiles).1;
        }

        go :
            ((g : Found)
              → known (look_up service wallets g) ≡ (includes_wallet w wallets || known g))
            → (hit : Option (Option SocialProfile))
            → known (
                look_up service wallets (elim hit [
                  | some cached ↦ record f { result = set v cached f.result; caches = caches }
                  | none ↦ record f { missing = f.missing ++ (v ∷ []); caches = caches }
                ]))
              ≡ (same_text v w || includes_wallet w wallets || known f)
        go rest (some cached) =
            rest (record f { result = set v cached f.result; caches = caches })
            ∙ ground (arith, has-set w v cached f.result)
        go rest none =
            rest (record f { missing = f.missing ++ (v ∷ []); caches = caches })
            ∙ ground (arith, includes_wallet-append w f.missing (v ∷ []))

    complete-has : (f : Found) → has w (complete service f).0 ≡ known f
    unfolding complete enrich_profiles_with_twitter includes_wallet
    complete-has f = go f.missing
      where
        go :
            (missing : List JsString)
            → has w
                (elim missing as (λ m. Profiles × Caches) [
                  | [] ↦ (f.result, f.caches)
                  | v ∷ vs ↦
                      enrich_profiles_with_twitter service
                        (fetch_missing service (v ∷ vs) (f.result, f.caches))
                ]).0
              ≡ (has w f.result || includes_wallet w missing)
        go [] = ground arith
        go (v ∷ vs) =
            resolve_handles-has _ (fetch_missing service (v ∷ vs) (f.result, f.caches))
            ∙ (fetch_missing-has (v ∷ vs) (f.result, f.caches) ∙ ground arith)

-- Whatever is cached and whatever the service answers or fails to answer: the result has an entry,
-- a profile or null, for exactly the wallets that were asked for and are not empty.
pub get_profiles_by_wallets-has :
    (service : Service) (wallets : List JsString) (caches : Caches) (w : JsString)
    → has w (get_profiles_by_wallets service wallets caches).0
      ≡ (not (is_empty w) && includes_wallet w wallets)
unfolding get_profiles_by_wallets
get_profiles_by_wallets-has service wallets caches w = go service.key_present
  where
    start : Found
    start = record { result = []; missing = []; caches = caches }

    unique : includes_wallet w (dedupe [] wallets) ≡ (not (is_empty w) && includes_wallet w wallets)
    unique = unfold includes_wallet in ground (arith, dedupe_lem w [] wallets)

    nothing : has w [] ≡ false
    nothing = unfold get in refl

    none_missing : includes_wallet w [] ≡ false
    none_missing = unfold includes_wallet in refl

    go :
        (key_present : Bool)
        → has w
            (if◌then◌else◌ {A = Profiles × Caches}
              (not key_present)
              (all_unknown service (dedupe [] wallets) [], caches)
              (complete service (look_up service (dedupe [] wallets) start))).0
          ≡ (not (is_empty w) && includes_wallet w wallets)
    go false = all_unknown-has w service (dedupe [] wallets) [] ∙ ground (arith, unique, nothing)
    go true =
        complete-has w service (look_up service (dedupe [] wallets) start)
        ∙ (look_up-known w service (dedupe [] wallets) start
            ∙ ground (arith, unique, nothing, none_missing))
