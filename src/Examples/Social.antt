-- ===== src/Examples/Social.antt =====
-- Profiles and caches of a few wallets.
use winny.Base.{
  ℕ, ◌≤◌, ◌≡◌, refl, ◌⊎◌, answered, true, not, ◌&&◌, none, some, List, [], ◌∷◌, All, arith,
}
use winny.Text.{JsString, codes, same_text}
use winny.Text.Dict.{get, DistinctKeys}
use winny.Social.Cache.{Timed, evict_oldest_entries}
use winny.Social.Cache.Eviction.{IsEviction, evict_oldest_entries-IsEviction}
use winny.Social.Profiles.{
  ProfileItem, Caches, Service, score, is_of_wallet, choose_profile, candidates_of, sort_by_score,
  place_by_score, first, includes_wallet, get_profiles_by_wallets,
}
use winny.Social.Profiles.Best.{choose_profile-best}
use winny.Social.Profiles.Answers.{has, is_empty, get_profiles_by_wallets-has}
use winny.Social.Profiles.Bounded.{IsKept, get_profiles_by_wallets-IsKept}

abbrev entries : List (JsString × Timed ℕ)
entries =
    (codes "a", record { ts = 30; value = 1 })
    ∷ (codes "b", record { ts = 10; value = 2 })
    ∷ (codes "c", record { ts = 20; value = 3 })
    ∷ []

entries-DistinctKeys : DistinctKeys entries
unfolding get same_text
entries-DistinctKeys = (refl, (refl, (refl, tt)))

evict_oldest_entries-IsEviction_example : IsEviction 2 entries (evict_oldest_entries 2 entries)
evict_oldest_entries-IsEviction_example =
    evict_oldest_entries-IsEviction 2 entries entries-DistinctKeys

abbrev item : JsString → ℕ → ProfileItem
item wallet followers = record {
  profile = some (record { id = wallet; username = none; bio = none; image = none });
  address = some wallet;
  wallet_address = none;
  namespace = none;
  contact = none;
  following = 0;
  followers = followers;
}

abbrev items : List ProfileItem
items = item (codes "b") 50 ∷ item (codes "a") 3 ∷ item (codes "a") 7 ∷ []

takes_followed : choose_profile (codes "a") items ≡ some (item (codes "a") 7)
unfolding choose_profile candidates_of sort_by_score place_by_score is_of_wallet same_text
takes_followed = refl

choose_profile-best_example :
    ((is_of_wallet (codes "a") (item (codes "a") 7) ≡ true)
      × All (λ q. is_of_wallet (codes "a") q ≡ true → score q ≤ 7) items)
    ⊎ (All (λ q. is_of_wallet (codes "a") q ≡ true → ⊥) items
        × (first items ≡ some (item (codes "a") 7)))
choose_profile-best_example =
    choose_profile-best (codes "a") items (item (codes "a") 7) takes_followed

abbrev service : Service
service = record {
  key_present = true;
  profiles_list = λ wallet. answered (item wallet 3 ∷ []);
  identities_detail = λ wallet. answered (some (codes "handle") ∷ []);
  profile_read = λ wallet. 100;
  profile_written = λ wallet. 200;
  identity_read = λ wallet. 300;
  identity_written = λ wallet. 400;
  profile_enriched = λ wallet. 500;
}

abbrev no_caches : Caches
no_caches = record { profiles = []; identities = [] }

abbrev asked : List JsString
asked = codes "a" ∷ codes "b" ∷ codes "a" ∷ []

get_profiles_by_wallets-has_example :
    has (codes "b") (get_profiles_by_wallets service asked no_caches).0
    ≡ (not (is_empty (codes "b")) && includes_wallet (codes "b") asked)
get_profiles_by_wallets-has_example =
    get_profiles_by_wallets-has service asked no_caches (codes "b")

get_profiles_by_wallets-IsKept_example : IsKept (get_profiles_by_wallets service asked no_caches).1
get_profiles_by_wallets-IsKept_example =
    get_profiles_by_wallets-IsKept service asked no_caches
      (record { distinct = tt; size = omega arith })
