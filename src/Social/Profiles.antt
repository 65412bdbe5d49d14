-- ===== src/Social/Profiles.antt =====
-- `getProfilesByWallets` and what it calls (lib/api/tapestry-shared.ts), with
-- `normalizeTapestryProfile` (src/lib/tapestry/normalize.ts). The answers of a `Promise.all` are
-- taken in the order of the requests; the time of each step is a parameter, by the wallet.
pub mod Best
pub mod Answers
pub mod Bounded
use winny.Base.{
  ℕ, ◌+◌, Reply, answered, raised, Bool, true, false, not, ◌&&◌, ◌||◌, Option, none, some, List, [],
  ◌∷◌, ◌++◌, ltb, leb, ◌==◌, if◌then◌else◌,
}
use winny.Text.{JsString, codes, same_text, includes, trim, is_space}
use winny.Text.Dict.{get, set}
use winny.Social.Cache.{Timed, get_fresh, remember}

pub record TapestryProfile : Type 0 where
  pub id : JsString
  pub username : Option JsString
  pub bio : Option JsString
  pub image : Option JsString

pub record Namespace : Type 0 where
  pub name : Option JsString
  pub readable_name : Option JsString

pub data ContactType : Type 0 where
  email phone twitter : ContactType

pub record Contact : Type 0 where
  pub id : JsString
  pub kind : ContactType
  pub bio : Option JsString
  pub image : Option JsString

-- `TapestryProfileLike`, with the social counts of an answer to `profilesList`.
pub record ProfileItem : Type 0 where
  pub profile : Option TapestryProfile
  pub address : Option JsString
  pub wallet_address : Option JsString
  pub namespace : Option Namespace
  pub contact : Option Contact
  pub following : ℕ
  pub followers : ℕ

-- `Roll2RollSocialProfile`; `null` and an absent field are none.
pub record SocialProfile : Type 0 where
  pub wallet : JsString
  pub profile_id : JsString
  pub display_name : JsString
  pub username : Option JsString
  pub avatar_url : Option JsString
  pub bio : Option JsString
  pub namespace_name : Option JsString
  pub namespace_readable_name : Option JsString
  pub twitter_handle : Option JsString

-- `a || b` on texts that may be absent: an empty text counts as absent.
abbrev pub first_text : Option JsString → Option JsString → Option JsString
first_text none b = b
first_text (some []) b = b
first_text (some (c ∷ s)) b = some (c ∷ s)

-- `a ?? b`
abbrev pub if_absent : {A : Type 0} → Option A → Option A → Option A
if_absent none b = b
if_absent (some a) b = some a

-- `o?.f`
abbrev pub field : {A B : Type 0} → (A → Option B) → Option A → Option B
field f none = none
field f (some a) = f a

-- `s.replace(/^@/, "")`
unfoldable pub without_at : JsString → JsString
without_at [] = []
without_at (c ∷ s) = if c == b'@' then s else c ∷ s

unfoldable pub twitter_of : Contact → Option JsString
twitter_of c = elim c.kind [
  | email ↦ none
  | phone ↦ none
  | twitter ↦ elim c.id [ [] ↦ none | d ∷ s ↦ some (without_at (d ∷ s)) ]
]

unfoldable pub display_name_of : Option JsString → Option Namespace → JsString → JsString
display_name_of username namespace wallet =
    let trimmed =
      λ (f : Namespace → Option JsString). field (λ s. some (trim s)) (field f namespace) in
    elim (first_text username
      (first_text (trimmed (λ n. n.readable_name)) (first_text (trimmed (λ n. n.name)) none))) [
        | none ↦ wallet
        | some s ↦ s
      ]

unfoldable pub normal_profile : JsString → TapestryProfile → ProfileItem → SocialProfile
normal_profile wallet p item =
    let username = first_text (field (λ s. some (trim s)) p.username) none in
    record {
      wallet = wallet;
      profile_id = p.id;
      display_name = display_name_of username item.namespace wallet;
      username = username;
      avatar_url = if_absent p.image (field (λ c. c.image) item.contact);
      bio = if_absent p.bio (field (λ c. c.bio) item.contact);
      namespace_name = field (λ n. n.name) item.namespace;
      namespace_readable_name = field (λ n. n.readable_name) item.namespace;
      twitter_handle = field twitter_of item.contact;
    }

unfoldable pub normalize_tapestry_profile : Option ProfileItem → Option SocialProfile
normalize_tapestry_profile none = none
normalize_tapestry_profile (some item) = elim item.profile [
  | none ↦ none
  | some p ↦ elim (first_text item.address (first_text item.wallet_address none)) [
    | none ↦ none
    | some wallet ↦ some (normal_profile wallet p item)
  ]
]

abbrev pub score : ProfileItem → ℕ
score item = item.following + item.followers

unfoldable pub is_of_wallet : JsString → ProfileItem → Bool
is_of_wallet wallet item = elim item.address [ none ↦ false | some a ↦ same_text a wallet ]

unfoldable pub candidates_of : JsString → List ProfileItem → List ProfileItem
candidates_of wallet [] = []
candidates_of wallet (item ∷ items) =
    let rest = candidates_of wallet items in if is_of_wallet wallet item then item ∷ rest else rest

-- The stable sort by falling score.
unfoldable pub place_by_score : ProfileItem → List ProfileItem → List ProfileItem
place_by_score item [] = item ∷ []
place_by_score item (x ∷ xs) =
    let rest = place_by_score item xs in
    if leb (score x) (score item) then item ∷ x ∷ xs else x ∷ rest

unfoldable pub sort_by_score : List ProfileItem → List ProfileItem
unfolding place_by_score
sort_by_score [] = []
sort_by_score (item ∷ items) = place_by_score item (sort_by_score items)

abbrev pub first : {A : Type 0} → List A → Option A
first [] = none
first (x ∷ xs) = some x

-- `candidates.sort(…)[0] || data.profiles?.[0]`
unfoldable pub choose_profile : JsString → List ProfileItem → Option ProfileItem
choose_profile wallet items =
    if_absent (first (sort_by_score (candidates_of wallet items))) (first items)

pub record Caches : Type 0 where
  pub profiles : List (JsString × Timed (Option SocialProfile))
  pub identities : List (JsString × Timed (Option JsString))

-- The answers of the service, and the time of each step, by the wallet.
pub record Service : Type 0 where
  pub key_present : Bool
  pub profiles_list : JsString → Reply (List ProfileItem)
  -- The ids of the contacts of a wallet's identities; none without one.
  pub identities_detail : JsString → Reply (List (Option JsString))
  pub profile_read : JsString → ℕ
  pub profile_written : JsString → ℕ
  pub identity_read : JsString → ℕ
  pub identity_written : JsString → ℕ
  pub profile_enriched : JsString → ℕ

abbrev pub profile_cache_ttl_ms : ℕ
profile_cache_ttl_ms = 60000

abbrev pub identity_cache_ttl_ms : ℕ
identity_cache_ttl_ms = 120000

abbrev pub profile_cache_max_entries : ℕ
profile_cache_max_entries = 1000

abbrev pub Profiles : Type 0
Profiles = List (JsString × Option SocialProfile)

-- `new Set(wallets.filter(Boolean))`
unfoldable pub includes_wallet : JsString → List JsString → Bool
includes_wallet w [] = false
includes_wallet w (v ∷ vs) = same_text v w || includes_wallet w vs

unfoldable pub dedupe : List JsString → List JsString → List JsString
dedupe seen [] = []
dedupe seen ([] ∷ wallets) = dedupe seen wallets
dedupe seen ((c ∷ w) ∷ wallets) =
    let rest = dedupe ((c ∷ w) ∷ seen) wallets in
    let skip = dedupe seen wallets in if includes_wallet (c ∷ w) seen then skip else (c ∷ w) ∷ rest

-- Result, wallets that are missing, and caches.
pub record Found : Type 0 where
  pub result : Profiles
  pub missing : List JsString
  pub caches : Caches

abbrev pub is_digit : ℕ → Bool
is_digit c = leb b'0' c && leb c b'9'

-- `[\d\s-]*$`
unfoldable pub all_phone_chars : JsString → Bool
all_phone_chars [] = true
all_phone_chars (c ∷ s) = (is_digit c || is_space c || c == b'-') && all_phone_chars s

-- `\d[\d\s-]+$`
unfoldable pub is_phone_body : JsString → Bool
is_phone_body [] = false
is_phone_body (c ∷ []) = false
is_phone_body (c ∷ d ∷ s) = is_digit c && all_phone_chars (d ∷ s)

-- `/^\+?\d[\d\s-]+$/.test(s)`
unfoldable pub is_phone : JsString → Bool
is_phone [] = false
is_phone (c ∷ s) = if c == b'+' then is_phone_body s else is_phone_body (c ∷ s)

unfoldable pub is_handle : JsString → Bool
is_handle [] = false
is_handle (c ∷ s) = not (includes (codes "@") (c ∷ s)) && not (is_phone (c ∷ s))

-- The loop over the identities, up to its `break`.
unfoldable pub find_handle : List (Option JsString) → Option JsString
find_handle [] = none
find_handle (none ∷ contacts) = find_handle contacts
find_handle (some [] ∷ contacts) = find_handle contacts
find_handle (some (c ∷ s) ∷ contacts) =
    let rest = find_handle contacts in
    if is_handle (trim (c ∷ s)) then some (without_at (trim (c ∷ s))) else rest

module _ (service : Service) where
  -- `cacheTapestryProfile`
  unfoldable pub cache_tapestry_profile : ℕ → JsString → Option SocialProfile → Caches → Caches
  cache_tapestry_profile now wallet profile caches = record caches {
    profiles = remember profile_cache_max_entries now wallet profile caches.profiles;
  }

  -- What is cached for a wallet by an identity request; an error is cached without an eviction.
  unfoldable pub cache_identity :
      JsString → Reply (List (Option JsString)) → Caches → Option JsString × Caches
  cache_identity wallet (answered contacts) caches = (
    find_handle contacts,
    record caches {
      identities =
          remember profile_cache_max_entries (service.identity_written wallet) wallet
            (find_handle contacts) caches.identities;
    },
  )
  cache_identity wallet (raised message) caches = (
    none,
    record caches {
      identities =
          set wallet (record { ts = service.identity_written wallet; value = none })
            caches.identities;
    },
  )

  unfoldable pub answer_identity :
      JsString → Option (Option JsString) → Caches → Option JsString × Caches
  answer_identity wallet (some known) caches = (known, caches)
  answer_identity wallet none caches =
      cache_identity wallet (service.identities_detail wallet) caches

  unfoldable pub get_identity_for_wallet : JsString → Caches → Option JsString × Caches
  get_identity_for_wallet wallet caches =
      if not service.key_present
      then (none, caches)
      else let (hit, identities) =
          get_fresh identity_cache_ttl_ms (service.identity_read wallet) wallet caches.identities in
        answer_identity wallet hit (record caches { identities = identities })

  -- The first loop: what is fresh in the cache, and what is missing.
  unfoldable pub look_up : List JsString → Found → Found
  look_up [] found = found
  look_up (wallet ∷ wallets) found =
      let (hit, profiles) =
        get_fresh profile_cache_ttl_ms (service.profile_read wallet) wallet found.caches.profiles in
      let caches = record found.caches { profiles = profiles } in
      look_up wallets (elim hit [
        | some cached ↦ record found { result = set wallet cached found.result; caches = caches }
        | none ↦ record found { missing = found.missing ++ (wallet ∷ []); caches = caches }
      ])

  unfoldable pub fetched_profile : JsString → Option SocialProfile
  fetched_profile wallet = elim (service.profiles_list wallet) [
    | answered items ↦ normalize_tapestry_profile (choose_profile wallet items)
    | raised message ↦ none
  ]

  -- The requests for the missing wallets.
  unfoldable pub fetch_missing : List JsString → Profiles × Caches → Profiles × Caches
  fetch_missing [] (result, caches) = (result, caches)
  fetch_missing (wallet ∷ wallets) (result, caches) = fetch_missing wallets (
    set wallet (fetched_profile wallet) result,
    cache_tapestry_profile (service.profile_written wallet) wallet (fetched_profile wallet) caches,
  )

  -- `p && !p.twitterHandle`
  unfoldable pub wants_handle : Option SocialProfile → Bool
  wants_handle none = false
  wants_handle (some p) = elim p.twitter_handle [
    | none ↦ true
    | some handle ↦ elim handle [ [] ↦ true | c ∷ s ↦ false ]
  ]

  unfoldable pub wallets_to_resolve : Profiles → List JsString
  wallets_to_resolve [] = []
  wallets_to_resolve ((wallet, p) ∷ profiles) =
      let rest = wallets_to_resolve profiles in if wants_handle p then wallet ∷ rest else rest

  -- `if (profile && twitter)` after the answer for a wallet.
  unfoldable pub add_handle :
      JsString
      → Option (Option SocialProfile)
      → Option JsString
      → Profiles × Caches
      → Profiles × Caches
  add_handle wallet (some (some p)) (some (c ∷ s)) (profiles, caches) = (
    set wallet (some (record p { twitter_handle = some (c ∷ s) })) profiles,
    cache_tapestry_profile (service.profile_enriched wallet) wallet
        (some (record p { twitter_handle = some (c ∷ s) })) caches,
  )
  add_handle wallet profile handle (profiles, caches) = (profiles, caches)

  unfoldable pub resolve_handles : List JsString → Profiles × Caches → Profiles × Caches
  resolve_handles [] (profiles, caches) = (profiles, caches)
  resolve_handles (wallet ∷ wallets) (profiles, caches) =
      let (handle, later) = get_identity_for_wallet wallet caches in
      resolve_handles wallets (add_handle wallet (get wallet profiles) handle (profiles, later))

  unfoldable pub enrich_profiles_with_twitter : Profiles × Caches → Profiles × Caches
  enrich_profiles_with_twitter (profiles, caches) =
      resolve_handles (wallets_to_resolve profiles) (profiles, caches)

  unfoldable pub all_unknown : List JsString → Profiles → Profiles
  all_unknown [] result = result
  all_unknown (wallet ∷ wallets) result = all_unknown wallets (set wallet none result)

  -- What follows the first loop: with nothing missing, nothing more is asked.
  unfoldable pub complete : Found → Profiles × Caches
  complete found = elim found.missing [
    | [] ↦ (found.result, found.caches)
    | w ∷ ws ↦ enrich_profiles_with_twitter (fetch_missing (w ∷ ws) (found.result, found.caches))
  ]

  unfoldable pub get_profiles_by_wallets : List JsString → Caches → Profiles × Caches
  get_profiles_by_wallets wallets caches =
      if not service.key_present
      then (all_unknown (dedupe [] wallets) [], caches)
      else complete
          (look_up (dedupe [] wallets) (record { result = []; missing = []; caches = caches }))
