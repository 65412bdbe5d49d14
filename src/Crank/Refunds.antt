-- ===== src/Crank/Refunds.antt =====
-- What a cleanup of a round's participants (`cleanupParticipantPdas`, crank/src/index.ts) should
-- report, by what their accounts hold and what was sent, and not by the code's counters.
pub mod Survey
pub mod Chunks
pub mod Report
use winny.Base.{ℕ, ◌+◌, ◌<◌, ◌≡◌, ◌≢◌, ◌⊎◌, Option, none, some, List, [], ◌∷◌, ◌++◌, length, take}
use winny.Bytes.{Buffer}
use winny.RoundStatus.{cancelled}
use winny.Accounts.Crank.{ParticipantData, parse_participant}
use winny.Crank.{
  Transaction, start_round, lock_and_request_vrf, request_vrf, close_participant, close_round,
  Event, absent, saw, submitted, confirmed, archived, warned, health, ParticipantCleanupStats,
}

-- The second list holds the members of the first one with a property, in their order.
pub data Sifted {A : Type 0} (P : A → Type 0) : List A → List A → Type 0 where
  sifted_nil : Sifted P [] []
  sifted_keep : {x : A} {xs ys : List A} → P x → Sifted P xs ys → Sifted P (x ∷ xs) (x ∷ ys)
  sifted_skip : {x : A} {xs ys : List A} → (P x → ⊥) → Sifted P xs ys → Sifted P (x ∷ xs) ys

-- So many members of the list have the property.
abbrev pub IsCount : {A : Type 0} → (A → Type 0) → List A → ℕ → Type 0
IsCount {A} P xs n = (ys : List A) × Sifted P xs ys × (length ys ≡ n)

abbrev pub IsThere : Option Buffer → Type 0
IsThere none = ⊥
IsThere (some account) = Unit

module _ {Key : Type 0} (public_key : Buffer → Key) (status : ℕ) where
  -- The account is too short for a participant's.
  abbrev pub IsUnreadable : Option Buffer → Type 0
  IsUnreadable none = ⊥
  IsUnreadable (some account) = parse_participant public_key account ≡ none

  abbrev pub IsFunded : ParticipantData Key → Type 0
  IsFunded p = (status ≡ cancelled) × ((0 < p.usdc_total) ⊎ (0 < p.tickets_total))

  abbrev pub IsUnfunded : ParticipantData Key → Type 0
  IsUnfunded p = (status ≢ cancelled) ⊎ ((p.usdc_total ≡ 0) × (p.tickets_total ≡ 0))

  -- The round was cancelled, and the participant has not got the deposit back.
  abbrev pub IsBlocked : Option Buffer → Type 0
  IsBlocked none = ⊥
  IsBlocked (some account) =
      (p : ParticipantData Key) × (parse_participant public_key account ≡ some p) × IsFunded p

  abbrev pub IsClosable : Option Buffer → Type 0
  IsClosable none = ⊥
  IsClosable (some account) =
      (p : ParticipantData Key) × (parse_participant public_key account ≡ some p) × IsUnfunded p

module _ {Key : Type 0} where
  abbrev pub closing_in : Transaction Key → List Key
  closing_in (close_participant i user) = user ∷ []
  closing_in (start_round i) = []
  closing_in (lock_and_request_vrf i) = []
  closing_in (request_vrf i) = []
  closing_in (close_round i) = []

  -- Whose accounts the transactions that were submitted are to close; the last event is the first.
  abbrev pub attempted : List (Event Key) → List Key
  attempted [] = []
  attempted (submitted tx ∷ es) = attempted es ++ closing_in tx
  attempted (confirmed tx ∷ es) = attempted es
  attempted (absent i ∷ es) = attempted es
  attempted (saw i rd ∷ es) = attempted es
  attempted (archived i ∷ es) = attempted es
  attempted (warned i status age ∷ es) = attempted es
  attempted (health snapshot ∷ es) = attempted es

  -- How many accounts were closed, by the confirmations.
  abbrev pub closed_by : List (Event Key) → ℕ
  closed_by [] = 0
  closed_by (confirmed tx ∷ es) = length (closing_in tx) + closed_by es
  closed_by (submitted tx ∷ es) = closed_by es
  closed_by (absent i ∷ es) = closed_by es
  closed_by (saw i rd ∷ es) = closed_by es
  closed_by (archived i ∷ es) = closed_by es
  closed_by (warned i status age ∷ es) = closed_by es
  closed_by (health snapshot ∷ es) = closed_by es

  -- The figures for users with these accounts, when so many may be closed at once, and the events.
  pub record IsReport (public_key : Buffer → Key) (status batch : ℕ) (chain : Key → Option Buffer)
      (users : List Key) (before after : List (Event Key)) (stats : ParticipantCleanupStats)
      : Type 0 where
    pub existing : IsCount (λ user. IsThere (chain user)) users stats.existing
    pub blocked :
        IsCount (λ user. IsBlocked public_key status (chain user)) users stats.blocked_by_refund
    pub closable_users : List Key
    pub sifted : Sifted (λ user. IsClosable public_key status (chain user)) users closable_users
    pub closable : length closable_users ≡ stats.closable
    pub sent : List (Event Key)
    pub appended : after ≡ sent ++ before
    pub attempts : attempted sent ≡ take batch closable_users
    pub closed : closed_by sent ≡ stats.closed
    pub unreadable : ℕ
    pub counted : IsCount (λ user. IsUnreadable public_key status (chain user)) users unreadable
    pub failed : stats.errors + stats.closed ≡ unreadable + length (take batch closable_users)
