-- ===== src/Actions/Eligibility/Latest.antt =====
-- The batched searches answer with the highest round that qualifies.
use winny.Base.{
  ℕ, ◌+◌, ◌<◌, ◌≡◌, refl, subst, sym, ◌∙◌, ap, Bool, ◌&&◌, Option, none, some, List, [], ◌∷◌, map,
  arith,
}
use winny.Bytes.{Buffer}
use winny.Actions.{Result, ok, no_unclaimed_prize, no_refund_available}
use winny.Actions.Eligibility.{
  descending_batches, min_round, round_scan_batch, is_claimable, is_cancelled, is_refundable,
  first_passing, all_passing, find_claimable_in, find_refundable_in, find_latest_claimable_round_id,
  find_latest_refundable_round_id,
}
use winny.Actions.Eligibility.Reference.{
  descending, concat, find_first, or_error, IsLatest, batches-descending, find_first-append,
  first_passing-find_first, find_first-all_passing, find_first-IsLatest,
}

module _ {Key : Type 0} (public_key : Buffer → Key) (equals : Key → Key → Bool)
    (chain : ℕ → Option Buffer) (participant : Key → ℕ → Option Buffer) where
  abbrev pub rounds_of : List ℕ → Option (List (Option Buffer))
  rounds_of ids = some (map chain ids)

  abbrev pub participants_of : Key → List ℕ → Option (List (Option Buffer))
  participants_of user ids = some (map (participant user) ids)

  find_claimable-find_first :
      (winner : Key) (batches : List (List ℕ))
      → find_claimable_in public_key equals rounds_of participants_of winner batches
        ≡ or_error no_unclaimed_prize
            (find_first (λ i. is_claimable public_key equals winner (chain i)) (concat batches))
  unfolding find_claimable_in
  find_claimable-find_first winner [] = refl
  find_claimable-find_first winner (ids ∷ batches) = ground (
    arith,
    first_passing-find_first (is_claimable public_key equals winner) chain ids,
    find_first-append (λ i. is_claimable public_key equals winner (chain i)) ids (concat batches),
    find_claimable-find_first winner batches,
  )

  pub refundable : Key → ℕ → Bool
  refundable user i =
      is_cancelled public_key equals (chain i)
      && is_refundable public_key equals user (participant user i)

  find_refundable-find_first :
      (user : Key) (batches : List (List ℕ))
      → find_refundable_in public_key equals rounds_of participants_of user batches
        ≡ or_error no_refund_available (find_first (refundable user) (concat batches))
  unfolding find_refundable_in refundable
  find_refundable-find_first user [] = refl
  find_refundable-find_first user (ids ∷ batches) =
      go (all_passing (is_cancelled public_key equals) ids (map chain ids))
        (find_first-all_passing (is_cancelled public_key equals) chain
          (λ i. is_refundable public_key equals user (participant user i)) ids)
        (find_refundable-find_first user batches)
    where
      go :
          (cs : List ℕ)
          → find_first (λ i. is_refundable public_key equals user (participant user i)) cs
            ≡ find_first (refundable user) ids
          → find_refundable_in public_key equals rounds_of participants_of user batches
            ≡ or_error no_refund_available (find_first (refundable user) (concat batches))
          → elim cs as (λ cs. Result ℕ) [
            | [] ↦ find_refundable_in public_key equals rounds_of participants_of user batches
            | id ∷ more ↦
                elim (first_passing
                  (is_refundable public_key equals user)
                  (id ∷ more)
                  (map (participant user) (id ∷ more))) [
                    | some found ↦ ok found
                    | none ↦
                        find_refundable_in public_key equals rounds_of participants_of user batches
                  ]
          ]
            ≡ or_error no_refund_available (find_first (refundable user) (concat (ids ∷ batches)))
      go [] e rest =
          ground (arith, e, rest, find_first-append (refundable user) ids (concat batches))
      go (id ∷ more) e rest = ground (
        arith,
        e,
        rest,
        find_first-append (refundable user) ids (concat batches),
        first_passing-find_first (is_refundable public_key equals user) (participant user)
            (id ∷ more),
      )

  batches-eq :
      (latest : ℕ)
      → concat (descending_batches (latest + 1) latest (min_round latest) round_scan_batch)
        ≡ descending latest (min_round latest)
  batches-eq latest =
      batches-descending (latest + 1) latest (min_round latest) round_scan_batch
        (min_round_positive latest) (omega arith) (omega arith)
    where
      min_round_positive : (latest : ℕ) → 0 < min_round latest
      min_round_positive latest = unfold min_round in omega arith

  -- On a chain that answers, the search for a prize answers with the highest of the rounds looked
  -- at, the last 300 and the latest, that is settled with the caller as its winner, and with
  -- NO_UNCLAIMED_PRIZE just where there is none.
  pub find_claimable-IsLatest :
      (latest : ℕ) (winner : Key)
      → IsLatest no_unclaimed_prize
          (λ i. is_claimable public_key equals winner (chain i))
          (min_round latest)
          latest
          (find_latest_claimable_round_id public_key equals rounds_of participants_of latest winner)
  unfolding find_latest_claimable_round_id
  find_claimable-IsLatest latest winner =
      subst (IsLatest no_unclaimed_prize passes (min_round latest) latest)
        (sym (
          find_claimable-find_first winner _
          ∙ ap (λ ids. or_error no_unclaimed_prize (find_first passes ids)) (batches-eq latest)))
        (find_first-IsLatest no_unclaimed_prize passes (min_round latest) latest
          (unfold min_round in omega arith))
    where
      passes : ℕ → Bool
      passes i = is_claimable public_key equals winner (chain i)

  -- On a chain that answers, the search for a refund answers with the highest of the rounds looked
  -- at that is cancelled and in which the caller has money, and with NO_REFUND_AVAILABLE just where
  -- there is none.
  pub find_refundable-IsLatest :
      (latest : ℕ) (user : Key)
      → IsLatest no_refund_available
          (refundable user)
          (min_round latest)
          latest
          (find_latest_refundable_round_id public_key equals rounds_of participants_of latest user)
  unfolding find_latest_refundable_round_id
  find_refundable-IsLatest latest user =
      subst (IsLatest no_refund_available (refundable user) (min_round latest) latest)
        (sym (
          find_refundable-find_first user _
          ∙ ap (λ ids. or_error no_refund_available (find_first (refundable user) ids))
              (batches-eq latest)))
        (find_first-IsLatest no_refund_available (refundable user) (min_round latest) latest
          (unfold min_round in omega arith))
