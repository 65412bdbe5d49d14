-- ===== src/Social/Profiles/Best.antt =====
-- Which of a wallet's profiles is taken.
use winny.Base.{
  ◌≤◌, ◌≡◌, refl, ◌⊎◌, inl, inr, true, some, List, [], ◌∷◌, leb, All, All-map, arith, Bool-cases,
}
use winny.Text.{JsString}
use winny.Social.Profiles.{
  ProfileItem, score, is_of_wallet, candidates_of, place_by_score, sort_by_score, first, if_absent,
  choose_profile,
}

-- The first of a list has the greatest score.
abbrev IsBestFirst : List ProfileItem → Type 0
IsBestFirst [] = Unit
IsBestFirst (x ∷ xs) = All (λ y. score y ≤ score x) xs

place-All :
    (P : ProfileItem → Type 0) (item : ProfileItem) (xs : List ProfileItem)
    → P item
    → All P xs
    → All P (place_by_score item xs)
unfolding place_by_score
place-All P item [] p h = (p, tt)
place-All P item (x ∷ xs) p (q, h) = elim (Bool-cases (leb (score x) (score item))) [
  | inl before ↦ rw before (p, (q, h))
  | inr later ↦ rw later (q, place-All P item xs p h)
]

place-IsBestFirst :
    (item : ProfileItem) (xs : List ProfileItem)
    → IsBestFirst xs
    → IsBestFirst (place_by_score item xs)
unfolding place_by_score
place-IsBestFirst item [] h = tt
place-IsBestFirst item (x ∷ xs) h = elim (Bool-cases (leb (score x) (score item))) [
  | inl before ↦
      let le : score x ≤ score item = ground (arith, before) in
      rw before
        (le, All-map _ _ (λ (y : ProfileItem) (q : score y ≤ score x). omega (arith, le, q)) xs h)
  | inr later ↦ rw later (place-All (λ y. score y ≤ score x) item xs (ground (arith, later)) h)
]

sort-IsBestFirst : (xs : List ProfileItem) → IsBestFirst (sort_by_score xs)
unfolding sort_by_score
sort-IsBestFirst [] = tt
sort-IsBestFirst (x ∷ xs) = place-IsBestFirst x (sort_by_score xs) (sort-IsBestFirst xs)

sort-All : (P : ProfileItem → Type 0) (xs : List ProfileItem) → All P xs → All P (sort_by_score xs)
unfolding sort_by_score
sort-All P [] h = tt
sort-All P (x ∷ xs) (p, h) = place-All P x (sort_by_score xs) p (sort-All P xs h)

-- What holds of all that was placed holds of each part.
All-place :
    (P : ProfileItem → Type 0) (item : ProfileItem) (xs : List ProfileItem)
    → All P (place_by_score item xs)
    → P item × All P xs
unfolding place_by_score
All-place P item [] (p, h) = (p, tt)
All-place P item (x ∷ xs) h = elim (Bool-cases (leb (score x) (score item))) [
  | inl before ↦ rw before at h
  | inr later ↦
      let (q, rest) = rw later at h in let (p, below) = All-place P item xs rest in (p, (q, below))
]

All-sort : (P : ProfileItem → Type 0) (xs : List ProfileItem) → All P (sort_by_score xs) → All P xs
unfolding sort_by_score
All-sort P [] h = tt
All-sort P (x ∷ xs) h =
    let (p, rest) = All-place P x (sort_by_score xs) h in (p, All-sort P xs rest)

module _ (wallet : JsString) where
  candidates-All :
      (xs : List ProfileItem) → All (λ x. is_of_wallet wallet x ≡ true) (candidates_of wallet xs)
  unfolding candidates_of
  candidates-All [] = tt
  candidates-All (x ∷ xs) = elim (Bool-cases (is_of_wallet wallet x)) [
    | inl mine ↦ rw mine (mine, candidates-All xs)
    | inr other ↦ rw other (candidates-All xs)
  ]

  -- What holds of the candidates holds of each item of the wallet.
  All-candidates :
      (P : ProfileItem → Type 0) (xs : List ProfileItem)
      → All P (candidates_of wallet xs)
      → All (λ x. is_of_wallet wallet x ≡ true → P x) xs
  unfolding candidates_of
  All-candidates P [] h = tt
  All-candidates P (x ∷ xs) h = elim (Bool-cases (is_of_wallet wallet x)) [
    | inl mine ↦ let (p, rest) = rw mine at h in ((λ e. p), All-candidates P xs rest)
    | inr other ↦ ((λ e. absurd (ground (arith, e, other))), All-candidates P xs (rw other at h))
  ]

  -- The profile that is taken is one of the wallet, and none of the wallet has more followers and
  -- followed together; where the service names none of the wallet, it is the first that it names.
  pub choose_profile-best :
      (items : List ProfileItem) (p : ProfileItem)
      → choose_profile wallet items ≡ some p
      → ((is_of_wallet wallet p ≡ true)
          × All (λ q. is_of_wallet wallet q ≡ true → score q ≤ score p) items)
        ⊎ (All (λ q. is_of_wallet wallet q ≡ true → ⊥) items × (first items ≡ some p))
  unfolding choose_profile
  choose_profile-best items p e = go (sort_by_score (candidates_of wallet items)) refl e
    where
      go :
          (sorted : List ProfileItem)
          → sort_by_score (candidates_of wallet items) ≡ sorted
          → if_absent (first sorted) (first items) ≡ some p
          → ((is_of_wallet wallet p ≡ true)
              × All (λ q. is_of_wallet wallet q ≡ true → score q ≤ score p) items)
            ⊎ (All (λ q. is_of_wallet wallet q ≡ true → ⊥) items × (first items ≡ some p))
      go [] s f = inr (All-candidates (λ x. ⊥) items (All-sort (λ x. ⊥) _ (rw s tt)), f)
      go (x ∷ xs) s f =
          let same : x ≡ p = cc in
          let best : All (λ y. score y ≤ score x) xs =
            rw s at (sort-IsBestFirst (candidates_of wallet items)) in
          let mine : All (λ y. is_of_wallet wallet y ≡ true) (x ∷ xs) =
            rw s at (sort-All _ _ (candidates-All items)) in
          let all : All (λ y. score y ≤ score x) (candidates_of wallet items) =
            All-sort _ _ (rw s (omega arith, best)) in
          inl (rw same at mine.0, rw same at (All-candidates (λ y. score y ≤ score x) items all))
