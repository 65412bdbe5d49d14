-- ===== src/Social/Cache/Sorting.antt =====
-- The entries of a cache by the time of their writing.
use winny.Base.{
  suc, ◌≤◌, ◌≡◌, refl, ◌∙◌, ap, none, some, List, [], ◌∷◌, length, leb, if◌then◌else◌, arith, inl,
  inr, Bool-cases, All, All-map,
}
use winny.Text.{JsString, same_text}
use winny.Text.Dict.{get, DistinctKeys, same_text_iff}
use winny.Social.Cache.{Timed, place, sort_by_ts}

module _ {V : Type 0} where
  -- Placing an entry under a new key is, for reading, to put it in front.
  get-place :
      (k key : JsString) (entry : Timed V) (m : List (JsString × Timed V))
      → get key m ≡ none
      → get k (place (key, entry) m) ≡ (if same_text key k then some entry else get k m)
  unfolding get place
  get-place k key entry [] h = refl
  get-place k key entry ((j, x) ∷ m) h = ground (
    arith,
    h,
    get-place k key entry m,
    same_text_iff j key,
    same_text_iff j k,
    same_text_iff key k,
  )

  place-DistinctKeys :
      (key : JsString) (entry : Timed V) (m : List (JsString × Timed V))
      → get key m ≡ none
      → DistinctKeys m
      → DistinctKeys (place (key, entry) m)
  unfolding get place
  place-DistinctKeys key entry [] h d = (refl, tt)
  place-DistinctKeys key entry ((j, x) ∷ m) h d = elim (Bool-cases (leb entry.ts x.ts)) [
    | inl before ↦ rw before (h, d)
    | inr later ↦ rw later (
      ground (arith, h, d.0, get-place j key entry m, same_text_iff key j, same_text_iff j key),
      place-DistinctKeys key entry m (ground (arith, h)) d.1,
    )
  ]

  length-place :
      (e : JsString × Timed V) (m : List (JsString × Timed V)) → length (place e m) ≡ suc (length m)
  unfolding place
  length-place e [] = refl
  length-place e (x ∷ m) = ground (arith, length-place e m)

  pub get-sort_by_ts :
      (k : JsString) (m : List (JsString × Timed V))
      → DistinctKeys m
      → get k (sort_by_ts m) ≡ get k m
  unfolding get sort_by_ts
  get-sort_by_ts k [] d = refl
  get-sort_by_ts k ((key, entry) ∷ m) (p, d) =
      get-place k key entry (sort_by_ts m) (get-sort_by_ts key m d ∙ p)
      ∙ ap (λ o. if same_text key k then some entry else o) (get-sort_by_ts k m d)

  pub sort_by_ts-DistinctKeys :
      (m : List (JsString × Timed V)) → DistinctKeys m → DistinctKeys (sort_by_ts m)
  unfolding sort_by_ts
  sort_by_ts-DistinctKeys [] d = tt
  sort_by_ts-DistinctKeys ((key, entry) ∷ m) (p, d) =
      place-DistinctKeys key entry (sort_by_ts m) (get-sort_by_ts key m d ∙ p)
        (sort_by_ts-DistinctKeys m d)

  pub length-sort_by_ts : (m : List (JsString × Timed V)) → length (sort_by_ts m) ≡ length m
  unfolding sort_by_ts
  length-sort_by_ts [] = refl
  length-sort_by_ts (e ∷ m) = omega (arith, length-place e (sort_by_ts m), length-sort_by_ts m)

  -- The times do not fall.
  abbrev pub IsSorted : List (JsString × Timed V) → Type 0
  IsSorted [] = Unit
  IsSorted (e ∷ m) = All (λ x. e.1.ts ≤ x.1.ts) m × IsSorted m

  place-All :
      (P : JsString × Timed V → Type 0) (e : JsString × Timed V) (m : List (JsString × Timed V))
      → P e
      → All P m
      → All P (place e m)
  unfolding place
  place-All P e [] p h = (p, tt)
  place-All P e (x ∷ m) p (q, h) = elim (Bool-cases (leb e.1.ts x.1.ts)) [
    | inl before ↦ rw before (p, (q, h))
    | inr later ↦ rw later (q, place-All P e m p h)
  ]

  place-IsSorted :
      (e : JsString × Timed V) (m : List (JsString × Timed V)) → IsSorted m → IsSorted (place e m)
  unfolding place
  place-IsSorted e [] h = (tt, tt)
  place-IsSorted e (x ∷ m) (all, h) = elim (Bool-cases (leb e.1.ts x.1.ts)) [
    | inl before ↦
        let le : e.1.ts ≤ x.1.ts = ground (arith, before) in
        rw before ((le, All-map _ _ (λ y q. omega (arith, le, q)) m all), (all, h))
    | inr later ↦
        rw later
          (place-All (λ y. x.1.ts ≤ y.1.ts) e m (ground (arith, later)) all, place-IsSorted e m h)
  ]

  pub sort_by_ts-IsSorted : (m : List (JsString × Timed V)) → IsSorted (sort_by_ts m)
  unfolding sort_by_ts
  sort_by_ts-IsSorted [] = tt
  sort_by_ts-IsSorted (e ∷ m) = place-IsSorted e (sort_by_ts m) (sort_by_ts-IsSorted m)
