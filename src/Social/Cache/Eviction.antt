-- ===== src/Social/Cache/Eviction.antt =====
-- What is dropped from a cache that is too large.
use winny.Base.{
  ℕ, zero, suc, ◌+◌, ◌-◌, ◌≤◌, ◌<◌, min, ◌≡◌, refl, sym, subst, ◌∙◌, false, none, some, List, [],
  ◌∷◌, length, take, leb, arith, inl, inr, Bool-cases, Option-cases, All, All-map,
}
use winny.Text.{JsString, same_text}
use winny.Text.Dict.{
  get, delete, DistinctKeys, same_text_iff, get-delete, delete-DistinctKeys, length-delete,
}
use winny.Social.Cache.{Timed, sort_by_ts, delete_all, evict_oldest_entries}
use winny.Social.Cache.Sorting.{
  get-sort_by_ts, sort_by_ts-DistinctKeys, length-sort_by_ts, IsSorted, sort_by_ts-IsSorted,
}

module _ {V : Type 0} where
  -- Every key of the first list is one of the second.
  abbrev Within : List (JsString × Timed V) → List (JsString × Timed V) → Type 0
  Within oldest m = All (λ e. (v : Timed V) × (get e.0 m ≡ some v)) oldest

  get-delete_all :
      (k : JsString) (oldest m : List (JsString × Timed V))
      → DistinctKeys m
      → get k (delete_all oldest m) ≡ elim (get k oldest) [ none ↦ get k m | some v ↦ none ]
  unfolding get delete_all
  get-delete_all k [] m d = refl
  get-delete_all k ((key, entry) ∷ oldest) m d =
      get-delete_all k oldest (delete key m) (delete-DistinctKeys key m d)
      ∙ ground (arith, get-delete key k m d)

  delete-Within :
      (key : JsString) (oldest m : List (JsString × Timed V))
      → DistinctKeys m
      → get key oldest ≡ none
      → Within oldest m
      → Within oldest (delete key m)
  unfolding get
  delete-Within key [] m d apart h = tt
  delete-Within key ((j, x) ∷ oldest) m d apart ((v, here), h) = (
    (
      v,
      ground (arith, apart, here, get-delete key j m d, same_text_iff j key, same_text_iff key j),
    ),
    delete-Within key oldest m d (ground (arith, apart)) h,
  )

  length-delete_all :
      (oldest m : List (JsString × Timed V))
      → DistinctKeys m
      → DistinctKeys oldest
      → Within oldest m
      → length (delete_all oldest m) + length oldest ≡ length m
  unfolding delete_all
  length-delete_all [] m d e h = omega arith
  length-delete_all ((key, entry) ∷ oldest) m d (p, e) ((v, here), h) = omega (
    arith,
    length-delete key m v here,
    length-delete_all oldest (delete key m) (delete-DistinctKeys key m d) e
        (delete-Within key oldest m d p h),
  )

  get-take :
      (k : JsString) (v : Timed V) (n : ℕ) (m : List (JsString × Timed V))
      → get k (take n m) ≡ some v
      → get k m ≡ some v
  unfolding get
  get-take k v zero m h = cc
  get-take k v (suc n) [] h = h
  get-take k v (suc n) ((j, x) ∷ m) h = ground (arith, h, get-take k v n m)

  take_absent :
      (k : JsString) (n : ℕ) (m : List (JsString × Timed V))
      → get k m ≡ none
      → get k (take n m) ≡ none
  unfolding get
  take_absent k zero m h = refl
  take_absent k (suc n) [] h = h
  take_absent k (suc n) ((j, x) ∷ m) h = ground (arith, h, take_absent k n m)

  take-DistinctKeys :
      (n : ℕ) (m : List (JsString × Timed V)) → DistinctKeys m → DistinctKeys (take n m)
  take-DistinctKeys zero m d = tt
  take-DistinctKeys (suc n) [] d = tt
  take-DistinctKeys (suc n) ((j, x) ∷ m) (p, d) = (take_absent j n m p, take-DistinctKeys n m d)

  take-All :
      (P : JsString × Timed V → Type 0) (n : ℕ) (m : List (JsString × Timed V))
      → All P m
      → All P (take n m)
  take-All P zero m h = tt
  take-All P (suc n) [] h = tt
  take-All P (suc n) (x ∷ m) (p, h) = (p, take-All P n m h)

  length-take : (n : ℕ) (m : List (JsString × Timed V)) → n ≤ length m → length (take n m) ≡ n
  length-take zero m h = refl
  length-take (suc n) [] h = absurd (omega arith)
  length-take (suc n) (x ∷ m) h = omega (arith, length-take n m (omega arith))

  all-Within : (m : List (JsString × Timed V)) → Within m m
  unfolding get
  all-Within [] = tt
  all-Within ((key, entry) ∷ m) =
      ((entry, ground (arith, same_text_iff key key)), All-map _ _ below m (all-Within m))
    where
      below :
          (e : JsString × Timed V)
          → (v : Timed V) × (get e.0 m ≡ some v)
          → (v : Timed V) × (get e.0 ((key, entry) ∷ m) ≡ some v)
      below e (v, h) = elim (Bool-cases (same_text key e.0)) [
        | inl same ↦ (entry, ground (arith, same))
        | inr other ↦ (v, ground (arith, other, h))
      ]

  get-All :
      (a : ℕ) (k : JsString) (t : Timed V) (m : List (JsString × Timed V))
      → All (λ x. a ≤ x.1.ts) m
      → get k m ≡ some t
      → a ≤ t.ts
  unfolding get
  get-All a k t [] all h = cc
  get-All a k t ((j, x) ∷ m) (p, all) h = elim (Bool-cases (same_text j k)) [
    | inl here ↦ let same : x ≡ t = cc (rw here at h) in subst (λ (y : Timed V). a ≤ y.ts) same p
    | inr later ↦ get-All a k t m all (rw later at h)
  ]

  -- In a sorted list the first entries are not newer than the others.
  first-older :
      (k j : JsString) (u t : Timed V) (n : ℕ) (m : List (JsString × Timed V))
      → IsSorted m
      → get k (take n m) ≡ some u
      → get j (take n m) ≡ none
      → get j m ≡ some t
      → u.ts ≤ t.ts
  unfolding get
  first-older k j u t zero m s e f h = cc
  first-older k j u t (suc n) [] s e f h = cc
  first-older k j u t (suc n) ((i, x) ∷ m) (all, s) e f h =
      let apart : same_text i j ≡ false = ground (arith, f) in
      let f' : get j (take n m) ≡ none = ground (arith, f) in
      let h' : get j m ≡ some t = rw apart at h in
      elim (Bool-cases (same_text i k)) [
        | inl here ↦
            let same : x ≡ u = cc (rw here at e) in
            subst (λ (y : Timed V). y.ts ≤ t.ts) same (get-All x.ts j t m all h')
        | inr later ↦ first-older k j u t n m s (rw later at e) f' h'
      ]

  -- What is left of a cache that may hold a number of entries at most.
  pub record IsEviction (max_entries : ℕ) (m left : List (JsString × Timed V)) : Type 0 where
    pub size : length left ≡ min max_entries (length m)
    pub kept : (k : JsString) (t : Timed V) → get k left ≡ some t → get k m ≡ some t
    pub older :
        (k j : JsString) (u t : Timed V)
        → get k m ≡ some u
        → get k left ≡ none
        → get j left ≡ some t
        → u.ts ≤ t.ts

  -- In a cache with each key once: what is left are as many of its entries as may be, unchanged,
  -- and none that is dropped is newer than one that is left.
  pub evict_oldest_entries-IsEviction :
      (max_entries : ℕ) (m : List (JsString × Timed V))
      → DistinctKeys m
      → IsEviction max_entries m (evict_oldest_entries max_entries m)
  unfolding evict_oldest_entries
  evict_oldest_entries-IsEviction max_entries m d = elim (Bool-cases (leb (length m) max_entries)) [
    | inl fits ↦ rw fits (record {
      size = ground (arith, fits);
      kept = λ k t h. h;
      older = λ k j u t h absent kept. cc;
    })
    | inr full ↦ rw full (evicted (ground (arith, full)))
  ]
    where
      dropped : ℕ
      dropped = length m - max_entries

      oldest : List (JsString × Timed V)
      oldest = take dropped (sort_by_ts m)

      sorted-DistinctKeys : DistinctKeys (sort_by_ts m)
      sorted-DistinctKeys = sort_by_ts-DistinctKeys m d

      within : Within oldest m
      within = take-All _ dropped (sort_by_ts m) (
          All-map _ _ (λ e (v, h). (v, sym (get-sort_by_ts e.0 m d) ∙ h)) (sort_by_ts m)
            (all-Within (sort_by_ts m)))

      evicted : max_entries < length m → IsEviction max_entries m (delete_all oldest m)
      evicted more = record {
        size = omega (
          arith,
          length-delete_all oldest m d (take-DistinctKeys dropped _ sorted-DistinctKeys) within,
          length-take dropped (sort_by_ts m) (omega (arith, length-sort_by_ts m)),
        );
        kept = λ k t h. ground (arith, h, get-delete_all k oldest m d);
        older = λ k j u t h absent left.
            let gone : (v : Timed V) × (get k oldest ≡ some v) =
              elim (Option-cases (get k oldest)) [
                | inl stays ↦ absurd (ground (arith, h, absent, stays, get-delete_all k oldest m d))
                | inr found ↦ found
              ] in
            let stays : get j oldest ≡ none = ground (arith, left, get-delete_all j oldest m d) in
            let kept : get j m ≡ some t = ground (arith, left, get-delete_all j oldest m d) in
            let same : gone.0 ≡ u =
              cc (get-take k gone.0 dropped _ gone.1, get-sort_by_ts k m d, h) in
            subst (λ (y : Timed V). y.ts ≤ t.ts) same
              (first-older k j gone.0 t dropped _ (sort_by_ts-IsSorted m) gone.1 stays
                (get-sort_by_ts j m d ∙ kept));
      }
