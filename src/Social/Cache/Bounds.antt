-- ===== src/Social/Cache/Bounds.antt =====
-- The caches stay within their bounds.
use winny.Base.{
  take, ◌-◌, ℕ, ◌+◌, ◌≤◌, Option, none, some, List, [], ◌∷◌, length, leb, ltb, if◌then◌else◌, arith,
  inl, inr, Bool-cases,
}
use winny.Text.{JsString}
use winny.Text.Dict.{
  get, set, delete, DistinctKeys, delete-DistinctKeys, length-delete_le, set-DistinctKeys,
}
use winny.Social.Cache.{sort_by_ts, Timed, delete_all, evict_oldest_entries, get_fresh, remember}
use winny.Social.Cache.Eviction.{evict_oldest_entries-IsEviction}

module _ {V : Type 0} where
  delete_all-DistinctKeys :
      (oldest m : List (JsString × Timed V)) → DistinctKeys m → DistinctKeys (delete_all oldest m)
  unfolding delete_all
  delete_all-DistinctKeys [] m d = d
  delete_all-DistinctKeys ((key, entry) ∷ oldest) m d =
      delete_all-DistinctKeys oldest (delete key m) (delete-DistinctKeys key m d)

  -- Each key stands once, and there are no more entries than may be.
  pub record IsBounded (max_entries : ℕ) (m : List (JsString × Timed V)) : Type 0 where
    pub distinct : DistinctKeys m
    pub size : length m ≤ max_entries

  evict_oldest_entries-DistinctKeys :
      (max_entries : ℕ) (m : List (JsString × Timed V))
      → DistinctKeys m
      → DistinctKeys (evict_oldest_entries max_entries m)
  unfolding evict_oldest_entries
  evict_oldest_entries-DistinctKeys max_entries m d =
      elim (Bool-cases (leb (length m) max_entries)) [
        | inl fits ↦ rw fits d
        | inr full ↦
            rw full (delete_all-DistinctKeys (take (length m - max_entries) (sort_by_ts m)) m d)
      ]

  pub remember-IsBounded :
      (max_entries now : ℕ) (key : JsString) (value : V) (m : List (JsString × Timed V))
      → DistinctKeys m
      → IsBounded max_entries (remember max_entries now key value m)
  unfolding remember
  remember-IsBounded max_entries now key value m d =
      let entry : Timed V = record { ts = now; value = value } in
      let wide : DistinctKeys (set key entry m) = set-DistinctKeys key entry m d in
      record {
        distinct = evict_oldest_entries-DistinctKeys max_entries (set key entry m) wide;
        size =
            omega
              (arith, (evict_oldest_entries-IsEviction max_entries (set key entry m) wide).size);
      }

  delete-IsBounded :
      (max_entries : ℕ) (key : JsString) (m : List (JsString × Timed V))
      → IsBounded max_entries m
      → IsBounded max_entries (delete key m)
  delete-IsBounded max_entries key m b = record {
    distinct = delete-DistinctKeys key m b.distinct;
    size = omega (arith, b.size, length-delete_le key m);
  }

  pub get_fresh-IsBounded :
      (max_entries ttl now : ℕ) (key : JsString) (m : List (JsString × Timed V))
      → IsBounded max_entries m
      → IsBounded max_entries (get_fresh ttl now key m).1
  unfolding get_fresh
  get_fresh-IsBounded max_entries ttl now key m b = go (get key m)
    where
      go :
          (o : Option (Timed V))
          → IsBounded max_entries
              (elim o as (λ x. Option V × List (JsString × Timed V)) [
                | none ↦ (none, m)
                | some hit ↦
                    if ltb (hit.ts + ttl) now then (none, delete key m) else (some hit.value, m)
              ]).1
      go none = b
      go (some hit) = elim (Bool-cases (ltb (hit.ts + ttl) now)) [
        | inl stale ↦ rw stale (delete-IsBounded max_entries key m b)
        | inr fresh ↦ rw fresh b
      ]
