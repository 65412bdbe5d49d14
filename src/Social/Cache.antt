-- ===== src/Social/Cache.antt =====
-- The server's caches of lib/api/tapestry-shared.ts: entries with the time of their writing, which
-- are read while they are fresh, and of which the oldest are dropped when there are too many.
pub mod Sorting
pub mod Eviction
pub mod Bounds
use winny.Base.{
  ℕ, ◌+◌, ◌-◌, Option, none, some, List, [], ◌∷◌, length, take, ltb, leb, if◌then◌else◌,
}
use winny.Text.{JsString}
use winny.Text.Dict.{get, set, delete}

pub record Timed (V : Type 0) : Type 0 where
  pub ts : ℕ
  pub value : V

module _ {V : Type 0} where
  -- `.sort((a, b) => a[1].ts - b[1].ts)` is stable: an entry goes before those that are not older.
  unfoldable pub place : JsString × Timed V → List (JsString × Timed V) → List (JsString × Timed V)
  place e [] = e ∷ []
  place e (x ∷ xs) = let rest = place e xs in if leb e.1.ts x.1.ts then e ∷ x ∷ xs else x ∷ rest

  unfoldable pub sort_by_ts : List (JsString × Timed V) → List (JsString × Timed V)
  unfolding place
  sort_by_ts [] = []
  sort_by_ts (e ∷ es) = place e (sort_by_ts es)

  -- `for (const [key] of oldest) map.delete(key)`
  unfoldable pub delete_all :
      List (JsString × Timed V) → List (JsString × Timed V) → List (JsString × Timed V)
  delete_all [] m = m
  delete_all ((key, entry) ∷ oldest) m = delete_all oldest (delete key m)

  unfoldable pub evict_oldest_entries : ℕ → List (JsString × Timed V) → List (JsString × Timed V)
  unfolding sort_by_ts delete_all
  evict_oldest_entries max_entries m =
      if leb (length m) max_entries
      then m
      else delete_all (take (length m - max_entries) (sort_by_ts m)) m

  -- An entry is read while it is not older than its time to live, and else deleted.
  unfoldable pub get_fresh :
      ℕ → ℕ → JsString → List (JsString × Timed V) → Option V × List (JsString × Timed V)
  get_fresh ttl now key m = elim (get key m) [
    | none ↦ (none, m)
    | some hit ↦ if ltb (hit.ts + ttl) now then (none, delete key m) else (some hit.value, m)
  ]

  unfoldable pub remember :
      ℕ → ℕ → JsString → V → List (JsString × Timed V) → List (JsString × Timed V)
  remember max_entries now key value m =
      evict_oldest_entries max_entries (set key (record { ts = now; value = value }) m)
