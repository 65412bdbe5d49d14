-- ===== src/Base/Maps.antt =====
-- JavaScript's `Map` and `Set` with number keys. A map is an association list in which a write of
-- a key that is there replaces its value in place; a set is a list without repetitions, in the
-- order of insertion, which is the order in which the program goes through it.
use Prim.Native.Nat.{ℕ, zero, suc, ◌≤◌, ◌<◌}
use mathlib.Core.Path.{◌≡◌, refl}
use mathlib.Core.Logic.{inl, inr}
use mathlib.Core.Bool.{Bool, true, false, ◌||◌}
use mathlib.Core.Option.{Option, none, some}
use mathlib.Core.List.{List, [], ◌∷◌}
use native.Mathlib.Omega.{arith}
use winny.Base.Lists.{length}
use winny.Base.Tests.{Bool-cases, ◌==◌, if◌then◌else◌}

module _ {ℓ} {V : Type ℓ} where
  -- m.get(key)
  unfoldable pub lookup : ℕ → List (ℕ × V) → Option V
  lookup key [] = none
  lookup key ((seen, value) ∷ entries) =
      let later = lookup key entries in if seen == key then some value else later

  -- m.set(key, value)
  unfoldable pub insert : ℕ → V → List (ℕ × V) → List (ℕ × V)
  insert key value [] = (key, value) ∷ []
  insert key value ((seen, old) ∷ entries) =
      let later = insert key value entries in
      if seen == key then (key, value) ∷ entries else (seen, old) ∷ later

  -- m.delete(k)
  unfoldable pub erase : ℕ → List (ℕ × V) → List (ℕ × V)
  erase k [] = []
  erase k ((j, w) ∷ m) = let rest = erase k m in if j == k then rest else (j, w) ∷ rest

  pub lookup-insert :
      (key other : ℕ) (value : V) (entries : List (ℕ × V))
      → lookup other (insert key value entries)
        ≡ (if key == other then some value else lookup other entries)
  unfolding insert lookup
  lookup-insert key other value [] = refl
  lookup-insert key other value ((seen, old) ∷ entries) =
      ground (arith, lookup-insert key other value entries)

  pub lookup-erase :
      (k j : ℕ) (m : List (ℕ × V)) → lookup j (erase k m) ≡ (if k == j then none else lookup j m)
  unfolding lookup erase
  lookup-erase k j [] = ground arith
  lookup-erase k j ((i, w) ∷ m) = ground (arith, lookup-erase k j m)

  pub lookup_empty : (k : ℕ) → lookup k [] ≡ none
  unfolding lookup
  lookup_empty k = refl

  -- m.has(k)
  abbrev pub has_key : ℕ → List (ℕ × V) → Bool
  has_key k m = elim (lookup k m) [ none ↦ false | some _ ↦ true ]

-- s.has(k)
unfoldable pub contains : ℕ → List ℕ → Bool
contains k [] = false
contains k (j ∷ s) = j == k || contains k s

pub contains_empty : (k : ℕ) → contains k [] ≡ false
unfolding contains
contains_empty k = refl

pub contains-cons : (k j : ℕ) (s : List ℕ) → contains k (j ∷ s) ≡ (j == k || contains k s)
unfolding contains
contains-cons k j s = refl

-- s.add(k)
unfoldable pub add : ℕ → List ℕ → List ℕ
add k [] = k ∷ []
add k (j ∷ s) = if j == k then j ∷ s else j ∷ add k s

-- s.delete(k)
unfoldable pub remove : ℕ → List ℕ → List ℕ
remove k [] = []
remove k (j ∷ s) = let rest = remove k s in if j == k then rest else j ∷ rest

pub contains-add : (k j : ℕ) (s : List ℕ) → contains j (add k s) ≡ (k == j || contains j s)
unfolding contains add
contains-add k j [] = ground arith
contains-add k j (i ∷ s) = ground (arith, contains-add k j s)

pub contains-remove :
    (k j : ℕ) (s : List ℕ) → contains j (remove k s) ≡ (if k == j then false else contains j s)
unfolding contains remove
contains-remove k j [] = ground arith
contains-remove k j (i ∷ s) = ground (arith, contains-remove k j s)

-- A set holds no number twice.
abbrev pub Distinct : List ℕ → Type 0
Distinct [] = Unit
Distinct (j ∷ s) = (contains j s ≡ false) × Distinct s

pub add-Distinct : (k : ℕ) (s : List ℕ) → Distinct s → Distinct (add k s)
unfolding add
add-Distinct k [] h = (unfold contains in refl, tt)
add-Distinct k (j ∷ s) (p, h) = ground (arith, contains-add k j s, add-Distinct k s h)

pub remove-Distinct : (k : ℕ) (s : List ℕ) → Distinct s → Distinct (remove k s)
unfolding remove
remove-Distinct k [] h = tt
remove-Distinct k (j ∷ s) (p, h) = ground (arith, contains-remove k j s, remove-Distinct k s h)

length-remove_le : (k : ℕ) (s : List ℕ) → length (remove k s) ≤ length s
unfolding remove
length-remove_le k [] = omega arith
length-remove_le k (j ∷ s) = ground (arith, length-remove_le k s)

length-remove_lt : (k : ℕ) (s : List ℕ) → contains k s ≡ true → length (remove k s) < length s
unfolding remove
length-remove_lt k [] h = ground (arith, h, contains_empty k)
length-remove_lt k (j ∷ s) h =
    ground (arith, contains-cons k j s, h, length-remove_lt k s, length-remove_le k s)

-- A set of fewer than `n` numbers misses a number below `n`.
pub missing : (n : ℕ) (s : List ℕ) → length s < n → (i : ℕ) × (i < n) × (contains i s ≡ false)
missing zero s h = absurd (omega (arith, h))
missing (suc n) s h = elim (Bool-cases (contains n s)) [
  | inl here ↦
      let rest = missing n (remove n s) (omega (arith, h, length-remove_lt n s here)) in
      (rest.0, omega (arith, rest.1), ground (arith, rest.1, rest.2, contains-remove n rest.0 s))
  | inr apart ↦ (n, omega arith, apart)
]

pub length-add_le : (k : ℕ) (s : List ℕ) → length (add k s) ≤ suc (length s)
unfolding add
length-add_le k [] = omega arith
length-add_le k (j ∷ s) = ground (arith, length-add_le k s)

pub ruleset map_laws = (lookup-insert, lookup-erase, contains-add, contains-remove)
