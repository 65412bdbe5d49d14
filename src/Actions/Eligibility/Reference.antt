-- ===== src/Actions/Eligibility/Reference.antt =====
-- A plain search from the highest id down, against which the batched searches are measured.
use winny.Base.{
  ℕ, zero, suc, ◌-◌, ◌≤◌, ◌<◌, ◌≡◌, refl, ap, subst, sym, ◌∙◌, Bool, true, false, ◌&&◌, Option,
  none, some, Bool-cases, inl, inr, List, [], ◌∷◌, ◌++◌, map, ltb, if◌then◌else◌, arith,
}
use native.Mathlib.Nat.{zero-sub}
use native.Mathlib.Decide.{ℕ_discrete}
use winny.Bytes.{Buffer}
use winny.Actions.{Result, ok, error, ActionError}
use winny.Actions.Eligibility.{descending_batch, descending_batches, first_passing, all_passing}

-- The ids from `n` down to `end`.
abbrev pub descending : ℕ → ℕ → List ℕ
descending zero end = []
descending (suc n) end = if ltb (suc n) end then [] else suc n ∷ descending n end

abbrev pub concat : List (List ℕ) → List ℕ
concat [] = []
concat (ids ∷ batches) = ids ++ concat batches

descending_below : (n end : ℕ) → n < end → descending n end ≡ []
descending_below zero end h = refl
descending_below (suc n) end h = ground (arith, h)

batch-descending :
    (size n end : ℕ)
    → 0 < end
    → descending_batch size n end ++ descending (n - size) end ≡ descending n end
unfolding descending_batch
batch-descending zero n end h = ap (λ k. descending k end) (omega arith)
batch-descending (suc size) zero end h =
    ground (arith, h, ap (λ k. descending k end) (zero-sub (suc size)))
batch-descending (suc size) (suc n) end h = elim (Bool-cases (ltb (suc n) end)) [
  | inl below ↦
      ground (arith, below, descending_below (suc n - suc size) end (ground (arith, below, h)))
  | inr above ↦ ground (arith, above, tail (batch-descending size n end h))
]
  where
    tail :
        descending_batch size n end ++ descending (n - size) end ≡ descending n end
        → descending_batch size (suc n - 1) end ++ descending (suc n - suc size) end
          ≡ descending n end
    tail e =
        subst
          (λ k. descending_batch size k end ++ descending (suc n - suc size) end ≡ descending n end)
          (omega arith)
          (subst (λ k. descending_batch size n end ++ descending k end ≡ descending n end)
            (omega arith) e)

-- With fuel for as many batches as there are ids, the batches are the ids from `n` down, in order.
pub batches-descending :
    (fuel n end size : ℕ)
    → 0 < end
    → 0 < size
    → n < fuel
    → concat (descending_batches fuel n end size) ≡ descending n end
unfolding descending_batches
batches-descending zero n end size h k le = absurd (omega (arith, le))
batches-descending (suc fuel) n end size h k le = elim (Bool-cases (ltb n end)) [
  | inl below ↦ ground (arith, below, descending_below n end (ground (arith, below)))
  | inr above ↦ ground (
    arith,
    above,
    ap (λ t. descending_batch size n end ++ t)
        (batches-descending fuel (n - size) end size h k (ground (arith, above, h, k, le))),
    batch-descending size n end h,
  )
]

-- The first number of a list that passes.
abbrev pub find_first : (ℕ → Bool) → List ℕ → Option ℕ
find_first p [] = none
find_first p (i ∷ is) = if p i then some i else find_first p is

abbrev pub first_of : Option ℕ → Option ℕ → Option ℕ
first_of none b = b
first_of (some a) b = some a

pub find_first-append :
    (p : ℕ → Bool) (is js : List ℕ)
    → find_first p (is ++ js) ≡ first_of (find_first p is) (find_first p js)
find_first-append p [] js = refl
find_first-append p (i ∷ is) js = ground (arith, find_first-append p is js)

pub first_passing-find_first :
    (test : Option Buffer → Bool) (accounts : ℕ → Option Buffer) (ids : List ℕ)
    → first_passing test ids (map accounts ids) ≡ find_first (λ i. test (accounts i)) ids
unfolding first_passing
first_passing-find_first test accounts [] = refl
first_passing-find_first test accounts (id ∷ ids) =
    ground (arith, first_passing-find_first test accounts ids)

-- Looking among those that pass one test for one that passes another.
pub find_first-all_passing :
    (test : Option Buffer → Bool) (accounts : ℕ → Option Buffer) (p : ℕ → Bool) (ids : List ℕ)
    → find_first p (all_passing test ids (map accounts ids))
      ≡ find_first (λ i. test (accounts i) && p i) ids
unfolding all_passing
find_first-all_passing test accounts p [] = refl
find_first-all_passing test accounts p (id ∷ ids) =
    ground (arith, find_first-all_passing test accounts p ids)

abbrev pub or_error : ActionError → Option ℕ → Result ℕ
or_error e none = error e
or_error e (some id) = ok id

-- What an answer says of the ids from `lo` to `hi`: the highest that passes, or that none does.
abbrev pub IsLatest : ActionError → (ℕ → Bool) → ℕ → ℕ → Result ℕ → Type 0
IsLatest e p lo hi (ok id) =
    (lo ≤ id) × (id ≤ hi) × (p id ≡ true) × ((j : ℕ) → id < j → j ≤ hi → p j ≡ false)
IsLatest e p lo hi (error e') = (e' ≡ e) × ((j : ℕ) → lo ≤ j → j ≤ hi → p j ≡ false)

IsLatest-extend :
    (e : ActionError) (p : ℕ → Bool) (lo hi : ℕ) (r : Result ℕ)
    → p (suc hi) ≡ false
    → IsLatest e p lo hi r
    → IsLatest e p lo (suc hi) r
IsLatest-extend e p lo hi (ok id) fails (lo_le, le, passes, above) = (
  lo_le,
  omega (arith, le),
  passes,
  λ j lt j_le. elim (ℕ_discrete j (suc hi)) [
    | yes same ↦ ap p same ∙ fails
    | no apart ↦ above j lt (omega (arith, j_le, apart))
  ],
)
IsLatest-extend e p lo hi (error e') fails (same_error, none_passes) = (
  same_error,
  λ j lo_le j_le. elim (ℕ_discrete j (suc hi)) [
    | yes same ↦ ap p same ∙ fails
    | no apart ↦ none_passes j lo_le (omega (arith, j_le, apart))
  ],
)

pub find_first-IsLatest :
    (e : ActionError) (p : ℕ → Bool) (lo hi : ℕ)
    → 0 < lo
    → IsLatest e p lo hi (or_error e (find_first p (descending hi lo)))
find_first-IsLatest e p lo zero h = (refl, λ j above below. absurd (omega (arith, h, above, below)))
find_first-IsLatest e p lo (suc hi) h =
    go (ltb (suc hi) lo) (p (suc hi)) refl refl (find_first-IsLatest e p lo hi h)
  where
    go :
        (below passes : Bool)
        → ltb (suc hi) lo ≡ below
        → p (suc hi) ≡ passes
        → IsLatest e p lo hi (or_error e (find_first p (descending hi lo)))
        → IsLatest e p lo
            (suc hi)
            (or_error e (find_first p (if below then [] else suc hi ∷ descending hi lo)))
    go true passes b q rest = (refl, λ j lo_le le. absurd (ground (arith, b, lo_le, le)))
    go false passes b q rest =
        subst (λ o. IsLatest e p lo (suc hi) (or_error e o)) (sym (step passes q)) (chosen passes q)
      where
        step :
            (passes : Bool)
            → p (suc hi) ≡ passes
            → find_first p (suc hi ∷ descending hi lo)
              ≡ (if passes then some (suc hi) else find_first p (descending hi lo))
        step passes q = rw q refl

        chosen :
            (passes : Bool)
            → p (suc hi) ≡ passes
            → IsLatest e p lo
                (suc hi)
                (or_error e (if passes then some (suc hi) else find_first p (descending hi lo)))
        chosen true q =
            (ground (arith, b), omega arith, q, λ j lt le. absurd (omega (arith, lt, le)))
        chosen false q = IsLatest-extend e p lo hi _ q rest
