-- ===== src/Degen/Candidates.antt =====
-- What `deriveCandidates` yields (crank/src/degenLogic.ts).
use winny.Base.{
  ℕ, zero, suc, ◌+◌, ◌%◌, ◌≤◌, ◌<◌, min, ◌≡◌, ◌≢◌, refl, ap, ◌∙◌, true, false, some, List, [], ◌∷◌,
  map, length, get_elem?, contains, contains-cons, contains_empty, add, take, contains-add, missing,
  length-add_le, inl, inr, Distinct, arith, Bool-cases,
}
use winny.Text.{JsString}
use winny.Bytes.{Buffer, get_uint, subarray, le_value}
use native.Mathlib.Nat.{mod-lt}
use winny.Degen.{
  Candidate, drawn, derived, decode_u32_le, draw_digest, draw_index, draw_unused, derive_from,
  derive_candidates,
}

-- The candidates of the ranks from `rank` on: one for each, with an index in the pool that is not
-- used and the mint at that index.
abbrev pub AreCandidates : List JsString → ℕ → List ℕ → ℕ → List Candidate → Type 0
AreCandidates pool rank used zero [] = Unit
AreCandidates pool rank used zero (c ∷ cs) = ⊥
AreCandidates pool rank used (suc left) [] = ⊥
AreCandidates pool rank used (suc left) (c ∷ cs) =
    (c.rank ≡ rank)
    × (contains c.index used ≡ false)
    × ((mint : JsString) × (get_elem? pool c.index ≡ some mint) × (c.mint ≡ some mint))
    × AreCandidates pool (rank + 1) (add c.index used) left cs

get_elem?-lt :
    {A : Type 0} (xs : List A) (i : ℕ) → i < length xs → (x : A) × (get_elem? xs i ≡ some x)
get_elem?-lt [] i h = absurd (omega (arith, h))
get_elem?-lt (x ∷ xs) zero h = (x, refl)
get_elem?-lt (x ∷ xs) (suc i) h = get_elem?-lt xs i (omega (arith, h))

length-take : {A : Type 0} (n : ℕ) (xs : List A) → n ≤ length xs → length (take n xs) ≡ n
length-take zero xs h = refl
length-take (suc n) [] h = absurd (omega (arith, h))
length-take (suc n) (x ∷ xs) h = ap suc (length-take n xs (omega (arith, h)))

-- For each rank, each index of the pool is drawn by some nonce below the fuel.
abbrev pub Reaches : (Buffer → Buffer) → Buffer → ℕ → List JsString → ℕ → Type 0
Reaches digest randomness pool_version pool fuel =
    (rank i : ℕ)
    → i < length pool
    → (nonce : ℕ) × (nonce < fuel)
      × (draw_index digest randomness pool_version pool rank nonce ≡ some i)

decode_u32_le-some :
    (d : Buffer) → 4 ≤ length d → (n : ℕ) × (decode_u32_le (subarray d 0 4) ≡ some n)
unfolding decode_u32_le get_uint subarray
decode_u32_le-some d long = (le_value (take 4 (take 4 d)), ground (arith, length-take 4 d long))

module _ (digest : Buffer → Buffer) (randomness : Buffer) (pool_version : ℕ) (pool : List JsString)
    (sized : (payload : Buffer) → length (digest payload) ≡ 32) where
  long_digest :
      (rank nonce : ℕ) → 4 ≤ length (draw_digest digest randomness pool_version pool rank nonce)
  unfolding draw_digest
  long_digest rank nonce = omega (arith, sized _)

  -- A digest of 32 bytes is long enough, so every nonce draws an index of the pool.
  draw_index-in_pool :
      (rank nonce : ℕ)
      → 0 < length pool
      → (i : ℕ) × (draw_index digest randomness pool_version pool rank nonce ≡ some i)
        × (i < length pool)
  unfolding draw_index
  draw_index-in_pool rank nonce filled =
      let (n, e) = decode_u32_le-some _ (long_digest rank nonce) in
      (n % length pool, ground (arith, e), mod-lt n filled)

  draw_unused-used :
      (fuel rank nonce : ℕ) (used : List ℕ) (j : ℕ)
      → draw_index digest randomness pool_version pool rank nonce ≡ some j
      → contains j used ≡ true
      → draw_unused digest randomness pool_version pool (suc fuel) rank nonce used
        ≡ draw_unused digest randomness pool_version pool fuel rank (nonce + 1) used
  unfolding draw_unused
  draw_unused-used fuel rank nonce used j e old = ground (arith, e, old)

  draw_unused-fresh :
      (fuel rank nonce : ℕ) (used : List ℕ) (j : ℕ)
      → draw_index digest randomness pool_version pool rank nonce ≡ some j
      → contains j used ≡ false
      → draw_unused digest randomness pool_version pool (suc fuel) rank nonce used ≡ drawn j
  unfolding draw_unused
  draw_unused-fresh fuel rank nonce used j e unused = ground (arith, e, unused)

  draw_unused-drawn :
      (fuel rank nonce : ℕ) (used : List ℕ) (target i : ℕ)
      → 0 < length pool
      → nonce ≤ target
      → target < nonce + fuel
      → draw_index digest randomness pool_version pool rank target ≡ some i
      → contains i used ≡ false
      → (j : ℕ) × (draw_unused digest randomness pool_version pool fuel rank nonce used ≡ drawn j)
        × (contains j used ≡ false)
        × (j < length pool)
  draw_unused-drawn zero rank nonce used target i filled le lt e apart =
      absurd (omega (arith, le, lt))
  draw_unused-drawn (suc fuel) rank nonce used target i filled le lt e apart =
      let (j, drawn_j, j_in) = draw_index-in_pool rank nonce filled in
      elim (Bool-cases (contains j used)) [
        | inr unused ↦ (j, draw_unused-fresh fuel rank nonce used j drawn_j unused, unused, j_in)
        | inl old ↦
            let later : nonce ≢ target = λ same. ground (arith, same, e, drawn_j, old, apart) in
            let rest =
              draw_unused-drawn fuel rank (nonce + 1) used target i filled
                (omega (arith, le, later)) (omega (arith, lt)) e apart in
            (rest.0, draw_unused-used fuel rank nonce used j drawn_j old ∙ rest.1, rest.2, rest.3)
      ]

  derive_from_done :
      (fuel rank : ℕ) (used : List ℕ)
      → derive_from digest randomness pool_version pool fuel zero rank used ≡ derived []
  unfolding derive_from
  derive_from_done fuel rank used = refl

  derive_from-step :
      (fuel left rank : ℕ) (used : List ℕ) (j : ℕ) (cs : List Candidate)
      → draw_unused digest randomness pool_version pool fuel rank 0 used ≡ drawn j
      → derive_from digest randomness pool_version pool fuel left (rank + 1) (add j used)
        ≡ derived cs
      → derive_from digest randomness pool_version pool fuel (suc left) rank used
        ≡ derived (record { rank = rank; index = j; mint = get_elem? pool j } ∷ cs)
  unfolding derive_from
  derive_from-step fuel left rank used j cs e rest = ground (arith, e, rest)

  derive_from-AreCandidates :
      (fuel left rank : ℕ) (used : List ℕ)
      → Reaches digest randomness pool_version pool fuel
      → length used + left ≤ length pool
      → (cs : List Candidate) × (derive_from digest randomness pool_version pool fuel left rank used
          ≡ derived cs)
        × AreCandidates pool rank used left cs
  derive_from-AreCandidates fuel zero rank used reaches room =
      ([], derive_from_done fuel rank used, tt)
  derive_from-AreCandidates fuel (suc left) rank used reaches room =
      let (i, i_in, apart) = missing (length pool) used (omega (arith, room)) in
      let (target, lt, e) = reaches rank i i_in in
      let (j, drawn_j, fresh, j_in) =
        draw_unused-drawn fuel rank 0 used target i (omega (arith, i_in)) (omega arith)
          (omega (arith, lt)) e apart in
      let (cs, rest, are) =
        derive_from-AreCandidates fuel left (rank + 1) (add j used) reaches
          (omega (arith, room, length-add_le j used)) in
      let (mint, at) = get_elem?-lt pool j j_in in
      (
        record { rank = rank; index = j; mint = get_elem? pool j } ∷ cs,
        derive_from-step fuel left rank used j cs drawn_j rest,
        (refl, fresh, (mint, at, at), are),
      )

indices-fresh :
    (pool : List JsString) (left rank : ℕ) (used : List ℕ) (cs : List Candidate) (j : ℕ)
    → AreCandidates pool rank used left cs
    → contains j used ≡ true
    → contains j (map (λ c. c.index) cs) ≡ false
indices-fresh pool zero rank used [] j are old = contains_empty j
indices-fresh pool zero rank used (c ∷ cs) j are old = absurd are
indices-fresh pool (suc left) rank used [] j are old = absurd are
indices-fresh pool (suc left) rank used (c ∷ cs) j (at, fresh, mint, are) old =
    let rest =
      indices-fresh pool left (rank + 1) (add c.index used) cs j are
        (ground (arith, old, contains-add c.index j used)) in
    ground (arith, contains-cons j c.index (map (λ c. c.index) cs), rest, fresh, old)

indices-Distinct :
    (pool : List JsString) (left rank : ℕ) (used : List ℕ) (cs : List Candidate)
    → AreCandidates pool rank used left cs
    → Distinct (map (λ c. c.index) cs)
indices-Distinct pool zero rank used [] are = tt
indices-Distinct pool zero rank used (c ∷ cs) are = absurd are
indices-Distinct pool (suc left) rank used [] are = absurd are
indices-Distinct pool (suc left) rank used (c ∷ cs) (at, fresh, mint, are) = (
  indices-fresh pool left (rank + 1) (add c.index used) cs c.index are
      (ground (arith, contains-add c.index c.index used)),
  indices-Distinct pool left (rank + 1) (add c.index used) cs are,
)

length-candidates :
    (pool : List JsString) (left rank : ℕ) (used : List ℕ) (cs : List Candidate)
    → AreCandidates pool rank used left cs
    → length cs ≡ left
length-candidates pool zero rank used [] are = refl
length-candidates pool zero rank used (c ∷ cs) are = absurd are
length-candidates pool (suc left) rank used [] are = absurd are
length-candidates pool (suc left) rank used (c ∷ cs) are =
    ap suc (length-candidates pool left (rank + 1) _ cs are.3)

-- With a digest of 32 bytes, and fuel within which each rank's nonces draw each index of the pool,
-- the derivation ends: it yields as many candidates as are asked for, or as the pool has, with the
-- ranks in order, pairwise different indices, and at each index the mint of the pool.
pub derive_candidates_lem :
    (digest : Buffer → Buffer) (randomness : Buffer) (pool_version : ℕ) (pool : List JsString)
    (fuel count : ℕ)
    → ((payload : Buffer) → length (digest payload) ≡ 32)
    → Reaches digest randomness pool_version pool fuel
    → (cs : List Candidate) × (derive_candidates digest randomness pool_version pool fuel count
        ≡ derived cs)
      × (length cs ≡ min count (length pool))
      × AreCandidates pool 0 [] (min count (length pool)) cs
      × Distinct (map (λ c. c.index) cs)
unfolding derive_candidates
derive_candidates_lem digest randomness pool_version pool fuel count sized reaches =
    let limit : ℕ = min count (length pool) in
    let (cs, e, are) =
      derive_from-AreCandidates digest randomness pool_version pool sized fuel limit 0 [] reaches
        (omega arith) in
    (cs, e, length-candidates pool limit 0 [] cs are, are, indices-Distinct pool limit 0 [] cs are)
