-- ===== src/Degen.antt =====
-- The degen mode of a claim: the candidates derived from a round's randomness and the payout
-- (crank/src/degenLogic.ts; src/lib/degenClaim.ts repeats the derivation).
-- SHA-256 is a parameter. The search for an unused index has fuel: the source loops until it
-- finds one, and counts its nonce in 32 bits of the hashed text.
pub mod Payout
pub mod Candidates
pub mod Errors
use winny.Base.{
  ℕ, zero, suc, ◌+◌, ◌%◌, min, Bool, true, false, Option, none, some, List, [], ◌∷◌, ◌++◌, map,
  length, get_elem?, contains, add, if◌then◌else◌,
}
use winny.Text.{JsString}
use winny.Bytes.{Buffer, le_bytes, get_uint32, subarray}

unfoldable pub encode_u32_le : ℕ → Buffer
encode_u32_le value = le_bytes 4 value

-- A `DataView` that is too short throws a RangeError.
unfoldable pub decode_u32_le : Buffer → Option ℕ
decode_u32_le value = get_uint32 value 0

-- `{ rank, index, mint }`; a missing element would be `undefined`.
pub record Candidate : Type 0 where
  pub rank : ℕ
  pub index : ℕ
  pub mint : Option JsString

pub data Drawn : Type 0 where
  drawn : ℕ → Drawn
  short_digest : Drawn
  no_fuel : Drawn

pub data Derived : Type 0 where
  derived : List Candidate → Derived
  range_error : Derived
  out_of_fuel : Derived

abbrev pub prepend : Candidate → Derived → Derived
prepend c (derived cs) = derived (c ∷ cs)
prepend c range_error = range_error
prepend c out_of_fuel = out_of_fuel

module _ (digest : Buffer → Buffer) (randomness : Buffer) (pool_version : ℕ)
    (pool : List JsString) where
  -- `sha256([randomness, …])`, whose parts are put together.
  unfoldable pub draw_digest : ℕ → ℕ → Buffer
  draw_digest rank nonce =
      digest (randomness ++ encode_u32_le pool_version ++ encode_u32_le rank ++ encode_u32_le nonce)

  unfoldable pub draw_index : ℕ → ℕ → Option ℕ
  draw_index rank nonce = elim (decode_u32_le (subarray (draw_digest rank nonce) 0 4)) [
    | none ↦ none
    | some n ↦ some (n % length pool)
  ]

  -- The `while (true)`: the first nonce whose index is not used.
  unfoldable pub draw_unused : ℕ → ℕ → ℕ → List ℕ → Drawn
  draw_unused zero rank nonce used = no_fuel
  draw_unused (suc fuel) rank nonce used =
      let rest = draw_unused fuel rank (nonce + 1) used in
      elim (draw_index rank nonce) [
        | none ↦ short_digest
        | some index ↦ if contains index used then rest else drawn index
      ]

  -- The `for` loop, with `left` more ranks.
  unfoldable pub derive_from : ℕ → ℕ → ℕ → List ℕ → Derived
  derive_from fuel zero rank used = derived []
  derive_from fuel (suc left) rank used = elim (draw_unused fuel rank 0 used) [
    | drawn index ↦
        prepend (record { rank = rank; index = index; mint = get_elem? pool index })
          (derive_from fuel left (rank + 1) (add index used))
    | short_digest ↦ range_error
    | no_fuel ↦ out_of_fuel
  ]

  unfoldable pub derive_candidates : ℕ → ℕ → Derived
  derive_candidates fuel count = derive_from fuel (min count (length pool)) 0 []
