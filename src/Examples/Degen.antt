-- ===== src/Examples/Degen.antt =====
-- The derivation of candidates and the payout at concrete inputs.
use winny.Base.{
  ℕ, zero, suc, ◌+◌, ◌*◌, ◌≤◌, ◌<◌, ◌≡◌, refl, true, some, List, [], ◌∷◌, map, length, drop, take,
  Distinct, arith,
}
use winny.Base.Int.{pos}
use winny.Text.{codes}
use winny.Bytes.{Buffer, le_bytes, le_value, get_uint, subarray}
use winny.Degen.{
  Candidate, derived, derive_candidates, draw_index, draw_digest, encode_u32_le, decode_u32_le,
}
use winny.Degen.Candidates.{AreCandidates, derive_candidates_lem}
use winny.Degen.Payout.{compute_begin_degen_payout, compute_begin_degen_payout_split}
use winny.Examples.{zeros}

-- A digest of 32 bytes that begins with the low byte of the nonce.
abbrev nonce_byte : Buffer → ℕ
nonce_byte payload = le_value (take 1 (drop 8 payload))

abbrev digest : Buffer → Buffer
digest payload = nonce_byte payload ∷ zeros 31

abbrev pool : List (List ℕ)
pool = codes "mint A" ∷ codes "mint B" ∷ codes "mint C" ∷ []

draws :
    (rank : ℕ)
    → (draw_index digest [] 1 pool rank 0 ≡ some 0)
      × (draw_index digest [] 1 pool rank 1 ≡ some 1)
      × (draw_index digest [] 1 pool rank 2 ≡ some 2)
unfolding draw_index draw_digest encode_u32_le decode_u32_le subarray get_uint le_value le_bytes
draws rank = (refl, refl, refl)

reaches :
    (rank i : ℕ)
    → i < 3
    → (nonce : ℕ) × (nonce < 3) × (draw_index digest [] 1 pool rank nonce ≡ some i)
reaches rank zero h = (0, omega arith, (draws rank).0)
reaches rank (suc zero) h = (1, omega arith, (draws rank).1)
reaches rank (suc (suc zero)) h = (2, omega arith, (draws rank).2)
reaches rank (suc (suc (suc i))) h = absurd (omega (arith, h))

derive_candidates_lem_example :
    (cs : List Candidate) × (derive_candidates digest [] 1 pool 3 2 ≡ derived cs)
    × (length cs ≡ 2)
    × AreCandidates pool 0 [] 2 cs
    × Distinct (map (λ c. c.index) cs)
derive_candidates_lem_example = derive_candidates_lem digest [] 1 pool 3 2 (λ payload. refl) reaches

compute_begin_degen_payout_split_example :
    (payout : ℕ) × (fee : ℕ) × (compute_begin_degen_payout 5000000 300 true ≡ pos payout)
    × (payout + fee + 200000 ≡ 5000000)
    × (fee * 10000 ≤ 4800000 * 300)
    × (4800000 * 300 < (fee + 1) * 10000)
compute_begin_degen_payout_split_example =
    compute_begin_degen_payout_split 5000000 300 true (omega arith) (omega arith)
