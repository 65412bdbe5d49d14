-- ===== src/Accounts/Layout.antt =====
-- The layout of a round's account, as the offset table in src/lib/program.ts documents it: the
-- fields in order behind the 8-byte discriminator, the integers little-endian. The readers are
-- compared with this description; no code of the front end or the crank writes an account.
use winny.Base.{ℕ, ◌+◌, ◌-◌, ◌*◌, ◌^◌, ◌<◌, ◌≡◌, List, [], ◌∷◌, length, All, arith}
use winny.Base.Int.{ℤ, pos, negsuc}
use winny.Bytes.{Buffer, le_bytes, to_signed64}
use winny.Bytes.Slices.{concat}

-- The two's complement pattern of a 64-bit signed number.
pub of_signed64 : ℤ → ℕ
of_signed64 (pos n) = n
of_signed64 (negsuc n) = 2 ^ 64 - 1 - n

abbrev pub FitsSigned64 : ℤ → Type 0
FitsSigned64 (pos n) = n < 2 ^ 63
FitsSigned64 (negsuc n) = n < 2 ^ 63

pub of_signed64-lt : (z : ℤ) → FitsSigned64 z → of_signed64 z < 2 ^ 64
unfolding of_signed64
of_signed64-lt (pos n) h = omega arith
of_signed64-lt (negsuc n) h = omega arith

pub to_signed64-of_signed64 : (z : ℤ) → FitsSigned64 z → to_signed64 (of_signed64 z) ≡ z
unfolding to_signed64 of_signed64
to_signed64-of_signed64 (pos n) h = ground arith
to_signed64-of_signed64 (negsuc n) h = ground arith

pub record RoundAccount : Type 0 where
  pub discriminator : Buffer
  pub round_id : ℕ
  pub status : ℕ
  pub bump : ℕ
  pub padding : Buffer
  pub start_ts : ℤ
  pub end_ts : ℤ
  pub first_deposit_ts : ℤ
  pub vault_usdc_ata : Buffer
  pub total_usdc : ℕ
  pub total_tickets : ℕ
  pub padding2 : Buffer
  pub randomness : Buffer
  pub winning_ticket : ℕ
  pub winner : Buffer
  pub participants : List Buffer
  pub unused_slots : Buffer
  pub bit : Buffer
  pub vrf_payer : Buffer
  pub vrf_reimbursed : ℕ
  pub degen_mode_status : ℕ
  pub reserved : Buffer

pub record IsSized (r : RoundAccount) : Type 0 where
  pub discriminator : length r.discriminator ≡ 8
  pub round_id : r.round_id < 2 ^ 64
  pub padding : length r.padding ≡ 6
  pub start_ts : FitsSigned64 r.start_ts
  pub end_ts : FitsSigned64 r.end_ts
  pub first_deposit_ts : FitsSigned64 r.first_deposit_ts
  pub vault_usdc_ata : length r.vault_usdc_ata ≡ 32
  pub total_usdc : r.total_usdc < 2 ^ 64
  pub total_tickets : r.total_tickets < 2 ^ 64
  pub padding2 : length r.padding2 ≡ 6
  pub randomness : length r.randomness ≡ 32
  pub winning_ticket : r.winning_ticket < 2 ^ 64
  pub winner : length r.winner ≡ 32
  pub participants : All (λ (key : Buffer). length key ≡ 32) r.participants
  pub table : length (concat r.participants) + length r.unused_slots ≡ 200 * 32
  pub bit : length r.bit ≡ 201 * 8
  pub vrf_payer : length r.vrf_payer ≡ 32
  pub reserved : length r.reserved ≡ 30

abbrev pub segments : RoundAccount → List Buffer
segments r =
    r.discriminator
    ∷ le_bytes 8 r.round_id
    ∷ (r.status ∷ [])
    ∷ (r.bump ∷ [])
    ∷ r.padding
    ∷ le_bytes 8 (of_signed64 r.start_ts)
    ∷ le_bytes 8 (of_signed64 r.end_ts)
    ∷ le_bytes 8 (of_signed64 r.first_deposit_ts)
    ∷ r.vault_usdc_ata
    ∷ le_bytes 8 r.total_usdc
    ∷ le_bytes 8 r.total_tickets
    ∷ le_bytes 2 (length r.participants)
    ∷ r.padding2
    ∷ r.randomness
    ∷ le_bytes 8 r.winning_ticket
    ∷ r.winner
    ∷ concat r.participants
    ∷ r.unused_slots
    ∷ r.bit
    ∷ r.vrf_payer
    ∷ (r.vrf_reimbursed ∷ [])
    ∷ (r.degen_mode_status ∷ [])
    ∷ r.reserved
    ∷ []

abbrev pub encode : RoundAccount → Buffer
encode r = concat (segments r)
