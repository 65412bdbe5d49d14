-- ===== src/Accounts/Web.antt =====
-- The first half of src/lib/program.ts: the rounds and participants as the front end reads them.
use winny.Base.{ℕ, zero, suc, ◌+◌, ◌*◌, Option, some, List, [], ◌∷◌, get_elem?}
use winny.Base.Int.{ℤ}
use winny.Bytes.{Buffer, ◌>>=◌, subarray, get_uint16, get_uint32, get_big_uint64, get_big_int64}

pub record RoundData (Key : Type 0) : Type 0 where
  pub round_id : ℕ
  pub status : ℕ
  pub degen_mode_status : Option ℕ
  pub bump : ℕ
  pub start_ts : ℤ
  pub end_ts : ℤ
  pub first_deposit_ts : ℤ
  pub vault_usdc_ata : Key
  pub total_usdc : ℕ
  pub total_tickets : ℕ
  pub participants_count : ℕ
  pub randomness : Buffer
  pub winning_ticket : ℕ
  pub winner : Key
  pub participants : List Key
  pub vrf_payer : Key
  pub vrf_reimbursed : Option ℕ

pub record ParticipantData (Key : Type 0) : Type 0 where
  pub round : Key
  pub user : Key
  pub index : ℕ
  pub bump : ℕ
  pub tickets_total : ℕ
  pub usdc_total : ℕ
  pub deposits_count : ℕ

-- The Anchor discriminator.
abbrev pub disc : ℕ
disc = 8

module _ {Key : Type 0} (public_key : Buffer → Key) where
  -- The loop over `i`, for the rounds that are left.
  unfoldable pub participants_from : Buffer → ℕ → ℕ → List Key
  participants_from d i zero = []
  participants_from d i (suc left) =
      let s = disc + 168 + i * 32 in
      public_key (subarray d s (s + 32)) ∷ participants_from d (i + 1) left

  unfoldable pub parse_round : Buffer → Option (RoundData Key)
  parse_round d = do
    round_id ← get_big_uint64 d (disc + 0)
    status ← get_elem? d (disc + 8)
    bump ← get_elem? d (disc + 9)
    start_ts ← get_big_int64 d (disc + 16)
    end_ts ← get_big_int64 d (disc + 24)
    first_deposit_ts ← get_big_int64 d (disc + 32)
    let vault_usdc_ata = public_key (subarray d (disc + 40) (disc + 72))
    total_usdc ← get_big_uint64 d (disc + 72)
    total_tickets ← get_big_uint64 d (disc + 80)
    participants_count ← get_uint16 d (disc + 88)
    let randomness = subarray d (disc + 96) (disc + 128)
    winning_ticket ← get_big_uint64 d (disc + 128)
    let winner = public_key (subarray d (disc + 136) (disc + 168))
    some (record {
      round_id = round_id;
      status = status;
      degen_mode_status = get_elem? d (disc + 8209);
      bump = bump;
      start_ts = start_ts;
      end_ts = end_ts;
      first_deposit_ts = first_deposit_ts;
      vault_usdc_ata = vault_usdc_ata;
      total_usdc = total_usdc;
      total_tickets = total_tickets;
      participants_count = participants_count;
      randomness = randomness;
      winning_ticket = winning_ticket;
      winner = winner;
      participants = participants_from d 0 participants_count;
      vrf_payer = public_key (subarray d (disc + 8176) (disc + 8208));
      vrf_reimbursed = get_elem? d (disc + 8208);
    })

  -- The offset runs on behind each field.
  unfoldable pub parse_participant : Buffer → Option (ParticipantData Key)
  parse_participant d = do
    let off₀ : ℕ = disc
    let round = public_key (subarray d off₀ (off₀ + 32))
    let off₁ = off₀ + 32
    let user = public_key (subarray d off₁ (off₁ + 32))
    let off₂ = off₁ + 32
    index ← get_uint16 d off₂
    let off₃ = off₂ + 2
    bump ← get_elem? d off₃
    let off₄ = off₃ + 1
    tickets_total ← get_big_uint64 d off₄
    let off₅ = off₄ + 8
    usdc_total ← get_big_uint64 d off₅
    let off₆ = off₅ + 8
    deposits_count ← get_uint32 d off₆
    some (record {
      round = round;
      user = user;
      index = index;
      bump = bump;
      tickets_total = tickets_total;
      usdc_total = usdc_total;
      deposits_count = deposits_count;
    })
