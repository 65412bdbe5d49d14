-- ===== src/Accounts/Config.antt =====
-- `parseConfig` of lib/api/actions-shared.ts (and of its copy api/actions/_shared.ts).
use winny.Base.{ℕ, ◌+◌, Bool, not, Option, some, get_elem?, ◌==◌}
use winny.Bytes.{Buffer, ◌>>=◌, subarray, get_uint16, get_uint32, get_big_uint64}
use winny.Accounts.Crank.{disc}

pub record ParsedConfigLike (Key : Type 0) : Type 0 where
  pub admin : Key
  pub usdc_mint : Key
  pub treasury_usdc_ata : Key
  pub fee_bps : ℕ
  pub ticket_unit : ℕ
  pub round_duration_sec : ℕ
  pub min_participants : ℕ
  pub min_total_tickets : ℕ
  pub paused : Bool
  pub bump : ℕ
  pub max_deposit_per_user : ℕ

module _ {Key : Type 0} (public_key : Buffer → Key) where
  unfoldable pub parse_config : Buffer → Option (ParsedConfigLike Key)
  parse_config d = do
    let admin = public_key (subarray d (disc + 0) (disc + 32))
    let usdc_mint = public_key (subarray d (disc + 32) (disc + 64))
    let treasury_usdc_ata = public_key (subarray d (disc + 64) (disc + 96))
    fee_bps ← get_uint16 d (disc + 96)
    ticket_unit ← get_big_uint64 d (disc + 98)
    round_duration_sec ← get_uint32 d (disc + 106)
    min_participants ← get_uint16 d (disc + 110)
    min_total_tickets ← get_big_uint64 d (disc + 112)
    paused ← get_elem? d (disc + 120)
    bump ← get_elem? d (disc + 121)
    max_deposit_per_user ← get_big_uint64 d (disc + 122)
    some (record {
      admin = admin;
      usdc_mint = usdc_mint;
      treasury_usdc_ata = treasury_usdc_ata;
      fee_bps = fee_bps;
      ticket_unit = ticket_unit;
      round_duration_sec = round_duration_sec;
      min_participants = min_participants;
      min_total_tickets = min_total_tickets;
      paused = not (paused == 0);
      bump = bump;
      max_deposit_per_user = max_deposit_per_user;
    })
