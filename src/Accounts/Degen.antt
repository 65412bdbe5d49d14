-- ===== src/Accounts/Degen.antt =====
-- The account readers of crank/src/degenLogic.ts.
use winny.Base.{ℕ, ◌+◌, Bool, false, Option, none, some, get_elem?, ◌==◌, if◌then◌else◌}
use winny.Bytes.{Buffer, ◌>>=◌, subarray, get_uint16, get_big_uint64}
use winny.Accounts.Crank.{disc}

pub record RoundMeta : Type 0 where
  pub status : ℕ
  pub total_usdc : ℕ
  pub degen_mode_status : Option ℕ

unfoldable pub parse_round_meta : Buffer → Option RoundMeta
parse_round_meta d = do
  status ← get_elem? d (disc + 8)
  total_usdc ← get_big_uint64 d (disc + 72)
  some (record {
    status = status;
    total_usdc = total_usdc;
    degen_mode_status = get_elem? d (disc + 8209);
  })

-- `reimbursed !== 0`, where `undefined` differs from 0.
abbrev pub is_zero : Option ℕ → Bool
is_zero none = false
is_zero (some n) = n == 0

module _ {Key : Type 0} (public_key : Buffer → Key) (equals : Key → Key → Bool)
    (default_key : Key) where
  unfoldable pub parse_round_vrf_payer : Buffer → Option Key
  parse_round_vrf_payer d =
      let vrf_payer = public_key (subarray d (disc + 8176) (disc + 8176 + 32)) in
      if equals vrf_payer default_key
      then none
      else if is_zero (get_elem? d (disc + 8208))
      then some vrf_payer
      else none

unfoldable pub parse_config_fee_bps : Buffer → Option ℕ
parse_config_fee_bps d = get_uint16 d (disc + 96)
