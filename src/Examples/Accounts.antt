-- ===== src/Examples/Accounts.antt =====
-- The readers of accounts at concrete accounts.
use winny.Base.{◌≡◌, refl, Bool, true, false, some, [], ◌∷◌, ◌++◌, if◌then◌else◌, arith, ◌==◌}
use winny.Base.Int.{pos}
use mathlib.Core.Option
use winny.Bytes.{Buffer, subarray, le_value, get_uint}
use winny.Accounts.Layout.{RoundAccount, IsSized, encode}
use winny.Accounts.RoundTrip.{parse_round-encode, contents}
use winny.Accounts.Crank
use winny.Accounts.Web
use winny.Accounts.Config.{ParsedConfigLike, parse_config}
use winny.Accounts.Agreement.{crank_round, parse_round_agree}
use winny.Examples.{zeros, length-zeros, round_bytes}

abbrev pub same_key : Buffer → Buffer → Bool
same_key [] [] = true
same_key (a ∷ s) (b ∷ t) = if a == b then same_key s t else false
same_key _ _ = false

-- A settled round with one participant, who won.
abbrev pub settled_round : RoundAccount
settled_round = record {
  discriminator = zeros 8;
  round_id = 7;
  status = 3;
  bump = 255;
  padding = zeros 6;
  start_ts = pos 1000;
  end_ts = pos 1060;
  first_deposit_ts = pos 1000;
  vault_usdc_ata = zeros 32;
  total_usdc = 5000000;
  total_tickets = 500;
  padding2 = zeros 6;
  randomness = zeros 32;
  winning_ticket = 17;
  winner = 9 ∷ zeros 31;
  participants = (9 ∷ zeros 31) ∷ [];
  unused_slots = zeros 6368;
  bit = zeros 1608;
  vrf_payer = 4 ∷ zeros 31;
  vrf_reimbursed = 0;
  degen_mode_status = 2;
  reserved = zeros 30;
}

pub settled_round-IsSized : IsSized settled_round
settled_round-IsSized = record {
  discriminator = refl;
  round_id = omega arith;
  padding = refl;
  start_ts = omega arith;
  end_ts = omega arith;
  first_deposit_ts = omega arith;
  vault_usdc_ata = refl;
  total_usdc = omega arith;
  total_tickets = omega arith;
  padding2 = refl;
  randomness = refl;
  winning_ticket = omega arith;
  winner = refl;
  participants = (refl, tt);
  table = omega (arith, length-zeros 6368);
  bit = length-zeros 1608;
  vrf_payer = refl;
  reserved = refl;
}

parse_round-encode_example :
    Web.parse_round (λ d. d) (encode settled_round)
    ≡ some (contents settled_round settled_round-IsSized (λ d. d))
parse_round-encode_example = parse_round-encode settled_round settled_round-IsSized (λ d. d)

parse_round_agree_example :
    Crank.parse_round (λ d. d) (round_bytes 3)
    ≡ Option.map crank_round (Web.parse_round (λ d. d) (round_bytes 3))
parse_round_agree_example = parse_round_agree (λ d. d) (round_bytes 3)

abbrev pub settled_contents : Web.RoundData Buffer
settled_contents = contents settled_round settled_round-IsSized (λ d. d)

abbrev pub config_bytes : Buffer
config_bytes = zeros 104 ++ (44 ∷ 1 ∷ zeros 100)

abbrev config : ParsedConfigLike Buffer
config = record {
  admin = zeros 32;
  usdc_mint = zeros 32;
  treasury_usdc_ata = zeros 32;
  fee_bps = 300;
  ticket_unit = 0;
  round_duration_sec = 0;
  min_participants = 0;
  min_total_tickets = 0;
  paused = false;
  bump = 0;
  max_deposit_per_user = 0;
}

parsed : parse_config (λ d. d) config_bytes ≡ some config
unfolding parse_config subarray get_uint le_value
parsed = refl
