-- ===== src/RoundStatus.antt =====
-- The status byte of a round (`RoundStatus` of crank/src/constants.ts) and the class of the rounds
-- that are in play (`isActiveRoundStatus` of crank/src/activeRoundScan.ts).
use winny.Base.{ℕ, Bool, ◌||◌, ◌==◌}

-- `RoundStatus.Open`, whose name is a reserved word here.
abbrev pub open_round : ℕ
open_round = 0

abbrev pub locked : ℕ
locked = 1

abbrev pub vrf_requested : ℕ
vrf_requested = 2

abbrev pub settled : ℕ
settled = 3

abbrev pub claimed : ℕ
claimed = 4

abbrev pub cancelled : ℕ
cancelled = 5

unfoldable pub is_active_round_status : ℕ → Bool
is_active_round_status status =
    status == open_round || status == locked || status == vrf_requested || status == settled
