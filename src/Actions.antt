-- ===== src/Actions.antt =====
-- The server side of the Actions endpoints (lib/api/actions-shared.ts, of which
-- api/actions/_shared.ts is a copy): which round a request is about, and the endpoints.
pub mod RoundCache
pub mod Eligibility
pub mod Endpoint
use winny.Base.{ℕ, Bool, true, false, ◌||◌, Option, none, some, String, ◌==◌, if◌then◌else◌}
use winny.RoundStatus.{open_round, locked, vrf_requested, settled}

-- The errors that the handlers answer with, by their `code`; a failed RPC read has none.
pub data ActionError : Type 0 where
  no_open_round : ActionError
  no_active_round : ActionError
  no_unclaimed_prize : ActionError
  no_refund_available : ActionError
  rpc_error : ActionError

pub data Result (A : Type 0) : Type 0 where
  ok : A → Result A
  error : ActionError → Result A

unfoldable pub is_joinable_round_status : ℕ → Bool
is_joinable_round_status status = status == open_round

unfoldable pub is_active_round_status : ℕ → Bool
is_active_round_status status =
    status == open_round || status == locked || status == vrf_requested || status == settled
