-- ===== src/Phase.antt =====
-- The phase of the game that the pages show (src/lib/roundPhase.ts, src/lib/roundUi.ts). The times
-- are whole seconds.
use winny.Base.{ℕ, ◌+◌, ◌≡◌, ◌↔◌, Bool, true, false, ◌&&◌, ◌||◌, not, ◌==◌, if◌then◌else◌, arith}
use winny.Base.Int.{ℤ, pos, ◌-ℤ◌, ltb_ℤ, ◌≤ℤ◌, -ℤ_parts}
use winny.RoundStatus.{open_round, locked, vrf_requested, settled, claimed, cancelled}

pub data GamePhase : Type 0 where
  waiting_phase open_phase countdown_phase spinning_phase settled_phase claimed_phase
        cancelled_phase :
      GamePhase

unfoldable pub phase_from_status : ℕ → ℤ → ℕ → GamePhase
phase_from_status status end now_sec =
    if status == cancelled
    then cancelled_phase
    else if status == claimed
    then claimed_phase
    else if status == settled
    then settled_phase
    else if status == vrf_requested || status == locked
    then spinning_phase
    else if status == open_round
    then (if ltb_ℤ (pos 0) end && not (ltb_ℤ (pos now_sec) end)
        then countdown_phase
        else if ltb_ℤ (pos 0) end && not (ltb_ℤ (pos 6) (end -ℤ pos now_sec))
        then countdown_phase
        else open_phase)
    else waiting_phase

unfoldable pub is_open_phase : GamePhase → Bool
is_open_phase open_phase = true
is_open_phase _ = false

-- `time_left` as the pages compute it, a whole number of seconds.
unfoldable pub should_show_cancel_refund_card : Bool → Bool → GamePhase → ℤ → Bool
unfolding is_open_phase
should_show_cancel_refund_card connected has_my_deposit phase time_left =
    if not connected
    then false
    else if not has_my_deposit
    then false
    else if not (is_open_phase phase)
    then false
    else not (ltb_ℤ (pos 0) time_left)

-- The countdown is shown just for an open round with an end, from six seconds before the end on.
pub phase_from_status-countdown_iff :
    (status now_sec : ℕ) (end : ℤ)
    → (phase_from_status status end now_sec ≡ countdown_phase)
      ↔ ((status ≡ open_round) × (ltb_ℤ (pos 0) end ≡ true) × (end ≤ℤ pos (now_sec + 6)))
unfolding phase_from_status
phase_from_status-countdown_iff status now_sec end = (
  λ h. ground (arith, h, -ℤ_parts end (pos now_sec)),
  λ h. ground (arith, h, -ℤ_parts end (pos now_sec)),
)
