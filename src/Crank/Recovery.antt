-- ===== src/Crank/Recovery.antt =====
-- What taking over the rounds of an earlier run keeps and establishes.
use winny.Base.{ℕ, zero, suc, ◌+◌, ◌||◌, Option, none, some, List, [], ◌∷◌, leb, ltb, ◌==◌}
use winny.RoundStatus.{settled}
use winny.Bytes.{Buffer}
use winny.Accounts.Crank.{parse_round}
use winny.Crank.{World, Crank}
use winny.Crank.Background.{track_background_round}
use winny.Crank.Cleanup.{is_terminal_status}
use winny.Crank.Startup.{
  get_round_accounts, recover_round, recover_rounds, ids_upto, recover_batches,
  recover_background_rounds_on_startup, start_service, recovery_batch,
}
use winny.Crank.Hoare.{
  Keeps, Triple-pure, Triple-modify, Triple-bind, Triple-if, Triple-when, Triple-option,
  Triple-answer,
}
use winny.Crank.Stable.{IsStable, observe_round_state-Keeps}

module _ {Key : Type 0} (w : World Key) {P : Crank Key → Type 0} (stable : IsStable P)
    (tracked : (i : ℕ) → Keeps P (track_background_round w i)) where
  recover_round-Keeps : (i : ℕ) (info : Option Buffer) → Keeps P (recover_round w i info)
  unfolding recover_round
  recover_round-Keeps i none = Triple-pure tt (λ s h. h)
  recover_round-Keeps i (some account) =
      Triple-option (parse_round w.public_key account) _ _ (λ e. Triple-pure tt (λ s h. h))
        (λ rd e. Triple-bind _ _ (observe_round_state-Keeps w stable i rd.status) (λ done.
          Triple-when (rd.status == settled || is_terminal_status rd.status) _ (λ over. tracked i)
            (λ s h. h)))

  recover_rounds-Keeps :
      (ids : List ℕ) (infos : List (Option Buffer)) → Keeps P (recover_rounds w ids infos)
  unfolding recover_rounds
  recover_rounds-Keeps [] infos = Triple-pure tt (λ s h. h)
  recover_rounds-Keeps (i ∷ ids) [] = Triple-pure tt (λ s h. h)
  recover_rounds-Keeps (i ∷ ids) (info ∷ infos) =
      Triple-bind _ _ (recover_round-Keeps i info) (λ done. recover_rounds-Keeps ids infos)

  recover_batches-Keeps : (fuel base last : ℕ) → Keeps P (recover_batches w fuel base last)
  unfolding recover_batches get_round_accounts
  recover_batches-Keeps zero base last = Triple-pure tt (λ s h. h)
  recover_batches-Keeps (suc fuel) base last =
      Triple-if (ltb last base) _ _ (λ e. Triple-pure tt (λ s h. h))
        (λ e.
          Triple-bind {Q = λ _. P} _ _
            (Triple-answer (λ s. w.round_accounts s.calls (ids_upto w base last))
              (λ a. stable.answered) stable.answered)
            (λ infos.
              Triple-bind _ _ (recover_rounds-Keeps (ids_upto w base last) infos)
                (λ done. recover_batches-Keeps fuel (base + recovery_batch) last)))

  recover_background_rounds_on_startup-Keeps :
      (current : ℕ) → Keeps P (recover_background_rounds_on_startup w current)
  unfolding recover_background_rounds_on_startup
  recover_background_rounds_on_startup-Keeps current =
      Triple-if (leb current 1) _ _ (λ e. Triple-pure tt (λ s h. h))
        (λ e. recover_batches-Keeps _ _ current)

  -- The start of the service, from a state in which `P` holds whatever the round in play is.
  pub start_service-Keeps :
      (current : ℕ)
      → ((s : Crank Key) → P s → P (record s { current_round_id = current }))
      → Keeps P (start_service w current)
  unfolding start_service
  start_service-Keeps current play =
      Triple-bind {Q = λ _. P} _ _ (Triple-modify _ play)
        (λ done. recover_background_rounds_on_startup-Keeps current)
