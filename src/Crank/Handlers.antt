-- ===== src/Crank/Handlers.antt =====
-- What the handlers of the round in play keep and establish, for any predicates that follow the
-- rules of their steps.
use winny.Base.{ℕ, ◌+◌, ◌≡◌, true, false, ◌||◌, not, Option, none, some, ◌∷◌, leb, ltb, ◌==◌, arith}
use winny.Base.Int.{pos, ◌+ℤ◌, ltb_ℤ, eqb_ℤ}
use winny.RoundStatus.{locked}
use winny.Text.{JsString}
use winny.Runtime.{is_min_requirements_error_message}
use winny.Bytes.{Buffer}
use winny.Accounts.Crank.{RoundData}
use winny.Crank.{
  World, Crank, Action, Transaction, start_round, lock_and_request_vrf, request_vrf, submitted,
  confirmed, gets, fetch_round, modify, pure, ◌>>◌,
}
use winny.Crank.Background.{track_background_round}
use winny.Crank.Rounds.{
  mark_created, mark_locked, next_round, is_open, is_empty_round, after_failed_start,
  send_start_round, handle_start_round, skip_round, check_external_lock, after_failed_lock,
  send_lock_and_vrf, lock_fresh, handle_lock_and_vrf, send_request_vrf, request_fresh,
  handle_request_vrf,
}
use winny.Crank.Hoare.{
  Triple, Keeps, Triple-pure, Triple-gets, Triple-modify, Triple-bind, Triple-try, Triple-if,
  Triple-when, Triple-option, Triple-now, Triple-weaken,
}
use winny.Crank.Stable.{
  IsStable, Noted, now-Keeps, gets-Keeps, fetch_round-Keeps, fetch_round-Noted,
  get_account_info-Looked, Looked,
}
use winny.Crank.Passes.{sign_and_send-Triple}

-- The steps of playing round `i`: `P` holds while it is in play, and `R` when the handler is done,
-- which may have left it.
pub record PlayingRules {Key : Type 0} (w : World Key) (i : ℕ) (P R : Crank Key → Type 0)
    : Type 0 where
  pub stable : IsStable P
  pub stable_after : IsStable R
  pub stayed : (s : Crank Key) → P s → R s
  pub created : (s : Crank Key) → P s → P (mark_created i s)
  pub locked_by : (s : Crank Key) → P s → P (mark_locked i s)
  pub left : Triple P (track_background_round w i) (λ _ s. R (next_round s)) R
  pub starting :
      (s : Crank Key)
      → P s
      → Noted i none s
      → P (record s { events = submitted (start_round i) ∷ s.events })
  pub locking :
      (rd : RoundData Key) (s : Crank Key)
      → is_open rd ≡ true
      → is_empty_round rd ≡ false
      → P s
      → Noted i (some rd) s
      → P (record s { events = submitted (lock_and_request_vrf i) ∷ s.events })
  pub requesting :
      (rd : RoundData Key) (s : Crank Key)
      → rd.status == locked ≡ true
      → P s
      → Noted i (some rd) s
      → P (record s { events = submitted (request_vrf i) ∷ s.events })
  pub confirming :
      (tx : Transaction Key) (s : Crank Key)
      → P s
      → P (record s { events = confirmed tx ∷ s.events })

module _ {Key : Type 0} (w : World Key) (i : ℕ) {P R : Crank Key → Type 0}
    (rules : PlayingRules w i P R) where
  -- A handler that keeps `P` establishes `R`.
  pub settle : {A : Type 0} (m : Action Key A) → Keeps P m → Triple P m (λ _. R) R
  settle m t = Triple-weaken m (λ s h. h) (λ a. rules.stayed) rules.stayed t

  after_failed_start-Keeps : Keeps P (after_failed_start w i)
  unfolding after_failed_start
  after_failed_start-Keeps = Triple-bind _ _ (fetch_round-Keeps w rules.stable i) (λ check.
      Triple-option check _ _ (λ e. Triple-pure false (λ s h. h))
        (λ rd e.
          Triple-bind {Q = λ _. P} _ _ (Triple-modify _ rules.created)
            (λ done. Triple-pure false (λ s h. h))))

  send_start_round-Keeps : Triple (λ s. P s × Noted i none s) (send_start_round w i) (λ sent. P) P
  unfolding send_start_round
  send_start_round-Keeps =
      Triple-try {F = P} _ _
        (Triple-bind {Q = λ _. P} _ _
          (sign_and_send-Triple w (start_round i) (λ s h. rules.starting s h.0 h.1)
            rules.stable.answered (rules.confirming (start_round i)))
          (λ sig.
            Triple-bind {Q = λ _. P} _ _ (Triple-modify _ rules.created)
              (λ done'. Triple-pure true (λ s h. h))))
        (λ message. after_failed_start-Keeps)

  create_round-Keeps :
      (info : Option Buffer)
      → Triple
          (λ s. P s × Looked i info s)
          (elim info [
            | some account ↦ do modify (mark_created i); pure false
            | none ↦ send_start_round w i
          ])
          (λ created. P)
          P
  create_round-Keeps none = send_start_round-Keeps
  create_round-Keeps (some account) =
      Triple-bind {Q = λ _. P} _ _ (Triple-modify _ (λ s h. rules.created s h.0))
        (λ done. Triple-pure false (λ s h. h))

  pub handle_start_round-Keeps : Keeps P (handle_start_round w i)
  unfolding handle_start_round
  handle_start_round-Keeps = Triple-bind _ _ (gets-Keeps w rules.stable _) (λ last.
      Triple-if (leb i last) _ _ (λ e. Triple-pure false (λ s h. h))
        (λ e. Triple-bind _ _ (get_account_info-Looked w rules.stable i) create_round-Keeps))

  skip_round-Left : Triple P (skip_round w i) (λ _. R) R
  unfolding skip_round
  skip_round-Left = Triple-bind {Q = λ _. P} _ _ (Triple-modify _ rules.locked_by) (λ done.
      Triple-bind {Q = λ _ s. R (next_round s)} _ _ rules.left (λ done'.
        Triple-bind {Q = λ _. R} _ _ (Triple-modify next_round (λ s h. h))
          (λ done''. Triple-pure true (λ s h. h))))

  check_external_lock-Keeps : Keeps P (check_external_lock w i)
  unfolding check_external_lock
  check_external_lock-Keeps =
      Triple-bind {Q = λ _. P} _ _
        (Triple-try {F = P} _ _
          (Triple-bind _ _ (fetch_round-Keeps w rules.stable i) (λ retry.
            Triple-option retry _ _ (λ e. Triple-pure tt (λ s h. h))
              (λ rd e.
                Triple-when (not (is_open rd)) _ (λ e'. Triple-modify _ rules.locked_by)
                  (λ s h. h))))
          (λ message. Triple-pure tt (λ s h. h)))
        (λ done. Triple-pure false (λ s h. h))

  after_failed_lock-Left :
      (message : JsString) → Triple P (after_failed_lock w i message) (λ _. R) R
  unfolding after_failed_lock
  after_failed_lock-Left message =
      Triple-if (is_min_requirements_error_message message) _ _ (λ e. skip_round-Left)
        (λ e. settle _ check_external_lock-Keeps)

  send_lock_and_vrf-Left :
      (rd : RoundData Key)
      → is_open rd ≡ true
      → is_empty_round rd ≡ false
      → Triple (λ s. P s × Noted i (some rd) s) (send_lock_and_vrf w i) (λ _. R) R
  unfolding send_lock_and_vrf
  send_lock_and_vrf-Left rd is_open filled =
      Triple-try {F = P} _ _
        (Triple-bind {Q = λ _. P} _ _
          (sign_and_send-Triple w (lock_and_request_vrf i)
            (λ s h. rules.locking rd s is_open filled h.0 h.1) rules.stable.answered
            (rules.confirming (lock_and_request_vrf i)))
          (λ sig. Triple-bind {Q = λ _. P} _ _ (Triple-modify _ rules.locked_by) (λ done.
            Triple-bind _ _ (now-Keeps w rules.stable) (λ t.
              Triple-bind {Q = λ _. P} _ _ (Triple-modify _ (rules.stable.vrf_sent t))
                (λ done'. Triple-pure true rules.stayed)))))
        after_failed_lock-Left

  lock_fresh-Left :
      (fresh : Option (RoundData Key))
      → Triple (λ s. P s × Noted i fresh s) (lock_fresh w i fresh) (λ _. R) R
  unfolding lock_fresh
  lock_fresh-Left none = Triple-pure false (λ s h. rules.stayed s h.0)
  lock_fresh-Left (some rd) =
      Triple-if (not (is_open rd)) _ _ (λ e. Triple-pure false (λ s h. rules.stayed s h.0))
        (λ e.
          Triple-if (is_empty_round rd) _ _
            (λ e'. Triple-weaken _ (λ s h. h.0) (λ b s h. h) (λ s h. h) skip_round-Left)
            (λ e'. send_lock_and_vrf-Left rd (ground (arith, e)) e'))

  pub handle_lock_and_vrf-Left :
      (rd : RoundData Key) → Triple P (handle_lock_and_vrf w i rd) (λ _. R) R
  unfolding handle_lock_and_vrf
  handle_lock_and_vrf-Left rd = Triple-bind {Q = λ _. P} _ _ (settled_gets _) (λ last.
      Triple-if (last == i || eqb_ℤ rd.end_ts (pos 0)) _ _ (λ e. Triple-pure false rules.stayed)
        (λ e. Triple-bind {Q = λ _. P} _ _ (Triple-now w (λ t. rules.stable.answered)) (λ t.
          Triple-if (ltb_ℤ (pos t) (rd.end_ts +ℤ pos w.lock_buffer_sec)) _ _
            (λ e'. Triple-pure false rules.stayed) (λ e'. Triple-bind _ _ noted lock_fresh-Left))))
    where
      settled_gets : {A : Type 0} (f : Crank Key → A) → Triple P (gets f) (λ _. P) R
      settled_gets f = Triple-gets f (λ s h. h)

      noted : Triple P (fetch_round w i) (λ rd s. P s × Noted i rd s) R
      noted =
          Triple-weaken _ (λ s h. h) (λ rd s h. h) rules.stayed (fetch_round-Noted w rules.stable i)

  send_request_vrf-Keeps :
      (rd : RoundData Key)
      → rd.status == locked ≡ true
      → Triple (λ s. P s × Noted i (some rd) s) (send_request_vrf w i) (λ _. P) P
  unfolding send_request_vrf
  send_request_vrf-Keeps rd is_locked =
      Triple-try {F = P} _ _
        (Triple-bind {Q = λ _. P} _ _
          (sign_and_send-Triple w (request_vrf i) (λ s h. rules.requesting rd s is_locked h.0 h.1)
            rules.stable.answered (rules.confirming (request_vrf i)))
          (λ sig. Triple-bind _ _ (now-Keeps w rules.stable) (λ t.
            Triple-bind {Q = λ _. P} _ _ (Triple-modify _ (rules.stable.vrf_sent t))
              (λ done. Triple-pure true (λ s h. h)))))
        (λ message. Triple-pure false (λ s h. h))

  request_fresh-Keeps :
      (fresh : Option (RoundData Key))
      → Triple (λ s. P s × Noted i fresh s) (request_fresh w i fresh) (λ _. P) P
  unfolding request_fresh
  request_fresh-Keeps none = Triple-pure false (λ s h. h.0)
  request_fresh-Keeps (some rd) =
      Triple-if (not (rd.status == locked)) _ _ (λ e. Triple-pure false (λ s h. h.0))
        (λ e.
          Triple-bind {Q = λ _ s. P s × Noted i (some rd) s} _ _
            (Triple-now w (λ t s h. (rules.stable.answered s h.0, h.1)))
            (λ t.
              Triple-bind {Q = λ _ s. P s × Noted i (some rd) s} _ _ (Triple-gets _ (λ s h. h))
                (λ last.
                  Triple-if (ltb t (w.vrf_cooldown_sec + last)) _ _
                    (λ e'. Triple-pure false (λ s h. h.0))
                    (λ e'. send_request_vrf-Keeps rd (ground (arith, e))))))

  pub handle_request_vrf-Keeps : Keeps P (handle_request_vrf w i)
  unfolding handle_request_vrf
  handle_request_vrf-Keeps =
      Triple-bind _ _ (fetch_round-Noted w rules.stable i) request_fresh-Keeps
