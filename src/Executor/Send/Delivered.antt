-- ===== src/Executor/Send/Delivered.antt =====
-- When `simulateAndSend` returns a signature, and when it throws its timeout error.
use winny.Base.{
  Reply, answered, raised, ℕ, zero, suc, ◌+◌, ◌≤◌, ◌≡◌, ◌↔◌, ◌⊎◌, inl, inr, refl, true, false,
  Option, none, some, ltb, arith, Bool-cases, Option-cases, ◌∙◌, subst, ◌++◌,
}
use winny.Text.{JsString, codes}
use winny.Executor.{Failure, is_confirm_timeout_error}
use winny.Executor.Send.{
  plain_error, tx_timeout_error, SignatureStatus, Connection, Sending, returned, thrown,
  too_large_message, max_tx_raw_bytes, status_attempts, is_settled_status, status_verdict,
  poll_status, confirm, send, simulate, simulate_and_send,
}

-- An answer that leaves open what became of the transaction.
abbrev pub LeavesOpen : Reply (Option SignatureStatus) → Type 0
LeavesOpen (raised message) = ⊥
LeavesOpen (answered none) = Unit
LeavesOpen (answered (some status)) = is_settled_status status.confirmation_status ≡ false

-- An answer that the transaction is confirmed and has no error.
abbrev pub SaysLanded : Reply (Option SignatureStatus) → Type 0
SaysLanded (raised message) = ⊥
SaysLanded (answered none) = ⊥
SaysLanded (answered (some status)) =
    (is_settled_status status.confirmation_status ≡ true) × (status.err ≡ none)

-- From an attempt on, with some attempts left: one says that the transaction landed, and those
-- before leave it open.
abbrev pub LandsWithin : (ℕ → Reply (Option SignatureStatus)) → ℕ → ℕ → Type 0
LandsWithin ask zero attempt = ⊥
LandsWithin ask (suc left) attempt =
    SaysLanded (ask attempt) ⊎ (LeavesOpen (ask attempt) × LandsWithin ask left (attempt + 1))

abbrev pub StaysOpen : (ℕ → Reply (Option SignatureStatus)) → ℕ → ℕ → Type 0
StaysOpen ask zero attempt = Unit
StaysOpen ask (suc left) attempt = LeavesOpen (ask attempt) × StaysOpen ask left (attempt + 1)

-- The transaction fits, its simulation shows no error, and it was sent under a signature.
pub record IsSent (c : Connection) (sig : JsString) : Type 0 where
  pub size : ℕ
  pub serialized : c.serialize ≡ answered size
  pub fits : size ≤ max_tx_raw_bytes
  pub simulated : c.simulate_transaction ≡ answered none
  pub sent : c.send_transaction ≡ answered sig

abbrev pub TimesOut : Connection → Type 0
TimesOut c =
    (message : JsString) × (c.confirm_transaction ≡ raised message)
    × (is_confirm_timeout_error message ≡ true)

abbrev Fails : Sending → Type 0
Fails r = (message : JsString) × (r ≡ thrown (plain_error message))

confirm_of_sent :
    (c : Connection) (sig : JsString) → IsSent c sig → simulate_and_send c ≡ confirm c sig
unfolding simulate_and_send simulate send
confirm_of_sent c sig s = ground (arith, s.serialized, s.fits, s.simulated, s.sent)

simulate_cases :
    (c : Connection) (size : ℕ)
    → c.serialize ≡ answered size
    → size ≤ max_tx_raw_bytes
    → ((sig : JsString) × IsSent c sig) ⊎ Fails (simulate c)
unfolding simulate send
simulate_cases c size e fits = go c.simulate_transaction refl c.send_transaction refl
  where
    go :
        (err : Reply (Option JsString))
        → c.simulate_transaction ≡ err
        → (sig : Reply JsString) → c.send_transaction ≡ sig
        → ((sig : JsString) × IsSent c sig) ⊎ Fails (simulate c)
    go (raised m) f sig g = inr (m, ground (arith, f))
    go (answered (some err)) f sig g = inr (codes "simulation failed: " ++ err, ground (arith, f))
    go (answered none) f (raised m) g = inr (m, ground (arith, f, g))
    go (answered none) f (answered sig) g =
        inl (sig, record { size = size; serialized = e; fits = fits; simulated = f; sent = g })

simulate_and_send_cases :
    (c : Connection) → ((sig : JsString) × IsSent c sig) ⊎ Fails (simulate_and_send c)
unfolding simulate_and_send
simulate_and_send_cases c = go c.serialize refl
  where
    go :
        (size : Reply ℕ)
        → c.serialize ≡ size
        → ((sig : JsString) × IsSent c sig) ⊎ Fails (simulate_and_send c)
    go (raised m) e = inr (m, ground (arith, e))
    go (answered size) e = elim (Bool-cases (ltb max_tx_raw_bytes size)) [
      | inl large ↦ inr (too_large_message size, ground (arith, e, large))
      | inr fits ↦ elim (simulate_cases c size e (ground (arith, fits))) [
        | inl sent ↦ inl sent
        | inr (m, failure) ↦ inr (m, ground (arith, e, fits, failure))
      ]
    ]

verdict-landed :
    (sig : JsString) (reply : Reply (Option SignatureStatus))
    → SaysLanded reply
    → status_verdict sig reply ≡ some (returned sig)
unfolding status_verdict
verdict-landed sig (raised m) h = absurd h
verdict-landed sig (answered none) h = absurd h
verdict-landed sig (answered (some status)) h = ground (arith, h)

verdict-open :
    (sig : JsString) (reply : Reply (Option SignatureStatus))
    → LeavesOpen reply
    → status_verdict sig reply ≡ none
unfolding status_verdict
verdict-open sig (raised m) h = absurd h
verdict-open sig (answered none) h = refl
verdict-open sig (answered (some status)) h = ground (arith, h)

verdict_cases :
    (sig : JsString) (reply : Reply (Option SignatureStatus))
    → SaysLanded reply
      ⊎ LeavesOpen reply
      ⊎ ((message : JsString) × (status_verdict sig reply ≡ some (thrown (plain_error message))))
unfolding status_verdict
verdict_cases sig (raised m) = inr (inr (m, refl))
verdict_cases sig (answered none) = inr (inl tt)
verdict_cases sig (answered (some status)) =
    elim (Bool-cases (is_settled_status status.confirmation_status)) [
      | inl over ↦ elim (Option-cases status.err) [
        | inl clean ↦ inl (over, clean)
        | inr (err, e) ↦ inr (inr (codes "tx landed with error: " ++ err, ground (arith, over, e)))
      ]
      | inr not_over ↦ inr (inl not_over)
    ]

module _ (sig : JsString) (ask : ℕ → Reply (Option SignatureStatus)) where
  poll-lands :
      (left attempt : ℕ)
      → LandsWithin ask left attempt
      → poll_status sig ask left attempt ≡ returned sig
  unfolding poll_status
  poll-lands zero attempt h = absurd h
  poll-lands (suc left) attempt (inl says) =
      rw (verdict-landed sig (ask attempt) says, poll_status) refl
  poll-lands (suc left) attempt (inr (still_open, h)) =
      rw (verdict-open sig (ask attempt) still_open, poll_status) (poll-lands left (attempt + 1) h)

  poll-open :
      (left attempt : ℕ)
      → StaysOpen ask left attempt
      → poll_status sig ask left attempt ≡ thrown (tx_timeout_error sig)
  unfolding poll_status
  poll-open zero attempt h = refl
  poll-open (suc left) attempt (still_open, h) =
      rw (verdict-open sig (ask attempt) still_open, poll_status) (poll-open left (attempt + 1) h)

  poll_cases :
      (left attempt : ℕ)
      → LandsWithin ask left attempt
        ⊎ StaysOpen ask left attempt
        ⊎ Fails (poll_status sig ask left attempt)
  unfolding poll_status
  poll_cases zero attempt = inr (inl tt)
  poll_cases (suc left) attempt = elim (verdict_cases sig (ask attempt)) [
    | inl says ↦ inl (inl says)
    | inr (inr (m, e)) ↦ inr (inr (m, rw (e, poll_status) refl))
    | inr (inl still_open) ↦ elim (poll_cases left (attempt + 1)) [
      | inl lands ↦ inl (inr (still_open, lands))
      | inr (inl stays) ↦ inr (inl (still_open, stays))
      | inr (inr (m, e)) ↦
          inr (inr (m, rw (verdict-open sig (ask attempt) still_open, poll_status) e))
    ]
  ]

-- The network confirmed the transaction, with or without an error of its own, or the waiting
-- timed out and then one of three answers says that it landed.
abbrev pub IsConfirmed : Connection → Type 0
IsConfirmed c =
    ((err : Option JsString) × (c.confirm_transaction ≡ answered err))
    ⊎ (TimesOut c × LandsWithin c.get_signature_status status_attempts 0)

-- The waiting timed out, and three answers leave open what became of the transaction.
abbrev pub IsInDoubt : Connection → Type 0
IsInDoubt c = TimesOut c × StaysOpen c.get_signature_status status_attempts 0

module _ (c : Connection) (sig : JsString) where
  confirm-returned : IsConfirmed c → confirm c sig ≡ returned sig
  unfolding confirm
  confirm-returned (inl (err, e)) = rw e refl
  confirm-returned (inr ((message, e, timeout), lands)) =
      rw e (rw timeout (poll-lands sig c.get_signature_status status_attempts 0 lands))

  confirm-in_doubt : IsInDoubt c → confirm c sig ≡ thrown (tx_timeout_error sig)
  unfolding confirm
  confirm-in_doubt ((message, e, timeout), stays) =
      rw e (rw timeout (poll-open sig c.get_signature_status status_attempts 0 stays))

  confirm_cases : IsConfirmed c ⊎ IsInDoubt c ⊎ Fails (confirm c sig)
  unfolding confirm
  confirm_cases = go c.confirm_transaction refl
    where
      go :
          (reply : Reply (Option JsString))
          → c.confirm_transaction ≡ reply
          → IsConfirmed c ⊎ IsInDoubt c ⊎ Fails (confirm c sig)
      go (answered err) e = inl (inl (err, e))
      go (raised m) e = elim (Bool-cases (is_confirm_timeout_error m)) [
        | inr other ↦ inr (inr (m, ground (arith, e, other)))
        | inl timeout ↦ elim (poll_cases sig c.get_signature_status status_attempts 0) [
          | inl lands ↦ inl (inr ((m, e, timeout), lands))
          | inr (inl stays) ↦ inr (inl ((m, e, timeout), stays))
          | inr (inr (m', f)) ↦ inr (inr (m', rw e (rw timeout f)))
        ]
      ]

-- `simulateAndSend` returns a signature exactly when the transaction was sent under it and is
-- confirmed: its bytes are within the limit, its simulation shows no error, and the network
-- confirmed it, with or without an error of its own, or the waiting timed out and one of three
-- status answers says that it landed with no error, those before leaving it open.
pub simulate_and_send-returned_iff :
    (c : Connection) (sig : JsString)
    → (simulate_and_send c ≡ returned sig) ↔ (IsSent c sig × IsConfirmed c)
simulate_and_send-returned_iff c sig = (
  λ e. elim (simulate_and_send_cases c) [
    | inr (m, f) ↦ cc
    | inl (sig', sent) ↦ elim (confirm_cases c sig') [
      | inl confirmed ↦
          let same : sig' ≡ sig =
            cc (confirm_of_sent c sig' sent, confirm-returned c sig' confirmed) in
          (subst (λ s. IsSent c s) same sent, confirmed)
      | inr (inl in_doubt) ↦ cc (confirm_of_sent c sig' sent, confirm-in_doubt c sig' in_doubt)
      | inr (inr (m, f)) ↦ cc (confirm_of_sent c sig' sent)
    ]
  ],
  λ (sent, confirmed). confirm_of_sent c sig sent ∙ confirm-returned c sig confirmed,
)

-- `simulateAndSend` throws a timeout error exactly when the transaction was sent, the waiting for
-- its confirmation timed out, and three status answers leave open what became of it.
pub simulate_and_send-timeout_iff :
    (c : Connection)
    → ((f : Failure) × (simulate_and_send c ≡ thrown f) × (f.is_tx_timeout ≡ true))
      ↔ ((sig : JsString) × IsSent c sig × IsInDoubt c)
simulate_and_send-timeout_iff c = (
  λ (f, e, timeout). elim (simulate_and_send_cases c) [
    | inr (m, g) ↦ ground (arith, e, timeout, g)
    | inl (sig, sent) ↦ elim (confirm_cases c sig) [
      | inl confirmed ↦ cc (confirm_of_sent c sig sent, confirm-returned c sig confirmed)
      | inr (inl in_doubt) ↦ (sig, sent, in_doubt)
      | inr (inr (m, g)) ↦ ground (arith, e, timeout, g, confirm_of_sent c sig sent)
    ]
  ],
  λ (sig, sent, in_doubt).
      (tx_timeout_error sig, confirm_of_sent c sig sent ∙ confirm-in_doubt c sig in_doubt, refl),
)
