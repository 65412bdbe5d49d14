-- ===== src/Executor/Send.antt =====
-- `simulateAndSend` (crank/src/degenExecutor.ts): one transaction, from its bytes to the answer
-- whether it landed. What the connection answers is a parameter, answer by answer.
pub mod Delivered
use winny.Base.{
  Reply, answered, raised, ℕ, zero, suc, ◌+◌, Bool, true, false, ◌||◌, Option, none, some, ◌++◌,
  ltb, if◌then◌else◌,
}
use winny.Text.{JsString, codes, decimal}
use winny.Executor.{Failure, Sent, landed, failed, is_confirm_timeout_error}

pub data ConfirmationStatus : Type 0 where
  processed confirmed finalized : ConfirmationStatus

-- An entry of `getSignatureStatuses`, with its error printed as JSON.
pub record SignatureStatus : Type 0 where
  pub confirmation_status : Option ConfirmationStatus
  pub err : Option JsString

pub record Connection : Type 0 where
  -- The length of the signed and serialized transaction.
  pub serialize : Reply ℕ
  -- `simulation.value.err`, printed as JSON.
  pub simulate_transaction : Reply (Option JsString)
  -- The signature.
  pub send_transaction : Reply JsString
  -- `value.err` of the answer of `confirmTransaction`.
  pub confirm_transaction : Reply (Option JsString)
  -- The answer to the question for the signature's status, by the attempt.
  pub get_signature_status : ℕ → Reply (Option SignatureStatus)

pub data Sending : Type 0 where
  returned : JsString → Sending
  thrown : Failure → Sending

abbrev pub max_tx_raw_bytes : ℕ
max_tx_raw_bytes = 1232

abbrev pub status_attempts : ℕ
status_attempts = 3

abbrev pub plain_error : JsString → Failure
plain_error message = record { message = message; is_tx_timeout = false }

-- `new TxTimeoutError(sig)`
abbrev pub tx_timeout_error : JsString → Failure
tx_timeout_error sig = record {
  message = codes "tx timeout (may have landed): " ++ sig;
  is_tx_timeout = true;
}

unfoldable pub is_settled_status : Option ConfirmationStatus → Bool
is_settled_status (some confirmed) = true
is_settled_status (some finalized) = true
is_settled_status _ = false

-- The body of the loop over the attempts; `none` goes on.
unfoldable pub status_verdict : JsString → Reply (Option SignatureStatus) → Option Sending
unfolding is_settled_status
status_verdict sig (raised message) = some (thrown (plain_error message))
status_verdict sig (answered none) = none
status_verdict sig (answered (some status)) =
    if is_settled_status status.confirmation_status
    then elim status.err [
      | none ↦ some (returned sig)
      | some err ↦ some (thrown (plain_error (codes "tx landed with error: " ++ err)))
    ]
    else none

-- The loop, with the attempts left and the number of the next one.
unfoldable pub poll_status : JsString → (ℕ → Reply (Option SignatureStatus)) → ℕ → ℕ → Sending
poll_status sig ask zero attempt = thrown (tx_timeout_error sig)
poll_status sig ask (suc left) attempt = elim (status_verdict sig (ask attempt)) [
  | some result ↦ result
  | none ↦ poll_status sig ask left (attempt + 1)
]

-- What follows `sendTransaction`.
unfoldable pub confirm : Connection → JsString → Sending
confirm c sig = elim c.confirm_transaction [
  | answered err ↦ returned sig
  | raised message ↦
      if is_confirm_timeout_error message
      then poll_status sig c.get_signature_status status_attempts 0
      else thrown (plain_error message)
]

unfoldable pub too_large_message : ℕ → JsString
too_large_message size =
    codes "transaction too large: "
    ++ decimal size
    ++ codes " bytes (max "
    ++ decimal max_tx_raw_bytes
    ++ codes ")"

unfoldable pub send : Connection → Sending
send c = elim c.send_transaction [
  | raised message ↦ thrown (plain_error message)
  | answered sig ↦ confirm c sig
]

unfoldable pub simulate : Connection → Sending
simulate c = elim c.simulate_transaction [
  | raised message ↦ thrown (plain_error message)
  | answered (some err) ↦ thrown (plain_error (codes "simulation failed: " ++ err))
  | answered none ↦ send c
]

unfoldable pub simulate_and_send : Connection → Sending
simulate_and_send c = elim c.serialize [
  | raised message ↦ thrown (plain_error message)
  | answered size ↦
      if ltb max_tx_raw_bytes size
      then thrown (plain_error (too_large_message size))
      else simulate c
]

-- The answer that the loops over the attempts see.
unfoldable pub sent_of : Sending → Sent
sent_of (returned sig) = landed
sent_of (thrown f) = failed f
