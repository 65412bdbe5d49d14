-- ===== src/Degen/Errors.antt =====
-- The classification of errors by their text (crank/src/degenLogic.ts).
use winny.Base.{Bool, ◌||◌}
use winny.Text.{JsString, codes, includes}

-- `isTxTooLargeError`, for the message of the error.
unfoldable pub is_tx_too_large_error : JsString → Bool
is_tx_too_large_error message =
    includes (codes "encoding overruns Uint8Array") message
    || includes (codes "Transaction too large") message
    || includes (codes "VersionedTransaction too large") message
    || includes (codes "too large:") message

unfoldable pub is_slippage_error : JsString → Bool
is_slippage_error msg =
    includes (codes "6046") msg
    || includes (codes "DegenOutputNotReceived") msg
    || includes (codes "SlippageToleranceExceeded") msg
