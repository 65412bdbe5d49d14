-- ===== src/Base/Replies.antt =====
-- What an awaited call gives: its value, or the message of the error that it throws.
use Prim.Native.Nat.{ℕ}
use mathlib.Core.List.{List}

pub data Reply (A : Type 0) : Type 0 where
  answered : A → Reply A
  raised : List ℕ → Reply A
