-- ===== src/Examples.antt =====
-- Runs of the modelled code on concrete inputs: tests, and the theorems at inputs of their own.
mod Service
mod Runtime
mod Accounts
mod Degen
mod Executor
mod Sending
mod Processing
mod Missions
mod Social
mod Requests
mod Endpoints
use winny.Base.{ℕ, zero, suc, ◌≡◌, refl, ap, List, [], ◌∷◌, ◌++◌, length}

abbrev pub zeros : ℕ → List ℕ
zeros zero = []
zeros (suc n) = 0 ∷ zeros n

pub length-zeros : (n : ℕ) → length (zeros n) ≡ n
length-zeros zero = refl
length-zeros (suc n) = ap suc (length-zeros n)

-- A round's account that is no longer than the readers need, with a status.
abbrev pub round_bytes : ℕ → List ℕ
round_bytes status = zeros 16 ++ (status ∷ zeros 200)
