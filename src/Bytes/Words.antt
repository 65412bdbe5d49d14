-- ===== src/Bytes/Words.antt =====
-- Little-endian words: writing and reading are inverse, both ways.
use winny.Base.{
  ℕ, zero, suc, ◌+◌, ◌*◌, ◌/◌, ◌%◌, ◌^◌, ◌<◌, ◌≡◌, refl, ap, [], ◌∷◌, length, All, arith,
}
use native.Mathlib.Nat.{pow-suc}
use winny.Bytes.{Buffer, le_value, le_bytes}

abbrev pub IsByte : ℕ → Type 0
IsByte b = b < 256

pub length-le_bytes : (w n : ℕ) → length (le_bytes w n) ≡ w
unfolding le_bytes
length-le_bytes zero n = refl
length-le_bytes (suc w) n = ap suc (length-le_bytes w (n / 256))

pub le_bytes-IsByte : (w n : ℕ) → All IsByte (le_bytes w n)
unfolding le_bytes
le_bytes-IsByte zero n = tt
le_bytes-IsByte (suc w) n = (omega arith, le_bytes-IsByte w (n / 256))

div-lt : (n p : ℕ) → n < p * 256 → n / 256 < p
div-lt n p h = omega arith

-- A number that fits the width is read back from its bytes.
pub le_value-le_bytes : (w n : ℕ) → n < 256 ^ w → le_value (le_bytes w n) ≡ n
unfolding le_value le_bytes
le_value-le_bytes zero n h = omega arith
le_value-le_bytes (suc w) n h =
    omega (arith, le_value-le_bytes w (n / 256) (div-lt n (256 ^ w) (rw pow-suc at h)))

-- The value of `w` bytes fits their width.
pub le_value-lt : (d : Buffer) → All IsByte d → le_value d < 256 ^ length d
unfolding le_value
le_value-lt [] h = omega arith
le_value-lt (b ∷ d) (p, h) = rw pow-suc (omega (arith, le_value-lt d h))

-- Bytes are given back by writing their value.
pub le_bytes-le_value : (d : Buffer) → All IsByte d → le_bytes (length d) (le_value d) ≡ d
unfolding le_value le_bytes
le_bytes-le_value [] h = refl
le_bytes-le_value (b ∷ d) (p, h) =
    let low : (b + 256 * le_value d) % 256 ≡ b = omega arith in
    let high : (b + 256 * le_value d) / 256 ≡ le_value d = omega arith in
    rw (low, high) (ap (λ t. b ∷ t) (le_bytes-le_value d h))
