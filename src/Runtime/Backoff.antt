-- ===== src/Runtime/Backoff.antt =====
-- The delays between two attempts: their bounds, and their growth under repeated failures.
use native.Mathlib.Nat.{pow-suc}
use winny.Base.{
  ℕ, zero, suc, ◌*◌, ◌^◌, ◌≤◌, min, ◌≡◌, ap, ◌∙◌, inl, inr, Bool-cases, Bool, true, false, Option,
  some, List, [], ◌∷◌, arith, leb, if◌then◌else◌,
}
use winny.Runtime.{compute_cleanup_retry_delay}

-- The delay after a run of outcomes, each with its `fast` flag, from a first delay on.
pub delay_after : ℕ → ℕ → ℕ → List Bool → ℕ
delay_after lo hi current [] = current
delay_after lo hi current (fast ∷ outcomes) =
    delay_after lo hi (compute_cleanup_retry_delay (some current) lo hi (some fast)) outcomes

abbrev pub slow_failures : ℕ → List Bool
slow_failures zero = []
slow_failures (suc n) = false ∷ slow_failures n

-- Where the least delay is not above the greatest one: a slow outcome's delay lies between them, a
-- fast outcome's is at most 2 seconds and at most the least one.
pub compute_cleanup_retry_delay_bounds :
    (current : Option ℕ) (lo hi : ℕ) (fast : Bool)
    → lo ≤ hi
    → let d = compute_cleanup_retry_delay current lo hi (some fast) in
      if fast then (d ≤ 2) × (d ≤ lo) else (lo ≤ d) × (d ≤ hi)
unfolding compute_cleanup_retry_delay
compute_cleanup_retry_delay_bounds current lo hi true h = omega arith
compute_cleanup_retry_delay_bounds current lo hi false h = omega arith

-- After any outcomes, fast and slow, the delay is at most the greatest one.
pub delay_after-le :
    (lo hi current : ℕ) (outcomes : List Bool)
    → lo ≤ hi
    → current ≤ hi
    → delay_after lo hi current outcomes ≤ hi
unfolding delay_after
delay_after-le lo hi current [] h k = k
delay_after-le lo hi current (fast ∷ outcomes) h k =
    delay_after-le lo hi (compute_cleanup_retry_delay (some current) lo hi (some fast)) outcomes h
      (bound fast)
  where
    bound : (f : Bool) → compute_cleanup_retry_delay (some current) lo hi (some f) ≤ hi
    bound true = unfold compute_cleanup_retry_delay in omega arith
    bound false = unfold compute_cleanup_retry_delay in omega arith

pow-pos : (n : ℕ) → 1 ≤ 2 ^ n
pow-pos zero = omega arith
pow-pos (suc n) = rw pow-suc (omega (arith, pow-pos n))

mul_mono : (a b p : ℕ) → a ≤ b → a * p ≤ b * p
mul_mono a b p h = grind arith

le-mul_pos : (a p : ℕ) → 1 ≤ p → a ≤ a * p
le-mul_pos a p h = grind arith

min-mul-min : (hi c p : ℕ) → 1 ≤ p → min hi (min hi (c * 2) * p) ≡ min hi (c * (p * 2))
min-mul-min hi c p h = elim (Bool-cases (leb (c * 2) hi)) [
  | inl small ↦ let e : min hi (c * 2) ≡ c * 2 = ground arith in rw e (omega arith)
  | inr large ↦
      let e : min hi (c * 2) ≡ hi = ground arith in
      let le : hi * p ≤ c * 2 * p = mul_mono hi (c * 2) p (ground arith) in
      rw e (omega (arith, le-mul_pos hi p h))
]

slow_delay :
    (lo hi current : ℕ)
    → lo ≤ current
    → compute_cleanup_retry_delay (some current) lo hi (some false) ≡ min hi (current * 2)
unfolding compute_cleanup_retry_delay
slow_delay lo hi current h = omega arith

-- After `n` slow outcomes in a row the first delay, which is at least the least one, has doubled
-- `n` times, up to the greatest one.
pub delay_after-slow_failures :
    (n lo hi current : ℕ)
    → lo ≤ current
    → current ≤ hi
    → delay_after lo hi current (slow_failures n) ≡ min hi (current * 2 ^ n)
unfolding delay_after
delay_after-slow_failures zero lo hi current h k = omega arith
delay_after-slow_failures (suc n) lo hi current h k =
    ap (λ d. delay_after lo hi d (slow_failures n)) (slow_delay lo hi current h)
    ∙ (delay_after-slow_failures n lo hi (min hi (current * 2)) (omega arith) (omega arith)
        ∙ (min-mul-min hi current (2 ^ n) (pow-pos n) ∙ rw pow-suc))
