-- ===== src/Crank/Hoare.antt =====
-- Rules for what an action keeps and what it establishes, one for each way to build an action.
use winny.Base.{ℕ, Bool, true, false, Option, none, some, ◌∷◌, ◌≡◌, refl, if◌then◌else◌}
use winny.Text.{JsString}
use winny.Crank.{
  World, Crank, Action, Answer, answer, failure, Event, Outcome, returned, thrown, pure, continue,
  handle, ◌>>=◌, try_catch, gets, modify, when, emit, from_answer, answered, now,
}

-- `Q` of what was returned, or `E` after an error.
abbrev pub Post :
    {Key A : Type 0}
    → (A → Crank Key → Type 0)
    → (Crank Key → Type 0)
    → Outcome A × Crank Key
    → Type 0
Post Q E (returned a, s) = Q a s
Post Q E (thrown message, s) = E s

pub record Triple {Key A : Type 0} (P : Crank Key → Type 0) (m : Action Key A)
    (Q : A → Crank Key → Type 0) (E : Crank Key → Type 0) : Type 0 where
  pub at : (s : Crank Key) → P s → Post Q E (m s)

-- The action keeps `P`, whether it returns or throws.
abbrev pub Keeps : {Key A : Type 0} → (Crank Key → Type 0) → Action Key A → Type 0
Keeps P m = Triple P m (λ _. P) P

module _ {Key : Type 0} {P E : Crank Key → Type 0} where
  pub Triple-pure :
      {A : Type 0} {Q : A → Crank Key → Type 0} (a : A)
      → ((s : Crank Key) → P s → Q a s)
      → Triple P (pure a) Q E
  Triple-pure a h = record { at = h }

  pub Triple-gets :
      {A : Type 0} {Q : A → Crank Key → Type 0} (f : Crank Key → A)
      → ((s : Crank Key) → P s → Q (f s) s)
      → Triple P (gets f) Q E
  unfolding gets
  Triple-gets f h = record { at = h }

  pub Triple-modify :
      {Q : Unit {0} → Crank Key → Type 0} (f : Crank Key → Crank Key)
      → ((s : Crank Key) → P s → Q tt (f s))
      → Triple P (modify f) Q E
  unfolding modify
  Triple-modify f h = record { at = h }

  pub Triple-emit :
      {Q : Unit {0} → Crank Key → Type 0} (e : Event Key)
      → ((s : Crank Key) → P s → Q tt (record s { events = e ∷ s.events }))
      → Triple P (emit e) Q E
  unfolding emit
  Triple-emit e h = record { at = h }

  pub Triple-bind :
      {A B : Type 0} {Q : A → Crank Key → Type 0} {R : B → Crank Key → Type 0} (m : Action Key A)
      (k : A → Action Key B)
      → Triple P m Q E
      → ((a : A) → Triple (Q a) (k a) R E)
      → Triple P (m >>= k) R E
  unfolding ◌>>=◌
  Triple-bind {A} {B} {Q} {R} m k tm tk = record { at = λ s p. go (m s) (tm.at s p) }
    where
      go : (r : Outcome A × Crank Key) → Post Q E r → Post R E (continue r k)
      go (returned a, s) q = (tk a).at s q
      go (thrown message, s) e = e

  pub Triple-try :
      {A : Type 0} {Q : A → Crank Key → Type 0} {F : Crank Key → Type 0} (m : Action Key A)
      (k : JsString → Action Key A)
      → Triple P m Q F
      → ((message : JsString) → Triple F (k message) Q E)
      → Triple P (try_catch m k) Q E
  unfolding try_catch
  Triple-try {A} {Q} {F} m k tm tk = record { at = λ s p. go (m s) (tm.at s p) }
    where
      go : (r : Outcome A × Crank Key) → Post Q F r → Post Q E (handle r k)
      go (returned a, s) q = q
      go (thrown message, s) f = (tk message).at s f

  pub Triple-if :
      {A : Type 0} {Q : A → Crank Key → Type 0} (b : Bool) (m n : Action Key A)
      → (b ≡ true → Triple P m Q E)
      → (b ≡ false → Triple P n Q E)
      → Triple P (if b then m else n) Q E
  Triple-if true m n tm tn = tm refl
  Triple-if false m n tm tn = tn refl

  pub Triple-when :
      {Q : Unit {0} → Crank Key → Type 0} (b : Bool) (m : Action Key (Unit {0}))
      → (b ≡ true → Triple P m Q E)
      → ((s : Crank Key) → P s → Q tt s)
      → Triple P (when b m) Q E
  unfolding when
  Triple-when true m tm q = tm refl
  Triple-when false m tm q = record { at = q }

  -- A `switch` on what may be missing.
  pub Triple-option :
      {A B : Type 0} {Q : B → Crank Key → Type 0} (o : Option A) (m : Action Key B)
      (k : A → Action Key B)
      → (o ≡ none → Triple P m Q E)
      → ((a : A) → o ≡ some a → Triple P (k a) Q E)
      → Triple P (elim o [ none ↦ m | some a ↦ k a ]) Q E
  Triple-option none m k tm tk = tm refl
  Triple-option (some a) m k tm tk = tk a refl

  -- An answer from outside: one more call, and then the answer or the error.
  pub Triple-answer :
      {A : Type 0} {Q : A → Crank Key → Type 0} (f : Crank Key → Answer A)
      → ((a : A) (s : Crank Key) → P s → Q a (answered s))
      → ((s : Crank Key) → P s → E (answered s))
      → Triple P (λ s. from_answer (f s) s) Q E
  Triple-answer {A} {Q} f q e = record { at = λ s p. go (f s) s p }
    where
      go : (r : Answer A) (s : Crank Key) → P s → Post Q E (from_answer r s)
      go (answer a) s p = q a s p
      go (failure message) s p = e s p

  pub Triple-now :
      {Q : ℕ → Crank Key → Type 0} (w : World Key)
      → ((t : ℕ) (s : Crank Key) → P s → Q t (answered s))
      → Triple P (now w) Q E
  unfolding now
  Triple-now w q = record { at = λ s p. q (w.clock s.calls) s p }

module _ {Key A : Type 0} {P P' E E' : Crank Key → Type 0} {Q Q' : A → Crank Key → Type 0} where
  -- A stronger assumption and weaker conclusions.
  pub Triple-weaken :
      (m : Action Key A)
      → ((s : Crank Key) → P' s → P s)
      → ((a : A) (s : Crank Key) → Q a s → Q' a s)
      → ((s : Crank Key) → E s → E' s)
      → Triple P m Q E
      → Triple P' m Q' E'
  Triple-weaken m p q e t = record { at = λ s h. go (m s) (t.at s (p s h)) }
    where
      go : (r : Outcome A × Crank Key) → Post Q E r → Post Q' E' r
      go (returned a, s) h = q a s h
      go (thrown message, s) h = e s h
