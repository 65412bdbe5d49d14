-- ===== src/Scan/Window.antt =====
-- What the variables of a scan say of the accounts that it has visited, where each account has one
-- content for the whole scan.
use winny.Base.{ℕ, ◌+◌, ◌≤◌, ◌<◌, ◌≡◌, ◌⊎◌, inl, inr, Bool, true, false, refl, arith, if◌then◌else◌}
use winny.RoundStatus.{is_active_round_status}
use winny.Scan.{ScanEntry, missing, invalid, round, Progress, initial, visit}

-- The account holds a round, and one that is in play.
abbrev pub is_round : ScanEntry → Bool
is_round (round status) = true
is_round _ = false

abbrev pub is_active : ScanEntry → Bool
is_active (round status) = is_active_round_status status
is_active _ = false

-- `top` is 0, or the greatest id from `start` up to `next` whose account passes the test.
pub record IsGreatest (chain : ℕ → ScanEntry) (test : ScanEntry → Bool) (start next top : ℕ)
    : Type 0 where
  pub seen : (top ≡ 0) ⊎ ((start ≤ top) × (top < next) × (test (chain top) ≡ true))
  pub above : (id : ℕ) → start ≤ id → id < next → test (chain id) ≡ true → id ≤ top

-- The last `n` of the accounts up to `next` are missing.
pub record IsGap (chain : ℕ → ScanEntry) (start next n : ℕ) : Type 0 where
  pub within : start + n ≤ next
  pub gone : (id : ℕ) → next ≤ id + n → id < next → chain id ≡ missing

-- The accounts from `start` up to `next` have been visited.
pub record Window (chain : ℕ → ScanEntry) (start next : ℕ) (s : Progress) : Type 0 where
  pub rounds : IsGreatest chain is_round start next s.max_existing
  pub actives : IsGreatest chain is_active start next s.active_round
  pub gap : IsGap chain start next s.null_streak

pub Window-initial : (chain : ℕ → ScanEntry) (start : ℕ) → Window chain start start initial
Window-initial chain start = record {
  rounds = record { seen = inl (omega arith); above = λ id. omega arith };
  actives = record { seen = inl (omega arith); above = λ id. omega arith };
  gap = record { within = omega arith; gone = λ id p q. absurd (omega arith) };
}

last_or_below : (id next : ℕ) → id < next + 1 → (id ≡ next) ⊎ (id < next)
last_or_below id next h = omega arith

module _ {chain : ℕ → ScanEntry} {test : ScanEntry → Bool} {start next top : ℕ} where
  IsGreatest-pass :
      0 < start
      → start ≤ next
      → IsGreatest chain test start next top
      → test (chain next) ≡ true
      → IsGreatest chain test start (next + 1) next
  IsGreatest-pass h k g e = record {
    seen = inr (k, omega arith, e);
    above = λ id _ p _. omega arith;
  }

  IsGreatest-fail :
      IsGreatest chain test start next top
      → test (chain next) ≡ false
      → IsGreatest chain test start (next + 1) top
  IsGreatest-fail g e = record {
    seen = grind (arith, g.seen);
    above = λ id p q t. elim (last_or_below id next q) [
      | inl same ↦ let e' : test (chain id) ≡ false = rw same e in cc
      | inr below ↦ g.above id p below t
    ];
  }

  IsGreatest-step :
      (b : Bool)
      → 0 < start
      → start ≤ next
      → IsGreatest chain test start next top
      → test (chain next) ≡ b
      → IsGreatest chain test start (next + 1) (if b then next else top)
  IsGreatest-step true h k g e = IsGreatest-pass h k g e
  IsGreatest-step false h k g e = IsGreatest-fail g e

module _ {chain : ℕ → ScanEntry} {start next : ℕ} where
  IsGap-more :
      {n : ℕ}
      → IsGap chain start next n
      → chain next ≡ missing
      → IsGap chain start (next + 1) (n + 1)
  IsGap-more g e = record {
    within = omega (arith, g.within);
    gone = λ id p q. elim (last_or_below id next q) [
      | inl same ↦ rw same e
      | inr below ↦ g.gone id (omega arith) below
    ];
  }

  IsGap-none : start ≤ next → IsGap chain start (next + 1) 0
  IsGap-none k = record { within = omega arith; gone = λ id p q. absurd (omega arith) }

-- One more account: its content decides what each variable becomes.
pub Window-visit :
    (chain : ℕ → ScanEntry) (start next : ℕ) (s : Progress)
    → 0 < start
    → Window chain start next s
    → Window chain start (next + 1) (visit next (chain next) s)
unfolding visit
Window-visit chain start next s h w = go (chain next) refl
  where
    k : start ≤ next
    k = omega (arith, w.gap.within)

    go :
        (entry : ScanEntry)
        → chain next ≡ entry
        → Window chain start (next + 1) (visit next entry s)
    go missing e = record {
      rounds = IsGreatest-fail w.rounds (rw e);
      actives = IsGreatest-fail w.actives (rw e);
      gap = IsGap-more w.gap e;
    }
    go invalid e = record {
      rounds = IsGreatest-fail w.rounds (rw e);
      actives = IsGreatest-fail w.actives (rw e);
      gap = IsGap-none k;
    }
    go (round status) e = record {
      rounds = IsGreatest-pass h k w.rounds (rw e);
      actives = IsGreatest-step (is_active_round_status status) h k w.actives (rw e);
      gap = IsGap-none k;
    }
