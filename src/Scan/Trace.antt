-- ===== src/Scan/Trace.antt =====
-- The two loops of the scan, against accounts that each have one content for the whole scan.
use winny.Base.{
  ℕ, zero, suc, ◌+◌, ◌≤◌, ◌<◌, ◌≡◌, ◌⊎◌, inl, inr, ◌∙◌, subst, true, false, some, List, ◌∷◌, map,
  arith, Bool-cases, leb,
}
use winny.Scan.{
  ScanEntry, missing, invalid, round, Progress, visit, stops, batch_ids, scan_entries, scan_batches,
  conclude, found, ActiveRoundScanArgs,
}
use winny.Scan.Window.{Window, Window-visit}

-- A loop that began at `from` has visited the accounts up to some `next`, which is at most `top`:
-- to `upto` at least, or to where the test for the `break` holds.
pub record Reached (chain : ℕ → ScanEntry) (limit start from upto top : ℕ) (s : Progress)
    : Type 0 where
  pub next : ℕ
  pub forward : from ≤ next
  pub bounded : next ≤ top
  pub window : Window chain start next s
  pub why : (upto ≤ next) ⊎ (stops limit s ≡ true)

module _ {chain : ℕ → ScanEntry} {limit start from from' upto upto' top top' : ℕ}
    {s : Progress} where
  Reached-widen :
      from ≤ from'
      → upto ≡ upto'
      → top' ≤ top
      → Reached chain limit start from' upto' top' s
      → Reached chain limit start from upto top s
  Reached-widen h e k r = record {
    next = r.next;
    forward = omega (arith, r.forward);
    bounded = omega (arith, r.bounded);
    window = r.window;
    why = rw e r.why;
  }

module _ (chain : ℕ → ScanEntry) (limit start : ℕ) (positive : 0 < start) where
  -- One account and then the rest of its batch.
  scan_entries-Reached_cons :
      (n base : ℕ) (s : Progress) (entry : ScanEntry) (ids : List ℕ) (entries : List ScanEntry)
      → Window chain start (base + 1) (visit base entry s)
      → Reached chain limit start base
          (base + suc n)
          (base + suc n)
          (scan_entries limit (visit base entry s) ids entries)
      → Reached chain limit start base
          (base + suc n)
          (base + suc n)
          (scan_entries limit s (base ∷ ids) (entry ∷ entries))
  unfolding scan_entries
  scan_entries-Reached_cons n base s missing ids entries w r =
      elim (Bool-cases (stops limit (visit base missing s))) [
        | inl stop ↦ rw stop (record {
          next = base + 1;
          forward = omega arith;
          bounded = omega arith;
          window = w;
          why = inr stop;
        })
        | inr on ↦ rw on r
      ]
  scan_entries-Reached_cons n base s invalid ids entries w r = r
  scan_entries-Reached_cons n base s (round status) ids entries w r = r

  scan_entries-Reached :
      (n base : ℕ) (s : Progress)
      → Window chain start base s
      → Reached chain limit start base
          (base + n)
          (base + n)
          (scan_entries limit s (batch_ids base n) (map chain (batch_ids base n)))
  unfolding batch_ids
  scan_entries-Reached zero base s w =
      unfold scan_entries in
      record {
        next = base;
        forward = omega arith;
        bounded = omega arith;
        window = w;
        why = inl (omega arith);
      }
  scan_entries-Reached (suc n) base s w =
      let w' = Window-visit chain start base s positive w in
      scan_entries-Reached_cons n base s (chain base) (batch_ids (base + 1) n)
        (map chain (batch_ids (base + 1) n)) w'
        (Reached-widen (omega arith) (omega arith) (omega arith)
          (scan_entries-Reached n (base + 1) (visit base (chain base) s) w'))

-- Every batch is answered with the accounts' contents.
abbrev pub Answers : ActiveRoundScanArgs → (ℕ → ScanEntry) → Type 0
Answers a chain = (ids : List ℕ) → a.fetch_batch ids ≡ some (map chain ids)

abbrev pub Ended : ActiveRoundScanArgs → (ℕ → ScanEntry) → Progress → Type 0
Ended a chain s =
    Reached chain a.null_streak_limit a.scan_start a.scan_start (a.scan_start + a.max_scan + 1)
      (a.scan_start + a.max_scan + a.batch_size + 1) s

module _ (a : ActiveRoundScanArgs) (chain : ℕ → ScanEntry) (answers : Answers a chain) where
  -- The progress after the batch from `base` on.
  abbrev after_batch : ℕ → Progress → Progress
  after_batch base s =
      scan_entries a.null_streak_limit s (batch_ids base a.batch_size)
        (map chain (batch_ids base a.batch_size))

  scan_batches-past :
      (fuel base : ℕ) (s : Progress)
      → leb base (a.scan_start + a.max_scan) ≡ false
      → scan_batches a (suc fuel) base s ≡ found (conclude a.archived_max s)
  unfolding scan_batches
  scan_batches-past fuel base s past = ground arith

  scan_batches-stop :
      (fuel base : ℕ) (s : Progress)
      → leb base (a.scan_start + a.max_scan) ≡ true
      → stops a.null_streak_limit (after_batch base s) ≡ true
      → scan_batches a (suc fuel) base s ≡ found (conclude a.archived_max (after_batch base s))
  unfolding scan_batches
  scan_batches-stop fuel base s inside stop = ground (arith, answers (batch_ids base a.batch_size))

  scan_batches-on :
      (fuel base : ℕ) (s : Progress)
      → leb base (a.scan_start + a.max_scan) ≡ true
      → stops a.null_streak_limit (after_batch base s) ≡ false
      → scan_batches a (suc fuel) base s
        ≡ scan_batches a fuel (base + a.batch_size) (after_batch base s)
  unfolding scan_batches
  scan_batches-on fuel base s inside on = ground (arith, answers (batch_ids base a.batch_size))

  Window-at_end :
      {start from upto limit : ℕ} {s : Progress}
      → (r : Reached chain limit start from upto upto s) → stops limit s ≡ false
      → Window chain start upto s
  Window-at_end {start} {upto} {s} r on =
      let e : r.next ≡ upto = ground (arith, r.why, r.bounded) in
      subst (λ n. Window chain start n s) e r.window

  module _ (positive : 0 < a.scan_start) (batch : 0 < a.batch_size) where
    scan_batches-Ended_round :
        (fuel base : ℕ) (s : Progress)
        → leb base (a.scan_start + a.max_scan) ≡ true
        → a.scan_start ≤ base
        → Reached chain a.null_streak_limit a.scan_start base
            (base + a.batch_size)
            (base + a.batch_size)
            (after_batch base s)
        → (Window chain a.scan_start (base + a.batch_size) (after_batch base s)
            → (s' : Progress) × Ended a chain s'
              × (scan_batches a fuel (base + a.batch_size) (after_batch base s)
                  ≡ found (conclude a.archived_max s')))
        → (s' : Progress) × Ended a chain s'
          × (scan_batches a (suc fuel) base s ≡ found (conclude a.archived_max s'))
    scan_batches-Ended_round fuel base s inside low r later =
        elim (Bool-cases (stops a.null_streak_limit (after_batch base s))) [
          | inl stop ↦ (
            after_batch base s,
            record {
              next = r.next;
              forward = omega (arith, r.forward);
              bounded = ground (arith, r.bounded);
              window = r.window;
              why = inr stop;
            },
            scan_batches-stop fuel base s inside stop,
          )
          | inr on ↦
              let (s', ended, e) = later (Window-at_end r on) in
              (s', ended, scan_batches-on fuel base s inside on ∙ e)
        ]

    scan_batches-Ended_past :
        (fuel base : ℕ) (s : Progress)
        → base ≤ a.scan_start + a.max_scan + a.batch_size + 1
        → Window chain a.scan_start base s
        → leb base (a.scan_start + a.max_scan) ≡ false
        → (s' : Progress) × Ended a chain s'
          × (scan_batches a (suc fuel) base s ≡ found (conclude a.archived_max s'))
    scan_batches-Ended_past fuel base s k w past = (
      s,
      record {
        next = base;
        forward = omega (arith, w.gap.within);
        bounded = k;
        window = w;
        why = inl (ground arith);
      },
      scan_batches-past fuel base s past,
    )

    -- With enough fuel the outer loop ends, at a test for a `break` or past the last id.
    pub scan_batches-Ended :
        (fuel base : ℕ) (s : Progress)
        → a.scan_start + a.max_scan + 1 ≤ base + fuel
        → base ≤ a.scan_start + a.max_scan + a.batch_size + 1
        → Window chain a.scan_start base s
        → (s' : Progress) × Ended a chain s'
          × (scan_batches a (suc fuel) base s ≡ found (conclude a.archived_max s'))
    scan_batches-Ended zero base s h k w = scan_batches-Ended_past 0 base s k w (ground arith)
    scan_batches-Ended (suc fuel) base s h k w =
        elim (Bool-cases (leb base (a.scan_start + a.max_scan))) [
          | inr past ↦ scan_batches-Ended_past (suc fuel) base s k w past
          | inl inside ↦
              let r =
                scan_entries-Reached chain a.null_streak_limit a.scan_start positive a.batch_size
                  base s w in
              scan_batches-Ended_round (suc fuel) base s inside (omega (arith, w.gap.within)) r (
                scan_batches-Ended fuel (base + a.batch_size) (after_batch base s) (omega arith)
                  (ground arith))
        ]
