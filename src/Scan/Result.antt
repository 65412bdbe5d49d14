-- ===== src/Scan/Result.antt =====
-- What the result of a scan says of the accounts.
use winny.Base.{ℕ, ◌+◌, ◌≤◌, ◌<◌, max, ◌≡◌, ◌⊎◌, inl, inr, true, false, arith, Bool-cases, ltb, leb}
use winny.Scan.{
  ScanEntry, Progress, initial, stops, conclude, found, scan_for_active_round, ActiveRoundScanArgs,
}
use winny.Scan.Window.{is_round, is_active, IsGap, Window, Window-initial}
use winny.Scan.Trace.{Answers, Ended, scan_batches-Ended}

-- The scan visited the ids from its start up to `next`: all of the range that it was given, or up
-- to a gap of as many missing accounts as its limit says.
pub record Coverage (a : ActiveRoundScanArgs) (chain : ℕ → ScanEntry) (next : ℕ) : Type 0 where
  pub forward : a.scan_start ≤ next
  pub bounded : next ≤ a.scan_start + a.max_scan + a.batch_size + 1
  pub complete :
      (a.scan_start + a.max_scan < next) ⊎ IsGap chain a.scan_start next a.null_streak_limit

-- The result is the greatest active round of the visited ids.
pub record IsLatestActive (chain : ℕ → ScanEntry) (start next r : ℕ) : Type 0 where
  pub low : start ≤ r
  pub high : r < next
  pub active : is_active (chain r) ≡ true
  pub latest : (id : ℕ) → start ≤ id → id < next → is_active (chain id) ≡ true → id ≤ r

-- No visited id holds an active round, and the result is the id after the greatest known one.
pub record IsFresh (chain : ℕ → ScanEntry) (start next archived r : ℕ) : Type 0 where
  pub none_active : (id : ℕ) → start ≤ id → id < next → is_active (chain id) ≡ false
  pub unused : (id : ℕ) → start ≤ id → id < next → is_round (chain id) ≡ true → id < r
  pub unarchived : archived < r
  pub tight :
      (r ≡ archived + 1)
      ⊎ ((id : ℕ) × (r ≡ id + 1) × (start ≤ id) × (id < next) × (is_round (chain id) ≡ true))

abbrev pub Verdict : ActiveRoundScanArgs → (ℕ → ScanEntry) → ℕ → ℕ → Type 0
Verdict a chain next r =
    IsLatestActive chain a.scan_start next r ⊎ IsFresh chain a.scan_start next a.archived_max r

module _ {chain : ℕ → ScanEntry} {start next : ℕ} {s : Progress} (archived : ℕ)
    (w : Window chain start next s) (positive : 0 < start) where
  conclude-IsLatestActive :
      0 < s.active_round → IsLatestActive chain start next (conclude archived s)
  conclude-IsLatestActive h =
      let e : conclude archived s ≡ s.active_round = unfold conclude in ground arith in
      rw e (seen w.actives.seen)
    where
      seen :
          (s.active_round ≡ 0)
            ⊎ ((start ≤ s.active_round)
                × (s.active_round < next)
                × (is_active (chain s.active_round) ≡ true))
          → IsLatestActive chain start next s.active_round
      seen (inl zero_round) = absurd (omega arith)
      seen (inr (low, high, active)) = record {
        low = low;
        high = high;
        active = active;
        latest = w.actives.above;
      }

  conclude-IsFresh : s.active_round ≡ 0 → IsFresh chain start next archived (conclude archived s)
  conclude-IsFresh h =
      let e : conclude archived s ≡ max s.max_existing archived + 1 =
        unfold conclude in ground arith in
      rw e (record {
        none_active = λ id p q. elim (Bool-cases (is_active (chain id))) [
          | inl active ↦ absurd (omega (arith, w.actives.above id p q active))
          | inr not_active ↦ not_active
        ];
        unused = λ id p q t. omega (arith, w.rounds.above id p q t);
        unarchived = omega arith;
        tight = tight w.rounds.seen;
      })
    where
      tight :
          (s.max_existing ≡ 0)
            ⊎ ((start ≤ s.max_existing)
                × (s.max_existing < next)
                × (is_round (chain s.max_existing) ≡ true))
          → (max s.max_existing archived + 1 ≡ archived + 1)
            ⊎ ((id : ℕ) × (max s.max_existing archived + 1 ≡ id + 1)
                × (start ≤ id)
                × (id < next)
                × (is_round (chain id) ≡ true))
      tight (inl zero_round) = inl (omega arith)
      tight (inr (low, high, seen)) = elim (Bool-cases (leb s.max_existing archived)) [
        | inl small ↦ inl (ground arith)
        | inr large ↦ inr (s.max_existing, ground arith, low, high, seen)
      ]

-- The last `limit` of the visited accounts are missing where the test for a `break` holds.
stops-IsGap :
    {chain : ℕ → ScanEntry} {start next : ℕ} {s : Progress} (limit : ℕ)
    → Window chain start next s
    → stops limit s ≡ true
    → IsGap chain start next limit
stops-IsGap {s} limit w e =
    let le : limit ≤ s.null_streak = unfold stops in ground arith in
    record { within = omega (arith, w.gap.within); gone = λ id p q. w.gap.gone id (omega arith) q }

le_or_lt : (a b : ℕ) → (a ≤ b) ⊎ (b < a)
le_or_lt a b = omega arith

module _ (a : ActiveRoundScanArgs) (chain : ℕ → ScanEntry) where
  Ended-Coverage : {s : Progress} (e : Ended a chain s) → Coverage a chain e.next
  Ended-Coverage e = record {
    forward = e.forward;
    bounded = e.bounded;
    complete = elim e.why [
      | inl past ↦ inl (omega arith)
      | inr stop ↦ inr (stops-IsGap a.null_streak_limit e.window stop)
    ];
  }

  -- Where each account has one content for the whole scan, and the first id and the batch size are
  -- positive, the scan ends with an id. The ids from the start up to some `next` were visited,
  -- which is all that was asked for or ends in a gap of the tolerated length. The id is the
  -- greatest one of a visited active round; or there is none, and it is above every visited round
  -- and the archive's greatest, next to one of them.
  pub scan_for_active_round-Verdict :
      Answers a chain
      → 0 < a.scan_start
      → 0 < a.batch_size
      → (r next : ℕ) × (scan_for_active_round a ≡ found r)
        × Coverage a chain next
        × Verdict a chain next r
  unfolding scan_for_active_round
  scan_for_active_round-Verdict answers positive batch =
      let (s, e, ran) =
        scan_batches-Ended a chain answers positive batch (a.max_scan + 1) a.scan_start initial
          (omega arith) (omega arith) (Window-initial chain a.scan_start) in
      (
        conclude a.archived_max s,
        e.next,
        ran,
        Ended-Coverage e,
        elim (Bool-cases (ltb 0 s.active_round)) [
          | inl active ↦
              inl (conclude-IsLatestActive a.archived_max e.window positive (ground arith))
          | inr fresh ↦ inr (conclude-IsFresh a.archived_max e.window positive (ground arith))
        ],
      )

  -- An active round is not missed: where an id of the range holds one, and no stretch of ids up to
  -- it from the start on has as many missing accounts in a row as the limit says, the scan returns
  -- an active round, and none below that id.
  pub scan_for_active_round_complete :
      Answers a chain
      → 0 < a.scan_start
      → 0 < a.batch_size
      → (id : ℕ) → a.scan_start ≤ id
      → id ≤ a.scan_start + a.max_scan
      → is_active (chain id) ≡ true
      → ((n : ℕ) → n ≤ id → ¬ IsGap chain a.scan_start n a.null_streak_limit)
      → (r : ℕ) × (scan_for_active_round a ≡ found r) × (is_active (chain r) ≡ true) × (id ≤ r)
  scan_for_active_round_complete answers positive batch id low high active no_gap =
      let (r, next, e, c, v) = scan_for_active_round-Verdict answers positive batch in
      let inside : id < next = elim c.complete [
        | inl all ↦ omega arith
        | inr gap ↦ elim (le_or_lt next id) [
          | inl short ↦ absurd (no_gap next short gap)
          | inr long ↦ long
        ]
      ] in
      elim v [
        | inl latest ↦ (r, e, latest.active, latest.latest id low inside active)
        | inr fresh ↦ let no : is_active (chain id) ≡ false = fresh.none_active id low inside in cc
      ]
