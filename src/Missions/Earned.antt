-- ===== src/Missions/Earned.antt =====
-- What claims of missions pay, and the level that it makes.
use native.Mathlib.Nat.{add-suc}
use native.Mathlib.Numerals.{add-one}
use winny.Base.{
  ℕ, zero, suc, ◌+◌, ◌-◌, ◌*◌, ◌≤◌, ◌<◌, ◌≡◌, refl, sym, ap, subst, map, ◌∙◌, Bool, true, false,
  not, ◌&&◌, ◌||◌, Option, none, some, List, [], ◌∷◌, leb, if◌then◌else◌, arith, inl, inr,
  Bool-cases,
}
use winny.Text.{JsString, same_text}
use winny.Missions.{
  Mission, MissionsData, jup_for_level, level_up, level_up_fuel, update_first, advance, recomplete,
  recompleted, update_and_save, deposited, swapped, track_deposit, played, track_round_played, won,
  track_win, find_mission, mark_claimed, collect, claim_completed, claim_mission, Event, deposit,
  round_played, win, claim, apply, after,
}

-- The JUP that the levels up to a level have taken.
pub spent : ℕ → ℕ
spent zero = 0
spent (suc level) = spent level + level * 100

spent_next : (level : ℕ) → spent (level + 1) ≡ spent level + level * 100
unfolding spent
spent_next level = rw add-one refl

-- All that was ever paid.
abbrev pub earned : MissionsData → ℕ
earned d = d.total_jup + spent d.level

-- No level-up is due.
pub record IsLevelled (d : MissionsData) : Type 0 where
  pub begun : 1 ≤ d.level
  pub below : d.total_jup < jup_for_level d.level

-- Of the JUP at a level, the first number is left and the second one is the level that is reached.
abbrev Levels : ℕ → ℕ → ℕ × ℕ → Type 0
Levels jup level (rest, reached) =
    (rest + spent reached ≡ jup + spent level) × (rest < jup_for_level reached) × (level ≤ reached)

level_up-Levels :
    (fuel jup level : ℕ) → 1 ≤ level → jup < fuel → Levels jup level (level_up fuel jup level)
unfolding level_up
level_up-Levels zero jup level h k = absurd (omega arith)
level_up-Levels (suc fuel) jup level h k =
    go (leb (jup_for_level level) jup) refl
      (λ few. level_up-Levels fuel (jup - jup_for_level level) (level + 1) (omega arith) few)
  where
    go :
        (b : Bool)
        → leb (jup_for_level level) jup ≡ b
        → (jup - jup_for_level level < fuel
            → Levels
                (jup - jup_for_level level)
                (level + 1)
                (level_up fuel (jup - jup_for_level level) (level + 1)))
        → Levels jup level (elim b [
          | true ↦ level_up fuel (jup - jup_for_level level) (level + 1)
          | false ↦ (jup, level)
        ])
    go false e later = (refl, ground (arith, e), omega arith)
    go true e later =
        let enough : jup_for_level level ≤ jup = ground (arith, e) in
        let costs : jup_for_level level ≡ level * 100 = unfold jup_for_level in refl in
        let (total, below, above) = later (omega arith) in
        (omega (arith, spent_next level), below, omega arith)

spent_gap : (gap level : ℕ) → spent level + level * 100 ≤ spent (level + suc gap)
unfolding spent
spent_gap zero level = rw add-one (omega arith)
spent_gap (suc gap) level =
    rw (add-suc level (suc gap)) (omega (arith, spent_gap gap level, spent_last (level + suc gap)))
  where
    spent_last : (l : ℕ) → spent l ≤ spent (suc l)
    spent_last l = omega arith

spent_lt : (level above : ℕ) → level < above → spent level + level * 100 ≤ spent above
spent_lt level above h =
    let e : level + suc (above - level - 1) ≡ above = omega arith in
    subst (λ l. spent level + level * 100 ≤ spent l) e (spent_gap (above - level - 1) level)

-- The level and what is left are determined by all that was paid.
pub level_of_earned :
    (d e : MissionsData)
    → IsLevelled d
    → IsLevelled e
    → earned d ≡ earned e
    → (d.level ≡ e.level) × (d.total_jup ≡ e.total_jup)
unfolding jup_for_level
level_of_earned d e h k same =
    let level : d.level ≡ e.level =
      grind (arith, h.below, k.below, same, spent_lt d.level e.level, spent_lt e.level d.level) in
    (level, omega (arith, same, ap spent level))

-- What a claim of a mission pays: once it is completed, and not twice.
pub reward_of : Option Mission → ℕ
reward_of none = 0
reward_of (some m) = if m.completed && not m.claimed then m.xp else 0

pub reward : Event → MissionsData → ℕ
reward (deposit clock amount is_swap) d = 0
reward (round_played clock) d = 0
reward win d = 0
reward (claim id) d = reward_of (find_mission id d.missions)

-- What the missions that are not claimed would pay.
pub unclaimed_xp : List Mission → ℕ
unclaimed_xp [] = 0
unclaimed_xp (m ∷ ms) = (if m.claimed then 0 else m.xp) + unclaimed_xp ms

advance-unclaimed_xp :
    (id : JsString) (next : ℕ → ℕ) (ms : List Mission)
    → unclaimed_xp (update_first id (advance next) ms) ≡ unclaimed_xp ms
unfolding unclaimed_xp update_first advance
advance-unclaimed_xp id next [] = refl
advance-unclaimed_xp id next (m ∷ ms) = ground (arith, advance-unclaimed_xp id next ms)

recomplete-unclaimed_xp : (ms : List Mission) → unclaimed_xp (map recomplete ms) ≡ unclaimed_xp ms
unfolding unclaimed_xp recomplete
recomplete-unclaimed_xp [] = refl
recomplete-unclaimed_xp (m ∷ ms) = ground (arith, recomplete-unclaimed_xp ms)

claimed-unclaimed_xp :
    (id : JsString) (m : Mission) (ms : List Mission)
    → find_mission id ms ≡ some m
    → m.claimed ≡ false
    → unclaimed_xp (update_first id mark_claimed ms) + m.xp ≡ unclaimed_xp ms
unfolding unclaimed_xp update_first find_mission
claimed-unclaimed_xp id m [] e c = absurd (ground (arith, e))
claimed-unclaimed_xp id m (first ∷ ms) e c = elim (Bool-cases (same_text first.id id)) [
  | inl here ↦
      let same : first ≡ m = cc (here, e) in
      let unclaimed : first.claimed ≡ false = rw same c in
      let xp : first.xp ≡ m.xp = ap (λ (n : Mission). n.xp) same in
      rw here (ground (arith, unclaimed, xp))
  | inr later ↦ rw later (omega (arith, claimed-unclaimed_xp id m ms (rw later at e) c))
]

-- An update pays its reward and takes it from what is not claimed.
record Pays (event : Event) (d after : MissionsData) : Type 0 where
  paid : earned after ≡ earned d + reward event d
  levelled : IsLevelled after
  taken : unclaimed_xp after.missions + reward event d ≡ unclaimed_xp d.missions

nothing-Pays :
    (event : Event) (d next : MissionsData)
    → IsLevelled d
    → reward event d ≡ 0
    → next.total_jup ≡ d.total_jup
    → next.level ≡ d.level
    → unclaimed_xp next.missions ≡ unclaimed_xp d.missions
    → Pays event d (recompleted next)
nothing-Pays event d next h none_paid jup level xp = record {
  paid = omega (arith, none_paid, jup, ap spent level);
  levelled = record {
    begun = omega (arith, h.begun, level);
    below = subst (λ l. next.total_jup < jup_for_level l) (sym level) (omega (arith, h.below, jup));
  };
  taken = omega (arith, none_paid, xp, recomplete-unclaimed_xp next.missions);
}

collect-Pays :
    (id : JsString) (m : Mission) (d : MissionsData)
    → IsLevelled d
    → find_mission id d.missions ≡ some m
    → m.completed ≡ true
    → m.claimed ≡ false
    → Pays (claim id) d (recompleted (collect id m.xp d))
unfolding collect reward reward_of
collect-Pays id m d h e c u =
    let sum = d.total_jup + m.xp in
    let (total, below, above) = level_up-Levels (sum + 2) sum d.level h.begun (omega arith) in
    let pays : reward (claim id) d ≡ m.xp = ground (arith, e, c, u) in
    record {
      paid = omega (arith, total, pays);
      levelled = record { begun = omega (arith, h.begun, above); below = below };
      taken = omega (
        arith,
        pays,
        claimed-unclaimed_xp id m d.missions e u,
        recomplete-unclaimed_xp (update_first id mark_claimed d.missions),
      );
    }

claim-Pays :
    (id : JsString) (o : Option Mission) (d : MissionsData)
    → IsLevelled d
    → find_mission id d.missions ≡ o
    → Pays (claim id) d (recompleted (claim_completed id o d))
unfolding claim_completed
claim-Pays id none d h e =
    nothing-Pays (claim id) d d h (unfold reward in rw e (unfold reward_of in refl)) refl refl refl
claim-Pays id (some m) d h e = go (not m.completed || m.claimed) refl
  where
    nothing : (not m.completed || m.claimed) ≡ true → reward (claim id) d ≡ 0
    nothing f = unfold reward in rw e (unfold reward_of in ground (arith, f))

    go :
        (skip : Bool)
        → (not m.completed || m.claimed) ≡ skip
        → Pays (claim id) d (recompleted (if skip then d else collect id m.xp d))
    go true f = nothing-Pays (claim id) d d h (nothing f) refl refl refl
    go false f = collect-Pays id m d h e (ground (arith, f)) (ground (arith, f))

update-Pays : (event : Event) (d : MissionsData) → IsLevelled d → Pays event d (apply event d)
unfolding reward track_deposit track_round_played track_win claim_mission update_and_save played won
update-Pays (deposit clock amount is_swap) d h = tracked is_swap
  where
    first : unclaimed_xp (deposited clock amount d).missions ≡ unclaimed_xp d.missions
    first = unfold deposited in advance-unclaimed_xp _ _ _ ∙ advance-unclaimed_xp _ _ d.missions

    tracked :
        (b : Bool)
        → Pays (deposit clock amount is_swap) d (
            recompleted
              (if b then swapped (deposited clock amount d) else deposited clock amount d))
    tracked true =
        unfold swapped deposited in
        nothing-Pays (deposit clock amount is_swap) d _ h refl refl refl
          (advance-unclaimed_xp _ _ _ ∙ (advance-unclaimed_xp _ _ _ ∙ first))
    tracked false =
        unfold deposited in nothing-Pays (deposit clock amount is_swap) d _ h refl refl refl first
update-Pays (round_played clock) d h =
    nothing-Pays (round_played clock) d (played clock d) h refl refl refl (
      advance-unclaimed_xp _ _ _
      ∙ (advance-unclaimed_xp _ _ _ ∙ advance-unclaimed_xp _ _ d.missions))
update-Pays win d h =
    nothing-Pays win d (won d) h refl refl refl (advance-unclaimed_xp _ _ d.missions)
update-Pays (claim id) d h = claim-Pays id (find_mission id d.missions) d h refl

-- The JUP left and the level of a player who is paid a total at once.
pub standing : ℕ → ℕ × ℕ
standing total = level_up (level_up_fuel total) total 1

-- The loop of the level-ups ends by its own test within its fuel, from level 1 or above: no
-- further level is paid for, no JUP is lost, and the level does not fall.
pub level_up_ends :
    (jup level : ℕ)
    → 1 ≤ level
    → let (rest, reached) = level_up (level_up_fuel jup) jup level in
      (leb (jup_for_level reached) rest ≡ false)
      × (rest + spent reached ≡ jup + spent level)
      × (level ≤ reached)
level_up_ends jup level h =
    let (total, below, above) = level_up-Levels (jup + 2) jup level h (omega arith) in
    (ground (arith, below), total, above)

-- Where no level-up is due: a deposit, a round, a win or a claim leaves the player with the level
-- and the JUP of one who is paid, at once, all that was paid before and the reward: that of a
-- claim is the mission's, if it is completed and not claimed, and that of the others is nothing.
pub apply-standing :
    (event : Event) (d : MissionsData)
    → IsLevelled d
    → ((apply event d).total_jup, (apply event d).level) ≡ standing (earned d + reward event d)
unfolding standing spent
apply-standing event d h =
    let p = update-Pays event d h in
    let total = earned d + reward event d in
    let (sum, below, above) = level_up-Levels (total + 2) total 1 (omega arith) (omega arith) in
    let paid_at_once : MissionsData = record d {
      total_jup = (standing total).0;
      level = (standing total).1;
    } in
    let (level, jup) =
      level_of_earned (apply event d) paid_at_once p.levelled
        (record { begun = above; below = below }) (omega (arith, p.paid, sum)) in
    λ i. (jup i, level i)

-- Over any deposits, rounds, wins and claims, where no level-up is due at first: what was paid and
-- what the missions that are not claimed would pay is a constant sum, and no level-up is due in
-- the end.
pub after-conserves :
    (events : List Event) (d : MissionsData)
    → IsLevelled d
    → (earned (after events d) + unclaimed_xp (after events d).missions
        ≡ earned d + unclaimed_xp d.missions)
      × IsLevelled (after events d)
unfolding after
after-conserves [] d h = (refl, h)
after-conserves (event ∷ events) d h =
    let p = update-Pays event d h in
    let (sum, levelled) = after-conserves events (apply event d) p.levelled in
    (omega (arith, sum, p.paid, p.taken), levelled)
