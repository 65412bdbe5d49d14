-- ===== src/Missions/Sound.antt =====
-- What holds of the missions after any events: progress within bounds, and what the flags say.
use winny.Base.{
  ℕ, ◌≤◌, ◌<◌, min, ◌≡◌, refl, Bool, true, false, not, ◌||◌, Option, none, some, List, [], ◌∷◌, map,
  leb, if◌then◌else◌, All, All-append, All-map, arith, inl, inr, Bool-cases,
}
use winny.Text.{JsString, same_text}
use winny.Missions.{
  MissionType, daily, weekly, achievement, Mission, MissionsData, Clock, default_missions, reset,
  reset_daily, reset_weekly, absent_from, known_only, new_day, new_week, merge_missions, has_id,
  initial_data, fresh_mission, load_missions_data, update_first, advance, recomplete,
  update_and_save, deposited, swapped, track_deposit, played, track_round_played, won, track_win,
  find_mission, mark_claimed, collect, claim_completed, claim_mission, Event, deposit, round_played,
  win, claim, load, apply, same_date, today, same_week, PageState, first_page, Visit, leave, act,
  act_on, on_visit, visits,
}

-- Progress does not pass the requirement, which is not 0; a mission is completed exactly when the
-- requirement is met; and only completed missions are claimed.
pub record IsSound (m : Mission) : Type 0 where
  pub asks : 0 < m.requirement
  pub within : m.progress ≤ m.requirement
  pub met : m.completed ≡ leb m.requirement m.progress
  pub earned : m.claimed ≡ true → m.completed ≡ true

-- The same but for the flag `completed`, which is brought up to date at the end of an update:
-- it may lag behind the progress.
record IsStale (m : Mission) : Type 0 where
  asks : 0 < m.requirement
  within : m.progress ≤ m.requirement
  done : m.completed ≡ true → m.requirement ≤ m.progress
  earned : m.claimed ≡ true → m.completed ≡ true

abbrev pub AllSound : List Mission → Type 0
AllSound = All IsSound

IsSound-IsStale : (m : Mission) → IsSound m → IsStale m
IsSound-IsStale m h = record {
  asks = h.asks;
  within = h.within;
  done = λ e. ground (arith, e, h.met);
  earned = h.earned;
}

recomplete-IsSound : (m : Mission) → IsStale m → IsSound (recomplete m)
unfolding recomplete
recomplete-IsSound m h = record {
  asks = h.asks;
  within = h.within;
  met = refl;
  earned = λ e. ground (arith, h.done (h.earned e));
}

advance-IsStale : (next : ℕ → ℕ) (m : Mission) → IsStale m → IsStale (advance next m)
unfolding advance
advance-IsStale next m h = go m.completed refl
  where
    go :
        (b : Bool)
        → m.completed ≡ b
        → IsStale (if b then m else record m { progress = min (next m.progress) m.requirement })
    go true e = h
    go false e = record {
      asks = h.asks;
      within = omega arith;
      done = λ c. absurd (ground (arith, c, e));
      earned = h.earned;
    }

mark_claimed-IsStale : (m : Mission) → m.completed ≡ true → IsStale m → IsStale (mark_claimed m)
mark_claimed-IsStale m e h = record {
  asks = h.asks;
  within = h.within;
  done = h.done;
  earned = λ c. e;
}

reset-IsSound : (m : Mission) → IsSound m → IsSound (reset m)
reset-IsSound m h = record {
  asks = h.asks;
  within = omega arith;
  met = ground (arith, h.asks);
  earned = λ e. e;
}

reset_daily-IsSound : (m : Mission) → IsSound m → IsSound (reset_daily m)
unfolding reset_daily
reset_daily-IsSound m h =
    elim m.kind as (λ k. IsSound (elim k [ daily ↦ reset m | weekly ↦ m | achievement ↦ m ])) [
      | daily ↦ reset-IsSound m h
      | weekly ↦ h
      | achievement ↦ h
    ]

reset_weekly-IsSound : (m : Mission) → IsSound m → IsSound (reset_weekly m)
unfolding reset_weekly
reset_weekly-IsSound m h =
    elim m.kind as (λ k. IsSound (elim k [ weekly ↦ reset m | daily ↦ m | achievement ↦ m ])) [
      | daily ↦ h
      | weekly ↦ reset-IsSound m h
      | achievement ↦ h
    ]

update_first-All :
    (P : Mission → Type 0) (id : JsString) (f : Mission → Mission)
    → ((m : Mission) → P m → P (f m))
    → (ms : List Mission) → All P ms
    → All P (update_first id f ms)
unfolding update_first
update_first-All P id f keep [] h = tt
update_first-All P id f keep (m ∷ ms) (p, h) = elim (Bool-cases (same_text m.id id)) [
  | inl here ↦ rw here (keep m p, h)
  | inr later ↦ rw later (p, update_first-All P id f keep ms h)
]

map-All :
    (P Q : Mission → Type 0) (f : Mission → Mission)
    → ((m : Mission) → P m → Q (f m))
    → (ms : List Mission) → All P ms
    → All Q (map f ms)
map-All P Q f keep [] h = tt
map-All P Q f keep (m ∷ ms) (p, h) = (keep m p, map-All P Q f keep ms h)

fresh_mission-IsSound :
    (id : JsString) (kind : MissionType) (requirement xp : ℕ)
    → 0 < requirement
    → IsSound (fresh_mission id kind requirement xp)
fresh_mission-IsSound id kind requirement xp h = record {
  asks = omega arith;
  within = omega arith;
  met = ground (arith, h);
  earned = λ e. e;
}

default_missions-AllSound : AllSound default_missions
unfolding default_missions
default_missions-AllSound = (
  fresh_mission-IsSound _ _ 1 _ (omega arith),
  (
    fresh_mission-IsSound _ _ 3 _ (omega arith),
    (
      fresh_mission-IsSound _ _ 1 _ (omega arith),
      (
        fresh_mission-IsSound _ _ 100 _ (omega arith),
        (
          fresh_mission-IsSound _ _ 5 _ (omega arith),
          (
            fresh_mission-IsSound _ _ 1 _ (omega arith),
            (
              fresh_mission-IsSound _ _ 3 _ (omega arith),
              (fresh_mission-IsSound _ _ 10 _ (omega arith), tt),
            ),
          ),
        ),
      ),
    ),
  ),
)

absent_from-All :
    (P : Mission → Type 0) (dms ms : List Mission) → All P dms → All P (absent_from dms ms)
unfolding absent_from
absent_from-All P [] ms h = tt
absent_from-All P (dm ∷ dms) ms (p, h) = elim (Bool-cases (has_id dm.id ms)) [
  | inl there ↦ rw there (absent_from-All P dms ms h)
  | inr missing ↦ rw missing (p, absent_from-All P dms ms h)
]

known_only-All : (P : Mission → Type 0) (ms : List Mission) → All P ms → All P (known_only ms)
unfolding known_only
known_only-All P [] h = tt
known_only-All P (m ∷ ms) (p, h) = elim (Bool-cases (has_id m.id default_missions)) [
  | inl there ↦ rw there (p, known_only-All P ms h)
  | inr missing ↦ rw missing (known_only-All P ms h)
]

load_missions_data-AllSound :
    (clock : Clock) (d : MissionsData)
    → AllSound d.missions
    → AllSound (load_missions_data clock (some d)).missions
unfolding load_missions_data merge_missions
load_missions_data-AllSound clock d h = known_only-All IsSound _ (
    All-append IsSound _ _ (week _ (day d h))
      (absent_from-All IsSound default_missions _ default_missions-AllSound))
  where
    day : (d : MissionsData) → AllSound d.missions → AllSound (new_day clock d).missions
    day d h =
        unfold new_day in
        elim (Bool-cases (same_date d.last_play_date (today clock))) [
          | inl same ↦ rw same h
          | inr later ↦
              rw later (map-All IsSound IsSound reset_daily reset_daily-IsSound d.missions h)
        ]

    week : (d : MissionsData) → AllSound d.missions → AllSound (new_week clock d).missions
    week d h =
        unfold new_week in
        elim (Bool-cases (same_week clock d.last_play_date)) [
          | inl same ↦ rw same h
          | inr later ↦
              rw later (map-All IsSound IsSound reset_weekly reset_weekly-IsSound d.missions h)
        ]

abbrev AllStale : MissionsData → Type 0
AllStale d = All IsStale d.missions

advanced :
    (id : JsString) (next : ℕ → ℕ) (ms : List Mission)
    → All IsStale ms
    → All IsStale (update_first id (advance next) ms)
advanced id next = update_first-All IsStale id (advance next) (advance-IsStale next)

update_and_save-AllSound :
    (updater : MissionsData → MissionsData) (d : MissionsData)
    → (AllStale d → AllStale (updater d))
    → AllSound d.missions
    → AllSound (update_and_save updater d).missions
unfolding update_and_save
update_and_save-AllSound updater d keep h =
    map-All IsStale IsSound recomplete recomplete-IsSound (updater d).missions
      (keep (All-map IsSound IsStale IsSound-IsStale d.missions h))

deposited-AllStale :
    (clock : Clock) (amount : ℕ) (d : MissionsData)
    → AllStale d
    → AllStale (deposited clock amount d)
unfolding deposited
deposited-AllStale clock amount d h = advanced _ _ _ (advanced _ _ _ h)

swapped-AllStale : (d : MissionsData) → AllStale d → AllStale (swapped d)
unfolding swapped
swapped-AllStale d h = advanced _ _ _ (advanced _ _ _ h)

tracked-AllStale :
    (clock : Clock) (amount : ℕ) (is_swap : Bool) (d : MissionsData)
    → AllStale d
    → AllStale (if is_swap then swapped (deposited clock amount d) else deposited clock amount d)
tracked-AllStale clock amount true d h = swapped-AllStale _ (deposited-AllStale clock amount d h)
tracked-AllStale clock amount false d h = deposited-AllStale clock amount d h

played-AllStale : (clock : Clock) (d : MissionsData) → AllStale d → AllStale (played clock d)
unfolding played
played-AllStale clock d h = advanced _ _ _ (advanced _ _ _ (advanced _ _ _ h))

won-AllStale : (d : MissionsData) → AllStale d → AllStale (won d)
unfolding won
won-AllStale d h = advanced _ _ _ h

-- The mission that `find` returns is the one that is marked.
marked-AllStale :
    (id : JsString) (m : Mission) (ms : List Mission)
    → find_mission id ms ≡ some m
    → m.completed ≡ true
    → All IsStale ms
    → All IsStale (update_first id mark_claimed ms)
unfolding find_mission update_first
marked-AllStale id m [] e c h = tt
marked-AllStale id m (first ∷ ms) e c (p, h) = elim (Bool-cases (same_text first.id id)) [
  | inl here ↦
      let same : first ≡ m = cc (here, e) in rw here (mark_claimed-IsStale first (rw same c) p, h)
  | inr later ↦ rw later (p, marked-AllStale id m ms (rw later at e) c h)
]

claim_completed-AllStale :
    (id : JsString) (o : Option Mission) (d : MissionsData)
    → find_mission id d.missions ≡ o
    → AllStale d
    → AllStale (claim_completed id o d)
unfolding claim_completed collect
claim_completed-AllStale id none d e h = h
claim_completed-AllStale id (some m) d e h = elim (Bool-cases (not m.completed || m.claimed)) [
  | inl skip ↦ rw skip h
  | inr take ↦ rw take (marked-AllStale id m d.missions e (ground (arith, take)) h)
]

apply-AllSound :
    (event : Event) (d : MissionsData) → AllSound d.missions → AllSound (apply event d).missions
unfolding track_deposit track_round_played track_win claim_mission
apply-AllSound (deposit clock amount is_swap) d h =
    update_and_save-AllSound _ d (tracked-AllStale clock amount is_swap d) h
apply-AllSound (round_played clock) d h = update_and_save-AllSound _ d (played-AllStale clock d) h
apply-AllSound win d h = update_and_save-AllSound _ d (won-AllStale d) h
apply-AllSound (claim id) d h =
    update_and_save-AllSound _ d (claim_completed-AllStale id (find_mission id d.missions) d refl) h

-- The missions on a page or in the storage, if there are any.
abbrev pub KeptSound : Option MissionsData → Type 0
KeptSound none = Unit
KeptSound (some d) = AllSound d.missions

abbrev pub PageSound : PageState → Type 0
PageSound page = KeptSound page.shown × KeptSound page.saved

loaded-AllSound :
    (clock : Clock) (saved : Option MissionsData)
    → KeptSound saved
    → AllSound (load_missions_data clock saved).missions
loaded-AllSound clock none h = unfold load_missions_data initial_data in default_missions-AllSound
loaded-AllSound clock (some d) h = load_missions_data-AllSound clock d h

act_on-PageSound :
    (is_written : Bool) (event : Event) (shown : Option MissionsData) (page : PageState)
    → KeptSound shown
    → PageSound page
    → PageSound (act_on is_written event shown page)
act_on-PageSound is_written event none page h k = k
act_on-PageSound true event (some d) page h k = (apply-AllSound event d h, apply-AllSound event d h)
act_on-PageSound false event (some d) page h k = (apply-AllSound event d h, k.1)

on_visit-PageSound : (v : Visit) (page : PageState) → PageSound page → PageSound (on_visit v page)
unfolding on_visit
on_visit-PageSound (load clock) page h = (loaded-AllSound clock page.saved h.1, h.1)
on_visit-PageSound leave page h = (tt, h.1)
on_visit-PageSound (act is_written event) page h =
    act_on-PageSound is_written event page.shown page h.0 h

run-PageSound : (vs : List Visit) (page : PageState) → PageSound page → PageSound (visits vs page)
unfolding visits
run-PageSound [] page h = h
run-PageSound (v ∷ vs) page h = run-PageSound vs (on_visit v page) (on_visit-PageSound v page h)

-- From a player's first visit on, when nothing is saved, after any loads of the page and any
-- deposits, rounds, wins and claims on it, whether or not the storage takes what is written: in
-- what is shown and in what is saved no progress passes its requirement, a mission counts as
-- completed exactly when its requirement is met, and only completed missions are claimed.
pub visits-AllSound : (vs : List Visit) → PageSound (visits vs first_page)
visits-AllSound vs = run-PageSound vs first_page (tt, tt)
