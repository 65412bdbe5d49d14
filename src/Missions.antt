-- ===== src/Missions.antt =====
-- The missions of a player (src/hooks/useMissions.ts), kept in the browser's storage.
-- Progress, requirements and volume are doubles, given in their least part (Missions/Double);
-- Infinity, NaN and amounts below 0 are left out. Titles, descriptions and icons are left out. A
-- date is a number of days since 1970-01-01; the clock and the time zone are a parameter.
pub mod Double
pub mod Sound
pub mod Earned
pub mod Days
use winny.Base.{
  ℕ, zero, suc, ◌+◌, ◌-◌, ◌*◌, ◌/◌, ◌%◌, ◌^◌, min, Bool, true, false, not, ◌&&◌, ◌||◌, Option, none,
  some, List, [], ◌∷◌, ◌++◌, map, ltb, leb, ◌==◌, if◌then◌else◌,
}
use winny.Text.{JsString, codes, same_text}
use winny.Missions.Double.{add_double}

pub data MissionType : Type 0 where
  daily weekly achievement : MissionType

pub record Mission : Type 0 where
  pub id : JsString
  pub kind : MissionType
  pub requirement : ℕ
  pub progress : ℕ
  pub xp : ℕ
  pub completed : Bool
  pub claimed : Bool

pub record MissionsData : Type 0 where
  pub missions : List Mission
  pub total_jup : ℕ
  pub level : ℕ
  pub streak : ℕ
  -- `''` is none.
  pub last_play_date : Option ℕ
  pub jupiter_swap_count : ℕ
  pub total_deposits : ℕ
  pub total_volume : ℕ
  pub rounds_played : ℕ
  pub wins : ℕ

-- Milliseconds since 1970, and what a local clock shows at such an instant.
pub record Clock : Type 0 where
  pub now : ℕ
  pub local_ms : ℕ → ℕ

-- 1, in the unit of progress.
abbrev pub one : ℕ
one = 2 ^ 1074

abbrev pub ms_per_day : ℕ
ms_per_day = 86400000

-- `today()`: the day in UTC.
unfoldable pub today : Clock → ℕ
today clock = clock.now / ms_per_day

unfoldable pub jup_for_level : ℕ → ℕ
jup_for_level level = level * 100

abbrev pub fresh_mission : JsString → MissionType → ℕ → ℕ → Mission
fresh_mission id kind requirement xp = record {
  id = id;
  kind = kind;
  requirement = requirement * one;
  progress = 0;
  xp = xp;
  completed = false;
  claimed = false;
}

unfoldable pub default_missions : List Mission
default_missions =
    fresh_mission (codes "daily_deposit") daily 1 25
    ∷ fresh_mission (codes "daily_3rounds") daily 3 50
    ∷ fresh_mission (codes "daily_jupiter_swap") daily 1 40
    ∷ fresh_mission (codes "weekly_volume") weekly 100 200
    ∷ fresh_mission (codes "weekly_5_rounds") weekly 5 150
    ∷ fresh_mission (codes "achievement_first_win") achievement 1 100
    ∷ fresh_mission (codes "achievement_3day_streak") achievement 3 150
    ∷ fresh_mission (codes "achievement_10_swaps") achievement 10 300
    ∷ []

abbrev pub reset : Mission → Mission
reset m = record m { progress = 0; completed = false; claimed = false }

unfoldable pub reset_daily : Mission → Mission
reset_daily m = elim m.kind [ daily ↦ reset m | weekly ↦ m | achievement ↦ m ]

unfoldable pub reset_weekly : Mission → Mission
reset_weekly m = elim m.kind [ weekly ↦ reset m | daily ↦ m | achievement ↦ m ]

-- The Monday of a day's week: `getDay()` of day 0 is 4, and of a Sunday 0.
unfoldable pub monday_of : ℕ → ℕ
monday_of day = let weekday = (day + 4) % 7 in if weekday == 0 then day - 6 else day + 1 - weekday

-- `getMonday`, as a day of the local calendar.
unfoldable pub get_monday : Clock → ℕ → ℕ
get_monday clock instant = monday_of (clock.local_ms instant / ms_per_day)

abbrev pub same_date : Option ℕ → ℕ → Bool
same_date none t = false
same_date (some last) t = last == t

-- The streak on a new day, by the days since the last one.
unfoldable pub next_streak : Option ℕ → ℕ → ℕ → ℕ
next_streak none t streak = streak
next_streak (some last) t streak =
    if t == last + 1 then streak + 1 else if ltb (last + 1) t then 0 else streak

-- A date that is not valid is in no week.
unfoldable pub same_week : Clock → Option ℕ → Bool
same_week clock none = false
same_week clock (some last) = get_monday clock clock.now == get_monday clock (last * ms_per_day)

unfoldable pub has_id : JsString → List Mission → Bool
has_id id [] = false
has_id id (m ∷ ms) = same_text m.id id || has_id id ms

-- The missions of the first list whose id is not in the second.
unfoldable pub absent_from : List Mission → List Mission → List Mission
absent_from [] ms = []
absent_from (dm ∷ dms) ms =
    let rest = absent_from dms ms in if has_id dm.id ms then rest else dm ∷ rest

unfoldable pub known_only : List Mission → List Mission
known_only [] = []
known_only (m ∷ ms) =
    let rest = known_only ms in if has_id m.id default_missions then m ∷ rest else rest

unfoldable pub new_day : Clock → MissionsData → MissionsData
new_day clock d = if same_date d.last_play_date (today clock) then d else record d {
  missions = map reset_daily d.missions;
  streak = next_streak d.last_play_date (today clock) d.streak;
}

unfoldable pub new_week : Clock → MissionsData → MissionsData
new_week clock d =
    if same_week clock d.last_play_date
    then d
    else record d { missions = map reset_weekly d.missions }

unfoldable pub merge_missions : MissionsData → MissionsData
merge_missions d = record d {
  missions = known_only (d.missions ++ absent_from default_missions d.missions);
}

unfoldable pub initial_data : MissionsData
initial_data = record {
  missions = default_missions;
  total_jup = 0;
  level = 1;
  streak = 0;
  last_play_date = none;
  jupiter_swap_count = 0;
  total_deposits = 0;
  total_volume = 0;
  rounds_played = 0;
  wins = 0;
}

-- `loadMissionsData`: from what is saved for the wallet; none if there is nothing readable.
unfoldable pub load_missions_data : Clock → Option MissionsData → MissionsData
load_missions_data clock none = initial_data
load_missions_data clock (some d) = merge_missions (new_week clock (new_day clock d))

-- Changes the first mission with an id, as an assignment to what `find` returns.
unfoldable pub update_first : JsString → (Mission → Mission) → List Mission → List Mission
update_first id f [] = []
update_first id f (m ∷ ms) =
    let rest = update_first id f ms in if same_text m.id id then f m ∷ ms else m ∷ rest

-- `if (m && !m.completed) m.progress = Math.min(…, m.requirement)`
unfoldable pub advance : (ℕ → ℕ) → Mission → Mission
advance next m =
    if m.completed then m else record m { progress = min (next m.progress) m.requirement }

abbrev pub advance_first : JsString → (ℕ → ℕ) → MissionsData → MissionsData
advance_first id next d = record d { missions = update_first id (advance next) d.missions }

unfoldable pub recomplete : Mission → Mission
recomplete m = record m { completed = leb m.requirement m.progress }

-- `// Recalculate completed`
abbrev pub recompleted : MissionsData → MissionsData
recompleted next = record next { missions = map recomplete next.missions }

-- `updateAndSave`; the result is what is shown and what is saved.
unfoldable pub update_and_save : (MissionsData → MissionsData) → MissionsData → MissionsData
update_and_save updater d = recompleted (updater d)

unfoldable pub deposited : Clock → ℕ → MissionsData → MissionsData
deposited clock amount d =
    advance_first (codes "weekly_volume") (λ p. add_double p amount)
      (advance_first (codes "daily_deposit") (λ p. add_double p one)
        (record d {
          last_play_date = some (today clock);
          total_deposits = d.total_deposits + 1;
          total_volume = add_double d.total_volume amount;
        }))

unfoldable pub swapped : MissionsData → MissionsData
swapped d =
    advance_first (codes "achievement_10_swaps") (λ p. (d.jupiter_swap_count + 1) * one)
      (advance_first (codes "daily_jupiter_swap") (λ p. add_double p one)
        (record d { jupiter_swap_count = d.jupiter_swap_count + 1 }))

unfoldable pub track_deposit : Clock → ℕ → Bool → MissionsData → MissionsData
track_deposit clock amount is_jupiter_swap =
    update_and_save (λ d.
      if is_jupiter_swap then swapped (deposited clock amount d) else deposited clock amount d)

unfoldable pub played : Clock → MissionsData → MissionsData
played clock d =
    advance_first (codes "achievement_3day_streak") (λ p. (d.streak + 1) * one)
      (advance_first (codes "weekly_5_rounds") (λ p. add_double p one)
        (advance_first (codes "daily_3rounds") (λ p. add_double p one)
          (record d { last_play_date = some (today clock); rounds_played = d.rounds_played + 1 })))

unfoldable pub track_round_played : Clock → MissionsData → MissionsData
track_round_played clock = update_and_save (played clock)

unfoldable pub won : MissionsData → MissionsData
won d =
    advance_first (codes "achievement_first_win") (λ p. (d.wins + 1) * one)
      (record d { wins = d.wins + 1 })

unfoldable pub track_win : MissionsData → MissionsData
track_win = update_and_save won

-- The loop of the level-ups, with fuel: the JUP that are left, and the level.
unfoldable pub level_up : ℕ → ℕ → ℕ → ℕ × ℕ
level_up zero jup level = (jup, level)
level_up (suc fuel) jup level = elim (leb (jup_for_level level) jup) [
  | true ↦ level_up fuel (jup - jup_for_level level) (level + 1)
  | false ↦ (jup, level)
]

abbrev pub level_up_fuel : ℕ → ℕ
level_up_fuel jup = jup + 2

unfoldable pub find_mission : JsString → List Mission → Option Mission
find_mission id [] = none
find_mission id (m ∷ ms) =
    let rest = find_mission id ms in if same_text m.id id then some m else rest

abbrev pub mark_claimed : Mission → Mission
mark_claimed m = record m { claimed = true }

unfoldable pub collect : JsString → ℕ → MissionsData → MissionsData
collect id xp d =
    let levelled = level_up (level_up_fuel (d.total_jup + xp)) (d.total_jup + xp) d.level in
    record d {
      missions = update_first id mark_claimed d.missions;
      total_jup = levelled.0;
      level = levelled.1;
    }

unfoldable pub claim_completed : JsString → Option Mission → MissionsData → MissionsData
claim_completed id none d = d
claim_completed id (some m) d = if not m.completed || m.claimed then d else collect id m.xp d

unfoldable pub claim_mission : JsString → MissionsData → MissionsData
claim_mission id = update_and_save (λ d. claim_completed id (find_mission id d.missions) d)

-- What is done to the missions on a page that shows them.
pub data Event : Type 0 where
  deposit : Clock → ℕ → Bool → Event
  round_played : Clock → Event
  win : Event
  claim : JsString → Event

abbrev pub apply : Event → MissionsData → MissionsData
apply (deposit clock amount is_swap) d = track_deposit clock amount is_swap d
apply (round_played clock) d = track_round_played clock d
apply win d = track_win d
apply (claim id) d = claim_mission id d

unfoldable pub after : List Event → MissionsData → MissionsData
after [] d = d
after (event ∷ events) d = after events (apply event d)

-- The state of the hook, and what the browser's storage has for the wallet.
pub record PageState : Type 0 where
  pub shown : Option MissionsData
  pub saved : Option MissionsData

abbrev pub first_page : PageState
first_page = record { shown = none; saved = none }

-- The page is loaded with the wallet, the wallet is left, or an update is made, for which the
-- storage takes what is written or throws. A load writes nothing.
pub data Visit : Type 0 where
  load : Clock → Visit
  leave : Visit
  act : (is_written : Bool) → Event → Visit

abbrev pub act_on : Bool → Event → Option MissionsData → PageState → PageState
act_on is_written event none page = page
act_on is_written event (some d) page = record {
  shown = some (apply event d);
  saved = if is_written then some (apply event d) else page.saved;
}

unfoldable pub on_visit : Visit → PageState → PageState
on_visit (load clock) page = record page { shown = some (load_missions_data clock page.saved) }
on_visit leave page = record page { shown = none }
on_visit (act is_written event) page = act_on is_written event page.shown page

unfoldable pub visits : List Visit → PageState → PageState
visits [] page = page
visits (v ∷ vs) page = visits vs (on_visit v page)
