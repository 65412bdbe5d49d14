-- ===== src/Missions/Days.antt =====
-- The new week: the day of the last play is kept as a date in UTC, and its week is found by the
-- local calendar.
use winny.Base.{ℕ, ◌+◌, ◌*◌, ◌/◌, ◌%◌, ◌<◌, ◌≡◌, refl, false, some, map, ◌==◌, arith}
use winny.Missions.{
  MissionsData, Clock, ms_per_day, monday_of, get_monday, same_week, new_week, reset_weekly,
}

monday_of_self : (monday : ℕ) → (monday + 3) % 7 ≡ 0 → monday_of monday ≡ monday
unfolding monday_of
monday_of_self monday h = ground arith

monday_of_before :
    (sunday monday : ℕ) → sunday + 1 ≡ monday → (monday + 3) % 7 ≡ 0 → monday_of sunday < monday
unfolding monday_of
monday_of_before sunday monday e h = ground arith

-- Where the local date at midnight UTC is the day before, a player who last played on a Monday in
-- UTC, and comes back while it is that Monday in the local calendar, loses the progress and the
-- claims of the weekly missions.
pub new_week-resets_same_day :
    (clock : Clock) (d : MissionsData) (monday : ℕ)
    → d.last_play_date ≡ some monday
    → (monday + 3) % 7 ≡ 0
    → clock.local_ms (monday * ms_per_day) / ms_per_day + 1 ≡ monday
    → clock.local_ms clock.now / ms_per_day ≡ monday
    → new_week clock d ≡ record d { missions = map reset_weekly d.missions }
unfolding new_week
new_week-resets_same_day clock d monday last is_monday behind now = rw differs refl
  where
    apart : (get_monday clock clock.now == get_monday clock (monday * ms_per_day)) ≡ false
    apart =
        unfold get_monday in
        ground (
          arith,
          now,
          monday_of_self monday is_monday,
          monday_of_before (clock.local_ms (monday * ms_per_day) / ms_per_day) monday behind
              is_monday,
        )

    differs : same_week clock d.last_play_date ≡ false
    differs = unfold same_week in rw last apart
