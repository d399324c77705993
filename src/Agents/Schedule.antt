-- ===== src/Agents/Schedule.antt =====
-- backend/app/agents/scheduler.py: the next run of a schedule. A clock reading is the number of
-- seconds since a Monday at midnight; `replace(hour, minute)` then is arithmetic on the day, for an
-- hour below 24 and a minute below 60 (`replace` raises for others). The three fields of a
-- configuration are what its `get` answers, defaults included.
use omni_ai_v.Prelude.{
  ℕ, ◌+◌, ◌-◌, ◌*◌, ◌/◌, ◌%◌, String, if◌then◌else◌, ◌==◌, nat_comparable, text_comparable, leb,
}

pub record ScheduleConfig : Type 0 where
  pub hour : ℕ
  pub minute : ℕ
  pub day_of_week : ℕ

abbrev pub day : ℕ
day = 86400

abbrev pub midnight : ℕ → ℕ
midnight now = now / 86400 * 86400

abbrev pub weekday : ℕ → ℕ
weekday now = now / 86400 % 7

-- `now.replace(hour=hour, minute=minute, second=0, microsecond=0)`
abbrev pub at_time : ℕ → ScheduleConfig → ℕ
at_time now config = midnight now + config.hour * 3600 + config.minute * 60

abbrev pub daily : ℕ → ScheduleConfig → ℕ
daily now config =
    let candidate = at_time now config in if leb candidate now then candidate + 86400 else candidate

-- `(day - candidate.weekday()) % 7`, a remainder that is not negative.
abbrev pub days_ahead : ℕ → ScheduleConfig → ℕ
days_ahead now config = (config.day_of_week % 7 + 7 - weekday now) % 7

abbrev pub days_or_week : ℕ → ℕ
days_or_week n = if n == 0 then 7 else n

abbrev pub weekly : ℕ → ScheduleConfig → ℕ
weekly now config =
    let candidate = at_time now config + days_or_week (days_ahead now config) * 86400 in
    if leb candidate now then candidate + 604800 else candidate

unfoldable pub compute_next_run : ℕ → String → ScheduleConfig → ℕ
compute_next_run now kind config =
    if kind == "hourly"
    then now + 3600
    else if kind == "daily"
    then daily now config
    else if kind == "weekly"
    then weekly now config
    else now + 86400
