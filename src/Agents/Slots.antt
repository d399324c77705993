-- ===== src/Agents/Slots.antt =====
-- Where the next run of compute_next_run of backend/app/agents/scheduler.py lies.
use omni_ai_v.Prelude.{
  ℕ, ◌+◌, ◌-◌, ◌*◌, ◌/◌, ◌%◌, ◌≤◌, ◌<◌, ◌≡◌, ap, ◌∙◌, String, arith, ◌==◌, nat_comparable,
  text_comparable, Bool-cases, inl, inr,
}
use omni_ai_v.Agents.Schedule.{
  ScheduleConfig, midnight, weekday, at_time, days_ahead, days_or_week, weekly, compute_next_run,
}

pub record IsValid (c : ScheduleConfig) : Type 0 where
  pub hour : c.hour < 24
  pub minute : c.minute < 60

at_time_bounds :
    (now : ℕ) (c : ScheduleConfig)
    → IsValid c
    → (midnight now ≤ at_time now c) × (at_time now c < midnight now + 86400)
at_time_bounds now c v = (omega arith, omega (arith, v.hour, v.minute))

midnight_bounds : (now : ℕ) → (midnight now ≤ now) × (now < midnight now + 86400)
midnight_bounds now = (omega arith, omega arith)

days_or_week_bounds :
    (now : ℕ) (c : ScheduleConfig)
    → (1 ≤ days_or_week (days_ahead now c)) × (days_or_week (days_ahead now c) ≤ 7)
days_or_week_bounds now c = elim (Bool-cases (days_ahead now c == 0)) [
  | inl e ↦ rw e (omega arith, omega arith)
  | inr e ↦ rw e (ground arith, omega arith)
]

weekly_lem :
    (now : ℕ) (c : ScheduleConfig)
    → IsValid c
    → weekly now c ≡ at_time now c + days_or_week (days_ahead now c) * 86400
weekly_lem now c v =
    let a = at_time_bounds now c v in
    let m = midnight_bounds now in let d = days_or_week_bounds now c in ground (arith)

-- The next run is later than now and less than eight days ahead, whatever the kind.
pub compute_next_run_bounds :
    (now : ℕ) (kind : String) (c : ScheduleConfig)
    → IsValid c
    → (now < compute_next_run now kind c) × (compute_next_run now kind c < now + 691200)
unfolding compute_next_run
compute_next_run_bounds now kind c v =
    let a = at_time_bounds now c v in
    let m = midnight_bounds now in
    let d = days_or_week_bounds now c in
    let w = weekly_lem now c v in
    elim (Bool-cases (kind == "hourly")) [
      | inl e ↦ rw e (omega arith, omega arith)
      | inr e ↦ rw e (elim (Bool-cases (kind == "daily")) [
        | inl f ↦ rw f (ground arith, ground arith)
        | inr f ↦ rw f (elim (Bool-cases (kind == "weekly")) [
          | inl g ↦ rw (g, w) (omega arith, omega arith)
          | inr g ↦ rw g (omega arith, omega arith)
        ])
      ])
    ]

slot_lem :
    (q h m n : ℕ)
    → h < 24
    → m < 60
    → ((q * 86400 + h * 3600 + m * 60 + n * 86400) / 86400 ≡ q + n)
      × ((q * 86400 + h * 3600 + m * 60 + n * 86400) % 86400 ≡ h * 3600 + m * 60)
slot_lem q h m n hours minutes = (omega arith, omega arith)

week_lem : (q w : ℕ) → (q + days_or_week ((w % 7 + 7 - q % 7) % 7)) % 7 ≡ w % 7
week_lem q w = elim (Bool-cases ((w % 7 + 7 - q % 7) % 7 == 0)) [
  | inl e ↦ let z : (w % 7 + 7 - q % 7) % 7 ≡ 0 = ground arith in rw e (omega (arith, z))
  | inr e ↦ rw e (omega arith)
]

-- A weekly run falls on the day of the week and the time of day of the schedule.
compute_next_run_slot :
    (now : ℕ) (c : ScheduleConfig)
    → IsValid c
    → (compute_next_run now "weekly" c / 86400 % 7 ≡ c.day_of_week % 7)
      × (compute_next_run now "weekly" c % 86400 ≡ c.hour * 3600 + c.minute * 60)
unfolding compute_next_run
compute_next_run_slot now c v =
    let slot =
      slot_lem (now / 86400) c.hour c.minute (days_or_week (days_ahead now c)) v.hour v.minute in
    rw (weekly_lem now c v) (ap (λ n. n % 7) slot.0 ∙ week_lem (now / 86400) c.day_of_week, slot.1)

-- On the day of the week of the schedule the next weekly run is that of the week after, also when the
-- time of this day is still to come.
compute_next_run_skips :
    (now : ℕ) (c : ScheduleConfig)
    → IsValid c
    → weekday now ≡ c.day_of_week % 7
    → compute_next_run now "weekly" c ≡ at_time now c + 604800
unfolding compute_next_run
compute_next_run_skips now c v same =
    let zero_ahead : days_ahead now c ≡ 0 = omega (arith, same) in
    rw (weekly_lem now c v) (rw zero_ahead (omega arith))
