-- ===== src/Agents/Tests.antt =====
-- The agents on a small table.
use omni_ai_v.Prelude.{
  ◌≡◌, refl, true, ◌||◌, not, none, some, [], ◌∷◌, arith, ◌==◌, nat_comparable, All,
}
use omni_ai_v.Rows
use omni_ai_v.Agents.Schedule.{ScheduleConfig, compute_next_run}
use omni_ai_v.Agents.Slots.{IsValid}
use omni_ai_v.Agents.{AutonomousAgent, Db, pause_agent, update_agent, register_agent_schedule}
use omni_ai_v.Agents
use omni_ai_v.Agents.Runs.{
  Answer, raised, execute_agent, run_agent, is_due, after_run, rescheduled, agents_due_for_run,
}
use omni_ai_v.Agents.Polling.{Environment, no_queue, job, poll_due_agents}
use omni_ai_v.Prelude.{select}
use omni_ai_v.Agents.Polling.Queued.{Added, taken, poll_due_agents-Added}
use omni_ai_v.Agents.Settling.{is_refused, is_later, execute_agent_reschedules}
use omni_ai_v.Agents.Pausing.{pause_agent_stops}

abbrev mondays : ScheduleConfig
mondays = record { hour = 9; minute = 30; day_of_week = 0 }

mondays-IsValid : IsValid mondays
mondays-IsValid = record { hour = omega arith; minute = omega arith }

-- On a Monday at eight.
monday_run : compute_next_run 28800 "weekly" mondays ≡ 639000
unfolding compute_next_run
monday_run = refl

abbrev news : AutonomousAgent
news = record {
  id = 1;
  user_id = 7;
  workspace_id = "default";
  name = "News";
  agent_type = "research";
  status = "active";
  runtime_status = none;
  last_error = none;
  schedule_kind = "weekly";
  schedule_config = mondays;
  next_run_at = some 20000;
  last_run_at = none;
}

abbrev db : Db
db = record {
  agents = news ∷ [];
  next_agent = 2;
  executions = [];
  next_execution = 1;
  memory = [];
  notifications = [];
  registered = [];
}

abbrev broken : AutonomousAgent → Answer
broken a = raised "no network"

execute_agent_reschedules_example :
    All (λ a. is_later 1 28800 a ≡ true) (execute_agent 28800 db 1 none "scheduled" broken).1.agents
unfolding execute_agent run_agent Rows.find_first
execute_agent_reschedules_example =
    execute_agent_reschedules 28800 db 1 none "scheduled" broken (mondays-IsValid, tt) refl

pause_agent_stops_example :
    (is_refused (execute_agent 28900 (pause_agent 28800 db 7 1).1 1 none "scheduled" broken).0
      ≡ true)
    × ((execute_agent 28900 (pause_agent 28800 db 7 1).1 1 none "scheduled" broken).1
        ≡ (pause_agent 28800 db 7 1).1)
    × All (λ a. not (a.id == 1) || not (is_due 28900 a) ≡ true) (pause_agent 28800 db 7 1).1.agents
unfolding pause_agent update_agent Agents.get_agent Rows.find_first
pause_agent_stops_example = pause_agent_stops 28800 db 7 1 28900 none "scheduled" broken refl

abbrev inline : Environment
inline = record { enqueue = λ i. no_queue; run_at = λ i. 28900; handler = broken }

abbrev polled : AutonomousAgent
polled = rescheduled 28900 (after_run news (raised "no network"))

-- With a queue the agent is due, and given to the queue again, until a worker has run it.
abbrev queueing : Environment
queueing = record { enqueue = λ i. job "j"; run_at = λ i. 28900; handler = broken }

queued_again : (poll_due_agents queueing 28860 (poll_due_agents queueing 28800 db).db).jobs ≡ 1 ∷ []
unfolding poll_due_agents agents_due_for_run
queued_again = refl

poll_due_agents-Added_example :
    Added
      (taken queueing (select (is_due 28800) db.agents))
      (record { db = db; jobs = []; count = 0 })
      (poll_due_agents queueing 28800 db)
poll_due_agents-Added_example = poll_due_agents-Added queueing 28800 db (λ i. refl)
