-- ===== src/Agents/Runs.antt =====
-- backend/app/agents/executor.py, and agents_due_for_run of backend/app/agents/scheduler.py. What the
-- handler of an agent answers is an argument; what handlers write themselves is left out.
use omni_ai_v.Prelude.{
  ℕ, suc, String, Bool, false, ◌&&◌, not, Option, none, some, List, [], ◌∷◌, ◌++◌, if◌then◌else◌,
  ◌==◌, nat_comparable, text_comparable, leb, select, take_text,
}
use omni_ai_v.Rows.{find_first, update_where}
use omni_ai_v.Agents.Schedule.{compute_next_run}
use omni_ai_v.Agents.{
  AutonomousAgent, AgentExecution, AgentMemoryEntry, Notification, Db, write,
  register_agent_schedule,
}

-- What the handler answers: its summary (a run without one has texts of its own, which are left
-- out), or the exception that it raises; an agent type without a handler raises one too.
pub data Answer : Type 0 where
  summary : String → Answer
  raised : String → Answer

-- The result of `execute_agent`: the execution, the ValueError that refuses to run (its text without
-- the key of the agent), or the
-- handler's exception, raised again.
pub data Run : Type 0 where
  complete : AgentExecution → Run
  refused : String → Run
  failed : String → Run

abbrev pub new_execution : Db → AutonomousAgent → String → AgentExecution
new_execution db agent trigger = record {
  id = db.next_execution;
  agent_id = agent.id;
  user_id = agent.user_id;
  status = "running";
  trigger = trigger;
  output = none;
  error_message = none;
  finished_at = none;
}

abbrev pub finished : ℕ → AgentExecution → Answer → AgentExecution
finished now e (summary text) = record e {
  status = "complete";
  output = some text;
  finished_at = some now;
}
finished now e (raised error) = record e {
  status = "failed";
  error_message = some (take_text 2000 error);
  finished_at = some now;
}

abbrev runtime_of : Answer → String
runtime_of (summary text) = "idle"
runtime_of (raised error) = "error"

abbrev error_of : Answer → Option String
error_of (summary text) = none
error_of (raised error) = some (take_text 500 error)

abbrev pub after_run : AutonomousAgent → Answer → AutonomousAgent
after_run a answer = record a {
  runtime_status = some (runtime_of answer);
  last_error = error_of answer;
}

-- The agent's part of the `finally`.
abbrev pub rescheduled : ℕ → AutonomousAgent → AutonomousAgent
rescheduled now a = record a {
  last_run_at = some now;
  next_run_at =
      if a.schedule_kind == "manual"
      then a.next_run_at
      else some (compute_next_run now a.schedule_kind a.schedule_config);
}

abbrev pub remembered : ℕ → AgentExecution → Answer → List AgentMemoryEntry
remembered agent_id e (raised error) = []
remembered agent_id e (summary text) =
    record { agent_id = agent_id; execution_id = some e.id; memory_type = "output"; content = text }
    ∷ []

abbrev pub told : AutonomousAgent → Answer → Notification
told a (summary text) = record { user_id = a.user_id; category = "agent"; body = text }
told a (raised error) = record {
  user_id = a.user_id;
  category = "agent";
  body = take_text 500 error;
}

abbrev pub run_of : AgentExecution → Answer → Run
run_of e (summary text) = complete e
run_of e (raised error) = failed error

-- From the insert of the execution to the end, for the handler's answer.
unfoldable pub run_agent : ℕ → Db → AutonomousAgent → String → Answer → Run × Db
unfolding register_agent_schedule update_where
run_agent now db a trigger answer =
    let done = finished now (new_execution db a trigger) answer in
    let agent = rescheduled now (after_run a answer) in
    (
      run_of done answer,
      register_agent_schedule
          (write agent (record db {
            executions = db.executions ++ done ∷ [];
            next_execution = suc db.next_execution;
            memory = db.memory ++ remembered a.id done answer;
            notifications = db.notifications ++ told a answer ∷ [];
          }))
          agent,
    )

abbrev pub is_denied : Option ℕ → AutonomousAgent → Bool
is_denied none a = false
is_denied (some user_id) a = not (a.user_id == user_id)

abbrev pub execute_found :
    ℕ → Db → Option ℕ → String → (AutonomousAgent → Answer) → Option AutonomousAgent → Run × Db
execute_found now db user_id trigger handler none = (refused "Agent not found.", db)
execute_found now db user_id trigger handler (some a) =
    if is_denied user_id a
    then (refused "Agent access denied.", db)
    else if a.status == "paused"
    then (refused "Agent is paused.", db)
    else run_agent now db a trigger (handler a)

unfoldable pub execute_agent :
    ℕ → Db → ℕ → Option ℕ → String → (AutonomousAgent → Answer) → Run × Db
unfolding run_agent
execute_agent now db agent_id user_id trigger handler =
    execute_found now db user_id trigger handler (find_first (λ a. a.id == agent_id) db.agents)

abbrev pub is_reached : ℕ → Option ℕ → Bool
is_reached now none = false
is_reached now (some at) = leb at now

abbrev pub is_due : ℕ → AutonomousAgent → Bool
is_due now a =
    a.status == "active" && not (a.schedule_kind == "manual") && is_reached now a.next_run_at

unfoldable pub agents_due_for_run : Db → ℕ → List AutonomousAgent
agents_due_for_run db now = select (is_due now) db.agents
