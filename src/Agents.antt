-- ===== src/Agents.antt =====
-- The autonomous agents: backend/app/agents/lifecycle.py and backend/app/agents/executor.py over the
-- tables of backend/app/models/autonomous_agent.py, with the clock of Agents/Schedule. A handler is
-- what it answers; descriptions, configurations beside `runtime_status` and `last_error`, costs and
-- run times are left out.
pub mod Schedule
pub mod Runs
pub mod Slots
pub mod Settling
pub mod Pausing
pub mod Polling
mod Tests
use omni_ai_v.Prelude.{
  ℕ, suc, String, Bool, true, false, ◌&&◌, ◌||◌, not, Option, none, some, List, [], ◌∷◌, ◌++◌,
  if◌then◌else◌, ◌==◌, nat_comparable, text_comparable, leb, select, take, take_text, strip,
  is_empty, is_some,
}
use omni_ai_v.Rows.{find_first, update_where, delete_where}
use omni_ai_v.Agents.Schedule.{ScheduleConfig, compute_next_run}

pub record AutonomousAgent : Type 0 where
  pub id : ℕ
  pub user_id : ℕ
  pub workspace_id : String
  pub name : String
  pub agent_type : String
  pub status : String
  pub runtime_status : Option String
  pub last_error : Option String
  pub schedule_kind : String
  pub schedule_config : ScheduleConfig
  pub next_run_at : Option ℕ
  pub last_run_at : Option ℕ

pub record AgentExecution : Type 0 where
  pub id : ℕ
  pub agent_id : ℕ
  pub user_id : ℕ
  pub status : String
  pub trigger : String
  pub output : Option String
  pub error_message : Option String
  pub finished_at : Option ℕ

pub record AgentMemoryEntry : Type 0 where
  pub agent_id : ℕ
  pub execution_id : Option ℕ
  pub memory_type : String
  pub content : String

pub record Notification : Type 0 where
  pub user_id : ℕ
  pub category : String
  pub body : String

-- The tables, and the runs that were handed to the scheduling queue.
pub record Db : Type 0 where
  pub agents : List AutonomousAgent
  pub next_agent : ℕ
  pub executions : List AgentExecution
  pub next_execution : ℕ
  pub memory : List AgentMemoryEntry
  pub notifications : List Notification
  pub registered : List (ℕ × ℕ)

abbrev pub registration : AutonomousAgent → Option ℕ → List (ℕ × ℕ)
registration agent none = []
registration agent (some at) =
    if not (agent.status == "active") || agent.schedule_kind == "manual"
    then []
    else (agent.id, at) ∷ []

unfoldable pub register_agent_schedule : Db → AutonomousAgent → Db
register_agent_schedule db agent = record db {
  registered = db.registered ++ registration agent agent.next_run_at;
}

abbrev pub scheduled : ℕ → String → ScheduleConfig → Option ℕ
scheduled now kind config =
    if kind == "manual" then none else some (compute_next_run now kind config)

-- The keyword arguments of `create_agent` that the model keeps.
pub record NewAgent : Type 0 where
  pub name : String
  pub agent_type : String
  pub workspace_id : String
  pub schedule_kind : String
  pub schedule_config : ScheduleConfig

abbrev pub new_agent : ℕ → ℕ → ℕ → NewAgent → AutonomousAgent
new_agent now id user_id a = record {
  id = id;
  user_id = user_id;
  workspace_id = a.workspace_id;
  name = strip a.name;
  agent_type = a.agent_type;
  status = "active";
  runtime_status = none;
  last_error = none;
  schedule_kind = a.schedule_kind;
  schedule_config = a.schedule_config;
  next_run_at = scheduled now a.schedule_kind a.schedule_config;
  last_run_at = none;
}

unfoldable pub create_agent : ℕ → Db → ℕ → NewAgent → AutonomousAgent × Db
unfolding register_agent_schedule strip
create_agent now db user_id a =
    let agent = new_agent now db.next_agent user_id a in
    (
      agent,
      register_agent_schedule
          (record db { agents = db.agents ++ agent ∷ []; next_agent = suc db.next_agent }) agent,
    )

abbrev pub is_owned : ℕ → ℕ → AutonomousAgent → Bool
is_owned user_id agent_id a = a.id == agent_id && a.user_id == user_id

unfoldable pub get_agent : Db → ℕ → ℕ → Option AutonomousAgent
unfolding find_first
get_agent db user_id agent_id = find_first (is_owned user_id agent_id) db.agents

-- The fields that `update_agent` is given; an absent one and one that is None are the same but for
-- the schedule, of which `schedule_given` says whether one of its two keys was passed at all.
pub record Fields : Type 0 where
  pub name : Option String
  pub status : Option String
  pub schedule_kind : Option String
  pub schedule_config : Option ScheduleConfig
  pub schedule_given : Bool

abbrev or_kept {ℓ} : {A : Type ℓ} → Option A → A → A
or_kept none old = old
or_kept (some new) old = new

abbrev pub with_fields : ℕ → Fields → AutonomousAgent → AutonomousAgent
with_fields now f a =
    let kind = or_kept f.schedule_kind a.schedule_kind in
    let config = or_kept f.schedule_config a.schedule_config in
    record a {
      name = or_kept f.name a.name;
      status = or_kept f.status a.status;
      schedule_kind = kind;
      schedule_config = config;
      next_run_at = if f.schedule_given then scheduled now kind config else a.next_run_at;
    }

abbrev pub write : AutonomousAgent → Db → Db
write agent db = record db { agents = update_where (λ a. a.id == agent.id) (λ a. agent) db.agents }

abbrev pub update_found : ℕ → Db → Fields → Option AutonomousAgent → Option AutonomousAgent × Db
update_found now db f none = (none, db)
update_found now db f (some a) =
    let agent = with_fields now f a in (some agent, register_agent_schedule (write agent db) agent)

unfoldable pub update_agent : ℕ → Db → ℕ → ℕ → Fields → Option AutonomousAgent × Db
unfolding register_agent_schedule
update_agent now db user_id agent_id f = update_found now db f (get_agent db user_id agent_id)

abbrev pub set_status : String → Fields
set_status status = record {
  name = none;
  status = some status;
  schedule_kind = none;
  schedule_config = none;
  schedule_given = false;
}

unfoldable pub pause_agent : ℕ → Db → ℕ → ℕ → Option AutonomousAgent × Db
unfolding update_agent
pause_agent now db user_id agent_id = update_agent now db user_id agent_id (set_status "paused")

abbrev pub reschedule : ℕ → Option AutonomousAgent × Db → Option AutonomousAgent × Db
reschedule now (none, db) = (none, db)
reschedule now (some a, db) =
    if not (a.schedule_kind == "manual") && not (is_some a.next_run_at)
    then (let agent = record a {
      next_run_at = some (compute_next_run now a.schedule_kind a.schedule_config);
    } in
        (some agent, write agent db))
    else (some a, db)

unfoldable pub resume_agent : ℕ → Db → ℕ → ℕ → Option AutonomousAgent × Db
unfolding update_agent
resume_agent now db user_id agent_id =
    reschedule now (update_agent now db user_id agent_id (set_status "active"))

abbrev pub delete_found : Db → Option AutonomousAgent → Bool × Db
delete_found db none = (false, db)
delete_found db (some a) = (true, record db { agents = delete_where (λ b. b.id == a.id) db.agents })

unfoldable pub delete_agent : Db → ℕ → ℕ → Bool × Db
delete_agent db user_id agent_id = delete_found db (get_agent db user_id agent_id)
