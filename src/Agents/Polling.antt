-- ===== src/Agents/Polling.antt =====
-- poll_due_agents of backend/app/jobs/agent_jobs.py and enqueue_agent_run_now of
-- backend/app/services/agent_scheduler_service.py: every agent that is due is given to the queue or,
-- without one, run on the spot. What RQ answers and the times at which the runs take place are
-- arguments; the log of exceptions is left out.
pub mod Queued
use omni_ai_v.Prelude.{ℕ, suc, String, none, List, [], ◌∷◌, ◌++◌, if◌then◌else◌, is_empty}
use omni_ai_v.Agents.{AutonomousAgent, Db}
use omni_ai_v.Agents.Runs.{
  Answer, Run, complete, refused, failed, execute_agent, agents_due_for_run,
}

-- What `enqueue_agent_run_now` answers: None without a queue, the key of a job, or the exception of
-- the client.
pub data Enqueued : Type 0 where
  no_queue : Enqueued
  job : String → Enqueued
  unreachable : String → Enqueued

pub record Environment : Type 0 where
  pub enqueue : ℕ → Enqueued
  pub run_at : ℕ → ℕ
  pub handler : AutonomousAgent → Answer

-- The rows, the agents that were given to the queue, and the count that is returned.
pub record Poll : Type 0 where
  pub db : Db
  pub jobs : List ℕ
  pub count : ℕ

abbrev pub ran : Poll → Run × Db → Poll
ran p (complete e, db) = record p { db = db; count = suc p.count }
ran p (refused error, db) = record p { db = db }
ran p (failed error, db) = record p { db = db }

unfoldable pub run_due : Environment → AutonomousAgent → Poll → Poll
unfolding execute_agent
run_due env a p = ran p (execute_agent (env.run_at a.id) p.db a.id none "scheduled" env.handler)

abbrev pub handed_over : Environment → AutonomousAgent → Poll → Enqueued → Poll
handed_over env a p no_queue = run_due env a p
handed_over env a p (job job_id) =
    let queued = record p { jobs = p.jobs ++ a.id ∷ [] } in
    if is_empty job_id then run_due env a queued else record queued { count = suc p.count }
handed_over env a p (unreachable error) = p

-- The loop over the agents that were due when it began.
unfoldable pub poll_agents : Environment → List AutonomousAgent → Poll → Poll
unfolding run_due
poll_agents env [] p = p
poll_agents env (a ∷ agents) p = poll_agents env agents (handed_over env a p (env.enqueue a.id))

unfoldable pub poll_due_agents : Environment → ℕ → Db → Poll
unfolding agents_due_for_run poll_agents
poll_due_agents env now db =
    poll_agents env (agents_due_for_run db now) (record { db = db; jobs = []; count = 0 })
