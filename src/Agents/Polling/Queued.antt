-- ===== src/Agents/Polling/Queued.antt =====
-- poll_due_agents of backend/app/jobs/agent_jobs.py where Redis is configured, as it is where a worker
-- runs it.
use mathlib.Core.List.{append-nil, append_assoc}
use omni_ai_v.Prelude.{
  ℕ, ◌+◌, ◌≡◌, refl, sym, ◌∙◌, ap, Bool, true, false, List, [], ◌∷◌, ◌++◌, map, select, length,
  length-append, arith, is_empty, Bool-cases, inl, inr,
}
use omni_ai_v.Agents.{AutonomousAgent, Db}
use omni_ai_v.Agents.Runs.{is_due, agents_due_for_run}
use omni_ai_v.Agents.Polling.{
  Enqueued, no_queue, job, unreachable, Environment, Poll, handed_over, poll_agents,
  poll_due_agents,
}

-- The client answers the key of a job, or raises.
abbrev pub UsesQueue : Enqueued → Type 0
UsesQueue no_queue = ⊥
UsesQueue (job job_id) = is_empty job_id ≡ false
UsesQueue (unreachable error) = Unit

abbrev pub is_taken : Enqueued → Bool
is_taken no_queue = false
is_taken (job job_id) = true
is_taken (unreachable error) = false

-- What the poll has added.
abbrev pub Added : List ℕ → Poll → Poll → Type 0
Added ids before after =
    (after.db ≡ before.db)
    × (after.jobs ≡ before.jobs ++ ids)
    × (after.count ≡ before.count + length ids)

abbrev one_if : Bool → ℕ → List ℕ
one_if true id = id ∷ []
one_if false id = []

handed_over-Added :
    (env : Environment) (a : AutonomousAgent) (p : Poll) (e : Enqueued)
    → UsesQueue e
    → Added (one_if (is_taken e) a.id) p (handed_over env a p e)
handed_over-Added env a p no_queue h = absurd h
handed_over-Added env a p (job job_id) h = rw h (refl, refl, omega arith)
handed_over-Added env a p (unreachable error) h = (refl, sym (append-nil p.jobs), omega arith)

Added-trans : (xs ys : List ℕ) (p q r : Poll) → Added xs p q → Added ys q r → Added (xs ++ ys) p r
Added-trans xs ys p q r (db, jobs, count) (db', jobs', count') = (
  db' ∙ db,
  jobs' ∙ ap (λ js. js ++ ys) jobs ∙ append_assoc p.jobs xs ys,
  omega (arith, count, count', length-append xs ys),
)

-- The agents that the queue takes.
abbrev pub taken : Environment → List AutonomousAgent → List ℕ
taken env agents = map (λ a. a.id) (select (λ a. is_taken (env.enqueue a.id)) agents)

taken-cons :
    (env : Environment) (a : AutonomousAgent) (agents : List AutonomousAgent)
    → taken env (a ∷ agents) ≡ one_if (is_taken (env.enqueue a.id)) a.id ++ taken env agents
taken-cons env a agents = elim (Bool-cases (is_taken (env.enqueue a.id))) [
  | inl e ↦ rw e refl
  | inr e ↦ rw e refl
]

poll_agents-Added :
    (env : Environment) (agents : List AutonomousAgent) (p : Poll)
    → ((i : ℕ) → UsesQueue (env.enqueue i))
    → Added (taken env agents) p (poll_agents env agents p)
unfolding poll_agents
poll_agents-Added env [] p queues = (refl, sym (append-nil p.jobs), omega arith)
poll_agents-Added env (a ∷ agents) p queues =
    let next = handed_over env a p (env.enqueue a.id) in
    rw taken-cons (
      Added-trans (one_if (is_taken (env.enqueue a.id)) a.id) (taken env agents) p next
        (poll_agents env agents next) (handed_over-Added env a p (env.enqueue a.id) (queues a.id))
        (poll_agents-Added env agents next queues))

-- Where Redis is configured: a poll gives to the queue, once and in their order, the agents that are
-- due and for which the client does not raise, answers their number, and changes no row, so that an
-- agent for which the client raised does not keep the others from the queue.
pub poll_due_agents-Added :
    (env : Environment) (now : ℕ) (db : Db)
    → ((i : ℕ) → UsesQueue (env.enqueue i))
    → Added
        (taken env (select (is_due now) db.agents))
        (record { db = db; jobs = []; count = 0 })
        (poll_due_agents env now db)
unfolding poll_due_agents agents_due_for_run
poll_due_agents-Added env now db queues = poll_agents-Added env _ _ queues
