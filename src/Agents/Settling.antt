-- ===== src/Agents/Settling.antt =====
-- What execute_agent of backend/app/agents/executor.py leaves behind.
use omni_ai_v.Prelude.{
  ℕ, ◌≡◌, refl, String, Bool, true, false, ◌||◌, not, Option, arith, ◌==◌, nat_comparable,
  text_comparable, All, All-append, All-trivial, Bool-cases, Option-cases, inl, inr,
}
use omni_ai_v.Rows.{find_first, find_first-All, update_where, update_where_imp}
use omni_ai_v.Agents.Slots.{IsValid, compute_next_run_bounds}
use omni_ai_v.Agents.{AutonomousAgent, AgentExecution, Db, register_agent_schedule}
use omni_ai_v.Agents.Runs.{
  Answer, summary, raised, Run, refused, new_execution, finished, after_run, rescheduled, run_agent,
  is_denied, execute_agent, is_due,
}

abbrev pub is_running : AgentExecution → Bool
is_running e = e.status == "running"

abbrev pub is_refused : Run → Bool
is_refused (refused e) = true
is_refused _ = false

finished_stopped :
    (now : ℕ) (e : AgentExecution) (answer : Answer) → is_running (finished now e answer) ≡ false
finished_stopped now e (summary text) = refl
finished_stopped now e (raised error) = refl

-- No run is left in status `running`, whatever the handler answers, if none was before.
execute_agent_stops :
    (now : ℕ) (db : Db) (agent_id : ℕ) (user_id : Option ℕ) (trigger : String)
    (handler : AutonomousAgent → Answer)
    → All (λ e. is_running e ≡ false) db.executions
    → All
        (λ e. is_running e ≡ false)
        (execute_agent now db agent_id user_id trigger handler).1.executions
unfolding execute_agent run_agent register_agent_schedule
execute_agent_stops now db agent_id user_id trigger handler h =
    elim (Option-cases (find_first (λ a. a.id == agent_id) db.agents)) [
      | inl absent ↦ rw absent h
      | inr (a, found) ↦ rw found (elim (Bool-cases (is_denied user_id a)) [
        | inl e ↦ rw e h
        | inr e ↦ rw e (elim (Bool-cases (a.status == "paused")) [
          | inl f ↦ rw f h
          | inr f ↦ rw f (
              All-append _ db.executions _ h
                (finished_stopped now (new_execution db a trigger) (handler a), tt))
        ])
      ])
    ]

pub rescheduled_later :
    (now : ℕ) (a : AutonomousAgent)
    → IsValid a.schedule_config
    → is_due now (rescheduled now a) ≡ false
rescheduled_later now a v = elim (Bool-cases (a.schedule_kind == "manual")) [
  | inl e ↦ rw e (ground arith)
  | inr e ↦
      let later = compute_next_run_bounds now a.schedule_kind a.schedule_config v in
      rw e (ground arith)
]

abbrev pub is_later : ℕ → ℕ → AutonomousAgent → Bool
is_later i now a = not (a.id == i) || not (is_due now a)

-- After a run that was not refused the agent is not due at the time of the run, whatever its handler
-- answered, if the schedules are valid.
pub execute_agent_reschedules :
    (now : ℕ) (db : Db) (agent_id : ℕ) (user_id : Option ℕ) (trigger : String)
    (handler : AutonomousAgent → Answer)
    → All (λ a. IsValid a.schedule_config) db.agents
    → is_refused (execute_agent now db agent_id user_id trigger handler).0 ≡ false
    → All
        (λ a. is_later agent_id now a ≡ true)
        (execute_agent now db agent_id user_id trigger handler).1.agents
unfolding execute_agent run_agent register_agent_schedule
execute_agent_reschedules now db agent_id user_id trigger handler valid h =
    elim (Option-cases (find_first (λ a. a.id == agent_id) db.agents)) [
      | inl absent ↦ absurd (cc (rw absent at h))
      | inr (a, found) ↦ elim (Bool-cases (is_denied user_id a)) [
        | inl e ↦ absurd (cc (rw (found, e) at h))
        | inr e ↦ elim (Bool-cases (a.status == "paused")) [
          | inl f ↦ absurd (cc (rw (found, e, f) at h))
          | inr f ↦
              let (own, v) = find_first-All _ (λ x. x.id == agent_id) db.agents found valid in
              let same : agent_id ≡ a.id = ground arith in
              rw (found, same) (rw (e, f) (rows a (handler a) v))
        ]
      ]
    ]
  where
    rows :
        (a : AutonomousAgent) (answer : Answer)
        → IsValid a.schedule_config
        → All
            (λ x. is_later a.id now x ≡ true)
            (update_where (λ x. x.id == a.id) (λ x. rescheduled now (after_run a answer)) db.agents)
    rows a answer v =
        let later = rescheduled_later now (after_run a answer) v in
        update_where_imp (λ x. Unit {0}) (λ x. is_later a.id now x ≡ true) (λ x. x.id == a.id)
          (λ x. rescheduled now (after_run a answer)) db.agents (λ x t hit. rw later (ground arith))
          (λ x t miss. rw miss refl) (All-trivial db.agents)
