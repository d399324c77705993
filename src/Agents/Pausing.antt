-- ===== src/Agents/Pausing.antt =====
-- pause_agent of backend/app/agents/lifecycle.py against execute_agent and the due agents.
use omni_ai_v.Prelude.{
  ℕ, ◌≡◌, refl, String, Bool, true, ◌||◌, not, Option, arith, ◌==◌, nat_comparable, text_comparable,
  All, All-imp, All-trivial, Bool-cases, Option-cases, inl, inr, is_some, eq_of_beq,
}
use omni_ai_v.Rows.{find_first, find_first-All, find_first_sound, update_where_imp}
use omni_ai_v.Agents.{
  AutonomousAgent, Db, is_owned, get_agent, update_agent, register_agent_schedule, pause_agent,
}
use omni_ai_v.Agents.Runs.{Answer, is_denied, execute_agent, is_due}
use omni_ai_v.Agents.Settling.{is_refused}

abbrev pub is_stopped : ℕ → AutonomousAgent → Bool
is_stopped i a = not (a.id == i) || a.status == "paused"

paused_rows :
    (now : ℕ) (db : Db) (user_id agent_id : ℕ)
    → is_some (pause_agent now db user_id agent_id).0 ≡ true
    → All (λ a. is_stopped agent_id a ≡ true) (pause_agent now db user_id agent_id).1.agents
unfolding pause_agent update_agent get_agent register_agent_schedule
paused_rows now db user_id agent_id h =
    elim (Option-cases (find_first (is_owned user_id agent_id) db.agents)) [
      | inl absent ↦ absurd (cc (rw absent at h))
      | inr (a, found) ↦
          let own = find_first_sound (is_owned user_id agent_id) db.agents found in
          let same : agent_id ≡ a.id = ground arith in
          rw (found, same)
            (update_where_imp (λ x. Unit {0}) _ _ _ db.agents (λ x t hit. ground arith)
              (λ x t miss. rw miss refl) (All-trivial db.agents))
    ]

-- After a pause that found the agent, a run of it by whomever is refused and changes nothing, and it
-- is due at no time.
pub pause_agent_stops :
    (now : ℕ) (db : Db) (user_id agent_id : ℕ) (later : ℕ) (caller : Option ℕ) (trigger : String)
    (handler : AutonomousAgent → Answer)
    → is_some (pause_agent now db user_id agent_id).0 ≡ true
    → (is_refused
          (execute_agent later
            (pause_agent now db user_id agent_id).1
            agent_id
            caller
            trigger
            handler).0
        ≡ true)
      × ((execute_agent later
            (pause_agent now db user_id agent_id).1
            agent_id
            caller
            trigger
            handler).1
          ≡ (pause_agent now db user_id agent_id).1)
      × All
          (λ a. not (a.id == agent_id) || not (is_due later a) ≡ true)
          (pause_agent now db user_id agent_id).1.agents
unfolding execute_agent
pause_agent_stops now db user_id agent_id later caller trigger handler h =
    let rows = paused_rows now db user_id agent_id h in
    let after = (pause_agent now db user_id agent_id).1 in
    elim (Option-cases (find_first (λ a. a.id == agent_id) after.agents)) [
      | inl absent ↦ rw absent (refl, refl, All-imp after.agents (λ a p. idle a p) rows)
      | inr (a, found) ↦
          let (own, p) = find_first-All _ (λ x. x.id == agent_id) after.agents found rows in
          let paused : (a.status == "paused") ≡ true = ground arith in
          rw found (elim (Bool-cases (is_denied caller a)) [
            | inl e ↦ rw e (refl, refl, All-imp after.agents (λ x q. idle x q) rows)
            | inr e ↦ rw (e, paused) (refl, refl, All-imp after.agents (λ x q. idle x q) rows)
          ])
    ]
  where
    idle :
        (x : AutonomousAgent)
        → is_stopped agent_id x ≡ true
        → (not (x.id == agent_id) || not (is_due later x)) ≡ true
    idle x q = elim (Bool-cases (x.id == agent_id)) [
      | inr e ↦ rw e refl
      | inl e ↦
          let paused : x.status ≡ "paused" = eq_of_beq x.status "paused" (ground arith) in
          rw (e, paused) refl
    ]
