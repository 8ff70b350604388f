-- ===== src/Fabricator/Bounded.antt =====
-- The number of active agents of a fabricator run, and of the checks that it remembers, are bounded.
use synode.Prelude.{
  ℕ, ◌+◌, ◌≤◌, String, true, false, ◌≡◌, refl, sym, subst, ap, Option, none, some, List, [], ◌∷◌,
  ◌++◌, length, ltb, is_some, Bool-cases, Option-cases, inl, inr, arith,
}
use synode.Fabricator.Lifecycle.{
  FabricatorPhase, FabricatorStatus, Command, AgentStatus, Agent, FabricatorRun, Refusal,
  ensure_command_allowed, mark_ready, finalize_guard, finalize_run, guarded,
}
use synode.Fabricator.Agents.{
  render_prompts, render_challenge_prompts, Policy, is_agent, find_agent, set_agent, is_started,
  count_active, keep_last, history_limit, record_check, ensure_agent_event, mark_started,
  newly_active, then_do, agent_started, agent_completed, agent_failed, register_dispatch,
  dispatch_challenge, expect,
}
use synode.Fabricator.Guarded.{FabricatorStep, perform, replay}

-- An agent that is set to another status is no longer active.
set_agent-inactive :
    (phase : FabricatorPhase) (id : String) (status : AgentStatus) (agents : List Agent)
    → is_started status ≡ false
    → count_active (set_agent phase id status agents) ≤ count_active agents
unfolding set_agent count_active
set_agent-inactive phase id status [] h = omega arith
set_agent-inactive phase id status (a ∷ agents) h =
    let ih = set_agent-inactive phase id status agents h in
    elim (Bool-cases (is_agent phase id a)) [
      | inl e ↦ elim (Bool-cases (is_started a.status)) [
        | inl s ↦ rw (e, h, s) (omega arith)
        | inr s ↦ rw (e, h, s) (omega arith)
      ]
      | inr e ↦ elim (Bool-cases (is_started a.status)) [
        | inl s ↦ rw (e, s) (omega (arith, ih))
        | inr s ↦ rw (e, s) (omega (arith, ih))
      ]
    ]

set_agent-started :
    (phase : FabricatorPhase) (id : String) (agents : List Agent)
    → count_active (set_agent phase id AgentStatus.started agents)
      ≤ count_active agents + newly_active (find_agent phase id agents)
unfolding set_agent count_active find_agent
set_agent-started phase id [] = omega arith
set_agent-started phase id (a ∷ agents) =
    let ih = set_agent-started phase id agents in
    elim (Bool-cases (is_agent phase id a)) [
      | inl e ↦ elim (Bool-cases (is_started a.status)) [
        | inl s ↦ rw (e, s) (omega arith)
        | inr s ↦ rw (e, s) (omega arith)
      ]
      | inr e ↦ elim (Bool-cases (is_started a.status)) [
        | inl s ↦ rw (e, s) (omega (arith, ih))
        | inr s ↦ rw (e, s) (omega (arith, ih))
      ]
    ]

expect-inactive :
    (phase : FabricatorPhase) (id : String) (agents : List Agent)
    → count_active (agents ++ expect phase id ∷ []) ≤ count_active agents
unfolding count_active
expect-inactive phase id [] = omega arith
expect-inactive phase id (a ∷ agents) =
    let ih = expect-inactive phase id agents in
    elim (Bool-cases (is_started a.status)) [
      | inl s ↦ rw s (omega (arith, ih))
      | inr s ↦ rw s (omega (arith, ih))
    ]

register_dispatch-inactive :
    (phase : FabricatorPhase) (ids : List String) (agents : List Agent)
    → count_active (register_dispatch phase ids agents) ≤ count_active agents
unfolding register_dispatch
register_dispatch-inactive phase [] agents = omega arith
register_dispatch-inactive phase (id ∷ ids) agents =
    elim (Bool-cases (is_some (find_agent phase id agents))) [
      | inl e ↦ rw e (
          omega (
            arith,
            register_dispatch-inactive phase ids (set_agent phase id AgentStatus.expected agents),
            set_agent-inactive phase id AgentStatus.expected agents refl,
          ))
      | inr e ↦ rw e (
          omega (
            arith,
            expect-inactive phase id agents,
            register_dispatch-inactive phase ids (agents ++ expect phase id ∷ []),
          ))
    ]

keep_last-length : (limit : ℕ) (checks : List ℕ) → length (keep_last limit checks) ≤ limit
unfolding keep_last
keep_last-length limit [] = omega arith
keep_last-length limit (c ∷ checks) = elim (Bool-cases (ltb (length checks) limit)) [
  | inl e ↦ rw e (ground (arith, e))
  | inr e ↦ rw e (keep_last-length limit checks)
]

module _ (policy : Policy) where
  -- No more agents are active than the policy allows, and at most so many checks are remembered.
  pub record IsBounded (run : FabricatorRun) : Type 0 where
    pub active : count_active run.agents ≤ policy.max_active_agents
    pub remembered : length run.checks ≤ history_limit

  -- What `record_check` leaves.
  abbrev pub Checked : ℕ → FabricatorRun → Option Refusal × FabricatorRun → Type 0
  Checked n run (some refusal, run') = run' ≡ run
  Checked n run (none, run') =
      (count_active run.agents + n ≤ policy.max_active_agents)
      × (run'.agents ≡ run.agents)
      × (length run'.checks ≤ history_limit)

  pub record_check-Checked :
      (n : ℕ) (run : FabricatorRun) → Checked n run (record_check policy n run)
  unfolding record_check
  record_check-Checked n run =
      elim (Bool-cases (ltb policy.max_active_agents (count_active run.agents + n))) [
        | inl e ↦ rw (record_check, e) refl
        | inr e ↦
            elim (Bool-cases (ltb policy.available_memory_mb policy.min_available_memory_mb)) [
              | inl m ↦ rw (record_check, e, m) refl
              | inr m ↦
                  rw (record_check, e, m)
                    (
                      ground (arith, e),
                      refl,
                      keep_last-length history_limit
                          (run.checks ++ (count_active run.agents + n) ∷ []),
                    )
            ]
      ]

  then_do-IsBounded :
      (n : ℕ) (run : FabricatorRun) (f : FabricatorRun → FabricatorRun)
      (r : Option Refusal × FabricatorRun)
      → Checked n run r
      → IsBounded run
      → ((run' : FabricatorRun)
          → count_active run'.agents + n ≤ policy.max_active_agents
          → length run'.checks ≤ history_limit
          → IsBounded (f run'))
      → IsBounded (then_do f r).1
  then_do-IsBounded n run f (some refusal, run') c i k = subst IsBounded (sym c) i
  then_do-IsBounded n run f (none, run') c i k =
      k run' (omega (arith, c.0, ap count_active c.1)) c.2

  guarded-IsBounded :
      (o : Option Refusal) (run after : FabricatorRun)
      → IsBounded run
      → IsBounded after
      → IsBounded (guarded o run after).1
  guarded-IsBounded none run after i k = k
  guarded-IsBounded (some refusal) run after i k = i

  -- With another status of one of its agents, not an active one.
  set-IsBounded :
      (phase : FabricatorPhase) (id : String) (status : AgentStatus) (run : FabricatorRun)
      → is_started status ≡ false
      → IsBounded run
      → count_active (set_agent phase id status run.agents) ≤ policy.max_active_agents
  set-IsBounded phase id status run h i =
      omega (arith, i.active, set_agent-inactive phase id status run.agents h)

  starts-IsBounded :
      (phase : FabricatorPhase) (id : String) (run : FabricatorRun)
      → IsBounded run
      → IsBounded (agent_started policy phase id run).1
  unfolding agent_started mark_started
  starts-IsBounded phase id run i = elim (Option-cases (ensure_agent_event phase id run)) [
    | inr (refusal, e) ↦ rw (agent_started, e) i
    | inl e ↦
        let n = newly_active (find_agent phase id run.agents) in
        rw (agent_started, e) (started (record_check policy n run) (record_check-Checked n run))
  ]
    where
      started :
          (r : Option Refusal × FabricatorRun)
          → Checked (newly_active (find_agent phase id run.agents)) run r
          → IsBounded (then_do (mark_started phase id) r).1
      started (some refusal, run') c = subst IsBounded (sym c) i
      started (none, run') c = record {
        active = omega (
          arith,
          c.0,
          set_agent-started phase id run.agents,
          ap (λ agents. count_active (set_agent phase id AgentStatus.started agents)) c.1,
        );
        remembered = c.2;
      }

  challenges-IsBounded :
      (ids : List String) (run : FabricatorRun)
      → IsBounded run
      → IsBounded (dispatch_challenge policy ids run).1
  unfolding dispatch_challenge
  challenges-IsBounded ids run i =
      elim (Option-cases (ensure_command_allowed run Command.dispatch_challenge)) [
        | inr (refusal, e) ↦ rw (dispatch_challenge, e) i
        | inl e ↦
            let rendered : FabricatorRun = record run {
              challenge_required = true;
              status = FabricatorStatus.challenge_prompts_rendered;
            } in
            rw (dispatch_challenge, e)
              (then_do-IsBounded 0 rendered _ (record_check policy 0 rendered)
                (record_check-Checked 0 rendered)
                (record { active = i.active; remembered = i.remembered })
                (λ run' a r. record {
                  active = omega (
                    arith,
                    a,
                    register_dispatch-inactive FabricatorPhase.challenge ids run'.agents,
                  );
                  remembered = r;
                }))
      ]

  perform-IsBounded :
      (step : FabricatorStep) (run : FabricatorRun)
      → IsBounded run
      → IsBounded (perform policy step run).1
  unfolding perform mark_ready finalize_run agent_completed agent_failed render_prompts
      render_challenge_prompts
  perform-IsBounded (FabricatorStep.marks command status) run i =
      guarded-IsBounded (ensure_command_allowed run command) run _ i
        (record { active = i.active; remembered = i.remembered })
  perform-IsBounded (FabricatorStep.finalizes result) run i =
      guarded-IsBounded (finalize_guard result run) run _ i
        (record { active = i.active; remembered = i.remembered })
  perform-IsBounded FabricatorStep.renders run i = record {
    active = i.active;
    remembered = i.remembered;
  }
  perform-IsBounded FabricatorStep.renders_challenge run i = record {
    active = i.active;
    remembered = i.remembered;
  }
  perform-IsBounded (FabricatorStep.starts phase id) run i = starts-IsBounded phase id run i
  perform-IsBounded (FabricatorStep.fails phase id) run i =
      elim (Option-cases (ensure_agent_event phase id run)) [
        | inr (refusal, e) ↦ rw (agent_failed, e) i
        | inl e ↦
            rw (agent_failed, e)
              (record {
                active = set-IsBounded phase id AgentStatus.failed run refl i;
                remembered = i.remembered;
              })
      ]
  perform-IsBounded (FabricatorStep.completes files phase id) run i =
      elim (Option-cases (ensure_agent_event phase id run)) [
        | inr (refusal, e) ↦ rw (agent_completed, e) i
        | inl e ↦ elim (Bool-cases files) [
          | inl f ↦
              rw (agent_completed, e, f)
                (record {
                  active = set-IsBounded phase id AgentStatus.completed run refl i;
                  remembered = i.remembered;
                })
          | inr f ↦
              rw (agent_completed, e, f) (record { active = i.active; remembered = i.remembered })
        ]
      ]
  perform-IsBounded (FabricatorStep.challenges ids) run i = challenges-IsBounded ids run i

  -- Through any sequence of operations, refused ones included, no more agents are active than the
  -- policy allows, and at most twenty resource checks are remembered.
  pub replay-IsBounded :
      (steps : List FabricatorStep) (run : FabricatorRun)
      → IsBounded run
      → IsBounded (replay policy steps run)
  unfolding replay
  replay-IsBounded [] run i = i
  replay-IsBounded (step ∷ steps) run i =
      replay-IsBounded steps (perform policy step run).1 (perform-IsBounded step run i)
