-- ===== src/Runtime/Engine/Samples.antt =====
-- An engine with a model that first calls a tool and then answers, and the theorems about it.
use zheng_harness.Base.{
  ℕ, suc, true, false, none, some, [], ◌∷◌, ◌≡◌, refl, length, leb, if◌then◌else◌, arith,
}
use zheng_harness.Base.Int.{pos, negsuc}
use zheng_harness.Domain.Types.{
  Task, general, success, Plan, Action, respond, tool_call, passed, failed,
}
use zheng_harness.Domain.Effect.{ok}
use zheng_harness.Runtime.TaskRegistry.{ResolvedTaskProtocol}
use zheng_harness.Runtime.TaskRegistry
use zheng_harness.Runtime.AgentStrategy.{Model}
use zheng_harness.Runtime.Engine.{Engine, Ports, ContextState, no_session, no_plan}
use zheng_harness.Runtime.Engine.Journal.{journaled, blank}
use zheng_harness.Runtime.Engine.Loop.{Setup, run_engine, loop, first_turn}
use zheng_harness.Runtime.Engine.Loop.Ends.{loop_enough}
use zheng_harness.Runtime.Engine.Recall.{recall_memory}
use zheng_harness.Runtime.Engine.Recall.Chosen.{IsChosen, recall_memory-IsChosen}
use zheng_harness.Runtime.Engine.Trace.Whole.{Finished, run_engine-Finished}
use zheng_harness.Runtime.Engine.Permitted.{Lawful, run_engine-Lawful}
use zheng_harness.Runtime.Engine.{
  required_dependencies, now, resolve_agent_strategy, list_tool_info, emit_event,
  new_streaming_event, emit_tool_start_event, emit_tool_end_event, emit_step_complete_event,
  emit_session_complete_event, record_step, close_session, end_session, context_err,
}
use zheng_harness.Runtime.Engine.Iteration.{
  create_plan, execute_call, run_tool, normalize_observation_for_action, verify_iteration,
  decide_iteration_outcome, act_on, execute_iteration,
}
use zheng_harness.Runtime.Engine.Recall.{recall_each, tokenize_keywords, rank}
use zheng_harness.Runtime.Engine.Loop.{
  may_start, with_step, replan, after_unfinished, after_step, after_iteration, attempt, run_planned,
  run_session,
}
use zheng_harness.Domain.Effect.{pure, lift, ask, run, ◌>>=◌}
use zheng_harness.Base.Text.{trim_space}
use zheng_harness.Domain.PluginMetadata.{validate}
use zheng_harness.Runtime.AgentStrategy.{
  register, validate_agent_strategy_metadata, validate_agent_plan_decision, is_allowed_tool,
  validate_agent_action_decision, validate_agent_observation_decision,
  new_builtin_model_agent_strategy,
}
use zheng_harness.Runtime.Provenance.{agent_strategy_metadata}
use zheng_harness.Runtime.AgentStrategy.{resolve as resolve_strategy}

abbrev a_plan : Plan
a_plan = record {
  id = "p";
  task_id = "";
  summary = "look, then answer";
  steps = [];
  created_at = 0;
}

abbrev look : Action
look = record {
  type = tool_call;
  summary = "look";
  tool_call = some (record { name = "grep"; input = "bug"; timeout = 5 });
  response = "";
}

abbrev answer : Action
answer = record { type = respond; summary = "answer"; tool_call = none; response = "found" }

abbrev a_model : Model ℕ
a_model = record {
  create_plan = λ t s m w. (ok a_plan, w);
  next_action = λ t s p steps m tools w. (ok (if leb 1 (length steps) then answer else look), w);
  observe = λ t s p a r w.
      (ok (record { summary = ""; tool_result = none; final_response = ""; evidence = none }), w);
}

abbrev an_engine : Engine ℕ
an_engine = record {
  model = some a_model;
  provider_provenance = λ w. (none, w);
  tools = some (record {
    execute = λ call w.
        ((record { tool_name = call.name; output = "line 7"; error = ""; duration = 1 }, none), w);
    list_tool_info = some (λ w. (record { name = "grep"; description = ""; schema = "" } ∷ [], w));
  });
  memory = some (record { remember = λ id o w. (none, w); recall = λ q w. (ok [], w) });
  sessions = some (record {
    save_session = λ s w. (none, w);
    save_plan = λ p w. (none, w);
    append_step = λ id s w. (none, w);
  });
  verifier = some (record {
    verify = λ t s p steps o w. (
      ok (
          if leb 1 (length steps)
          then record { passed = true; status = passed; reason = "answered" }
          else record { passed = false; status = failed; reason = "no answer yet" }),
      w,
    );
    verifier_provenance = λ w. (none, w);
  });
  agent_strategies = none;
  agent_strategy_id = "";
  event_channel = some (λ event w. (none, w));
  clock = none;
  max_steps = pos 3;
  max_retries = pos 2;
  session_timeout = negsuc 0;
  environment = record {
    context = λ w. (ContextState.live, w);
    time_now = λ w. (w, suc w);
    encode = λ payload. ok "{}";
  };
}

abbrev a_task : Task
a_task = record {
  id = "t";
  description = "find the bug";
  goal = "";
  category = general;
  protocol_hint = "";
  verification_policy = "";
  created_at = 0;
}

run_engine-Finished_example : Finished an_engine (run_engine (journaled an_engine) a_task (blank 0))
run_engine-Finished_example = run_engine-Finished an_engine a_task 0

run_engine-Lawful_example : Lawful (run_engine (journaled an_engine) a_task (blank 0)).1
run_engine-Lawful_example = run_engine-Lawful an_engine a_task 0

abbrev some_ports : Ports ℕ
some_ports = record {
  engine = an_engine;
  tools = record {
    execute = λ call w.
        ((record { tool_name = call.name; output = ""; error = ""; duration = 1 }, none), w);
    list_tool_info = none;
  };
  memory = record {
    remember = λ id o w. (none, w);
    recall = λ q w. (
      ok (
          record {
            id = "m";
            session_id = "s";
            project_key = "";
            scope = q.scope;
            type = q.type;
            key = "bug";
            content = "seen before";
            source = "log";
            confidence = pos 1;
            provenance = "";
            created_at = 0;
            updated_at = 0;
            expires_at = none;
          }
          ∷ []),
      w,
    );
  };
  sessions = record {
    save_session = λ s w. (none, w);
    save_plan = λ p w. (none, w);
    append_step = λ id s w. (none, w);
  };
  verifier = record {
    verify =
        λ t s p steps o w. (ok (record { passed = false; status = failed; reason = "not yet" }), w);
    verifier_provenance = λ w. (none, w);
  };
}

recall_memory-IsChosen_example : IsChosen (recall_memory some_ports a_task no_session 0).0
recall_memory-IsChosen_example = recall_memory-IsChosen some_ports a_task no_session 0

abbrev a_setup : Setup
a_setup = record {
  protocol = TaskRegistry.resolve a_task;
  strategy_metadata = none;
  max_steps = 3;
  max_retries = 2;
  deadline = 100;
}

loop_enough_example :
    loop some_ports a_setup 7 (first_turn no_session no_plan) 0
    ≡ loop some_ports a_setup 3 (first_turn no_session no_plan) 0
loop_enough_example =
    loop_enough some_ports a_setup 2 6 (first_turn no_session no_plan) 0 refl (omega arith)

-- The run looks, then answers, and succeeds.
the_run :
    let (r, j) = run_engine (journaled an_engine) a_task (blank 0) in
    (r.session.status ≡ success) × (length r.steps ≡ 2) × (length j.executed ≡ 1)
unfolding run_engine required_dependencies now resolve_agent_strategy list_tool_info emit_event
    new_streaming_event emit_tool_start_event emit_tool_end_event emit_step_complete_event
    emit_session_complete_event record_step close_session end_session context_err create_plan
    execute_call run_tool normalize_observation_for_action verify_iteration decide_iteration_outcome
    act_on execute_iteration recall_each tokenize_keywords rank may_start with_step replan
    after_unfinished after_step after_iteration attempt run_planned run_session pure lift ask run
    ◌>>=◌ trim_space validate register validate_agent_strategy_metadata validate_agent_plan_decision
    is_allowed_tool validate_agent_action_decision validate_agent_observation_decision
    new_builtin_model_agent_strategy agent_strategy_metadata resolve_strategy recall_memory loop
the_run = (refl, refl, refl)
