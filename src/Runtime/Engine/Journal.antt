-- ===== src/Runtime/Engine/Journal.antt =====
-- An engine whose world writes down what the engine saves, appends, executes and reports.
use zheng_harness.Base.{String, Option, none, some, List, [], ◌∷◌, ◌++◌, map}
use zheng_harness.Domain.Types.{Session, Step, ToolCall, ToolInfo, Err}
use zheng_harness.Domain.Effect.{Result, ok, err, Ask}
use zheng_harness.Runtime.EventRelay.{StreamingEvent, EventType}
use zheng_harness.Runtime.AgentStrategy.{
  Model, AgentStrategyPlugin, AgentStrategyDescriptor, AgentStrategyRegistry,
}
use zheng_harness.Runtime.Engine.{
  ToolExecutor, MemoryStore, SessionStore, Verifier, Environment, Engine, Ports,
}

-- A tool call with the tools that were listed last before it.
pub record Executed : Type 0 where
  pub call : ToolCall
  pub offered : List ToolInfo

-- `saved`, `executed` and `emitted` have the newest first, `appended` the oldest.
pub record Journal (W : Type 0) : Type 0 where
  pub world : W
  pub saved : List Session
  pub appended : List Step
  pub offered : List ToolInfo
  pub executed : List Executed
  pub emitted : List EventType

abbrev pub blank : {W : Type 0} → W → Journal W
blank w = record { world = w; saved = []; appended = []; offered = []; executed = []; emitted = [] }

abbrev pub map_option : {A B : Type 0} → (A → B) → Option A → Option B
map_option f none = none
map_option f (some a) = some (f a)

module _ {W : Type 0} where
  abbrev pub carry : {A : Type 0} → Ask W A → Ask (Journal W) A
  carry f j = let (a, w) = f j.world in (a, record j { world = w })

  abbrev pub carry_strategy : AgentStrategyPlugin W → AgentStrategyPlugin (Journal W)
  carry_strategy s = record {
    metadata = s.metadata;
    create_plan = λ c. carry (s.create_plan c);
    next_action = λ c. carry (s.next_action c);
    observe = λ c. carry (s.observe c);
  }

  abbrev pub carry_built :
      Result (Option (AgentStrategyPlugin W)) → Result (Option (AgentStrategyPlugin (Journal W)))
  carry_built (ok (some s)) = ok (some (carry_strategy s))
  carry_built (ok none) = ok none
  carry_built (err e) = err e

  abbrev pub carry_entry :
      String × AgentStrategyDescriptor W → String × AgentStrategyDescriptor (Journal W)
  carry_entry (id, d) = (
    id,
    record {
      id = d.id;
      factory = λ j. let (r, w) = d.factory j.world in (carry_built r, record j { world = w });
    },
  )

  abbrev pub carry_registry : AgentStrategyRegistry W → AgentStrategyRegistry (Journal W)
  carry_registry r = record { entries = map carry_entry r.entries; default_id = r.default_id }

  abbrev pub carry_model : Model W → Model (Journal W)
  carry_model m = record {
    create_plan = λ t s e. carry (m.create_plan t s e);
    next_action = λ t s p l e i. carry (m.next_action t s p l e i);
    observe = λ t s p a r. carry (m.observe t s p a r);
  }

  abbrev pub list_and_note : Ask W (List ToolInfo) → Ask (Journal W) (List ToolInfo)
  list_and_note list j =
      let (tools, w) = list j.world in (tools, record j { world = w; offered = tools })

  -- An executor with no registry offers no tools, as one with an empty registry does.
  abbrev pub note_listing :
      Option (Ask W (List ToolInfo)) → Option (Ask (Journal W) (List ToolInfo))
  note_listing none = some (λ j. ([], record j { offered = [] }))
  note_listing (some list) = some (list_and_note list)

  abbrev pub note_tools : ToolExecutor W → ToolExecutor (Journal W)
  note_tools t = record {
    execute = λ call j.
        let (answer, w) = t.execute call j.world in
        (
          answer,
          record j {
            world = w;
            executed = record { call = call; offered = j.offered } ∷ j.executed;
          },
        );
    list_tool_info = note_listing t.list_tool_info;
  }

  abbrev pub note_sessions : SessionStore W → SessionStore (Journal W)
  note_sessions s = record {
    save_session = λ session j.
        let (e, w) = s.save_session session j.world in
        (e, record j { world = w; saved = session ∷ j.saved });
    save_plan = λ plan. carry (s.save_plan plan);
    append_step = λ id step j.
        let (e, w) = s.append_step id step j.world in
        (e, record j { world = w; appended = j.appended ++ step ∷ [] });
  }

  abbrev pub note_memory : MemoryStore W → MemoryStore (Journal W)
  note_memory m = record {
    remember = λ id o. carry (m.remember id o);
    recall = λ q. carry (m.recall q);
  }

  abbrev pub note_verifier : Verifier W → Verifier (Journal W)
  note_verifier v = record {
    verify = λ t s p l o. carry (v.verify t s p l o);
    verifier_provenance = carry v.verifier_provenance;
  }

  abbrev pub note_channel :
      (StreamingEvent → Ask W (Option Err)) → StreamingEvent → Ask (Journal W) (Option Err)
  note_channel channel event j =
      let (e, w) = channel event j.world in
      (e, record j { world = w; emitted = event.type ∷ j.emitted })

  abbrev pub carry_environment : Environment W → Environment (Journal W)
  carry_environment env = record {
    context = carry env.context;
    time_now = carry env.time_now;
    encode = env.encode;
  }

  abbrev pub journaled : Engine W → Engine (Journal W)
  journaled e = record {
    model = map_option carry_model e.model;
    provider_provenance = carry e.provider_provenance;
    tools = map_option note_tools e.tools;
    memory = map_option note_memory e.memory;
    sessions = map_option note_sessions e.sessions;
    verifier = map_option note_verifier e.verifier;
    agent_strategies = map_option carry_registry e.agent_strategies;
    agent_strategy_id = e.agent_strategy_id;
    event_channel = map_option note_channel e.event_channel;
    clock = map_option carry e.clock;
    max_steps = e.max_steps;
    max_retries = e.max_retries;
    session_timeout = e.session_timeout;
    environment = carry_environment e.environment;
  }

  abbrev pub journaled_ports : Ports W → Ports (Journal W)
  journaled_ports p = record {
    engine = journaled p.engine;
    tools = note_tools p.tools;
    memory = note_memory p.memory;
    sessions = note_sessions p.sessions;
    verifier = note_verifier p.verifier;
  }
