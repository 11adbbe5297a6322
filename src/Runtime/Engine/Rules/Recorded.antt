-- ===== src/Runtime/Engine/Rules/Recorded.antt =====
-- The ports of a journaled engine keep every property of the journal that reads neither the world nor
-- the events, and that a permitted execution keeps.
use zheng_harness.Base.{
  subst, String, Option, none, some, List, [], ◌∷◌, ◌≡◌, refl, ◌==◌, arith, map, Bool-cases, inl,
  inr,
}
use zheng_harness.Base.Maps.{lookup}
use zheng_harness.Base.Text.{trim_space}
use zheng_harness.Domain.Types.{Time, Err, ToolCall}
use zheng_harness.Domain.Effect.{Result, ok, err, Effect, Ask, pure, lift, ◌>>=◌}
use zheng_harness.Domain.Effect.Ensures.{
  Ensures, Holds, Any, Ensures-pure, Ensures-raise, Ensures-lift, Ensures-run, Ensures-bind,
}
use zheng_harness.Runtime.EventRelay.{StreamingEvent, EventType}
use zheng_harness.Runtime.AgentStrategy.{
  Model, AgentStrategyPlugin, AgentStrategyFactory, AgentStrategyDescriptor, AgentStrategyRegistry,
  new_builtin_model_agent_strategy, new_agent_strategy_registry, register, insert_new, resolve,
  check_id, check_strategy, build_strategy,
}
use zheng_harness.Domain.PluginMetadata.{normalize}
use zheng_harness.Runtime.Engine.{
  Engine, Ports, now, clock_or, send, emit_event, resolve_agent_strategy, complete_registry,
  add_missing, builtin_factory,
}
use zheng_harness.Runtime.Engine.Journal.{
  Journal, carry, carry_strategy, carry_built, carry_entry, carry_registry, carry_model, note_tools,
  note_channel, map_option, journaled, journaled_ports,
}
use zheng_harness.Runtime.Engine.Rules.{Still, Quiet, QuietStrategy, Ensures-Still}

module _ {V : Type 0} (I : V → Type 0) where
  abbrev pub Built : Option (AgentStrategyPlugin V) → Type 0
  Built none = Unit
  Built (some s) = QuietStrategy I s

  abbrev pub QuietRegistry : AgentStrategyRegistry V → Type 0
  QuietRegistry r =
      (id : String) (d : AgentStrategyDescriptor V)
      → lookup id r.entries ≡ some d
      → Ensures I Built d.factory

module _ {V : Type 0} (I : V → Type 0) where
  check_id-QuietStrategy :
      (id : String) (s : AgentStrategyPlugin V) (r : Result (Unit {0}))
      → QuietStrategy I s
      → Holds (QuietStrategy I) (check_id id s r)
  check_id-QuietStrategy id s (err e) h = tt
  check_id-QuietStrategy id s (ok _) h =
      elim (Bool-cases ((normalize s.metadata).logical_id == id)) [
        | inl same ↦ rw same h
        | inr other ↦ rw other tt
      ]

  check_strategy-QuietStrategy :
      (id : String) (o : Option (AgentStrategyPlugin V))
      → Built I o
      → Holds (QuietStrategy I) (check_strategy id o)
  check_strategy-QuietStrategy id none h = tt
  check_strategy-QuietStrategy id (some s) h = check_id-QuietStrategy id s _ h

  build_strategy-QuietStrategy :
      (o : Option (AgentStrategyDescriptor V))
      → ((d : AgentStrategyDescriptor V) → o ≡ some d → Ensures I (Built I) d.factory)
      → Ensures I (QuietStrategy I) (build_strategy o)
  build_strategy-QuietStrategy none h = Ensures-raise _
  build_strategy-QuietStrategy (some d) h =
      Ensures-bind d.factory _ (h d refl)
        λ s quiet. Ensures-lift _ (check_strategy-QuietStrategy d.id s quiet)

  resolve-QuietStrategy :
      (r : AgentStrategyRegistry V) (id : String)
      → QuietRegistry I r
      → Ensures I (QuietStrategy I) (resolve r id)
  unfolding resolve
  resolve-QuietStrategy r id h = build_strategy-QuietStrategy _ (λ d found. h _ d found)

  insert_new-QuietRegistry :
      (r : AgentStrategyRegistry V) (id : String) (f : AgentStrategyFactory V)
      (o : Option (AgentStrategyDescriptor V))
      → QuietRegistry I r
      → Ensures I (Built I) f
      → Holds (QuietRegistry I) (insert_new r id f o)
  unfolding lookup
  insert_new-QuietRegistry r id f (some d) h hf = tt
  insert_new-QuietRegistry r id f none h hf = λ key d found. elim (Bool-cases (id == key)) [
    | inl hit ↦
        let e : record { id = id; factory = f } ≡ d = ground (arith, found, hit) in
        subst (λ x. Ensures I (Built I) x.factory) e hf
    | inr miss ↦ h key d (ground (arith, found, miss))
  ]

  register-QuietRegistry :
      (r : AgentStrategyRegistry V) (id : String) (f : AgentStrategyFactory V)
      → QuietRegistry I r
      → Ensures I (Built I) f
      → Holds (QuietRegistry I) (register r id (some f))
  unfolding register
  register-QuietRegistry r id f h hf = elim (Bool-cases (trim_space id == "")) [
    | inl blank ↦ rw blank tt
    | inr full ↦ rw full (insert_new-QuietRegistry r (trim_space id) f _ h hf)
  ]

  add_missing-QuietRegistry :
      (e : Engine V) (r : AgentStrategyRegistry V) (o : Option (AgentStrategyDescriptor V))
      → QuietRegistry I r
      → Ensures I (Built I) (builtin_factory e.model)
      → Holds (QuietRegistry I) (add_missing e r o)
  add_missing-QuietRegistry e r (some d) h hf = h
  add_missing-QuietRegistry e r none h hf = register-QuietRegistry r _ _ h hf

  complete_registry-QuietRegistry :
      (e : Engine V) (o : Option (AgentStrategyRegistry V))
      → ((r : AgentStrategyRegistry V) → o ≡ some r → QuietRegistry I r)
      → Ensures I (Built I) (builtin_factory e.model)
      → Holds (QuietRegistry I) (complete_registry e o)
  unfolding lookup
  complete_registry-QuietRegistry e none h hf =
      register-QuietRegistry new_agent_strategy_registry _ _ (λ id d found. cc) hf
  complete_registry-QuietRegistry e (some r) h hf = add_missing-QuietRegistry e r _ (h r refl) hf

-- The property reads neither the world nor the events.
pub record Ignores {W : Type 0} (I : Journal W → Type 0) : Type 0 where
  pub world : (j : Journal W) (w : W) → I j → I (record j { world = w })
  pub emitted :
      (j : Journal W) (w : W) (t : EventType)
      → I j
      → I (record j { world = w; emitted = t ∷ j.emitted })

module _ {W : Type 0} (I : Journal W → Type 0) (free : Ignores I) where
  carry-Still : {A : Type 0} (f : Ask W A) → Still I (carry f)
  carry-Still f j h = free.world j _ h

  carry_strategy-Quiet : (s : AgentStrategyPlugin W) → QuietStrategy I (carry_strategy s)
  carry_strategy-Quiet s = record {
    plans = λ c. carry-Still (s.create_plan c);
    acts = λ c. carry-Still (s.next_action c);
    observes = λ c. carry-Still (s.observe c);
  }

  carry_built-Built :
      (r : Result (Option (AgentStrategyPlugin W))) → Holds (Built I) (carry_built r)
  carry_built-Built (ok (some s)) = carry_strategy-Quiet s
  carry_built-Built (ok none) = tt
  carry_built-Built (err e) = tt

  carry_registry-QuietRegistry :
      (entries : List (String × AgentStrategyDescriptor W)) (id : String)
      (d : AgentStrategyDescriptor (Journal W))
      → lookup id (map carry_entry entries) ≡ some d
      → Ensures I (Built I) d.factory
  unfolding lookup
  carry_registry-QuietRegistry [] id d found = cc
  carry_registry-QuietRegistry ((key, d0) ∷ rest) id d found = elim (Bool-cases (key == id)) [
    | inl hit ↦
        let e : (carry_entry (key, d0)).1 ≡ d = ground (arith, found, hit) in
        subst (λ (x : AgentStrategyDescriptor (Journal W)). Ensures I (Built I) x.factory) e
          (record { at = λ j h. (free.world j _ h, carry_built-Built (d0.factory j.world).0) })
    | inr miss ↦ carry_registry-QuietRegistry rest id d (ground (arith, found, miss))
  ]

  wrapped-Still :
      {A B : Type 0} (m : Effect W A) (f : A → B) → Still I ((carry m >>= λ a. pure (f a)))
  wrapped-Still m f j h =
      ((Ensures-bind {I = I} {Q = Any} {R = Any} (carry m) _ (Ensures-Still _ (carry-Still m))
          λ a _. Ensures-pure _ tt).at
        j h).0

  builtin_factory-Built :
      (m : Option (Model W)) → Ensures I (Built I) (builtin_factory (map_option carry_model m))
  unfolding new_builtin_model_agent_strategy
  builtin_factory-Built none = Ensures-raise _
  builtin_factory-Built (some m) = Ensures-pure _ (record {
    plans = λ c. wrapped-Still (m.create_plan c.task c.session c.memory) _;
    acts = λ c.
        wrapped-Still (m.next_action c.task c.session c.plan c.steps c.memory c.allowed_tools) _;
    observes = λ c. wrapped-Still (m.observe c.task c.session c.plan c.action c.tool_result) _;
  })

  carried-QuietRegistry :
      (o : Option (AgentStrategyRegistry W)) (r : AgentStrategyRegistry (Journal W))
      → map_option carry_registry o ≡ some r
      → QuietRegistry I r
  carried-QuietRegistry none r e = cc
  carried-QuietRegistry (some r0) r e =
      let same : carry_registry r0 ≡ r = ground (arith, e) in
      subst (QuietRegistry I) same (carry_registry-QuietRegistry r0.entries)

  resolve_agent_strategy-Quiet :
      (e : Engine W) → Ensures I (QuietStrategy I) (resolve_agent_strategy (journaled e))
  unfolding resolve_agent_strategy
  resolve_agent_strategy-Quiet e =
      Ensures-bind (lift (complete_registry (journaled e) (journaled e).agent_strategies)) _
        (Ensures-lift _ (
          complete_registry-QuietRegistry I (journaled e) _
            (carried-QuietRegistry e.agent_strategies) (builtin_factory-Built e.model)))
        λ r quiet. resolve-QuietStrategy I r e.agent_strategy_id quiet

  clock-Still :
      (o : Option (Ask W Time)) (f : Ask W Time) → Still I (clock_or (map_option carry o) (carry f))
  clock-Still none f = carry-Still f
  clock-Still (some clock) f = carry-Still clock

  send-Quiet :
      (o : Option (StreamingEvent → Ask W (Option Err))) (event : StreamingEvent)
      → Ensures I Any (send (map_option note_channel o) event)
  send-Quiet none event = Ensures-pure tt tt
  send-Quiet (some channel) event = Ensures-run _ (λ j h. free.emitted j _ event.type h)

  pub journaled_ports-Quiet :
      {Permits : ToolCall → Type 0} (p : Ports W)
      → ((call : ToolCall) → Permits call → Still I ((note_tools p.tools).execute call))
      → Quiet I Permits (journaled_ports p)
  unfolding now emit_event
  journaled_ports-Quiet p executes = record {
    resolve = resolve_agent_strategy-Quiet p.engine;
    recall = λ q. carry-Still (p.memory.recall q);
    remember = λ id o. carry-Still (p.memory.remember id o);
    save_plan = λ plan. carry-Still (p.sessions.save_plan plan);
    execute = executes;
    verify = λ t s plan l o. carry-Still (p.verifier.verify t s plan l o);
    provider = carry-Still p.engine.provider_provenance;
    verifier = carry-Still p.verifier.verifier_provenance;
    context = carry-Still p.engine.environment.context;
    time_now = carry-Still p.engine.environment.time_now;
    now = clock-Still p.engine.clock p.engine.environment.time_now;
    emits = λ event. send-Quiet p.engine.event_channel event;
  }
