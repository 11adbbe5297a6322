-- ===== src/Runtime/AgentStrategy/Samples.antt =====
-- A registry with one strategy, over a world that counts.
use zheng_harness.Base.Text.{trim_space}
use zheng_harness.Base.{ℕ, some, [], ◌∷◌, ◌≡◌, refl}
use zheng_harness.Base.Maps.{lookup}
use zheng_harness.Domain.Types.{failure, agent_strategy, external}
use zheng_harness.Domain.Effect.{ok, err}
use zheng_harness.Domain.Effect.Ensures.{Holds}
use zheng_harness.Runtime.AgentStrategy.{
  AgentStrategyPlugin, AgentStrategyRegistry, AgentStrategyFactory, new_agent_strategy_registry,
  register, resolve,
}
use zheng_harness.Runtime.AgentStrategy.Registered.{
  IsRegistry, Trusted, selected, register-IsRegistry, resolve-Trusted,
}

abbrev careful : AgentStrategyPlugin ℕ
careful = record {
  metadata = record {
    family = agent_strategy;
    logical_id = "careful";
    display_name = "Careful";
    contract_version = "1.0.0";
    implementation_version = "";
    execution_mode = external;
    source_path = "";
  };
  create_plan = λ c w. (err (failure "no plan"), w);
  next_action = λ c w. (err (failure "no action"), w);
  observe = λ c w. (err (failure "no observation"), w);
}

abbrev factory : AgentStrategyFactory ℕ
factory = λ w. (ok (some careful), w)

abbrev empty_registry : AgentStrategyRegistry ℕ
empty_registry = new_agent_strategy_registry

empty_registry-IsRegistry : IsRegistry empty_registry
unfolding lookup
empty_registry-IsRegistry = record { distinct = tt; keyed = λ id d found. cc }

register-IsRegistry_example : Holds IsRegistry (register empty_registry " careful" (some factory))
register-IsRegistry_example =
    register-IsRegistry empty_registry " careful" (some factory) empty_registry-IsRegistry

abbrev filled : AgentStrategyRegistry ℕ
filled = record empty_registry {
  entries = ("careful", record { id = "careful"; factory = factory }) ∷ [];
}

registered : register empty_registry " careful" (some factory) ≡ ok filled
unfolding register trim_space
registered = refl

filled-IsRegistry : IsRegistry filled
unfolding register trim_space
filled-IsRegistry =
    register-IsRegistry empty_registry " careful" (some factory) empty_registry-IsRegistry

resolve-Trusted_example :
    Holds (Trusted (selected filled "careful ")) (resolve filled "careful " 0).0
resolve-Trusted_example = resolve-Trusted filled "careful " 0 filled-IsRegistry
