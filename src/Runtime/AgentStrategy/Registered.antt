-- ===== src/Runtime/AgentStrategy/Registered.antt =====
-- What a registry of strategies holds, and what it resolves an id to.
use zheng_harness.Base.{
  String, false, Option, none, some, ◌==◌, ◌≡◌, refl, sym, ap, ◌∙◌, arith, if◌then◌else◌,
  Bool-cases, Option-cases, inl, inr, str_eq_iff,
}
use zheng_harness.Base.Maps.{lookup, KeysDistinct}
use zheng_harness.Base.Text.{trim_space}
use zheng_harness.Base.Text.Trim.{trim_space_again}
use zheng_harness.Domain.Types.{PluginMetadata}
use zheng_harness.Domain.Effect.{Result, ok, err}
use zheng_harness.Domain.Effect.Ensures.{
  Ensures, Holds, Any, Anywhere, Ensures-Any, Ensures-bind, Ensures-lift, Ensures-raise,
}
use zheng_harness.Domain.PluginMetadata.{family_text, normalize, validate}
use zheng_harness.Runtime.AgentStrategy.{
  AgentStrategyPlugin, AgentStrategyFactory, AgentStrategyDescriptor, AgentStrategyRegistry,
  agent_strategy_plugin_contract_version, register, register_factory, insert_new, resolve, check_id,
  check_strategy, build_strategy, validate_agent_strategy_metadata,
}

-- Each id stands once, and the descriptor under it has that id, trimmed and not empty.
pub record IsRegistry {W : Type 0} (r : AgentStrategyRegistry W) : Type 0 where
  pub distinct : KeysDistinct r.entries
  pub keyed :
      (id : String) (d : AgentStrategyDescriptor W)
      → lookup id r.entries ≡ some d
      → (d.id ≡ id) × (trim_space id ≡ id) × ((id == "") ≡ false)

module _ {W : Type 0} where
  insert_new-IsRegistry :
      (r : AgentStrategyRegistry W) (id : String) (f : AgentStrategyFactory W)
      (o : Option (AgentStrategyDescriptor W))
      → lookup id r.entries ≡ o
      → trim_space id ≡ id
      → (id == "") ≡ false
      → IsRegistry r
      → Holds IsRegistry (insert_new r id f o)
  unfolding lookup
  insert_new-IsRegistry r id f (some d) e trimmed full h = tt
  insert_new-IsRegistry r id f none e trimmed full h = record {
    distinct = (e, h.distinct);
    keyed = λ key d found. elim (Bool-cases (id == key)) [
      | inl hit ↦
          let same = (str_eq_iff id key).0 hit in
          let it : record { id = id; factory = f } ≡ d = ground (arith, found, hit) in
          (
            ap (λ (x : AgentStrategyDescriptor W). x.id) (sym it) ∙ same,
            rw (← same) trimmed,
            rw (← same) full,
          )
      | inr miss ↦ h.keyed key d (ground (arith, found, miss))
    ];
  }

  register_factory-IsRegistry :
      (r : AgentStrategyRegistry W) (id : String) (o : Option (AgentStrategyFactory W))
      → trim_space id ≡ id
      → (id == "") ≡ false
      → IsRegistry r
      → Holds IsRegistry (register_factory r id o)
  register_factory-IsRegistry r id none trimmed full h = tt
  register_factory-IsRegistry r id (some f) trimmed full h =
      insert_new-IsRegistry r id f (lookup id r.entries) refl trimmed full h

  -- Register keeps the registry so, whatever id and factory it is given.
  pub register-IsRegistry :
      (r : AgentStrategyRegistry W) (id : String) (o : Option (AgentStrategyFactory W))
      → IsRegistry r
      → Holds IsRegistry (register r id o)
  unfolding register
  register-IsRegistry r id o h = elim (Bool-cases (trim_space id == "")) [
    | inl blank ↦ rw blank tt
    | inr full ↦
        rw full (register_factory-IsRegistry r (trim_space id) o (trim_space_again id) full h)
  ]

-- The strategy has valid metadata of the family and the contract version that the host requires, and
-- names itself as the host does.
pub record IsTrusted (id : String) (m : PluginMetadata) : Type 0 where
  pub valid : validate m ≡ none
  pub family : family_text m.family ≡ "agent_strategy"
  pub version : m.contract_version ≡ agent_strategy_plugin_contract_version
  pub named : m.logical_id ≡ id

validate_agent_strategy_metadata_sound :
    (m : PluginMetadata)
    → validate_agent_strategy_metadata m ≡ ok tt
    → (validate m ≡ none)
      × (family_text m.family ≡ "agent_strategy")
      × (m.contract_version ≡ agent_strategy_plugin_contract_version)
unfolding validate_agent_strategy_metadata
validate_agent_strategy_metadata_sound m h = elim (Option-cases (validate m)) [
  | inr (why, bad) ↦ ground (arith, h, bad)
  | inl good ↦ (
    good,
    ground (arith, h, good, str_eq_iff (family_text m.family) "agent_strategy"),
    ground (arith, h, good, str_eq_iff m.contract_version agent_strategy_plugin_contract_version),
  )
]

module _ {W : Type 0} where
  abbrev pub Trusted : String → AgentStrategyPlugin W → Type 0
  Trusted id s = IsTrusted id (normalize s.metadata)

  check_id-Trusted :
      (id : String) (s : AgentStrategyPlugin W) (r : Result (Unit {0}))
      → validate_agent_strategy_metadata (normalize s.metadata) ≡ r
      → Holds (Trusted id) (check_id id s r)
  check_id-Trusted id s (err e) h = tt
  check_id-Trusted id s (ok u) h =
      let checked = validate_agent_strategy_metadata_sound (normalize s.metadata) h in
      elim (Bool-cases ((normalize s.metadata).logical_id == id)) [
        | inl same ↦ rw same (record {
          valid = checked.0;
          family = checked.1;
          version = checked.2;
          named = (str_eq_iff (normalize s.metadata).logical_id id).0 same;
        })
        | inr other ↦ rw other tt
      ]

  check_strategy-Trusted :
      (id : String) (o : Option (AgentStrategyPlugin W)) → Holds (Trusted id) (check_strategy id o)
  check_strategy-Trusted id none = tt
  check_strategy-Trusted id (some s) = check_id-Trusted id s _ refl

-- The id that Resolve looks up.
abbrev pub selected : {W : Type 0} → AgentStrategyRegistry W → String → String
selected r id = if trim_space id == "" then r.default_id else trim_space id

build_strategy-Trusted :
    {W : Type 0} (id : String) (o : Option (AgentStrategyDescriptor W))
    → ((d : AgentStrategyDescriptor W) → o ≡ some d → d.id ≡ id)
    → Ensures Anywhere (Trusted id) (build_strategy o)
build_strategy-Trusted id none h = Ensures-raise _
build_strategy-Trusted id (some d) h =
    Ensures-bind {Q = Any} d.factory _ (Ensures-Any d.factory)
      λ o _. Ensures-lift _ (rw (← h d refl) (check_strategy-Trusted d.id o))

-- A strategy that Resolve returns, whatever its factory is, has been checked: its metadata is valid,
-- of the family and contract version that the host requires, and its logical id is the selected id.
pub resolve-Trusted :
    {W : Type 0} (r : AgentStrategyRegistry W) (id : String) (w : W)
    → IsRegistry r
    → Holds (Trusted (selected r id)) (resolve r id w).0
unfolding resolve
resolve-Trusted r id w h =
    ((build_strategy-Trusted (selected r id) (lookup (selected r id) r.entries)
        λ d found. (h.keyed (selected r id) d found).0).at
      w tt).1
