-- ===== src/Runtime/Engine/Permitted.antt =====
-- The tools that a run executes are among those that its host offers.
use zheng_harness.Base.{
  String, true, Option, none, some, List, [], ◌∷◌, ◌==◌, ◌≡◌, ◌⊎◌, refl, All, inl, inr, arith,
  Bool-cases, ap, ◌∙◌, str_eq_iff,
}
use zheng_harness.Domain.Types.{Task, Session, Plan, Step, ToolCall, ToolInfo}
use zheng_harness.Domain.Effect.{Ask, ask, ◌>>=◌}
use zheng_harness.Domain.Effect.Ensures.{Ensures, Any, Holds-Any}
use zheng_harness.Runtime.TaskRegistry.{ResolvedTaskProtocol}
use zheng_harness.Runtime.AgentStrategy.{is_allowed_tool, named}
use zheng_harness.Runtime.Engine.{
  Engine, Ports, ToolExecutor, MemoryStore, SessionStore, Verifier, collect, has_planner,
  required_dependencies, listed, list_tool_info,
}
use zheng_harness.Runtime.Engine.Iteration.{execute_iteration}
use zheng_harness.Runtime.Engine.Loop.{run_ports, run_with, run_engine}
use zheng_harness.Runtime.Engine.Journal.{
  Journal, Executed, journaled, journaled_ports, map_option, note_tools, note_memory, note_sessions,
  note_verifier, note_listing, blank,
}
use zheng_harness.Runtime.Engine.Rules.{Still, Quiet}
use zheng_harness.Runtime.Engine.Rules.Act.{act_on-Quiet}
use zheng_harness.Runtime.Engine.Rules.Recorded.{journaled_ports-Quiet}
use zheng_harness.Runtime.Engine.Rules.Whole.{run_ports-Kept}

-- A tool of the list has the name.
abbrev pub HasTool : String → List ToolInfo → Type 0
HasTool name [] = ⊥
HasTool name (t ∷ ts) = (t.name ≡ name) ⊎ HasTool name ts

-- The tool was in the list that the host gave before, or that list was empty.
abbrev pub WasOffered : Executed → Type 0
WasOffered x = (x.offered ≡ []) ⊎ HasTool x.call.name x.offered

named-HasTool : (name : String) (ts : List ToolInfo) → named name ts ≡ true → HasTool name ts
named-HasTool name [] h = cc h
named-HasTool name (t ∷ ts) h = elim (Bool-cases (t.name == name)) [
  | inl same ↦ inl ((str_eq_iff t.name name).0 same)
  | inr other ↦ inr (named-HasTool name ts (ground (arith, h, other)))
]

is_allowed_tool-HasTool :
    (name : String) (ts : List ToolInfo)
    → is_allowed_tool name ts ≡ true
    → (ts ≡ []) ⊎ HasTool name ts
unfolding is_allowed_tool
is_allowed_tool-HasTool name [] h = inl refl
is_allowed_tool-HasTool name (t ∷ ts) h = inr (named-HasTool name (t ∷ ts) h)

abbrev pub Lawful : {W : Type 0} → Journal W → Type 0
Lawful j = All WasOffered j.executed

-- The list that was given last.
abbrev Offered : {W : Type 0} → List ToolInfo → Journal W → Type 0
Offered tools j = (j.offered ≡ tools) × Lawful j

abbrev Never : ToolCall → Type 0
Never call = ⊥

abbrev Among : List ToolInfo → ToolCall → Type 0
Among tools call = is_allowed_tool call.name tools ≡ true

module _ {W : Type 0} (p : Ports W) where
  Lawful-Quiet : Quiet Lawful Never (journaled_ports p)
  Lawful-Quiet =
      journaled_ports-Quiet Lawful (record { world = λ j w h. h; emitted = λ j w t h. h }) p
        (λ call never. absurd never)

  Offered-Quiet : (tools : List ToolInfo) → Quiet (Offered tools) (Among tools) (journaled_ports p)
  Offered-Quiet tools =
      journaled_ports-Quiet (Offered tools) (record { world = λ j w h. h; emitted = λ j w t h. h })
        p
        (λ call among j h. (
          h.0,
          (
            is_allowed_tool-HasTool call.name j.offered
                (ap (λ l. is_allowed_tool call.name l) h.0 ∙ among),
            h.1,
          ),
        ))

listed-Offered :
    {W : Type 0} (o : Option (Ask W (List ToolInfo))) (j : Journal W)
    → Lawful j
    → Offered (listed (note_listing o) j).0 (listed (note_listing o) j).1
listed-Offered none j h = (refl, h)
listed-Offered (some list) j h = (refl, h)

module _ {W : Type 0} (p : Ports W) where
  execute_iteration-Lawful :
      (protocol : ResolvedTaskProtocol) (session : Session) (plan : Plan) (steps : List Step)
      → Ensures Lawful Any (execute_iteration (journaled_ports p) protocol session plan steps)
  unfolding execute_iteration ◌>>=◌ ask list_tool_info
  execute_iteration-Lawful protocol session plan steps = record {
    at = λ j h.
        let given = listed (note_listing p.tools.list_tool_info) j in
        let acted =
          (act_on-Quiet (journaled_ports p) (Offered-Quiet p given.0) protocol session plan steps
              given.0 (λ call among. among)).at
            given.1 (listed-Offered p.tools.list_tool_info j h) in
        (acted.0.1, Holds-Any _);
  }

  run_ports-Lawful : (task : Task) → Still Lawful (run_ports (journaled_ports p) task)
  run_ports-Lawful =
      run_ports-Kept (journaled_ports p) (Lawful-Quiet p) (λ session j h. h) (λ id step j h. h)
        execute_iteration-Lawful

collected-Lawful :
    {W : Type 0} (e : Engine W) (task : Task) (j : Journal W) (t : Option (ToolExecutor W))
    (m : Option (MemoryStore W)) (s : Option (SessionStore W)) (v : Option (Verifier W))
    → Lawful j
    → Lawful
        (run_with
          (collect
            (journaled e)
            (map_option note_tools t)
            (map_option note_memory m)
            (map_option note_sessions s)
            (map_option note_verifier v))
          task
          j).1
collected-Lawful e task j none m s v h = h
collected-Lawful e task j (some t) none s v h = h
collected-Lawful e task j (some t) (some m) none v h = h
collected-Lawful e task j (some t) (some m) (some s) none h = h
collected-Lawful e task j (some t) (some m) (some s) (some v) h =
    elim (Bool-cases (has_planner (journaled e).model (journaled e).agent_strategies)) [
      | inl planned ↦ rw planned (
          run_ports-Lawful
            (record { engine = e; tools = t; memory = m; sessions = s; verifier = v }) task j h)
      | inr unplanned ↦ rw unplanned h
    ]

-- Whatever the strategy or the model asks for, every tool that a run executes has the name of a tool in
-- the list that the host gave last before, unless that list was empty, as it is where the executor is
-- none that lists its tools.
pub run_engine-Lawful :
    {W : Type 0} (e : Engine W) (task : Task) (w : W)
    → Lawful (run_engine (journaled e) task (blank w)).1
unfolding run_engine required_dependencies
run_engine-Lawful e task w =
    collected-Lawful e task (blank w) e.tools e.memory e.sessions e.verifier tt
