-- ===== src/Memory/Store.antt =====
-- internal/store/memory_store.go: Remember and Write. The database, the clock, and the printing of
-- times and numbers are the environment's; `R` is the type of what ExecContext returns. UTC() leaves an
-- instant what it is. A store that is nil or has no database is not modelled.
pub mod Rows
mod Samples
use zheng_harness.Base.{
  ℕ, String, Bool, true, false, not, ◌&&◌, Option, none, some, ◌==◌, if◌then◌else◌,
}
use zheng_harness.Base.Int.{ℤ, pos}
use zheng_harness.Base.Text.{trim_space, is_blank}
use zheng_harness.Domain.Effect.{Result, ok, err}
use zheng_harness.Domain.Types.{
  Err, Time, MemoryEntry, MemoryScope, session, MemoryType, summary, Observation, ToolResult,
}
use zheng_harness.Memory.Policy.{EntryError, validate_memory_entry}
use Prim.Native.String.{◌++◌ as ◌+++◌}

-- The arguments of the INSERT statement; `none` is nil.
pub record MemoryRow : Type 0 where
  pub session_id : Option String
  pub scope : MemoryScope
  pub type : MemoryType
  pub key : String
  pub value : String
  pub source : String
  pub confidence : ℤ
  pub provenance : Option String
  pub created_at : Time
  pub updated_at : Time

pub record Sql (W R : Type 0) : Type 0 where
  pub exec : MemoryRow → W → Result R × W
  pub last_insert_id : R → Result ℕ
  pub now : W → Time × W
  pub is_zero : Time → Bool
  pub format : Time → String
  pub decimal : ℕ → String

-- The errors that Remember and Write return, by what they wrap.
pub data StoreError : Type 0 where
  invalid_observation : EntryError → StoreError
  persist_failed : Err → StoreError
  invalid_entry : EntryError → StoreError
  write_failed : String → Err → StoreError
  id_unread : Err → StoreError

-- What Write returns.
pub data Written : Type 0 where
  written : MemoryEntry → Written
  refused : StoreError → Written

-- nullableSessionID and nullableString.
unfoldable pub nullable : String → Option String
nullable value = if is_blank value then none else some (trim_space value)

abbrev pub row_of : MemoryEntry → MemoryRow
row_of e = record {
  session_id = nullable e.session_id;
  scope = e.scope;
  type = e.type;
  key = e.key;
  value = e.content;
  source = e.source;
  confidence = e.confidence;
  provenance = nullable e.provenance;
  created_at = e.created_at;
  updated_at = e.updated_at;
}

abbrev observed_value : String → Option ToolResult → String
observed_value text none = text
observed_value text (some t) = if not (t.output == "") then t.output else text

abbrev observed_source : Option ToolResult → String
observed_source none = "runtime"
observed_source (some t) = if not (t.tool_name == "") then "tool:" +++ t.tool_name else "runtime"

abbrev has_no_result : Option ToolResult → Bool
has_no_result none = true
has_no_result (some t) = false

module _ {W R : Type 0} (sql : Sql W R) where
  abbrev pub observed_entry : String → Observation → Time → MemoryEntry
  observed_entry session_id o time = record {
    id = "";
    session_id = session_id;
    project_key = "";
    scope = session;
    type = summary;
    key = "observation-" +++ sql.format time;
    content = observed_value o.summary o.tool_result;
    source = observed_source o.tool_result;
    confidence = pos 50;
    provenance = "runtime.Remember";
    created_at = time;
    updated_at = time;
    expires_at = none;
  }

  abbrev persisted : Result R × W → Option StoreError × W
  persisted (ok r, w) = (none, w)
  persisted (err e, w) = (some (persist_failed e), w)

  abbrev persist : MemoryEntry → Option EntryError → W → Option StoreError × W
  persist entry (some e) w = (some (invalid_observation e), w)
  persist entry none w = persisted (sql.exec (row_of entry) w)

  unfoldable pub remember : String → Observation → W → Option StoreError × W
  unfolding validate_memory_entry nullable
  remember session_id o w =
      if is_blank o.summary && has_no_result o.tool_result
      then (none, w)
      else let (time, w') = sql.now w in
        let entry = observed_entry session_id o time in
        persist entry (validate_memory_entry entry) w'

  abbrev stamped : MemoryEntry → Time → MemoryEntry
  stamped e time =
      let created = if sql.is_zero e.created_at then time else e.created_at in
      record e {
        created_at = created;
        updated_at = if sql.is_zero e.updated_at then created else e.updated_at;
      }

  abbrev identified : MemoryEntry → Result ℕ → Written
  identified e (ok id) = written (record e { id = sql.decimal id })
  identified e (err why) = refused (id_unread why)

  abbrev inserted : MemoryEntry → Result R × W → Written × W
  inserted e (ok r, w) = (identified e (sql.last_insert_id r), w)
  inserted e (err why, w) = (refused (write_failed e.key why), w)

  abbrev insert : MemoryEntry → Option EntryError → W → Written × W
  insert e (some why) w = (refused (invalid_entry why), w)
  insert e none w =
      let (time, w') = sql.now w in
      inserted (stamped e time) (sql.exec (row_of (stamped e time)) w')

  -- Write.
  unfoldable pub write : MemoryEntry → W → Written × W
  unfolding validate_memory_entry nullable
  write e w = insert e (validate_memory_entry e) w
