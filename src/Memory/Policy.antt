-- ===== src/Memory/Policy.antt =====
-- internal/memory/policy.go and validateMemoryEntry of internal/store/memory_store.go: the two checks of
-- an entry that is to be written. They make the same tests in a different order, and each error is a
-- constructor for both.
pub mod Accepted
mod Samples
use zheng_harness.Base.{
  String, Bool, true, false, not, ◌&&◌, ◌||◌, Option, none, some, ltb, if◌then◌else◌,
}
use zheng_harness.Base.Int.{ℤ, pos, negsuc}
use zheng_harness.Base.Text.{trim_space}
use zheng_harness.Domain.Types.{
  MemoryEntry, MemoryScope, session, project, global, MemoryType, preference, fact, summary,
}
use zheng_harness.Base.Text.{is_blank}

pub data EntryError : Type 0 where
  invalid_scope : MemoryScope → EntryError
  invalid_type : MemoryType → EntryError
  empty_key empty_content empty_source confidence_range missing_session global_write : EntryError

abbrev pub is_valid_scope : MemoryScope → Bool
is_valid_scope (MemoryScope.other s) = false
is_valid_scope _ = true

abbrev pub is_valid_type : MemoryType → Bool
is_valid_type (MemoryType.other s) = false
is_valid_type _ = true

-- `confidence < 0 || confidence > 100`
abbrev pub is_out_of_range : ℤ → Bool
is_out_of_range (pos n) = ltb 100 n
is_out_of_range (negsuc n) = true

abbrev pub is_session : MemoryScope → Bool
is_session session = true
is_session _ = false

abbrev pub is_global : MemoryScope → Bool
is_global global = true
is_global _ = false

unfoldable pub validate_entry : MemoryEntry → Option EntryError
validate_entry e =
    if not (is_valid_scope e.scope)
    then some (invalid_scope e.scope)
    else if not (is_valid_type e.type)
    then some (invalid_type e.type)
    else if is_blank e.key
    then some empty_key
    else if is_blank e.content
    then some empty_content
    else if is_blank e.source
    then some empty_source
    else if is_out_of_range e.confidence
    then some confidence_range
    else if is_session e.scope && is_blank e.session_id
    then some missing_session
    else if is_global e.scope
    then some global_write
    else none

-- validateMemoryEntry of the store.
unfoldable pub validate_memory_entry : MemoryEntry → Option EntryError
validate_memory_entry e =
    if is_blank e.key
    then some empty_key
    else if is_blank e.content
    then some empty_content
    else if is_blank e.source
    then some empty_source
    else if is_out_of_range e.confidence
    then some confidence_range
    else if not (is_valid_scope e.scope)
    then some (invalid_scope e.scope)
    else if not (is_valid_type e.type)
    then some (invalid_type e.type)
    else if is_session e.scope && is_blank e.session_id
    then some missing_session
    else if is_global e.scope
    then some global_write
    else none
