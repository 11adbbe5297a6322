-- ===== src/Memory/Policy/Samples.antt =====
-- Entries that are taken and refused.
use zheng_harness.Base.{none, some, ◌≡◌, ◌↔◌, refl}
use zheng_harness.Base.Int.{pos}
use zheng_harness.Base.Text.{trim_space}
use zheng_harness.Domain.Types.{MemoryEntry, session, global, fact}
use zheng_harness.Domain.Types
use zheng_harness.Memory.Policy.{
  empty_key, invalid_scope, confidence_range, validate_entry, validate_memory_entry,
}
use zheng_harness.Memory.Policy.Accepted.{IsAcceptable, validators_agree}

abbrev note : MemoryEntry
note = record {
  id = "";
  session_id = "s1";
  project_key = "";
  scope = session;
  type = fact;
  key = "style";
  content = "tabs";
  source = "user";
  confidence = pos 100;
  provenance = "";
  created_at = 0;
  updated_at = 0;
  expires_at = none;
}

taken : (validate_entry note ≡ none) × (validate_memory_entry note ≡ none)
unfolding validate_entry validate_memory_entry trim_space
taken = (refl, refl)

too_sure : validate_entry (record note { confidence = pos 101 }) ≡ some confidence_range
unfolding validate_entry trim_space
too_sure = refl

-- The checks come in a different order.
first_error :
    (validate_entry (record note { scope = Types.MemoryScope.other "team"; key = "" })
      ≡ some (invalid_scope (Types.MemoryScope.other "team")))
    × (validate_memory_entry (record note { scope = Types.MemoryScope.other "team"; key = "" })
        ≡ some empty_key)
unfolding validate_entry validate_memory_entry trim_space
first_error = (refl, refl)

validators_agree_example :
    ((validate_entry note ≡ none) ↔ IsAcceptable note)
    × ((validate_memory_entry note ≡ none) ↔ IsAcceptable note)
validators_agree_example = validators_agree note
