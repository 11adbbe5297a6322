-- ===== src/Memory/Store/Samples.antt =====
-- An observation that is remembered, an entry that is written, and one that is refused.
use zheng_harness.Base.{ℕ, suc, none, some, List, [], ◌∷◌, ◌≡◌, refl, All, map, ◌=ℕ◌}
use zheng_harness.Base.Int.{pos}
use zheng_harness.Base.Text.{trim_space}
use zheng_harness.Domain.Effect.{ok}
use zheng_harness.Domain.Types.{MemoryEntry, project, global, fact, Observation}
use zheng_harness.Memory.Policy.{validate_memory_entry}
use zheng_harness.Memory.Store.{Sql, MemoryRow, nullable}
use zheng_harness.Memory.Store.Rows.{
  Call, remembers, writes, run_calls, logged, IsSound, run_calls-IsSound,
}

-- The world counts the rows.
abbrev counting : Sql ℕ ℕ
counting = record {
  exec = λ row w. (ok w, suc w);
  last_insert_id = λ r. ok r;
  now = λ w. (7, w);
  is_zero = λ t. t =ℕ 0;
  format = λ t. "t";
  decimal = λ n. "n";
}

abbrev noted : Observation
noted = record { summary = "tests pass"; tool_result = none; final_response = ""; evidence = none }

abbrev habit : MemoryEntry
habit = record {
  id = "";
  session_id = "";
  project_key = "";
  scope = project;
  type = fact;
  key = "style";
  content = "tabs";
  source = "user";
  confidence = pos 90;
  provenance = " ";
  created_at = 0;
  updated_at = 0;
  expires_at = none;
}

abbrev calls : List Call
calls = remembers "s1" noted ∷ writes habit ∷ writes (record habit { scope = global }) ∷ []

abbrev rows : List MemoryRow
rows = (run_calls (logged counting) calls (0, [])).1

two_rows :
    (map (λ r. r.value) rows ≡ "tabs" ∷ "tests pass" ∷ [])
    × (map (λ r. r.session_id) rows ≡ none ∷ some "s1" ∷ [])
unfolding run_calls validate_memory_entry nullable trim_space
two_rows = (refl, refl)

run_calls-IsSound_example : All IsSound (run_calls (logged counting) calls (0, [])).1
run_calls-IsSound_example = run_calls-IsSound counting calls 0
