-- ===== src/Runtime/Engine/Recall.antt =====
-- internal/runtime/runtime.go: recallMemory and tokenizeKeywords.
pub mod Chosen
use zheng_harness.Base.{
  ℕ, zero, suc, ◌+◌, String, Bool, true, false, ◌||◌, List, [], ◌∷◌, ◌++◌, ◌==◌, ltb, leb, contains,
  if◌then◌else◌, length, map,
}
use zheng_harness.Base.Int.{pos}
use zheng_harness.Base.Text.Words.{to_lower, fields, trim_cutset, contains_text, join}
use zheng_harness.Domain.Types.{
  Task, Session, MemoryEntry, RecallQuery, MemoryScope, MemoryType, fact, summary,
}
use zheng_harness.Domain.Effect.{Result, ok, err, Effect, Ask, pure, ◌>>=◌}
use zheng_harness.Runtime.Engine.{Ports}
use Prim.Native.String.{len}

abbrev pub recall_limit : ℕ
recall_limit = 10

abbrev query : Session → MemoryScope → MemoryType → RecallQuery
query session scope type = record {
  session_id = session.id;
  scope = scope;
  type = type;
  key = "";
  source = "";
  limit = pos recall_limit;
  prefix = "";
}

abbrev pub queries : Session → List RecallQuery
queries session =
    query session MemoryScope.session fact
    ∷ query session MemoryScope.session summary
    ∷ query session MemoryScope.project fact
    ∷ query session MemoryScope.project summary
    ∷ []

abbrev pub entry_key : MemoryEntry → String
entry_key e = join (e.id ∷ e.session_id ∷ e.key ∷ e.content ∷ e.source ∷ e.provenance ∷ []) "|"

-- `combined` with the entries that it does not hold yet; the set `seen` holds the keys of `combined`.
unfoldable pub add_new : List MemoryEntry → List MemoryEntry → List MemoryEntry
add_new combined [] = combined
add_new combined (e ∷ rest) =
    add_new
      (if contains (map entry_key combined) (entry_key e) then combined else combined ++ e ∷ [])
      rest

-- The loop over the queries; the first error ends it.
unfoldable pub recall_each :
    {W : Type 0} → Ports W → List RecallQuery → List MemoryEntry → Effect W (List MemoryEntry)
unfolding add_new
recall_each p [] combined = pure combined
recall_each p (q ∷ rest) combined = do
  entries ← p.memory.recall q
  recall_each p rest (add_new combined entries)

abbrev cutset : String
cutset = " .,;:!?()[]{}\"'`"

-- `len` counts the bytes of the UTF-8, as in Go.
unfoldable pub add_keywords : List String → List String → List String
unfolding trim_cutset
add_keywords keywords [] = keywords
add_keywords keywords (field ∷ rest) =
    let trimmed = trim_cutset field cutset in
    add_keywords
      (if ltb (len trimmed) 3 || contains keywords trimmed
        then keywords
        else keywords ++ trimmed ∷ [])
      rest

unfoldable pub tokenize_keywords : String → List String
unfolding fields to_lower add_keywords
tokenize_keywords text = add_keywords [] (fields (to_lower text))

abbrev haystack : MemoryEntry → String
haystack e = to_lower (join (e.key ∷ e.content ∷ e.source ∷ e.provenance ∷ []) " ")

abbrev hits : String → List String → ℕ
hits text [] = 0
hits text (k ∷ ks) = (if contains_text text k then 1 else 0) + hits text ks

unfoldable pub score : List String → MemoryEntry → ℕ
score keywords e = hits (haystack e) keywords

-- `sort.SliceStable` by falling score.
unfoldable pub insert_scored : (MemoryEntry → ℕ) → MemoryEntry → List MemoryEntry → List MemoryEntry
insert_scored f e [] = e ∷ []
insert_scored f e (x ∷ xs) =
    let rest = insert_scored f e xs in if ltb (f e) (f x) then x ∷ rest else e ∷ x ∷ xs

unfoldable pub sort_scored : (MemoryEntry → ℕ) → List MemoryEntry → List MemoryEntry
unfolding insert_scored
sort_scored f [] = []
sort_scored f (e ∷ es) = insert_scored f e (sort_scored f es)

abbrev pub take : {A : Type 0} → ℕ → List A → List A
take zero xs = []
take (suc n) [] = []
take (suc n) (x ∷ xs) = x ∷ take n xs

-- The part of recallMemory after the queries.
unfoldable pub rank : List String → List MemoryEntry → List MemoryEntry
unfolding sort_scored score
rank [] combined = take recall_limit combined
rank (k ∷ ks) combined = take recall_limit (sort_scored (score (k ∷ ks)) combined)

abbrev pub ranked : {W : Type 0} → Task → Result (List MemoryEntry) × W → List MemoryEntry × W
ranked task (err e, w) = ([], w)
ranked task (ok combined, w) = (rank (tokenize_keywords task.description) combined, w)

unfoldable pub recall_memory : {W : Type 0} → Ports W → Task → Session → Ask W (List MemoryEntry)
unfolding recall_each tokenize_keywords rank
recall_memory p task session w = ranked task (recall_each p (queries session) [] w)
