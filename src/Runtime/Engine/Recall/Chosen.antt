-- ===== src/Runtime/Engine/Recall/Chosen.antt =====
-- What recallMemory returns, whatever the store answers.
use zheng_harness.Base.{
  ℕ, zero, suc, ◌+◌, ◌≤◌, String, false, List, [], ◌∷◌, ◌++◌, ◌==◌, ◌≡◌, refl, ltb, contains,
  if◌then◌else◌, length, map, count, arith, Bool-cases, inl, inr, str_eq_iff,
}
use zheng_harness.Base.Text.Words.{join}
use zheng_harness.Domain.Types.{Task, Session, MemoryEntry, RecallQuery}
use zheng_harness.Domain.Effect.{Result, ok, err}
use zheng_harness.Domain.Effect.Ensures.{
  Ensures, Holds, Any, Anywhere, Ensures-Any, Ensures-pure, Ensures-bind,
}
use zheng_harness.Runtime.Engine.{Ports}
use zheng_harness.Runtime.Engine.Recall.{
  recall_limit, entry_key, add_new, recall_each, queries, recall_memory, ranked, rank, take,
  insert_scored, sort_scored, score, tokenize_keywords,
}

-- The identity, session, key, content, source and provenance of an entry, in one text.
abbrev pub fields_of : MemoryEntry → String
fields_of e = join (e.id ∷ e.session_id ∷ e.key ∷ e.content ∷ e.source ∷ e.provenance ∷ []) "|"

-- How many entries have these fields.
abbrev pub copies : String → List MemoryEntry → ℕ
copies k es = count (λ x. x == k) (map fields_of es)

-- No two entries have the same fields.
abbrev NoCopies : List MemoryEntry → Type 0
NoCopies es = (k : String) → copies k es ≤ 1

copies-append :
    (k : String) (es : List MemoryEntry) (e : MemoryEntry)
    → copies k (es ++ e ∷ []) ≡ copies k es + (if entry_key e == k then 1 else 0)
copies-append k [] e = ground arith
copies-append k (x ∷ es) e = ground (arith, copies-append k es e)

copies-absent :
    (k : String) (es : List MemoryEntry) → contains (map entry_key es) k ≡ false → copies k es ≡ 0
copies-absent k [] h = refl
copies-absent k (x ∷ es) h = ground (arith, h, copies-absent k es)

copies_one :
    (k : String) (es : List MemoryEntry) (e : MemoryEntry)
    → NoCopies es
    → contains (map entry_key es) (entry_key e) ≡ false
    → copies k (es ++ e ∷ []) ≤ 1
copies_one k es e h new = elim (Bool-cases (entry_key e == k)) [
  | inl hit ↦
      let same = (str_eq_iff (entry_key e) k).0 hit in
      let none_yet : copies k es ≡ 0 = copies-absent k es (rw (← same) new) in
      ground (arith, copies-append k es e, hit, none_yet)
  | inr miss ↦ ground (arith, copies-append k es e, miss, h k)
]

add_new-NoCopies :
    (combined es : List MemoryEntry) → NoCopies combined → NoCopies (add_new combined es)
unfolding add_new
add_new-NoCopies combined [] h = h
add_new-NoCopies combined (e ∷ es) h =
    elim (Bool-cases (contains (map entry_key combined) (entry_key e))) [
      | inl old ↦ rw old (add_new-NoCopies combined es h)
      | inr new ↦
          rw new (add_new-NoCopies (combined ++ e ∷ []) es (λ k. copies_one k combined e h new))
    ]

recall_each-NoCopies :
    {W : Type 0} (p : Ports W) (qs : List RecallQuery) (combined : List MemoryEntry)
    → NoCopies combined
    → Ensures Anywhere NoCopies (recall_each p qs combined)
unfolding recall_each
recall_each-NoCopies p [] combined h = Ensures-pure combined h
recall_each-NoCopies p (q ∷ qs) combined h =
    Ensures-bind {Q = Any} (p.memory.recall q) _ (Ensures-Any (p.memory.recall q)) λ entries _.
      recall_each-NoCopies p qs (add_new combined entries) (add_new-NoCopies combined entries h)

copies-insert_scored :
    (k : String) (f : MemoryEntry → ℕ) (e : MemoryEntry) (es : List MemoryEntry)
    → copies k (insert_scored f e es) ≡ copies k (e ∷ es)
unfolding insert_scored
copies-insert_scored k f e [] = refl
copies-insert_scored k f e (x ∷ es) = elim (Bool-cases (ltb (f e) (f x))) [
  | inl less ↦ rw less (ground (arith, copies-insert_scored k f e es))
  | inr more ↦ rw more refl
]

copies-sort_scored :
    (k : String) (f : MemoryEntry → ℕ) (es : List MemoryEntry)
    → copies k (sort_scored f es) ≡ copies k es
unfolding sort_scored
copies-sort_scored k f [] = refl
copies-sort_scored k f (e ∷ es) =
    ground (arith, copies-insert_scored k f e (sort_scored f es), copies-sort_scored k f es)

copies-take : (k : String) (n : ℕ) (es : List MemoryEntry) → copies k (take n es) ≤ copies k es
copies-take k zero es = omega arith
copies-take k (suc n) [] = omega arith
copies-take k (suc n) (e ∷ es) = ground (arith, copies-take k n es)

length-take : (n : ℕ) (es : List MemoryEntry) → length (take n es) ≤ n
length-take zero es = omega arith
length-take (suc n) [] = omega arith
length-take (suc n) (e ∷ es) = omega (arith, length-take n es)

copies-rank :
    (k : String) (words : List String) (es : List MemoryEntry)
    → copies k (rank words es) ≤ copies k es
unfolding rank
copies-rank k [] es = copies-take k recall_limit es
copies-rank k (w ∷ ws) es = omega (
  arith,
  copies-take k recall_limit (sort_scored (score (w ∷ ws)) es),
  copies-sort_scored k (score (w ∷ ws)) es,
)

length-rank : (words : List String) (es : List MemoryEntry) → length (rank words es) ≤ 10
unfolding rank
length-rank [] es = length-take recall_limit es
length-rank (w ∷ ws) es = length-take recall_limit (sort_scored (score (w ∷ ws)) es)

-- At most ten entries, no two with one key.
abbrev pub IsChosen : List MemoryEntry → Type 0
IsChosen es = (length es ≤ 10) × ((k : String) → copies k es ≤ 1)

ranked-IsChosen :
    {W : Type 0} (task : Task) (r : Result (List MemoryEntry) × W)
    → Holds NoCopies r.0
    → IsChosen (ranked task r).0
ranked-IsChosen task (err e, w) h = (omega arith, λ k. omega arith)
ranked-IsChosen task (ok es, w) h = (
  length-rank (tokenize_keywords task.description) es,
  λ k. omega (arith, copies-rank k (tokenize_keywords task.description) es, h k),
)

-- Whatever the memory store answers, an error included, the strategy is given at most ten entries, and
-- no two that agree in their identity, session, key, content, source and provenance.
pub recall_memory-IsChosen :
    {W : Type 0} (p : Ports W) (task : Task) (session : Session) (w : W)
    → IsChosen (recall_memory p task session w).0
unfolding recall_memory
recall_memory-IsChosen p task session w =
    ranked-IsChosen task _
      ((recall_each-NoCopies p (queries session) [] (λ k. omega arith)).at w tt).1
