-- ===== src/Memory/Store/Rows.antt =====
-- The rows that Remember and Write give to the database.
use zheng_harness.Base.{
  String, false, ◌&&◌, Option, none, some, List, [], ◌∷◌, ◌==◌, ◌≡◌, refl, All, Bool-cases, inl,
  inr,
}
use zheng_harness.Base.Text.{is_blank}
use zheng_harness.Domain.Effect.{Result, ok, err}
use zheng_harness.Domain.Types.{Time, MemoryEntry, MemoryScope, session, project, Observation}
use zheng_harness.Memory.Policy.{EntryError, validate_memory_entry}
use zheng_harness.Memory.Policy.Accepted.{
  Filled, Known, Percentage, IsAcceptable, Writable, validators_agree,
}
use zheng_harness.Memory.Store.{
  MemoryRow, Sql, nullable, row_of, remember, persist, persisted, observed_entry, has_no_result,
  write, insert, inserted, stamped,
}

-- A session's row with an id that is not empty, or a project's; never a global one.
abbrev pub Owned : MemoryScope → Option String → Type 0
Owned session (some id) = (id == "") ≡ false
Owned project id = Unit
Owned _ id = ⊥

pub record IsSound (row : MemoryRow) : Type 0 where
  pub owned : Owned row.scope row.session_id
  pub type : Known row.type
  pub key : Filled row.key
  pub value : Filled row.value
  pub source : Filled row.source
  pub confidence : Percentage row.confidence

nullable-Owned : (s : MemoryScope) (id : String) → Writable s id → Owned s (nullable id)
unfolding nullable
nullable-Owned session id h = rw h h
nullable-Owned project id h = tt
nullable-Owned MemoryScope.global id h = absurd h
nullable-Owned (MemoryScope.other s) id h = absurd h

row_of-IsSound : (e : MemoryEntry) → IsAcceptable e → IsSound (row_of e)
row_of-IsSound e h = record {
  owned = nullable-Owned e.scope e.session_id h.scope;
  type = h.type;
  key = h.key;
  value = h.content;
  source = h.source;
  confidence = h.confidence;
}

-- A database that keeps a list of the rows it is given, the newest first.
abbrev pub logged : {W R : Type 0} → Sql W R → Sql (W × List MemoryRow) R
logged sql = record {
  exec = λ row (w, rows). let (r, w') = sql.exec row w in (r, (w', row ∷ rows));
  last_insert_id = sql.last_insert_id;
  now = λ (w, rows). let (t, w') = sql.now w in (t, (w', rows));
  is_zero = sql.is_zero;
  format = sql.format;
  decimal = sql.decimal;
}

pub data Call : Type 0 where
  remembers : String → Observation → Call
  writes : MemoryEntry → Call

unfoldable pub run_calls : {W R : Type 0} → Sql W R → List Call → W → W
unfolding remember write
run_calls sql [] w = w
run_calls sql (remembers id o ∷ calls) w = run_calls sql calls (remember sql id o w).1
run_calls sql (writes e ∷ calls) w = run_calls sql calls (write sql e w).1

module _ {W R : Type 0} (sql : Sql W R) where
  persisted-kept : (r : Result R) (v : W × List MemoryRow) → (persisted (logged sql) (r, v)).1 ≡ v
  persisted-kept (ok a) v = refl
  persisted-kept (err e) v = refl

  inserted-kept :
      (e : MemoryEntry) (r : Result R) (v : W × List MemoryRow)
      → (inserted (logged sql) e (r, v)).1 ≡ v
  inserted-kept e (ok a) v = refl
  inserted-kept e (err why) v = refl

  persist-IsSound :
      (e : MemoryEntry) (o : Option EntryError) (w : W) (rows : List MemoryRow)
      → (o ≡ none → IsAcceptable e)
      → All IsSound rows
      → All IsSound (persist (logged sql) e o (w, rows)).1.1
  persist-IsSound e (some why) w rows good h = h
  persist-IsSound e none w rows good h =
      let (r, w') = sql.exec (row_of e) w in
      rw (persisted-kept r (w', row_of e ∷ rows)) (row_of-IsSound e (good refl), h)

  stamped-IsAcceptable :
      (e : MemoryEntry) (time : Time) → IsAcceptable e → IsAcceptable (stamped sql e time)
  stamped-IsAcceptable e time h = record {
    scope = h.scope;
    type = h.type;
    key = h.key;
    content = h.content;
    source = h.source;
    confidence = h.confidence;
  }

  insert-IsSound :
      (e : MemoryEntry) (o : Option EntryError) (w : W) (rows : List MemoryRow)
      → (o ≡ none → IsAcceptable e)
      → All IsSound rows
      → All IsSound (insert (logged sql) e o (w, rows)).1.1
  insert-IsSound e (some why) w rows good h = h
  insert-IsSound e none w rows good h =
      let (time, w1) = sql.now w in
      let entry = stamped sql e time in
      let (r, w2) = sql.exec (row_of entry) w1 in
      rw (inserted-kept entry r (w2, row_of entry ∷ rows))
        (row_of-IsSound entry (stamped-IsAcceptable e time (good refl)), h)

  remember-IsSound :
      (id : String) (o : Observation) (w : W) (rows : List MemoryRow)
      → All IsSound rows
      → All IsSound (remember (logged sql) id o (w, rows)).1.1
  unfolding remember
  remember-IsSound id o w rows h =
      elim (Bool-cases (is_blank o.summary && has_no_result o.tool_result)) [
        | inl silent ↦ rw silent h
        | inr heard ↦
            let (time, w') = sql.now w in
            let entry = observed_entry (logged sql) id o time in
            rw heard (
              persist-IsSound entry (validate_memory_entry entry) w' rows
                (validators_agree entry).1.0 h)
      ]

  write-IsSound :
      (e : MemoryEntry) (w : W) (rows : List MemoryRow)
      → All IsSound rows
      → All IsSound (write (logged sql) e (w, rows)).1.1
  unfolding write
  write-IsSound e w rows h =
      insert-IsSound e (validate_memory_entry e) w rows (validators_agree e).1.0 h

  calls-IsSound :
      (calls : List Call) (v : W × List MemoryRow)
      → All IsSound v.1
      → All IsSound (run_calls (logged sql) calls v).1
  unfolding run_calls
  calls-IsSound [] v h = h
  calls-IsSound (remembers id o ∷ calls) v h =
      calls-IsSound calls (remember (logged sql) id o v).1 (remember-IsSound id o v.0 v.1 h)
  calls-IsSound (writes e ∷ calls) v h =
      calls-IsSound calls (write (logged sql) e v).1 (write-IsSound e v.0 v.1 h)

-- Whatever Remember and Write are called with, in any order, and whatever the database and the clock
-- answer, every row that is given to the database is a session's with an id that is not empty or a
-- project's, so none is global; its type is known, its key, value and source are not blank, and its
-- confidence is from 0 to 100.
pub run_calls-IsSound :
    {W R : Type 0} (sql : Sql W R) (calls : List Call) (w : W)
    → All IsSound (run_calls (logged sql) calls (w, [])).1
run_calls-IsSound sql calls w = calls-IsSound sql calls (w, []) tt
