-- ===== src/Memory/Policy/Accepted.antt =====
-- The entries that the two checks take are the same.
use zheng_harness.Base.{◌≤◌, String, true, false, ◌&&◌, none, ◌≡◌, ◌↔◌, refl, arith}
use zheng_harness.Base.Int.{ℤ, pos, negsuc}
use zheng_harness.Domain.Types.{
  MemoryEntry, MemoryScope, session, project, global, MemoryType, preference, fact, summary,
}
use zheng_harness.Base.Text.{is_blank}
use zheng_harness.Memory.Policy.{
  is_valid_scope, is_valid_type, is_out_of_range, is_session, is_global, validate_entry,
  validate_memory_entry,
}

abbrev pub Filled : String → Type 0
Filled s = is_blank s ≡ false

-- A session's memory, with the session's id, or the project's.
abbrev pub Writable : MemoryScope → String → Type 0
Writable session id = Filled id
Writable project id = Unit
Writable _ id = ⊥

abbrev pub Known : MemoryType → Type 0
Known (MemoryType.other s) = ⊥
Known _ = Unit

-- From 0 to 100.
abbrev pub Percentage : ℤ → Type 0
Percentage (pos n) = n ≤ 100
Percentage (negsuc n) = ⊥

pub record IsAcceptable (e : MemoryEntry) : Type 0 where
  pub scope : Writable e.scope e.session_id
  pub type : Known e.type
  pub key : Filled e.key
  pub content : Filled e.content
  pub source : Filled e.source
  pub confidence : Percentage e.confidence

-- The tests, none of which may fail.
record Passes (e : MemoryEntry) : Type 0 where
  scope : is_valid_scope e.scope ≡ true
  type : is_valid_type e.type ≡ true
  key : is_blank e.key ≡ false
  content : is_blank e.content ≡ false
  source : is_blank e.source ≡ false
  confidence : is_out_of_range e.confidence ≡ false
  session_id : (is_session e.scope && is_blank e.session_id) ≡ false
  local : is_global e.scope ≡ false

scope_iff :
    (s : MemoryScope) (id : String)
    → ((is_valid_scope s ≡ true) × ((is_session s && is_blank id) ≡ false) × (is_global s ≡ false))
      ↔ Writable s id
scope_iff session id = (λ h. h.1, λ h. (refl, h, refl))
scope_iff project id = (λ h. tt, λ h. (refl, refl, refl))
scope_iff global id = (λ h. cc (h.2), λ h. absurd h)
scope_iff (MemoryScope.other s) id = (λ h. cc (h.0), λ h. absurd h)

type_iff : (t : MemoryType) → (is_valid_type t ≡ true) ↔ Known t
type_iff preference = (λ h. tt, λ h. refl)
type_iff fact = (λ h. tt, λ h. refl)
type_iff summary = (λ h. tt, λ h. refl)
type_iff (MemoryType.other s) = (λ h. cc h, λ h. absurd h)

range_iff : (n : ℤ) → (is_out_of_range n ≡ false) ↔ Percentage n
range_iff (pos n) = (λ h. ground (arith, h), λ h. ground (arith, h))
range_iff (negsuc n) = (λ h. cc h, λ h. absurd h)

Passes-iff : (e : MemoryEntry) → Passes e ↔ IsAcceptable e
Passes-iff e =
    let scope = scope_iff e.scope e.session_id in
    (
      λ h. record {
        scope = scope.0 (h.scope, h.session_id, h.local);
        type = (type_iff e.type).0 h.type;
        key = h.key;
        content = h.content;
        source = h.source;
        confidence = (range_iff e.confidence).0 h.confidence;
      },
      λ h.
          let (valid, has_id, local) = scope.1 h.scope in
          record {
            scope = valid;
            type = (type_iff e.type).1 h.type;
            key = h.key;
            content = h.content;
            source = h.source;
            confidence = (range_iff e.confidence).1 h.confidence;
            session_id = has_id;
            local = local;
          },
    )

validate_entry-Passes : (e : MemoryEntry) → (validate_entry e ≡ none) ↔ Passes e
unfolding validate_entry
validate_entry-Passes e = (
  λ h. record {
    scope = ground (arith, h);
    type = ground (arith, h);
    key = ground (arith, h);
    content = ground (arith, h);
    source = ground (arith, h);
    confidence = ground (arith, h);
    session_id = ground (arith, h);
    local = ground (arith, h);
  },
  λ h.
      ground
        (arith, h.scope, h.type, h.key, h.content, h.source, h.confidence, h.session_id, h.local),
)

validate_memory_entry-Passes : (e : MemoryEntry) → (validate_memory_entry e ≡ none) ↔ Passes e
unfolding validate_memory_entry
validate_memory_entry-Passes e = (
  λ h. record {
    scope = ground (arith, h);
    type = ground (arith, h);
    key = ground (arith, h);
    content = ground (arith, h);
    source = ground (arith, h);
    confidence = ground (arith, h);
    session_id = ground (arith, h);
    local = ground (arith, h);
  },
  λ h.
      ground
        (arith, h.scope, h.type, h.key, h.content, h.source, h.confidence, h.session_id, h.local),
)

-- The memory's policy and the store take the same entries, and exactly those of a session with its id or
-- of a project, of a known type, whose key, content and source are not blank and whose confidence is
-- from 0 to 100.
pub validators_agree :
    (e : MemoryEntry)
    → ((validate_entry e ≡ none) ↔ IsAcceptable e)
      × ((validate_memory_entry e ≡ none) ↔ IsAcceptable e)
validators_agree e =
    let passes = Passes-iff e in
    let policy = validate_entry-Passes e in
    let store = validate_memory_entry-Passes e in
    (
      (λ h. passes.0 (policy.0 h), λ h. policy.1 (passes.1 h)),
      (λ h. passes.0 (store.0 h), λ h. store.1 (passes.1 h)),
    )
