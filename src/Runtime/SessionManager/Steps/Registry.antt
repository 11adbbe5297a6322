-- ===== src/Runtime/SessionManager/Steps/Registry.antt =====
-- The moves that change the manager's map keep the invariant: completeActor and Start.
use native.Mathlib.Decide.{ℕ_discrete}
use zheng_harness.Base.{
  ℕ, suc, ◌+◌, ◌<◌, ◌≡◌, ◌≢◌, inl, inr, refl, sym, subst, ◌∙◌, ap, String, true, false, none, some,
  List, ◌∷◌, length, arith, ◌==◌, str_eq_iff, str_eq_refl, Bool-cases, Option-cases,
}
use zheng_harness.Base.Maps.{
  lookup, delete, update_at, update_at_ind, update_at-keeps, count_below, count_below-same,
  lookup-delete, length-delete, delete-KeysDistinct,
}
use zheng_harness.Domain.Types.{Time}
use zheng_harness.Runtime.SessionActor.{new_actor}
use zheng_harness.Runtime.SessionManager.{
  System, StartRequest, Goroutine, spawned, finished, removed, start, launch, admit, complete_actor,
  validate_session_start_request,
}
use zheng_harness.Runtime.SessionManager.Steps.Invariant.{Inv, is_tracked, is_live, live, Staged}

-- What `complete_actor` needs of the map: the goroutine's own entry is the one that it deletes.
module _ (s : System) (r : ℕ) (lt : r < s.next) (at : (s.heap r).pc ≡ finished) (v : Inv s) where
  own : String
  own = (s.heap r).request.session_id

  entry : lookup own s.manager.actors ≡ some r
  unfolding own
  entry = v.tracked r lt (rw at)

  abbrev moved : Goroutine
  moved = record (s.heap r) { pc = removed }

  shrinks : length s.manager.actors ≡ suc (length (delete own s.manager.actors))
  shrinks = length-delete own r s.manager.actors entry v.distinct

  request : (q : ℕ) → (update_at s.heap r moved q).request ≡ (s.heap q).request
  request = update_at-keeps (λ h. h.request) s.heap r moved refl

  same_live : (q : ℕ) → live (update_at s.heap r moved) q ≡ live s.heap q
  same_live = update_at-keeps (λ h. is_live h.pc) s.heap r moved (rw at)

  actor : (q : ℕ) → (update_at s.heap r moved q).actor ≡ (s.heap q).actor
  actor = update_at-keeps (λ h. h.actor) s.heap r moved refl

  named_own : {q : ℕ} → r ≡ q → (s.heap q).request.session_id ≡ own
  unfolding own
  named_own e = ap (λ (p : ℕ). (s.heap p).request.session_id) (sym e)

  tracked_self : {q : ℕ} → r ≡ q → is_tracked (update_at s.heap r moved q).pc ≡ false
  tracked_self {q} e = ground arith

  others : (q : ℕ) → r ≢ q → update_at s.heap r moved q ≡ s.heap q
  others q ne = ground arith

  linked_after :
      (id : String) (q : ℕ)
      → lookup id (delete own s.manager.actors) ≡ some q
      → (q < s.next)
        × ((update_at s.heap r moved q).request.session_id ≡ id)
        × (is_tracked (update_at s.heap r moved q).pc ≡ true)
  linked_after id q e =
      let found = sym (lookup-delete own id s.manager.actors) ∙ e in
      elim (Bool-cases (own == id)) [
        | inl hit ↦ cc (found, hit)
        | inr miss ↦
            let old = v.linked id q (rw miss at found) in
            let ne : r ≢ q = λ same. ground (arith, str_eq_iff own id, old.1, named_own same) in
            rw (others q ne) old
      ]

  tracked_after :
      (q : ℕ)
      → q < s.next
      → is_tracked (update_at s.heap r moved q).pc ≡ true
      → lookup (update_at s.heap r moved q).request.session_id (delete own s.manager.actors)
        ≡ some q
  tracked_after q small t = elim (ℕ_discrete r q) [
    | yes same ↦ cc (t, tracked_self same)
    | no ne ↦
        let old = v.tracked q small (rw (others q ne) at t) in
        rw (others q ne, lookup-delete)
          (ground (arith, str_eq_iff own (s.heap q).request.session_id, entry))
  ]

  pub complete_actor-Inv : Inv (complete_actor r s)
  unfolding complete_actor own
  complete_actor-Inv = record {
    counted = ground (arith, shrinks, v.counted);
    capped = ground (arith, v.capped);
    distinct = delete-KeysDistinct own s.manager.actors v.distinct;
    linked = linked_after;
    tracked = tracked_after;
    waiting = v.waiting ∙ count_below-same _ _ s.next (λ q _. sym (same_live q));
    named = λ q small. rw (actor q, request q) (v.named q small);
    staged = λ q.
        update_at_ind (λ p h. p < s.next → Staged h.pc h.actor) s.heap r moved q
          (λ e. rw (← e) λ _. subst (λ p. Staged p (s.heap r).actor) at (v.staged r lt))
          (λ _. v.staged q);
  }

-- Start with a request that `admit` lets through.
module _ (s : System) (req : StartRequest) (now : Time) (ok : admit s.manager req ≡ none)
    (v : Inv s) where
  absent : lookup req.session_id s.manager.actors ≡ none
  absent = unfold admit in ground arith

  room : s.manager.active_count < s.manager.active_session_cap
  room = unfold admit in ground arith

  abbrev fresh : Goroutine
  fresh = record { actor = new_actor req.session_id req.task now; request = req; pc = spawned }

  -- What holds of the new goroutine and of each older one holds of all.
  on_each :
      (P : ℕ → Goroutine → Type 0)
      → P s.next fresh
      → ((q : ℕ) → q < s.next → P q (s.heap q))
      → (q : ℕ) → q < suc s.next
      → P q (update_at s.heap s.next fresh q)
  on_each P hit miss q lt =
      update_at_ind P s.heap s.next fresh q (λ e. subst (λ p. P p fresh) e hit)
        (λ ne. miss q (omega arith))

  older : (q : ℕ) → q < s.next → update_at s.heap s.next fresh q ≡ s.heap q
  older q lt = ground arith

  newest : update_at s.heap s.next fresh s.next ≡ fresh
  newest = ground arith

  abbrev entries : List (String × ℕ)
  entries = (req.session_id, s.next) ∷ s.manager.actors

  linked_new :
      (id : String) (q : ℕ)
      → lookup id entries ≡ some q
      → (q < suc s.next)
        × ((update_at s.heap s.next fresh q).request.session_id ≡ id)
        × (is_tracked (update_at s.heap s.next fresh q).pc ≡ true)
  unfolding lookup
  linked_new id q e = elim (Bool-cases (req.session_id == id)) [
    | inl hit ↦
        let here : s.next ≡ q = ground (arith, hit, e) in
        rw (← here) (
          omega arith,
          ap (λ (g : Goroutine). g.request.session_id) newest ∙ (str_eq_iff _ _).0 hit,
          ap (λ (g : Goroutine). is_tracked g.pc) newest,
        )
    | inr miss ↦
        let found : lookup id s.manager.actors ≡ some q = rw miss at e in
        let old = v.linked id q found in rw (older q old.0) (omega (arith, old.0), old.1, old.2)
  ]

  tracked_new :
      (q : ℕ)
      → q < suc s.next
      → is_tracked (update_at s.heap s.next fresh q).pc ≡ true
      → lookup (update_at s.heap s.next fresh q).request.session_id entries ≡ some q
  unfolding lookup
  tracked_new =
      on_each (λ q g. is_tracked g.pc ≡ true → lookup g.request.session_id entries ≡ some q)
        (λ _. rw (str_eq_refl req.session_id))
        (λ q lt t. ground (
          arith,
          v.tracked q lt t,
          absent,
          str_eq_iff req.session_id (s.heap q).request.session_id,
        ))

  waiting_new : s.manager.wg + 1 ≡ count_below (live (update_at s.heap s.next fresh)) (suc s.next)
  unfolding count_below
  waiting_new =
      let same =
        count_below-same (live s.heap) (live (update_at s.heap s.next fresh)) s.next
          (λ q lt. rw (older q lt)) in
      rw (newest) (omega (arith, same, v.waiting))

  launch-Inv : Inv (launch req now s)
  unfolding launch new_actor
  launch-Inv = record {
    counted = omega (arith, v.counted);
    capped = omega (arith, room);
    distinct = (absent, v.distinct);
    linked = linked_new;
    tracked = tracked_new;
    waiting = waiting_new;
    named = on_each (λ _ g. g.actor.session_id ≡ g.request.session_id) refl v.named;
    staged = on_each (λ _ g. Staged g.pc g.actor) (refl, refl) v.staged;
  }

pub start-Inv : (s : System) (req : StartRequest) (now : Time) → Inv s → Inv (start req now s).0
unfolding start
start-Inv s req now v = elim (Option-cases (validate_session_start_request req)) [
  | inr (e, bad) ↦ rw (bad, start) v
  | inl good ↦ elim (Option-cases (admit s.manager req)) [
    | inr (e, bad) ↦ rw (good, bad, start) v
    | inl ok ↦ rw (good, ok, start) (launch-Inv s req now ok v)
  ]
]
