-- ===== src/Orchestration/Scheduler/Sorting.antt =====
-- Sorting keeps the elements of a list.
use zheng_harness.Base.{
  ℕ, String, false, ◌||◌, List, [], ◌∷◌, ◌==◌, ltb, ◌≡◌, refl, arith, contains, Distinct, length,
  inl, inr, Bool-cases, str_eq_iff,
}
use zheng_harness.Orchestration.Scheduler.{insert_by, stable_sort, sort_ids, positions}

contains-insert_by :
    (key : String → ℕ) (x : String) (ys : List String) (a : String)
    → contains (insert_by key x ys) a ≡ (x == a || contains ys a)
unfolding insert_by
contains-insert_by key x [] a = refl
contains-insert_by key x (y ∷ ys) a = ground (arith, contains-insert_by key x ys a)

insert_by-Distinct :
    (key : String → ℕ) (x : String) (ys : List String)
    → contains ys x ≡ false
    → Distinct ys
    → Distinct (insert_by key x ys)
unfolding insert_by
insert_by-Distinct key x [] h d = (refl, tt)
insert_by-Distinct key x (y ∷ ys) h d = elim (Bool-cases (ltb (key y) (key x))) [
  | inl later ↦ rw later (
    ground (arith, contains-insert_by key x ys y, str_eq_iff x y, str_eq_iff y x, d.0),
    insert_by-Distinct key x ys (ground (arith, h)) d.1,
  )
  | inr here ↦ rw here (h, d)
]

pub contains-stable_sort :
    (key : String → ℕ) (xs : List String) (a : String)
    → contains (stable_sort key xs) a ≡ contains xs a
unfolding stable_sort
contains-stable_sort key [] a = refl
contains-stable_sort key (x ∷ xs) a =
    ground (arith, contains-insert_by key x (stable_sort key xs) a, contains-stable_sort key xs a)

pub stable_sort-Distinct :
    (key : String → ℕ) (xs : List String) → Distinct xs → Distinct (stable_sort key xs)
unfolding stable_sort
stable_sort-Distinct key [] d = tt
stable_sort-Distinct key (x ∷ xs) d =
    insert_by-Distinct key x (stable_sort key xs)
      (ground (arith, contains-stable_sort key xs x, d.0)) (stable_sort-Distinct key xs d.1)

pub contains-sort_ids :
    (ordered ids : List String) (a : String) → contains (sort_ids ordered ids) a ≡ contains ids a
unfolding sort_ids
contains-sort_ids ordered ids a =
    ground (arith, contains-stable_sort (positions (λ _. 0) 0 ordered) ids a)

pub sort_ids-Distinct : (ordered ids : List String) → Distinct ids → Distinct (sort_ids ordered ids)
unfolding sort_ids
sort_ids-Distinct ordered ids d = elim (Bool-cases (ltb (length ids) 2)) [
  | inl short ↦ rw short d
  | inr long ↦ rw long (stable_sort-Distinct (positions (λ _. 0) 0 ordered) ids d)
]
