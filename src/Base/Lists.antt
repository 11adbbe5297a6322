-- ===== src/Base/Lists.antt =====
-- Lists measured by native numbers, and membership and distinctness by recursion.
use Prim.Native.Nat.{ℕ, suc, ◌+◌}
use mathlib.Core.Path.{◌≡◌, refl, sym, ap}
use mathlib.Core.Bool.{Bool, true, false, ◌||◌}
use mathlib.Core.Logic.{inl, inr}
use Prim.Native.String.{String}
use mathlib.Core.List.{List, [], ◌∷◌, ◌++◌}
use native.Mathlib.Omega.{arith}
use zheng_harness.Base.Tests.{◌==◌, if◌then◌else◌, str_eq_iff, Bool-cases}

module _ {ℓ} {A : Type ℓ} where
  abbrev pub length : List A → ℕ
  length [] = 0
  length (x ∷ xs) = suc (length xs)

  pub length-append : (xs ys : List A) → length (xs ++ ys) ≡ length xs + length ys
  length-append [] ys = omega arith
  length-append (x ∷ xs) ys = omega (arith, length-append xs ys)

  abbrev pub All {κ} : (A → Type κ) → List A → Type κ
  All P [] = Unit
  All P (x ∷ xs) = P x × All P xs

  pub All-imp {κ μ} :
      {P : A → Type κ} {Q : A → Type μ} (xs : List A) → ((x : A) → P x → Q x) → All P xs → All Q xs
  All-imp [] f h = tt
  All-imp (x ∷ xs) f h = (f x h.0, All-imp xs f h.1)

-- Membership of a text as a test, distinctness, and how many satisfy a test.
abbrev pub contains : List String → String → Bool
contains [] a = false
contains (x ∷ xs) a = x == a || contains xs a

abbrev pub Distinct : List String → Type 0
Distinct [] = Unit
Distinct (x ∷ xs) = (contains xs x ≡ false) × Distinct xs

abbrev pub count : (String → Bool) → List String → ℕ
count p [] = 0
count p (x ∷ xs) = let rest = count p xs in if p x then suc rest else rest

pub contains-append :
    (xs ys : List String) (a : String) → contains (xs ++ ys) a ≡ (contains xs a || contains ys a)
contains-append [] ys a = ground arith
contains-append (x ∷ xs) ys a = ground (arith, contains-append xs ys a)

pub Distinct-append :
    (xs ys : List String)
    → Distinct xs
    → Distinct ys
    → ((a : String) → contains xs a ≡ true → contains ys a ≡ false)
    → Distinct (xs ++ ys)
Distinct-append [] ys dx dy apart = dy
Distinct-append (x ∷ xs) ys dx dy apart = (
  ground (arith, contains-append xs ys x, apart x, str_eq_iff x x, dx.0),
  Distinct-append xs ys dx.1 dy (λ a h. apart a (ground (arith, h))),
)

pub count-same :
    (p q : String → Bool) (xs : List String)
    → ((a : String) → contains xs a ≡ true → p a ≡ q a)
    → count p xs ≡ count q xs
count-same p q [] same = refl
count-same p q (x ∷ xs) same =
    ground (arith, same x, str_eq_iff x x, count-same p q xs (λ a h. same a (ground (arith, h))))

-- A test that stops to hold at one element, which stands in the list, counts one less.
pub count-drop :
    (p q : String → Bool) (k : String) (xs : List String)
    → Distinct xs
    → contains xs k ≡ true
    → p k ≡ true
    → q k ≡ false
    → ((a : String) → (k ≡ a → ⊥) → q a ≡ p a)
    → count p xs ≡ suc (count q xs)
count-drop p q k [] d h pk qk same = cc
count-drop p q k (x ∷ xs) d h pk qk same = elim (Bool-cases (x == k)) [
  | inl hit ↦
      let e = (str_eq_iff x k).0 hit in
      let rest = count-same p q xs (λ a c. sym (same a (λ e'. ground (arith, d.0, c, e, e')))) in
      rw (e, pk, qk) (ap suc rest)
  | inr miss ↦
      let ne : (k ≡ x → ⊥) = λ e. ground (arith, str_eq_iff x k, e) in
      let rest = count-drop p q k xs d.1 (ground (arith, h)) pk qk same in
      ground (arith, same x ne, rest)
]

pub count-zero :
    (p : String → Bool) (xs : List String) (a : String)
    → count p xs ≡ 0
    → contains xs a ≡ true
    → p a ≡ false
count-zero p [] a h c = cc
count-zero p (x ∷ xs) a h c = elim (Bool-cases (x == a)) [
  | inl hit ↦ rw (← (str_eq_iff x a).0 hit) (ground arith)
  | inr miss ↦ count-zero p xs a (ground arith) (ground (arith, c))
]
