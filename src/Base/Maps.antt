-- ===== src/Base/Maps.antt =====
-- Go maps. A map that the program only reads and writes by key is a total function with the zero
-- value; one whose size or entries matter is a list of entries.
use Prim.Native.Nat.{ℕ, zero, suc, ◌+◌, ◌<◌}
use Prim.Native.String.{String}
use mathlib.Core.Path.{◌≡◌, refl, sym, ap, ◌∙◌}
use mathlib.Core.Logic.{◌⊎◌, ◌≢◌, inl, inr}
use native.Mathlib.Decide.{ℕ_discrete}
use mathlib.Core.Bool.{Bool, true, false}
use mathlib.Core.Option.{Option, none, some}
use mathlib.Core.List.{List, [], ◌∷◌}
use native.Mathlib.Omega.{arith}
use zheng_harness.Base.Tests.{◌==◌, ◌=ℕ◌, Bool-cases, if◌then◌else◌, str_eq_iff}
use zheng_harness.Base.Lists.{length}

abbrev pub update {ℓ} : {V : Type ℓ} → (String → V) → String → V → String → V
update m k v j = if k == j then v else m j

-- A store of objects, addressed by number.
abbrev pub update_at {ℓ} : {V : Type ℓ} → (ℕ → V) → ℕ → V → ℕ → V
update_at m r v q = if r =ℕ q then v else m q

update_at_cases {ℓ} :
    {V : Type ℓ} (m : ℕ → V) (r : ℕ) (v : V) (q : ℕ)
    → ((r ≡ q) × (update_at m r v q ≡ v)) ⊎ ((r ≢ q) × (update_at m r v q ≡ m q))
update_at_cases m r v q = elim (ℕ_discrete r q) [
  | yes e ↦ inl (e, ground arith)
  | no ne ↦ inr (ne, ground arith)
]

pub update_at_ind {ℓ κ} :
    {V : Type ℓ} (P : ℕ → V → Type κ) (m : ℕ → V) (r : ℕ) (v : V) (q : ℕ)
    → (r ≡ q → P q v)
    → (r ≢ q → P q (m q))
    → P q (update_at m r v q)
update_at_ind P m r v q hit miss = elim (update_at_cases m r v q) [
  | inl (e, h) ↦ rw h (hit e)
  | inr (ne, h) ↦ rw h (miss ne)
]

-- What a write leaves alone.
pub update_at-keeps {ℓ κ} :
    {V : Type ℓ} {B : Type κ} (f : V → B) (m : ℕ → V) (r : ℕ) (v : V)
    → f v ≡ f (m r)
    → (q : ℕ) → f (update_at m r v q) ≡ f (m q)
update_at-keeps f m r v h q =
    update_at_ind (λ p w. f w ≡ f (m p)) m r v q (λ e. h ∙ ap (λ p. f (m p)) e) (λ _. refl)

module _ {ℓ} {V : Type ℓ} where
  unfoldable pub lookup : String → List (String × V) → Option V
  lookup k [] = none
  lookup k ((j, v) ∷ m) = if j == k then some v else lookup k m

  unfoldable pub delete : String → List (String × V) → List (String × V)
  delete k [] = []
  delete k ((j, v) ∷ m) = let rest = delete k m in if j == k then rest else (j, v) ∷ rest

  -- No key stands twice, as in every Go map.
  abbrev pub KeysDistinct : List (String × V) → Type ℓ
  KeysDistinct [] = Unit
  KeysDistinct ((k, v) ∷ m) = (lookup k m ≡ none) × KeysDistinct m

  pub lookup-delete :
      (k j : String) (m : List (String × V))
      → lookup j (delete k m) ≡ (if k == j then none else lookup j m)
  unfolding lookup delete
  lookup-delete k j [] = ground arith
  lookup-delete k j ((i, v) ∷ m) =
      ground (arith, lookup-delete k j m, str_eq_iff i k, str_eq_iff i j, str_eq_iff k j)

  pub delete-absent : (k : String) (m : List (String × V)) → lookup k m ≡ none → delete k m ≡ m
  unfolding lookup delete
  delete-absent k [] h = refl
  delete-absent k ((j, v) ∷ m) h = ground (arith, delete-absent k m)

  pub length-delete :
      (k : String) (v : V) (m : List (String × V))
      → lookup k m ≡ some v
      → KeysDistinct m
      → length m ≡ suc (length (delete k m))
  unfolding lookup delete
  length-delete k v [] h d = ground arith
  length-delete k v ((j, w) ∷ m) h d =
      ground (arith, length-delete k v m, delete-absent k m, str_eq_iff j k, d.0)

  pub delete-KeysDistinct :
      (k : String) (m : List (String × V)) → KeysDistinct m → KeysDistinct (delete k m)
  unfolding delete
  delete-KeysDistinct k [] d = tt
  delete-KeysDistinct k ((j, v) ∷ m) d =
      let rest = delete-KeysDistinct k m d.1 in
      elim (Bool-cases (j == k)) [
        | inl e ↦ rw e rest
        | inr n ↦ rw n (ground (arith, lookup-delete k j m, d.0), rest)
      ]

-- How many of the first n objects satisfy a test.
unfoldable pub count_below : (ℕ → Bool) → ℕ → ℕ
count_below p zero = 0
count_below p (suc n) = (if p n then 1 else 0) + count_below p n

-- Objects outside the range do not count.
pub count_below-same :
    (p q : ℕ → Bool) (n : ℕ) → ((r : ℕ) → r < n → p r ≡ q r) → count_below p n ≡ count_below q n
unfolding count_below
count_below-same p q zero h = refl
count_below-same p q (suc n) h =
    ground (arith, h n, count_below-same p q n (λ r lt. h r (omega arith)))

-- One object that stops to satisfy the test takes one off the count.
pub count_below-drop :
    (p q : ℕ → Bool) (n k : ℕ)
    → k < n
    → p k ≡ true
    → q k ≡ false
    → ((r : ℕ) → (k ≡ r → ⊥) → q r ≡ p r)
    → count_below p n ≡ suc (count_below q n)
unfolding count_below
count_below-drop p q zero k lt hp hq same = elim lt [ ]
count_below-drop p q (suc n) k lt hp hq same = elim (ℕ_discrete k n) [
  | yes e ↦
      let below = count_below-same q p n (λ r small. same r (omega arith)) in
      rw (ap p (sym e) ∙ hp, ap q (sym e) ∙ hq, below) (omega arith)
  | no ne ↦
      let rest = count_below-drop p q n k (omega arith) hp hq same in
      rw (same n ne) (omega (arith, rest))
]

pub count_below_zero : (p : ℕ → Bool) (n r : ℕ) → count_below p n ≡ 0 → r < n → p r ≡ false
unfolding count_below
count_below_zero p zero r h lt = elim lt [ ]
count_below_zero p (suc n) r h lt = elim (ℕ_discrete r n) [
  | yes e ↦ rw e (ground arith)
  | no ne ↦ count_below_zero p n r (omega arith) (omega arith)
]
