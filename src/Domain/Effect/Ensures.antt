-- ===== src/Domain/Effect/Ensures.antt =====
-- Invariants and postconditions of effects, one rule for each way to build an effect.
use zheng_harness.Base.{Bool, true, false, ◌≡◌, refl, if◌then◌else◌, Option, none, some}
use zheng_harness.Domain.Types.{Err}
use zheng_harness.Domain.Effect.{
  Result, ok, err, Effect, Ask, pure, raise, lift, ask, run, settle, ◌>>=◌, follow, on,
}

abbrev pub Holds : {A : Type 0} → (A → Type 0) → Result A → Type 0
Holds Q (ok a) = Q a
Holds Q (err e) = Unit

-- `m` keeps `I`, whether it returns or fails, and a value that it returns satisfies `Q`.
pub record Ensures {W A : Type 0} (I : W → Type 0) (Q : A → Type 0) (m : Effect W A) : Type 0 where
  pub at : (w : W) → I w → I (m w).1 × Holds Q (m w).0

abbrev pub Any : {A : Type 0} → A → Type 0
Any a = Unit

pub Holds-Any : {A : Type 0} (r : Result A) → Holds Any r
Holds-Any (ok a) = tt
Holds-Any (err e) = tt

-- Nothing is asked of the world, nor of the result.
abbrev pub Anywhere : {W : Type 0} → W → Type 0
Anywhere w = Unit

pub Ensures-Any : {W A : Type 0} (m : Effect W A) → Ensures Anywhere Any m
Ensures-Any m = record { at = λ w _. (tt, Holds-Any (m w).0) }

module _ {W A : Type 0} {I : W → Type 0} {Q : A → Type 0} where
  pub Ensures-pure : (a : A) → Q a → Ensures I Q (pure a)
  unfolding pure
  Ensures-pure a q = record { at = λ w h. (h, q) }

  pub Ensures-raise : (e : Err) → Ensures I Q (raise e)
  unfolding raise
  Ensures-raise e = record { at = λ w h. (h, tt) }

  pub Ensures-lift : (r : Result A) → Holds Q r → Ensures I Q (lift r)
  unfolding lift
  Ensures-lift r q = record { at = λ w h. (h, q) }

  pub Ensures-ask :
      (question : Ask W A)
      → ((w : W) → I w → I (question w).1 × Q (question w).0)
      → Ensures I Q (ask question)
  unfolding ask
  Ensures-ask question keeps = record { at = keeps }

  pub Ensures-if :
      (b : Bool) (m n : Effect W A)
      → (b ≡ true → Ensures I Q m)
      → (b ≡ false → Ensures I Q n)
      → Ensures I Q (if b then m else n)
  Ensures-if true m n km kn = km refl
  Ensures-if false m n km kn = kn refl

pub settled : (o : Option Err) → Holds Any (settle o)
settled none = tt
settled (some e) = tt

pub Ensures-run :
    {W : Type 0} {I : W → Type 0} (call : Ask W (Option Err))
    → ((w : W) → I w → I (call w).1)
    → Ensures I Any (run call)
unfolding run
Ensures-run call keeps = record { at = λ w h. (keeps w h, settled (call w).0) }

module _ {W A B : Type 0} {I : W → Type 0} {Q : A → Type 0} {R : B → Type 0} where
  pub Ensures-follow :
      (r : Result A) (f : A → Effect W B)
      → Holds Q r
      → ((a : A) → Q a → Ensures I R (f a))
      → Ensures I R (follow r f)
  Ensures-follow (ok a) f q kf = record { at = (kf a q).at }
  Ensures-follow (err e) f q kf = record { at = λ w h. (h, tt) }

  pub Ensures-bind :
      (m : Effect W A) (f : A → Effect W B)
      → Ensures I Q m
      → ((a : A) → Q a → Ensures I R (f a))
      → Ensures I R (m >>= f)
  unfolding ◌>>=◌
  Ensures-bind m f km kf = record {
    at = λ w h. let (kept, q) = km.at w h in (Ensures-follow (m w).0 f q kf).at (m w).1 kept;
  }

-- The rule for `on`: both continuations from where the effect left the world.
pub on-Ensures :
    {W A B : Type 0} {I : W → Type 0} {Q : A → Type 0} (G : B × W → Type 0) (r : Result A × W)
    (failed : Err → Ask W B) (next : A → Ask W B)
    → I r.1 × Holds Q r.0
    → ((e : Err) (w : W) → I w → G (failed e w))
    → ((a : A) (w : W) → I w → Q a → G (next a w))
    → G (on r failed next)
on-Ensures G (ok a, w) failed next h bad good = good a w h.0 h.1
on-Ensures G (err e, w) failed next h bad good = bad e w h.0

-- The same with what is known of the error.
pub on-Ensures_cause :
    {W A B : Type 0} {I : W → Type 0} {Q : A → Type 0} (G : B × W → Type 0) (P : Err → Type 0)
    (r : Result A × W) (failed : Err → Ask W B) (next : A → Ask W B)
    → I r.1 × Holds Q r.0
    → ((e : Err) → r.0 ≡ err e → P e)
    → ((e : Err) (w : W) → I w → P e → G (failed e w))
    → ((a : A) (w : W) → I w → Q a → G (next a w))
    → G (on r failed next)
on-Ensures_cause G P (ok a, w) failed next h cause bad good = good a w h.0 h.1
on-Ensures_cause G P (err e, w) failed next h cause bad good = bad e w h.0 (cause e refl)

pub on_cases :
    {W A B : Type 0} (G : B × W → Type 0) (r : Result A × W) (failed : Err → Ask W B)
    (next : A → Ask W B)
    → ((e : Err) (w : W) → G (failed e w))
    → ((a : A) (w : W) → G (next a w))
    → G (on r failed next)
on_cases G (ok a, w) failed next bad good = good a w
on_cases G (err e, w) failed next bad good = bad e w
