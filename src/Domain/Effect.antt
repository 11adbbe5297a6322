-- ===== src/Domain/Effect.antt =====
-- Go functions that return a value or an error and act on the world outside the program: what was
-- done before an error stays done, so the world comes back beside the error too.
pub mod Ensures
use zheng_harness.Base.{Option, none, some}
use zheng_harness.Domain.Types.{Err}

pub data Result (A : Type 0) : Type 0 where
  ok : A → Result A
  err : Err → Result A

abbrev pub Effect : Type 0 → Type 0 → Type 0
Effect W A = W → Result A × W

abbrev pub Ask : Type 0 → Type 0 → Type 0
Ask W A = W → A × W

module _ {W A : Type 0} where
  unfoldable pub pure : A → Effect W A
  pure a w = (ok a, w)

  unfoldable pub raise : Err → Effect W A
  raise e w = (err e, w)

  -- A result that is computed without the world.
  unfoldable pub lift : Result A → Effect W A
  lift r w = (r, w)

  -- A question that always gets an answer.
  unfoldable pub ask : Ask W A → Effect W A
  ask question w = let (a, w') = question w in (ok a, w')

-- A call that returns an error or nil.
abbrev pub settle : Option Err → Result (Unit {0})
settle none = ok tt
settle (some e) = err e

unfoldable pub run : {W : Type 0} → Ask W (Option Err) → Effect W (Unit {0})
run call w = let (e, w') = call w in (settle e, w')

module _ {W A B : Type 0} where
  abbrev pub follow : Result A → (A → Effect W B) → Effect W B
  follow (ok a) f w = f a w
  follow (err e) f w = (err e, w)

  infixl 10 ◌>>=◌ ◌>>◌
  unfoldable pub ◌>>=◌ : Effect W A → (A → Effect W B) → Effect W B
  ◌>>=◌ m f w = let (r, w') = m w in follow r f w'

  abbrev pub ◌>>◌ : Effect W A → Effect W B → Effect W B
  m >> n = m >>= λ _. n

  -- `if err != nil { return handler(err) }`, and what comes after it.
  abbrev pub on : Result A × W → (Err → Ask W B) → (A → Ask W B) → B × W
  on (ok a, w) failed next = next a w
  on (err e, w) failed next = failed e w
