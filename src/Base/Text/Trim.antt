-- ===== src/Base/Text/Trim.antt =====
-- Trimming a text twice is trimming it once.
use zheng_harness.Base.Tests.{Bool-cases}
use zheng_harness.Base.Text.{is_space, is_nil, trim_left, trim_right, trim_space}
use Prim.Native.String.{String}
use mathlib.Core.Bool.{Bool, true, not, ◌&&◌}
use mathlib.Core.Logic.{inl, inr}
use mathlib.Core.Path.{◌≡◌, refl, ap, ◌∙◌}
use native.Mathlib.Omega.{arith}

-- The text does not start with white space.
abbrev starts_plain : String → Bool
starts_plain String.[] = true
starts_plain (String.◌∷◌ c s) = not (is_space c)

starts_plain-trim_left : (s : String) → starts_plain (trim_left s) ≡ true
unfolding trim_left
starts_plain-trim_left String.[] = refl
starts_plain-trim_left (String.◌∷◌ c s) = elim (Bool-cases (is_space c)) [
  | inl space ↦ rw space (starts_plain-trim_left s)
  | inr plain ↦ rw (plain, plain) refl
]

trim_left_plain : (s : String) → starts_plain s ≡ true → trim_left s ≡ s
unfolding trim_left
trim_left_plain String.[] h = refl
trim_left_plain (String.◌∷◌ c s) h = ground (arith, h)

starts_plain-trim_right : (s : String) → starts_plain s ≡ true → starts_plain (trim_right s) ≡ true
unfolding trim_right
starts_plain-trim_right String.[] h = refl
starts_plain-trim_right (String.◌∷◌ c s) h = elim (Bool-cases (is_space c)) [
  | inl space ↦ ground (arith, h)
  | inr plain ↦ rw (plain, plain) refl
]

trim_right_again : (s : String) → trim_right (trim_right s) ≡ trim_right s
unfolding trim_right
trim_right_again String.[] = refl
trim_right_again (String.◌∷◌ c s) = elim (Bool-cases (is_space c && is_nil (trim_right s))) [
  | inl gone ↦ rw (gone) refl
  | inr kept ↦ rw (kept, trim_right_again s, kept) refl
]

pub trim_space_again : (s : String) → trim_space (trim_space s) ≡ trim_space s
unfolding trim_space
trim_space_again s =
    let plain = starts_plain-trim_right (trim_left s) (starts_plain-trim_left s) in
    ap trim_right (trim_left_plain (trim_right (trim_left s)) plain)
    ∙ trim_right_again (trim_left s)
