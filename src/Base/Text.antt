-- ===== src/Base/Text.antt =====
-- The functions of Go's package strings that the program calls, over the characters of a text.
pub mod Trim
pub mod Words
use Prim.Native.Char.{Char, code}
use zheng_harness.Base.Tests.{◌==◌, if◌then◌else◌, leb, ◌=ℕ◌}
use Prim.Native.Nat.{ℕ, ◌+◌}
use Prim.Native.String.{String}
use mathlib.Core.Bool.{Bool, true, false, not, ◌&&◌, ◌||◌}
use mathlib.Core.Path.{◌≡◌, refl}

-- `unicode.IsSpace`
unfoldable pub is_space : Char → Bool
is_space c =
    let n = code c in
    (leb 9 n && leb n 13)
    || n =ℕ 32
    || n =ℕ 0x85
    || n =ℕ 0xA0
    || n =ℕ 0x1680
    || (leb 0x2000 n && leb n 0x200A)
    || n =ℕ 0x2028
    || n =ℕ 0x2029
    || n =ℕ 0x202F
    || n =ℕ 0x205F
    || n =ℕ 0x3000

unfoldable pub trim_left : String → String
unfolding is_space
trim_left String.[] = String.[]
trim_left (String.◌∷◌ c s) = let rest = trim_left s in if is_space c then rest else String.◌∷◌ c s

abbrev pub is_nil : String → Bool
is_nil String.[] = true
is_nil (String.◌∷◌ c s) = false

unfoldable pub trim_right : String → String
unfolding is_space
trim_right String.[] = String.[]
trim_right (String.◌∷◌ c s) =
    let rest = trim_right s in if is_space c && is_nil rest then String.[] else String.◌∷◌ c rest

-- `strings.TrimSpace`
unfoldable pub trim_space : String → String
unfolding trim_left trim_right
trim_space s = trim_right (trim_left s)

trim_space_sample : trim_space "  a b " == "a b" ≡ true
unfolding trim_space
trim_space_sample = refl

-- `unicode.SimpleFold` on ASCII letters; other letters are compared as they are.
abbrev fold_char : Char → ℕ
fold_char c = let n = code c in if leb 65 n && leb n 90 then n + 32 else n

abbrev pub is_blank : String → Bool
is_blank s = trim_space s == ""

-- `strings.EqualFold`
unfoldable pub equal_fold : String → String → Bool
equal_fold String.[] String.[] = true
equal_fold (String.◌∷◌ c s) (String.◌∷◌ d t) = fold_char c =ℕ fold_char d && equal_fold s t
equal_fold _ _ = false

abbrev has_slash : String → Bool
has_slash String.[] = false
has_slash (String.◌∷◌ c s) = code c =ℕ b'/' || has_slash s

-- `filepath.Ext`: from the last dot of the last element on.
unfoldable pub extension : String → String
extension String.[] = ""
extension (String.◌∷◌ c s) =
    let later = extension s in
    if not (is_nil later)
    then later
    else if code c =ℕ b'.' && not (has_slash s)
    then String.◌∷◌ c s
    else ""

abbrev drop_trailing_slashes : String → String
drop_trailing_slashes String.[] = String.[]
drop_trailing_slashes (String.◌∷◌ c s) =
    let rest = drop_trailing_slashes s in
    if code c =ℕ b'/' && is_nil rest then String.[] else String.◌∷◌ c rest

abbrev after_last_slash : String → String
after_last_slash String.[] = String.[]
after_last_slash (String.◌∷◌ c s) =
    let later = after_last_slash s in
    if has_slash s then later else if code c =ℕ b'/' then s else String.◌∷◌ c s

-- `filepath.Base` where the separator is a slash.
unfoldable pub base_name : String → String
base_name s =
    if is_nil s
    then "."
    else let element = after_last_slash (drop_trailing_slashes s) in
      if is_nil element then "/" else element

paths :
    (extension "a.b/c.so" ≡ ".so")
    × (extension "a.b/c" ≡ "")
    × (base_name "a/b.so//" ≡ "b.so")
    × (base_name "//" ≡ "/")
    × (equal_fold ".SO" ".so" ≡ true)
unfolding extension base_name equal_fold
paths = (refl, refl, refl, refl, refl)
