-- ===== src/Base/Text/Words.antt =====
-- More functions of Go's package strings: lower case, words, cutsets and substrings.
use Prim.Native.Char.{Char, code}
use Prim.Native.Nat.{◌-◌}
use Prim.Native.String.{String, char_at, find, len, ◌++◌}
use mathlib.Core.Bool.{Bool, true, false, ◌&&◌, ◌||◌}
use mathlib.Core.List.{List, [], ◌∷◌}
use mathlib.Core.Path.{◌≡◌, refl}
use zheng_harness.Base.Tests.{leb, ◌=ℕ◌, if◌then◌else◌}
use zheng_harness.Base.Text.{is_space, is_nil}

abbrev lower_char : Char → Char
lower_char c =
    let n = code c in
    if leb 65 n && leb n 90 then char_at "abcdefghijklmnopqrstuvwxyz" (n - 65) else c

-- `strings.ToLower` on ASCII letters; other letters are left as they are.
unfoldable pub to_lower : String → String
to_lower String.[] = String.[]
to_lower (String.◌∷◌ c s) = String.◌∷◌ (lower_char c) (to_lower s)

abbrev push_word : String → List String → List String
push_word word rest = if is_nil word then rest else word ∷ rest

-- The word that a text starts with, empty where it starts with white space, and the later words.
abbrev split_words : String → String × List String
split_words String.[] = (String.[], [])
split_words (String.◌∷◌ c s) =
    let (word, rest) = split_words s in
    if is_space c then (String.[], push_word word rest) else (String.◌∷◌ c word, rest)

-- `strings.Fields`
unfoldable pub fields : String → List String
unfolding is_space
fields s = let (word, rest) = split_words s in push_word word rest

abbrev in_cutset : String → Char → Bool
in_cutset String.[] c = false
in_cutset (String.◌∷◌ d set) c = code d =ℕ code c || in_cutset set c

abbrev cut_left : String → String → String
cut_left set String.[] = String.[]
cut_left set (String.◌∷◌ c s) =
    let rest = cut_left set s in if in_cutset set c then rest else String.◌∷◌ c s

abbrev cut_right : String → String → String
cut_right set String.[] = String.[]
cut_right set (String.◌∷◌ c s) =
    let rest = cut_right set s in
    if in_cutset set c && is_nil rest then String.[] else String.◌∷◌ c rest

-- `strings.Trim`
unfoldable pub trim_cutset : String → String → String
trim_cutset s set = cut_right set (cut_left set s)

-- `strings.Contains`
unfoldable pub contains_text : String → String → Bool
contains_text s part = leb (find s part) (len s)

-- `strings.Join`
unfoldable pub join : List String → String → String
join [] separator = ""
join (s ∷ []) separator = s
join (s ∷ t ∷ rest) separator = s ++ (separator ++ join (t ∷ rest) separator)

samples :
    (fields (to_lower " Fix the  BUG ") ≡ "fix" ∷ "the" ∷ "bug" ∷ [])
    × (trim_cutset "(a.b)." ".()" ≡ "a.b")
    × (contains_text "harness" "nes" ≡ true)
    × (contains_text "harness" "sen" ≡ false)
    × (join ("a" ∷ "b" ∷ []) "|" ≡ "a|b")
unfolding fields to_lower trim_cutset contains_text join
samples = (refl, refl, refl, refl, refl)
