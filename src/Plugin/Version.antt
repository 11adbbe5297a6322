-- ===== src/Plugin/Version.antt =====
-- internal/plugin/contract.go: contract versions MAJOR.MINOR.PATCH.
use Prim.Native.Char.{code}
use zheng_harness.Base.{
  ℕ, zero, suc, ◌+◌, ◌-◌, ◌*◌, ◌≡◌, refl, String, Bool, true, false, ◌&&◌, Option, none, some, List,
  [], ◌∷◌, leb, ◌=ℕ◌, if◌then◌else◌,
}
use zheng_harness.Base.Int.{ℤ, pos, negsuc}
use zheng_harness.Base.Text.{is_nil}

-- `strings.Split(s, sep)` for a separator of one byte: the first part and the others.
unfoldable pub split_on : ℕ → String → String × List String
split_on sep String.[] = ("", [])
split_on sep (String.◌∷◌ c s) =
    let (part, rest) = split_on sep s in
    if code c =ℕ sep then ("", part ∷ rest) else (String.◌∷◌ c part, rest)

-- The digits of strconv.Atoi, after the sign; `none` is a syntax error.
unfoldable pub read_digits : ℕ → String → Option ℕ
read_digits acc String.[] = some acc
read_digits acc (String.◌∷◌ c s) =
    let n = code c in
    let rest = read_digits (acc * 10 + (n - b'0')) s in
    if leb b'0' n && leb n b'9' then rest else none

unfoldable pub read_number : String → Option ℕ
unfolding read_digits
read_number s = if is_nil s then none else read_digits 0 s

abbrev max_int : ℕ
max_int = 9223372036854775807

abbrev as_positive : Option ℕ → Option ℤ
as_positive none = none
as_positive (some n) = if leb n max_int then some (pos n) else none

abbrev negate : ℕ → ℤ
negate zero = pos 0
negate (suc n) = negsuc n

abbrev as_negative : Option ℕ → Option ℤ
as_negative none = none
as_negative (some n) = if leb n (max_int + 1) then some (negate n) else none

-- `strconv.Atoi` for a 64-bit int; `none` is its error, of syntax or of range.
unfoldable pub atoi : String → Option ℤ
unfolding read_number
atoi String.[] = none
atoi (String.◌∷◌ c s) =
    let n = code c in
    if n =ℕ b'-'
    then as_negative (read_number s)
    else if n =ℕ b'+'
    then as_positive (read_number s)
    else as_positive (read_number (String.◌∷◌ c s))

abbrev three_numbers : Option ℤ → Option ℤ → Option ℤ → Option (ℤ × ℤ × ℤ)
three_numbers (some a) (some b) (some c) = some (a, b, c)
three_numbers _ _ _ = none

abbrev numbers : String × List String → Option (ℤ × ℤ × ℤ)
numbers (a, b ∷ c ∷ []) = three_numbers (atoi a) (atoi b) (atoi c)
numbers _ = none

-- `none` is the error `invalid semantic version`.
unfoldable pub parse_version : String → Option (ℤ × ℤ × ℤ)
unfolding split_on atoi
parse_version version = numbers (split_on b'.' version)

abbrev int_eq : ℤ → ℤ → Bool
int_eq (pos a) (pos b) = a =ℕ b
int_eq (negsuc a) (negsuc b) = a =ℕ b
int_eq _ _ = false

abbrev same_major : Option (ℤ × ℤ × ℤ) → Option (ℤ × ℤ × ℤ) → Option Bool
same_major (some a) (some b) = some (int_eq a.0 b.0)
same_major _ _ = none

unfoldable pub check_version_compat : String → String → Option Bool
unfolding parse_version
check_version_compat plugin_version host_version =
    same_major (parse_version plugin_version) (parse_version host_version)

abbrev pub contract_version : String
contract_version = "1.0.0"

pub data ContractError : Type 0 where
  nil_tool invalid_version version_mismatch : ContractError

abbrev contract_verdict : Option Bool → Option ContractError
contract_verdict none = some invalid_version
contract_verdict (some true) = none
contract_verdict (some false) = some version_mismatch

-- ValidateContract on the version that a tool declares.
unfoldable pub validate_contract : String → Option ContractError
unfolding check_version_compat
validate_contract version = contract_verdict (check_version_compat version contract_version)

samples :
    (validate_contract "1.7.3" ≡ none)
    × (validate_contract "2.0.0" ≡ some version_mismatch)
    × (validate_contract "1.0" ≡ some invalid_version)
    × (validate_contract "1..0" ≡ some invalid_version)
    × (parse_version "+1.-2.010" ≡ some (pos 1, negsuc 1, pos 10))
unfolding validate_contract
samples = (refl, refl, refl, refl, refl)
