-- ===== src/Schema/Version.antt =====
-- pkg/schema/store.go: collector versions, their order, and the nearest older one.
pub mod Order
pub mod Nearest
use Prim.Native.Char.{Char, code}
use Prim.Native.Nat.{Ordering, compare as compare_ℕ}
use Prim.Native.String.{compare as compare_text, then, ◌++◌ as str_append}
use otelcol_config_lint.Base.{
  Bool, List, Option, String, [], false, if◌then◌else◌, leb, length, nat_eq, none, not, some,
  string_eq, true, ℕ, ◌&&◌, ◌*◌, ◌+◌, ◌-◌, ◌==◌, ◌^◌, ◌||◌, ◌∷◌,
}
use otelcol_config_lint.Base.Order.Lists.{at_most}
use otelcol_config_lint.Base.Text.{codes, cut, trim_space}

abbrev pub latest : String
latest = "latest"

-- `strings.TrimPrefix` and `strings.HasPrefix` at "v"
abbrev pub without_v : String → String
without_v String.[] = String.[]
without_v (String.◌∷◌ c s) = if code c == b'v' then s else String.◌∷◌ c s

abbrev pub has_v : String → Bool
has_v String.[] = false
has_v (String.◌∷◌ c s) = code c == b'v'

unfoldable pub normalize : String → String
unfolding trim_space
normalize v =
    let t = trim_space v in
    if t == "" || t == latest then t else if has_v t then t else str_append "v" t

-- `strings.Split` at one character
abbrev pub push_char : Char → List String → List String
push_char c [] = String.◌∷◌ c String.[] ∷ []
push_char c (s ∷ ss) = String.◌∷◌ c s ∷ ss

unfoldable pub split : ℕ → String → List String
split sep String.[] = String.[] ∷ []
split sep (String.◌∷◌ c s) =
    let rest = split sep s in if code c == sep then String.[] ∷ rest else push_char c rest

abbrev pub is_digit : ℕ → Bool
is_digit c = leb b'0' c && leb c b'9'

-- the number that decimal digits write, behind the digits that `acc` stands for
unfoldable pub digits : ℕ → List ℕ → Option ℕ
digits acc [] = some acc
digits acc (c ∷ cs) =
    let rest = digits (acc * 10 + (c - b'0')) cs in if is_digit c then rest else none

abbrev pub max_int : ℕ
max_int = 2 ^ 63 - 1

in_range : Option ℕ → Option ℕ
in_range none = none
in_range (some n) = if leb n max_int then some n else none

-- `strconv.Atoi` of a text that holds no minus sign
unfoldable pub atoi : List ℕ → Option ℕ
unfolding in_range digits
atoi [] = none
atoi (c ∷ []) = in_range (digits 0 (c ∷ []))
atoi (c ∷ d ∷ cs) =
    if c == b'+' then in_range (digits 0 (d ∷ cs)) else in_range (digits 0 (c ∷ d ∷ cs))

-- a segment of a version: one that cannot be read counts as zero
unfoldable pub segment : String → ℕ
unfolding atoi codes
segment s = elim (atoi (codes s)) [ none ↦ 0 | some n ↦ n ]

-- `parseVersion`: the text in front of the first dash, split at two dots at most
unfoldable pub parse_version : String → ℕ × ℕ × ℕ
unfolding normalize cut segment
parse_version v =
    let first = cut b'.' (cut b'-' (without_v (normalize v))).before in
    let second = cut b'.' first.after in
    (segment first.before, segment second.before, segment second.after)

unfoldable pub prerelease : String → String
unfolding normalize cut
prerelease v = (cut b'-' (normalize v)).after

abbrev pub all_digits : List ℕ → Bool
all_digits [] = true
all_digits (c ∷ cs) = is_digit c && all_digits cs

unfoldable pub is_numeric : String → Bool
unfolding codes
is_numeric s = not (s == "") && all_digits (codes s)

abbrev pub trim_zeros : String → String
trim_zeros String.[] = String.[]
trim_zeros (String.◌∷◌ c s) =
    let rest = trim_zeros s in if code c == b'0' then rest else String.◌∷◌ c s

unfoldable pub trim_leading_zeros : String → String
trim_leading_zeros s = let trimmed = trim_zeros s in if trimmed == "" then "0" else trimmed

-- `len`, of a text of digits
abbrev pub size : String → ℕ
size s = length (codes s)

unfoldable pub compare_numeric : String → String → Ordering
unfolding trim_leading_zeros codes
compare_numeric a b =
    let x = trim_leading_zeros a in
    let y = trim_leading_zeros b in
    if not (size x == size y) then compare_ℕ (size x) (size y) else compare_text x y

unfoldable pub compare_identifier : String → String → Ordering
unfolding compare_numeric is_numeric
compare_identifier a b =
    if is_numeric a && is_numeric b
    then compare_numeric a b
    else if is_numeric a
    then Ordering.lt
    else if is_numeric b
    then Ordering.gt
    else compare_text a b

-- the loop over the fields that both have, and the difference of their numbers behind it
pub compare_fields : List String → List String → Ordering
unfolding compare_identifier
compare_fields [] [] = Ordering.eq
compare_fields [] (_ ∷ _) = Ordering.lt
compare_fields (_ ∷ _) [] = Ordering.gt
compare_fields (x ∷ xs) (y ∷ ys) =
    let here = compare_identifier x y in
    let rest = compare_fields xs ys in elim here [ Ordering.eq ↦ rest | o ↦ o ]

unfoldable pub compare_prerelease : String → String → Ordering
unfolding compare_fields split
compare_prerelease ra rb = compare_fields (split b'.' ra) (split b'.' rb)

-- the end of `Compare`, behind the three segments
pub compare_suffix : String → String → Ordering
unfolding compare_prerelease
compare_suffix ra rb =
    if ra == rb
    then Ordering.eq
    else if ra == ""
    then Ordering.gt
    else if rb == ""
    then Ordering.lt
    else compare_prerelease ra rb

-- `Compare`, of whose result only the sign is read
unfoldable pub compare_version : String → String → Ordering
unfolding parse_version prerelease compare_suffix
compare_version a b =
    let pa = parse_version a in
    let pb = parse_version b in
    if not (pa.0 == pb.0)
    then compare_ℕ pa.0 pb.0
    else if not (pa.1 == pb.1)
    then compare_ℕ pa.1 pb.1
    else if not (pa.2 == pb.2)
    then compare_ℕ pa.2 pb.2
    else compare_suffix (prerelease a) (prerelease b)

-- `Nearest`
unfoldable pub nearest : List String → String → Option String
unfolding compare_version
nearest [] version = none
nearest (v ∷ vs) version =
    let later = nearest vs version in if at_most (compare_version v version) then some v else later
