-- ===== src/Rule/Words.antt =====
-- pkg/rule/text.go: how findings are phrased, and the closest match that a hint suggests.
pub mod Distance
pub mod Suggestion
use Prim.Native.Char.{Char, code}
use Prim.Native.String.{◌++◌ as str_append}
use otelcol_config_lint.Base.{
  not, Bool, List, Option, String, [], false, if◌then◌else◌, length, ltb, min, nat_eq, none, some,
  string_eq, take, true, ℕ, ◌&&◌, ◌++◌, ◌+◌, ◌==◌, ◌||◌, ◌∷◌,
}
use otelcol_config_lint.Base.Text.{cut, same_codes, codes, to_lower, utf8}

unfoldable pub quote : String → String
quote s = str_append "\"" (str_append s "\"")

-- `strings.Join` by ", "
joined : List String → String
joined [] = ""
joined (x ∷ []) = x
joined (x ∷ y ∷ rest) = str_append x (str_append ", " (joined (y ∷ rest)))

-- `List`
unfoldable pub list : List String → String
unfolding joined
list items = joined (if ltb 8 (length items) then take 8 items ++ "..." ∷ [] else items)

first_code : String → ℕ
first_code String.[] = 0
first_code (String.◌∷◌ c s) = code c

is_vowel : ℕ → Bool
is_vowel c = c == b'a' || c == b'e' || c == b'i' || c == b'o' || c == b'u'

-- `Article`: no text starts with the code point 0, which stands for an empty one
unfoldable pub article : String → String
unfolding first_code is_vowel
article word = if is_vowel (first_code word) then "an" else "a"

-- One round of the inner loop of `editDistance` after another: `left` is `curr[j-1]`, and the row
-- that is read starts at `prev[j-1]`.
pub fill : ℕ → ℕ → List ℕ → List ℕ → List ℕ
fill c left (y ∷ b) (diagonal ∷ above ∷ prev) =
    let cost = if c == y then 0 else 1 in
    let cell = min (above + 1) (min (left + 1) (diagonal + cost)) in
    cell ∷ fill c cell b (above ∷ prev)
fill c left _ _ = []

-- the outer loop, from the row of the first `i` bytes of `a`
pub rows : ℕ → List ℕ → List ℕ → List ℕ → List ℕ
unfolding fill
rows i [] b prev = prev
rows i (c ∷ a) b prev = rows (i + 1) a b ((i + 1) ∷ fill c (i + 1) b prev)

-- `prev[j] = j`
pub count_from : ℕ → List ℕ → List ℕ
count_from j [] = j ∷ []
count_from j (y ∷ b) = j ∷ count_from (j + 1) b

-- `prev[len(b)]`
pub last_of : List ℕ → ℕ
last_of [] = 0
last_of (x ∷ []) = x
last_of (x ∷ y ∷ row) = last_of (y ∷ row)

-- `editDistance`, over bytes
unfoldable pub edit_distance : List ℕ → List ℕ → ℕ
unfolding rows count_from last_of
edit_distance a b = last_of (rows 0 a b (count_from 0 b))

-- `strings.CutSuffix`
cut_suffix : List ℕ → List ℕ → Option (List ℕ)
cut_suffix suffix [] = if same_codes [] suffix then some [] else none
cut_suffix suffix (x ∷ xs) =
    let shorter = cut_suffix suffix xs in
    if same_codes (x ∷ xs) suffix
    then some []
    else elim shorter [ none ↦ none | some stem ↦ some (x ∷ stem) ]

-- the loop over the suffixes, which stops at the first that leaves something
without_suffix : List (List ℕ) → List ℕ → List ℕ
unfolding cut_suffix
without_suffix [] got = got
without_suffix (suffix ∷ rest) got =
    let next = without_suffix rest got in
    elim (cut_suffix suffix got) [
      | none ↦ next
      | some stem ↦ if same_codes stem [] then next else stem
    ]

kind_suffixes : List (List ℕ)
unfolding codes
kind_suffixes =
    codes "receiver"
    ∷ codes "processor"
    ∷ codes "exporter"
    ∷ codes "extension"
    ∷ codes "connector"
    ∷ []

-- `strings.ReplaceAll(s, "_", "")`
pub squash : List ℕ → List ℕ
squash [] = []
squash (c ∷ cs) = let rest = squash cs in if c == b'_' then rest else c ∷ rest

unfoldable pub trimmed_of : String → List ℕ
unfolding without_suffix kind_suffixes to_lower
trimmed_of got = without_suffix kind_suffixes (to_lower got)

-- The loop over the candidates, with the best one so far and its distance.
unfoldable pub best_among : List ℕ → String → ℕ → List String → Option String
unfolding squash edit_distance codes utf8
best_among trimmed best best_distance [] = if best == "" then none else some best
best_among trimmed best best_distance (c ∷ rest) =
    let distance = edit_distance (utf8 trimmed) (utf8 (codes c)) in
    let closer = ltb distance best_distance in
    let later =
      best_among trimmed (if closer then c else best) (if closer then distance else best_distance)
        rest in
    if same_codes (squash (codes c)) (squash trimmed) then some c else later

-- `bestMatch`
unfoldable pub best_match : String → List String → Option String
unfolding best_among trimmed_of
best_match got candidates = best_among (trimmed_of got) "" 3 candidates

-- `Suggest`
unfoldable pub suggest : String → List String → String
unfolding best_match quote
suggest got candidates = elim (best_match got candidates) [
  | none ↦ ""
  | some best ↦ str_append "; did you mean " (str_append (quote best) "?")
]

-- `ComponentOf`: the first two of the parts that `SplitN` cuts at the first two dots
unfoldable pub component_of : String → String
unfolding cut
component_of path =
    let first = cut b'.' path in
    if not first.found
    then path
    else str_append first.before (str_append "." (cut b'.' first.after).before)

-- `ShortPath`: the third of these parts
unfoldable pub short_path : String → String
unfolding cut
short_path path =
    let second = cut b'.' (cut b'.' path).after in if second.found then second.after else path
