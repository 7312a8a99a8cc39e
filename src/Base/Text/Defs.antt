-- ===== src/Base/Text/Defs.antt =====
-- Go's `strings` functions on texts. A text is a sequence of code points: the program's texts are
-- valid UTF-8, on which byte order and code point order agree.
use Prim.Native.Char.{Char, code}
use Prim.Native.Nat.{ℕ, zero, suc, ◌+◌, ◌/◌, ◌%◌}
use Prim.Native.String.{String, [], ◌∷◌, ◌++◌, char_at}
use mathlib.Core.Bool.{Bool, true, false, ◌&&◌, ◌||◌}
use mathlib.Core.List
use mathlib.Core.List.{List}
use otelcol_config_lint.Base.Tests.{ltb, leb, nat_beq, if◌then◌else◌}

-- `unicode.IsSpace`
abbrev is_space_code : ℕ → Bool
is_space_code n =
    leb 9 n && leb n 13
    || nat_beq n 32
    || nat_beq n 0x85
    || nat_beq n 0xa0
    || nat_beq n 0x1680
    || leb 0x2000 n && leb n 0x200a
    || nat_beq n 0x2028
    || nat_beq n 0x2029
    || nat_beq n 0x202f
    || nat_beq n 0x205f
    || nat_beq n 0x3000

unfoldable pub is_space : Char → Bool
is_space c = is_space_code (code c)

unfoldable pub trim_left : String → String
trim_left [] = []
trim_left (c ∷ s) = let rest = trim_left s in if is_space c then rest else c ∷ s

abbrev pub trim_right_cons : Char → String → String
trim_right_cons c [] = if is_space c then [] else c ∷ []
trim_right_cons c (d ∷ r) = c ∷ d ∷ r

unfoldable pub trim_right : String → String
trim_right [] = []
trim_right (c ∷ s) = trim_right_cons c (trim_right s)

-- `strings.TrimSpace`
unfoldable pub trim_space : String → String
unfolding trim_left trim_right is_space
trim_space s = trim_right (trim_left s)

-- `strings.Cut` at a separator of one character
pub record Cut : Type 0 where
  pub before : String
  pub after : String
  pub found : Bool

unfoldable pub cut : ℕ → String → Cut
cut sep [] = record { before = []; after = []; found = false }
cut sep (c ∷ s) =
    let rest = cut sep s in
    if nat_beq (code c) sep
    then record { before = []; after = s; found = true }
    else record rest { before = c ∷ rest.before }

-- The code points of a text: its bytes, if it is ASCII.
unfoldable pub codes : String → List ℕ
codes [] = List.[]
codes (c ∷ s) = List.◌∷◌ (code c) (codes s)

-- `unicode.ToLower`, exact for every code point whose lower case is ASCII; the others stay.
unfoldable pub lower_code : ℕ → ℕ
lower_code n =
    if leb b'A' n && leb n b'Z'
    then n + 32
    else if nat_beq n 0x130
    then b'i'
    else if nat_beq n 0x212a
    then b'k'
    else n

-- The code points of `strings.ToLower`.
unfoldable pub to_lower : String → List ℕ
unfolding lower_code
to_lower [] = List.[]
to_lower (c ∷ s) = List.◌∷◌ (lower_code (code c)) (to_lower s)

abbrev digit : ℕ → Char
digit n = char_at "0123456789" n

-- the decimal digits of `n` in front of `rest`; the fuel is more than the digits
decimal : ℕ → ℕ → String → String
decimal zero n rest = rest
decimal (suc fuel) n rest =
    let shown = digit (n % 10) ∷ rest in
    let longer = decimal fuel (n / 10) shown in if ltb n 10 then shown else longer

-- `strconv.Itoa` of a number that is not negative
unfoldable pub itoa : ℕ → String
unfolding decimal
itoa n = decimal (suc n) n []

-- Texts one behind the other.
abbrev pub concat : List String → String
concat List.[] = []
concat (List.◌∷◌ s ss) = s ++ concat ss

-- The UTF-8 bytes of one code point, and of a text given by its code points.
utf8_of : ℕ → List ℕ
utf8_of c =
    if ltb c 0x80
    then List.◌∷◌ c List.[]
    else if ltb c 0x800
    then List.◌∷◌ (0xc0 + c / 64) (List.◌∷◌ (0x80 + c % 64) List.[])
    else if ltb c 0x10000
    then List.◌∷◌ (0xe0 + c / 4096)
        (List.◌∷◌ (0x80 + c / 64 % 64) (List.◌∷◌ (0x80 + c % 64) List.[]))
    else List.◌∷◌ (0xf0 + c / 262144) (
        List.◌∷◌ (0x80 + c / 4096 % 64)
          (List.◌∷◌ (0x80 + c / 64 % 64) (List.◌∷◌ (0x80 + c % 64) List.[])))

unfoldable pub utf8 : List ℕ → List ℕ
unfolding utf8_of
utf8 List.[] = List.[]
utf8 (List.◌∷◌ c cs) = List.◌++◌ (utf8_of c) (utf8 cs)

-- `==` on texts given by their code points
abbrev pub same_codes : List ℕ → List ℕ → Bool
same_codes List.[] List.[] = true
same_codes (List.◌∷◌ x xs) (List.◌∷◌ y ys) = nat_beq x y && same_codes xs ys
same_codes _ _ = false
