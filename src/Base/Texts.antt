-- ===== src/Base/Texts.antt =====
-- Texts as native strings: joining, the functions of Go's packages `strings` and `strconv` that the
-- code calls, and the instants and spans of package `time` in nanoseconds.
use Prim.Native.Char.{code}
use Prim.Native.Nat.{ℕ, zero, suc, ◌+◌, ◌*◌, ◌/◌, ◌%◌}
use Prim.Native.String
use Prim.Native.String.{String}
use mathlib.Core.Bool.{Bool, true, false, ◌&&◌, ◌||◌}
use text.Mathlib.Text.{◌==◌}
use clawdh.Base.Tests.{ltb, leb, nat_eq, if◌then◌else◌}

infixr 65 ◌<>◌
-- `s + t` on strings.
abbrev pub ◌<>◌ : String → String → String
s <> t = String.◌++◌ s t

-- unicode.IsSpace
unfoldable pub is_space : ℕ → Bool
is_space c =
    (leb 9 c && leb c 13)
    || nat_eq c 32
    || nat_eq c 0x85
    || nat_eq c 0xA0
    || nat_eq c 0x1680
    || (leb 0x2000 c && leb c 0x200A)
    || nat_eq c 0x2028
    || nat_eq c 0x2029
    || nat_eq c 0x202F
    || nat_eq c 0x205F
    || nat_eq c 0x3000

unfoldable pub trim_left : String → String
trim_left String.[] = ""
trim_left (String.◌∷◌ c s) = elim (is_space (code c)) [
  | true ↦ trim_left s
  | false ↦ String.◌∷◌ c s
]

unfoldable pub trim_right : String → String
trim_right String.[] = ""
trim_right (String.◌∷◌ c s) =
    let rest = trim_right s in if is_space (code c) && rest == "" then "" else String.◌∷◌ c rest

-- strings.TrimSpace
unfoldable pub trim_space : String → String
unfolding is_space trim_left trim_right
trim_space s = trim_right (trim_left s)

-- The lower case of an ASCII letter; any other code point as it is.
unfoldable pub lower : ℕ → ℕ
lower c = if leb b'A' c && leb c b'Z' then c + 32 else c

-- strings.EqualFold, on ASCII letters.
unfoldable pub equal_fold : String → String → Bool
unfolding lower
equal_fold String.[] String.[] = true
equal_fold String.[] (String.◌∷◌ d t) = false
equal_fold (String.◌∷◌ c s) String.[] = false
equal_fold (String.◌∷◌ c s) (String.◌∷◌ d t) =
    nat_eq (lower (code c)) (lower (code d)) && equal_fold s t

-- strings.HasPrefix
unfoldable pub has_prefix : String → String → Bool
has_prefix s String.[] = true
has_prefix String.[] (String.◌∷◌ d t) = false
has_prefix (String.◌∷◌ c s) (String.◌∷◌ d t) = nat_eq (code c) (code d) && has_prefix s t

-- strings.TrimPrefix, of a prefix that is there.
unfoldable pub without_prefix : String → String → String
without_prefix s String.[] = s
without_prefix String.[] (String.◌∷◌ d t) = ""
without_prefix (String.◌∷◌ c s) (String.◌∷◌ d t) = without_prefix s t

has_prefix_in_lower : String → String → Bool
unfolding lower
has_prefix_in_lower s String.[] = true
has_prefix_in_lower String.[] (String.◌∷◌ d t) = false
has_prefix_in_lower (String.◌∷◌ c s) (String.◌∷◌ d t) =
    nat_eq (lower (code c)) (code d) && has_prefix_in_lower s t

-- `strings.Contains(strings.ToLower(s), t)`, on ASCII letters.
unfoldable pub contains_in_lower : String → String → Bool
unfolding has_prefix_in_lower
contains_in_lower String.[] t = has_prefix_in_lower "" t
contains_in_lower (String.◌∷◌ c s) t =
    has_prefix_in_lower (String.◌∷◌ c s) t || contains_in_lower s t

unfoldable pub digit : ℕ → String
digit n =
    if nat_eq n 0
    then "0"
    else if nat_eq n 1
    then "1"
    else if nat_eq n 2
    then "2"
    else if nat_eq n 3
    then "3"
    else if nat_eq n 4
    then "4"
    else if nat_eq n 5
    then "5"
    else if nat_eq n 6
    then "6"
    else if nat_eq n 7
    then "7"
    else if nat_eq n 8
    then "8"
    else "9"

unfoldable pub itoa_loop : ℕ → ℕ → String → String
itoa_loop zero n acc = acc
itoa_loop (suc fuel) n acc =
    let rest = itoa_loop fuel (n / 10) (digit (n % 10) <> acc) in
    if ltb n 10 then digit n <> acc else rest

-- strconv.Itoa on a number that is not negative; a number has fewer digits than its successor's
-- value.
unfoldable pub itoa : ℕ → String
unfolding digit itoa_loop
itoa n = itoa_loop (suc n) n ""

-- Instants count nanoseconds from Go's zero time, so that `t.IsZero()` is `t = 0`.
abbrev pub second : ℕ
second = 1_000_000_000

abbrev pub minute : ℕ
minute = 60 * second

abbrev pub hour : ℕ
hour = 60 * minute

abbrev pub day : ℕ
day = 24 * hour

abbrev pub is_zero : ℕ → Bool
is_zero t = nat_eq t 0
