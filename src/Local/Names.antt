-- ===== src/Local/Names.antt =====
-- internal/accounts/manager.go: the short names of accounts, and the search for one that is not taken.
use Prim.Native.Char.{Char, char, code, IsScalar}
use Prim.Native.Nat.{compare, Ordering}
use clawdh.Base.{
  ℕ, zero, suc, ◌+◌, ◌≡◌, refl, arith, String, Bool, true, false, ◌&&◌, ◌||◌, ◌==◌, ◌<>◌, leb,
  nat_eq, trim_space, itoa, if◌then◌else◌, Option, none, some,
}

pub small-IsScalar : (c : ℕ) → (leb b'A' c && leb c b'Z') ≡ true → IsScalar (c + 32)
small-IsScalar c h = let small : compare (c + 32) 55296 ≡ Ordering.lt = ground arith in rw small tt

lower_if : (c : Char) (b : Bool) → (leb b'A' (code c) && leb (code c) b'Z') ≡ b → Char
lower_if c true upper = char (code c + 32) (small-IsScalar (code c) upper)
lower_if c false other = c

lower_char : Char → Char
unfolding lower_if
lower_char c = lower_if c (leb b'A' (code c) && leb (code c) b'Z') refl

-- strings.ToLower, on ASCII letters.
unfoldable pub to_lower : String → String
unfolding lower_char
to_lower String.[] = ""
to_lower (String.◌∷◌ c s) = String.◌∷◌ (lower_char c) (to_lower s)

-- What nonSlugChars does not match.
unfoldable pub is_slug_char : ℕ → Bool
is_slug_char c = (leb b'a' c && leb c b'z') || (leb b'0' c && leb c b'9')

-- nonSlugChars.ReplaceAllString(s, "-"): a run becomes one dash; `inside` says that the run has its dash.
unfoldable pub dashed : Bool → String → String
unfolding is_slug_char
dashed inside String.[] = ""
dashed inside (String.◌∷◌ c s) = elim (is_slug_char (code c)) [
  | true ↦ String.◌∷◌ c (dashed false s)
  | false ↦ elim inside [ true ↦ dashed true s | false ↦ String.◌∷◌ (char 45 tt) (dashed true s) ]
]

-- strings.Trim(s, "-")
unfoldable pub trim_left_dashes : String → String
trim_left_dashes String.[] = ""
trim_left_dashes (String.◌∷◌ c s) = elim (nat_eq (code c) b'-') [
  | true ↦ trim_left_dashes s
  | false ↦ String.◌∷◌ c s
]

unfoldable pub trim_right_dashes : String → String
trim_right_dashes String.[] = ""
trim_right_dashes (String.◌∷◌ c s) =
    let rest = trim_right_dashes s in
    if nat_eq (code c) b'-' && rest == "" then "" else String.◌∷◌ c rest

unfoldable pub trim_dashes : String → String
unfolding trim_left_dashes trim_right_dashes
trim_dashes s = trim_right_dashes (trim_left_dashes s)

-- `s[:at]` for the first "@" of the text.
unfoldable pub before_at : String → Option String
before_at String.[] = none
before_at (String.◌∷◌ c s) = elim (nat_eq (code c) b'@') [
  | true ↦ some ""
  | false ↦ elim (before_at s) [ some t ↦ some (String.◌∷◌ c t) | none ↦ none ]
]

unfoldable pub has_space : String → Bool
has_space String.[] = false
has_space (String.◌∷◌ c s) = nat_eq (code c) b' ' || has_space s

-- The part of an email before its "@", where it names something.
unfoldable pub local_part : String → Option String
unfolding before_at has_space dashed trim_dashes
local_part s = elim (before_at s) [
  | none ↦ none
  | some t ↦
      if t == "" || has_space t
      then none
      else if trim_dashes (dashed false t) == ""
      then none
      else some (trim_dashes (dashed false t))
]

unfoldable pub slug_of : String → String
unfolding dashed trim_dashes
slug_of s = if trim_dashes (dashed false s) == "" then "account" else trim_dashes (dashed false s)

unfoldable pub slugify : String → String
unfolding to_lower local_part slug_of
slugify name =
    let s = to_lower (trim_space name) in
    elim (local_part s) [ some t ↦ slug_of t | none ↦ slug_of s ]

abbrev pub alias_for : String → String
alias_for slug = "claude-" <> slug

-- fmt.Sprintf("%s-%d", base, i)
unfoldable pub numbered : String → ℕ → String
numbered base i = base <> ("-" <> itoa i)

-- The loop of uniqueSlug and of uniqueAlias, for at most so many steps.
unfoldable pub first_free : (String → Bool) → String → ℕ → ℕ → String → String
unfolding numbered
first_free taken base zero i candidate = candidate
first_free taken base (suc fuel) i candidate = elim (taken candidate) [
  | true ↦ first_free taken base fuel (suc i) (numbered base i)
  | false ↦ candidate
]
