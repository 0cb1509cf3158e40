-- ===== src/Switching/Triggers.antt =====
-- internal/switching/switching.go and rule.go: what a submitted prompt asks for. Numbers are read by a
-- parameter, which stands for strconv.ParseFloat; a percentage counts in some fixed fraction of a percent.
use Prim.Native.Char.{code}
use Prim.Native.String
use clawdh.Base.{
  ℕ, String, List, [], ◌∷◌, Option, none, some, Bool, true, false, not, ◌&&◌, ◌||◌, ◌==◌, ltb,
  nat_eq, is_space, trim_space, equal_fold, if◌then◌else◌,
}
use clawdh.Local.Names.{to_lower}

-- The first character of a text goes before the first word, if they touch.
unfoldable pub join_word : String → Bool → List String → List String
join_word c true (w ∷ ws) = String.◌++◌ c w ∷ ws
join_word c true [] = c ∷ []
join_word c false ws = c ∷ ws

unfoldable pub starts_word : String → Bool
unfolding is_space
starts_word String.[] = false
starts_word (String.◌∷◌ c s) = not (is_space (code c))

-- strings.Fields
unfoldable pub fields : String → List String
unfolding join_word starts_word
fields String.[] = []
fields (String.◌∷◌ c s) =
    let rest = fields s in
    if is_space (code c) then rest else join_word (String.◌∷◌ c "") (starts_word s) rest

-- ParseTrigger's result: the account, and whether it is a shared one.
pub record Trigger : Type 0 where
  pub name : String
  pub shared : Bool

unfoldable pub trigger_of : List String → Option Trigger
trigger_of (c ∷ name ∷ []) =
    if c == "clawdh" then some (record { name = name; shared = false }) else none
trigger_of (c ∷ word ∷ name ∷ []) =
    if c == "clawdh" && word == "switch"
    then some (record { name = name; shared = false })
    else if c == "clawdh" && word == "shared"
    then some (record { name = name; shared = true })
    else none
trigger_of _ = none

unfoldable pub parse_trigger : String → Option Trigger
unfolding fields trigger_of
parse_trigger prompt = trigger_of (fields (trim_space prompt))

pub data Window : Type 0 where
  week : Window
  five_hours : Window

pub record Number : Type 0 where
  pub minus : Bool
  pub magnitude : ℕ

-- What strconv.ParseFloat gives, which reads "nan" too.
pub data Float : Type 0 where
  finite : Number → Float
  nan : Float

-- A percentage that passes the test of the range, as NaN does.
pub data Percent : Type 0 where
  percent : ℕ → Percent
  nan_percent : Percent

-- Rule, without the time at which it was set.
pub record Rule : Type 0 where
  pub account : String
  pub shared : Bool
  pub window : Window
  pub at_percent : ℕ
  pub nonce : String  -- For

unfoldable pub without_percent_sign : String → String
without_percent_sign String.[] = ""
without_percent_sign (String.◌∷◌ c String.[]) = if nat_eq (code c) b'%' then "" else String.◌∷◌ c ""
without_percent_sign (String.◌∷◌ c (String.◌∷◌ d s)) =
    String.◌∷◌ c (without_percent_sign (String.◌∷◌ d s))

unfoldable pub window_of : String → Option Window
unfolding to_lower
window_of word =
    let w = to_lower word in
    if w == "week" || w == "weekly" || w == "wk" || w == "7d"
    then some week
    else if w == "5h" || w == "session" || w == "5-hour"
    then some five_hours
    else none

-- What the prompt asks for later; a rule with NaN for its percentage is one that json.Marshal refuses, and
-- at_percent is then 0.
pub data Later : Type 0 where
  moves : Rule → Later
  moves_at_nan : Rule → Later
  stays : Later

module _ (parse_float : String → Option Float) (hundred : ℕ) where
  unfoldable pub percent_of : String → Option Percent
  unfolding without_percent_sign
  percent_of word = elim (parse_float (without_percent_sign word)) [
    | none ↦ none
    | some nan ↦ some nan_percent
    | some (finite p) ↦
        if (p.minus && not (nat_eq p.magnitude 0)) || (not p.minus && ltb hundred p.magnitude)
        then none
        else some (percent p.magnitude)
  ]

  unfoldable pub parse_rule_args : List String → Option (Window × Percent)
  unfolding percent_of window_of
  parse_rule_args (word ∷ number ∷ []) =
      if equal_fold word "at"
      then elim (percent_of number) [ some p ↦ some (week, p) | none ↦ none ]
      else none
  parse_rule_args (word ∷ number ∷ window ∷ []) =
      if equal_fold word "at"
      then elim (percent_of number) [
        | none ↦ none
        | some p ↦ elim (window_of window) [ some w ↦ some (w, p) | none ↦ none ]
      ]
      else none
  parse_rule_args _ = none

  unfoldable pub rule_of : Bool → List String → Option Later
  unfolding parse_rule_args
  rule_of shared [] = none
  rule_of shared (account ∷ rest) = elim (parse_rule_args rest) [
    | none ↦ none
    | some (w, percent p) ↦ some (
        moves
          (record { account = account; shared = shared; window = w; at_percent = p; nonce = "" }))
    | some (w, nan_percent) ↦ some (
        moves_at_nan
          (record { account = account; shared = shared; window = w; at_percent = 0; nonce = "" }))
  ]

  -- The words behind "clawdh", four or more with it.
  unfoldable pub later_of : List String → Option Later
  unfolding rule_of
  later_of (word ∷ rest) =
      if word == "shared"
      then rule_of true rest
      else if word == "switch"
      then rule_of false rest
      else rule_of false (word ∷ rest)
  later_of [] = none

  unfoldable pub later_in : List String → Option Later
  unfolding later_of
  later_in (c ∷ word ∷ []) = if c == "clawdh" && word == "stay" then some stays else none
  later_in (c ∷ a ∷ b ∷ d ∷ rest) = if c == "clawdh" then later_of (a ∷ b ∷ d ∷ rest) else none
  later_in _ = none

  unfoldable pub parse_rule_trigger : String → Option Later
  unfolding fields later_in
  parse_rule_trigger prompt = later_in (fields (trim_space prompt))
