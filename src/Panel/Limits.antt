-- ===== src/Panel/Limits.antt =====
-- panel/limits.go: the ceilings on an account's weekly window. A fraction counts in millionths; the table of
-- the ceilings is behind the calls that read and write it, which are arguments.
pub mod Fullest
use clawdh.Base.{
  ℕ, ◌*◌, ◌/◌, String, List, [], ◌∷◌, Option, none, some, Bool, not, ◌&&◌, ◌||◌, ◌==◌, ltb, nat_eq,
  if◌then◌else◌, lookup, put, trim_space,
}
use clawdh.Local.Names.{to_lower}
use clawdh.Switching.Triggers.{Number}
use clawdh.Panel.Model.{Share, Data, live}
use clawdh.Panel.Roster.{account_name}
use clawdh.Panel.Answer.{Result, ok, refuse}

pub record Limit : Type 0 where
  pub id : String
  pub subject_type : String
  pub subject_id : String
  pub max_percent : ℕ

-- AccountWindow, as far as the ceilings read it.
pub record AccountWindow : Type 0 where
  pub account_id : String
  pub seven_d : ℕ
  pub seven_d_reset : ℕ

abbrev pub whole : ℕ
whole = 1_000_000

-- What is asked for: a ceiling of one, or of a hundred, is a full window.
pub record Asked : Type 0 where
  pub id : String
  pub subject_type : String
  pub subject_id : String
  pub max_percent : Number

unfoldable pub as_fraction : Number → Number
as_fraction p =
    if not p.minus && ltb whole p.magnitude then record p { magnitude = p.magnitude / 100 } else p

unfoldable pub in_range : Number → Bool
in_range p = not (p.minus || nat_eq p.magnitude 0) && not (ltb whole p.magnitude)

-- The part of handleSetLimit before the write.
unfoldable pub checked_limit : Asked → Result Limit
unfolding as_fraction in_range to_lower
checked_limit a =
    let subject_type = to_lower (trim_space a.subject_type) in
    let subject_id = trim_space a.subject_id in
    let p = as_fraction a.max_percent in
    if not (subject_type == "person") && not (subject_type == "account")
    then refuse 400 "A ceiling applies to a person or an account."
    else if subject_id == ""
    then refuse 400 "Pick which person or account this ceiling applies to."
    else if not (in_range p)
    then refuse 400 "A window ceiling is a percent between 0 and 100."
    else ok (record {
      id = a.id;
      subject_type = subject_type;
      subject_id = subject_id;
      max_percent = p.magnitude;
    })

-- byAccount
unfoldable pub by_account :
    List AccountWindow → List (String × AccountWindow) → List (String × AccountWindow)
by_account [] m = m
by_account (w ∷ windows) m = by_account windows (put w.account_id w m)

-- The window that a share of the person's gives, if they can use it.
unfoldable pub reading_of :
    List (String × AccountWindow) → String → ℕ → Share → Option AccountWindow
reading_of windows person_id now sh =
    if sh.person_id == person_id && live now sh then lookup sh.account_id windows else none

unfoldable pub fuller : Option AccountWindow → Option AccountWindow → Option AccountWindow
fuller best none = best
fuller none (some w) = some w
fuller (some b) (some w) = if ltb b.seven_d w.seven_d then some w else some b

-- The loop over the shares, from the best found so far.
unfoldable pub fullest_from :
    List (String × AccountWindow)
    → String
    → ℕ
    → Option AccountWindow
    → List Share
    → Option AccountWindow
unfolding reading_of fuller
fullest_from windows person_id now best [] = best
fullest_from windows person_id now best (sh ∷ shares) =
    fullest_from windows person_id now (fuller best (reading_of windows person_id now sh)) shares

unfoldable pub ceiling_window : Data → List AccountWindow → ℕ → Limit → Option AccountWindow
unfolding by_account fullest_from
ceiling_window d windows now l =
    if l.subject_type == "account"
    then lookup l.subject_id (by_account windows [])
    else fullest_from (by_account windows []) l.subject_id now none d.shares

-- A row of handleListLimits: the standing is none where there is nothing to measure against. The fraction is
-- given by its two parts.
pub record Row : Type 0 where
  pub limit : Limit
  pub standing : Option (ℕ × ℕ)
  pub window_account : String
  pub reset_at : ℕ

unfoldable pub row_of : Data → List AccountWindow → ℕ → Limit → Row
unfolding ceiling_window
row_of d windows now l = elim (ceiling_window d windows now l) [
  | none ↦ record { limit = l; standing = none; window_account = ""; reset_at = 0 }
  | some w ↦ record {
    limit = l;
    standing = some (w.seven_d, l.max_percent);
    window_account = account_name d w.account_id;
    reset_at = w.seven_d_reset;
  }
]
