-- ===== src/Tests/Switching.antt =====
-- internal/switching and internal/cli: a session that is to move to an account shared with the machine.
use clawdh.Base.{
  if◌then◌else◌, ◌==◌, ◌≡◌, ◌≢◌, refl, inr, String, true, false, List, [], ◌∷◌, Option, none, some,
  All, has_prefix, trim_space, equal_fold,
}
use native.Mathlib.Omega.{arith}
use clawdh.Switching.Triggers.{
  week, Rule, Float, finite, nan, moves, moves_at_nan, stays, parse_trigger, parse_rule_trigger,
}
use clawdh.Switching.Rules.{
  Desk, Session, Place, Machine, will_move, moving, unwritten, set_rule, hook_user_prompt_submit,
  apply_rule,
}
use clawdh.Switching.Relaunch.{without_session_args}
use clawdh.Switching.Moves.{Moved, apply_rule-Moved}
use clawdh.Switching.Told.{after_answers, set_rule-apply_rule}

-- A reader of one number.
unfoldable read_five : String → Option Float
read_five t =
    if t == "nan" then some nan else some (finite (record { minus = false; magnitude = 5 }))

abbrev five_of_the_week : Rule
five_of_the_week = record {
  account = "saif";
  shared = true;
  window = week;
  at_percent = 5;
  nonce = "";
}

rule_prompt :
    parse_rule_trigger read_five 100 "clawdh shared saif at 5%" ≡ some (moves five_of_the_week)
unfolding parse_rule_trigger read_five trim_space equal_fold
rule_prompt = refl

nan_prompt :
    parse_rule_trigger read_five 100 "clawdh shared saif at nan%"
    ≡ some (moves_at_nan (record five_of_the_week { at_percent = 0 }))
unfolding parse_rule_trigger read_five trim_space equal_fold
nan_prompt = refl

rule_prompt_is_no_switch : parse_trigger "clawdh shared saif at 5%" ≡ none
unfolding parse_trigger trim_space
rule_prompt_is_no_switch = refl

stay_prompt : parse_rule_trigger read_five 100 " clawdh  stay " ≡ some stays
unfolding parse_rule_trigger trim_space
stay_prompt = refl

switch_prompt : parse_trigger "clawdh switch work" ≡ some (record { name = "work"; shared = false })
unfolding parse_trigger trim_space
switch_prompt = refl

abbrev session : Session
session = record { slug = "work"; shared = false; nonce = "n1" }

abbrev place : Place
place = record {
  handoff_set = true;
  supervisor_alive = true;
  session = some session;
  knows_rules = true;
  folder_readable = true;
  rule_written = true;
  handoff_written = true;
}

abbrev lent : Machine
lent = record { accounts = some []; shares = "Saif" ∷ []; has_login = λ a. true }

abbrev desk : Desk
desk = record { rule = none; handoff = none }

told : (set_rule lent place five_of_the_week desk).0 ≡ will_move "Saif"
unfolding set_rule equal_fold
told = refl

-- Such a rule is not set.
nan_unwritten :
    hook_user_prompt_submit read_five 100 lent place "clawdh shared saif at nan" "s1" desk
    ≡ (some unwritten, desk)
unfolding hook_user_prompt_submit read_five trim_space equal_fold
nan_unwritten = refl

apply_rule-Moved_example :
    Moved session "s1"
      (some 7)
      (record desk { rule = some five_of_the_week })
      ((apply_rule place session "s1" (some 7) (record desk { rule = some five_of_the_week })).1)
apply_rule-Moved_example =
    apply_rule-Moved place session "s1" (some 7) (record desk { rule = some five_of_the_week })

saif-named : ◌≢◌ {A = String} "Saif" ""
saif-named h = cc

set_rule-apply_rule_example :
    All
      (λ u.
        apply_rule place session "s1" u ((set_rule lent place five_of_the_week desk).1)
        ≡ (none, (set_rule lent place five_of_the_week desk).1))
      (none ∷ some 4 ∷ [])
    × (apply_rule place session "s1" (some 7) (
          after_answers place session "s1"
            (none ∷ some 4 ∷ [])
            ((set_rule lent place five_of_the_week desk).1))
        ≡ (
          some (moving "Saif"),
          record {
            rule = none;
            handoff = some (record { account = "Saif"; session_id = "s1"; shared = true });
          },
        ))
set_rule-apply_rule_example =
    set_rule-apply_rule lent place session five_of_the_week desk "Saif" "s1" (none ∷ some 4 ∷ [])
      (some 7) refl told saif-named (omega arith, (omega arith, tt)) (inr (7, refl, omega arith))
      refl refl

abbrev launch : List String
launch = "-r" ∷ "xyz" ∷ "--model" ∷ "opus" ∷ "-c" ∷ []

kept_arguments : without_session_args launch ≡ "--model" ∷ "opus" ∷ []
unfolding without_session_args has_prefix
kept_arguments = refl
