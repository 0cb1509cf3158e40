-- ===== src/Switching/Rules.antt =====
-- internal/cli/rule.go and cmd_hook.go, with the files of internal/switching/rule.go and switching.go: moves
-- that are set for later and carried out when an answer has finished, and switches that happen at once.
use clawdh.Base.{
  ℕ, String, List, Option, none, some, Bool, true, false, not, ◌&&◌, ◌||◌, ◌==◌, leb, nat_eq,
  equal_fold, find?, if◌then◌else◌,
}
use clawdh.Local.Manager.{Account}
use clawdh.Switching.Triggers.{
  week, five_hours, Rule, Trigger, Later, moves, moves_at_nan, stays, Float, parse_trigger,
  parse_rule_trigger,
}
use clawdh.Switching.Relaunch.{resolve_account}

pub record Handoff : Type 0 where
  pub account : String
  pub session_id : String
  pub shared : Bool

-- The two files of a supervisor.
pub record Desk : Type 0 where
  pub rule : Option Rule
  pub handoff : Option Handoff

-- sessions.Session, as far as the rules read it.
pub record Session : Type 0 where
  pub slug : String
  pub shared : Bool
  pub nonce : String

-- What the process finds around it, and whether its writes succeed.
pub record Place : Type 0 where
  pub handoff_set : Bool
  pub supervisor_alive : Bool
  pub session : Option Session
  pub knows_rules : Bool
  pub folder_readable : Bool
  pub rule_written : Bool
  pub handoff_written : Bool

-- The accounts of the machine, and the ones shared with it, by slug.
pub record Machine : Type 0 where
  pub accounts : Option (List Account)
  pub shares : List String
  pub has_login : Account → Bool

-- Why an account cannot be moved to.
pub data Trouble : Type 0 where
  no_share : Trouble
  unreadable_accounts : Trouble
  no_account : Trouble
  no_login : Trouble

-- What the person is told.
pub data Said : Type 0 where
  window_gone : Said
  not_supervised : Said
  older_session : Said
  no_target : Trouble → Said
  already_there : Said
  unwritten : Said
  unreadable_folder : Said
  will_move : String → Said
  cancelled : Rule → Said
  nothing_pending : Said
  cannot_stay : Said
  moving : String → Said

pub data Target : Type 0 where
  target : String → Target
  problem : Trouble → Target

-- resolveSwitchTarget
unfoldable pub resolve_switch_target : Machine → String → Bool → Target
unfolding resolve_account
resolve_switch_target m name true = elim (find? (λ slug. equal_fold slug name) m.shares) [
  | some slug ↦ target slug
  | none ↦ problem no_share
]
resolve_switch_target m name false = elim m.accounts [
  | none ↦ problem unreadable_accounts
  | some list ↦ elim (resolve_account list name) [
    | none ↦ problem no_account
    | some a ↦ if m.has_login a then target a.slug else problem no_login
  ]
]

-- ReadRule
unfoldable pub read_rule : Desk → Option Rule
read_rule d = elim d.rule [ none ↦ none | some r ↦ if r.account == "" then none else some r ]

unfoldable pub same_account : String → Bool → Session → Bool
same_account slug shared sess =
    equal_fold slug sess.slug && ((shared && sess.shared) || (not shared && not sess.shared))

-- setRule, once the session is known
unfoldable pub set_rule_in : Machine → Place → Session → Rule → Desk → Said × Desk
unfolding resolve_switch_target same_account
set_rule_in m p sess r d =
    if not p.knows_rules
    then (older_session, d)
    else elim (resolve_switch_target m r.account r.shared) [
      | problem why ↦ (no_target why, d)
      | target slug ↦
          if same_account slug r.shared sess
          then (already_there, d)
          else if p.rule_written
          then (
            will_move slug,
            record d { rule = some (record r { account = slug; nonce = sess.nonce }) },
          )
          else (unwritten, d)
    ]

-- setRule
unfoldable pub set_rule : Machine → Place → Rule → Desk → Said × Desk
unfolding set_rule_in
set_rule m p r d = elim r.window [
  | five_hours ↦ (window_gone, d)
  | week ↦
      if not p.handoff_set
      then (not_supervised, d)
      else elim p.session [ none ↦ (not_supervised, d) | some sess ↦ set_rule_in m p sess r d ]
]

-- stayMessage
unfoldable pub stay : Desk → Said × Desk
unfolding read_rule
stay d = elim (read_rule d) [
  | none ↦ (nothing_pending, record d { rule = none })
  | some r ↦ (cancelled r, record d { rule = none })
]

-- hookUserPromptSubmit, once a switch is asked for
unfoldable pub switch_now : Machine → Place → Trigger → String → Desk → Said × Desk
unfolding resolve_switch_target
switch_now m p t session_id d = elim (resolve_switch_target m t.name t.shared) [
  | problem why ↦ (no_target why, d)
  | target slug ↦
      if not p.folder_readable
      then (unreadable_folder, d)
      else if not p.handoff_set
      then (not_supervised, d)
      else if p.handoff_written
      then (
        moving slug,
        record d {
          handoff = some (record { account = t.name; session_id = session_id; shared = t.shared });
        },
      )
      else (unwritten, d)
]

-- What the hook prints, or nothing: then the prompt goes to the model.
unfoldable pub hook_of :
    Machine → Place → Option Later → Option Trigger → String → Desk → Option Said × Desk
unfolding set_rule stay switch_now
hook_of m p (some (moves r)) t session_id d = (some ((set_rule m p r d).0), (set_rule m p r d).1)
hook_of m p (some (moves_at_nan r)) t session_id d =
    let unwritable : Place = record p { rule_written = false } in
    (some ((set_rule m unwritable r d).0), (set_rule m unwritable r d).1)
hook_of m p (some stays) t session_id d =
    if p.handoff_set && p.supervisor_alive
    then (some ((stay d).0), (stay d).1)
    else (some cannot_stay, d)
hook_of m p none (some t) session_id d =
    (some ((switch_now m p t session_id d).0), (switch_now m p t session_id d).1)
hook_of m p none none session_id d = (none, d)

-- hookUserPromptSubmit
unfoldable pub hook_user_prompt_submit :
    (String → Option Float) → ℕ → Machine → Place → String → String → Desk → Option Said × Desk
unfolding hook_of parse_trigger parse_rule_trigger
hook_user_prompt_submit parse_float hundred m p prompt session_id d =
    hook_of m p (parse_rule_trigger parse_float hundred prompt) (parse_trigger prompt) session_id d

-- The usage that a rule waits for has been read.
unfoldable pub reached : Rule → Option ℕ → Bool
reached r used =
    if nat_eq r.at_percent 0 then true else elim used [ none ↦ false | some u ↦ leb r.at_percent u ]

unfoldable pub of_another : Rule → Session → Bool
of_another r sess = not (r.nonce == "") && not (r.nonce == sess.nonce)

-- applyRule, once a rule has been read
unfoldable pub apply_read_rule :
    Place → Session → String → Option ℕ → Rule → Desk → Option Said × Desk
unfolding reached of_another
apply_read_rule p sess session_id used r d =
    if of_another r sess then (none, record d { rule = none }) else elim r.window [
      | five_hours ↦ (some window_gone, record d { rule = none })
      | week ↦
          if not (reached r used)
          then (none, d)
          else if not p.folder_readable
          then (some unreadable_folder, d)
          else if p.handoff_written
          then (
            some (moving r.account),
            record {
              rule = none;
              handoff =
                  some (record { account = r.account; session_id = session_id; shared = r.shared });
            },
          )
          else (some unwritten, record d { rule = none })
    ]

-- applyRule
unfoldable pub apply_rule : Place → Session → String → Option ℕ → Desk → Option Said × Desk
unfolding apply_read_rule read_rule
apply_rule p sess session_id used d = elim (read_rule d) [
  | none ↦ (none, d)
  | some r ↦ apply_read_rule p sess session_id used r d
]
