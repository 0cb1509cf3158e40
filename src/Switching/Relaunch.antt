-- ===== src/Switching/Relaunch.antt =====
-- internal/switching/switching.go: the arguments of a relaunch, and the account that a name refers to.
use clawdh.Base.{
  ◌≡◌, ◌≢◌, String, List, [], ◌∷◌, Option, Bool, true, false, not, ◌&&◌, ◌||◌, ◌==◌, All,
  has_prefix, without_prefix, trim_space, equal_fold, any, find?, if◌then◌else◌,
}
use clawdh.Local.Names.{to_lower}
use clawdh.Local.Manager.{Account}

-- A flag that names a conversation, and its value is the next argument.
unfoldable pub takes_value : String → Bool
takes_value a = a == "--session-id" || a == "--resume" || a == "-r"

-- One that stands alone.
unfoldable pub stands_alone : String → Bool
stands_alone a =
    (a == "--continue" || a == "-c" || a == "--fork-session")
    || (has_prefix a "--session-id=" || has_prefix a "--resume=")

-- WithoutSessionArgs
unfoldable pub without_session_args : List String → List String
unfolding takes_value stands_alone
without_session_args [] = []
without_session_args (a ∷ []) = if takes_value a then [] else if stands_alone a then [] else a ∷ []
without_session_args (a ∷ b ∷ args) = elim (takes_value a) [
  | true ↦ without_session_args args
  | false ↦ elim (stands_alone a) [
    | true ↦ without_session_args (b ∷ args)
    | false ↦ a ∷ without_session_args (b ∷ args)
  ]
]

-- ResumeArgs
unfoldable pub resume_args : String → Bool → List String
resume_args session_id recorded =
    if trim_space session_id == ""
    then "--continue" ∷ []
    else if recorded
    then "--resume" ∷ session_id ∷ []
    else "--session-id" ∷ session_id ∷ []

unfoldable pub alias_stem : String → String
alias_stem alias = if has_prefix alias "claude-" then without_prefix alias "claude-" else alias

-- ResolveAccount
unfoldable pub refers_to : String → Account → Bool
unfolding alias_stem
refers_to n a =
    any (λ c. not (c == "") && equal_fold c n) (a.slug ∷ a.id ∷ a.alias ∷ alias_stem a.alias ∷ [])

unfoldable pub resolve_account : List Account → String → Option Account
unfolding refers_to to_lower
resolve_account list name = find? (refers_to (to_lower (trim_space name))) list

-- The flags of the program that name a conversation or fork one.
abbrev pub session_flags : List String
session_flags = "--session-id" ∷ "--resume" ∷ "-r" ∷ "--continue" ∷ "-c" ∷ "--fork-session" ∷ []

-- An argument that is none of them, alone or with its value behind `=`.
abbrev pub Plain : String → Type 0
Plain a =
    All (λ flag. a ≢ flag) session_flags
    × (has_prefix a "--session-id=" ≡ false)
    × (has_prefix a "--resume=" ≡ false)
