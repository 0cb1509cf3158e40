-- ===== src/Updating/Swap.antt =====
-- internal/updater/replace_unix.go and replace_windows.go: a verified download takes the place of the
-- installed program. How each rename ends is an argument; a refused rename changes nothing.
use clawdh.Base.{ℕ, String, List, Option, none, some, Bool, if◌then◌else◌}
use clawdh.Updating.Release.{
  Refusal, not_aside, not_renamed, not_restored, needs_rights, not_elevated,
}

-- The installed program.
pub record Binary : Type 0 where
  pub content : String
  pub mod_time : ℕ
  pub mode : ℕ

-- A file beside it; `modified` is none where it cannot be asked.
pub record Entry : Type 0 where
  pub name : String
  pub is_dir : Bool
  pub modified : Option ℕ

-- What is at the path of the program, and what else is in its directory.
pub record Disk : Type 0 where
  pub binary : Option Binary
  pub entries : List Entry

-- How the elevated script ends: it has swapped the programs; it has not, or has put the old one back; it could not
-- put back the one that it had moved aside; or it has swapped them although the caller gave up on it, after the
-- time for an answer to the prompt.
pub data Elevation : Type 0 where
  swapped : Elevation
  untouched : Elevation
  stranded : Elevation
  swapped_late : Elevation

-- On Windows: how the three renames end, whether a refusal is for want of rights, whether the directory
-- can be written to, whether a person asked for the update, and how the elevated retry ends.
pub record Moves : Type 0 where
  pub aside : Bool
  pub installed : Bool
  pub restored : Bool
  pub denied : Bool
  pub dir_writable : Bool
  pub interactive : Bool
  pub elevation : Elevation

pub data Platform : Type 0 where
  unix : Bool → Platform
  windows : Moves → Platform

unfoldable pub replace_in_place : Moves → Binary → Disk → Option Refusal × Disk
replace_in_place m new d =
    if m.aside
    then if m.installed
      then (none, record d { binary = some new })
      else if m.restored
      then (some not_renamed, d)
      else (some not_restored, record d { binary = none })
    else (some not_aside, d)

unfoldable pub elevate : Elevation → Binary → Disk → Option Refusal × Disk
elevate swapped new d = (none, record d { binary = some new })
elevate untouched new d = (some not_elevated, d)
elevate stranded new d = (some not_elevated, record d { binary = none })
elevate swapped_late new d = (some not_elevated, record d { binary = some new })

-- The elevated script first moves the program aside, which takes that there is one.
unfoldable pub replace_elevated : Moves → Binary → Disk → Option Refusal × Disk
unfolding elevate
replace_elevated m new d = elim d.binary [
  | none ↦ (some not_elevated, d)
  | some b ↦ elevate m.elevation new d
]

unfoldable pub or_elevated : Moves → Binary → Option Refusal × Disk → Option Refusal × Disk
unfolding replace_elevated
or_elevated m new (none, d) = (none, d)
or_elevated m new (some r, d) =
    if m.denied
    then if m.dir_writable
      then (some r, d)
      else if m.interactive
      then replace_elevated m new d
      else (some needs_rights, d)
    else (some r, d)

unfoldable pub replace_binary : Platform → Binary → Disk → Option Refusal × Disk
unfolding replace_in_place or_elevated
replace_binary (unix renames) new d =
    if renames then (none, record d { binary = some new }) else (some not_renamed, d)
replace_binary (windows m) new d = or_elevated m new (replace_in_place m new d)
