-- ===== src/Panel/Builds.antt =====
-- panel/builds.go: when the panel first saw each build that its machines run. The map from builds to
-- instants is a list with one entry for a build, in the order in which Go's `range` happens to
-- meet them; no build is named by the empty text.
pub mod Bound
use clawdh.Base.{
  ℕ, ◌-◌, ◌*◌, String, List, [], ◌∷◌, ◌++◌, Option, none, some, not, ◌==◌, ltb, leb, is_zero,
  if◌then◌else◌, any, filter, length, minute, trim_space,
}

pub record Builds : Type 0 where
  pub since : ℕ
  pub first : List (String × ℕ)

abbrev pub builds_settle : ℕ
builds_settle = 10 * minute

abbrev pub max_builds : ℕ
max_builds = 200

-- The loop that looks for the oldest build, from the one found so far.
unfoldable pub oldest_from : Option (String × ℕ) → List (String × ℕ) → Option (String × ℕ)
oldest_from o [] = o
oldest_from none (b ∷ bs) = oldest_from (some b) bs
oldest_from (some o) (b ∷ bs) = oldest_from (if ltb b.1 o.1 then some b else some o) bs

-- Dropping the oldest build where the bound is reached.
unfoldable pub make_room : List (String × ℕ) → List (String × ℕ)
unfolding oldest_from
make_room first =
    if leb max_builds (length first)
    then elim (oldest_from none first) [
      | none ↦ first
      | some o ↦ filter (λ b. not (b.0 == o.0)) first
    ]
    else first

-- noteBuild of a build that is named, behind the start of the tracking.
unfoldable pub note : String → ℕ → Builds → Builds
unfolding make_room
note version now b = if any (λ x. x.0 == version) b.first then b else record b {
  first = make_room b.first ++ (version, if ltb (now - b.since) builds_settle then 0 else now) ∷ [];
}

-- Server.noteBuild
unfoldable pub note_build : String → ℕ → Builds → Builds
unfolding note
note_build version now b =
    if trim_space version == ""
    then b
    else note (trim_space version) now
        (record b { since = (if is_zero b.since then now else b.since) })
