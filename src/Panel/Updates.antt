-- ===== src/Panel/Updates.antt =====
-- panel/builds.go: notUpdating, the machines that stay on an older build. Go ranges over the builds in any
-- order; here it is the order in which they are met, which decides only between two that were first seen at
-- one instant.
pub mod Newest
pub mod Behind
use clawdh.Base.{
  ℕ, suc, ◌+◌, ◌-◌, ◌*◌, String, List, [], ◌∷◌, Option, none, some, Bool, true, false, not, ◌&&◌,
  ◌||◌, ◌==◌, ltb, leb, if◌then◌else◌, lookup, put, minute, hour,
}
use clawdh.Panel.Model.{Device, Data}

abbrev pub behind_after : ℕ
behind_after = hour

abbrev pub live_within : ℕ
live_within = 15 * minute

-- `now.Sub(dev.LastSeen) <= liveWithin`
unfoldable pub checked_in : ℕ → Device → Bool
checked_in now dev = leb now (dev.last_seen + live_within)

unfoldable pub count_of : String → List (String × ℕ) → ℕ
count_of v m = elim (lookup v m) [ some n ↦ n | none ↦ 0 ]

unfoldable pub tallied : ℕ → Device → List (String × ℕ) → List (String × ℕ)
unfolding checked_in count_of
tallied now dev m =
    if not (dev.version == "") && checked_in now dev
    then put dev.version (suc (count_of dev.version m)) m
    else m

-- How many machines run each build.
unfoldable pub running_from : ℕ → List Device → List (String × ℕ) → List (String × ℕ)
unfolding tallied
running_from now [] m = m
running_from now (dev ∷ devices) m = running_from now devices (tallied now dev m)

-- The newest build that two machines run, from the one found so far. `running` is the table that is ranged
-- over.
unfoldable pub newer_build :
    List (String × ℕ) → List (String × ℕ) → String → String × ℕ → String × ℕ
unfolding count_of
newer_build first running v best =
    let at = count_of v first in
    if leb 2 (count_of v running) && ltb best.1 at then (v, at) else best

unfoldable pub newest_from :
    List (String × ℕ) → List (String × ℕ) → List (String × ℕ) → String × ℕ → String × ℕ
unfolding newer_build
newest_from first running [] best = best
newest_from first running ((v, n) ∷ builds) best =
    newest_from first running builds (newer_build first running v best)

unfoldable pub is_behind : List (String × ℕ) → ℕ → String × ℕ → Device → Bool
unfolding checked_in
is_behind first now (newest, at) dev =
    not (
      dev.version == ""
      || dev.version == newest
      || not (dev.update_error == "")
      || not (checked_in now dev))
    && elim (lookup dev.version first) [ none ↦ true | some seen ↦ ltb seen at ]

unfoldable pub behind_from : List (String × ℕ) → ℕ → String × ℕ → List Device → List String
unfolding is_behind
behind_from first now best [] = []
behind_from first now best (dev ∷ devices) =
    let rest = behind_from first now best devices in
    if is_behind first now best dev then dev.id ∷ rest else rest

unfoldable pub newest_build : List (String × ℕ) → Data → ℕ → String × ℕ
unfolding running_from newest_from
newest_build first d now =
    let running = running_from now d.devices [] in newest_from first running running ("", 0)

unfoldable pub not_updating : List (String × ℕ) → Data → ℕ → List String
unfolding newest_build behind_from
not_updating first d now =
    let best = newest_build first d now in
    if best.0 == "" || ltb now (best.1 + behind_after)
    then []
    else behind_from first now best d.devices
