-- ===== src/Panel/Presence.antt =====
-- panel/presence.go: whether a person is around. The newest metered request of each person, which the
-- database tells, is an argument, with 0 for none.
pub mod Machines
use clawdh.Base.{
  ℕ, ◌+◌, ◌*◌, String, List, [], ◌∷◌, Bool, not, ◌&&◌, ◌==◌, ltb, leb, is_zero, if◌then◌else◌, map,
  second, minute,
}
use clawdh.Panel.Model.{Person, Device, Data}

pub data PresenceState : Type 0 where
  working idle offline : PresenceState

pub record Presence : Type 0 where
  pub state : PresenceState
  pub at : ℕ

abbrev pub working_within : ℕ
working_within = 3 * minute

abbrev pub online_within : ℕ
online_within = 90 * second

-- `!t.IsZero() && now.Sub(t) <= span`
unfoldable pub is_within : ℕ → ℕ → ℕ → Bool
is_within span now t = not (is_zero t) && leb now (t + span)

-- presenceOf
unfoldable pub presence_of : ℕ → ℕ → ℕ → Presence
unfolding is_within
presence_of now last_seen last_request =
    if is_within working_within now last_request
    then record { state = working; at = last_request }
    else if is_within online_within now last_seen
    then record { state = idle; at = last_seen }
    else record { state = offline; at = last_seen }

-- `seen[id]` after the loop over the machines, from what it was before.
unfoldable pub seen_from : ℕ → String → List Device → ℕ
seen_from at id [] = at
seen_from at id (dev ∷ devs) =
    seen_from (if (dev.person_id == id) && ltb at dev.last_seen then dev.last_seen else at) id devs

-- Server.presence, an entry for each person in order.
unfoldable pub presence : ℕ → (String → ℕ) → Data → List (String × Presence)
unfolding presence_of seen_from
presence now requested d =
    map (λ p. (p.id, presence_of now (seen_from 0 p.id d.devices) (requested p.id))) d.people
