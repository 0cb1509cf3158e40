-- ===== src/Panel/Presence/Machines.antt =====
-- A person's state in panel/presence.go, told from the machines themselves.
use clawdh.Base.{
  ℕ, ◌≡◌, refl, ◌∙◌, ap, String, List, [], ◌∷◌, Bool, false, ◌&&◌, ◌||◌, ◌==◌, ltb, if◌then◌else◌,
  any, map, arith,
}
use clawdh.Panel.Model.{Person, Device, Data}
use clawdh.Panel.Presence.{
  PresenceState, working, idle, offline, Presence, working_within, online_within, is_within,
  presence_of, seen_from, presence,
}

-- One of the person's machines, checked in within the time that counts.
abbrev pub is_online : ℕ → String → Device → Bool
is_online now id dev = (dev.person_id == id) && is_within online_within now dev.last_seen

one_more :
    (now at : ℕ) (id : String) (dev : Device)
    → is_within online_within now
        (if (dev.person_id == id) && ltb at dev.last_seen then dev.last_seen else at)
      ≡ is_online now id dev || is_within online_within now at
unfolding is_within
one_more now at id dev = ground arith

any-is_online :
    (now at : ℕ) (id : String) (devs : List Device)
    → is_within online_within now (seen_from at id devs)
      ≡ any (is_online now id) devs || is_within online_within now at
unfolding seen_from
any-is_online now at id [] = refl
any-is_online now at id (dev ∷ devs) = ground (
  arith,
  one_more now at id dev,
  any-is_online now (if (dev.person_id == id) && ltb at dev.last_seen then dev.last_seen else at) id
      devs,
)

-- What the panel shows of a person.
abbrev pub shown : ℕ → (String → ℕ) → List Device → String → PresenceState
shown now requested devs id =
    if is_within working_within now (requested id)
    then working
    else if any (is_online now id) devs
    then idle
    else offline

none_within : (now : ℕ) → is_within online_within now 0 ≡ false
unfolding is_within
none_within now = refl

presence_of-shown :
    (now : ℕ) (requested : String → ℕ) (devs : List Device) (id : String)
    → (presence_of now (seen_from 0 id devs) (requested id)).state ≡ shown now requested devs id
unfolding presence_of
presence_of-shown now requested devs id =
    let seen = any-is_online now 0 id devs in
    let none = none_within now in ground (arith, seen, none)

-- An entry of what the panel shows.
abbrev pub entry_state : String × Presence → String × PresenceState
entry_state e = (e.0, e.1.state)

-- Every person on the panel, in order, is shown as working if their newest metered request is at most
-- three minutes old, else as idle if any machine of theirs checked in at most 90 seconds ago, else
-- as offline.
pub presence_lem :
    (now : ℕ) (requested : String → ℕ) (d : Data)
    → map entry_state (presence now requested d)
      ≡ map {B = String × PresenceState} (λ p. (p.id, shown now requested d.devices p.id)) d.people
unfolding presence
presence_lem now requested d = go d.people
  where
    go :
        (ps : List Person)
        → map entry_state (
            map {B = String × Presence}
              (λ p. (p.id, presence_of now (seen_from 0 p.id d.devices) (requested p.id)))
              ps)
          ≡ map {B = String × PresenceState} (λ p. (p.id, shown now requested d.devices p.id)) ps
    go [] = refl
    go (p ∷ ps) =
        let here : PresenceState → List (String × PresenceState) = λ s.
          (p.id, s)
          ∷ map {B = String × PresenceState} (λ p. (p.id, shown now requested d.devices p.id)) ps in
        ap (◌∷◌ (p.id, (presence_of now (seen_from 0 p.id d.devices) (requested p.id)).state))
          (go ps)
        ∙ ap here (presence_of-shown now requested d.devices p.id)
