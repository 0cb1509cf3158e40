-- ===== src/Panel/People.antt =====
-- The decisions about people, machines and invites in panel/handlers.go: `handleAddPerson`,
-- `handleRemovePerson`, `handleInvite`, `handleInvitePage`, `handleRemoveDevice`, `handleEnroll`, the
-- write of `handleCheckin`, and the guard `device` of panel/server.go. Ids are drawn and tokens and
-- codes are hashed before the write.
pub mod Codes
use clawdh.Base.{
  ℕ, ◌+◌, String, List, [], ◌∷◌, ◌++◌, Option, none, some, Bool, true, false, not, ◌<>◌, ◌==◌, ltb,
  hour, if◌then◌else◌, is_zero, map, filter, find?, index?, get_elem?, set, trim_space,
}
use clawdh.Panel.Model.{Person, Device, JoinCode, Data}
use clawdh.Panel.Roster.{person_name, person, device, log}
use clawdh.Panel.Answer.{Result, ok, refuse, ◌>>=◌, ◌>>◌, refuse_if, or_refuse}

abbrev pub invite_life : ℕ
invite_life = hour

-- handleAddPerson
unfoldable pub handle_add_person : String → String → String → String → ℕ → Data → Result Data
handle_add_person who new_id name email now d = do
  refuse_if (trim_space name == "") 400 "Give the person a name."
  ok (
      log now who ("added " <> name) (record d {
        people =
            d.people ++ record { id = new_id; name = name; email = email; created_at = now } ∷ [];
      }))

-- handleRemovePerson: the person, their shares and their machines.
unfoldable pub handle_remove_person : String → String → ℕ → Data → Result Data
handle_remove_person who id now d = do
  p ← or_refuse (person d id) 404 "There is no such person."
  ok (
      log now who ("removed " <> p.name <> ", and their access ended") (record d {
        shares = filter (λ sh. not (sh.person_id == id)) d.shares;
        devices = filter (λ v. not (v.person_id == id)) d.devices;
        people = filter (λ x. not (x.id == id)) d.people;
      }))

-- handleInvite. The expiry is reckoned before the write.
unfoldable pub handle_invite : String → String → String → ℕ → ℕ → Data → Result Data
handle_invite who id code_hash asked_at now d = do
  p ← or_refuse (person d id) 404 "There is no such person."
  ok (
      log now who ("made an invite link for " <> p.name) (record d {
        join_codes =
            d.join_codes
            ++ record {
              code_hash = code_hash;
              person_id = id;
              expires_at = asked_at + invite_life;
              used_at = 0;
              invited_by = who;
            }
              ∷ [];
      }))

-- The states of an invite link on `handleInvitePage`.
pub data InviteState : Type 0 where
  unknown used expired good : InviteState

unfoldable pub code_state : ℕ → JoinCode → InviteState
code_state now c =
    if not (is_zero c.used_at) then used else if ltb c.expires_at now then expired else good

-- handleInvitePage
unfoldable pub handle_invite_page : String → ℕ → Data → InviteState
unfolding code_state
handle_invite_page want now d = elim (find? (λ c. want == c.code_hash) d.join_codes) [
  | none ↦ unknown
  | some c ↦ code_state now c
]

-- handleRemoveDevice
unfoldable pub handle_remove_device : String → String → ℕ → Data → Result Data
handle_remove_device who id now d = do
  v ← or_refuse (device d id) 404 "There is no such machine."
  ok (
      log now who ("cut off " <> v.name <> ", " <> person_name d v.person_id <> "'s machine")
        (record d { devices = filter (λ x. not (x.id == id)) d.devices }))

pub record Enrolment : Type 0 where
  pub code_hash : String  -- the hash of the presented code
  pub machine : String
  pub version : String
  pub device_id : String  -- newID
  pub token_hash : String

unfoldable pub machine_name : Enrolment → String
machine_name e = if trim_space e.machine == "" then "a machine" else trim_space e.machine

unfoldable pub new_device : Enrolment → JoinCode → ℕ → Device
unfolding machine_name
new_device e c now = record {
  id = e.device_id;
  person_id = c.person_id;
  name = machine_name e;
  token_hash = e.token_hash;
  enrolled_at = now;
  last_seen = now;
  remote = false;
  version = trim_space e.version;
  update_error = "";
}

not_ours : Result Data
not_ours = refuse 400 "That code is not one of ours."

-- The code at index `i`, presented: it is spent and enrols a machine, unless it was spent before or
-- has run out.
unfoldable pub enrol : Enrolment → ℕ → JoinCode → ℕ → Data → Result Data
unfolding new_device
enrol e i c now d = do
  refuse_if (not (is_zero c.used_at)) 400 "That code has already been used."
  refuse_if (ltb c.expires_at now) 400 "That code has expired. Ask for a new one."
  ok (
      log now (person_name d c.person_id) ("set up " <> machine_name e) (record d {
        join_codes = set d.join_codes i (record c { used_at = now });
        devices = d.devices ++ new_device e c now ∷ [];
      }))

-- handleEnroll: the first code with this hash decides.
unfoldable pub handle_enroll : Enrolment → ℕ → Data → Result Data
unfolding enrol not_ours
handle_enroll e now d = elim (index? (λ c. e.code_hash == c.code_hash) d.join_codes) [
  | none ↦ not_ours
  | some i ↦ elim (get_elem? d.join_codes i) [ none ↦ not_ours | some c ↦ enrol e i c now d ]
]

pub record Checkin : Type 0 where
  pub remote : Bool
  pub version : String
  pub update_error : String

unfoldable pub seen : Checkin → ℕ → Device → Device
seen c now v = record v {
  last_seen = now;
  remote = c.remote;
  version = (if trim_space c.version == "" then v.version else trim_space c.version);
  update_error = trim_space c.update_error;
}

-- The write of handleCheckin, for the machine with this id.
unfoldable pub handle_checkin : Checkin → String → ℕ → Data → Result Data
unfolding seen
handle_checkin c id now d =
    ok (record d { devices = map (λ v. if v.id == id then seen c now v else v) d.devices })

-- Server.device: the machine that a token's hash belongs to. A request without a token is refused
-- before this.
unfoldable pub device_of_token : String → Data → Result Device
device_of_token want d =
    or_refuse (find? (λ v. want == v.token_hash) d.devices) 401
      "This machine is no longer enrolled with the panel."
