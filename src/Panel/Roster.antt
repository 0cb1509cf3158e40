-- ===== src/Panel/Roster.antt =====
-- The methods of `Data` in panel/store.go: lookups, the activity log, shares and their expiry.
use clawdh.Base.{
  ℕ, String, List, [], ◌∷◌, ◌++◌, Option, none, some, Bool, not, ◌&&◌, ◌<>◌, ◌==◌, if◌then◌else◌,
  filter, find?, index?, equal_fold, trim_space,
}
use clawdh.Panel.Model.{Person, Device, Account, Event, Share, Data, live}

-- Data.accountName
unfoldable pub account_name : Data → String → String
account_name d id = elim (find? (λ a. a.id == id) d.accounts) [
  | none ↦ "an account that no longer exists"
  | some a ↦ a.name
]

-- Data.personName
unfoldable pub person_name : Data → String → String
person_name d id = elim (find? (λ p. p.id == id) d.people) [
  | none ↦ "someone who is no longer here"
  | some p ↦ p.name
]

-- Data.Account
unfoldable pub account : Data → String → Option Account
account d id = find? (λ a. a.id == id) d.accounts

-- Data.Person
unfoldable pub person : Data → String → Option Person
person d id = find? (λ p. p.id == id) d.people

-- Data.Device
unfoldable pub device : Data → String → Option Device
device d id = find? (λ v. v.id == id) d.devices

-- Data.accountByLogin: where the account with the same address stands, else the one with the same
-- name.
unfoldable pub account_by_login : Data → String → String → Option ℕ
account_by_login d email name =
    let by_name = index? (λ a. equal_fold a.name (trim_space name)) d.accounts in
    if trim_space email == ""
    then by_name
    else elim (index? (λ a. equal_fold a.email (trim_space email)) d.accounts) [
      | some i ↦ some i
      | none ↦ by_name
    ]

-- Whether a share is of this account and this person.
abbrev pub same_pair : String → String → Share → Bool
same_pair account_id person_id sh = sh.account_id == account_id && sh.person_id == person_id

-- Data.shareFor
unfoldable pub share_for : Data → String → String → Option Share
share_for d account_id person_id = find? (same_pair account_id person_id) d.shares

-- Data.putShare: the share replaces any for the same account and person.
unfoldable pub put_share : Share → Data → Data
put_share sh d = record d {
  shares = filter (λ x. not (same_pair sh.account_id sh.person_id x)) d.shares ++ sh ∷ [];
}

-- Data.ShareByKeyHashAt
unfoldable pub share_by_key_hash_at : Data → String → ℕ → Option Share
share_by_key_hash_at d key_hash now = find? (λ sh. sh.key_hash == key_hash && live now sh) d.shares

-- Data.log and Data.Log
unfoldable pub log : ℕ → String → String → Data → Data
log at who what d = record d {
  activity = d.activity ++ record { at = at; who = who; what = what } ∷ [];
}

-- The line that `expireShares` writes for one share.
expiry_line : ℕ → Data → Share → Event
expiry_line now d sh = record {
  at = now;
  who = "clawdh";
  what =
      "ended "
      <> person_name d sh.person_id
      <> "'s access to "
      <> account_name d sh.account_id
      <> " — "
      <> (if sh.granted_by == ""
          then "the time it was given for ran out"
          else "the time " <> sh.granted_by <> " gave it for ran out");
}

expiry_lines : ℕ → Data → List Share → List Event
unfolding expiry_line
expiry_lines now d [] = []
expiry_lines now d (sh ∷ rest) =
    let lines = expiry_lines now d rest in
    if live now sh then lines else expiry_line now d sh ∷ lines

-- Data.expireShares: the shares whose time has run out go, with a line for each.
unfoldable pub expire_shares : ℕ → Data → Data
unfolding expiry_lines
expire_shares now d = record d {
  shares = filter (live now) d.shares;
  activity = d.activity ++ expiry_lines now d d.shares;
}
