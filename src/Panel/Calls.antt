-- ===== src/Panel/Calls.antt =====
-- The calls that change the panel's state, as one type: each is a decision that `Store.Mutate` runs
-- after it has settled what ran out.
pub mod Reachable
use clawdh.Base.{ℕ, String, [], Option, none, some}
use clawdh.Panel.Model.{Device, Data, Bytes}
use clawdh.Panel.Roster.{expire_shares}
use clawdh.Panel.Accounts.{Contribution, handle_remove_account, handle_contribute, handle_withdraw}
use clawdh.Panel.Lending.{Grant, issue_share_for, revoke_share}
use clawdh.Panel.People.{
  handle_add_person, handle_remove_person, handle_invite, handle_remove_device, Checkin,
  handle_checkin, Enrolment, handle_enroll,
}
use clawdh.Panel.Answer.{Result}

pub data Call : Type 0 where
  remove_account : String → String → Call
  contribute : Contribution → Device → Call
  withdraw : Device → String → Call
  issue : Grant → Call
  revoke : String → String → Call
  add_person : String → String → String → String → Call
  remove_person : String → String → Call
  invite : String → String → String → ℕ → Call
  remove_device : String → String → Call
  enroll : Enrolment → Call
  checkin : Checkin → String → Call

-- A panel that was never set up.
abbrev pub empty_panel : Data
empty_panel = record {
  admin = none;
  people = [];
  devices = [];
  accounts = [];
  join_codes = [];
  shares = [];
  activity = [];
}

module _ (read_end : Bytes → Option ℕ) where
  unfoldable pub decide : Call → ℕ → Data → Result Data
  decide (remove_account who id) now d = handle_remove_account who id now d
  decide (contribute c dev) now d = handle_contribute read_end c dev now d
  decide (withdraw dev id) now d = handle_withdraw dev id now d
  decide (issue g) now d = issue_share_for g now d
  decide (revoke id who) now d = revoke_share id who now d
  decide (add_person who id name email) now d = handle_add_person who id name email now d
  decide (remove_person who id) now d = handle_remove_person who id now d
  decide (invite who id code_hash asked_at) now d = handle_invite who id code_hash asked_at now d
  decide (remove_device who id) now d = handle_remove_device who id now d
  decide (enroll e) now d = handle_enroll e now d
  decide (checkin c id) now d = handle_checkin c id now d
