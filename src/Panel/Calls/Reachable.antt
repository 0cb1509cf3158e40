-- ===== src/Panel/Calls/Reachable.antt =====
-- The states that the panel's calls can lead to.
use clawdh.Base.{ℕ, ◌≡◌, Option}
use clawdh.Panel.Model.{Data, Bytes}
use clawdh.Panel.Roster.{expire_shares}
use clawdh.Panel.Answer.{ok, Ensures, Ensures-ok}
use clawdh.Panel.WellFormed.{HasPerson, IsWellFormed}
use clawdh.Panel.WellFormed.Removals.{
  expire_shares-IsWellFormed, handle_remove_account-IsWellFormed, handle_withdraw-IsWellFormed,
  revoke_share-IsWellFormed, handle_remove_person-IsWellFormed,
}
use clawdh.Panel.WellFormed.Additions.{
  issue_share_for-IsWellFormed, handle_contribute-IsWellFormed, handle_add_person-IsWellFormed,
  handle_invite-IsWellFormed, handle_remove_device-IsWellFormed, handle_checkin-IsWellFormed,
  handle_enroll-IsWellFormed,
}
use clawdh.Panel.Calls.{
  Call, remove_account, contribute, withdraw, issue, revoke, add_person, remove_person, invite,
  remove_device, enroll, checkin, empty_panel, decide,
}

-- The machine that hands up a login is of a person who is still on the panel. The guard of the
-- handler reads the panel before the write, so the code does not ensure it at the write.
abbrev pub Admissible : Call → Data → Type 0
Admissible (contribute c dev) d = HasPerson d dev.person_id
Admissible _ d = Unit

module _ (read_end : Bytes → Option ℕ) where
  -- From state to state by calls that went through, at any clock readings.
  pub data Reachable : Data → Type 0 where
    start : Reachable empty_panel
    call :
        {d d' : Data} (c : Call) (settled_at now : ℕ)
        → Reachable d
        → Admissible c (expire_shares settled_at d)
        → decide read_end c now (expire_shares settled_at d) ≡ ok d'
        → Reachable d'

  pub decide-IsWellFormed :
      (c : Call) (now : ℕ) (d : Data)
      → Admissible c d
      → IsWellFormed d
      → Ensures IsWellFormed (decide read_end c now d)
  unfolding decide
  decide-IsWellFormed (remove_account who id) now d a w =
      handle_remove_account-IsWellFormed who id now d w
  decide-IsWellFormed (contribute c dev) now d a w =
      handle_contribute-IsWellFormed read_end c dev now d a w
  decide-IsWellFormed (withdraw dev id) now d a w = handle_withdraw-IsWellFormed dev id now d w
  decide-IsWellFormed (issue g) now d a w = issue_share_for-IsWellFormed g now d w
  decide-IsWellFormed (revoke id who) now d a w = revoke_share-IsWellFormed id who now d w
  decide-IsWellFormed (add_person who id name email) now d a w =
      handle_add_person-IsWellFormed who id name email now d w
  decide-IsWellFormed (remove_person who id) now d a w =
      handle_remove_person-IsWellFormed who id now d w
  decide-IsWellFormed (invite who id h at) now d a w =
      handle_invite-IsWellFormed who id h at now d w
  decide-IsWellFormed (remove_device who id) now d a w =
      handle_remove_device-IsWellFormed who id now d w
  decide-IsWellFormed (enroll e) now d a w = handle_enroll-IsWellFormed e now d w
  decide-IsWellFormed (checkin c id) now d a w = handle_checkin-IsWellFormed c id now d w

  -- In every state that the panel's calls lead to from an empty panel, if each login was handed up for
  -- a person on the panel, an account and a person have at most one share, and every share is of an
  -- account and of a person that are on the panel.
  pub Reachable-IsWellFormed : {d : Data} → Reachable d → IsWellFormed d
  Reachable-IsWellFormed start = record { one_share = tt; lent = tt; held = tt }
  Reachable-IsWellFormed (call {d = d} c settled_at now r a e) =
      Ensures-ok IsWellFormed _
        (decide-IsWellFormed c now (expire_shares settled_at d) a
          (expire_shares-IsWellFormed settled_at d (Reachable-IsWellFormed r)))
        e
