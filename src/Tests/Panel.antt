-- ===== src/Tests/Panel.antt =====
-- The panel's theorems on a panel with two people, two accounts, two shares, a machine and an invite.
use clawdh.Base.{
  ℕ, zero, suc, ◌≡◌, ◌≢◌, refl, [], ◌∷◌, Option, none, some, true, arith, any, find?, index?,
  get_elem?, ◌==◌, hour, day, trim_space,
}
use clawdh.Panel.Model.{Bytes, Person, Device, Account, Share, JoinCode, Data}
use clawdh.Panel.Roster.{person, account_by_login, expire_shares, log, person_name}
use clawdh.Panel.Answer.{Result, ok, Ensures}
use clawdh.Panel.Store.{Backend, Attempt, healthy, mutate, max_cas_retries}
use clawdh.Panel.Store.Serial.{LoopCases, mutate-serial}
use clawdh.Panel.Accounts.{add_login, Contribution, handle_withdraw, handle_contribute, removed}
use clawdh.Panel.Accounts.Slots.{handle_withdraw-names_next}
use clawdh.Panel.Accounts.Contribute.{AllKept, handle_contribute-AllKept}
use clawdh.Panel.Lending.{Grant, issue_share_for, revoke_share, taken_line}
use clawdh.Panel.Lending.Keys.{Revoked, Granted, revoke_share-Revoked, issue_share_for-Granted}
use clawdh.Panel.Lending.Slots.{lending, revoke_share-names_next}
use clawdh.Panel.People.{handle_add_person, Enrolment, handle_remove_person, handle_enroll}
use clawdh.Panel.People.Codes.{Spent, handle_enroll-once, handle_enroll-after_removal}
use clawdh.Panel.WellFormed.{IsWellFormed}
use clawdh.Panel.Builds.{Builds}
use clawdh.Panel.Calls.{add_person, contribute, empty_panel, decide}
use clawdh.Panel.Calls.Reachable.{Reachable, start, call, Reachable-IsWellFormed}
use clawdh.Panel.Access.{Unlent, Gone, handle_withdraw-authorised, handle_remove_person-Gone}

abbrev ann : Person
ann = record { id = "p1"; name = "Ann"; email = "ann@example.com"; created_at = 1 }

abbrev bob : Person
bob = record { id = "p2"; name = "Bob"; email = "bob@example.com"; created_at = 2 }

abbrev laptop : Device
laptop = record {
  id = "d1";
  person_id = "p1";
  name = "laptop";
  token_hash = "t1";
  enrolled_at = 3;
  last_seen = 3;
  remote = true;
  version = "v1";
  update_error = "";
}

abbrev max_plan : Account
max_plan = record {
  id = "a1";
  name = "max";
  email = "max@example.com";
  plan = "max";
  created_at = 4;
  credential = 1 ∷ [];
  added_by = "p1";
}

abbrev pro_plan : Account
pro_plan = record {
  id = "a2";
  name = "pro";
  email = "pro@example.com";
  plan = "pro";
  created_at = 5;
  credential = 2 ∷ [];
  added_by = "p2";
}

abbrev anns_share : Share
anns_share = record {
  id = "s1";
  account_id = "a1";
  person_id = "p1";
  key_hash = "k1";
  sealed_key = [];
  created_at = 6;
  expires_at = 0;
  granted_by = "admin";
}

abbrev bobs_share : Share
bobs_share = record {
  id = "s2";
  account_id = "a1";
  person_id = "p2";
  key_hash = "k2";
  sealed_key = [];
  created_at = 7;
  expires_at = hour;
  granted_by = "admin";
}

abbrev bobs_code : JoinCode
bobs_code = record {
  code_hash = "c1";
  person_id = "p2";
  expires_at = day;
  used_at = 0;
  invited_by = "admin";
}

abbrev panel : Data
panel = record {
  admin = none;
  people = ann ∷ bob ∷ [];
  devices = laptop ∷ [];
  accounts = max_plan ∷ pro_plan ∷ [];
  join_codes = bobs_code ∷ [];
  shares = anns_share ∷ bobs_share ∷ [];
  activity = [];
}

abbrev stored : Backend
stored = record { version = 7; blob = panel }

-- Somebody else writes during the first attempt.
abbrev contended : ℕ → Attempt
contended zero = record { now = 10; fn_now = 11; rivals = empty_panel ∷ []; fault = healthy }
contended (suc n) = record { now = 20; fn_now = 21; rivals = []; fault = healthy }

abbrev noting : ℕ → Data → Result Data
noting now d = ok (log now "admin" "noted" d)

contended-healthy : (n : ℕ) → (contended n).fault ≡ healthy
contended-healthy zero = refl
contended-healthy (suc n) = refl

mutate-serial_example :
    LoopCases noting max_cas_retries contended stored (mutate noting contended stored)
mutate-serial_example = mutate-serial noting contended stored contended-healthy

abbrev annas_login : Contribution
annas_login = record {
  email = "max@example.com";
  plan = "max";
  name = "max";
  sealed = 9 ∷ [];
  login_end = some 90;
  key_hash = "k9";
  sealed_key = [];
  account_id = "a9";
  share_id = "s9";
}

abbrev ends_at_50 : Bytes → Option ℕ
ends_at_50 b = some 50

abbrev added : Data
added = log 6 "admin" "added Ann" (record empty_panel {
  people = record { id = "p1"; name = "Ann"; email = "ann@example.com"; created_at = 6 } ∷ [];
})

abbrev contributed : Data
contributed = add_login ends_at_50 annas_login laptop 8 added

contributed-Reachable : Reachable ends_at_50 contributed
unfolding decide handle_add_person handle_contribute expire_shares log account_by_login trim_space
contributed-Reachable =
    call (contribute annas_login laptop) 7 8
      (call {d' = added} (add_person "admin" "p1" "Ann" "ann@example.com") 5 6 start tt refl) refl
      refl

Reachable-IsWellFormed_example : IsWellFormed contributed
Reachable-IsWellFormed_example = Reachable-IsWellFormed ends_at_50 contributed-Reachable

handle_contribute-AllKept_example :
    Ensures
      (AllKept ends_at_50 annas_login laptop panel)
      (handle_contribute ends_at_50 annas_login laptop 60 panel)
handle_contribute-AllKept_example = handle_contribute-AllKept ends_at_50 annas_login laptop 60 panel

handle_withdraw-authorised_example :
    Ensures
      (λ d'.
        Unlent "a1" d'
        × ((i : ℕ) × (a : Account) × (index? (λ (x : Account). x.id == "a1") panel.accounts
              ≡ some i)
            × (get_elem? panel.accounts i ≡ some a)
            × (a.added_by ≡ "p1")
            × (a.added_by ≢ "")))
      (handle_withdraw laptop "a1" 60 panel)
handle_withdraw-authorised_example = handle_withdraw-authorised laptop "a1" 60 panel

revoke_share-Revoked_example : Ensures (Revoked "s1" panel) (revoke_share "s1" "admin" 60 panel)
revoke_share-Revoked_example = revoke_share-Revoked "s1" "admin" 60 panel

abbrev lend_pro : Grant
lend_pro = record {
  account_id = "a2";
  person_id = "p1";
  who = "admin";
  span = hour;
  share_id = "s8";
  key_hash = "k8";
  sealed_key = [];
}

issue_share_for-Granted_example : Ensures (Granted lend_pro 60) (issue_share_for lend_pro 60 panel)
issue_share_for-Granted_example = issue_share_for-Granted lend_pro 60 panel (refl, (refl, tt))

handle_remove_person-Gone_example : Ensures (Gone "p2") (handle_remove_person "admin" "p2" 60 panel)
handle_remove_person-Gone_example = handle_remove_person-Gone "admin" "p2" 60 panel

abbrev new_machine : Enrolment
new_machine = record {
  code_hash = "c1";
  machine = "desk";
  version = "v1";
  device_id = "d2";
  token_hash = "t2";
}

handle_enroll-once_example : Ensures (Spent "c1") (handle_enroll new_machine 60 panel)
handle_enroll-once_example = handle_enroll-once new_machine 60 panel (omega arith)

abbrev without_bob : Data
without_bob =
    log 50 "admin" "removed Bob, and their access ended"
      (record panel { people = ann ∷ []; shares = anns_share ∷ [] })

handle_enroll-after_removal_example :
    (d'' : Data) × (handle_enroll new_machine 60 without_bob ≡ ok d'')
    × (any (λ v. v.person_id == "p2") d''.devices ≡ true)
    × (find? (λ p. p.id == "p2") d''.people ≡ none)
unfolding handle_remove_person person log
handle_enroll-after_removal_example =
    handle_enroll-after_removal "admin" "p2" 50 panel without_bob new_machine 0 bobs_code 60 refl
      refl refl refl refl refl

handle_withdraw-names_next_example :
    handle_withdraw laptop "a1" 60 panel
    ≡ ok (log 60 (person_name panel "p1") "took pro back off the panel" (removed "a1" panel))
handle_withdraw-names_next_example =
    handle_withdraw-names_next laptop "a1" 60 panel [] [] max_plan pro_plan refl tt (refl, tt) refl
      (λ e. cc)

revoke_share-names_next_example :
    revoke_share "s1" "admin" 60 panel
    ≡ ok (log 60 "admin" (taken_line panel bobs_share) (lending panel (bobs_share ∷ [])))
revoke_share-names_next_example =
    revoke_share-names_next "s1" "admin" 60 panel [] [] anns_share bobs_share refl tt (refl, tt)

abbrev one_build : Builds
one_build = record { since = 5; first = ("v1", 0) ∷ [] }
