-- ===== src/Panel/WellFormed/Additions.antt =====
-- The panel's integrity and the decisions that put something on the panel.
use clawdh.Base.{
  ℕ, String, List, [], ◌∷◌, ◌≡◌, refl, ◌∙◌, Bool, true, not, ◌==◌, Option, some, Option-cases, inl,
  inr, arith, eq_iff, filter, any, All_mono, All-append, All-filter, All-filter_of_test,
  Pairwise-filter, Pairwise-append_one, any_of_find?, any_of_get_elem?, trim_space, is_zero, ltb,
  any-append_left, any-append_last, any-set, get_elem?, set, index?,
}
use clawdh.Panel.Model.{Share, Account, Device, JoinCode, Data, Bytes}
use clawdh.Panel.Roster.{
  put_share, same_pair, share_for, account, person, device, account_by_login, log,
}
use clawdh.Panel.Accounts.{
  Contribution, own_access, refresh_login, refreshed, add_login, handle_contribute, not_newer,
  login_end,
}
use clawdh.Panel.Lending.{Grant, new_share, issue_share_for}
use clawdh.Panel.People.{
  handle_add_person, handle_invite, handle_remove_device, Checkin, handle_checkin, Enrolment, enrol,
  handle_enroll,
}
use clawdh.Panel.Answer.{Ensures, Ensures-or_refuse, Ensures-refuse_if}
use clawdh.Panel.WellFormed.{Distinct, HasAccount, HasPerson, IsWellFormed}
use clawdh.Panel.WellFormed.Removals.{log-IsWellFormed}

-- What `putShare` keeps is of another account or another person than the new share.
kept-Distinct : (sh x : Share) → not (same_pair sh.account_id sh.person_id x) ≡ true → Distinct x sh
kept-Distinct sh x h = ground (
  arith,
  eq_iff x.account_id sh.account_id,
  eq_iff sh.account_id x.account_id,
  eq_iff x.person_id sh.person_id,
  eq_iff sh.person_id x.person_id,
)

pub put_share-IsWellFormed :
    (sh : Share) (d : Data)
    → HasAccount d sh.account_id
    → HasPerson d sh.person_id
    → IsWellFormed d
    → IsWellFormed (put_share sh d)
unfolding put_share
put_share-IsWellFormed sh d a p w = record {
  one_share =
      Pairwise-append_one Distinct (filter others d.shares) sh
        (Pairwise-filter Distinct others d.shares w.one_share)
        (All-filter_of_test (λ x. Distinct x sh) others (kept-Distinct sh) d.shares);
  lent =
      All-append _ (filter others d.shares) (sh ∷ []) (All-filter _ others d.shares w.lent) (a, tt);
  held =
      All-append _ (filter others d.shares) (sh ∷ []) (All-filter _ others d.shares w.held) (p, tt);
}
  where
    others : Share → Bool
    others x = not (same_pair sh.account_id sh.person_id x)

pub issue_share_for-IsWellFormed :
    (g : Grant) (now : ℕ) (d : Data)
    → IsWellFormed d
    → Ensures IsWellFormed (issue_share_for g now d)
unfolding issue_share_for
issue_share_for-IsWellFormed g now d w =
    Ensures-or_refuse IsWellFormed (account d g.account_id) 400 _ _ λ a ea.
      Ensures-or_refuse IsWellFormed (person d g.person_id) 400 _ _ λ p ep.
        log-IsWellFormed now g.who _ _ (
          put_share-IsWellFormed (new_share g now) d
            (unfold account in any_of_find? (λ x. x.id == g.account_id) d.accounts ea)
            (unfold person in any_of_find? (λ x. x.id == g.person_id) d.people ep) w)

log-HasAccount :
    (at : ℕ) (who what id : String) (d : Data) → HasAccount d id → HasAccount (log at who what d) id
unfolding log
log-HasAccount at who what id d h = h

log-HasPerson :
    (at : ℕ) (who what id : String) (d : Data) → HasPerson d id → HasPerson (log at who what d) id
unfolding log
log-HasPerson at who what id d h = h

module _ (read_end : Bytes → Option ℕ) where
  own_access-IsWellFormed :
      (c : Contribution) (dev : Device) (who : String) (now : ℕ) (id : String) (d : Data)
      → HasAccount d id
      → HasPerson d dev.person_id
      → IsWellFormed d
      → IsWellFormed (own_access read_end c dev who now id d)
  unfolding own_access
  own_access-IsWellFormed c dev who now id d a p w =
      elim (Option-cases (share_for d id dev.person_id)) [
        | inl e ↦ rw (e, own_access) (put_share-IsWellFormed _ d a p w)
        | inr (sh, e) ↦ rw (e, own_access) w
      ]

  -- More accounts, or others in their places with the same ids.
  accounts-IsWellFormed :
      (accounts : List Account) (d : Data)
      → ((id : String) → HasAccount d id → any (λ a. a.id == id) accounts ≡ true)
      → IsWellFormed d
      → IsWellFormed (record d { accounts = accounts })
  accounts-IsWellFormed accounts d more w = record {
    one_share = w.one_share;
    lent = All_mono _ _ (λ sh. more sh.account_id) d.shares w.lent;
    held = w.held;
  }

  add_login-IsWellFormed :
      (c : Contribution) (dev : Device) (now : ℕ) (d : Data)
      → HasPerson d dev.person_id
      → IsWellFormed d
      → IsWellFormed (add_login read_end c dev now d)
  unfolding add_login
  add_login-IsWellFormed c dev now d p w =
      own_access-IsWellFormed c dev _ now c.account_id _
        (log-HasAccount now _ _ c.account_id _ (
          any-append_last (λ a. a.id == c.account_id) d.accounts _
            ((eq_iff c.account_id _).1 refl)))
        (log-HasPerson now _ _ dev.person_id _ p)
        (log-IsWellFormed now _ _ _
          (accounts-IsWellFormed _ d (λ id. any-append_left (λ a. a.id == id) d.accounts _) w))

  refresh_login-IsWellFormed :
      (c : Contribution) (dev : Device) (now i : ℕ) (a : Account) (d : Data)
      → get_elem? d.accounts i ≡ some a
      → HasAccount d a.id
      → HasPerson d dev.person_id
      → IsWellFormed d
      → Ensures IsWellFormed (refresh_login read_end c dev now i a d)
  unfolding refresh_login
  refresh_login-IsWellFormed c dev now i a d e h p w =
      Ensures-refuse_if IsWellFormed (not_newer read_end (login_end read_end a) c.login_end) 409 _ _
        λ _.
          own_access-IsWellFormed c dev _ now a.id _ (log-HasAccount now _ _ a.id _ (same a.id ∙ h))
            (log-HasPerson now _ _ dev.person_id _ p)
            (log-IsWellFormed now _ _ _ (accounts-IsWellFormed _ d (λ id k. same id ∙ k) w))
    where
      same :
          (id : String)
          → any (λ x. x.id == id) (set d.accounts i (refreshed read_end c dev a))
            ≡ any (λ x. x.id == id) d.accounts
      same id = any-set (λ x. x.id == id) d.accounts i a _ e refl

  pub handle_contribute-IsWellFormed :
      (c : Contribution) (dev : Device) (now : ℕ) (d : Data)
      → HasPerson d dev.person_id
      → IsWellFormed d
      → Ensures IsWellFormed (handle_contribute read_end c dev now d)
  unfolding handle_contribute
  handle_contribute-IsWellFormed c dev now d p w =
      elim (Option-cases (account_by_login d c.email c.name)) [
        | inl e ↦ rw (e, handle_contribute) (add_login-IsWellFormed c dev now d p w)
        | inr (i, e) ↦
            rw (e, handle_contribute)
              (elim (Option-cases (get_elem? d.accounts i)) [
                | inl f ↦ rw (f, handle_contribute) (add_login-IsWellFormed c dev now d p w)
                | inr (a, f) ↦
                    rw (f, handle_contribute)
                      (refresh_login-IsWellFormed c dev now i a d f
                        (any_of_get_elem? (λ x. x.id == a.id) d.accounts i f
                          ((eq_iff a.id a.id).1 refl))
                        p w)
              ])
      ]

pub handle_add_person-IsWellFormed :
    (who new_id name email : String) (now : ℕ) (d : Data)
    → IsWellFormed d
    → Ensures IsWellFormed (handle_add_person who new_id name email now d)
unfolding handle_add_person
handle_add_person-IsWellFormed who new_id name email now d w =
    Ensures-refuse_if IsWellFormed (trim_space name == "") 400 _ _ λ _.
      log-IsWellFormed now who _ _ (record {
        one_share = w.one_share;
        lent = w.lent;
        held =
            All_mono _ _ (λ sh h. any-append_left (λ p. p.id == sh.person_id) d.people _ h) d.shares
              w.held;
      })

pub handle_invite-IsWellFormed :
    (who id code_hash : String) (asked_at now : ℕ) (d : Data)
    → IsWellFormed d
    → Ensures IsWellFormed (handle_invite who id code_hash asked_at now d)
unfolding handle_invite
handle_invite-IsWellFormed who id code_hash asked_at now d w =
    Ensures-or_refuse IsWellFormed (person d id) 404 _ _ λ p _.
      log-IsWellFormed now who _ _
        (record { one_share = w.one_share; lent = w.lent; held = w.held })

pub handle_remove_device-IsWellFormed :
    (who id : String) (now : ℕ) (d : Data)
    → IsWellFormed d
    → Ensures IsWellFormed (handle_remove_device who id now d)
unfolding handle_remove_device
handle_remove_device-IsWellFormed who id now d w =
    Ensures-or_refuse IsWellFormed (device d id) 404 _ _ λ v _.
      log-IsWellFormed now who _ _
        (record { one_share = w.one_share; lent = w.lent; held = w.held })

pub handle_checkin-IsWellFormed :
    (c : Checkin) (id : String) (now : ℕ) (d : Data)
    → IsWellFormed d
    → Ensures IsWellFormed (handle_checkin c id now d)
unfolding handle_checkin
handle_checkin-IsWellFormed c id now d w = record {
  one_share = w.one_share;
  lent = w.lent;
  held = w.held;
}

enrol_with :
    (e : Enrolment) (c : JoinCode) (i now : ℕ) (d : Data)
    → IsWellFormed d
    → Ensures IsWellFormed (enrol e i c now d)
unfolding enrol
enrol_with e c i now d w = Ensures-refuse_if IsWellFormed (not (is_zero c.used_at)) 400 _ _ λ _.
    Ensures-refuse_if IsWellFormed (ltb c.expires_at now) 400 _ _ λ _.
      log-IsWellFormed now _ _ _ (record { one_share = w.one_share; lent = w.lent; held = w.held })

pub handle_enroll-IsWellFormed :
    (e : Enrolment) (now : ℕ) (d : Data)
    → IsWellFormed d
    → Ensures IsWellFormed (handle_enroll e now d)
unfolding handle_enroll
handle_enroll-IsWellFormed e now d w =
    elim (Option-cases (index? (λ c. e.code_hash == c.code_hash) d.join_codes)) [
      | inl f ↦ rw (f, handle_enroll) tt
      | inr (i, f) ↦
          rw (f, handle_enroll)
            (elim (Option-cases (get_elem? d.join_codes i)) [
              | inl g ↦ rw (g, handle_enroll) tt
              | inr (c, g) ↦ rw (g, handle_enroll) (enrol_with e c i now d w)
            ])
    ]
