-- ===== src/Panel/WellFormed/Removals.antt =====
-- The panel's integrity and the decisions that take something off the panel.
use clawdh.Base.{
  ℕ, String, ◌≡◌, ◌∙◌, Bool, true, not, ◌==◌, some, Option-cases, inl, inr, arith, eq_iff, filter,
  All-filter, Pairwise-filter, any-filter, All_filter_with, take, last_index?, index?, get_elem?,
}
use clawdh.Base.Scan.{take-compact}
use clawdh.Panel.Model.{Share, Account, Device, Data, live}
use clawdh.Panel.Roster.{expire_shares, log, account, person}
use clawdh.Panel.Accounts.{
  removed, remove_account, may_withdraw, handle_remove_account, handle_withdraw,
}
use clawdh.Panel.Lending.{revoke_share, without_share}
use clawdh.Panel.People.{handle_remove_person}
use clawdh.Panel.Answer.{Ensures, Ensures-or_refuse, Ensures-bind}
use clawdh.Panel.WellFormed.{Distinct, HasAccount, HasPerson, IsWellFormed}

-- Fewer shares.
filter-IsWellFormed :
    (d : Data) (p : Share → Bool)
    → IsWellFormed d
    → IsWellFormed (record d { shares = filter p d.shares })
filter-IsWellFormed d p w = record {
  one_share = Pairwise-filter Distinct p d.shares w.one_share;
  lent = All-filter _ p d.shares w.lent;
  held = All-filter _ p d.shares w.held;
}

pub expire_shares-IsWellFormed :
    (now : ℕ) (d : Data) → IsWellFormed d → IsWellFormed (expire_shares now d)
unfolding expire_shares
expire_shares-IsWellFormed now d w = record {
  one_share = Pairwise-filter Distinct (live now) d.shares w.one_share;
  lent = All-filter _ (live now) d.shares w.lent;
  held = All-filter _ (live now) d.shares w.held;
}

-- Who is another account survives the removal of one.
kept_id : (id x y : String) → not (y == id) ≡ true → (x == y) ≡ true → not (x == id) ≡ true
kept_id id x y h e = ground (arith, eq_iff x y, eq_iff x id, eq_iff y id)

without-IsWellFormed :
    (id : String) (d : Data)
    → IsWellFormed d
    → IsWellFormed (record d {
      accounts = filter (λ a. not (a.id == id)) d.accounts;
      shares = filter (λ sh. not (sh.account_id == id)) d.shares;
    })
without-IsWellFormed id d w = record {
  one_share = Pairwise-filter Distinct _ d.shares w.one_share;
  lent =
      All_filter_with (λ sh. HasAccount d sh.account_id) _ (λ sh. not (sh.account_id == id))
        (λ sh h k.
          any-filter (λ a. a.id == sh.account_id) (λ a. not (a.id == id))
            (λ a. kept_id id a.id sh.account_id k) d.accounts
          ∙ h)
        d.shares w.lent;
  held = All-filter _ _ d.shares w.held;
}

-- A line in the log changes nothing else.
pub log-IsWellFormed :
    (at : ℕ) (who what : String) (d : Data) → IsWellFormed d → IsWellFormed (log at who what d)
unfolding log
log-IsWellFormed at who what d w = record { one_share = w.one_share; lent = w.lent; held = w.held }

-- What `removeAccount` leaves, by filters instead of the loop over the array.
pub removed_lem :
    (id : String) (d : Data)
    → removed id d ≡ record d {
      accounts = filter (λ a. not (a.id == id)) d.accounts;
      shares = filter (λ sh. not (sh.account_id == id)) d.shares;
    }
unfolding removed
removed_lem id d = rw take-compact

pub removed-IsWellFormed : (id : String) (d : Data) → IsWellFormed d → IsWellFormed (removed id d)
removed-IsWellFormed id d w = rw removed_lem (without-IsWellFormed id d w)

pub remove_account-eq-some :
    (id : String) (d : Data) {r : Data × Account}
    → remove_account id d ≡ some r
    → (r.0 ≡ removed id d) × (account d id ≡ some r.1)
unfolding remove_account
remove_account-eq-some id d e = ground arith

pub handle_remove_account-IsWellFormed :
    (who id : String) (now : ℕ) (d : Data)
    → IsWellFormed d
    → Ensures IsWellFormed (handle_remove_account who id now d)
unfolding handle_remove_account
handle_remove_account-IsWellFormed who id now d w =
    Ensures-or_refuse IsWellFormed (remove_account id d) 404 _ _ λ r e.
      log-IsWellFormed now who _ r.0
        (rw (remove_account-eq-some id d e).0 (removed-IsWellFormed id d w))

pub handle_withdraw-IsWellFormed :
    (dev : Device) (id : String) (now : ℕ) (d : Data)
    → IsWellFormed d
    → Ensures IsWellFormed (handle_withdraw dev id now d)
unfolding handle_withdraw
handle_withdraw-IsWellFormed dev id now d w =
    Ensures-or_refuse IsWellFormed (index? (λ a. a.id == id) d.accounts) 404 _ _ λ i _.
      Ensures-or_refuse IsWellFormed (get_elem? d.accounts i) 404 _ _ λ a _.
        Ensures-bind IsWellFormed (may_withdraw d dev a) _ λ _ _.
          Ensures-or_refuse IsWellFormed (remove_account id d) 404 _ _ λ r e.
            log-IsWellFormed now _ _ r.0
              (rw (remove_account-eq-some id d e).0 (removed-IsWellFormed id d w))

without_share-IsWellFormed :
    (id : String) (d : Data)
    → IsWellFormed d
    → IsWellFormed (record d { shares = take (without_share id d).kept (without_share id d).slots })
unfolding without_share
without_share-IsWellFormed id d w =
    rw take-compact (filter-IsWellFormed d (λ sh. not (sh.id == id)) w)

pub revoke_share-IsWellFormed :
    (id who : String) (now : ℕ) (d : Data)
    → IsWellFormed d
    → Ensures IsWellFormed (revoke_share id who now d)
unfolding revoke_share
revoke_share-IsWellFormed id who now d w =
    elim (Option-cases (last_index? (λ sh. sh.id == id) d.shares)) [
      | inl e ↦ rw (e, revoke_share) w
      | inr (i, e) ↦
          rw (e, revoke_share)
            (elim (Option-cases (get_elem? (without_share id d).slots i)) [
              | inl f ↦ rw (f, revoke_share) (without_share-IsWellFormed id d w)
              | inr (sh, f) ↦
                  rw (f, revoke_share)
                    (log-IsWellFormed now who _ _ (without_share-IsWellFormed id d w))
            ])
    ]

pub handle_remove_person-IsWellFormed :
    (who id : String) (now : ℕ) (d : Data)
    → IsWellFormed d
    → Ensures IsWellFormed (handle_remove_person who id now d)
unfolding handle_remove_person
handle_remove_person-IsWellFormed who id now d w =
    Ensures-or_refuse IsWellFormed (person d id) 404 _ _ λ p _.
      log-IsWellFormed now who _ _ (record {
        one_share = Pairwise-filter Distinct _ d.shares w.one_share;
        lent = All-filter _ _ d.shares w.lent;
        held =
            All_filter_with (λ sh. HasPerson d sh.person_id) _ (λ sh. not (sh.person_id == id))
              (λ sh h k.
                any-filter (λ x. x.id == sh.person_id) (λ x. not (x.id == id))
                  (λ x. kept_id id x.id sh.person_id k) d.people
                ∙ h)
              d.shares w.held;
      })
