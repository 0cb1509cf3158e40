-- ===== src/Panel/Access.antt =====
-- panel/store.go and panel/handlers.go: what a gateway key opens, after the changes that take access away and after the sweep.
use clawdh.Base.{
  ℕ, ◌≤◌, String, ◌≡◌, ◌≢◌, true, not, ◌==◌, ◌&&◌, Option, none, some, arith, eq_iff, find?,
  find?-filter, find?-eq-none, All-find?, index?, get_elem?, All-filter_of_test,
}
use clawdh.Panel.Model.{Share, Person, Device, Account, Data, live}
use clawdh.Panel.Roster.{expire_shares, share_by_key_hash_at, log, person}
use clawdh.Panel.Accounts.{
  removed, remove_account, handle_remove_account, handle_withdraw, may_withdraw,
}
use clawdh.Panel.People.{handle_remove_person, device_of_token}
use clawdh.Panel.Answer.{ok, or_refuse, Ensures, Ensures-or_refuse, Ensures-bind}
use clawdh.Panel.WellFormed.Removals.{removed_lem, remove_account-eq-some}

-- The sweep changes nothing for the gateway: with or without it a key opens the same share, at the
-- sweep's instant and at any later one.
pub share_by_key_hash_at-expire_shares :
    (d : Data) (key_hash : String) (swept now : ℕ)
    → swept ≤ now
    → share_by_key_hash_at (expire_shares swept d) key_hash now
      ≡ share_by_key_hash_at d key_hash now
unfolding share_by_key_hash_at expire_shares live
share_by_key_hash_at-expire_shares d key_hash swept now h =
    find?-filter (λ sh. sh.key_hash == key_hash && live now sh) (live swept) (λ sh e. ground arith)
      d.shares

-- No key opens the account, and the account is gone.
pub record Unlent (id : String) (d : Data) : Type 0 where
  pub no_account : find? (λ a. a.id == id) d.accounts ≡ none
  pub no_key :
      (key_hash : String) (now : ℕ) (sh : Share)
      → share_by_key_hash_at d key_hash now ≡ some sh
      → sh.account_id ≢ id

not-test : (x y : String) → not (x == y) ≡ true → x ≢ y
not-test x y h e = ground (arith, eq_iff x y)

log-Unlent :
    (at : ℕ) (who what id : String) (d : Data) → Unlent id d → Unlent id (log at who what d)
unfolding log share_by_key_hash_at
log-Unlent at who what id d u = record { no_account = u.no_account; no_key = u.no_key }

removed-Unlent : (id : String) (d : Data) → Unlent id (removed id d)
unfolding share_by_key_hash_at
removed-Unlent id d = rw removed_lem (record {
  no_account =
      find?-eq-none (λ (a : Account). not (a.id == id) ≡ true) (λ a. a.id == id)
        (λ a h. ground arith) _
        (All-filter_of_test (λ a. not (a.id == id) ≡ true) (λ a. not (a.id == id)) (λ a h. h)
          d.accounts);
  no_key = λ key_hash now sh e.
      All-find? (λ x. x.account_id ≢ id) _ _
        (All-filter_of_test (λ x. x.account_id ≢ id) (λ x. not (x.account_id == id))
          (λ x h. not-test x.account_id id h) d.shares)
        e;
})

-- When the admin removes an account, it is gone and no key opens it any more.
pub handle_remove_account-Unlent :
    (who id : String) (now : ℕ) (d : Data)
    → Ensures (Unlent id) (handle_remove_account who id now d)
unfolding handle_remove_account
handle_remove_account-Unlent who id now d =
    Ensures-or_refuse (Unlent id) (remove_account id d) 404 _ _ λ r e.
      log-Unlent now who _ id r.0 (rw (remove_account-eq-some id d e).0 (removed-Unlent id d))

-- A withdrawal that goes through was asked for by a machine of the person who is on record as having
-- added the account, which is not the empty name; the account is then gone and no key opens it.
pub handle_withdraw-authorised :
    (dev : Device) (id : String) (now : ℕ) (d : Data)
    → Ensures
        (λ d'.
          Unlent id d'
          × ((i : ℕ) × (a : Account) × (index? (λ x. x.id == id) d.accounts ≡ some i)
              × (get_elem? d.accounts i ≡ some a)
              × (a.added_by ≡ dev.person_id)
              × (a.added_by ≢ "")))
        (handle_withdraw dev id now d)
unfolding handle_withdraw
handle_withdraw-authorised dev id now d =
    Ensures-or_refuse _ (index? (λ a. a.id == id) d.accounts) 404 _ _ λ i ei.
      Ensures-or_refuse _ (get_elem? d.accounts i) 404 _ _ λ a ea.
        Ensures-bind _ (may_withdraw d dev a) _ λ u allowed.
          Ensures-or_refuse _ (remove_account id d) 404 _ _ λ r e. (
            log-Unlent now _ _ id r.0 (rw (remove_account-eq-some id d e).0 (removed-Unlent id d)),
            (i, a, ei, ea, (adder a u allowed).0, (adder a u allowed).1),
          )
  where
    adder :
        (a : Account) (u : Unit {0})
        → may_withdraw d dev a ≡ ok u
        → (a.added_by ≡ dev.person_id) × (a.added_by ≢ "")
    adder a u h =
        unfold may_withdraw in ground (arith, eq_iff a.added_by "", eq_iff a.added_by dev.person_id)

-- The person's keys and machines open nothing, and the person is gone.
pub record Gone (id : String) (d : Data) : Type 0 where
  pub no_person : find? (λ p. p.id == id) d.people ≡ none
  pub no_key :
      (key_hash : String) (now : ℕ) (sh : Share)
      → share_by_key_hash_at d key_hash now ≡ some sh
      → sh.person_id ≢ id
  pub no_machine :
      (token_hash : String) (v : Device) → device_of_token token_hash d ≡ ok v → v.person_id ≢ id

-- When a person is removed, none of their keys opens an account, and no token is of a machine of
-- theirs.
pub handle_remove_person-Gone :
    (who id : String) (now : ℕ) (d : Data) → Ensures (Gone id) (handle_remove_person who id now d)
unfolding handle_remove_person share_by_key_hash_at device_of_token log
handle_remove_person-Gone who id now d = Ensures-or_refuse (Gone id) (person d id) 404 _ _ λ p e.
    record {
      no_person =
          find?-eq-none (λ (x : Person). not (x.id == id) ≡ true) (λ x. x.id == id)
            (λ x h. ground arith) _
            (All-filter_of_test (λ x. not (x.id == id) ≡ true) (λ x. not (x.id == id)) (λ x h. h)
              d.people);
      no_key = λ key_hash at sh f.
          All-find? (λ x. x.person_id ≢ id) _ _
            (All-filter_of_test (λ x. x.person_id ≢ id) (λ x. not (x.person_id == id))
              (λ x h. not-test x.person_id id h) d.shares)
            f;
      no_machine = λ token_hash v f.
          All-find? (λ x. x.person_id ≢ id) _ _
            (All-filter_of_test (λ x. x.person_id ≢ id) (λ x. not (x.person_id == id))
              (λ x h. not-test x.person_id id h) d.devices)
            (found _ v f);
    }
  where
    found :
        (o : Option Device) (v : Device)
        → or_refuse o 401 "This machine is no longer enrolled with the panel." ≡ ok v
        → o ≡ some v
    found none v h = cc
    found (some x) v h = ground arith
