-- ===== src/Panel/Accounts.antt =====
-- The decisions about accounts in panel/handlers.go: what `handleRemoveAccount`, `handleContribute`
-- and `handleWithdraw` pass to `Store.Mutate`. What is drawn at random, sealed or hashed before the
-- write is an argument, and so is the reading of a stored login's end. A refusal carries the status
-- and the sentence of the handler's answer.
pub mod Slots
pub mod Contribute
use clawdh.Base.{
  ℕ, zero, ◌+◌, ◌-◌, String, List, [], ◌∷◌, ◌++◌, Option, none, some, Bool, true, false, not, ◌&&◌,
  ◌<>◌, ◌==◌, ltb, leb, if◌then◌else◌, filter, index?, get_elem?, set, take, trim_space,
}
use clawdh.Base.Scan.{Compacted, compact}
use clawdh.Panel.Model.{Device, Account, Share, Data, Bytes, has_login}
use clawdh.Panel.Roster.{person_name, account, account_by_login, share_for, put_share, log}
use clawdh.Panel.Answer.{Result, ok, refuse, ◌>>=◌, ◌>>◌, refuse_if, or_refuse}
use clawdh.Panel.Spans.{in_words}

-- The array of accounts after the loop of `removeAccount` that drops the account from it.
unfoldable pub without_account : String → Data → Compacted Account
without_account id d = compact (λ a. not (a.id == id)) d.accounts

-- What `removeAccount` leaves: the account is gone, and every share on it.
unfoldable pub removed : String → Data → Data
unfolding without_account
removed id d = record d {
  accounts = take (without_account id d).kept (without_account id d).slots;
  shares = filter (λ sh. not (sh.account_id == id)) d.shares;
}

-- removeAccount: what is left and the account that went, or `none` if there is no such account.
unfoldable pub remove_account : String → Data → Option (Data × Account)
unfolding removed
remove_account id d = elim (account d id) [ none ↦ none | some a ↦ some (removed id d, a) ]

-- handleRemoveAccount
unfoldable pub handle_remove_account : String → String → ℕ → Data → Result Data
unfolding remove_account
handle_remove_account who id now d = do
  removal ← or_refuse (remove_account id d) 404 "There is no such account."
  ok (log now who ("removed " <> removal.1.name) removal.0)

-- What a pointer into the accounts, taken at index `i` before the removal, reads after it.
slot_name : Compacted Account → ℕ → String
slot_name c i = elim (get_elem? c.slots i) [ none ↦ "" | some a ↦ a.name ]

-- The tests of `handleWithdraw` on the account that it found.
unfoldable pub may_withdraw : Data → Device → Account → Result (Unit {0})
may_withdraw d dev a =
    if a.added_by == ""
    then refuse 403 (
        a.name
        <> " was added before the panel recorded who adds what, so only its admin can remove it.")
    else if a.added_by == dev.person_id
    then ok tt
    else refuse 403 (
        a.name
        <> " was added by "
        <> person_name d a.added_by
        <> " — only they, or the panel's admin, can take it back.")

-- handleWithdraw. `d.Account` hands out a pointer into the array of accounts, the removal rewrites
-- that array, and the line of the log reads the name through the pointer afterwards.
unfoldable pub handle_withdraw : Device → String → ℕ → Data → Result Data
unfolding remove_account may_withdraw slot_name
handle_withdraw dev id now d = do
  i ←
      or_refuse (index? (λ a. a.id == id) d.accounts) 404
        "That account is not on the panel any more."
  a ← or_refuse (get_elem? d.accounts i) 404 "That account is not on the panel any more."
  may_withdraw d dev a
  removal ← or_refuse (remove_account id d) 404 "That account is not on the panel any more."
  ok (
      log now (person_name d dev.person_id)
        ("took " <> slot_name (without_account id d) i <> " back off the panel") removal.0)

-- What `handleContribute` has from the request, and what it made of it before the write.
pub record Contribution : Type 0 where
  pub email : String
  pub plan : String
  pub name : String  -- the account's name, else its address, trimmed
  pub sealed : Bytes
  pub login_end : Option ℕ  -- loginEndOf the login handed up
  pub key_hash : String
  pub sealed_key : Bytes
  pub account_id : String  -- newID, for an account that is not there yet
  pub share_id : String  -- newID

-- The checks of `handleContribute` before the write: the name it settles on.
unfoldable pub contribution_name : String → String → Bytes → Result String
contribution_name name email raw = do
  refuse_if (elim raw [ [] ↦ true | _ ↦ false ]) 400 "That does not look like a stored login."
  let chosen = (if trim_space name == "" then trim_space email else trim_space name)
  refuse_if (chosen == "") 400 "Give the account a name."
  ok chosen

-- sameSignInProblem
unfoldable pub same_sign_in_problem : String → ℕ → ℕ → String
same_sign_in_problem name held now =
    let when =
      (if ltb now held
        then "ends in " <> in_words (held - now)
        else "ended " <> in_words (now - held) <> " ago") in
    "That is the same sign-in " <> name <> " already has on the panel (it " <> when
    <> "), so adding it again would change nothing. "
    <> "Sign in to the account again on this machine first, then add it."

module _ (read_end : Bytes → Option ℕ) where
  -- Server.loginEnd: the end of the sign-in that an account holds.
  unfoldable pub login_end : Account → Option ℕ
  login_end a = if has_login a then read_end a.credential else none

  -- Whether the login handed up is not newer than the one held.
  unfoldable pub not_newer : Option ℕ → Option ℕ → Bool
  not_newer (some held) (some incoming) = leb incoming held
  not_newer _ _ = false

  -- The account after its login was replaced.
  unfoldable pub refreshed : Contribution → Device → Account → Account
  refreshed c dev a = record a {
    credential = c.sealed;
    email = (if trim_space c.email == "" then a.email else trim_space c.email);
    plan = (if trim_space c.plan == "" then a.plan else trim_space c.plan);
    added_by = (if a.added_by == "" then dev.person_id else a.added_by);
  }

  unfoldable pub new_account : Contribution → Device → ℕ → Account
  new_account c dev now = record {
    id = c.account_id;
    name = c.name;
    email = trim_space c.email;
    plan = trim_space c.plan;
    created_at = now;
    credential = c.sealed;
    added_by = dev.person_id;
  }

  -- The contributor's access to their own login, kept if they already have it.
  unfoldable pub own_access : Contribution → Device → String → ℕ → String → Data → Data
  own_access c dev who now account_id d = elim (share_for d account_id dev.person_id) [
    | some _ ↦ d
    | none ↦
        put_share
          (record {
            id = c.share_id;
            account_id = account_id;
            person_id = dev.person_id;
            key_hash = c.key_hash;
            sealed_key = c.sealed_key;
            created_at = now;
            expires_at = 0;
            granted_by = who;
          })
          d
  ]

  -- The branch for a login that the panel already holds, at index `i`.
  unfoldable pub refresh_login : Contribution → Device → ℕ → ℕ → Account → Data → Result Data
  unfolding not_newer refreshed own_access login_end
  refresh_login c dev now i a d = do
    refuse_if (not_newer (login_end a) c.login_end) 409
        (same_sign_in_problem a.name (elim (login_end a) [ none ↦ 0 | some held ↦ held ]) now)
    let who = person_name d dev.person_id
    ok (
        own_access c dev who now a.id (
          log now who ("refreshed the login for " <> a.name <> " from " <> dev.name)
            (record d { accounts = set d.accounts i (refreshed c dev a) })))

  unfoldable pub add_login : Contribution → Device → ℕ → Data → Data
  unfolding new_account own_access
  add_login c dev now d =
      let who = person_name d dev.person_id in
      own_access c dev who now c.account_id (
        log now who ("added " <> c.name <> " from " <> dev.name)
          (record d { accounts = d.accounts ++ new_account c dev now ∷ [] }))

  -- handleContribute
  unfoldable pub handle_contribute : Contribution → Device → ℕ → Data → Result Data
  unfolding refresh_login add_login
  handle_contribute c dev now d = elim (account_by_login d c.email c.name) [
    | none ↦ ok (add_login c dev now d)
    | some i ↦ elim (get_elem? d.accounts i) [
      | none ↦ ok (add_login c dev now d)
      | some a ↦ refresh_login c dev now i a d
    ]
  ]
