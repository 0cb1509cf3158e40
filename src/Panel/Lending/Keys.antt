-- ===== src/Panel/Lending/Keys.antt =====
-- What IssueShareFor and RevokeShare of panel/store.go do to the keys.
use clawdh.Base.{
  ℕ, ◌+◌, String, List, [], ◌∷◌, ◌≡◌, ◌≢◌, refl, ap, sym, ◌∙◌, Bool, true, false, not, ◌==◌, ◌&&◌,
  ◌||◌, none, some, Option-cases, inl, inr, arith, eq_iff, filter, find?, find?-filter_kept,
  find?-append_last, find?-filter-none, All, All-find?, All-filter_of_test, All-append,
  find?-eq-none, ◌⊎◌, last_index?, get_elem?, ltb, if◌then◌else◌, nat_eq,
}
use clawdh.Base.Scan.{take-compact}
use clawdh.Panel.Model.{Share, Data, live}
use clawdh.Panel.Roster.{share_by_key_hash_at, log, same_pair, put_share, account, person}
use clawdh.Panel.Lending.{revoke_share, without_share, Grant, new_share, issue_share_for}
use clawdh.Panel.Answer.{Ensures, Ensures-or_refuse}

-- The search that the gateway makes among shares.
abbrev key_test : String → ℕ → Share → Bool
key_test key_hash now sh = sh.key_hash == key_hash && live now sh

-- Keys of other shares open what they opened, and none opens the share that went.
pub record Revoked (id : String) (before after : Data) : Type 0 where
  pub closed :
      (key_hash : String) (now : ℕ) (sh : Share)
      → share_by_key_hash_at after key_hash now ≡ some sh
      → sh.id ≢ id
  pub others :
      (key_hash : String) (now : ℕ) (sh : Share)
      → share_by_key_hash_at before key_hash now ≡ some sh
      → sh.id ≢ id
      → share_by_key_hash_at after key_hash now ≡ some sh

not-eq : (x y : String) → not (x == y) ≡ true → x ≢ y
not-eq x y h e = ground (arith, eq_iff x y)

eq-not : (x y : String) → x ≢ y → not (x == y) ≡ true
eq-not x y h = ground (arith, eq_iff x y)

filtered-Revoked :
    (id : String) (d after : Data)
    → after.shares ≡ filter (λ sh. not (sh.id == id)) d.shares
    → Revoked id d after
unfolding share_by_key_hash_at
filtered-Revoked id d after e = record {
  closed = λ key_hash now sh f.
      All-find? (λ x. x.id ≢ id) (key_test key_hash now) _
        (All-filter_of_test (λ x. x.id ≢ id) (λ x. not (x.id == id)) (λ x. not-eq x.id id) d.shares)
        (ap (find? (key_test key_hash now)) (sym e) ∙ f);
  others = λ key_hash now sh f h.
      ap (find? (key_test key_hash now)) e
      ∙ find?-filter_kept (key_test key_hash now) (λ x. not (x.id == id)) d.shares f
          (eq-not sh.id id h);
}

last_index?-none :
    (id : String) (xs : List Share)
    → last_index? (λ sh. sh.id == id) xs ≡ none
    → filter (λ sh. not (sh.id == id)) xs ≡ xs
last_index?-none id [] e = refl
last_index?-none id (x ∷ xs) e = elim (Option-cases (last_index? (λ sh. sh.id == id) xs)) [
  | inl n ↦ ground (arith, last_index?-none id xs n)
  | inr (i, s) ↦ absurd (ground arith)
]

-- After a revocation no key opens the share, and every key of another share opens what it opened.
pub revoke_share-Revoked :
    (id who : String) (now : ℕ) (d : Data) → Ensures (Revoked id d) (revoke_share id who now d)
unfolding revoke_share
revoke_share-Revoked id who now d = elim (Option-cases (last_index? (λ sh. sh.id == id) d.shares)) [
  | inl e ↦ rw (e, revoke_share) (filtered-Revoked id d d (sym (last_index?-none id d.shares e)))
  | inr (i, e) ↦
      rw (e, revoke_share)
        (elim (Option-cases (get_elem? (without_share id d).slots i)) [
          | inl f ↦
              rw (f, revoke_share)
                (filtered-Revoked id d _ (unfold without_share in take-compact _ d.shares))
          | inr (sh, f) ↦
              rw (f, revoke_share)
                (filtered-Revoked id d _ (unfold without_share log in take-compact _ d.shares))
        ])
]

-- A fresh key, granted: it opens the new share exactly until its deadline, and no other key opens a
-- share of that account for that person any more.
pub record Granted (g : Grant) (granted_at : ℕ) (after : Data) : Type 0 where
  pub opens :
      (now : ℕ)
      → share_by_key_hash_at after g.key_hash now ≡ (
          if nat_eq g.span 0 || ltb now (granted_at + g.span)
          then some (new_share g granted_at)
          else none)
  pub only :
      (key_hash : String) (now : ℕ) (sh : Share)
      → share_by_key_hash_at after key_hash now ≡ some sh
      → (same_pair g.account_id g.person_id sh ≡ false) ⊎ (sh ≡ new_share g granted_at)

-- No share has this key yet.
abbrev pub FreshKey : String → Data → Type 0
FreshKey key_hash d = All (λ sh. (sh.key_hash == key_hash) ≡ false) d.shares

not-true : (b : Bool) → not b ≡ true → b ≡ false
not-true b h = ground arith

put_share-only :
    (g : Grant) (at : ℕ) (d : Data) (key_hash : String) (now : ℕ) (sh : Share)
    → share_by_key_hash_at (put_share (new_share g at) d) key_hash now ≡ some sh
    → (same_pair g.account_id g.person_id sh ≡ false) ⊎ (sh ≡ new_share g at)
unfolding share_by_key_hash_at put_share new_share
put_share-only g at d key_hash now sh e =
    All-find? (λ x. (same_pair g.account_id g.person_id x ≡ false) ⊎ (x ≡ new_share g at))
      (key_test key_hash now) _
      (All-append _ _ (new_share g at ∷ [])
        (All-filter_of_test _ (λ x. not (same_pair g.account_id g.person_id x))
          (λ x h. inl (not-true _ h)) d.shares)
        (inr refl, tt))
      e

new_share-live :
    (g : Grant) (at now : ℕ)
    → key_test g.key_hash now (new_share g at) ≡ (nat_eq g.span 0 || ltb now (at + g.span))
unfolding new_share live
new_share-live g at now = ground (arith, eq_iff g.key_hash g.key_hash)

put_share-opens :
    (g : Grant) (at : ℕ) (d : Data) (now : ℕ)
    → FreshKey g.key_hash d
    → share_by_key_hash_at (put_share (new_share g at) d) g.key_hash now
      ≡ (if nat_eq g.span 0 || ltb now (at + g.span) then some (new_share g at) else none)
unfolding share_by_key_hash_at put_share new_share live
put_share-opens g at d now fresh =
    find?-append_last (key_test g.key_hash now) _ (new_share g at) (
      find?-filter-none (key_test g.key_hash now) _ d.shares (
        find?-eq-none (λ (x : Share). (x.key_hash == g.key_hash) ≡ false) (key_test g.key_hash now)
          (λ x h. ground arith) d.shares fresh))
    ∙ ap (λ b. if b then some (new_share g at) else none) (new_share-live g at now)

-- Granting with a fresh key makes it open the new share until the deadline that was asked for (for
-- ever, if none was), and rotates: any other share that a key opens is of another account or person.
pub issue_share_for-Granted :
    (g : Grant) (now : ℕ) (d : Data)
    → FreshKey g.key_hash d
    → Ensures (Granted g now) (issue_share_for g now d)
unfolding issue_share_for log
issue_share_for-Granted g now d fresh =
    Ensures-or_refuse (Granted g now) (account d g.account_id) 400 _ _ λ a _.
      Ensures-or_refuse (Granted g now) (person d g.person_id) 400 _ _ λ p _. record {
        opens = λ at. unfold share_by_key_hash_at in put_share-opens g now d at fresh;
        only = λ key_hash at sh e.
            put_share-only g now d key_hash at sh (unfold share_by_key_hash_at in e);
      }
