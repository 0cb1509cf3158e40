-- ===== src/Panel/Accounts/Contribute.antt =====
-- What handing up a login does to the accounts that are on the panel and to the shares.
use clawdh.Base.{
  ℕ, ◌<◌, String, [], ◌∷◌, ◌≡◌, ◌≢◌, refl, ap, sym, subst, ◌∙◌, ◌⊎◌, inl, inr, false, not, Option,
  none, some, Option-cases, arith, eq_iff, get_elem?, get_elem?-set_cases, get_elem?-append_left,
  find?, find?-append_left, find?-filter_kept, find?-none_fails,
}
use clawdh.Panel.Model.{Account, Device, Share, Data, Bytes}
use clawdh.Panel.Roster.{log, share_for, put_share, account_by_login, same_pair}
use clawdh.Panel.Accounts.{
  Contribution, login_end, not_newer, refreshed, own_access, refresh_login, add_login,
  handle_contribute,
}
use clawdh.Panel.Answer.{Ensures, Ensures-refuse_if}

shares-log : (at : ℕ) (who what : String) (d : Data) → (log at who what d).shares ≡ d.shares
unfolding log
shares-log at who what d = refl

-- The second login ends later than the first, if it is known of both when they end.
abbrev pub EndsLater : Option ℕ → Option ℕ → Type 0
EndsLater (some held) (some incoming) = held < incoming
EndsLater held incoming = Unit

not_newer-EndsLater :
    (read_end : Bytes → Option ℕ) (held incoming : Option ℕ)
    → not_newer read_end held incoming ≡ false
    → EndsLater held incoming
unfolding not_newer
not_newer-EndsLater read_end none incoming h = tt
not_newer-EndsLater read_end (some held) none h = tt
not_newer-EndsLater read_end (some held) (some incoming) h = ground arith

module _ (read_end : Bytes → Option ℕ) (c : Contribution) (dev : Device) where
  -- An account before and after: who added it stays on record, and its login is the old one, or the
  -- one handed up, which ends later than the one held if both ends are known.
  abbrev pub Kept : Account → Account → Type 0
  Kept a a' =
      (a'.id ≡ a.id)
      × (a'.name ≡ a.name)
      × (a.added_by ≢ "" → a'.added_by ≡ a.added_by)
      × ((a' ≡ a) ⊎ (EndsLater (login_end read_end a) c.login_end × (a'.credential ≡ c.sealed)))

  abbrev pub AllKept : Data → Data → Type 0
  AllKept d d' =
      (i : ℕ) (a : Account)
      → get_elem? d.accounts i ≡ some a
      → (a' : Account) × (get_elem? d'.accounts i ≡ some a') × Kept a a'

  accounts-own_access :
      (who id : String) (now : ℕ) (d : Data)
      → (own_access read_end c dev who now id d).accounts ≡ d.accounts
  unfolding own_access put_share
  accounts-own_access who id now d = ground arith

  refreshed-Kept :
      (a : Account)
      → not_newer read_end (login_end read_end a) c.login_end ≡ false
      → Kept a (refreshed read_end c dev a)
  unfolding refreshed
  refreshed-Kept a h = (
    refl,
    refl,
    (λ k. ground (arith, eq_iff a.added_by "")),
    inr (not_newer-EndsLater read_end (login_end read_end a) c.login_end h, refl),
  )

  refresh-AllKept :
      (now i : ℕ) (b : Account) (d : Data)
      → get_elem? d.accounts i ≡ some b
      → Ensures (AllKept d) (refresh_login read_end c dev now i b d)
  unfolding refresh_login
  refresh-AllKept now i b d e =
      Ensures-refuse_if (AllKept d) (not_newer read_end (login_end read_end b) c.login_end) 409 _ _
        λ newer j a f.
          rw accounts-own_access
            (elim (get_elem?-set_cases d.accounts i j (refreshed read_end c dev b) b e f) [
              | inl same ↦ (a, unfold log in same, (refl, refl, (λ _. refl), inl refl))
              | inr (new, which) ↦ (
                refreshed read_end c dev b,
                unfold log in new,
                subst (λ x. Kept x (refreshed read_end c dev b)) (sym which)
                    (refreshed-Kept b newer),
              )
            ])

  add-AllKept : (now : ℕ) (d : Data) → AllKept d (add_login read_end c dev now d)
  unfolding add_login
  add-AllKept now d i a e =
      rw accounts-own_access (
        a,
        unfold log in get_elem?-append_left d.accounts _ i e,
        (refl, refl, (λ _. refl), inl refl),
      )

  -- Whatever a machine hands up, every account that is on the panel stays in its place under its
  -- name, who added it stays on record, and where it is known when the login that it holds ends and
  -- when the one handed up does, it is replaced only by one that ends later.
  pub handle_contribute-AllKept :
      (now : ℕ) (d : Data) → Ensures (AllKept d) (handle_contribute read_end c dev now d)
  unfolding handle_contribute
  handle_contribute-AllKept now d = elim (Option-cases (account_by_login d c.email c.name)) [
    | inl e ↦ rw (e, handle_contribute) (add-AllKept now d)
    | inr (i, e) ↦
        rw (e, handle_contribute)
          (elim (Option-cases (get_elem? d.accounts i)) [
            | inl f ↦ rw (f, handle_contribute) (add-AllKept now d)
            | inr (b, f) ↦ rw (f, handle_contribute) (refresh-AllKept now i b d f)
          ])
  ]

  -- The shares that were there are there after.
  abbrev pub SharesKept : Data → Data → Type 0
  SharesKept d d' =
      (account_id person_id : String) (sh : Share)
      → share_for d account_id person_id ≡ some sh
      → share_for d' account_id person_id ≡ some sh

  put-SharesKept :
      (new : Share) (d : Data)
      → share_for d new.account_id new.person_id ≡ none
      → SharesKept d (put_share new d)
  unfolding share_for put_share
  put-SharesKept new d e account_id person_id sh f =
      find?-append_left (same_pair account_id person_id) _ (new ∷ []) (
        find?-filter_kept (same_pair account_id person_id) _ d.shares f (
          ap not (
            find?-none_fails (same_pair new.account_id new.person_id)
              (same_pair account_id person_id) d.shares e f)))

  own_access-SharesKept :
      (who id : String) (now : ℕ) (d : Data) → SharesKept d (own_access read_end c dev who now id d)
  unfolding own_access
  own_access-SharesKept who id now d = elim (Option-cases (share_for d id dev.person_id)) [
    | inl e ↦ rw (e, own_access) (put-SharesKept _ d e)
    | inr (sh, e) ↦ rw (e, own_access) (λ account_id person_id x f. f)
  ]

  -- The same shares on another panel.
  same-SharesKept :
      (d d' after : Data) → d'.shares ≡ d.shares → SharesKept d' after → SharesKept d after
  unfolding share_for
  same-SharesKept d d' after e k account_id person_id sh f =
      k account_id person_id sh (ap (find? (same_pair account_id person_id)) e ∙ f)

  add-SharesKept : (now : ℕ) (d : Data) → SharesKept d (add_login read_end c dev now d)
  unfolding add_login
  add-SharesKept now d =
      same-SharesKept d _ _ (shares-log now _ _ _) (own_access-SharesKept _ c.account_id now _)

  -- Handing up a login does not change the share, nor the key, of anyone who has access, the
  -- contributor included.
  pub handle_contribute-SharesKept :
      (now : ℕ) (d : Data) → Ensures (SharesKept d) (handle_contribute read_end c dev now d)
  unfolding handle_contribute refresh_login
  handle_contribute-SharesKept now d = elim (Option-cases (account_by_login d c.email c.name)) [
    | inl e ↦ rw (e, handle_contribute) (add-SharesKept now d)
    | inr (i, e) ↦
        rw (e, handle_contribute)
          (elim (Option-cases (get_elem? d.accounts i)) [
            | inl f ↦ rw (f, handle_contribute) (add-SharesKept now d)
            | inr (b, f) ↦
                rw (f, handle_contribute)
                  (Ensures-refuse_if (SharesKept d)
                    (not_newer read_end (login_end read_end b) c.login_end) 409 _ _
                    λ _.
                      same-SharesKept d _ _ (shares-log now _ _ _)
                        (own_access-SharesKept _ b.id now _))
          ])
  ]
