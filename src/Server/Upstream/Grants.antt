-- ===== src/Server/Upstream/Grants.antt =====
-- cmd/clawdh-server/db.go: what a key that resolves comes from.
use clawdh.Base.{
  ℕ, ◌≡◌, ◌≢◌, refl, sym, ap, ◌∙◌, subst, ◌⊎◌, inl, inr, String, Option, none, some, Option-cases,
  true, Bool-cases, not, ◌==◌, ◌&&◌, ◌||◌, ◌<>◌, ◌+◌, leb, ltb, arith, eq_iff, find?-passes, All,
  All-find?, lookup, put, lookup-put, [],
}
use clawdh.Panel.Model.{Bytes, Account, Share, Data, has_login}
use clawdh.Panel.Roster.{account, share_by_key_hash_at}
use clawdh.Gateway.Credentials.{Credential, Manager, broken, Answer, token, error, Reply, get}
use clawdh.Gateway.Proxy.{Resolution, Resolved, resolved, unknown_key, unusable}
use clawdh.Gateway.Admission.{KnowsAccounts}
use clawdh.Server.Upstream.{
  data_ttl, fresh_read_every, Upstream, snapshot, fresh_read, manager_for, reloaded, answered,
  resolve_share, resolve,
}

-- A resolution in a state: of a share that the key opens, for its person and its account, which has a login
-- and is open afterwards, for a renewal.
abbrev pub Granted : Data → String → ℕ → Resolution → Upstream → Type 0
Granted d key_hash now res after =
    (sh : Share) × (a : Account) × (share_by_key_hash_at d key_hash now ≡ some sh)
    × (account d sh.account_id ≡ some a)
    × (has_login a ≡ true)
    × (res.person_id ≡ sh.person_id)
    × (res.account_id ≡ sh.account_id)
    × ((m : Manager) × (lookup res.account_id after.managers ≡ some m))

resolved-injective : (a b : Resolution) → Path Resolved (resolved a) (resolved b) → a ≡ b
resolved-injective a b h = cc

account-id : (d : Data) (id : String) (a : Account) → account d id ≡ some a → a.id ≡ id
unfolding account
account-id d id a h =
    let hit = find?-passes (λ x. x.id == id) d.accounts h in ground (arith, eq_iff a.id id)

snapshot-panel_data : (now : ℕ) (u : Upstream) → (snapshot now u).0 ≡ u.panel_data
unfolding snapshot
snapshot-panel_data now u =
    elim (Bool-cases (leb (u.data_at + data_ttl) now && leb u.retry_at now)) [
      | inl old ↦ rw (snapshot, old) refl
      | inr young ↦ rw (snapshot, young) refl
    ]

fresh_read-answer :
    (now : ℕ) (answer : Option Data) (u : Upstream) (d : Data)
    → (fresh_read now answer u).0 ≡ some d
    → answer ≡ some d
unfolding fresh_read
fresh_read-answer now answer u d h =
    elim (Bool-cases
      (not u.flight && (ltb now u.retry_at || ltb now (u.data_at + fresh_read_every)))) [
        | inl barred ↦
            let bad : Path (Option Data) none (some d) = rw (fresh_read, barred) at h in cc
        | inr allowed ↦ rw (fresh_read, allowed) at h
      ]

module _ (hash : String → String) (read_credential : Bytes → Option Credential) (clock : ℕ → ℕ)
    (service : String → Reply) where
  answered-Granted :
      (d : Data) (key_hash : String) (now : ℕ) (a : Account) (sh : Share) (r : Manager × Answer)
      (u : Upstream) (res : Resolution)
      → share_by_key_hash_at d key_hash now ≡ some sh
      → account d sh.account_id ≡ some a
      → has_login a ≡ true
      → (answered hash read_credential clock service a sh r u).0 ≡ resolved res
      → Granted d key_hash now res ((answered hash read_credential clock service a sh r u).1)
  unfolding answered
  answered-Granted d key_hash now a sh (m, token t) u res s e l h =
      let given : Resolution = record {
        access_token = t;
        label = a.name;
        account_id = a.id;
        person_id = sh.person_id;
      } in
      let same : given ≡ res = resolved-injective given res h in
      let opened : lookup a.id (put a.id (record m { persisted = [] }) u.managers)
          ≡ some (record m { persisted = [] }) =
        lookup-put a.id a.id (record m { persisted = [] }) u.managers
        ∙ ground (arith, eq_iff a.id a.id) in
      (
        sh,
        a,
        s,
        e,
        l,
        sym (ap (λ r. r.person_id) same),
        sym (ap (λ r. r.account_id) same) ∙ account-id d sh.account_id a e,
        (
          record m { persisted = [] },
          subst
              (λ i.
                lookup i (put a.id (record m { persisted = [] }) u.managers)
                ≡ some (record m { persisted = [] }))
              (ap (λ r. r.account_id) same) opened,
        ),
      )
  answered-Granted d key_hash now a sh (m, error err) u res s e l h =
      let bad : unusable err ≡ resolved res = h in cc

  resolve_share-Granted :
      (again : Option Data) (d : Data) (key_hash : String) (now : ℕ) (sh : Share) (u : Upstream)
      (res : Resolution)
      → share_by_key_hash_at d key_hash now ≡ some sh
      → (resolve_share hash read_credential clock service again d sh u).0 ≡ resolved res
      → Granted d key_hash now res
          ((resolve_share hash read_credential clock service again d sh u).1)
  unfolding resolve_share
  resolve_share-Granted again d key_hash now sh u res s h =
      elim (Option-cases (account d sh.account_id)) [
        | inl n ↦ let bad : unknown_key ≡ resolved res = rw (resolve_share, n) at h in cc
        | inr (a, e) ↦ elim (Bool-cases (has_login a)) [
          | inr none_stored ↦
              let bad : unusable (broken (a.name <> " has no stored login")) ≡ resolved res =
                rw (resolve_share, e, none_stored) at h in
              cc
          | inl l ↦ elim (Option-cases (manager_for hash read_credential clock service a u)) [
            | inl n ↦
                let bad : unusable (broken ("opening the shared login for " <> a.name))
                    ≡ resolved res =
                  rw (resolve_share, e, l, n) at h in
                cc
            | inr (m, n) ↦
                let r =
                  get clock service
                    (some (reloaded hash read_credential clock service a.id again u)) m in
                rw (resolve_share, e, l, n)
                  (answered-Granted d key_hash now a sh r u res s e l
                    (rw (resolve_share, e, l, n) at h))
          ]
        ]
      ]

  -- Where a key opens something, it opens a share that is live in the state that is served or in what a fresh
  -- read brought, for the share's person and account, and that account's login is stored and open for a
  -- renewal.
  pub resolve-Granted :
      (now : ℕ) (fresh again : Option Data) (key : String) (u : Upstream) (res : Resolution)
      → (resolve hash read_credential clock service now fresh again key u).0 ≡ resolved res
      → (d : Data) × ((d ≡ u.panel_data) ⊎ (fresh ≡ some d))
        × Granted d
            (hash key)
            now
            res
            ((resolve hash read_credential clock service now fresh again key u).1)
  unfolding resolve
  resolve-Granted now fresh again key u res h =
      let first = snapshot now u in
      elim (Option-cases (share_by_key_hash_at first.0 (hash key) now)) [
        | inr (sh, s) ↦
            rw (resolve, s)
              (
                first.0,
                inl (snapshot-panel_data now u),
                resolve_share-Granted again first.0 (hash key) now sh first.1 res s
                    (rw (resolve, s) at h),
              )
        | inl miss ↦
            let later = fresh_read now fresh first.1 in
            elim (Option-cases later.0) [
              | inl n ↦ let bad : unknown_key ≡ resolved res = rw (resolve, miss, n) at h in cc
              | inr (d, n) ↦ elim (Option-cases (share_by_key_hash_at d (hash key) now)) [
                | inl gone ↦
                    let bad : unknown_key ≡ resolved res = rw (resolve, miss, n, gone) at h in cc
                | inr (sh, s) ↦
                    rw (resolve, miss, n, s)
                      (
                        d,
                        inr (fresh_read-answer now fresh first.1 d n),
                        resolve_share-Granted again d (hash key) now sh later.1 res s
                            (rw (resolve, miss, n, s) at h),
                      )
              ]
            ]
      ]

  account_ids :
      (d : Data) (id : String) (a : Account)
      → All (λ x. x.id ≢ "") d.accounts
      → account d id ≡ some a
      → id ≢ ""
  unfolding account
  account_ids d id a h e =
      let named : a.id ≢ "" = All-find? (λ x. x.id ≢ "") (λ x. x.id == id) d.accounts h e in
      λ blank. named (account-id d id a e ∙ blank)

  -- The upstream knows the account of every key that it resolves, as the gateway's handler needs, if the
  -- accounts of the state that is served and of what a fresh read brings have ids; so the handler over it
  -- serves as it promises, for a state that no request changes meanwhile.
  pub resolve-KnowsAccounts :
      (now : ℕ) (fresh again : Option Data) (u : Upstream)
      → All (λ x. x.id ≢ "") u.panel_data.accounts
      → ((d : Data) → fresh ≡ some d → All (λ x. x.id ≢ "") d.accounts)
      → KnowsAccounts (λ key. (resolve hash read_credential clock service now fresh again key u).0)
  resolve-KnowsAccounts now fresh again u old new key res h =
      let (d, from, g) = resolve-Granted now fresh again key u res h in
      let ids : All (λ x. x.id ≢ "") d.accounts = elim from [
        | inl same ↦ subst (λ x. All (λ y. y.id ≢ "") x.accounts) (sym same) old
        | inr read ↦ new d read
      ] in
      let named : g.0.account_id ≢ "" = account_ids d g.0.account_id g.1 ids g.3 in
      let same : res.account_id ≡ g.0.account_id = g.6 in ground (arith, eq_iff res.account_id "")
