-- ===== src/Server/Stored.antt =====
-- cmd/clawdh-server/dbwriter.go: storeCredential, as the decision that it gives to Store.Mutate. Opening and
-- sealing, the end that parseCredential reads and what updateCredential writes are parameters.
use clawdh.Base.{
  ℕ, ◌≤◌, ◌<◌, ◌≡◌, ◌≢◌, ◌⊎◌, true, false, refl, eq_iff, index?-passes, sym, ap, ◌∙◌, inl, inr,
  String, Option, none, some, Option-cases, Bool-cases, ◌==◌, arith, ltb, nat_eq, index?, get_elem?,
  set, get_elem?-set_self, get_elem?-set_other, if◌then◌else◌,
}
use mathlib.Core.Option.{some-injective}
use clawdh.Panel.Model.{Bytes, Account, Data}
use clawdh.Gateway.Credentials.{Credential}

abbrev pub millisecond : ℕ
millisecond = 1_000_000

module _ (unseal : Bytes → Option Bytes) (seal : Bytes → Option Bytes) (expires_of : Bytes → ℕ)
    (updated : Bytes → Credential → Bytes) where
  -- The login of an account after a rotation.
  unfoldable pub stored_after : Credential → Bytes → Bytes
  stored_after fresh held = elim (unseal held) [
    | none ↦ held
    | some raw ↦
        if ltb fresh.expires_at (expires_of raw)
        then held
        else elim (seal (updated raw fresh)) [ none ↦ held | some sealed ↦ sealed ]
  ]

  -- storeCredential
  unfoldable pub store_credential : String → Credential → Data → Data
  unfolding stored_after
  store_credential id fresh d = elim (index? (λ a. a.id == id) d.accounts) [
    | none ↦ d
    | some i ↦ elim (get_elem? d.accounts i) [
      | none ↦ d
      | some a ↦ record d {
        accounts = set d.accounts i (record a { credential = stored_after fresh a.credential });
      }
    ]
  ]

  -- What becomes of the login of the account that the credential is for: it stays where it does not open, ends
  -- later or the new one is not sealed, and else gives way to the one held with the credential in it, sealed.
  abbrev pub Rotated : Credential → Bytes → Bytes → Type 0
  Rotated fresh held after =
      ((after ≡ held) × (unseal held ≡ none))
      ⊎ ((raw : Bytes) × (unseal held ≡ some raw)
          × (((after ≡ held) × (fresh.expires_at < expires_of raw))
              ⊎ ((after ≡ held) × (seal (updated raw fresh) ≡ none))
              ⊎ ((expires_of raw ≤ fresh.expires_at) × (seal (updated raw fresh) ≡ some after))))

  stored_after-Rotated :
      (fresh : Credential) (held : Bytes) → Rotated fresh held (stored_after fresh held)
  unfolding stored_after
  stored_after-Rotated fresh held = elim (Option-cases (unseal held)) [
    | inl shut ↦ rw (stored_after, shut) (inl (refl, refl))
    | inr (raw, e) ↦ elim (Bool-cases (ltb fresh.expires_at (expires_of raw))) [
      | inl newer ↦ rw (stored_after, e, newer) (inr (raw, refl, inl (refl, ground arith)))
      | inr due ↦ elim (Option-cases (seal (updated raw fresh))) [
        | inl unsealed ↦
            rw (stored_after, e, due, unsealed) (inr (raw, refl, inr (inl (refl, unsealed))))
        | inr (sealed, s) ↦
            rw (stored_after, e, due, s) (inr (raw, refl, inr (inr (ground arith, s))))
      ]
    ]
  ]

  -- An account before and after, by its place: the first one with the id has its login rotated, and every other one
  -- stays as it is.
  abbrev pub Change : String → Credential → Data → ℕ → Account → Bytes → Type 0
  Change id fresh d k a after =
      ((index? (λ x. x.id == id) d.accounts ≢ some k) × (after ≡ a.credential))
      ⊎ ((a.id ≡ id) × Rotated fresh a.credential after)

  -- A rotated credential never replaces a login that ends later. Every account stays in its place as it is but for
  -- its login. The first account with the id that the credential is for keeps its login where that does not
  -- open, ends later, or the new one cannot be sealed, and else gets the one held with the credential
  -- written in, sealed; every other account keeps its login.
  pub store_credential-Change :
      (id : String) (fresh : Credential) (d : Data) (k : ℕ) (a : Account)
      → get_elem? d.accounts k ≡ some a
      → (login : Bytes) × (get_elem? (store_credential id fresh d).accounts k
          ≡ some (record a { credential = login }))
        × Change id fresh d k a login
  unfolding store_credential
  store_credential-Change id fresh d k a at =
      elim (Option-cases (index? (λ x. x.id == id) d.accounts)) [
        | inl n ↦
            rw (store_credential, n)
              (
                a.credential,
                at,
                inl ((λ e. let bad : Path (Option ℕ) none (some k) = e in cc), refl),
              )
        | inr (i, n) ↦ elim (Option-cases (get_elem? d.accounts i)) [
          | inl m ↦
              rw (store_credential, n, m)
                (a.credential, at, inl ((λ e. missing i m (some-injective i k e)), refl))
          | inr (b, m) ↦
              let new_login = stored_after fresh b.credential in
              rw (store_credential, n, m)
                (elim (Bool-cases (nat_eq i k)) [
                  | inr apart ↦ (
                    a.credential,
                    get_elem?-set_other d.accounts i k (record b { credential = new_login }) apart
                        ∙ at,
                    inl ((λ e. differs i apart (some-injective i k e)), refl),
                  )
                  | inl same ↦ at_place i b (ground (arith, same)) n m
                ])
        ]
      ]
    where
      missing : (i : ℕ) → get_elem? d.accounts i ≡ none → i ≢ k
      missing i m e =
          let bad : Path (Option Account) none (some a) =
            sym m ∙ ap (get_elem? d.accounts) e ∙ at in
          cc

      differs : (i : ℕ) → nat_eq i k ≡ false → i ≢ k
      differs i apart e = ground (arith, apart, e)

      at_place :
          (i : ℕ) (b : Account)
          → i ≡ k
          → index? (λ x. x.id == id) d.accounts ≡ some i
          → get_elem? d.accounts i ≡ some b
          → (login : Bytes) × (get_elem?
                (set d.accounts i (record b { credential = stored_after fresh b.credential }))
                k
              ≡ some (record a { credential = login }))
            × (((some i ≢ some k) × (login ≡ a.credential))
                ⊎ ((a.id ≡ id) × Rotated fresh a.credential login))
      at_place i b e n m =
          let is_b : b ≡ a = some-injective b a (sym m ∙ ap (get_elem? d.accounts) e ∙ at) in
          let hit : (b.id == id) ≡ true =
            index?-passes (λ x. x.id == id) d.accounts i {a = b} n m in
          let named : b.id ≡ id = ground (arith, eq_iff b.id id) in
          (
            stored_after fresh a.credential,
            ap
                  (get_elem?
                    (set d.accounts i (record b { credential = stored_after fresh b.credential })))
                  (sym e)
                ∙ get_elem?-set_self d.accounts i
                    (record b { credential = stored_after fresh b.credential }) {a = b} m
                ∙ ap {A = Account}
                    (λ x. some (record x { credential = stored_after fresh x.credential })) is_b,
            inr (
              ap {A = Account} (λ x. x.id) (sym is_b) ∙ named,
              stored_after-Rotated fresh a.credential,
            ),
          )
