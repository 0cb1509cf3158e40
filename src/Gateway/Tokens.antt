-- ===== src/Gateway/Tokens.antt =====
-- What internal/gateway/refresh.go promises of the credential it keeps.
use clawdh.Base.{
  ℕ, ◌≤◌, ◌<◌, ◌≡◌, ap, ◌⊎◌, String, [], ◌∷◌, ◌++◌, none, some, Bool, true, false, not, ◌==◌, arith,
  if◌then◌else◌,
}
use clawdh.Gateway.Credentials.{
  Credential, stale, newer_than, Attempt, obtained, Reply, refresh, Manager, Answer, token, error,
  adoptable, can_roll_on, can_replace, after_reload, get, replace, renew,
}

adoptable-failing :
    (p : Credential → Bool) (s : Credential) → p s ≡ false → adoptable p (some (some s)) ≡ none
unfolding adoptable
adoptable-failing p s e = ground arith

older-unfit :
    (m : Manager) (s : Credential) → s.expires_at ≤ m.cred.expires_at → can_roll_on m s ≡ false
unfolding can_roll_on newer_than
older-unfit m s h = ground arith

older-unfit_for :
    (bad : String) (m : Manager) (s : Credential)
    → s.expires_at ≤ m.cred.expires_at
    → can_replace bad m s ≡ false
unfolding can_replace newer_than
older-unfit_for bad m s h = ground arith

-- A stored credential that expires no later than the one held changes nothing, neither for a caller
-- who wants a token nor for one whose token was refused: the call does what it does without a
-- store, so a store that missed rotations cannot bring a spent login back.
pub get-stale_store :
    (now : ℕ → ℕ) (service : String → Reply) (s : Credential) (bad : String) (m : Manager)
    → s.expires_at ≤ m.cred.expires_at
    → (get now service (some (some s)) m ≡ get now service none m)
      × (renew now service (some (some s)) bad m ≡ renew now service none bad m)
unfolding get renew adoptable
get-stale_store now service s bad m h = (
  ap
      (λ o.
        if not (stale (now 0) m.cred)
        then (m, token m.cred.access_token)
        else after_reload now service o m)
      (adoptable-failing (can_roll_on m) s (older-unfit m s h)),
  ap
      (λ o.
        if not (m.cred.access_token == bad)
        then (m, token m.cred.access_token)
        else replace now service o m)
      (adoptable-failing (can_replace bad m) s (older-unfit_for bad m s h)),
)

-- What became of the manager `m`, which is now `n`. Nothing was sent and nothing persisted; or one
-- refresh token was sent, that of `c`, the credential held or a newer one, and the service's grant
-- is now held and persisted, or there was none and `c` is held.
abbrev pub Rotated : (String → Attempt) → Manager → Manager → Type 0
Rotated refreshed m n =
    (((n.cred ≡ m.cred) ⊎ (newer_than n.cred m.cred ≡ true))
      × (n.sent ≡ m.sent)
      × (n.persisted ≡ m.persisted))
    ⊎ ((c : Credential) × ((c ≡ m.cred) ⊎ (newer_than c m.cred ≡ true))
        × (n.sent ≡ m.sent ++ c.refresh_token ∷ [])
        × (((n.cred ≡ c) × (n.persisted ≡ m.persisted))
            ⊎ ((refreshed c.refresh_token ≡ obtained n.cred)
                × (n.persisted ≡ m.persisted ++ n.cred ∷ []))))

-- What tokenManager.get answers: the token of the credential now held, which is newly persisted or
-- was not expired at the start of the call; or an error, when the credential held has no token or
-- has expired, and nothing was persisted.
abbrev pub Given : (ℕ → ℕ) → Manager → Manager × Answer → Type 0
Given now m (n, token t) =
    (t ≡ n.cred.access_token)
    × ((now 0 < n.cred.expires_at) ⊎ (n.persisted ≡ m.persisted ++ n.cred ∷ []))
Given now m (n, error err) =
    (n.persisted ≡ m.persisted) × ((n.cred.access_token ≡ "") ⊎ (n.cred.expires_at ≤ now 3))

-- What Manager.Renew answers a caller whose token `bad` was refused: the token of the credential now
-- held, which is another one or was newly granted and persisted; or an error, only if the refused
-- token was the one held, and then nothing was persisted.
abbrev pub Renewed : String → Manager → Manager × Answer → Type 0
Renewed bad m (n, token t) =
    (t ≡ n.cred.access_token) × ((t == bad ≡ false) ⊎ (n.persisted ≡ m.persisted ++ n.cred ∷ []))
Renewed bad m (n, error err) = (n.persisted ≡ m.persisted) × (m.cred.access_token ≡ bad)

module _ (now : ℕ → ℕ) (service : String → Reply) where
  abbrev Contract : Manager → Manager × Answer → Type 0
  Contract m r = Rotated (λ t. refresh (now 2) (service t)) m (r.0) × Given now m r
