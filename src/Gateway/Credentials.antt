-- ===== src/Gateway/Credentials.antt =====
-- internal/gateway/refresh.go: the login that the gateway keeps for one account, and its renewal. The
-- clock's readings in a call are `now 0`, `now 1`, ... in the order of the code. The token service is
-- the argument `service`, from a refresh token to its reply; the stored credential, which `reload`
-- reads, is an argument too: the outer option is whether there is a `reload`, the inner one its
-- Boolean.
use clawdh.Base.{
  ℕ, ◌+◌, ◌*◌, String, List, [], ◌∷◌, ◌++◌, Option, none, some, Bool, true, false, not, ◌&&◌, ◌==◌,
  ltb, if◌then◌else◌, ◌<>◌, minute, second, contains_in_lower,
}

-- refreshLead
abbrev pub refresh_lead : ℕ
refresh_lead = 10 * minute

pub record Credential : Type 0 where
  pub access_token : String
  pub refresh_token : String
  pub expires_at : ℕ

-- Credential.stale: `ExpiresAt.Add(-refreshLead)` is after `now`, or not.
unfoldable pub stale : ℕ → Credential → Bool
stale now c = if c.access_token == "" then true else not (ltb (now + refresh_lead) c.expires_at)

-- Credential.newerThan
unfoldable pub newer_than : Credential → Credential → Bool
newer_than c o = ltb o.expires_at c.expires_at

pub record RefreshError : Type 0 where
  pub status : String
  pub code : String
  pub description : String

-- RefreshError.Error
unfoldable pub error_text : RefreshError → String
error_text e =
    let msg = "refreshing the shared login: the token service answered " <> e.status in
    if not (e.code == "") && not (e.description == "")
    then msg <> ": " <> e.code <> " (" <> e.description <> ")"
    else if not (e.code == "")
    then msg <> ": " <> e.code
    else msg

-- RefreshError.Expired
unfoldable pub is_expired : RefreshError → Bool
is_expired e = e.code == "invalid_grant" && contains_in_lower e.description "expired"

-- Go's `error` where a login is at fault: the service's refusal, or any other.
pub data Failure : Type 0 where
  turned_down : RefreshError → Failure
  broken : String → Failure

-- IsLoginExpired
unfoldable pub is_login_expired : Failure → Bool
unfolding is_expired
is_login_expired (turned_down e) = is_expired e
is_login_expired (broken msg) = false

pub data Attempt : Type 0 where
  obtained : Credential → Attempt
  failed : Failure → Attempt

-- What comes back for a refresh token: no answer, an answer other than 200 with the reason if it
-- could be read, a 200 that does not decode, or one that does, its lifetime in seconds.
pub data Reply : Type 0 where
  no_answer : String → Reply
  not_granted : String → Option (String × String) → Reply
  garbled : String → Reply
  granted : String → String → ℕ → Reply

-- refresh, behind the exchange with the service; `now` is its `time.Now()`.
unfoldable pub refresh : ℕ → Reply → Attempt
refresh now (no_answer err) = failed (broken ("refreshing the shared login: " <> err))
refresh now (not_granted status none) =
    failed (turned_down (record { status = status; code = ""; description = "" }))
refresh now (not_granted status (some (code, description))) =
    failed (turned_down (record { status = status; code = code; description = description }))
refresh now (garbled err) = failed (broken err)
refresh now (granted access next seconds) =
    if access == ""
    then failed (broken "the token service returned no access token")
    else obtained (record {
      access_token = access;
      refresh_token = next;
      expires_at = now + seconds * second;
    })

-- tokenManager: the credential, what `onRefresh` was given, and the refresh tokens sent to the
-- service.
pub record Manager : Type 0 where
  pub cred : Credential
  pub persisted : List Credential
  pub sent : List String

-- An access token for the caller, or an error.
pub data Answer : Type 0 where
  token : String → Answer
  error : Failure → Answer

unfoldable pub keep : Credential → Manager → Manager
keep fresh m = record m { cred = fresh; persisted = m.persisted ++ fresh ∷ [] }

unfoldable pub send : Manager → Manager
send m = record m { sent = m.sent ++ m.cred.refresh_token ∷ [] }

-- The stored credential, if there is a `reload` and it found one that passes the test.
unfoldable pub adoptable : (Credential → Bool) → Option (Option Credential) → Option Credential
adoptable p none = none
adoptable p (some none) = none
adoptable p (some (some c)) = if p c then some c else none

-- `c.RefreshToken != "" && c.newerThan(m.cred)`
unfoldable pub can_roll_on : Manager → Credential → Bool
unfolding newer_than
can_roll_on m c = not (c.refresh_token == "") && newer_than c m.cred

-- `c.AccessToken != "" && c.AccessToken != bad && c.newerThan(m.cred)`
unfoldable pub can_replace : String → Manager → Credential → Bool
unfolding newer_than
can_replace bad m c =
    not (c.access_token == "") && not (c.access_token == bad) && newer_than c m.cred

module _ (now : ℕ → ℕ) (service : String → Reply) where
  -- What tokenManager.get makes of the refresh: on an error the current token still serves as long as
  -- it has not expired.
  unfoldable pub fall_back : Attempt → Manager → Manager × Answer
  unfolding keep
  fall_back (failed err) m =
      if not (m.cred.access_token == "") && ltb (now 3) m.cred.expires_at
      then (m, token m.cred.access_token)
      else (m, error err)
  fall_back (obtained fresh) m = (keep fresh m, token fresh.access_token)

  -- tokenManager.get from its call of refresh on.
  unfoldable pub refresh_or_fall_back : Manager → Manager × Answer
  unfolding refresh fall_back send
  refresh_or_fall_back m = fall_back (refresh (now 2) (service m.cred.refresh_token)) (send m)

  -- tokenManager.get behind the reload.
  unfoldable pub after_reload : Option Credential → Manager → Manager × Answer
  unfolding stale refresh_or_fall_back
  after_reload none m = refresh_or_fall_back m
  after_reload (some c) m =
      let adopted = (record m { cred = c }) in
      if not (stale (now 1) c)
      then (adopted, token c.access_token)
      else refresh_or_fall_back adopted

  -- tokenManager.get
  unfoldable pub get : Option (Option Credential) → Manager → Manager × Answer
  unfolding stale adoptable can_roll_on after_reload
  get stored m =
      if not (stale (now 0) m.cred)
      then (m, token m.cred.access_token)
      else after_reload (adoptable (can_roll_on m) stored) m

  -- Manager.Renew from its call of refresh on.
  unfoldable pub spend : Attempt → Manager → Manager × Answer
  unfolding keep
  spend (failed err) m = (m, error err)
  spend (obtained fresh) m = (keep fresh m, token fresh.access_token)

  -- Manager.Renew behind the reload.
  unfoldable pub replace : Option Credential → Manager → Manager × Answer
  unfolding refresh send spend
  replace (some c) m = (record m { cred = c }, token c.access_token)
  replace none m = spend (refresh (now 0) (service m.cred.refresh_token)) (send m)

  -- Manager.Renew
  unfoldable pub renew : Option (Option Credential) → String → Manager → Manager × Answer
  unfolding adoptable can_replace replace
  renew stored bad m =
      if not (m.cred.access_token == bad)
      then (m, token m.cred.access_token)
      else replace (adoptable (can_replace bad m) stored) m
