-- ===== src/Server/Upstream.antt =====
-- cmd/clawdh-server/db.go: the Upstream of the gateway over the panel's state. The hash of a key, and the
-- credential that opening and parsing a stored login gives, are parameters; what a read of the panel
-- brings in time, the clock and the token service are arguments, as in Gateway/Credentials.
pub mod Grants
use clawdh.Base.{
  ℕ, suc, ◌+◌, ◌*◌, ◌-◌, String, List, [], ◌∷◌, ◌++◌, Option, none, some, Bool, true, false, not,
  ◌&&◌, ◌||◌, ◌==◌, ◌<>◌, ltb, leb, if◌then◌else◌, second, lookup, put, delete,
}
use clawdh.Panel.Model.{Bytes, Account, Share, Data, has_login}
use clawdh.Panel.Roster.{account, share_by_key_hash_at}
use clawdh.Gateway.Credentials.{
  Credential, Manager, Failure, broken, Answer, token, error, Reply, get, renew,
}
use clawdh.Gateway.Proxy.{Resolution, Resolved, resolved, unknown_key, unusable}
use clawdh.Server.Backoff.{backoff}
use clawdh.Server.Writer.{Writer, credential, collision, login_note}

-- dbUpstream, as far as resolving and renewing use it.
pub record Upstream : Type 0 where
  pub writer : Writer
  pub panel_data : Data
  pub data_at : ℕ
  pub flight : Bool  -- a re-read is under way
  pub load_failures : ℕ
  pub retry_at : ℕ
  pub managers : List (String × Manager)

abbrev pub data_ttl : ℕ
data_ttl = 15 * second

abbrev pub fresh_read_every : ℕ
fresh_read_every = 2 * second

-- snapshot: the state that is served, and a re-read is started where it has grown old.
unfoldable pub snapshot : ℕ → Upstream → Data × Upstream
snapshot now u =
    if leb (u.data_at + data_ttl) now && leb u.retry_at now
    then (u.panel_data, record u { flight = true })
    else (u.panel_data, u)

-- noteLoadLocked, at the end of a re-read
unfoldable pub note_load : ℕ → Option Data → Upstream → Upstream
note_load now (some d) u = record u {
  panel_data = d;
  data_at = now;
  load_failures = 0;
  retry_at = 0;
  flight = false;
}
note_load now none u = record u {
  load_failures = suc u.load_failures;
  retry_at = now + backoff (suc u.load_failures);
  flight = false;
}

-- freshRead; `answer` is what the re-read brings within the wait.
unfoldable pub fresh_read : ℕ → Option Data → Upstream → Option Data × Upstream
fresh_read now answer u =
    if not u.flight && (ltb now u.retry_at || ltb now (u.data_at + fresh_read_every))
    then (none, u)
    else (answer, record u { flight = true })

unfoldable pub forget : String → Upstream → Upstream
forget id u = record u { managers = delete id u.managers }

-- A login that cannot be rolled forward: its manager goes, and the panel is told.
unfoldable pub give_up : String → Failure → Upstream → Upstream
unfolding forget collision login_note
give_up id err u =
    let v = forget id u in record v { writer = collision id (login_note err) v.writer }

-- What a manager's `onRefresh` is given goes to the writer.
unfoldable pub handed_on : String → List Credential → Writer → Writer
unfolding credential
handed_on id [] w = w
handed_on id (c ∷ cs) w = handed_on id cs (credential id c w)

-- The manager after a call, with its rotations handed on.
unfoldable pub kept_open : String → Manager → Upstream → Upstream
unfolding handed_on
kept_open id m u = record u {
  writer = handed_on id m.persisted u.writer;
  managers = put id (record m { persisted = [] }) u.managers;
}

unfoldable pub new_manager : Credential → Manager
new_manager c = record { cred = c; persisted = []; sent = [] }

module _ (hash : String → String) (read_credential : Bytes → Option Credential) (clock : ℕ → ℕ)
    (service : String → Reply) where
  -- The manager of an account that is open, or a new one for the stored login.
  unfoldable pub manager_for : Account → Upstream → Option Manager
  unfolding new_manager
  manager_for a u = elim (lookup a.id u.managers) [
    | some m ↦ some m
    | none ↦ elim (read_credential a.credential) [ some c ↦ some (new_manager c) | none ↦ none ]
  ]

  -- What a manager's `reload` finds in the state that it is given.
  unfoldable pub stored_in : String → Data → Option Credential
  stored_in id d = elim (account d id) [ none ↦ none | some a ↦ read_credential a.credential ]

  unfoldable pub reloaded : String → Option Data → Upstream → Option Credential
  unfolding stored_in
  reloaded id again u = elim again [ some d ↦ stored_in id d | none ↦ stored_in id u.panel_data ]

  -- The token that a manager gives, and what is left of the upstream.
  unfoldable pub answered : Account → Share → Manager × Answer → Upstream → Resolved × Upstream
  unfolding give_up kept_open
  answered a sh (m, token t) u = (
    resolved
        (record { access_token = t; label = a.name; account_id = a.id; person_id = sh.person_id }),
    kept_open a.id m u,
  )
  answered a sh (m, error err) u = (unusable err, give_up a.id err (kept_open a.id m u))

  unfoldable pub resolve_share : Option Data → Data → Share → Upstream → Resolved × Upstream
  unfolding manager_for reloaded answered
  resolve_share again d sh u = elim (account d sh.account_id) [
    | none ↦ (unknown_key, u)
    | some a ↦
        if not (has_login a)
        then (unusable (broken (a.name <> " has no stored login")), u)
        else elim (manager_for a u) [
          | none ↦ (unusable (broken ("opening the shared login for " <> a.name)), u)
          | some m ↦ answered a sh (get clock service (some (reloaded a.id again u)) m) u
        ]
  ]

  -- Resolve; `fresh` is what a fresh read brings in time, and `again` what one does for the manager.
  unfoldable pub resolve : ℕ → Option Data → Option Data → String → Upstream → Resolved × Upstream
  unfolding snapshot fresh_read resolve_share
  resolve now fresh again key u =
      let first = snapshot now u in
      elim (share_by_key_hash_at first.0 (hash key) now) [
        | some sh ↦ resolve_share again first.0 sh first.1
        | none ↦
            let second_read = fresh_read now fresh first.1 in
            elim second_read.0 [
              | none ↦ (unknown_key, second_read.1)
              | some d ↦ elim (share_by_key_hash_at d (hash key) now) [
                | none ↦ (unknown_key, second_read.1)
                | some sh ↦ resolve_share again d sh second_read.1
              ]
            ]
      ]

  unfoldable pub renewed : String → Manager × Answer → Upstream → Answer × Upstream
  unfolding give_up kept_open
  renewed id (m, token t) u = (token t, kept_open id m u)
  renewed id (m, error err) u = (error err, give_up id err (kept_open id m u))

  -- Renew
  unfoldable pub renew_account : Option Data → String → String → Upstream → Answer × Upstream
  unfolding reloaded renewed
  renew_account again id bad u = elim (lookup id u.managers) [
    | none ↦ (error (broken ("no login is open for account " <> id)), u)
    | some m ↦ renewed id (renew clock service (some (reloaded id again u)) bad m) u
  ]
