-- ===== src/Tests/Server.antt =====
-- cmd/clawdh-server/dbwriter.go: a rotation and a usage row, handed over while a flush is under way.
use clawdh.Base.{
  ℕ, ◌≡◌, refl, ◌≤◌, ◌⊎◌, ◌*◌, ◌/◌, String, List, [], ◌∷◌, Option, none, some, true, length,
  get_elem?, Pairwise,
}
use clawdh.Gateway.Credentials.{Credential}
use clawdh.Server.Writer.{Usage, max_pending_events}
use clawdh.Server.Writer.Run.{
  State, initial, rotates, uses, Action, asks, begins, writes, leaves, act, Reachable, start, next,
}
use clawdh.Server.Writer.Rows.{Before}
use clawdh.Server.Writer.Once.{Reachable-Once}
use clawdh.Panel.Roster.{account, share_by_key_hash_at}
use clawdh.Panel.Model.{live, has_login, Bytes, Account, Share, Data}
use clawdh.Panel.Calls.{empty_panel}
use clawdh.Gateway.Credentials.{get, Reply, no_answer}
use clawdh.Gateway.Proxy.{Resolution, resolved}
use clawdh.Server.Writer.{new_writer}
use clawdh.Server.Upstream.{Upstream, resolve}
use clawdh.Server.Upstream.Grants.{Granted, resolve-Granted}
use clawdh.Server.Stored.{store_credential, Change, millisecond, store_credential-Change}
use clawdh.Server.Writer.Kept.{newest, run, KeptIn, run-KeptIn}

abbrev credential_of : String → Credential
credential_of t = record { access_token = t; refresh_token = t; expires_at = 10 }

abbrev pub row : Usage
row = record {
  account_id = "a1";
  person_id = "p1";
  model = "opus";
  input = 3;
  output = 4;
  cache_creation = 0;
  cache_creation_1h = 0;
  cache_read = 0;
  request_id = "r1";
  session_id = "s1";
}

abbrev busy : List Action
busy =
    asks (rotates "a1" (credential_of "old"))
    ∷ asks (uses row)
    ∷ begins
    ∷ writes true
    ∷ asks (rotates "a1" (credential_of "new"))
    ∷ asks (uses row)
    ∷ writes true
    ∷ leaves
    ∷ []

abbrev flushed : State
flushed = act leaves (act (writes true) (act begins (act (asks (uses row)) initial)))

flushed-Reachable : Reachable flushed
flushed-Reachable = next leaves (next (writes true) (next begins (next (asks (uses row)) start)))

flushed-events : length flushed.events ≡ 1
unfolding act
flushed-events = refl

newest-busy : newest "a1" busy none ≡ some (credential_of "new")
unfolding newest
newest-busy = refl

Reachable-Once_example :
    Pairwise Before flushed.events × (length flushed.writer.events ≤ max_pending_events)
Reachable-Once_example = Reachable-Once flushed flushed-Reachable

run-KeptIn_example :
    KeptIn "a1"
      (run busy initial).writer.creds
      (run busy initial).creds
      (run busy initial).declined
      (newest "a1" busy none)
run-KeptIn_example = run-KeptIn "a1" busy

-- Cryptography that does nothing: a login is its end in milliseconds, in a one-element list.
unfoldable plain_hash : String → String
plain_hash key = key

unfoldable plain : Bytes → Option Bytes
plain b = some b

unfoldable end_of : Bytes → ℕ
end_of [] = 0
end_of (n ∷ b) = n * millisecond

unfoldable rotated_to : Bytes → Credential → Bytes
rotated_to b c = c.expires_at / millisecond ∷ []

unfoldable read_login : Bytes → Option Credential
read_login b =
    some (record { access_token = "t"; refresh_token = "r"; expires_at = 3_000_000_000_000 })

unfoldable silence : String → Reply
silence t = no_answer "no route"

unfoldable still : ℕ → ℕ
still n = 1_000

abbrev shared_login : Account
shared_login = record {
  id = "a1";
  name = "Work";
  email = "";
  plan = "max";
  created_at = 1;
  credential = 7 ∷ [];
  added_by = "p1";
}

abbrev lent : Share
lent = record {
  id = "s1";
  account_id = "a1";
  person_id = "p2";
  key_hash = "key";
  sealed_key = [];
  created_at = 1;
  expires_at = 0;
  granted_by = "Admin";
}

abbrev lending : Data
lending = record empty_panel { accounts = shared_login ∷ []; shares = lent ∷ [] }

abbrev upstream : Upstream
upstream = record {
  writer = new_writer;
  panel_data = empty_panel;
  data_at = 0;
  flight = true;
  load_failures = 0;
  retry_at = 0;
  managers = [];
}

abbrev opened : Resolution
opened = record { access_token = "t"; label = "Work"; account_id = "a1"; person_id = "p2" }

resolve-fresh :
    (resolve plain_hash read_login still silence 1_000 (some lending) none "key" upstream).0
    ≡ resolved opened
unfolding resolve plain_hash read_login still share_by_key_hash_at live account has_login get
resolve-fresh = refl

resolve-Granted_example :
    (d : Data) × ((d ≡ upstream.panel_data) ⊎ (some lending ≡ some d))
    × Granted d
        (plain_hash "key")
        1_000
        opened
        ((resolve plain_hash read_login still silence 1_000 (some lending) none "key" upstream).1)
resolve-Granted_example =
    resolve-Granted plain_hash read_login still silence 1_000 (some lending) none "key" upstream
      opened resolve-fresh

store_credential-Change_example :
    (login : Bytes) × (get_elem?
        (store_credential plain plain end_of rotated_to "a1" (credential_of "new") lending).accounts
        0
      ≡ some (record shared_login { credential = login }))
    × Change plain plain end_of rotated_to "a1" (credential_of "new") lending 0 shared_login login
store_credential-Change_example =
    store_credential-Change plain plain end_of rotated_to "a1" (credential_of "new") lending 0
      shared_login refl
