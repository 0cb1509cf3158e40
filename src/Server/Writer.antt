-- ===== src/Server/Writer.antt =====
-- cmd/clawdh-server/dbwriter.go: what the gateway has still to write to the panel's database. The maps
-- are association lists, in the order in which Go's `range` happens to meet them. A flush reads the
-- queues under the lock and then writes one entry at a time, while requests go on queueing: the
-- steps of a flush and of the requests are steps of one relation (Writer/Run).
pub mod Run
pub mod Rows
pub mod Flushes
pub mod Ends
pub mod Once
pub mod Kept
use clawdh.Base.{
  ℕ, suc, ◌+◌, ◌-◌, ◌≤◌, String, List, [], ◌∷◌, ◌++◌, Option, none, some, Bool, true, false, ltb,
  leb, nat_eq, length, drop, if◌then◌else◌, put, lookup, delete, ◌&&◌, ◌==◌,
}
use clawdh.Gateway.Credentials.{Credential, Failure, is_login_expired}

-- gateway.Event, the usage of one forwarded response.
pub record Usage : Type 0 where
  pub account_id : String
  pub person_id : String
  pub model : String
  pub input : ℕ
  pub output : ℕ
  pub cache_creation : ℕ
  pub cache_creation_1h : ℕ
  pub cache_read : ℕ
  pub request_id : String
  pub session_id : String

-- gateway.Windows, the utilisation in parts of an arbitrary unit.
pub record Windows : Type 0 where
  pub seven_d : ℕ
  pub seven_d_reset : ℕ

pub record PendingEvent : Type 0 where
  pub seq : ℕ
  pub ev : Usage

pub record Writer : Type 0 where
  pub creds : List (String × Credential)
  pub windows : List (String × Windows)
  pub collisions : List (String × String)
  pub events : List PendingEvent
  pub seq : ℕ
  pub dropped : ℕ

abbrev pub max_pending_events : ℕ
max_pending_events = 5000

-- newWriter
abbrev pub new_writer : Writer
new_writer = record { creds = []; windows = []; collisions = []; events = []; seq = 0; dropped = 0 }

-- loginNote
unfoldable pub login_note : Failure → String
login_note err =
    if is_login_expired err
    then "the shared login reached the end of its sign-in (Anthropic: refresh token expired) — sign in to the account again and add it to the panel"
    else "the shared login failed to refresh — the account is likely being used first-party outside the gateway"

-- writer.credential
unfoldable pub credential : String → Credential → Writer → Writer
credential id c w = record w { creds = put id c w.creds }

-- writer.window
unfoldable pub window : String → Windows → Writer → Writer
window id win w = record w { windows = put id win w.windows }

-- writer.collision
unfoldable pub collision : String → String → Writer → Writer
collision id note w = record w { collisions = put id note w.collisions }

-- The front of the queue is dropped where it is full.
unfoldable pub make_room : Writer → Writer
make_room w =
    if leb max_pending_events (length w.events)
    then record w { events = drop 1 w.events; dropped = suc w.dropped }
    else w

-- writer.event
unfoldable pub event : Usage → Writer → Writer
unfolding make_room
event ev w =
    let r = make_room w in
    record r { seq = suc r.seq; events = r.events ++ record { seq = suc r.seq; ev = ev } ∷ [] }

-- writer.pending
unfoldable pub pending : Writer → ℕ
pending w = length w.creds + length w.windows + length w.collisions + length w.events

-- The loop at the end of flush that drops the events that are stored.
unfoldable pub drop_written : ℕ → List PendingEvent → List PendingEvent
drop_written written [] = []
drop_written written (e ∷ es) =
    let rest = drop_written written es in if leb e.seq written then rest else e ∷ es

-- What flush has read and not yet written.
pub record Batch : Type 0 where
  pub creds : List (String × Credential)
  pub windows : List (String × Windows)
  pub collisions : List (String × String)
  pub events : List PendingEvent
  pub written : ℕ

-- The copies that flush takes under the lock.
unfoldable pub begin : Writer → Writer × Batch
begin w = (
  record w { dropped = 0 },
  record {
    creds = w.creds;
    windows = w.windows;
    collisions = w.collisions;
    events = w.events;
    written = 0;
  },
)

unfoldable pub same_credential : Credential → Credential → Bool
same_credential a b =
    (a.access_token == b.access_token)
    && (a.refresh_token == b.refresh_token)
    && nat_eq a.expires_at b.expires_at

-- An entry leaves the map once it is stored, if it is still the one that was read.
unfoldable pub forget_credential : String → Credential → Writer → Writer
unfolding same_credential
forget_credential id c w = elim (lookup id w.creds) [
  | none ↦ w
  | some cur ↦ if same_credential cur c then record w { creds = delete id w.creds } else w
]

unfoldable pub forget_window : String → Windows → Writer → Writer
forget_window id win w = elim (lookup id w.windows) [
  | none ↦ w
  | some cur ↦
      if nat_eq cur.seven_d win.seven_d && nat_eq cur.seven_d_reset win.seven_d_reset
      then record w { windows = delete id w.windows }
      else w
]

-- `w.collisions[id] == note` is so for a missing entry and an empty note too, and then there is nothing
-- to delete.
unfoldable pub forget_collision : String → String → Writer → Writer
forget_collision id note w = elim (lookup id w.collisions) [
  | none ↦ w
  | some cur ↦ if cur == note then record w { collisions = delete id w.collisions } else w
]
