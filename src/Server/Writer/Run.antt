-- ===== src/Server/Writer/Run.antt =====
-- cmd/clawdh-server/dbwriter.go: the requests' calls and the steps of flush, in any order that the locks
-- allow. What the database has acknowledged is part of the state.
use clawdh.Base.{ℕ, String, Bool, if◌then◌else◌, List, [], ◌∷◌, ◌++◌, Option, none, some}
use clawdh.Gateway.Credentials.{Credential}
use clawdh.Server.Writer.{
  Usage, Windows, PendingEvent, Writer, new_writer, credential, window, collision, event,
  drop_written, Batch, begin, forget_credential, forget_window, forget_collision,
}

pub record State : Type 0 where
  pub writer : Writer
  pub batch : Option Batch  -- of the flush under way
  pub creds : List (String × Credential)  -- stored, in order
  pub declined : List (String × Credential)  -- storeCredential returned without an error and stored nothing
  pub windows : List (String × Windows)  -- handed to RecordWindows, which returns no error
  pub collisions : List (String × String)
  pub events : List PendingEvent

abbrev pub initial : State
initial = record {
  writer = new_writer;
  batch = none;
  creds = [];
  declined = [];
  windows = [];
  collisions = [];
  events = [];
}

-- What a request hands over.
pub data Request : Type 0 where
  rotates : String → Credential → Request
  reads : String → Windows → Request
  collides : String → String → Request
  uses : Usage → Request

unfoldable pub hand_over : Request → Writer → Writer
unfolding credential window collision event
hand_over (rotates id c) w = credential id c w
hand_over (reads id win) w = window id win w
hand_over (collides id note) w = collision id note w
hand_over (uses ev) w = event ev w

-- The next write of flush that returns without an error: credentials, then windows, collisions and usage rows.
-- Whether storeCredential stored the login is an argument: it returns without an error too where the account is
-- gone, its login does not open, the one held ends later or the new one is not sealed. The flush forgets the
-- entry either way.
unfoldable pub write_next :
    Bool
    → List (String × Credential)
    → List (String × Windows)
    → List (String × String)
    → List PendingEvent
    → ℕ
    → State
    → State
unfolding forget_credential forget_window forget_collision
write_next stored ((id, c) ∷ cs) ws ns es n s = record s {
  writer = forget_credential id c s.writer;
  batch = some (record { creds = cs; windows = ws; collisions = ns; events = es; written = n });
  creds = (if stored then s.creds ++ (id, c) ∷ [] else s.creds);
  declined = (if stored then s.declined else s.declined ++ (id, c) ∷ []);
}
write_next stored [] ((id, win) ∷ ws) ns es n s = record s {
  writer = forget_window id win s.writer;
  batch = some (record { creds = []; windows = ws; collisions = ns; events = es; written = n });
  windows = s.windows ++ (id, win) ∷ [];
}
write_next stored [] [] ((id, note) ∷ ns) es n s = record s {
  writer = forget_collision id note s.writer;
  batch = some (record { creds = []; windows = []; collisions = ns; events = es; written = n });
  collisions = s.collisions ++ (id, note) ∷ [];
}
write_next stored [] [] [] (e ∷ es) n s = record s {
  batch = some (record { creds = []; windows = []; collisions = []; events = es; written = e.seq });
  events = s.events ++ e ∷ [];
}
write_next stored [] [] [] [] n s = s

-- The end of flush, after an error or not: the deferred loop runs if the usage rows were reached.
unfoldable pub leave :
    List (String × Credential)
    → List (String × Windows)
    → List (String × String)
    → ℕ
    → State
    → State
unfolding drop_written
leave [] [] [] n s = record s {
  writer = record (s.writer) { events = drop_written n (s.writer).events };
  batch = none;
}
leave _ _ _ n s = record s { batch = none }

pub data Action : Type 0 where
  asks : Request → Action
  begins : Action
  writes : Bool → Action
  leaves : Action

-- An action that the state does not allow does nothing: a flush waits for the one under way.
unfoldable pub act : Action → State → State
unfolding hand_over begin write_next leave
act (asks r) s = record s { writer = hand_over r s.writer }
act begins s = elim s.batch [
  | some b ↦ s
  | none ↦ record s { writer = (begin s.writer).0; batch = some ((begin s.writer).1) }
]
act (writes stored) s = elim s.batch [
  | some b ↦ write_next stored b.creds b.windows b.collisions b.events b.written s
  | none ↦ s
]
act leaves s = elim s.batch [ some b ↦ leave b.creds b.windows b.collisions b.written s | none ↦ s ]

-- From the start by any actions.
pub data Reachable : State → Type 0 where
  start : Reachable initial
  next : {s : State} (a : Action) → Reachable s → Reachable (act a s)
