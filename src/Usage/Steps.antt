-- ===== src/Usage/Steps.antt =====
-- internal/usage/service.go: Get, Forget and Expire as steps. A Get that asks Anthropic is two of them, since
-- other calls may come while the request is under way; any other one is one. A Get that finds another of the
-- same account under way is given what that one brings.
use clawdh.Base.{
  ℕ, ◌+◌, String, List, [], ◌∷◌, ◌++◌, Option, none, some, Bool, ltb, if◌then◌else◌, lookup, put,
  delete,
}
use clawdh.Usage.Client.{Report, Fetched}
use clawdh.Usage.Service.{
  Service, Snapshot, Login, Prepared, shows, asks, prepare, conclude, forget, expire,
}

-- The end of Get: a request that was given up is not kept.
unfoldable pub cached : ℕ → Bool → String → Snapshot × ℕ → Service → Service
cached now cancelled id (snapshot, ttl) s = if cancelled then s else record s {
  entries = put id (record { snapshot = snapshot; at = now; ttl = ttl }) s.entries;
}

-- What a Get comes to.
pub data Begun : Type 0 where
  served : Snapshot → Begun
  joined : Begun
  asked : Begun

unfoldable pub begun : ℕ → Bool → String → Prepared → Service → Begun × Service
unfolding cached
begun now cancelled id (shows snapshot ttl) s =
    (served snapshot, cached now cancelled id (snapshot, ttl) s)
begun now cancelled id (asks c) s = (asked, record s { inflight = put id c s.inflight })

-- A Get for which no snapshot is reused.
unfoldable pub begin_fetch :
    ℕ → Bool → Option (Report × String) → String → Login → Service → Begun × Service
unfolding prepare begun
begin_fetch now cancelled gateway id login s = elim (lookup id s.inflight) [
  | some c ↦ (joined, s)
  | none ↦ begun now cancelled id (prepare now gateway id login s) s
]

unfoldable pub begin_get :
    ℕ → Bool → Option (Report × String) → String → Login → Service → Begun × Service
unfolding begin_fetch
begin_get now cancelled gateway id login s = elim (lookup id s.entries) [
  | some e ↦
      if ltb now (e.at + e.ttl)
      then (served e.snapshot, s)
      else begin_fetch now cancelled gateway id login s
  | none ↦ begin_fetch now cancelled gateway id login s
]

-- The answer to the request that is under way comes in.
unfoldable pub ended : ℕ → Bool → String → (Snapshot × ℕ) × Service → Service
unfolding cached
ended now cancelled id (shown, s) =
    let t = cached now cancelled id shown s in record t { inflight = delete id t.inflight }

unfoldable pub end_get :
    ℕ → Bool → Bool → Option (Report × String) → String → Fetched → Service → Service
unfolding conclude ended
end_get now cancelled writes gateway id answer s = elim (lookup id s.inflight) [
  | none ↦ s
  | some c ↦ ended now cancelled id (conclude now writes gateway id c answer s)
]

pub data Event : Type 0 where
  begins : ℕ → Bool → Option (Report × String) → String → Login → Event
  ends : ℕ → Bool → Bool → Option (Report × String) → String → Fetched → Event
  forgets : Bool → String → Event
  expires : ℕ → String → Event

unfoldable pub step : Event → Service → Service
unfolding begin_get end_get forget expire
step (begins now cancelled gateway id login) s = (begin_get now cancelled gateway id login s).1
step (ends now cancelled writes gateway id answer) s =
    end_get now cancelled writes gateway id answer s
step (forgets writes id) s = forget writes id s
step (expires now id) s = expire now id s

unfoldable pub steps : List Event → Service → Service
unfolding step
steps [] s = s
steps (e ∷ events) s = steps events (step e s)

unfoldable pub if_asked : String → Begun → List String
if_asked id asked = id ∷ []
if_asked id joined = []
if_asked id (served snapshot) = []

-- The accounts for which a step asks Anthropic.
unfoldable pub request : Event → Service → List String
unfolding begin_get if_asked
request (begins now cancelled gateway id login) s =
    if_asked id ((begin_get now cancelled gateway id login s).0)
request (ends now cancelled writes gateway id answer) s = []
request (forgets writes id) s = []
request (expires now id) s = []

unfoldable pub requests : List Event → Service → List String
unfolding step request
requests [] s = []
requests (e ∷ events) s = request e s ++ requests events (step e s)
