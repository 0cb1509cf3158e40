-- ===== src/Jobs.antt =====
-- internal/remotejobs/queue.go: a machine's held remote-help requests. A call takes the clock's
-- reading; what it does to the outside, running a request and reporting to the panel, is appended to
-- `effects`, and what `save` writes is `disk`. The map of held requests is a list with one entry for
-- an id, in the order in which Go's `range` happens to meet them.
pub mod Consent
pub mod History
pub mod Order
use clawdh.Base.{
  ℕ, ◌+◌, ◌≡◌, ap, String, List, [], ◌∷◌, ◌++◌, Option, none, some, Bool, true, false, not, ◌&&◌,
  ◌==◌, ltb, leb, if◌then◌else◌, is_zero, hour, filter, find?, take, length,
}

pub record Request : Type 0 where
  pub id : String
  pub kind : String
  pub params : String
  pub requested_by : String
  pub describe : String
  pub received_at : ℕ

pub data Outcome : Type 0 where
  allowed denied auto expired : Outcome

pub record Decision : Type 0 where
  pub request : Request
  pub outcome : Outcome
  pub decided_at : ℕ

pub data Effect : Type 0 where
  ran : Request → Effect
  reported : String → String → String → Effect

-- What is on disk.
pub record Persisted : Type 0 where
  pub pending : List Request
  pub trust_until : ℕ
  pub history : List Decision

pub record Queue : Type 0 where
  pub pending : List Request
  pub trust_until : ℕ
  pub history : List Decision
  pub effects : List Effect
  pub disk : Persisted

-- The hooks that the service sets: `Run`, from kind and parameters to result and status, and whether
-- there is a `Report`.
pub record Hooks : Type 0 where
  pub run : Option (String → String → String × String)
  pub reports : Bool

abbrev pub max_history : ℕ
max_history = 30

abbrev pub max_pending_age : ℕ
max_pending_age = hour

-- Queue.load
unfoldable pub load : Persisted → List Effect → Queue
load p effects = record {
  pending = p.pending;
  trust_until = p.trust_until;
  history = p.history;
  effects = effects;
  disk = p;
}

-- Queue.save
unfoldable pub save : Queue → Queue
save q = record q {
  disk = record { pending = q.pending; trust_until = q.trust_until; history = q.history };
}

-- Queue.trustedLocked
unfoldable pub trusted : ℕ → Queue → Bool
trusted now q = not (is_zero q.trust_until) && ltb now q.trust_until

-- A call of `Report`, if there is one.
unfoldable pub report : Hooks → String → String → String → Queue → Queue
report hooks id status result q =
    if hooks.reports then record q { effects = q.effects ++ reported id status result ∷ [] } else q

-- Queue.record
unfoldable pub record_decision : ℕ → Request → Outcome → Queue → Queue
unfolding save
record_decision now r outcome q = save (record q {
  history =
      take max_history (record { request = r; outcome = outcome; decided_at = now } ∷ q.history);
})

-- Queue.settle
unfoldable pub settle : Hooks → ℕ → Outcome → Request → Queue → Queue
unfolding report record_decision
settle hooks now outcome r q = elim hooks.run [
  | none ↦
      record_decision now r outcome
        (report hooks r.id "error" "This machine can't run requests right now." q)
  | some run ↦
      let (result, status) = run r.kind r.params in
      record_decision now r outcome
        (report hooks r.id status result (record q { effects = q.effects ++ ran r ∷ [] }))
]

-- What `Receive` makes of a request without a time.
unfoldable pub stamped : ℕ → Request → Request
stamped now r = if is_zero r.received_at then record r { received_at = now } else r

-- `q.pending[r.ID] = r`
unfoldable pub hold : Request → Queue → Queue
hold r q = record q { pending = filter (λ x. not (x.id == r.id)) q.pending ++ r ∷ [] }

-- Queue.Receive, and whether the request was held.
unfoldable pub receive : Hooks → ℕ → Request → Queue → Queue × Bool
unfolding trusted settle stamped hold save report
receive hooks now r q =
    if trusted now q
    then (settle hooks now auto (stamped now r) q, false)
    else (report hooks r.id "awaiting" "" (save (hold (stamped now r) q)), true)

pub receive-trusted :
    (hooks : Hooks) (now : ℕ) (r : Request) (q : Queue)
    → trusted now q ≡ true
    → receive hooks now r q ≡ (settle hooks now auto (stamped now r) q, false)
unfolding receive
receive-trusted hooks now r q e =
    ap
      (λ b.
        if b
        then (settle hooks now auto (stamped now r) q, false)
        else (report hooks r.id "awaiting" "" (save (hold (stamped now r) q)), true))
      e

pub receive-held :
    (hooks : Hooks) (now : ℕ) (r : Request) (q : Queue)
    → trusted now q ≡ false
    → receive hooks now r q
      ≡ (report hooks r.id "awaiting" "" (save (hold (stamped now r) q)), true)
unfolding receive
receive-held hooks now r q e =
    ap
      (λ b.
        if b
        then (settle hooks now auto (stamped now r) q, false)
        else (report hooks r.id "awaiting" "" (save (hold (stamped now r) q)), true))
      e

-- Queue.take, when the request is there.
unfoldable pub drop_request : String → Queue → Queue
unfolding save
drop_request id q = save (record q { pending = filter (λ x. not (x.id == id)) q.pending })

-- Queue.Allow, and whether the request was still waiting.
unfoldable pub allow : Hooks → ℕ → String → Queue → Queue × Bool
unfolding drop_request settle
allow hooks now id q = elim (find? (λ r. r.id == id) q.pending) [
  | none ↦ (q, false)
  | some r ↦ (settle hooks now allowed r (drop_request id q), true)
]

-- Queue.Deny, and whether the request was still waiting.
unfoldable pub deny : Hooks → ℕ → String → Queue → Queue × Bool
unfolding drop_request report record_decision
deny hooks now id q = elim (find? (λ r. r.id == id) q.pending) [
  | none ↦ (q, false)
  | some r ↦ (
    record_decision now r denied (
        report hooks r.id "denied" "The owner of this machine declined this request."
          (drop_request id q)),
    true,
  )
]

-- The order of sort.Slice by the time of receipt.
insert : Request → List Request → List Request
insert r [] = r ∷ []
insert r (x ∷ xs) =
    let rest = insert r xs in if leb r.received_at x.received_at then r ∷ x ∷ xs else x ∷ rest

unfoldable pub by_receipt : List Request → List Request
unfolding insert
by_receipt [] = []
by_receipt (r ∷ rs) = insert r (by_receipt rs)

-- for _, r := range held { q.settle(ctx, r, outcome) }
unfoldable pub settle_all : Hooks → ℕ → Outcome → List Request → Queue → Queue
unfolding settle
settle_all hooks now outcome [] q = q
settle_all hooks now outcome (r ∷ rs) q =
    settle_all hooks now outcome rs (settle hooks now outcome r q)

-- Queue.Trust
unfoldable pub trust : Hooks → ℕ → ℕ → Queue → Queue
unfolding save by_receipt settle_all
trust hooks now span q =
    settle_all hooks now allowed (by_receipt q.pending)
      (save (record q { trust_until = now + span; pending = [] }))

-- Queue.Untrust
unfoldable pub untrust : Queue → Queue
unfolding save
untrust q = save (record q { trust_until = 0 })

-- `q.Now().Sub(r.ReceivedAt) > MaxPendingAge`
unfoldable pub overdue : ℕ → Request → Bool
overdue now r = ltb (r.received_at + max_pending_age) now

unfoldable pub expire_each : Hooks → ℕ → List Request → Queue → Queue
unfolding report record_decision
expire_each hooks now [] q = q
expire_each hooks now (r ∷ rs) q = expire_each hooks now rs (
    record_decision now r expired (
      report hooks r.id "denied"
        "Nobody answered this request on the machine within an hour, so it was declined." q))

-- Dropping the requests `old` from the map, and saving if there are any.
unfoldable pub let_go : ℕ → List Request → Queue → Queue
unfolding save overdue
let_go now [] q = record q { pending = filter (λ r. not (overdue now r)) q.pending }
let_go now (r ∷ old) q = save (record q { pending = filter (λ r. not (overdue now r)) q.pending })

-- Queue.Expire
unfoldable pub expire : Hooks → ℕ → Queue → Queue
unfolding overdue expire_each let_go
expire hooks now q =
    let old = filter (overdue now) q.pending in expire_each hooks now old (let_go now old q)

-- The page's picture of the queue: Queue.Snapshot.
pub record State : Type 0 where
  pub pending : List Request
  pub trust_until : Option ℕ
  pub history : List Decision

unfoldable pub snapshot : ℕ → Queue → State
unfolding by_receipt trusted
snapshot now q = record {
  pending = by_receipt q.pending;
  trust_until = (if trusted now q then some q.trust_until else none);
  history = q.history;
}

-- The calls of the service.
pub data Call : Type 0 where
  receives : Request → Call
  allows denies : String → Call
  trusts : ℕ → Call
  untrusts expires : Call

unfoldable pub step : Hooks → ℕ → Call → Queue → Queue
step hooks now (receives r) q = (receive hooks now r q).0
step hooks now (allows id) q = (allow hooks now id q).0
step hooks now (denies id) q = (deny hooks now id q).0
step hooks now (trusts span) q = trust hooks now span q
step hooks now untrusts q = untrust q
step hooks now expires q = expire hooks now q
