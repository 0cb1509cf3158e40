-- ===== src/Jobs/History.antt =====
-- internal/remotejobs/queue.go: what is on disk after each call, and how much history is kept.
use clawdh.Base.{
  ℕ, ◌≤◌, ◌+◌, ◌∙◌, subst, ◌≡◌, refl, sym, String, List, [], ◌∷◌, ◌++◌, Option-cases, inl, inr,
  Bool, Bool-cases, true, not, arith, All, All-filter_of_test, length, length-take, take, filter,
  find?, ◌==◌,
}
use clawdh.Jobs.{
  Request, Outcome, auto, allowed, denied, expired, ran, Queue, Hooks, save, trusted, report,
  record_decision, settle, stamped, hold, receive-trusted, receive-held, drop_request, allow, deny,
  by_receipt, settle_all, trust, untrust, overdue, let_go, expire_each, expire, Call, receives,
  allows, denies, trusts, untrusts, expires, step, max_history, max_pending_age,
}

-- What is on disk is the queue's state, and the history is no longer than the most that is kept.
unfoldable pub IsKept : Queue → Type 0
IsKept q =
    (q.disk.pending ≡ q.pending)
    × (q.disk.trust_until ≡ q.trust_until)
    × (q.disk.history ≡ q.history)
    × (length q.history ≤ max_history)

save-IsKept : (q : Queue) → length q.history ≤ max_history → IsKept (save q)
unfolding save IsKept
save-IsKept q h = (refl, refl, refl, h)

report-IsKept :
    (hooks : Hooks) (id status result : String) (q : Queue)
    → IsKept q
    → IsKept (report hooks id status result q)
unfolding report IsKept
report-IsKept hooks id status result q k = elim (Bool-cases hooks.reports) [
  | inl e ↦ rw e k
  | inr e ↦ rw e k
]

record_decision-IsKept :
    (now : ℕ) (r : Request) (o : Outcome) (q : Queue) → IsKept (record_decision now r o q)
unfolding record_decision
record_decision-IsKept now r o q =
    let kept =
      take max_history (record { request = r; outcome = o; decided_at = now } ∷ q.history) in
    save-IsKept (record q { history = kept })
      (omega (
        arith,
        length-take max_history (record { request = r; outcome = o; decided_at = now } ∷ q.history),
      ))

settle-IsKept :
    (hooks : Hooks) (now : ℕ) (o : Outcome) (r : Request) (q : Queue)
    → IsKept (settle hooks now o r q)
unfolding settle
settle-IsKept hooks now o r q = elim (Option-cases hooks.run) [
  | inl e ↦
      rw (e, settle)
        (record_decision-IsKept now r o
          (report hooks r.id "error" "This machine can't run requests right now." q))
  | inr (run, e) ↦
      let (result, status) = run r.kind r.params in
      rw (e, settle)
        (record_decision-IsKept now r o
          (report hooks r.id status result (record q { effects = q.effects ++ ran r ∷ [] })))
]

settle_all-IsKept :
    (hooks : Hooks) (now : ℕ) (o : Outcome) (rs : List Request) (q : Queue)
    → IsKept q
    → IsKept (settle_all hooks now o rs q)
unfolding settle_all
settle_all-IsKept hooks now o [] q k = k
settle_all-IsKept hooks now o (r ∷ rs) q k =
    settle_all-IsKept hooks now o rs _ (settle-IsKept hooks now o r q)

expire_each-IsKept :
    (hooks : Hooks) (now : ℕ) (rs : List Request) (q : Queue)
    → IsKept q
    → IsKept (expire_each hooks now rs q)
unfolding expire_each
expire_each-IsKept hooks now [] q k = k
expire_each-IsKept hooks now (r ∷ rs) q k = expire_each-IsKept hooks now rs _ (
    record_decision-IsKept now r expired (
      report hooks r.id "denied"
        "Nobody answered this request on the machine within an hour, so it was declined." q))

report-pending :
    (hooks : Hooks) (id status result : String) (q : Queue)
    → (report hooks id status result q).pending ≡ q.pending
unfolding report
report-pending hooks id status result q = elim (Bool-cases hooks.reports) [
  | inl e ↦ rw e refl
  | inr e ↦ rw e refl
]

expire_each-pending :
    (hooks : Hooks) (now : ℕ) (rs : List Request) (q : Queue)
    → (expire_each hooks now rs q).pending ≡ q.pending
unfolding expire_each record_decision save
expire_each-pending hooks now [] q = refl
expire_each-pending hooks now (r ∷ rs) q =
    expire_each-pending hooks now rs _ ∙ report-pending hooks r.id _ _ q

let_go-pending :
    (now : ℕ) (old : List Request) (q : Queue)
    → (let_go now old q).pending ≡ filter (λ r. not (overdue now r)) q.pending
unfolding let_go save
let_go-pending now [] q = refl
let_go-pending now (r ∷ old) q = refl

none_dropped :
    (p : Request → Bool) (rs : List Request) → filter p rs ≡ [] → filter (λ r. not (p r)) rs ≡ rs
none_dropped p [] e = refl
none_dropped p (r ∷ rs) e = ground (arith, none_dropped p rs)

let_go-IsKept :
    (now : ℕ) (old : List Request) (q : Queue)
    → old ≡ filter (overdue now) q.pending
    → IsKept q
    → IsKept (let_go now old q)
unfolding let_go save IsKept
let_go-IsKept now [] q e k =
    (k.0 ∙ sym (none_dropped (overdue now) q.pending (sym e)), k.1, k.2, k.3)
let_go-IsKept now (r ∷ old) q e k = (refl, refl, refl, k.3)

-- After any call the queue's state is on disk, so that a restart finds it again, and the history has
-- at most `max_history` entries, if both were so before the call.
pub step-IsKept :
    (hooks : Hooks) (now : ℕ) (c : Call) (q : Queue) → IsKept q → IsKept (step hooks now c q)
unfolding step allow deny trust untrust drop_request expire IsKept hold
step-IsKept hooks now (receives r) q k = elim (Bool-cases (trusted now q)) [
  | inl t ↦
      rw (step, receive-trusted hooks now r q t) (settle-IsKept hooks now auto (stamped now r) q)
  | inr f ↦
      rw (step, receive-held hooks now r q f)
        (report-IsKept hooks r.id _ _ _ (save-IsKept (hold (stamped now r) q) k.3))
]
step-IsKept hooks now (allows id) q k = elim (Option-cases (find? (λ r. r.id == id) q.pending)) [
  | inl e ↦ rw (step, allow, e) k
  | inr (r, e) ↦ rw (step, allow, e) (settle-IsKept hooks now allowed r (drop_request id q))
]
step-IsKept hooks now (denies id) q k = elim (Option-cases (find? (λ r. r.id == id) q.pending)) [
  | inl e ↦ rw (step, deny, e) k
  | inr (r, e) ↦
      rw (step, deny, e)
        (record_decision-IsKept now r denied (
          report hooks r.id "denied" "The owner of this machine declined this request."
            (drop_request id q)))
]
step-IsKept hooks now (trusts span) q k =
    settle_all-IsKept hooks now allowed (by_receipt q.pending) _
      (save-IsKept (record q { trust_until = now + span; pending = [] }) k.3)
step-IsKept hooks now untrusts q k = save-IsKept (record q { trust_until = 0 }) k.3
step-IsKept hooks now expires q k =
    let old = filter (overdue now) q.pending in
    expire_each-IsKept hooks now old _ (let_go-IsKept now old q refl k)

fresh : (now : ℕ) (r : Request) → not (overdue now r) ≡ true → now ≤ r.received_at + max_pending_age
unfolding overdue
fresh now r e = ground arith

-- After an expiry no request older than `max_pending_age` is held.
pub expire-Fresh :
    (hooks : Hooks) (now : ℕ) (q : Queue)
    → All (λ r. now ≤ r.received_at + max_pending_age) (expire hooks now q).pending
unfolding expire
expire-Fresh hooks now q =
    let old = filter (overdue now) q.pending in
    let rest = expire_each-pending hooks now old (let_go now old q) ∙ let_go-pending now old q in
    subst (All (λ r. now ≤ r.received_at + max_pending_age)) (sym rest)
      (All-filter_of_test _ (λ r. not (overdue now r)) (fresh now) q.pending)
