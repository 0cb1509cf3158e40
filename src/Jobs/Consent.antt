-- ===== src/Jobs/Consent.antt =====
-- internal/remotejobs/queue.go: what runs on the machine, call by call.
use clawdh.Base.{
  ℕ, ◌≡◌, refl, ap, sym, ◌∙◌, String, List, [], ◌∷◌, ◌++◌, none, some, Option-cases, inl, inr,
  Bool-cases, arith, if◌then◌else◌, filter, find?, ◌==◌, ltb,
}
use mathlib.Core.List.{append_assoc, append-nil}
use clawdh.Jobs.{
  Request, Outcome, allowed, auto, Effect, ran, reported, Queue, Hooks, save, trusted, report,
  record_decision, settle, stamped, hold, receive-trusted, receive-held, drop_request, allow, deny,
  by_receipt, settle_all, trust, untrust, expire_each, expire, Call, overdue, let_go, receives,
  allows, denies, trusts, untrusts, expires, step,
}

-- The requests that ran, in order.
abbrev pub runs_of : List Effect → List Request
runs_of [] = []
runs_of (ran r ∷ es) = r ∷ runs_of es
runs_of (reported id status result ∷ es) = runs_of es

abbrev pub runs : Queue → List Request
runs q = runs_of q.effects

-- What runs when `rs` are settled.
abbrev pub if_wired : Hooks → List Request → List Request
if_wired hooks rs = elim hooks.run [ none ↦ [] | some _ ↦ rs ]

runs_of-append : (es fs : List Effect) → runs_of (es ++ fs) ≡ runs_of es ++ runs_of fs
runs_of-append [] fs = refl
runs_of-append (ran r ∷ es) fs = ap (◌∷◌ r) (runs_of-append es fs)
runs_of-append (reported id status result ∷ es) fs = runs_of-append es fs

runs-report :
    (hooks : Hooks) (id status result : String) (q : Queue)
    → runs (report hooks id status result q) ≡ runs q
unfolding report
runs-report hooks id status result q = ground (
  arith,
  runs_of-append q.effects (reported id status result ∷ []),
  append-nil (runs_of q.effects),
)

runs-record_decision :
    (now : ℕ) (r : Request) (o : Outcome) (q : Queue) → runs (record_decision now r o q) ≡ runs q
unfolding record_decision
runs-record_decision now r o q = refl

runs-settle :
    (hooks : Hooks) (now : ℕ) (o : Outcome) (r : Request) (q : Queue)
    → runs (settle hooks now o r q) ≡ runs q ++ if_wired hooks (r ∷ [])
unfolding settle
runs-settle hooks now o r q = elim (Option-cases hooks.run) [
  | inl e ↦ rw (e, settle) (runs-report hooks r.id _ _ q ∙ sym (append-nil (runs q)))
  | inr (run, e) ↦
      rw (e, settle) (runs-report hooks r.id _ _ _ ∙ runs_of-append q.effects (ran r ∷ []))
]

if_wired-nil : (hooks : Hooks) → if_wired hooks [] ≡ []
if_wired-nil hooks = elim (Option-cases hooks.run) [ inl e ↦ rw e refl | inr (run, e) ↦ rw e refl ]

if_wired-append :
    (hooks : Hooks) (xs ys : List Request)
    → if_wired hooks (xs ++ ys) ≡ if_wired hooks xs ++ if_wired hooks ys
if_wired-append hooks xs ys = elim (Option-cases hooks.run) [
  | inl e ↦ rw e refl
  | inr (run, e) ↦ rw e refl
]

runs-settle_all :
    (hooks : Hooks) (now : ℕ) (o : Outcome) (rs : List Request) (q : Queue)
    → runs (settle_all hooks now o rs q) ≡ runs q ++ if_wired hooks rs
unfolding settle_all
runs-settle_all hooks now o [] q = rw (if_wired-nil hooks) (sym (append-nil (runs q)))
runs-settle_all hooks now o (r ∷ rs) q =
    rw (runs-settle_all hooks now o rs (settle hooks now o r q), runs-settle hooks now o r q)
      (append_assoc (runs q) (if_wired hooks (r ∷ [])) (if_wired hooks rs)
        ∙ ap (◌++◌ (runs q)) (sym (if_wired-append hooks (r ∷ []) rs)))

runs-expire_each :
    (hooks : Hooks) (now : ℕ) (rs : List Request) (q : Queue)
    → runs (expire_each hooks now rs q) ≡ runs q
unfolding expire_each
runs-expire_each hooks now [] q = refl
runs-expire_each hooks now (r ∷ rs) q =
    runs-expire_each hooks now rs _ ∙ runs-report hooks r.id _ _ q

runs-let_go : (now : ℕ) (old : List Request) (q : Queue) → runs (let_go now old q) ≡ runs q
unfolding let_go save
runs-let_go now [] q = refl
runs-let_go now (r ∷ old) q = refl

runs-expire : (hooks : Hooks) (now : ℕ) (q : Queue) → runs (expire hooks now q) ≡ runs q
unfolding expire
runs-expire hooks now q =
    let old = filter (overdue now) q.pending in
    runs-expire_each hooks now old (let_go now old q) ∙ runs-let_go now old q

-- The requests that a call gives consent to: a received one before the instant at which trust ends, which is 0
-- where there is none.
abbrev pub consented : ℕ → Call → Queue → List Request
consented now (receives r) q = if ltb now q.trust_until then stamped now r ∷ [] else []
consented now (allows id) q = elim (find? (λ r. r.id == id) q.pending) [
  | none ↦ []
  | some r ↦ r ∷ []
]
consented now (denies id) q = []
consented now (trusts span) q = by_receipt q.pending
consented now untrusts q = []
consented now expires q = []

-- Trust lasts until its end.
trusted_lem : (now : ℕ) (q : Queue) → trusted now q ≡ ltb now q.trust_until
unfolding trusted
trusted_lem now q = ground arith

nothing : (hooks : Hooks) (q q' : Queue) → runs q' ≡ runs q → runs q' ≡ runs q ++ if_wired hooks []
nothing hooks q q' e = rw (if_wired-nil hooks) (e ∙ sym (append-nil (runs q)))

-- What a call of the service runs, behind what had run before: a received request (with its time of
-- receipt filled in) exactly before the instant at which trust ends, the held request that the owner allows, all held
-- requests in the order of receipt when the owner starts to trust, and nothing for a denial, for
-- an end of trust or for an expiry; and nothing at all where no `Run` is wired.
pub step-runs :
    (hooks : Hooks) (now : ℕ) (c : Call) (q : Queue)
    → runs (step hooks now c q) ≡ runs q ++ if_wired hooks (consented now c q)
unfolding step allow deny trust untrust expire save drop_request hold
step-runs hooks now (receives r) q = elim (Bool-cases (trusted now q)) [
  | inl t ↦
      rw (step, receive-trusted hooks now r q t, sym (trusted_lem now q) ∙ t)
        (runs-settle hooks now auto (stamped now r) q)
  | inr f ↦
      rw (step, receive-held hooks now r q f, sym (trusted_lem now q) ∙ f)
        (nothing hooks q (report hooks r.id "awaiting" "" (save (hold (stamped now r) q)))
          (runs-report hooks r.id "awaiting" "" (save (hold (stamped now r) q))))
]
step-runs hooks now (allows id) q = elim (Option-cases (find? (λ r. r.id == id) q.pending)) [
  | inl e ↦ rw (step, allow, consented, e) (nothing hooks q q refl)
  | inr (r, e) ↦
      rw (step, allow, consented, e) (runs-settle hooks now allowed r (drop_request id q))
]
step-runs hooks now (denies id) q = elim (Option-cases (find? (λ r. r.id == id) q.pending)) [
  | inl e ↦ rw (step, deny, e) (nothing hooks q q refl)
  | inr (r, e) ↦
      rw (step, deny, e)
        (nothing hooks q
          (report hooks r.id "denied" "The owner of this machine declined this request."
            (drop_request id q))
          (runs-report hooks r.id "denied" "The owner of this machine declined this request."
            (drop_request id q)))
]
step-runs hooks now (trusts span) q = runs-settle_all hooks now allowed (by_receipt q.pending) _
step-runs hooks now untrusts q = nothing hooks q q refl
step-runs hooks now expires q = nothing hooks q (expire hooks now q) (runs-expire hooks now q)
