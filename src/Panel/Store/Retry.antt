-- ===== src/Panel/Store/Retry.antt =====
-- The attempts of Store.Mutate in panel/store.go, and the log that it writes.
use clawdh.Base.{
  ℕ, zero, suc, ◌-◌, ◌≤◌, [], ◌≡◌, refl, ap, inl, inr, arith, length, length-drop, nat_eq,
  Bool-cases,
}
use clawdh.Panel.Model.{Data}
use clawdh.Panel.Roster.{expire_shares}
use clawdh.Panel.Answer.{Result, ok, refuse}
use clawdh.Panel.Store.{
  Backend, Attempt, Fault, healthy, load_error, save_error, Round, returned, lost, trim_activity,
  save_versioned, settle, write, decide, round, mutate_loop, mutate, max_activity, max_cas_retries,
  after_rivals,
}
use clawdh.Panel.Store.Serial.{LoopCases, mutate-serial}

succeeds :
    (fn : ℕ → Data → Result Data) (env : ℕ → Attempt) (b : Backend)
    {r : Backend × Result (Unit {0})} (n : ℕ)
    → n ≤ max_cas_retries
    → (env n).rivals ≡ []
    → ((at : ℕ) (d : Data) → (d' : Data) × (fn at d ≡ ok d'))
    → LoopCases fn max_cas_retries env b r
    → r.1 ≡ ok tt
succeeds fn env b n le free total (inl (k, d, h, e, f, s)) = rw s
succeeds fn env b n le free total (inr (inl (k, status, m, h, e, s))) =
    cc (e, (total (env k).fn_now (expire_shares (env k).now (after_rivals env k b).blob)).1)
succeeds fn env b n le free total (inr (inr (all, s))) =
    absurd (omega (arith, all n le, ap length free))

-- A decision that never refuses goes through if the database answers and, at one of the first nine
-- attempts, nobody else writes.
pub mutate-goes_through :
    (fn : ℕ → Data → Result Data) (env : ℕ → Attempt) (b : Backend) (n : ℕ)
    → ((k : ℕ) → (env k).fault ≡ healthy)
    → n ≤ max_cas_retries
    → (env n).rivals ≡ []
    → ((at : ℕ) (d : Data) → (d' : Data) × (fn at d ≡ ok d'))
    → (mutate fn env b).1 ≡ ok tt
mutate-goes_through fn env b n h le free total =
    succeeds fn env b n le free total (mutate-serial fn env b h)

length-trim_activity : (d : Data) → length (trim_activity d).activity ≤ max_activity
unfolding trim_activity
length-trim_activity d = ground (arith, length-drop (length d.activity - max_activity) d.activity)

-- A round that reports success left a log within the cap.
abbrev Capped : Round → Type 0
Capped (returned b (ok u)) = length b.blob.activity ≤ max_activity
Capped (returned b (refuse status m)) = Unit
Capped (lost b) = Unit

settle-Capped : (v : ℕ) (d : Data) (b : Backend) → Capped (settle (save_versioned v d b))
unfolding settle save_versioned
settle-Capped v d b = elim (Bool-cases (nat_eq b.version v)) [
  | inl same ↦ rw same (length-trim_activity d)
  | inr moved ↦ rw moved tt
]

decide-Capped :
    (r : Result Data) (e : Attempt) (f : Fault) (v : ℕ) (b : Backend)
    → e.fault ≡ f
    → Capped (decide r e v b)
unfolding decide
decide-Capped (refuse status m) e f v b h = tt
decide-Capped (ok d) e healthy v b h = rw (h, write) (settle-Capped v d b)
decide-Capped (ok d) e (load_error m) v b h = rw (h, write) (settle-Capped v d b)
decide-Capped (ok d) e (save_error m landed) v b h = rw (h, write) tt

round-Capped :
    (fn : ℕ → Data → Result Data) (e : Attempt) (f : Fault) (b : Backend)
    → e.fault ≡ f
    → Capped (round fn e b)
unfolding round
round-Capped fn e healthy b h = rw (h, round) (decide-Capped _ e healthy _ _ h)
round-Capped fn e (load_error m) b h = rw (h, round) tt
round-Capped fn e (save_error m landed) b h =
    rw (h, round) (decide-Capped _ e (save_error m landed) _ _ h)

-- A call's result is capped if each round's is: by the round that ran.
abbrev CappedCall : Backend × Result (Unit {0}) → Type 0
CappedCall r = r.1 ≡ ok tt → length r.0.blob.activity ≤ max_activity

returned-CappedCall :
    (b : Backend) (r : Result (Unit {0})) → Capped (returned b r) → CappedCall (b, r)
returned-CappedCall b (ok u) c h = c
returned-CappedCall b (refuse status m) c h = absurd (cc h)

last_round :
    (fn : ℕ → Data → Result Data) (env : ℕ → Attempt) (b : Backend) (x : Round)
    → round fn (env 0) b ≡ x
    → Capped x
    → CappedCall (mutate_loop zero fn env b)
unfolding mutate_loop
last_round fn env b (returned b' r) e c = rw (e, mutate_loop) (returned-CappedCall b' r c)
last_round fn env b (lost b') e c = rw (e, mutate_loop) (λ h. absurd (cc h))

next_round :
    (left : ℕ) (fn : ℕ → Data → Result Data) (env : ℕ → Attempt) (b : Backend) (x : Round)
    → round fn (env 0) b ≡ x
    → Capped x
    → ((b' : Backend) → CappedCall (mutate_loop left fn (λ k. env (suc k)) b'))
    → CappedCall (mutate_loop (suc left) fn env b)
unfolding mutate_loop
next_round left fn env b (returned b' r) e c ih = rw (e, mutate_loop) (returned-CappedCall b' r c)
next_round left fn env b (lost b') e c ih = rw (e, mutate_loop) (ih b')

loop-CappedCall :
    (left : ℕ) (fn : ℕ → Data → Result Data) (env : ℕ → Attempt) (b : Backend)
    → CappedCall (mutate_loop left fn env b)
loop-CappedCall zero fn env b =
    last_round fn env b _ refl (round-Capped fn (env 0) (env 0).fault b refl)
loop-CappedCall (suc left) fn env b =
    next_round left fn env b _ refl (round-Capped fn (env 0) (env 0).fault b refl)
      (loop-CappedCall left fn (λ k. env (suc k)))

-- Whatever fails and whoever else writes, a `Mutate` that reports success left at most 2000 lines of
-- activity.
pub mutate-activity_cap :
    (fn : ℕ → Data → Result Data) (env : ℕ → Attempt) (b : Backend)
    → (mutate fn env b).1 ≡ ok tt
    → length (mutate fn env b).0.blob.activity ≤ max_activity
unfolding mutate
mutate-activity_cap fn env b h = loop-CappedCall max_cas_retries fn env b h
