-- ===== src/Panel/Store/Serial.antt =====
-- Store.Mutate of panel/store.go among the writes of other processes.
use clawdh.Base.{
  ℕ, zero, suc, ◌+◌, ◌≤◌, ◌<◌, String, List, [], ◌∷◌, ◌≡◌, refl, ◌⊎◌, inl, inr, arith, length,
}
use clawdh.Panel.Model.{Data}
use clawdh.Panel.Roster.{expire_shares}
use clawdh.Panel.Answer.{Result, ok, refuse}
use clawdh.Panel.Store.{
  Backend, Attempt, healthy, returned, lost, contend, trim_activity, save_versioned, settle, round,
  mutate_loop, mutate, too_many, after_rivals, max_cas_retries,
}

pub version-contend :
    (ds : List Data) (b : Backend) → (contend ds b).version ≡ b.version + length ds
version-contend [] b = omega arith
version-contend (d ∷ ds) b =
    omega (arith, version-contend ds (record { version = suc b.version; blob = d }))

-- The decision's result, written on top of `before`.
abbrev pub written : Backend → Data → Backend
written before d = record { version = suc before.version; blob = trim_activity d }

save_cases :
    (d : Data) (ds : List Data) (b : Backend)
    → ((ds ≡ [])
        × (settle (save_versioned b.version d (contend ds b)) ≡ returned (written b d) (ok tt)))
      ⊎ ((0 < length ds)
          × (settle (save_versioned b.version d (contend ds b)) ≡ lost (contend ds b)))
unfolding save_versioned settle
save_cases d [] b = inl (refl, ground arith)
save_cases d (x ∷ xs) b = inr (omega arith, ground (arith, version-contend (x ∷ xs) b))

-- What a round without faults does.
abbrev pub RoundCases : (ℕ → Data → Result Data) → Attempt → Backend → Type 0
RoundCases fn e b =
    ((d : Data) × (fn e.fn_now (expire_shares e.now b.blob) ≡ ok d)
      × (e.rivals ≡ [])
      × (round fn e b ≡ returned (written b d) (ok tt)))
    ⊎ (((status : ℕ) × (m : String) × (fn e.fn_now (expire_shares e.now b.blob) ≡ refuse status m)
          × (round fn e b ≡ returned (contend e.rivals b) (refuse status m)))
        ⊎ ((0 < length e.rivals) × (round fn e b ≡ lost (contend e.rivals b))))

decided :
    (fn : ℕ → Data → Result Data) (e : Attempt) (b : Backend) (r : Result Data)
    → e.fault ≡ healthy
    → fn e.fn_now (expire_shares e.now b.blob) ≡ r
    → RoundCases fn e b
unfolding round
decided fn e b (refuse status m) h k = inr (inl (status, m, k, rw (h, round) (rw k)))
decided fn e b (ok d) h k = elim (save_cases d e.rivals b) [
  | inl (none, s) ↦ inl (d, k, none, rw (h, round) (rw (k, h) s))
  | inr (some, s) ↦ inr (inr (some, rw (h, round) (rw (k, h) s)))
]

pub round-cases :
    (fn : ℕ → Data → Result Data) (e : Attempt) (b : Backend)
    → e.fault ≡ healthy
    → RoundCases fn e b
round-cases fn e b h = decided fn e b _ h refl

module _ (fn : ℕ → Data → Result Data) where
  -- The decision at attempt `n`, on the state that the others' writes before it left.
  abbrev pub decision : (ℕ → Attempt) → ℕ → Backend → Result Data
  decision env n b = fn (env n).fn_now (expire_shares (env n).now (after_rivals env n b).blob)

  abbrev pub LoopCases : ℕ → (ℕ → Attempt) → Backend → Backend × Result (Unit {0}) → Type 0
  LoopCases left env b r =
      ((n : ℕ) × (d : Data) × (n ≤ left)
        × (decision env n b ≡ ok d)
        × ((env n).rivals ≡ [])
        × (r ≡ (written (after_rivals env n b) d, ok tt)))
      ⊎ (((n : ℕ) × (status : ℕ) × (m : String) × (n ≤ left)
            × (decision env n b ≡ refuse status m)
            × (r ≡ (after_rivals env (suc n) b, refuse status m)))
          ⊎ (((n : ℕ) → n ≤ left → 0 < length (env n).rivals)
              × (r ≡ (after_rivals env (suc left) b, too_many))))

  -- One lost round, and what the rest of the loop does.
  lost_then :
      (left : ℕ) (env : ℕ → Attempt) (b : Backend)
      → (0 < length (env 0).rivals)
      → round fn (env 0) b ≡ lost (contend (env 0).rivals b)
      → LoopCases left
          (λ k. env (suc k))
          (contend (env 0).rivals b)
          (mutate_loop left fn (λ k. env (suc k)) (contend (env 0).rivals b))
      → LoopCases (suc left) env b (mutate_loop (suc left) fn env b)
  unfolding mutate_loop
  lost_then left env b more e (inl (n, d, le, k, free, s)) =
      inl (suc n, d, omega arith, k, free, rw (e, mutate_loop) s)
  lost_then left env b more e (inr (inl (n, status, m, le, k, s))) =
      inr (inl (suc n, status, m, omega arith, k, rw (e, mutate_loop) s))
  lost_then left env b more e (inr (inr (all, s))) = inr (inr (every, rw (e, mutate_loop) s))
    where
      every : (n : ℕ) → n ≤ suc left → 0 < length (env n).rivals
      every zero h = more
      every (suc n) h = all n (omega arith)

  loop_cases :
      (left : ℕ) (env : ℕ → Attempt) (b : Backend)
      → ((n : ℕ) → (env n).fault ≡ healthy)
      → LoopCases left env b (mutate_loop left fn env b)
  unfolding mutate_loop
  loop_cases zero env b h = elim (round-cases fn (env 0) b (h 0)) [
    | inl (d, k, free, s) ↦ inl (0, d, omega arith, k, free, rw (s, mutate_loop))
    | inr (inl (status, m, k, s)) ↦ inr (inl (0, status, m, omega arith, k, rw (s, mutate_loop)))
    | inr (inr (more, s)) ↦
        inr (inr (λ n le. (let e : n ≡ 0 = omega arith in rw e more), rw (s, mutate_loop)))
  ]
  loop_cases (suc left) env b h = elim (round-cases fn (env 0) b (h 0)) [
    | inl (d, k, free, s) ↦ inl (0, d, omega arith, k, free, rw (s, mutate_loop))
    | inr (inl (status, m, k, s)) ↦ inr (inl (0, status, m, omega arith, k, rw (s, mutate_loop)))
    | inr (inr (more, s)) ↦
        lost_then left env b more s
          (loop_cases left (λ k. env (suc k)) (contend (env 0).rivals b) (λ n. h (suc n)))
  ]

-- Without faults a `Mutate` does one of three things. It writes the decision's result on top of the
-- very state the decision was taken on, with every write of others before it applied and none in
-- between; or the decision refuses on such a state, and only the others' writes remain; or each of
-- the nine attempts met another write, only those remain, and the answer says to try again.
pub mutate-serial :
    (fn : ℕ → Data → Result Data) (env : ℕ → Attempt) (b : Backend)
    → ((n : ℕ) → (env n).fault ≡ healthy)
    → LoopCases fn max_cas_retries env b (mutate fn env b)
unfolding mutate
mutate-serial fn env b h = loop_cases fn max_cas_retries env b h
