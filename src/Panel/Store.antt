-- ===== src/Panel/Store.antt =====
-- `Store` of panel/store.go over a backend with a version (panelpg/panelpg.go): `Mutate` reads,
-- decides and writes, and decides again when another process wrote in between. The bytes of the
-- state are taken as the state itself, since `encoding/json` writes and reads back the same `Data`.
-- The environment of a call says, for each attempt, what the clock shows, what other processes write
-- between its read and its write, and which database call fails.
pub mod Serial
pub mod Retry
use clawdh.Base.{
  ℕ, zero, suc, ◌+◌, ◌-◌, String, List, [], ◌∷◌, Option, none, some, Bool, true, false, ltb, nat_eq,
  if◌then◌else◌, length, drop,
}
use clawdh.Panel.Model.{Data}
use clawdh.Panel.Roster.{expire_shares}
use clawdh.Panel.Answer.{Result, ok, refuse}

abbrev pub max_activity : ℕ
max_activity = 2000

abbrev pub max_cas_retries : ℕ
max_cas_retries = 8

-- The row `panel_state`.
pub record Backend : Type 0 where
  pub version : ℕ
  pub blob : Data

pub data Fault : Type 0 where
  healthy : Fault
  load_error : String → Fault
  -- The flag: whether the write had landed when its answer was lost.
  save_error : String → Bool → Fault

pub record Attempt : Type 0 where
  pub now : ℕ  -- what `Mutate` reads off the clock
  pub fn_now : ℕ  -- what the decision reads off the clock
  pub rivals : List Data  -- what others write between the read and the write, in order
  pub fault : Fault

-- Other processes' writes.
abbrev pub contend : List Data → Backend → Backend
contend [] b = b
contend (d ∷ ds) b = contend ds (record { version = suc b.version; blob = d })

-- Backend.Save: the write lands only if the version has not moved.
unfoldable pub save : ℕ → Data → Backend → Backend × Bool
save expected d b =
    if nat_eq b.version expected
    then (record { version = suc b.version; blob = d }, true)
    else (b, false)

-- The cut of the activity log in saveVersioned.
unfoldable pub trim_activity : Data → Data
trim_activity d =
    if ltb max_activity (length d.activity)
    then record d { activity = drop (length d.activity - max_activity) d.activity }
    else d

-- Store.saveVersioned
unfoldable pub save_versioned : ℕ → Data → Backend → Backend × Bool
unfolding save trim_activity
save_versioned expected d b = save expected (trim_activity d) b

-- One round of the loop in `Mutate`: it returns, or the race is lost.
pub data Round : Type 0 where
  returned : Backend → Result (Unit {0}) → Round
  lost : Backend → Round

settle : Backend × Bool → Round
settle (b, true) = returned b (ok tt)
settle (b, false) = lost b

write : Fault → ℕ → Data → Backend → Round
unfolding save_versioned settle
write healthy expected d b = settle (save_versioned expected d b)
write (load_error m) expected d b = settle (save_versioned expected d b)
write (save_error m landed) expected d b =
    returned (if landed then (save_versioned expected d b).0 else b) (refuse 500 m)

decide : Result Data → Attempt → ℕ → Backend → Round
unfolding write
decide (refuse status m) e version b = returned b (refuse status m)
decide (ok d) e version b = write e.fault version d b

unfoldable pub round : (ℕ → Data → Result Data) → Attempt → Backend → Round
unfolding decide
round fn e b = elim e.fault [
  | load_error m ↦ returned (contend e.rivals b) (refuse 500 m)
  | _ ↦ decide (fn e.fn_now (expire_shares e.now b.blob)) e b.version (contend e.rivals b)
]

abbrev pub too_many : Result (Unit {0})
too_many = refuse 500 "the panel is being changed by too many people at once; try again"

-- The loop, with the retries that are left. The environment's first attempt is the one that runs.
unfoldable pub mutate_loop :
    ℕ → (ℕ → Data → Result Data) → (ℕ → Attempt) → Backend → Backend × Result (Unit {0})
unfolding round
mutate_loop zero fn env b = elim (round fn (env 0) b) [
  | returned b' r ↦ (b', r)
  | lost b' ↦ (b', too_many)
]
mutate_loop (suc left) fn env b = elim (round fn (env 0) b) [
  | returned b' r ↦ (b', r)
  | lost b' ↦ mutate_loop left fn (λ k. env (suc k)) b'
]

-- Store.Mutate
unfoldable pub mutate :
    (ℕ → Data → Result Data) → (ℕ → Attempt) → Backend → Backend × Result (Unit {0})
mutate fn env b = mutate_loop max_cas_retries fn env b

-- The state after the writes of others during the first `n` attempts.
abbrev pub after_rivals : (ℕ → Attempt) → ℕ → Backend → Backend
after_rivals env zero b = b
after_rivals env (suc n) b = after_rivals (λ k. env (suc k)) n (contend (env 0).rivals b)
