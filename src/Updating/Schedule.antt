-- ===== src/Updating/Schedule.antt =====
-- internal/updater/updater.go: Run, one check after the other. The environment decides what each check
-- finds; when the timer fires is told by the delay that the check before has set.
use Prim.Native.Nat.{◌^◌}
use native.Mathlib.Nat.{mul_assoc, pow-succ', le-mul_of_pos_right, one-le-pow}
use clawdh.Base.{
  ℕ, zero, suc, ◌-◌, ◌+◌, ◌*◌, ◌≤◌, min, ◌≡◌, sym, ap, ◌∙◌, arith, List, [], ◌∷◌, Option, none,
  some, split_if, Bool, true, false, ltb, is_zero, if◌then◌else◌, minute, second,
}
use clawdh.Updating.Release.{Release, Web, Outcome, failed, done, Failure, not_installed}
use clawdh.Updating.Install.{Host, Machine, check_and_apply, note}

abbrev pub check_interval : ℕ
check_interval = 2 * minute

abbrev pub first_check_delay : ℕ
first_check_delay = 15 * second

abbrev pub max_install_retry : ℕ
max_install_retry = 30 * minute

-- The loop of retryDelay with the rounds that are left.
doubled : ℕ → ℕ → ℕ
doubled zero d = d
doubled (suc left) d =
    let rest = doubled left (d * 2) in if ltb d max_install_retry then rest else d

unfoldable pub retry_delay : ℕ → ℕ → ℕ
unfolding doubled
retry_delay interval failures =
    let d = doubled (failures - 1) interval in
    if ltb max_install_retry d then max_install_retry else d

-- What Run does after a check.
pub data Next : Type 0 where
  waits : ℕ → ℕ → Next  -- the delay, and the failures to install in a row
  restarts : Release → Next

-- errors.As(err, &ie)
unfoldable pub is_install_error : Failure → Bool
is_install_error (not_installed f) = true
is_install_error _ = false

unfoldable pub next_of : ℕ → ℕ → Outcome (Option Release) → Next
unfolding retry_delay is_install_error
next_of interval failures (done (some r)) = restarts r
next_of interval failures (done none) = waits interval 0
next_of interval failures (failed f) =
    if is_install_error f
    then waits (retry_delay interval (suc failures)) (suc failures)
    else waits interval 0

unfoldable pub error_of : Outcome (Option Release) → Option Failure
error_of (failed f) = some f
error_of (done r) = none

-- A check of the timer: CheckAndApply, then Note.
unfoldable pub noted : ℕ → ℕ → ℕ → Outcome (Option Release) × Machine → Next × Machine
unfolding next_of error_of note
noted now interval failures (o, m) = (next_of interval failures o, note now (error_of o) m)

pub record Round : Type 0 where
  pub web : Web
  pub host : Host
  pub late : ℕ  -- by which the timer fires after its time

unfoldable pub check : Round → ℕ → ℕ → ℕ → Machine → Next × Machine
unfolding noted check_and_apply
check t now interval failures m = noted now interval failures (check_and_apply t.web t.host now m)

-- What a run has done: when each check began, whether it ended in a new binary, and the machine.
pub record Trace : Type 0 where
  pub checks : List ℕ
  pub updated : Option Release
  pub machine : Machine

unfoldable pub began : ℕ → Trace → Trace
began now t = record t { checks = now ∷ t.checks }

-- What follows a check: the loop goes on, or ends with the new program.
unfoldable pub continued : ℕ → Next × Machine → (ℕ → ℕ → Machine → Trace) → Trace
continued now (waits delay n, m) loop = loop (now + delay) n m
continued now (restarts r, m) loop = record { checks = []; updated = some r; machine = m }

unfoldable pub run_loop : List Round → ℕ → ℕ → ℕ → Machine → Trace
unfolding check began continued
run_loop [] due interval failures m = record { checks = []; updated = none; machine = m }
run_loop (t ∷ rounds) due interval failures m = began (due + t.late) (
    continued (due + t.late) (check t (due + t.late) interval failures m)
      (λ d n after. run_loop rounds d interval n after))

-- Run, from an instant on: FirstCheck and Interval where they are set, and else the defaults.
unfoldable pub run : List Round → ℕ → ℕ → ℕ → Machine → Trace
unfolding run_loop
run rounds start first interval m =
    run_loop rounds (start + (if is_zero first then first_check_delay else first))
      (if is_zero interval then check_interval else interval) 0 m

doubled_lem :
    (left d : ℕ) → min (doubled left d) max_install_retry ≡ min (d * 2 ^ left) max_install_retry
unfolding doubled
doubled_lem zero d = ground arith
doubled_lem (suc left) d =
    let again : d * 2 * 2 ^ left ≡ d * 2 ^ suc left =
      mul_assoc d 2 (2 ^ left) ∙ sym (ap (λ x. d * x) (pow-succ' 2 left)) in
    let grown : d ≤ d * 2 ^ suc left =
      le-mul_of_pos_right d (one-le-pow (suc left) 2 (omega arith)) in
    ground (arith, doubled_lem left (d * 2), again, grown)

-- The wait after a number of failures to install in a row is the interval, doubled with each failure after
-- the first, but never longer than half an hour.
pub retry_delay_lem :
    (interval n : ℕ) → retry_delay interval (suc n) ≡ min (interval * 2 ^ n) max_install_retry
unfolding retry_delay
retry_delay_lem interval n = ground (arith, doubled_lem n interval)

-- Instants from one on, each a gap after the one before.
unfoldable pub Spaced : ℕ → ℕ → List ℕ → Type 0
Spaced gap due [] = Unit
Spaced gap due (t ∷ ts) = (due ≤ t) × Spaced gap (t + gap) ts

Spaced-mono :
    (gap due later : ℕ) (ts : List ℕ) → due ≤ later → Spaced gap later ts → Spaced gap due ts
unfolding Spaced
Spaced-mono gap due later [] h k = tt
Spaced-mono gap due later (t ∷ ts) h k = (omega (arith, h, k.0), k.1)

-- A check that does not end in a new program waits for the interval, or for half an hour at least.
Waits : ℕ → Next → Type 0
Waits interval (waits delay n) = min interval max_install_retry ≤ delay
Waits interval (restarts r) = Unit

next_of-Waits :
    (interval failures : ℕ) (o : Outcome (Option Release))
    → Waits interval (next_of interval failures o)
unfolding Waits next_of
next_of-Waits interval failures (done none) = omega arith
next_of-Waits interval failures (done (some r)) = tt
next_of-Waits interval failures (failed f) =
    let grown : interval ≤ interval * 2 ^ failures =
      le-mul_of_pos_right interval (one-le-pow failures 2 (omega arith)) in
    split_if (Waits interval) (is_install_error f)
      (λ y. ground (arith, retry_delay_lem interval failures, grown)) (λ n. omega arith)

noted-Waits :
    (now interval failures : ℕ) (t : Outcome (Option Release) × Machine)
    → Waits interval ((noted now interval failures t).0)
unfolding noted
noted-Waits now interval failures (o, m) = next_of-Waits interval failures o

continued-Spaced :
    (now interval : ℕ) (n : Next × Machine) (loop : ℕ → ℕ → Machine → Trace)
    → Waits interval (n.0)
    → ((due failures : ℕ) (m : Machine)
        → Spaced (min interval max_install_retry) due ((loop due failures m).checks))
    → Spaced
        (min interval max_install_retry)
        (now + min interval max_install_retry)
        ((continued now n loop).checks)
unfolding Waits Spaced continued
continued-Spaced now interval (waits delay k, m) loop h again =
    Spaced-mono (min interval max_install_retry) (now + min interval max_install_retry)
      (now + delay) ((loop (now + delay) k m).checks) (omega (arith, h)) (again (now + delay) k m)
continued-Spaced now interval (restarts r, m) loop h again = tt

-- The checks of a run come no closer together than the interval, or half an hour if that is less, whatever they
-- find, and the first not before it is due.
pub run_loop-Spaced :
    (rounds : List Round) (due interval failures : ℕ) (m : Machine)
    → Spaced (min interval max_install_retry) due ((run_loop rounds due interval failures m).checks)
unfolding run_loop began Spaced check
run_loop-Spaced [] due interval failures m = tt
run_loop-Spaced (t ∷ rounds) due interval failures m = (
  omega arith,
  continued-Spaced (due + t.late) interval (check t (due + t.late) interval failures m)
      (λ d n after. run_loop rounds d interval n after)
      (noted-Waits (due + t.late) interval failures (check_and_apply t.web t.host (due + t.late) m))
      (λ d f n. run_loop-Spaced rounds d interval f n),
)
