-- ===== src/Usage/Shown.antt =====
-- internal/usage/service.go: how old the numbers on a card may be, and what the card of a login says that the
-- gateway holds.
use clawdh.Base.{
  ℕ, ◌+◌, ◌≤◌, ◌≡◌, refl, subst, inl, inr, String, Option, none, some, Bool, true, false, not, ◌&&◌,
  ltb, leb, is_zero, split_if, lookup, Each, Each-put, Option-cases, Bool-cases, arith, minute,
}
use mathlib.Core.Option.{some-injective}
use clawdh.Usage.Client.{Report, Credentials, Fetched, read, rejected, limited, unread}
use clawdh.Usage.Gateway.{window_stale_after}
use clawdh.Usage.Service.{
  Service, Snapshot, Prepared, shows, asks, Login, missing, unreadable, present, prepare,
  gateway_or, prepare_login, conclude, save_reports, refused, allowed, failed, waiting, last_good,
  too_old, full_ttl, plain, without_login, from_gateway,
}
use clawdh.Usage.Steps.{Begun, cached, begun, begin_fetch, begin_get, ended, end_get}

-- Numbers that are not a day old at an instant.
abbrev pub IsFresh : ℕ → Option Report → Type 0
IsFresh now usage = (r : Report) → usage ≡ some r → now ≤ r.fetched_at + window_stale_after

none-IsFresh : (now : ℕ) → IsFresh now none
none-IsFresh now r e = cc

last_good-IsFresh : (now : ℕ) (id : String) (s : Service) → IsFresh now (last_good now id s)
unfolding last_good too_old
last_good-IsFresh now id s r e = elim (Option-cases (lookup id s.last_report)) [
  | inl n ↦ none-IsFresh now r (rw (last_good, n) at e)
  | inr (q, n) ↦ elim (Bool-cases (too_old now q)) [
    | inl old ↦ none-IsFresh now r (rw (last_good, n, old) at e)
    | inr young ↦
        let same : q ≡ r = some-injective q r (rw (last_good, n, young) at e) in
        subst (λ x. now ≤ x.fetched_at + window_stale_after) same (ground (arith, young))
  ]
]

-- A reading of the gateway that is not a day old.
abbrev pub IsReading : ℕ → Option (Report × String) → Type 0
IsReading now gateway =
    (r : Report) (note : String)
    → gateway ≡ some (r, note)
    → now ≤ r.fetched_at + window_stale_after

-- A snapshot that is kept, or that is to be.
abbrev pub IsCard : ℕ → Snapshot → ℕ → Type 0
IsCard now snapshot ttl = IsFresh now snapshot.usage × (ttl ≤ full_ttl)

pub Card : ℕ → Prepared → Type 0
Card now (shows snapshot ttl) = IsCard now snapshot ttl
Card now (asks c) = Unit

pub Card-IsFresh :
    (now : ℕ) (snapshot : Snapshot) (ttl : ℕ)
    → Card now (shows snapshot ttl)
    → IsFresh now snapshot.usage
unfolding Card
Card-IsFresh now snapshot ttl card = card.0

gateway_or-Card :
    (now : ℕ) (gateway : Option (Report × String)) (p other : Snapshot)
    → IsReading now gateway
    → IsFresh now other.usage
    → Card now (gateway_or gateway p other)
unfolding Card gateway_or from_gateway
gateway_or-Card now none p other reading fresh = (fresh, omega arith)
gateway_or-Card now (some (g, note)) p other reading fresh = (
  λ r e.
      subst (λ x. now ≤ x.fetched_at + window_stale_after) (some-injective g r e)
        (reading g note refl),
  omega arith,
)

pub prepare-Card :
    (now : ℕ) (gateway : Option (Report × String)) (id : String) (login : Login) (s : Service)
    → IsReading now gateway
    → Card now (prepare now gateway id login s)
unfolding Card prepare without_login prepare_login plain
prepare-Card now gateway id missing s reading = (none-IsFresh now, omega arith)
prepare-Card now gateway id unreadable s reading = (none-IsFresh now, omega arith)
prepare-Card now gateway id (present c) s reading =
    split_if (Card now) (not (is_zero c.refresh_expires_at) && ltb c.refresh_expires_at now)
      (λ y. gateway_or-Card now gateway (plain c) _ reading (none-IsFresh now))
      (λ n.
        split_if (Card now) (not (is_zero c.expires_at) && leb c.expires_at now)
          (λ y. gateway_or-Card now gateway (plain c) _ reading (last_good-IsFresh now id s))
          (λ m.
            split_if (Card now) (not (is_zero (waiting now id s)))
              (λ y. (last_good-IsFresh now id s, omega arith)) (λ k. tt)))

-- What an answer must be: a report was read within the last minute.
abbrev pub IsAnswer : ℕ → Fetched → Type 0
IsAnswer now answer = (r : Report) → answer ≡ read r → now ≤ r.fetched_at + minute

conclude-IsCard :
    (now : ℕ) (writes : Bool) (gateway : Option (Report × String)) (id : String) (c : Credentials)
    (answer : Fetched) (s : Service)
    → IsReading now gateway
    → IsAnswer now answer
    → IsCard now
        (((conclude now writes gateway id c answer s).0).0)
        (((conclude now writes gateway id c answer s).0).1)
unfolding conclude plain from_gateway
conclude-IsCard now writes gateway id c (read r) s reading answer = (
  λ q e.
      subst (λ x. now ≤ x.fetched_at + window_stale_after) (some-injective r q e)
        (let recent : now ≤ r.fetched_at + minute = answer r refl in omega (arith, recent)),
  omega arith,
)
conclude-IsCard now writes none id c rejected s reading answer = (none-IsFresh now, omega arith)
conclude-IsCard now writes (some (g, note)) id c rejected s reading answer = (
  λ r e.
      subst (λ x. now ≤ x.fetched_at + window_stale_after) (some-injective g r e)
        (reading g note refl),
  omega arith,
)
conclude-IsCard now writes gateway id c (limited after) s reading answer =
    (last_good-IsFresh now id s, omega arith)
conclude-IsCard now writes gateway id c (unread true) s reading answer =
    (last_good-IsFresh now id s, omega arith)
conclude-IsCard now writes gateway id c (unread false) s reading answer =
    (last_good-IsFresh now id s, omega arith)

-- Every snapshot that is kept.
abbrev pub AllCards : Service → Type 0
AllCards s = Each (λ e. IsCard e.at e.snapshot e.ttl) s.entries

cached-AllCards :
    (now : ℕ) (cancelled : Bool) (id : String) (snapshot : Snapshot) (ttl : ℕ) (s : Service)
    → IsCard now snapshot ttl
    → AllCards s
    → AllCards (cached now cancelled id (snapshot, ttl) s)
unfolding cached
cached-AllCards now true id snapshot ttl s card all = all
cached-AllCards now false id snapshot ttl s card all =
    Each-put (λ e. IsCard e.at e.snapshot e.ttl) id s.entries all
      (record { snapshot = snapshot; at = now; ttl = ttl }) card

begun-AllCards :
    (now : ℕ) (cancelled : Bool) (id : String) (p : Prepared) (s : Service)
    → Card now p
    → AllCards s
    → AllCards ((begun now cancelled id p s).1)
unfolding begun Card
begun-AllCards now cancelled id (shows snapshot ttl) s card all =
    cached-AllCards now cancelled id snapshot ttl s card all
begun-AllCards now cancelled id (asks c) s card all = all

begin_fetch-AllCards :
    (now : ℕ) (cancelled : Bool) (gateway : Option (Report × String)) (id : String) (login : Login)
    (s : Service)
    → IsReading now gateway
    → AllCards s
    → AllCards ((begin_fetch now cancelled gateway id login s).1)
unfolding begin_fetch
begin_fetch-AllCards now cancelled gateway id login s reading all =
    elim (Option-cases (lookup id s.inflight)) [
      | inl e ↦
          rw (begin_fetch, e)
            (begun-AllCards now cancelled id (prepare now gateway id login s) s
              (prepare-Card now gateway id login s reading) all)
      | inr (c, e) ↦ rw (begin_fetch, e) all
    ]

pub begin_get-AllCards :
    (now : ℕ) (cancelled : Bool) (gateway : Option (Report × String)) (id : String) (login : Login)
    (s : Service)
    → IsReading now gateway
    → AllCards s
    → AllCards ((begin_get now cancelled gateway id login s).1)
unfolding begin_get
begin_get-AllCards now cancelled gateway id login s reading all =
    elim (Option-cases (lookup id s.entries)) [
      | inl e ↦
          rw (begin_get, e) (begin_fetch-AllCards now cancelled gateway id login s reading all)
      | inr (c, e) ↦
          rw (begin_get, e)
            (split_if (λ (t : Begun × Service). AllCards (t.1)) (ltb now (c.at + c.ttl)) (λ y. all)
              (λ n. begin_fetch-AllCards now cancelled gateway id login s reading all))
    ]

failed-entries : (now : ℕ) (id : String) (s : Service) → (failed now id s).entries ≡ s.entries
unfolding failed
failed-entries now id s = elim (Option-cases (lookup id s.cooldowns)) [
  | inl e ↦ rw (failed, e) refl
  | inr (c, e) ↦ rw (failed, e) refl
]

conclude-entries :
    (now : ℕ) (writes : Bool) (gateway : Option (Report × String)) (id : String) (c : Credentials)
    (answer : Fetched) (s : Service)
    → ((conclude now writes gateway id c answer s).1).entries ≡ s.entries
unfolding conclude allowed refused save_reports
conclude-entries now true gateway id c (read r) s = refl
conclude-entries now false gateway id c (read r) s = refl
conclude-entries now writes none id c rejected s = failed-entries now id s
conclude-entries now writes (some g) id c rejected s = refl
conclude-entries now writes gateway id c (limited after) s = refl
conclude-entries now writes gateway id c (unread true) s = refl
conclude-entries now writes gateway id c (unread false) s = failed-entries now id s

pub end_get-AllCards :
    (now : ℕ) (cancelled writes : Bool) (gateway : Option (Report × String)) (id : String)
    (answer : Fetched) (s : Service)
    → IsReading now gateway
    → IsAnswer now answer
    → AllCards s
    → AllCards (end_get now cancelled writes gateway id answer s)
unfolding end_get ended
end_get-AllCards now cancelled writes gateway id answer s reading given all =
    elim (Option-cases (lookup id s.inflight)) [
      | inl e ↦ rw (end_get, e) all
      | inr (c, e) ↦
          let t = conclude now writes gateway id c answer s in
          rw (end_get, e)
            (cached-AllCards now cancelled id ((t.0).0) ((t.0).1) (t.1)
              (conclude-IsCard now writes gateway id c answer s reading given)
              (λ j d found.
                all j d (rw (conclude-entries now writes gateway id c answer s) at found)))
    ]
