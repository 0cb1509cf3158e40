-- ===== src/Usage/Waits.antt =====
-- internal/usage/service.go: how long a refusal holds the next request off.
use clawdh.Base.{
  split_if, leb, ℕ, ◌+◌, ◌*◌, ◌≤◌, ◌<◌, ◌≡◌, refl, String, List, [], ◌∷◌, Option, none, some, true,
  false, lookup, Each, Each-put, Each-delete, Option-cases, min, max, ◌⊎◌, inl, inr, Bool, ltb,
  minute, arith,
}
use clawdh.Usage.Client.{Report, Credentials, Fetched, read, rejected, limited, unread}
use clawdh.Usage.Steps.{
  Begun, cached, begun, begin_fetch, begin_get, ended, end_get, begins, ends, forgets, expires,
  Event, step, steps,
}
use clawdh.Usage.Service.{
  Service, Snapshot, Prepared, shows, asks, conclude, prepare, expire, forget, refused, allowed,
  failed, save_reports, cooldown_of, no_cooldown, Login, expire_floor, Cooldown, backoff_max,
  free_at, next_step,
}

-- The step is a minute at least and not shorter than Retry-After; it is five minutes at most where Retry-After
-- is not longer.
next_step-bounds :
    (now after : ℕ) (c : Cooldown)
    → (c.step ≡ 0) ⊎ (minute ≤ c.step)
    → (minute ≤ next_step now after c)
      × (after ≤ next_step now after c)
      × (next_step now after c ≤ max backoff_max after)
unfolding next_step free_at
next_step-bounds now after c paced = ground (arith, paced)

-- A refusal that comes before a step's time has passed, from when Anthropic could next be asked, waits twice as
-- long as the last, up to five minutes; one that comes later, a minute again.
pub next_step_lem :
    (now after : ℕ) (c : Cooldown)
    → minute ≤ c.step
    → ((now ≤ free_at c + c.step)
        × (next_step now after c ≡ max (min (2 * c.step) backoff_max) after))
      ⊎ ((free_at c + c.step < now) × (next_step now after c ≡ max minute after))
unfolding next_step
next_step_lem now after c least = ground arith

-- Every cooldown that is kept has a step of a minute or more.
abbrev pub IsPaced : Service → Type 0
IsPaced s = Each (λ c. minute ≤ c.step) s.cooldowns

cooldown_of-IsPaced :
    (id : String) (s : Service)
    → IsPaced s
    → ((cooldown_of id s).step ≡ 0) ⊎ (minute ≤ (cooldown_of id s).step)
unfolding cooldown_of no_cooldown
cooldown_of-IsPaced id s paced = elim (Option-cases (lookup id s.cooldowns)) [
  | inl e ↦ rw (cooldown_of, e) (inl refl)
  | inr (c, e) ↦ rw (cooldown_of, e) (inr (paced id c e))
]

failed-IsPaced : (now : ℕ) (id : String) (s : Service) → IsPaced s → IsPaced (failed now id s)
unfolding failed
failed-IsPaced now id s paced = elim (Option-cases (lookup id s.cooldowns)) [
  | inl e ↦ rw (failed, e) paced
  | inr (c, e) ↦
      rw (failed, e)
        (Each-put (λ d. minute ≤ d.step) id s.cooldowns paced (record c { failed_at = now })
          (paced id c e))
]

allowed-IsPaced :
    (writes : Bool) (id : String) (r : Report) (s : Service)
    → IsPaced s
    → IsPaced (allowed writes id r s)
unfolding allowed save_reports
allowed-IsPaced true id r s paced = Each-delete (λ d. minute ≤ d.step) id s.cooldowns paced
allowed-IsPaced false id r s paced = Each-delete (λ d. minute ≤ d.step) id s.cooldowns paced

refused-IsPaced :
    (now after : ℕ) (id : String) (s : Service) → IsPaced s → IsPaced ((refused now after id s).1)
unfolding refused
refused-IsPaced now after id s paced =
    let long = (next_step-bounds now after (cooldown_of id s) (cooldown_of-IsPaced id s paced)).0 in
    Each-put (λ d. minute ≤ d.step) id s.cooldowns paced
      (record {
        until = now + next_step now after (cooldown_of id s);
        step = next_step now after (cooldown_of id s);
        failed_at = 0;
      })
      long

conclude-IsPaced :
    (now : ℕ) (writes : Bool) (gateway : Option (Report × String)) (id : String) (c : Credentials)
    (answer : Fetched) (s : Service)
    → IsPaced s
    → IsPaced ((conclude now writes gateway id c answer s).1)
unfolding conclude
conclude-IsPaced now writes gateway id c (read r) s paced = allowed-IsPaced writes id r s paced
conclude-IsPaced now writes none id c rejected s paced = failed-IsPaced now id s paced
conclude-IsPaced now writes (some g) id c rejected s paced = paced
conclude-IsPaced now writes gateway id c (limited after) s paced =
    refused-IsPaced now after id s paced
conclude-IsPaced now writes gateway id c (unread true) s paced = paced
conclude-IsPaced now writes gateway id c (unread false) s paced = failed-IsPaced now id s paced

cached-cooldowns :
    (now : ℕ) (cancelled : Bool) (id : String) (shown : Snapshot × ℕ) (s : Service)
    → (cached now cancelled id shown s).cooldowns ≡ s.cooldowns
unfolding cached
cached-cooldowns now true id (snapshot, ttl) s = refl
cached-cooldowns now false id (snapshot, ttl) s = refl

begun-cooldowns :
    (now : ℕ) (cancelled : Bool) (id : String) (p : Prepared) (s : Service)
    → ((begun now cancelled id p s).1).cooldowns ≡ s.cooldowns
unfolding begun
begun-cooldowns now cancelled id (shows snapshot ttl) s =
    cached-cooldowns now cancelled id (snapshot, ttl) s
begun-cooldowns now cancelled id (asks c) s = refl

begin_fetch-cooldowns :
    (now : ℕ) (cancelled : Bool) (gateway : Option (Report × String)) (id : String) (login : Login)
    (s : Service)
    → ((begin_fetch now cancelled gateway id login s).1).cooldowns ≡ s.cooldowns
unfolding begin_fetch
begin_fetch-cooldowns now cancelled gateway id login s =
    elim (Option-cases (lookup id s.inflight)) [
      | inl e ↦
          rw (begin_fetch, e) (begun-cooldowns now cancelled id (prepare now gateway id login s) s)
      | inr (c, e) ↦ rw (begin_fetch, e) refl
    ]

begin_get-cooldowns :
    (now : ℕ) (cancelled : Bool) (gateway : Option (Report × String)) (id : String) (login : Login)
    (s : Service)
    → ((begin_get now cancelled gateway id login s).1).cooldowns ≡ s.cooldowns
unfolding begin_get
begin_get-cooldowns now cancelled gateway id login s = elim (Option-cases (lookup id s.entries)) [
  | inl e ↦ rw (begin_get, e) (begin_fetch-cooldowns now cancelled gateway id login s)
  | inr (c, e) ↦
      rw (begin_get, e)
        (split_if (λ (t : Begun × Service). (t.1).cooldowns ≡ s.cooldowns) (ltb now (c.at + c.ttl))
          (λ y. refl) (λ n. begin_fetch-cooldowns now cancelled gateway id login s))
]

ended-IsPaced :
    (now : ℕ) (cancelled : Bool) (id : String) (t : (Snapshot × ℕ) × Service)
    → IsPaced (t.1)
    → IsPaced (ended now cancelled id t)
unfolding ended
ended-IsPaced now cancelled id (shown, s) paced j c e =
    paced j c (rw (cached-cooldowns now cancelled id shown s) at e)

end_get-IsPaced :
    (now : ℕ) (cancelled writes : Bool) (gateway : Option (Report × String)) (id : String)
    (answer : Fetched) (s : Service)
    → IsPaced s
    → IsPaced (end_get now cancelled writes gateway id answer s)
unfolding end_get
end_get-IsPaced now cancelled writes gateway id answer s paced =
    elim (Option-cases (lookup id s.inflight)) [
      | inl e ↦ rw (end_get, e) paced
      | inr (c, e) ↦
          rw (end_get, e)
            (ended-IsPaced now cancelled id (conclude now writes gateway id c answer s)
              (conclude-IsPaced now writes gateway id c answer s paced))
    ]

forget-IsPaced :
    (writes : Bool) (id : String) (s : Service) → IsPaced s → IsPaced (forget writes id s)
unfolding forget save_reports
forget-IsPaced true id s paced = Each-delete (λ d. minute ≤ d.step) id s.cooldowns paced
forget-IsPaced false id s paced = Each-delete (λ d. minute ≤ d.step) id s.cooldowns paced

expire-IsPaced : (now : ℕ) (id : String) (s : Service) → IsPaced s → IsPaced (expire now id s)
unfolding expire
expire-IsPaced now id s paced = elim (Option-cases (lookup id s.entries)) [
  | inl e ↦ rw (expire, e) paced
  | inr (c, e) ↦
      rw (expire, e) (split_if IsPaced (leb (c.at + expire_floor) now) (λ y. paced) (λ n. paced))
]

begin_get-IsPaced :
    (now : ℕ) (cancelled : Bool) (gateway : Option (Report × String)) (id : String) (login : Login)
    (s : Service)
    → IsPaced s
    → IsPaced ((begin_get now cancelled gateway id login s).1)
begin_get-IsPaced now cancelled gateway id login s paced j c e =
    paced j c (rw (begin_get-cooldowns now cancelled gateway id login s) at e)

step-IsPaced : (e : Event) (s : Service) → IsPaced s → IsPaced (step e s)
unfolding step
step-IsPaced (begins now cancelled gateway id login) s paced =
    begin_get-IsPaced now cancelled gateway id login s paced
step-IsPaced (ends now cancelled writes gateway id answer) s paced =
    end_get-IsPaced now cancelled writes gateway id answer s paced
step-IsPaced (forgets writes id) s paced = forget-IsPaced writes id s paced
step-IsPaced (expires now id) s paced = expire-IsPaced now id s paced

steps-IsPaced : (events : List Event) (s : Service) → IsPaced s → IsPaced (steps events s)
unfolding steps
steps-IsPaced [] s paced = paced
steps-IsPaced (e ∷ events) s paced = steps-IsPaced events (step e s) (step-IsPaced e s paced)

-- Whatever has happened since a start in which every step is a minute or more, a refusal holds Anthropic off
-- for a minute at least, and for no less than its Retry-After; for five minutes at most where that is no longer.
pub refused-bounds :
    (events : List Event) (now after : ℕ) (id : String) (start : Service)
    → IsPaced start
    → (now + minute ≤ (refused now after id (steps events start)).0)
      × (now + after ≤ (refused now after id (steps events start)).0)
      × ((refused now after id (steps events start)).0 ≤ now + max backoff_max after)
unfolding refused
refused-bounds events now after id start paced =
    let s = steps events start in
    ground (
      arith,
      next_step-bounds now after (cooldown_of id s)
          (cooldown_of-IsPaced id s (steps-IsPaced events start paced)),
    )
