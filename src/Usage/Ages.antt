-- ===== src/Usage/Ages.antt =====
-- internal/usage/service.go: what Get shows after any calls.
use clawdh.Base.{
  ℕ, ◌+◌, ◌*◌, ◌≤◌, ◌<◌, ◌≡◌, sym, ◌∙◌, subst, String, List, [], ◌∷◌, Option, none, some, Bool,
  true, false, ltb, leb, split_if, lookup, Each-delete, Option-cases, inl, inr, All, arith, minute,
  hour,
}
use clawdh.Usage.Client.{Report}
use clawdh.Usage.Gateway.{
  ShareWindow, window_stale_after, gateway_usage_for, gateway_usage_for-fetched_at,
}
use clawdh.Usage.Service.{
  Service, Snapshot, Prepared, shows, asks, CacheEntry, Login, prepare, expire, expire_floor,
  forget, save_reports,
}
use clawdh.Usage.Steps.{
  Begun, served, joined, asked, begun, begin_fetch, begin_get, Event, begins, ends, forgets,
  expires, step, steps,
}
use clawdh.Usage.Shown.{
  IsReading, IsAnswer, IsCard, Card, Card-IsFresh, prepare-Card, AllCards, begin_get-AllCards,
  end_get-AllCards,
}

-- What the gateway's hook gives for some login and some cached windows.
unfoldable pub IsHooked : ℕ → Option (Report × String) → Type 0
IsHooked now gateway =
    (point : ℕ) × (email : String) × (windows : List ShareWindow) × (gateway
      ≡ gateway_usage_for point now email windows)

IsHooked-IsReading :
    (now : ℕ) (gateway : Option (Report × String)) → IsHooked now gateway → IsReading now gateway
unfolding IsHooked
IsHooked-IsReading now gateway h r note e =
    let young : now < r.fetched_at + window_stale_after =
      gateway_usage_for-fetched_at h.0 now h.1 h.2 r note (sym h.3 ∙ e) in
    omega (arith, young)

-- What comes from outside: readings of the hook, and reports that have just been read.
unfoldable pub IsRecent : Event → Type 0
IsRecent (begins now cancelled gateway id login) = IsHooked now gateway
IsRecent (ends now cancelled writes gateway id answer) = IsHooked now gateway × IsAnswer now answer
IsRecent (forgets writes id) = Unit
IsRecent (expires now id) = Unit

forget-AllCards :
    (writes : Bool) (id : String) (s : Service) → AllCards s → AllCards (forget writes id s)
unfolding forget save_reports
forget-AllCards true id s all = Each-delete (λ e. IsCard e.at e.snapshot e.ttl) id s.entries all
forget-AllCards false id s all = Each-delete (λ e. IsCard e.at e.snapshot e.ttl) id s.entries all

expire-AllCards : (now : ℕ) (id : String) (s : Service) → AllCards s → AllCards (expire now id s)
unfolding expire
expire-AllCards now id s all = elim (Option-cases (lookup id s.entries)) [
  | inl e ↦ rw (expire, e) all
  | inr (c, e) ↦
      rw (expire, e)
        (split_if AllCards (leb (c.at + expire_floor) now)
          (λ y. Each-delete (λ e. IsCard e.at e.snapshot e.ttl) id s.entries all) (λ n. all))
]

step-AllCards : (e : Event) (s : Service) → IsRecent e → AllCards s → AllCards (step e s)
unfolding IsRecent step
step-AllCards (begins now cancelled gateway id login) s reading all =
    begin_get-AllCards now cancelled gateway id login s (IsHooked-IsReading now gateway reading) all
step-AllCards (ends now cancelled writes gateway id answer) s (reading, given) all =
    end_get-AllCards now cancelled writes gateway id answer s
      (IsHooked-IsReading now gateway reading) given all
step-AllCards (forgets writes id) s recent all = forget-AllCards writes id s all
step-AllCards (expires now id) s recent all = expire-AllCards now id s all

steps-AllCards :
    (events : List Event) (s : Service)
    → All IsRecent events
    → AllCards s
    → AllCards (steps events s)
unfolding steps
steps-AllCards [] s recent all = all
steps-AllCards (e ∷ events) s (here, there) all =
    steps-AllCards events (step e s) there (step-AllCards e s here all)

-- What a Get shows at once.
Shows : ℕ → Begun → Type 0
Shows now (served snapshot) =
    (r : Report) → snapshot.usage ≡ some r → now ≤ r.fetched_at + window_stale_after + minute
Shows now joined = Unit
Shows now asked = Unit

begun-Shows :
    (now : ℕ) (cancelled : Bool) (id : String) (p : Prepared) (s : Service)
    → Card now p
    → Shows now ((begun now cancelled id p s).0)
unfolding Shows begun
begun-Shows now cancelled id (shows snapshot ttl) s card = λ r e.
    let fresh : now ≤ r.fetched_at + window_stale_after = Card-IsFresh now snapshot ttl card r e in
    omega (arith, fresh)
begun-Shows now cancelled id (asks c) s card = tt

begin_fetch-Shows :
    (now : ℕ) (cancelled : Bool) (gateway : Option (Report × String)) (id : String) (login : Login)
    (s : Service)
    → IsReading now gateway
    → Shows now ((begin_fetch now cancelled gateway id login s).0)
unfolding Shows begin_fetch
begin_fetch-Shows now cancelled gateway id login s reading =
    elim (Option-cases (lookup id s.inflight)) [
      | inl e ↦
          rw (begin_fetch, e)
            (begun-Shows now cancelled id (prepare now gateway id login s) s
              (prepare-Card now gateway id login s reading))
      | inr (c, e) ↦ rw (begin_fetch, e) tt
    ]

begin_get-Shows :
    (now : ℕ) (cancelled : Bool) (gateway : Option (Report × String)) (id : String) (login : Login)
    (s : Service)
    → IsReading now gateway
    → AllCards s
    → Shows now ((begin_get now cancelled gateway id login s).0)
unfolding Shows begin_get
begin_get-Shows now cancelled gateway id login s reading all =
    elim (Option-cases (lookup id s.entries)) [
      | inl e ↦ rw (begin_get, e) (begin_fetch-Shows now cancelled gateway id login s reading)
      | inr (c, e) ↦
          rw (begin_get, e)
            (split_if (λ (t : Begun × Service). Shows now (t.0)) (ltb now (c.at + c.ttl))
              (λ young r k.
                let fresh = (all id c e).0 r k in
                let long = (all id c e).1 in ground (arith, young, fresh, long))
              (λ n. begin_fetch-Shows now cancelled gateway id login s reading))
    ]

-- Whatever calls have come before, from a start with no snapshot, the numbers that a Get shows at once were read
-- no longer than a day and a minute ago: the gateway's readings are those of its hook, and a report of the service
-- itself is taken no later than a minute after it was read.
pub begin_get_fresh :
    (events : List Event) (now : ℕ) (cancelled : Bool) (gateway : Option (Report × String))
    (id : String) (login : Login) (start : Service) (snapshot : Snapshot) (r : Report)
    → start.entries ≡ []
    → All IsRecent events
    → IsHooked now gateway
    → (begin_get now cancelled gateway id login (steps events start)).0 ≡ served snapshot
    → snapshot.usage ≡ some r
    → now ≤ r.fetched_at + (24 * hour + minute)
unfolding Shows
begin_get_fresh events now cancelled gateway id login start snapshot r fresh recent reading shown
      e =
    let all : AllCards start =
      λ j c found. let bad : Path (Option CacheEntry) none (some c) = rw fresh at found in cc in
    let seen : Shows now (served snapshot) = subst (Shows now) shown (
      begin_get-Shows now cancelled gateway id login (steps events start)
        (IsHooked-IsReading now gateway reading) (steps-AllCards events start recent all)) in
    ground (arith, seen r e)
