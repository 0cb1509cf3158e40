-- ===== src/Usage/Left.antt =====
-- internal/usage/service.go: an account that Anthropic has answered for is left alone for a while.
use clawdh.Base.{
  ℕ, ◌+◌, ◌≡◌, refl, sym, subst, ◌∙◌, inl, inr, String, List, [], ◌∷◌, Option, none, some, Bool,
  true, false, not, ◌==◌, eq_iff, leb, split_if, lookup, lookup-put, lookup-delete, Option-cases,
  Bool-cases, All, All-append, arith,
}
use clawdh.Usage.Client.{Report, Credentials, Fetched, read, rejected, limited, unread}
use clawdh.Usage.Service.{
  Service, Snapshot, conclude, expire, expire_floor, refused, full_ttl, cooldown_of, next_step,
}
use clawdh.Usage.Steps.{
  Begun, served, joined, asked, begin_get, end_get, ended, cached, Event, begins, ends, forgets,
  expires, step, if_asked, request, requests,
}
use clawdh.Usage.Others.{account_of, Same-step}
use clawdh.Usage.Quiet.{
  Cooling, Served, Idle, Spares, Keeps, Stays, begin_get-Cooling, begin_get-Served,
}

request-other :
    (e : Event) (id : String) (s : Service)
    → (account_of e == id) ≡ false
    → All (λ j. (j == id) ≡ false) (request e s)
unfolding account_of request if_asked
request-other (begins now cancelled gateway j login) id s apart =
    if_asked-other ((begin_get now cancelled gateway j login s).0)
  where
    if_asked-other : (b : Begun) → All (λ k. (k == id) ≡ false) (if_asked j b)
    if_asked-other asked = (apart, tt)
    if_asked-other joined = tt
    if_asked-other (served snapshot) = tt
request-other (ends now cancelled writes gateway j answer) id s apart = tt
request-other (forgets writes j) id s apart = tt
request-other (expires now j) id s apart = tt

-- A step on another account.
other-Cooling :
    (e : Event) (id : String) (s : Service) (until : ℕ)
    → (account_of e == id) ≡ false
    → Idle id s
    → Cooling until id s
    → Stays (Cooling until id) id (step e s) (request e s)
unfolding Stays
other-Cooling e id s until apart idle (c, found, late) =
    let same = Same-step e id s apart in
    (same.1 ∙ idle, (c, same.2 ∙ found, late), request-other e id s apart)

other-Served :
    (e : Event) (id : String) (s : Service) (until kept : ℕ)
    → (account_of e == id) ≡ false
    → Idle id s
    → Served until kept id s
    → Stays (Served until kept id) id (step e s) (request e s)
unfolding Stays
other-Served e id s until kept apart idle (c, found, late, floor) =
    let same = Same-step e id s apart in
    (same.1 ∙ idle, (c, same.0 ∙ found, late, floor), request-other e id s apart)

-- A step on the account itself.
own-Cooling :
    (e : Event) (s : Service) (until : ℕ)
    → Spares until (account_of e) e
    → Idle (account_of e) s
    → Cooling until (account_of e) s
    → Stays (Cooling until (account_of e)) (account_of e) (step e s) (request e s)
unfolding account_of step request Spares Stays end_get expire
own-Cooling (begins now cancelled gateway id login) s until early idle cooling =
    begin_get-Cooling now cancelled gateway id login s until early idle cooling
own-Cooling (ends now cancelled writes gateway id answer) s until early idle cooling =
    rw (end_get, idle) (idle, cooling, tt)
own-Cooling (forgets writes id) s until spared idle cooling =
    let bad : Path Bool false true = sym spared ∙ (eq_iff id id).1 refl in cc
own-Cooling (expires now id) s until early idle cooling =
    elim (Option-cases (lookup id s.entries)) [
      | inl e ↦ rw (expire, e) (idle, cooling, tt)
      | inr (c, e) ↦
          rw (expire, e)
            (split_if (λ t. Stays (Cooling until id) id t []) (leb (c.at + expire_floor) now)
              (λ y. (idle, cooling, tt)) (λ n. (idle, cooling, tt)))
    ]

own-Served :
    (e : Event) (s : Service) (until kept : ℕ)
    → Spares until (account_of e) e
    → Keeps kept (account_of e) e
    → Idle (account_of e) s
    → Served until kept (account_of e) s
    → Stays (Served until kept (account_of e)) (account_of e) (step e s) (request e s)
unfolding account_of step request Spares Keeps Stays end_get expire
own-Served (begins now cancelled gateway id login) s until kept early keeps idle h =
    begin_get-Served now cancelled gateway id login s until kept early idle h
own-Served (ends now cancelled writes gateway id answer) s until kept early keeps idle h =
    rw (end_get, idle) (idle, h, tt)
own-Served (forgets writes id) s until kept spared keeps idle h =
    let bad : Path Bool false true = sym spared ∙ (eq_iff id id).1 refl in cc
own-Served (expires now id) s until kept early (inl apart) idle h =
    let bad : Path Bool false true = sym apart ∙ (eq_iff id id).1 refl in cc
own-Served (expires now id) s until kept early (inr young) idle (c, e, late, floor) =
    let left : leb (c.at + expire_floor) now ≡ false = ground (arith, young, floor) in
    rw (expire, e, left) (idle, (c, e, late, floor), tt)

step-Cooling :
    (e : Event) (id : String) (s : Service) (until : ℕ)
    → Spares until id e
    → Idle id s
    → Cooling until id s
    → Stays (Cooling until id) id (step e s) (request e s)
step-Cooling e id s until spared idle cooling = elim (Bool-cases (account_of e == id)) [
  | inr apart ↦ other-Cooling e id s until apart idle cooling
  | inl own ↦
      subst
        (λ j.
          Spares until j e
          → Idle j s
          → Cooling until j s
          → Stays (Cooling until j) j (step e s) (request e s))
        ((eq_iff (account_of e) id).0 own) (own-Cooling e s until) spared idle cooling
]

step-Served :
    (e : Event) (id : String) (s : Service) (until kept : ℕ)
    → Spares until id e
    → Keeps kept id e
    → Idle id s
    → Served until kept id s
    → Stays (Served until kept id) id (step e s) (request e s)
step-Served e id s until kept spared keeps idle h = elim (Bool-cases (account_of e == id)) [
  | inr apart ↦ other-Served e id s until kept apart idle h
  | inl own ↦
      subst
        (λ j.
          Spares until j e
          → Keeps kept j e
          → Idle j s
          → Served until kept j s
          → Stays (Served until kept j) j (step e s) (request e s))
        ((eq_iff (account_of e) id).0 own) (own-Served e s until kept) spared keeps idle h
]

requests-Cooling :
    (events : List Event) (id : String) (s : Service) (until : ℕ)
    → All (Spares until id) events
    → Idle id s
    → Cooling until id s
    → All (λ j. (j == id) ≡ false) (requests events s)
unfolding requests Stays
requests-Cooling [] id s until early idle cooling = tt
requests-Cooling (e ∷ events) id s until (early, later) idle cooling =
    let (still, cool, none_here) = step-Cooling e id s until early idle cooling in
    All-append (λ j. (j == id) ≡ false) (request e s) (requests events (step e s)) none_here
      (requests-Cooling events id (step e s) until later still cool)

requests-Served :
    (events : List Event) (id : String) (s : Service) (until kept : ℕ)
    → All (Spares until id) events
    → All (Keeps kept id) events
    → Idle id s
    → Served until kept id s
    → All (λ j. (j == id) ≡ false) (requests events s)
unfolding requests Stays
requests-Served [] id s until kept early keeps idle h = tt
requests-Served (e ∷ events) id s until kept (early, later) (here, there) idle h =
    let (still, held, none_here) = step-Served e id s until kept early here idle h in
    All-append (λ j. (j == id) ≡ false) (request e s) (requests events (step e s)) none_here
      (requests-Served events id (step e s) until kept later there still held)

-- The state after an answer to the account's request.
ended-Idle :
    (now : ℕ) (cancelled : Bool) (id : String) (t : (Snapshot × ℕ) × Service)
    → Idle id (ended now cancelled id t)
unfolding ended
ended-Idle now cancelled id (shown, t) =
    lookup-delete id id (cached now cancelled id shown t).inflight ∙ rw ((eq_iff id id).1 refl) refl

ended-Cooling :
    (now : ℕ) (cancelled : Bool) (id : String) (t : (Snapshot × ℕ) × Service) (until : ℕ)
    → Cooling until id (t.1)
    → Cooling until id (ended now cancelled id t)
unfolding ended cached
ended-Cooling now true id ((snapshot, ttl), t) until cooling = cooling
ended-Cooling now false id ((snapshot, ttl), t) until cooling = cooling

refused-Cooling :
    (now after : ℕ) (id : String) (s : Service)
    → Cooling ((refused now after id s).0) id ((refused now after id s).1)
unfolding refused
refused-Cooling now after id s = (
  record {
    until = now + next_step now after (cooldown_of id s);
    step = next_step now after (cooldown_of id s);
    failed_at = 0;
  },
  lookup-put id id _ s.cooldowns ∙ rw ((eq_iff id id).1 refl) refl,
  omega arith,
)

-- After a refusal, whether or not the one who asked still waits for it, Anthropic is not asked for the account's
-- usage until the cooldown that begins with it is over, whatever calls there are, Expire too, but for a Forget
-- of that account.
pub requests_after_refusal :
    (events : List Event) (now after : ℕ) (cancelled writes : Bool)
    (gateway : Option (Report × String)) (id : String) (c : Credentials) (s : Service)
    → lookup id s.inflight ≡ some c
    → All (Spares ((refused now after id s).0) id) events
    → All
        (λ j. (j == id) ≡ false)
        (requests events (step (ends now cancelled writes gateway id (limited after)) s))
unfolding step end_get conclude
requests_after_refusal events now after cancelled writes gateway id c s open_request early =
    rw (step, end_get, open_request)
      (requests-Cooling events id
        (ended now cancelled id (conclude now writes gateway id c (limited after) s))
        ((refused now after id s).0) early
        (ended-Idle now cancelled id (conclude now writes gateway id c (limited after) s))
        (ended-Cooling now cancelled id (conclude now writes gateway id c (limited after) s)
          ((refused now after id s).0) (refused-Cooling now after id s)))

-- Anthropic has answered, and with no refusal, and the snapshot is not the gateway's.
unfoldable pub is_heard : Option (Report × String) → Fetched → Bool
is_heard gateway (read r) = true
is_heard none rejected = true
is_heard (some g) rejected = false
is_heard gateway (limited after) = false
is_heard gateway (unread unsent) = not unsent

heard_ttl :
    (now : ℕ) (writes : Bool) (gateway : Option (Report × String)) (id : String) (c : Credentials)
    (answer : Fetched) (s : Service)
    → is_heard gateway answer ≡ true
    → ((conclude now writes gateway id c answer s).0).1 ≡ full_ttl
unfolding conclude is_heard
heard_ttl now writes gateway id c (read r) s h = refl
heard_ttl now writes none id c rejected s h = refl
heard_ttl now writes (some g) id c rejected s h = cc
heard_ttl now writes gateway id c (limited after) s h = cc
heard_ttl now writes gateway id c (unread true) s h = cc
heard_ttl now writes gateway id c (unread false) s h = refl

ended-Served :
    (now : ℕ) (id : String) (t : (Snapshot × ℕ) × Service)
    → (t.0).1 ≡ full_ttl
    → Served (now + full_ttl) (now + expire_floor) id (ended now false id t)
unfolding ended cached
ended-Served now id ((snapshot, ttl), t) long = (
  record { snapshot = snapshot; at = now; ttl = ttl },
  lookup-put id id _ t.entries ∙ rw ((eq_iff id id).1 refl) refl,
  rw long (omega arith),
  omega arith,
)

-- After any other answer, Anthropic is not asked for the account's usage again for a minute, if the one who
-- asked has waited for it, the card does not show the gateway's reading, the account is not forgotten, and its
-- snapshot is expired in the first fifteen seconds only, if at all.
pub requests_after_answer :
    (events : List Event) (now : ℕ) (writes : Bool) (gateway : Option (Report × String))
    (id : String) (c : Credentials) (answer : Fetched) (s : Service)
    → lookup id s.inflight ≡ some c
    → is_heard gateway answer ≡ true
    → All (Spares (now + full_ttl) id) events
    → All (Keeps (now + expire_floor) id) events
    → All
        (λ j. (j == id) ≡ false)
        (requests events (step (ends now false writes gateway id answer) s))
unfolding step end_get
requests_after_answer events now writes gateway id c answer s open_request heard early keeps =
    let t = conclude now writes gateway id c answer s in
    rw (step, end_get, open_request)
      (requests-Served events id (ended now false id t) (now + full_ttl) (now + expire_floor) early
        keeps (ended-Idle now false id t)
        (ended-Served now id t (heard_ttl now writes gateway id c answer s heard)))
