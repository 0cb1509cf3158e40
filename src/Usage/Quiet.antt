-- ===== src/Usage/Quiet.antt =====
-- internal/usage/service.go: which requests are not made while an account is left alone.
use clawdh.Base.{
  ℕ, ◌+◌, ◌≤◌, ◌<◌, ◌≡◌, ◌≢◌, refl, ◌⊎◌, inl, inr, String, List, [], Option, none, some, Bool, true,
  false, not, ◌&&◌, ◌==◌, ltb, leb, is_zero, split_if, lookup, Option-cases, All, arith,
}
use clawdh.Usage.Client.{Report, Credentials}
use clawdh.Usage.Service.{
  Service, Snapshot, Prepared, shows, Cooldown, CacheEntry, Login, missing, unreadable, present,
  prepare, gateway_or, prepare_login, expire_floor, waiting,
}
use clawdh.Usage.Steps.{
  Begun, cached, begun, begin_fetch, begin_get, Event, begins, ends, forgets, expires, if_asked,
}

-- The cooldown of an account lasts until an instant, at least.
abbrev pub Cooling : ℕ → String → Service → Type 0
Cooling until id s = (c : Cooldown) × (lookup id s.cooldowns ≡ some c) × (until ≤ c.until)

-- Its snapshot may be reused until an instant, and Expire leaves it until another.
abbrev pub Served : ℕ → ℕ → String → Service → Type 0
Served until kept id s =
    (e : CacheEntry) × (lookup id s.entries ≡ some e)
    × (until ≤ e.at + e.ttl)
    × (kept ≤ e.at + expire_floor)

abbrev pub Idle : String → Service → Type 0
Idle id s = lookup id s.inflight ≡ none

-- A step comes before an instant if it is a Get, and is not one that forgets the account.
unfoldable pub Spares : ℕ → String → Event → Type 0
Spares until id (begins now cancelled gateway j login) = now < until
Spares until id (ends now cancelled writes gateway j answer) = Unit
Spares until id (forgets writes j) = (j == id) ≡ false
Spares until id (expires now j) = Unit

-- Nor does it expire the account's snapshot from another instant on.
unfoldable pub Keeps : ℕ → String → Event → Type 0
Keeps kept id (expires now j) = ((j == id) ≡ false) ⊎ (now < kept)
Keeps kept id _ = Unit

waiting-Cooling :
    (now until : ℕ) (id : String) (s : Service)
    → Cooling until id s
    → now < until
    → waiting now id s ≢ 0
unfolding waiting
waiting-Cooling now until id s (c, found, late) early = rw (waiting, found) (ground arith)

abbrev Shown : Prepared → Type 0
Shown p = (snapshot : Snapshot) × (ttl : ℕ) × (p ≡ shows snapshot ttl)

gateway_or-Shown :
    (gateway : Option (Report × String)) (p other : Snapshot) → Shown (gateway_or gateway p other)
unfolding gateway_or
gateway_or-Shown none p other = (_, _, refl)
gateway_or-Shown (some g) p other = (_, _, refl)

prepare_login-Shown :
    (now : ℕ) (gateway : Option (Report × String)) (id : String) (c : Credentials) (s : Service)
    → waiting now id s ≢ 0
    → Shown (prepare_login now gateway id c s)
unfolding prepare_login
prepare_login-Shown now gateway id c s waits =
    split_if Shown (not (is_zero c.refresh_expires_at) && ltb c.refresh_expires_at now)
      (λ y. gateway_or-Shown gateway _ _)
      (λ n.
        split_if Shown (not (is_zero c.expires_at) && leb c.expires_at now)
          (λ y. gateway_or-Shown gateway _ _)
          (λ m.
            split_if Shown (not (is_zero (waiting now id s))) (λ y. (_, _, refl))
              (λ k. absurd (waits (ground (arith, k))))))

-- While a cooldown lasts, a login never comes to a request.
prepare-Shown :
    (now : ℕ) (gateway : Option (Report × String)) (id : String) (login : Login) (s : Service)
    → waiting now id s ≢ 0
    → Shown (prepare now gateway id login s)
unfolding prepare
prepare-Shown now gateway id missing s waits = (_, _, refl)
prepare-Shown now gateway id unreadable s waits = (_, _, refl)
prepare-Shown now gateway id (present c) s waits = prepare_login-Shown now gateway id c s waits

-- What a step must leave of an account, and that it does not ask for it.
unfoldable pub Stays : (Service → Type 0) → String → Service → List String → Type 0
Stays Held id s asked_for = Idle id s × Held s × All (λ j. (j == id) ≡ false) asked_for

cached-Stays :
    (now : ℕ) (cancelled : Bool) (id : String) (shown : Snapshot × ℕ) (s : Service) (until : ℕ)
    → Idle id s
    → Cooling until id s
    → Stays (Cooling until id) id (cached now cancelled id shown s) []
unfolding cached Stays
cached-Stays now true id (snapshot, ttl) s until idle cooling = (idle, cooling, tt)
cached-Stays now false id (snapshot, ttl) s until idle cooling = (idle, cooling, tt)

abbrev pub StaysBegun : (Service → Type 0) → String → Begun × Service → Type 0
StaysBegun Held id t = Stays Held id (t.1) (if_asked id (t.0))

begun-Stays :
    (now : ℕ) (cancelled : Bool) (id : String) (p : Prepared) (s : Service) (until : ℕ)
    → Shown p
    → Idle id s
    → Cooling until id s
    → StaysBegun (Cooling until id) id (begun now cancelled id p s)
unfolding begun if_asked
begun-Stays now cancelled id p s until (snapshot, ttl, e) idle cooling =
    rw e (cached-Stays now cancelled id (snapshot, ttl) s until idle cooling)

pub begin_get-Cooling :
    (now : ℕ) (cancelled : Bool) (gateway : Option (Report × String)) (id : String) (login : Login)
    (s : Service) (until : ℕ)
    → now < until
    → Idle id s
    → Cooling until id s
    → StaysBegun (Cooling until id) id (begin_get now cancelled gateway id login s)
unfolding begin_get begin_fetch Stays if_asked
begin_get-Cooling now cancelled gateway id login s until early idle cooling =
    let fetched : StaysBegun (Cooling until id) id (begin_fetch now cancelled gateway id login s) =
      rw (begin_fetch, idle)
        (begun-Stays now cancelled id (prepare now gateway id login s) s until
          (prepare-Shown now gateway id login s (waiting-Cooling now until id s cooling early)) idle
          cooling) in
    elim (Option-cases (lookup id s.entries)) [
      | inl e ↦ rw (begin_get, e) fetched
      | inr (c, e) ↦
          rw (begin_get, e)
            (split_if (StaysBegun (Cooling until id) id) (ltb now (c.at + c.ttl))
              (λ y. (idle, cooling, tt)) (λ n. fetched))
    ]

pub begin_get-Served :
    (now : ℕ) (cancelled : Bool) (gateway : Option (Report × String)) (id : String) (login : Login)
    (s : Service) (until kept : ℕ)
    → now < until
    → Idle id s
    → Served until kept id s
    → StaysBegun (Served until kept id) id (begin_get now cancelled gateway id login s)
unfolding begin_get Stays if_asked
begin_get-Served now cancelled gateway id login s until kept early idle (c, e, late, floor) =
    let fresh : ltb now (c.at + c.ttl) ≡ true = ground (arith, late) in
    rw (begin_get, e, fresh) (idle, (c, e, late, floor), tt)
