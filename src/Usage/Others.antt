-- ===== src/Usage/Others.antt =====
-- internal/usage/service.go: a step on one account leaves what is kept of another.
use clawdh.Base.{
  ℕ, ◌+◌, ◌≡◌, refl, ◌∙◌, inl, inr, String, List, Option, none, some, Bool, true, false, ◌==◌, ltb,
  leb, split_if, lookup, put, delete, lookup-put, lookup-delete, Option-cases,
}
use clawdh.Usage.Client.{Report, Credentials, Fetched, read, rejected, limited, unread}
use clawdh.Usage.Service.{
  Service, Snapshot, Prepared, shows, asks, Login, prepare, conclude, expire, expire_floor, forget,
  save_reports, refused, allowed, failed,
}
use clawdh.Usage.Steps.{
  Begun, cached, begun, begin_fetch, begin_get, ended, end_get, Event, begins, ends, forgets,
  expires, step,
}

-- A step on another account leaves what is kept of this one.
abbrev pub Same : String → Service → Service → Type 0
Same id s t =
    (lookup id t.entries ≡ lookup id s.entries)
    × (lookup id t.inflight ≡ lookup id s.inflight)
    × (lookup id t.cooldowns ≡ lookup id s.cooldowns)

Same-trans : (id : String) (s t u : Service) → Same id s t → Same id t u → Same id s u
Same-trans id s t u (a, b, c) (d, e, f) = (d ∙ a, e ∙ b, f ∙ c)

module _ {ℓ} {V : Type ℓ} (j id : String) (m : List (String × V)) (apart : (j == id) ≡ false) where
  lookup-put_other : (v : V) → lookup id (put j v m) ≡ lookup id m
  lookup-put_other v = lookup-put j id v m ∙ rw apart refl

  lookup-delete_other : lookup id (delete j m) ≡ lookup id m
  lookup-delete_other = lookup-delete j id m ∙ rw apart refl

module _ (j id : String) (apart : (j == id) ≡ false) where
  Same-cached :
      (now : ℕ) (cancelled : Bool) (shown : Snapshot × ℕ) (s : Service)
      → Same id s (cached now cancelled j shown s)
  unfolding cached
  Same-cached now true (snapshot, ttl) s = (refl, refl, refl)
  Same-cached now false (snapshot, ttl) s = (
    lookup-put_other j id s.entries apart (record { snapshot = snapshot; at = now; ttl = ttl }),
    refl,
    refl,
  )

  Same-begun :
      (now : ℕ) (cancelled : Bool) (p : Prepared) (s : Service)
      → Same id s ((begun now cancelled j p s).1)
  unfolding begun
  Same-begun now cancelled (shows snapshot ttl) s = Same-cached now cancelled (snapshot, ttl) s
  Same-begun now cancelled (asks c) s = (refl, lookup-put_other j id s.inflight apart c, refl)

  Same-begin_fetch :
      (now : ℕ) (cancelled : Bool) (gateway : Option (Report × String)) (login : Login)
      (s : Service)
      → Same id s ((begin_fetch now cancelled gateway j login s).1)
  unfolding begin_fetch
  Same-begin_fetch now cancelled gateway login s = elim (Option-cases (lookup j s.inflight)) [
    | inl e ↦ rw (begin_fetch, e) (Same-begun now cancelled (prepare now gateway j login s) s)
    | inr (c, e) ↦ rw (begin_fetch, e) (refl, refl, refl)
  ]

  Same-begin_get :
      (now : ℕ) (cancelled : Bool) (gateway : Option (Report × String)) (login : Login)
      (s : Service)
      → Same id s ((begin_get now cancelled gateway j login s).1)
  unfolding begin_get
  Same-begin_get now cancelled gateway login s = elim (Option-cases (lookup j s.entries)) [
    | inl e ↦ rw (begin_get, e) (Same-begin_fetch now cancelled gateway login s)
    | inr (c, e) ↦
        rw (begin_get, e)
          (split_if (λ (t : Begun × Service). Same id s (t.1)) (ltb now (c.at + c.ttl))
            (λ y. (refl, refl, refl)) (λ n. Same-begin_fetch now cancelled gateway login s))
  ]

  Same-failed : (now : ℕ) (s : Service) → Same id s (failed now j s)
  unfolding failed
  Same-failed now s = elim (Option-cases (lookup j s.cooldowns)) [
    | inl e ↦ rw (failed, e) (refl, refl, refl)
    | inr (c, e) ↦
        rw (failed, e)
          (refl, refl, lookup-put_other j id s.cooldowns apart (record c { failed_at = now }))
  ]

  Same-allowed : (writes : Bool) (r : Report) (s : Service) → Same id s (allowed writes j r s)
  unfolding allowed save_reports
  Same-allowed true r s = (refl, refl, lookup-delete_other j id s.cooldowns apart)
  Same-allowed false r s = (refl, refl, lookup-delete_other j id s.cooldowns apart)

  Same-conclude :
      (now : ℕ) (writes : Bool) (gateway : Option (Report × String)) (c : Credentials)
      (answer : Fetched) (s : Service)
      → Same id s ((conclude now writes gateway j c answer s).1)
  unfolding conclude refused
  Same-conclude now writes gateway c (read r) s = Same-allowed writes r s
  Same-conclude now writes none c rejected s = Same-failed now s
  Same-conclude now writes (some g) c rejected s = (refl, refl, refl)
  Same-conclude now writes gateway c (limited after) s =
      (refl, refl, lookup-put_other j id s.cooldowns apart _)
  Same-conclude now writes gateway c (unread true) s = (refl, refl, refl)
  Same-conclude now writes gateway c (unread false) s = Same-failed now s

  Same-ended :
      (now : ℕ) (cancelled : Bool) (s : Service) (t : (Snapshot × ℕ) × Service)
      → Same id s (t.1)
      → Same id s (ended now cancelled j t)
  unfolding ended
  Same-ended now cancelled s (shown, t) same =
      Same-trans id s t (ended now cancelled j (shown, t)) same (
        Same-trans id t (cached now cancelled j shown t) (ended now cancelled j (shown, t))
          (Same-cached now cancelled shown t)
          (refl, lookup-delete_other j id (cached now cancelled j shown t).inflight apart, refl))

  Same-end_get :
      (now : ℕ) (cancelled writes : Bool) (gateway : Option (Report × String)) (answer : Fetched)
      (s : Service)
      → Same id s (end_get now cancelled writes gateway j answer s)
  unfolding end_get
  Same-end_get now cancelled writes gateway answer s = elim (Option-cases (lookup j s.inflight)) [
    | inl e ↦ rw (end_get, e) (refl, refl, refl)
    | inr (c, e) ↦
        rw (end_get, e)
          (Same-ended now cancelled s (conclude now writes gateway j c answer s)
            (Same-conclude now writes gateway c answer s))
  ]

  Same-forget : (writes : Bool) (s : Service) → Same id s (forget writes j s)
  unfolding forget save_reports
  Same-forget true s =
      (lookup-delete_other j id s.entries apart, refl, lookup-delete_other j id s.cooldowns apart)
  Same-forget false s =
      (lookup-delete_other j id s.entries apart, refl, lookup-delete_other j id s.cooldowns apart)

  Same-expire : (now : ℕ) (s : Service) → Same id s (expire now j s)
  unfolding expire
  Same-expire now s = elim (Option-cases (lookup j s.entries)) [
    | inl e ↦ rw (expire, e) (refl, refl, refl)
    | inr (c, e) ↦
        rw (expire, e)
          (split_if (Same id s) (leb (c.at + expire_floor) now)
            (λ y. (lookup-delete_other j id s.entries apart, refl, refl)) (λ n. (refl, refl, refl)))
  ]

-- The account that a step is on.
unfoldable pub account_of : Event → String
account_of (begins now cancelled gateway id login) = id
account_of (ends now cancelled writes gateway id answer) = id
account_of (forgets writes id) = id
account_of (expires now id) = id

pub Same-step :
    (e : Event) (id : String) (s : Service) → (account_of e == id) ≡ false → Same id s (step e s)
unfolding account_of step
Same-step (begins now cancelled gateway j login) id s apart =
    Same-begin_get j id apart now cancelled gateway login s
Same-step (ends now cancelled writes gateway j answer) id s apart =
    Same-end_get j id apart now cancelled writes gateway answer s
Same-step (forgets writes j) id s apart = Same-forget j id apart writes s
Same-step (expires now j) id s apart = Same-expire j id apart now s
