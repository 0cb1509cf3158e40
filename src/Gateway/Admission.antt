-- ===== src/Gateway/Admission.antt =====
-- Who the handler of internal/gateway/gateway.go forwards for.
use clawdh.Base.{
  ℕ, ◌≡◌, refl, ap, sym, subst, ◌∙◌, ◌⊎◌, inl, inr, String, List, [], Option, none, some,
  Bool-cases, true, false, ◌||◌, ◌==◌, if◌then◌else◌, ltb,
}
use Prim.Native.String
use clawdh.Gateway.Credentials.{Answer}
use clawdh.Gateway.Headers.{reset_seconds, member_key, Request, with_hour_cache}
use clawdh.Gateway.Proxy.{
  Resolution, Resolved, resolved, unknown_key, unusable, QuotaStatus, no_quota, Exchange, Reply,
  Forwarded, forward, at_quota, limited, over_quota, on_resolved, admit, serve, max_request_body,
}
use clawdh.Gateway.Serving.{NotRefused, Exchanged, forward-Exchanged}

-- The quota that applies to a member, if quotas are kept, is not used up.
abbrev pub InQuota : Option (String → String → QuotaStatus) → Resolution → Type 0
InQuota none res = Unit
InQuota (some status) res = (status res.person_id res.account_id).over ≡ false

-- The upstream knows the account of every key that it resolves.
abbrev pub KnowsAccounts : (String → Resolved) → Type 0
KnowsAccounts resolve =
    (key : String) (res : Resolution) → resolve key ≡ resolved res → res.account_id == "" ≡ false

module _ (renew : Option (String → String → Answer)) (anthropic : ℕ → Forwarded → Exchange)
    (now : ℕ) where
  -- Nothing goes out and the member gets an answer of the gateway's; or the member is forwarded for.
  abbrev pub Admitted :
      Option (String → String → QuotaStatus) → Resolution → List Forwarded × Option Reply → Type 0
  Admitted limiter res out =
      ((out.0 ≡ []) × NotRefused out.1) ⊎ (InQuota limiter res × Exchanged anthropic res out)

  at_quota-over :
      (quota : QuotaStatus) (res : Resolution) (r : Request)
      → quota.over ≡ true
      → at_quota renew anthropic now quota res r
        ≡ ([], some (over_quota (reset_seconds now quota.reset_at) quota.message))
  unfolding at_quota
  at_quota-over quota res r e =
      ap
        (λ b.
          if b
          then ([], some (over_quota (reset_seconds now quota.reset_at) quota.message))
          else forward renew anthropic res quota r)
        e

  at_quota-within :
      (quota : QuotaStatus) (res : Resolution) (r : Request)
      → quota.over ≡ false
      → at_quota renew anthropic now quota res r ≡ forward renew anthropic res quota r
  unfolding at_quota
  at_quota-within quota res r e =
      ap
        (λ b.
          if b
          then ([], some (over_quota (reset_seconds now quota.reset_at) quota.message))
          else forward renew anthropic res quota r)
        e

  limited-at_quota :
      (status : String → String → QuotaStatus) (res : Resolution) (r : Request)
      → res.account_id == "" ≡ false
      → limited renew anthropic now (some status) res r
        ≡ at_quota renew anthropic now (status res.person_id res.account_id) res r
  unfolding limited
  limited-at_quota status res r known = elim (Bool-cases (res.person_id == "")) [
    | inl e ↦ rw (limited, e, known) refl
    | inr e ↦ rw (limited, e) refl
  ]

  -- Behind the quota, in quota.
  limited-Exchanged :
      (limiter : Option (String → String → QuotaStatus)) (res : Resolution) (r : Request)
      → res.account_id == "" ≡ false
      → InQuota limiter res
      → Exchanged anthropic res (limited renew anthropic now limiter res r)
  unfolding limited
  limited-Exchanged none res r known h = forward-Exchanged renew anthropic res no_quota r known
  limited-Exchanged (some status) res r known h =
      let quota = status res.person_id res.account_id in
      subst (Exchanged anthropic res)
        (sym (limited-at_quota status res r known ∙ at_quota-within quota res r h))
        (forward-Exchanged renew anthropic res quota r known)

  limited-Admitted :
      (limiter : Option (String → String → QuotaStatus)) (res : Resolution) (r : Request)
      → res.account_id == "" ≡ false
      → Admitted limiter res (limited renew anthropic now limiter res r)
  limited-Admitted none res r known = inr (tt, limited-Exchanged none res r known tt)
  limited-Admitted (some status) res r known =
      let quota = status res.person_id res.account_id in
      elim (Bool-cases quota.over) [
        | inl e ↦
            subst (Admitted (some status) res)
              (sym (limited-at_quota status res r known ∙ at_quota-over quota res r e))
              (inl (refl, tt))
        | inr e ↦ inr (e, limited-Exchanged (some status) res r known e)
      ]

  admit-Admitted :
      (limiter : Option (String → String → QuotaStatus)) (res : Resolution) (r : Request)
      → res.account_id == "" ≡ false
      → Admitted limiter res (admit renew anthropic now limiter res r)
  unfolding admit
  admit-Admitted limiter res r known =
      elim (Bool-cases (r.read_fails || ltb max_request_body (String.len r.body))) [
        | inl e ↦ rw e (inl (refl, tt))
        | inr e ↦ rw e (limited-Admitted limiter res (with_hour_cache r) known)
      ]

  -- As `Admitted`, with the resolution of the key.
  abbrev pub Served :
      (String → Resolved)
      → Option (String → String → QuotaStatus)
      → String
      → List Forwarded × Option Reply
      → Type 0
  Served resolve limiter key out =
      ((out.0 ≡ []) × NotRefused out.1)
      ⊎ ((res : Resolution) × (resolve key ≡ resolved res)
          × InQuota limiter res
          × Exchanged anthropic res out)

  on_resolved-Served :
      (resolve : String → Resolved) (limiter : Option (String → String → QuotaStatus))
      (key : String) (r : Request)
      → KnowsAccounts resolve
      → (o : Resolved) → resolve key ≡ o
      → Served resolve limiter key (on_resolved renew anthropic now limiter o r)
  unfolding on_resolved
  on_resolved-Served resolve limiter key r known unknown_key e = inl (refl, tt)
  on_resolved-Served resolve limiter key r known (unusable err) e = inl (refl, tt)
  on_resolved-Served resolve limiter key r known (resolved res) e =
      elim (admit-Admitted limiter res r (known key res e)) [
        | inl turned_away ↦ inl turned_away
        | inr (h, x) ↦ inr (res, e, h, x)
      ]

  -- What a request of a member comes to, if the upstream knows the account of every key that it
  -- resolves. Either nothing goes out to Anthropic and the member gets an answer of the gateway's;
  -- or the key resolves, the quota, if there is one, is not used up, and Anthropic is asked once with
  -- the token of the resolution, or twice, when it refused that token, the second time with another
  -- one; what goes out carries the token in place of the member's key, and the member gets an answer
  -- that is not Anthropic's refusal of the login.
  pub serve-Served :
      (resolve : String → Resolved) (limiter : Option (String → String → QuotaStatus)) (r : Request)
      → KnowsAccounts resolve
      → Served resolve limiter (member_key r.header) (serve renew anthropic now resolve limiter r)
  unfolding serve
  serve-Served resolve limiter r known = elim (Bool-cases (member_key r.header == "")) [
    | inl e ↦ rw (serve, e) (inl (refl, tt))
    | inr e ↦
        rw (serve, e)
          (on_resolved-Served resolve limiter (member_key r.header) r known
            (resolve (member_key r.header)) refl)
  ]

  -- A request with a key that resolves to a known account, whose body can be read and is not longer
  -- than the gateway takes, and whose quota, if there is one, is not used up, does go out to Anthropic, in
  -- one or two exchanges as above, and is answered.
  pub serve-forwards :
      (resolve : String → Resolved) (limiter : Option (String → String → QuotaStatus)) (r : Request)
      (res : Resolution)
      → member_key r.header == "" ≡ false
      → resolve (member_key r.header) ≡ resolved res
      → res.account_id == "" ≡ false
      → (r.read_fails || ltb max_request_body (String.len r.body)) ≡ false
      → InQuota limiter res
      → Exchanged anthropic res (serve renew anthropic now resolve limiter r)
  unfolding serve
  serve-forwards resolve limiter r res key e known fits h =
      rw (serve, key, e, on_resolved, admit, fits)
        (limited-Exchanged limiter res (with_hour_cache r) known h)
